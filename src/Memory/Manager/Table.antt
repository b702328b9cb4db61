-- ===== src/Memory/Manager/Table.antt =====
-- Well-formed tables of regions, and the operations on them.
use emulite.Base.{ℕ, ◌%◌, ◌≤◌, ◌<◌, ◌≡◌, List, arith}
use emulite.Memory.Regions.{Region, carve, record_region}
use emulite.Memory.Regions.Views.{hits, hits-carve, hits-record_region}
use emulite.Memory.Regions.Proper.{Region-IsProper, All, carve-All, record_region-All}
use emulite.Memory.Manager.{protect_regions}
use emulite.Memory.Manager.Parts.{hits-protect_regions, protect_regions-All}

-- no byte is in two regions; every region is whole pages inside the address space
pub record IsTable (limit : ℕ) (rs : List Region) : Type 0 where
  pub disjoint : (x : ℕ) → hits x rs ≤ 1
  pub proper : All (Region-IsProper limit) rs

pub carve-IsTable :
    (limit lo hi : ℕ) (rs : List Region)
    → lo % 4096 ≡ 0
    → hi % 4096 ≡ 0
    → lo ≤ hi
    → IsTable limit rs
    → IsTable limit (carve lo hi rs)
carve-IsTable limit lo hi rs a b o t = record {
  disjoint = λ x. ground (arith, t.disjoint x, hits-carve x lo hi rs o);
  proper = carve-All limit lo hi a b rs t.proper;
}

pub record_region-IsTable :
    (limit : ℕ) (r : Region) (rs : List Region)
    → Region-IsProper limit r
    → IsTable limit rs
    → IsTable limit (record_region r rs)
record_region-IsTable limit r rs p t = record {
  disjoint = λ x. ground (arith, t.disjoint x, hits-record_region x r rs);
  proper = record_region-All limit r rs p t.proper;
}

pub protect_regions-IsTable :
    (limit lo hi perms : ℕ) (rs : List Region)
    → lo % 4096 ≡ 0
    → hi % 4096 ≡ 0
    → lo < hi
    → hi ≤ limit
    → IsTable limit rs
    → IsTable limit (protect_regions lo hi perms rs)
protect_regions-IsTable limit lo hi perms rs a b o f t = record {
  disjoint = λ x. hits-protect_regions lo hi perms o x rs (t.disjoint x);
  proper = protect_regions-All limit lo hi perms a b o f rs t.proper;
}
