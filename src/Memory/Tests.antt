-- ===== src/Memory/Tests.antt =====
-- The theorems on the memory manager, at concrete calls and tables.
use emulite.Base.{
  ℕ, ◌+◌, ◌-◌, ◌≤◌, ◌≡◌, refl, none, some, List, [], ◌∷◌, arith, if◌then◌else◌, false, inr, inl,
}
use emulite.Base.Int.{pos, negsuc}
use emulite.Base.Action.{pure}
use emulite.Memory.Layout.{mmap_base, page_align_up, page_align_down}
use emulite.Memory.Regions.{Region, end_of, region_contains, carve, record_region}
use emulite.Memory.Regions.Views.{hits, view, in_range}
use emulite.Memory.Backend.{Backend}
use emulite.Memory.Manager.{Manager, init, map_range, unmap, protect, find_mmap_hole}
use emulite.Memory.Manager.Parts.{painted}
use emulite.Memory.Manager.Holes.{find_mmap_hole_free}
use emulite.Memory.Manager.Effects.{Shows, map_range-Shows, unmap-Shows, protect-Shows}
use emulite.Memory.Manager.Sound.{IsSound}
use emulite.Memory.Manager.Session.{
  Call, map_call, protect_call, unmap_call, mmap_call, reserve_call, poison_call, brk_call, run,
  run-IsSound,
}

-- an engine that never raises
abbrev calm : Backend
calm = record {
  Machine = Unit {0};
  mem_map = λ _ _ _. pure tt;
  mem_protect = λ _ _ _. pure tt;
  mem_unmap = λ _ _. pure tt;
  mem_read = λ _ _. pure [];
  mem_write = λ _ _. pure tt;
}

abbrev stack : Region
stack = record { base = 0x3000; size = 0x4000; perms = 3; label = "stack" }

abbrev code : Region
code = record { base = 0x5000; size = 0x1000; perms = 5; label = "code" }

-- the second page of the arena is taken
abbrev taken : Region
taken = record { base = 0x2000_1000; size = 0x1000; perms = 3; label = "mmap" }

abbrev busy : Manager calm
busy = record {
  machine = tt;
  heap = 0x0800_0000;
  heap_mapped_end = 0x0800_0000;
  mmap_cursor = 0x2000_0000;
  lib = 0x4000_0000;
  poison = 0x5F00_0000;
  regions = stack ∷ [];
}

abbrev calls : List Call
calls =
    map_call (pos 0x3000) (pos 0x4000) 3 "stack" false
    ∷ mmap_call (pos 10) 3 "mmap"
    ∷ protect_call (pos 0x3800) (pos 1) 1
    ∷ brk_call (pos 0x0800_1234)
    ∷ reserve_call (pos 5000) (pos 0)
    ∷ poison_call
    ∷ unmap_call (pos 0x3000) (pos 0x4000)
    ∷ brk_call (negsuc 0)
    ∷ []

run-IsSound_example : IsSound calm 8 (run calm 8 calls (init calm tt))
run-IsSound_example = run-IsSound calm 8 calls tt

few : (x : ℕ) → hits x (stack ∷ []) ≤ 1
few x = ground arith

map_range-Shows_example :
    Shows calm 8 busy 0x5800
      (if in_range 0x5000 (0x5000 + page_align_up 100) 0x5800
        then some (5, "code")
        else view 0x5800 busy.regions)
      (map_range calm 8 (pos 0x5000) (pos 100) 5 "code" false busy)
map_range-Shows_example = map_range-Shows calm 8 busy 0x5000 100 5 0x5800 "code" (few 0x5800)

unmap-Shows_example :
    Shows calm 8 busy 0x5800
      (if in_range
          (page_align_down 0x5400)
          (page_align_down 0x5400 + page_align_up (100 + (0x5400 - page_align_down 0x5400)))
          0x5800
        then none
        else view 0x5800 busy.regions)
      (unmap calm 8 (pos 0x5400) (pos 100) busy)
unmap-Shows_example = unmap-Shows calm 8 busy 0x5400 100 0x5800

hole_found : find_mmap_hole 0x1000 0x2000_2000 (taken ∷ []) ≡ some mmap_base
unfolding find_mmap_hole emulite.Memory.Regions.sort_by_base
hole_found = refl

find_mmap_hole_free_example :
    (mmap_base ≤ mmap_base)
    × (mmap_base + 0x1000 ≤ 0x2000_2000)
    × (hits 0x2000_0800 (taken ∷ []) ≡ 0)
find_mmap_hole_free_example =
    find_mmap_hole_free 0x1000 0x2000_2000 mmap_base 0x2000_0800 (taken ∷ [])
      (inr (inl (omega arith, omega arith)), tt) (omega arith) hole_found (omega arith)
      (omega arith)

-- one byte at 0x5800 asks for its whole page
protect-Shows_example :
    Shows calm 8 busy 0x5400
      (painted
        (page_align_down 0x5800)
        (page_align_down 0x5800 + page_align_up (1 + (0x5800 - page_align_down 0x5800)))
        1
        0x5400
        busy.regions)
      (protect calm 8 (pos 0x5800) (pos 1) 1 busy)
protect-Shows_example = protect-Shows calm 8 busy 0x5800 1 1 0x5400 (few 0x5400)
