-- ===== src/Memory/Regions.antt =====
-- src/emulite/memory/memory_region.py, and the bookkeeping of mapped regions in
-- memory_manager.py: `_carve`, `_record`, `find_region`, `permission_at`.
pub mod Views
pub mod Proper
use emulite.Base.{
  ℕ, ◌+◌, ◌-◌, Bool, Option, none, some, List, [], ◌∷◌, ◌++◌, ◌&&◌, ◌||◌, ltb, leb, if◌then◌else◌,
}
use Prim.Native.String.{String}

-- `MemoryRegion`; its constructor's check for a positive size is part of `Region-IsProper`
pub record Region : Type 0 where
  pub base : ℕ
  pub size : ℕ
  pub perms : ℕ
  pub label : String

abbrev pub end_of : Region → ℕ
end_of r = r.base + r.size

abbrev pub region_contains : Region → ℕ → Bool
region_contains r address = leb r.base address && ltb address (end_of r)

-- the parts of a region outside `base`, `end`: the two appends in the loop of `_carve`
unfoldable pub left_part : ℕ → Region → List Region
left_part base r = if ltb r.base base then record r { size = base - r.base } ∷ [] else []

unfoldable pub right_part : ℕ → Region → List Region
right_part end r =
    if ltb end (end_of r) then record r { base = end; size = end_of r - end } ∷ [] else []

-- one round of the loop of `_carve`
unfoldable pub pieces : ℕ → ℕ → Region → List Region
unfolding left_part right_part
pieces base end r =
    if leb (end_of r) base || leb end r.base then r ∷ [] else left_part base r ++ right_part end r

unfoldable pub carve : ℕ → ℕ → List Region → List Region
unfolding pieces
carve base end [] = []
carve base end (r ∷ rs) = pieces base end r ++ carve base end rs

-- `sort(key=lambda r: r.base)`, which is stable
unfoldable pub insort : Region → List Region → List Region
insort r [] = r ∷ []
insort r (s ∷ rs) = if leb r.base s.base then r ∷ s ∷ rs else s ∷ insort r rs

unfoldable pub sort_by_base : List Region → List Region
unfolding insort
sort_by_base [] = []
sort_by_base (r ∷ rs) = insort r (sort_by_base rs)

-- `_record`
unfoldable pub record_region : Region → List Region → List Region
unfolding carve sort_by_base
record_region r rs = sort_by_base (carve r.base (end_of r) rs ++ r ∷ [])

unfoldable pub find_region : ℕ → List Region → Option Region
find_region address [] = none
find_region address (r ∷ rs) = if region_contains r address then some r else find_region address rs

-- NONE where nothing is mapped
unfoldable pub permission_at : ℕ → List Region → ℕ
unfolding find_region
permission_at address rs = elim (find_region address rs) [ none ↦ 0 | some r ↦ r.perms ]

-- the pieces that `protect` collects before it carves them out
unfoldable pub overlaps : ℕ → ℕ → Region → Bool
overlaps base end r = ltb r.base end && ltb base (end_of r)
