-- ===== src/Memory/Regions/Proper.antt =====
-- Regions of whole pages inside the address space, and the operations on a table of them.
use emulite.Base.{
  ℕ, ◌%◌, ◌≤◌, ◌<◌, ◌≡◌, List, [], ◌∷◌, ◌++◌, ◌||◌, arith, leb, Bool-cases, inl, inr,
}
use emulite.Memory.Regions.{
  Region, end_of, left_part, right_part, pieces, carve, insort, sort_by_base, record_region,
}

abbrev pub Region-IsProper : ℕ → Region → Type 0
Region-IsProper limit r =
    (0 < r.size) × (r.base % 4096 ≡ 0) × (r.size % 4096 ≡ 0) × (end_of r ≤ limit)

abbrev pub All : (Region → Type 0) → List Region → Type 0
All P [] = Unit
All P (r ∷ rs) = P r × All P rs

module _ (P : Region → Type 0) where
  pub All-++ : (rs ss : List Region) → All P rs → All P ss → All P (rs ++ ss)
  All-++ [] ss h k = k
  All-++ (r ∷ rs) ss h k = (h.0, All-++ rs ss h.1 k)

  All-insort : (r : Region) (rs : List Region) → P r → All P rs → All P (insort r rs)
  unfolding insort
  All-insort r [] p h = (p, tt)
  All-insort r (s ∷ rs) p h = elim (Bool-cases (leb r.base s.base)) [
    | inl e ↦ rw e (p, h)
    | inr e ↦ rw e (h.0, All-insort r rs p h.1)
  ]

  pub All-sort : (rs : List Region) → All P rs → All P (sort_by_base rs)
  unfolding sort_by_base
  All-sort [] h = tt
  All-sort (r ∷ rs) h = All-insort r (sort_by_base rs) h.0 (All-sort rs h.1)

module _ (limit lo hi : ℕ) (page_lo : lo % 4096 ≡ 0) (page_hi : hi % 4096 ≡ 0) where
  left_part-All :
      (r : Region)
      → Region-IsProper limit r
      → lo < end_of r
      → All (Region-IsProper limit) (left_part lo r)
  unfolding left_part
  left_part-All r p over = ground (arith, p)

  right_part-All :
      (r : Region)
      → Region-IsProper limit r
      → r.base < hi
      → All (Region-IsProper limit) (right_part hi r)
  unfolding right_part
  right_part-All r p over = ground (arith, p)

  pieces-All : (r : Region) → Region-IsProper limit r → All (Region-IsProper limit) (pieces lo hi r)
  unfolding pieces
  pieces-All r p = elim (Bool-cases (leb (end_of r) lo || leb hi r.base)) [
    | inl apart ↦ rw (apart, pieces) (p, tt)
    | inr over ↦
        rw (over, pieces)
          (All-++ (Region-IsProper limit) (left_part lo r) (right_part hi r)
            (left_part-All r p (ground arith)) (right_part-All r p (ground arith)))
  ]

  pub carve-All :
      (rs : List Region)
      → All (Region-IsProper limit) rs
      → All (Region-IsProper limit) (carve lo hi rs)
  unfolding carve
  carve-All [] h = tt
  carve-All (r ∷ rs) h =
      All-++ (Region-IsProper limit) (pieces lo hi r) (carve lo hi rs) (pieces-All r h.0)
        (carve-All rs h.1)

pub record_region-All :
    (limit : ℕ) (r : Region) (rs : List Region)
    → Region-IsProper limit r
    → All (Region-IsProper limit) rs
    → All (Region-IsProper limit) (record_region r rs)
unfolding record_region
record_region-All limit r rs p h =
    All-sort (Region-IsProper limit) (carve r.base (end_of r) rs ++ r ∷ []) (
      All-++ (Region-IsProper limit) (carve r.base (end_of r) rs) (r ∷ [])
        (carve-All limit r.base (end_of r) p.1 (omega (arith, p)) rs h) (p, tt))
