-- ===== src/Memory/Manager/Holes.antt =====
-- `_find_mmap_hole`: where its answer lies, and what is mapped there.
use emulite.Base.{
  ℕ, ◌+◌, ◌≤◌, ◌<◌, ◌≡◌, refl, max, some, List, [], ◌∷◌, arith, ltb, leb, ◌&&◌, Bool-cases, inl,
  inr, ◌⊎◌,
}
use emulite.Memory.Layout.{mmap_base, lib_base}
use emulite.Memory.Regions.{Region, end_of, insort, sort_by_base}
use emulite.Memory.Regions.Views.{hits, hits-sort}
use emulite.Memory.Regions.Proper.{All}
use emulite.Memory.Manager.{in_arena, scan_holes, find_mmap_hole}

abbrev Above : ℕ → List Region → Type 0
Above b rs = All (λ r. b ≤ r.base) rs

abbrev pub IsSorted : List Region → Type 0
IsSorted [] = Unit
IsSorted (r ∷ rs) = Above r.base rs × IsSorted rs

Above-weaken : (a b : ℕ) (rs : List Region) → a ≤ b → Above b rs → Above a rs
Above-weaken a b [] h k = tt
Above-weaken a b (r ∷ rs) h k = (omega arith, Above-weaken a b rs h k.1)

Above-insort :
    (b : ℕ) (r : Region) (rs : List Region) → b ≤ r.base → Above b rs → Above b (insort r rs)
unfolding insort
Above-insort b r [] h k = (h, tt)
Above-insort b r (s ∷ rs) h k = elim (Bool-cases (leb r.base s.base)) [
  | inl e ↦ rw e (h, k)
  | inr e ↦ rw e (k.0, Above-insort b r rs h k.1)
]

insort-IsSorted : (r : Region) (rs : List Region) → IsSorted rs → IsSorted (insort r rs)
unfolding insort
insort-IsSorted r [] h = (tt, tt)
insort-IsSorted r (s ∷ rs) h = elim (Bool-cases (leb r.base s.base)) [
  | inl e ↦
      let le : r.base ≤ s.base = ground arith in
      rw e ((le, Above-weaken r.base s.base rs le h.0), h)
  | inr e ↦
      let le : s.base ≤ r.base = ground arith in
      rw e (Above-insort s.base r rs le h.0, insort-IsSorted r rs h.1)
]

pub sort-IsSorted : (rs : List Region) → IsSorted (sort_by_base rs)
unfolding sort_by_base
sort-IsSorted [] = tt
sort-IsSorted (r ∷ rs) = insort-IsSorted r (sort_by_base rs) (sort-IsSorted rs)

hits_below : (b x : ℕ) (rs : List Region) → Above b rs → x < b → hits x rs ≡ 0
hits_below b x [] k h = refl
hits_below b x (r ∷ rs) k h = ground (arith, hits_below b x rs k.1 h)

module _ (need top : ℕ) where
  abbrev Below : List Region → Type 0
  Below rs = All (λ r. r.base < top) rs

  scan_holes_bounds :
      (cursor hole : ℕ) (rs : List Region)
      → Below rs
      → scan_holes need top cursor rs ≡ some hole
      → (cursor ≤ hole) × (hole + need ≤ top)
  unfolding scan_holes
  scan_holes_bounds cursor hole [] k e = ground arith
  scan_holes_bounds cursor hole (r ∷ rs) k e =
      ground (arith, k.0, scan_holes_bounds (max cursor (end_of r)) hole rs k.1)

  scan_holes_free :
      (cursor hole x : ℕ) (rs : List Region)
      → Below rs
      → IsSorted rs
      → scan_holes need top cursor rs ≡ some hole
      → hole ≤ x
      → x < hole + need
      → hits x rs ≡ 0
  unfolding scan_holes
  scan_holes_free cursor hole x [] k s e lo hi = refl
  scan_holes_free cursor hole x (r ∷ rs) k s e lo hi =
      elim (Bool-cases (leb (cursor + need) r.base)) [
        | inl gap ↦
            let same : cursor ≡ hole = ground arith in
            hits_below r.base x (r ∷ rs) (omega arith, s.0) (ground arith)
        | inr no_gap ↦
            let e' : scan_holes need top (max cursor (end_of r)) rs ≡ some hole = ground arith in
            let b = scan_holes_bounds (max cursor (end_of r)) hole rs k.1 e' in
            ground (arith, b, scan_holes_free (max cursor (end_of r)) hole x rs k.1 s.1 e' lo hi)
      ]

  in_arena-Below : (rs : List Region) → Below (in_arena top rs)
  unfolding in_arena
  in_arena-Below [] = tt
  in_arena-Below (r ∷ rs) = elim (Bool-cases (leb mmap_base r.base && ltb r.base top)) [
    | inl e ↦ rw e (ground arith, in_arena-Below rs)
    | inr e ↦ rw e (in_arena-Below rs)
  ]

  Below-insort : (r : Region) (rs : List Region) → r.base < top → Below rs → Below (insort r rs)
  unfolding insort
  Below-insort r [] h k = (h, tt)
  Below-insort r (s ∷ rs) h k = elim (Bool-cases (leb r.base s.base)) [
    | inl e ↦ rw e (h, k)
    | inr e ↦ rw e (k.0, Below-insort r rs h k.1)
  ]

  Below-sort : (rs : List Region) → Below rs → Below (sort_by_base rs)
  unfolding sort_by_base
  Below-sort [] k = tt
  Below-sort (r ∷ rs) k = Below-insort r (sort_by_base rs) k.0 (Below-sort rs k.1)

  -- each region lies below the arena, inside its used part, or above it
  abbrev pub IsPlaced : Region → Type 0
  IsPlaced r =
      (end_of r ≤ mmap_base) ⊎ ((mmap_base ≤ r.base) × (end_of r ≤ top)) ⊎ (lib_base ≤ r.base)

  hits-in_arena :
      (x : ℕ) (rs : List Region)
      → All IsPlaced rs
      → mmap_base ≤ x
      → x < top
      → top ≤ lib_base
      → hits x (in_arena top rs) ≡ hits x rs
  unfolding in_arena
  hits-in_arena x [] p lo hi t = refl
  hits-in_arena x (r ∷ rs) p lo hi t = ground (arith, p.0, hits-in_arena x rs p.1 lo hi t)

  -- Where each region lies below the arena, in its used part or above it, a hole that
  -- `_find_mmap_hole` returns lies in the used part of the arena, and no region holds a byte of
  -- it.
  pub find_mmap_hole_free :
      (hole x : ℕ) (rs : List Region)
      → All IsPlaced rs
      → top ≤ lib_base
      → find_mmap_hole need top rs ≡ some hole
      → hole ≤ x
      → x < hole + need
      → (mmap_base ≤ hole) × (hole + need ≤ top) × (hits x rs ≡ 0)
  unfolding find_mmap_hole
  find_mmap_hole_free hole x rs p t e lo hi =
      let sorted = sort_by_base (in_arena top rs) in
      let k = Below-sort (in_arena top rs) (in_arena-Below rs) in
      let b = scan_holes_bounds mmap_base hole sorted k e in
      let z = scan_holes_free mmap_base hole x sorted k (sort-IsSorted (in_arena top rs)) e lo hi in
      (
        b.0,
        b.1,
        omega (
          arith,
          z,
          hits-sort x (in_arena top rs),
          hits-in_arena x rs p (omega (arith, b)) (omega (arith, b)) t,
        ),
      )
