-- ===== src/Memory/Regions/Views.antt =====
-- What a list of regions says of each byte, and how `_carve` and `_record` change that.
use emulite.Base.{
  ℕ, ◌+◌, ◌≤◌, ◌<◌, ◌≡◌, refl, sym, Bool, Option, none, some, List, [], ◌∷◌, ◌++◌, ◌&&◌, ◌||◌,
  arith, ltb, leb, if◌then◌else◌, Bool-cases, inl, inr,
}
use Prim.Native.String.{String}
use emulite.Memory.Regions.{
  Region, end_of, region_contains, left_part, right_part, pieces, carve, insort, sort_by_base,
  record_region,
}

-- 1 where the region holds byte `x`
abbrev pub holds : Region → ℕ → ℕ
holds r x = if region_contains r x then 1 else 0

-- how many regions hold byte `x`
abbrev pub hits : ℕ → List Region → ℕ
hits x [] = 0
hits x (r ∷ rs) = holds r x + hits x rs

-- the permissions and the label of the first region that holds byte `x`
abbrev pub view : ℕ → List Region → Option (ℕ × String)
view x [] = none
view x (r ∷ rs) = if region_contains r x then some (r.perms, r.label) else view x rs

abbrev pub in_range : ℕ → ℕ → ℕ → Bool
in_range lo hi x = leb lo x && ltb x hi

pub hits-++ : (x : ℕ) (rs ss : List Region) → hits x (rs ++ ss) ≡ hits x rs + hits x ss
hits-++ x [] ss = omega arith
hits-++ x (r ∷ rs) ss = omega (arith, hits-++ x rs ss)

-- a choice that falls back to a second view
abbrev pub or_else : Option (ℕ × String) → Option (ℕ × String) → Option (ℕ × String)
or_else none o = o
or_else (some v) o = some v

pub view-++ : (x : ℕ) (rs ss : List Region) → view x (rs ++ ss) ≡ or_else (view x rs) (view x ss)
view-++ x [] ss = refl
view-++ x (r ∷ rs) ss = elim (Bool-cases (region_contains r x)) [
  | inl e ↦ rw e refl
  | inr e ↦ rw e (view-++ x rs ss)
]

module _ (x base end : ℕ) (r : Region) where
  hits-left_part :
      base < end_of r
      → hits x (left_part base r) ≡ (if region_contains r x && ltb x base then 1 else 0)
  unfolding left_part
  hits-left_part p = ground arith

  hits-right_part :
      r.base < end → hits x (right_part end r) ≡ (if region_contains r x && leb end x then 1 else 0)
  unfolding right_part
  hits-right_part p = ground arith

  view-left_part :
      base < end_of r
      → view x (left_part base r)
        ≡ (if region_contains r x && ltb x base then some (r.perms, r.label) else none)
  unfolding left_part
  view-left_part p = ground arith

  view-right_part :
      r.base < end
      → view x (right_part end r)
        ≡ (if region_contains r x && leb end x then some (r.perms, r.label) else none)
  unfolding right_part
  view-right_part p = ground arith

  hits-pieces :
      base ≤ end → hits x (pieces base end r) ≡ (if in_range base end x then 0 else holds r x)
  unfolding pieces
  hits-pieces p = elim (Bool-cases (leb (end_of r) base || leb end r.base)) [
    | inl apart ↦ rw (apart, pieces) (ground arith)
    | inr over ↦
        rw (over, pieces, hits-++)
          (ground (arith, hits-left_part (ground arith), hits-right_part (ground arith)))
  ]

  view-pieces :
      base ≤ end
      → view x (pieces base end r) ≡ (if in_range base end x then none else view x (r ∷ []))
  unfolding pieces
  view-pieces p = elim (Bool-cases (leb (end_of r) base || leb end r.base)) [
    | inl apart ↦ rw (apart, pieces) (ground arith)
    | inr over ↦
        rw (over, pieces, view-++)
          (rw (view-left_part (ground arith), view-right_part (ground arith)) (ground arith))
  ]

pub hits-carve :
    (x base end : ℕ) (rs : List Region)
    → base ≤ end
    → hits x (carve base end rs) ≡ (if in_range base end x then 0 else hits x rs)
unfolding carve
hits-carve x base end [] p = ground arith
hits-carve x base end (r ∷ rs) p = rw (hits-++) (
    rw (hits-pieces x base end r p, hits-carve x base end rs p)
      (elim (Bool-cases (in_range base end x)) [ inl e ↦ rw e refl | inr e ↦ rw e refl ]))

-- For a range that does not end before it starts, `_carve` forgets the bytes of the range, and
-- keeps the permissions and label of every other byte.
pub view-carve :
    (x base end : ℕ) (rs : List Region)
    → base ≤ end
    → view x (carve base end rs) ≡ (if in_range base end x then none else view x rs)
unfolding carve
view-carve x base end [] p = ground arith
view-carve x base end (r ∷ rs) p = rw (view-++) (
    rw (view-pieces x base end r p, view-carve x base end rs p)
      (elim (Bool-cases (in_range base end x)) [
        | inl e ↦ rw e refl
        | inr e ↦ rw e (sym (view-++ x (r ∷ []) rs))
      ]))

pub hits-insort :
    (x : ℕ) (r : Region) (rs : List Region) → hits x (insort r rs) ≡ holds r x + hits x rs
unfolding insort
hits-insort x r [] = refl
hits-insort x r (s ∷ rs) = ground (arith, hits-insort x r rs)

pub hits-sort : (x : ℕ) (rs : List Region) → hits x (sort_by_base rs) ≡ hits x rs
unfolding sort_by_base
hits-sort x [] = refl
hits-sort x (r ∷ rs) = omega (arith, hits-insort x r (sort_by_base rs), hits-sort x rs)

pub view_unhit : (x : ℕ) (rs : List Region) → hits x rs ≡ 0 → view x rs ≡ none
view_unhit x [] h = refl
view_unhit x (r ∷ rs) h = ground (arith, view_unhit x rs)

view-insort :
    (x : ℕ) (r : Region) (rs : List Region)
    → holds r x + hits x rs ≤ 1
    → view x (insort r rs) ≡ (if region_contains r x then some (r.perms, r.label) else view x rs)
unfolding insort
view-insort x r [] h = refl
view-insort x r (s ∷ rs) h = ground (arith, view-insort x r rs)

-- sorting moves nothing, where no two regions overlap
pub view-sort : (x : ℕ) (rs : List Region) → hits x rs ≤ 1 → view x (sort_by_base rs) ≡ view x rs
unfolding sort_by_base
view-sort x [] h = refl
view-sort x (r ∷ rs) h =
    ground (arith, view-insort x r (sort_by_base rs), hits-sort x rs, view-sort x rs)

hits-append :
    (x : ℕ) (rs : List Region) (r : Region) → hits x (rs ++ r ∷ []) ≡ hits x rs + holds r x
hits-append x [] r = omega arith
hits-append x (s ∷ rs) r = omega (arith, hits-append x rs r)

view-append :
    (x : ℕ) (rs : List Region) (r : Region)
    → hits x rs + holds r x ≤ 1
    → view x (rs ++ r ∷ []) ≡ (if region_contains r x then some (r.perms, r.label) else view x rs)
view-append x [] r h = refl
view-append x (s ∷ rs) r h = ground (arith, view-append x rs r)

pub hits-record_region :
    (x : ℕ) (r : Region) (rs : List Region)
    → hits x (record_region r rs) ≡ (if region_contains r x then 1 else hits x rs)
unfolding record_region
hits-record_region x r rs = ground (
  arith,
  hits-sort x (carve r.base (end_of r) rs ++ r ∷ []),
  hits-append x (carve r.base (end_of r) rs) r,
  hits-carve x r.base (end_of r) rs,
)

-- For a byte that at most one region holds, `_record` gives it the permissions and the label of
-- the new region where that one holds it, and keeps what it had elsewhere.
pub view-record_region :
    (x : ℕ) (r : Region) (rs : List Region)
    → hits x rs ≤ 1
    → view x (record_region r rs)
      ≡ (if region_contains r x then some (r.perms, r.label) else view x rs)
unfolding record_region
view-record_region x r rs h = ground (
  arith,
  view-sort x (carve r.base (end_of r) rs ++ r ∷ []),
  hits-append x (carve r.base (end_of r) rs) r,
  hits-carve x r.base (end_of r) rs,
  view-append x (carve r.base (end_of r) rs) r,
  view-carve x r.base (end_of r) rs,
)
