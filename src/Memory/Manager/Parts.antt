-- ===== src/Memory/Manager/Parts.antt =====
-- What `protect` does to the table.
use emulite.Base.{
  ℕ, ◌-◌, ◌%◌, ◌≤◌, ◌<◌, ◌≡◌, refl, ◌∙◌, min, max, Bool, true, false, Option, none, some, List, [],
  ◌∷◌, ◌++◌, ◌&&◌, ◌||◌, ltb, arith, if◌then◌else◌, Bool-cases, inl, inr,
}
use Prim.Native.String.{String}
use emulite.Memory.Regions.{Region, end_of, region_contains, carve, overlaps}
use emulite.Memory.Regions.Views.{
  hits, view, in_range, or_else, hits-++, view-++, hits-carve, view-carve, hits-sort, view-sort,
}
use emulite.Memory.Regions.Proper.{Region-IsProper, All, All-++, All-sort, carve-All}
use emulite.Memory.Manager.{protected_parts, or_whole, protect_regions}

-- what a part says of a byte of the region it was cut from
abbrev pub repaint : ℕ → Option (ℕ × String) → Option (ℕ × String)
repaint perms none = none
repaint perms (some (_, label)) = some (perms, label)

-- a region reaches into the range
abbrev pub touches : ℕ → ℕ → List Region → Bool
touches lo hi [] = false
touches lo hi (r ∷ rs) = ltb r.base hi && ltb lo (end_of r) || touches lo hi rs

-- What `protect` is to make of a byte: in the range, the new permissions and the label that it has;
-- where nothing at all is mapped in the range, the whole range without a label.
abbrev pub painted : ℕ → ℕ → ℕ → ℕ → List Region → Option (ℕ × String)
painted lo hi perms x rs =
    if in_range lo hi x
    then (if touches lo hi rs then repaint perms (view x rs) else some (perms, ""))
    else view x rs

module _ (lo hi perms : ℕ) (ordered : lo < hi) where
  -- one region's part of the range
  abbrev part : Region → Region
  part r = record {
    base = max r.base lo;
    size = min (end_of r) hi - max r.base lo;
    perms = perms;
    label = r.label;
  }

  contains-part :
      (x : ℕ) (r : Region)
      → overlaps lo hi r ≡ true
      → region_contains (part r) x ≡ (in_range lo hi x && region_contains r x)
  unfolding overlaps
  contains-part x r over = ground arith

  apart :
      (x : ℕ) (r : Region)
      → overlaps lo hi r ≡ false
      → (in_range lo hi x && region_contains r x) ≡ false
  unfolding overlaps
  apart x r over = ground arith

  hits-protected_parts :
      (x : ℕ) (rs : List Region)
      → hits x (protected_parts lo hi perms rs) ≡ (if in_range lo hi x then hits x rs else 0)
  unfolding protected_parts
  hits-protected_parts x [] = ground arith
  hits-protected_parts x (r ∷ rs) = elim (Bool-cases (overlaps lo hi r)) [
    | inl over ↦ rw over (rw (contains-part x r over) (ground (arith, hits-protected_parts x rs)))
    | inr free ↦ rw free (ground (arith, apart x r free, hits-protected_parts x rs))
  ]

  view-protected_parts :
      (x : ℕ) (rs : List Region)
      → view x (protected_parts lo hi perms rs)
        ≡ (if in_range lo hi x then repaint perms (view x rs) else none)
  unfolding protected_parts
  view-protected_parts x [] = ground arith
  view-protected_parts x (r ∷ rs) = elim (Bool-cases (overlaps lo hi r)) [
    | inl over ↦ rw over (rw (contains-part x r over) (ground (arith, view-protected_parts x rs)))
    | inr free ↦ rw free (ground (arith, apart x r free, view-protected_parts x rs))
  ]

  hits-or_whole :
      (x : ℕ) (rs : List Region)
      → hits x (or_whole lo hi perms (protected_parts lo hi perms rs))
        ≤ (if in_range lo hi x then max 1 (hits x rs) else 0)
  unfolding or_whole
  hits-or_whole x rs = by_parts (protected_parts lo hi perms rs) (hits-protected_parts x rs)
    where
      by_parts :
          (ps : List Region)
          → hits x ps ≡ (if in_range lo hi x then hits x rs else 0)
          → hits x (or_whole lo hi perms ps) ≤ (if in_range lo hi x then max 1 (hits x rs) else 0)
      by_parts [] e = ground arith
      by_parts (p ∷ ps) e = ground (arith, e)

  -- no byte is in two regions after `protect` either
  pub hits-protect_regions :
      (x : ℕ) (rs : List Region) → hits x rs ≤ 1 → hits x (protect_regions lo hi perms rs) ≤ 1
  unfolding protect_regions
  hits-protect_regions x rs h =
      let ps = or_whole lo hi perms (protected_parts lo hi perms rs) in
      ground (
        arith,
        hits-sort x (carve lo hi rs ++ ps),
        hits-++ x (carve lo hi rs) ps,
        hits-carve x lo hi rs (omega arith),
        hits-or_whole x rs,
      )

  view-protect_regions :
      (x : ℕ) (p : Region) (ps rs : List Region)
      → hits x rs ≤ 1
      → protected_parts lo hi perms rs ≡ p ∷ ps
      → view x (protect_regions lo hi perms rs)
        ≡ (if in_range lo hi x then repaint perms (view x rs) else view x rs)
  unfolding protect_regions or_whole
  view-protect_regions x p ps rs h some_mapped =
      let parts = protected_parts lo hi perms rs in
      let carved = carve lo hi rs in
      let same : or_whole lo hi perms parts ≡ parts = rw some_mapped refl in
      let few : hits x (carved ++ parts) ≤ 1 = ground (
        arith,
        hits-++ x carved parts,
        hits-carve x lo hi rs (omega arith),
        hits-protected_parts x rs,
      ) in
      rw
        (
          same,
          view-sort x (carved ++ parts) few,
          view-++ x carved parts,
          view-carve x lo hi rs (omega arith),
          view-protected_parts x rs,
        )
        (both (in_range lo hi x) (view x rs))
    where
      both :
          (b : Bool) (o : Option (ℕ × String))
          → or_else (if b then none else o) (if b then repaint perms o else none)
            ≡ (if b then repaint perms o else o)
      both true o = refl
      both false none = refl
      both false (some v) = refl

  view-protect_free :
      (x : ℕ) (rs : List Region)
      → hits x rs ≤ 1
      → protected_parts lo hi perms rs ≡ []
      → view x (protect_regions lo hi perms rs)
        ≡ (if in_range lo hi x then some (perms, "") else view x rs)
  unfolding protect_regions or_whole
  view-protect_free x rs h nothing =
      let whole = or_whole lo hi perms (protected_parts lo hi perms rs) in
      let carved = carve lo hi rs in
      let few : hits x (carved ++ whole) ≤ 1 =
        ground (
          arith,
          hits-++ x carved whole,
          hits-carve x lo hi rs (omega arith),
          hits-or_whole x rs,
        ) in
      let only : view x whole ≡ (if in_range lo hi x then some (perms, "") else none) =
        rw nothing (ground arith) in
      view-sort x (carved ++ whole) few
      ∙ view-++ x carved whole
      ∙ rw (only, view-carve x lo hi rs (omega arith)) (either (in_range lo hi x) (view x rs))
    where
      either :
          (b : Bool) (o : Option (ℕ × String))
          → or_else (if b then none else o) (if b then some (perms, "") else none)
            ≡ (if b then some (perms, "") else o)
      either true o = refl
      either false none = refl
      either false (some v) = refl

  protected_parts_touched :
      (rs : List Region)
      → touches lo hi rs ≡ true
      → (p : Region) × (ps : List Region) × (protected_parts lo hi perms rs ≡ p ∷ ps)
  unfolding protected_parts overlaps
  protected_parts_touched [] e = absurd (ground (arith, e))
  protected_parts_touched (r ∷ rs) e = elim (Bool-cases (overlaps lo hi r)) [
    | inl over ↦ rw over (part r, protected_parts lo hi perms rs, refl)
    | inr free ↦ rw free (protected_parts_touched rs (ground (arith, e, free)))
  ]

  protected_parts_untouched :
      (rs : List Region) → touches lo hi rs ≡ false → protected_parts lo hi perms rs ≡ []
  unfolding protected_parts overlaps
  protected_parts_untouched [] e = refl
  protected_parts_untouched (r ∷ rs) e = ground (arith, e, protected_parts_untouched rs)

  pub view-protect_painted :
      (x : ℕ) (rs : List Region)
      → hits x rs ≤ 1
      → view x (protect_regions lo hi perms rs) ≡ painted lo hi perms x rs
  view-protect_painted x rs h = elim (Bool-cases (touches lo hi rs)) [
    | inl some_mapped ↦
        let (p, ps, e) = protected_parts_touched rs some_mapped in
        rw some_mapped (view-protect_regions x p ps rs h e)
    | inr nothing ↦ rw nothing (view-protect_free x rs h (protected_parts_untouched rs nothing))
  ]

module _ (limit lo hi perms : ℕ) (page_lo : lo % 4096 ≡ 0) (page_hi : hi % 4096 ≡ 0)
    (ordered : lo < hi) (fits : hi ≤ limit) where
  protected_parts-All :
      (rs : List Region)
      → All (Region-IsProper limit) rs
      → All (Region-IsProper limit) (protected_parts lo hi perms rs)
  unfolding protected_parts overlaps
  protected_parts-All [] h = tt
  protected_parts-All (r ∷ rs) h = elim (Bool-cases (overlaps lo hi r)) [
    | inl over ↦ rw over (ground (arith, h.0), protected_parts-All rs h.1)
    | inr free ↦ rw free (protected_parts-All rs h.1)
  ]

  or_whole-All :
      (ps : List Region)
      → All (Region-IsProper limit) ps
      → All (Region-IsProper limit) (or_whole lo hi perms ps)
  unfolding or_whole
  or_whole-All [] h = (omega arith, tt)
  or_whole-All (p ∷ ps) h = h

  pub protect_regions-All :
      (rs : List Region)
      → All (Region-IsProper limit) rs
      → All (Region-IsProper limit) (protect_regions lo hi perms rs)
  unfolding protect_regions
  protect_regions-All rs h =
      let ps = protected_parts lo hi perms rs in
      All-sort (Region-IsProper limit) (carve lo hi rs ++ or_whole lo hi perms ps) (
        All-++ (Region-IsProper limit) (carve lo hi rs) (or_whole lo hi perms ps)
          (carve-All limit lo hi page_lo page_hi rs h) (or_whole-All ps (protected_parts-All rs h)))
