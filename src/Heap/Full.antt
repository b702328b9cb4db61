-- ===== src/Heap/Full.antt =====
-- When `malloc` returns 0, and what the search of `_take_free` sees.
use emulite.Base.{
  ℕ, suc, ◌+◌, ◌<◌, ◌≡◌, refl, Bool, true, false, ◌||◌, none, some, List, [], ◌∷◌, arith, ◌==◌,
  Option-cases, inl, inr,
}
use emulite.Base.Int.{pos}
use emulite.Base.Action.{ok}
use emulite.Base.Dict.{Dict, lookup}
use emulite.Heap.{
  HeapAllocator, first_fit, take_free, take_found, bump, or_bump, place, enter, malloc,
}
use emulite.Heap.Sort.{insort, sorted}
use emulite.Heap.Invariant.{IsValid, rounded, round_up_bounds, free_block}
use emulite.Heap.Place.{first_fit_lem, malloc_pos}

-- k in l
abbrev listed : ℕ → List ℕ → Bool
listed k [] = false
listed k (j ∷ l) = (j == k) || listed k l

listed-insort : (k j : ℕ) (l : List ℕ) → listed k (insort j l) ≡ ((j == k) || listed k l)
unfolding insort
listed-insort k j [] = refl
listed-insort k j (i ∷ l) = ground (arith, listed-insort k j l)

listed-sorted : (k v : ℕ) (d : Dict ℕ) → lookup k d ≡ some v → listed k (sorted d) ≡ true
unfolding sorted
listed-sorted k v [] e = ground arith
listed-sorted k v ((j, w) ∷ d) e =
    rw (listed-insort k j (sorted d)) (ground (arith, listed-sorted k v d))

-- a search that finds nothing has seen only blocks that are too small
first_fit-none :
    (need k block : ℕ) (keys : List ℕ) (free : Dict ℕ)
    → first_fit need keys free ≡ none
    → listed k keys ≡ true
    → lookup k free ≡ some block
    → block < need
unfolding first_fit
first_fit-none need k block [] free e l h = ground arith
first_fit-none need k block (j ∷ keys) free e l h =
    ground (arith, first_fit-none need k block keys free)

module _ (need size : ℕ) (h : HeapAllocator) (v : IsValid h) where
  place_found :
      (found : ℕ × ℕ)
      → first_fit need (sorted h.free) h.free ≡ some found
      → (enter size (place need h)).0 ≡ ok found.0
  unfolding place take_free take_found or_bump enter
  place_found found e = rw (e, place) refl

  place_bumped :
      first_fit need (sorted h.free) h.free ≡ none
      → (enter size (place need h)).0 ≡ (enter size (bump need h)).0
  unfolding place take_free take_found or_bump
  place_bumped e = rw (e, place) refl

  bump_none : (enter size (bump need h)).0 ≡ ok 0 → h.end < h.cursor + need
  unfolding bump enter
  bump_none e = ground (arith, v.within, v.positive)

-- In a valid state that lists a free block, `malloc` of a positive size returns 0 only when it
-- has to: that block is smaller than the rounded size, and there is no room for it above the
-- cursor.
pub malloc_exhausted :
    (n k block : ℕ) (h : HeapAllocator)
    → IsValid h
    → (malloc (pos (suc n)) h).0 ≡ ok 0
    → lookup k h.free ≡ some block
    → (block < rounded (suc n)) × (h.end < h.cursor + rounded (suc n))
malloc_exhausted n k block h v e l =
    let need = rounded (suc n) in
    let placed : (enter (suc n) (place need h)).0 ≡ ok 0 = rw (← malloc_pos n h) e in
    elim (Option-cases (first_fit need (sorted h.free) h.free)) [
      | inl none_found ↦ (
        first_fit-none need k block (sorted h.free) h.free none_found
            (listed-sorted k block h.free l) l,
        bump_none need (suc n) h v (rw (← place_bumped need (suc n) h v none_found) placed),
      )
      | inr (found, some_found) ↦
          let hit = first_fit_lem need (sorted h.free) h.free found.0 found.1 some_found in
          let low =
            free_block v found.0 found.1 found.0 hit.0 (omega arith)
              (omega (arith, hit.1, round_up_bounds (suc n))) in
          let same = place_found need (suc n) h v found some_found in
          absurd (ground (arith, same, placed, low, v.positive))
    ]
