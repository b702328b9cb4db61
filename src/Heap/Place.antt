-- ===== src/Heap/Place.antt =====
-- The block that `malloc` finds.
use emulite.Base.{
  ℕ, zero, suc, ◌+◌, ◌%◌, ◌≤◌, ◌<◌, ◌≡◌, refl, Option, none, some, List, [], ◌∷◌, arith, ◌==◌,
  false,
}
use emulite.Base.Int.{pos}
use emulite.Base.Action.{Result, ok, err}
use emulite.Base.Dict.{Dict, lookup, insert}
use emulite.Heap.{
  HeapAllocator, first_fit, take_free, bump, place, enter, malloc, take_found, or_bump,
}
use emulite.Heap.Covers.{covers, inside}
use emulite.Heap.Sort.{sorted}
use emulite.Heap.Invariant.{IsValid, rounded, round_up_bounds}
use emulite.Heap.Hole.{HasHole, hole_bounds, HasHole-enter, IsValid-bump, IsValid-carve}

-- what the search over the sorted addresses returns is a block of the dict that is large enough
pub first_fit_lem :
    (need : ℕ) (keys : List ℕ) (free : Dict ℕ) (addr block : ℕ)
    → first_fit need keys free ≡ some (addr, block)
    → (lookup addr free ≡ some block) × (need ≤ block)
unfolding first_fit
first_fit_lem need [] free addr block h = absurd (ground arith)
first_fit_lem need (k ∷ keys) free addr block h =
    ground (arith, first_fit_lem need keys free addr block)

-- what an attempt to place `need` bytes in `h` has come to
abbrev pub Placed : ℕ → HeapAllocator → Option ℕ × HeapAllocator → Type 0
Placed need h (none, h') = h' ≡ h
Placed need h (some addr, h') =
    HasHole addr need h' × (h'.sizes ≡ h.sizes) × (h'.base ≡ h.base) × (h'.end ≡ h.end)

module _ (need : ℕ) (h : HeapAllocator) (v : IsValid h) (p : 0 < need) (a : need % 16 ≡ 0) where
  take_found-Placed :
      (found : Option (ℕ × ℕ))
      → first_fit need (sorted h.free) h.free ≡ found
      → Placed need h (take_found need h found)
  unfolding take_found
  take_found-Placed none e = refl
  take_found-Placed (some (addr, block)) e =
      let hit = first_fit_lem need (sorted h.free) h.free addr block e in
      (IsValid-carve need addr block v hit.0 p a hit.1, refl, refl, refl)

  take_free-Placed : Placed need h (take_free need h)
  unfolding take_free
  take_free-Placed = take_found-Placed (first_fit need (sorted h.free) h.free) refl

  bump-Placed : Placed need h (bump need h)
  unfolding bump
  bump-Placed = ground (arith, IsValid-bump need v p a)

  or_bump-Placed : (r : Option ℕ × HeapAllocator) → Placed need h r → Placed need h (or_bump need r)
  unfolding or_bump
  or_bump-Placed (none, h') same = rw same bump-Placed
  or_bump-Placed (some addr, h') placed = placed

  pub place-Placed : Placed need h (place need h)
  unfolding place
  place-Placed = or_bump-Placed (take_free need h) take_free-Placed

-- What a request for `size` bytes in `h` has come to: 0 and nothing changed, or the address of a
-- new block that is aligned and in the arena, and that shares no byte with a live one.
abbrev pub Allocated : ℕ → HeapAllocator → Result ℕ × HeapAllocator → Type 0
Allocated size h (err _, h') = ⊥
Allocated size h (ok zero, h') = h' ≡ h
Allocated size h (ok (suc n), h') =
    IsValid h'
    × (h'.sizes ≡ insert (suc n) size h.sizes)
    × (suc n % 16 ≡ 0)
    × ((x : ℕ)
        → covers rounded x h.sizes + inside (suc n) (suc n + rounded size) x
          ≤ inside h.base h.end x)

pub enter-Allocated :
    (size : ℕ) (h : HeapAllocator) (r : Option ℕ × HeapAllocator)
    → 0 < size
    → Placed (rounded size) h r
    → Allocated size h (enter size r)
unfolding enter
enter-Allocated size h (none, h') p same = same
enter-Allocated size h (some zero, h') p placed = absurd (
    omega (
      arith,
      placed.0.positive,
      hole_bounds placed.0 0 (omega arith) (omega (arith, placed.0.hole.0)),
    ))
enter-Allocated size h (some (suc n), h') p (hole, same, base, end) =
    (HasHole-enter hole p, rw same, hole.hole.1, disjoint)
  where
    disjoint :
        (x : ℕ)
        → covers rounded x h.sizes + inside (suc n) (suc n + rounded size) x ≤ inside h.base h.end x
    disjoint x =
        let live : covers rounded x h'.sizes ≡ covers rounded x h.sizes = rw same refl in
        ground (arith, hole.tiled x, hole.within, live)

pub malloc_pos :
    (n : ℕ) (h : HeapAllocator) → malloc (pos (suc n)) h ≡ enter (suc n) (place (rounded (suc n)) h)
unfolding malloc
malloc_pos n h = let e : (suc n == 0) ≡ false = ground arith in rw e

-- From a valid state, `malloc` of a size that is not negative returns 0 and changes nothing, or
-- returns a new block and keeps the state valid: the block is aligned, lies in the arena, shares
-- no byte with a live one, and is recorded with the size asked for.
pub malloc-Allocated : (n : ℕ) (h : HeapAllocator) → IsValid h → Allocated n h (malloc (pos n) h)
malloc-Allocated zero h v = unfold malloc in refl
malloc-Allocated (suc n) h v = rw malloc_pos (
    enter-Allocated (suc n) h (place (rounded (suc n)) h) (omega arith) (
      place-Placed (rounded (suc n)) h v (omega (arith, round_up_bounds (suc n)))
        (round_up_bounds (suc n)).2))
