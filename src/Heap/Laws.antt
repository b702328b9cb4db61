-- ===== src/Heap/Laws.antt =====
-- `free` and the arena as a whole: what a call leaves behind on every branch.
use emulite.Base.{
  ℕ, zero, suc, ◌+◌, ◌-◌, ◌≤◌, ◌≡◌, ◌≢◌, refl, ◌⊎◌, none, some, [], ◌∷◌, arith, ◌==◌, Bool-cases,
  Option-cases, eq_cases, inl, inr,
}
use emulite.Base.Action.{Result, ok, err, value_error}
use emulite.Base.Dict.{Dict, lookup, erase}
use emulite.Heap.{HeapAllocator, shrink, settle, insert_free, release, find_ending}
use emulite.Heap.Covers.{covers, whole, covers_next, Entries, lookup-erase_self}
use emulite.Heap.Invariant.{IsValid, IsLive, IsFree, rounded}
use emulite.Heap.Hole.{IsValid-leave}
use emulite.Heap.Release.{insert_free-IsValid}

sizes-shrink : (fuel : ℕ) (h : HeapAllocator) → (shrink fuel h).sizes ≡ h.sizes
unfolding shrink
sizes-shrink zero h = refl
sizes-shrink (suc fuel) h = elim (Option-cases (find_ending h.cursor h.free)) [
  | inl e ↦ rw (e, shrink) refl
  | inr (found, e) ↦
      rw (e, shrink)
        (sizes-shrink fuel (record h { cursor = found.0; free = erase found.0 h.free }))
]

sizes-settle :
    (addr size : ℕ) (free : Dict ℕ) (h : HeapAllocator) → (settle addr size free h).sizes ≡ h.sizes
unfolding settle
sizes-settle addr size free h = elim (Bool-cases (addr + size == h.cursor)) [
  | inl e ↦ rw (e, settle) (sizes-shrink _ (record h { cursor = addr; free = free }))
  | inr e ↦ rw (e, settle) refl
]

sizes-insert_free : (addr size : ℕ) (h : HeapAllocator) → (insert_free addr size h).sizes ≡ h.sizes
unfolding insert_free
sizes-insert_free addr size h = sizes-settle _ _ _ h

-- What `free(addr)` has done to `h`: nothing for a null pointer; an exception and nothing else
-- for an address that no live block begins at; else exactly that block is no longer live.
abbrev pub Released : ℕ → HeapAllocator → Result (Unit {0}) × HeapAllocator → Type 0
Released addr h (r, h') =
    ((addr ≡ 0) × (r ≡ ok tt) × (h' ≡ h))
    ⊎ ((addr ≢ 0) × (lookup addr h.sizes ≡ none) × (r ≡ err value_error) × (h' ≡ h))
    ⊎ ((addr ≢ 0)
        × (lookup addr h.sizes ≢ none)
        × (r ≡ ok tt)
        × (h'.sizes ≡ erase addr h.sizes)
        × IsValid h')

pub release_live :
    (addr size : ℕ) (h : HeapAllocator)
    → addr ≢ 0
    → lookup addr h.sizes ≡ some size
    → release addr h
      ≡ (ok tt, insert_free addr (rounded size) (record h { sizes = erase addr h.sizes }))
unfolding release
release_live addr size h nz e = ground arith

release_unknown :
    (addr : ℕ) (h : HeapAllocator)
    → addr ≢ 0
    → lookup addr h.sizes ≡ none
    → release addr h ≡ (err value_error, h)
unfolding release
release_unknown addr h nz e = ground arith

release_null : (addr : ℕ) (h : HeapAllocator) → addr ≡ 0 → release addr h ≡ (ok tt, h)
unfolding release
release_null addr h z = ground arith

-- From a valid state `free` ends in one of three ways: for 0 it changes nothing; for an address
-- that is not live it raises and changes nothing; for a live one it forgets exactly that block,
-- and the state is valid again.
pub release-Released : (addr : ℕ) (h : HeapAllocator) → IsValid h → Released addr h (release addr h)
release-Released addr h v = elim (eq_cases addr 0) [
  | inl z ↦ rw (release_null addr h z) (inl (z, refl, refl))
  | inr nz ↦ elim (Option-cases (lookup addr h.sizes)) [
    | inl e ↦ rw (release_unknown addr h nz e) (inr (inl (nz, e, refl, refl)))
    | inr (size, e) ↦ rw (release_live addr size h nz e) (
        inr (
          inr (
            nz,
            ground arith,
            refl,
            sizes-insert_free addr (rounded size) (record h { sizes = erase addr h.sizes }),
            insert_free-IsValid (IsValid-leave addr size v e),
          )))
  ]
]

-- In a valid state, after a live block was freed, freeing it again raises and changes nothing.
pub release_twice :
    (addr size : ℕ) (h : HeapAllocator)
    → IsValid h
    → addr ≢ 0
    → lookup addr h.sizes ≡ some size
    → release addr (release addr h).1 ≡ (err value_error, (release addr h).1)
release_twice addr size h v nz e =
    let h' = record h { sizes = erase addr h.sizes } in
    rw (release_live addr size h nz e) (
      release_unknown addr (insert_free addr (rounded size) h') nz (
        rw (sizes-insert_free addr (rounded size) h')
          (lookup-erase_self IsLive addr h.sizes v.live)))

empty_of_uncovered : (d : Dict ℕ) → Entries IsFree d → ((x : ℕ) → covers whole x d ≡ 0) → d ≡ []
empty_of_uncovered [] f c = refl
empty_of_uncovered ((k, u) ∷ d) f c = absurd (ground (arith, c k))

-- When nothing is live the arena is whole again: the cursor is back at its base and no free
-- block is listed.
pub empty_arena :
    (h : HeapAllocator) → IsValid h → h.sizes ≡ [] → (h.cursor ≡ h.base) × (h.free ≡ [])
empty_arena h v e =
    (back, empty_of_uncovered h.free v.free (λ x. ground (arith, v.tiled x, no_live x, back)))
  where
    no_live : (x : ℕ) → covers rounded x h.sizes ≡ 0
    no_live x = rw e refl

    no_top : (t : ℕ) → h.cursor ≡ suc t → covers whole t h.free ≤ covers whole (suc t) h.free
    no_top t p = covers_next t h.free (rw (← p) v.top)

    back : h.cursor ≡ h.base
    back = elim (eq_cases h.cursor h.base) [
      | inl p ↦ p
      | inr p ↦
          let t = h.cursor - 1 in
          absurd (
            ground (
              arith,
              v.tiled t,
              v.tiled (suc t),
              no_live t,
              no_live (suc t),
              no_top t (omega arith),
            ))
    ]
