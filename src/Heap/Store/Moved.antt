-- ===== src/Heap/Store/Moved.antt =====
-- What `calloc` and `realloc` leave in the blocks.
use emulite.Base.{
  ℕ, zero, suc, ◌+◌, ◌*◌, ◌-◌, ◌^◌, ◌≤◌, ◌<◌, ◌≡◌, ◌≢◌, refl, ap, ◌∙◌, inl, inr, min, none, some,
  List, length, replicate, length-replicate, arith, ltb, ◌==◌, Bool-cases, Option-cases, Option,
  some, false,
}
use emulite.Base.Int.{pos}
use emulite.Base.Dict.{lookup, insert, erase, lookup-insert}
use emulite.Base.Action.{Result, ok, err}
use mathlib.Core.Path.{subst}
use emulite.Guest.{GuestMemory}
use emulite.Heap.{HeapAllocator, malloc, release}
use emulite.Heap.Covers.{inside, covers}
use emulite.Heap.Invariant.{IsValid, rounded}
use emulite.Heap.Place.{Allocated, malloc-Allocated}
use emulite.Heap.Laws.{release-Released}
use emulite.Heap.Store.{Store, zeroed, calloc, freeing, copied, realloc}
use emulite.Heap.Store.Blocks.{live_size, live_ne_zero, live_apart}

module _ (g : GuestMemory) where
  -- the bytes of the block that is live at an address
  abbrev pub contents : ℕ → HeapAllocator → g.Memory → Option (List ℕ)
  contents addr h m = elim (lookup addr h.sizes) [ none ↦ none | some s ↦ some (g.read addr s m) ]

  -- every block that is live in `h` has the bytes that it had
  abbrev pub Untouched : HeapAllocator → g.Memory → g.Memory → Type 0
  Untouched h m m' = (addr : ℕ) → contents addr h m' ≡ contents addr h m

  Untouched-write :
      (n size : ℕ) (bytes : List ℕ) (h : HeapAllocator) (m : g.Memory)
      → IsValid h
      → 0 < size
      → length bytes ≤ size
      → ((x : ℕ) → covers rounded x h.sizes + inside n (n + rounded size) x ≤ inside h.base h.end x)
      → Untouched h m (g.write n bytes m)
  Untouched-write n size bytes h m v p short free k = elim (Option-cases (lookup k h.sizes)) [
    | inl e ↦ rw (e, contents) refl
    | inr (s, e) ↦
        rw (e, contents)
          (ap some (
            g.read-write_apart k s n bytes m (elim (live_apart v n size k s p free e) [
              | inl l ↦ inl l
              | inr l ↦ inr (omega (arith, l))
            ])))
  ]

  -- What a `calloc` of `total` bytes has come to: 0 and nothing changed, or a new block, as
  -- `malloc` makes it, that is all zeros, with the bytes of the live blocks as they were.
  abbrev pub Cleared : ℕ → Store g → Result ℕ × Store g → Type 0
  Cleared total (h, m) (err _, s) = ⊥
  Cleared total (h, m) (ok zero, (h', m')) = (h' ≡ h) × (m' ≡ m)
  Cleared total (h, m) (ok (suc n), (h', m')) =
      Allocated total h (ok (suc n), h')
      × (g.read (suc n) total m' ≡ replicate total 0)
      × Untouched h m m'

  zeroed-Cleared :
      (total : ℕ) (h : HeapAllocator) (m : g.Memory) (r : Result ℕ × HeapAllocator)
      → IsValid h
      → 0 < total
      → Allocated total h r
      → Cleared total (h, m) (zeroed g total r m)
  unfolding zeroed
  zeroed-Cleared total h m (err e, h') v p bad = bad
  zeroed-Cleared total h m (ok zero, h') v p same = (same, refl)
  zeroed-Cleared total h m (ok (suc n), h') v p new =
      let long : length (replicate total 0) ≡ total = length-replicate total 0 in
      let m' = g.write (suc n) (replicate total 0) m in
      (
        new,
        subst (λ (k : ℕ). g.read (suc n) k m' ≡ replicate total 0) long
            (g.read-write (suc n) (replicate total 0) m),
        Untouched-write (suc n) total (replicate total 0) h m v p (omega (arith, long)) new.3,
      )

  -- From a valid state, `calloc` of a positive number of bytes returns 0 and changes nothing, or
  -- returns a new block as `malloc` makes it: the block is all zeros, and no block that was live
  -- has changed.
  pub calloc-Cleared :
      (pointer_size count size : ℕ) (h : HeapAllocator) (m : g.Memory)
      → IsValid h
      → 0 < count * size
      → Cleared (count * size) (h, m) (calloc g pointer_size (pos count) (pos size) (h, m))
  unfolding calloc
  calloc-Cleared pointer_size count size h m v p =
      elim (Bool-cases (ltb (2 ^ (pointer_size * 8) - 1) (count * size))) [
        | inl e ↦ rw e (refl, refl)
        | inr e ↦ rw e (
            zeroed-Cleared (count * size) h m (malloc (pos (count * size)) h) v p
              (malloc-Allocated (count * size) h v))
      ]

  -- What a `realloc` of the block at `addr`, `old_size` bytes long, has come to: 0 and nothing
  -- changed, or the address of a valid state's block of the new size, which alone has taken the old
  -- one's place, and begins with the bytes that both sizes hold; the other live blocks have the
  -- bytes that they had.
  abbrev pub Reallocated : ℕ → ℕ → ℕ → Store g → Result ℕ × Store g → Type 0
  Reallocated addr old_size size (h, m) (err _, s) = ⊥
  Reallocated addr old_size size (h, m) (ok zero, (h', m')) = (h' ≡ h) × (m' ≡ m)
  Reallocated addr old_size size (h, m) (ok (suc n), (h', m')) =
      IsValid h'
      × (h'.sizes ≡ erase addr (insert (suc n) size h.sizes))
      × (g.read (suc n) (min old_size size) m' ≡ g.read addr (min old_size size) m)
      × Untouched h m m'

  -- `free` of a live block in the middle of `realloc`
  freed :
      (answer addr size : ℕ) (h : HeapAllocator) (m : g.Memory)
      → IsValid h
      → lookup addr h.sizes ≡ some size
      → (h' : HeapAllocator) × (freeing g answer addr h m ≡ (ok answer, (h', m)))
        × (h'.sizes ≡ erase addr h.sizes)
        × IsValid h'
  unfolding freeing
  freed answer addr size h m v e =
      let nz : 0 < addr = live_ne_zero v addr size e in
      elim (release-Released addr h v) [
        | inl p ↦ absurd (omega (arith, p.0))
        | inr (inl p) ↦ absurd (ground (arith, p.1))
        | inr (inr p) ↦ ((release addr h).1, rw (p.2, freeing) refl, p.3, p.4)
      ]

  copied-Reallocated :
      (addr old_size size : ℕ) (h : HeapAllocator) (m : g.Memory) (r : Result ℕ × HeapAllocator)
      → IsValid h
      → lookup addr h.sizes ≡ some old_size
      → 0 < size
      → Allocated size h r
      → Reallocated addr old_size size (h, m) (copied g addr old_size size r m)
  unfolding copied
  copied-Reallocated addr old_size size h m (err e, h') v live p bad = bad
  copied-Reallocated addr old_size size h m (ok zero, h') v live p same = (same, refl)
  copied-Reallocated addr old_size size h m (ok (suc n), h') v live p new =
      let bytes = g.read addr (min old_size size) m in
      let long : length bytes ≡ min old_size size = g.length-read addr (min old_size size) m in
      let m' = g.write (suc n) bytes m in
      let positive = live_size v addr old_size live in
      let other : suc n ≢ addr = λ same.
        elim (live_apart v (suc n) size addr old_size p new.3 live) [
          | inl l ↦ omega (arith, l)
          | inr l ↦ omega (arith, l)
        ] in
      let still : lookup addr h'.sizes ≡ some old_size =
        rw new.1 (ground (arith, lookup-insert (suc n) addr size h.sizes)) in
      let (h'', freed_eq, left, valid) = freed (suc n) addr old_size h' m' new.0 still in
      let whole : (old_size == 0) ≡ false = ground arith in
      rw (whole, freed_eq)
        (
          valid,
          left ∙ ap (erase addr) new.1,
          subst (λ (k : ℕ). g.read (suc n) k m' ≡ bytes) long (g.read-write (suc n) bytes m),
          Untouched-write (suc n) size bytes h m v p (omega (arith, long)) new.3,
        )

  -- From a valid state, `realloc` of a live block to a positive size returns 0 and changes nothing,
  -- or returns a new address and keeps the state valid: the old block is no longer live, the new
  -- one has the size asked for and begins with the bytes that both sizes hold, and the blocks that
  -- were live have the bytes that they had.
  pub realloc-Reallocated :
      (addr old_size size : ℕ) (h : HeapAllocator) (m : g.Memory)
      → IsValid h
      → lookup addr h.sizes ≡ some old_size
      → 0 < size
      → Reallocated addr old_size size (h, m) (realloc g addr (pos size) (h, m))
  unfolding realloc
  realloc-Reallocated addr old_size size h m v live p =
      let nz : 0 < addr = live_ne_zero v addr old_size live in
      let not_null : (addr == 0) ≡ false = ground arith in
      let not_empty : (size == 0) ≡ false = ground arith in
      rw (not_null, live, not_empty)
        (copied-Reallocated addr old_size size h m (malloc (pos size) h) v live p
          (malloc-Allocated size h v))
