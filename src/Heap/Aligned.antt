-- ===== src/Heap/Aligned.antt =====
-- `memalign`: a block at an aligned address above the cursor; the gap becomes a free block.
use emulite.Base.{
  ℕ, zero, suc, ◌+◌, ◌-◌, ◌%◌, ◌^◌, ◌≤◌, ◌<◌, ◌≡◌, refl, max, none, arith, ltb, ◌==◌, Bool-cases,
  lt_cases, inl, inr, true, false, not, ◌||◌,
}
use emulite.Base.Int.{ℤ, pos}
use emulite.Base.Action.{Result, ok, err, value_error}
use emulite.Base.Bits.{power_of_two}
use emulite.Base.Dict.{lookup}
use Prim.Native.Nat.{bit_and}
use native.Mathlib.Nat.{zero-mod}
use emulite.Base.Powers
use emulite.Base.Powers.{mod_pow, max_pow}
use emulite.Heap.{
  HeapAllocator, align, arena_size, round_up, pad_to, memalign_place, enter, memalign,
}
use emulite.Heap.Covers.{whole, Entries-insert, covers-insert, find_ending-insert}
use emulite.Heap.Invariant.{IsValid, IsFree, rounded, round_up_bounds, above_cursor, absent_free}
use emulite.Heap.Hole.{HasHole, no_end_above}
use emulite.Heap.Place.{Allocated, Placed, enter-Allocated}

-- rounding up to a power of two
round_up_pow_bounds :
    (k v : ℕ)
    → (v ≤ round_up v (2 ^ k)) × (round_up v (2 ^ k) < v + 2 ^ k) × (round_up v (2 ^ k) % 2 ^ k ≡ 0)
unfolding round_up
round_up_pow_bounds k v = Powers.round_up_bounds k v refl

module _ {h : HeapAllocator} (start need : ℕ) (v : IsValid h) (hole : IsFree start need)
    (above : h.cursor ≤ start) (fits : start + need ≤ h.end) where
  gap_absent : lookup h.cursor h.free ≡ none
  gap_absent = absent_free h.cursor h.free v.free (above_cursor v h.cursor (omega arith)).1

  pad_to-HasHole : HasHole start need (record (pad_to start h) { cursor = start + need })
  unfolding pad_to
  pad_to-HasHole = elim (lt_cases h.cursor start) [
    | inl gap ↦
        let e : ltb h.cursor start ≡ true = ground arith in
        rw (e, pad_to)
          (record {
            positive = v.positive;
            aligned = (v.aligned.0, omega (arith, hole));
            within = (omega (arith, v.within), fits, v.within.2);
            live = v.live;
            free =
                Entries-insert IsFree h.cursor (start - h.cursor) h.free v.free gap_absent
                  (omega arith, v.aligned.1, omega (arith, hole, v.aligned));
            hole = hole;
            tiled = λ x. ground (
              arith,
              v.tiled x,
              v.within,
              covers-insert whole x h.cursor (start - h.cursor) h.free gap_absent,
            );
            top =
                find_ending-insert (start + need) h.cursor (start - h.cursor) h.free
                  (no_end_above v (start + need) (omega (arith, hole))) (omega (arith, hole));
          })
    | inr none_left ↦
        let e : ltb h.cursor start ≡ false = ground arith in
        rw (e, pad_to)
          (record {
            positive = v.positive;
            aligned = (v.aligned.0, omega (arith, hole));
            within = (omega (arith, v.within), fits, v.within.2);
            live = v.live;
            free = v.free;
            hole = hole;
            tiled = λ x. ground (arith, v.tiled x, v.within);
            top = no_end_above v (start + need) (omega (arith, hole));
          })
  ]

-- the address is a multiple of what was asked for
abbrev pub IsAligned : ℕ → Result ℕ → Type 0
IsAligned a (ok addr) = addr % a ≡ 0
IsAligned a (err _) = ⊥

memalign_place-Placed :
    (start need : ℕ) (h : HeapAllocator)
    → IsValid h
    → IsFree start need
    → h.cursor ≤ start
    → Placed need h (memalign_place start need h)
unfolding memalign_place
memalign_place-Placed start need h v hole above =
    elim (Bool-cases (ltb arena_size need || ltb h.end (start + need))) [
      | inl full ↦ rw (full, memalign_place) refl
      | inr room ↦
          let fits : start + need ≤ h.end = ground arith in
          rw (room, memalign_place)
            (
              pad_to-HasHole start need v hole above fits,
              ground (arith, pad_to),
              ground (arith, pad_to),
              ground (arith, pad_to),
            )
    ]

memalign_pos :
    (a n j : ℕ) (h : HeapAllocator)
    → 0 < a
    → bit_and a (a - 1) ≡ 0
    → max a align ≡ 2 ^ j
    → memalign (pos a) (pos (suc n)) h
      ≡ enter (suc n) (memalign_place (round_up h.cursor (2 ^ j)) (rounded (suc n)) h)
unfolding memalign
memalign_pos a n j h p e m =
    let positive : ltb a 1 ≡ false = ground arith in
    let some_size : (suc n == 0) ≡ false = ground arith in rw (positive, e, some_size, m) refl

memalign_place-IsAligned :
    (a size start need : ℕ) (h : HeapAllocator)
    → start % a ≡ 0
    → IsAligned a (enter size (memalign_place start need h)).0
unfolding enter memalign_place
memalign_place-IsAligned a size start need h e =
    elim (Bool-cases (ltb arena_size need || ltb h.end (start + need))) [
      | inl full ↦ rw full (zero-mod a)
      | inr room ↦ rw room e
    ]

memalign_zero :
    (a : ℕ) (h : HeapAllocator)
    → 0 < a
    → bit_and a (a - 1) ≡ 0
    → memalign (pos a) (pos 0) h ≡ (ok 0, h)
unfolding memalign
memalign_zero a h p e = let positive : ltb a 1 ≡ false = ground arith in rw (positive, e) refl

-- From a valid state, `memalign` at a power of two and a size that is not negative returns 0 and
-- changes nothing, or returns a new block and keeps the state valid; the address is a multiple
-- of the alignment, and the block shares no byte with a live one.
pub memalign-Allocated :
    (a n : ℕ) (h : HeapAllocator)
    → IsValid h
    → 0 < a
    → bit_and a (a - 1) ≡ 0
    → Allocated n h (memalign (pos a) (pos n) h) × IsAligned a (memalign (pos a) (pos n) h).0
memalign-Allocated a zero h v p e = rw (memalign_zero a h p e) (refl, zero-mod a)
memalign-Allocated a (suc n) h v p e =
    let (k, power) = power_of_two a p e in
    let (j, larger, asked, sixteen) = max_pow k 4 in
    let m : max a align ≡ 2 ^ j = rw power larger in
    let start = round_up h.cursor (2 ^ j) in
    let b = round_up_pow_bounds j h.cursor in
    let by_sixteen : start % 16 ≡ 0 = mod_pow 4 j start sixteen b.2 in
    let r = round_up_bounds (suc n) in
    let at_a : start % a ≡ 0 = rw power (mod_pow k j start asked b.2) in
    let need = rounded (suc n) in
    rw (memalign_pos a n j h p e m) (
      enter-Allocated (suc n) h (memalign_place start need h) (omega arith)
          (memalign_place-Placed start need h v (omega (arith, r), by_sixteen, r.2) b.0),
      memalign_place-IsAligned a (suc n) start need h at_a,
    )

-- Any other call of `memalign` raises, and changes nothing.
pub memalign_refuses :
    (a : ℕ) (size : ℤ) (h : HeapAllocator)
    → (ltb a 1 || not (bit_and a (a - 1) == 0)) ≡ true
    → memalign (pos a) size h ≡ (err value_error, h)
unfolding memalign
memalign_refuses a size h bad = rw bad refl
