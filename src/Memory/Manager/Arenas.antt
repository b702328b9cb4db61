-- ===== src/Memory/Manager/Arenas.antt =====
-- `reserve_lib`, `poison_pointer` and `brk`, and the invariant of the memory manager.
use emulite.Base.{
  ℕ, zero, suc, ◌+◌, ◌-◌, ◌^◌, ◌≤◌, ◌<◌, ◌≡◌, refl, max, true, false, not, ◌&&◌, arith, ltb, ◌==◌,
  lt_cases, ◌⊎◌, inl, inr,
}
use Prim.Native.Nat.{bit_and}
use emulite.Base.Int.{ℤ, pos, negsuc}
use emulite.Base.Bits.{clear_bits, power_of_two}
use emulite.Base.Powers
use emulite.Base.Action.{Ensures, value_error, crashed, raise, raise_if, gets, modify}
use emulite.Memory.Layout.{
  page_size, heap_base, mmap_base, lib_base, return_sentinel, page_align_up,
}
use emulite.Memory.Backend.{Backend}
use emulite.Memory.Manager.{
  Manager, positive_size, reserve_lib, poison_pointer, brk, move_break, rw_flags,
}
use emulite.Memory.Manager.Sound.{
  IsSound, Keeps, Post-bind, Keeps-then, positive_size-Post, raise_if-Post, map_range-Keeps,
}
use emulite.Memory.Manager.Calls.{UnitOf, pure-Keeps, unmap-Keeps}

module _ (be : Backend) (ps : ℕ) where
  step_power :
      (align : ℕ)
      → (not (align == 0) && not (bit_and align (align - 1) == 0)) ≡ false
      → (j : ℕ) × (max align page_size ≡ 2 ^ j)
  step_power zero good = (12, refl)
  step_power (suc n) good =
      let (k, power) = power_of_two (suc n) (omega arith) (ground arith) in
      let (j, larger, asked, page) = Powers.max_pow k 12 in (j, rw power larger)

  IsLib : ℕ → Type 0
  IsLib l = (lib_base ≤ l) × (l ≤ return_sentinel)

  move_lib-Keeps : (l : ℕ) → IsLib l → Keeps be ps (modify (λ s. record s { lib = l }))
  unfolding IsLib
  move_lib-Keeps l b = record {
    at = λ s v. (
      record { table = v.table; arena = v.arena; libs = b; break = v.break; poisons = v.poisons },
      tt,
    );
  }

  pub reserve_lib-Keeps : (size align : ℤ) → Keeps be ps (reserve_lib be ps size align)
  unfolding reserve_lib IsLib
  reserve_lib-Keeps size (negsuc _) =
      Post-bind be ps (λ n. 0 < n) (UnitOf be ps) (positive_size be ps size)
        (λ _. raise value_error) (positive_size-Post be ps size) λ n p. record { at = λ s v. v }
  reserve_lib-Keeps size (pos align) =
      let bad = not (align == 0) && not (bit_and align (align - 1) == 0) in
      Post-bind be ps (λ n. 0 < n) (UnitOf be ps) (positive_size be ps size) _
        (positive_size-Post be ps size)
        λ n p.
          Post-bind be ps (λ _. bad ≡ false) (UnitOf be ps) (raise_if bad value_error) _
            (raise_if-Post be ps bad value_error)
            λ _ good.
              Post-bind be ps IsLib (UnitOf be ps) (gets (λ s. s.lib)) _
                (record { at = λ s v. (v, v.libs) })
                λ lib l.
                  let step = max align page_size in
                  let base = clear_bits (lib + step - 1) (step - 1) in
                  let end = base + page_align_up n + page_size in
                  let (j, power) = step_power align good in
                  let up = Powers.round_up_bounds j lib {m = step} power in
                  Post-bind be ps (λ _. ltb return_sentinel end ≡ false) (UnitOf be ps)
                    (raise_if (ltb return_sentinel end) crashed) _ (raise_if-Post be ps _ crashed)
                    λ _ room.
                      Keeps-then be ps (UnitOf be ps) (modify (λ s. record s { lib = end })) _
                        (move_lib-Keeps end (omega (arith, up.0, l), ground arith))
                        (pure-Keeps be ps base)

  pub poison_pointer-Keeps : Keeps be ps (poison_pointer be ps)
  unfolding poison_pointer
  poison_pointer-Keeps = record {
    at = λ s v. (
      record {
        table = v.table;
        arena = v.arena;
        libs = v.libs;
        break = v.break;
        poisons = ground (arith, v.poisons);
      },
      tt,
    );
  }

  move_break-Keeps : (e : ℕ) → Keeps be ps (move_break be ps e)
  unfolding move_break
  move_break-Keeps e = record {
    at = λ s v. by_order s v (lt_cases s.heap_mapped_end e) (lt_cases e s.heap_mapped_end);
  }
    where
      by_order :
          (s : Manager be)
          → IsSound be ps s
          → (s.heap_mapped_end < e) ⊎ (e ≤ s.heap_mapped_end)
          → (e < s.heap_mapped_end) ⊎ (s.heap_mapped_end ≤ e)
          → Ensures (IsSound be ps) (λ _. Unit) (move_break be ps e s)
      by_order s v (inl up) _ =
          let t : ltb s.heap_mapped_end e ≡ true = ground arith in
          rw (t, move_break)
            ((map_range-Keeps be ps (pos s.heap_mapped_end) (pos (e - s.heap_mapped_end)) rw_flags
                "heap" false).at
              s v)
      by_order s v (inr stay) (inl down) =
          let f : ltb s.heap_mapped_end e ≡ false = ground arith in
          let t : ltb e s.heap_mapped_end ≡ true = ground arith in
          rw (f, t, move_break) ((unmap-Keeps be ps (pos e) (pos (s.heap_mapped_end - e))).at s v)
      by_order s v (inr stay) (inr same) =
          let f : ltb s.heap_mapped_end e ≡ false = ground arith in
          let g : ltb e s.heap_mapped_end ≡ false = ground arith in rw (f, g, move_break) (v, tt)

  set_break-Keeps :
      (addr : ℕ)
      → heap_base ≤ addr
      → addr ≤ mmap_base
      → Keeps be ps (modify (λ s. record s { heap_mapped_end = page_align_up addr; heap = addr }))
  set_break-Keeps addr lo hi = record {
    at = λ s v. (
      record {
        table = v.table;
        arena = v.arena;
        libs = v.libs;
        break = (lo, hi, refl);
        poisons = v.poisons;
      },
      tt,
    );
  }

  pub brk-Keeps : (addr : ℤ) → Keeps be ps (brk be ps addr)
  unfolding brk
  brk-Keeps (negsuc _) = record { at = λ s v. v }
  brk-Keeps (pos zero) = record { at = λ s v. (v, tt) }
  brk-Keeps (pos (suc n)) =
      let addr = suc n in
      Post-bind be ps (λ _. ltb addr heap_base ≡ false) (UnitOf be ps)
        (raise_if (ltb addr heap_base) value_error) _ (raise_if-Post be ps _ value_error)
        λ _ low.
          Post-bind be ps (λ _. ltb mmap_base addr ≡ false) (UnitOf be ps)
            (raise_if (ltb mmap_base addr) crashed) _ (raise_if-Post be ps _ crashed)
            λ _ high.
              Keeps-then be ps (UnitOf be ps) (move_break be ps (page_align_up addr)) _
                (move_break-Keeps (page_align_up addr))
                (Keeps-then be ps (UnitOf be ps)
                  (modify (λ s. record s { heap_mapped_end = page_align_up addr; heap = addr })) _
                  (set_break-Keeps addr (ground arith) (ground arith)) (pure-Keeps be ps addr))
