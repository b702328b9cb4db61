-- ===== src/SvcTrap/Trampolines.antt =====
-- The two instructions of a trampoline in guest memory.
use emulite.Base.{
  ℕ, ◌+◌, ◌^◌, ◌≤◌, ◌<◌, ◌≡◌, ◌≢◌, ◌⊎◌, sym, ap, ◌∙◌, List, ◌++◌, length, take, arith, eq_cases,
  lt_cases, inl, inr, take-append_left, length-append,
}
use mathlib.Core.Path.{subst}
use emulite.Base.Bytes.{pack, unpack, length-pack, unpack-pack}
use emulite.Guest.{GuestMemory, read_u32, read_unsigned}
use emulite.SvcTrap.{SvcArch, address_of}

front_of_same : (xs ys us vs : List ℕ) → length xs ≡ length us → xs ++ ys ≡ us ++ vs → xs ≡ us
front_of_same xs ys us vs e same =
    sym (take-append_left xs ys)
    ∙ ap (λ (n : ℕ). take n (xs ++ ys)) e
    ∙ ap (take (length us)) same
    ∙ take-append_left us vs

ne_lt : (j imm : ℕ) → imm ≤ j → j ≢ imm → imm < j
ne_lt j imm l n = ground arith

module _ (g : GuestMemory) (arch : SvcArch) where
  -- the instruction of a new trampoline
  pub read_u32-trampoline :
      (at svc : ℕ) (m : g.Memory)
      → svc < 2 ^ 32
      → read_u32 g at (g.write at (pack 4 svc ++ pack 4 arch.ret_instruction) m) ≡ svc
  unfolding read_unsigned
  read_u32-trampoline at svc m small =
      let bytes = pack 4 svc ++ pack 4 arch.ret_instruction in
      let m' = g.write at bytes m in
      let long : length bytes ≡ 8 =
        length-append (pack 4 svc) (pack 4 arch.ret_instruction)
        ∙ omega (arith, length-pack 4 svc, length-pack 4 arch.ret_instruction) in
      let whole : g.read at 8 m' ≡ bytes =
        subst (λ (n : ℕ). g.read at n m' ≡ bytes) long (g.read-write at bytes m) in
      let first : g.read at 4 m' ≡ pack 4 svc =
        front_of_same (g.read at 4 m') (g.read (at + 4) 4 m') (pack 4 svc)
          (pack 4 arch.ret_instruction) (g.length-read at 4 m' ∙ sym (length-pack 4 svc))
          (sym (g.read-append at 4 4 m') ∙ whole) in
      ap unpack first ∙ unpack-pack 4 svc small

  pub trampolines_apart :
      (j imm : ℕ)
      → 0 < j
      → 0 < imm
      → j ≢ imm
      → (address_of j + 4 ≤ address_of imm) ⊎ (address_of imm + 8 ≤ address_of j)
  trampolines_apart j imm p q n = elim (lt_cases j imm) [
    | inl l ↦ inl (omega arith)
    | inr l ↦ elim (eq_cases j imm) [
      | inl same ↦ absurd (n same)
      | inr other ↦ inr (omega (arith, ne_lt j imm l other))
    ]
  ]

  pub read_u32-apart :
      (at to svc : ℕ) (m : g.Memory)
      → (at + 4 ≤ to) ⊎ (to + 8 ≤ at)
      → read_u32 g at (g.write to (pack 4 svc ++ pack 4 arch.ret_instruction) m) ≡ read_u32 g at m
  unfolding read_unsigned
  read_u32-apart at to svc m off =
      let long : length (pack 4 svc ++ pack 4 arch.ret_instruction) ≡ 8 =
        length-append (pack 4 svc) (pack 4 arch.ret_instruction)
        ∙ omega (arith, length-pack 4 svc, length-pack 4 arch.ret_instruction) in
      ap unpack (
        g.read-write_apart at 4 to (pack 4 svc ++ pack 4 arch.ret_instruction) m
          (subst (λ (n : ℕ). (at + 4 ≤ to) ⊎ (to + n ≤ at)) (sym long) off))
