-- ===== src/SvcTrap.antt =====
-- src/emulite/hooks/svc_trap.py, SvcTrap, with the `svc` instructions of
-- src/emulite/cpu/arch/arm64.py and arm32.py. A handler stands for itself by a number; its name, which
-- only goes to the log, is left out.
pub mod Arch
pub mod Places
pub mod Slots
pub mod Trampolines
pub mod Session
mod Tests
use emulite.Base.{
  ℕ, zero, suc, ◌+◌, ◌-◌, ◌*◌, ◌/◌, ◌%◌, ◌^◌, ◌≤◌, ◌<◌, ◌≡◌, Bool, true, false, ◌&&◌, ◌||◌, not,
  Option, none, some, List, [], ◌∷◌, ◌++◌, length, get_elem?, ltb, leb, ◌==◌, if◌then◌else◌,
}
use emulite.Base.Int.{ℤ, pos, floor_mod}
use emulite.Base.Bytes.{pack}
use emulite.Guest.{GuestMemory, read_u32}

-- What the traps ask of an architecture: `encode_svc`, where `none` is a `ValueError`, the
-- instruction that returns, and the immediate of the instruction that has trapped.
pub record SvcArch : Type 0 where
  pub encode_svc : ℕ → Option ℕ
  pub ret_instruction : ℕ
  pub decode_svc : ℕ → Option ℕ
  pub encodes : (imm : ℕ) → imm ≤ 512 → (w : ℕ) × (encode_svc imm ≡ some w)
  pub small : (imm w : ℕ) → encode_svc imm ≡ some w → w < 2 ^ 32
  pub decode-encode : (imm w : ℕ) → encode_svc imm ≡ some w → decode_svc w ≡ some imm

-- MemoryLayout.TRAMPOLINE_BASE
abbrev pub trampoline_base : ℕ
trampoline_base = 0x6000_0000

-- PAGE_SIZE // _STRIDE
abbrev pub max_slots : ℕ
max_slots = 512

-- `_slots`, in which place 0 is never used, and `_free_slots`, the last one first
pub record SvcTrap : Type 0 where
  pub slots : List (Option ℕ)
  pub free_slots : List ℕ

abbrev pub init : SvcTrap
init = record { slots = none ∷ []; free_slots = [] }

-- slots[i] = value
unfoldable pub set : List (Option ℕ) → ℕ → Option ℕ → List (Option ℕ)
set [] i value = []
set (slot ∷ slots) zero value = value ∷ slots
set (slot ∷ slots) (suc i) value = slot ∷ set slots i value

-- the immediate that a new handler gets, by what is free; `none` for `MissingSlot`
unfoldable pub take_from : ℕ → List ℕ → SvcTrap → Option (ℕ × SvcTrap)
unfolding set
take_from handler (imm ∷ rest) t =
    some (imm, record { slots = set t.slots imm (some handler); free_slots = rest })
take_from handler [] t =
    if ltb max_slots (length t.slots)
    then none
    else some (length t.slots, record t { slots = t.slots ++ some handler ∷ [] })

unfoldable pub take_slot : ℕ → SvcTrap → Option (ℕ × SvcTrap)
unfolding take_from
take_slot handler t = take_from handler t.free_slots t

abbrev pub address_of : ℕ → ℕ
address_of imm = trampoline_base + (imm - 1) * 8

-- what a handler is found for
pub data Trapped : Type 0 where
  system_call : Trapped
  called : ℕ → Trapped
  missing_slot : Trapped
  unexpected : Trapped

-- slots[imm] if imm < len(slots) else None
abbrev pub slot_at : ℕ → SvcTrap → Option ℕ
slot_at imm t = elim (get_elem? t.slots imm) [ none ↦ none | some slot ↦ slot ]

-- the slot that an address is of, if it is taken; `none` for `MissingSlot`
unfoldable pub free_slot : ℕ → SvcTrap → Option SvcTrap
unfolding set
free_slot addr t =
    let imm = (addr - trampoline_base) / 8 + 1 in
    if ltb addr trampoline_base || not ((addr - trampoline_base) % 8 == 0)
    then none
    else elim (slot_at imm t) [
      | none ↦ none
      | some handler ↦
          some (record { slots = set t.slots imm none; free_slots = imm ∷ t.free_slots })
    ]

module _ (g : GuestMemory) (arch : SvcArch) where
  -- the two instructions of a trampoline are written
  unfoldable pub alloc_slot : ℕ → SvcTrap × g.Memory → Option (ℕ × SvcTrap × g.Memory)
  unfolding take_slot
  alloc_slot handler (t, m) = elim (take_slot handler t) [
    | none ↦ none
    | some (imm, t') ↦ elim (arch.encode_svc imm) [
      | none ↦ none
      | some svc ↦ some (
        address_of imm,
        t',
        g.write (address_of imm) (pack 4 svc ++ pack 4 arch.ret_instruction) m,
      )
    ]
  ]

  -- `_on_interrupt` up to the call of the handler; below 4 there is no instruction before
  unfoldable pub on_interrupt : ℕ → SvcTrap → g.Memory → Trapped
  on_interrupt pc t m =
      if ltb pc 4 then unexpected else elim (arch.decode_svc (read_u32 g (pc - 4) m)) [
        | none ↦ unexpected
        | some imm ↦
            if imm == 0
            then system_call
            else elim (slot_at imm t) [ none ↦ missing_slot | some handler ↦ called handler ]
      ]

-- result & mask
unfoldable pub returned : ℕ → ℤ → ℤ
returned pointer_size result = floor_mod result (2 ^ (pointer_size * 8))
