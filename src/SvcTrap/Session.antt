-- ===== src/SvcTrap/Session.antt =====
-- Handlers that are entered and removed in any order, and the traps that find them.
use emulite.Base.{
  ℕ, zero, suc, ◌+◌, ◌-◌, ◌≤◌, ◌<◌, ◌≡◌, ◌⊎◌, refl, sym, ap, ◌∙◌, false, Option, none, some, List,
  [], ◌∷◌, ◌++◌, ltb, ◌==◌, if◌then◌else◌, arith, eq_cases, inl, inr,
}
use mathlib.Core.Path.{subst}
use emulite.Base.Bytes.{pack}
use emulite.Guest.{GuestMemory, read_u32}
use emulite.SvcTrap.{
  SvcArch, SvcTrap, init, take_slot, slot_at, free_slot, address_of, alloc_slot, on_interrupt,
  called, max_slots,
}
use emulite.SvcTrap.Slots.{
  IsValid, init-IsValid, Taken, TakenOrFull, take_slot-TakenOrFull, Freed, FreedOrNot,
  free_slot-FreedOrNot, all_taken,
}
use emulite.SvcTrap.Trampolines.{read_u32-trampoline, trampolines_apart, read_u32-apart}

slot_at-init : (imm : ℕ) → slot_at imm init ≡ none
slot_at-init zero = refl
slot_at-init (suc imm) = refl

module _ (g : GuestMemory) (arch : SvcArch) where
  -- the slots, the memory, and the handler that was last entered at an address
  pub record Registry : Type 0 where
    pub trap : SvcTrap
    pub memory : g.Memory
    pub entered : ℕ → Option ℕ

  abbrev pub fresh : g.Memory → Registry
  fresh m = record { trap = init; memory = m; entered = λ (a : ℕ). none }

  abbrev pub now : ℕ → Option ℕ → (ℕ → Option ℕ) → ℕ → Option ℕ
  now addr handler entered = λ (a : ℕ). if a == addr then handler else entered a

  abbrev pub entering : ℕ → Registry → Option (ℕ × SvcTrap × g.Memory) → Registry
  entering handler r none = r
  entering handler r (some (addr, t, m)) = record {
    trap = t;
    memory = m;
    entered = now addr (some handler) r.entered;
  }

  abbrev pub removing : ℕ → Registry → Option SvcTrap → Registry
  removing addr r none = r
  removing addr r (some t) = record r { trap = t; entered = now addr none r.entered }

  pub data Call : Type 0 where
    enter : ℕ → Call
    remove : ℕ → Call

  abbrev pub after : Call → Registry → Registry
  after (enter handler) r = entering handler r (alloc_slot g arch handler (r.trap, r.memory))
  after (remove addr) r = removing addr r (free_slot addr r.trap)

  abbrev pub run : List Call → Registry → Registry
  run [] r = r
  run (c ∷ cs) r = run cs (after c r)

  -- what holds between calls: the handlers that were entered are those of the slots, and each
  -- slot's trampoline traps with its immediate
  pub record IsKept (r : Registry) : Type 0 where
    pub valid : IsValid r.trap
    pub agree : (imm : ℕ) → 0 < imm → r.entered (address_of imm) ≡ slot_at imm r.trap
    pub only :
        (addr handler : ℕ)
        → r.entered addr ≡ some handler
        → (imm : ℕ) × (0 < imm) × (addr ≡ address_of imm)
    pub written :
        (imm handler : ℕ)
        → 0 < imm
        → slot_at imm r.trap ≡ some handler
        → arch.decode_svc (read_u32 g (address_of imm) r.memory) ≡ some imm

  fresh-IsKept : (m : g.Memory) → IsKept (fresh m)
  fresh-IsKept m = record {
    valid = init-IsValid;
    agree = λ imm p. sym (slot_at-init imm);
    only = λ addr handler e. cc;
    written = λ imm handler p e. absurd (ground (arith, e, slot_at-init imm));
  }

  enter-IsKept :
      (handler imm svc : ℕ) (r : Registry) (t : SvcTrap)
      → IsKept r
      → Taken handler r.trap imm t
      → arch.encode_svc imm ≡ some svc
      → IsKept (
          entering handler r (
            some (
              address_of imm,
              t,
              g.write (address_of imm) (pack 4 svc ++ pack 4 arch.ret_instruction) r.memory,
            )))
  enter-IsKept handler imm svc r t k taken e = record {
    valid = taken.valid;
    agree = λ j p. ground (arith, taken.after j, k.agree j p, taken.range);
    only = λ addr h f. elim (eq_cases addr (address_of imm)) [
      | inl same ↦ (imm, taken.range.0, same)
      | inr other ↦ k.only addr h (ground (arith, f))
    ];
    written = λ j h p f. elim (eq_cases j imm) [
      | inl same ↦
          subst (λ (n : ℕ). arch.decode_svc (read_u32 g (address_of n) memory) ≡ some n) (sym same)
            (ap arch.decode_svc
                (read_u32-trampoline g arch (address_of imm) svc r.memory (arch.small imm svc e))
              ∙ arch.decode-encode imm svc e)
      | inr other ↦
          let still : slot_at j r.trap ≡ some h = ground (arith, f, taken.after j) in
          let off : (address_of j + 4 ≤ address_of imm) ⊎ (address_of imm + 8 ≤ address_of j) =
            trampolines_apart g arch j imm p taken.range.0 other in
          ap arch.decode_svc
            (read_u32-apart g arch (address_of j) (address_of imm) svc r.memory off)
          ∙ k.written j h p still
    ];
  }
    where
      memory : g.Memory
      memory = g.write (address_of imm) (pack 4 svc ++ pack 4 arch.ret_instruction) r.memory

  remove-IsKept :
      (addr : ℕ) (r : Registry) (t : SvcTrap)
      → IsKept r
      → Freed addr r.trap t
      → IsKept (removing addr r (some t))
  remove-IsKept addr r t k freed = record {
    valid = freed.valid;
    agree = λ j p. ground (arith, freed.after j, k.agree j p, freed.at);
    only = λ a h f. k.only a h (ground (arith, f));
    written = λ j h p f. k.written j h p (ground (arith, f, freed.after j));
  }

  entering-IsKept :
      (handler : ℕ) (r : Registry) (o : Option (ℕ × SvcTrap))
      → IsKept r
      → TakenOrFull handler r.trap o
      → take_slot handler r.trap ≡ o
      → IsKept (after (enter handler) r)
  unfolding alloc_slot
  entering-IsKept handler r none k full e = rw (e, alloc_slot) k
  entering-IsKept handler r (some (imm, t)) k taken e =
      let (svc, f) = arch.encodes imm taken.range.1 in
      rw (e, f, alloc_slot) (enter-IsKept handler imm svc r t k taken f)

  removing-IsKept :
      (addr : ℕ) (r : Registry) (o : Option SvcTrap)
      → IsKept r
      → FreedOrNot addr r.trap o
      → IsKept (removing addr r o)
  removing-IsKept addr r none k freed = k
  removing-IsKept addr r (some t) k freed = remove-IsKept addr r t k freed

  after-IsKept : (c : Call) (r : Registry) → IsKept r → IsKept (after c r)
  after-IsKept (enter handler) r k =
      entering-IsKept handler r (take_slot handler r.trap) k
        (take_slot-TakenOrFull handler r.trap k.valid) refl
  after-IsKept (remove addr) r k =
      removing-IsKept addr r (free_slot addr r.trap) k (free_slot-FreedOrNot addr r.trap k.valid)

  run_from-IsKept : (cs : List Call) (r : Registry) → IsKept r → IsKept (run cs r)
  run_from-IsKept [] r k = k
  run_from-IsKept (c ∷ cs) r k = run_from-IsKept cs (after c r) (after-IsKept c r k)

  trap_kept :
      (addr handler : ℕ) (r : Registry)
      → IsKept r
      → r.entered addr ≡ some handler
      → on_interrupt g arch (addr + 4) r.trap r.memory ≡ called handler
  unfolding on_interrupt
  trap_kept addr handler r k e =
      let (imm, p, at) = k.only addr handler e in
      let slot : slot_at imm r.trap ≡ some handler =
        sym (k.agree imm p) ∙ ap r.entered (sym at) ∙ e in
      let far : ltb (addr + 4) 4 ≡ false = ground arith in
      let back : addr + 4 - 4 ≡ address_of imm = omega (arith, at) in
      let decoded : arch.decode_svc (read_u32 g (addr + 4 - 4) r.memory) ≡ some imm =
        ap (λ (a : ℕ). arch.decode_svc (read_u32 g a r.memory)) back
        ∙ k.written imm handler p slot in
      let positive : (imm == 0) ≡ false = ground arith in rw (far, decoded, positive, slot) refl

  -- Whatever handlers were entered and removed before, and whatever memory held: when the guest
  -- runs the trampoline at an address, the trap behind its first instruction calls the handler that
  -- was entered there last and was not removed.
  pub trap-run :
      (cs : List Call) (m : g.Memory) (addr handler : ℕ)
      → (run cs (fresh m)).entered addr ≡ some handler
      → on_interrupt g arch (addr + 4) (run cs (fresh m)).trap (run cs (fresh m)).memory
        ≡ called handler
  trap-run cs m addr handler e =
      trap_kept addr handler (run cs (fresh m)) (run_from-IsKept cs (fresh m) (fresh-IsKept m)) e

  -- A new handler has got the address of one of the 512 slots, at which none is entered; or at the
  -- address of every slot a handler is entered.
  abbrev pub FreshOrFull : Registry → Option (ℕ × SvcTrap × g.Memory) → Type 0
  FreshOrFull r none =
      (imm : ℕ)
      → 0 < imm
      → imm ≤ max_slots
      → (handler : ℕ) × (r.entered (address_of imm) ≡ some handler)
  FreshOrFull r (some (addr, t, m)) =
      (r.entered addr ≡ none)
      × ((imm : ℕ) × ((0 < imm) × (imm ≤ max_slots)) × (addr ≡ address_of imm))

  taken-FreshOrFull :
      (handler : ℕ) (r : Registry) (o : Option (ℕ × SvcTrap))
      → IsKept r
      → TakenOrFull handler r.trap o
      → take_slot handler r.trap ≡ o
      → FreshOrFull r (alloc_slot g arch handler (r.trap, r.memory))
  unfolding alloc_slot
  taken-FreshOrFull handler r none k full e =
      rw (e, alloc_slot)
        (λ imm p q.
          let (h, f) = all_taken imm r.trap k.valid full.0 full.1 p q in (h, k.agree imm p ∙ f))
  taken-FreshOrFull handler r (some (imm, t)) k taken e =
      let (svc, f) = arch.encodes imm taken.range.1 in
      rw (e, f, alloc_slot) (k.agree imm taken.range.0 ∙ taken.was_empty, (imm, taken.range, refl))

  -- Whatever handlers were entered and removed before: a new one gets the address of one of the 512
  -- slots, at which no handler is entered; and it is refused only when at the address of every slot
  -- a handler is entered that was not removed.
  pub alloc_slot-run :
      (cs : List Call) (m : g.Memory) (handler : ℕ)
      → FreshOrFull
          (run cs (fresh m))
          (alloc_slot g arch handler ((run cs (fresh m)).trap, (run cs (fresh m)).memory))
  alloc_slot-run cs m handler =
      let r = run cs (fresh m) in
      let k = run_from-IsKept cs (fresh m) (fresh-IsKept m) in
      taken-FreshOrFull handler r (take_slot handler r.trap) k
        (take_slot-TakenOrFull handler r.trap k.valid) refl
