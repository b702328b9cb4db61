-- ===== src/Signals.antt =====
-- src/emulite/android/arm64/android_syscall_handler64.py: signals, with
-- src/emulite/android/structs/sigaction64.py and sigcontext64.py. What is logged is left out.
pub mod Frame
mod Tests
use emulite.Base.{
  ℕ, zero, suc, ◌+◌, ◌-◌, ◌*◌, ◌/◌, Option, none, some, List, [], ◌∷◌, ◌++◌, Bool, true, false,
  ◌&&◌, ◌||◌, not, ltb, ◌==◌, if◌then◌else◌, replicate, is_empty,
}
use emulite.Base.Dict.{Dict, lookup, insert}
use emulite.Guest.{GuestMemory, read_u64, write_u32, write_u64}

-- X0 to X30, the last one being LR
pub record Registers : Type 0 where
  pub x : List ℕ
  pub sp : ℕ
  pub pc : ℕ
  pub nzcv : ℕ

pub record Sigaction64 : Type 0 where
  pub handler : ℕ
  pub flags : ℕ
  pub restorer : ℕ

abbrev pub set_at : ℕ → ℕ → List ℕ → List ℕ
set_at i value [] = []
set_at zero value (_ ∷ rest) = value ∷ rest
set_at (suc i) value (r ∷ rest) = r ∷ set_at i value rest

abbrev pub nregs : ℕ
nregs = 31

abbrev pub uc_mcontext : ℕ
uc_mcontext = 176

abbrev pub regs_at : ℕ
regs_at = uc_mcontext + 8

abbrev pub sp_at : ℕ
sp_at = regs_at + nregs * 8

abbrev pub pc_at : ℕ
pc_at = sp_at + 8

abbrev pub pstate_at : ℕ
pstate_at = pc_at + 8

module _ (g : GuestMemory) where
  -- Sigaction64.read_from and write_to
  unfoldable pub read_sigaction : ℕ → g.Memory → Sigaction64
  read_sigaction address m = record {
    handler = read_u64 g address m;
    flags = read_u64 g (address + 8) m;
    restorer = read_u64 g (address + 16) m;
  }

  unfoldable pub write_sigaction : Sigaction64 → ℕ → g.Memory → g.Memory
  write_sigaction this address m =
      write_u64 g (address + 16) this.restorer
        (write_u64 g (address + 8) this.flags (write_u64 g address this.handler m))

  -- the loops over the registers
  unfoldable pub save_regs : ℕ → List ℕ → g.Memory → g.Memory
  save_regs at [] m = m
  save_regs at (r ∷ regs) m = save_regs (at + 8) regs (write_u64 g at r m)

  unfoldable pub read_regs : ℕ → ℕ → g.Memory → List ℕ
  read_regs at zero m = []
  read_regs at (suc n) m = read_u64 g at m ∷ read_regs (at + 8) n m

  -- Sigcontext64.save
  unfoldable pub save : ℕ → Registers → ℕ → g.Memory → g.Memory
  save uctx r fault_addr m =
      let m1 = write_u64 g (uctx + uc_mcontext) fault_addr m in
      let m2 = save_regs (uctx + regs_at) r.x m1 in
      let m3 = write_u64 g (uctx + sp_at) r.sp m2 in
      let m4 = write_u64 g (uctx + pc_at) r.pc m3 in write_u64 g (uctx + pstate_at) r.nzcv m4

  -- Sigcontext64.restore
  unfoldable pub restore : ℕ → g.Memory → Registers
  restore uctx m = record {
    x = read_regs (uctx + regs_at) nregs m;
    sp = read_u64 g (uctx + sp_at) m;
    pc = read_u64 g (uctx + pc_at) m;
    nzcv = read_u64 g (uctx + pstate_at) m;
  }

  -- The part of the handler's state that signals use. `frames` has the last frame first.
  pub record SignalState : Type 0 where
    pub memory : g.Memory
    pub regs : Registers
    pub frames : List ℕ
    pub sigactions : Dict Sigaction64
    pub alt_stack : List ℕ
    pub sigreturn_slot : ℕ
    pub stopped : Bool

  -- (saved_sp - 0x1600) & ~0xF; `none` where that is negative
  abbrev pub frame_top : ℕ → Option ℕ
  frame_top saved_sp = if ltb saved_sp 0x1600 then none else some ((saved_sp - 0x1600) / 16 * 16)

  -- `new_slot` is the address that the trap table gives out for `_do_sigreturn`, once
  abbrev pub slot_for : ℕ → SignalState → ℕ
  slot_for new_slot s = if s.sigreturn_slot == 0 then new_slot else s.sigreturn_slot

  -- the frame is written at `top`, and the registers are set
  unfoldable pub enter_at : ℕ → ℕ → Sigaction64 → ℕ → ℕ → SignalState → SignalState
  enter_at top new_slot action sig fault_addr s =
      let slot = slot_for new_slot s in
      let uctx = top + 0x100 in
      let m1 = g.write top (replicate 0x1600 0) s.memory in
      let m2 = write_u32 g top sig m1 in
      let m3 = write_u64 g (top + 16) fault_addr m2 in
      record s {
        memory = save uctx s.regs fault_addr m3;
        sigreturn_slot = slot;
        frames = uctx ∷ s.frames;
        regs = record {
          x = set_at 30 slot (set_at 2 uctx (set_at 1 top (set_at 0 sig s.regs.x)));
          sp = top;
          pc = action.handler;
          nzcv = s.regs.nzcv;
        };
      }

  -- `none` where the write of the frame raises, since its address is negative
  unfoldable pub enter_signal_handler : ℕ → Sigaction64 → ℕ → ℕ → SignalState → Option SignalState
  unfolding enter_at
  enter_signal_handler new_slot action sig fault_addr s = elim (frame_top s.regs.sp) [
    | none ↦ none
    | some top ↦ some (enter_at top new_slot action sig fault_addr s)
  ]

  -- without a frame, nothing
  unfoldable pub do_sigreturn : SignalState → SignalState
  do_sigreturn s = elim (s.frames) [
    | [] ↦ s
    | uctx ∷ frames ↦ record s { frames = frames; regs = restore uctx s.memory }
  ]

  -- SIG_DFL and SIG_IGN are no handlers
  unfoldable pub handler_for : ℕ → SignalState → Option Sigaction64
  handler_for sig s = elim (lookup sig s.sigactions) [
    | none ↦ none
    | some action ↦ if (action.handler == 0) || (action.handler == 1) then none else some action
  ]

  -- `None`, 0, -ESRCH, or an exception
  pub data Answered : Type 0 where
    no_result zero_result esrch raised : Answered

  unfoldable pub deliver_signal : ℕ → ℕ → SignalState → Answered × SignalState
  deliver_signal new_slot sig s = if sig == 0 then (zero_result, s) else elim (handler_for sig s) [
    | some action ↦
        let s' : SignalState = record s { regs = record (s.regs) { x = set_at 0 0 s.regs.x } } in
        elim (enter_signal_handler new_slot action sig 0 s') [
          | some entered ↦ (no_result, entered)
          | none ↦ (raised, record s' { sigreturn_slot = slot_for new_slot s })
        ]
    | none ↦ (zero_result, if (sig == 6) || (sig == 9) then record s { stopped = true } else s)
  ]

  unfoldable pub kill : ℕ → ℕ → ℕ → ℕ → SignalState → Answered × SignalState
  kill process_pid new_slot pid sig s =
      if ltb 0 pid && not (pid == process_pid) then (esrch, s) else deliver_signal new_slot sig s

  unfoldable pub tkill : ℕ → ℕ → ℕ → ℕ → SignalState → Answered × SignalState
  tkill process_tid new_slot tid sig s =
      if sig == 0
      then (if tid == process_tid then zero_result else esrch, s)
      else deliver_signal new_slot sig s

  unfoldable pub tgkill : ℕ → ℕ → ℕ → ℕ → SignalState → Answered × SignalState
  tgkill new_slot tgid tid sig s = deliver_signal new_slot sig s

  unfoldable pub sigaltstack : ℕ → ℕ → SignalState → SignalState
  sigaltstack new_stack_ptr old_stack_ptr s =
      let s' =
        if not (old_stack_ptr == 0) && not (is_empty s.alt_stack)
        then record s { memory = g.write old_stack_ptr s.alt_stack s.memory }
        else s in
      if new_stack_ptr == 0 then s' else record s' { alt_stack = g.read new_stack_ptr 24 s'.memory }

  unfoldable pub rt_sigaction : ℕ → ℕ → ℕ → SignalState → SignalState
  rt_sigaction signum act_ptr oldact_ptr s =
      let s' : SignalState = elim (lookup signum s.sigactions) [
        | none ↦ s
        | some action ↦
            if oldact_ptr == 0
            then s
            else record s { memory = write_sigaction action oldact_ptr s.memory }
      ] in
      if act_ptr == 0
      then s'
      else record s' { sigactions = insert signum (read_sigaction act_ptr s'.memory) s'.sigactions }
