-- ===== src/Signals/Tests.antt =====
-- A signal on a concrete machine.
use emulite.Base.{◌≡◌, refl, false, none, [], ◌∷◌, replicate}
use emulite.Guest.Flat.{flat_memory}
use emulite.Signals.{Registers, Sigaction64, SignalState, enter_at, enter_signal_handler}

abbrev interrupted : Registers
interrupted = record { x = replicate 31 7; sp = 0x8000_0000; pc = 0x4000; nzcv = 0x6000_0000 }

abbrev action : Sigaction64
action = record { handler = 0x9000; flags = 4; restorer = 0 }

abbrev running : SignalState flat_memory
running = record {
  memory = λ a. 0;
  regs = interrupted;
  frames = [];
  sigactions = (11, action) ∷ [];
  alt_stack = [];
  sigreturn_slot = 0;
  stopped = false;
}

abbrev entered : SignalState flat_memory
entered = enter_at flat_memory 0x7FFF_EA00 0x7000 action 11 0 running

-- no room below the stack pointer
no_room_test :
    enter_signal_handler flat_memory 0x7000 action 11 0
      (record running { regs = record interrupted { sp = 0x15FF } })
    ≡ none
unfolding enter_signal_handler
no_room_test = refl

-- the handler has used registers
abbrev handled : SignalState flat_memory
handled = record entered {
  regs = record { x = replicate 31 1; sp = 0x7FFF_0000; pc = 0x7000; nzcv = 0 };
}
