-- ===== src/Signals/Frame.antt =====
-- What a signal handler returns to.
use emulite.Base.{ℕ, ◌+◌, ◌≤◌, ◌<◌, ◌≡◌, ◌^◌, Option, List, [], ◌∷◌, length}
use emulite.Guest.{GuestMemory, read_u64, write_u64}
use emulite.Signals.{Registers, save_regs, regs_at, uc_mcontext, nregs}

-- a value that a register holds
abbrev pub word_limit : ℕ
word_limit = 256 ^ 8

abbrev pub AllWords : List ℕ → Type 0
AllWords [] = Unit {0}
AllWords (r ∷ regs) = (r < word_limit) × AllWords regs

-- the registers of a CPU of 64 bits
pub record IsMachine (r : Registers) : Type 0 where
  pub count : length r.x ≡ nregs
  pub words : AllWords r.x
  pub sp : r.sp < word_limit
  pub pc : r.pc < word_limit
  pub nzcv : r.nzcv < word_limit

module _ (g : GuestMemory) where
  -- memories that agree on a stretch of words
  abbrev pub Agrees : ℕ → ℕ → g.Memory → g.Memory → Type 0
  Agrees from to m m' = (at : ℕ) → from ≤ at → at + 8 ≤ to → read_u64 g at m' ≡ read_u64 g at m

  -- a word that `save` leaves as it was written, under the writes after it
  module _ (uctx fault : ℕ) (r : Registers) (m : g.Memory) where
    abbrev with_regs : g.Memory
    with_regs = save_regs g (uctx + regs_at) r.x (write_u64 g (uctx + uc_mcontext) fault m)
