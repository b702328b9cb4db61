-- ===== src/Printf/Args32.antt =====
-- src/emulite/android/cformat/register_args32.py and valist_args32.py: the arguments of an AArch32
-- call.
pub mod Same
use emulite.Base.{
  ℕ, ◌+◌, ◌*◌, ◌%◌, ◌^◌, Bool, true, false, Option, none, some, ltb, leb, ◌==◌, if◌then◌else◌,
}
use emulite.Base.Bits.{clear_bits}
use emulite.Guest.{GuestMemory, read_u32, read_u64}
use emulite.Printf.{VarArgs, Length, ll_length, q_length, j_length}

pub record RegisterArgs32 : Type 0 where
  pub core : ℕ
  pub stack : ℕ

-- the constructor, with the stack pointer; another `gp_start` is a `ValueError`
unfoldable pub start_args : ℕ → ℕ → Option RegisterArgs32
start_args gp_start sp =
    if leb gp_start 4 then some (record { core = gp_start; stack = sp }) else none

-- (address + 7) & ~7
unfoldable pub align8 : ℕ → ℕ
align8 address = clear_bits (address + 7) 7

-- `if self._core % 2: self._core += 1`
unfoldable pub even_core : ℕ → ℕ
even_core core = if core % 2 == 0 then core else core + 1

-- the low 64 bits of what was read, as the bits of a double
abbrev pub as_double : {C : Type 0} → Option (ℕ × C) → Option (ℕ × C)
as_double none = none
as_double (some (value, c)) = some (value % 2 ^ 64, c)

-- `_WIDE_LENGTHS`
abbrev pub is_wide32 : Length → Bool
is_wide32 ll_length = true
is_wide32 q_length = true
is_wide32 j_length = true
is_wide32 _ = false

module _ (g : GuestMemory) where
  -- the core registers R; each is below 2 ^ 32, so that `|` of a low and a high half adds
  module _ (r : ℕ → ℕ) where
    unfoldable pub narrow_integer : RegisterArgs32 → g.Memory → Option (ℕ × RegisterArgs32)
    narrow_integer a m =
        if ltb a.core 4
        then some (r a.core, record a { core = a.core + 1 })
        else some (read_u32 g a.stack m, record a { stack = a.stack + 4 })

    -- from the second `if` on, with the core register that comes next
    unfoldable pub wide_integer_at : ℕ → RegisterArgs32 → g.Memory → Option (ℕ × RegisterArgs32)
    unfolding align8
    wide_integer_at core a m =
        if leb (core + 2) 4
        then some (r core + r (core + 1) * 2 ^ 32, record a { core = core + 2 })
        else some (read_u64 g (align8 a.stack) m, record { core = 4; stack = align8 a.stack + 8 })

    unfoldable pub register_integer : Bool → RegisterArgs32 → g.Memory → Option (ℕ × RegisterArgs32)
    unfolding narrow_integer wide_integer_at even_core
    register_integer false a m = narrow_integer a m
    register_integer true a m = wide_integer_at (even_core a.core) a m

    unfoldable pub register_real : RegisterArgs32 → g.Memory → Option (ℕ × RegisterArgs32)
    unfolding register_integer
    register_real a m = as_double (register_integer true a m)

    abbrev pub register_args32 : VarArgs g
    register_args32 = record {
      Cursor = RegisterArgs32;
      is_wide = is_wide32;
      integer = register_integer;
      real = register_real;
    }

  -- the cursor is the address of the next argument
  unfoldable pub valist_integer : Bool → ℕ → g.Memory → Option (ℕ × ℕ)
  unfolding align8
  valist_integer true cursor m = some (read_u64 g (align8 cursor) m, align8 cursor + 8)
  valist_integer false cursor m = some (read_u32 g cursor m, cursor + 4)

  unfoldable pub valist_real : ℕ → g.Memory → Option (ℕ × ℕ)
  unfolding valist_integer
  valist_real cursor m = as_double (valist_integer true cursor m)

  abbrev pub valist_args32 : VarArgs g
  valist_args32 = record {
    Cursor = ℕ;
    is_wide = is_wide32;
    integer = valist_integer;
    real = valist_real;
  }
