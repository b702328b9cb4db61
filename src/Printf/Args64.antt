-- ===== src/Printf/Args64.antt =====
-- src/emulite/android/cformat/register_args64.py and valist_args64.py: the arguments of an AArch64
-- call.
pub mod Same
use emulite.Base.{ℕ, ◌+◌, ◌%◌, ◌^◌, Bool, true, false, Option, none, some, ltb, leb, if◌then◌else◌}
use emulite.Base.Int.{ℤ, pos, negsuc, offset_by, +ℤ}
use emulite.Guest.{GuestMemory, read_u64, read_s32}
use emulite.Printf.{VarArgs, Length, no_length, hh_length, h_length}

pub record RegisterArgs64 : Type 0 where
  pub gp : ℕ
  pub fp : ℕ
  pub stack : ℕ

-- the constructor, with the stack pointer; another `gp_start` is a `ValueError`
unfoldable pub start_args : ℕ → ℕ → Option RegisterArgs64
start_args gp_start sp =
    if leb gp_start 8 then some (record { gp = gp_start; fp = 0; stack = sp }) else none

pub record VaListArgs64 : Type 0 where
  pub stack : ℕ
  pub gr_top : ℕ
  pub vr_top : ℕ
  pub gr : ℤ
  pub vr : ℤ

-- `VarArgs._WIDE_LENGTHS`
abbrev pub is_wide64 : Length → Bool
is_wide64 no_length = false
is_wide64 hh_length = false
is_wide64 h_length = false
is_wide64 _ = true

module _ (g : GuestMemory) where
  -- the registers X and Q
  module _ (x q : ℕ → ℕ) where
    unfoldable pub register_integer : Bool → RegisterArgs64 → g.Memory → Option (ℕ × RegisterArgs64)
    register_integer wide a m =
        if ltb a.gp 8
        then some (x a.gp, record a { gp = a.gp + 1 })
        else some (read_u64 g a.stack m, record a { stack = a.stack + 8 })

    -- `bits & 0xFFFFFFFFFFFFFFFF`, the bits of the float
    unfoldable pub register_real : RegisterArgs64 → g.Memory → Option (ℕ × RegisterArgs64)
    register_real a m =
        if ltb a.fp 8
        then some (q a.fp % 2 ^ 64, record a { fp = a.fp + 1 })
        else some (read_u64 g a.stack m % 2 ^ 64, record a { stack = a.stack + 8 })

    abbrev pub register_args64 : VarArgs g
    register_args64 = record {
      Cursor = RegisterArgs64;
      is_wide = is_wide64;
      integer = register_integer;
      real = register_real;
    }

  unfoldable pub read_valist : ℕ → g.Memory → VaListArgs64
  read_valist valist_ptr m = record {
    stack = read_u64 g valist_ptr m;
    gr_top = read_u64 g (valist_ptr + 8) m;
    vr_top = read_u64 g (valist_ptr + 16) m;
    gr = read_s32 g (valist_ptr + 24) m;
    vr = read_s32 g (valist_ptr + 28) m;
  }

  -- a read at an address that may be negative, which is an exception
  unfoldable pub read_offset : ℤ → g.Memory → Option ℕ
  read_offset (pos address) m = some (read_u64 g address m)
  read_offset (negsuc _) m = none

  -- `if self._gr < 0` of `integer`
  unfoldable pub valist_integer_at : ℤ → VaListArgs64 → g.Memory → Option (ℕ × VaListArgs64)
  unfolding read_offset
  valist_integer_at (pos n) a m = some (read_u64 g a.stack m, record a { stack = a.stack + 8 })
  valist_integer_at (negsuc n) a m = elim (read_offset (offset_by a.gr_top (negsuc n)) m) [
    | none ↦ none
    | some value ↦ some (value, record a { gr = +ℤ (negsuc n) (pos 8) })
  ]

  -- `if self._vr < 0` of `real`
  unfoldable pub valist_real_at : ℤ → VaListArgs64 → g.Memory → Option (ℕ × VaListArgs64)
  unfolding read_offset
  valist_real_at (pos n) a m =
      some (read_u64 g a.stack m % 2 ^ 64, record a { stack = a.stack + 8 })
  valist_real_at (negsuc n) a m = elim (read_offset (offset_by a.vr_top (negsuc n)) m) [
    | none ↦ none
    | some raw ↦ some (raw % 2 ^ 64, record a { vr = +ℤ (negsuc n) (pos 16) })
  ]

  unfoldable pub valist_integer : Bool → VaListArgs64 → g.Memory → Option (ℕ × VaListArgs64)
  unfolding valist_integer_at
  valist_integer wide a m = valist_integer_at a.gr a m

  unfoldable pub valist_real : VaListArgs64 → g.Memory → Option (ℕ × VaListArgs64)
  unfolding valist_real_at
  valist_real a m = valist_real_at a.vr a m

  abbrev pub valist_args64 : VarArgs g
  valist_args64 = record {
    Cursor = VaListArgs64;
    is_wide = is_wide64;
    integer = valist_integer;
    real = valist_real;
  }
