-- ===== src/Properties.antt =====
-- src/emulite/android/bionic_property_area.py, AndroidPropertyArea: the records of system properties in
-- guest memory. A name and a value stand for themselves by their UTF-8 bytes.
pub mod Held
pub mod Record
pub mod Written
pub mod Session
mod Tests
use emulite.Base.{
  ℕ, ◌+◌, ◌-◌, ◌*◌, ◌/◌, ◌%◌, ◌^◌, Bool, true, false, ◌&&◌, Option, none, some, List, [], ◌∷◌, ◌++◌,
  length, ltb, ◌==◌, if◌then◌else◌,
}
use emulite.Base.Bits.{clear_bits}
use emulite.Base.Text.{same_text}
use emulite.Guest.{GuestMemory, read_u32, write_u32}
use emulite.Guest.Text.{everywhere, read_cstr_bytes}

abbrev pub region_bytes : ℕ
region_bytes = 0x4_0000

-- `b"Read with __system_property_read_callback"`
abbrev pub long_message : List ℕ
long_message =
    b'R' ∷ b'e' ∷ b'a' ∷ b'd' ∷ b' ' ∷ b'w' ∷ b'i' ∷ b't' ∷ b'h' ∷ b' ' ∷ b'_' ∷ b'_' ∷ b's' ∷ b'y'
    ∷ b's' ∷ b't' ∷ b'e' ∷ b'm' ∷ b'_' ∷ b'p' ∷ b'r' ∷ b'o' ∷ b'p' ∷ b'e' ∷ b'r' ∷ b't' ∷ b'y'
    ∷ b'_' ∷ b'r' ∷ b'e' ∷ b'a' ∷ b'd' ∷ b'_' ∷ b'c' ∷ b'a' ∷ b'l' ∷ b'l' ∷ b'b' ∷ b'a' ∷ b'c'
    ∷ b'k' ∷ []

pub record PropertyArea : Type 0 where
  pub base : ℕ
  pub cursor : ℕ
  pub by_name : List (List ℕ × ℕ)
  pub infos : List ℕ

unfoldable pub align4 : ℕ → ℕ
align4 value = clear_bits (value + 3) 3

unfoldable pub align8 : ℕ → ℕ
align8 value = clear_bits (value + 7) 7

unfoldable pub find_name : List ℕ → List (List ℕ × ℕ) → Option ℕ
find_name name [] = none
find_name name ((other, info) ∷ names) =
    if same_text other name then some info else find_name name names

-- self._by_name.pop(name, None)
unfoldable pub drop_name : List ℕ → List (List ℕ × ℕ) → List (List ℕ × ℕ)
drop_name name [] = []
drop_name name ((other, info) ∷ names) =
    if same_text other name then names else (other, info) ∷ drop_name name names

-- raw_name.rsplit(b".", 1)[-1], with what stands behind the last point so far
unfoldable pub leaf_from : List ℕ → List ℕ → List ℕ
leaf_from leaf [] = leaf
leaf_from leaf (c ∷ text) = leaf_from (if c == b'.' then text else leaf) text

abbrev pub leaf_of : List ℕ → List ℕ
leaf_of raw_name = leaf_from raw_name raw_name

abbrev pub struct_bytes : List ℕ → ℕ
struct_bytes raw_name = 96 + length raw_name + 1

-- a value that fits into the record, and one behind it
abbrev pub is_short : List ℕ → Bool
is_short raw_value = ltb (length raw_value) 92

abbrev pub info_bytes : List ℕ → List ℕ → ℕ
info_bytes raw_name raw_value =
    if is_short raw_value
    then struct_bytes raw_name
    else align8 (struct_bytes raw_name) + length raw_value + 1

abbrev pub contains_info : ℕ → List ℕ → Bool
contains_info info [] = false
contains_info info (other ∷ infos) = if other == info then true else contains_info info infos

unfoldable pub invalidate : List ℕ → PropertyArea → PropertyArea
unfolding drop_name
invalidate name a = record a { by_name = drop_name name a.by_name }

module _ (g : GuestMemory) where
  -- the constructor, at the address that `mem.mmap` has returned
  unfoldable pub init : ℕ → g.Memory → PropertyArea × g.Memory
  init base m = (
    record { base = base; cursor = 128; by_name = []; infos = [] },
    write_u32 g (base + 12) 0xFC6E_D0AB (write_u32 g (base + 8) 0x504F_5250 m),
  )

  -- what `_write_leaf_bt` writes, with the offset of the record that follows
  unfoldable pub write_leaf_bt : ℕ → ℕ → ℕ → List ℕ → g.Memory → g.Memory
  write_leaf_bt base bt info leaf m =
      write_u32 g (base + bt + 4) info
        (g.write (base + bt + 20) (leaf ++ 0 ∷ []) (write_u32 g (base + bt) (length leaf) m))

  unfoldable pub write_short : ℕ → List ℕ → List ℕ → g.Memory → g.Memory
  write_short info raw_name raw_value m =
      g.write (info + 96) (raw_name ++ 0 ∷ [])
        (g.write (info + 4) (raw_value ++ 0 ∷ []) (write_u32 g info (length raw_value * 2 ^ 24) m))

  -- `|` of the flag, whose bit the length leaves free, adds it
  unfoldable pub write_long : ℕ → ℕ → List ℕ → List ℕ → g.Memory → g.Memory
  write_long info long_at raw_name raw_value m = g.write (info + long_at) (raw_value ++ 0 ∷ []) (
      g.write (info + 96) (raw_name ++ 0 ∷ []) (
        write_u32 g (info + 60) (long_at - 60) (
          g.write (info + 4) (long_message ++ 0 ∷ [])
            (write_u32 g info (length raw_value * 2 ^ 24 + 0x1_0000) m))))

  unfoldable pub write_record : ℕ → List ℕ → List ℕ → g.Memory → g.Memory
  unfolding write_short write_long
  write_record info raw_name raw_value m =
      if is_short raw_value
      then write_short info raw_name raw_value m
      else write_long info (align8 (struct_bytes raw_name)) raw_name raw_value m

  -- `none` for a `MemoryError`
  unfoldable pub write_info :
      List ℕ → List ℕ → PropertyArea × g.Memory → Option (ℕ × PropertyArea × g.Memory)
  unfolding write_leaf_bt write_record
  write_info raw_name raw_value (a, m) =
      let leaf = leaf_of raw_name in
      let info_offset = align4 (a.cursor + 20 + length leaf + 1) in
      let cursor = align8 (info_offset + info_bytes raw_name raw_value) in
      if ltb region_bytes cursor
      then none
      else some (
        a.base + info_offset,
        record a { cursor = cursor },
        write_u32 g a.base (cursor - 128) (
            write_record (a.base + info_offset) raw_name raw_value
              (write_leaf_bt a.base a.cursor info_offset leaf m)),
      )

  unfoldable pub intern :
      List ℕ → List ℕ → PropertyArea × g.Memory → Option (ℕ × PropertyArea × g.Memory)
  unfolding find_name write_info
  intern name value (a, m) = elim (find_name name a.by_name) [
    | some info ↦ some (info, a, m)
    | none ↦ elim (write_info name value (a, m)) [
      | none ↦ none
      | some (info, a', m') ↦
          some
            (info, record a' { by_name = (name, info) ∷ a'.by_name; infos = info ∷ a'.infos }, m')
    ]
  ]

  -- where the value of a record stands: `serial & LONG_FLAG`
  unfoldable pub value_place : ℕ → g.Memory → ℕ
  value_place info m =
      if read_u32 g info m / 0x1_0000 % 2 == 0
      then info + 4
      else info + 60 + read_u32 g (info + 60) m

  unfoldable pub read : ℕ → PropertyArea × g.Memory → Option (List ℕ × List ℕ × ℕ)
  unfolding value_place
  read info (a, m) =
      if contains_info info a.infos
      then some (
        read_cstr_bytes g everywhere (info + 96) m,
        read_cstr_bytes g everywhere (value_place info m) m,
        read_u32 g info m,
      )
      else none
