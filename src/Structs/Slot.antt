-- ===== src/Structs/Slot.antt =====
-- Python's `struct`, as the structures use it: little-endian formats, `pack_into` at an offset of
-- a buffer of zeros, and `pack` of values in a row. `none` stands for `struct.error`.
use emulite.Base.{
  ℕ, suc, ◌+◌, ◌-◌, ◌*◌, ◌%◌, ◌^◌, Bool, true, false, ◌&&◌, ◌||◌, ◌≡◌, Option, none, some, List, [],
  ◌∷◌, ◌++◌, length, take, drop, replicate, ltb, leb, if◌then◌else◌,
}
use emulite.Base.Int.{ℤ, pos, negsuc}
use emulite.Base.Bytes.{pack, unpack}

-- the format characters H, I, Q, i and q
pub data Format : Type 0 where
  u16 u32 u64 s32 s64 : Format

abbrev pub width : Format → ℕ
width u16 = 2
width u32 = 4
width u64 = 8
width s32 = 4
width s64 = 8

abbrev pub fits_unsigned : ℕ → ℤ → Bool
fits_unsigned limit (pos n) = ltb n limit
fits_unsigned limit (negsuc _) = false

-- from -limit to limit - 1
abbrev pub fits_signed : ℕ → ℤ → Bool
fits_signed limit (pos n) = ltb n limit
fits_signed limit (negsuc n) = ltb n limit

-- a value that the format takes; any other is a `struct.error`
abbrev pub fits : Format → ℤ → Bool
fits u16 v = fits_unsigned 0x1_0000 v
fits u32 v = fits_unsigned 0x1_0000_0000 v
fits u64 v = fits_unsigned 0x1_0000_0000_0000_0000 v
fits s32 v = fits_signed 0x8000_0000 v
fits s64 v = fits_signed 0x8000_0000_0000_0000 v

-- the two's complement of a value that fits
abbrev pub word : ℕ → ℤ → ℕ
word modulus (pos n) = n
word modulus (negsuc n) = modulus - suc n

abbrev pub signed : ℕ → ℕ → ℤ
signed limit w = if ltb w limit then pos w else negsuc (2 * limit - suc w)

-- the value that a word stands for
abbrev pub decoded : Format → ℕ → ℤ
decoded u16 w = pos w
decoded u32 w = pos w
decoded u64 w = pos w
decoded s32 w = signed 0x8000_0000 w
decoded s64 w = signed 0x8000_0000_0000_0000 w

unfoldable pub field_bytes : Format → ℤ → List ℕ
field_bytes f v = pack (width f) (word (256 ^ width f) v)

-- `struct.unpack_from` of one value
unfoldable pub field_at : Format → ℕ → List ℕ → ℤ
field_at f at buffer = decoded f (unpack (take (width f) (drop at buffer)))

-- `value & (2 ** bits - 1)`
abbrev pub masked : ℕ → ℤ → ℤ
masked bits (pos n) = pos (n % 2 ^ bits)
masked bits (negsuc n) = pos (2 ^ bits - 1 - n % 2 ^ bits)

-- one value, its format and its offset
pub record Slot : Type 0 where
  pub format : Format
  pub at : ℕ
  pub value : ℤ

abbrev pub put_bytes : ℕ → List ℕ → List ℕ → List ℕ
put_bytes at bytes buffer = take at buffer ++ (bytes ++ drop (at + length bytes) buffer)

-- `struct.pack_into(format, buffer, at, value)`
unfoldable pub pack_into : Slot → List ℕ → Option (List ℕ)
unfolding field_bytes
pack_into s buffer =
    if fits s.format s.value && leb (s.at + width s.format) (length buffer)
    then some (put_bytes s.at (field_bytes s.format s.value) buffer)
    else none

-- one `pack_into` after another
unfoldable pub fill : List Slot → Option (List ℕ) → Option (List ℕ)
unfolding pack_into
fill slots none = none
fill [] (some buffer) = some buffer
fill (s ∷ slots) (some buffer) = fill slots (pack_into s buffer)

-- `buf = bytearray(size)`, then the slots
unfoldable pub packed : ℕ → List Slot → Option (List ℕ)
unfolding fill
packed size slots = fill slots (some (replicate size 0))

abbrev pub slot : Format → ℕ → ℤ → Slot
slot format at value = record { format = format; at = at; value = value }

-- where the value ends
abbrev pub slot_end : Slot → ℕ
slot_end s = s.at + width s.format

-- no byte in common
abbrev pub apart : Slot → Slot → Bool
apart s t = leb (slot_end s) t.at || leb (slot_end t) s.at

abbrev pub apart_from : Slot → List Slot → Bool
apart_from s [] = true
apart_from s (t ∷ slots) = apart s t && apart_from s slots

abbrev pub all_apart : List Slot → Bool
all_apart [] = true
all_apart (s ∷ slots) = apart_from s slots && all_apart slots

abbrev pub all_inside : ℕ → List Slot → Bool
all_inside size [] = true
all_inside size (s ∷ slots) = leb (slot_end s) size && all_inside size slots

-- every value is one that its format takes
abbrev pub all_fit : List Slot → Bool
all_fit [] = true
all_fit (s ∷ slots) = fits s.format s.value && all_fit slots

-- every value is found where it was put
abbrev pub ReadsBack : List Slot → List ℕ → Type 0
ReadsBack [] buffer = Unit {0}
ReadsBack (s ∷ slots) buffer = (field_at s.format s.at buffer ≡ s.value) × ReadsBack slots buffer
