-- ===== src/Printf/Format.antt =====
-- src/emulite/android/cformat/var_args.py, VarArgs.format. Texts are rows of code points. What
-- Python's `%` makes of an integer and of a float, by the conversion, the flags, the width and the
-- precision, the decoding of a guest's UTF-8 and the pages that are mapped are arguments.
pub mod Alike
pub mod Same
use emulite.Base.{
  ℕ, zero, suc, ◌+◌, ◌-◌, ◌*◌, ◌/◌, ◌%◌, ◌^◌, Bool, true, false, ◌||◌, Option, none, some, List, [],
  ◌∷◌, ◌++◌, map, length, take, replicate, ltb, leb, ◌==◌, if◌then◌else◌,
}
use emulite.Base.Int.{ℤ, pos, negsuc}
use emulite.Structs.Slot.{signed}
use emulite.Guest.{GuestMemory, write_unsigned}
use emulite.Guest.Text.{read_cstr_bytes}
use emulite.Printf.{
  Length, no_length, hh_length, h_length, l_length, ll_length, q_length, z_length, j_length,
  t_length, VarArgs,
}
use emulite.Printf.Numbers.{has, pad, number_text, zero_filled}
use emulite.Printf.Spec.{Amount, star, number, Spec, Piece, literal, matched, pieces}

-- `_signed`, for a number of bits that is not 0
unfoldable pub signed_of : ℕ → ℕ → ℤ
signed_of value bits = signed (2 ^ (bits - 1)) (value % 2 ^ bits)

unfoldable pub value_bits : ℕ → Length → ℕ
value_bits pointer_size hh_length = 8
value_bits pointer_size h_length = 16
value_bits pointer_size ll_length = 64
value_bits pointer_size q_length = 64
value_bits pointer_size j_length = 64
value_bits pointer_size l_length = pointer_size * 8
value_bits pointer_size z_length = pointer_size * 8
value_bits pointer_size t_length = pointer_size * 8
value_bits pointer_size no_length = 32

-- `"%c"` and `"%s"` of Python are filled with spaces only
unfoldable pub plain_text : List ℕ → Option ℕ → List ℕ → List ℕ
unfolding pad
plain_text flags width text = pad text (if has b'-' flags then b'-' ∷ [] else []) width 0

unfoldable pub cut_to : Option ℕ → List ℕ → List ℕ
cut_to none text = text
cut_to (some n) text = take n text

-- "0x" + digits, `rjust` by the precision
unfoldable pub pointer_text : List ℕ → Option ℕ → Option ℕ → ℕ → List ℕ
unfolding pad number_text zero_filled
pointer_text flags width precision value =
    pad (b'0' ∷ b'x' ∷ zero_filled precision (number_text 16 value)) flags width 2

-- the bytes of a text in UTF-8
unfoldable pub encoded_length : List ℕ → ℕ
encoded_length [] = 0
encoded_length (c ∷ text) =
    (if ltb c 0x80 then 1 else if ltb c 0x800 then 2 else if ltb c 0x1_0000 then 3 else 4)
    + encoded_length text

abbrev pub null_text : List ℕ
null_text = b'(' ∷ b'n' ∷ b'u' ∷ b'l' ∷ b'l' ∷ b')' ∷ []

-- a width that was drawn: a negative one sets the flag `-`
abbrev pub drawn_width : List ℕ → ℤ → List ℕ × Option ℕ
drawn_width flags (pos n) = (flags, some n)
drawn_width flags (negsuc n) = (flags ++ b'-' ∷ [], some (suc n))

abbrev pub drawn_precision : ℤ → Option ℕ
drawn_precision (pos n) = some n
drawn_precision (negsuc _) = none

-- what follows a value that was drawn
abbrev pub after : {C A : Type 0} → Option (ℕ × C) → (ℕ → C → Option A) → Option A
after none k = none
after (some (value, c)) k = k value c

module _ {g : GuestMemory} (args : VarArgs g) (pointer_size : ℕ) (mapped : ℕ → Bool)
    (decode : List ℕ → List ℕ) (integer_text : ℕ → List ℕ → Option ℕ → Option ℕ → ℤ → List ℕ)
    (real_text : ℕ → List ℕ → Option ℕ → Option ℕ → ℕ → List ℕ) where
  -- what a conversion has come to: its text, the arguments and the memory; `none` for an exception
  abbrev pub Printed : Type 0
  Printed = Option (List ℕ × args.Cursor × g.Memory)

  -- what follows a conversion
  abbrev pub then_print : Printed → (List ℕ → args.Cursor → g.Memory → Printed) → Printed
  then_print none k = none
  then_print (some (text, c, m)) k = k text c m

  -- `if width == "*"`
  unfoldable pub with_width :
      List ℕ
      → Option Amount
      → args.Cursor
      → g.Memory
      → (List ℕ → Option ℕ → args.Cursor → Printed)
      → Printed
  with_width flags none c m k = k flags none c
  with_width flags (some (number n)) c m k = k flags (some n) c
  with_width flags (some star) c m k = after (args.integer false c m) (λ value c'.
      let (flags', width) = drawn_width flags (signed_of value 32) in k flags' width c')

  -- `if precision == "*"`
  unfoldable pub with_precision :
      Option Amount → args.Cursor → g.Memory → (Option ℕ → args.Cursor → Printed) → Printed
  with_precision none c m k = k none c
  with_precision (some (number n)) c m k = k (some n) c
  with_precision (some star) c m k =
      after (args.integer false c m) (λ value c'. k (drawn_precision (signed_of value 32)) c')

  -- a value is drawn, and its text made of it
  unfoldable pub printed_integer : Bool → args.Cursor → g.Memory → (ℕ → List ℕ × g.Memory) → Printed
  printed_integer wide c m make =
      after (args.integer wide c m) (λ value c'. let (text, m') = make value in some (text, c', m'))

  unfoldable pub printed_real : args.Cursor → g.Memory → (ℕ → List ℕ) → Printed
  printed_real c m make = after (args.real c m) (λ value c'. some (make value, c', m))

  -- `_write_count`
  unfoldable pub write_count : ℕ → Length → ℕ → g.Memory → g.Memory
  unfolding value_bits
  write_count address modifier count m =
      let bits = value_bits pointer_size modifier in
      write_unsigned g (bits / 8) address (count % 2 ^ bits) m

  -- the branches on `conv`, with what was printed before
  unfoldable pub convert :
      ℕ → Length → List ℕ → List ℕ → Option ℕ → Option ℕ → args.Cursor → g.Memory → Printed
  unfolding printed_integer printed_real value_bits signed_of plain_text cut_to pointer_text
      encoded_length write_count
  convert conv modifier out flags width precision c m =
      let wide = args.is_wide modifier in
      let bits = value_bits pointer_size modifier in
      if conv == b'd' || conv == b'i'
      then printed_integer wide c m
          (λ value. (integer_text b'd' flags width precision (signed_of value bits), m))
      else if has conv (b'o' ∷ b'u' ∷ b'x' ∷ b'X' ∷ [])
      then printed_integer wide c m
          (λ value. (integer_text conv flags width precision (pos (value % 2 ^ bits)), m))
      else if conv == b'c'
      then printed_integer false c m (λ value. (plain_text flags width (value % 256 ∷ []), m))
      else if conv == b's'
      then printed_integer false c m (λ pointer. (
        plain_text flags width (
            cut_to precision
              (if pointer == 0 then null_text else decode (read_cstr_bytes g mapped pointer m))),
        m,
      ))
      else if conv == b'p'
      then printed_integer false c m (λ pointer. (pointer_text flags width precision pointer, m))
      else if conv == b'n'
      then printed_integer false c m
          (λ pointer. ([], write_count pointer modifier (encoded_length out) m))
      else printed_real c m (real_text conv flags width precision)

  -- one match of the loop
  unfoldable pub format_spec : Spec → List ℕ → args.Cursor → g.Memory → Printed
  unfolding with_width with_precision convert
  format_spec spec out c m =
      if spec.conv == b'%'
      then some (b'%' ∷ [], c, m)
      else with_width spec.flags spec.width c m (λ flags width c'.
        with_precision spec.precision c' m
          (λ precision c''. convert spec.conv spec.modifier out flags width precision c'' m))

  unfoldable pub format_pieces : List Piece → List ℕ → args.Cursor → g.Memory → Printed
  unfolding format_spec
  format_pieces [] out c m = some (out, c, m)
  format_pieces (literal char ∷ rest) out c m = format_pieces rest (out ++ char ∷ []) c m
  format_pieces (matched spec source ∷ rest) out c m =
      then_print (format_spec spec out c m) (λ text c' m'. format_pieces rest (out ++ text) c' m')

  unfoldable pub format : List ℕ → args.Cursor → g.Memory → Printed
  unfolding pieces format_pieces
  format fmt c m = format_pieces (pieces fmt) [] c m
