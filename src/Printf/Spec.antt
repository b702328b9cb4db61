-- ===== src/Printf/Spec.antt =====
-- src/emulite/android/cformat/var_args.py: the pattern `_SPEC` and its matches in a format. Texts are
-- rows of code points, and the digits of a format are ASCII.
pub mod Source
use emulite.Base.{
  ℕ, zero, suc, ◌+◌, ◌-◌, ◌*◌, Bool, true, false, ◌&&◌, Option, none, some, List, [], ◌∷◌, ◌++◌,
  leb, ◌==◌, if◌then◌else◌, is_empty, length,
}
use emulite.Printf.{
  Length, no_length, hh_length, h_length, l_length, ll_length, q_length, z_length, j_length,
  t_length,
}
use emulite.Printf.Numbers.{has}

-- a width or a precision
pub data Amount : Type 0 where
  star : Amount
  number : ℕ → Amount

pub record Spec : Type 0 where
  pub flags : List ℕ
  pub width : Option Amount
  pub precision : Option Amount
  pub modifier : Length
  pub conv : ℕ

-- the characters of a class at the front, and what follows
unfoldable pub span : (ℕ → Bool) → List ℕ → List ℕ × List ℕ
span p [] = ([], [])
span p (c ∷ text) =
    let (front, rest) = span p text in if p c then (c ∷ front, rest) else ([], c ∷ text)

-- [-+ #0]
abbrev pub flag_chars : List ℕ
flag_chars = b'-' ∷ b'+' ∷ b' ' ∷ b'#' ∷ b'0' ∷ []

-- [diouxXeEfFgGaAcspn%]
abbrev pub conversions : List ℕ
conversions =
    b'd' ∷ b'i' ∷ b'o' ∷ b'u' ∷ b'x' ∷ b'X' ∷ b'e' ∷ b'E' ∷ b'f' ∷ b'F' ∷ b'g' ∷ b'G' ∷ b'a' ∷ b'A'
    ∷ b'c' ∷ b's' ∷ b'p' ∷ b'n' ∷ b'%' ∷ []

abbrev pub is_digit : ℕ → Bool
is_digit c = leb b'0' c && leb c b'9'

-- `int(text)`
abbrev pub int_of : ℕ → List ℕ → ℕ
int_of value [] = value
int_of value (c ∷ digits) = int_of (value * 10 + (c - b'0')) digits

-- What a part of the pattern has matched: what it stands for, its source text, and what follows.
-- (\*|\d+)?
unfoldable pub amount_at : List ℕ → Option Amount × List ℕ × List ℕ
unfolding span
amount_at [] = (none, [], [])
amount_at (c ∷ text) =
    let (digits, rest) = span is_digit (c ∷ text) in
    if c == b'*'
    then (some star, c ∷ [], text)
    else if is_empty digits
    then (none, [], c ∷ text)
    else (some (number (int_of 0 digits)), digits, rest)

-- the point, with what may follow it
unfoldable pub after_point :
    ℕ → List ℕ → Option Amount × List ℕ × List ℕ → Option Amount × List ℕ × List ℕ
after_point c text (none, source, rest) = (none, [], c ∷ text)
after_point c text (some amount, source, rest) = (some amount, c ∷ source, rest)

-- (?:\.(\*|\d+))?
unfoldable pub precision_at : List ℕ → Option Amount × List ℕ × List ℕ
unfolding amount_at after_point
precision_at [] = (none, [], [])
precision_at (c ∷ text) =
    if c == b'.' then after_point c text (amount_at text) else (none, [], c ∷ text)

-- the second letter of `hh` and `ll`
unfoldable pub doubled : ℕ → Length → Length → List ℕ → Length × List ℕ × List ℕ
doubled letter one two [] = (one, letter ∷ [], [])
doubled letter one two (c ∷ text) =
    if c == letter then (two, letter ∷ c ∷ [], text) else (one, letter ∷ [], c ∷ text)

-- (hh|h|ll|l|q|z|j|t)?
unfoldable pub length_at : List ℕ → Length × List ℕ × List ℕ
unfolding doubled
length_at [] = (no_length, [], [])
length_at (c ∷ text) =
    if c == b'h'
    then doubled c h_length hh_length text
    else if c == b'l'
    then doubled c l_length ll_length text
    else if c == b'q'
    then (q_length, c ∷ [], text)
    else if c == b'z'
    then (z_length, c ∷ [], text)
    else if c == b'j'
    then (j_length, c ∷ [], text)
    else if c == b't'
    then (t_length, c ∷ [], text)
    else (no_length, [], c ∷ text)

-- the last character class, with the groups before it; `none` where there is no match
unfoldable pub conversion_at :
    List ℕ
    → Option Amount
    → Option Amount
    → Length
    → List ℕ
    → List ℕ
    → Option (Spec × List ℕ × List ℕ)
conversion_at flags width precision modifier source [] = none
conversion_at flags width precision modifier source (c ∷ text) =
    if has c conversions
    then some (
      record { flags = flags; width = width; precision = precision; modifier = modifier; conv = c },
      source ++ c ∷ [],
      text,
    )
    else none

-- What matches behind a `%`. No character that a group takes can begin what follows the group, so
-- that the pattern never goes back.
unfoldable pub match_spec : List ℕ → Option (Spec × List ℕ × List ℕ)
unfolding span amount_at precision_at length_at conversion_at
match_spec text =
    let (flags, at_width) = span (λ (c : ℕ). has c flag_chars) text in
    let (width, digits, at_point) = amount_at at_width in
    let (precision, point, at_length) = precision_at at_point in
    let (modifier, letters, at_conversion) = length_at at_length in
    conversion_at flags width precision modifier (flags ++ (digits ++ (point ++ letters)))
      at_conversion

-- a match, with its source text behind the `%`, or a character between matches
pub data Piece : Type 0 where
  literal : ℕ → Piece
  matched : Spec → List ℕ → Piece

-- `finditer` and the text between: each piece takes a character at least
unfoldable pub pieces_of : ℕ → List ℕ → List Piece
unfolding match_spec
pieces_of zero text = []
pieces_of (suc fuel) [] = []
pieces_of (suc fuel) (c ∷ text) =
    let plain = literal c ∷ pieces_of fuel text in
    if c == b'%'
    then (elim (match_spec text) [
      | none ↦ plain
      | some (spec, source, rest) ↦ matched spec source ∷ pieces_of fuel rest
    ])
    else plain

unfoldable pub pieces : List ℕ → List Piece
unfolding pieces_of
pieces fmt = pieces_of (length fmt) fmt
