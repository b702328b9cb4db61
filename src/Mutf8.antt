-- ===== src/Mutf8.antt =====
-- src/emulite/android/jni/mutf8.py, Mutf8: Java's modified UTF-8. A text is a list of code points,
-- and `none` is a UnicodeDecodeError. The bytes that `|` joins have no bit in common, so they are
-- added; `>> n` and `& (2 ** n - 1)` are a quotient and a remainder by a power of 2.
pub mod RoundTrip
mod Fuel
mod Tests
use emulite.Base.{
  ℕ, zero, suc, ◌+◌, ◌-◌, ◌*◌, ◌/◌, ◌%◌, Option, none, some, List, [], ◌∷◌, ◌++◌, Bool, true, false,
  ◌&&◌, ltb, leb, ◌==◌, if◌then◌else◌, length,
}

-- three bytes, of a code point below 0x10000
abbrev pub three_bytes : ℕ → List ℕ
three_bytes code = (0xE0 + code / 4096) ∷ (0x80 + code / 64 % 64) ∷ (0x80 + code % 64) ∷ []

unfoldable pub encode_char : ℕ → List ℕ
encode_char code =
    if code == 0
    then 0xC0 ∷ 0x80 ∷ []
    else if ltb code 0x80
    then code ∷ []
    else if ltb code 0x800
    then (0xC0 + code / 64) ∷ (0x80 + code % 64) ∷ []
    else if ltb code 0x1_0000
    then three_bytes code
    else three_bytes (0xD800 + (code - 0x1_0000) / 1024)
      ++ three_bytes (0xDC00 + (code - 0x1_0000) % 1024)

unfoldable pub encode : List ℕ → List ℕ
encode [] = []
encode (ch ∷ text) = encode_char ch ++ encode text

-- data[i] & 0xC0 == 0x80
abbrev pub continues : ℕ → Bool
continues byte = byte / 64 == 2

-- what follows a zero byte's first byte
abbrev pub is_zero_tail : List ℕ → Bool
is_zero_tail [] = false
is_zero_tail (b1 ∷ rest) = b1 == 0x80

abbrev pub skip_one : List ℕ → List ℕ
skip_one [] = []
skip_one (b1 ∷ rest) = rest

abbrev pub two_byte_char : ℕ → List ℕ → Option (ℕ × List ℕ)
two_byte_char b0 [] = none
two_byte_char b0 (b1 ∷ rest) =
    let code = b0 % 32 * 64 + b1 % 64 in
    if continues b1 then if ltb code 0x80 then none else some (code, rest) else none

-- a low surrogate joins the high one before it
abbrev pub joined : ℕ → ℕ → ℕ → ℕ → List ℕ → Option (ℕ × List ℕ)
joined cp b3 b4 b5 rest =
    let lo = b3 % 16 * 4096 + b4 % 64 * 64 + b5 % 64 in
    if leb 0xDC00 lo && leb lo 0xDFFF
    then some (0x1_0000 + (cp - 0xD800) * 1024 + (lo - 0xDC00), rest)
    else some (cp, b3 ∷ b4 ∷ b5 ∷ rest)

-- after three bytes of a code point
abbrev pub paired : ℕ → List ℕ → Option (ℕ × List ℕ)
paired cp [] = some (cp, [])
paired cp (b3 ∷ []) = some (cp, b3 ∷ [])
paired cp (b3 ∷ b4 ∷ []) = some (cp, b3 ∷ b4 ∷ [])
paired cp (b3 ∷ b4 ∷ b5 ∷ rest) =
    if leb 0xD800 cp && leb cp 0xDBFF && (b3 / 16 == 14)
    then if continues b4 && continues b5 then joined cp b3 b4 b5 rest else none
    else some (cp, b3 ∷ b4 ∷ b5 ∷ rest)

abbrev pub three_byte_char : ℕ → List ℕ → Option (ℕ × List ℕ)
three_byte_char b0 [] = none
three_byte_char b0 (b1 ∷ []) = none
three_byte_char b0 (b1 ∷ b2 ∷ rest) =
    let cp = b0 % 16 * 4096 + b1 % 64 * 64 + b2 % 64 in
    if continues b1 && continues b2 then if ltb cp 0x800 then none else paired cp rest else none

-- one round of the loop: a code point, and the bytes left
unfoldable pub next_char : ℕ → List ℕ → Option (ℕ × List ℕ)
next_char b0 rest =
    if (b0 == 0xC0) && is_zero_tail rest
    then some (0, skip_one rest)
    else if ltb b0 0x80
    then some (b0, rest)
    else if b0 / 32 == 6
    then two_byte_char b0 rest
    else if b0 / 16 == 14
    then three_byte_char b0 rest
    else none

abbrev pub before : ℕ → Option (List ℕ) → Option (List ℕ)
before ch none = none
before ch (some text) = some (ch ∷ text)

-- each round passes a byte at least, so the number of bytes is fuel enough
unfoldable pub decode_from : ℕ → List ℕ → Option (List ℕ)
decode_from fuel [] = some []
decode_from zero (b0 ∷ rest) = none
decode_from (suc fuel) (b0 ∷ rest) = elim (next_char b0 rest) [
  | none ↦ none
  | some (ch, left) ↦ before ch (decode_from fuel left)
]

unfoldable pub decode : List ℕ → Option (List ℕ)
decode bytes = decode_from (length bytes) bytes
