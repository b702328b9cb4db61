-- ===== src/Printf/Numbers.antt =====
-- `_pad` of src/emulite/android/cformat/var_args.py, and the digits of a pointer there.
use emulite.Base.{
  ℕ, zero, suc, ◌+◌, ◌-◌, ◌/◌, ◌%◌, Bool, false, ◌||◌, Option, none, some, List, [], ◌∷◌, ◌++◌,
  length, take, drop, replicate, ltb, leb, ◌==◌, if◌then◌else◌,
}

-- `c in text`
abbrev pub has : ℕ → List ℕ → Bool
has c [] = false
has c (d ∷ text) = d == c || has c text

-- `VarArgs._pad`, with the width as a number
unfoldable pub pad : List ℕ → List ℕ → Option ℕ → ℕ → List ℕ
pad text flags none zero_prefix = text
pad text flags (some width) zero_prefix =
    if leb width (length text)
    then text
    else let padding = width - length text in
      if has b'-' flags
      then text ++ replicate padding b' '
      else if has b'0' flags
      then take zero_prefix text ++ (replicate padding b'0' ++ drop zero_prefix text)
      else replicate padding b' ' ++ text

abbrev pub digit_char : ℕ → ℕ
digit_char d = if ltb d 10 then b'0' + d else b'a' + d - 10

-- the digits of a number, at most as many as the fuel
unfoldable pub digits_of : ℕ → ℕ → ℕ → List ℕ
digits_of base zero n = []
digits_of base (suc fuel) n =
    let high = digits_of base fuel (n / base) in
    (if ltb n base then [] else high) ++ digit_char (n % base) ∷ []

unfoldable pub number_text : ℕ → ℕ → List ℕ
unfolding digits_of
number_text base n = digits_of base (suc n) n

-- `rjust` by the precision, the least number of digits
unfoldable pub zero_filled : Option ℕ → List ℕ → List ℕ
zero_filled none digits = digits
zero_filled (some precision) digits = replicate (precision - length digits) b'0' ++ digits
