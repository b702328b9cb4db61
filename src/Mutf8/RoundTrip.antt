-- ===== src/Mutf8/RoundTrip.antt =====
-- Texts come back from their bytes.
use emulite.Base.{
  ℕ, zero, suc, ◌+◌, ◌-◌, ◌*◌, ◌/◌, ◌%◌, ◌≤◌, ◌<◌, ◌≡◌, refl, ap, ◌∙◌, some, List, [], ◌∷◌, ◌++◌,
  Bool, true, false, ◌&&◌, ◌||◌, ltb, leb, ◌==◌, length, length-append, arith, lt_cases, eq_cases,
  inl, inr,
}
use emulite.Mutf8.{
  encode_char, encode, three_bytes, continues, paired, next_char, before, decode_from, decode,
}

-- a Unicode scalar value: a code point that is no surrogate
abbrev pub is_scalar : ℕ → Bool
is_scalar c = ltb c 0xD800 || (leb 0xE000 c && ltb c 0x11_0000)

abbrev pub all_scalar : List ℕ → Bool
all_scalar [] = true
all_scalar (c ∷ text) = is_scalar c && all_scalar text

-- the bytes of a code point, and what a round of the loop makes of them
record Coded (c : ℕ) : Type 0 where
  first : ℕ
  others : List ℕ
  coded : encode_char c ≡ first ∷ others
  back : (tail : List ℕ) → next_char first (others ++ tail) ≡ some (c, tail)

Coded-one : (c : ℕ) → 0 < c → c < 0x80 → Coded c
unfolding encode_char next_char
Coded-one c pos small = record {
  first = c;
  others = [];
  coded =
      let e0 : (c == 0) ≡ false = ground arith in
      let e1 : ltb c 0x80 ≡ true = ground arith in rw (e0, e1, encode_char) refl;
  back = λ tail.
      let e2 : (c == 0xC0) ≡ false = ground arith in
      let e1 : ltb c 0x80 ≡ true = ground arith in rw (e2, e1, next_char) refl;
}

Coded-two : (c : ℕ) → 0x80 ≤ c → c < 0x800 → Coded c
unfolding encode_char next_char
Coded-two c low high = record {
  first = 0xC0 + c / 64;
  others = (0x80 + c % 64) ∷ [];
  coded =
      let e0 : (c == 0) ≡ false = ground arith in
      let e1 : ltb c 0x80 ≡ false = ground arith in
      let e2 : ltb c 0x800 ≡ true = ground arith in rw (e0, e1, e2, encode_char) refl;
  back = λ tail.
      let b0 = 0xC0 + c / 64 in
      let b1 = 0x80 + c % 64 in
      let e0 : (b0 == 0xC0) ≡ false = ground arith in
      let e1 : ltb b0 0x80 ≡ false = ground arith in
      let e2 : (b0 / 32 == 6) ≡ true = ground arith in
      let e3 : continues b1 ≡ true = ground arith in
      let e4 : b0 % 32 * 64 + b1 % 64 ≡ c = omega arith in
      let e5 : ltb c 0x80 ≡ false = ground arith in rw (e0, e1, e2, next_char, e3, e4, e5) refl;
}

-- the round of the loop on three bytes, up to what follows them
next_char-three_bytes :
    (c : ℕ) (tail : List ℕ)
    → 0x800 ≤ c
    → c < 0x1_0000
    → next_char (0xE0 + c / 4096) ((0x80 + c / 64 % 64) ∷ (0x80 + c % 64) ∷ tail) ≡ paired c tail
unfolding next_char
next_char-three_bytes c tail low high =
    let b0 = 0xE0 + c / 4096 in
    let b1 = 0x80 + c / 64 % 64 in
    let b2 = 0x80 + c % 64 in
    let e0 : (b0 == 0xC0) ≡ false = ground arith in
    let e1 : ltb b0 0x80 ≡ false = ground arith in
    let e2 : (b0 / 32 == 6) ≡ false = ground arith in
    let e3 : (b0 / 16 == 14) ≡ true = ground arith in
    let e4 : continues b1 ≡ true = ground arith in
    let e5 : continues b2 ≡ true = ground arith in
    let e6 : b0 % 16 * 4096 + b1 % 64 * 64 + b2 % 64 ≡ c = omega arith in
    let e7 : ltb c 0x800 ≡ false = ground arith in
    rw (e0, e1, e2, e3, next_char, e4, e5, e6, e7) refl

paired_alone :
    (c : ℕ) (tail : List ℕ)
    → (leb 0xD800 c && leb c 0xDBFF) ≡ false
    → paired c tail ≡ some (c, tail)
paired_alone c [] h = refl
paired_alone c (b3 ∷ []) h = refl
paired_alone c (b3 ∷ b4 ∷ []) h = refl
paired_alone c (b3 ∷ b4 ∷ b5 ∷ tail) h =
    let no : (leb 0xD800 c && leb c 0xDBFF && (b3 / 16 == 14)) ≡ false = ground (arith, h) in
    rw no refl

Coded-three : (c : ℕ) → 0x800 ≤ c → c < 0x1_0000 → (leb 0xD800 c && leb c 0xDBFF) ≡ false → Coded c
unfolding encode_char
Coded-three c low high single = record {
  first = 0xE0 + c / 4096;
  others = (0x80 + c / 64 % 64) ∷ (0x80 + c % 64) ∷ [];
  coded =
      let e0 : (c == 0) ≡ false = ground arith in
      let e1 : ltb c 0x80 ≡ false = ground arith in
      let e2 : ltb c 0x800 ≡ false = ground arith in
      let e3 : ltb c 0x1_0000 ≡ true = ground arith in rw (e0, e1, e2, e3, encode_char) refl;
  back = λ tail. next_char-three_bytes c tail low high ∙ paired_alone c tail single;
}

-- a high surrogate and the three bytes of a low one
paired_low :
    (high low : ℕ) (tail : List ℕ)
    → (leb 0xD800 high && leb high 0xDBFF) ≡ true
    → (leb 0xDC00 low && leb low 0xDFFF) ≡ true
    → paired high ((0xE0 + low / 4096) ∷ (0x80 + low / 64 % 64) ∷ (0x80 + low % 64) ∷ tail)
      ≡ some (0x1_0000 + (high - 0xD800) * 1024 + (low - 0xDC00), tail)
paired_low high low tail h l =
    let b3 = 0xE0 + low / 4096 in
    let b4 = 0x80 + low / 64 % 64 in
    let b5 = 0x80 + low % 64 in
    let e0 : (leb 0xD800 high && leb high 0xDBFF && (b3 / 16 == 14)) ≡ true =
      ground (arith, h, l) in
    let e1 : (continues b4 && continues b5) ≡ true = ground arith in
    let e2 : b3 % 16 * 4096 + b4 % 64 * 64 + b5 % 64 ≡ low = ground (arith, l) in
    rw (e0, e1, e2, l) refl

Coded-six : (c : ℕ) → 0x1_0000 ≤ c → c < 0x11_0000 → Coded c
unfolding encode_char
Coded-six c from below =
    let high = 0xD800 + (c - 0x1_0000) / 1024 in
    let low = 0xDC00 + (c - 0x1_0000) % 1024 in
    record {
      first = 0xE0 + high / 4096;
      others = (0x80 + high / 64 % 64) ∷ (0x80 + high % 64) ∷ three_bytes low;
      coded =
          let e0 : (c == 0) ≡ false = ground arith in
          let e1 : ltb c 0x80 ≡ false = ground arith in
          let e2 : ltb c 0x800 ≡ false = ground arith in
          let e3 : ltb c 0x1_0000 ≡ false = ground arith in rw (e0, e1, e2, e3, encode_char) refl;
      back = λ tail.
          let h : (leb 0xD800 high && leb high 0xDBFF) ≡ true = ground arith in
          let l : (leb 0xDC00 low && leb low 0xDFFF) ≡ true = ground arith in
          let whole : 0x1_0000 + (high - 0xD800) * 1024 + (low - 0xDC00) ≡ c = omega arith in
          next_char-three_bytes high (three_bytes low ++ tail) (omega arith) (omega arith)
          ∙ paired_low high low tail h l
          ∙ ap (λ (k : ℕ). some (k, tail)) whole;
    }

Coded-zero : Coded 0
unfolding encode_char next_char
Coded-zero = record { first = 0xC0; others = 0x80 ∷ []; coded = refl; back = λ tail. refl }

Coded-char : (c : ℕ) → is_scalar c ≡ true → Coded c
Coded-char c s = elim (lt_cases c 0x80) [
  | inl small ↦ elim (eq_cases c 0) [
    | inl none_left ↦ rw none_left Coded-zero
    | inr some_left ↦ Coded-one c (ground (arith, some_left)) small
  ]
  | inr over1 ↦ elim (lt_cases c 0x800) [
    | inl below2 ↦ Coded-two c over1 below2
    | inr over2 ↦ elim (lt_cases c 0x1_0000) [
      | inl below3 ↦ Coded-three c over2 below3 (ground (arith, s))
      | inr over3 ↦ Coded-six c over3 (ground (arith, s))
    ]
  ]
]

decode_from-encode :
    (fuel : ℕ) (text : List ℕ)
    → all_scalar text ≡ true
    → length (encode text) ≤ fuel
    → decode_from fuel (encode text) ≡ some text
unfolding decode_from encode
decode_from-encode fuel [] s enough = refl
decode_from-encode zero (c ∷ text) s enough =
    let k = Coded-char c (ground (arith, s)) in
    absurd (omega (arith, enough, length-append (encode_char c) (encode text), ap length k.coded))
decode_from-encode (suc fuel) (c ∷ text) s enough =
    let k = Coded-char c (ground (arith, s)) in
    let bytes : encode (c ∷ text) ≡ k.first ∷ (k.others ++ encode text) =
      ap (λ (l : List ℕ). l ++ encode text) k.coded in
    let room : length (encode text) ≤ fuel =
      omega (arith, enough, length-append (encode_char c) (encode text), ap length k.coded) in
    ap (decode_from (suc fuel)) bytes
    ∙ rw (k.back (encode text), decode_from)
        (ap (before c) (decode_from-encode fuel text (ground (arith, s)) room))

-- A text of code points below 0x110000, none of them a surrogate, comes back from its modified
-- UTF-8, with zeros and with code points that take a pair of surrogates.
pub decode-encode : (text : List ℕ) → all_scalar text ≡ true → decode (encode text) ≡ some text
unfolding decode
decode-encode text s = decode_from-encode (length (encode text)) text s (omega arith)
