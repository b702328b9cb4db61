-- ===== src/Mutf8/Fuel.antt =====
-- The loop of `decode` ends with the bytes.
use emulite.Base.{
  ℕ, zero, suc, ◌+◌, ◌*◌, ◌/◌, ◌%◌, ◌≤◌, ◌≡◌, refl, ap, Option, none, some, List, [], ◌∷◌, length,
  arith, Option-cases, inl, inr, ◌&&◌, ltb, leb, ◌==◌, Bool-cases,
}
use mathlib.Core.Path.{subst}
use emulite.Mutf8.{
  next_char, decode_from, before, two_byte_char, three_byte_char, paired, joined, continues,
  is_zero_tail, skip_one,
}

-- the bytes that are left are not more than those that followed
abbrev NoMore : ℕ → Option (ℕ × List ℕ) → Type 0
NoMore n none = Unit {0}
NoMore n (some (ch, left)) = length left ≤ n

NoMore-joined :
    (cp b3 b4 b5 : ℕ) (rest : List ℕ)
    → NoMore (suc (suc (suc (length rest)))) (joined cp b3 b4 b5 rest)
NoMore-joined cp b3 b4 b5 rest =
    let lo = b3 % 16 * 4096 + b4 % 64 * 64 + b5 % 64 in
    elim (Bool-cases (leb 0xDC00 lo && leb lo 0xDFFF)) [
      | inl e ↦ rw e (omega arith)
      | inr e ↦ rw e (omega arith)
    ]

NoMore-paired : (cp : ℕ) (rest : List ℕ) → NoMore (length rest) (paired cp rest)
NoMore-paired cp [] = omega arith
NoMore-paired cp (b3 ∷ []) = omega arith
NoMore-paired cp (b3 ∷ b4 ∷ []) = omega arith
NoMore-paired cp (b3 ∷ b4 ∷ b5 ∷ rest) =
    elim (Bool-cases (leb 0xD800 cp && leb cp 0xDBFF && (b3 / 16 == 14))) [
      | inl e ↦ elim (Bool-cases (continues b4 && continues b5)) [
        | inl f ↦ rw (e, f) (NoMore-joined cp b3 b4 b5 rest)
        | inr f ↦ rw (e, f) tt
      ]
      | inr e ↦ rw e (omega arith)
    ]

NoMore-two : (b0 : ℕ) (rest : List ℕ) → NoMore (length rest) (two_byte_char b0 rest)
NoMore-two b0 [] = tt
NoMore-two b0 (b1 ∷ rest) = elim (Bool-cases (continues b1)) [
  | inl e ↦ elim (Bool-cases (ltb (b0 % 32 * 64 + b1 % 64) 0x80)) [
    | inl f ↦ rw (e, f) tt
    | inr f ↦ rw (e, f) (omega arith)
  ]
  | inr e ↦ rw e tt
]

NoMore-more : (n m : ℕ) (o : Option (ℕ × List ℕ)) → n ≤ m → NoMore n o → NoMore m o
NoMore-more n m none le h = tt
NoMore-more n m (some (ch, left)) le h = omega (arith, h)

NoMore-three : (b0 : ℕ) (rest : List ℕ) → NoMore (length rest) (three_byte_char b0 rest)
NoMore-three b0 [] = tt
NoMore-three b0 (b1 ∷ []) = tt
NoMore-three b0 (b1 ∷ b2 ∷ rest) =
    let cp = b0 % 16 * 4096 + b1 % 64 * 64 + b2 % 64 in
    elim (Bool-cases (continues b1 && continues b2)) [
      | inl e ↦ elim (Bool-cases (ltb cp 0x800)) [
        | inl f ↦ rw (e, f) tt
        | inr f ↦
            rw (e, f)
              (NoMore-more (length rest) (suc (suc (length rest))) (paired cp rest) (omega arith)
                (NoMore-paired cp rest))
      ]
      | inr e ↦ rw e tt
    ]

length-skip_one : (rest : List ℕ) → length (skip_one rest) ≤ length rest
length-skip_one [] = omega arith
length-skip_one (b ∷ rest) = omega arith

NoMore-next_char : (b0 : ℕ) (rest : List ℕ) → NoMore (length rest) (next_char b0 rest)
unfolding next_char
NoMore-next_char b0 rest = elim (Bool-cases ((b0 == 0xC0) && is_zero_tail rest)) [
  | inl e ↦ rw (e, next_char) (length-skip_one rest)
  | inr e ↦ elim (Bool-cases (ltb b0 0x80)) [
    | inl f ↦ rw (e, f, next_char) (omega arith)
    | inr f ↦ elim (Bool-cases (b0 / 32 == 6)) [
      | inl g ↦ rw (e, f, g, next_char) (NoMore-two b0 rest)
      | inr g ↦ elim (Bool-cases (b0 / 16 == 14)) [
        | inl h ↦ rw (e, f, g, h, next_char) (NoMore-three b0 rest)
        | inr h ↦ rw (e, f, g, h, next_char) tt
      ]
    ]
  ]
]

-- More fuel than bytes changes nothing: `decode` stops at the end of the bytes or at a fault.
decode_from-decode_from :
    (n m : ℕ) (bytes : List ℕ)
    → length bytes ≤ n
    → length bytes ≤ m
    → decode_from n bytes ≡ decode_from m bytes
unfolding decode_from
decode_from-decode_from n m [] p q = refl
decode_from-decode_from zero m (b0 ∷ rest) p q = absurd (omega arith)
decode_from-decode_from (suc n) zero (b0 ∷ rest) p q = absurd (omega arith)
decode_from-decode_from (suc n) (suc m) (b0 ∷ rest) p q =
    let fewer = NoMore-next_char b0 rest in
    elim (Option-cases (next_char b0 rest)) [
      | inl e ↦ rw (e, decode_from) refl
      | inr ((ch, left), e) ↦
          let less : length left ≤ length rest = subst (NoMore (length rest)) e fewer in
          rw (e, decode_from)
            (ap (before ch) (decode_from-decode_from n m left (omega arith) (omega arith)))
    ]
