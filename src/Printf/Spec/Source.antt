-- ===== src/Printf/Spec/Source.antt =====
-- The pieces of a format hold its whole text.
use emulite.Base.{
  ℕ, zero, suc, ◌≤◌, ◌≡◌, refl, sym, ap, ◌∙◌, Bool, Option, none, some, List, [], ◌∷◌, ◌++◌, length,
  ◌==◌, is_empty, arith, Bool-cases, Option-cases, inl, inr, append_assoc, length-append,
}
use mathlib.Core.Path.{subst}
use mathlib.Core.Option.{some-injective}
use emulite.Printf.{Length}
use emulite.Printf.Numbers.{has}
use emulite.Printf.Spec.{
  Amount, Spec, span, is_digit, flag_chars, conversions, amount_at, after_point, precision_at,
  doubled, length_at, conversion_at, match_spec, Piece, literal, matched, pieces_of, pieces,
}

span-append : (p : ℕ → Bool) (text : List ℕ) → (span p text).0 ++ (span p text).1 ≡ text
unfolding span
span-append p [] = refl
span-append p (c ∷ text) = elim (Bool-cases (p c)) [
  | inl e ↦ rw e (ap (◌∷◌ c) (span-append p text))
  | inr e ↦ rw e refl
]

-- a part of the pattern takes its source text off the front
abbrev Takes : {A : Type 0} → A × List ℕ × List ℕ → List ℕ → Type 0
Takes r text = r.1 ++ r.2 ≡ text

amount_at-Takes : (text : List ℕ) → Takes (amount_at text) text
unfolding amount_at
amount_at-Takes [] = refl
amount_at-Takes (c ∷ text) = elim (Bool-cases (c == b'*')) [
  | inl e ↦ rw e refl
  | inr e ↦ elim (Bool-cases (is_empty (span is_digit (c ∷ text)).0)) [
    | inl f ↦ rw (e, f) refl
    | inr f ↦ rw (e, f) (span-append is_digit (c ∷ text))
  ]
]

after_point-Takes :
    (c : ℕ) (text : List ℕ) (r : Option Amount × List ℕ × List ℕ)
    → Takes r text
    → Takes (after_point c text r) (c ∷ text)
unfolding after_point
after_point-Takes c text (none, source, rest) h = refl
after_point-Takes c text (some amount, source, rest) h = ap (◌∷◌ c) h

precision_at-Takes : (text : List ℕ) → Takes (precision_at text) text
unfolding precision_at
precision_at-Takes [] = refl
precision_at-Takes (c ∷ text) = elim (Bool-cases (c == b'.')) [
  | inl e ↦ rw e (after_point-Takes c text (amount_at text) (amount_at-Takes text))
  | inr e ↦ rw e refl
]

doubled-Takes :
    (c : ℕ) (one two : Length) (text : List ℕ) → Takes (doubled c one two text) (c ∷ text)
unfolding doubled
doubled-Takes c one two [] = refl
doubled-Takes c one two (d ∷ text) = elim (Bool-cases (d == c)) [
  | inl e ↦ rw e refl
  | inr e ↦ rw e refl
]

length_at-Takes : (text : List ℕ) → Takes (length_at text) text
unfolding length_at
length_at-Takes [] = refl
length_at-Takes (c ∷ text) = ground (
  arith,
  doubled-Takes c Length.h_length Length.hh_length text,
  doubled-Takes c Length.l_length Length.ll_length text,
)

conversion_at-Takes :
    (flags : List ℕ) (width precision : Option Amount) (modifier : Length) (source text : List ℕ)
    (r : Spec × List ℕ × List ℕ)
    → conversion_at flags width precision modifier source text ≡ some r
    → Takes r (source ++ text)
unfolding conversion_at
conversion_at-Takes flags width precision modifier source [] r e = absurd (ground arith)
conversion_at-Takes flags width precision modifier source (c ∷ text) r e =
    elim (Bool-cases (has c conversions)) [
      | inl f ↦
          let whole : Option (Spec × List ℕ × List ℕ) = some (
            record {
              flags = flags;
              width = width;
              precision = precision;
              modifier = modifier;
              conv = c;
            },
            source ++ c ∷ [],
            text,
          ) in
          let e' : whole ≡ some r = sym (rw f refl) ∙ e in
          subst (λ (r' : Spec × List ℕ × List ℕ). Takes r' (source ++ c ∷ text))
            (some-injective _ _ e') (append_assoc source (c ∷ []) text)
      | inr f ↦ absurd (ground arith)
    ]

match_spec-Takes :
    (text : List ℕ) (r : Spec × List ℕ × List ℕ) → match_spec text ≡ some r → Takes r text
unfolding match_spec
match_spec-Takes text r e =
    let flags = span (λ (c : ℕ). has c flag_chars) text in
    let width = amount_at flags.1 in
    let precision = precision_at width.2 in
    let modifier = length_at precision.2 in
    conversion_at-Takes flags.0 width.0 precision.0 modifier.0
      (flags.0 ++ (width.1 ++ (precision.1 ++ modifier.1))) modifier.2 r e
    ∙ append_assoc flags.0 (width.1 ++ (precision.1 ++ modifier.1)) modifier.2
    ∙ ap (◌++◌ flags.0) (
        append_assoc width.1 (precision.1 ++ modifier.1) modifier.2
        ∙ ap (◌++◌ width.1) (
            append_assoc precision.1 modifier.1 modifier.2
            ∙ ap (◌++◌ precision.1) (length_at-Takes precision.2)
            ∙ precision_at-Takes width.2)
        ∙ amount_at-Takes flags.1)
    ∙ span-append (λ (c : ℕ). has c flag_chars) text

abbrev pub source_of : Piece → List ℕ
source_of (literal c) = c ∷ []
source_of (matched spec source) = b'%' ∷ source

abbrev pub sources : List Piece → List ℕ
sources [] = []
sources (p ∷ ps) = source_of p ++ sources ps

sources-pieces_of :
    (fuel : ℕ) (text : List ℕ) → length text ≤ fuel → sources (pieces_of fuel text) ≡ text
unfolding pieces_of
sources-pieces_of zero [] h = refl
sources-pieces_of zero (c ∷ text) h = absurd (omega arith)
sources-pieces_of (suc fuel) [] h = refl
sources-pieces_of (suc fuel) (c ∷ text) h =
    let plain = ap (◌∷◌ c) (sources-pieces_of fuel text (omega arith)) in
    elim (Bool-cases (c == b'%')) [
      | inr e ↦ rw e plain
      | inl e ↦ elim (Option-cases (match_spec text)) [
        | inl f ↦ rw (e, f) plain
        | inr (r, f) ↦
            let whole = match_spec-Takes text r f in
            let shorter : length r.2 ≤ fuel =
              omega (arith, ap length whole, length-append r.1 r.2) in
            let same : c ≡ b'%' = ground arith in
            rw (e, f)
              (ap (◌++◌ (b'%' ∷ r.1)) (sources-pieces_of fuel r.2 shorter)
                ∙ ap (◌∷◌ b'%') whole
                ∙ ap (λ (d : ℕ). d ∷ text) (sym same))
      ]
    ]

-- The matches of the pattern and the characters between them, one behind the other, are the whole
-- format: none is passed over, and the fuel is enough.
pub sources-pieces : (fmt : List ℕ) → sources (pieces fmt) ≡ fmt
unfolding pieces
sources-pieces fmt = sources-pieces_of (length fmt) fmt (omega arith)
