-- ===== src/Printf/Format/Alike.antt =====
-- The same text, whichever way the arguments are walked.
use emulite.Base.{
  ℕ, ◌%◌, ◌^◌, ◌≡◌, refl, sym, ap, ◌∙◌, Bool, true, false, ◌||◌, Option, none, some, List, [], ◌∷◌,
  ◌++◌, ◌==◌, if◌then◌else◌, Bool-cases, inl, inr,
}
use emulite.Base.Int.{ℤ, pos}
use emulite.Guest.{GuestMemory}
use emulite.Guest.Text.{read_cstr_bytes}
use emulite.Printf.{VarArgs, Length, narrow, wide, double}
use emulite.Printf.Alike.{Alike, Steps}
use emulite.Printf.Numbers.{has}
use emulite.Printf.Spec.{Amount, star, number, Spec, Piece, literal, matched, pieces}
use emulite.Printf.Format.{
  signed_of, value_bits, plain_text, cut_to, pointer_text, null_text, drawn_width, drawn_precision,
  Printed, with_width, with_precision, printed_integer, printed_real, convert, format_spec,
  format_pieces, format, after, then_print,
}

-- no match of the format is a `%n`
abbrev pub NoCount : List Piece → Type 0
NoCount [] = Unit
NoCount (literal char ∷ ps) = NoCount ps
NoCount (matched spec source ∷ ps) = ((spec.conv == b'n') ≡ false) × NoCount ps

module _ {g : GuestMemory} (a b : VarArgs g) (R : a.Cursor → b.Cursor → Type 0) (m : g.Memory)
    (alike : Alike a b R m) (same_lengths : (l : Length) → a.is_wide l ≡ b.is_wide l)
    (pointer_size : ℕ) (mapped : ℕ → Bool) (decode : List ℕ → List ℕ)
    (integer_text : ℕ → List ℕ → Option ℕ → Option ℕ → ℤ → List ℕ)
    (real_text : ℕ → List ℕ → Option ℕ → Option ℕ → ℕ → List ℕ) where
  -- both have printed the same, and have left memory alone
  abbrev Both :
      Printed a pointer_size mapped decode integer_text real_text
      → Printed b pointer_size mapped decode integer_text real_text
      → Type 0
  Both s t =
      (text : List ℕ) × (c : a.Cursor) × (d : b.Cursor) × (s ≡ some (text, c, m))
      × (t ≡ some (text, d, m))
      × R c d

  after-Both :
      (s : Option (ℕ × a.Cursor)) (t : Option (ℕ × b.Cursor))
      (k : ℕ → a.Cursor → Printed a pointer_size mapped decode integer_text real_text)
      (l : ℕ → b.Cursor → Printed b pointer_size mapped decode integer_text real_text)
      → Steps a b R m s t
      → ((v : ℕ) (c : a.Cursor) (d : b.Cursor) → R c d → Both (k v c) (l v d))
      → Both (after s k) (after t l)
  after-Both s t k l (value, c, d, one, other, r) next =
      let (text, c', d', ones, others, r') = next value c d r in
      (
        text,
        c',
        d',
        ap (λ (u : Option (ℕ × a.Cursor)). after u k) one ∙ ones,
        ap (λ (u : Option (ℕ × b.Cursor)). after u l) other ∙ others,
        r',
      )

  integer-Steps :
      (w : Bool) (c : a.Cursor) (d : b.Cursor)
      → R c d
      → Steps a b R m (a.integer w c m) (b.integer w d m)
  integer-Steps false = alike narrow
  integer-Steps true = alike wide

  printed_integer-Both :
      (w w' : Bool) (c : a.Cursor) (d : b.Cursor) (text : ℕ → List ℕ)
      → w ≡ w'
      → R c d
      → Both
          (printed_integer a pointer_size mapped decode integer_text real_text w c m
            (λ value. (text value, m)))
          (printed_integer b pointer_size mapped decode integer_text real_text w' d m
            (λ value. (text value, m)))
  unfolding printed_integer
  printed_integer-Both w w' c d text same r =
      let (value, c', d', one, other, r') = integer-Steps w c d r in
      let other' : b.integer w' d m ≡ some (value, d') =
        ap (λ (v : Bool). b.integer v d m) (sym same) ∙ other in
      after-Both (a.integer w c m) (b.integer w' d m) _ _ (value, c', d', one, other', r')
        (λ v c d r. (text v, c, d, refl, refl, r))

  printed_real-Both :
      (c : a.Cursor) (d : b.Cursor) (text : ℕ → List ℕ)
      → R c d
      → Both
          (printed_real a pointer_size mapped decode integer_text real_text c m text)
          (printed_real b pointer_size mapped decode integer_text real_text d m text)
  unfolding printed_real
  printed_real-Both c d text r =
      after-Both (a.real c m) (b.real d m) _ _ (alike double c d r)
        (λ v c d r. (text v, c, d, refl, refl, r))

  convert-Both :
      (conv : ℕ) (modifier : Length) (out flags : List ℕ) (width precision : Option ℕ)
      (c : a.Cursor) (d : b.Cursor)
      → (conv == b'n') ≡ false
      → R c d
      → Both
          (convert a pointer_size mapped decode integer_text real_text conv modifier out flags width
            precision c m)
          (convert b pointer_size mapped decode integer_text real_text conv modifier out flags width
            precision d m)
  unfolding convert
  convert-Both conv modifier out flags width precision c d no_count r =
      let bits = value_bits pointer_size modifier in
      let same = same_lengths modifier in
      elim (Bool-cases (conv == b'd' || conv == b'i')) [
        | inl e ↦ rw e (
            printed_integer-Both (a.is_wide modifier) (b.is_wide modifier) c d
              (λ value. integer_text b'd' flags width precision (signed_of value bits)) same r)
        | inr e ↦ elim (Bool-cases (has conv (b'o' ∷ b'u' ∷ b'x' ∷ b'X' ∷ []))) [
          | inl f ↦
              rw (e, f)
                (printed_integer-Both (a.is_wide modifier) (b.is_wide modifier) c d
                  (λ value. integer_text conv flags width precision (pos (value % 2 ^ bits))) same
                  r)
          | inr f ↦ elim (Bool-cases (conv == b'c')) [
            | inl h ↦
                rw (e, f, h)
                  (printed_integer-Both false false c d
                    (λ value. plain_text flags width (value % 256 ∷ [])) refl r)
            | inr h ↦ elim (Bool-cases (conv == b's')) [
              | inl k ↦
                  rw (e, f, h, k)
                    (printed_integer-Both false false c d
                      (λ pointer. plain_text flags width (
                        cut_to precision (
                          if pointer == 0
                          then null_text
                          else decode (read_cstr_bytes g mapped pointer m))))
                      refl r)
              | inr k ↦ elim (Bool-cases (conv == b'p')) [
                | inl l ↦
                    rw (e, f, h, k, l)
                      (printed_integer-Both false false c d (pointer_text flags width precision)
                        refl r)
                | inr l ↦
                    rw (e, f, h, k, l, no_count)
                      (printed_real-Both c d (real_text conv flags width precision) r)
              ]
            ]
          ]
        ]
      ]

  with_precision-Both :
      (precision : Option Amount) (c : a.Cursor) (d : b.Cursor)
      (k : Option ℕ → a.Cursor → Printed a pointer_size mapped decode integer_text real_text)
      (l : Option ℕ → b.Cursor → Printed b pointer_size mapped decode integer_text real_text)
      → R c d
      → ((p : Option ℕ) (c : a.Cursor) (d : b.Cursor) → R c d → Both (k p c) (l p d))
      → Both
          (with_precision a pointer_size mapped decode integer_text real_text precision c m k)
          (with_precision b pointer_size mapped decode integer_text real_text precision d m l)
  unfolding with_precision
  with_precision-Both none c d k l r next = next none c d r
  with_precision-Both (some (number n)) c d k l r next = next (some n) c d r
  with_precision-Both (some star) c d k l r next =
      after-Both (a.integer false c m) (b.integer false d m) _ _ (alike narrow c d r)
        (λ v c' d' r'. next (drawn_precision (signed_of v 32)) c' d' r')

  with_width-Both :
      (flags : List ℕ) (width : Option Amount) (c : a.Cursor) (d : b.Cursor)
      (k : List ℕ
        → Option ℕ
        → a.Cursor
        → Printed a pointer_size mapped decode integer_text real_text)
      (l : List ℕ
        → Option ℕ
        → b.Cursor
        → Printed b pointer_size mapped decode integer_text real_text)
      → R c d
      → ((f : List ℕ) (w : Option ℕ) (c : a.Cursor) (d : b.Cursor)
          → R c d
          → Both (k f w c) (l f w d))
      → Both
          (with_width a pointer_size mapped decode integer_text real_text flags width c m k)
          (with_width b pointer_size mapped decode integer_text real_text flags width d m l)
  unfolding with_width
  with_width-Both flags none c d k l r next = next flags none c d r
  with_width-Both flags (some (number n)) c d k l r next = next flags (some n) c d r
  with_width-Both flags (some star) c d k l r next =
      after-Both (a.integer false c m) (b.integer false d m) _ _ (alike narrow c d r) (λ v c' d' r'.
        let drawn = drawn_width flags (signed_of v 32) in next drawn.0 drawn.1 c' d' r')

  format_spec-Both :
      (spec : Spec) (out : List ℕ) (c : a.Cursor) (d : b.Cursor)
      → (spec.conv == b'n') ≡ false
      → R c d
      → Both
          (format_spec a pointer_size mapped decode integer_text real_text spec out c m)
          (format_spec b pointer_size mapped decode integer_text real_text spec out d m)
  unfolding format_spec
  format_spec-Both spec out c d no_count r = elim (Bool-cases (spec.conv == b'%')) [
    | inl e ↦ rw e (b'%' ∷ [], c, d, refl, refl, r)
    | inr e ↦ rw e (
        with_width-Both spec.flags spec.width c d _ _ r (λ flags width c' d' r'.
          with_precision-Both spec.precision c' d' _ _ r' (λ precision c'' d'' r''.
            convert-Both spec.conv spec.modifier out flags width precision c'' d'' no_count r'')))
  ]

  format_pieces-Both :
      (ps : List Piece) (out : List ℕ) (c : a.Cursor) (d : b.Cursor)
      → NoCount ps
      → R c d
      → Both
          (format_pieces a pointer_size mapped decode integer_text real_text ps out c m)
          (format_pieces b pointer_size mapped decode integer_text real_text ps out d m)
  unfolding format_pieces
  format_pieces-Both [] out c d n r = (out, c, d, refl, refl, r)
  format_pieces-Both (literal char ∷ ps) out c d n r =
      format_pieces-Both ps (out ++ char ∷ []) c d n r
  format_pieces-Both (matched spec source ∷ ps) out c d n r =
      let (text, c', d', one, other, r') = format_spec-Both spec out c d n.0 r in
      let (whole, c'', d'', ones, others, r'') = format_pieces-Both ps (out ++ text) c' d' n.1 r' in
      (
        whole,
        c'',
        d'',
        ap
              (λ (u : Printed a pointer_size mapped decode integer_text real_text).
                then_print a pointer_size mapped decode integer_text real_text u (λ t e n.
                  format_pieces a pointer_size mapped decode integer_text real_text ps (out ++ t) e
                    n))
              one
            ∙ ones,
        ap
              (λ (u : Printed b pointer_size mapped decode integer_text real_text).
                then_print b pointer_size mapped decode integer_text real_text u (λ t e n.
                  format_pieces b pointer_size mapped decode integer_text real_text ps (out ++ t) e
                    n))
              other
            ∙ others,
        r'',
      )

  pub format-Alike :
      (fmt : List ℕ) (c : a.Cursor) (d : b.Cursor)
      → NoCount (pieces fmt)
      → R c d
      → (text : List ℕ) × (c' : a.Cursor) × (d' : b.Cursor) × (format a pointer_size mapped decode
            integer_text real_text fmt c m
          ≡ some (text, c', m))
        × (format b pointer_size mapped decode integer_text real_text fmt d m ≡ some (text, d', m))
  unfolding format
  format-Alike fmt c d n r =
      let (text, c', d', one, other, r') = format_pieces-Both (pieces fmt) [] c d n r in
      (text, c', d', one, other)
