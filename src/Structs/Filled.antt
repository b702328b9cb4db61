-- ===== src/Structs/Filled.antt =====
-- What a buffer holds once a row of slots is packed into it.
use emulite.Base.{
  ℕ, ◌^◌, ◌≤◌, ◌≡◌, refl, ap, sym, ◌∙◌, Bool, true, false, ◌&&◌, none, some, List, [], ◌∷◌, map,
  length, take, drop, leb, if◌then◌else◌, arith, Bool-cases, Option-cases, inl, inr,
}
use emulite.Base.Int.{ℤ}
use emulite.Base.Bytes.{pack, unpack, unpack-pack}
use emulite.Structs.Slot.{
  Slot, width, fits, word, decoded, field_bytes, field_at, put_bytes, pack_into, fill, apart,
  apart_from, all_apart, all_inside, all_fit, slot_end, ReadsBack,
}
use emulite.Structs.Laws.{
  word-decoded, length-field_bytes, length-put_bytes, take-drop-put_bytes,
  take-drop-put_bytes_apart,
}
use mathlib.Core.Path.{subst}
use mathlib.Core.Option.{some-injective, none-ne-some}

-- what one `pack_into` wrote
record Put (s : Slot) (buffer out : List ℕ) : Type 0 where
  fit : fits s.format s.value ≡ true
  room : slot_end s ≤ length buffer
  made : out ≡ put_bytes s.at (field_bytes s.format s.value) buffer

abbrev taken : Slot → ℕ → Bool
taken s size = fits s.format s.value && leb (slot_end s) size

pack_into_taken :
    (s : Slot) (buffer : List ℕ)
    → pack_into s buffer ≡ (
        if taken s (length buffer)
        then some (put_bytes s.at (field_bytes s.format s.value) buffer)
        else none)
unfolding pack_into
pack_into_taken s buffer = refl

pack_into-Put : (s : Slot) (buffer out : List ℕ) → pack_into s buffer ≡ some out → Put s buffer out
pack_into-Put s buffer out h =
    let wrote = put_bytes s.at (field_bytes s.format s.value) buffer in
    elim (Bool-cases (taken s (length buffer))) [
      | inl e ↦
          let same : some wrote ≡ some out =
            subst (λ (b : Bool). (if b then some wrote else none) ≡ some out) e
              (sym (pack_into_taken s buffer) ∙ h) in
          record {
            fit = ground (arith, e);
            room = ground (arith, e);
            made = sym (some-injective wrote out same);
          }
      | inr e ↦ absurd (
          none-ne-some out (
            subst (λ (b : Bool). (if b then some wrote else none) ≡ some out) e
              (sym (pack_into_taken s buffer) ∙ h)))
    ]

fill-none : (slots : List Slot) → fill slots none ≡ none
unfolding fill
fill-none [] = refl
fill-none (s ∷ slots) = refl

fill_step :
    (s : Slot) (slots : List Slot) (buffer : List ℕ)
    → fill (s ∷ slots) (some buffer) ≡ fill slots (pack_into s buffer)
unfolding fill
fill_step s slots buffer = refl

-- what one value leaves of the buffer
module _ (s : Slot) (buffer out : List ℕ) (p : Put s buffer out) where
  long : length (field_bytes s.format s.value) ≡ width s.format
  long = length-field_bytes s.format s.value

  Put-length : length out ≡ length buffer
  Put-length =
      rw p.made
        (length-put_bytes s.at (field_bytes s.format s.value) buffer (omega (arith, p.room, long)))

  Put-bytes :
      take (width s.format) (drop s.at out)
      ≡ pack (width s.format) (word (256 ^ width s.format) s.value)
  unfolding field_bytes
  Put-bytes =
      let there =
        take-drop-put_bytes s.at (field_bytes s.format s.value) buffer
          (omega (arith, p.room, long)) in
      ap (λ (t : List ℕ). take (width s.format) (drop s.at t)) p.made
      ∙ subst
          (λ (n : ℕ).
            take n (drop s.at (put_bytes s.at (field_bytes s.format s.value) buffer))
            ≡ field_bytes s.format s.value)
          long there

  Put-field : field_at s.format s.at out ≡ s.value
  unfolding field_at
  Put-field =
      let both = word-decoded s.format s.value p.fit in
      ap (λ (t : List ℕ). decoded s.format (unpack t)) Put-bytes
      ∙ ap (decoded s.format)
          (unpack-pack (width s.format) (word (256 ^ width s.format) s.value) both.0)
      ∙ both.1

  Put-apart :
      (t : Slot)
      → apart t s ≡ true
      → take (width t.format) (drop t.at out) ≡ take (width t.format) (drop t.at buffer)
  Put-apart t off =
      let same =
        take-drop-put_bytes_apart s.at (field_bytes s.format s.value) buffer
          (omega (arith, p.room, long)) (width t.format) t.at (ground (arith, off, long)) in
      ap (λ (b : List ℕ). take (width t.format) (drop t.at b)) p.made ∙ same

-- offset, width and value
abbrev pub place_of : Slot → ℕ × ℕ × ℤ
place_of s = (s.at, width s.format, s.value)

-- each value stands at its offset, as the bytes of its two's complement from the lowest on
abbrev pub Holds : List (ℕ × ℕ × ℤ) → List ℕ → Type 0
Holds [] buffer = Unit {0}
Holds ((at, size, value) ∷ places) buffer =
    (take size (drop at buffer) ≡ pack size (word (256 ^ size) value)) × Holds places buffer

-- what a row of values leaves of the buffer
pub record Filled (slots : List Slot) (buffer out : List ℕ) : Type 0 where
  pub size : length out ≡ length buffer
  pub reads : ReadsBack slots out
  pub holds : Holds (map place_of slots) out
  pub kept :
      (t : Slot)
      → apart_from t slots ≡ true
      → take (width t.format) (drop t.at out) ≡ take (width t.format) (drop t.at buffer)

field_at_same :
    (s : Slot) (a b : List ℕ)
    → take (width s.format) (drop s.at a) ≡ take (width s.format) (drop s.at b)
    → field_at s.format s.at a ≡ field_at s.format s.at b
unfolding field_at
field_at_same s a b h = ap (λ (t : List ℕ). decoded s.format (unpack t)) h

pub fill-Filled :
    (slots : List Slot) (buffer out : List ℕ)
    → fill slots (some buffer) ≡ some out
    → all_apart slots ≡ true
    → Filled slots buffer out
unfolding fill
fill-Filled [] buffer out h a =
    let same = some-injective buffer out h in
    record {
      size = ap length (sym same);
      reads = tt;
      holds = tt;
      kept = λ t off. ap (λ (b : List ℕ). take (width t.format) (drop t.at b)) (sym same);
    }
fill-Filled (s ∷ slots) buffer out h a = elim (Option-cases (pack_into s buffer)) [
  | inl e ↦ absurd (none-ne-some out (sym (fill-none slots) ∙ ap (fill slots) (sym e) ∙ h))
  | inr (mid, e) ↦
      let p = pack_into-Put s buffer mid e in
      let rest = fill-Filled slots mid out (ap (fill slots) (sym e) ∙ h) (ground (arith, a)) in
      let first = field_at_same s out mid (rest.kept s (ground (arith, a))) in
      record {
        size = rest.size ∙ Put-length s buffer mid p;
        reads = (first ∙ Put-field s buffer mid p, rest.reads);
        holds = (rest.kept s (ground (arith, a)) ∙ Put-bytes s buffer mid p, rest.holds);
        kept = λ t off.
            rest.kept t (ground (arith, off)) ∙ Put-apart s buffer mid p t (ground (arith, off));
      }
]

-- one `pack_into` that is taken, and one that is not
pack_into_ok :
    (s : Slot) (buffer : List ℕ)
    → taken s (length buffer) ≡ true
    → pack_into s buffer ≡ some (put_bytes s.at (field_bytes s.format s.value) buffer)
pack_into_ok s buffer e =
    let wrote = put_bytes s.at (field_bytes s.format s.value) buffer in
    subst (λ (b : Bool). pack_into s buffer ≡ (if b then some wrote else none)) e
      (pack_into_taken s buffer)

pack_into_refused :
    (s : Slot) (buffer : List ℕ) → taken s (length buffer) ≡ false → pack_into s buffer ≡ none
pack_into_refused s buffer e =
    let wrote = put_bytes s.at (field_bytes s.format s.value) buffer in
    subst (λ (b : Bool). pack_into s buffer ≡ (if b then some wrote else none)) e
      (pack_into_taken s buffer)

pub fill_fit :
    (slots : List Slot) (buffer : List ℕ)
    → all_fit slots ≡ true
    → all_inside (length buffer) slots ≡ true
    → (out : List ℕ) × (fill slots (some buffer) ≡ some out)
unfolding fill
fill_fit [] buffer f h = (buffer, refl)
fill_fit (s ∷ slots) buffer f h =
    let wrote = put_bytes s.at (field_bytes s.format s.value) buffer in
    let one = pack_into_ok s buffer (ground (arith, f, h)) in
    let size : length wrote ≡ length buffer =
      Put-length s buffer wrote
        (record { fit = ground (arith, f); room = ground (arith, h); made = refl }) in
    let within : all_inside (length wrote) slots ≡ true =
      subst (λ (n : ℕ). all_inside n slots ≡ true) (sym size) (ground (arith, h)) in
    let (out, e) = fill_fit slots wrote (ground (arith, f)) within in (out, ap (fill slots) one ∙ e)

pub fill_unfit :
    (slots : List Slot) (buffer : List ℕ) → all_fit slots ≡ false → fill slots (some buffer) ≡ none
unfolding fill
fill_unfit [] buffer f = absurd (ground (arith, f))
fill_unfit (s ∷ slots) buffer f = elim (Bool-cases (taken s (length buffer))) [
  | inl e ↦
      ap (fill slots) (pack_into_ok s buffer e)
      ∙ fill_unfit slots (put_bytes s.at (field_bytes s.format s.value) buffer)
          (ground (arith, e, f))
  | inr e ↦ ap (fill slots) (pack_into_refused s buffer e) ∙ fill-none slots
]
