-- ===== src/Structs/Laws.antt =====
-- What a packed structure holds: its length, and each of its values.
use emulite.Base.{
  ℕ, ◌+◌, ◌-◌, ◌^◌, ◌≤◌, ◌<◌, ◌≡◌, refl, ap, ◌∙◌, true, ◌||◌, List, ◌++◌, length, take, drop,
  get_elem?, leb, arith, inl, inr, lt_cases, length-append, length-take, length-drop,
  take-append_left, drop-append_left,
}
use emulite.Base.Int.{ℤ, pos, negsuc}
use emulite.Base.Bytes.{length-pack}
use emulite.Structs.Slot.{
  Format, u16, u32, u64, s32, s64, width, fits, word, decoded, field_bytes, put_bytes,
}
use emulite.Base.Elems.{get-append, get-take, get-drop, get_ext}
use mathlib.Core.Path.{subst}

-- packing a value and reading it back
pub word-decoded :
    (f : Format) (v : ℤ)
    → fits f v ≡ true
    → (word (256 ^ width f) v < 256 ^ width f) × (decoded f (word (256 ^ width f) v) ≡ v)
word-decoded u16 (pos n) h = (ground arith, refl)
word-decoded u16 (negsuc n) h = absurd (ground arith)
word-decoded u32 (pos n) h = (ground arith, refl)
word-decoded u32 (negsuc n) h = absurd (ground arith)
word-decoded u64 (pos n) h = (ground arith, refl)
word-decoded u64 (negsuc n) h = absurd (ground arith)
word-decoded s32 (pos n) h = ground arith
word-decoded s32 (negsuc n) h = ground arith
word-decoded s64 (pos n) h = ground arith
word-decoded s64 (negsuc n) h = ground arith

pub length-field_bytes : (f : Format) (v : ℤ) → length (field_bytes f v) ≡ width f
unfolding field_bytes
length-field_bytes f v = length-pack (width f) (word (256 ^ width f) v)

-- cutting a buffer around the bytes that were put
module _ (at : ℕ) (bytes buffer : List ℕ) (room : at + length bytes ≤ length buffer) where
  pub length-put_bytes : length (put_bytes at bytes buffer) ≡ length buffer
  length-put_bytes = omega (
    arith,
    length-append (take at buffer) (bytes ++ drop (at + length bytes) buffer),
    length-append bytes (drop (at + length bytes) buffer),
    length-take at buffer,
    length-drop (at + length bytes) buffer,
  )

  pub take-drop-put_bytes : take (length bytes) (drop at (put_bytes at bytes buffer)) ≡ bytes
  take-drop-put_bytes =
      let front = take at buffer in
      let rest = bytes ++ drop (at + length bytes) buffer in
      let long : length front ≡ at = omega (arith, length-take at buffer) in
      let skip : drop at (front ++ rest) ≡ rest =
        subst (λ (k : ℕ). drop k (front ++ rest) ≡ rest) long (drop-append_left front rest) in
      rw skip (take-append_left bytes (drop (at + length bytes) buffer))

  -- the bytes at another range
  pub take-drop-put_bytes_apart :
      (n a : ℕ)
      → (leb (a + n) at || leb (at + length bytes) a) ≡ true
      → take n (drop a (put_bytes at bytes buffer)) ≡ take n (drop a buffer)
  take-drop-put_bytes_apart n a off =
      let front = take at buffer in
      let tail = drop (at + length bytes) buffer in
      let long : length front ≡ at = omega (arith, length-take at buffer) in
      get_ext (take n (drop a (put_bytes at bytes buffer))) (take n (drop a buffer)) (λ (i : ℕ).
        elim (lt_cases i n) [
          | inl inside ↦ elim (lt_cases (a + i) at) [
            | inl before ↦ ground (
              arith,
              long,
              get-take i n (drop a (put_bytes at bytes buffer)),
              get-take i n (drop a buffer),
              get-drop i a (put_bytes at bytes buffer),
              get-drop i a buffer,
              get-append (a + i) front (bytes ++ tail),
              get-take (a + i) at buffer,
            )
            | inr past ↦
                let beyond : at + length bytes ≤ a + i = ground (arith, off) in
                let back : at + length bytes + (a + i - at - length bytes) ≡ a + i = omega arith in
                let there : get_elem? tail (a + i - at - length bytes) ≡ get_elem? buffer (a + i) =
                  get-drop (a + i - at - length bytes) (at + length bytes) buffer
                  ∙ ap (λ (t : ℕ). get_elem? buffer t) back in
                ground (
                  arith,
                  long,
                  get-take i n (drop a (put_bytes at bytes buffer)),
                  get-take i n (drop a buffer),
                  get-drop i a (put_bytes at bytes buffer),
                  get-drop i a buffer,
                  get-append (a + i) front (bytes ++ tail),
                  get-append (a + i - at) bytes tail,
                  there,
                )
          ]
          | inr out ↦ ground (
            arith,
            get-take i n (drop a (put_bytes at bytes buffer)),
            get-take i n (drop a buffer),
          )
        ])
