-- ===== src/Guest/Flat.antt =====
-- Guest memory without holes: a byte at every address.
use emulite.Base.{
  ℕ, zero, suc, ◌+◌, ◌≤◌, ◌<◌, ◌≡◌, refl, ap, ◌∙◌, ◌⊎◌, inl, inr, List, [], ◌∷◌, ◌++◌, length,
  arith, if◌then◌else◌, ◌==◌,
}
use emulite.Guest.{GuestMemory}

abbrev pub Bytes : Type 0
Bytes = ℕ → ℕ

abbrev pub put : ℕ → ℕ → Bytes → Bytes
put to byte m = λ (a : ℕ). if a == to then byte else m a

abbrev pub read_bytes : ℕ → ℕ → Bytes → List ℕ
read_bytes at zero m = []
read_bytes at (suc n) m = m at ∷ read_bytes (suc at) n m

abbrev pub write_bytes : ℕ → List ℕ → Bytes → Bytes
write_bytes to [] m = m
write_bytes to (byte ∷ bytes) m = put to byte (write_bytes (suc to) bytes m)

read_bytes-put :
    (at n to byte : ℕ) (m : Bytes)
    → (at + n ≤ to) ⊎ (to < at)
    → read_bytes at n (put to byte m) ≡ read_bytes at n m
read_bytes-put at zero to byte m off = refl
read_bytes-put at (suc n) to byte m off =
    let here : put to byte m at ≡ m at = ground (arith, off) in
    let next : (suc at + n ≤ to) ⊎ (to < suc at) = elim off [
      | inl l ↦ inl (omega (arith, l))
      | inr l ↦ inr (omega (arith, l))
    ] in
    rw here (ap (◌∷◌ (m at)) (read_bytes-put (suc at) n to byte m next))

pub read_bytes-write_bytes :
    (at : ℕ) (bytes : List ℕ) (m : Bytes)
    → read_bytes at (length bytes) (write_bytes at bytes m) ≡ bytes
read_bytes-write_bytes at [] m = refl
read_bytes-write_bytes at (byte ∷ bytes) m =
    let rest = write_bytes (suc at) bytes m in
    let here : put at byte rest at ≡ byte = ground arith in
    rw here (
      ap (◌∷◌ byte) (
        read_bytes-put (suc at) (length bytes) at byte rest (inr (omega arith))
        ∙ read_bytes-write_bytes (suc at) bytes m))

pub read_bytes-write_bytes_apart :
    (at size to : ℕ) (bytes : List ℕ) (m : Bytes)
    → (at + size ≤ to) ⊎ (to + length bytes ≤ at)
    → read_bytes at size (write_bytes to bytes m) ≡ read_bytes at size m
read_bytes-write_bytes_apart at size to [] m off = refl
read_bytes-write_bytes_apart at size to (byte ∷ bytes) m off =
    let first : (at + size ≤ to) ⊎ (to < at) = elim off [
      | inl l ↦ inl l
      | inr l ↦ inr (omega (arith, l))
    ] in
    let next : (at + size ≤ suc to) ⊎ (suc to + length bytes ≤ at) = elim off [
      | inl l ↦ inl (omega (arith, l))
      | inr l ↦ inr (omega (arith, l))
    ] in
    read_bytes-put at size to byte (write_bytes (suc to) bytes m) first
    ∙ read_bytes-write_bytes_apart at size (suc to) bytes m next

pub length-read_bytes : (at n : ℕ) (m : Bytes) → length (read_bytes at n m) ≡ n
length-read_bytes at zero m = refl
length-read_bytes at (suc n) m = ap suc (length-read_bytes (suc at) n m)

pub read_bytes-append :
    (at n k : ℕ) (m : Bytes)
    → read_bytes at (n + k) m ≡ read_bytes at n m ++ read_bytes (at + n) k m
read_bytes-append at zero k m =
    let none_read : at + 0 ≡ at = omega arith in
    let all : 0 + k ≡ k = omega arith in rw (none_read, all) refl
read_bytes-append at (suc n) k m =
    let long : suc n + k ≡ suc (n + k) = omega arith in
    let next : at + suc n ≡ suc at + n = omega arith in
    rw (long, next) (ap (◌∷◌ (m at)) (read_bytes-append (suc at) n k m))

abbrev pub flat_memory : GuestMemory
flat_memory = record {
  Memory = Bytes;
  read = read_bytes;
  write = write_bytes;
  length-read = length-read_bytes;
  read-append = read_bytes-append;
  read-write = read_bytes-write_bytes;
  read-write_apart = read_bytes-write_bytes_apart;
}
