-- ===== src/Properties/Held.antt =====
-- src/emulite/android/bionic_property_area.py: a record stands in guest memory, and what keeps it there.
use emulite.Base.{
  ℕ, ◌+◌, ◌-◌, ◌≤◌, ◌<◌, ◌≡◌, refl, sym, ap, ◌∙◌, ◌⊎◌, inl, inr, false, List, [], ◌∷◌, ◌++◌, length,
  ltb, if◌then◌else◌, ◌*◌, ◌^◌, ◌%◌, ◌==◌, arith, append_assoc, length-append,
}
use emulite.Guest.{GuestMemory, read_u32, write_u32, read_unsigned}
use emulite.Guest.Access.{read-write_unsigned_apart}
use emulite.Guest.Text.{max_length, everywhere, read_cstr_bytes}
use emulite.Guest.Text.Whole.{until_nul, read_cstr_bytes-everywhere}
use emulite.Properties.{value_place}

-- text without a NUL
pub data NoNul : List ℕ → Type 0 where
  nothing : NoNul []
  byte : {c : ℕ} {s : List ℕ} → 0 < c → NoNul s → NoNul (c ∷ s)

until_nul-NoNul : {s : List ℕ} (rest : List ℕ) → NoNul s → until_nul (s ++ 0 ∷ rest) ≡ s
unfolding until_nul
until_nul-NoNul rest nothing = refl
until_nul-NoNul rest (byte {c} more texts) =
    let some_byte : (c == 0) ≡ false = ground arith in
    rw some_byte (ap (◌∷◌ c) (until_nul-NoNul rest texts))

-- the serial of a record: the length of its value above the flag of a long one, in 32 bits
abbrev pub serial_of : List ℕ → ℕ
serial_of value =
    if ltb (length value) 92
    then length value * 2 ^ 24
    else (length value * 2 ^ 24 + 0x1_0000) % 2 ^ 32

module _ (g : GuestMemory) where
  -- a C string stands at an address
  abbrev pub Held : ℕ → List ℕ → g.Memory → Type 0
  Held at text m = g.read at (length text + 1) m ≡ text ++ 0 ∷ []

  pub write-Held :
      (at : ℕ) (text : List ℕ) (m : g.Memory) → Held at text (g.write at (text ++ 0 ∷ []) m)
  write-Held at text m =
      let long : length (text ++ 0 ∷ []) ≡ length text + 1 = length-append text (0 ∷ []) in
      ap (λ (n : ℕ). g.read at n (g.write at (text ++ 0 ∷ []) m)) (sym long)
      ∙ g.read-write at (text ++ 0 ∷ []) m

  pub Held-read_cstr_bytes :
      (at : ℕ) (text : List ℕ) (m : g.Memory)
      → Held at text m
      → NoNul text
      → length text < max_length
      → read_cstr_bytes g everywhere at m ≡ text
  Held-read_cstr_bytes at text m held texts short =
      let n = length text + 1 in
      let all : max_length ≡ n + (max_length - n) = omega arith in
      let behind = g.read (at + n) (max_length - n) m in
      let parts : g.read at max_length m ≡ text ++ 0 ∷ behind =
        ap (λ (k : ℕ). g.read at k m) all
        ∙ g.read-append at n (max_length - n) m
        ∙ ap (λ (l : List ℕ). l ++ behind) held
        ∙ append_assoc text (0 ∷ []) behind in
      read_cstr_bytes-everywhere g at m ∙ ap until_nul parts ∙ until_nul-NoNul behind texts

  -- the bytes from `low` up to `high` are the same
  abbrev pub Kept : ℕ → ℕ → g.Memory → g.Memory → Type 0
  Kept low high m m' = (at n : ℕ) → low ≤ at → at + n ≤ high → g.read at n m' ≡ g.read at n m

  pub then-Kept :
      (low high : ℕ) (l m n : g.Memory) → Kept low high l m → Kept low high m n → Kept low high l n
  then-Kept low high l m n h k at size above below = k at size above below ∙ h at size above below

  pub write-Kept :
      (low high to : ℕ) (bytes : List ℕ) (m : g.Memory)
      → (high ≤ to) ⊎ (to + length bytes ≤ low)
      → Kept low high m (g.write to bytes m)
  write-Kept low high to bytes m off at n above below =
      g.read-write_apart at n to bytes m
        (elim off [ inl l ↦ inl (omega (arith, l)) | inr l ↦ inr (omega (arith, l)) ])

  pub write_u32-Kept :
      (low high to value : ℕ) (m : g.Memory)
      → (high ≤ to) ⊎ (to + 4 ≤ low)
      → Kept low high m (write_u32 g to value m)
  write_u32-Kept low high to value m off at n above below =
      read-write_unsigned_apart g at n 4 to value m
        (elim off [ inl l ↦ inl (omega (arith, l)) | inr l ↦ inr (omega (arith, l)) ])

  -- one more write behind the place
  pub and_write :
      {low high : ℕ} {l m : g.Memory} (to : ℕ) (bytes : List ℕ)
      → high ≤ to
      → Kept low high l m
      → Kept low high l (g.write to bytes m)
  and_write {low} {high} {l} {m} to bytes far kept =
      then-Kept low high l m (g.write to bytes m) kept (write-Kept low high to bytes m (inl far))

  pub and_write_u32 :
      {low high : ℕ} {l m : g.Memory} (to value : ℕ)
      → high ≤ to
      → Kept low high l m
      → Kept low high l (write_u32 g to value m)
  and_write_u32 {low} {high} {l} {m} to value far kept =
      then-Kept low high l m (write_u32 g to value m) kept
        (write_u32-Kept low high to value m (inl far))

  pub same-Kept : (low high : ℕ) (m : g.Memory) → Kept low high m m
  same-Kept low high m at n above below = refl

  -- the record at `info`, from `low` up to `high`: its name, and its value in it or behind it
  pub record Stored (low high info : ℕ) (name value : List ℕ) (m : g.Memory) : Type 0 where
    pub above : low ≤ info
    pub name_held : Held (info + 96) name m
    pub name_below : info + 96 + (length name + 1) ≤ high
    pub serial_held : read_u32 g info m ≡ serial_of value
    pub value_held : Held (value_place g info m) value m
    pub value_above : low ≤ value_place g info m
    pub value_below : value_place g info m + (length value + 1) ≤ high

  pub read_u32-Kept :
      (low high at : ℕ) (m m' : g.Memory)
      → low ≤ at
      → at + 4 ≤ high
      → Kept low high m m'
      → read_u32 g at m' ≡ read_u32 g at m
  unfolding read_unsigned
  read_u32-Kept low high at m m' above below kept = rw (kept at 4 above below) refl

  value_place-Kept :
      (low high info : ℕ) (m m' : g.Memory)
      → low ≤ info
      → info + 96 ≤ high
      → Kept low high m m'
      → value_place g info m' ≡ value_place g info m
  unfolding value_place
  value_place-Kept low high info m m' above below kept =
      let serial = read_u32-Kept low high info m m' above (omega arith) kept in
      let offset = read_u32-Kept low high (info + 60) m m' (omega arith) (omega arith) kept in
      rw (serial, offset) refl

  pub Stored-Kept :
      (low high higher info : ℕ) (name value : List ℕ) (m m' : g.Memory)
      → high ≤ higher
      → Kept low high m m'
      → Stored low high info name value m
      → Stored low higher info name value m'
  Stored-Kept low high higher info name value m m' grown kept s =
      let at = info + 96 in
      let below = s.name_below in
      let from = s.above in
      let value_end = s.value_below in
      let same = value_place-Kept low high info m m' from (omega arith) kept in
      record {
        above = from;
        name_held = kept at (length name + 1) (omega arith) below ∙ s.name_held;
        name_below = omega arith;
        serial_held = read_u32-Kept low high info m m' from (omega arith) kept ∙ s.serial_held;
        value_held =
            rw same (
              kept (value_place g info m) (length value + 1) s.value_above value_end
              ∙ s.value_held);
        value_above = rw same s.value_above;
        value_below = rw same (omega arith);
      }

  pub lower-Stored :
      (lower low high info : ℕ) (name value : List ℕ) (m : g.Memory)
      → lower ≤ low
      → Stored low high info name value m
      → Stored lower high info name value m
  lower-Stored lower low high info name value m more s =
      let from = s.above in
      let value_from = s.value_above in
      record {
        above = omega arith;
        name_held = s.name_held;
        name_below = s.name_below;
        serial_held = s.serial_held;
        value_held = s.value_held;
        value_above = omega arith;
        value_below = s.value_below;
      }
