-- ===== src/Properties/Record.antt =====
-- src/emulite/android/bionic_property_area.py, `_write_info`: what is written is a record that stands, and no
-- byte outside its place changes.
use emulite.Base.{
  ℕ, ◌+◌, ◌-◌, ◌*◌, ◌/◌, ◌%◌, ◌^◌, ◌≤◌, ◌<◌, ◌≡◌, refl, sym, ap, ◌∙◌, inl, inr, true, false, List,
  [], ◌∷◌, ◌++◌, length, ltb, ◌==◌, arith, length-append, lt_cases,
}
use native.Mathlib.Nat.{mod-mod}
use emulite.Base.Bytes.{pack}
use emulite.Base.Bits.{clear_bits-mask}
use emulite.Guest.{GuestMemory, read_u32, write_u32, write_unsigned}
use emulite.Guest.Access.{read_unsigned-write_unsigned}
use emulite.Properties.{
  region_bytes, long_message, align4, align8, struct_bytes, info_bytes, write_leaf_bt, write_short,
  write_long, write_record, value_place,
}
use emulite.Properties.Held.{
  serial_of, write-Held, Kept, write-Kept, and_write, and_write_u32, write_u32-Kept, read_u32-Kept,
  Stored,
}

pub align4_bounds : (v : ℕ) → (v ≤ align4 v) × (align4 v ≤ v + 3)
unfolding align4
align4_bounds v = let f = clear_bits-mask 2 (v + 3) in (omega (arith, f), omega (arith, f))

pub align8_bounds : (v : ℕ) → (v ≤ align8 v) × (align8 v ≤ v + 7)
unfolding align8
align8_bounds v = let f = clear_bits-mask 3 (v + 7) in (omega (arith, f), omega (arith, f))

length-terminated : (text : List ℕ) → length (text ++ 0 ∷ []) ≡ length text + 1
length-terminated text = length-append text (0 ∷ [])

serial_of_short : (value : List ℕ) → length value < 92 → serial_of value ≡ length value * 2 ^ 24
serial_of_short value short = ground arith

serial_of_long :
    (value : List ℕ)
    → 92 ≤ length value
    → serial_of value ≡ (length value * 2 ^ 24 + 0x1_0000) % 2 ^ 32
serial_of_long value long = ground arith

pub length-info_bytes : (name value : List ℕ) → length name < info_bytes name value
length-info_bytes name value =
    let behind = (align8_bounds (struct_bytes name)).0 in
    elim (lt_cases (length value) 92) [
      | inl short ↦
          let inside : ltb (length value) 92 ≡ true = ground arith in rw inside (omega arith)
      | inr long ↦
          let out : ltb (length value) 92 ≡ false = ground arith in rw out (omega (arith, behind))
    ]

module _ (g : GuestMemory) where
  -- a number that is too long keeps its low bits
  read_u32-write_u32 :
      (at value : ℕ) (m : g.Memory) → read_u32 g at (write_u32 g at value m) ≡ value % 2 ^ 32
  unfolding write_unsigned
  read_u32-write_u32 at value m =
      ap (λ (v : ℕ). read_u32 g at (g.write at (pack 4 v) m)) (sym (mod-mod value (256 ^ 4)))
      ∙ read_unsigned-write_unsigned g 4 at (value % 256 ^ 4) m (omega arith)

  -- a value in the record
  write_short-Stored :
      (info : ℕ) (name value : List ℕ) (m : g.Memory)
      → length value < 92
      → Stored g info (info + struct_bytes name) info name value (write_short g info name value m)
  unfolding write_short value_place
  write_short-Stored info name value m short =
      let number = length value * 2 ^ 24 in
      let m1 = write_u32 g info number m in
      let m2 = g.write (info + 4) (value ++ 0 ∷ []) m1 in
      let m3 = g.write (info + 96) (name ++ 0 ∷ []) m2 in
      let long = length-terminated value in
      let after1 : Kept g info (info + 4) m1 m2 =
        write-Kept g info (info + 4) (info + 4) (value ++ 0 ∷ []) m1 (inl (omega arith)) in
      let after2 : Kept g info (info + 96) m2 m3 =
        write-Kept g info (info + 96) (info + 96) (name ++ 0 ∷ []) m2 (inl (omega arith)) in
      let serial : read_u32 g info m3 ≡ number =
        read_u32-Kept g info (info + 96) info m2 m3 (omega arith) (omega arith) after2
        ∙ read_u32-Kept g info (info + 4) info m1 m2 (omega arith) (omega arith) after1
        ∙ read_unsigned-write_unsigned g 4 info number m (omega arith) in
      let clear : (number / 0x1_0000 % 2 == 0) ≡ true = ground arith in
      let place : value_place g info m3 ≡ info + 4 = rw (serial, clear) refl in
      record {
        above = omega arith;
        name_held = write-Held g (info + 96) name m2;
        name_below = omega arith;
        serial_held = serial ∙ sym (serial_of_short value short);
        value_held = rw place (
            after2 (info + 4) (length value + 1) (omega arith) (omega arith)
            ∙ write-Held g (info + 4) value m1);
        value_above = rw place (omega arith);
        value_below = rw place (omega arith);
      }

  -- a value behind the record, at `long_at`
  write_long-Stored :
      (info long_at : ℕ) (name value : List ℕ) (m : g.Memory)
      → struct_bytes name ≤ long_at
      → long_at < 2 ^ 32
      → 92 ≤ length value
      → Stored g info
          (info + (long_at + length value + 1))
          info
          name
          value
          (write_long g info long_at name value m)
  unfolding write_long value_place
  write_long-Stored info long_at name value m room small long_value =
      let number = length value * 2 ^ 24 + 0x1_0000 in
      let m1 = write_u32 g info number m in
      let m2 = g.write (info + 4) (long_message ++ 0 ∷ []) m1 in
      let m3 = write_u32 g (info + 60) (long_at - 60) m2 in
      let m4 = g.write (info + 96) (name ++ 0 ∷ []) m3 in
      let m5 = g.write (info + long_at) (value ++ 0 ∷ []) m4 in
      let long = length-terminated name in
      let after1 : Kept g info (info + 4) m1 m2 =
        write-Kept g info (info + 4) (info + 4) (long_message ++ 0 ∷ []) m1 (inl (omega arith)) in
      let after2 : Kept g info (info + 4) m2 m3 =
        write_u32-Kept g info (info + 4) (info + 60) (long_at - 60) m2 (inl (omega arith)) in
      let after3 : Kept g info (info + 96) m3 m4 =
        write-Kept g info (info + 96) (info + 96) (name ++ 0 ∷ []) m3 (inl (omega arith)) in
      let after4 : Kept g info (info + long_at) m4 m5 =
        write-Kept g info (info + long_at) (info + long_at) (value ++ 0 ∷ []) m4
          (inl (omega arith)) in
      let offset : read_u32 g (info + 60) m5 ≡ long_at - 60 =
        read_u32-Kept g info (info + long_at) (info + 60) m4 m5 (omega arith) (omega arith) after4
        ∙ read_u32-Kept g info (info + 96) (info + 60) m3 m4 (omega arith) (omega arith) after3
        ∙ read_unsigned-write_unsigned g 4 (info + 60) (long_at - 60) m2 (omega arith) in
      let serial : read_u32 g info m5 ≡ number % 2 ^ 32 =
        read_u32-Kept g info (info + long_at) info m4 m5 (omega arith) (omega arith) after4
        ∙ read_u32-Kept g info (info + 96) info m3 m4 (omega arith) (omega arith) after3
        ∙ read_u32-Kept g info (info + 4) info m2 m3 (omega arith) (omega arith) after2
        ∙ read_u32-Kept g info (info + 4) info m1 m2 (omega arith) (omega arith) after1
        ∙ read_u32-write_u32 info number m in
      let set : (number % 2 ^ 32 / 0x1_0000 % 2 == 0) ≡ false = ground arith in
      let place : value_place g info m5 ≡ info + long_at =
        rw (serial, set) (ap (λ (k : ℕ). info + 60 + k) offset ∙ omega arith) in
      record {
        above = omega arith;
        name_held =
            after4 (info + 96) (length name + 1) (omega arith) (omega arith)
            ∙ write-Held g (info + 96) name m3;
        name_below = omega arith;
        serial_held = serial ∙ sym (serial_of_long value long_value);
        value_held = rw place (write-Held g (info + long_at) value m4);
        value_above = rw place (omega arith);
        value_below = rw place (omega arith);
      }

  pub write_record-Stored :
      (info : ℕ) (name value : List ℕ) (m : g.Memory)
      → length name < region_bytes
      → Stored g info
          (info + info_bytes name value)
          info
          name
          value
          (write_record g info name value m)
  unfolding write_record
  write_record-Stored info name value m few = elim (lt_cases (length value) 92) [
    | inl short ↦
        let inside : ltb (length value) 92 ≡ true = ground arith in
        rw inside (write_short-Stored info name value m short)
    | inr long ↦
        let behind : ltb (length value) 92 ≡ false = ground arith in
        let at = align8_bounds (struct_bytes name) in
        let long_at = align8 (struct_bytes name) in
        let stored = write_long-Stored info long_at name value m at.0 (omega (arith, at)) long in
        rw behind stored
  ]

  -- no byte in front of the record changes
  pub write_record-Kept :
      (low high info : ℕ) (name value : List ℕ) (m : g.Memory)
      → high ≤ info
      → Kept g low high m (write_record g info name value m)
  unfolding write_record write_short write_long
  write_record-Kept low high info name value m far = elim (lt_cases (length value) 92) [
    | inl short ↦
        let inside : ltb (length value) 92 ≡ true = ground arith in
        rw inside (
          and_write g (info + 96) (name ++ 0 ∷ []) (omega arith) (
            and_write g (info + 4) (value ++ 0 ∷ []) (omega arith)
              (write_u32-Kept g low high info (length value * 2 ^ 24) m (inl far))))
    | inr long ↦
        let behind : ltb (length value) 92 ≡ false = ground arith in
        let long_at = align8 (struct_bytes name) in
        rw behind (
          and_write g (info + long_at) (value ++ 0 ∷ []) (omega arith) (
            and_write g (info + 96) (name ++ 0 ∷ []) (omega arith) (
              and_write_u32 g (info + 60) (long_at - 60) (omega arith) (
                and_write g (info + 4) (long_message ++ 0 ∷ []) (omega arith) (
                  write_u32-Kept g low high info (length value * 2 ^ 24 + 0x1_0000) m (inl far))))))
  ]

  -- the entry of the tree changes no byte in front of it
  pub write_leaf_bt-Kept :
      (low high base bt info : ℕ) (leaf : List ℕ) (m : g.Memory)
      → high ≤ base + bt
      → Kept g low high m (write_leaf_bt g base bt info leaf m)
  unfolding write_leaf_bt
  write_leaf_bt-Kept low high base bt info leaf m far =
      and_write_u32 g (base + bt + 4) info (omega arith) (
        and_write g (base + bt + 20) (leaf ++ 0 ∷ []) (omega arith)
          (write_u32-Kept g low high (base + bt) (length leaf) m (inl far)))
