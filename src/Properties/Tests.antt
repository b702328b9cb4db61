-- ===== src/Properties/Tests.antt =====
-- The property area: a short value and a long one, read back after more calls.
use emulite.Base.{ℕ, ◌≡◌, refl, Option, none, some, List, [], ◌∷◌, ◌*◌, ◌^◌, arith}
use emulite.Guest.Flat.{Bytes, flat_memory}
use emulite.Properties.{PropertyArea, init, intern, read}
use emulite.Properties.Held.{NoNul, nothing, byte}
use emulite.Properties.Session.{Call, intern_value, invalidate_name, run, intern-run-read}

abbrev name : List ℕ
name = b'r' ∷ b'o' ∷ b'.' ∷ b'a' ∷ []

abbrev value : List ℕ
value = b'1' ∷ b'4' ∷ []

abbrev area : PropertyArea × Bytes
area = init flat_memory 0x7000 (λ (at : ℕ). 0)

abbrev interned : Option (ℕ × PropertyArea × Bytes)
interned = intern flat_memory name value area

abbrev later : List Call
later = intern_value (b'b' ∷ []) (b'2' ∷ []) ∷ invalidate_name name ∷ intern_value name [] ∷ []

abbrev after : PropertyArea × Bytes
after = elim interned [ none ↦ area | some (info, a, m) ↦ (a, m) ]

name-NoNul : NoNul name
name-NoNul =
    byte (omega arith) (byte (omega arith) (byte (omega arith) (byte (omega arith) nothing)))

value-NoNul : NoNul value
value-NoNul = byte (omega arith) (byte (omega arith) nothing)

intern-run-read_example :
    read flat_memory 28824 (run flat_memory later after) ≡ some (name, value, 2 * 2 ^ 24)
unfolding intern init emulite.Properties.align8 emulite.Base.Bits.clear_bits
    emulite.Properties.align4 emulite.Properties.leaf_from
intern-run-read_example =
    intern-run-read flat_memory name value later area.0 after.0 area.1 after.1 28824 name-NoNul
      value-NoNul (omega arith) (omega arith) (omega arith) refl refl
