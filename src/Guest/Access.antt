-- ===== src/Guest/Access.antt =====
-- What a number in guest memory is after a write.
use emulite.Base.{ℕ, ◌+◌, ◌*◌, ◌≤◌, ◌<◌, ◌≡◌, ap, sym, ◌∙◌, ◌%◌, ◌^◌, ◌⊎◌}
use emulite.Base.Bytes.{pack, unpack, unpack-pack, length-pack, unpack-append}
use emulite.Guest.{GuestMemory, read_u32, read_u64, read_unsigned, write_unsigned}
use mathlib.Core.Path.{subst}
use native.Mathlib.Nat.{mod-eq_of_lt}

module _ (g : GuestMemory) where
  -- a number of the width comes back
  pub read_unsigned-write_unsigned :
      (size at value : ℕ) (m : g.Memory)
      → value < 256 ^ size
      → read_unsigned g size at (write_unsigned g size at value m) ≡ value
  unfolding read_unsigned write_unsigned
  read_unsigned-write_unsigned size at value m small =
      let same : value % 256 ^ size ≡ value = mod-eq_of_lt small in
      let bytes = pack size (value % 256 ^ size) in
      let back : g.read at size (g.write at bytes m) ≡ bytes =
        subst (λ (n : ℕ). g.read at n (g.write at bytes m) ≡ bytes)
          (length-pack size (value % 256 ^ size)) (g.read-write at bytes m) in
      ap unpack back ∙ ap (λ (v : ℕ). unpack (pack size v)) same ∙ unpack-pack size value small

  pub read-write_unsigned_apart :
      (at size n to value : ℕ) (m : g.Memory)
      → (at + size ≤ to) ⊎ (to + n ≤ at)
      → g.read at size (write_unsigned g n to value m) ≡ g.read at size m
  unfolding write_unsigned
  read-write_unsigned_apart at size n to value m off =
      let long = length-pack n (value % 256 ^ n) in
      g.read-write_apart at size to (pack n (value % 256 ^ n)) m
        (subst (λ (k : ℕ). (at + size ≤ to) ⊎ (to + k ≤ at)) (sym long) off)

  -- a long number from its two halves
  pub read_u64_halves :
      (at : ℕ) (m : g.Memory) → read_u64 g at m ≡ read_u32 g at m + read_u32 g (at + 4) m * 2 ^ 32
  unfolding read_unsigned
  read_u64_halves at m =
      let low = g.read at 4 m in
      let high = g.read (at + 4) 4 m in
      ap unpack (g.read-append at 4 4 m)
      ∙ unpack-append low high
      ∙ ap (λ (n : ℕ). unpack low + unpack high * 256 ^ n) (g.length-read at 4 m)
