-- ===== src/Base/Bytes.antt =====
-- `struct.pack` and `struct.unpack` of an unsigned number in little-endian bytes.
use Prim.Native.Nat.{ℕ, zero, suc, ◌+◌, ◌*◌, ◌/◌, ◌%◌, ◌^◌, ◌<◌}
use mathlib.Core.Path.{◌≡◌, refl}
use mathlib.Core.List.{List, [], ◌∷◌, ◌++◌}
use native.Mathlib.Nat.{pow-suc}
use native.Mathlib.Omega.{arith}
use emulite.Base.Lists.{length}

unfoldable pub pack : ℕ → ℕ → List ℕ
pack zero value = []
pack (suc width) value = value % 256 ∷ pack width (value / 256)

unfoldable pub unpack : List ℕ → ℕ
unpack [] = 0
unpack (byte ∷ rest) = byte + unpack rest * 256

-- a number that fits comes back
pub unpack-pack : (width value : ℕ) → value < 256 ^ width → unpack (pack width value) ≡ value
unfolding unpack pack
unpack-pack zero value fits = omega arith
unpack-pack (suc width) value fits =
    let wide : 256 ^ suc width ≡ 256 ^ width * 256 = pow-suc 256 width in
    omega (arith, unpack-pack width (value / 256) (omega (arith, wide)))

pub length-pack : (width value : ℕ) → length (pack width value) ≡ width
unfolding pack
length-pack zero value = refl
length-pack (suc width) value = omega (arith, length-pack width (value / 256))

-- the number of a row of bytes, from those of its two parts
pub unpack-append : (xs ys : List ℕ) → unpack (xs ++ ys) ≡ unpack xs + unpack ys * 256 ^ length xs
unfolding unpack
unpack-append [] ys = omega arith
unpack-append (x ∷ xs) ys =
    let wide : 256 ^ suc (length xs) ≡ 256 ^ length xs * 256 = pow-suc 256 (length xs) in
    rw wide (grind (arith, unpack-append xs ys))
