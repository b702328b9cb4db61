-- ===== src/Base/Powers.antt =====
-- Rounding to a power of two, and which powers divide which.
use Prim.Native.Nat.{ℕ, zero, suc, ◌+◌, ◌-◌, ◌*◌, ◌/◌, ◌%◌, ◌^◌, ◌≤◌, ◌<◌, ◌∣◌, max}
use mathlib.Core.Path.{◌≡◌, sym, ap, ◌∙◌, subst}
use mathlib.Core.Logic.{inl, inr}
use native.Mathlib.Nat.{
  pow-suc, one-le-pow, pow-le-pow_right, div-add-mod', mod-lt, mul-mod_left, max-eq_left,
  max-eq_right, mod-mod_of_dvd, dvd_refl, dvd-mul_right_of_dvd,
}
use native.Mathlib.Omega.{arith}
use emulite.Base.Tests.{lt_cases}
use emulite.Base.Bits.{clear_bits, clear_bits-mask}

pow_dvd_add : (i k : ℕ) → 2 ^ k ∣ 2 ^ (i + k)
pow_dvd_add zero k = let e : zero + k ≡ k = omega arith in rw e (dvd_refl (2 ^ k))
pow_dvd_add (suc i) k =
    let e : suc i + k ≡ suc (i + k) = omega arith in
    rw (e, pow-suc 2 (i + k)) (dvd-mul_right_of_dvd (2 ^ k) (pow_dvd_add i k) 2)

pub pow_dvd : (k j : ℕ) → k ≤ j → 2 ^ k ∣ 2 ^ j
pow_dvd k j h =
    let e : j - k + k ≡ j = omega arith in subst (λ n. 2 ^ k ∣ 2 ^ n) e (pow_dvd_add (j - k) k)

-- a multiple of a larger power is one of a smaller
pub mod_pow : (k j x : ℕ) → k ≤ j → x % 2 ^ j ≡ 0 → x % 2 ^ k ≡ 0
mod_pow k j x h e =
    sym (mod-mod_of_dvd (2 ^ k) {b = 2 ^ j} x (pow_dvd k j h)) ∙ ap (λ (t : ℕ). t % 2 ^ k) e ∙ small
  where
    small : 0 % 2 ^ k ≡ 0
    small = grind (arith, one-le-pow k 2)

pub max_pow : (k l : ℕ) → (j : ℕ) × (max (2 ^ k) (2 ^ l) ≡ 2 ^ j) × (k ≤ j) × (l ≤ j)
max_pow k l = elim (lt_cases k l) [
  | inl h ↦
      (l, max-eq_right (pow-le-pow_right (omega arith) (omega arith)), omega arith, omega arith)
  | inr h ↦ (k, max-eq_left (pow-le-pow_right (omega arith) h), omega arith, h)
]

floor_mod : (m x : ℕ) → (x - x % m) % m ≡ 0
floor_mod m x =
    let e : x - x % m ≡ x / m * m = omega (arith, div-add-mod' x m) in
    ap (λ (t : ℕ). t % m) e ∙ mul-mod_left (x / m) m

-- `(v + m - 1) & ~(m - 1)` is the smallest multiple of `m` that is not below `v`
pub round_up_bounds :
    (k v : ℕ) {m : ℕ}
    → m ≡ 2 ^ k
    → let r = clear_bits (v + m - 1) (m - 1) in (v ≤ r) × (r < v + m) × (r % 2 ^ k ≡ 0)
round_up_bounds k v e =
    let p = one-le-pow k 2 (omega arith) in
    let top = v + 2 ^ k - 1 in
    let b = mod-lt top p in
    let f = clear_bits-mask k top in
    rw e (omega (arith, p, b, f), omega (arith, p, b, f), rw f (floor_mod (2 ^ k) top))
