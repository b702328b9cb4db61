-- ===== src/Base/Bits.antt =====
-- `v & ~m` and the masks of k ones.
use Prim.Native.Nat.{
  ℕ, zero, suc, ◌+◌, ◌-◌, ◌*◌, ◌/◌, ◌%◌, ◌^◌, ◌≤◌, ◌<◌, min, bit_and, digits, bit_and-bitwise,
}
use mathlib.Core.Logic.{◌⊎◌, inl, inr}
use mathlib.Core.Path.{◌≡◌, refl, sym, ap, ◌∙◌}
use native.Mathlib.Nat.{
  pow-suc, one-le-pow, div-add-mod', mod-lt, mod-eq_of_lt, mul-add-mod_self_right,
}
use native.Mathlib.Omega.{arith}

-- `v & ~m` on Python's integers: the bits of `v` that `m` does not have
unfoldable pub clear_bits : ℕ → ℕ → ℕ
clear_bits v m = v - bit_and v m

-- what `bit_and` stands for: digit by digit, for a number of digits
abbrev common : ℕ → ℕ → ℕ → ℕ
common bits x y = digits (λ _. zero) min bits x y

common_none : (bits y : ℕ) → common bits zero y ≡ zero
common_none zero y = refl
common_none (suc bits) y = refl

common_with_none : (bits x : ℕ) → common bits x zero ≡ zero
common_with_none zero x = refl
common_with_none (suc bits) zero = refl
common_with_none (suc bits) (suc x) = omega (arith, common_with_none bits (suc x / 2))

-- any number of digits that covers `x` gives the same
common_stable : (x y bits more : ℕ) → x ≤ bits → x ≤ more → common bits x y ≡ common more x y
common_stable zero y bits more _ _ = common_none bits y ∙ sym (common_none more y)
common_stable (suc x) y zero more short _ = absurd (omega arith)
common_stable (suc x) y (suc bits) zero _ short = absurd (omega arith)
common_stable (suc x) y (suc bits) (suc more) h k =
    let half = common_stable (suc x / 2) (y / 2) bits more (omega arith) (omega arith) in
    omega (arith, half)

bit_and-none : (x : ℕ) → bit_and x 0 ≡ 0
bit_and-none x = bit_and-bitwise x 0 ∙ common_with_none x x

bit_and_none_left : (y : ℕ) → bit_and 0 y ≡ 0
bit_and_none_left y = bit_and-bitwise 0 y ∙ common_none 0 y

-- the lowest digit, and the others
pub bit_and_step : (x y : ℕ) → bit_and x y ≡ bit_and (x / 2) (y / 2) * 2 + min (x % 2) (y % 2)
bit_and_step zero y =
    let none_of = λ (t : ℕ). bit_and-bitwise 0 t in omega (arith, none_of y, none_of (y / 2))
bit_and_step (suc x) y =
    let h : ℕ = suc x / 2 in
    let upper = common_stable h (y / 2) x h (omega arith) (omega arith) in
    let whole = bit_and-bitwise (suc x) y in
    let rest = bit_and-bitwise h (y / 2) in omega (arith, whole, rest, upper)

-- a remainder by twice the power: the remainder of the half, and the lowest bit
mod_double : (p a : ℕ) → 0 < p → a % (p * 2) ≡ (a / 2) % p * 2 + a % 2
mod_double p a h =
    let q : ℕ = a / 2 / p in
    let r : ℕ = (a / 2) % p in
    let whole : q * (p * 2) + (r * 2 + a % 2) ≡ a = omega (arith, div-add-mod' (a / 2) p) in
    let small : r * 2 + a % 2 < p * 2 = omega (arith, mod-lt (a / 2) h) in
    ap (λ (t : ℕ). t % (p * 2)) (sym whole)
    ∙ mul-add-mod_self_right q (p * 2) (r * 2 + a % 2)
    ∙ mod-eq_of_lt small

half_mask : (p : ℕ) → 0 < p → (p * 2 - 1) / 2 ≡ p - 1
half_mask p h = omega arith

-- A mask of `k` low bits is the remainder by `2 ^ k`.
pub bit_and_mask : (k a : ℕ) → bit_and a (2 ^ k - 1) ≡ a % 2 ^ k
bit_and_mask zero a = omega (arith, bit_and-none a)
bit_and_mask (suc k) a =
    let p : 0 < 2 ^ k = one-le-pow k 2 (omega arith) in
    rw (pow-suc 2 k) (
      omega (
        arith,
        mod_double (2 ^ k) a p,
        bit_and_step a (2 ^ k * 2 - 1),
        ap (λ (t : ℕ). bit_and (a / 2) t) (half_mask (2 ^ k) p),
        bit_and_mask k (a / 2),
      ))

-- `(v + 2^k - 1) & ~(2^k - 1)` and `v & ~(2^k - 1)`
pub clear_bits-mask : (k v : ℕ) → clear_bits v (2 ^ k - 1) ≡ v - v % 2 ^ k
unfolding clear_bits
clear_bits-mask k v = omega (arith, bit_and_mask k v)

-- the digits that two numbers have in common make no more than the first
pub bit_and_le : (bound x y : ℕ) → x ≤ bound → bit_and x y ≤ x
bit_and_le zero zero y h = omega (arith, bit_and_none_left y)
bit_and_le zero (suc x) y h = absurd (omega arith)
bit_and_le (suc bound) zero y h = omega (arith, bit_and_none_left y)
bit_and_le (suc bound) (suc x) y h =
    let half = bit_and_le bound (suc x / 2) (y / 2) (omega arith) in
    omega (arith, half, bit_and_step (suc x) y)

-- a number has its own digits
bit_and_self : (bound x : ℕ) → x ≤ bound → bit_and x x ≡ x
bit_and_self zero zero h = bit_and-none zero
bit_and_self zero (suc x) h = absurd (omega arith)
bit_and_self (suc bound) zero h = bit_and-none zero
bit_and_self (suc bound) (suc x) h =
    let half = bit_and_self bound (suc x / 2) (omega arith) in
    omega (arith, half, bit_and_step (suc x) (suc x))

-- `a & (a - 1) == 0` at a positive `a` says that `a` is a power of two.
power_of_two_fuel : (n a : ℕ) → a ≤ n → 0 < a → bit_and a (a - 1) ≡ 0 → (k : ℕ) × (a ≡ 2 ^ k)
power_of_two_fuel zero a h p e = absurd (omega arith)
power_of_two_fuel (suc n) a h p e = elim (parity a) [
  | inl even ↦
      let half = power_of_two_fuel n (a / 2) (omega arith) (omega arith) (
        omega (
          arith,
          bit_and_step a (a - 1),
          e,
          ap (λ (t : ℕ). bit_and (a / 2) t) (half_pred even p),
        )) in
      (suc half.0, rw (pow-suc 2 half.0) (omega (arith, half.1, even)))
  | inr odd ↦ (
    0,
    omega (
      arith,
      e,
      bit_and_step a (a - 1),
      ap (λ (t : ℕ). bit_and (a / 2) t) (half_odd odd),
      bit_and_self (a / 2) (a / 2) (omega arith),
    ),
  )
]
  where
    parity : (b : ℕ) → (b % 2 ≡ 0) ⊎ (b % 2 ≡ 1)
    parity b = omega arith

    half_pred : a % 2 ≡ 0 → 0 < a → (a - 1) / 2 ≡ a / 2 - 1
    half_pred even q = omega arith

    half_odd : a % 2 ≡ 1 → (a - 1) / 2 ≡ a / 2
    half_odd odd = omega arith

pub power_of_two : (a : ℕ) → 0 < a → bit_and a (a - 1) ≡ 0 → (k : ℕ) × (a ≡ 2 ^ k)
power_of_two a = power_of_two_fuel a a (omega arith)
