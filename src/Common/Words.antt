-- ===== src/Common/Words.antt =====
-- Two fields of a machine word: what `|` of a shifted field and a low field is, and `&` with a mask.
use Prim.Native.Nat.{ℕ, zero, suc, ◌+◌, ◌-◌, ◌*◌, ◌/◌, ◌%◌, ◌^◌, ◌≤◌, ◌<◌, min, max}
use Prim.Native.Nat.{bit_and, bit_or, digits, bit_and-bitwise, bit_or-bitwise}
use mathlib.Core.Path.{◌≡◌, refl, ap, ◌∙◌}
use native.Mathlib.Omega.{arith}
use native.Mathlib.Nat.{le_refl, mod-lt, div-add-mod, add-mul-mod_self_left, mod-eq_of_lt}

two_pow : (k : ℕ) → (2 ^ suc k ≡ 2 * 2 ^ k) × (1 ≤ 2 ^ k)
two_pow zero = (omega arith, omega arith)
two_pow (suc k) = let h = two_pow k in (omega arith, omega arith)

-- The lowest digit and the rest of a remainder by an even number.
mod_double : (a m : ℕ) → 1 ≤ m → a % (2 * m) ≡ 2 * (a / 2 % m) + a % 2
mod_double a m h =
    let low = 2 * (a / 2 % m) + a % 2 in
    let small : low < 2 * m = omega (arith, mod-lt (a / 2) {m = m} h) in
    let parts : a ≡ low + 2 * m * (a / 2 / m) = omega (arith, div-add-mod (a / 2) m) in
    ap (λ t. t % (2 * m)) parts ∙ add-mul-mod_self_left low (2 * m) (a / 2 / m) ∙ mod-eq_of_lt small

-- The digits of a number under a mask of k ones, with fuel for all its digits.
mask_digits : (fuel k a : ℕ) → a ≤ fuel → digits (λ b. zero) min fuel a (2 ^ k - 1) ≡ a % 2 ^ k
mask_digits zero k zero h = omega arith
mask_digits zero k (suc a) h = absurd (omega arith)
mask_digits (suc n) k zero h = omega arith
mask_digits (suc n) zero (suc a) h = omega (arith, mask_digits n zero (suc a / 2) (omega arith))
mask_digits (suc n) (suc k) (suc a) h =
    let p = two_pow k in
    let halved : (2 ^ suc k - 1) / 2 ≡ 2 ^ k - 1 = omega arith in
    let ones : (2 ^ suc k - 1) % 2 ≡ 1 = omega arith in
    let below = mask_digits n k (suc a / 2) (omega arith) in
    rw halved (omega (arith, ones, below, mod_double (suc a) (2 ^ k) p.1, ap (λ t. suc a % t) p.0))

pub bit_and-mask : (a k : ℕ) → bit_and a (2 ^ k - 1) ≡ a % 2 ^ k
bit_and-mask a k = bit_and-bitwise a (2 ^ k - 1) ∙ mask_digits a k a (le_refl a)

-- The digits of a number whose low k digits are free, joined with a number of k digits.
join_digits :
    (fuel k a q r : ℕ) → a ≤ fuel → a ≡ q * 2 ^ k → r < 2 ^ k → digits (λ b. b) max fuel a r ≡ a + r
join_digits zero k zero q r h e l = omega arith
join_digits zero k (suc a) q r h e l = absurd (omega arith)
join_digits (suc n) k zero q r h e l = omega arith
join_digits (suc n) zero (suc a) q r h e l = omega (
  arith,
  join_digits n zero (suc a / 2) (suc a / 2) (r / 2) (omega arith) (omega arith) (omega arith),
)
join_digits (suc n) (suc k) (suc a) q r h e l =
    let p = two_pow k in
    let whole : suc a ≡ 2 * (q * 2 ^ k) = omega (arith, ap (λ t. q * t) p.0) in
    omega (
      arith,
      whole,
      join_digits n k (suc a / 2) q (r / 2) (omega arith) (omega (arith, whole)) (omega arith),
    )

pub bit_or-join : (k q r : ℕ) → r < 2 ^ k → bit_or (q * 2 ^ k) r ≡ q * 2 ^ k + r
bit_or-join k q r h =
    bit_or-bitwise (q * 2 ^ k) r ∙ join_digits (q * 2 ^ k) k (q * 2 ^ k) q r (le_refl _) refl h
