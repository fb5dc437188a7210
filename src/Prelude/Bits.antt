-- ===== src/Prelude/Bits.antt =====
-- Shifts, masks and flags of unsigned words, as arithmetic.
use Prim.Native.Nat.{
  ℕ, zero, suc, ◌+◌, ◌-◌, ◌*◌, ◌/◌, ◌%◌, ◌^◌, ◌≤◌, ◌<◌, min, max, bit_and, bit_or, digits, bitwise,
  bit_and-bitwise, bit_or-bitwise,
}
use mathlib.Core.Path.{◌≡◌, refl, sym, ap, ◌∙◌}
use native.Mathlib.Omega.{arith}
use native.Mathlib.Nat.{
  pow-suc, add-mul-mod_self_left, mod-eq_of_lt, div-add-mod, mod-lt, div-div-eq-div-mul, zero-add,
}

-- The operations on the binary digits, whatever they do with one digit.
module _ (past : ℕ → ℕ) (digit : ℕ → ℕ → ℕ) where
  digits-zero : (fuel b : ℕ) → digits past digit fuel 0 b ≡ past b
  digits-zero zero b = refl
  digits-zero (suc fuel) b = refl

  -- More rounds than the number has digits change nothing.
  digits_fuel : (m n a b : ℕ) → a ≤ m → a ≤ n → digits past digit m a b ≡ digits past digit n a b
  digits_fuel m n zero b p q = digits-zero m b ∙ sym (digits-zero n b)
  digits_fuel zero n (suc a) b p q = absurd (omega arith)
  digits_fuel (suc m) zero (suc a) b p q = absurd (omega arith)
  digits_fuel (suc m) (suc n) (suc a) b p q =
      ap (λ high. high * 2 + digit (suc a % 2) (b % 2))
        (digits_fuel m n (suc a / 2) (b / 2) (omega arith) (omega arith))

  bitwise_step :
      ((b : ℕ) → past b ≡ past (b / 2) * 2 + digit 0 (b % 2))
      → (a b : ℕ)
      → bitwise past digit a b ≡ bitwise past digit (a / 2) (b / 2) * 2 + digit (a % 2) (b % 2)
  bitwise_step law zero b = law b
  bitwise_step law (suc a) b =
      ap (λ high. high * 2 + digit (suc a % 2) (b % 2))
        (digits_fuel a (suc a / 2) (suc a / 2) (b / 2) (omega arith) (omega arith))

bit_and_step : (a b : ℕ) → bit_and a b ≡ bit_and (a / 2) (b / 2) * 2 + min (a % 2) (b % 2)
bit_and_step a b = omega (
  arith,
  bitwise_step (λ c. 0) min (λ c. omega arith) a b,
  bit_and-bitwise a b,
  bit_and-bitwise (a / 2) (b / 2),
)

bit_or_step : (a b : ℕ) → bit_or a b ≡ bit_or (a / 2) (b / 2) * 2 + max (a % 2) (b % 2)
bit_or_step a b = omega (
  arith,
  bitwise_step (λ c. c) max (λ c. omega arith) a b,
  bit_or-bitwise a b,
  bit_or-bitwise (a / 2) (b / 2),
)

zero-bit_or : (b : ℕ) → bit_or 0 b ≡ b
zero-bit_or b = bit_or-bitwise 0 b

halving : (P : ℕ → Type 0) → P 0 → ((a : ℕ) → P (a / 2) → P a) → (bound a : ℕ) → a ≤ bound → P a
halving P base step bound zero h = base
halving P base step zero (suc a) h = absurd (omega arith)
halving P base step (suc bound) (suc a) h =
    step (suc a) (halving P base step bound (suc a / 2) (omega arith))

bit_or-zero : (a : ℕ) → bit_or a 0 ≡ a
bit_or-zero a =
    halving (λ n. bit_or n 0 ≡ n) refl (λ n half. omega (arith, bit_or_step n 0, half)) a a
      (omega arith)

bit_and-zero : (a : ℕ) → bit_and a 0 ≡ 0
bit_and-zero a =
    halving (λ n. bit_and n 0 ≡ 0) refl (λ n half. omega (arith, bit_and_step n 0, half)) a a
      (omega arith)

pub pow-pos : (k : ℕ) → 0 < 2 ^ k
pow-pos zero = omega arith
pow-pos (suc k) = omega (arith, pow-pos k, pow-suc 2 k)

pub two_pow-suc : (k : ℕ) → 2 ^ suc k ≡ 2 * 2 ^ k
two_pow-suc k = omega (arith, pow-suc 2 k)

suc-add : (a b : ℕ) → suc a + b ≡ suc (a + b)
suc-add a b = omega arith

pub two_pow-add : (a b : ℕ) → 2 ^ (a + b) ≡ 2 ^ a * 2 ^ b
two_pow-add zero b = rw (zero-add b) omega arith
two_pow-add (suc a) b =
    rw (two_pow-suc a, suc-add a b, two_pow-suc (a + b), two_pow-add a b) omega arith

-- The division by p is the one division with a remainder below p.
pub mod_unique : (v q r p : ℕ) → v ≡ p * q + r → r < p → v % p ≡ r
mod_unique v q r p e h =
    ap (λ w. w % p) (e ∙ omega arith) ∙ add-mul-mod_self_left r p q ∙ mod-eq_of_lt h

mod_double : (v p : ℕ) → 0 < p → v % (2 * p) ≡ (v / 2 % p) * 2 + v % 2
mod_double v p h =
    mod_unique v (v / 2 / p) _ (2 * p) (omega (arith, div-add-mod (v / 2) p))
      (omega (arith, mod-lt (v / 2) h))

div_double : (v p : ℕ) → v / (2 * p) ≡ v / 2 / p
div_double v p = sym (div-div-eq-div-mul v 2 p)

mask_half : (p : ℕ) → 0 < p → (2 * p - 1) / 2 ≡ p - 1
mask_half p h = omega arith

double_half : (p : ℕ) → 2 * p / 2 ≡ p
double_half p = omega arith

halves : (k a : ℕ) → 2 ^ suc k * a / 2 ≡ 2 ^ k * a
halves k a = rw (two_pow-suc k) omega arith

-- `value & ((1 << k) - 1)`.
pub bit_and-mask : (k v : ℕ) → bit_and v (2 ^ k - 1) ≡ v % 2 ^ k
bit_and-mask zero v = omega (arith, bit_and-zero v)
bit_and-mask (suc k) v =
    rw
      (
        two_pow-suc k,
        mod_double v (2 ^ k) (pow-pos k),
        bit_and_step v (2 * 2 ^ k - 1),
        mask_half (2 ^ k) (pow-pos k),
        bit_and-mask k (v / 2),
      )
      omega (arith, pow-pos k)

-- `value & (1 << k)`.
pub bit_and-flag : (k v : ℕ) → bit_and v (2 ^ k) ≡ v / 2 ^ k % 2 * 2 ^ k
bit_and-flag zero v = omega (arith, bit_and-mask 1 v)
bit_and-flag (suc k) v =
    rw
      (
        two_pow-suc k,
        div_double v (2 ^ k),
        bit_and_step v (2 * 2 ^ k),
        double_half (2 ^ k),
        bit_and-flag k (v / 2),
      )
      omega arith

half-below : (k b : ℕ) → b < 2 ^ suc k → b / 2 < 2 ^ k
half-below k b h = omega (arith, two_pow-suc k)

-- `high | low`, where the words have no digit in common.
pub bit_or-high_low : (k a b : ℕ) → b < 2 ^ k → bit_or (2 ^ k * a) b ≡ 2 ^ k * a + b
bit_or-high_low zero a zero h = omega (arith, bit_or-zero (1 * a))
bit_or-high_low zero a (suc b) h = absurd (omega arith)
bit_or-high_low (suc k) a b h =
    rw
      (
        bit_or_step (2 ^ suc k * a) b,
        halves k a,
        bit_or-high_low k a (b / 2) (half-below k b h),
        two_pow-suc k,
      )
      omega arith

pub bit_or-low_high : (k a b : ℕ) → b < 2 ^ k → bit_or b (2 ^ k * a) ≡ 2 ^ k * a + b
bit_or-low_high zero a zero h = omega (arith, zero-bit_or (1 * a))
bit_or-low_high zero a (suc b) h = absurd (omega arith)
bit_or-low_high (suc k) a b h =
    rw
      (
        bit_or_step b (2 ^ suc k * a),
        halves k a,
        bit_or-low_high k a (b / 2) (half-below k b h),
        two_pow-suc k,
      )
      omega arith
