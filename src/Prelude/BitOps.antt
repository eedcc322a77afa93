-- ===== src/Prelude/BitOps.antt =====
-- The bitwise operators of the source at variables, from the digit recursion that they stand for.
use Prim.Native.Nat.{
  ℕ, zero, suc, ◌+◌, ◌*◌, ◌/◌, ◌%◌, ◌^◌, ◌≤◌, min, max, bit_and, bit_or, bit_xor, digits, differ,
  bit_and-bitwise, bit_or-bitwise, bit_xor-bitwise,
}
use mathlib.Core.Path.{◌≡◌, refl, sym, ap, ◌∙◌}
use native.Mathlib.Omega.{arith}
use native.Mathlib.Nat.{pow-suc}

module _ (z : ℕ → ℕ) (f : ℕ → ℕ → ℕ) (ends : (b : ℕ) → z b ≡ z (b / 2) * 2 + f 0 (b % 2)) where
  -- A count that is large enough does not matter.
  digits_count : (n m a b : ℕ) → a ≤ n → a ≤ m → digits z f n a b ≡ digits z f m a b
  digits_count zero zero a b p q = refl
  digits_count zero (suc m) zero b p q = refl
  digits_count (suc n) zero zero b p q = refl
  digits_count (suc n) (suc m) zero b p q = refl
  digits_count zero (suc m) (suc a) b p q = absurd (omega arith)
  digits_count (suc n) zero (suc a) b p q = absurd (omega arith)
  digits_count (suc n) (suc m) (suc a) b p q =
      ap (λ t. t * 2 + f (suc a % 2) (b % 2))
        (digits_count n m (suc a / 2) (b / 2) (omega arith) (omega arith))

  digits_step :
      (a b : ℕ) → digits z f a a b ≡ digits z f (a / 2) (a / 2) (b / 2) * 2 + f (a % 2) (b % 2)
  digits_step zero b = ends b
  digits_step (suc a) b =
      ap (λ t. t * 2 + f (suc a % 2) (b % 2))
        (digits_count a (suc a / 2) (suc a / 2) (b / 2) (omega arith) (omega arith))

-- Each operator by its lowest digit.
pub bit_and_step : (a b : ℕ) → bit_and a b ≡ bit_and (a / 2) (b / 2) * 2 + min (a % 2) (b % 2)
bit_and_step a b =
    bit_and-bitwise a b
    ∙ digits_step (λ _. zero) min (λ b. omega arith) a b
    ∙ ap (λ t. t * 2 + min (a % 2) (b % 2)) (sym (bit_and-bitwise (a / 2) (b / 2)))

pub bit_or_step : (a b : ℕ) → bit_or a b ≡ bit_or (a / 2) (b / 2) * 2 + max (a % 2) (b % 2)
bit_or_step a b =
    bit_or-bitwise a b
    ∙ digits_step (λ b. b) max (λ b. omega arith) a b
    ∙ ap (λ t. t * 2 + max (a % 2) (b % 2)) (sym (bit_or-bitwise (a / 2) (b / 2)))

pub bit_xor_step : (a b : ℕ) → bit_xor a b ≡ bit_xor (a / 2) (b / 2) * 2 + differ (a % 2) (b % 2)
bit_xor_step a b =
    bit_xor-bitwise a b
    ∙ digits_step (λ b. b) differ (λ b. omega arith) a b
    ∙ ap (λ t. t * 2 + differ (a % 2) (b % 2)) (sym (bit_xor-bitwise (a / 2) (b / 2)))

-- Digit `s`.
unfoldable pub bit_at : ℕ → ℕ → ℕ
bit_at zero w = w % 2
bit_at (suc s) w = bit_at s (w / 2)

pub bit_at_le : (s w : ℕ) → bit_at s w ≤ 1
unfolding bit_at
bit_at_le zero w = omega arith
bit_at_le (suc s) w = bit_at_le s (w / 2)

pub bit_at-bit_or : (s a b : ℕ) → bit_at s (bit_or a b) ≡ max (bit_at s a) (bit_at s b)
unfolding bit_at
bit_at-bit_or zero a b = omega (arith, bit_or_step a b)
bit_at-bit_or (suc s) a b =
    ap (bit_at s) (omega (arith, bit_or_step a b)) ∙ bit_at-bit_or s (a / 2) (b / 2)

pub bit_at-pow : (s : ℕ) → bit_at s (2 ^ s) ≡ 1
unfolding bit_at
bit_at-pow zero = omega arith
bit_at-pow (suc s) = ap (bit_at s) (omega (arith, pow-suc 2 s)) ∙ bit_at-pow s

bit_and-zero_count : (n a : ℕ) → a ≤ n → bit_and a 0 ≡ 0
bit_and-zero_count zero zero h = refl
bit_and-zero_count zero (suc a) h = absurd (omega arith)
bit_and-zero_count (suc n) a h =
    omega (arith, bit_and_step a 0, bit_and-zero_count n (a / 2) (omega arith))

-- A single bit as the mask.
pub bit_and-pow : (s w : ℕ) → bit_and w (2 ^ s) ≡ bit_at s w * 2 ^ s
unfolding bit_at
bit_and-pow zero w = omega (arith, bit_and_step w 1, bit_and-zero_count w (w / 2) (omega arith))
bit_and-pow (suc s) w =
    let half : bit_and (w / 2) (2 ^ suc s / 2) ≡ bit_and (w / 2) (2 ^ s) =
      ap (bit_and (w / 2)) (omega (arith, pow-suc 2 s)) in
    grind (arith, bit_and_step w (2 ^ suc s), half, bit_and-pow s (w / 2), pow-suc 2 s)
