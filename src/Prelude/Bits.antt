-- ===== src/Prelude/Bits.antt =====
-- `x & (2^k - 1)`, the index mask of the ring buffers, is the remainder by `2^k`.
use Prim.Native.Nat.{
  ℕ, zero, suc, ◌+◌, ◌-◌, ◌*◌, ◌/◌, ◌%◌, ◌^◌, ◌≤◌, ◌<◌, min, bit_and, digits, bit_and-bitwise,
}
use mathlib.Core.Path.{◌≡◌, ◌∙◌, ap, sym}
use mathlib.Core.Logic.{◌≢◌}
use native.Mathlib.Decide.{dec_lt}
use native.Mathlib.Omega.{arith}
use native.Mathlib.Nat.{
  mul_assoc, mul_comm, mod-add-mod, pow-suc, mul-suc, mul-le-mul_left, mod-eq_of_lt, mod-lt,
  add-mul-mod_self_left, div-add-mod,
}

pub pow-pos : (k : ℕ) → 0 < 2 ^ k
pow-pos zero = omega arith
pow-pos (suc k) = omega (arith, pow-suc 2 k, pow-pos k)

-- A remainder by `p * 2`, digit by digit.
pub mod-double : (p a : ℕ) → 0 < p → a % (p * 2) ≡ a / 2 % p * 2 + a % 2
mod-double p a h =
    ap (λ t. t % (p * 2)) split
    ∙ add-mul-mod_self_left (a / 2 % p * 2 + a % 2) (p * 2) (a / 2 / p)
    ∙ mod-eq_of_lt (omega (arith, mod-lt (a / 2) {m = p} h))
  where
    split : a ≡ a / 2 % p * 2 + a % 2 + p * 2 * (a / 2 / p)
    split = omega (arith, div-add-mod (a / 2) p)

-- The digits of the mask run out together with those of the remainder.
masked_digits : (n k a : ℕ) → a ≤ n → digits (λ _. zero) min n a (2 ^ k - 1) ≡ a % 2 ^ k
masked_digits zero k zero h = omega (arith, pow-pos k)
masked_digits zero k (suc a) h = absurd (omega arith)
masked_digits (suc n) k zero h = omega (arith, pow-pos k)
masked_digits (suc n) zero (suc a) h = omega (arith, masked_digits n zero (suc a / 2) (omega arith))
masked_digits (suc n) (suc k) (suc a) h =
    rw (pow-suc 2 k, half)
      (omega (
        arith,
        mod-double (2 ^ k) (suc a) (pow-pos k),
        masked_digits n k (suc a / 2) (omega arith),
        pow-pos k,
      ))
  where
    half : (2 ^ k * 2 - 1) / 2 ≡ 2 ^ k - 1
    half = omega (arith, pow-pos k)

pub bit_and_mask : (k a : ℕ) → bit_and a (2 ^ k - 1) ≡ a % 2 ^ k
bit_and_mask k a = bit_and-bitwise a (2 ^ k - 1) ∙ masked_digits a k a (omega arith)

-- Positions less than a turn apart have different slots.
pub mod_apart : (c a b : ℕ) → a < b → b < a + c → a % c ≢ b % c
mod_apart c a b lt near e = elim (dec_lt (a / c) (b / c)) [
  | yes more ↦ omega (
    arith,
    div-add-mod a c,
    div-add-mod b c,
    mul-suc c (a / c),
    mul-le-mul_left {m = suc (a / c)} {n = b / c} c (omega arith),
  )
  | no less ↦ omega (
    arith,
    div-add-mod a c,
    div-add-mod b c,
    mul-le-mul_left {m = b / c} {n = a / c} c (omega arith),
  )
]

pub pow_split : (k j : ℕ) → 2 ^ (k + j) ≡ 2 ^ k * 2 ^ j
pow_split zero j =
    let none : zero + j ≡ j = omega arith in
    let one : 2 ^ zero * 2 ^ j ≡ 2 ^ j = omega arith in ap (λ n. 2 ^ n) none ∙ sym one
pow_split (suc k) j =
    let next : suc k + j ≡ suc (k + j) = omega arith in
    ap (λ n. 2 ^ n) next
    ∙ pow-suc 2 (k + j)
    ∙ ap (λ t. t * 2) (pow_split k j)
    ∙ mul_assoc (2 ^ k) (2 ^ j) 2
    ∙ ap (λ t. 2 ^ k * t) (mul_comm (2 ^ j) 2)
    ∙ sym (mul_assoc (2 ^ k) 2 (2 ^ j))
    ∙ ap (λ t. t * 2 ^ j) (sym (pow-suc 2 k))

-- A 64-bit remainder does not change a smaller power's.
pub mod_word : (k a : ℕ) → k ≤ 64 → a % 2 ^ 64 % 2 ^ k ≡ a % 2 ^ k
mod_word k a h =
    let q = a / 2 ^ 64 in
    let whole : 64 ≡ k + (64 - k) = omega arith in
    let word : 2 ^ 64 ≡ 2 ^ k * 2 ^ (64 - k) = ap (λ n. 2 ^ n) whole ∙ pow_split k (64 - k) in
    let split : a ≡ a % 2 ^ 64 + 2 ^ k * (2 ^ (64 - k) * q) =
      omega
        (arith, div-add-mod a (2 ^ 64), ap (λ t. t * q) word, mul_assoc (2 ^ k) (2 ^ (64 - k)) q) in
    sym (ap (λ t. t % 2 ^ k) split ∙ add-mul-mod_self_left (a % 2 ^ 64) (2 ^ k) (2 ^ (64 - k) * q))

-- Equal remainders stay equal when a number is added.
pub mod_shift : (c a b n : ℕ) → a % c ≡ b % c → (a + n) % c ≡ (b + n) % c
mod_shift c a b n e = sym (mod-add-mod a c n) ∙ ap (λ t. (t + n) % c) e ∙ mod-add-mod b c n
