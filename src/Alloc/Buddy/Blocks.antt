-- ===== src/Alloc/Buddy/Blocks.antt =====
-- buddy_allocator.hpp: blocks at multiples of their size, and the buddy of a block.
use Prim.Native.Nat.{bit_xor, differ}
use native.Mathlib.Nat.{pow-suc, mul_assoc, mul_comm, suc-mul}
use cpp_interview.Prelude.{
  subst, ℕ_discrete, ℕ, zero, suc, ◌+◌, ◌-◌, ◌*◌, ◌/◌, ◌%◌, ◌^◌, ◌≤◌, ◌≡◌, ◌⊎◌, refl, ap, sym, ◌∙◌,
  List, [], ◌∷◌, arith, inl, inr,
}
use cpp_interview.Prelude.BitOps.{bit_xor_step}
use cpp_interview.Prelude.Bits.{pow_split}
use cpp_interview.Alloc.Buddy.{order_to_size}

abbrev pub IsAligned : ℕ → ℕ → Type 0
IsAligned order block = (q : ℕ) × (block ≡ q * order_to_size order)

differ_zero : (a : ℕ) → differ a 0 ≡ a
differ_zero zero = refl
differ_zero (suc a) = refl

differ_one : (a : ℕ) → a ≤ 1 → differ a 1 ≡ 1 - a
differ_one zero h = refl
differ_one (suc zero) h = refl
differ_one (suc (suc a)) h = absurd (omega arith)

bit_xor-zero : (n a : ℕ) → a ≤ n → bit_xor a 0 ≡ a
bit_xor-zero zero zero h = refl
bit_xor-zero zero (suc a) h = absurd (omega arith)
bit_xor-zero (suc n) zero h = refl
bit_xor-zero (suc n) (suc a) h = omega (
  arith,
  bit_xor_step (suc a) 0,
  bit_xor-zero n (suc a / 2) (omega arith),
  differ_zero (suc a % 2),
)

bit_xor-double : (a b : ℕ) → bit_xor (a * 2) (b * 2) ≡ bit_xor a b * 2
bit_xor-double a b =
    let ea : a * 2 / 2 ≡ a = omega arith in
    let eb : b * 2 / 2 ≡ b = omega arith in
    let ma : a * 2 % 2 ≡ 0 = omega arith in
    let mb : b * 2 % 2 ≡ 0 = omega arith in
    bit_xor_step (a * 2) (b * 2) ∙ rw (ea, eb, ma, mb) (omega arith)

scale : (m s : ℕ) → m * 2 ^ suc s ≡ m * 2 ^ s * 2
scale m s = ap (λ t. m * t) (pow-suc 2 s) ∙ sym (mul_assoc m (2 ^ s) 2)

bit_xor-pow :
    (s q : ℕ) → bit_xor (q * 2 ^ s) (2 ^ s) + (q % 2) * 2 ^ s ≡ q * 2 ^ s + (1 - q % 2) * 2 ^ s
bit_xor-pow zero q = omega (
  arith,
  bit_xor_step (q * 1) 1,
  bit_xor-zero (q * 1 / 2) (q * 1 / 2) (omega arith),
  differ_one (q * 1 % 2) (omega arith),
)
bit_xor-pow (suc s) q =
    rw (scale q s, scale (q % 2) s, scale (1 - q % 2) s, pow-suc 2 s)
      (omega (arith, bit_xor-double (q * 2 ^ s) (2 ^ s), bit_xor-pow s q))

order_to_size-pow : (order : ℕ) → 2 ^ (12 + order) ≡ order_to_size order
order_to_size-pow order = pow_split 12 order

pub order_to_size-suc : (order : ℕ) → order_to_size (suc order) ≡ order_to_size order * 2
order_to_size-suc order = ap (λ t. 4096 * t) (pow-suc 2 order) ∙ sym (mul_assoc 4096 (2 ^ order) 2)

-- The block and its buddy are the halves of one block of the next order.
pub buddy_lem :
    (order block : ℕ)
    → IsAligned order block
    → let buddy = bit_xor block (order_to_size order) in
      ((buddy ≡ block + order_to_size order) × IsAligned (suc order) block)
      ⊎ ((block ≡ buddy + order_to_size order) × IsAligned (suc order) buddy)
buddy_lem order block (q, e) =
    let size = order_to_size order in
    let buddy = bit_xor block size in
    let flip : bit_xor (q * size) size + (q % 2) * size ≡ q * size + (1 - q % 2) * size =
      subst (λ t. bit_xor (q * t) t + (q % 2) * t ≡ q * t + (1 - q % 2) * t)
        (order_to_size-pow order) (bit_xor-pow (12 + order) q) in
    let same : buddy ≡ bit_xor (q * size) size = ap (λ t. bit_xor t size) e in
    let next : (q / 2) * order_to_size (suc order) ≡ q / 2 * 2 * size =
      ap (λ t. q / 2 * t) (order_to_size-suc order ∙ mul_comm size 2)
      ∙ sym (mul_assoc (q / 2) 2 size) in
    elim (ℕ_discrete (q % 2) 0) [
      | yes even ↦
          let whole : q ≡ q / 2 * 2 = omega arith in
          let zeros : (q % 2) * size ≡ 0 = ap (λ t. t * size) even ∙ omega arith in
          let one : (1 - q % 2) * size ≡ size = ap (λ t. (1 - t) * size) even ∙ omega arith in
          inl (
            omega (arith, flip, zeros, one, same, e),
            (q / 2, e ∙ ap (λ t. t * size) whole ∙ sym next),
          )
      | no odd ↦
          let bit : q % 2 ≡ 1 = omega arith in
          let whole : q ≡ suc (q / 2 * 2) = omega arith in
          let one : (q % 2) * size ≡ size = ap (λ t. t * size) bit ∙ omega arith in
          let zeros : (1 - q % 2) * size ≡ 0 = ap (λ t. (1 - t) * size) bit ∙ omega arith in
          let odd_size : q * size ≡ q / 2 * 2 * size + size =
            ap (λ t. t * size) whole ∙ suc-mul (q / 2 * 2) size in
          inr (
            omega (arith, flip, zeros, one, same, e),
            (q / 2, omega (arith, flip, zeros, one, same, e, odd_size, next)),
          )
    ]

abbrev pub AreAligned : ℕ → List ℕ → Type 0
AreAligned order [] = Unit {0}
AreAligned order (x ∷ xs) = IsAligned order x × AreAligned order xs
