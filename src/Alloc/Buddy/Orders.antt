-- ===== src/Alloc/Buddy/Orders.antt =====
-- buddy_allocator.hpp: the order of a request, and the order that it is served from.
use cpp_interview.Prelude.{
  ℕ, zero, suc, ◌+◌, ◌*◌, ◌≤◌, ◌<◌, ◌≡◌, ◌⊎◌, refl, true, false, none, List, [], ◌∷◌, ltb, leb,
  arith, Bool-cases, inl, inr, subst, ◌≢◌, ℕ_discrete,
}
use cpp_interview.Alloc.Buddy.{
  order_to_size, min_block_size, max_order, pool_size, double_up, size_to_order, first_order,
  is_empty, back,
}
use cpp_interview.Alloc.Buddy.Blocks.{order_to_size-suc}

-- The least order from `low` on whose blocks have `bytes` bytes.
abbrev pub IsLeastOrder : ℕ → ℕ → ℕ → Type 0
IsLeastOrder low bytes order =
    (bytes ≤ order_to_size order) × ((j : ℕ) → low ≤ j → j < order → order_to_size j < bytes)

from_next :
    (order : ℕ) (P : ℕ → Type 0)
    → P order
    → ((j : ℕ) → suc order ≤ j → P j)
    → (j : ℕ) → order ≤ j
    → P j
from_next order P first later j h = elim (ℕ_discrete order j) [
  | yes e ↦ subst P e first
  | no ne ↦ later j (omega arith)
]

is_empty_lem : (xs : List ℕ) → is_empty xs ≡ true → xs ≡ []
is_empty_lem [] e = refl
is_empty_lem (x ∷ xs) e = absurd (cc)

double_up_lem :
    (rounds order bytes : ℕ)
    → bytes ≤ order_to_size (order + rounds)
    → let r = double_up rounds (order_to_size order) order bytes in
      (r ≤ order + rounds) × (order ≤ r) × IsLeastOrder order bytes r
unfolding double_up
double_up_lem zero order bytes h =
    let same : order + 0 ≡ order = omega arith in
    (
      omega arith,
      omega arith,
      (subst (λ o. bytes ≤ order_to_size o) same h, λ j a b. absurd (omega arith)),
    )
double_up_lem (suc rounds) order bytes h =
    let size = order_to_size order in
    let next : order + suc rounds ≡ suc order + rounds = omega arith in
    let rest =
      double_up_lem rounds (suc order) bytes (subst (λ o. bytes ≤ order_to_size o) next h) in
    let (le, ge, (enough, least)) =
      subst
        (λ s.
          let r = double_up rounds s (suc order) bytes in
          (r ≤ suc order + rounds) × (suc order ≤ r) × IsLeastOrder (suc order) bytes r)
        (order_to_size-suc order) rest in
    elim (Bool-cases (ltb size bytes)) [
      | inl e ↦ rw e (
        omega (arith, le),
        omega (arith, ge),
        (
          enough,
          from_next order
              (λ j. j < double_up rounds (size * 2) (suc order) bytes → order_to_size j < bytes)
              (λ b. ground (arith, e)) least,
        ),
      )
      | inr e ↦ rw e (omega arith, omega arith, (ground (arith, e), λ j a b. absurd (omega arith)))
    ]

pub size_to_order_lem :
    (bytes : ℕ)
    → bytes ≤ pool_size
    → (size_to_order bytes ≤ max_order) × IsLeastOrder 0 bytes (size_to_order bytes)
unfolding size_to_order
size_to_order_lem bytes h =
    let (le, ge, least) = double_up_lem max_order 0 bytes h in
    elim (Bool-cases (leb bytes min_block_size)) [
      | inl e ↦ rw e (omega arith, (ground (arith, e), λ j a b. absurd (omega arith)))
      | inr e ↦ rw e (le, least)
    ]

double_up-le : (rounds size order bytes : ℕ) → double_up rounds size order bytes ≤ order + rounds
unfolding double_up
double_up-le zero size order bytes = omega arith
double_up-le (suc rounds) size order bytes =
    ground (arith, double_up-le rounds (size * 2) (suc order) bytes)

pub size_to_order-le : (bytes : ℕ) → size_to_order bytes ≤ max_order
unfolding size_to_order
size_to_order-le bytes = ground (arith, double_up-le max_order min_block_size 0 bytes)

-- The first order from `order` on with a free block, or the end, where there is none.
pub first_order_lem :
    (rounds order : ℕ) (lists : ℕ → List ℕ)
    → let r = first_order rounds order lists in
      (order ≤ r)
      × ((r < order + rounds) × (is_empty (lists r) ≡ false)
          ⊎ (r ≡ order + rounds) × ((j : ℕ) → order ≤ j → j < order + rounds → lists j ≡ []))
unfolding first_order
first_order_lem zero order lists = (omega arith, inr (omega arith, λ j a b. absurd (omega arith)))
first_order_lem (suc rounds) order lists =
    let (ge, rest) = first_order_lem rounds (suc order) lists in
    elim (Bool-cases (is_empty (lists order))) [
      | inr e ↦ rw e (omega arith, inl (omega arith, e))
      | inl e ↦ rw e (
        omega (arith, ge),
        elim rest [
          | inl (lt, some_free) ↦ inl (omega (arith, lt), some_free)
          | inr (end, no_free) ↦ inr (
            omega (arith, end),
            from_next order (λ j. j < order + suc rounds → lists j ≡ [])
                (λ b. is_empty_lem (lists order) e) (λ j a b. no_free j a (omega arith)),
          )
        ],
      )
    ]

pub back-is_empty : (xs : List ℕ) → is_empty xs ≡ false → back xs ≢ none
unfolding back
back-is_empty [] e f = absurd (cc)
back-is_empty (x ∷ []) e f = cc
back-is_empty (x ∷ y ∷ xs) e f = back-is_empty (y ∷ xs) refl f
