-- ===== src/Alloc/Buddy/Merge.antt =====
-- buddy_allocator.hpp: the merges of a deallocation.
use Prim.Native.Nat.{bit_xor}
use native.Mathlib.Nat.{mul_assoc, mul_comm, suc-mul}
use cpp_interview.Prelude.{
  ℕ, zero, suc, ◌+◌, ◌*◌, ◌≤◌, ◌<◌, ◌≡◌, refl, ap, sym, ◌∙◌, true, false, some, List, [], ◌∷◌, ◌++◌,
  ◌==◌, ltb, if◌then◌else◌, arith, Bool-cases, inl, inr, subst,
}
use cpp_interview.Prelude.Bits.{pow-pos}
use cpp_interview.Prelude.Sorted.{contains}
use cpp_interview.Alloc.Buddy.{
  order_to_size, set_list, push_back, back, pop_back, erase, split_down, merge,
}
use cpp_interview.Alloc.Buddy.Weight.{
  IsAdditive, free_weight, free_weight-set_list, list_weight-erase,
}
use cpp_interview.Alloc.Buddy.Blocks.{IsAligned, AreAligned, buddy_lem, order_to_size-suc}

abbrev pub AreListsAligned : (ℕ → List ℕ) → Type 0
AreListsAligned lists = (order : ℕ) → AreAligned order (lists order)

AreAligned-erase : (order b : ℕ) (xs : List ℕ) → AreAligned order xs → AreAligned order (erase b xs)
unfolding erase
AreAligned-erase order b [] h = tt
AreAligned-erase order b (x ∷ xs) h = elim (Bool-cases (x == b)) [
  | inl e ↦ rw e h.1
  | inr e ↦ rw e (h.0, AreAligned-erase order b xs h.1)
]

AreAligned-append :
    (order b : ℕ) (xs : List ℕ)
    → IsAligned order b
    → AreAligned order xs
    → AreAligned order (xs ++ (b ∷ []))
AreAligned-append order b [] a h = (a, tt)
AreAligned-append order b (x ∷ xs) a h = (h.0, AreAligned-append order b xs a h.1)

pub AreAligned-back :
    (order b : ℕ) (xs : List ℕ)
    → back xs ≡ some b
    → AreAligned order xs
    → IsAligned order b × AreAligned order (pop_back xs)
unfolding back pop_back
AreAligned-back order b [] e h = absurd (cc)
AreAligned-back order b (x ∷ []) e h =
    let same : x ≡ b = cc in (subst (IsAligned order) same h.0, tt)
AreAligned-back order b (x ∷ y ∷ xs) e h =
    let (first, rest) = AreAligned-back order b (y ∷ xs) e h.1 in (first, (h.0, rest))

pub AreListsAligned-set_list :
    (order : ℕ) (lists : ℕ → List ℕ) (xs : List ℕ)
    → AreListsAligned lists
    → AreAligned order xs
    → AreListsAligned (set_list lists order xs)
AreListsAligned-set_list order lists xs h a j = elim (Bool-cases (order == j)) [
  | inl e ↦ rw e (subst (λ o. AreAligned o xs) (ground (arith, e)) a)
  | inr e ↦ rw e (h j)
]

pub AreListsAligned-push_back :
    (order b : ℕ) (lists : ℕ → List ℕ)
    → AreListsAligned lists
    → IsAligned order b
    → AreListsAligned (push_back lists order b)
AreListsAligned-push_back order b lists h a =
    AreListsAligned-set_list order lists (lists order ++ (b ∷ [])) h
      (AreAligned-append order b (lists order) a (h order))

-- Both halves of a block are aligned.
halves-IsAligned :
    (order block : ℕ)
    → IsAligned (suc order) block
    → IsAligned order block × IsAligned order (block + order_to_size order)
halves-IsAligned order block (q, e) =
    let size = order_to_size order in
    let whole : block ≡ q * 2 * size =
      e ∙ ap (λ t. q * t) (order_to_size-suc order ∙ mul_comm size 2) ∙ sym (mul_assoc q 2 size) in
    ((q * 2, whole), (suc (q * 2), omega (arith, whole, suc-mul (q * 2) size)))

pub AreListsAligned-split_down :
    (rounds order block : ℕ) (lists : ℕ → List ℕ)
    → AreListsAligned lists
    → IsAligned (order + rounds) block
    → AreListsAligned (split_down rounds order block lists) × IsAligned order block
unfolding split_down
AreListsAligned-split_down zero order block lists h a =
    (h, subst (λ o. IsAligned o block) (omega arith) a)
AreListsAligned-split_down (suc rounds) order block lists h a =
    let a1 : IsAligned (suc (order + rounds)) block =
      subst (λ o. IsAligned o block) (omega arith) a in
    let (low, high) = halves-IsAligned (order + rounds) block a1 in
    AreListsAligned-split_down rounds order block _
      (AreListsAligned-push_back (order + rounds) _ lists h high) low

-- The block that a merge goes on with.
abbrev lower : ℕ → ℕ → ℕ
lower order block =
    let buddy = bit_xor block (order_to_size order) in if ltb block buddy then block else buddy

lower_lem :
    (order block : ℕ)
    → IsAligned order block
    → IsAligned (suc order) (lower order block)
      × ((w : ℕ → ℕ → ℕ)
          → IsAdditive w
          → w (lower order block) (suc order)
            ≡ w block order + w (bit_xor block (order_to_size order)) order)
lower_lem order block a =
    let buddy = bit_xor block (order_to_size order) in
    let some_size : 0 < order_to_size order = omega (arith, pow-pos order) in
    elim (buddy_lem order block a) [
      | inl (e, up) ↦
          let test : ltb block buddy ≡ true = ground (arith, e, some_size) in
          rw test
            (up, λ w additive. additive block order ∙ ap (λ t. w block order + w t order) (sym e))
      | inr (e, up) ↦
          let test : ltb block buddy ≡ false = ground (arith, e, some_size) in
          rw test (
            up,
            λ w additive.
                additive buddy order ∙ ap (λ t. w buddy order + w t order) (sym e) ∙ omega arith,
          )
    ]

pub merge-IsAligned :
    (rounds order block : ℕ) (lists : ℕ → List ℕ)
    → AreListsAligned lists
    → IsAligned order block
    → let (order1, block1, lists1) = merge rounds order block lists in
      (order1 ≤ order + rounds) × IsAligned order1 block1 × AreListsAligned lists1
unfolding merge
merge-IsAligned zero order block lists h a = (omega arith, a, h)
merge-IsAligned (suc rounds) order block lists h a =
    let buddy = bit_xor block (order_to_size order) in
    let erased = erase buddy (lists order) in
    let (le, up, rest) =
      merge-IsAligned rounds (suc order) (lower order block) (set_list lists order erased)
        (AreListsAligned-set_list order lists erased h
          (AreAligned-erase order buddy (lists order) (h order)))
        (lower_lem order block a).0 in
    elim (Bool-cases (contains buddy (lists order))) [
      | inl e ↦ rw e (omega (arith, le), up, rest)
      | inr e ↦ rw e (omega arith, a, h)
    ]

module _ (w : ℕ → ℕ → ℕ) (additive : IsAdditive w) where
  pub merge-weight :
      (n rounds order block : ℕ) (lists : ℕ → List ℕ)
      → order + rounds < n
      → IsAligned order block
      → let (order1, block1, lists1) = merge rounds order block lists in
        free_weight w n lists1 + w block1 order1 ≡ free_weight w n lists + w block order
  unfolding merge
  merge-weight n zero order block lists h a = refl
  merge-weight n (suc rounds) order block lists h a =
      let buddy = bit_xor block (order_to_size order) in
      let erased = erase buddy (lists order) in
      let (up, joined) = lower_lem order block a in
      let rest =
        merge-weight n rounds (suc order) (lower order block) (set_list lists order erased)
          (omega arith) up in
      elim (Bool-cases (contains buddy (lists order))) [
        | inl e ↦ rw e (
            omega (
              arith,
              rest,
              joined w additive,
              free_weight-set_list w n order lists erased (omega arith),
              list_weight-erase w order buddy (lists order) e,
            ))
        | inr e ↦ rw e refl
      ]
