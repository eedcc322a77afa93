-- ===== src/Alloc/Buddy/Weight.antt =====
-- buddy_allocator.hpp: what splits and merges keep of any quantity that a block shares out to its halves.
use cpp_interview.Prelude.{
  ℕ, zero, suc, ◌+◌, ◌≤◌, ◌<◌, ◌≡◌, refl, ap, true, some, List, [], ◌∷◌, ◌++◌, ◌==◌, arith,
  Bool-cases, inl, inr,
}
use cpp_interview.Prelude.Sorted.{contains}
use cpp_interview.Alloc.Buddy.{
  order_to_size, set_list, push_back, back, pop_back, erase, split_down,
}

-- A block of the next order has what its halves have.
abbrev pub IsAdditive : (ℕ → ℕ → ℕ) → Type 0
IsAdditive w =
    (block order : ℕ) → w block (suc order) ≡ w block order + w (block + order_to_size order) order

module _ (w : ℕ → ℕ → ℕ) where
  abbrev pub list_weight : ℕ → List ℕ → ℕ
  list_weight order [] = 0
  list_weight order (x ∷ xs) = w x order + list_weight order xs

  -- The lists of the orders below `n`.
  abbrev pub free_weight : ℕ → (ℕ → List ℕ) → ℕ
  free_weight zero lists = 0
  free_weight (suc n) lists = list_weight n (lists n) + free_weight n lists

  abbrev pub live_weight : List (ℕ × ℕ) → ℕ
  live_weight [] = 0
  live_weight ((block, order) ∷ live) = w block order + live_weight live

  list_weight-append :
      (order b : ℕ) (xs : List ℕ)
      → list_weight order (xs ++ (b ∷ [])) ≡ list_weight order xs + w b order
  list_weight-append order b [] = omega arith
  list_weight-append order b (x ∷ xs) = omega (arith, list_weight-append order b xs)

  pub list_weight-back :
      (order b : ℕ) (xs : List ℕ)
      → back xs ≡ some b
      → list_weight order xs ≡ w b order + list_weight order (pop_back xs)
  unfolding back pop_back
  list_weight-back order b [] e = ground (arith, e)
  list_weight-back order b (x ∷ []) e = ground (arith, e)
  list_weight-back order b (x ∷ y ∷ xs) e = omega (arith, list_weight-back order b (y ∷ xs) e)

  pub list_weight-erase :
      (order b : ℕ) (xs : List ℕ)
      → contains b xs ≡ true
      → list_weight order xs ≡ w b order + list_weight order (erase b xs)
  unfolding contains erase
  list_weight-erase order b [] e = ground (arith, e)
  list_weight-erase order b (x ∷ xs) e = ground (arith, list_weight-erase order b xs)

  free_weight_above :
      (n order : ℕ) (lists : ℕ → List ℕ) (xs : List ℕ)
      → n ≤ order
      → free_weight n (set_list lists order xs) ≡ free_weight n lists
  free_weight_above zero order lists xs h = refl
  free_weight_above (suc n) order lists xs h =
      ground (arith, free_weight_above n order lists xs (omega arith))

  pub free_weight-set_list :
      (n order : ℕ) (lists : ℕ → List ℕ) (xs : List ℕ)
      → order < n
      → free_weight n (set_list lists order xs) + list_weight order (lists order)
        ≡ free_weight n lists + list_weight order xs
  free_weight-set_list zero order lists xs h = absurd (omega arith)
  free_weight-set_list (suc n) order lists xs h = elim (Bool-cases (order == n)) [
    | inl e ↦
        let same : order ≡ n = ground (arith, e) in
        ground (
          arith,
          e,
          free_weight_above n order lists xs (omega arith),
          ap (λ j. list_weight j (lists j)) same,
          ap (λ j. list_weight j xs) same,
        )
    | inr e ↦ ground (arith, e, free_weight-set_list n order lists xs (ground (arith, e)))
  ]

  pub free_weight-push_back :
      (n order b : ℕ) (lists : ℕ → List ℕ)
      → order < n
      → free_weight n (push_back lists order b) ≡ free_weight n lists + w b order
  free_weight-push_back n order b lists h = omega (
    arith,
    free_weight-set_list n order lists (lists order ++ (b ∷ [])) h,
    list_weight-append order b (lists order),
  )

  module _ (additive : IsAdditive w) where
    pub free_weight-split_down :
        (n rounds order block : ℕ) (lists : ℕ → List ℕ)
        → order + rounds ≤ n
        → free_weight n (split_down rounds order block lists) + w block order
          ≡ free_weight n lists + w block (order + rounds)
    unfolding split_down
    free_weight-split_down n zero order block lists h =
        ap (λ o. free_weight n lists + w block o) (omega arith)
    free_weight-split_down n (suc rounds) order block lists h =
        let j = order + rounds in
        let next : w block (order + suc rounds) ≡ w block (suc j) = ap (w block) (omega arith) in
        omega (
          arith,
          next,
          additive block j,
          free_weight-push_back n j (block + order_to_size j) lists (omega arith),
          free_weight-split_down n rounds order block (push_back lists j (block + order_to_size j))
              (omega arith),
        )
