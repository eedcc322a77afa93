-- ===== src/Prelude/Sorted.antt =====
-- `std::sort`, `std::lower_bound` and `std::binary_search` on 64-bit keys, by their contracts:
-- the sorted rearrangement, and the first position whose key is not below the one sought.
use Prim.Native.Nat.{ℕ, suc, ◌≤◌, ◌<◌}
use mathlib.Core.Path.{◌≡◌, refl}
use mathlib.Core.Bool.{Bool, false, ◌||◌, not}
use mathlib.Core.List.{List, [], ◌∷◌}
use mathlib.Core.Option.{none, some}
use native.Mathlib.Omega.{arith}
use cpp_interview.Prelude.Tests.{ltb, leb, ◌==◌, if◌then◌else◌}
use cpp_interview.Prelude.Lists.{get_elem?}

unfoldable pub contains : ℕ → List ℕ → Bool
contains k [] = false
contains k (x ∷ xs) = x == k || contains k xs

unfoldable pub insert_sorted : ℕ → List ℕ → List ℕ
insert_sorted k [] = k ∷ []
insert_sorted k (x ∷ xs) = if leb k x then k ∷ x ∷ xs else x ∷ insert_sorted k xs

unfoldable pub sort : List ℕ → List ℕ
sort [] = []
sort (x ∷ xs) = insert_sorted x (sort xs)

unfoldable pub lower_bound : ℕ → List ℕ → ℕ
lower_bound k [] = 0
lower_bound k (x ∷ xs) = if ltb x k then suc (lower_bound k xs) else 0

unfoldable pub binary_search : ℕ → List ℕ → Bool
unfolding lower_bound
binary_search k xs = elim (get_elem? xs (lower_bound k xs)) [
  | none ↦ false
  | some x ↦ not (ltb k x)
]

-- Every element is at least `n`.
abbrev pub AllFrom : ℕ → List ℕ → Type 0
AllFrom n [] = Unit {0}
AllFrom n (x ∷ xs) = (n ≤ x) × AllFrom n xs

abbrev pub IsSorted : List ℕ → Type 0
IsSorted [] = Unit {0}
IsSorted (x ∷ xs) = AllFrom x xs × IsSorted xs

pub AllFrom-mono : (m n : ℕ) (xs : List ℕ) → m ≤ n → AllFrom n xs → AllFrom m xs
AllFrom-mono m n [] h a = tt
AllFrom-mono m n (x ∷ xs) h a = (omega arith, AllFrom-mono m n xs h a.1)

AllFrom-insert_sorted :
    (n k : ℕ) (xs : List ℕ) → n ≤ k → AllFrom n xs → AllFrom n (insert_sorted k xs)
unfolding insert_sorted
AllFrom-insert_sorted n k [] h a = (h, tt)
AllFrom-insert_sorted n k (x ∷ xs) h a = ground (arith, AllFrom-insert_sorted n k xs h a.1)

insert_sorted-IsSorted : (k : ℕ) (xs : List ℕ) → IsSorted xs → IsSorted (insert_sorted k xs)
unfolding insert_sorted
insert_sorted-IsSorted k [] s = (tt, tt)
insert_sorted-IsSorted k (x ∷ xs) s =
    ground
      (arith, insert_sorted-IsSorted k xs s.1, AllFrom-insert_sorted x k xs, AllFrom-mono k x xs)

pub sort-IsSorted : (xs : List ℕ) → IsSorted (sort xs)
unfolding sort
sort-IsSorted [] = tt
sort-IsSorted (x ∷ xs) = insert_sorted-IsSorted x (sort xs) (sort-IsSorted xs)

contains-insert_sorted :
    (k a : ℕ) (xs : List ℕ) → contains k (insert_sorted a xs) ≡ (a == k || contains k xs)
unfolding contains insert_sorted
contains-insert_sorted k a [] = refl
contains-insert_sorted k a (x ∷ xs) = ground (arith, contains-insert_sorted k a xs)

pub contains-sort : (k : ℕ) (xs : List ℕ) → contains k (sort xs) ≡ contains k xs
unfolding contains sort
contains-sort k [] = refl
contains-sort k (x ∷ xs) = rw (contains-insert_sorted k x (sort xs), contains-sort k xs)

contains_below : (n k : ℕ) (xs : List ℕ) → AllFrom n xs → k < n → contains k xs ≡ false
unfolding contains
contains_below n k [] a h = refl
contains_below n k (x ∷ xs) a h = ground (arith, contains_below n k xs a.1 h)

-- On a sorted list the binary search decides membership.
pub binary_search-contains :
    (k : ℕ) (xs : List ℕ) → IsSorted xs → binary_search k xs ≡ contains k xs
unfolding binary_search contains
binary_search-contains k [] s = refl
binary_search-contains k (x ∷ xs) s =
    ground (arith, binary_search-contains k xs s.1, contains_below x k xs s.0)
