-- ===== src/Book/Search.antt =====
-- orderbook.hpp: the two searches over an array, and what is done at the position that they find.
use mathlib.Core.Option
use cpp_interview.Prelude.{
  ℕ, zero, suc, ◌<◌, ◌≤◌, ◌≡◌, refl, ap, Option, none, some, List, [], ◌∷◌, ◌==◌, arith, get_or,
  set, take, length, true, false, if◌then◌else◌, Option-cases, inl, inr,
}
use cpp_interview.Book.{Side, PriceLevel, empty_level, better, find_level, find_insert_pos}
use cpp_interview.Book.Shift.{remove_at, insert_at}
use cpp_interview.Book.Spec.{has_price, remove_price, replace_price, insert_price}

abbrev pub position : ℕ → List PriceLevel → Option ℕ
position p [] = none
position p (x ∷ xs) = if x.price == p then some 0 else Option.map suc (position p xs)

pub find_level-cons :
    (n i p : ℕ) (x : PriceLevel) (xs : List PriceLevel)
    → find_level (x ∷ xs) n (suc i) p ≡ Option.map suc (find_level xs n i p)
unfolding find_level
find_level-cons zero i p x xs = refl
find_level-cons (suc n) i p x xs = ground (arith, find_level-cons n (suc i) p x xs)

pub find_level-position :
    (n p : ℕ) (xs : List PriceLevel) → n ≤ length xs → find_level xs n 0 p ≡ position p (take n xs)
unfolding find_level
find_level-position zero p xs h = refl
find_level-position (suc n) p [] h = absurd (omega arith)
find_level-position (suc n) p (x ∷ xs) h =
    ground (arith, find_level-cons n 0 p x xs, find_level-position n p xs)

abbrev pub insert_position : Side → ℕ → List PriceLevel → ℕ
insert_position side p [] = 0
insert_position side p (x ∷ xs) =
    if better side p x.price then 0 else suc (insert_position side p xs)

pub find_insert_pos-cons :
    (side : Side) (n i p : ℕ) (x : PriceLevel) (xs : List PriceLevel)
    → find_insert_pos side (x ∷ xs) n (suc i) p ≡ suc (find_insert_pos side xs n i p)
unfolding find_insert_pos
find_insert_pos-cons side zero i p x xs = refl
find_insert_pos-cons side (suc n) i p x xs =
    ground (arith, find_insert_pos-cons side n (suc i) p x xs)

pub find_insert_pos-insert_position :
    (side : Side) (n p : ℕ) (xs : List PriceLevel)
    → n ≤ length xs
    → find_insert_pos side xs n 0 p ≡ insert_position side p (take n xs)
unfolding find_insert_pos
find_insert_pos-insert_position side zero p xs h = refl
find_insert_pos-insert_position side (suc n) p [] h = absurd (omega arith)
find_insert_pos-insert_position side (suc n) p (x ∷ xs) h =
    ground
      (arith, find_insert_pos-cons side n 0 p x xs, find_insert_pos-insert_position side n p xs)

pub position-lt : (p i : ℕ) (xs : List PriceLevel) → position p xs ≡ some i → i < length xs
position-lt p i [] h = cc
position-lt p i (x ∷ xs) h = elim (Option-cases (position p xs)) [
  | inl e ↦ ground (arith, e)
  | inr (j, e) ↦ ground (arith, e, position-lt p j xs e)
]

pub remove_at-position :
    (p i : ℕ) (xs : List PriceLevel)
    → position p xs ≡ some i
    → (remove_at i xs ≡ remove_price p xs) × (has_price p xs ≡ true)
unfolding remove_price has_price
remove_at-position p i [] h = cc
remove_at-position p i (x ∷ xs) h = elim (Option-cases (position p xs)) [
  | inl e ↦ ground (arith, e)
  | inr (j, e) ↦ ground (arith, e, remove_at-position p j xs e)
]

pub set-position :
    (v : PriceLevel) (i : ℕ) (xs : List PriceLevel)
    → position v.price xs ≡ some i
    → set xs i (record (get_or xs i empty_level) { qty = v.qty; order_count = v.order_count })
      ≡ replace_price v xs
unfolding replace_price
set-position v i [] h = cc
set-position v i (x ∷ xs) h = elim (Option-cases (position v.price xs)) [
  | inl e ↦ ground (arith, e)
  | inr (j, e) ↦ ground (arith, e, set-position v j xs e)
]

pub has_price-none : (p : ℕ) (xs : List PriceLevel) → position p xs ≡ none → has_price p xs ≡ false
unfolding has_price
has_price-none p [] h = refl
has_price-none p (x ∷ xs) h = ground (arith, has_price-none p xs)

pub insert_at-insert_position :
    (side : Side) (v : PriceLevel) (xs : List PriceLevel)
    → insert_at (insert_position side v.price xs) v xs ≡ insert_price side v xs
unfolding insert_price
insert_at-insert_position side v [] = refl
insert_at-insert_position side v (x ∷ xs) = ground (arith, insert_at-insert_position side v xs)

pub insert_position-le :
    (side : Side) (p : ℕ) (xs : List PriceLevel) → insert_position side p xs ≤ length xs
insert_position-le side p [] = omega arith
insert_position-le side p (x ∷ xs) = ground (arith, insert_position-le side p xs)

pub take-insert_at :
    (m pos : ℕ) (v : PriceLevel) (xs : List PriceLevel)
    → pos ≤ m
    → take (suc m) (insert_at pos v xs) ≡ insert_at pos v (take m xs)
take-insert_at m zero v xs h = refl
take-insert_at zero (suc pos) v xs h = absurd (omega arith)
take-insert_at (suc m) (suc pos) v [] h = refl
take-insert_at (suc m) (suc pos) v (x ∷ xs) h = ap (◌∷◌ x) (take-insert_at m pos v xs (omega arith))

pub take-insert_at_le :
    (n pos : ℕ) (v : PriceLevel) (xs : List PriceLevel)
    → n ≤ pos
    → n ≤ length xs
    → take n (insert_at pos v xs) ≡ take n xs
take-insert_at_le zero pos v xs h k = refl
take-insert_at_le (suc n) zero v xs h k = absurd (omega arith)
take-insert_at_le (suc n) (suc pos) v [] h k = absurd (omega arith)
take-insert_at_le (suc n) (suc pos) v (x ∷ xs) h k =
    ap (◌∷◌ x) (take-insert_at_le n pos v xs (omega arith) (omega arith))
