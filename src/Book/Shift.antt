-- ===== src/Book/Shift.antt =====
-- orderbook.hpp: the two loops that move levels, as operations on lists.
use Prim.Native.Nat.add
use cpp_interview.Prelude.{
  ℕ, zero, suc, ◌+◌, ◌<◌, ◌≤◌, ◌≡◌, refl, ap, ◌∙◌, List, [], ◌∷◌, arith, get_or, set, take, length,
  length-set,
}
use native.Mathlib.Numerals.{towards_suc}
use cpp_interview.Book.{PriceLevel, empty_level, shift_down, shift_up}

abbrev pub remove_at : ℕ → List PriceLevel → List PriceLevel
remove_at i [] = []
remove_at zero (x ∷ xs) = xs
remove_at (suc i) (x ∷ xs) = x ∷ remove_at i xs

abbrev pub insert_at : ℕ → PriceLevel → List PriceLevel → List PriceLevel
insert_at zero v xs = v ∷ xs
insert_at (suc i) v [] = v ∷ []
insert_at (suc i) v (x ∷ xs) = x ∷ insert_at i v xs

shift_down-cons :
    (n j : ℕ) (x : PriceLevel) (xs : List PriceLevel)
    → shift_down (x ∷ xs) n (suc j) ≡ x ∷ shift_down xs n j
unfolding shift_down
shift_down-cons zero j x xs = refl
shift_down-cons (suc n) j x xs =
    simp towards_suc (shift_down-cons n (suc j) x (set xs j (get_or xs (suc j) empty_level)))

-- Moving the levels behind `j` down drops the level at `j`.
pub take-shift_down :
    (c n j : ℕ) (xs : List PriceLevel)
    → c ≡ j + n
    → c < length xs
    → take c (shift_down xs n j) ≡ remove_at j (take (suc c) xs)
unfolding shift_down
take-shift_down c n j [] e h = absurd (omega arith)
take-shift_down zero n zero (x ∷ xs) e h = refl
take-shift_down zero n (suc j) (x ∷ xs) e h = absurd (omega arith)
take-shift_down (suc c) n (suc j) (x ∷ xs) e h =
    rw shift_down-cons (ap (◌∷◌ x) (take-shift_down c n j xs (omega arith) (omega arith)))
take-shift_down (suc c) n zero (x ∷ []) e h = absurd (omega arith)
take-shift_down (suc c) zero zero (x ∷ y ∷ xs) e h = absurd (omega arith)
take-shift_down (suc c) (suc n) zero (x ∷ y ∷ xs) e h =
    rw (shift_down-cons n 0 y (y ∷ xs))
      (ap (◌∷◌ y) (take-shift_down c n zero (y ∷ xs) (omega arith) (omega arith)))

shift_up-cons :
    (n pos : ℕ) (x : PriceLevel) (xs : List PriceLevel)
    → shift_up (x ∷ xs) n (suc pos) ≡ x ∷ shift_up xs n pos
unfolding shift_up
shift_up-cons zero pos x xs = refl
shift_up-cons (suc n) pos x xs =
    rw (add.suc pos (suc n), add.suc pos n)
      (shift_up-cons n pos x (set xs (pos + suc n) (get_or xs (pos + n) empty_level)))

-- The first `n` levels of an array, moved up by one behind its head.
moved : ℕ → List PriceLevel → PriceLevel → List PriceLevel
moved zero xs v = xs
moved (suc n) [] v = []
moved (suc n) (x ∷ xs) v = v ∷ moved n xs x

moved-suc :
    (n : ℕ) (v : PriceLevel) (xs : List PriceLevel)
    → n < length xs
    → moved n (set xs n (get_or (v ∷ xs) n empty_level)) v ≡ moved (suc n) xs v
unfolding moved
moved-suc n v [] h = absurd (omega arith)
moved-suc zero v (y ∷ ys) h = refl
moved-suc (suc n) v (y ∷ ys) h = ap (◌∷◌ v) (moved-suc n y ys (omega arith))

shift_up-zero :
    (n : ℕ) (x : PriceLevel) (xs : List PriceLevel)
    → n ≤ length xs
    → shift_up (x ∷ xs) n 0 ≡ x ∷ moved n xs x
unfolding shift_up moved
shift_up-zero zero x xs h = refl
shift_up-zero (suc n) x xs h =
    rw (add.zero (suc n), add.zero n)
      (shift_up-zero n x (set xs n (get_or (x ∷ xs) n empty_level))
          (rw (length-set xs n (get_or (x ∷ xs) n empty_level)) (omega arith))
        ∙ ap (◌∷◌ x) (moved-suc n x xs (omega arith)))

take-moved :
    (n : ℕ) (x : PriceLevel) (xs : List PriceLevel)
    → n ≤ length xs
    → take n (moved n xs x) ≡ take n (x ∷ xs)
unfolding moved
take-moved zero x xs h = refl
take-moved (suc n) x [] h = absurd (omega arith)
take-moved (suc n) x (y ∷ ys) h = ap (◌∷◌ x) (take-moved n y ys (omega arith))

-- Moving the levels from `pos` up and writing there inserts a level.
pub take-shift_up :
    (m n pos : ℕ) (v : PriceLevel) (xs : List PriceLevel)
    → m ≡ pos + n
    → m < length xs
    → take (suc m) (set (shift_up xs n pos) pos v) ≡ insert_at pos v (take m xs)
take-shift_up m n pos v [] e h = absurd (omega arith)
take-shift_up m n zero v (x ∷ xs) e h =
    rw (shift_up-zero n x xs (omega arith))
      (ap (◌∷◌ v) (rw (e ∙ add.zero n) (take-moved n x xs (omega arith))))
take-shift_up zero n (suc pos) v (x ∷ xs) e h = absurd (omega arith)
take-shift_up (suc m) n (suc pos) v (x ∷ xs) e h =
    rw shift_up-cons (ap (◌∷◌ x) (take-shift_up m n pos v xs (omega arith) (omega arith)))
