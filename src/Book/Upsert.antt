-- ===== src/Book/Upsert.antt =====
-- The order of a side's levels, and what an update of the list changes.
use cpp_interview.Prelude.{
  ℕ, zero, suc, ◌<◌, ◌≡◌, refl, true, false, none, some, List, [], ◌∷◌, ◌==◌, arith, take, length,
  if◌then◌else◌, take-length,
}
use cpp_interview.Book.{Side, PriceLevel, better}
use cpp_interview.Book.Spec.{has_price, level_of, remove_price, replace_price, insert_price, upsert}

-- The price comes before those of all the levels.
abbrev pub Ahead : Side → ℕ → List PriceLevel → Type 0
Ahead side p [] = Unit {0}
Ahead side p (x ∷ xs) = (better side p x.price ≡ true) × Ahead side p xs

-- Strictly from the best price to the worst.
abbrev pub IsSorted : Side → List PriceLevel → Type 0
IsSorted side [] = Unit {0}
IsSorted side (x ∷ xs) = Ahead side x.price xs × IsSorted side xs

pub Ahead-trans :
    (side : Side) (p q : ℕ) (xs : List PriceLevel)
    → better side p q ≡ true
    → Ahead side q xs
    → Ahead side p xs
Ahead-trans side p q [] h a = tt
Ahead-trans side p q (x ∷ xs) h a = (ground arith, Ahead-trans side p q xs h a.1)

pub Ahead-remove_price :
    (side : Side) (p q : ℕ) (xs : List PriceLevel)
    → Ahead side q xs
    → Ahead side q (remove_price p xs)
unfolding remove_price
Ahead-remove_price side p q [] a = tt
Ahead-remove_price side p q (x ∷ xs) a = ground (arith, Ahead-remove_price side p q xs a.1)

pub Ahead-replace_price :
    (side : Side) (v : PriceLevel) (q : ℕ) (xs : List PriceLevel)
    → Ahead side q xs
    → Ahead side q (replace_price v xs)
unfolding replace_price
Ahead-replace_price side v q [] a = tt
Ahead-replace_price side v q (x ∷ xs) a = ground (arith, Ahead-replace_price side v q xs a.1)

pub Ahead-insert_price :
    (side : Side) (v : PriceLevel) (q : ℕ) (xs : List PriceLevel)
    → better side q v.price ≡ true
    → Ahead side q xs
    → Ahead side q (insert_price side v xs)
unfolding insert_price
Ahead-insert_price side v q [] h a = (h, tt)
Ahead-insert_price side v q (x ∷ xs) h a = ground (arith, Ahead-insert_price side v q xs h a.1)

pub Ahead-take :
    (side : Side) (n q : ℕ) (xs : List PriceLevel) → Ahead side q xs → Ahead side q (take n xs)
Ahead-take side zero q xs a = tt
Ahead-take side (suc n) q [] a = tt
Ahead-take side (suc n) q (x ∷ xs) a = (a.0, Ahead-take side n q xs a.1)

pub take-IsSorted :
    (side : Side) (n : ℕ) (xs : List PriceLevel) → IsSorted side xs → IsSorted side (take n xs)
take-IsSorted side zero xs s = tt
take-IsSorted side (suc n) [] s = tt
take-IsSorted side (suc n) (x ∷ xs) s =
    (Ahead-take side n x.price xs s.0, take-IsSorted side n xs s.1)

pub remove_price-IsSorted :
    (side : Side) (p : ℕ) (xs : List PriceLevel)
    → IsSorted side xs
    → IsSorted side (remove_price p xs)
unfolding remove_price
remove_price-IsSorted side p [] s = tt
remove_price-IsSorted side p (x ∷ xs) s =
    ground (arith, remove_price-IsSorted side p xs s.1, Ahead-remove_price side p x.price xs s.0)

pub replace_price-IsSorted :
    (side : Side) (v : PriceLevel) (xs : List PriceLevel)
    → IsSorted side xs
    → IsSorted side (replace_price v xs)
unfolding replace_price
replace_price-IsSorted side v [] s = tt
replace_price-IsSorted side v (x ∷ xs) s =
    ground (arith, replace_price-IsSorted side v xs s.1, Ahead-replace_price side v x.price xs s.0)

pub insert_price-IsSorted :
    (side : Side) (v : PriceLevel) (xs : List PriceLevel)
    → has_price v.price xs ≡ false
    → IsSorted side xs
    → IsSorted side (insert_price side v xs)
unfolding insert_price has_price
insert_price-IsSorted side v [] h s = (tt, tt)
insert_price-IsSorted Side.buy v (x ∷ xs) h s = ground (
  arith,
  insert_price-IsSorted Side.buy v xs,
  Ahead-insert_price Side.buy v x.price xs,
  Ahead-trans Side.buy v.price x.price xs,
)
insert_price-IsSorted Side.sell v (x ∷ xs) h s = ground (
  arith,
  insert_price-IsSorted Side.sell v xs,
  Ahead-insert_price Side.sell v x.price xs,
  Ahead-trans Side.sell v.price x.price xs,
)

pub upsert-IsSorted :
    (depth : ℕ) (side : Side) (v : PriceLevel) (xs : List PriceLevel)
    → IsSorted side xs
    → IsSorted side (upsert depth side v xs)
unfolding upsert
upsert-IsSorted depth side v xs s = ground (
  arith,
  remove_price-IsSorted side v.price xs s,
  replace_price-IsSorted side v xs s,
  take-IsSorted side depth (insert_price side v xs),
  insert_price-IsSorted side v xs,
)

pub level_of-Ahead :
    (side : Side) (p : ℕ) (xs : List PriceLevel) → Ahead side p xs → level_of p xs ≡ none
unfolding level_of
level_of-Ahead side p [] a = refl
level_of-Ahead Side.buy p (x ∷ xs) a = ground (arith, level_of-Ahead Side.buy p xs a.1)
level_of-Ahead Side.sell p (x ∷ xs) a = ground (arith, level_of-Ahead Side.sell p xs a.1)

pub level_of-remove_price :
    (side : Side) (p j : ℕ) (xs : List PriceLevel)
    → IsSorted side xs
    → level_of j (remove_price p xs) ≡ (if p == j then none else level_of j xs)
unfolding level_of remove_price
level_of-remove_price side p j [] s = ground arith
level_of-remove_price side p j (x ∷ xs) s =
    ground (arith, level_of-remove_price side p j xs s.1, level_of-Ahead side x.price xs s.0)

pub level_of-replace_price :
    (v : PriceLevel) (j : ℕ) (xs : List PriceLevel)
    → has_price v.price xs ≡ true
    → level_of j (replace_price v xs) ≡ (if v.price == j then some v else level_of j xs)
unfolding level_of replace_price has_price
level_of-replace_price v j [] h = cc
level_of-replace_price v j (x ∷ xs) h = ground (arith, level_of-replace_price v j xs)

pub level_of-insert_price :
    (side : Side) (v : PriceLevel) (j : ℕ) (xs : List PriceLevel)
    → has_price v.price xs ≡ false
    → level_of j (insert_price side v xs) ≡ (if v.price == j then some v else level_of j xs)
unfolding level_of insert_price has_price
level_of-insert_price side v j [] h = refl
level_of-insert_price side v j (x ∷ xs) h = ground (arith, level_of-insert_price side v j xs)

pub level_of_absent : (p : ℕ) (xs : List PriceLevel) → has_price p xs ≡ false → level_of p xs ≡ none
unfolding level_of has_price
level_of_absent p [] h = refl
level_of_absent p (x ∷ xs) h = ground (arith, level_of_absent p xs)

pub length-insert_price :
    (side : Side) (v : PriceLevel) (xs : List PriceLevel)
    → length (insert_price side v xs) ≡ suc (length xs)
unfolding insert_price
length-insert_price side v [] = refl
length-insert_price side v (x ∷ xs) = ground (arith, length-insert_price side v xs)

-- While there is room, an update sets the level of its price, or deletes it at quantity 0, and
-- changes no other.
pub level_of-upsert :
    (depth : ℕ) (side : Side) (v : PriceLevel) (j : ℕ) (xs : List PriceLevel)
    → IsSorted side xs
    → length xs < depth
    → level_of j (upsert depth side v xs)
      ≡ (if v.price == j then if v.qty == 0 then none else some v else level_of j xs)
unfolding upsert
level_of-upsert depth side v j xs s room = ground (
  arith,
  level_of-remove_price side v.price j xs s,
  level_of-replace_price v j xs,
  level_of-insert_price side v j xs,
  level_of_absent v.price xs,
  take-length depth (insert_price side v xs) (omega (arith, length-insert_price side v xs)),
)
