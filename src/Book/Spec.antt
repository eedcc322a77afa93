-- ===== src/Book/Spec.antt =====
-- What one side of the book promises: a list of levels, best price first, at most one for a price.
use cpp_interview.Prelude.{
  ℕ, Bool, true, false, Option, none, some, List, [], ◌∷◌, ◌==◌, if◌then◌else◌, take,
}
use cpp_interview.Book.{Side, PriceLevel, better}

unfoldable pub has_price : ℕ → List PriceLevel → Bool
has_price p [] = false
has_price p (x ∷ xs) = if x.price == p then true else has_price p xs

-- The level of a price.
unfoldable pub level_of : ℕ → List PriceLevel → Option PriceLevel
level_of p [] = none
level_of p (x ∷ xs) = if x.price == p then some x else level_of p xs

unfoldable pub remove_price : ℕ → List PriceLevel → List PriceLevel
remove_price p [] = []
remove_price p (x ∷ xs) = if x.price == p then xs else x ∷ remove_price p xs

unfoldable pub replace_price : PriceLevel → List PriceLevel → List PriceLevel
replace_price v [] = []
replace_price v (x ∷ xs) = if x.price == v.price then v ∷ xs else x ∷ replace_price v xs

unfoldable pub insert_price : Side → PriceLevel → List PriceLevel → List PriceLevel
insert_price side v [] = v ∷ []
insert_price side v (x ∷ xs) =
    if better side v.price x.price then v ∷ x ∷ xs else x ∷ insert_price side v xs

-- An update: quantity 0 deletes the level of the price; another changes it, or adds a level at its
-- place, which pushes the worst one out of a full list of `depth` levels.
unfoldable pub upsert : ℕ → Side → PriceLevel → List PriceLevel → List PriceLevel
upsert depth side v xs =
    if has_price v.price xs
    then (if v.qty == 0 then remove_price v.price xs else replace_price v xs)
    else (if v.qty == 0 then xs else take depth (insert_price side v xs))
