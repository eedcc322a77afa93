-- ===== src/Book/Tests.antt =====
-- Runs of orderbook.hpp, and its theorems at concrete inputs.
use cpp_interview.Prelude.{◌≡◌, refl, [], ◌∷◌, arith}
use cpp_interview.Book.{
  find_insert_pos, shift_up, Side, PriceLevel, Levels, new_book, update_side, update_level,
}
use cpp_interview.Book.Spec.{upsert}
use cpp_interview.Book.Refine.{contents, Fits, update_side-upsert}
use cpp_interview.Book.Order.{IsValid, new_book-IsValid, update_level-IsValid}

abbrev level_of_price : PriceLevel
level_of_price = record { price = 101; qty = 5; order_count = 2 }

abbrev lower : PriceLevel
lower = record { price = 100; qty = 7; order_count = 1 }

-- An array of two entries, both in use, and a better price.
abbrev full : Levels
full = record { levels = lower ∷ record lower { price = 99 } ∷ []; count = 2 }

worst_falls_out : contents (update_side 2 Side.buy full 101 5 2) ≡ level_of_price ∷ lower ∷ []
unfolding update_side find_insert_pos shift_up
worst_falls_out = refl

update_side-upsert_example :
    (contents (update_side 2 Side.buy full 101 5 2)
      ≡ upsert 2 Side.buy level_of_price (contents full))
    × Fits 2 (update_side 2 Side.buy full 101 5 2)
update_side-upsert_example =
    update_side-upsert 2 Side.buy full level_of_price (record { size = refl; used = omega arith })

update_level-IsValid_example : IsValid (update_level new_book Side.buy 101 5 2)
update_level-IsValid_example =
    update_level-IsValid new_book Side.buy level_of_price new_book-IsValid
