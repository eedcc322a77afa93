-- ===== src/Book/Order.antt =====
-- orderbook.hpp: the order of the levels, what an update changes, and the best price.
use cpp_interview.Prelude.{
  ℕ, zero, suc, ◌≤◌, ◌<◌, ◌≡◌, refl, ◌∙◌, ap, true, Option, none, some, List, [], ◌∷◌, ◌==◌, arith,
  take, length, if◌then◌else◌, get_or, ◌⊎◌, length-take,
}
use cpp_interview.Book.{
  Side, PriceLevel, better, Levels, L2OrderBook, update_level, new_book, max_depth, best_bid,
  best_ask, clear, empty_level,
}
use cpp_interview.Book.Spec.{level_of}
use cpp_interview.Book.Refine.{contents, Fits, update_side-upsert}
use cpp_interview.Book.Upsert.{Ahead, IsSorted, upsert-IsSorted, level_of-upsert}

-- The invariant of a book.
pub record IsValid (b : L2OrderBook) : Type 0 where
  pub bids_fit : Fits max_depth b.bids
  pub asks_fit : Fits max_depth b.asks
  pub bids_sorted : IsSorted Side.buy (contents b.bids)
  pub asks_sorted : IsSorted Side.sell (contents b.asks)

abbrev pub side_of : Side → L2OrderBook → Levels
side_of Side.buy b = b.bids
side_of Side.sell b = b.asks

abbrev pub level_at : Side → L2OrderBook → ℕ → Option PriceLevel
level_at side b p = level_of p (contents (side_of side b))

pub new_book-IsValid : IsValid new_book
new_book-IsValid = record {
  bids_fit = record { size = refl; used = omega arith };
  asks_fit = record { size = refl; used = omega arith };
  bids_sorted = tt;
  asks_sorted = tt;
}

-- Every update of a valid book keeps both sides within their arrays and strictly sorted, best price first.
pub update_level-IsValid :
    (b : L2OrderBook) (side : Side) (v : PriceLevel)
    → IsValid b
    → IsValid (update_level b side v.price v.qty v.order_count)
unfolding update_level
update_level-IsValid b Side.buy v h =
    let (same, fit) = update_side-upsert max_depth Side.buy b.bids v h.bids_fit in
    record {
      bids_fit = fit;
      asks_fit = h.asks_fit;
      bids_sorted = rw same (upsert-IsSorted max_depth Side.buy v (contents b.bids) h.bids_sorted);
      asks_sorted = h.asks_sorted;
    }
update_level-IsValid b Side.sell v h =
    let (same, fit) = update_side-upsert max_depth Side.sell b.asks v h.asks_fit in
    record {
      bids_fit = h.bids_fit;
      asks_fit = fit;
      bids_sorted = h.bids_sorted;
      asks_sorted = rw same (upsert-IsSorted max_depth Side.sell v (contents b.asks) h.asks_sorted);
    }

abbrev pub opposite : Side → Side
opposite Side.buy = Side.sell
opposite Side.sell = Side.buy

-- While a side of a valid book has fewer than 32 levels, an update of it sets the level of its price, or deletes it
-- at quantity 0, and changes no other level of either side.
pub level_at-update_level :
    (b : L2OrderBook) (side : Side) (v : PriceLevel) (p : ℕ)
    → IsValid b
    → (side_of side b).count < max_depth
    → let b' = update_level b side v.price v.qty v.order_count in
      (level_at side b' p
        ≡ (if v.price == p then if v.qty == 0 then none else some v else level_at side b p))
      × (level_at (opposite side) b' p ≡ level_at (opposite side) b p)
unfolding update_level
level_at-update_level b Side.buy v p h room = (
  ap (level_of p) (update_side-upsert max_depth Side.buy b.bids v h.bids_fit).0
      ∙ level_of-upsert max_depth Side.buy v p (contents b.bids) h.bids_sorted
          (omega (arith, length-take b.bids.count b.bids.levels)),
  refl,
)
level_at-update_level b Side.sell v p h room = (
  ap (level_of p) (update_side-upsert max_depth Side.sell b.asks v h.asks_fit).0
      ∙ level_of-upsert max_depth Side.sell v p (contents b.asks) h.asks_sorted
          (omega (arith, length-take b.asks.count b.asks.levels)),
  refl,
)

level_of_behind :
    (side : Side) (x y : PriceLevel) (p : ℕ) (xs : List PriceLevel)
    → Ahead side x.price xs
    → level_of p xs ≡ some y
    → better side x.price p ≡ true
unfolding level_of
level_of_behind side x y p [] a h = cc
level_of_behind side x y p (z ∷ xs) a h = ground (arith, level_of_behind side x y p xs a.1)

head_best_of :
    (side : Side) (x y : PriceLevel) (p c : ℕ) (l : List PriceLevel)
    → c ≤ length l
    → IsSorted side (take c l)
    → (if c == 0 then none else some (get_or l 0 empty_level)) ≡ some x
    → level_of p (take c l) ≡ some y
    → (x.price ≡ p) ⊎ (better side x.price p ≡ true)
unfolding level_of
head_best_of side x y p zero l fit sorted e h = cc
head_best_of side x y p (suc c) [] fit sorted e h = absurd (omega arith)
head_best_of Side.buy x y p (suc c) (z ∷ l) fit sorted e h =
    ground (arith, level_of_behind Side.buy z y p (take c l) sorted.0)
head_best_of Side.sell x y p (suc c) (z ∷ l) fit sorted e h =
    ground (arith, level_of_behind Side.sell z y p (take c l) sorted.0)

-- The best bid of a valid book is the highest price of the bids.
pub best_bid-best :
    (b : L2OrderBook) (x y : PriceLevel) (p : ℕ)
    → IsValid b
    → best_bid b ≡ some x
    → level_at Side.buy b p ≡ some y
    → p ≤ x.price
unfolding best_bid
best_bid-best b x y p h e l =
    let fit = h.bids_fit in
    ground (
      arith,
      fit,
      head_best_of Side.buy x y p b.bids.count b.bids.levels (omega (arith, fit.size, fit.used))
          h.bids_sorted e l,
    )

-- The best ask of a valid book is the lowest price of the asks.
pub best_ask-best :
    (b : L2OrderBook) (x y : PriceLevel) (p : ℕ)
    → IsValid b
    → best_ask b ≡ some x
    → level_at Side.sell b p ≡ some y
    → x.price ≤ p
unfolding best_ask
best_ask-best b x y p h e l =
    let fit = h.asks_fit in
    ground (
      arith,
      fit,
      head_best_of Side.sell x y p b.asks.count b.asks.levels (omega (arith, fit.size, fit.used))
          h.asks_sorted e l,
    )

pub clear-IsValid : (b : L2OrderBook) → IsValid b → IsValid (clear b)
unfolding clear
clear-IsValid b h = record {
  bids_fit = record { size = h.bids_fit.size; used = omega arith };
  asks_fit = record { size = h.asks_fit.size; used = omega arith };
  bids_sorted = tt;
  asks_sorted = tt;
}
