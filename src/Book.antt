-- ===== src/Book.antt =====
-- 12-capstone-systems/01-shm-orderbook-feed/orderbook.hpp: the two sides of a limit order book, each
-- an array of `max_depth` price levels of which the first `count` are in use. A price is its
-- position among the doubles that are not NaN (-0.0 and 0.0 share one), so `==`, `<` and `>` are
-- those of the positions; the sums and differences of prices are parameters.
pub mod Shift
pub mod Spec
pub mod Search
pub mod Refine
pub mod Upsert
pub mod Order
mod Tests
use cpp_interview.Prelude.{
  ℕ, zero, suc, ◌+◌, ◌-◌, ◌<◌, ◌≡◌, Bool, true, false, Option, none, some, List, [], ◌∷◌, ltb, ◌==◌,
  ◌&&◌, if◌then◌else◌, min, get_or, set, replicate,
}

pub data Side : Type 0 where
  buy sell : Side

pub record PriceLevel : Type 0 where
  pub price : ℕ
  pub qty : ℕ
  pub order_count : ℕ

abbrev pub empty_level : PriceLevel
empty_level = record { price = 0; qty = 0; order_count = 0 }

abbrev pub max_depth : ℕ
max_depth = 32

-- `cmp` of a side: the better price comes first.
abbrev pub better : Side → ℕ → ℕ → Bool
better Side.buy a b = ltb b a
better Side.sell a b = ltb a b

-- An array and its `count`.
pub record Levels : Type 0 where
  pub levels : List PriceLevel
  pub count : ℕ

-- `for (i; i < count; ++i)` with `n` rounds left: the first level of that price.
pub find_level : List PriceLevel → ℕ → ℕ → ℕ → Option ℕ
find_level levels zero i price = none
find_level levels (suc n) i price =
    if (get_or levels i empty_level).price == price
    then some i
    else find_level levels n (i + 1) price

-- `for (j; j + 1 < count; ++j) levels[j] = levels[j + 1]`
pub shift_down : List PriceLevel → ℕ → ℕ → List PriceLevel
shift_down levels zero j = levels
shift_down levels (suc n) j =
    shift_down (set levels j (get_or levels (j + 1) empty_level)) n (j + 1)

-- The first level that the new price precedes, or `count`.
pub find_insert_pos : Side → List PriceLevel → ℕ → ℕ → ℕ → ℕ
find_insert_pos side levels zero i price = i
find_insert_pos side levels (suc n) i price =
    if better side price (get_or levels i empty_level).price
    then i
    else find_insert_pos side levels n (i + 1) price

-- `for (j = pos + n; j > pos; --j) levels[j] = levels[j - 1]`
pub shift_up : List PriceLevel → ℕ → ℕ → List PriceLevel
shift_up levels zero pos = levels
shift_up levels (suc n) pos =
    shift_up (set levels (pos + suc n) (get_or levels (pos + n) empty_level)) n pos

-- What is done at the level `i` that has the price.
pub update_found : Levels → ℕ → ℕ → ℕ → Levels
update_found s i qty order_count =
    if qty == 0
    then record { levels = shift_down s.levels (s.count - 1 - i) i; count = s.count - 1 }
    else record s {
      levels =
          set s.levels i
            (record (get_or s.levels i empty_level) { qty = qty; order_count = order_count });
    }

-- What is done when no level has the price. `depth` is the length of the array.
pub insert_level : ℕ → Side → Levels → ℕ → ℕ → ℕ → Levels
insert_level depth side s price qty order_count =
    let insert_pos = find_insert_pos side s.levels s.count 0 price in
    let limit = min (s.count + 1) depth in
    if ltb insert_pos depth
    then record {
      levels =
          set (shift_up s.levels (limit - 1 - insert_pos) insert_pos) insert_pos
            (record { price = price; qty = qty; order_count = order_count });
      count = if ltb s.count depth then s.count + 1 else s.count;
    }
    else s

pub update_side : ℕ → Side → Levels → ℕ → ℕ → ℕ → Levels
unfolding find_level update_found insert_level
update_side depth side s price qty order_count = elim (find_level s.levels s.count 0 price) [
  | some i ↦ update_found s i qty order_count
  | none ↦ if qty == 0 then s else insert_level depth side s price qty order_count
]

pub record L2OrderBook : Type 0 where
  pub bids : Levels
  pub asks : Levels

abbrev pub new_levels : Levels
new_levels = record { levels = replicate max_depth empty_level; count = 0 }

abbrev pub new_book : L2OrderBook
new_book = record { bids = new_levels; asks = new_levels }

pub update_level : L2OrderBook → Side → ℕ → ℕ → ℕ → L2OrderBook
update_level b Side.buy price qty count = record b {
  bids = update_side max_depth Side.buy b.bids price qty count;
}
update_level b Side.sell price qty count = record b {
  asks = update_side max_depth Side.sell b.asks price qty count;
}

pub best : Levels → Option PriceLevel
best s = if s.count == 0 then none else some (get_or s.levels 0 empty_level)

pub best_bid : L2OrderBook → Option PriceLevel
unfolding best
best_bid b = best b.bids

pub best_ask : L2OrderBook → Option PriceLevel
unfolding best
best_ask b = best b.asks

-- `mean a b` is `(a + b) * 0.5` and `minus` the subtraction, both of doubles.
module _ (zero_price : ℕ) (mean minus : ℕ → ℕ → ℕ) where
  pub mid_price : L2OrderBook → ℕ
  mid_price b =
      let bid = (get_or b.bids.levels 0 empty_level).price in
      let ask = (get_or b.asks.levels 0 empty_level).price in
      if ltb 0 b.bids.count && ltb 0 b.asks.count
      then mean bid ask
      else if ltb 0 b.bids.count
      then bid
      else if ltb 0 b.asks.count
      then ask
      else zero_price

  pub spread : L2OrderBook → ℕ
  spread b =
      let bid = (get_or b.bids.levels 0 empty_level).price in
      let ask = (get_or b.asks.levels 0 empty_level).price in
      if ltb 0 b.bids.count && ltb 0 b.asks.count then minus ask bid else zero_price

pub bid_depth : L2OrderBook → ℕ
bid_depth b = b.bids.count

pub ask_depth : L2OrderBook → ℕ
ask_depth b = b.asks.count

pub clear : L2OrderBook → L2OrderBook
clear b = record { bids = record b.bids { count = 0 }; asks = record b.asks { count = 0 } }
