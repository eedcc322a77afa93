-- ===== src/Shm/Feed.antt =====
-- shm_feed.hpp: the feed of market events. Each call is one step. A price is a number in the order of
-- the doubles, as in the order book.
use Prim.Native.Nat.{bit_and}
use cpp_interview.Prelude.{
  ℕ, ◌+◌, ◌*◌, ◌%◌, ◌≤◌, ◌^◌, ◌≡◌, Bool, true, false, Option, none, some, List, [], ◌∷◌, ◌==◌, leb,
  if◌then◌else◌, length, arith, refl, ap, ◌∙◌, Bool-cases, inl, inr, ◌<◌,
}
use cpp_interview.Book.{Side}
use cpp_interview.Shm.Ring.{
  Ring, header_size, is_inside, is_inside_lem, index-lt, set_slot, Represents, full_test,
  empty_test, written-Represents, read-Represents,
}
use cpp_interview.Prelude.Words.{sub64, next64, pow_exponent}
use cpp_interview.Shm.Runs.{
  Call, run, run_spec, run_lem, AreFifo, seen, consume_spec, publish_spec, empty-Represents,
}
use cpp_interview.Shm.Names.{
  attach_object-create_object, reach_of, reach-create_object, object_of, base_of, working, Calls,
  Memory, Handle, create_object, attach_object, close_handle,
}

pub data MarketEventType : Type 0 where
  update_level : MarketEventType
  trade : MarketEventType
  clear_book : MarketEventType

pub record MarketEvent : Type 0 where
  pub seq_num : ℕ
  pub timestamp_ns : ℕ
  pub price : ℕ
  pub qty : ℕ
  pub order_count : ℕ
  pub side : Side
  pub event_type : MarketEventType

abbrev pub ShmMarketFeed : Type 0
ShmMarketFeed = Ring MarketEvent

-- `sizeof(MarketEvent)`
abbrev pub event_size : ℕ
event_size = 64

abbrev pub calculate_size : ℕ → ℕ
calculate_size capacity = (header_size + capacity * event_size) % 2 ^ 64

abbrev pub create :
    MarketEvent → Calls → ℕ → ℕ → Memory MarketEvent → Option Handle × Memory MarketEvent
create zeros calls name capacity m =
    create_object zeros calls name capacity (calculate_size capacity) m

abbrev pub attach : Calls → ℕ → ℕ → Memory MarketEvent → Option Handle
attach calls name capacity m = attach_object calls name (calculate_size capacity) m

abbrev pub close : Handle → Memory MarketEvent → Memory MarketEvent
close h m = close_handle h m

-- The first argument is how many bytes are reached through the handle; there is no result where a slot
-- beyond them would be accessed.
unfoldable pub publish : ℕ → ShmMarketFeed → MarketEvent → Option (Bool × ShmMarketFeed)
publish reach f event =
    let w = f.write_index in
    if leb f.capacity (sub64 w f.read_index)
    then some (false, f)
    else if is_inside event_size reach (bit_and w f.mask)
    then some (
      true,
      record f { slots = set_slot f.slots (bit_and w f.mask) event; write_index = next64 w },
    )
    else none

unfoldable pub consume : ℕ → ShmMarketFeed → Option (Option MarketEvent × ShmMarketFeed)
consume reach f =
    let r = f.read_index in
    if r == f.write_index
    then some (none, f)
    else if is_inside event_size reach (bit_and r f.mask)
    then some (some (f.slots (bit_and r f.mask)), record f { read_index = next64 r })
    else none

abbrev pub whole : MarketEvent → MarketEvent
whole event = event

consume_lem :
    (reach k : ℕ) (f : ShmMarketFeed) (xs : List MarketEvent)
    → header_size + 2 ^ k * event_size ≤ reach
    → Represents whole k f xs
    → (a : Option MarketEvent) × (f1 : ShmMarketFeed) × (consume reach f ≡ some (a, f1))
      × (seen whole a ≡ (consume_spec xs).0)
      × Represents whole k f1 (consume_spec xs).1
unfolding consume
consume_lem reach k f [] all h =
    let test : (f.read_index == f.write_index) ≡ true = empty_test whole k f [] h ∙ ground arith in
    (none, f, rw (consume, test) refl, refl, h)
consume_lem reach k f (x ∷ xs) all h =
    let test : (f.read_index == f.write_index) ≡ false =
      empty_test whole k f (x ∷ xs) h ∙ ground arith in
    let i = bit_and f.read_index f.mask in
    let inside : is_inside event_size reach i ≡ true =
      is_inside_lem event_size reach (2 ^ k) i all (index-lt whole k f (x ∷ xs) f.read_index h) in
    let (first, rest) = read-Represents whole k f x xs h in
    (
      some (f.slots i),
      record f { read_index = next64 f.read_index },
      rw (consume, test, inside) refl,
      ap some first,
      rest,
    )

publish_lem :
    (reach k : ℕ) (f : ShmMarketFeed) (xs : List MarketEvent) (e : MarketEvent)
    → header_size + 2 ^ k * event_size ≤ reach
    → Represents whole k f xs
    → (f1 : ShmMarketFeed) × (publish reach f e ≡ some ((publish_spec (2 ^ k) e xs).0, f1))
      × Represents whole k f1 (publish_spec (2 ^ k) e xs).1
unfolding publish
publish_lem reach k f xs e all h =
    let test = full_test whole k f xs h in
    let i = bit_and f.write_index f.mask in
    let inside : is_inside event_size reach i ≡ true =
      is_inside_lem event_size reach (2 ^ k) i all (index-lt whole k f xs f.write_index h) in
    elim (Bool-cases (leb (2 ^ k) (length xs))) [
      | inl full ↦ rw full (f, rw (publish, test, full) refl, h)
      | inr room ↦ rw room (
        record f { slots = set_slot f.slots i e; write_index = next64 f.write_index },
        rw (publish, test, room, inside) refl,
        written-Represents whole k f xs e h (ground (arith, room)),
      )
    ]

pub publish-AreFifo : AreFifo whole event_size whole publish consume
publish-AreFifo = record { publish_lem = publish_lem; consume_lem = consume_lem }

-- A feed of a capacity `2 ^ k` that one process creates and another one attaches to, with a capacity that is
-- no smaller and a size below 2 ^ 64, is the same object. Where the first publishes and the second
-- consumes, no call goes beyond what is mapped, and any sequence of calls is answered as a list of at
-- most `2 ^ k` events that is extended at the end and taken from at the front.
pub run-create :
    (zeros : MarketEvent) (name k capacity : ℕ) (m : Memory MarketEvent)
    (calls : List (Call MarketEvent))
    → 2 ^ k ≤ capacity
    → header_size + capacity * event_size < 2 ^ 64
    → let (h, m1) = create zeros working name (2 ^ k) m in
      let g = attach working name capacity m1 in
      (i : ℕ) × (base_of h ≡ some i)
      × (base_of g ≡ some i)
      × (run whole publish consume (reach_of m1 h) (reach_of m1 g) calls (m1.objects i)
          ≡ some (run_spec whole (2 ^ k) calls []))
run-create zeros name k capacity m calls le fits =
    let (made, found, ring) =
      attach_object-create_object zeros name (2 ^ k) (calculate_size (2 ^ k))
        (calculate_size capacity) m in
    let small : k < 64 = pow_exponent k (omega (arith, le, fits)) in
    let (ahead, behind) = reach-create_object event_size zeros name (2 ^ k) capacity m le fits in
    (
      object_of m name,
      ap base_of made,
      ap base_of found,
      ap (run whole publish consume _ _ calls) ring
          ∙ run_lem whole event_size whole publish consume publish-AreFifo _ _ k calls _ [] ahead
              behind (empty-Represents whole k (calculate_size (2 ^ k)) (λ _. zeros) small),
    )
