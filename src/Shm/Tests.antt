-- ===== src/Shm/Tests.antt =====
-- The theorems on the rings in shared memory at a ring of two slots.
use cpp_interview.Prelude.{ℕ, ◌^◌, ◌≡◌, refl, none, some, List, [], ◌∷◌, arith}
use cpp_interview.Prelude.Dict.{find, assign}
use cpp_interview.Book.{Side}
use cpp_interview.Shm.Runs.{Call, run, run_spec}
use cpp_interview.Shm.Names.{Memory, create_object, attach_object, base_of, reach_of, working}
use cpp_interview.Shm.Feed
use cpp_interview.Shm.Feed.{MarketEvent, MarketEventType, run-create}
use cpp_interview.Shm.Bus
use cpp_interview.Shm.Bus.{IpcMessage, Request, frame, sent, run-create_bus}

abbrev event : ℕ → MarketEvent
event n = record {
  seq_num = n;
  timestamp_ns = 0;
  price = 100;
  qty = 5;
  order_count = 1;
  side = Side.buy;
  event_type = MarketEventType.trade;
}

abbrev no_objects : {A : Type 0} → A → Memory A
no_objects a = record {
  names = [];
  objects = λ _. record {
    write_index = 0;
    read_index = 0;
    capacity = 0;
    mask = 0;
    slots = λ _. a;
    bytes = 0;
  };
  next = 0;
}

-- The third publish is refused.
abbrev feed_calls : List (Call MarketEvent)
feed_calls =
    Call.publishes (event 1)
    ∷ Call.publishes (event 2)
    ∷ Call.publishes (event 3)
    ∷ Call.consumes
    ∷ Call.publishes (event 4)
    ∷ Call.consumes
    ∷ []

run-create_example :
    let (h, m1) = Feed.create (event 0) working 7 (2 ^ 1) (no_objects (event 0)) in
    let g = Feed.attach working 7 2 m1 in
    (i : ℕ) × (base_of h ≡ some i)
    × (base_of g ≡ some i)
    × (run Feed.whole Feed.publish Feed.consume
          (reach_of m1 h)
          (reach_of m1 g)
          feed_calls
          (m1.objects i)
        ≡ some (run_spec Feed.whole (2 ^ 1) feed_calls []))
run-create_example =
    run-create (event 0) 7 1 2 (no_objects (event 0)) feed_calls (omega arith) (omega arith)

abbrev blank : IpcMessage
blank = record { msg_id = 0; timestamp_ns = 0; length = 0; payload = [] }

abbrev request : ℕ → Request
request n = record { msg_id = n; ts_ns = 0; payload = n ∷ 9 ∷ [] }

abbrev bus_calls : List (Call Request)
bus_calls =
    Call.publishes (request 1)
    ∷ Call.publishes (request 2)
    ∷ Call.consumes
    ∷ Call.consumes
    ∷ Call.consumes
    ∷ []

run-create_bus_example :
    let (h, m1) = Bus.create blank working 7 (2 ^ 1) (no_objects blank) in
    let g = Bus.attach working 7 2 m1 in
    (i : ℕ) × (base_of h ≡ some i)
    × (base_of g ≡ some i)
    × (run frame Bus.publish Bus.consume (reach_of m1 h) (reach_of m1 g) bus_calls (m1.objects i)
        ≡ some (run_spec sent (2 ^ 1) bus_calls []))
run-create_bus_example =
    run-create_bus blank 7 1 2 (no_objects blank) bus_calls (omega arith) (omega arith)

-- Attached with a capacity of one slot, the second message lies beyond what is mapped.
small_attach :
    let (h, m1) = Bus.create blank working 7 (2 ^ 1) (no_objects blank) in
    let g = Bus.attach working 7 1 m1 in
    run frame Bus.publish Bus.consume (reach_of m1 h) (reach_of m1 g) bus_calls (m1.objects 0)
    ≡ none
unfolding run Bus.publish Bus.consume create_object attach_object find assign
small_attach = refl

-- With a capacity of 2 ^ 57 the size wraps around to that of the header.
wrapped_size : Bus.calculate_shm_size (2 ^ 57) ≡ 128
wrapped_size = refl

wrapped_publish :
    let (h, m1) = Bus.create blank working 7 (2 ^ 57) (no_objects blank) in
    Bus.publish (reach_of m1 h) (m1.objects 0) (request 1) ≡ none
unfolding Bus.publish create_object find assign
wrapped_publish = refl
