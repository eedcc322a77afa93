-- ===== src/Mpmc.antt =====
-- 04-hardware-sync-and-lock-free-internals/projects/lockfree_ring_buffers/mpmc_queue.hpp. Any number of threads
-- share the queue; each step below is one atomic operation of the code, or one access to a cell.
-- Items are numbers. Memory is sequentially consistent.
pub mod Slots
pub mod Valid
pub mod Steps
pub mod Fifo
mod Tests
use Prim.Native.Nat.{bit_and, bit_or}
use cpp_interview.Prelude.{
  ℕ, zero, suc, ◌+◌, ◌-◌, ◌/◌, ◌%◌, ◌^◌, Bool, true, false, ◌&&◌, not, Option, none, some, List, [],
  ◌∷◌, ◌==◌, ltb, leb, if◌then◌else◌,
}

pub record Cell : Type 0 where
  pub sequence : ℕ
  pub content : ℕ

-- Where a thread stands in its call: outside, before the load of a position, before the load of a sequence,
-- before the exchange of a position, and before the two accesses to the cell that it has claimed.
pub data Place : Type 0 where
  idle : Place
  enq_load : ℕ → Place
  enq_look : ℕ → ℕ → Place
  enq_claim : ℕ → ℕ → Place
  enq_write : ℕ → ℕ → Place
  enq_store : ℕ → Place
  deq_load : Place
  deq_look : ℕ → Place
  deq_claim : ℕ → Place
  deq_read : ℕ → Place
  deq_store : ℕ → ℕ → Place

-- `pushed`, `writer` and `reader` are no part of the code: the item that was claimed with a position, and the
-- threads that claimed the position in `emplace` and in `pop`.
pub record System : Type 0 where
  pub mask : ℕ
  pub cells : ℕ → Cell
  pub enqueue_pos : ℕ
  pub dequeue_pos : ℕ
  pub places : ℕ → Place
  pub pushed : ℕ → ℕ
  pub writer : ℕ → ℕ
  pub reader : ℕ → ℕ

abbrev pub set_at {ℓ} : {A : Type ℓ} → ℕ → A → (ℕ → A) → ℕ → A
set_at i a f j = if i == j then a else f j

-- `v |= v >> s`
abbrev pub smear : ℕ → ℕ → ℕ
smear s v = bit_or v (v / 2 ^ s)

unfoldable pub round_up_pow2 : ℕ → ℕ
round_up_pow2 v =
    if ltb v 2
    then 2
    else (smear 32 (smear 16 (smear 8 (smear 4 (smear 2 (smear 1 (v - 1)))))) + 1) % 2 ^ 64

-- The constructor, for a capacity that has been rounded up.
abbrev pub new_queue : ℕ → System
new_queue capacity = record {
  mask = capacity - 1;
  cells = λ i. record { sequence = i; content = 0 };
  enqueue_pos = 0;
  dequeue_pos = 0;
  places = λ _. Place.idle;
  pushed = λ _. 0;
  writer = λ _. 0;
  reader = λ _. 0;
}

abbrev pub capacity : System → ℕ
capacity s = s.mask + 1

unfoldable pub slot : ℕ → ℕ → ℕ
slot mask pos = bit_and pos mask

-- `diff`, as the 64 bits of a signed number, and whether that is negative.
abbrev pub diff : ℕ → ℕ → ℕ
diff seq pos = (seq + 2 ^ 64 - pos) % 2 ^ 64

abbrev pub is_negative : ℕ → Bool
is_negative d = leb (2 ^ 63) d

abbrev pub move : ℕ → Place → System → System
move t p s = record s { places = set_at t p s.places }

abbrev pub set_cell : ℕ → Cell → System → System
set_cell i c s = record s { cells = set_at i c s.cells }

-- The test of a loop: the place for a difference of zero, a negative and a positive one.
abbrev pub judge : ℕ → Place → Place → Place → Place
judge d here back ahead = if d == 0 then here else if is_negative d then back else ahead

abbrev pub claim_enq : ℕ → Bool → ℕ → ℕ → System → System
claim_enq t fails v pos s =
    if not fails && s.enqueue_pos == pos
    then record (move t (Place.enq_write v pos) s) {
      enqueue_pos = (pos + 1) % 2 ^ 64;
      pushed = set_at pos v s.pushed;
      writer = set_at pos t s.writer;
    }
    else move t (Place.enq_look v s.enqueue_pos) s

abbrev pub claim_deq : ℕ → Bool → ℕ → System → System
claim_deq t fails pos s =
    if not fails && s.dequeue_pos == pos
    then record (move t (Place.deq_read pos) s) {
      dequeue_pos = (pos + 1) % 2 ^ 64;
      reader = set_at pos t s.reader;
    }
    else move t (Place.deq_look s.dequeue_pos) s

-- The next step of a thread at a place. `fails` is whether a weak exchange fails for no reason.
abbrev pub step_at : ℕ → Bool → Place → System → System
step_at t fails Place.idle s = s
step_at t fails (Place.enq_load v) s = move t (Place.enq_look v s.enqueue_pos) s
step_at t fails (Place.enq_look v pos) s =
    move t
      (judge (diff (s.cells (slot s.mask pos)).sequence pos) (Place.enq_claim v pos) Place.idle
        (Place.enq_load v))
      s
step_at t fails (Place.enq_claim v pos) s = claim_enq t fails v pos s
step_at t fails (Place.enq_write v pos) s =
    move t (Place.enq_store pos)
      (set_cell (slot s.mask pos) (record (s.cells (slot s.mask pos)) { content = v }) s)
step_at t fails (Place.enq_store pos) s = move t Place.idle (
    set_cell (slot s.mask pos)
      (record (s.cells (slot s.mask pos)) { sequence = (pos + 1) % 2 ^ 64 }) s)
step_at t fails Place.deq_load s = move t (Place.deq_look s.dequeue_pos) s
step_at t fails (Place.deq_look pos) s =
    move t
      (judge (diff (s.cells (slot s.mask pos)).sequence ((pos + 1) % 2 ^ 64)) (Place.deq_claim pos)
        Place.idle Place.deq_load)
      s
step_at t fails (Place.deq_claim pos) s = claim_deq t fails pos s
step_at t fails (Place.deq_read pos) s =
    move t (Place.deq_store pos (s.cells (slot s.mask pos)).content) s
step_at t fails (Place.deq_store pos item) s = move t Place.idle (
    set_cell (slot s.mask pos)
      (record (s.cells (slot s.mask pos)) { sequence = (pos + s.mask + 1) % 2 ^ 64 }) s)

pub data Action : Type 0 where
  pushes : ℕ → ℕ → Action
  pops : ℕ → Action
  goes_on : ℕ → Bool → Action

-- A thread begins a call when it is in none.
abbrev pub begin_at : ℕ → Place → Place → System → System
begin_at t p Place.idle s = move t p s
begin_at t p other s = s

abbrev pub step : Action → System → System
step (pushes t v) s = begin_at t (Place.enq_load v) (s.places t) s
step (pops t) s = begin_at t Place.deq_load (s.places t) s
step (goes_on t fails) s = step_at t fails (s.places t) s

-- After actions of which the last is listed first.
abbrev pub run : ℕ → List Action → System
run capacity [] = new_queue capacity
run capacity (a ∷ actions) = step a (run capacity actions)
