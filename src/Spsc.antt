-- ===== src/Spsc.antt =====
-- 04-hardware-sync-and-lock-free-internals/projects/lockfree_ring_buffers/spsc_queue.hpp. The
-- counters and their differences wrap around at 2 ^ 64. Each call is one step: the atomic loads and
-- stores of the other side fall before or after it.
pub mod Fifo
pub mod Runs
mod Tests
use Prim.Native.Nat.{bit_and}
use cpp_interview.Prelude.{
  ℕ, zero, suc, ◌+◌, ◌-◌, Bool, true, false, Option, none, some, ◌==◌, ltb, leb, if◌then◌else◌,
}
use cpp_interview.Prelude.Words.{sub64, next64}

-- A slot of the storage is empty until an item is constructed in it, and after it is destroyed.
pub record SpscQueue (A : Type 0) : Type 0 where
  pub tail : ℕ
  pub cached_head : ℕ
  pub head : ℕ
  pub cached_tail : ℕ
  pub storage : ℕ → Option A

module _ {A : Type 0} where
  abbrev pub new_queue : SpscQueue A
  new_queue = record { tail = 0; cached_head = 0; head = 0; cached_tail = 0; storage = λ _. none }

  abbrev pub store_slot : (ℕ → Option A) → ℕ → Option A → ℕ → Option A
  store_slot storage i a j = if i == j then a else storage j

  -- The producer looks at the consumer's counter only if the queue seems full.
  pub refresh_head : ℕ → SpscQueue A → SpscQueue A
  refresh_head capacity q =
      if leb capacity (sub64 q.tail q.cached_head) then record q { cached_head = q.head } else q

  -- The consumer looks at the producer's counter only if the queue seems empty.
  pub refresh_tail : SpscQueue A → SpscQueue A
  refresh_tail q = if q.head == q.cached_tail then record q { cached_tail = q.tail } else q

  unfoldable pub push : ℕ → SpscQueue A → A → Bool × SpscQueue A
  unfolding refresh_head
  push capacity q x =
      let q1 = refresh_head capacity q in
      if leb capacity (sub64 q1.tail q1.cached_head) then (false, q1) else (
        true,
        record q1 {
          storage = store_slot q1.storage (bit_and q1.tail (capacity - 1)) (some x);
          tail = next64 q1.tail;
        },
      )

  unfoldable pub pop : ℕ → SpscQueue A → Option A × SpscQueue A
  unfolding refresh_tail
  pop capacity q =
      let q1 = refresh_tail q in
      let i = bit_and q1.head (capacity - 1) in
      if q1.head == q1.cached_tail then (none, q1) else (
        q1.storage i,
        record q1 { storage = store_slot q1.storage i none; head = next64 q1.head },
      )

  pub empty : SpscQueue A → Bool
  empty q = q.head == q.tail

  pub size : SpscQueue A → ℕ
  size q = if leb q.head q.tail then q.tail - q.head else 0
