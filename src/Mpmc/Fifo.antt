-- ===== src/Mpmc/Fifo.antt =====
-- mpmc_queue.hpp: what threads get, whatever they do and in whatever order their steps fall.
use cpp_interview.Prelude.{
  ℕ, ◌+◌, ◌-◌, ◌^◌, ◌≤◌, ◌<◌, ◌≡◌, ◌≢◌, ◌⊎◌, refl, ap, sym, ◌∙◌, arith, inl, inr, subst, ℕ_discrete,
  List, [], ◌∷◌, length,
}
use cpp_interview.Mpmc.{Place, Action, slot, run, new_queue}
use cpp_interview.Mpmc.Slots.{pow-IsRing, slot-slot, slot-lt}
use cpp_interview.Mpmc.Valid.{IsAt, IsValid}
use cpp_interview.Mpmc.Steps.{step-IsValid}

new_queue-IsValid : (k : ℕ) → 1 ≤ k → IsValid (2 ^ k) 0 (new_queue (2 ^ k))
new_queue-IsValid k h = record {
  ring = pow-IsRing k h;
  steps = omega arith;
  order = omega arith;
  room = omega arith;
  cell = λ q. (
    slot (2 ^ k - 1) q,
    slot-slot k q,
    inl (refl, inl (omega arith, omega (arith, slot-lt k q))),
  );
  thread = λ t. tt;
}

run-IsValid :
    (k : ℕ) (actions : List Action)
    → 1 ≤ k
    → length actions + 2 ^ k < 2 ^ 62
    → IsValid (2 ^ k) (length actions) (run (2 ^ k) actions)
run-IsValid k [] h small = new_queue-IsValid k h
run-IsValid k (a ∷ actions) h small =
    step-IsValid (2 ^ k) (length actions) (run (2 ^ k) actions)
      (run-IsValid k actions h (omega arith)) a (omega arith)

-- For a capacity 2 ^ k of at least 2, and any steps of any threads, so few that the capacity and they stay
-- below 2 ^ 62: of two threads that have taken their items in `pop` and have not yet given back the cells,
-- each has the item that was pushed with the position that it has claimed, the positions are below
-- `dequeue_pos`, and if the threads are two, so are the positions; and `enqueue_pos` is not before
-- `dequeue_pos` and at most a capacity ahead of it.
pub popped-pushed :
    (k : ℕ) (actions : List Action) (t u p q item other : ℕ)
    → 1 ≤ k
    → length actions + 2 ^ k < 2 ^ 62
    → (run (2 ^ k) actions).places t ≡ Place.deq_store p item
    → (run (2 ^ k) actions).places u ≡ Place.deq_store q other
    → let s = run (2 ^ k) actions in
      (item ≡ s.pushed p)
      × (other ≡ s.pushed q)
      × (p < s.dequeue_pos)
      × (q < s.dequeue_pos)
      × ((t ≡ u) ⊎ (p ≢ q))
      × (s.dequeue_pos ≤ s.enqueue_pos)
      × (s.enqueue_pos ≤ s.dequeue_pos + 2 ^ k)
popped-pushed k actions t u p q item other h small at_p at_q =
    let s = run (2 ^ k) actions in
    let v = run-IsValid k actions h small in
    let a : IsAt (2 ^ k) s t (Place.deq_store p item) =
      subst (IsAt (2 ^ k) s t) at_p (v.thread t) in
    let b : IsAt (2 ^ k) s u (Place.deq_store q other) =
      subst (IsAt (2 ^ k) s u) at_q (v.thread u) in
    let whose : (t ≡ u) ⊎ (p ≢ q) = elim (ℕ_discrete p q) [
      | yes e ↦ inl (sym a.0.0 ∙ ap s.reader e ∙ b.0.0)
      | no ne ↦ inr ne
    ] in
    (a.1, b.1, a.0.1, b.0.1, whose, v.order, v.room)
