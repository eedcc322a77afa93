-- ===== src/Mpmc/Valid.antt =====
-- mpmc_queue.hpp: what holds between the steps of the threads.
use cpp_interview.Prelude.{
  ℕ, ◌+◌, ◌≤◌, ◌<◌, ◌≡◌, ◌≢◌, ◌⊎◌, ap, sym, ◌∙◌, false, ◌==◌, arith, ==_of_ne,
}
use cpp_interview.Mpmc.{Cell, Place, System, slot, set_at, set_cell}
use cpp_interview.Mpmc.Slots.{IsRing}

-- A cell waits for the item of a position, or holds it.
abbrev pub IsCell : ℕ → System → ℕ → Type 0
IsCell cap s i =
    (p : ℕ) × (slot s.mask p ≡ i)
    × (((s.cells i).sequence ≡ p)
          × ((s.enqueue_pos ≤ p) × (p < s.dequeue_pos + cap)
              ⊎ (s.dequeue_pos ≤ p) × (p < s.enqueue_pos))
        ⊎ ((s.cells i).sequence ≡ p + 1) × (p < s.enqueue_pos) × ((s.cells i).content ≡ s.pushed p))

abbrev pub Writes : System → ℕ → ℕ → Type 0
Writes s t pos =
    (s.writer pos ≡ t)
    × (s.dequeue_pos ≤ pos)
    × (pos < s.enqueue_pos)
    × ((s.cells (slot s.mask pos)).sequence ≡ pos)

abbrev pub Reads : ℕ → System → ℕ → ℕ → Type 0
Reads cap s t pos =
    (s.reader pos ≡ t)
    × (pos < s.dequeue_pos)
    × (s.enqueue_pos ≤ pos + cap)
    × ((s.cells (slot s.mask pos)).sequence ≡ pos + 1)

-- What a thread knows at its place.
abbrev pub IsAt : ℕ → System → ℕ → Place → Type 0
IsAt cap s t Place.idle = Unit {0}
IsAt cap s t (Place.enq_load v) = Unit {0}
IsAt cap s t (Place.enq_look v pos) = pos ≤ s.enqueue_pos
IsAt cap s t (Place.enq_claim v pos) =
    (pos ≤ s.enqueue_pos) × (pos ≡ s.enqueue_pos → (s.cells (slot s.mask pos)).sequence ≡ pos)
IsAt cap s t (Place.enq_write v pos) = Writes s t pos × (s.pushed pos ≡ v)
IsAt cap s t (Place.enq_store pos) =
    Writes s t pos × ((s.cells (slot s.mask pos)).content ≡ s.pushed pos)
IsAt cap s t Place.deq_load = Unit {0}
IsAt cap s t (Place.deq_look pos) = pos ≤ s.dequeue_pos
IsAt cap s t (Place.deq_claim pos) =
    (pos ≤ s.dequeue_pos)
    × (pos ≡ s.dequeue_pos
        → ((s.cells (slot s.mask pos)).sequence ≡ pos + 1) × (pos < s.enqueue_pos))
IsAt cap s t (Place.deq_read pos) =
    Reads cap s t pos × ((s.cells (slot s.mask pos)).content ≡ s.pushed pos)
IsAt cap s t (Place.deq_store pos item) = Reads cap s t pos × (item ≡ s.pushed pos)

pub record IsValid (cap n : ℕ) (s : System) : Type 0 where
  pub ring : IsRing s.mask cap
  pub steps : s.enqueue_pos ≤ n
  pub order : s.dequeue_pos ≤ s.enqueue_pos
  pub room : s.enqueue_pos ≤ s.dequeue_pos + cap
  pub cell : (q : ℕ) → IsCell cap s (slot s.mask q)
  pub thread : (t : ℕ) → IsAt cap s t (s.places t)

sym_test : (a b : ℕ) → (a == b) ≡ false → (b == a) ≡ false
sym_test a b h = ground (arith, h)

abbrev pub seq_of : System → ℕ → ℕ
seq_of s q = (s.cells (slot s.mask q)).sequence

module _ (cap : ℕ) (s : System) (ring : IsRing s.mask cap)
    (order : s.dequeue_pos ≤ s.enqueue_pos) where
  -- A reader's cell is not the next one to be claimed.
  room_after :
      (pos : ℕ)
      → seq_of s s.enqueue_pos ≡ s.enqueue_pos
      → seq_of s pos ≡ pos + 1
      → s.enqueue_pos ≢ pos + cap
  room_after pos h a e =
      let same : seq_of s s.enqueue_pos ≡ seq_of s pos =
        ap (seq_of s) e ∙ ap (λ i. (s.cells i).sequence) (ring.round pos) in
      absurd (omega (arith, h, a, same, e, ring.at_least))

  -- The claim of the position `e` by `emplace`, seen by another thread.
  pub IsAt-claim_enq :
      (t u v : ℕ) (p : Place)
      → t ≢ u
      → seq_of s s.enqueue_pos ≡ s.enqueue_pos
      → IsAt cap s u p
      → IsAt cap
          (record s {
            enqueue_pos = s.enqueue_pos + 1;
            pushed = set_at s.enqueue_pos v s.pushed;
            writer = set_at s.enqueue_pos t s.writer;
          })
          u
          p
  IsAt-claim_enq t u v Place.idle ne h a = tt
  IsAt-claim_enq t u v (Place.enq_load w) ne h a = tt
  IsAt-claim_enq t u v (Place.enq_look w pos) ne h a = omega arith
  IsAt-claim_enq t u v (Place.enq_claim w pos) ne h a =
      (omega (arith, a.0), λ e. absurd (omega (arith, a.0, e)))
  IsAt-claim_enq t u v (Place.enq_write w pos) ne h a = ground arith
  IsAt-claim_enq t u v (Place.enq_store pos) ne h a = ground arith
  IsAt-claim_enq t u v Place.deq_load ne h a = tt
  IsAt-claim_enq t u v (Place.deq_look pos) ne h a = a
  IsAt-claim_enq t u v (Place.deq_claim pos) ne h a =
      (a.0, λ e. ((a.1 e).0, omega (arith, (a.1 e).1)))
  IsAt-claim_enq t u v (Place.deq_read pos) ne h a = ground (arith, room_after pos h a.0.3)
  IsAt-claim_enq t u v (Place.deq_store pos item) ne h a = ground (arith, room_after pos h a.0.3)

  -- The claim of the position `d` by `pop`, seen by another thread.
  pub IsAt-claim_deq :
      (t u : ℕ) (p : Place)
      → t ≢ u
      → seq_of s s.dequeue_pos ≡ s.dequeue_pos + 1
      → IsAt cap s u p
      → IsAt cap
          (record s { dequeue_pos = s.dequeue_pos + 1; reader = set_at s.dequeue_pos t s.reader })
          u
          p
  IsAt-claim_deq t u Place.idle ne h a = tt
  IsAt-claim_deq t u (Place.enq_load w) ne h a = tt
  IsAt-claim_deq t u (Place.enq_look w pos) ne h a = a
  IsAt-claim_deq t u (Place.enq_claim w pos) ne h a = a
  IsAt-claim_deq t u (Place.enq_write w pos) ne h a =
      let other : pos ≢ s.dequeue_pos = λ e. absurd (omega (arith, h, a.0.3, ap (seq_of s) e, e)) in
      ((a.0.0, omega (arith, a.0.1, other), a.0.2, a.0.3), a.1)
  IsAt-claim_deq t u (Place.enq_store pos) ne h a =
      let other : pos ≢ s.dequeue_pos = λ e. absurd (omega (arith, h, a.0.3, ap (seq_of s) e, e)) in
      ((a.0.0, omega (arith, a.0.1, other), a.0.2, a.0.3), a.1)
  IsAt-claim_deq t u Place.deq_load ne h a = tt
  IsAt-claim_deq t u (Place.deq_look pos) ne h a = omega arith
  IsAt-claim_deq t u (Place.deq_claim pos) ne h a =
      (omega (arith, a.0), λ e. absurd (omega (arith, a.0, e)))
  IsAt-claim_deq t u (Place.deq_read pos) ne h a = ground arith
  IsAt-claim_deq t u (Place.deq_store pos item) ne h a = ground arith

  -- Two positions whose cells have different sequences have different cells.
  pub apart :
      (p q x y : ℕ)
      → seq_of s p ≡ x
      → seq_of s q ≡ y
      → x ≢ y
      → (slot s.mask p == slot s.mask q) ≡ false
  apart p q x y hx hy ne =
      ==_of_ne _ _ (λ same. ne (sym hx ∙ ap (λ i. (s.cells i).sequence) same ∙ hy))

  -- A position that is written to, and another one that is read from, have different cells.
  apart_next :
      (p q : ℕ) → seq_of s p ≡ p → seq_of s q ≡ q + 1 → (slot s.mask p == slot s.mask q) ≡ false
  apart_next p q hp hq =
      ==_of_ne _ _
        (λ same. ring.next q p (sym hp ∙ ap (λ i. (s.cells i).sequence) same ∙ hq) (sym same))

  writers_differ : (t u p q : ℕ) → t ≢ u → s.writer p ≡ t → s.writer q ≡ u → p ≢ q
  writers_differ t u p q ne hp hq e = ne (sym hp ∙ ap s.writer e ∙ hq)

  readers_differ : (t u p q : ℕ) → t ≢ u → s.reader p ≡ t → s.reader q ≡ u → p + 1 ≢ q + 1
  readers_differ t u p q ne hp hq e = ne (sym hp ∙ ap s.reader (omega (arith, e)) ∙ hq)

  -- What the writer of a cell changes in it, seen by another thread.
  pub IsAt-writer :
      (t u pos : ℕ) (c : Cell) (p : Place)
      → t ≢ u
      → Writes s t pos
      → IsAt cap s u p
      → IsAt cap (set_cell (slot s.mask pos) c s) u p
  IsAt-writer t u pos c Place.idle ne h a = tt
  IsAt-writer t u pos c (Place.enq_load w) ne h a = tt
  IsAt-writer t u pos c (Place.enq_look w q) ne h a = a
  IsAt-writer t u pos c (Place.enq_claim w q) ne h a =
      (a.0, λ e. rw (apart pos q pos q h.3 (a.1 e) (omega (arith, h.2, e))) (a.1 e))
  IsAt-writer t u pos c (Place.enq_write w q) ne h a =
      rw (apart pos q pos q h.3 a.0.3 (writers_differ t u pos q ne h.0 a.0.0)) a
  IsAt-writer t u pos c (Place.enq_store q) ne h a =
      rw (apart pos q pos q h.3 a.0.3 (writers_differ t u pos q ne h.0 a.0.0)) a
  IsAt-writer t u pos c Place.deq_load ne h a = tt
  IsAt-writer t u pos c (Place.deq_look q) ne h a = a
  IsAt-writer t u pos c (Place.deq_claim q) ne h a =
      (a.0, λ e. rw (apart_next pos q h.3 (a.1 e).0) (a.1 e))
  IsAt-writer t u pos c (Place.deq_read q) ne h a = rw (apart_next pos q h.3 a.0.3) a
  IsAt-writer t u pos c (Place.deq_store q item) ne h a = rw (apart_next pos q h.3 a.0.3) a

  -- What the reader of a cell changes in it, seen by another thread.
  pub IsAt-reader :
      (t u pos : ℕ) (c : Cell) (p : Place)
      → t ≢ u
      → Reads cap s t pos
      → IsAt cap s u p
      → IsAt cap (set_cell (slot s.mask pos) c s) u p
  IsAt-reader t u pos c Place.idle ne h a = tt
  IsAt-reader t u pos c (Place.enq_load w) ne h a = tt
  IsAt-reader t u pos c (Place.enq_look w q) ne h a = a
  IsAt-reader t u pos c (Place.enq_claim w q) ne h a =
      (a.0, λ e. rw (sym_test _ _ (apart_next q pos (a.1 e) h.3)) (a.1 e))
  IsAt-reader t u pos c (Place.enq_write w q) ne h a =
      rw (sym_test _ _ (apart_next q pos a.0.3 h.3)) a
  IsAt-reader t u pos c (Place.enq_store q) ne h a =
      rw (sym_test _ _ (apart_next q pos a.0.3 h.3)) a
  IsAt-reader t u pos c Place.deq_load ne h a = tt
  IsAt-reader t u pos c (Place.deq_look q) ne h a = a
  IsAt-reader t u pos c (Place.deq_claim q) ne h a =
      (a.0, λ e. rw (apart pos q (pos + 1) (q + 1) h.3 (a.1 e).0 (omega (arith, h.1, e))) (a.1 e))
  IsAt-reader t u pos c (Place.deq_read q) ne h a =
      rw (apart pos q (pos + 1) (q + 1) h.3 a.0.3 (readers_differ t u pos q ne h.0 a.0.0)) a
  IsAt-reader t u pos c (Place.deq_store q item) ne h a =
      rw (apart pos q (pos + 1) (q + 1) h.3 a.0.3 (readers_differ t u pos q ne h.0 a.0.0)) a
