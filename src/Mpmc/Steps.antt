-- ===== src/Mpmc/Steps.antt =====
-- mpmc_queue.hpp: each step keeps what holds between the steps.
use cpp_interview.Prelude.{
  ℕ, suc, ◌+◌, ◌%◌, ◌^◌, ◌≤◌, ◌<◌, ◌≡◌, ◌≢◌, refl, ap, sym, ◌∙◌, Bool, true, ◌&&◌, not, ◌==◌, arith,
  Bool-cases, inl, inr, subst, ℕ_discrete,
}
use cpp_interview.Mpmc.{
  Cell, Place, System, Action, slot, set_at, move, set_cell, diff, is_negative, judge, claim_enq,
  claim_deq, step_at, begin_at, step,
}
use cpp_interview.Mpmc.Valid.{
  IsCell, IsAt, IsValid, seq_of, IsAt-claim_enq, IsAt-claim_deq, IsAt-writer, IsAt-reader,
}

-- The thread that steps is at its new place, and the others at theirs.
thread-set_at :
    (cap : ℕ) (s s1 : System) (t : ℕ) (p : Place)
    → IsAt cap s1 t p
    → ((u : ℕ) → t ≢ u → IsAt cap s1 u (s.places u))
    → (u : ℕ) → IsAt cap s1 u (set_at t p s.places u)
thread-set_at cap s s1 t p a others u = elim (Bool-cases (t == u)) [
  | inl e ↦ let same : t ≡ u = ground (arith, e) in rw e (subst (λ j. IsAt cap s1 j p) same a)
  | inr e ↦ rw e (others u (ground (arith, e)))
]

module _ (cap n : ℕ) (s : System) (h : IsValid cap n s) where
  sequence-le : (i : ℕ) → IsCell cap s i → (s.cells i).sequence ≤ n + cap
  sequence-le i (p, same, inl (e, inl (ge, lt))) = omega (arith, e, lt, h.order, h.steps)
  sequence-le i (p, same, inl (e, inr (ge, lt))) = omega (arith, e, lt, h.steps)
  sequence-le i (p, same, inr (e, lt, c)) = omega (arith, e, lt, h.steps)

  IsCell-claim_enq :
      (t v i : ℕ)
      → IsCell cap s i
      → IsCell cap
          (record s {
            enqueue_pos = s.enqueue_pos + 1;
            pushed = set_at s.enqueue_pos v s.pushed;
            writer = set_at s.enqueue_pos t s.writer;
          })
          i
  IsCell-claim_enq t v i (p, same, inl (e, inl (ge, lt))) = elim (ℕ_discrete p s.enqueue_pos) [
    | yes eq ↦ (p, same, inl (e, inr (omega (arith, eq, h.order), omega (arith, eq))))
    | no ne ↦ (p, same, inl (e, inl (omega (arith, ge, ne), lt)))
  ]
  IsCell-claim_enq t v i (p, same, inl (e, inr (ge, lt))) =
      (p, same, inl (e, inr (ge, omega (arith, lt))))
  IsCell-claim_enq t v i (p, same, inr (e, lt, c)) =
      (p, same, inr (e, omega (arith, lt), ground (arith, c, lt)))

  IsCell-claim_deq :
      (t i : ℕ)
      → seq_of s s.dequeue_pos ≡ s.dequeue_pos + 1
      → IsCell cap s i
      → IsCell cap
          (record s { dequeue_pos = s.dequeue_pos + 1; reader = set_at s.dequeue_pos t s.reader })
          i
  IsCell-claim_deq t i full (p, same, inl (e, inl (ge, lt))) =
      (p, same, inl (e, inl (ge, omega (arith, lt))))
  IsCell-claim_deq t i full (p, same, inl (e, inr (ge, lt))) =
      let seqs : seq_of s p ≡ (s.cells i).sequence = ap (λ j. (s.cells j).sequence) same in
      let other : p ≢ s.dequeue_pos =
        λ eq. absurd (omega (arith, full, e, seqs, eq, ap (seq_of s) eq)) in
      (p, same, inl (e, inr (omega (arith, ge, other), lt)))
  IsCell-claim_deq t i full (p, same, inr (e, lt, c)) = (p, same, inr (e, lt, c))

  IsCell-set_cell :
      (i j : ℕ) (c : Cell)
      → IsCell cap (set_cell i c s) i
      → IsCell cap s j
      → IsCell cap (set_cell i c s) j
  IsCell-set_cell i j c new old = elim (Bool-cases (i == j)) [
    | inl e ↦
        let same : i ≡ j = ground (arith, e) in subst (λ q. IsCell cap (set_cell i c s) q) same new
    | inr e ↦ rw e old
  ]

  -- What the two exchanges have seen of the cell of their position.
  free_cell :
      IsCell cap s (slot s.mask s.enqueue_pos)
      → seq_of s s.enqueue_pos ≡ s.enqueue_pos
      → s.enqueue_pos < s.dequeue_pos + cap
  free_cell (p, same, inl (e, inl (ge, lt))) f = omega (arith, e, f, lt)
  free_cell (p, same, inl (e, inr (ge, lt))) f = absurd (omega (arith, e, f, lt))
  free_cell (p, same, inr (e, lt, c)) f =
      absurd (h.ring.next p s.enqueue_pos (omega (arith, e, f)) same)

  full_cell :
      (pos : ℕ)
      → IsCell cap s (slot s.mask pos)
      → seq_of s pos ≡ pos + 1
      → (pos < s.enqueue_pos) × ((s.cells (slot s.mask pos)).content ≡ s.pushed pos)
  full_cell pos (p, same, inl (e, room)) f =
      absurd (h.ring.next pos p (omega (arith, e, f)) (sym same))
  full_cell pos (p, same, inr (e, lt, c)) f =
      let eq : p ≡ pos = omega (arith, e, f) in (omega (arith, eq, lt), c ∙ ap s.pushed eq)

  later : IsValid cap (suc n) s
  later = record {
    ring = h.ring;
    steps = omega (arith, h.steps);
    order = h.order;
    room = h.room;
    cell = h.cell;
    thread = h.thread;
  }

  IsValid-move : (t : ℕ) (p : Place) → IsAt cap s t p → IsValid cap (suc n) (move t p s)
  IsValid-move t p a = record {
    ring = h.ring;
    steps = omega (arith, h.steps);
    order = h.order;
    room = h.room;
    cell = h.cell;
    thread = thread-set_at cap s s t p a (λ u ne. h.thread u);
  }

  same_cell : (i : ℕ) → (i == i) ≡ true
  same_cell i = ground arith

  claimed_enq-IsValid :
      (t v : ℕ)
      → seq_of s s.enqueue_pos ≡ s.enqueue_pos
      → IsValid cap (suc n) (record s {
        enqueue_pos = s.enqueue_pos + 1;
        places = set_at t (Place.enq_write v s.enqueue_pos) s.places;
        pushed = set_at s.enqueue_pos v s.pushed;
        writer = set_at s.enqueue_pos t s.writer;
      })
  claimed_enq-IsValid t v free =
      let e = s.enqueue_pos in
      let s1 = record s {
        enqueue_pos = e + 1;
        pushed = set_at e v s.pushed;
        writer = set_at e t s.writer;
      } in
      let own : IsAt cap s1 t (Place.enq_write v e) =
        rw (same_cell e) ((refl, h.order, omega arith, free), refl) in
      record {
        ring = h.ring;
        steps = omega (arith, h.steps);
        order = omega (arith, h.order);
        room = omega (arith, free_cell (h.cell e) free);
        cell = λ q. IsCell-claim_enq t v (slot s.mask q) (h.cell q);
        thread =
            thread-set_at cap s s1 t (Place.enq_write v e) own
              (λ u ne. IsAt-claim_enq cap s h.ring h.order t u v (s.places u) ne free (h.thread u));
      }

  claimed_deq-IsValid :
      (t : ℕ)
      → seq_of s s.dequeue_pos ≡ s.dequeue_pos + 1
      → s.dequeue_pos < s.enqueue_pos
      → IsValid cap (suc n) (record s {
        dequeue_pos = s.dequeue_pos + 1;
        places = set_at t (Place.deq_read s.dequeue_pos) s.places;
        reader = set_at s.dequeue_pos t s.reader;
      })
  claimed_deq-IsValid t full lt =
      let d = s.dequeue_pos in
      let s1 = record s { dequeue_pos = d + 1; reader = set_at d t s.reader } in
      let own : IsAt cap s1 t (Place.deq_read d) =
        rw (same_cell d) ((refl, omega arith, h.room, full), (full_cell d (h.cell d) full).1) in
      record {
        ring = h.ring;
        steps = omega (arith, h.steps);
        order = omega (arith, lt);
        room = omega (arith, h.room);
        cell = λ q. IsCell-claim_deq t (slot s.mask q) full (h.cell q);
        thread =
            thread-set_at cap s s1 t (Place.deq_read d) own
              (λ u ne. IsAt-claim_deq cap s h.ring h.order t u (s.places u) ne full (h.thread u));
      }

  -- An access to the cell of `pos` by the thread that has claimed it.
  set_cell-IsValid :
      (t pos : ℕ) (c : Cell) (p : Place)
      → IsCell cap (set_cell (slot s.mask pos) c s) (slot s.mask pos)
      → IsAt cap (set_cell (slot s.mask pos) c s) t p
      → ((u : ℕ) → t ≢ u → IsAt cap (set_cell (slot s.mask pos) c s) u (s.places u))
      → IsValid cap (suc n) (move t p (set_cell (slot s.mask pos) c s))
  set_cell-IsValid t pos c p new own others = record {
    ring = h.ring;
    steps = omega (arith, h.steps);
    order = h.order;
    room = h.room;
    cell = λ q. IsCell-set_cell (slot s.mask pos) (slot s.mask q) c new (h.cell q);
    thread = thread-set_at cap s (set_cell (slot s.mask pos) c s) t p own others;
  }

  -- The first exchange takes its position, or the thread looks again.
  claim_enq-IsValid :
      (t v pos : ℕ) (fails : Bool)
      → n + cap < 2 ^ 62
      → IsAt cap s t (Place.enq_claim v pos)
      → IsValid cap (suc n) (claim_enq t fails v pos s)
  claim_enq-IsValid t v pos fails small a = elim (Bool-cases (not fails && s.enqueue_pos == pos)) [
    | inr e ↦ rw e (IsValid-move t (Place.enq_look v s.enqueue_pos) (omega arith))
    | inl e ↦
        let eq : pos ≡ s.enqueue_pos = ground (arith, e) in
        let up : (pos + 1) % 2 ^ 64 ≡ s.enqueue_pos + 1 = omega (arith, eq, h.steps, small) in
        let free : seq_of s s.enqueue_pos ≡ s.enqueue_pos =
          subst (λ p. seq_of s p ≡ p) eq (a.1 eq) in
        rw (e, up, eq) (claimed_enq-IsValid t v free)
  ]

  seen_enq :
      (seq pos : ℕ)
      → seq ≤ n + cap
      → pos ≤ n
      → n + cap < 2 ^ 62
      → (diff seq pos == 0) ≡ true
      → seq ≡ pos
  seen_enq seq pos a b small e = ground (arith, e)

  seen_deq :
      (seq pos : ℕ)
      → seq ≤ n + cap
      → pos ≤ n
      → n + cap < 2 ^ 62
      → (diff seq ((pos + 1) % 2 ^ 64) == 0) ≡ true
      → seq ≡ pos + 1
  seen_deq seq pos a b small e = ground (arith, e)

  claim_deq-IsValid :
      (t pos : ℕ) (fails : Bool)
      → n + cap < 2 ^ 62
      → IsAt cap s t (Place.deq_claim pos)
      → IsValid cap (suc n) (claim_deq t fails pos s)
  claim_deq-IsValid t pos fails small a = elim (Bool-cases (not fails && s.dequeue_pos == pos)) [
    | inr e ↦ rw e (IsValid-move t (Place.deq_look s.dequeue_pos) (omega arith))
    | inl e ↦
        let eq : pos ≡ s.dequeue_pos = ground (arith, e) in
        let up : (pos + 1) % 2 ^ 64 ≡ s.dequeue_pos + 1 =
          omega (arith, eq, h.steps, h.order, small) in
        let (full, lt) = subst (λ p. (seq_of s p ≡ p + 1) × (p < s.enqueue_pos)) eq (a.1 eq) in
        rw (e, up, eq) (claimed_deq-IsValid t full lt)
  ]

  judge-IsAt :
      (t d : ℕ) (here back ahead : Place)
      → ((d == 0) ≡ true → IsAt cap s t here)
      → IsAt cap s t back
      → IsAt cap s t ahead
      → IsAt cap s t (judge d here back ahead)
  judge-IsAt t d here back ahead a b c = elim (Bool-cases (d == 0)) [
    | inl e ↦ rw e (a e)
    | inr e ↦ rw e (elim (Bool-cases (is_negative d)) [ inl f ↦ rw f b | inr f ↦ rw f c ])
  ]

  step_at-IsValid :
      (t : ℕ) (fails : Bool) (p : Place)
      → n + cap < 2 ^ 62
      → IsAt cap s t p
      → IsValid cap (suc n) (step_at t fails p s)
  step_at-IsValid t fails Place.idle small a = later
  step_at-IsValid t fails (Place.enq_load v) small a =
      IsValid-move t (Place.enq_look v s.enqueue_pos) (omega arith)
  step_at-IsValid t fails (Place.enq_look v pos) small a =
      let seq = seq_of s pos in
      IsValid-move t _ (
        judge-IsAt t (diff seq pos) (Place.enq_claim v pos) Place.idle (Place.enq_load v)
          (λ e. (
            a,
            λ last.
                seen_enq seq pos (sequence-le (slot s.mask pos) (h.cell pos))
                  (omega (arith, a, h.steps)) small e,
          ))
          tt tt)
  step_at-IsValid t fails (Place.enq_claim v pos) small a = claim_enq-IsValid t v pos fails small a
  step_at-IsValid t fails (Place.enq_write v pos) small a =
      let i = slot s.mask pos in
      let c = record (s.cells i) { content = v } in
      let new : IsCell cap (set_cell i c s) i =
        rw (same_cell i) (pos, refl, inl (a.0.3, inr (a.0.1, a.0.2))) in
      let own : IsAt cap (set_cell i c s) t (Place.enq_store pos) =
        rw (same_cell i) (a.0, sym a.1) in
      set_cell-IsValid t pos c (Place.enq_store pos) new own
        (λ u ne. IsAt-writer cap s h.ring h.order t u pos c (s.places u) ne a.0 (h.thread u))
  step_at-IsValid t fails (Place.enq_store pos) small a =
      let i = slot s.mask pos in
      let c = record (s.cells i) { sequence = (pos + 1) % 2 ^ 64 } in
      let up : (pos + 1) % 2 ^ 64 ≡ pos + 1 = omega (arith, a.0.2, h.steps, small) in
      let new : IsCell cap (set_cell i c s) i =
        rw (same_cell i) (pos, refl, inr (up, a.0.2, a.1)) in
      set_cell-IsValid t pos c Place.idle new tt
        (λ u ne. IsAt-writer cap s h.ring h.order t u pos c (s.places u) ne a.0 (h.thread u))
  step_at-IsValid t fails Place.deq_load small a =
      IsValid-move t (Place.deq_look s.dequeue_pos) (omega arith)
  step_at-IsValid t fails (Place.deq_look pos) small a =
      let seq = seq_of s pos in
      IsValid-move t _ (
        judge-IsAt t (diff seq ((pos + 1) % 2 ^ 64)) (Place.deq_claim pos) Place.idle Place.deq_load
          (λ e.
            let full : seq ≡ pos + 1 =
              seen_deq seq pos (sequence-le (slot s.mask pos) (h.cell pos))
                (omega (arith, a, h.order, h.steps)) small e in
            (a, λ last. (full, (full_cell pos (h.cell pos) full).0)))
          tt tt)
  step_at-IsValid t fails (Place.deq_claim pos) small a = claim_deq-IsValid t pos fails small a
  step_at-IsValid t fails (Place.deq_read pos) small a =
      IsValid-move t (Place.deq_store pos (s.cells (slot s.mask pos)).content) a
  step_at-IsValid t fails (Place.deq_store pos item) small a =
      let i = slot s.mask pos in
      let c = record (s.cells i) { sequence = (pos + s.mask + 1) % 2 ^ 64 } in
      let round : (pos + s.mask + 1) % 2 ^ 64 ≡ pos + cap =
        omega (arith, a.0.1, h.order, h.steps, small, h.ring.size) in
      let new : IsCell cap (set_cell i c s) i =
        rw (same_cell i)
          (pos + cap, h.ring.round pos, inl (round, inl (a.0.2, omega (arith, a.0.1)))) in
      set_cell-IsValid t pos c Place.idle new tt
        (λ u ne. IsAt-reader cap s h.ring h.order t u pos c (s.places u) ne a.0 (h.thread u))

  begin_at-IsValid :
      (t : ℕ) (p old : Place) → IsAt cap s t p → IsValid cap (suc n) (begin_at t p old s)
  begin_at-IsValid t p Place.idle a = IsValid-move t p a
  begin_at-IsValid t p (Place.enq_load v) a = later
  begin_at-IsValid t p (Place.enq_look v pos) a = later
  begin_at-IsValid t p (Place.enq_claim v pos) a = later
  begin_at-IsValid t p (Place.enq_write v pos) a = later
  begin_at-IsValid t p (Place.enq_store pos) a = later
  begin_at-IsValid t p Place.deq_load a = later
  begin_at-IsValid t p (Place.deq_look pos) a = later
  begin_at-IsValid t p (Place.deq_claim pos) a = later
  begin_at-IsValid t p (Place.deq_read pos) a = later
  begin_at-IsValid t p (Place.deq_store pos item) a = later

  pub step-IsValid : (a : Action) → n + cap < 2 ^ 62 → IsValid cap (suc n) (step a s)
  step-IsValid (Action.pushes t v) small = begin_at-IsValid t (Place.enq_load v) (s.places t) tt
  step-IsValid (Action.pops t) small = begin_at-IsValid t Place.deq_load (s.places t) tt
  step-IsValid (Action.goes_on t fails) small =
      step_at-IsValid t fails (s.places t) small (h.thread t)
