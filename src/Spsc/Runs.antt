-- ===== src/Spsc/Runs.antt =====
-- spsc_queue.hpp: any sequence of calls, against a list of bounded length.
use cpp_interview.Prelude.{ℕ, ◌<◌, ◌^◌, ◌≡◌, refl, ap, ◌∙◌, Bool, Option, List, [], ◌∷◌}
use cpp_interview.Spsc.{SpscQueue, new_queue, push, pop}
use cpp_interview.Spsc.Fifo.{
  Represents, push_spec, pop_spec, push-Represents, pop-Represents, new_queue-Represents,
}

-- The calls of the two sides, in the order in which they take effect, and their answers.
pub data Call (A : Type 0) : Type 0 where
  pushes : A → Call A
  pops : Call A

pub data Answer (A : Type 0) : Type 0 where
  pushed : Bool → Answer A
  popped : Option A → Answer A

module _ {A : Type 0} where
  unfoldable pub run : ℕ → List (Call A) → SpscQueue A → List (Answer A)
  run capacity [] q = []
  run capacity (pushes x ∷ calls) q =
      pushed (push capacity q x).0 ∷ run capacity calls (push capacity q x).1
  run capacity (pops ∷ calls) q = popped (pop capacity q).0 ∷ run capacity calls (pop capacity q).1

  unfoldable pub run_spec : ℕ → List (Call A) → List A → List (Answer A)
  run_spec capacity [] xs = []
  run_spec capacity (pushes x ∷ calls) xs =
      pushed (push_spec capacity x xs).0 ∷ run_spec capacity calls (push_spec capacity x xs).1
  run_spec capacity (pops ∷ calls) xs =
      popped (pop_spec xs).0 ∷ run_spec capacity calls (pop_spec xs).1

  run-Represents :
      (k : ℕ) (calls : List (Call A)) (q : SpscQueue A) (xs : List A)
      → Represents k q xs
      → run (2 ^ k) calls q ≡ run_spec (2 ^ k) calls xs
  unfolding run run_spec
  run-Represents k [] q xs r = refl
  run-Represents k (pushes x ∷ calls) q xs r =
      let (same, r1) = push-Represents k q xs x r in
      ap (λ b. pushed b ∷ run (2 ^ k) calls (push (2 ^ k) q x).1) same
      ∙ ap (λ rest. pushed (push_spec (2 ^ k) x xs).0 ∷ rest)
          (run-Represents k calls (push (2 ^ k) q x).1 (push_spec (2 ^ k) x xs).1 r1)
  run-Represents k (pops ∷ calls) q xs r =
      let (same, r1) = pop-Represents k q xs r in
      ap (λ b. popped b ∷ run (2 ^ k) calls (pop (2 ^ k) q).1) same
      ∙ ap (λ rest. popped (pop_spec xs).0 ∷ rest)
          (run-Represents k calls (pop (2 ^ k) q).1 (pop_spec xs).1 r1)

  -- Whatever the calls of the two sides and their order, and however often the 64-bit counters wrap
  -- around, a new queue of capacity `2 ^ k`, below 2 ^ 64, answers them as a list of at most `2 ^ k`
  -- items does that is extended at the end and taken from at the front.
  pub run-new_queue :
      (k : ℕ) (calls : List (Call A))
      → k < 64
      → run (2 ^ k) calls new_queue ≡ run_spec (2 ^ k) calls []
  run-new_queue k calls small = run-Represents k calls new_queue [] (new_queue-Represents k small)
