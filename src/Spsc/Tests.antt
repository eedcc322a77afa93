-- ===== src/Spsc/Tests.antt =====
-- The theorems on the queue at a queue of two slots.
use cpp_interview.Prelude.{ℕ, ◌^◌, ◌≡◌, List, [], ◌∷◌, arith}
use cpp_interview.Spsc.{SpscQueue, new_queue, push}
use cpp_interview.Spsc.Fifo.{Represents, push-Represents, new_queue-Represents}
use cpp_interview.Spsc.Runs.{Call, run, run_spec, run-new_queue}

-- The third push is refused, and the fourth reuses the first slot.
abbrev calls : List (Call ℕ)
calls =
    Call.pushes 1
    ∷ Call.pushes 2
    ∷ Call.pushes 3
    ∷ Call.pops
    ∷ Call.pushes 4
    ∷ Call.pops
    ∷ Call.pops
    ∷ Call.pops
    ∷ []

run-new_queue_example : run (2 ^ 1) calls new_queue ≡ run_spec (2 ^ 1) calls []
run-new_queue_example = run-new_queue 1 calls (omega arith)

abbrev one_item : SpscQueue ℕ
one_item = (push (2 ^ 1) new_queue 7).1

one_item-Represents : Represents 1 one_item (7 ∷ [])
one_item-Represents = (push-Represents 1 new_queue [] 7 (new_queue-Represents 1 (omega arith))).1
