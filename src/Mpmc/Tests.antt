-- ===== src/Mpmc/Tests.antt =====
-- Runs of mpmc_queue.hpp with four threads on a ring of two cells.
use cpp_interview.Prelude.{
  ℕ, suc, zero, ◌+◌, ◌^◌, ◌≤◌, ◌<◌, ◌≡◌, ◌≢◌, ◌⊎◌, refl, false, List, [], ◌∷◌, arith,
}
use cpp_interview.Mpmc.{Place, Action, slot, run, round_up_pow2}
use cpp_interview.Mpmc.Fifo.{popped-pushed}

abbrev goes : ℕ → ℕ → List Action → List Action
goes zero t actions = actions
goes (suc n) t actions = Action.goes_on t false ∷ goes n t actions

-- Thread 1 pushes 7 and thread 3 pushes 8, both claiming before either writes; then threads 2 and 4 pop.
abbrev schedule : List Action
schedule = goes 4 4 (
    Action.pops 4
    ∷ goes 4 2 (
        Action.pops 2
        ∷ goes 2 3 (goes 2 1 (goes 3 3 (goes 3 1 (Action.pushes 3 8 ∷ Action.pushes 1 7 ∷ []))))))

round_up_run : round_up_pow2 1000 ≡ 1024
unfolding round_up_pow2
round_up_run = refl

run_first : (run (2 ^ 1) schedule).places 2 ≡ Place.deq_store 0 7
unfolding slot
run_first = refl

run_second : (run (2 ^ 1) schedule).places 4 ≡ Place.deq_store 1 8
unfolding slot
run_second = refl

popped-pushed_example :
    let s = run (2 ^ 1) schedule in
    (7 ≡ s.pushed 0)
    × (8 ≡ s.pushed 1)
    × (0 < s.dequeue_pos)
    × (1 < s.dequeue_pos)
    × ((◌≡◌ {A = ℕ} 2 4) ⊎ (◌≢◌ {A = ℕ} 0 1))
    × (s.dequeue_pos ≤ s.enqueue_pos)
    × (s.enqueue_pos ≤ s.dequeue_pos + 2 ^ 1)
popped-pushed_example =
    popped-pushed 1 schedule 2 4 0 1 7 8 (omega arith) (omega arith) run_first run_second
