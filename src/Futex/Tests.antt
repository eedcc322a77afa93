-- ===== src/Futex/Tests.antt =====
-- The theorems on the mutex at a run of two callers.
use cpp_interview.Prelude.{ℕ, ◌≡◌, ◌≢◌, refl, true, ◌||◌}
use cpp_interview.Futex.{Place, System, Step, Reach, new_mutex, lock_start, exchange, wait}
use cpp_interview.Futex.Exclusion.{is_owner, is_active, mutual_exclusion}
use cpp_interview.Futex.Waiting.{waiting_heard}

abbrev held : System
held = lock_start 1 new_mutex

held-Reach : Reach held
held-Reach = Reach.next Reach.start (Step.locks 1 refl)

mutual_exclusion_example : held.places 2 ≢ Place.holding
mutual_exclusion_example = mutual_exclusion 1 2 held-Reach refl (λ e. cc)

-- The second caller finds the mutex taken, sets the word to 2 and waits.
abbrev contended : System
contended = wait 2 (exchange 2 (lock_start 2 held))

contended-Reach : Reach contended
contended-Reach =
    Reach.next (Reach.next (Reach.next held-Reach (Step.locks 2 refl)) (Step.exchanges 2 refl))
      (Step.waits 2 refl)

waiting_heard_example :
    (v : ℕ) × ((is_owner (contended.places v) || is_active (contended.places v)) ≡ true)
waiting_heard_example = waiting_heard 2 contended-Reach refl
