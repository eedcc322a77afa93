-- ===== src/Pool/Manager/Start.antt =====
-- buffer_pool_manager.hpp: the pool as its constructor makes it.
use cpp_interview.Prelude.{ℕ, zero, suc, ◌+◌, ◌≤◌, ◌≡◌, refl, inl, inr, true, arith, Bool-cases}
use cpp_interview.Prelude.Dict.{find}
use cpp_interview.Prelude.Sorted.{contains}
use cpp_interview.Pool.Disk.{DiskManager}
use cpp_interview.Pool.Replacer.Victim.{new_replacer-IsValid}
use cpp_interview.Pool.Manager.{new_pool, count_up}
use cpp_interview.Pool.Manager.Invariant.{IsValid, AreDistinct}

contains-count_up : (i n f : ℕ) → contains f (count_up i n) ≡ true → i ≤ f
unfolding count_up contains
contains-count_up i zero f h = ground (arith, h)
contains-count_up i (suc n) f h = ground (arith, h, contains-count_up (i + 1) n f)

count_up-AreDistinct : (i n : ℕ) → AreDistinct (count_up i n)
unfolding count_up
count_up-AreDistinct i zero = tt
count_up-AreDistinct i (suc n) = (
  elim (Bool-cases (contains i (count_up (i + 1) n))) [
    | inl here ↦ ground (arith, contains-count_up (i + 1) n i here)
    | inr gone ↦ gone
  ],
  count_up-AreDistinct (i + 1) n,
)

-- The pool that the constructor makes, over any disk and any bytes in the frames, is in agreement.
pub new_pool-IsValid :
    {P : Type 0}
    → (pool_size k : ℕ) (disk : DiskManager P) (pages : ℕ → P)
    → IsValid (new_pool pool_size k disk pages)
unfolding new_pool find contains
new_pool-IsValid pool_size k disk pages = record {
  mapped = λ q f h. ground (arith, h);
  owned = λ f h. ground (arith, h);
  unpinned = λ f m. refl;
  idle = λ f h. refl;
  resting = λ f m. ground (arith, m);
  distinct = count_up-AreDistinct 0 pool_size;
  replacing = new_replacer-IsValid k;
}
