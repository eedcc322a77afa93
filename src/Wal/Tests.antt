-- ===== src/Wal/Tests.antt =====
-- Runs of wal_storage_engine.hpp, and its theorems at concrete inputs.
use cpp_interview.Prelude.{◌≡◌, refl, true, false, some, List, [], ◌∷◌}
use cpp_interview.Wal.{
  WalBlock, put_op, whole, torn, new_engine, put, get, recover, accepts, replay,
}
use cpp_interview.Wal.Recovery.{
  Change, puts, dels, run, after_changes, interrupted, new_engine-IsSynced, recover-run,
  replay-corrupt, put-torn,
}

abbrev changes : List Change
changes = puts 1 10 ∷ puts 2 20 ∷ dels 1 ∷ []

recover-run_example :
    get (recover true (interrupted (run new_engine changes) (some (puts 2 21)))).1 2
    ≡ after_changes changes (get new_engine) 2
recover-run_example = recover-run new_engine changes (some (puts 2 21)) 2 new_engine-IsSynced

after_changes_value : after_changes changes (get new_engine) 2 ≡ some 20
unfolding after_changes
after_changes_value = refl

abbrev corrupt : WalBlock
corrupt = record {
  magic = 0;
  checksum = 0;
  seq_num = 1;
  timestamp_ns = 0;
  op = put_op;
  padding = 0;
  key = 1;
  value = 10;
  reserved = [];
}

replay-corrupt_example : replay (whole corrupt ∷ torn ∷ []) 0 [] ≡ replay [] 0 []
unfolding accepts
replay-corrupt_example = replay-corrupt [] (torn ∷ []) corrupt tt refl

put-torn_example :
    let (failed, e1) = put false new_engine 1 10 in
    let (done, e2) = put true e1 2 20 in
    (failed ≡ false)
    × (done ≡ true)
    × (get e2 2 ≡ some 20)
    × (get (recover true e2).1 2 ≡ get new_engine 2)
put-torn_example = put-torn new_engine 1 10 2 20 new_engine-IsSynced
