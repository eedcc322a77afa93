-- ===== src/Tx/Tests.antt =====
-- Runs of 09-database-transactions-and-recovery, and its theorems at concrete inputs.
use mathlib.Core.Option
use cpp_interview.Prelude.{ℕ, ◌≡◌, refl, ◌↔◌, ◌⊎◌, ◌<◌, true, none, some, List, [], ◌∷◌, arith}
use cpp_interview.Prelude.Dict.{find}
use cpp_interview.Tx.Mvcc.{is_visible, TupleSlot}
use cpp_interview.Tx.Manager
use cpp_interview.Tx.Manager.{Transaction, TransactionManager, new_manager}
use cpp_interview.Tx.Manager.Snapshot.{IsValid, begin_transaction-is_visible, commit-IsValid}
use cpp_interview.Tx.Engine.{Engine, get, put, commit, abort, slot_at, recover_from_wal}
use cpp_interview.Tx.Engine.Reads.{get-put_absent}
use cpp_interview.Tx.Engine.Abort.{put_all, abort-put_all, abort-put_interleaved}
use cpp_interview.Tx.Engine.Recovery.{
  is_committed, last_write, recovered_slot, find-recover_from_wal,
}

-- Transactions 1 and 2 are active, 3 is next.
abbrev txn_of : ℕ → Transaction
txn_of id = record {
  txn_id = id;
  state = Manager.TxnState.active;
  read_view = record {
    creator_txn_id = id;
    up_limit_id = 1;
    low_limit_id = id;
    active_ids = 1 ∷ [];
  };
  undo_entries = [];
}

abbrev two_active : TransactionManager
two_active = record { next_txn_id = 3; active_txns = (1, txn_of 1) ∷ (2, txn_of 2) ∷ [] }

two_active-IsValid : IsValid two_active
two_active-IsValid = (omega arith, refl, (omega arith, refl, tt))

abbrev slot_5 : TupleSlot
slot_5 = record { key = 5; val = 7 ∷ []; xmin = 0; roll_ptr = [] }

abbrev engine_5 : Engine
engine_5 = record { tx_manager = two_active; table = (5, slot_5) ∷ []; wal = [] }

begin_transaction-is_visible_example :
    (is_visible (Manager.begin_transaction two_active).0.read_view 2 ≡ true)
    ↔ (◌≡◌ {A = ℕ} 2 3 ⊎ ((2 < 3) × (find 2 two_active.active_txns ≡ none)))
begin_transaction-is_visible_example = begin_transaction-is_visible two_active 2 two_active-IsValid

commit-IsValid_example : IsValid (Manager.commit two_active (txn_of 1)).1
commit-IsValid_example = commit-IsValid two_active (txn_of 1) two_active-IsValid

abbrev writes : List (ℕ × List ℕ)
writes = (5, 1 ∷ []) ∷ (6, 2 ∷ []) ∷ (5, 3 ∷ []) ∷ []

abort-put_all_example :
    let (txn, e) = put_all engine_5 (txn_of 2) writes in find 5 (abort e txn).1.table ≡ some slot_5
unfolding find
abort-put_all_example = abort-put_all engine_5 (txn_of 2) writes 5 slot_5 refl refl refl

abort-put_interleaved_example :
    let (first, e1) = put engine_5 (txn_of 1) 5 (1 ∷ []) in
    let (second, e2) = put e1 (txn_of 2) 5 (2 ∷ []) in
    let (_, e3) = commit e2 second in
    let slot = slot_at 5 (abort e3 first).1.table in (slot.val ≡ 1 ∷ []) × (slot.xmin ≡ 1)
abort-put_interleaved_example =
    abort-put_interleaved engine_5 (txn_of 1) (txn_of 2) 5 (1 ∷ []) (2 ∷ []) refl

abbrev crashed : Engine
crashed = (commit (put engine_5 (txn_of 2) 5 (8 ∷ [])).1 (txn_of 2)).1

find-recover_from_wal_example :
    find 5 (recover_from_wal true crashed).table
    ≡ Option.map (recovered_slot 5) (last_write (is_committed crashed.wal) 5 crashed.wal)
find-recover_from_wal_example = find-recover_from_wal crashed 5

get-put_absent_example :
    (get engine_5 (txn_of 1) 6 ≡ none)
    × (get (put engine_5 (txn_of 2) 6 (8 ∷ [])).1 (txn_of 1) 6 ≡ some [])
unfolding find is_visible
get-put_absent_example = get-put_absent engine_5 (txn_of 2) (txn_of 1) 6 (8 ∷ []) refl refl refl
