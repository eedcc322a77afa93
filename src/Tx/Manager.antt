-- ===== src/Tx/Manager.antt =====
-- projects/mini_transactional_engine/transaction_manager.hpp. The map's transactions and the
-- callers' are the same objects; the manager reads only their state, and a state changes only in
-- the call that also erases the entry. Transaction ids do not wrap.
pub mod Snapshot
use cpp_interview.Prelude.{ℕ, ◌+◌, Bool, true, false, List, [], ◌∷◌, ltb, if◌then◌else◌}
use cpp_interview.Prelude.Dict.{Dict, assign, erase}
use cpp_interview.Prelude.Sorted.{sort}
use cpp_interview.Tx.Mvcc.{Bytes, ReadView}

pub data TxnState : Type 0 where
  active committed aborted : TxnState

pub record Transaction : Type 0 where
  pub txn_id : ℕ
  pub state : TxnState
  pub read_view : ReadView
  pub undo_entries : List (ℕ × Bytes)

pub record TransactionManager : Type 0 where
  pub next_txn_id : ℕ
  pub active_txns : Dict Transaction

abbrev pub new_manager : TransactionManager
new_manager = record { next_txn_id = 1; active_txns = [] }

abbrev is_active : TxnState → Bool
is_active TxnState.active = true
is_active _ = false

-- The loop over `active_txns_` in `begin_transaction`: the list of active ids, and their least.
scan_active : Dict Transaction → ℕ → List ℕ × ℕ
scan_active [] min_active = ([], min_active)
scan_active ((id, t) ∷ rest) min_active =
    let (ids, least) =
      scan_active rest
        (if is_active t.state then if ltb id min_active then id else min_active else min_active) in
    (if is_active t.state then id ∷ ids else ids, least)

pub begin_transaction : TransactionManager → Transaction × TransactionManager
unfolding scan_active
begin_transaction m =
    let tid = m.next_txn_id in
    let (active_list, min_active) = scan_active m.active_txns tid in
    let view : ReadView = record {
      creator_txn_id = tid;
      up_limit_id = min_active;
      low_limit_id = tid;
      active_ids = sort active_list;
    } in
    let txn : Transaction = record {
      txn_id = tid;
      state = TxnState.active;
      read_view = view;
      undo_entries = [];
    } in
    (txn, record { next_txn_id = tid + 1; active_txns = assign tid txn m.active_txns })

unfoldable pub commit : TransactionManager → Transaction → Transaction × TransactionManager
commit m txn = (
  record txn { state = TxnState.committed },
  record m { active_txns = erase txn.txn_id m.active_txns },
)

unfoldable pub abort : TransactionManager → Transaction → Transaction × TransactionManager
abort m txn = (
  record txn { state = TxnState.aborted },
  record m { active_txns = erase txn.txn_id m.active_txns },
)

unfoldable pub set_next_txn_id : TransactionManager → ℕ → TransactionManager
set_next_txn_id m next_id = record m { next_txn_id = next_id }
