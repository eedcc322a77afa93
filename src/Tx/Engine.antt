-- ===== src/Tx/Engine.antt =====
-- projects/mini_transactional_engine/transactional_engine.hpp. The log is a list of records, each a
-- header with its payload: a write of the log is complete (a torn tail is not modelled) and a
-- payload is below 4 GiB, so that `val_size` is its length. A shared transaction is an argument and
-- a result.
pub mod Reads
pub mod Abort
pub mod Recovery
use cpp_interview.Prelude.{
  ℕ, ◌+◌, ◌^◌, ◌%◌, Bool, true, false, Option, none, some, List, [], ◌∷◌, ◌++◌, ltb, length, max,
  if◌then◌else◌,
}
use cpp_interview.Prelude.Dict.{Dict, find, assign}
use cpp_interview.Prelude.Sorted.{contains}
use cpp_interview.Tx.Mvcc.{Bytes, UndoRecord, TupleSlot, read_tuple_snapshot}
use cpp_interview.Tx.Manager
use cpp_interview.Tx.Manager.{Transaction, TransactionManager}

pub data WalRecordType : Type 0 where
  put_record commit_record abort_record : WalRecordType

pub record WalHeader : Type 0 where
  pub type : WalRecordType
  pub txn_id : ℕ
  pub key : ℕ
  pub val_size : ℕ

pub record WalRecord : Type 0 where
  pub header : WalHeader
  pub open header use *
  pub payload : Bytes

pub record TransactionalEngine : Type 0 where
  pub tx_manager : TransactionManager
  pub table : Dict TupleSlot
  pub wal : List WalRecord

abbrev pub Engine : Type 0
Engine = TransactionalEngine

unfoldable pub begin_transaction : Engine → Transaction × Engine
begin_transaction e =
    let (txn, m) = Manager.begin_transaction e.tx_manager in (txn, record e { tx_manager = m })

unfoldable pub get : Engine → Transaction → ℕ → Option Bytes
get e txn key = elim (find key e.table) [
  | none ↦ none
  | some slot ↦ read_tuple_snapshot slot txn.read_view
]

abbrev pub empty_slot : TupleSlot
empty_slot = record { key = 0; val = []; xmin = 0; roll_ptr = [] }

-- `table_[key]`: a missing key gets a default slot.
abbrev pub slot_at : ℕ → Dict TupleSlot → TupleSlot
slot_at key table = elim (find key table) [ none ↦ empty_slot | some slot ↦ slot ]

-- The new version of a slot, with an undo record of the old one.
abbrev pub push_version : ℕ → ℕ → Bytes → TupleSlot → TupleSlot
push_version id key value slot =
    let undo : UndoRecord = record { xmin = slot.xmin; old_val = slot.val } in
    record { key = key; val = value; xmin = id; roll_ptr = undo ∷ slot.roll_ptr }

-- The record that `put` logs.
abbrev pub put_wal : Transaction → ℕ → Bytes → WalRecord
put_wal txn key value =
    let wal : WalHeader = record {
      type = WalRecordType.put_record;
      txn_id = txn.txn_id;
      key = key;
      val_size = length value % 2 ^ 32;
    } in
    record { header = wal; payload = value }

unfoldable pub put : Engine → Transaction → ℕ → Bytes → Transaction × Engine
put e txn key value =
    let slot = slot_at key e.table in
    (
      record txn { undo_entries = txn.undo_entries ++ ((key, slot.val) ∷ []) },
      record e {
        table = assign key (push_version txn.txn_id key value slot) e.table;
        wal = e.wal ++ (put_wal txn key value ∷ []);
      },
    )

abbrev pub end_record : WalRecordType → ℕ → WalRecord
end_record type id = record {
  header = record { type = type; txn_id = id; key = 0; val_size = 0 };
  payload = [];
}

unfoldable pub commit : Engine → Transaction → Transaction × Engine
commit e txn =
    let (txn', m) = Manager.commit e.tx_manager txn in
    (
      txn',
      record e {
        tx_manager = m;
        wal = e.wal ++ (end_record WalRecordType.commit_record txn.txn_id ∷ []);
      },
    )

-- The body of the rollback loop, for a slot that is there.
roll_back_from : List UndoRecord → TupleSlot → TupleSlot
roll_back_from [] slot = slot
roll_back_from (u ∷ prev) slot = record slot { val = u.old_val; xmin = u.xmin; roll_ptr = prev }

pub roll_back : TupleSlot → TupleSlot
unfolding roll_back_from
roll_back slot = roll_back_from slot.roll_ptr slot

undo_key : ℕ → Dict TupleSlot → Dict TupleSlot
undo_key key table = elim (find key table) [
  | none ↦ table
  | some slot ↦ assign key (roll_back slot) table
]

undo_all : List (ℕ × Bytes) → Dict TupleSlot → Dict TupleSlot
undo_all [] table = table
undo_all ((key, old_val) ∷ entries) table = undo_all entries (undo_key key table)

pub abort : Engine → Transaction → Transaction × Engine
abort e txn =
    let (txn', m) = Manager.abort e.tx_manager txn in
    (
      txn',
      record e {
        tx_manager = m;
        table = undo_all txn.undo_entries e.table;
        wal = e.wal ++ (end_record WalRecordType.abort_record txn.txn_id ∷ []);
      },
    )

-- Phase 1 of the recovery: the committed ids and the largest id, from those met so far.
analyse : List WalRecord → List ℕ → ℕ → List ℕ × ℕ
analyse [] committed max_id = (committed, max_id)
analyse (r ∷ log) committed max_id =
    analyse log (elim r.type [ commit_record ↦ r.txn_id ∷ committed | _ ↦ committed ])
      (if ltb max_id r.txn_id then r.txn_id else max_id)

-- The write that a record replays.
abbrev replay_slot : WalRecord → TupleSlot → TupleSlot
replay_slot r slot = record slot { key = r.key; val = r.payload; xmin = r.txn_id }

abbrev replays : List ℕ → WalRecord → Bool
replays committed r = elim r.type [ put_record ↦ contains r.txn_id committed | _ ↦ false ]

-- Phase 2: the writes of committed transactions, in the order of the log.
redo : List ℕ → List WalRecord → Dict TupleSlot → Dict TupleSlot
redo committed [] table = table
redo committed (r ∷ log) table = redo committed log (
    if replays committed r then assign r.key (replay_slot r (slot_at r.key table)) table else table)

-- `opened` is whether the log file can be opened.
pub recover_from_wal : Bool → Engine → Engine
unfolding analyse redo
recover_from_wal opened e =
    let (committed, max_txn_id) = analyse e.wal [] 0 in
    if opened
    then record e {
      tx_manager = Manager.set_next_txn_id e.tx_manager (max_txn_id + 1);
      table = redo committed e.wal [];
    }
    else record e { table = [] }

pub size : Engine → ℕ
size e = length e.table
