-- ===== src/Tx/Engine/Recovery.antt =====
-- transactional_engine.hpp, `recover_from_wal`: what the two passes over the log rebuild.
use mathlib.Core.Option
use mathlib.Core.Path.{fun_ext}
use cpp_interview.Prelude.{
  ℕ, ◌+◌, ◌≤◌, ◌≡◌, refl, ap, ◌∙◌, sym, Bool, true, false, ◌&&◌, ◌||◌, Option, none, some, List, [],
  ◌∷◌, ◌++◌, arith, Bool-cases, inl, inr, ltb, ◌==◌, if◌then◌else◌,
}
use cpp_interview.Prelude.Dict.{Dict, find, assign, find-assign}
use cpp_interview.Prelude.Sorted.{contains}
use cpp_interview.Tx.Mvcc.{Bytes, TupleSlot}
use cpp_interview.Tx.Manager.{Transaction, set_next_txn_id}
use cpp_interview.Tx.Engine.{
  Engine, WalRecord, put_record, commit_record, put, commit, slot_at, end_record, put_wal, analyse,
  redo, replays, replay_slot, recover_from_wal,
}

-- A commit record of the transaction stands in the log.
unfoldable pub is_committed : List WalRecord → ℕ → Bool
is_committed [] id = false
is_committed (r ∷ log) id =
    elim r.type [ commit_record ↦ r.txn_id == id | _ ↦ false ] || is_committed log id

-- A record that writes the key for a transaction that `shown` admits.
abbrev writes_key : (ℕ → Bool) → ℕ → WalRecord → Bool
writes_key shown k r = elim r.type [ put_record ↦ shown r.txn_id && r.key == k | _ ↦ false ]

-- The last such write of a log: its transaction and value.
pub last_write : (ℕ → Bool) → ℕ → List WalRecord → Option (ℕ × Bytes)
last_write shown k [] = none
last_write shown k (r ∷ log) = elim (last_write shown k log) [
  | some w ↦ some w
  | none ↦ if writes_key shown k r then some (r.txn_id, r.payload) else none
]

abbrev pub recovered_slot : ℕ → ℕ × Bytes → TupleSlot
recovered_slot k w = record { key = k; val = w.1; xmin = w.0; roll_ptr = [] }

contains-analyse :
    (log : List WalRecord) (ids : List ℕ) (n id : ℕ)
    → contains id (analyse log ids n).0 ≡ (contains id ids || is_committed log id)
unfolding analyse contains is_committed
contains-analyse [] ids n id = ground arith
contains-analyse (r ∷ log) ids n id = ground (
  arith,
  contains-analyse log ids (if ltb n r.txn_id then r.txn_id else n) id,
  contains-analyse log (r.txn_id ∷ ids) (if ltb n r.txn_id then r.txn_id else n) id,
)

-- Every id of the log is at most `n`.
abbrev pub IdsUpTo : ℕ → List WalRecord → Type 0
IdsUpTo n [] = Unit {0}
IdsUpTo n (r ∷ log) = (r.txn_id ≤ n) × IdsUpTo n log

analyse-max :
    (log : List WalRecord) (ids : List ℕ) (n : ℕ)
    → (n ≤ (analyse log ids n).1) × IdsUpTo (analyse log ids n).1 log
unfolding analyse
analyse-max [] ids n = (omega arith, tt)
analyse-max (r ∷ log) ids n =
    let rest =
      analyse-max log (elim r.type [ commit_record ↦ r.txn_id ∷ ids | _ ↦ ids ])
        (if ltb n r.txn_id then r.txn_id else n) in
    (ground (arith, rest), (ground (arith, rest), rest.1))

-- No slot of the table has older versions.
abbrev NoUndo : Dict TupleSlot → Type 0
NoUndo table = (j : ℕ) → (slot_at j table).roll_ptr ≡ []

NoUndo-assign :
    (r : WalRecord) (table : Dict TupleSlot)
    → NoUndo table
    → NoUndo (assign r.key (replay_slot r (slot_at r.key table)) table)
NoUndo-assign r table h j =
    ground (arith, h j, h r.key, find-assign r.key j (replay_slot r (slot_at r.key table)) table)

find-redo :
    (ids : List ℕ) (log : List WalRecord) (table : Dict TupleSlot) (k : ℕ)
    → NoUndo table
    → find k (redo ids log table) ≡ elim (last_write (λ id. contains id ids) k log) [
      | some w ↦ some (recovered_slot k w)
      | none ↦ find k table
    ]
unfolding redo last_write
find-redo ids [] table k h = refl
find-redo ids (r ∷ log) table k h = elim (Bool-cases (replays ids r)) [
  | inl yes_ ↦ ground (
    arith,
    yes_,
    h r.key,
    find-redo ids log (assign r.key (replay_slot r (slot_at r.key table)) table) k
        (NoUndo-assign r table h),
    find-assign r.key k (replay_slot r (slot_at r.key table)) table,
  )
  | inr no_ ↦ ground (arith, no_, find-redo ids log table k h)
]

none_or :
    (k : ℕ) (w : Option (ℕ × Bytes))
    → elim w [ some w ↦ some (recovered_slot k w) | none ↦ none ] ≡ Option.map (recovered_slot k) w
none_or k none = refl
none_or k (some w) = refl

-- After a recovery a key holds the last write that a committed transaction logged for it, with that
-- transaction's id and no older version, and a key with no such write is missing.
pub find-recover_from_wal :
    (e : Engine) (k : ℕ)
    → find k (recover_from_wal true e).table
      ≡ Option.map (recovered_slot k) (last_write (is_committed e.wal) k e.wal)
unfolding recover_from_wal find contains
find-recover_from_wal e k =
    find-redo (analyse e.wal [] 0).0 e.wal [] k (λ j. refl)
    ∙ ap
        (λ shown. elim (last_write shown k e.wal) [
          | some w ↦ some (recovered_slot k w)
          | none ↦ none
        ])
        (fun_ext (λ id. contains-analyse e.wal [] 0 id))
    ∙ none_or k (last_write (is_committed e.wal) k e.wal)

-- The next transaction after a recovery gets an id above all those of the log.
pub recover_from_wal-next_txn_id :
    (e : Engine)
    → let next = (recover_from_wal true e).tx_manager.next_txn_id in
      (n : ℕ) × (next ≡ n + 1) × IdsUpTo n e.wal
unfolding recover_from_wal set_next_txn_id
recover_from_wal-next_txn_id e = ((analyse e.wal [] 0).1, refl, (analyse-max e.wal [] 0).1)

last_write-append :
    (shown : ℕ → Bool) (k : ℕ) (log more : List WalRecord)
    → last_write shown k (log ++ more)
      ≡ elim (last_write shown k more) [ some w ↦ some w | none ↦ last_write shown k log ]
unfolding last_write
last_write-append shown k [] more = ground arith
last_write-append shown k (r ∷ log) more = ground (arith, last_write-append shown k log more)

is_committed-append :
    (log more : List WalRecord) (id : ℕ)
    → is_committed (log ++ more) id ≡ (is_committed log id || is_committed more id)
unfolding is_committed
is_committed-append [] more id = refl
is_committed-append (r ∷ log) more id = ground (arith, is_committed-append log more id)

-- A write that its transaction commits next is in the recovered table.
pub recover_from_wal-commit :
    (e : Engine) (txn : Transaction) (key : ℕ) (value : Bytes)
    → let (txn', e1) = put e txn key value in
      find key (recover_from_wal true (commit e1 txn').1).table
      ≡ some (recovered_slot key (txn.txn_id, value))
unfolding put commit last_write is_committed
recover_from_wal-commit e txn key value =
    let (txn', e1) = put e txn key value in
    let end = end_record commit_record txn.txn_id in
    let shown = is_committed (commit e1 txn').1.wal in
    ground (
      arith,
      find-recover_from_wal (commit e1 txn').1 key,
      last_write-append shown key e1.wal (end ∷ []),
      last_write-append shown key e.wal (put_wal txn key value ∷ []),
      is_committed-append e1.wal (end ∷ []) txn.txn_id,
    )

-- A write of a transaction with no commit record in the log leaves no trace in the recovered table.
pub recover_from_wal-uncommitted :
    (e : Engine) (txn : Transaction) (key : ℕ) (value : Bytes) (k : ℕ)
    → is_committed e.wal txn.txn_id ≡ false
    → find k (recover_from_wal true (put e txn key value).1).table
      ≡ find k (recover_from_wal true e).table
unfolding put last_write is_committed
recover_from_wal-uncommitted e txn key value k open_ =
    let e1 = (put e txn key value).1 in
    let same : is_committed e1.wal ≡ is_committed e.wal =
      fun_ext (λ id. ground (arith, is_committed-append e.wal (put_wal txn key value ∷ []) id)) in
    find-recover_from_wal e1 k
    ∙ ap (Option.map (recovered_slot k)) (
        ap (λ shown. last_write shown k e1.wal) same
        ∙ ground
            (arith, last_write-append (is_committed e.wal) k e.wal (put_wal txn key value ∷ [])))
    ∙ sym (find-recover_from_wal e k)
