-- ===== src/Tx/Manager/Snapshot.antt =====
-- transaction_manager.hpp, `begin_transaction`: which transactions a new read view sees.
use cpp_interview.Prelude.{
  ℕ, ◌+◌, ◌≤◌, ◌<◌, ◌≡◌, refl, ◌↔◌, ◌⊎◌, true, false, none, some, List, [], ◌∷◌, arith, ltb,
  if◌then◌else◌,
}
use cpp_interview.Prelude.Dict.{Dict, find, assign, erase}
use cpp_interview.Prelude.Sorted.{
  sort, contains, contains-sort, binary_search-contains, sort-IsSorted,
}
use cpp_interview.Tx.Mvcc.{is_visible}
use cpp_interview.Tx.Manager.{
  TxnState, Transaction, TransactionManager, scan_active, begin_transaction, commit, abort,
}

-- Every registered transaction is active and has an id below `n`.
abbrev pub Registered : ℕ → Dict Transaction → Type 0
Registered n [] = Unit {0}
Registered n ((id, t) ∷ rest) = (id < n) × (t.state ≡ TxnState.active) × Registered n rest

abbrev pub IsValid : TransactionManager → Type 0
IsValid m = Registered m.next_txn_id m.active_txns

-- The ids that the loop collects are those of the registered transactions.
contains-scan_active :
    (n x a : ℕ) (m : Dict Transaction)
    → Registered n m
    → contains x (scan_active m a).0 ≡ elim (find x m) [ none ↦ false | some _ ↦ true ]
unfolding scan_active contains find
contains-scan_active n x a [] h = refl
contains-scan_active n x a ((id, t) ∷ m) h =
    ground (arith, contains-scan_active n x (if ltb id a then id else a) m h.2)

-- The least id is at most the start value and every registered id.
least-le : (n a : ℕ) (m : Dict Transaction) → Registered n m → (scan_active m a).1 ≤ a
unfolding scan_active
least-le n a [] h = omega arith
least-le n a ((id, t) ∷ m) h = ground (arith, least-le n (if ltb id a then id else a) m h.2)

find_below_least :
    (n x a : ℕ) (m : Dict Transaction) → Registered n m → x < (scan_active m a).1 → find x m ≡ none
unfolding scan_active find
find_below_least n x a [] h lt = refl
find_below_least n x a ((id, t) ∷ m) h lt = ground (
  arith,
  find_below_least n x (if ltb id a then id else a) m h.2,
  least-le n (if ltb id a then id else a) m h.2,
)

find_above : (n x : ℕ) (m : Dict Transaction) → Registered n m → n ≤ x → find x m ≡ none
unfolding find
find_above n x [] h le = refl
find_above n x ((id, t) ∷ m) h le = ground (arith, find_above n x m h.2)

-- The read view of a new transaction of a valid manager shows the versions of exactly these transactions: itself, and
-- those with an earlier id that are no longer registered as active.
pub begin_transaction-is_visible :
    (m : TransactionManager) (x : ℕ)
    → IsValid m
    → let (txn, _) = begin_transaction m in
      (is_visible txn.read_view x ≡ true)
      ↔ ((x ≡ m.next_txn_id) ⊎ ((x < m.next_txn_id) × (find x m.active_txns ≡ none)))
unfolding begin_transaction is_visible
begin_transaction-is_visible m x h = ground (
  arith,
  binary_search-contains x (sort ids) (sort-IsSorted ids),
  contains-sort x ids,
  contains-scan_active next x next m.active_txns h,
  least-le next next m.active_txns h,
  find_below_least next x next m.active_txns h,
)
  where
    next : ℕ
    next = m.next_txn_id

    ids : List ℕ
    ids = (scan_active m.active_txns next).0

Registered-mono : (n k : ℕ) (m : Dict Transaction) → n ≤ k → Registered n m → Registered k m
Registered-mono n k [] le h = tt
Registered-mono n k ((id, t) ∷ m) le h = (omega arith, h.1, Registered-mono n k m le h.2)

Registered-assign :
    (n k : ℕ) (t : Transaction) (m : Dict Transaction)
    → k < n
    → t.state ≡ TxnState.active
    → Registered n m
    → Registered n (assign k t m)
unfolding assign
Registered-assign n k t [] lt e h = (lt, e, tt)
Registered-assign n k t ((id, u) ∷ m) lt e h = ground (arith, Registered-assign n k t m lt e h.2)

Registered-erase : (n k : ℕ) (m : Dict Transaction) → Registered n m → Registered n (erase k m)
unfolding erase
Registered-erase n k [] h = tt
Registered-erase n k ((id, u) ∷ m) h = ground (arith, Registered-erase n k m h.2)

-- Beginning a transaction of a valid manager keeps every registered id below the next id.
pub begin_transaction-IsValid :
    (m : TransactionManager) → IsValid m → IsValid (begin_transaction m).1
unfolding begin_transaction
begin_transaction-IsValid m h =
    Registered-assign (m.next_txn_id + 1) m.next_txn_id _ m.active_txns (omega arith) refl
      (Registered-mono m.next_txn_id (m.next_txn_id + 1) m.active_txns (omega arith) h)

pub commit-IsValid :
    (m : TransactionManager) (txn : Transaction) → IsValid m → IsValid (commit m txn).1
unfolding commit
commit-IsValid m txn h = Registered-erase m.next_txn_id txn.txn_id m.active_txns h

pub abort-IsValid :
    (m : TransactionManager) (txn : Transaction) → IsValid m → IsValid (abort m txn).1
unfolding abort
abort-IsValid m txn h = Registered-erase m.next_txn_id txn.txn_id m.active_txns h
