-- ===== src/Tx/Engine/Abort.antt =====
-- transactional_engine.hpp, `abort`: what the rollback restores, and what it breaks.
use cpp_interview.Prelude.{
  ℕ, ◌≡◌, refl, ap, ◌∙◌, sym, none, some, List, [], ◌∷◌, ◌++◌, arith, ◌==◌, if◌then◌else◌, inl, inr,
  Option-cases,
}
use mathlib.Core.List.{append_assoc, append-nil}
use mathlib.Core.Option
use cpp_interview.Prelude.Dict.{Dict, find, find-assign}
use cpp_interview.Tx.Mvcc.{Bytes, TupleSlot}
use cpp_interview.Tx.Manager.{Transaction}
use cpp_interview.Tx.Engine.{
  Engine, put, commit, abort, push_version, slot_at, roll_back, undo_key, undo_all,
}

-- A transaction's writes, one after the other.
pub put_all : Engine → Transaction → List (ℕ × Bytes) → Transaction × Engine
put_all e txn [] = (txn, e)
put_all e txn ((key, value) ∷ writes) =
    let (txn', e') = put e txn key value in put_all e' txn' writes

-- What writes and rollbacks do to the slot of one key.
push_at : ℕ → ℕ → List (ℕ × Bytes) → TupleSlot → TupleSlot
push_at id j [] slot = slot
push_at id j ((key, value) ∷ writes) slot =
    push_at id j writes (if key == j then push_version id key value slot else slot)

pop_at : ℕ → List (ℕ × Bytes) → TupleSlot → TupleSlot
pop_at j [] slot = slot
pop_at j ((key, value) ∷ entries) slot =
    pop_at j entries (if key == j then roll_back slot else slot)

pop_at-roll_back :
    (j : ℕ) (entries : List (ℕ × Bytes)) (slot : TupleSlot)
    → pop_at j entries (roll_back slot) ≡ roll_back (pop_at j entries slot)
unfolding pop_at
pop_at-roll_back j [] slot = refl
pop_at-roll_back j ((key, value) ∷ entries) slot =
    ground (arith, pop_at-roll_back j entries (roll_back slot), pop_at-roll_back j entries slot)

-- The keys of two lists of writes are the same.
abbrev SameKeys : List (ℕ × Bytes) → List (ℕ × Bytes) → Type 0
SameKeys [] [] = Unit {0}
SameKeys ((k, _) ∷ xs) ((j, _) ∷ ys) = (k ≡ j) × SameKeys xs ys
SameKeys _ _ = ⊥

roll_back-push_version :
    (id key : ℕ) (value : Bytes) (slot : TupleSlot)
    → slot.key ≡ key
    → roll_back (push_version id key value slot) ≡ slot
unfolding roll_back
roll_back-push_version id key value slot e = ground arith

pop_at-push_at :
    (id j : ℕ) (entries writes : List (ℕ × Bytes)) (slot : TupleSlot)
    → SameKeys entries writes
    → slot.key ≡ j
    → pop_at j entries (push_at id j writes slot) ≡ slot
unfolding pop_at push_at
pop_at-push_at id j [] [] slot h e = refl
pop_at-push_at id j [] (w ∷ writes) slot h e = absurd h
pop_at-push_at id j (w ∷ entries) [] slot h e = absurd h
pop_at-push_at id j ((k, old) ∷ entries) ((key, value) ∷ writes) slot h e = ground (
  arith,
  pop_at-push_at id j entries writes slot h.1 e,
  pop_at-push_at id j entries writes (push_version id key value slot) h.1,
  pop_at-roll_back j entries (push_at id j writes (push_version id key value slot)),
  roll_back-push_version id key value slot,
)

find-undo_key :
    (key j : ℕ) (table : Dict TupleSlot)
    → find j (undo_key key table)
      ≡ (if key == j then Option.map roll_back (find j table) else find j table)
unfolding undo_key
find-undo_key key j table = elim (Option-cases (find key table)) [
  | inl none_there ↦ ground (arith, none_there)
  | inr (slot, there) ↦ ground (arith, there, find-assign key j (roll_back slot) table)
]

find-undo_all :
    (j : ℕ) (entries : List (ℕ × Bytes)) (table : Dict TupleSlot) (slot : TupleSlot)
    → find j table ≡ some slot
    → find j (undo_all entries table) ≡ some (pop_at j entries slot)
unfolding undo_all pop_at
find-undo_all j [] table slot h = h
find-undo_all j ((key, old) ∷ entries) table slot h =
    find-undo_all j entries (undo_key key table) (if key == j then roll_back slot else slot)
      (ground (arith, find-undo_key key j table))

find-undo_all-none :
    (j : ℕ) (entries : List (ℕ × Bytes)) (table : Dict TupleSlot)
    → find j table ≡ none
    → find j (undo_all entries table) ≡ none
unfolding undo_all
find-undo_all-none j [] table h = h
find-undo_all-none j ((key, old) ∷ entries) table h =
    find-undo_all-none j entries (undo_key key table) (ground (arith, find-undo_key key j table))

-- The writes of `put_all` on the table, the undo entries and the id.
find-put_all :
    (e : Engine) (txn : Transaction) (writes : List (ℕ × Bytes)) (j : ℕ) (slot : TupleSlot)
    → find j e.table ≡ some slot
    → find j (put_all e txn writes).1.table ≡ some (push_at txn.txn_id j writes slot)
unfolding put_all push_at put
find-put_all e txn [] j slot h = h
find-put_all e txn ((key, value) ∷ writes) j slot h =
    find-put_all (put e txn key value).1 (put e txn key value).0 writes j
      (if key == j then push_version txn.txn_id key value slot else slot)
      (ground (
        arith,
        find-assign key j (push_version txn.txn_id key value (slot_at key e.table)) e.table,
      ))

undo_entries-put_all :
    (e : Engine) (txn : Transaction) (writes : List (ℕ × Bytes))
    → (entries : List (ℕ × Bytes)) × ((put_all e txn writes).0.undo_entries
        ≡ txn.undo_entries ++ entries)
      × SameKeys entries writes
unfolding put_all put
undo_entries-put_all e txn [] = ([], sym (append-nil txn.undo_entries), tt)
undo_entries-put_all e txn ((key, value) ∷ writes) =
    let (txn', e') = put e txn key value in
    let (entries, h, same) = undo_entries-put_all e' txn' writes in
    (
      (key, (slot_at key e.table).val) ∷ entries,
      h ∙ append_assoc txn.undo_entries ((key, (slot_at key e.table).val) ∷ []) entries,
      (refl, same),
    )

-- A transaction with no writes so far, that aborts after any sequence of its writes with no write of
-- another in between, leaves each key that was in the table, in a slot of its own key, with the slot
-- that it had.
pub abort-put_all :
    (e : Engine) (txn : Transaction) (writes : List (ℕ × Bytes)) (j : ℕ) (slot : TupleSlot)
    → txn.undo_entries ≡ []
    → find j e.table ≡ some slot
    → slot.key ≡ j
    → let (txn', e') = put_all e txn writes in find j (abort e' txn').1.table ≡ some slot
unfolding abort
abort-put_all e txn writes j slot fresh h own =
    let (entries, es, same) = undo_entries-put_all e txn writes in
    rw (es ∙ ap (λ old. old ++ entries) fresh) (
      find-undo_all j entries _ _ (find-put_all e txn writes j slot h)
      ∙ ap some (pop_at-push_at txn.txn_id j entries writes slot same own))

find-put :
    (e : Engine) (txn : Transaction) (key : ℕ) (value : Bytes)
    → find key (put e txn key value).1.table
      ≡ some (push_version txn.txn_id key value (slot_at key e.table))
unfolding put
find-put e txn key value =
    ground
      (arith, find-assign key key (push_version txn.txn_id key value (slot_at key e.table)) e.table)

-- Rolling back one entry takes the newest version off, whoever wrote it.
find-abort :
    (e : Engine) (txn : Transaction) (key : ℕ) (old : Bytes) (slot : TupleSlot)
    → txn.undo_entries ≡ (key, old) ∷ []
    → find key e.table ≡ some slot
    → find key (abort e txn).1.table ≡ some (roll_back slot)
unfolding abort pop_at
find-abort e txn key old slot entry there =
    rw entry (find-undo_all key ((key, old) ∷ []) e.table slot there ∙ ground arith)

-- The write of another transaction in between breaks this. If a second transaction writes the same
-- key after the first one and commits, and then the first one aborts, the key is left with the
-- first one's value and id: the aborted value, in place of the committed one.
pub abort-put_interleaved :
    (e : Engine) (first second : Transaction) (key : ℕ) (a b : Bytes)
    → first.undo_entries ≡ []
    → let (first', e1) = put e first key a in
      let (second', e2) = put e1 second key b in
      let (_, e3) = commit e2 second' in
      let slot = slot_at key (abort e3 first').1.table in
      (slot.val ≡ a) × (slot.xmin ≡ first.txn_id)
unfolding commit
abort-put_interleaved e first second key a b fresh =
    let e1 = (put e first key a).1 in
    let e2 = (put e1 second key b).1 in
    let kept = push_version first.txn_id key a (slot_at key e.table) in
    let seen : slot_at key e1.table ≡ kept = ground (arith, find-put e first key a) in
    let back =
      find-abort (commit e2 (put e1 second key b).0).1 (put e first key a).0 key
        (slot_at key e.table).val (push_version second.txn_id key b (slot_at key e1.table))
        (unfold put in rw fresh refl) (find-put e1 second key b) in
    ground (arith, seen, back, roll_back-push_version second.txn_id key b (slot_at key e1.table))
