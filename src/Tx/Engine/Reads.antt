-- ===== src/Tx/Engine/Reads.antt =====
-- transactional_engine.hpp, `get` and `put`: what a transaction reads after a write.
use cpp_interview.Prelude.{ℕ, ◌≡◌, ◌≢◌, ◌⊎◌, true, false, none, some, [], arith}
use cpp_interview.Prelude.Dict.{find, find-assign}
use cpp_interview.Tx.Mvcc.{Bytes, is_visible, read_tuple_snapshot}
use cpp_interview.Tx.Manager.{Transaction}
use cpp_interview.Tx.Engine.{Engine, put, get, push_version, slot_at}

-- A transaction whose view has its own id as the creator reads its own last write.
pub get-put_self :
    (e : Engine) (txn : Transaction) (key : ℕ) (value : Bytes)
    → txn.read_view.creator_txn_id ≡ txn.txn_id
    → get (put e txn key value).1 (put e txn key value).0 key ≡ some value
unfolding get put read_tuple_snapshot is_visible
get-put_self e txn key value h =
    ground
      (arith, find-assign key key (push_version txn.txn_id key value (slot_at key e.table)) e.table)

-- A write of a transaction that the reader's view does not show changes no read, of a key that is
-- in the table or of another key than the one written.
pub get-put_invisible :
    (e : Engine) (writer reader : Transaction) (key j : ℕ) (value : Bytes)
    → is_visible reader.read_view writer.txn_id ≡ false
    → (j ≢ key) ⊎ (find key e.table ≢ none)
    → get (put e writer key value).1 reader j ≡ get e reader j
unfolding get put read_tuple_snapshot
get-put_invisible e writer reader key j value hidden h =
    ground (
      arith,
      find-assign key j (push_version writer.txn_id key value (slot_at key e.table)) e.table,
    )

-- Where the key was missing, such a write makes every reader that sees id 0 read an empty string in
-- place of nothing.
pub get-put_absent :
    (e : Engine) (writer reader : Transaction) (key : ℕ) (value : Bytes)
    → is_visible reader.read_view writer.txn_id ≡ false
    → is_visible reader.read_view 0 ≡ true
    → find key e.table ≡ none
    → (get e reader key ≡ none) × (get (put e writer key value).1 reader key ≡ some [])
unfolding get put read_tuple_snapshot
get-put_absent e writer reader key value hidden zero_shown absent = ground (
  arith,
  find-assign key key (push_version writer.txn_id key value (slot_at key e.table)) e.table,
)
