-- ===== src/Tx/Mvcc.antt =====
-- exercises/mvcc_undo_log.hpp: read views, undo records and the traversal of a version chain.
use cpp_interview.Prelude.{
  ℕ, Bool, true, false, not, Option, none, some, List, [], ◌∷◌, ltb, leb, ◌==◌, if◌then◌else◌,
}
use cpp_interview.Prelude.Sorted.{binary_search}

-- `std::string`, as its bytes.
abbrev pub Bytes : Type 0
Bytes = List ℕ

pub record ReadView : Type 0 where
  pub creator_txn_id : ℕ
  pub up_limit_id : ℕ
  pub low_limit_id : ℕ
  pub active_ids : List ℕ

unfoldable pub is_visible : ReadView → ℕ → Bool
is_visible view xmin =
    if xmin == view.creator_txn_id
    then true
    else if ltb xmin view.up_limit_id
    then true
    else if leb view.low_limit_id xmin
    then false
    else not (binary_search xmin view.active_ids)

-- A chain of undo records is immutable: `prev` is the rest of the list.
pub record UndoRecord : Type 0 where
  pub xmin : ℕ
  pub old_val : Bytes

pub record TupleSlot : Type 0 where
  pub key : ℕ
  pub val : Bytes
  pub xmin : ℕ
  pub roll_ptr : List UndoRecord

-- The `while` over the chain.
unfoldable pub traverse : List UndoRecord → ReadView → Option Bytes
traverse [] view = none
traverse (u ∷ prev) view = if is_visible view u.xmin then some u.old_val else traverse prev view

unfoldable pub read_tuple_snapshot : TupleSlot → ReadView → Option Bytes
unfolding traverse
read_tuple_snapshot tuple view =
    if is_visible view tuple.xmin then some tuple.val else traverse tuple.roll_ptr view
