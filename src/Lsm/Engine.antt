-- ===== src/Lsm/Engine.antt =====
-- lsm_engine.hpp, over any memtable. The latch makes each call one step. A table is written to a file
-- of a new name and read back from it: whether the two calls of `::open` succeed is an argument.
pub mod Refine
use cpp_interview.Prelude.{
  ℕ, zero, suc, ◌+◌, Bool, true, false, Option, none, some, List, [], ◌∷◌, ◌++◌, ◌==◌, leb,
  if◌then◌else◌, length,
}
use cpp_interview.Prelude.Dict.{Dict}
use cpp_interview.Lsm.SsTable
use cpp_interview.Lsm.SsTable.{SsTable}
use cpp_interview.Lsm.MemTable.{MemTable}

-- What the file system does with the file of one flush.
pub record Disk : Type 0 where
  pub created : Bool
  pub opened : Bool

abbrev pub working : Disk
working = record { created = true; opened = true }

-- The loop of `get` from the last table to the first.
pub get_from : List SsTable → ℕ → Option ℕ
get_from [] key = none
get_from (t ∷ sstables) key = elim (get_from sstables key) [
  | some v ↦ some v
  | none ↦ SsTable.get t key
]

-- `build`, `open` and `push_back`, as far as they succeed.
pub push_table : (ℕ → ℕ) → (ℕ → ℕ → ℕ) → Disk → Dict ℕ → List SsTable → List SsTable
push_table ceil_m round_k disk pairs sstables =
    elim (SsTable.build ceil_m round_k disk.created pairs) [
      | none ↦ sstables
      | some file ↦ elim (SsTable.open_table disk.opened file) [
        | none ↦ sstables
        | some t ↦ sstables ++ (t ∷ [])
      ]
    ]

-- `m` is the memtable, the other two are what the filter's constructor takes from logarithms.
module _ (m : MemTable) (ceil_m : ℕ → ℕ) (round_k : ℕ → ℕ → ℕ) where
  pub record LsmEngine : Type 0 where
    pub memtable_threshold_bytes : ℕ
    pub next_sst_id : ℕ
    pub memtable : m.Carrier
    pub sstables : List SsTable

  unfoldable pub new_engine : ℕ → LsmEngine
  new_engine threshold = record {
    memtable_threshold_bytes = threshold;
    next_sst_id = 0;
    memtable = m.empty;
    sstables = [];
  }

  -- `flush_memtable_internal`
  unfoldable pub flush_memtable : Disk → LsmEngine → LsmEngine
  flush_memtable disk e = if m.size e.memtable == 0 then e else record e {
    next_sst_id = e.next_sst_id + 1;
    sstables = push_table ceil_m round_k disk (m.to_vector e.memtable) e.sstables;
    memtable = m.empty;
  }

  unfoldable pub put : Disk → LsmEngine → ℕ → ℕ → LsmEngine
  put disk e key value =
      let e1 : LsmEngine = record e { memtable = m.put e.memtable key value } in
      if leb e.memtable_threshold_bytes (m.byte_size e1.memtable)
      then flush_memtable disk e1
      else e1

  unfoldable pub get : LsmEngine → ℕ → Option ℕ
  get e key = elim (m.get e.memtable key) [ some v ↦ some v | none ↦ get_from e.sstables key ]

  pub sstable_count : LsmEngine → ℕ
  sstable_count e = length e.sstables
