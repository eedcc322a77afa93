-- ===== src/Lsm/Database.antt =====
-- 12-capstone-systems/02-embedded-lsm-kv-database/embedded_lsm_database.hpp, over any memtable. The
-- members and the flush that it shares with lsm_engine.hpp are those of Engine. A log entry is
-- written whole or not at all. The worker thread changes nothing: `compact_level0` merges no table.
pub mod Recovery
use cpp_interview.Prelude.{
  ℕ, zero, suc, ◌+◌, Bool, true, false, Option, none, some, List, [], ◌∷◌, ◌++◌, ◌==◌, leb,
  if◌then◌else◌, length,
}
use cpp_interview.Prelude.Dict.{Dict, assign}
use cpp_interview.Lsm.SsTable
use cpp_interview.Lsm.SsTable.{SsTable}
use cpp_interview.Lsm.MemTable.{MemTable}
use cpp_interview.Lsm.Engine
use cpp_interview.Lsm.Engine.{Disk, LsmEngine}

-- A file that the directory lists: whether its extension is `.db`, whether `::open` succeeds on it,
-- and its words.
pub record Entry : Type 0 where
  pub is_table : Bool
  pub opened : Bool
  pub words : List ℕ

-- The tables of a directory, in the order in which it is listed.
pub load_tables : List Entry → List SsTable
load_tables [] = []
load_tables (entry ∷ entries) =
    if entry.is_table
    then elim (SsTable.open_table entry.opened entry.words) [
      | none ↦ load_tables entries
      | some t ↦ t ∷ load_tables entries
    ]
    else load_tables entries

module _ (m : MemTable) (ceil_m : ℕ → ℕ) (round_k : ℕ → ℕ → ℕ) where
  -- `wal` is the file `engine.wal`, `files` the tables on the disk by their number.
  pub record EmbeddedLsmDatabase : Type 0 where
    pub core : LsmEngine m ceil_m round_k
    pub wal : List (ℕ × ℕ)
    pub files : Dict (List ℕ)

  -- A database in an empty directory.
  pub new_database : ℕ → EmbeddedLsmDatabase
  new_database threshold = record {
    core = Engine.new_engine m ceil_m round_k threshold;
    wal = [];
    files = [];
  }

  -- The file of a flush replaces any of the same number.
  pub flush_memtable : Disk → EmbeddedLsmDatabase → EmbeddedLsmDatabase
  flush_memtable disk e =
      let pairs = m.to_vector e.core.memtable in
      record e {
        core = Engine.flush_memtable m ceil_m round_k disk e.core;
        files =
            if m.size e.core.memtable == 0
            then e.files
            else elim (SsTable.build ceil_m round_k disk.created pairs) [
              | none ↦ e.files
              | some file ↦ assign e.core.next_sst_id file e.files
            ];
      }

  -- The first half of `put`, before it takes the latch. `written` is whether the entry is written.
  pub log_entry : Bool → EmbeddedLsmDatabase → ℕ → ℕ → EmbeddedLsmDatabase
  log_entry written e key value =
      if written then record e { wal = e.wal ++ ((key, value) ∷ []) } else e

  -- The second half, under the latch.
  pub apply_entry : Disk → EmbeddedLsmDatabase → ℕ → ℕ → EmbeddedLsmDatabase
  apply_entry disk e key value =
      let memtable = m.put e.core.memtable key value in
      let e1 : EmbeddedLsmDatabase = record e { core = record (e.core) { memtable = memtable } } in
      if leb e.core.memtable_threshold_bytes (m.byte_size memtable)
      then flush_memtable disk e1
      else e1

  pub put : Bool → Disk → EmbeddedLsmDatabase → ℕ → ℕ → EmbeddedLsmDatabase
  put written disk e key value = apply_entry disk (log_entry written e key value) key value

  pub get : EmbeddedLsmDatabase → ℕ → Option ℕ
  get e key = Engine.get m ceil_m round_k e.core key

  -- `memtable_->put` for each entry of the log.
  pub replay : List (ℕ × ℕ) → m.Carrier → m.Carrier
  replay [] memtable = memtable
  replay ((key, value) ∷ wal) memtable = replay wal (m.put memtable key value)

  -- `listing` is what the directory iterator gives, `readable` whether the log can be opened.
  pub recover : List Entry → Bool → EmbeddedLsmDatabase → EmbeddedLsmDatabase
  recover listing readable e = record e {
    core = record (e.core) {
      sstables = load_tables listing;
      memtable = if readable then replay e.wal m.empty else m.empty;
    };
  }

  -- The worker thread is stopped and the files are closed, which changes nothing here.
  pub close : Disk → EmbeddedLsmDatabase → EmbeddedLsmDatabase
  close disk e = flush_memtable disk e

  pub sstable_count : EmbeddedLsmDatabase → ℕ
  sstable_count e = length e.core.sstables
