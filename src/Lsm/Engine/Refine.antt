-- ===== src/Lsm/Engine/Refine.antt =====
-- lsm_engine.hpp: the engine is one map from keys to values.
use cpp_interview.Prelude.{
  ℕ, ◌+◌, ◌≡◌, refl, ap, ◌∙◌, ◌≢◌, Bool, true, false, Option, none, some, List, [], ◌∷◌, ◌++◌, ◌==◌,
  leb, if◌then◌else◌, arith, Bool-cases, inl, inr,
}
use cpp_interview.Prelude.Dict.{Dict, find}
use cpp_interview.Lsm.SsTable
use cpp_interview.Lsm.SsTable.{SsTable}
use cpp_interview.Lsm.SsTable.Records.{AreAscending}
use cpp_interview.Lsm.SsTable.Lookup.{get-build, build-empty, build_refused}
use cpp_interview.Lsm.MemTable.{MemTable}
use cpp_interview.Lsm.Engine.{
  Disk, working, get_from, LsmEngine, new_engine, push_table, flush_memtable, put, get,
}

-- A new last table is asked before the others.
pub get_from-append :
    (sstables : List SsTable) (t : SsTable) (key : ℕ)
    → get_from (sstables ++ (t ∷ [])) key
      ≡ elim (SsTable.get t key) [ some v ↦ some v | none ↦ get_from sstables key ]
unfolding get_from
get_from-append [] t key = ground arith
get_from-append (s ∷ sstables) t key = ground (arith, get_from-append sstables t key)

-- A table of ascending records that is pushed to a working disk answers before the others.
pub get_from-push_table :
    (ceil_m : ℕ → ℕ) (round_k : ℕ → ℕ → ℕ) (pairs : Dict ℕ) (sstables : List SsTable) (key : ℕ)
    → AreAscending pairs
    → get_from (push_table ceil_m round_k working pairs sstables) key
      ≡ elim (find key pairs) [ some v ↦ some v | none ↦ get_from sstables key ]
unfolding push_table find
get_from-push_table ceil_m round_k [] sstables key a =
    rw (push_table, build-empty ceil_m round_k true) refl
get_from-push_table ceil_m round_k (p ∷ pairs) sstables key a =
    let (file, t, built, opened, answers) = get-build ceil_m round_k p pairs a in
    rw (push_table, built, opened)
      (get_from-append sstables t key
        ∙ ap (λ (o : Option ℕ). elim o [ some v ↦ some v | none ↦ get_from sstables key ])
            (answers key))

module _ (m : MemTable) (ceil_m : ℕ → ℕ) (round_k : ℕ → ℕ → ℕ) where
  abbrev pub IsValid : LsmEngine m ceil_m round_k → Type 0
  IsValid e = m.IsValid e.memtable

  pub new_engine-IsValid : (threshold : ℕ) → IsValid (new_engine m ceil_m round_k threshold)
  unfolding new_engine
  new_engine-IsValid threshold = m.empty-IsValid

  emptied : Disk → LsmEngine m ceil_m round_k → LsmEngine m ceil_m round_k
  emptied disk e = record e {
    next_sst_id = e.next_sst_id + 1;
    sstables = push_table ceil_m round_k disk (m.to_vector e.memtable) e.sstables;
    memtable = m.empty;
  }

  flush_memtable_run :
      (disk : Disk) (e : LsmEngine m ceil_m round_k)
      → (m.size e.memtable == 0) ≡ false
      → flush_memtable m ceil_m round_k disk e ≡ emptied disk e
  unfolding flush_memtable emptied
  flush_memtable_run disk e h = rw h refl

  get-emptied :
      (disk : Disk) (e : LsmEngine m ceil_m round_k) (key : ℕ)
      → get m ceil_m round_k (emptied disk e) key
        ≡ get_from (push_table ceil_m round_k disk (m.to_vector e.memtable) e.sstables) key
  unfolding get emptied
  get-emptied disk e key = rw (get, m.get-empty key) refl

  -- A flush to a working disk changes no answer of a valid engine.
  pub get-flush_memtable :
      (e : LsmEngine m ceil_m round_k) (key : ℕ)
      → IsValid e
      → get m ceil_m round_k (flush_memtable m ceil_m round_k working e) key
        ≡ get m ceil_m round_k e key
  unfolding flush_memtable get
  get-flush_memtable e key v = elim (Bool-cases (m.size e.memtable == 0)) [
    | inl none_there ↦ rw none_there refl
    | inr some_there ↦
        ap (λ t. get m ceil_m round_k t key) (flush_memtable_run working e some_there)
        ∙ get-emptied working e key
        ∙ get_from-push_table ceil_m round_k (m.to_vector e.memtable) e.sstables key
            (m.to_vector-AreAscending e.memtable v)
        ∙ ap (λ (o : Option ℕ). elim o [ some w ↦ some w | none ↦ get_from e.sstables key ])
            (m.find-to_vector e.memtable key v)
  ]

  pub flush_memtable-IsValid :
      (disk : Disk) (e : LsmEngine m ceil_m round_k)
      → IsValid e
      → IsValid (flush_memtable m ceil_m round_k disk e)
  unfolding flush_memtable
  flush_memtable-IsValid disk e v = elim (Bool-cases (m.size e.memtable == 0)) [
    | inl none_there ↦ rw none_there v
    | inr some_there ↦ rw some_there m.empty-IsValid
  ]

  pub put-IsValid :
      (disk : Disk) (e : LsmEngine m ceil_m round_k) (key value : ℕ)
      → IsValid e
      → IsValid (put m ceil_m round_k disk e key value)
  unfolding put
  put-IsValid disk e key value v =
      let e1 : LsmEngine m ceil_m round_k = record e { memtable = m.put e.memtable key value } in
      let v1 = m.put-IsValid e.memtable key value v in
      elim (Bool-cases (leb e.memtable_threshold_bytes (m.byte_size e1.memtable))) [
        | inl large ↦ rw large (flush_memtable-IsValid disk e1 v1)
        | inr small ↦ rw small v1
      ]

  -- On a working disk a write to a valid engine is read back, and changes no other key, whether or
  -- not it flushes.
  pub get-put_engine :
      (e : LsmEngine m ceil_m round_k) (key value j : ℕ)
      → IsValid e
      → get m ceil_m round_k (put m ceil_m round_k working e key value) j
        ≡ (if key == j then some value else get m ceil_m round_k e j)
  unfolding put get
  get-put_engine e key value j v =
      let e1 : LsmEngine m ceil_m round_k = record e { memtable = m.put e.memtable key value } in
      let v1 = m.put-IsValid e.memtable key value v in
      let written : get m ceil_m round_k e1 j
          ≡ (if key == j then some value else get m ceil_m round_k e j) =
        ground (arith, m.get-put e.memtable key value j v) in
      elim (Bool-cases (leb e.memtable_threshold_bytes (m.byte_size e1.memtable))) [
        | inl large ↦ rw large (get-flush_memtable e1 j v1 ∙ written)
        | inr small ↦ rw small written
      ]

  -- If the table cannot be created, a flush of a valid engine with a memtable that is not empty loses
  -- the memtable: every key answers as the tables do.
  pub get-flush_refused :
      (opened : Bool) (e : LsmEngine m ceil_m round_k) (key : ℕ)
      → IsValid e
      → m.size e.memtable ≢ 0
      → get m ceil_m round_k
          (flush_memtable m ceil_m round_k (record { created = false; opened = opened }) e)
          key
        ≡ get_from e.sstables key
  unfolding push_table
  get-flush_refused opened e key v some_there =
      let refused : Disk = record { created = false; opened = opened } in
      ap (λ t. get m ceil_m round_k t key)
        (flush_memtable_run refused e (ground (arith, some_there)))
      ∙ get-emptied refused e key
      ∙ rw (push_table, build_refused ceil_m round_k (m.to_vector e.memtable)) refl
