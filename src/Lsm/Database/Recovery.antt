-- ===== src/Lsm/Database/Recovery.antt =====
-- embedded_lsm_database.hpp: reads, and what a recovery from the log answers.
use cpp_interview.Prelude.{
  ℕ, ◌≡◌, refl, ap, sym, ◌∙◌, subst, Bool, true, false, Option, none, some, List, [], ◌∷◌, ◌++◌,
  ◌==◌, leb, if◌then◌else◌, arith, Bool-cases, inl, inr,
}
use cpp_interview.Lsm.MemTable.{MemTable}
use cpp_interview.Lsm.Engine
use cpp_interview.Lsm.Engine.{Disk, working, get_from, LsmEngine}
use cpp_interview.Lsm.Engine.Refine.{get-flush_memtable, flush_memtable-IsValid}
use cpp_interview.Lsm.Database.{
  Entry, load_tables, EmbeddedLsmDatabase, new_database, flush_memtable, log_entry, apply_entry,
  put, get, replay, recover,
}

-- The value of the last entry of a log for a key.
unfoldable pub last_entry : List (ℕ × ℕ) → ℕ → Option ℕ
last_entry [] key = none
last_entry ((k, v) ∷ wal) key = elim (last_entry wal key) [
  | some w ↦ some w
  | none ↦ if k == key then some v else none
]

last_entry-append :
    (wal : List (ℕ × ℕ)) (k v key : ℕ)
    → last_entry (wal ++ ((k, v) ∷ [])) key ≡ (if k == key then some v else last_entry wal key)
unfolding last_entry
last_entry-append [] k v key = ground arith
last_entry-append ((j, w) ∷ wal) k v key = ground (arith, last_entry-append wal k v key)

module _ (m : MemTable) (ceil_m : ℕ → ℕ) (round_k : ℕ → ℕ → ℕ) where
  get-replay :
      (wal : List (ℕ × ℕ)) (memtable : m.Carrier) (key : ℕ)
      → m.IsValid memtable
      → m.get (replay m ceil_m round_k wal memtable) key
        ≡ elim (last_entry wal key) [ some v ↦ some v | none ↦ m.get memtable key ]
  unfolding replay last_entry
  get-replay [] memtable key h = refl
  get-replay ((k, v) ∷ wal) memtable key h = ground (
    arith,
    get-replay wal (m.put memtable k v) key (m.put-IsValid memtable k v h),
    m.get-put memtable k v key h,
  )

  -- A recovery answers a key by the last entry of the log for it, and by the tables that it found
  -- where there is none, in whatever order the directory lists them.
  pub get-recover :
      (listing : List Entry) (e : EmbeddedLsmDatabase m ceil_m round_k) (key : ℕ)
      → get m ceil_m round_k (recover m ceil_m round_k listing true e) key
        ≡ elim (last_entry e.wal key) [
          | some v ↦ some v
          | none ↦ get_from (load_tables listing) key
        ]
  unfolding get recover Engine.get
  get-recover listing e key =
      ground (arith, get-replay e.wal m.empty key m.empty-IsValid, m.get-empty key)

  abbrev pub IsValid : EmbeddedLsmDatabase m ceil_m round_k → Type 0
  IsValid e = m.IsValid e.core.memtable

  pub new_database-IsValid : (threshold : ℕ) → IsValid (new_database m ceil_m round_k threshold)
  unfolding new_database
  new_database-IsValid threshold = Engine.Refine.new_engine-IsValid m ceil_m round_k threshold

  core-apply_entry :
      (e : EmbeddedLsmDatabase m ceil_m round_k) (disk : Disk) (key value : ℕ)
      → ((apply_entry m ceil_m round_k disk e key value).core
          ≡ Engine.put m ceil_m round_k disk e.core key value)
        × ((apply_entry m ceil_m round_k disk e key value).wal ≡ e.wal)
  unfolding apply_entry flush_memtable Engine.put
  core-apply_entry e disk key value =
      let e1 = m.put e.core.memtable key value in
      elim (Bool-cases (leb e.core.memtable_threshold_bytes (m.byte_size e1))) [
        | inl large ↦ rw large (refl, refl)
        | inr small ↦ rw small (refl, refl)
      ]

  get-apply_entry :
      (e : EmbeddedLsmDatabase m ceil_m round_k) (key value j : ℕ)
      → IsValid e
      → get m ceil_m round_k (apply_entry m ceil_m round_k working e key value) j
        ≡ (if key == j then some value else get m ceil_m round_k e j)
  unfolding get
  get-apply_entry e key value j v =
      ap (λ c. Engine.get m ceil_m round_k c j) (core-apply_entry e working key value).0
      ∙ Engine.Refine.get-put_engine m ceil_m round_k e.core key value j v

  apply_entry-IsValid :
      (disk : Disk) (e : EmbeddedLsmDatabase m ceil_m round_k) (key value : ℕ)
      → IsValid e
      → IsValid (apply_entry m ceil_m round_k disk e key value)
  apply_entry-IsValid disk e key value v =
      subst (λ (c : LsmEngine m ceil_m round_k). m.IsValid c.memtable)
        (sym (core-apply_entry e disk key value).0)
        (Engine.Refine.put-IsValid m ceil_m round_k disk e.core key value v)

  -- On a working disk a write to a valid database is read back and changes no other key, whether or
  -- not it is logged.
  pub get-put_database :
      (written : Bool) (e : EmbeddedLsmDatabase m ceil_m round_k) (key value j : ℕ)
      → IsValid e
      → get m ceil_m round_k (put m ceil_m round_k written working e key value) j
        ≡ (if key == j then some value else get m ceil_m round_k e j)
  unfolding get put log_entry
  get-put_database true e key value j v =
      get-apply_entry (log_entry m ceil_m round_k true e key value) key value j v
  get-put_database false e key value j v = get-apply_entry e key value j v

  -- Writes that are logged, one after the other, on any disk.
  unfoldable pub put_all :
      List (Disk × ℕ × ℕ)
      → EmbeddedLsmDatabase m ceil_m round_k
      → EmbeddedLsmDatabase m ceil_m round_k
  put_all [] e = e
  put_all ((disk, key, value) ∷ writes) e =
      put_all writes (put m ceil_m round_k true disk e key value)

  pub wal-put :
      (disk : Disk) (e : EmbeddedLsmDatabase m ceil_m round_k) (key value : ℕ)
      → (put m ceil_m round_k true disk e key value).wal ≡ e.wal ++ ((key, value) ∷ [])
  unfolding put log_entry
  wal-put disk e key value =
      (core-apply_entry (log_entry m ceil_m round_k true e key value) disk key value).1

  -- The last of the writes to a key.
  abbrev pub last_write : List (Disk × ℕ × ℕ) → ℕ → Option ℕ → Option ℕ
  last_write [] j before = before
  last_write ((disk, key, value) ∷ writes) j before =
      last_write writes j (if key == j then some value else before)

  last_entry-put_all :
      (writes : List (Disk × ℕ × ℕ)) (e : EmbeddedLsmDatabase m ceil_m round_k) (j : ℕ)
      → last_entry (put_all writes e).wal j ≡ last_write writes j (last_entry e.wal j)
  unfolding put_all
  last_entry-put_all [] e j = refl
  last_entry-put_all ((disk, key, value) ∷ writes) e j =
      last_entry-put_all writes (put m ceil_m round_k true disk e key value) j
      ∙ ap (last_write writes j) (
          ap (λ w. last_entry w j) (wal-put disk e key value) ∙ last_entry-append e.wal key value j)

  -- After any logged writes to a new database, and flushes that fail or not, a recovery answers every
  -- key that was written as the last write to it, whatever tables the directory lists.
  pub get-recover-put_all :
      (threshold : ℕ) (writes : List (Disk × ℕ × ℕ)) (listing : List Entry) (key value : ℕ)
      → last_write writes key none ≡ some value
      → get m ceil_m round_k
          (recover m ceil_m round_k listing true
            (put_all writes (new_database m ceil_m round_k threshold)))
          key
        ≡ some value
  unfolding new_database last_entry
  get-recover-put_all threshold writes listing key value h =
      let e = put_all writes (new_database m ceil_m round_k threshold) in
      get-recover listing e key
      ∙ ap
          (λ (o : Option ℕ). elim o [ some v ↦ some v | none ↦ get_from (load_tables listing) key ])
          (last_entry-put_all writes (new_database m ceil_m round_k threshold) key ∙ h)

  -- Two writes of one key to a valid database on a working disk that are logged in one order and take
  -- the latch in the other: the key reads as the later to take the latch, and after a recovery as the
  -- other.
  pub get-recover_crossed :
      (e : EmbeddedLsmDatabase m ceil_m round_k) (listing : List Entry) (key a b : ℕ)
      → IsValid e
      → let e1 = log_entry m ceil_m round_k true (log_entry m ceil_m round_k true e key b) key a in
        let e2 =
          apply_entry m ceil_m round_k working
            (apply_entry m ceil_m round_k working e1 key a)
            key
            b in
        (get m ceil_m round_k e2 key ≡ some b)
        × (get m ceil_m round_k (recover m ceil_m round_k listing true e2) key ≡ some a)
  unfolding log_entry
  get-recover_crossed e listing key a b v =
      let e1 = log_entry m ceil_m round_k true (log_entry m ceil_m round_k true e key b) key a in
      let e2 = apply_entry m ceil_m round_k working e1 key a in
      let e3 = apply_entry m ceil_m round_k working e2 key b in
      let v2 = apply_entry-IsValid working e1 key a v in
      let logged : e3.wal ≡ (e.wal ++ ((key, b) ∷ [])) ++ ((key, a) ∷ []) =
        (core-apply_entry e2 working key b).1 ∙ (core-apply_entry e1 working key a).1 in
      (
        ground (arith, get-apply_entry e2 key b key v2),
        ground (
          arith,
          get-recover listing e3 key,
          ap (λ w. last_entry w key) logged,
          last_entry-append (e.wal ++ ((key, b) ∷ [])) key a key,
        ),
      )
