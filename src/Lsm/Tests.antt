-- ===== src/Lsm/Tests.antt =====
-- The theorems on the LSM tree at small lists, filters, tables and engines, over the skip list.
use cpp_interview.Prelude.{
  ℕ, ◌*◌, ◌≡◌, refl, Bool, true, false, not, none, some, List, [], ◌∷◌, arith,
}
use cpp_interview.Prelude.Dict.{Dict, find}
use cpp_interview.Lsm.Bloom
use cpp_interview.Lsm.Bloom.{new_filter}
use cpp_interview.Lsm.Bloom.Membership.{add_all, contains-add_all, new_filter-IsValid}
use cpp_interview.Lsm.SsTable
use cpp_interview.Lsm.SsTable.{SsTable}
use cpp_interview.Lsm.SsTable.Records.{AreAscending}
use cpp_interview.Lsm.SsTable.Lookup.{get-build}
use cpp_interview.Lsm.MemTable.{MemTable}
use cpp_interview.Lsm.SkipList
use cpp_interview.Lsm.SkipList.{SkipList, max_level}
use cpp_interview.Lsm.SkipList.Ends.{Descends, Lists, descend-Descends}
use cpp_interview.Lsm.SkipList.Refine.{
  IsValid, new_list-Holds, skip_list, put-IsValid, get-put_list, find-to_vector,
}
use cpp_interview.Lsm.Engine
use cpp_interview.Lsm.Engine.{LsmEngine, working}
use cpp_interview.Lsm.Engine.Refine
use cpp_interview.Lsm.Engine.Refine.{get-put_engine, get-flush_memtable, get-flush_refused}
use cpp_interview.Lsm.Database
use cpp_interview.Lsm.Database.{EmbeddedLsmDatabase}
use cpp_interview.Lsm.Database.Recovery
use cpp_interview.Lsm.Database.Recovery.{
  get-put_database, get-recover, get-recover-put_all, get-recover_crossed, put_all,
}

-- Ten bits for each key, and seven hashes.
abbrev ceil_m : ℕ → ℕ
ceil_m n = n * 10

abbrev round_k : ℕ → ℕ → ℕ
round_k m n = 7

contains-add_all_example :
    Bloom.contains
      (add_all (5 ∷ []) (Bloom.add (add_all (3 ∷ []) (new_filter ceil_m round_k 3)) 4))
      4
    ≡ true
contains-add_all_example =
    contains-add_all (3 ∷ []) (5 ∷ []) (new_filter ceil_m round_k 3) 4
      (new_filter-IsValid ceil_m round_k 3)

abbrev two_pairs : Dict ℕ
two_pairs = (1, 10) ∷ (2, 20) ∷ []

two_pairs-AreAscending : AreAscending two_pairs
two_pairs-AreAscending = ((ground arith, tt), (tt, tt))

get-build_example :
    (file : List ℕ) × (t : SsTable) × (SsTable.build ceil_m round_k true two_pairs ≡ some file)
    × (SsTable.open_table true file ≡ some t)
    × ((key : ℕ) → SsTable.get t key ≡ find key two_pairs)
get-build_example = get-build ceil_m round_k (1, 10) ((2, 20) ∷ []) two_pairs-AreAscending

-- A coin that falls on its two sides in turn.
abbrev coin : Bool → Bool × Bool
coin b = (b, not b)

abbrev put : SkipList Bool → ℕ → ℕ → SkipList Bool
put = SkipList.put coin 48 8

abbrev two_nodes : SkipList Bool
two_nodes = put (put (SkipList.new_list true) 7 70) 3 30

two_nodes-IsValid : IsValid two_nodes
two_nodes-IsValid =
    put-IsValid coin 48 8 (put (SkipList.new_list true) 7 70) 3 30
      (put-IsValid coin 48 8 (SkipList.new_list true) 7 70 ([], new_list-Holds true))

get-put_list_example : SkipList.get (put two_nodes 5 50) 7 ≡ SkipList.get two_nodes 7
get-put_list_example = get-put_list coin 48 8 two_nodes 5 50 7 two_nodes-IsValid

find-to_vector_example :
    AreAscending (SkipList.to_vector two_nodes)
    × ((key : ℕ) → find key (SkipList.to_vector two_nodes) ≡ SkipList.get two_nodes key)
find-to_vector_example = find-to_vector two_nodes two_nodes-IsValid

two_nodes_count : two_nodes.count ≡ 2
unfolding SkipList.put SkipList.put_at SkipList.insert_node SkipList.random_level SkipList.raise
    SkipList.new_list SkipList.descend SkipList.walk SkipList.link
two_nodes_count = refl

descend-Descends_example :
    let (r, update) = SkipList.descend 9 two_nodes.nodes 5 two_nodes.current_level 0 (λ _. none) in
    let first = (two_nodes.nodes 0).forward 0 in
    Descends two_nodes.nodes 5 two_nodes.current_level 0 (λ _. none) r update
    × Lists two_nodes.nodes first (SkipList.walk_all 9 two_nodes.nodes first)
descend-Descends_example =
    descend-Descends 9 two_nodes 5 two_nodes-IsValid (omega (arith, two_nodes_count))

abbrev memtable : MemTable
memtable = skip_list coin 48 8 true

-- An engine with a memtable that is full at its second node, and one that holds a key.
abbrev new_engine : LsmEngine memtable ceil_m round_k
new_engine = Engine.new_engine memtable ceil_m round_k 100

new_engine-IsValid : Refine.IsValid memtable ceil_m round_k new_engine
new_engine-IsValid = Refine.new_engine-IsValid memtable ceil_m round_k 100

abbrev one_key : LsmEngine memtable ceil_m round_k
one_key = Engine.put memtable ceil_m round_k working new_engine 1 10

one_key-IsValid : Refine.IsValid memtable ceil_m round_k one_key
one_key-IsValid =
    Refine.put-IsValid memtable ceil_m round_k working new_engine 1 10 new_engine-IsValid

get-put_engine_example :
    Engine.get memtable ceil_m round_k (Engine.put memtable ceil_m round_k working one_key 2 20) 1
    ≡ Engine.get memtable ceil_m round_k one_key 1
get-put_engine_example = get-put_engine memtable ceil_m round_k one_key 2 20 1 one_key-IsValid

one_key_size : memtable.size one_key.memtable ≡ 1
unfolding Engine.put Engine.new_engine SkipList.put SkipList.put_at SkipList.insert_node
    SkipList.random_level SkipList.raise SkipList.new_list SkipList.descend SkipList.walk
    SkipList.link
one_key_size = refl

get-flush_refused_example :
    Engine.get memtable ceil_m round_k
      (Engine.flush_memtable memtable ceil_m round_k
        (record { created = false; opened = true })
        one_key)
      1
    ≡ Engine.get_from one_key.sstables 1
get-flush_refused_example =
    get-flush_refused memtable ceil_m round_k true one_key 1 one_key-IsValid
      (λ e. omega (arith, one_key_size, e))

abbrev new_database : EmbeddedLsmDatabase memtable ceil_m round_k
new_database = Database.new_database memtable ceil_m round_k 100

new_database-IsValid : Recovery.IsValid memtable ceil_m round_k new_database
new_database-IsValid = Recovery.new_database-IsValid memtable ceil_m round_k 100

get-recover-put_all_example :
    Database.get memtable ceil_m round_k
      (Database.recover memtable ceil_m round_k [] true
        (put_all memtable ceil_m round_k ((working, 1, 10) ∷ (working, 1, 11) ∷ []) new_database))
      1
    ≡ some 11
get-recover-put_all_example =
    get-recover-put_all memtable ceil_m round_k 100 ((working, 1, 10) ∷ (working, 1, 11) ∷ []) [] 1
      11 refl

get-recover_crossed_example :
    let e1 =
      Database.log_entry memtable ceil_m round_k true
        (Database.log_entry memtable ceil_m round_k true new_database 1 20)
        1
        10 in
    let e2 =
      Database.apply_entry memtable ceil_m round_k working
        (Database.apply_entry memtable ceil_m round_k working e1 1 10)
        1
        20 in
    (Database.get memtable ceil_m round_k e2 1 ≡ some 20)
    × (Database.get memtable ceil_m round_k (Database.recover memtable ceil_m round_k [] true e2) 1
        ≡ some 10)
get-recover_crossed_example =
    get-recover_crossed memtable ceil_m round_k new_database [] 1 10 20 new_database-IsValid
