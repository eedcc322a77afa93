-- ===== src/BTree.antt =====
-- 08-database-indexing-and-concurrency/exercises/latch_crabbing_btree.hpp. A call is taken whole: what
-- it does to the tree, and the latches that it takes and gives back on its way. The links between the
-- leaves are set by the code and never read, and are left out.
pub mod Leaf
pub mod Order
pub mod Latches
mod Tests
use cpp_interview.Prelude.{
  ℕ, zero, suc, ◌+◌, ◌-◌, ◌/◌, Bool, true, false, ◌&&◌, not, Option, none, some, List, [], ◌∷◌,
  ◌++◌, map, ◌==◌, ltb, leb, if◌then◌else◌, length, get_elem?, get_or, set, take, drop,
}
use cpp_interview.Prelude.Sorted.{lower_bound}

mutual
  pub data Node : Type 0 where
    leaf : List ℕ → List ℕ → Node
    internal : List ℕ → Children → Node

  pub data Children : Type 0 where
    nil : Children
    cons : Node → Children → Children

-- `lock_shared` and `unlock_shared`, or `lock` and `unlock`.
pub data Mode : Type 0 where
  shared : Mode
  exclusive : Mode

-- Latch 0 is `root_latch_`, and latch `d + 1` that of the node at depth `d` on the way of the call.
pub data Latching : Type 0 where
  lock : Mode → ℕ → Latching
  unlock : Mode → ℕ → Latching

abbrev pub count_keys : Node → ℕ
count_keys (leaf keys values) = length keys
count_keys (internal keys children) = length keys

-- The loop over the keys of an internal node.
unfoldable pub find_child : List ℕ → ℕ → ℕ
find_child [] key = 0
find_child (k ∷ keys) key = let rest = find_child keys key in if leb k key then suc rest else 0

unfoldable pub search_leaf : List ℕ → List ℕ → ℕ → Option ℕ
unfolding lower_bound
search_leaf keys values key =
    let idx = lower_bound key keys in
    elim (get_elem? keys idx) [
      | none ↦ none
      | some k ↦ if k == key then some (get_or values idx 0) else none
    ]

-- `v.insert(v.begin() + i, x)`
unfoldable pub insert_at : List ℕ → ℕ → ℕ → List ℕ
insert_at xs zero x = x ∷ xs
insert_at [] (suc i) x = x ∷ []
insert_at (y ∷ xs) (suc i) x = y ∷ insert_at xs i x

-- The keys and the values of the leaf after it.
unfoldable pub insert_into_leaf : List ℕ → List ℕ → ℕ → ℕ → List ℕ × List ℕ
unfolding lower_bound insert_at
insert_into_leaf keys values key val =
    let idx = lower_bound key keys in
    let added : List ℕ × List ℕ = (insert_at keys idx key, insert_at values idx val) in
    elim (get_elem? keys idx) [
      | none ↦ added
      | some k ↦ if k == key then (keys, set values idx val) else added
    ]

-- The loop of `search` from a node at depth `d`, whose latch is held.
unfoldable mutual
  unfolding search_leaf find_child

  pub search_node : ℕ → ℕ → Node → Option ℕ × List Latching
  search_node d key (leaf keys values) = (search_leaf keys values key, unlock shared (d + 1) ∷ [])
  search_node d key (internal keys children) = search_child d key children (find_child keys key)

  pub search_child : ℕ → ℕ → Children → ℕ → Option ℕ × List Latching
  search_child d key nil i = (none, [])
  search_child d key (cons n children) zero =
      let (found, latches) = search_node (d + 1) key n in
      (found, lock shared (d + 2) ∷ unlock shared (d + 1) ∷ latches)
  search_child d key (cons n children) (suc i) = search_child d key children i

unfoldable pub search : Node → ℕ → Option ℕ × List Latching
unfolding search_node
search root key =
    let (found, latches) = search_node 0 key root in
    (found, lock shared 0 ∷ lock shared 1 ∷ unlock shared 0 ∷ latches)

abbrev pub unlock_all : List ℕ → List Latching
unlock_all held = map (unlock exclusive) held

-- The latches that are given back at a safe node: those of its ancestors, and the root's if it is held.
abbrev pub release : Bool → List ℕ → Bool → List Latching
release safe ancestors owned =
    if safe then unlock_all ancestors ++ (if owned then unlock exclusive 0 ∷ [] else []) else []

module _ (max_keys : ℕ) where
  abbrev pub is_safe_for_insert : Node → Bool
  is_safe_for_insert n = ltb (count_keys n) max_keys

  -- The loop of `insert` from a node at depth `d`, which is the last of `locked_ancestors`. `owned` is
  -- whether the root latch is held.
  unfoldable mutual
    unfolding insert_into_leaf find_child

    pub insert_node : ℕ → List ℕ → Bool → ℕ → ℕ → Node → Node × List Latching
    insert_node d ancestors owned key val (leaf keys values) =
        let (keys1, values1) = insert_into_leaf keys values key val in
        (leaf keys1 values1, release true ancestors owned)
    insert_node d ancestors owned key val (internal keys children) =
        let (children1, latches) =
          insert_child d ancestors owned key val children (find_child keys key) in
        (internal keys children1, latches)

    pub insert_child : ℕ → List ℕ → Bool → ℕ → ℕ → Children → ℕ → Children × List Latching
    insert_child d ancestors owned key val nil i = (nil, [])
    insert_child d ancestors owned key val (cons n children) zero =
        let safe = is_safe_for_insert n in
        let ancestors1 = (if safe then [] else ancestors) ++ ((d + 2) ∷ []) in
        let (n1, latches) = insert_node (d + 1) ancestors1 (owned && not safe) key val n in
        (cons n1 children, lock exclusive (d + 2) ∷ (release safe ancestors owned ++ latches))
    insert_child d ancestors owned key val (cons n children) (suc i) =
        let (children1, latches) = insert_child d ancestors owned key val children i in
        (cons n children1, latches)

  -- A leaf at the root with too many keys is split in two.
  unfoldable pub split_root : List ℕ → List ℕ → Node
  split_root keys values =
      let mid = length keys / 2 in
      if ltb max_keys (length keys)
      then internal (get_or keys mid 0 ∷ []) (
          cons (leaf (take mid keys) (take mid values))
            (cons (leaf (drop mid keys) (drop mid values)) nil))
      else leaf keys values

  unfoldable pub insert : Node → ℕ → ℕ → Node × List Latching
  unfolding insert_node split_root insert_into_leaf
  insert (leaf keys values) key val =
      let (keys1, values1) = insert_into_leaf keys values key val in
      (
        split_root keys1 values1,
        lock exclusive 0 ∷ lock exclusive 1 ∷ unlock exclusive 1 ∷ unlock exclusive 0 ∷ [],
      )
  insert (internal keys children) key val =
      let safe = ltb (length keys) max_keys in
      let (root1, latches) = insert_node 0 (1 ∷ []) (not safe) key val (internal keys children) in
      (
        root1,
        lock exclusive 0
            ∷ lock exclusive 1
            ∷ ((if safe then unlock exclusive 0 ∷ [] else []) ++ latches),
      )

abbrev pub new_tree : Node
new_tree = leaf [] []
