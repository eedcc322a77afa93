-- ===== src/Lsm/SkipList.antt =====
-- skiplist_memtable.hpp. A pointer is the number of a node, and node 0 is the head; the nodes are a
-- function of it. The random engine is a parameter: a draw says whether the number is below 0.5. The
-- latch makes each call one step.
pub mod Walk
pub mod Links
pub mod Insert
pub mod Splice
pub mod Order
pub mod Place
pub mod NewKey
pub mod SetValue
pub mod Refine
pub mod Ends
use cpp_interview.Prelude.{
  ℕ, zero, suc, ◌+◌, ◌-◌, ◌*◌, Bool, true, false, ◌&&◌, Option, none, some, List, [], ◌∷◌, ◌==◌,
  ltb, leb, if◌then◌else◌,
}
use cpp_interview.Prelude.Dict.{Dict}

abbrev pub max_level : ℕ
max_level = 16

pub record Node : Type 0 where
  pub key : ℕ
  pub value : ℕ
  pub level : ℕ
  pub forward : ℕ → Option ℕ

abbrev pub new_node : ℕ → ℕ → ℕ → Node
new_node key value level = record { key = key; value = value; level = level; forward = λ _. none }

-- The heap of nodes, with one of them replaced.
abbrev pub set_node : (ℕ → Node) → ℕ → Node → ℕ → Node
set_node nodes p n q = if p == q then n else nodes q

-- `p->forward[i] = to`
abbrev pub set_forward : (ℕ → Node) → ℕ → ℕ → Option ℕ → ℕ → Node
set_forward nodes p i to =
    set_node nodes p
      (record (nodes p) { forward = λ j. if i == j then to else (nodes p).forward j })

-- The inner loop: forward on level `i` while the next key is smaller. `n` bounds the rounds.
unfoldable pub walk : ℕ → (ℕ → Node) → ℕ → ℕ → ℕ → ℕ
walk zero nodes i key curr = curr
walk (suc n) nodes i key curr = elim ((nodes curr).forward i) [
  | none ↦ curr
  | some q ↦ let rest = walk n nodes i key q in if ltb (nodes q).key key then rest else curr
]

-- The outer loop over the levels below `i`: where it ends, and `update`.
unfoldable pub descend : ℕ → (ℕ → Node) → ℕ → ℕ → ℕ → (ℕ → Option ℕ) → ℕ × (ℕ → Option ℕ)
descend n nodes key zero curr update = (curr, update)
descend n nodes key (suc i) curr update =
    let p = walk n nodes i key curr in
    descend n nodes key i p (λ j. if i == j then some p else update j)

-- The loop that links the node `p` from level `i` on, for `n` levels. A null pointer in `update`, which
-- would be an error of the program, ends it.
unfoldable pub link : ℕ → (ℕ → Option ℕ) → ℕ → ℕ → (ℕ → Node) → ℕ → Node
link p update zero i nodes = nodes
link p update (suc n) i nodes = elim (update i) [
  | none ↦ nodes
  | some u ↦
      link p update n (i + 1)
        (set_forward (set_forward nodes p i ((nodes u).forward i)) u i (some p))
]

-- The loop of `to_vector` and of the destructor. `n` bounds the rounds.
unfoldable pub walk_all : ℕ → (ℕ → Node) → Option ℕ → Dict ℕ
walk_all zero nodes curr = []
walk_all (suc n) nodes none = []
walk_all (suc n) nodes (some p) =
    ((nodes p).key, (nodes p).value) ∷ walk_all n nodes ((nodes p).forward 0)

-- The result of `get` at the node where the search ended.
unfoldable pub check_key : (ℕ → Node) → ℕ → Option ℕ → Option ℕ
check_key nodes key none = none
check_key nodes key (some p) = if (nodes p).key == key then some (nodes p).value else none

module _ {Rng : Type 0} (draw : Rng → Bool × Rng) where
  -- The loop of `random_level`, `n` rounds at most.
  unfoldable pub raise : ℕ → ℕ → Rng → ℕ × Rng
  raise zero lvl rng = (lvl, rng)
  raise (suc n) lvl rng =
      let (low, rng1) = draw rng in
      let higher = raise n (lvl + 1) rng1 in
      if low && ltb lvl max_level then higher else (lvl, rng1)

  unfoldable pub random_level : Rng → ℕ × Rng
  unfolding raise
  random_level rng = raise max_level 1 rng

-- `count` nodes have been allocated beside the head. `node_size` and `pointer_size` are the `sizeof`s.
pub record SkipList (Rng : Type 0) : Type 0 where
  pub nodes : ℕ → Node
  pub count : ℕ
  pub current_level : ℕ
  pub size : ℕ
  pub byte_size : ℕ
  pub rng : Rng

module _ {Rng : Type 0} where
  unfoldable pub new_list : Rng → SkipList Rng
  new_list rng = record {
    nodes = λ _. new_node 0 0 max_level;
    count = 0;
    current_level = 1;
    size = 0;
    byte_size = 0;
    rng = rng;
  }

  unfoldable pub get : SkipList Rng → ℕ → Option ℕ
  get s key =
      let (curr, update) = descend s.count s.nodes key s.current_level 0 (λ _. none) in
      check_key s.nodes key ((s.nodes curr).forward 0)

  unfoldable pub to_vector : SkipList Rng → Dict ℕ
  to_vector s = walk_all s.count s.nodes ((s.nodes 0).forward 0)

module _ {Rng : Type 0} (node_size pointer_size : ℕ) where
  -- A new node, with the level that was drawn, behind the ends of the search.
  unfoldable pub insert_node : SkipList Rng → (ℕ → Option ℕ) → ℕ → ℕ → ℕ → Rng → SkipList Rng
  insert_node s update key value level rng =
      let p = s.count + 1 in
      let update1 = λ (i : ℕ). if leb s.current_level i && ltb i level then some 0 else update i in
      record {
        nodes = link p update1 level 0 (set_node s.nodes p (new_node key value level));
        count = p;
        current_level = if ltb s.current_level level then level else s.current_level;
        size = s.size + 1;
        byte_size = s.byte_size + (node_size + level * pointer_size);
        rng = rng;
      }

module _ {Rng : Type 0} (draw : Rng → Bool × Rng) (node_size pointer_size : ℕ) where
  -- What `put` does at the node behind the end of the search, if there is one.
  unfoldable pub put_at : SkipList Rng → (ℕ → Option ℕ) → ℕ → ℕ → Option ℕ → SkipList Rng
  put_at s update key value none =
      let (level, rng) = random_level draw s.rng in
      insert_node node_size pointer_size s update key value level rng
  put_at s update key value (some q) =
      let (level, rng) = random_level draw s.rng in
      if (s.nodes q).key == key
      then record s { nodes = set_node s.nodes q (record (s.nodes q) { value = value }) }
      else insert_node node_size pointer_size s update key value level rng

  unfoldable pub put : SkipList Rng → ℕ → ℕ → SkipList Rng
  unfolding put_at insert_node
  put s key value =
      let (curr, update) = descend s.count s.nodes key s.current_level 0 (λ _. none) in
      put_at s update key value ((s.nodes curr).forward 0)
