-- ===== src/BTree/Order.antt =====
-- latch_crabbing_btree.hpp: the tree as a map from keys to values.
use cpp_interview.Prelude.{
  ℕ, suc, ◌+◌, ◌/◌, ◌≤◌, ◌<◌, ◌≡◌, refl, Bool, true, Option, none, some, List, [], ◌∷◌, ◌==◌, ltb,
  leb, if◌then◌else◌, length, get_or, arith, Bool-cases, inl, inr, length-take, length-drop, ◌∙◌,
}
use cpp_interview.Prelude.Sorted.{lower_bound}
use cpp_interview.BTree.{
  Node, leaf, internal, Children, nil, cons, find_child, search_leaf, insert_into_leaf, search_node,
  search_child, search, insert_node, insert_child, split_root, insert, new_tree,
}
use cpp_interview.BTree.Leaf.{
  below, AreKeys, search_leaf-insert, length-insert_into_leaf, AreKeys-insert, search_leaf-split,
  AreKeys-take, AreKeys-drop,
}

-- Each leaf has its keys in order and a value to each, an internal node one child more than keys, and the
-- keys under a child lie between the keys beside it.
abbrev mutual
  pub IsTree : ℕ → Option ℕ → Node → Type 0
  IsTree low high (leaf keys values) = AreKeys low high keys × (length keys ≡ length values)
  IsTree low high (internal keys children) = AreTrees low high keys children

  pub AreTrees : ℕ → Option ℕ → List ℕ → Children → Type 0
  AreTrees low high keys nil = ⊥
  AreTrees low high [] (cons n nil) = IsTree low high n
  AreTrees low high [] (cons n (cons m children)) = ⊥
  AreTrees low high (k ∷ keys) (cons n children) =
      (below high k ≡ true) × IsTree low (some k) n × AreTrees k high keys children

find_child-cons :
    (k key : ℕ) (keys : List ℕ)
    → find_child (k ∷ keys) key ≡ (if leb k key then suc (find_child keys key) else 0)
unfolding find_child
find_child-cons k key keys = refl

module _ (max_keys : ℕ) where
  mutual
    unfolding search_node insert_node find_child

    search_node-insert_node :
        (low : ℕ) (high : Option ℕ) (n : Node) (d : ℕ) (ancestors : List ℕ) (owned : Bool)
        (key val j : ℕ)
        → IsTree low high n
        → (search_node d j (insert_node max_keys d ancestors owned key val n).0).0
          ≡ (if key == j then some val else (search_node d j n).0)
    search_node-insert_node low high (leaf keys values) d ancestors owned key val j t =
        search_leaf-insert keys values key val j t.1
    search_node-insert_node low high (internal keys children) d ancestors owned key val j t =
        search_child-insert_child low high keys children d ancestors owned key val j t

    search_child-insert_child :
        (low : ℕ) (high : Option ℕ) (keys : List ℕ) (children : Children) (d : ℕ)
        (ancestors : List ℕ) (owned : Bool) (key val j : ℕ)
        → AreTrees low high keys children
        → (search_child d j
            (insert_child max_keys d ancestors owned key val children (find_child keys key)).0
            (find_child keys j)).0
          ≡ (if key == j then some val else (search_child d j children (find_child keys j)).0)
    search_child-insert_child low high keys nil d ancestors owned key val j t = elim t [ ]
    search_child-insert_child low high [] (cons n nil) d ancestors owned key val j t =
        search_node-insert_node low high n (d + 1) _ _ key val j t
    search_child-insert_child low high [] (cons n (cons m children)) d ancestors owned key val j t =
        elim t [ ]
    search_child-insert_child low high (k ∷ keys) (cons n children) d ancestors owned key val j t =
        let left = λ (a : List ℕ) (o : Bool).
          search_node-insert_node low (some k) n (d + 1) a o key val j t.1 in
        let right =
          search_child-insert_child k high keys children d ancestors owned key val j t.2 in
        elim (Bool-cases (leb k key)) [
          | inl e ↦ rw e (elim (Bool-cases (leb k j)) [
            | inl f ↦ rw f right
            | inr f ↦ rw f (ground (arith, e, f))
          ])
          | inr e ↦ rw e (elim (Bool-cases (leb k j)) [
            | inl f ↦ rw f (ground (arith, e, f))
            | inr f ↦ rw f (left _ _)
          ])
        ]

  -- The written key stays between the bounds of the node.
  mutual
    unfolding insert_node find_child

    insert_node-IsTree :
        (low : ℕ) (high : Option ℕ) (n : Node) (d : ℕ) (ancestors : List ℕ) (owned : Bool)
        (key val : ℕ)
        → low ≤ key
        → below high key ≡ true
        → IsTree low high n
        → IsTree low high (insert_node max_keys d ancestors owned key val n).0
    insert_node-IsTree low high (leaf keys values) d ancestors owned key val from b t = (
      AreKeys-insert low high keys values key val t.1 from b t.0,
      length-insert_into_leaf keys values key val t.1,
    )
    insert_node-IsTree low high (internal keys children) d ancestors owned key val from b t =
        insert_child-AreTrees low high keys children d ancestors owned key val from b t

    insert_child-AreTrees :
        (low : ℕ) (high : Option ℕ) (keys : List ℕ) (children : Children) (d : ℕ)
        (ancestors : List ℕ) (owned : Bool) (key val : ℕ)
        → low ≤ key
        → below high key ≡ true
        → AreTrees low high keys children
        → AreTrees low high keys
            (insert_child max_keys d ancestors owned key val children (find_child keys key)).0
    insert_child-AreTrees low high keys nil d ancestors owned key val from b t = elim t [ ]
    insert_child-AreTrees low high [] (cons n nil) d ancestors owned key val from b t =
        insert_node-IsTree low high n (d + 1) _ _ key val from b t
    insert_child-AreTrees low high [] (cons n (cons m children)) d ancestors owned key val from b
          t =
        elim t [ ]
    insert_child-AreTrees low high (k ∷ keys) (cons n children) d ancestors owned key val from b t =
        let left = λ (a : List ℕ) (o : Bool) (h : ltb key k ≡ true).
          insert_node-IsTree low (some k) n (d + 1) a o key val from h t.1 in
        let right = λ (h : k ≤ key).
          insert_child-AreTrees k high keys children d ancestors owned key val h b t.2 in
        elim (Bool-cases (leb k key)) [
          | inl e ↦ rw e (t.0, t.1, right (ground (arith, e)))
          | inr e ↦ rw e (t.0, left _ _ (ground (arith, e)), t.2)
        ]

  module _ (keys values : List ℕ) (e : length keys ≡ length values) (a : AreKeys 0 none keys) where
    search-split_root :
        (j : ℕ) → (search_node 0 j (split_root max_keys keys values)).0 ≡ search_leaf keys values j
    unfolding split_root search_node find_child
    search-split_root j =
        let mid = length keys / 2 in
        let halves = λ (h : mid < length keys). search_leaf-split 0 none mid keys values j h e a in
        elim (Bool-cases (ltb max_keys (length keys))) [
          | inl f ↦ rw f (elim (Bool-cases (leb (get_or keys mid 0) j)) [
            | inl g ↦ rw g (ground (arith, halves (ground (arith, f)), g))
            | inr g ↦ rw g (ground (arith, halves (ground (arith, f)), g))
          ])
          | inr f ↦ rw f refl
        ]

    split_root-IsTree : IsTree 0 none (split_root max_keys keys values)
    unfolding split_root
    split_root-IsTree =
        let mid = length keys / 2 in
        elim (Bool-cases (ltb max_keys (length keys))) [
          | inl f ↦
              let h : mid < length keys = ground (arith, f) in
              rw f (
                refl,
                (
                  AreKeys-take 0 none mid keys h a,
                  omega (arith, length-take mid keys, length-take mid values, e),
                ),
                (
                  AreKeys-drop 0 none mid keys h a,
                  omega (arith, length-drop mid keys, length-drop mid values, e),
                ),
              )
          | inr f ↦ rw f (a, e)
        ]

  search-insert :
      (root : Node) (key val j : ℕ)
      → IsTree 0 none root
      → (search (insert max_keys root key val).0 j).0
        ≡ (if key == j then some val else (search root j).0)
  unfolding search insert search_node
  search-insert (leaf keys values) key val j t =
      let r : List ℕ × List ℕ = insert_into_leaf keys values key val in
      search-split_root r.0 r.1 (length-insert_into_leaf keys values key val t.1)
        (AreKeys-insert 0 none keys values key val t.1 (omega arith) refl t.0) j
      ∙ search_leaf-insert keys values key val j t.1
  search-insert (internal keys children) key val j t =
      search_node-insert_node 0 none (internal keys children) 0 _ _ key val j t

  insert-IsTree :
      (root : Node) (key val : ℕ)
      → IsTree 0 none root
      → IsTree 0 none (insert max_keys root key val).0
  unfolding insert
  insert-IsTree (leaf keys values) key val t =
      let r : List ℕ × List ℕ = insert_into_leaf keys values key val in
      split_root-IsTree r.0 r.1 (length-insert_into_leaf keys values key val t.1)
        (AreKeys-insert 0 none keys values key val t.1 (omega arith) refl t.0)
  insert-IsTree (internal keys children) key val t =
      insert_node-IsTree 0 none (internal keys children) 0 _ _ key val (omega arith) refl t

  -- The tree after the insertions of a list, the last one first.
  abbrev pub insert_all : List (ℕ × ℕ) → Node
  insert_all [] = new_tree
  insert_all ((key, val) ∷ calls) = (insert max_keys (insert_all calls) key val).0

  pub insert_all-IsTree : (calls : List (ℕ × ℕ)) → IsTree 0 none (insert_all calls)
  insert_all-IsTree [] = (tt, refl)
  insert_all-IsTree ((key, val) ∷ calls) =
      insert-IsTree (insert_all calls) key val (insert_all-IsTree calls)

abbrev pub last_value : List (ℕ × ℕ) → ℕ → Option ℕ
last_value [] j = none
last_value ((key, val) ∷ calls) j = if key == j then some val else last_value calls j

new_tree_lem : (j : ℕ) → (search new_tree j).0 ≡ none
unfolding search search_node search_leaf lower_bound
new_tree_lem j = refl

-- After any insertions into a new tree, for any bound on the keys of a node, a search finds the value that
-- was written last for its key, and nothing for a key that was never written; and each leaf has its keys in
-- ascending order within those of the nodes above it, and as many values as keys.
pub search-insert_all :
    (max_keys : ℕ) (calls : List (ℕ × ℕ)) (j : ℕ)
    → ((search (insert_all max_keys calls) j).0 ≡ last_value calls j)
      × IsTree 0 none (insert_all max_keys calls)
search-insert_all max_keys [] j = (new_tree_lem j, (tt, refl))
search-insert_all max_keys ((key, val) ∷ calls) j = (
  rw
      (search-insert max_keys (insert_all max_keys calls) key val j
        (insert_all-IsTree max_keys calls))
      (rw ((search-insert_all max_keys calls j).0) refl),
  insert_all-IsTree max_keys ((key, val) ∷ calls),
)
