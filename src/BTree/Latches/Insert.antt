-- ===== src/BTree/Latches/Insert.antt =====
-- latch_crabbing_btree.hpp: the latches of an insertion.
use cpp_interview.Prelude.{
  ℕ, ◌+◌, ◌≤◌, ◌≡◌, refl, Bool, true, false, ◌&&◌, ◌||◌, not, Option, none, some, List, [], ◌∷◌,
  ◌++◌, ltb, leb, if◌then◌else◌, length, arith, Bool-cases, inl, inr, ◌∙◌,
}
use mathlib.Core.List.{append_assoc, append-nil}
use cpp_interview.Prelude.Sorted.{contains}
use cpp_interview.BTree.{
  Node, leaf, internal, Children, nil, cons, shared, exclusive, Latching, lock, unlock, find_child,
  search, unlock_all, release, is_safe_for_insert, insert_node, insert_child, insert,
}
use cpp_interview.BTree.Order.{IsTree, AreTrees}
use cpp_interview.BTree.Latches.{
  without, play, Within, root_latch, contains-append, contains-Within, Within-append, contains_self,
  play-lock, play-unlock, without_self, play_nil, play-search_node,
}

contains-root :
    (owned : Bool) (l : ℕ) (held : List ℕ) → contains l (root_latch owned ++ (l ∷ held)) ≡ true
unfolding contains
contains-root true l held = ground arith
contains-root false l held = ground arith

without-root :
    (owned : Bool) (l : ℕ) (held : List ℕ)
    → 1 ≤ l
    → without l (root_latch owned ++ (l ∷ held)) ≡ root_latch owned ++ held
without-root true l held h = ground arith
without-root false l held h = ground arith

contains-past_root :
    (owned : Bool) (l : ℕ) (held : List ℕ)
    → 1 ≤ l
    → contains l (root_latch owned ++ held) ≡ contains l held
unfolding contains
contains-past_root true l held h = ground arith
contains-past_root false l held h = refl

play_lock_child :
    (d : ℕ) (ancestors : List ℕ) (owned : Bool) (ls : List Latching)
    → Within d ancestors
    → contains (d + 1) ancestors ≡ true
    → play exclusive (lock exclusive (d + 2) ∷ ls) (root_latch owned ++ ancestors)
      ≡ play exclusive ls (root_latch owned ++ (ancestors ++ ((d + 2) ∷ [])))
play_lock_child d ancestors owned ls w c =
    play-lock exclusive (d + 2) (d + 1) ls (root_latch owned ++ ancestors) (omega arith)
      (contains-past_root owned (d + 2) ancestors (omega arith)
        ∙ contains-Within d (d + 2) ancestors w (omega arith))
      (contains-past_root owned (d + 1) ancestors (omega arith) ∙ c)
    ∙ rw (append_assoc (root_latch owned) ancestors ((d + 2) ∷ [])) refl

abbrev next_held : Bool → ℕ → List ℕ → List ℕ
next_held safe d ancestors = (if safe then [] else ancestors) ++ ((d + 2) ∷ [])

Within-next_held :
    (safe : Bool) (d : ℕ) (ancestors : List ℕ)
    → Within d ancestors
    → Within (d + 1) (next_held safe d ancestors)
Within-next_held true d ancestors w = ((omega arith, omega arith), tt)
Within-next_held false d ancestors w = Within-append d ancestors w

contains_last : (b : Bool) (d : ℕ) → (b || contains (d + 1 + 1) ((d + 2) ∷ [])) ≡ true
unfolding contains
contains_last b d = ground arith

contains-next_held :
    (safe : Bool) (d : ℕ) (ancestors : List ℕ)
    → contains (d + 1 + 1) (next_held safe d ancestors) ≡ true
contains-next_held safe d ancestors =
    contains-append (d + 1 + 1) (if safe then [] else ancestors) ((d + 2) ∷ [])
    ∙ contains_last (contains (d + 1 + 1) (if safe then [] else ancestors)) d

module _ (max_keys : ℕ) where
  -- The latches of the ancestors, and the root's if it is held, are given back, and no other.
  play-unlock_all :
      (owned : Bool) (d : ℕ) (ancestors back : List ℕ) (ls : List Latching)
      → Within d ancestors
      → play exclusive (unlock_all ancestors ++ ls) (root_latch owned ++ (ancestors ++ back))
        ≡ play exclusive ls (root_latch owned ++ back)
  play-unlock_all owned d [] back ls w = refl
  play-unlock_all owned d (a ∷ ancestors) back ls w =
      play-unlock exclusive a (unlock_all ancestors ++ ls)
        (root_latch owned ++ (a ∷ (ancestors ++ back))) (contains-root owned a (ancestors ++ back))
      ∙ rw (without-root owned a (ancestors ++ back) w.0.0)
          (play-unlock_all owned d ancestors back ls w.1)

  play-release :
      (owned : Bool) (d : ℕ) (ancestors back : List ℕ) (ls : List Latching)
      → Within d ancestors
      → play exclusive
          (release true ancestors owned ++ ls)
          (root_latch owned ++ (ancestors ++ back))
        ≡ play exclusive ls back
  play-release true d ancestors back ls w =
      rw (append_assoc (unlock_all ancestors) (unlock exclusive 0 ∷ []) ls) (
        play-unlock_all true d ancestors back (unlock exclusive 0 ∷ ls) w
        ∙ play-unlock exclusive 0 ls (0 ∷ back) (contains_self 0 back)
        ∙ rw (without_self 0 back) refl)
  play-release false d ancestors back ls w =
      rw (append_assoc (unlock_all ancestors) [] ls) (play-unlock_all false d ancestors back ls w)

  play-release_all :
      (owned : Bool) (d : ℕ) (ancestors : List ℕ)
      → Within d ancestors
      → play exclusive (release true ancestors owned) (root_latch owned ++ ancestors) ≡ some []
  play-release_all owned d ancestors w =
      let e : play exclusive (release true ancestors owned ++ [])
            (root_latch owned ++ (ancestors ++ []))
          ≡ play exclusive [] [] =
        play-release owned d ancestors [] [] w in
      rw (append-nil (release true ancestors owned), append-nil ancestors) at e ∙ play_nil exclusive

  -- A child is latched while its parent is held, and gives the ancestors back when it is safe.
  play_child :
      (d : ℕ) (ancestors : List ℕ) (owned safe : Bool) (ls : List Latching)
      → Within d ancestors
      → contains (d + 1) ancestors ≡ true
      → play exclusive ls (root_latch (owned && not safe) ++ (next_held safe d ancestors)) ≡ some []
      → play exclusive
          (lock exclusive (d + 2) ∷ (release safe ancestors owned ++ ls))
          (root_latch owned ++ ancestors)
        ≡ some []
  play_child d ancestors true true ls w c h =
      play_lock_child d ancestors true (release true ancestors true ++ ls) w c
      ∙ play-release true d ancestors ((d + 2) ∷ []) ls w
      ∙ h
  play_child d ancestors false true ls w c h =
      play_lock_child d ancestors false (release true ancestors false ++ ls) w c
      ∙ play-release false d ancestors ((d + 2) ∷ []) ls w
      ∙ h
  play_child d ancestors true false ls w c h = play_lock_child d ancestors true ls w c ∙ h
  play_child d ancestors false false ls w c h = play_lock_child d ancestors false ls w c ∙ h

  mutual
    unfolding insert_node find_child

    play-insert_node :
        (low : ℕ) (high : Option ℕ) (n : Node) (d : ℕ) (ancestors : List ℕ) (owned : Bool)
        (key val : ℕ)
        → IsTree low high n
        → Within d ancestors
        → contains (d + 1) ancestors ≡ true
        → play exclusive
            (insert_node max_keys d ancestors owned key val n).1
            (root_latch owned ++ ancestors)
          ≡ some []
    play-insert_node low high (leaf keys values) d ancestors owned key val t w c =
        play-release_all owned d ancestors w
    play-insert_node low high (internal keys children) d ancestors owned key val t w c =
        play-insert_child low high keys children d ancestors owned key val t w c

    play-insert_child :
        (low : ℕ) (high : Option ℕ) (keys : List ℕ) (children : Children) (d : ℕ)
        (ancestors : List ℕ) (owned : Bool) (key val : ℕ)
        → AreTrees low high keys children
        → Within d ancestors
        → contains (d + 1) ancestors ≡ true
        → play exclusive
            (insert_child max_keys d ancestors owned key val children (find_child keys key)).1
            (root_latch owned ++ ancestors)
          ≡ some []
    play-insert_child low high keys nil d ancestors owned key val t w c = elim t [ ]
    play-insert_child low high [] (cons n nil) d ancestors owned key val t w c =
        let safe = is_safe_for_insert max_keys n in
        play_child d ancestors owned safe _ w c (
          play-insert_node low high n (d + 1) (next_held safe d ancestors) (owned && not safe) key
            val t (Within-next_held safe d ancestors w) (contains-next_held safe d ancestors))
    play-insert_child low high [] (cons n (cons m children)) d ancestors owned key val t w c =
        elim t [ ]
    play-insert_child low high (k ∷ keys) (cons n children) d ancestors owned key val t w c =
        let safe = is_safe_for_insert max_keys n in
        elim (Bool-cases (leb k key)) [
          | inl e ↦ rw e (play-insert_child k high keys children d ancestors owned key val t.2 w c)
          | inr e ↦ rw e (
              play_child d ancestors owned safe _ w c (
                play-insert_node low (some k) n (d + 1) (next_held safe d ancestors)
                  (owned && not safe) key val t.1 (Within-next_held safe d ancestors w)
                  (contains-next_held safe d ancestors)))
        ]

  play-insert :
      (root : Node) (key val : ℕ)
      → IsTree 0 none root
      → play exclusive (insert max_keys root key val).1 [] ≡ some []
  unfolding insert play contains
  play-insert (leaf keys values) key val t = refl
  play-insert (internal keys children) key val t = elim (Bool-cases (ltb (length keys) max_keys)) [
    | inl e ↦ rw e (
        play-insert_node 0 none (internal keys children) 0 (1 ∷ []) false key val t
          ((omega arith, omega arith), tt) refl)
    | inr e ↦ rw e (
        play-insert_node 0 none (internal keys children) 0 (1 ∷ []) true key val t
          ((omega arith, omega arith), tt) refl)
  ]

-- On any tree in order, of a search and of an insertion with any bound on the keys of a node: no latch is taken
-- that the call already holds, each but that of the root is taken while the one before it on the way
-- down is held, none is given back that is not held, and at the end all are given back; a search takes and gives
-- back every latch as shared, and an insertion every one as exclusive.
pub play-search_and_insert :
    (max_keys : ℕ) (root : Node) (key val : ℕ)
    → IsTree 0 none root
    → (play shared (search root key).1 [] ≡ some [])
      × (play exclusive (insert max_keys root key val).1 [] ≡ some [])
unfolding search play contains
play-search_and_insert max_keys root key val t =
    (play-search_node 0 none root 0 key t, play-insert max_keys root key val t)
