-- ===== src/BTree/Tests.antt =====
-- Runs of latch_crabbing_btree.hpp on small trees.
use cpp_interview.Prelude.{ℕ, ◌≡◌, refl, some, none, List, [], ◌∷◌}
use cpp_interview.Prelude.Sorted.{lower_bound}
use cpp_interview.BTree.{
  Node, leaf, internal, nil, cons, shared, exclusive, search, insert, search_leaf, find_child,
  search_node, insert_node, insert_into_leaf, insert_at, split_root,
}
use cpp_interview.BTree.Order.{IsTree, insert_all, insert_all-IsTree, last_value, search-insert_all}
use cpp_interview.BTree.Latches.{play}
use cpp_interview.BTree.Latches.Insert.{play-search_and_insert}

abbrev calls : List (ℕ × ℕ)
calls = (7, 71) ∷ (4, 40) ∷ (9, 90) ∷ (7, 70) ∷ []

abbrev tree : Node
tree =
    internal (7 ∷ []) (cons (leaf (4 ∷ []) (40 ∷ [])) (cons (leaf (7 ∷ 9 ∷ []) (71 ∷ 90 ∷ [])) nil))

insert_all_run : insert_all 2 calls ≡ tree
unfolding insert insert_node search_leaf find_child insert_into_leaf insert_at lower_bound
    split_root
insert_all_run = refl

search_run : (search tree 7).0 ≡ some 71
unfolding search search_node search_leaf find_child lower_bound
search_run = refl

search-insert_all_example :
    ((search (insert_all 2 calls) 7).0 ≡ last_value calls 7) × IsTree 0 none (insert_all 2 calls)
search-insert_all_example = search-insert_all 2 calls 7

play-search_and_insert_example :
    (play shared (search (insert_all 2 calls) 8).1 [] ≡ some [])
    × (play exclusive (insert 2 (insert_all 2 calls) 8 80).1 [] ≡ some [])
play-search_and_insert_example =
    play-search_and_insert 2 (insert_all 2 calls) 8 80 (insert_all-IsTree 2 calls)
