-- ===== src/Lsm/SkipList/Refine.antt =====
-- skiplist_memtable.hpp as a memtable.
use cpp_interview.Prelude.{
  ℕ, zero, suc, ◌+◌, ◌≤◌, ◌<◌, ◌≡◌, refl, ap, sym, ◌∙◌, subst, ◌≢◌, Bool, true, none, some, List,
  [], ◌∷◌, ◌++◌, ◌==◌, ltb, if◌then◌else◌, length, arith, Bool-cases, inl, inr, Option,
}
use cpp_interview.Prelude.Dict.{Dict, find}
use cpp_interview.Lsm.SsTable.Records.{AllAbove, AreAscending}
use cpp_interview.Lsm.MemTable.{MemTable}
use cpp_interview.Lsm.SkipList.{
  Node, SkipList, new_list, insert_node, put_at, put, get, to_vector, walk_all, random_level,
  descend,
}
use cpp_interview.Lsm.SkipList.Walk.{first_at, AreLinked}
use cpp_interview.Lsm.SkipList.Links.{last_at}
use cpp_interview.Lsm.SkipList.Order.{
  pairs_of, ArePlaced, back-ArePlaced, Holds, Holds-IsSplit, IsSplit, back-AreAscending,
  searched_lem, next_lem, get-find,
}
use cpp_interview.Lsm.SkipList.NewKey.{find-with_entry, insert_node-Holds}
use cpp_interview.Lsm.SkipList.SetValue.{random_level_bounds, set_value-Holds}

-- Along level 0 the list is read out.
walk_all-pairs_of :
    (n : ℕ) (nodes : ℕ → Node) (count top : ℕ) (l : List ℕ)
    → length l ≤ n
    → AreLinked nodes l
    → ArePlaced nodes count top l
    → walk_all n nodes (first_at nodes 0 l) ≡ pairs_of nodes l
unfolding walk_all first_at pairs_of
walk_all-pairs_of zero nodes count top [] le h p = refl
walk_all-pairs_of zero nodes count top (q ∷ l) le h p = absurd (omega arith)
walk_all-pairs_of (suc n) nodes count top [] le h p = refl
walk_all-pairs_of (suc n) nodes count top (q ∷ l) le h p =
    let on : ltb 0 (nodes q).level ≡ true = ground (arith, p.0) in
    rw on (
      ap (λ t. ((nodes q).key, (nodes q).value) ∷ walk_all n nodes t) (h.0 0 (omega (arith, p.0)))
      ∙ ap (◌∷◌ ((nodes q).key, (nodes q).value))
          (walk_all-pairs_of n nodes count top l (omega arith) h.1 p.1))

-- Another key is found without the node `q`.
find_without :
    (nodes : ℕ → Node) (j q : ℕ) (a b : List ℕ)
    → (nodes q).key ≢ j
    → find j (pairs_of nodes (a ++ b)) ≡ find j (pairs_of nodes (a ++ (q ∷ b)))
unfolding find pairs_of
find_without nodes j q [] b h = ground (arith, h)
find_without nodes j q (x ∷ a) b h = ground (arith, find_without nodes j q a b h)

weak-AllAbove : (n k : ℕ) (m : Dict ℕ) → n < k → AllAbove k m → AllAbove n m
weak-AllAbove n k [] lt h = tt
weak-AllAbove n k ((i, v) ∷ m) lt h = (omega (arith, h.0), weak-AllAbove n k m lt h.1)

pub length-pairs_of : (nodes : ℕ → Node) (l : List ℕ) → length (pairs_of nodes l) ≡ length l
unfolding pairs_of
length-pairs_of nodes [] = refl
length-pairs_of nodes (q ∷ l) = ground (arith, length-pairs_of nodes l)

pub empty_lem : (nodes : ℕ → Node) (key : ℕ) → find key (pairs_of nodes []) ≡ none
unfolding find pairs_of
empty_lem nodes key = refl

module _ {Rng : Type 0} where
  pub to_vector-pairs_of :
      (s : SkipList Rng) (l : List ℕ) → Holds s l → to_vector s ≡ pairs_of s.nodes l
  unfolding to_vector
  to_vector-pairs_of s l h =
      ap (walk_all s.count s.nodes) (h.head_linked 0 (omega (arith, h.head_level)))
      ∙ walk_all-pairs_of s.count s.nodes s.count s.current_level l (omega (arith, h.counted))
          h.linked h.placed

  -- The list is held by some nodes.
  abbrev pub IsValid : SkipList Rng → Type 0
  IsValid s = (l : List ℕ) × Holds s l

  split_from :
      (s : SkipList Rng) (key q : ℕ) (a b : List ℕ)
      → IsSplit s key a (q ∷ b)
      → key ≤ (s.nodes q).key
  split_from s key q a b h = h.from.0

  -- `get` is the lookup among the entries of the nodes.
  pub get_lem :
      (s : SkipList Rng) (key : ℕ) (l : List ℕ)
      → Holds s l
      → get s key ≡ find key (pairs_of s.nodes l)
  get_lem s key l h =
      let (a, b, e, split) = Holds-IsSplit s key l h in
      get-find s key a b split ∙ ap (λ t. find key (pairs_of s.nodes t)) (sym e)

  -- A valid list is listed by ascending keys, with the value that each key reads.
  pub find-to_vector :
      (s : SkipList Rng)
      → IsValid s
      → AreAscending (to_vector s) × ((key : ℕ) → find key (to_vector s) ≡ get s key)
  find-to_vector s (l, h) = (
    subst AreAscending (sym (to_vector-pairs_of s l h)) h.ordered,
    λ key. ap (find key) (to_vector-pairs_of s l h) ∙ sym (get_lem s key l h),
  )

  pub new_list-Holds : (rng : Rng) → Holds (new_list rng) []
  unfolding new_list first_at pairs_of
  new_list-Holds rng = record {
    head_level = refl;
    head_linked = λ i lt. refl;
    linked = tt;
    ordered = tt;
    placed = tt;
    counted = refl;
    sized = refl;
    top = ground arith;
  }

-- The lists after a write, and the lookups in them.
module _ {Rng : Type 0} (draw : Rng → Bool × Rng) (node_size pointer_size : ℕ) where
  -- The result of a write of `value` under `key`.
  abbrev IsPut : SkipList Rng → List ℕ → ℕ → ℕ → SkipList Rng → Type 0
  IsPut s l key value s1 =
      (l1 : List ℕ) × Holds s1 l1
      × ((j : ℕ)
          → find j (pairs_of s1.nodes l1)
            ≡ (if key == j then some value else find j (pairs_of s.nodes l)))

  inserted-IsPut :
      (s : SkipList Rng) (update : ℕ → Option ℕ) (key value : ℕ) (a b : List ℕ)
      → IsSplit s key a b
      → AllAbove key (pairs_of s.nodes b)
      → ((j : ℕ) → j < s.current_level → update j ≡ some (last_at s.nodes j 0 a))
      → let (level, rng) = random_level draw s.rng in
        IsPut s (a ++ b) key value (insert_node node_size pointer_size s update key value level rng)
  inserted-IsPut s update key value a b split above at =
      let drawn = random_level draw s.rng in
      let (holds, entries) =
        insert_node-Holds node_size pointer_size s update key value drawn.0 drawn.1 a b split above
          (random_level_bounds draw s.rng) at in
      (
        a ++ ((s.count + 1) ∷ b),
        holds,
        λ j. ap (find j) entries ∙ find-with_entry s.nodes key value j a b split.below,
      )

  put_at-IsPut :
      (s : SkipList Rng) (update : ℕ → Option ℕ) (key value : ℕ) (a b : List ℕ)
      → IsSplit s key a b
      → ((j : ℕ) → j < s.current_level → update j ≡ some (last_at s.nodes j 0 a))
      → IsPut s
          (a ++ b)
          key
          value
          (put_at draw node_size pointer_size s update key value (first_at s.nodes 0 b))
  unfolding put_at first_at pairs_of
  put_at-IsPut s update key value a [] split at = inserted-IsPut s update key value a [] split tt at
  put_at-IsPut s update key value a (q ∷ b) split at =
      let placed =
        (back-ArePlaced s.nodes s.count s.current_level a (q ∷ b) split.holds.placed).1 in
      let on : ltb 0 (s.nodes q).level ≡ true = ground (arith, placed.0) in
      let o = back-AreAscending s.nodes a (q ∷ b) split.holds.ordered in
      rw on (elim (Bool-cases ((s.nodes q).key == key)) [
        | inl same ↦
            let e : (s.nodes q).key ≡ key = ground (arith, same) in
            let (holds, entries) = set_value-Holds s key value q a b split e in
            rw same (
              a ++ (q ∷ b),
              holds,
              λ j.
                  ap (find j) entries
                  ∙ find-with_entry s.nodes key value j a b split.below
                  ∙ ground (arith, find_without s.nodes j q a b, e),
            )
        | inr other ↦
            let lt : key < (s.nodes q).key = ground (arith, other, split_from s key q a b split) in
            rw other (
              inserted-IsPut s update key value a (q ∷ b) split
                (lt, weak-AllAbove key (s.nodes q).key (pairs_of s.nodes b) lt o.0) at)
      ])

  put-IsPut :
      (s : SkipList Rng) (key value : ℕ) (l : List ℕ)
      → Holds s l
      → IsPut s l key value (put draw node_size pointer_size s key value)
  unfolding put
  put-IsPut s key value l h =
      let (a, b, e, split) = Holds-IsSplit s key l h in
      let found = searched_lem s key a b split in
      let end = descend s.count s.nodes key s.current_level 0 (λ _. none) in
      subst
        (λ t.
          IsPut s t key value
            (put_at draw node_size pointer_size s end.1 key value ((s.nodes end.0).forward 0)))
        (sym e)
        (subst
          (λ t. IsPut s (a ++ b) key value (put_at draw node_size pointer_size s end.1 key value t))
          (sym (next_lem s key a b split))
          (put_at-IsPut s end.1 key value a b split found.searched))

  -- A write keeps a list valid: its nodes, linked on every level that they have, stand by ascending
  -- keys.
  pub put-IsValid :
      (s : SkipList Rng) (key value : ℕ)
      → IsValid s
      → IsValid (put draw node_size pointer_size s key value)
  put-IsValid s key value (l, h) = let (l1, h1, _) = put-IsPut s key value l h in (l1, h1)

  -- A valid list reads, after a write, the value under its key, and as before under any other, whatever
  -- levels are drawn.
  pub get-put_list :
      (s : SkipList Rng) (key value j : ℕ)
      → IsValid s
      → get (put draw node_size pointer_size s key value) j
        ≡ (if key == j then some value else get s j)
  get-put_list s key value j (l, h) =
      let (l1, h1, e) = put-IsPut s key value l h in
      get_lem (put draw node_size pointer_size s key value) j l1 h1
      ∙ e j
      ∙ ground (arith, get_lem s j l h)

  -- A skip list that starts with the engine `rng` is a memtable.
  abbrev pub skip_list : Rng → MemTable
  skip_list rng = record {
    Carrier = SkipList Rng;
    IsValid = IsValid;
    empty = new_list rng;
    put = put draw node_size pointer_size;
    get = get;
    to_vector = to_vector;
    size = λ s. s.size;
    byte_size = λ s. s.byte_size;
    empty-IsValid = ([], new_list-Holds rng);
    put-IsValid = put-IsValid;
    get-empty = λ key.
        get_lem (new_list rng) key [] (new_list-Holds rng) ∙ empty_lem (new_list rng).nodes key;
    get-put = get-put_list;
    to_vector-AreAscending = λ s h. (find-to_vector s h).0;
    find-to_vector = λ s key h. (find-to_vector s h).1 key;
    size_lem = λ s h.
        h.1.sized
        ∙ sym h.1.counted
        ∙ sym (length-pairs_of s.nodes h.0)
        ∙ ap length (sym (to_vector-pairs_of s h.0 h.1));
  }
