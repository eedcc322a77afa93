-- ===== src/Lsm/SkipList/Ends.antt =====
-- skiplist_memtable.hpp: the loops of the search and of the listing as the source writes them, each of
-- which ends by its own test only, and the bounded functions as runs of them.
use cpp_interview.Prelude.{
  ℕ, zero, suc, ◌≤◌, ◌<◌, ◌≡◌, sym, ◌∙◌, subst, true, Option, none, some, List, [], ◌∷◌, ◌==◌, ltb,
  if◌then◌else◌, length, arith, Bool-cases, Option-cases, inl, inr,
}
use cpp_interview.Prelude.Dict.{Dict}
use cpp_interview.Lsm.SkipList.{Node, SkipList, walk, descend, walk_all}
use cpp_interview.Lsm.SkipList.Walk.{seek, first_at, first_at-AllFrom, AreLinked}
use cpp_interview.Lsm.SkipList.Links.{Stands, walk-Stands, forward-walk}
use cpp_interview.Lsm.SkipList.Order.{ArePlaced, Holds-IsSplit, IsSplit-Stands}
use cpp_interview.Lsm.SkipList.Refine.{IsValid}

-- `curr->forward[i] && curr->forward[i]->key < key` is false.
abbrev pub IsEnd : (ℕ → Node) → ℕ → ℕ → ℕ → Type 0
IsEnd nodes i key p = (q : ℕ) → (nodes p).forward i ≡ some q → key ≤ (nodes q).key

-- The inner loop, from its first node to its last.
pub data Walks (nodes : ℕ → Node) (i key : ℕ) : ℕ → ℕ → Type 0 where
  stops : {p : ℕ} → IsEnd nodes i key p → Walks nodes i key p p
  goes_on :
      {p r : ℕ} (q : ℕ)
      → (nodes p).forward i ≡ some q
      → (nodes q).key < key
      → Walks nodes i key q r
      → Walks nodes i key p r

-- The outer loop over the levels below the first index, from a node and an `update` to others.
pub data Descends (nodes : ℕ → Node) (key : ℕ)
    : ℕ → ℕ → (ℕ → Option ℕ) → ℕ → (ℕ → Option ℕ) → Type 0 where
  bottom : {p : ℕ} {update : ℕ → Option ℕ} → Descends nodes key 0 p update p update
  level :
      {i p q r : ℕ} {update update1 : ℕ → Option ℕ}
      → Walks nodes i key p q
      → Descends nodes key i q (λ j. if i == j then some q else update j) r update1
      → Descends nodes key (suc i) p update r update1

-- The loop of the listing, from a pointer, with the entries that it lists.
pub data Lists (nodes : ℕ → Node) : Option ℕ → Dict ℕ → Type 0 where
  null : Lists nodes none []
  entry :
      {p : ℕ} {entries : Dict ℕ}
      → Lists nodes ((nodes p).forward 0) entries
      → Lists nodes (some p) (((nodes p).key, (nodes p).value) ∷ entries)

-- Rounds after which the test is false are the loop.
walk-Walks :
    (n : ℕ) (nodes : ℕ → Node) (i key p : ℕ)
    → IsEnd nodes i key (walk n nodes i key p)
    → Walks nodes i key p (walk n nodes i key p)
unfolding walk
walk-Walks zero nodes i key p h = stops h
walk-Walks (suc n) nodes i key p h = elim (Option-cases ((nodes p).forward i)) [
  | inl e ↦
      let same : walk (suc n) nodes i key p ≡ p = ground (arith, e) in
      subst (Walks nodes i key p) (sym same) (stops (subst (IsEnd nodes i key) same h))
  | inr (q, e) ↦ elim (Bool-cases (ltb (nodes q).key key)) [
    | inl less ↦
        let same : walk (suc n) nodes i key p ≡ walk n nodes i key q = ground (arith, e, less) in
        subst (Walks nodes i key p) (sym same) (
          goes_on q e (ground (arith, less))
            (walk-Walks n nodes i key q (subst (IsEnd nodes i key) same h)))
    | inr more ↦
        let same : walk (suc n) nodes i key p ≡ p = ground (arith, e, more) in
        subst (Walks nodes i key p) (sym same) (stops (subst (IsEnd nodes i key) same h))
  ]
]

-- The search, from where it stands.
Stands-Descends :
    (nodes : ℕ → Node) (key n i p : ℕ) (a b : List ℕ) (update : ℕ → Option ℕ)
    → Stands nodes key n i p a b
    → let (r, update1) = descend n nodes key i p update in Descends nodes key i p update r update1
unfolding descend
Stands-Descends nodes key n zero p a b update s = bottom
Stands-Descends nodes key n (suc i) p a b update s =
    let p1 = walk n nodes i key p in
    let next = forward-walk nodes key n i p a b s in
    level
      (walk-Walks n nodes i key p (λ q e. first_at-AllFrom nodes i key q b s.from (sym next ∙ e)))
      (Stands-Descends nodes key n i p1 (seek nodes i p a a).1 b
        (λ j. if i == j then some p1 else update j) (walk-Stands nodes key n i p a b s))

walk_all-Lists :
    (n : ℕ) (nodes : ℕ → Node) (count top : ℕ) (l : List ℕ)
    → length l ≤ n
    → AreLinked nodes l
    → ArePlaced nodes count top l
    → Lists nodes (first_at nodes 0 l) (walk_all n nodes (first_at nodes 0 l))
unfolding walk_all first_at
walk_all-Lists zero nodes count top [] le h p = null
walk_all-Lists zero nodes count top (q ∷ l) le h p = absurd (omega arith)
walk_all-Lists (suc n) nodes count top [] le h p = null
walk_all-Lists (suc n) nodes count top (q ∷ l) le h p =
    let on : ltb 0 (nodes q).level ≡ true = ground (arith, p.0) in
    let next : first_at nodes 0 l ≡ (nodes q).forward 0 = sym (h.0 0 (omega (arith, p.0))) in
    rw on (
      entry (
        subst (λ t. Lists nodes t (walk_all n nodes t)) next
          (walk_all-Lists n nodes count top l (omega arith) h.1 p.1)))

-- In a valid list the search for any key and the listing, with as many rounds as there are nodes or
-- more, are whole runs of the source's loops: on each level the inner loop goes on only past smaller
-- keys and stops only where its test is false, the outer loop goes through every level and notes where
-- each inner loop stopped, and the listing goes from node to node up to the null pointer.
pub descend-Descends :
    {Rng : Type 0} (n : ℕ) (s : SkipList Rng) (key : ℕ)
    → IsValid s
    → s.count ≤ n
    → let (r, update) = descend n s.nodes key s.current_level 0 (λ _. none) in
      let first = (s.nodes 0).forward 0 in
      Descends s.nodes key s.current_level 0 (λ _. none) r update
      × Lists s.nodes first (walk_all n s.nodes first)
descend-Descends n s key (l, h) le =
    let (a, b, e, split) = Holds-IsSplit s key l h in
    (
      Stands-Descends s.nodes key n s.current_level 0 a b (λ _. none)
          (IsSplit-Stands n s key a b split le),
      subst (λ t. Lists s.nodes t (walk_all n s.nodes t))
          (sym (h.head_linked 0 (omega (arith, h.head_level))))
          (walk_all-Lists n s.nodes s.count s.current_level l (omega (arith, h.counted, le))
            h.linked h.placed),
    )
