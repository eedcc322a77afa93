-- ===== src/Lsm/SkipList/Splice.antt =====
-- skiplist_memtable.hpp: the links after a node has been put between the nodes before and after it.
use cpp_interview.Prelude.{
  ℕ, ◌<◌, ◌≡◌, refl, ap, sym, ◌∙◌, ◌≢◌, true, false, ◌&&◌, none, some, List, [], ◌∷◌, ◌++◌, ◌==◌,
  ltb, if◌then◌else◌, arith, Bool-cases, Option-cases, inl, inr,
}
use cpp_interview.Prelude.Sorted.{contains}
use cpp_interview.Lsm.SkipList.{Node}
use cpp_interview.Lsm.SkipList.Walk.{first_at, IsLinked, AreLinked}
use cpp_interview.Lsm.SkipList.Links.{last_at}

-- No node stands twice, and `new` does not.
abbrev pub AreDistinct : ℕ → List ℕ → Type 0
AreDistinct new [] = Unit {0}
AreDistinct new (q ∷ l) = (q ≢ new) × (contains q l ≡ false) × AreDistinct new l

-- The last node on a level is `p` only if none of the nodes is on that level.
pub last_at_absent :
    (nodes : ℕ → Node) (i p : ℕ) (a : List ℕ) → first_at nodes i a ≡ none → last_at nodes i p a ≡ p
unfolding last_at first_at
last_at_absent nodes i p [] h = refl
last_at_absent nodes i p (q ∷ a) h = ground (arith, h, last_at_absent nodes i p a)

contains-last_at :
    (nodes : ℕ → Node) (i p q : ℕ) (a : List ℕ)
    → first_at nodes i a ≡ some q
    → contains (last_at nodes i p a) a ≡ true
unfolding last_at first_at contains
contains-last_at nodes i p q [] h = cc
contains-last_at nodes i p q (r ∷ a) h = elim (Bool-cases (ltb i (nodes r).level)) [
  | inl on ↦ elim (Option-cases (first_at nodes i a)) [
    | inl last ↦ ground (arith, on, last_at_absent nodes i r a last)
    | inr (s, e) ↦ ground (arith, on, contains-last_at nodes i r s a e)
  ]
  | inr off ↦ ground (arith, off, h, contains-last_at nodes i p q a)
]

first_at-append :
    (nodes : ℕ → Node) (i : ℕ) (a b : List ℕ)
    → first_at nodes i (a ++ b)
      ≡ elim (first_at nodes i a) [ some q ↦ some q | none ↦ first_at nodes i b ]
unfolding first_at
first_at-append nodes i [] b = refl
first_at-append nodes i (q ∷ a) b = ground (arith, first_at-append nodes i a b)

pub contains_front : (q : ℕ) (a b : List ℕ) → contains q (a ++ b) ≡ false → contains q a ≡ false
unfolding contains
contains_front q [] b h = refl
contains_front q (r ∷ a) b h = ground (arith, h, contains_front q a b)

-- `nodes1` is `nodes` with `new` linked on `level` levels behind the nodes of `update`.
pub record IsSpliced (nodes nodes1 : ℕ → Node) (new level : ℕ) (update : ℕ → ℕ) : Type 0 where
  pub kept : (x : ℕ) → x ≢ new → ((nodes1 x).level ≡ (nodes x).level)
  pub new_level : (nodes1 new).level ≡ level
  pub linked_to :
      (x j : ℕ)
      → x ≢ new
      → (nodes1 x).forward j
        ≡ (if ltb j level && update j == x then some new else (nodes x).forward j)
  pub linked_from : (j : ℕ) → j < level → (nodes1 new).forward j ≡ (nodes (update j)).forward j

module _ {nodes nodes1 : ℕ → Node} {new level : ℕ} {update : ℕ → ℕ} where
  first_at_kept :
      (s : IsSpliced nodes nodes1 new level update) (i : ℕ) (b : List ℕ)
      → AreDistinct new b
      → first_at nodes1 i b ≡ first_at nodes i b
  unfolding first_at
  first_at_kept s i [] d = refl
  first_at_kept s i (q ∷ b) d = ground (arith, s.kept q d.0, first_at_kept s i b d.2)

  first_at_spliced :
      (s : IsSpliced nodes nodes1 new level update) (i : ℕ) (a b : List ℕ)
      → AreDistinct new (a ++ b)
      → first_at nodes1 i (a ++ (new ∷ b)) ≡ elim (first_at nodes i a) [
        | some q ↦ some q
        | none ↦ if ltb i level then some new else first_at nodes i b
      ]
  unfolding first_at
  first_at_spliced s i [] b d = ground (arith, s.new_level, first_at_kept s i b d)
  first_at_spliced s i (q ∷ a) b d = ground (arith, s.kept q d.0, first_at_spliced s i a b d.2)

  -- Behind the new node nothing changes.
  behind_new :
      (s : IsSpliced nodes nodes1 new level update) (b : List ℕ)
      → AreDistinct new b
      → ((j : ℕ) → j < level → contains (update j) b ≡ false)
      → AreLinked nodes b
      → AreLinked nodes1 b
  unfolding contains
  behind_new s [] d free l = tt
  behind_new s (q ∷ b) d free l = (
    λ i h.
        ground (arith, s.linked_to q i d.0, s.kept q d.0, free i, l.0 i, first_at_kept s i b d.2),
    behind_new s b d.2 (λ j h. ground (arith, free j h)) l.1,
  )

  -- The node `p`, when `update` is the last of the nodes from it on.
  pub before_new :
      (s : IsSpliced nodes nodes1 new level update) (p : ℕ) (a b : List ℕ)
      → p ≢ new
      → contains p a ≡ false
      → AreDistinct new (a ++ b)
      → ((j : ℕ) → j < (nodes p).level → j < level → update j ≡ last_at nodes j p a)
      → IsLinked nodes p (a ++ b)
      → IsLinked nodes1 p (a ++ (new ∷ b))
  before_new s p a b ne apart d at l i h =
      let inside : i < (nodes p).level = ground (arith, h, s.kept p ne) in
      elim (Option-cases (first_at nodes i a)) [
        | inl last ↦ ground (
          arith,
          last,
          l i inside,
          at i inside,
          s.linked_to p i ne,
          first_at_spliced s i a b d,
          first_at-append nodes i a b,
          last_at_absent nodes i p a last,
        )
        | inr (q, e) ↦
            let far : last_at nodes i p a ≢ p = λ same.
              ground
                (arith, apart, ap (λ t. contains t a) same, contains-last_at nodes i p q a e) in
            ground (
              arith,
              e,
              far,
              l i inside,
              at i inside,
              s.linked_to p i ne,
              first_at_spliced s i a b d,
              first_at-append nodes i a b,
            )
      ]

  -- All the nodes are linked again, with the new one in its place.
  pub splice :
      (s : IsSpliced nodes nodes1 new level update) (start : ℕ → ℕ) (a b : List ℕ)
      → AreDistinct new (a ++ b)
      → ((j : ℕ) → j < level → update j ≡ last_at nodes j (start j) a)
      → ((j : ℕ) → j < level → contains (update j) b ≡ false)
      → ((j : ℕ) → j < level → (nodes (update j)).forward j ≡ first_at nodes j b)
      → AreLinked nodes (a ++ b)
      → AreLinked nodes1 (a ++ (new ∷ b))
  unfolding last_at
  splice s start [] b d at free to l = (
    λ i h.
        let inside : i < level = ground (arith, h, s.new_level) in
        s.linked_from i inside ∙ to i inside ∙ sym (first_at_kept s i b d),
    behind_new s b d free l,
  )
  splice s start (q ∷ a) b d at free to l = (
    before_new s q a b d.0 (contains_front q a b d.1) d.2 (λ j h k. ground (arith, h, at j k)) l.0,
    splice s (λ j. if ltb j (nodes q).level then q else start j) a b d.2 (λ j h. at j h) free to
        l.1,
  )
