-- ===== src/Lsm/SkipList/SetValue.antt =====
-- skiplist_memtable.hpp: the new value of a key that is there, and the levels that are drawn.
use cpp_interview.Prelude.{
  ℕ, zero, suc, ◌+◌, ◌≤◌, ◌<◌, ◌≡◌, refl, ap, sym, ◌∙◌, subst, Bool, false, List, [], ◌∷◌, ◌++◌,
  ◌==◌, if◌then◌else◌, arith, Bool-cases, inl, inr,
}
use cpp_interview.Prelude.Sorted.{contains}
use cpp_interview.Lsm.SsTable.Records.{AllAbove, AreAscending}
use cpp_interview.Lsm.SkipList.{Node, set_node, max_level, SkipList, raise, random_level}
use cpp_interview.Lsm.SkipList.Walk.{first_at, IsLinked, AreLinked, AllBelow}
use cpp_interview.Lsm.SkipList.Order.{
  pairs_of, pairs_of-append, ArePlaced, Holds, back-AreAscending, IsSplit,
}
use cpp_interview.Lsm.SkipList.NewKey.{with_entry, with_entry-AreAscending}
use cpp_interview.Lsm.SkipList.Place.{contains_above}

raise_bounds :
    {Rng : Type 0} (draw : Rng → Bool × Rng) (n lvl : ℕ) (rng : Rng)
    → (0 < lvl) × (lvl ≤ max_level)
    → (0 < (raise draw n lvl rng).0) × ((raise draw n lvl rng).0 ≤ max_level)
unfolding raise
raise_bounds draw zero lvl rng h = h
raise_bounds draw (suc n) lvl rng h = ground (arith, h, raise_bounds draw n (lvl + 1) (draw rng).1)

-- A level is drawn between 1 and 16.
pub random_level_bounds :
    {Rng : Type 0} (draw : Rng → Bool × Rng) (rng : Rng)
    → (0 < (random_level draw rng).0) × ((random_level draw rng).0 ≤ max_level)
unfolding random_level
random_level_bounds draw rng = raise_bounds draw max_level 1 rng (ground arith)

abbrev pub set_value : (ℕ → Node) → ℕ → ℕ → ℕ → Node
set_value nodes q value = set_node nodes q (record (nodes q) { value = value })

set_value_same :
    (nodes : ℕ → Node) (q value x : ℕ)
    → ((set_value nodes q value x).key ≡ (nodes x).key)
      × ((set_value nodes q value x).level ≡ (nodes x).level)
      × ((set_value nodes q value x).forward ≡ (nodes x).forward)
      × ((set_value nodes q value x).value ≡ (if q == x then value else (nodes x).value))
set_value_same nodes q value x = elim (Bool-cases (q == x)) [
  | inl same ↦
      let e : q ≡ x = ground (arith, same) in
      rw same (
        ap (λ t. (nodes t).key) e,
        ap (λ t. (nodes t).level) e,
        ap (λ t. (nodes t).forward) e,
        refl,
      )
  | inr other ↦ rw other (refl, refl, refl, refl)
]

first_at-set_value :
    (nodes : ℕ → Node) (q value i : ℕ) (l : List ℕ)
    → first_at (set_value nodes q value) i l ≡ first_at nodes i l
unfolding first_at
first_at-set_value nodes q value i [] = refl
first_at-set_value nodes q value i (x ∷ l) =
    rw ((set_value_same nodes q value x).1, first_at-set_value nodes q value i l) refl

set_value-IsLinked :
    (nodes : ℕ → Node) (q value p : ℕ) (l : List ℕ)
    → IsLinked nodes p l
    → IsLinked (set_value nodes q value) p l
set_value-IsLinked nodes q value p l h i lt =
    let (_, level, forward, _) = set_value_same nodes q value p in
    ap (λ f. f i) forward
    ∙ h i (omega (arith, lt, level))
    ∙ sym (first_at-set_value nodes q value i l)

set_value-AreLinked :
    (nodes : ℕ → Node) (q value : ℕ) (l : List ℕ)
    → AreLinked nodes l
    → AreLinked (set_value nodes q value) l
set_value-AreLinked nodes q value [] h = tt
set_value-AreLinked nodes q value (p ∷ l) h =
    (set_value-IsLinked nodes q value p l h.0, set_value-AreLinked nodes q value l h.1)

set_value-ArePlaced :
    (nodes : ℕ → Node) (q value count top : ℕ) (l : List ℕ)
    → ArePlaced nodes count top l
    → ArePlaced (set_value nodes q value) count top l
set_value-ArePlaced nodes q value count top [] h = tt
set_value-ArePlaced nodes q value count top (p ∷ l) h = (
  ground (arith, h.0, (set_value_same nodes q value p).1),
  set_value-ArePlaced nodes q value count top l h.1,
)

pairs_of-set_value :
    (nodes : ℕ → Node) (q value : ℕ) (l : List ℕ)
    → contains q l ≡ false
    → pairs_of (set_value nodes q value) l ≡ pairs_of nodes l
unfolding pairs_of contains
pairs_of-set_value nodes q value [] h = refl
pairs_of-set_value nodes q value (x ∷ l) h =
    let (key, _, _, v) = set_value_same nodes q value x in
    let kept : (set_value nodes q value x).value ≡ (nodes x).value = ground (arith, v, h) in
    rw (key, kept, pairs_of-set_value nodes q value l (ground (arith, h))) refl

contains_below :
    (nodes : ℕ → Node) (key q : ℕ) (a : List ℕ)
    → AllBelow nodes key a
    → key ≤ (nodes q).key
    → contains q a ≡ false
unfolding contains
contains_below nodes key q [] h le = refl
contains_below nodes key q (r ∷ a) h le = elim (Bool-cases (r == q)) [
  | inl same ↦
      let e : r ≡ q = ground (arith, same) in
      absurd (omega (arith, h.0, le, ap (λ t. (nodes t).key) e))
  | inr other ↦ ground (arith, other, contains_below nodes key q a h.1 le)
]

without-AllAbove :
    (nodes : ℕ → Node) (n q : ℕ) (a b : List ℕ)
    → AllAbove n (pairs_of nodes (a ++ (q ∷ b)))
    → AllAbove n (pairs_of nodes (a ++ b))
unfolding pairs_of
without-AllAbove nodes n q [] b h = h.1
without-AllAbove nodes n q (x ∷ a) b h = (h.0, without-AllAbove nodes n q a b h.1)

without-AreAscending :
    (nodes : ℕ → Node) (q : ℕ) (a b : List ℕ)
    → AreAscending (pairs_of nodes (a ++ (q ∷ b)))
    → AreAscending (pairs_of nodes (a ++ b))
unfolding pairs_of
without-AreAscending nodes q [] b o = o.1
without-AreAscending nodes q (x ∷ a) b o =
    (without-AllAbove nodes (nodes x).key q a b o.0, without-AreAscending nodes q a b o.1)

-- The value of a key that is there is replaced.
pub set_value-Holds :
    {Rng : Type 0} (s : SkipList Rng) (key value q : ℕ) (a b : List ℕ)
    → IsSplit s key a (q ∷ b)
    → (s.nodes q).key ≡ key
    → let s1 : SkipList Rng = record s { nodes = set_value s.nodes q value } in
      Holds s1 (a ++ (q ∷ b))
      × (pairs_of s1.nodes (a ++ (q ∷ b)) ≡ with_entry s.nodes a key value b)
unfolding pairs_of
set_value-Holds s key value q a b split e =
    let h = split.holds in
    let nodes1 = set_value s.nodes q value in
    let (k, _, _, v) = set_value_same s.nodes q value q in
    let k1 : (nodes1 q).key ≡ key = k ∙ e in
    let v1 : (nodes1 q).value ≡ value = v ∙ ground arith in
    let above : AllAbove (s.nodes q).key (pairs_of s.nodes b) =
      (back-AreAscending s.nodes a (q ∷ b) h.ordered).0 in
    let entries : pairs_of nodes1 (a ++ (q ∷ b)) ≡ with_entry s.nodes a key value b =
      pairs_of-append nodes1 a (q ∷ b)
      ∙ rw
          (
            pairs_of-set_value s.nodes q value a
                (contains_below s.nodes key q a split.below (omega (arith, e))),
            pairs_of-set_value s.nodes q value b
                (contains_above s.nodes (s.nodes q).key q b above (omega arith)),
            k1,
            v1,
          )
          refl in
    (
      record {
        head_level = (set_value_same s.nodes q value 0).1 ∙ h.head_level;
        head_linked = set_value-IsLinked s.nodes q value 0 (a ++ (q ∷ b)) h.head_linked;
        linked = set_value-AreLinked s.nodes q value (a ++ (q ∷ b)) h.linked;
        ordered = subst AreAscending (sym entries) (
            with_entry-AreAscending s.nodes key value a b split.below
              (subst (λ t. AllAbove t (pairs_of s.nodes b)) e above)
              (without-AreAscending s.nodes q a b h.ordered));
        placed =
            set_value-ArePlaced s.nodes q value s.count s.current_level (a ++ (q ∷ b)) h.placed;
        counted = h.counted;
        sized = h.sized;
        top = h.top;
      },
      entries,
    )
