-- ===== src/Lsm/SkipList/Place.antt =====
-- skiplist_memtable.hpp: the place of a new node, behind the ends of the search on each level.
use cpp_interview.Prelude.{
  ℕ, ◌+◌, ◌≤◌, ◌<◌, ◌≡◌, refl, ap, ◌∙◌, ◌≢◌, false, ◌&&◌, none, List, [], ◌∷◌, ◌==◌, ltb, leb,
  if◌then◌else◌, arith, Bool-cases, inl, inr, ◌⊎◌, Option, some,
}
use cpp_interview.Prelude.Sorted.{contains}
use cpp_interview.Lsm.SsTable.Records.{AllAbove, AreAscending}
use cpp_interview.Lsm.SkipList.{Node, new_node, set_node, link}
use cpp_interview.Lsm.SkipList.Walk.{first_at, AllBelow, AllFrom}
use cpp_interview.Lsm.SkipList.Links.{last_at}
use cpp_interview.Lsm.SkipList.Insert.{link_same, link-forward}
use cpp_interview.Lsm.SkipList.Splice.{AreDistinct, IsSpliced, last_at_absent}
use cpp_interview.Lsm.SkipList.Order.{pairs_of, ArePlaced}

pub last_at_le :
    (nodes : ℕ → Node) (count top i p : ℕ) (a : List ℕ)
    → ArePlaced nodes count top a
    → p ≤ count
    → last_at nodes i p a ≤ count
unfolding last_at
last_at_le nodes count top i p [] h le = le
last_at_le nodes count top i p (q ∷ a) h le =
    last_at_le nodes count top i (if ltb i (nodes q).level then q else p) a h.1
      (ground (arith, h.0))

-- No node is on a level from `top` on.
first_at_top :
    (nodes : ℕ → Node) (count top i : ℕ) (a : List ℕ)
    → ArePlaced nodes count top a
    → top ≤ i
    → first_at nodes i a ≡ none
unfolding first_at
first_at_top nodes count top i [] h le = refl
first_at_top nodes count top i (q ∷ a) h le =
    ground (arith, h.0, first_at_top nodes count top i a h.1)

-- The head, or a node before the key.
abbrev pub IsBefore : (ℕ → Node) → ℕ → ℕ → Type 0
IsBefore nodes key p = (p ≡ 0) ⊎ ((nodes p).key < key)

pub last_at-IsBefore :
    (nodes : ℕ → Node) (key i p : ℕ) (a : List ℕ)
    → AllBelow nodes key a
    → IsBefore nodes key p
    → IsBefore nodes key (last_at nodes i p a)
unfolding last_at
last_at-IsBefore nodes key i p [] h b = b
last_at-IsBefore nodes key i p (q ∷ a) h b = elim (Bool-cases (ltb i (nodes q).level)) [
  | inl on ↦ rw on (last_at-IsBefore nodes key i q a h.1 (inr h.0))
  | inr off ↦ rw off (last_at-IsBefore nodes key i p a h.1 b)
]

pub contains_before :
    (nodes : ℕ → Node) (key count top p : ℕ) (b : List ℕ)
    → IsBefore nodes key p
    → AllFrom nodes key b
    → ArePlaced nodes count top b
    → contains p b ≡ false
unfolding contains
contains_before nodes key count top p [] h f l = refl
contains_before nodes key count top p (q ∷ b) (inl e) f l =
    ground (arith, e, l.0, contains_before nodes key count top p b (inl e) f.1 l.1)
contains_before nodes key count top p (q ∷ b) (inr lt) f l = elim (Bool-cases (q == p)) [
  | inl same ↦
      let e : q ≡ p = ground (arith, same) in
      absurd (omega (arith, f.0, lt, ap (λ t. (nodes t).key) e))
  | inr other ↦ ground (arith, other, contains_before nodes key count top p b (inr lt) f.1 l.1)
]

pub contains_head :
    (nodes : ℕ → Node) (count top : ℕ) (a : List ℕ)
    → ArePlaced nodes count top a
    → contains 0 a ≡ false
unfolding contains
contains_head nodes count top [] l = refl
contains_head nodes count top (q ∷ a) l = ground (arith, l.0, contains_head nodes count top a l.1)

pub contains_above :
    (nodes : ℕ → Node) (n q : ℕ) (b : List ℕ)
    → AllAbove n (pairs_of nodes b)
    → (nodes q).key ≤ n
    → contains q b ≡ false
unfolding contains pairs_of
contains_above nodes n q [] h le = refl
contains_above nodes n q (r ∷ b) h le = elim (Bool-cases (r == q)) [
  | inl same ↦
      let e : r ≡ q = ground (arith, same) in
      absurd (omega (arith, h.0, le, ap (λ t. (nodes t).key) e))
  | inr other ↦ ground (arith, other, contains_above nodes n q b h.1 le)
]

-- The nodes of an ascending list are distinct, and the next one to be allocated is none of them.
pub next-AreDistinct :
    (nodes : ℕ → Node) (count top : ℕ) (l : List ℕ)
    → AreAscending (pairs_of nodes l)
    → ArePlaced nodes count top l
    → AreDistinct (count + 1) l
unfolding pairs_of
next-AreDistinct nodes count top [] o h = tt
next-AreDistinct nodes count top (q ∷ l) o h = (
  λ e. omega (arith, h.0, e),
  contains_above nodes (nodes q).key q l o.0 (omega arith),
  next-AreDistinct nodes count top l o.1 h.1,
)

-- `update`, completed by the head on the new levels, is the last node before the key on every level
-- of the new node.
pub update_lem :
    (nodes : ℕ → Node) (count top level i : ℕ) (a : List ℕ) (update : ℕ → Option ℕ)
    → ArePlaced nodes count top a
    → ((j : ℕ) → j < top → update j ≡ some (last_at nodes j 0 a))
    → i < level
    → (if leb top i && ltb i level then some 0 else update i) ≡ some (last_at nodes i 0 a)
update_lem nodes count top level i a update h at lt = elim (Bool-cases (leb top i)) [
  | inl over ↦ ground (
    arith,
    over,
    lt,
    last_at_absent nodes i 0 a (first_at_top nodes count top i a h (ground (arith, over))),
  )
  | inr under ↦ ground (arith, under, at i)
]

-- What the linking loop leaves is the splice.
module _ {new level : ℕ} {update : ℕ → Option ℕ} where
  pub link-IsSpliced :
      (nodes : ℕ → Node) (key value : ℕ) (ends : ℕ → ℕ)
      → ((j : ℕ) → ends j ≢ new)
      → ((j : ℕ) → j < level → update j ≡ some (ends j))
      → IsSpliced nodes
          (link new update level 0 (set_node nodes new (new_node key value level)))
          new
          level
          ends
  link-IsSpliced nodes key value ends ne at =
      let nodes0 = set_node nodes new (new_node key value level) in
      record {
        kept = λ x h.
            (link_same new update ends level 0 nodes0 x ne (λ k lt. at k (omega arith))).2
            ∙ ground (arith, h);
        new_level =
            (link_same new update ends level 0 nodes0 new ne (λ k lt. at k (omega arith))).2
            ∙ ground arith;
        linked_to = λ x j h.
            link-forward new update ends level 0 nodes0 x j ne (λ k lt. at k (omega arith))
            ∙ ground (arith, h);
        linked_from = λ j h.
            link-forward new update ends level 0 nodes0 new j ne (λ k lt. at k (omega arith))
            ∙ ground (arith, h, ne j);
      }

  pub link-pairs :
      (nodes : ℕ → Node) (key value : ℕ) (ends : ℕ → ℕ) (l : List ℕ)
      → ((j : ℕ) → ends j ≢ new)
      → ((j : ℕ) → j < level → update j ≡ some (ends j))
      → AreDistinct new l
      → pairs_of (link new update level 0 (set_node nodes new (new_node key value level))) l
        ≡ pairs_of nodes l
  unfolding pairs_of
  link-pairs nodes key value ends [] ne at d = refl
  link-pairs nodes key value ends (q ∷ l) ne at d =
      let nodes0 = set_node nodes new (new_node key value level) in
      let (k, v, _) = link_same new update ends level 0 nodes0 q ne (λ k lt. at k (omega arith)) in
      let k1 : (nodes0 q).key ≡ (nodes q).key = ground (arith, d.0) in
      let v1 : (nodes0 q).value ≡ (nodes q).value = ground (arith, d.0) in
      rw (k ∙ k1, v ∙ v1, link-pairs nodes key value ends l ne at d.2) refl
