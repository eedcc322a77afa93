-- ===== src/Lsm/SkipList/NewKey.antt =====
-- skiplist_memtable.hpp: the insertion of a key that is not there.
use cpp_interview.Prelude.{
  ℕ, ◌+◌, ◌≤◌, ◌<◌, ◌≡◌, refl, ap, sym, ◌∙◌, subst, ◌≢◌, false, ◌&&◌, some, List, [], ◌∷◌, ◌++◌,
  ◌==◌, ltb, leb, if◌then◌else◌, length-append, arith, inl, Option,
}
use cpp_interview.Prelude.Dict.{Dict, find}
use cpp_interview.Prelude.Sorted.{contains}
use cpp_interview.Lsm.SsTable.Records.{AllAbove, AreAscending, find-append}
use cpp_interview.Lsm.SkipList.{Node, new_node, set_node, link, max_level, SkipList, insert_node}
use cpp_interview.Lsm.SkipList.Walk.{first_at, AllBelow}
use cpp_interview.Lsm.SkipList.Links.{last_at, forward-last_at}
use cpp_interview.Lsm.SkipList.Insert.{link_same}
use cpp_interview.Lsm.SkipList.Splice.{AreDistinct, before_new, splice, contains_front}
use cpp_interview.Lsm.SkipList.Order.{
  pairs_of, pairs_of-append, ArePlaced, back-ArePlaced, Holds, find_below, IsSplit,
}
use cpp_interview.Lsm.SkipList.Place

-- The entries with one more between those before and those behind its key.
abbrev pub with_entry : (ℕ → Node) → List ℕ → ℕ → ℕ → List ℕ → Dict ℕ
with_entry nodes a key value b = pairs_of nodes a ++ ((key, value) ∷ pairs_of nodes b)

AllAbove-with_entry :
    (nodes : ℕ → Node) (n key value : ℕ) (a b : List ℕ)
    → n < key
    → AllAbove n (pairs_of nodes (a ++ b))
    → AllAbove n (with_entry nodes a key value b)
unfolding pairs_of
AllAbove-with_entry nodes n key value [] b lt h = (lt, h)
AllAbove-with_entry nodes n key value (q ∷ a) b lt h =
    (h.0, AllAbove-with_entry nodes n key value a b lt h.1)

pub with_entry-AreAscending :
    (nodes : ℕ → Node) (key value : ℕ) (a b : List ℕ)
    → AllBelow nodes key a
    → AllAbove key (pairs_of nodes b)
    → AreAscending (pairs_of nodes (a ++ b))
    → AreAscending (with_entry nodes a key value b)
unfolding pairs_of
with_entry-AreAscending nodes key value [] b below above o = (above, o)
with_entry-AreAscending nodes key value (q ∷ a) b below above o = (
  AllAbove-with_entry nodes (nodes q).key key value a b below.0 o.0,
  with_entry-AreAscending nodes key value a b below.1 above o.1,
)

pub find-with_entry :
    (nodes : ℕ → Node) (key value j : ℕ) (a b : List ℕ)
    → AllBelow nodes key a
    → find j (with_entry nodes a key value b)
      ≡ (if key == j then some value else find j (pairs_of nodes (a ++ b)))
unfolding find
find-with_entry nodes key value j a b below =
    find-append j (pairs_of nodes a) ((key, value) ∷ pairs_of nodes b)
    ∙ ground (
      arith,
      ap (find j) (pairs_of-append nodes a b),
      find-append j (pairs_of nodes a) (pairs_of nodes b),
      find_below nodes key j a below,
    )

-- The nodes keep their places when one is added.
more-ArePlaced :
    (nodes nodes1 : ℕ → Node) (count top top1 : ℕ) (l : List ℕ)
    → ((x : ℕ) → x ≢ count + 1 → (nodes1 x).level ≡ (nodes x).level)
    → top ≤ top1
    → ArePlaced nodes count top l
    → ArePlaced nodes1 (count + 1) top1 l
more-ArePlaced nodes nodes1 count top top1 [] same le h = tt
more-ArePlaced nodes nodes1 count top top1 (q ∷ l) same le h =
    let e = same q (λ x. omega (arith, h.0, x)) in
    (ground (arith, h.0, e, le), more-ArePlaced nodes nodes1 count top top1 l same le h.1)

pub insert-ArePlaced :
    (nodes : ℕ → Node) (new count top : ℕ) (a b : List ℕ)
    → (0 < new) × (new ≤ count) × (0 < (nodes new).level) × ((nodes new).level ≤ top)
    → ArePlaced nodes count top a
    → ArePlaced nodes count top b
    → ArePlaced nodes count top (a ++ (new ∷ b))
insert-ArePlaced nodes new count top [] b h x y = (h, y)
insert-ArePlaced nodes new count top (q ∷ a) b h x y =
    (x.0, insert-ArePlaced nodes new count top a b h x.1 y)

pub back-AreDistinct : (new : ℕ) (a b : List ℕ) → AreDistinct new (a ++ b) → AreDistinct new b
back-AreDistinct new [] b d = d
back-AreDistinct new (q ∷ a) b d = back-AreDistinct new a b d.2

pub front-AreDistinct : (new : ℕ) (a b : List ℕ) → AreDistinct new (a ++ b) → AreDistinct new a
front-AreDistinct new [] b d = tt
front-AreDistinct new (q ∷ a) b d = (d.0, contains_front q a b d.1, front-AreDistinct new a b d.2)

module _ {Rng : Type 0} (node_size pointer_size : ℕ) where
  -- A key that is not there is inserted at its place.
  pub insert_node-Holds :
      (s : SkipList Rng) (update : ℕ → Option ℕ) (key value level : ℕ) (rng : Rng) (a b : List ℕ)
      → IsSplit s key a b
      → AllAbove key (pairs_of s.nodes b)
      → (0 < level) × (level ≤ max_level)
      → ((j : ℕ) → j < s.current_level → update j ≡ some (last_at s.nodes j 0 a))
      → let s1 = insert_node node_size pointer_size s update key value level rng in
        Holds s1 (a ++ ((s.count + 1) ∷ b))
        × (pairs_of s1.nodes (a ++ ((s.count + 1) ∷ b)) ≡ with_entry s.nodes a key value b)
  unfolding insert_node pairs_of
  insert_node-Holds s update key value level rng a b split above bounds found =
      let h = split.holds in
      let new = s.count + 1 in
      let ends = λ (j : ℕ). last_at s.nodes j 0 a in
      let update1 = λ (i : ℕ). if leb s.current_level i && ltb i level then some 0 else update i in
      let nodes1 = link new update1 level 0 (set_node s.nodes new (new_node key value level)) in
      let (before, behind) = back-ArePlaced s.nodes s.count s.current_level a b h.placed in
      let at = λ (j : ℕ) (lt : j < level).
        Place.update_lem s.nodes s.count s.current_level level j a update before found lt in
      let ne : (j : ℕ) → ends j ≢ new = λ j e.
        omega
          (arith, e, Place.last_at_le s.nodes s.count s.current_level j 0 a before (omega arith)) in
      let spliced = Place.link-IsSpliced s.nodes key value ends ne at in
      let apart =
        Place.next-AreDistinct s.nodes s.count s.current_level (a ++ b) h.ordered h.placed in
      let free : (j : ℕ) → j < level → contains (ends j) b ≡ false = λ j lt.
        Place.contains_before s.nodes key s.count s.current_level (ends j) b
          (Place.last_at-IsBefore s.nodes key j 0 a split.below (inl refl)) split.from behind in
      let to : (j : ℕ) → j < level → (s.nodes (ends j)).forward j ≡ first_at s.nodes j b = λ j lt.
        forward-last_at s.nodes j 0 a b (h.head_linked j (omega (arith, h.head_level, bounds)))
          h.linked in
      let kept =
        λ (l : List ℕ) (d : AreDistinct new l). Place.link-pairs s.nodes key value ends l ne at d in
      let (k, v, _) =
        link_same new update1 ends level 0 (set_node s.nodes new (new_node key value level)) new ne
          (λ k lt. at k (omega arith)) in
      let k1 : (nodes1 new).key ≡ key = k ∙ ground arith in
      let v1 : (nodes1 new).value ≡ value = v ∙ ground arith in
      let top1 = if ltb s.current_level level then level else s.current_level in
      let under : s.current_level ≤ top1 = ground arith in
      let entries : pairs_of nodes1 (a ++ (new ∷ b)) ≡ with_entry s.nodes a key value b =
        pairs_of-append nodes1 a (new ∷ b)
        ∙ rw
            (
              kept a (front-AreDistinct new a b apart),
              kept b (back-AreDistinct new a b apart),
              k1,
              v1,
            )
            refl in
      let levels = λ (x : ℕ) (d : x ≢ new). spliced.kept x d in
      (
        record {
          head_level = spliced.kept 0 (λ e. omega (arith, e)) ∙ h.head_level;
          head_linked =
              before_new spliced 0 a b (λ e. omega (arith, e))
                (Place.contains_head s.nodes s.count s.current_level a before) apart (λ j _ _. refl)
                h.head_linked;
          linked = splice spliced (λ _. 0) a b apart (λ j _. refl) free to h.linked;
          ordered =
              subst AreAscending (sym entries)
                (with_entry-AreAscending s.nodes key value a b split.below above h.ordered);
          placed =
              insert-ArePlaced nodes1 new new top1 a b (ground (arith, spliced.new_level, bounds))
                (more-ArePlaced s.nodes nodes1 s.count s.current_level top1 a levels under before)
                (more-ArePlaced s.nodes nodes1 s.count s.current_level top1 b levels under behind);
          counted = omega (arith, h.counted, length-append a b, length-append a (new ∷ b));
          sized = omega (arith, h.sized);
          top = ground (arith, h.top, bounds);
        },
        entries,
      )
