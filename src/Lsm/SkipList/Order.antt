-- ===== src/Lsm/SkipList/Order.antt =====
-- skiplist_memtable.hpp: the nodes in the order of their keys, and the reads.
use cpp_interview.Prelude.{
  ℕ, ◌≤◌, ◌<◌, ◌≡◌, refl, ap, ◌∙◌, subst, none, List, [], ◌∷◌, ◌++◌, ltb, length, length-append,
  arith, Bool-cases, inl, inr,
}
use cpp_interview.Prelude.Dict.{Dict, find}
use cpp_interview.Lsm.SsTable.Records.{AllAbove, AreAscending, find-append, find_above}
use cpp_interview.Lsm.SkipList.{Node, SkipList, max_level, descend, check_key, get}
use cpp_interview.Lsm.SkipList.Walk.{first_at, IsLinked, AreLinked, AllBelow, AllFrom}
use cpp_interview.Lsm.SkipList.Links.{Stands, Searched, descend-Searched, forward-last_at}

-- The entries of the nodes.
unfoldable pub pairs_of : (ℕ → Node) → List ℕ → Dict ℕ
pairs_of nodes [] = []
pairs_of nodes (q ∷ l) = ((nodes q).key, (nodes q).value) ∷ pairs_of nodes l

pub pairs_of-append :
    (nodes : ℕ → Node) (a b : List ℕ)
    → pairs_of nodes (a ++ b) ≡ pairs_of nodes a ++ pairs_of nodes b
unfolding pairs_of
pairs_of-append nodes [] b = refl
pairs_of-append nodes (q ∷ a) b =
    ap (◌∷◌ ((nodes q).key, (nodes q).value)) (pairs_of-append nodes a b)

-- The nodes are allocated, and their levels lie below `top`.
abbrev pub ArePlaced : (ℕ → Node) → ℕ → ℕ → List ℕ → Type 0
ArePlaced nodes count top [] = Unit {0}
ArePlaced nodes count top (q ∷ l) =
    ((0 < q) × (q ≤ count) × (0 < (nodes q).level) × ((nodes q).level ≤ top))
    × ArePlaced nodes count top l

-- The invariant: the nodes, in the order of level 0.
pub record Holds {Rng : Type 0} (s : SkipList Rng) (l : List ℕ) : Type 0 where
  pub head_level : (s.nodes 0).level ≡ max_level
  pub head_linked : IsLinked s.nodes 0 l
  pub linked : AreLinked s.nodes l
  pub ordered : AreAscending (pairs_of s.nodes l)
  pub placed : ArePlaced s.nodes s.count s.current_level l
  pub counted : length l ≡ s.count
  pub sized : s.size ≡ s.count
  pub top : (0 < s.current_level) × (s.current_level ≤ max_level)

above-AllFrom :
    (nodes : ℕ → Node) (key n : ℕ) (l : List ℕ)
    → AllAbove n (pairs_of nodes l)
    → key ≤ n
    → AllFrom nodes key l
unfolding pairs_of
above-AllFrom nodes key n [] h le = tt
above-AllFrom nodes key n (q ∷ l) h le = (omega (arith, h.0), above-AllFrom nodes key n l h.1 le)

-- The nodes before the key, and those from it on.
pub split :
    (nodes : ℕ → Node) (key : ℕ) (l : List ℕ)
    → AreAscending (pairs_of nodes l)
    → (a : List ℕ) × (b : List ℕ) × (l ≡ a ++ b) × AllBelow nodes key a × AllFrom nodes key b
unfolding pairs_of
split nodes key [] o = ([], [], refl, tt, tt)
split nodes key (q ∷ l) o = elim (Bool-cases (ltb (nodes q).key key)) [
  | inl before ↦
      let (a, b, e, below, from) = split nodes key l o.1 in
      (q ∷ a, b, ap (◌∷◌ q) e, (ground (arith, before), below), from)
  | inr after ↦ (
    [],
    q ∷ l,
    refl,
    tt,
    (ground (arith, after), above-AllFrom nodes key (nodes q).key l o.0 (ground (arith, after))),
  )
]

pub find_below :
    (nodes : ℕ → Node) (key j : ℕ) (a : List ℕ)
    → AllBelow nodes key a
    → key ≤ j
    → find j (pairs_of nodes a) ≡ none
unfolding find pairs_of
find_below nodes key j [] h le = refl
find_below nodes key j (q ∷ a) h le = ground (arith, h.0, find_below nodes key j a h.1)

-- The first node from the key on decides the lookup.
check_key_lem :
    (nodes : ℕ → Node) (key : ℕ) (count top : ℕ) (b : List ℕ)
    → AllFrom nodes key b
    → AreAscending (pairs_of nodes b)
    → ArePlaced nodes count top b
    → check_key nodes key (first_at nodes 0 b) ≡ find key (pairs_of nodes b)
unfolding check_key first_at find pairs_of
check_key_lem nodes key count top [] f o p = refl
check_key_lem nodes key count top (q ∷ b) f o p =
    ground (arith, p.0, f.0, find_above key (nodes q).key (pairs_of nodes b) o.0)

pub back-ArePlaced :
    (nodes : ℕ → Node) (count top : ℕ) (a b : List ℕ)
    → ArePlaced nodes count top (a ++ b)
    → ArePlaced nodes count top a × ArePlaced nodes count top b
back-ArePlaced nodes count top [] b p = (tt, p)
back-ArePlaced nodes count top (q ∷ a) b p =
    let (x, y) = back-ArePlaced nodes count top a b p.1 in ((p.0, x), y)

pub back-AreAscending :
    (nodes : ℕ → Node) (a b : List ℕ)
    → AreAscending (pairs_of nodes (a ++ b))
    → AreAscending (pairs_of nodes b)
unfolding pairs_of
back-AreAscending nodes [] b o = o
back-AreAscending nodes (q ∷ a) b o = back-AreAscending nodes a b o.1

-- A list with its nodes split at a key.
pub record IsSplit {Rng : Type 0} (s : SkipList Rng) (key : ℕ) (a b : List ℕ) : Type 0 where
  pub holds : Holds s (a ++ b)
  pub below : AllBelow s.nodes key a
  pub from : AllFrom s.nodes key b

module _ {Rng : Type 0} where
  pub Holds-IsSplit :
      (s : SkipList Rng) (key : ℕ) (l : List ℕ)
      → Holds s l
      → (a : List ℕ) × (b : List ℕ) × (l ≡ a ++ b) × IsSplit s key a b
  Holds-IsSplit s key l h =
      let (a, b, e, below, from) = split s.nodes key l h.ordered in
      (a, b, e, record { holds = subst (Holds s) e h; below = below; from = from })

  -- The search starts at the head, with any number of rounds that is enough for all the nodes.
  pub IsSplit-Stands :
      (n : ℕ) (s : SkipList Rng) (key : ℕ) (a b : List ℕ)
      → IsSplit s key a b
      → s.count ≤ n
      → Stands s.nodes key n s.current_level 0 a b
  IsSplit-Stands n s key a b h le = record {
    on_levels = omega (arith, h.holds.head_level, h.holds.top);
    linked = h.holds.head_linked;
    ahead = h.holds.linked;
    below = h.below;
    from = h.from;
    short = omega (arith, h.holds.counted, length-append a b);
  }

  pub searched_lem :
      (s : SkipList Rng) (key : ℕ) (a b : List ℕ)
      → IsSplit s key a b
      → Searched s.nodes s.current_level 0 a
          (λ _. none)
          (descend s.count s.nodes key s.current_level 0 (λ _. none))
  searched_lem s key a b h =
      descend-Searched s.nodes key s.count s.current_level 0 a b (λ _. none)
        (IsSplit-Stands s.count s key a b h (omega arith))

  -- The search ends before the first node from the key on.
  pub next_lem :
      (s : SkipList Rng) (key : ℕ) (a b : List ℕ)
      → IsSplit s key a b
      → (s.nodes (descend s.count s.nodes key s.current_level 0 (λ _. none)).0).forward 0
        ≡ first_at s.nodes 0 b
  next_lem s key a b h =
      let at = (searched_lem s key a b h).end h.holds.top.0 in
      ap (λ p. (s.nodes p).forward 0) at
      ∙ forward-last_at s.nodes 0 0 a b (h.holds.head_linked 0 (omega (arith, h.holds.head_level)))
          h.holds.linked

  pub get-find :
      (s : SkipList Rng) (key : ℕ) (a b : List ℕ)
      → IsSplit s key a b
      → get s key ≡ find key (pairs_of s.nodes (a ++ b))
  unfolding get
  get-find s key a b h =
      let there = next_lem s key a b h in
      ap (check_key s.nodes key) there
      ∙ check_key_lem s.nodes key s.count s.current_level b h.from
          (back-AreAscending s.nodes a b h.holds.ordered)
          (back-ArePlaced s.nodes s.count s.current_level a b h.holds.placed).1
      ∙ ground (
        arith,
        ap (find key) (pairs_of-append s.nodes a b),
        find-append key (pairs_of s.nodes a) (pairs_of s.nodes b),
        find_below s.nodes key key a h.below,
      )
