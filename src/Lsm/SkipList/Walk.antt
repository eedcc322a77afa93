-- ===== src/Lsm/SkipList/Walk.antt =====
-- skiplist_memtable.hpp: the searches, along the nodes in the order of their keys.
use cpp_interview.Prelude.{
  ℕ, zero, suc, ◌≤◌, ◌<◌, ◌≡◌, refl, Option, none, some, List, [], ◌∷◌, ◌++◌, ltb, if◌then◌else◌,
  length, arith, Bool-cases, Option-cases, inl, inr,
}
use cpp_interview.Lsm.SkipList.{Node, walk}

-- The first of the nodes that is on level `i`.
unfoldable pub first_at : (ℕ → Node) → ℕ → List ℕ → Option ℕ
first_at nodes i [] = none
first_at nodes i (q ∷ l) = if ltb i (nodes q).level then some q else first_at nodes i l

-- A node points, on each of its levels, to the first of the nodes behind it that is on that level.
abbrev pub IsLinked : (ℕ → Node) → ℕ → List ℕ → Type 0
IsLinked nodes p l = (i : ℕ) → i < (nodes p).level → (nodes p).forward i ≡ first_at nodes i l

abbrev pub AreLinked : (ℕ → Node) → List ℕ → Type 0
AreLinked nodes [] = Unit {0}
AreLinked nodes (q ∷ l) = IsLinked nodes q l × AreLinked nodes l

-- The keys before and from `key`.
abbrev pub AllBelow : (ℕ → Node) → ℕ → List ℕ → Type 0
AllBelow nodes key [] = Unit {0}
AllBelow nodes key (q ∷ l) = ((nodes q).key < key) × AllBelow nodes key l

abbrev pub AllFrom : (ℕ → Node) → ℕ → List ℕ → Type 0
AllFrom nodes key [] = Unit {0}
AllFrom nodes key (q ∷ l) = (key ≤ (nodes q).key) × AllFrom nodes key l

-- The last of the nodes that is on level `i`, or `p`, and the nodes behind it.
unfoldable pub seek : (ℕ → Node) → ℕ → ℕ → List ℕ → List ℕ → ℕ × List ℕ
seek nodes i p behind [] = (p, behind)
seek nodes i p behind (q ∷ a) =
    let here = seek nodes i q a a in
    let there = seek nodes i p behind a in if ltb i (nodes q).level then here else there

pub first_at-AllFrom :
    (nodes : ℕ → Node) (i key q : ℕ) (b : List ℕ)
    → AllFrom nodes key b
    → first_at nodes i b ≡ some q
    → key ≤ (nodes q).key
unfolding first_at
first_at-AllFrom nodes i key q [] f h = cc
first_at-AllFrom nodes i key q (r ∷ b) f h = ground (arith, h, first_at-AllFrom nodes i key q b f.1)

-- The inner loop ends at the last node before the key that is on its level.
pub walk-seek :
    (n : ℕ) (nodes : ℕ → Node) (i key p : ℕ) (behind a b : List ℕ)
    → (nodes p).forward i ≡ first_at nodes i (a ++ b)
    → AreLinked nodes (a ++ b)
    → AllBelow nodes key a
    → AllFrom nodes key b
    → length a ≤ n
    → walk n nodes i key p ≡ (seek nodes i p behind a).0
unfolding walk seek first_at
walk-seek zero nodes i key p behind [] b e l below from h = refl
walk-seek zero nodes i key p behind (q ∷ a) b e l below from h = absurd (omega arith)
walk-seek (suc n) nodes i key p behind [] b e l below from h =
    elim (Option-cases (first_at nodes i b)) [
      | inl last ↦ ground (arith, e, last)
      | inr (q, next) ↦ ground (arith, e, next, first_at-AllFrom nodes i key q b from next)
    ]
walk-seek (suc n) nodes i key p behind (q ∷ a) b e l below from h =
    elim (Bool-cases (ltb i (nodes q).level)) [
      | inl on ↦
          let lt : i < (nodes q).level = ground (arith, on) in
          let next : (nodes p).forward i ≡ some q = ground (arith, e, on) in
          ground (
            arith,
            next,
            on,
            below.0,
            walk-seek n nodes i key q a a b (l.0 i lt) l.1 below.1 from (omega arith),
          )
      | inr off ↦
          let same : (nodes p).forward i ≡ first_at nodes i (a ++ b) = ground (arith, e, off) in
          ground (
            arith,
            off,
            walk-seek (suc n) nodes i key p behind a b same l.1 below.1 from (omega arith),
          )
    ]
