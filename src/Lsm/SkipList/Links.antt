-- ===== src/Lsm/SkipList/Links.antt =====
-- skiplist_memtable.hpp: where the outer loop ends, and what it leaves in `update`.
use cpp_interview.Prelude.{
  ℕ, zero, suc, ◌≤◌, ◌<◌, ◌≡◌, refl, ap, sym, ◌∙◌, subst, List, [], ◌∷◌, ◌++◌, ◌==◌, ltb,
  if◌then◌else◌, length, arith, Bool-cases, inl, inr, Option, some,
}
use cpp_interview.Lsm.SsTable.Index.{append_assoc}
use cpp_interview.Lsm.SkipList.{Node, max_level, walk, descend}
use cpp_interview.Lsm.SkipList.Walk.{
  first_at, IsLinked, AreLinked, AllBelow, AllFrom, seek, walk-seek,
}

-- The last of the nodes that is on level `i`, or `p`.
unfoldable pub last_at : (ℕ → Node) → ℕ → ℕ → List ℕ → ℕ
last_at nodes i p [] = p
last_at nodes i p (q ∷ a) = last_at nodes i (if ltb i (nodes q).level then q else p) a

seek-last_at :
    (nodes : ℕ → Node) (i p : ℕ) (behind a : List ℕ)
    → (seek nodes i p behind a).0 ≡ last_at nodes i p a
unfolding seek last_at
seek-last_at nodes i p behind [] = refl
seek-last_at nodes i p behind (q ∷ a) =
    ground (arith, seek-last_at nodes i q a a, seek-last_at nodes i p behind a)

last_at_past :
    (nodes : ℕ → Node) (j p q : ℕ) (mid a : List ℕ)
    → j < (nodes q).level
    → last_at nodes j p (mid ++ (q ∷ a)) ≡ last_at nodes j q a
unfolding last_at
last_at_past nodes j p q [] a h = ground arith
last_at_past nodes j p q (r ∷ mid) a h =
    last_at_past nodes j (if ltb j (nodes r).level then r else p) q mid a h

-- On the levels below, the search goes on from there as from the start.
last_at-seek :
    (nodes : ℕ → Node) (i j p : ℕ) (mid a : List ℕ)
    → j ≤ i
    → last_at nodes j (seek nodes i p (mid ++ a) a).0 (seek nodes i p (mid ++ a) a).1
      ≡ last_at nodes j p (mid ++ a)
unfolding seek
last_at-seek nodes i j p mid [] h = refl
last_at-seek nodes i j p mid (q ∷ a) h = elim (Bool-cases (ltb i (nodes q).level)) [
  | inl on ↦
      rw on (
        last_at-seek nodes i j q [] a h ∙ sym (last_at_past nodes j p q mid a (ground (arith, on))))
  | inr off ↦ rw off (
      subst
        (λ t. last_at nodes j (seek nodes i p t a).0 (seek nodes i p t a).1 ≡ last_at nodes j p t)
        (append_assoc mid (q ∷ []) a) (last_at-seek nodes i j p (mid ++ (q ∷ [])) a h))
]

abbrev pub AllLevels : (ℕ → Node) → List ℕ → Type 0
AllLevels nodes [] = Unit {0}
AllLevels nodes (q ∷ l) = (0 < (nodes q).level) × ((nodes q).level ≤ max_level) × AllLevels nodes l

-- A search stands at `p`, which is on the levels below `i`, with `a` ahead before the key.
pub record Stands (nodes : ℕ → Node) (key n i p : ℕ) (a b : List ℕ) : Type 0 where
  pub on_levels : i ≤ (nodes p).level
  pub linked : IsLinked nodes p (a ++ b)
  pub ahead : AreLinked nodes (a ++ b)
  pub below : AllBelow nodes key a
  pub from : AllFrom nodes key b
  pub short : length a ≤ n

seek-Stands :
    (nodes : ℕ → Node) (key n i p : ℕ) (behind a b : List ℕ)
    → Stands nodes key n (suc i) p behind b
    → AreLinked nodes (a ++ b)
    → AllBelow nodes key a
    → length a ≤ n
    → Stands nodes key n (suc i) (seek nodes i p behind a).0 (seek nodes i p behind a).1 b
unfolding seek
seek-Stands nodes key n i p behind [] b s l below short = s
seek-Stands nodes key n i p behind (q ∷ a) b s l below short =
    elim (Bool-cases (ltb i (nodes q).level)) [
      | inl on ↦
          let here : Stands nodes key n (suc i) q a b = record {
            on_levels = ground (arith, on);
            linked = l.0;
            ahead = l.1;
            below = below.1;
            from = s.from;
            short = omega arith;
          } in
          rw on (seek-Stands nodes key n i q a a b here l.1 below.1 (omega arith))
      | inr off ↦ rw off (seek-Stands nodes key n i p behind a b s l.1 below.1 (omega arith))
    ]

reached_seek :
    (n : ℕ) (nodes : ℕ → Node) (i key p : ℕ) (a b : List ℕ)
    → Stands nodes key n (suc i) p a b
    → walk n nodes i key p ≡ (seek nodes i p a a).0
reached_seek n nodes i key p a b s =
    walk-seek n nodes i key p a a b (s.linked i s.on_levels) s.ahead s.below s.from s.short

-- After the inner loop the search stands a level lower.
pub walk-Stands :
    (nodes : ℕ → Node) (key n i p : ℕ) (a b : List ℕ)
    → Stands nodes key n (suc i) p a b
    → Stands nodes key n i (walk n nodes i key p) (seek nodes i p a a).1 b
walk-Stands nodes key n i p a b s =
    let p1 = walk n nodes i key p in
    let a1 = (seek nodes i p a a).1 in
    let s1 : Stands nodes key n (suc i) p1 a1 b =
      subst (λ t. Stands nodes key n (suc i) t a1 b) (sym (reached_seek n nodes i key p a b s))
        (seek-Stands nodes key n i p a a b s s.ahead s.below s.short) in
    record {
      on_levels = omega (arith, s1.on_levels);
      linked = s1.linked;
      ahead = s1.ahead;
      below = s1.below;
      from = s1.from;
      short = s1.short;
    }

-- `update` holds, on each level that was searched, the last node before the key; the end of the
-- search is that of level 0.
pub record Searched (nodes : ℕ → Node) (i p : ℕ) (a : List ℕ) (update : ℕ → Option ℕ)
    (r : ℕ × (ℕ → Option ℕ)) : Type 0 where
  pub searched : (j : ℕ) → j < i → r.1 j ≡ some (last_at nodes j p a)
  pub others : (j : ℕ) → i ≤ j → r.1 j ≡ update j
  pub end : 0 < i → r.0 ≡ last_at nodes 0 p a

descend_done :
    (n : ℕ) (nodes : ℕ → Node) (key i p : ℕ) (update : ℕ → Option ℕ)
    → i ≡ 0
    → (descend n nodes key i p update).0 ≡ p
unfolding descend
descend_done n nodes key zero p update h = refl
descend_done n nodes key (suc i) p update h = absurd (omega arith)

pub descend-Searched :
    (nodes : ℕ → Node) (key n i p : ℕ) (a b : List ℕ) (update : ℕ → Option ℕ)
    → Stands nodes key n i p a b
    → Searched nodes i p a update (descend n nodes key i p update)
unfolding descend
descend-Searched nodes key n zero p a b update s = record {
  searched = λ j h. absurd (omega arith);
  others = λ j h. refl;
  end = λ h. absurd (omega arith);
}
descend-Searched nodes key n (suc i) p a b update s =
    let p1 = walk n nodes i key p in
    let a1 = (seek nodes i p a a).1 in
    let at : p1 ≡ (seek nodes i p a a).0 = reached_seek n nodes i key p a b s in
    let up : p1 ≡ last_at nodes i p a = at ∙ seek-last_at nodes i p a a in
    let s2 : Stands nodes key n i p1 a1 b = walk-Stands nodes key n i p a b s in
    let down =
      λ (j : ℕ) (h : j ≤ i). ap (λ t. last_at nodes j t a1) at ∙ last_at-seek nodes i j p [] a h in
    let update1 = λ (j : ℕ). if i == j then some p1 else update j in
    let r = descend-Searched nodes key n i p1 a1 b update1 s2 in
    record {
      searched = λ j h. elim (Bool-cases (ltb j i)) [
        | inl under ↦
            let lt : j < i = ground (arith, under) in
            r.searched j lt ∙ ap some (down j (omega arith))
        | inr over ↦
            let here : i ≡ j = ground (arith, over, h) in
            r.others j (omega arith)
            ∙ ground (arith, here)
            ∙ ap some up
            ∙ ap (λ t. some (last_at nodes t p a)) here
      ];
      others = λ j h. r.others j (omega arith) ∙ ground (arith, h);
      end = λ h. elim (Bool-cases (ltb 0 i)) [
        | inl more ↦ let lt : 0 < i = ground (arith, more) in r.end lt ∙ down 0 (omega arith)
        | inr done ↦
            let here : i ≡ 0 = ground (arith, done) in
            descend_done n nodes key i p1 update1 here ∙ up ∙ ap (λ t. last_at nodes t p a) here
      ];
    }

-- The last node before the key on a level points to the first one from the key on.
pub forward-last_at :
    (nodes : ℕ → Node) (i p : ℕ) (a b : List ℕ)
    → (nodes p).forward i ≡ first_at nodes i (a ++ b)
    → AreLinked nodes (a ++ b)
    → (nodes (last_at nodes i p a)).forward i ≡ first_at nodes i b
unfolding last_at first_at
forward-last_at nodes i p [] b e l = e
forward-last_at nodes i p (q ∷ a) b e l = elim (Bool-cases (ltb i (nodes q).level)) [
  | inl on ↦ rw on (forward-last_at nodes i q a b (l.0 i (ground (arith, on))) l.1)
  | inr off ↦ rw off (forward-last_at nodes i p a b (ground (arith, e, off)) l.1)
]

-- The inner loop ends before the first node from the key on.
pub forward-walk :
    (nodes : ℕ → Node) (key n i p : ℕ) (a b : List ℕ)
    → Stands nodes key n (suc i) p a b
    → (nodes (walk n nodes i key p)).forward i ≡ first_at nodes i b
forward-walk nodes key n i p a b s =
    ap (λ t. (nodes t).forward i) (reached_seek n nodes i key p a b s ∙ seek-last_at nodes i p a a)
    ∙ forward-last_at nodes i p a b (s.linked i s.on_levels) s.ahead
