-- ===== src/Lsm/SkipList/Insert.antt =====
-- skiplist_memtable.hpp: the loop that links a new node into the levels below its own.
use cpp_interview.Prelude.{
  ℕ, zero, suc, ◌+◌, ◌≡◌, refl, ◌∙◌, ◌≢◌, ◌&&◌, some, ◌==◌, ltb, leb, if◌then◌else◌, arith, Option,
  ◌<◌,
}
use cpp_interview.Lsm.SkipList.{Node, set_forward, link}

link_step :
    (p : ℕ) (ends : ℕ → ℕ) (i : ℕ) (nodes : ℕ → Node) (x j : ℕ)
    → ends i ≢ p
    → let nodes2 =
        set_forward (set_forward nodes p i ((nodes (ends i)).forward i)) (ends i) i (some p) in
      ((nodes2 x).key ≡ (nodes x).key)
      × ((nodes2 x).value ≡ (nodes x).value)
      × ((nodes2 x).level ≡ (nodes x).level)
      × ((nodes2 x).forward j ≡ (
          if i == j
          then (if p == x
              then (nodes (ends i)).forward i
              else if ends i == x
              then some p
              else (nodes x).forward j)
          else (nodes x).forward j))
link_step p ends i nodes x j ne = (ground arith, ground arith, ground arith, ground (arith, ne))

-- After the loop the fields are the same but for the links on its levels.
pub link_same :
    (p : ℕ) (update : ℕ → Option ℕ) (ends : ℕ → ℕ) (n i : ℕ) (nodes : ℕ → Node) (x : ℕ)
    → ((k : ℕ) → ends k ≢ p)
    → ((k : ℕ) → k < i + n → update k ≡ some (ends k))
    → ((link p update n i nodes x).key ≡ (nodes x).key)
      × ((link p update n i nodes x).value ≡ (nodes x).value)
      × ((link p update n i nodes x).level ≡ (nodes x).level)
unfolding link
link_same p update ends zero i nodes x ne at = (refl, refl, refl)
link_same p update ends (suc n) i nodes x ne at =
    let nodes2 =
      set_forward (set_forward nodes p i ((nodes (ends i)).forward i)) (ends i) i (some p) in
    let (k, v, l, _) = link_step p ends i nodes x 0 (ne i) in
    let (k2, v2, l2) = link_same p update ends n (i + 1) nodes2 x ne (λ j h. at j (omega arith)) in
    rw (link, at i (omega arith)) (k2 ∙ k, v2 ∙ v, l2 ∙ l)

pub link-forward :
    (p : ℕ) (update : ℕ → Option ℕ) (ends : ℕ → ℕ) (n i : ℕ) (nodes : ℕ → Node) (x j : ℕ)
    → ((k : ℕ) → ends k ≢ p)
    → ((k : ℕ) → k < i + n → update k ≡ some (ends k))
    → (link p update n i nodes x).forward j ≡ (
        if leb i j && ltb j (i + n)
        then (if p == x
            then (nodes (ends j)).forward j
            else if ends j == x
            then some p
            else (nodes x).forward j)
        else (nodes x).forward j)
unfolding link
link-forward p update ends zero i nodes x j ne at = ground arith
link-forward p update ends (suc n) i nodes x j ne at =
    let nodes2 =
      set_forward (set_forward nodes p i ((nodes (ends i)).forward i)) (ends i) i (some p) in
    let (_, _, _, f) = link_step p ends i nodes x j (ne i) in
    let (_, _, _, g) = link_step p ends i nodes (ends j) j (ne i) in
    rw (link, at i (omega arith))
      (link-forward p update ends n (i + 1) nodes2 x j ne (λ k h. at k (omega arith))
        ∙ ground (arith, f, g, ne j))
