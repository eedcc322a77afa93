-- ===== src/BTree/Latches.antt =====
-- latch_crabbing_btree.hpp: the latches that a call takes and gives back.
pub mod Insert
use cpp_interview.Prelude.{
  ℕ, zero, suc, ◌+◌, ◌≤◌, ◌<◌, ◌≡◌, refl, Bool, true, false, ◌&&◌, ◌||◌, not, Option, none, some,
  List, [], ◌∷◌, ◌++◌, ◌==◌, ltb, leb, if◌then◌else◌, length, subst, arith, Bool-cases, inl, inr,
  ◌∙◌,
}
use mathlib.Core.List.{append_assoc, append-nil}
use cpp_interview.Prelude.Sorted.{contains}
use cpp_interview.BTree.{
  Node, leaf, internal, Children, nil, cons, Mode, shared, exclusive, Latching, lock, unlock,
  find_child, search_node, search_child, search, unlock_all, release, is_safe_for_insert,
  insert_node, insert_child, insert,
}
use cpp_interview.BTree.Order.{IsTree, AreTrees}

abbrev pub without : ℕ → List ℕ → List ℕ
without l [] = []
without l (x ∷ held) = if x == l then held else x ∷ without l held

-- Whether latch `l` may be taken: it is not held, and the latch before it on the way is, but for the first.
abbrev pub may_lock : ℕ → List ℕ → Bool
may_lock zero held = not (contains zero held)
may_lock (suc l) held = not (contains (suc l) held) && contains l held

abbrev pub is_same : Mode → Mode → Bool
is_same shared shared = true
is_same shared exclusive = false
is_same exclusive shared = false
is_same exclusive exclusive = true

is_same_self : (w : Mode) → is_same w w ≡ true
is_same_self shared = refl
is_same_self exclusive = refl

-- The latches held after a series, from those held before it; none where a latch is taken that may not be, or
-- given back and not held, or either in another mode than `w`.
unfoldable pub play : Mode → List Latching → List ℕ → Option (List ℕ)
unfolding contains
play w [] held = some held
play w (lock v l ∷ ls) held =
    let rest = play w ls (held ++ (l ∷ [])) in if is_same w v && may_lock l held then rest else none
play w (unlock v l ∷ ls) held =
    let rest = play w ls (without l held) in if is_same w v && contains l held then rest else none

-- Latches of nodes down to depth `d`, that of depth `d` included.
abbrev pub Within : ℕ → List ℕ → Type 0
Within d [] = Unit {0}
Within d (l ∷ held) = ((1 ≤ l) × (l ≤ d + 1)) × Within d held

abbrev pub root_latch : Bool → List ℕ
root_latch owned = if owned then 0 ∷ [] else []

pub contains-append :
    (l : ℕ) (xs ys : List ℕ) → contains l (xs ++ ys) ≡ (contains l xs || contains l ys)
unfolding contains
contains-append l [] ys = refl
contains-append l (x ∷ xs) ys = ground (arith, contains-append l xs ys)

pub contains-Within :
    (d l : ℕ) (held : List ℕ) → Within d held → d + 1 < l → contains l held ≡ false
unfolding contains
contains-Within d l [] w h = refl
contains-Within d l (x ∷ held) w h = ground (arith, contains-Within d l held w.1 h)

pub Within-append :
    (d : ℕ) (held : List ℕ) → Within d held → Within (d + 1) (held ++ ((d + 2) ∷ []))
Within-append d [] w = ((omega arith, omega arith), tt)
Within-append d (x ∷ held) w = ((w.0.0, omega (arith, w.0.1)), Within-append d held w.1)

pub contains_self : (l : ℕ) (held : List ℕ) → contains l (l ∷ held) ≡ true
unfolding contains
contains_self l held = ground arith

may_lock_next :
    (l : ℕ) (held : List ℕ)
    → contains (suc l) held ≡ false
    → contains l held ≡ true
    → may_lock (suc l) held ≡ true
may_lock_next l held a b = ground (arith, a, b)

pub play_nil : (w : Mode) → play w [] [] ≡ some []
unfolding play
play_nil w = refl

pub play-lock :
    (w : Mode) (l p : ℕ) (ls : List Latching) (held : List ℕ)
    → l ≡ suc p
    → contains l held ≡ false
    → contains p held ≡ true
    → play w (lock w l ∷ ls) held ≡ play w ls (held ++ (l ∷ []))
unfolding play
play-lock w zero p ls held e a b = absurd (omega arith)
play-lock w (suc l) p ls held e a b =
    let f : l ≡ p = omega arith in
    let b1 : contains l held ≡ true = rw f b in rw (is_same_self w, a, b1) refl

pub play-unlock :
    (w : Mode) (l : ℕ) (ls : List Latching) (held : List ℕ)
    → contains l held ≡ true
    → play w (unlock w l ∷ ls) held ≡ play w ls (without l held)
unfolding play
play-unlock w l ls held e = rw (is_same_self w, e) refl

pub without_self : (l : ℕ) (held : List ℕ) → without l (l ∷ held) ≡ held
without_self l held = ground arith

contains-suc : (p l : ℕ) → l ≡ suc p → contains l (p ∷ []) ≡ false
unfolding contains
contains-suc p l e = ground arith

play_down :
    (p l m : ℕ) (ls : List Latching)
    → l ≡ suc p
    → m ≡ l
    → play shared ls (m ∷ []) ≡ some []
    → play shared (lock shared l ∷ unlock shared p ∷ ls) (p ∷ []) ≡ some []
play_down p l m ls e f h =
    play-lock shared l p (unlock shared p ∷ ls) (p ∷ []) e (contains-suc p l e) (contains_self p [])
    ∙ play-unlock shared p ls (p ∷ l ∷ []) (contains_self p (l ∷ []))
    ∙ rw (without_self p (l ∷ [])) (subst (λ n. play shared ls (n ∷ []) ≡ some []) f h)

-- A search holds one latch at a time but while it goes down.
mutual
  unfolding search_node find_child play contains

  pub play-search_node :
      (low : ℕ) (high : Option ℕ) (n : Node) (d key : ℕ)
      → IsTree low high n
      → play shared (search_node d key n).1 ((d + 1) ∷ []) ≡ some []
  play-search_node low high (leaf keys values) d key t = ground arith
  play-search_node low high (internal keys children) d key t =
      play-search_child low high keys children d key t

  play-search_child :
      (low : ℕ) (high : Option ℕ) (keys : List ℕ) (children : Children) (d key : ℕ)
      → AreTrees low high keys children
      → play shared (search_child d key children (find_child keys key)).1 ((d + 1) ∷ []) ≡ some []
  play-search_child low high keys nil d key t = elim t [ ]
  play-search_child low high [] (cons n nil) d key t =
      play_down (d + 1) (d + 2) (d + 1 + 1) (search_node (d + 1) key n).1 (omega arith)
        (omega arith) (play-search_node low high n (d + 1) key t)
  play-search_child low high [] (cons n (cons m children)) d key t = elim t [ ]
  play-search_child low high (k ∷ keys) (cons n children) d key t = elim (Bool-cases (leb k key)) [
    | inl e ↦ rw e (play-search_child k high keys children d key t.2)
    | inr e ↦ rw e (
        play_down (d + 1) (d + 2) (d + 1 + 1) (search_node (d + 1) key n).1 (omega arith)
          (omega arith) (play-search_node low (some k) n (d + 1) key t.1))
  ]
