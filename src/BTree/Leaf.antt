-- ===== src/BTree/Leaf.antt =====
-- latch_crabbing_btree.hpp: lookup, insertion and splitting in one leaf.
use cpp_interview.Prelude.{
  ℕ, zero, suc, ◌+◌, ◌≤◌, ◌<◌, ◌≡◌, refl, Bool, true, Option, none, some, List, [], ◌∷◌, ◌==◌, ltb,
  leb, if◌then◌else◌, length, get_or, take, drop, arith,
}
use cpp_interview.Prelude.Sorted.{lower_bound}
use cpp_interview.BTree.{search_leaf, insert_at, insert_into_leaf}

-- The keys ascend from `low` on and stay below `high`, where there is one.
abbrev pub below : Option ℕ → ℕ → Bool
below none k = true
below (some h) k = ltb k h

abbrev pub AreKeys : ℕ → Option ℕ → List ℕ → Type 0
AreKeys low high [] = Unit {0}
AreKeys low high (k ∷ keys) = ((low ≤ k) × (below high k ≡ true)) × AreKeys (k + 1) high keys

search_leaf-cons :
    (k v j : ℕ) (keys values : List ℕ)
    → search_leaf (k ∷ keys) (v ∷ values) j
      ≡ (if ltb k j then search_leaf keys values j else if k == j then some v else none)
unfolding search_leaf lower_bound
search_leaf-cons k v j keys values = ground arith

insert_into_leaf-cons :
    (k v key val : ℕ) (keys values : List ℕ)
    → insert_into_leaf (k ∷ keys) (v ∷ values) key val ≡ (
        if ltb k key
        then (
          k ∷ (insert_into_leaf keys values key val).0,
          v ∷ (insert_into_leaf keys values key val).1,
        )
        else if k == key
        then (k ∷ keys, val ∷ values)
        else (key ∷ k ∷ keys, val ∷ v ∷ values))
unfolding insert_into_leaf lower_bound insert_at
insert_into_leaf-cons k v key val keys values = ground arith

search_leaf-insert_nil :
    (key val j : ℕ)
    → search_leaf (insert_into_leaf [] [] key val).0 (insert_into_leaf [] [] key val).1 j
      ≡ (if key == j then some val else search_leaf [] [] j)
unfolding insert_into_leaf search_leaf lower_bound insert_at
search_leaf-insert_nil key val j = ground arith

insert_into_leaf_nil :
    (key val : ℕ)
    → length (insert_into_leaf [] [] key val).0 ≡ length (insert_into_leaf [] [] key val).1
unfolding insert_into_leaf lower_bound insert_at
insert_into_leaf_nil key val = refl

AreKeys-insert_nil :
    (low : ℕ) (high : Option ℕ) (key val : ℕ)
    → low ≤ key
    → below high key ≡ true
    → AreKeys low high (insert_into_leaf [] [] key val).0
unfolding insert_into_leaf lower_bound insert_at
AreKeys-insert_nil low high key val h b = ((h, b), tt)

AreKeys-raise :
    (n : ℕ) (high : Option ℕ) (k : ℕ) (keys : List ℕ)
    → n ≤ k
    → AreKeys (k + 1) high keys
    → AreKeys (n + 1) high keys
AreKeys-raise n high k [] h a = tt
AreKeys-raise n high k (x ∷ keys) h a = ((omega arith, a.0.1), a.1)

search_leaf_nil : (values : List ℕ) (j : ℕ) → search_leaf [] values j ≡ none
unfolding search_leaf lower_bound
search_leaf_nil values j = refl

-- The leaf reads what was written last, and as many values as keys are kept.
pub search_leaf-insert :
    (keys values : List ℕ) (key val j : ℕ)
    → length keys ≡ length values
    → search_leaf
        (insert_into_leaf keys values key val).0
        (insert_into_leaf keys values key val).1
        j
      ≡ (if key == j then some val else search_leaf keys values j)
search_leaf-insert [] [] key val j e = search_leaf-insert_nil key val j
search_leaf-insert [] (v ∷ values) key val j e = absurd (omega arith)
search_leaf-insert (k ∷ keys) [] key val j e = absurd (omega arith)
search_leaf-insert (k ∷ keys) (v ∷ values) key val j e =
    let r : List ℕ × List ℕ = insert_into_leaf keys values key val in
    rw (insert_into_leaf-cons k v key val keys values) (
      ground (
        arith,
        search_leaf-insert keys values key val j (omega arith),
        search_leaf-cons k v j keys values,
        search_leaf-cons k v j r.0 r.1,
        search_leaf-cons k val j keys values,
        search_leaf-cons key val j (k ∷ keys) (v ∷ values),
      ))

pub length-insert_into_leaf :
    (keys values : List ℕ) (key val : ℕ)
    → length keys ≡ length values
    → length (insert_into_leaf keys values key val).0
      ≡ length (insert_into_leaf keys values key val).1
length-insert_into_leaf [] [] key val e = insert_into_leaf_nil key val
length-insert_into_leaf [] (v ∷ values) key val e = absurd (omega arith)
length-insert_into_leaf (k ∷ keys) [] key val e = absurd (omega arith)
length-insert_into_leaf (k ∷ keys) (v ∷ values) key val e =
    rw (insert_into_leaf-cons k v key val keys values)
      (ground (arith, length-insert_into_leaf keys values key val (omega arith)))

-- A new key from `low` on and below `high` keeps the keys of the leaf in order.
pub AreKeys-insert :
    (low : ℕ) (high : Option ℕ) (keys values : List ℕ) (key val : ℕ)
    → length keys ≡ length values
    → low ≤ key
    → below high key ≡ true
    → AreKeys low high keys
    → AreKeys low high (insert_into_leaf keys values key val).0
AreKeys-insert low high [] [] key val e from b a = AreKeys-insert_nil low high key val from b
AreKeys-insert low high [] (v ∷ values) key val e from b a = absurd (omega arith)
AreKeys-insert low high (k ∷ keys) [] key val e from b a = absurd (omega arith)
AreKeys-insert low high (k ∷ keys) (v ∷ values) key val e from b a =
    rw (insert_into_leaf-cons k v key val keys values) (
      ground (
        arith,
        AreKeys-insert (k + 1) high keys values key val (omega arith),
        AreKeys-raise key high k keys,
      ))

-- Each key of a leaf lies in its bounds.
pub get_or-bounds :
    (low : ℕ) (high : Option ℕ) (keys : List ℕ) (i : ℕ)
    → i < length keys
    → AreKeys low high keys
    → (low ≤ get_or keys i 0) × (below high (get_or keys i 0) ≡ true)
get_or-bounds low high [] i h a = absurd (omega arith)
get_or-bounds low high (k ∷ keys) zero h a = a.0
get_or-bounds low high (k ∷ keys) (suc i) h a =
    let r : (k + 1 ≤ get_or keys i 0) × (below high (get_or keys i 0) ≡ true) =
      get_or-bounds (k + 1) high keys i (omega arith) a.1 in
    (omega (arith, r.0, a.0.0), r.1)

-- A leaf that is split at `mid` finds in one of the halves what the whole leaf found.
pub search_leaf-split :
    (low : ℕ) (high : Option ℕ) (mid : ℕ) (keys values : List ℕ) (j : ℕ)
    → mid < length keys
    → length keys ≡ length values
    → AreKeys low high keys
    → search_leaf keys values j ≡ (
        if leb (get_or keys mid 0) j
        then search_leaf (drop mid keys) (drop mid values) j
        else search_leaf (take mid keys) (take mid values) j)
search_leaf-split low high mid [] values j h e a = absurd (omega arith)
search_leaf-split low high mid (k ∷ keys) [] j h e a = absurd (omega arith)
search_leaf-split low high zero (k ∷ keys) (v ∷ values) j h e a =
    ground (arith, search_leaf-cons k v j keys values, search_leaf_nil [] j)
search_leaf-split low high (suc mid) (k ∷ keys) (v ∷ values) j h e a = ground (
  arith,
  search_leaf-split (k + 1) high mid keys values j (omega arith) (omega arith) a.1,
  search_leaf-cons k v j keys values,
  search_leaf-cons k v j (take mid keys) (take mid values),
  get_or-bounds (k + 1) high keys mid (omega arith) a.1,
)

pub AreKeys-take :
    (low : ℕ) (high : Option ℕ) (mid : ℕ) (keys : List ℕ)
    → mid < length keys
    → AreKeys low high keys
    → AreKeys low (some (get_or keys mid 0)) (take mid keys)
AreKeys-take low high mid [] h a = absurd (omega arith)
AreKeys-take low high zero (k ∷ keys) h a = tt
AreKeys-take low high (suc mid) (k ∷ keys) h a = ground (
  arith,
  AreKeys-take (k + 1) high mid keys (omega arith) a.1,
  get_or-bounds (k + 1) high keys mid (omega arith) a.1,
)

pub AreKeys-drop :
    (low : ℕ) (high : Option ℕ) (mid : ℕ) (keys : List ℕ)
    → mid < length keys
    → AreKeys low high keys
    → AreKeys (get_or keys mid 0) high (drop mid keys)
AreKeys-drop low high mid [] h a = absurd (omega arith)
AreKeys-drop low high zero (k ∷ keys) h a = ((omega arith, a.0.1), a.1)
AreKeys-drop low high (suc mid) (k ∷ keys) h a =
    AreKeys-drop (k + 1) high mid keys (omega arith) a.1
