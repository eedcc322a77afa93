-- ===== src/Pool/Page/Memory.antt =====
-- slotted_page.hpp: what copies of bytes leave, and the tuples of a list of slots.
use cpp_interview.Prelude.{
  ℕ, zero, suc, ◌+◌, ◌-◌, ◌≤◌, ◌<◌, ◌≡◌, refl, ap, ◌∙◌, true, false, ◌||◌, Option, none, some, List,
  [], ◌∷◌, ◌==◌, ltb, leb, if◌then◌else◌, length, get_elem?, get_or, arith, Bool-cases, inl, inr,
}
use cpp_interview.Pool.Page.{Slot, copy_in, bytes_at, is_moved, put_slot, find_deleted}

pub bytes_at_kept :
    (m m1 : ℕ → ℕ) (from n : ℕ)
    → ((a : ℕ) → from ≤ a → a < from + n → m1 a ≡ m a)
    → bytes_at m1 from n ≡ bytes_at m from n
unfolding bytes_at
bytes_at_kept m m1 from zero h = refl
bytes_at_kept m m1 from (suc n) h = ground (
  arith,
  h from (omega arith) (omega arith),
  bytes_at_kept m m1 (from + 1) n (λ a l u. h a (omega arith) (omega arith)),
)

bytes_at_lem :
    (m : ℕ → ℕ) (from : ℕ) (payload : List ℕ)
    → ((i : ℕ) → i < length payload → m (from + i) ≡ get_or payload i 0)
    → bytes_at m from (length payload) ≡ payload
unfolding bytes_at
bytes_at_lem m from [] h = refl
bytes_at_lem m from (x ∷ payload) h =
    let same : (i : ℕ) → from + 1 + i ≡ from + suc i = λ i. omega arith in
    let start : from + 0 ≡ from = omega arith in
    ground (
      arith,
      h 0 (omega arith),
      ap m start,
      bytes_at_lem m (from + 1) payload (λ i lt. ap m (same i) ∙ h (suc i) (omega arith)),
    )

-- What is copied to an address is read there.
pub bytes_at-copy_in :
    (m : ℕ → ℕ) (to : ℕ) (payload : List ℕ)
    → bytes_at (copy_in m to payload) to (length payload) ≡ payload
bytes_at-copy_in m to payload =
    let back : (i : ℕ) → (to + i) - to ≡ i = λ i. omega arith in
    bytes_at_lem (copy_in m to payload) to payload
      (λ i lt. ground (arith, lt, ap (λ t. get_or payload t 0) (back i)))

pub length-bytes_at : (m : ℕ → ℕ) (from n : ℕ) → length (bytes_at m from n) ≡ n
unfolding bytes_at
length-bytes_at m from zero = refl
length-bytes_at m from (suc n) = ground (arith, length-bytes_at m (from + 1) n)

-- The bytes of a slot.
abbrev pub tuple_at : (ℕ → ℕ) → Slot → Option (List ℕ)
tuple_at m s = if s.is_deleted then none else some (bytes_at m s.offset s.size)

-- `get_tuple` on a list of slots.
unfoldable pub tuple_in : (ℕ → ℕ) → List Slot → ℕ → Option (List ℕ)
tuple_in m slots i = elim (get_elem? slots i) [ none ↦ none | some s ↦ tuple_at m s ]

pub tuple_in-cons :
    (m m1 : ℕ → ℕ) (s s1 : Slot) (slots slots1 : List Slot)
    → tuple_at m s ≡ tuple_at m1 s1
    → ((i : ℕ) → tuple_in m slots i ≡ tuple_in m1 slots1 i)
    → (i : ℕ) → tuple_in m (s ∷ slots) i ≡ tuple_in m1 (s1 ∷ slots1) i
unfolding tuple_in
tuple_in-cons m m1 s s1 slots slots1 e h zero = e
tuple_in-cons m m1 s s1 slots slots1 e h (suc i) = h i

-- A slot with no bytes holds the same wherever it is read.
pub still_lem : (m m1 : ℕ → ℕ) (s : Slot) → is_moved s ≡ false → tuple_at m1 s ≡ tuple_at m s
unfolding bytes_at
still_lem m m1 s h = elim (Bool-cases s.is_deleted) [
  | inl gone ↦ rw gone refl
  | inr live ↦ let empty : s.size ≡ 0 = ground (arith, h, live) in rw (live, empty) refl
]

-- The slots whose tuples have bytes lie in an interval, and no two of them overlap.
abbrev pub IsInside : ℕ → ℕ → Slot → Type 0
IsInside low high s = is_moved s ≡ true → (low ≤ s.offset) × (s.offset + s.size ≤ high)

abbrev pub AreInside : ℕ → ℕ → List Slot → Type 0
AreInside low high [] = Unit {0}
AreInside low high (s ∷ slots) = IsInside low high s × AreInside low high slots

abbrev pub AreApart : Slot → Slot → Type 0
AreApart s t =
    is_moved s ≡ true
    → is_moved t ≡ true
    → (leb (s.offset + s.size) t.offset || leb (t.offset + t.size) s.offset) ≡ true

abbrev pub IsApart : Slot → List Slot → Type 0
IsApart s [] = Unit {0}
IsApart s (t ∷ slots) = AreApart s t × IsApart s slots

abbrev pub AreDisjoint : List Slot → Type 0
AreDisjoint [] = Unit {0}
AreDisjoint (s ∷ slots) = IsApart s slots × AreDisjoint slots

-- The bytes that the tuples take.
unfoldable pub total : List Slot → ℕ
total [] = 0
total (s ∷ slots) = (if is_moved s then s.size else 0) + total slots

pub wider-AreInside :
    (low high low1 high1 : ℕ) (slots : List Slot)
    → low1 ≤ low
    → high ≤ high1
    → AreInside low high slots
    → AreInside low1 high1 slots
wider-AreInside low high low1 high1 [] l h i = tt
wider-AreInside low high low1 high1 (s ∷ slots) l h i =
    ((λ m. ground (arith, l, h, i.0 m)), wider-AreInside low high low1 high1 slots l h i.1)

-- A slot that lies above the others is apart from them.
pub above-IsApart :
    (low high : ℕ) (s : Slot) (slots : List Slot)
    → AreInside low high slots
    → (is_moved s ≡ true → high ≤ s.offset)
    → IsApart s slots
above-IsApart low high s [] i h = tt
above-IsApart low high s (t ∷ slots) i h =
    ((λ m n. ground (arith, h m, i.0 n)), above-IsApart low high s slots i.1 h)

-- Tuples are the same in another memory that agrees with the first where they lie.
pub tuple_in_kept :
    (m m1 : ℕ → ℕ) (low high : ℕ) (slots : List Slot)
    → AreInside low high slots
    → ((a : ℕ) → low ≤ a → a < high → m1 a ≡ m a)
    → (i : ℕ) → tuple_in m1 slots i ≡ tuple_in m slots i
unfolding tuple_in
tuple_in_kept m m1 low high [] h k = λ i. refl
tuple_in_kept m m1 low high (s ∷ slots) h k =
    tuple_in-cons m1 m s s slots slots
      (elim (Bool-cases (is_moved s)) [
        | inl moved ↦
            let (l, u) = h.0 moved in
            ap (λ t. if s.is_deleted then none else some t)
              (bytes_at_kept m m1 s.offset s.size
                (λ a x y. k a (omega (arith, l, x)) (omega (arith, u, y))))
        | inr still ↦ still_lem m m1 s still
      ])
      (tuple_in_kept m m1 low high slots h.1 k)

-- The tuples of the slots when one is written.
pub tuple_in-put_slot :
    (m : ℕ → ℕ) (slots : List Slot) (i : ℕ) (s : Slot) (j : ℕ)
    → i ≤ length slots
    → tuple_in m (put_slot slots i s) j ≡ (if i == j then tuple_at m s else tuple_in m slots j)
unfolding tuple_in put_slot
tuple_in-put_slot m [] zero s zero h = refl
tuple_in-put_slot m [] zero s (suc j) h = ground arith
tuple_in-put_slot m [] (suc i) s j h = absurd (omega arith)
tuple_in-put_slot m (t ∷ slots) zero s zero h = refl
tuple_in-put_slot m (t ∷ slots) zero s (suc j) h = ground arith
tuple_in-put_slot m (t ∷ slots) (suc i) s zero h = ground arith
tuple_in-put_slot m (t ∷ slots) (suc i) s (suc j) h =
    ground (arith, tuple_in-put_slot m slots i s j (omega arith))

pub put_slot-AreInside :
    (low high : ℕ) (slots : List Slot) (i : ℕ) (s : Slot)
    → AreInside low high slots
    → IsInside low high s
    → AreInside low high (put_slot slots i s)
unfolding put_slot
put_slot-AreInside low high [] i s h k = (k, tt)
put_slot-AreInside low high (t ∷ slots) zero s h k = (k, h.1)
put_slot-AreInside low high (t ∷ slots) (suc i) s h k =
    (h.0, put_slot-AreInside low high slots i s h.1 k)

pub put_slot-IsApart :
    (t : Slot) (slots : List Slot) (i : ℕ) (s : Slot)
    → IsApart t slots
    → AreApart t s
    → IsApart t (put_slot slots i s)
unfolding put_slot
put_slot-IsApart t [] i s h k = (k, tt)
put_slot-IsApart t (u ∷ slots) zero s h k = (k, h.1)
put_slot-IsApart t (u ∷ slots) (suc i) s h k = (h.0, put_slot-IsApart t slots i s h.1 k)

-- A slot that lies below the others.
pub below-IsApart :
    (low high : ℕ) (s : Slot) (slots : List Slot)
    → AreInside low high slots
    → (is_moved s ≡ true → s.offset + s.size ≤ low)
    → IsApart s slots
below-IsApart low high s [] i h = tt
below-IsApart low high s (t ∷ slots) i h =
    ((λ m n. ground (arith, h m, i.0 n)), below-IsApart low high s slots i.1 h)

pub put_slot-AreDisjoint :
    (low high : ℕ) (slots : List Slot) (i : ℕ) (s : Slot)
    → AreInside low high slots
    → (is_moved s ≡ true → s.offset + s.size ≤ low)
    → AreDisjoint slots
    → AreDisjoint (put_slot slots i s)
unfolding put_slot
put_slot-AreDisjoint low high [] i s h k d = (tt, tt)
put_slot-AreDisjoint low high (t ∷ slots) zero s h k d = (below-IsApart low high s slots h.1 k, d.1)
put_slot-AreDisjoint low high (t ∷ slots) (suc i) s h k d = (
  put_slot-IsApart t slots i s d.0 (λ m n. ground (arith, h.0 m, k n)),
  put_slot-AreDisjoint low high slots i s h.1 k d.1,
)

pub total-put_slot :
    (slots : List Slot) (i : ℕ) (s : Slot) → total (put_slot slots i s) ≤ total slots + s.size
unfolding total put_slot
total-put_slot [] i s = ground arith
total-put_slot (t ∷ slots) zero s = ground arith
total-put_slot (t ∷ slots) (suc i) s = ground (arith, total-put_slot slots i s)

pub length-put_slot :
    (slots : List Slot) (i : ℕ) (s : Slot)
    → length (put_slot slots i s)
      ≡ (if ltb i (length slots) then length slots else length slots + 1)
unfolding put_slot
length-put_slot [] i s = ground arith
length-put_slot (t ∷ slots) zero s = ground arith
length-put_slot (t ∷ slots) (suc i) s = ground (arith, length-put_slot slots i s)

pub find_deleted_le : (slots : List Slot) → find_deleted slots ≤ length slots
unfolding find_deleted
find_deleted_le [] = omega arith
find_deleted_le (s ∷ slots) = ground (arith, find_deleted_le slots)
