-- ===== src/Pool/Page/Updates.antt =====
-- slotted_page.hpp: a new payload for a tuple, in its place or in another.
use cpp_interview.Prelude.{
  ℕ, zero, suc, ◌+◌, ◌*◌, ◌%◌, ◌≤◌, ◌<◌, ◌≡◌, refl, ap, sym, ◌∙◌, subst, ◌≢◌, Bool, true, false,
  ◌&&◌, none, some, List, [], ◌∷◌, ◌==◌, ltb, leb, if◌then◌else◌, length, get_elem?, arith,
  Bool-cases, Option-cases, inl, inr, ◌⊎◌,
}
use cpp_interview.Pool.Page.{
  Slot, SlottedPage, copy_in, bytes_at, is_moved, page_size, header_size, slot_size, free_space,
  put_slot, get_tuple, make_space, update_tuple, replace,
}
use cpp_interview.Pool.Page.Memory.{
  bytes_at_kept, bytes_at-copy_in, tuple_at, tuple_in, still_lem, AreApart, IsApart, IsInside,
  AreInside, AreDisjoint, total, tuple_in-put_slot, put_slot-IsApart, put_slot-AreInside,
  length-put_slot,
}
use cpp_interview.Pool.Page.Valid.{IsValid, get_tuple-tuple_in, place-IsValid, get_tuple-place}
use cpp_interview.Pool.Page.Tuples.{
  make_space-IsRoomy, get_elem?_lt, get_tuple_found, get_tuple_missing,
}

AreInside-get_elem? :
    (low high : ℕ) (slots : List Slot) (i : ℕ) (s : Slot)
    → AreInside low high slots
    → get_elem? slots i ≡ some s
    → IsInside low high s
AreInside-get_elem? low high [] i s h e = cc
AreInside-get_elem? low high (t ∷ slots) zero s h e =
    let same : t ≡ s = cc in subst (IsInside low high) same h.0
AreInside-get_elem? low high (t ∷ slots) (suc i) s h e =
    AreInside-get_elem? low high slots i s h.1 e

IsApart-get_elem? :
    (t : Slot) (slots : List Slot) (i : ℕ) (s : Slot)
    → IsApart t slots
    → get_elem? slots i ≡ some s
    → AreApart t s
IsApart-get_elem? t [] i s h e = cc
IsApart-get_elem? t (u ∷ slots) zero s h e = let same : u ≡ s = cc in subst (AreApart t) same h.0
IsApart-get_elem? t (u ∷ slots) (suc i) s h e = IsApart-get_elem? t slots i s h.1 e

sym-AreApart : (s t : Slot) → AreApart s t → AreApart t s
sym-AreApart s t h m n = ground (arith, h n m)

-- Two slots of a list whose tuples are disjoint.
AreDisjoint-get_elem? :
    (slots : List Slot) (i j : ℕ) (s t : Slot)
    → AreDisjoint slots
    → get_elem? slots i ≡ some s
    → get_elem? slots j ≡ some t
    → i ≢ j
    → AreApart s t
AreDisjoint-get_elem? [] i j s t d e f ne = cc
AreDisjoint-get_elem? (x ∷ slots) zero zero s t d e f ne = absurd (ne refl)
AreDisjoint-get_elem? (x ∷ slots) zero (suc j) s t d e f ne =
    let same : x ≡ s = cc in subst (λ y. AreApart y t) same (IsApart-get_elem? x slots j t d.0 f)
AreDisjoint-get_elem? (x ∷ slots) (suc i) zero s t d e f ne =
    let same : x ≡ t = cc in
    sym-AreApart t s (subst (λ y. AreApart y s) same (IsApart-get_elem? x slots i s d.0 e))
AreDisjoint-get_elem? (x ∷ slots) (suc i) (suc j) s t d e f ne =
    AreDisjoint-get_elem? slots i j s t d.1 e f (λ h. ne (ap suc h))

-- `s1` is `s` with no more bytes.
module _ (s s1 : Slot) (offset : s1.offset ≡ s.offset) (size : s1.size ≤ s.size)
    (moved : is_moved s1 ≡ true → is_moved s ≡ true) where
  narrower-AreApart : (t : Slot) → AreApart t s → AreApart t s1
  narrower-AreApart t h m n = ground (arith, h m (moved n), offset, size)

  narrower-IsApart : (slots : List Slot) → IsApart s slots → IsApart s1 slots
  narrower-IsApart [] h = tt
  narrower-IsApart (t ∷ slots) h =
      (sym-AreApart t s1 (narrower-AreApart t (sym-AreApart s t h.0)), narrower-IsApart slots h.1)

  narrower-AreDisjoint :
      (slots : List Slot) (i : ℕ)
      → AreDisjoint slots
      → get_elem? slots i ≡ some s
      → AreDisjoint (put_slot slots i s1)
  unfolding put_slot
  narrower-AreDisjoint [] i d e = cc
  narrower-AreDisjoint (t ∷ slots) zero d e =
      let same : t ≡ s = cc in (narrower-IsApart slots (subst (λ y. IsApart y slots) same d.0), d.1)
  narrower-AreDisjoint (t ∷ slots) (suc i) d e = (
    put_slot-IsApart t slots i s1 d.0 (narrower-AreApart t (IsApart-get_elem? t slots i s d.0 e)),
    narrower-AreDisjoint slots i d.1 e,
  )

  narrower-total :
      (slots : List Slot) (i : ℕ)
      → get_elem? slots i ≡ some s
      → total (put_slot slots i s1) ≤ total slots
  unfolding put_slot total
  narrower-total [] i e = cc
  narrower-total (t ∷ slots) zero e =
      let same : t ≡ s = cc in
      subst
        (λ (y : Slot).
          (if is_moved s1 then s1.size else 0) + total slots
          ≤ (if is_moved y then y.size else 0) + total slots)
        (sym same) (ground (arith, moved, size))
  narrower-total (t ∷ slots) (suc i) e = omega (arith, narrower-total slots i e)

-- Bytes that change within one tuple leave the others.
beside_lem :
    (m m1 : ℕ → ℕ) (s t : Slot)
    → AreApart s t
    → s.is_deleted ≡ false
    → ((a : ℕ) → (a < s.offset) ⊎ (s.offset + s.size ≤ a) → m1 a ≡ m a)
    → tuple_at m1 t ≡ tuple_at m t
beside_lem m m1 s t apart live h = elim (Bool-cases (is_moved t)) [
  | inr still ↦ still_lem m m1 t still
  | inl moved ↦
      ap (λ x. if t.is_deleted then none else some x)
        (bytes_at_kept m m1 t.offset t.size (λ a l u. elim (Bool-cases (is_moved s)) [
          | inr empty ↦
              let zero_size : s.size ≡ 0 = ground (arith, empty, live) in
              elim (Bool-cases (ltb a s.offset)) [
                | inl before ↦ h a (inl (ground (arith, before)))
                | inr behind ↦ h a (inr (ground (arith, behind, zero_size)))
              ]
          | inl full ↦ elim (Bool-cases (leb (s.offset + s.size) t.offset)) [
            | inl above ↦ h a (inr (ground (arith, above, l)))
            | inr below ↦ h a (inl (ground (arith, below, u, apart full moved)))
          ]
        ]))
]

-- The page and the answer after an update.
abbrev pub IsUpdated : SlottedPage → ℕ → List ℕ → Bool × SlottedPage → Type 0
IsUpdated p i payload (done, p1) =
    IsValid p1
    × ((j : ℕ) → get_tuple p1 j ≡ (if done && i == j then some payload else get_tuple p j))
    × (done ≡ false
        → (get_tuple p i ≡ none)
          ⊎ (page_size < total p.slots + header_size + length p.slots * slot_size + length payload))

tuple_in_found :
    (m : ℕ → ℕ) (slots : List Slot) (j : ℕ) (t : Slot)
    → get_elem? slots j ≡ some t
    → tuple_in m slots j ≡ tuple_at m t
unfolding tuple_in
tuple_in_found m slots j t f = rw (tuple_in, f) refl

tuple_in_missing :
    (m : ℕ → ℕ) (slots : List Slot) (j : ℕ) → get_elem? slots j ≡ none → tuple_in m slots j ≡ none
unfolding tuple_in
tuple_in_missing m slots j f = rw (tuple_in, f) refl

-- In its place.
abbrev in_place : SlottedPage → ℕ → Slot → List ℕ → SlottedPage
in_place p i s payload = record p {
  bytes = copy_in p.bytes s.offset payload;
  slots = put_slot p.slots i (record s { size = length payload % 65536 });
}

in_place-IsUpdated :
    (p : SlottedPage) (i : ℕ) (s : Slot) (payload : List ℕ)
    → IsValid p
    → get_elem? p.slots i ≡ some s
    → s.is_deleted ≡ false
    → length payload ≤ s.size
    → IsUpdated p i payload (true, in_place p i s payload)
in_place-IsUpdated p i s payload v e live le =
    let n = length payload in
    let s1 : Slot = record s { size = n % 65536 } in
    let within = AreInside-get_elem? p.free_space_ptr page_size p.slots i s v.inside e in
    let small : n < 65536 = elim (Bool-cases (is_moved s)) [
      | inl full ↦ omega (arith, le, within full)
      | inr empty ↦ ground (arith, empty, live, le)
    ] in
    let size : n % 65536 ≡ n = omega (arith, small) in
    let moved : is_moved s1 ≡ true → is_moved s ≡ true = λ h. ground (arith, h, size, le) in
    let at = get_elem?_lt p.slots i s e in
    let m = copy_in p.bytes s.offset payload in
    let new : tuple_at m s1 ≡ some payload =
      rw live
        (ap some (ap (bytes_at m s.offset) size ∙ bytes_at-copy_in p.bytes s.offset payload)) in
    let outside : (a : ℕ) → (a < s.offset) ⊎ (s.offset + s.size ≤ a) → m a ≡ p.bytes a =
      λ a h. ground (arith, h, le) in
    (
      record {
        room = ground (arith, at, v.room, length-put_slot p.slots i s1);
        inside =
            put_slot-AreInside p.free_space_ptr page_size p.slots i s1 v.inside
              (λ h. ground (arith, within (moved h), size, le));
        disjoint =
            narrower-AreDisjoint s s1 refl (omega (arith, size, le)) moved p.slots i v.disjoint e;
        used =
            omega
              (arith, v.used, narrower-total s s1 refl (omega (arith, size, le)) moved p.slots i e);
      },
      (λ j.
          get_tuple-tuple_in (in_place p i s payload) j
          ∙ tuple_in-put_slot m p.slots i s1 j (omega (arith, at))
          ∙ elim (Bool-cases (i == j)) [
            | inl same ↦ rw same new
            | inr other ↦ rw other (elim (Option-cases (get_elem? p.slots j)) [
              | inl missing ↦
                  tuple_in_missing m p.slots j missing ∙ sym (get_tuple_missing p j missing)
              | inr (t, f) ↦
                  let ne : i ≢ j = ground (arith, other) in
                  tuple_in_found m p.slots j t f
                  ∙ beside_lem p.bytes m s t
                      (AreDisjoint-get_elem? p.slots i j s t v.disjoint e f ne) live outside
                  ∙ sym (get_tuple_found p j t f)
            ])
          ]),
      λ h. cc,
    )

-- In another place, if there is room.
replace-IsUpdated :
    (buffer : ℕ → ℕ) (p : SlottedPage) (i : ℕ) (s : Slot) (payload : List ℕ)
    → IsValid p
    → get_elem? p.slots i ≡ some s
    → s.is_deleted ≡ false
    → IsUpdated p i payload (replace buffer p i s payload)
unfolding replace
replace-IsUpdated buffer p i s payload v e live = elim (Bool-cases (leb (length payload) s.size)) [
  | inl fits ↦ rw fits (in_place-IsUpdated p i s payload v e live (ground (arith, fits)))
  | inr larger ↦
      let p1 = make_space buffer (length payload) p in
      let h = make_space-IsRoomy buffer (length payload) p v in
      elim (Bool-cases (ltb (free_space p1) (length payload))) [
        | inl short ↦
            rw (larger, short) (h.valid, h.same, λ _. inr (h.full (ground (arith, short))))
        | inr enough ↦
            let at : i < length p1.slots = omega (arith, get_elem?_lt p.slots i s e, h.count) in
            let room = h.valid.room in
            rw (larger, enough)
              (
                place-IsValid p1 i payload h.valid (omega (arith, at))
                    (ground (arith, at, enough, room)),
                (λ j.
                    get_tuple-place p1 i payload j h.valid (omega (arith, at))
                      (ground (arith, at, enough, room))
                    ∙ ground (arith, h.same j)),
                λ x. cc,
              )
      ]
]

-- An update of a valid page leaves a valid page. If it succeeds, the slot holds the new payload and
-- every other one what it held; if it does not, no tuple has changed, and the slot held nothing, or
-- the tuples with the new payload are more than the page can hold.
pub update_tuple_lem :
    (buffer : ℕ → ℕ) (p : SlottedPage) (i : ℕ) (payload : List ℕ)
    → IsValid p
    → IsUpdated p i payload (update_tuple buffer p i payload)
unfolding update_tuple
update_tuple_lem buffer p i payload v = elim (Option-cases (get_elem? p.slots i)) [
  | inl missing ↦
      let same : update_tuple buffer p i payload ≡ (false, p) = rw (update_tuple, missing) refl in
      subst (IsUpdated p i payload) (sym same)
        (v, (λ j. refl), λ _. inl (get_tuple_missing p i missing))
  | inr (s, e) ↦ elim (Bool-cases s.is_deleted) [
    | inl gone ↦
        let same : update_tuple buffer p i payload ≡ (false, p) = rw (update_tuple, e, gone) refl in
        subst (IsUpdated p i payload) (sym same)
          (v, (λ j. refl), λ _. inl (rw (get_tuple_found p i s e, gone) refl))
    | inr live ↦
        let same : update_tuple buffer p i payload ≡ replace buffer p i s payload =
          rw (update_tuple, e, live) refl in
        subst (IsUpdated p i payload) (sym same) (replace-IsUpdated buffer p i s payload v e live)
  ]
]
