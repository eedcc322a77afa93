-- ===== src/Pool/Page/Tuples.antt =====
-- slotted_page.hpp: the page as a table of tuples.
use cpp_interview.Prelude.{
  ℕ, zero, suc, ◌+◌, ◌*◌, ◌≤◌, ◌<◌, ◌≡◌, refl, ap, sym, ◌∙◌, subst, Bool, true, false, none, some,
  List, [], ◌∷◌, ◌==◌, ltb, if◌then◌else◌, length, get_elem?, arith, Bool-cases, Option-cases, inl,
  inr,
}
use cpp_interview.Pool.Page.{
  Slot, SlottedPage, compact, page_size, header_size, slot_size, free_space, put_slot, get_tuple,
  make_space, find_deleted, insert_tuple, delete_tuple,
}
use cpp_interview.Pool.Page.Memory.{
  tuple_at, total, tuple_in-put_slot, put_slot-AreInside, put_slot-AreDisjoint, total-put_slot,
  length-put_slot, find_deleted_le,
}
use cpp_interview.Pool.Page.Valid.{
  IsValid, compacted, compact-IsValid, get_tuple-compact, get_tuple-tuple_in, place-IsValid,
  get_tuple-place,
}

-- Making space keeps the page valid and its tuples, and fails only if there is no room for them all.
pub record IsRoomy (p p1 : SlottedPage) (needed : ℕ) : Type 0 where
  pub valid : IsValid p1
  pub same : (i : ℕ) → get_tuple p1 i ≡ get_tuple p i
  pub count : length p1.slots ≡ length p.slots
  pub full :
      free_space p1 < needed
      → page_size < total p.slots + header_size + length p.slots * slot_size + needed

compact-full :
    (buffer : ℕ → ℕ) (p : SlottedPage)
    → IsValid p
    → page_size
      ≤ total p.slots + header_size + length p.slots * slot_size + free_space (compact buffer p)
unfolding compact
compact-full buffer p v = let c = compacted buffer p v in ground (arith, c.length_lem, c.ptr_lem)

pub make_space-IsRoomy :
    (buffer : ℕ → ℕ) (needed : ℕ) (p : SlottedPage)
    → IsValid p
    → IsRoomy p (make_space buffer needed p) needed
unfolding make_space
make_space-IsRoomy buffer needed p v = elim (Bool-cases (ltb (free_space p) needed)) [
  | inl short ↦
      let (same, count, _) = get_tuple-compact buffer p v in
      rw short (record {
        valid = compact-IsValid buffer p v;
        same = same;
        count = count;
        full = λ h. omega (arith, h, compact-full buffer p v);
      })
  | inr enough ↦
      rw enough (record {
        valid = v;
        same = λ i. refl;
        count = refl;
        full = λ h. ground (arith, h, enough);
      })
]

pub insert_tuple_lem :
    (buffer : ℕ → ℕ) (p : SlottedPage) (payload : List ℕ)
    → IsValid p
    → let (found, p1) = insert_tuple buffer p payload in
      IsValid p1
      × ((j : ℕ)
          → get_tuple p1 j ≡ elim found [
            | none ↦ get_tuple p j
            | some i ↦ if i == j then some payload else get_tuple p j
          ])
      × (found ≡ none
          → page_size
            < total p.slots
              + header_size
              + length p.slots * slot_size
              + (length payload + slot_size))
unfolding insert_tuple
insert_tuple_lem buffer p payload v =
    let needed = length payload + slot_size in
    let p1 = make_space buffer needed p in
    let h = make_space-IsRoomy buffer needed p v in
    let le = find_deleted_le p1.slots in
    elim (Bool-cases (ltb (free_space p1) needed)) [
      | inl short ↦ rw short (h.valid, h.same, λ _. h.full (ground (arith, short)))
      | inr enough ↦
          let room = h.valid.room in
          rw enough (
            place-IsValid p1 (find_deleted p1.slots) payload h.valid le
                (ground (arith, enough, room)),
            (λ j.
                get_tuple-place p1 (find_deleted p1.slots) payload j h.valid le
                  (ground (arith, enough, room))
                ∙ ground (arith, h.same j)),
            λ e. ground (arith, e),
          )
    ]

pub get_elem?_lt :
    (slots : List Slot) (i : ℕ) (s : Slot) → get_elem? slots i ≡ some s → i < length slots
get_elem?_lt [] i s e = cc
get_elem?_lt (t ∷ slots) zero s e = omega arith
get_elem?_lt (t ∷ slots) (suc i) s e = omega (arith, get_elem?_lt slots i s e)

-- What a slot that is found holds.
pub get_tuple_found :
    (p : SlottedPage) (i : ℕ) (s : Slot)
    → get_elem? p.slots i ≡ some s
    → get_tuple p i ≡ tuple_at p.bytes s
unfolding get_tuple
get_tuple_found p i s e = rw (get_tuple, e) refl

pub get_tuple_missing :
    (p : SlottedPage) (i : ℕ) → get_elem? p.slots i ≡ none → get_tuple p i ≡ none
unfolding get_tuple
get_tuple_missing p i e = rw (get_tuple, e) refl

-- The page and the answer after a deletion.
abbrev pub IsDeleted : SlottedPage → ℕ → Bool × SlottedPage → Type 0
IsDeleted p i (done, p1) =
    IsValid p1
    × ((j : ℕ) → get_tuple p1 j ≡ (if i == j then none else get_tuple p j))
    × (done ≡ elim (get_tuple p i) [ none ↦ false | some payload ↦ true ])

nothing-IsDeleted :
    (p : SlottedPage) (i : ℕ) → IsValid p → get_tuple p i ≡ none → IsDeleted p i (false, p)
nothing-IsDeleted p i v e = (
  v,
  (λ j. elim (Bool-cases (i == j)) [
    | inl same ↦
        let here : i ≡ j = ground (arith, same) in rw same (ap (get_tuple p) (sym here) ∙ e)
    | inr other ↦ rw other refl
  ]),
  rw e refl,
)

-- A slot whose tuple is deleted.
abbrev deleted : Slot → Slot
deleted s = record s { is_deleted = true; size = 0 }

deleted-IsDeleted :
    (p : SlottedPage) (i : ℕ) (s : Slot)
    → IsValid p
    → get_elem? p.slots i ≡ some s
    → s.is_deleted ≡ false
    → IsDeleted p i (true, record p { slots = put_slot p.slots i (deleted s) })
deleted-IsDeleted p i s v e live =
    let at = get_elem?_lt p.slots i s e in
    let p1 : SlottedPage = record p { slots = put_slot p.slots i (deleted s) } in
    (
      record {
        room = ground (arith, at, v.room, length-put_slot p.slots i (deleted s));
        inside =
            put_slot-AreInside p.free_space_ptr page_size p.slots i (deleted s) v.inside (λ m. cc);
        disjoint =
            put_slot-AreDisjoint p.free_space_ptr page_size p.slots i (deleted s) v.inside (λ m. cc)
              v.disjoint;
        used = omega (arith, v.used, total-put_slot p.slots i (deleted s));
      },
      (λ j.
          get_tuple-tuple_in p1 j
          ∙ tuple_in-put_slot p.bytes p.slots i (deleted s) j (omega (arith, at))
          ∙ ground (arith, get_tuple-tuple_in p j)),
      rw (get_tuple_found p i s e, live) refl,
    )

-- Deleting from a valid page leaves a valid page, in which the slot holds nothing and every other one
-- what it held. It fails exactly if the slot held nothing.
pub delete_tuple_lem : (p : SlottedPage) (i : ℕ) → IsValid p → IsDeleted p i (delete_tuple p i)
unfolding delete_tuple
delete_tuple_lem p i v = elim (Option-cases (get_elem? p.slots i)) [
  | inl missing ↦
      let same : delete_tuple p i ≡ (false, p) = rw (delete_tuple, missing) refl in
      subst (IsDeleted p i) (sym same) (nothing-IsDeleted p i v (get_tuple_missing p i missing))
  | inr (s, e) ↦ elim (Bool-cases s.is_deleted) [
    | inl gone ↦
        let same : delete_tuple p i ≡ (false, p) = rw (delete_tuple, e, gone) refl in
        subst (IsDeleted p i) (sym same)
          (nothing-IsDeleted p i v (rw (get_tuple_found p i s e, gone) refl))
    | inr live ↦
        let same : delete_tuple p i ≡ (true, record p { slots = put_slot p.slots i (deleted s) }) =
          rw (delete_tuple, e, live) refl in
        subst (IsDeleted p i) (sym same) (deleted-IsDeleted p i s v e live)
  ]
]
