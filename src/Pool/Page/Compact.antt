-- ===== src/Pool/Page/Compact.antt =====
-- slotted_page.hpp: the loop that moves the tuples to the end of the page.
use cpp_interview.Prelude.{
  ℕ, ◌+◌, ◌-◌, ◌≤◌, ◌<◌, ◌≡◌, refl, ap, ◌∙◌, subst, true, false, none, some, List, [], ◌∷◌,
  if◌then◌else◌, length, arith, Bool-cases, inl, inr,
}
use cpp_interview.Pool.Page.{Slot, copy_in, bytes_at, is_moved, sub16, compact_from}
use cpp_interview.Pool.Page.Memory.{
  bytes_at_kept, bytes_at-copy_in, length-bytes_at, tuple_in, tuple_in-cons, still_lem, AreInside,
  IsApart, AreDisjoint, total, wider-AreInside, above-IsApart,
}

pub sub16_lem : (a b : ℕ) → b ≤ a → a < 65536 → sub16 a b ≡ a - b
sub16_lem a b h lt = omega arith

-- What the loop leaves: the tuples below `ptr`, one under the other, with their bytes in the buffer.
pub record IsCompacted (m : ℕ → ℕ) (slots : List Slot) (ptr : ℕ) (temp : ℕ → ℕ)
    (r : List Slot × ℕ × (ℕ → ℕ)) : Type 0 where
  pub length_lem : length r.0 ≡ length slots
  pub ptr_lem : r.1 + total slots ≡ ptr
  pub kept : (a : ℕ) → ptr ≤ a → r.2 a ≡ temp a
  pub inside : AreInside r.1 ptr r.0
  pub disjoint : AreDisjoint r.0
  pub total_lem : total r.0 ≡ total slots
  pub content : (i : ℕ) → tuple_in r.2 r.0 i ≡ tuple_in m slots i

still-IsApart : (s : Slot) (slots : List Slot) → is_moved s ≡ false → IsApart s slots
still-IsApart s [] h = tt
still-IsApart s (t ∷ slots) h = ((λ m n. ground (arith, h, m)), still-IsApart s slots h)

bytes_at_moved :
    (m temp temp2 : ℕ → ℕ) (s : Slot) (ptr : ℕ)
    → ((a : ℕ) → ptr ≤ a → temp2 a ≡ copy_in temp ptr (bytes_at m s.offset s.size) a)
    → bytes_at temp2 ptr s.size ≡ bytes_at m s.offset s.size
bytes_at_moved m temp temp2 s ptr h =
    let payload = bytes_at m s.offset s.size in
    bytes_at_kept (copy_in temp ptr payload) temp2 ptr s.size (λ a l u. h a l)
    ∙ subst (λ n. bytes_at (copy_in temp ptr payload) ptr n ≡ payload)
        (length-bytes_at m s.offset s.size) (bytes_at-copy_in temp ptr payload)

module _ (m : ℕ → ℕ) (s : Slot) (slots : List Slot) (ptr : ℕ) (temp : ℕ → ℕ)
    (r : List Slot × ℕ × (ℕ → ℕ)) where
  cons_moved :
      is_moved s ≡ true
      → ptr < 65536
      → s.size + total slots ≤ ptr
      → IsCompacted m slots
          (sub16 ptr s.size)
          (copy_in temp (sub16 ptr s.size) (bytes_at m s.offset s.size))
          r
      → IsCompacted m (s ∷ slots) ptr temp (record s { offset = sub16 ptr s.size } ∷ r.0, r.1, r.2)
  unfolding total tuple_in
  cons_moved moved lt fits h =
      let down : sub16 ptr s.size ≡ ptr - s.size = sub16_lem ptr s.size (omega (arith, fits)) lt in
      let top : sub16 ptr s.size + s.size ≡ ptr = omega (arith, down, fits) in
      record {
        length_lem = ground (arith, h.length_lem);
        ptr_lem = ground (arith, moved, h.ptr_lem, top);
        kept = λ a le.
            h.kept a (omega (arith, top, le))
            ∙ ground (arith, top, le, length-bytes_at m s.offset s.size);
        inside = (
          (λ _. (omega (arith, h.ptr_lem), omega (arith, top))),
          wider-AreInside r.1 (sub16 ptr s.size) r.1 ptr r.0 (omega arith) (omega (arith, top))
              h.inside,
        );
        disjoint = (
          above-IsApart r.1 (sub16 ptr s.size) (record s { offset = sub16 ptr s.size }) r.0 h.inside
              (λ _. omega arith),
          h.disjoint,
        );
        total_lem = ground (arith, moved, h.total_lem);
        content =
            tuple_in-cons r.2 m (record s { offset = sub16 ptr s.size }) s r.0 slots
              (ap (λ t. if s.is_deleted then none else some t)
                (bytes_at_moved m temp r.2 s (sub16 ptr s.size) h.kept))
              h.content;
      }

  cons_still :
      is_moved s ≡ false
      → IsCompacted m slots ptr temp r
      → IsCompacted m (s ∷ slots) ptr temp (s ∷ r.0, r.1, r.2)
  unfolding total tuple_in
  cons_still still h = record {
    length_lem = ground (arith, h.length_lem);
    ptr_lem = ground (arith, still, h.ptr_lem);
    kept = h.kept;
    inside = ((λ e. ground (arith, still, e)), h.inside);
    disjoint = (still-IsApart s r.0 still, h.disjoint);
    total_lem = ground (arith, still, h.total_lem);
    content = tuple_in-cons r.2 m s s r.0 slots (still_lem m r.2 s still) h.content;
  }

pub compact_from-IsCompacted :
    (m : ℕ → ℕ) (slots : List Slot) (ptr : ℕ) (temp : ℕ → ℕ)
    → ptr < 65536
    → total slots ≤ ptr
    → IsCompacted m slots ptr temp (compact_from m slots ptr temp)
unfolding compact_from total tuple_in
compact_from-IsCompacted m [] ptr temp lt le = record {
  length_lem = refl;
  ptr_lem = omega arith;
  kept = λ a h. refl;
  inside = tt;
  disjoint = tt;
  total_lem = refl;
  content = λ i. refl;
}
compact_from-IsCompacted m (s ∷ slots) ptr temp lt le = elim (Bool-cases (is_moved s)) [
  | inl moved ↦
      let fits : s.size + total slots ≤ ptr = ground (arith, moved, le) in
      let ptr1 = sub16 ptr s.size in
      let down : ptr1 ≡ ptr - s.size = sub16_lem ptr s.size (omega (arith, fits)) lt in
      let temp1 = copy_in temp ptr1 (bytes_at m s.offset s.size) in
      rw moved (
        cons_moved m s slots ptr temp (compact_from m slots ptr1 temp1) moved lt fits (
          compact_from-IsCompacted m slots ptr1 temp1 (omega (arith, down))
            (omega (arith, down, fits))))
  | inr still ↦ rw still (
      cons_still m s slots ptr temp (compact_from m slots ptr temp) still
        (compact_from-IsCompacted m slots ptr temp lt (ground (arith, still, le))))
]
