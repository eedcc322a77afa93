-- ===== src/Pool/Page/Valid.antt =====
-- slotted_page.hpp: the valid pages, and the two steps that an insertion is made of.
use cpp_interview.Prelude.{
  ℕ, ◌+◌, ◌-◌, ◌*◌, ◌%◌, ◌≤◌, ◌≡◌, refl, ap, ◌∙◌, false, some, List, ◌==◌, ltb, if◌then◌else◌,
  length, arith,
}
use cpp_interview.Pool.Page.{
  Slot, SlottedPage, copy_in, bytes_at, sub16, compact_from, compact, page_size, header_size,
  slot_size, free_space, place, get_tuple, init,
}
use cpp_interview.Pool.Page.Memory.{
  bytes_at-copy_in, tuple_in, AreInside, AreDisjoint, total, wider-AreInside, tuple_in_kept,
  tuple_in-put_slot, put_slot-AreInside, put_slot-AreDisjoint, total-put_slot, length-put_slot,
}
use cpp_interview.Pool.Page.Compact.{sub16_lem, IsCompacted, compact_from-IsCompacted}

-- The tuples lie above the free pointer, apart from each other, and the slots below it.
pub record IsValid (p : SlottedPage) : Type 0 where
  pub room : header_size + length p.slots * slot_size ≤ p.free_space_ptr
  pub inside : AreInside p.free_space_ptr page_size p.slots
  pub disjoint : AreDisjoint p.slots
  pub used : total p.slots + p.free_space_ptr ≤ page_size

pub init-IsValid : (page_id : ℕ) → IsValid (init page_id)
unfolding init total
init-IsValid page_id = record {
  room = ground arith;
  inside = tt;
  disjoint = tt;
  used = ground arith;
}

pub get_tuple-tuple_in : (p : SlottedPage) (i : ℕ) → get_tuple p i ≡ tuple_in p.bytes p.slots i
unfolding get_tuple tuple_in
get_tuple-tuple_in p i = refl

pub compacted :
    (buffer : ℕ → ℕ) (p : SlottedPage)
    → IsValid p
    → IsCompacted p.bytes p.slots page_size buffer (compact_from p.bytes p.slots page_size buffer)
compacted buffer p v =
    compact_from-IsCompacted p.bytes p.slots page_size buffer (ground arith) (omega (arith, v.used))

pub compact-IsValid : (buffer : ℕ → ℕ) (p : SlottedPage) → IsValid p → IsValid (compact buffer p)
unfolding compact
compact-IsValid buffer p v =
    let c = compacted buffer p v in
    record {
      room = omega (arith, v.room, v.used, c.length_lem, c.ptr_lem);
      inside = c.inside;
      disjoint = c.disjoint;
      used = omega (arith, c.ptr_lem, c.total_lem);
    }

-- Compaction changes no tuple of a valid page, which keeps its number of slots and has no less free
-- space than before.
pub get_tuple-compact :
    (buffer : ℕ → ℕ) (p : SlottedPage)
    → IsValid p
    → ((i : ℕ) → get_tuple (compact buffer p) i ≡ get_tuple p i)
      × (length (compact buffer p).slots ≡ length p.slots)
      × (free_space p ≤ free_space (compact buffer p))
unfolding compact get_tuple tuple_in
get_tuple-compact buffer p v =
    let c = compacted buffer p v in
    let r = compact_from p.bytes p.slots page_size buffer in
    (
      (λ i.
          tuple_in_kept r.2 (compact buffer p).bytes r.1 page_size r.0 c.inside
            (λ a l u. ground (arith, l, u)) i
          ∙ c.content i),
      c.length_lem,
      ground (arith, v.room, v.used, c.length_lem, c.ptr_lem),
    )

-- A payload is placed below the other tuples, if there is room for it and its slot.
pub place-IsValid :
    (p : SlottedPage) (i : ℕ) (payload : List ℕ)
    → IsValid p
    → i ≤ length p.slots
    → length payload
        + header_size
        + (if ltb i (length p.slots) then length p.slots else length p.slots + 1) * slot_size
      ≤ p.free_space_ptr
    → IsValid (place p i payload)
unfolding place
place-IsValid p i payload v le fits =
    let n = length payload in
    let ptr = sub16 p.free_space_ptr n in
    let small : p.free_space_ptr ≤ page_size = omega (arith, v.used) in
    let down : ptr ≡ p.free_space_ptr - n =
      sub16_lem p.free_space_ptr n (omega (arith, fits)) (omega (arith, small)) in
    let size : n % 65536 ≡ n = omega (arith, fits, small) in
    let s : Slot = record { offset = ptr; size = n % 65536; is_deleted = false } in
    record {
      room = omega (arith, fits, down, length-put_slot p.slots i s);
      inside =
          put_slot-AreInside ptr page_size p.slots i s
            (wider-AreInside p.free_space_ptr page_size ptr page_size p.slots (omega (arith, down))
              (omega arith) v.inside)
            (λ _. (omega arith, omega (arith, down, size, small, fits)));
      disjoint =
          put_slot-AreDisjoint p.free_space_ptr page_size p.slots i s v.inside
            (λ _. omega (arith, down, size, fits)) v.disjoint;
      used = omega (arith, v.used, down, size, fits, total-put_slot p.slots i s);
    }

pub get_tuple-place :
    (p : SlottedPage) (i : ℕ) (payload : List ℕ) (j : ℕ)
    → IsValid p
    → i ≤ length p.slots
    → length payload ≤ p.free_space_ptr
    → get_tuple (place p i payload) j ≡ (if i == j then some payload else get_tuple p j)
unfolding place
get_tuple-place p i payload j v le fits =
    let n = length payload in
    let ptr = sub16 p.free_space_ptr n in
    let small : p.free_space_ptr ≤ page_size = omega (arith, v.used) in
    let down : ptr ≡ p.free_space_ptr - n =
      sub16_lem p.free_space_ptr n (omega (arith, fits)) (omega (arith, small)) in
    let size : n % 65536 ≡ n = omega (arith, fits, small) in
    let s : Slot = record { offset = ptr; size = n % 65536; is_deleted = false } in
    let m = copy_in p.bytes ptr payload in
    let new : bytes_at m ptr (n % 65536) ≡ payload =
      ap (bytes_at m ptr) size ∙ bytes_at-copy_in p.bytes ptr payload in
    get_tuple-tuple_in (place p i payload) j
    ∙ tuple_in-put_slot m p.slots i s j le
    ∙ ground (
      arith,
      new,
      get_tuple-tuple_in p j,
      tuple_in_kept p.bytes m p.free_space_ptr page_size p.slots v.inside
          (λ a l u. ground (arith, l, down, fits)) j,
    )
