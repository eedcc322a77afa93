-- ===== src/Pool/Page.antt =====
-- slotted_page.hpp. The header, the slots and the bytes of the tuples are apart here, though they
-- share one array of bytes: the tuples lie above the slots in every valid page.
pub mod Memory
pub mod Compact
pub mod Valid
pub mod Tuples
pub mod Updates
mod Tests
use cpp_interview.Prelude.{
  ℕ, zero, suc, ◌+◌, ◌-◌, ◌*◌, ◌%◌, Bool, true, false, ◌&&◌, not, Option, none, some, List, [], ◌∷◌,
  ◌==◌, ltb, leb, if◌then◌else◌, length, get_elem?, get_or,
}

abbrev pub page_size : ℕ
page_size = 4096

abbrev pub header_size : ℕ
header_size = 24

abbrev pub slot_size : ℕ
slot_size = 6

pub record Slot : Type 0 where
  pub offset : ℕ
  pub size : ℕ
  pub is_deleted : Bool

-- `slot_count` is the length of `slots`, `bytes` the bytes by their address.
pub record SlottedPage : Type 0 where
  pub page_id : ℕ
  pub lsn : ℕ
  pub free_space_ptr : ℕ
  pub flags : ℕ
  pub slots : List Slot
  pub bytes : ℕ → ℕ

-- Subtraction of 16-bit numbers.
abbrev pub sub16 : ℕ → ℕ → ℕ
sub16 a b = (a + 65536 - b % 65536) % 65536

-- `std::memcpy` of some bytes to an address, and the bytes that it reads from one.
abbrev pub copy_in : (ℕ → ℕ) → ℕ → List ℕ → ℕ → ℕ
copy_in bytes to payload a =
    if leb to a && ltb a (to + length payload) then get_or payload (a - to) 0 else bytes a

unfoldable pub bytes_at : (ℕ → ℕ) → ℕ → ℕ → List ℕ
bytes_at bytes from zero = []
bytes_at bytes from (suc n) = bytes from ∷ bytes_at bytes (from + 1) n

unfoldable pub init : ℕ → SlottedPage
init page_id = record {
  page_id = page_id;
  lsn = 0;
  free_space_ptr = page_size;
  flags = 0;
  slots = [];
  bytes = λ _. 0;
}

pub set_lsn : ℕ → SlottedPage → SlottedPage
set_lsn lsn p = record p { lsn = lsn }

abbrev pub free_space : SlottedPage → ℕ
free_space p =
    let header_and_slots = header_size + length p.slots * slot_size in
    if ltb p.free_space_ptr header_and_slots then 0 else p.free_space_ptr - header_and_slots

-- Whether a slot has bytes to move.
abbrev pub is_moved : Slot → Bool
is_moved s = not s.is_deleted && ltb 0 s.size

-- The loop of `compact`: the slots, the free pointer and the buffer.
unfoldable pub compact_from : (ℕ → ℕ) → List Slot → ℕ → (ℕ → ℕ) → List Slot × ℕ × (ℕ → ℕ)
compact_from bytes [] ptr temp = ([], ptr, temp)
compact_from bytes (s ∷ slots) ptr temp =
    let ptr1 = if is_moved s then sub16 ptr s.size else ptr in
    let temp1 = λ (a : ℕ).
      if is_moved s then copy_in temp ptr1 (bytes_at bytes s.offset s.size) a else temp a in
    let (rest, ptr2, temp2) = compact_from bytes slots ptr1 temp1 in
    ((if is_moved s then record s { offset = ptr1 } else s) ∷ rest, ptr2, temp2)

-- `buffer` is what the temporary buffer holds at the start, which is not set.
unfoldable pub compact : (ℕ → ℕ) → SlottedPage → SlottedPage
unfolding compact_from
compact buffer p =
    let (slots, ptr, temp) = compact_from p.bytes p.slots page_size buffer in
    record p {
      slots = slots;
      bytes = λ a. if leb ptr a && ltb a page_size then temp a else p.bytes a;
      free_space_ptr = ptr;
    }

-- The first deleted slot, or the number of slots.
unfoldable pub find_deleted : List Slot → ℕ
find_deleted [] = 0
find_deleted (s ∷ slots) = if s.is_deleted then 0 else find_deleted slots + 1

-- A slot is written, or put behind the others.
unfoldable pub put_slot : List Slot → ℕ → Slot → List Slot
put_slot [] i s = s ∷ []
put_slot (t ∷ slots) zero s = s ∷ slots
put_slot (t ∷ slots) (suc i) s = t ∷ put_slot slots i s

-- The payload below the other tuples, and a slot for it.
unfoldable pub place : SlottedPage → ℕ → List ℕ → SlottedPage
place p i payload =
    let ptr = sub16 p.free_space_ptr (length payload) in
    record p {
      free_space_ptr = ptr;
      bytes = copy_in p.bytes ptr payload;
      slots =
          put_slot p.slots i
            (record { offset = ptr; size = length payload % 65536; is_deleted = false });
    }

-- `compact`, if there are not `needed` bytes left.
unfoldable pub make_space : (ℕ → ℕ) → ℕ → SlottedPage → SlottedPage
make_space buffer needed p = if ltb (free_space p) needed then compact buffer p else p

unfoldable pub insert_tuple : (ℕ → ℕ) → SlottedPage → List ℕ → Option ℕ × SlottedPage
insert_tuple buffer p payload =
    let needed = length payload + slot_size in
    let p1 = make_space buffer needed p in
    let target = find_deleted p1.slots in
    if ltb (free_space p1) needed then (none, p1) else (some target, place p1 target payload)

unfoldable pub get_tuple : SlottedPage → ℕ → Option (List ℕ)
get_tuple p i = elim (get_elem? p.slots i) [
  | none ↦ none
  | some s ↦ if s.is_deleted then none else some (bytes_at p.bytes s.offset s.size)
]

-- A new payload for the slot `s` with the number `i`.
unfoldable pub replace : (ℕ → ℕ) → SlottedPage → ℕ → Slot → List ℕ → Bool × SlottedPage
replace buffer p i s payload =
    let n = length payload in
    let p1 = make_space buffer n p in
    if leb n s.size
    then (
      true,
      record p {
        bytes = copy_in p.bytes s.offset payload;
        slots = put_slot p.slots i (record s { size = n % 65536 });
      },
    )
    else if ltb (free_space p1) n
    then (false, p1)
    else (true, place p1 i payload)

unfoldable pub update_tuple : (ℕ → ℕ) → SlottedPage → ℕ → List ℕ → Bool × SlottedPage
update_tuple buffer p i payload = elim (get_elem? p.slots i) [
  | none ↦ (false, p)
  | some s ↦ if s.is_deleted then (false, p) else replace buffer p i s payload
]

unfoldable pub delete_tuple : SlottedPage → ℕ → Bool × SlottedPage
delete_tuple p i = elim (get_elem? p.slots i) [
  | none ↦ (false, p)
  | some s ↦ if s.is_deleted then (false, p) else (
    true,
    record p { slots = put_slot p.slots i (record s { is_deleted = true; size = 0 }) },
  )
]
