-- ===== src/Shm/Names.antt =====
-- What the two rings share: named objects of shared memory, and the handles on them. Whether each
-- system call succeeds is an argument. An object lives on when its name is removed.
use native.Mathlib.Nat.{mul-le-mul_right}
use cpp_interview.Prelude.{
  ◌*◌, ◌%◌, ◌^◌, ◌≤◌, ◌<◌, ap, ℕ, ◌+◌, ◌≡◌, Bool, true, false, Option, none, some, ◌==◌,
  if◌then◌else◌, ◌&&◌, not, min, arith, refl, ◌∙◌,
}
use cpp_interview.Prelude.Dict.{Dict, find, assign, erase, find-assign}
use cpp_interview.Prelude.Words.{sub64}
use cpp_interview.Shm.Ring.{Ring, header_size}

pub record Calls : Type 0 where
  pub opened : Bool
  pub truncated : Bool
  pub mapped : Bool

abbrev pub working : Calls
working = record { opened = true; truncated = true; mapped = true }

pub record Memory (A : Type 0) : Type 0 where
  pub names : Dict ℕ
  pub objects : ℕ → Ring A
  pub next : ℕ

-- `mapped_base_` is the object that is mapped, or null.
pub record Handle : Type 0 where
  pub shm_name : ℕ
  pub mapped_base : Option ℕ
  pub total_size : ℕ
  pub is_creator : Bool

-- The object of a handle that was got.
abbrev pub base_of : Option Handle → Option ℕ
base_of none = none
base_of (some h) = h.mapped_base

module _ {A : Type 0} where
  -- The bytes that can be read and written through a handle: those that are mapped, as far as the
  -- object goes. The rest of the last page of memory is not counted.
  abbrev pub reach_of : Memory A → Option Handle → ℕ
  reach_of m none = 0
  reach_of m (some h) = elim h.mapped_base [
    | none ↦ 0
    | some i ↦ min h.total_size (m.objects i).bytes
  ]

  abbrev pub set_object : (ℕ → Ring A) → ℕ → Ring A → ℕ → Ring A
  set_object objects i r j = if i == j then r else objects j

  -- The object that the name is opened with, which is made if there is none.
  abbrev pub object_of : Memory A → ℕ → ℕ
  object_of m name = elim (find name m.names) [ some i ↦ i | none ↦ m.next ]

  -- `shm_open` that creates or truncates, to no bytes. Those that are added later are zero.
  abbrev pub open_new : A → Memory A → ℕ → Memory A
  open_new zeros m name = record {
    names = assign name (object_of m name) m.names;
    objects = set_object m.objects (object_of m name) (record {
      write_index = 0;
      read_index = 0;
      capacity = 0;
      mask = 0;
      slots = λ _. zeros;
      bytes = 0;
    });
    next = elim (find name m.names) [ some i ↦ m.next | none ↦ m.next + 1 ];
  }

  -- `ftruncate`
  abbrev pub set_size : Memory A → ℕ → ℕ → Memory A
  set_size m i size = record m {
    objects = set_object m.objects i (record (m.objects i) { bytes = size });
  }

  -- The new object with its header set.
  abbrev pub set_header : Memory A → ℕ → ℕ → Memory A
  set_header m i capacity = record m {
    objects = set_object m.objects i (record (m.objects i) {
      write_index = 0;
      read_index = 0;
      capacity = capacity;
      mask = sub64 capacity 1;
    });
  }

  unfoldable pub create_object : A → Calls → ℕ → ℕ → ℕ → Memory A → Option Handle × Memory A
  create_object zeros calls name capacity size m =
      let m1 = open_new zeros m name in
      let i = object_of m name in
      let m2 = set_size m1 i size in
      if not calls.opened
      then (none, m)
      else if not calls.truncated
      then (none, m1)
      else if not calls.mapped
      then (none, m2)
      else (
        some (record {
          shm_name = name;
          mapped_base = some i;
          total_size = size;
          is_creator = true;
        }),
        set_header m2 i capacity,
      )

  unfoldable pub attach_object : Calls → ℕ → ℕ → Memory A → Option Handle
  attach_object calls name size m = elim (find name m.names) [
    | none ↦ none
    | some i ↦
        if calls.opened && calls.mapped
        then some (record {
          shm_name = name;
          mapped_base = some i;
          total_size = size;
          is_creator = false;
        })
        else none
  ]

  unfoldable pub close_handle : Handle → Memory A → Memory A
  close_handle h m = elim h.mapped_base [
    | none ↦ m
    | some i ↦ if h.is_creator then record m { names = erase h.shm_name m.names } else m
  ]

-- The handle that is moved to, and the one that is left.
abbrev pub move_handle : Handle → Handle × Handle
move_handle other = (other, record other { mapped_base = none })

module _ {A : Type 0} where
  -- What is created is found under its name, on the same object, with an empty ring in it.
  pub attach_object-create_object :
      (zeros : A) (name capacity size size1 : ℕ) (m : Memory A)
      → let (h, m1) = create_object zeros working name capacity size m in
        (h
          ≡ some (record {
            shm_name = name;
            mapped_base = some (object_of m name);
            total_size = size;
            is_creator = true;
          }))
        × (attach_object working name size1 m1
            ≡ some (record {
              shm_name = name;
              mapped_base = some (object_of m name);
              total_size = size1;
              is_creator = false;
            }))
        × (m1.objects (object_of m name) ≡ record {
          write_index = 0;
          read_index = 0;
          capacity = capacity;
          mask = sub64 capacity 1;
          slots = λ _. zeros;
          bytes = size;
        })
  unfolding create_object attach_object
  attach_object-create_object zeros name capacity size size1 m =
      let there : find name (assign name (object_of m name) m.names) ≡ some (object_of m name) =
        find-assign name name (object_of m name) m.names ∙ ground arith in
      (refl, rw (attach_object, there) refl, ground arith)

  -- Both handles reach all of the slots, if the capacity that is attached with is no smaller than that of the
  -- object, and the size does not wrap around.
  pub reach-create_object :
      (width : ℕ) (zeros : A) (name capacity more : ℕ) (m : Memory A)
      → capacity ≤ more
      → header_size + more * width < 2 ^ 64
      → let size = (header_size + capacity * width) % 2 ^ 64 in
        let size1 = (header_size + more * width) % 2 ^ 64 in
        let (h, m1) = create_object zeros working name capacity size m in
        (header_size + capacity * width ≤ reach_of m1 h)
        × (header_size + capacity * width ≤ reach_of m1 (attach_object working name size1 m1))
  reach-create_object width zeros name capacity more m le fits =
      let size = (header_size + capacity * width) % 2 ^ 64 in
      let size1 = (header_size + more * width) % 2 ^ 64 in
      let (made, found, ring) = attach_object-create_object zeros name capacity size size1 m in
      let less = mul-le-mul_right {m = capacity} {n = more} width le in
      let length : ((create_object zeros working name capacity size m).1.objects
            (object_of m name)).bytes
          ≡ size =
        ap (λ (r : Ring A). r.bytes) ring in
      (rw made (omega (arith, length, less, fits)), rw found (omega (arith, length, less, fits)))
