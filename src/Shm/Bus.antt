-- ===== src/Shm/Bus.antt =====
-- shm_ipc_bus.hpp: the bus of message frames. Each call is one step.
use Prim.Native.Nat.{bit_and}
use cpp_interview.Prelude.{
  ℕ, zero, suc, ◌+◌, ◌*◌, ◌%◌, ◌^◌, ◌<◌, ◌≤◌, ◌≡◌, min, Bool, true, false, Option, none, some, List,
  [], ◌∷◌, ◌++◌, ◌==◌, leb, if◌then◌else◌, length, take, drop, arith, refl, ap, ◌∙◌, Bool-cases,
  inl, inr, subst, sym, take-length,
}
use cpp_interview.Shm.Ring.{
  Ring, header_size, is_inside, is_inside_lem, index-lt, set_slot, Represents, full_test,
  empty_test, written-Represents, read-Represents,
}
use cpp_interview.Prelude.Words.{sub64, next64, pow_exponent}
use cpp_interview.Shm.Runs.{
  Call, run, run_spec, run_lem, seen, consume_spec, publish_spec, empty-Represents,
}
use cpp_interview.Shm.Names.{
  Calls, Memory, Handle, create_object, attach_object, close_handle, move_handle,
  attach_object-create_object, reach_of, reach-create_object, object_of, base_of, working,
}

abbrev pub max_payload : ℕ
max_payload = 104

-- `payload` is the 104 bytes of the frame.
pub record IpcMessage : Type 0 where
  pub msg_id : ℕ
  pub timestamp_ns : ℕ
  pub length : ℕ
  pub payload : List ℕ

abbrev pub ShmIpcBus : Type 0
ShmIpcBus = Ring IpcMessage

-- `sizeof(IpcMessage)`
abbrev pub message_size : ℕ
message_size = 128

abbrev pub calculate_shm_size : ℕ → ℕ
calculate_shm_size capacity = (header_size + capacity * message_size) % 2 ^ 64

abbrev pub create :
    IpcMessage → Calls → ℕ → ℕ → Memory IpcMessage → Option Handle × Memory IpcMessage
create zeros calls name capacity m =
    create_object zeros calls name capacity (calculate_shm_size capacity) m

abbrev pub attach : Calls → ℕ → ℕ → Memory IpcMessage → Option Handle
attach calls name capacity m = attach_object calls name (calculate_shm_size capacity) m

abbrev pub close : Handle → Memory IpcMessage → Memory IpcMessage
close h m = close_handle h m

-- The handle that is assigned to, the one that is left, and the memory. `same` is the test for an
-- assignment of a handle to itself.
abbrev pub assign_handle :
    Bool → Handle → Handle → Memory IpcMessage → Handle × Handle × Memory IpcMessage
assign_handle same h other m =
    if same then (h, other, m) else ((move_handle other).0, (move_handle other).1, close_handle h m)

-- What is published: an id, a time stamp and a payload.
pub record Request : Type 0 where
  pub msg_id : ℕ
  pub ts_ns : ℕ
  pub payload : List ℕ

-- The frame is written field by field: the bytes behind the payload stay as they were.
abbrev pub write_slot : IpcMessage → Request → IpcMessage
write_slot slot q =
    let len = min (length q.payload) max_payload in
    record {
      msg_id = q.msg_id;
      timestamp_ns = q.ts_ns;
      length = len % 2 ^ 32;
      payload = take len q.payload ++ drop len slot.payload;
    }

-- The first argument is how many bytes are reached through the handle; there is no result where a slot
-- beyond them would be accessed.
unfoldable pub publish : ℕ → ShmIpcBus → Request → Option (Bool × ShmIpcBus)
publish reach b q =
    let w = b.write_index in
    if leb b.capacity (sub64 w b.read_index)
    then some (false, b)
    else if is_inside message_size reach (bit_and w b.mask)
    then some (
      true,
      record b {
        slots = set_slot b.slots (bit_and w b.mask) (write_slot (b.slots (bit_and w b.mask)) q);
        write_index = next64 w;
      },
    )
    else none

unfoldable pub consume : ℕ → ShmIpcBus → Option (Option IpcMessage × ShmIpcBus)
consume reach b =
    let r = b.read_index in
    if r == b.write_index
    then some (none, b)
    else if is_inside message_size reach (bit_and r b.mask)
    then some (some (b.slots (bit_and r b.mask)), record b { read_index = next64 r })
    else none

-- What a frame says, and what of a request is sent: at most 104 bytes of the payload.
abbrev pub frame : IpcMessage → ℕ × ℕ × List ℕ
frame m = (m.msg_id, m.timestamp_ns, take m.length m.payload)

abbrev pub sent : Request → ℕ × ℕ × List ℕ
sent q = (q.msg_id, q.ts_ns, take max_payload q.payload)

take-append : (n : ℕ) (xs ys : List ℕ) → n ≤ length xs → take n (take n xs ++ ys) ≡ take n xs
take-append zero xs ys h = refl
take-append (suc n) [] ys h = absurd (omega arith)
take-append (suc n) (x ∷ xs) ys h = ap (◌∷◌ x) (take-append n xs ys (omega arith))

take-min : (n : ℕ) (xs : List ℕ) → take (min (length xs) n) xs ≡ take n xs
take-min n xs = elim (Bool-cases (leb (length xs) n)) [
  | inl short ↦
      let whole : min (length xs) n ≡ length xs = ground (arith, short) in
      ap (λ j. take j xs) whole
      ∙ take-length (length xs) xs (omega arith)
      ∙ sym (take-length n xs (ground (arith, short)))
  | inr long ↦ let part : min (length xs) n ≡ n = ground (arith, long) in ap (λ j. take j xs) part
]

frame-write_slot : (slot : IpcMessage) (q : Request) → frame (write_slot slot q) ≡ sent q
frame-write_slot slot q =
    let len = min (length q.payload) max_payload in
    let small : len % 2 ^ 32 ≡ len = omega arith in
    let text : take (len % 2 ^ 32) (take len q.payload ++ drop len slot.payload)
        ≡ take max_payload q.payload =
      ap (λ n. take n (take len q.payload ++ drop len slot.payload)) small
      ∙ take-append len q.payload (drop len slot.payload) (omega arith)
      ∙ take-min max_payload q.payload in
    ap (λ (t : List ℕ). (q.msg_id, q.ts_ns, t)) text

publish_lem :
    (reach k : ℕ) (b : ShmIpcBus) (xs : List (ℕ × ℕ × List ℕ)) (q : Request)
    → header_size + 2 ^ k * message_size ≤ reach
    → Represents frame k b xs
    → (b1 : ShmIpcBus) × (publish reach b q ≡ some ((publish_spec (2 ^ k) (sent q) xs).0, b1))
      × Represents frame k b1 (publish_spec (2 ^ k) (sent q) xs).1
unfolding publish
publish_lem reach k b xs q all h =
    let test = full_test frame k b xs h in
    let i = bit_and b.write_index b.mask in
    let a = write_slot (b.slots i) q in
    let inside : is_inside message_size reach i ≡ true =
      is_inside_lem message_size reach (2 ^ k) i all (index-lt frame k b xs b.write_index h) in
    let b1 : ShmIpcBus = record b {
      slots = set_slot b.slots i a;
      write_index = next64 b.write_index;
    } in
    elim (Bool-cases (leb (2 ^ k) (length xs))) [
      | inl full ↦ rw full (b, rw (publish, test, full) refl, h)
      | inr room ↦ rw room (
        b1,
        rw (publish, test, room, inside) refl,
        subst (λ t. Represents frame k b1 (xs ++ (t ∷ []))) (frame-write_slot (b.slots i) q)
            (written-Represents frame k b xs a h (ground (arith, room))),
      )
    ]

consume_lem :
    (reach k : ℕ) (b : ShmIpcBus) (xs : List (ℕ × ℕ × List ℕ))
    → header_size + 2 ^ k * message_size ≤ reach
    → Represents frame k b xs
    → (a : Option IpcMessage) × (b1 : ShmIpcBus) × (consume reach b ≡ some (a, b1))
      × (seen frame a ≡ (consume_spec xs).0)
      × Represents frame k b1 (consume_spec xs).1
unfolding consume
consume_lem reach k b [] all h =
    let test : (b.read_index == b.write_index) ≡ true = empty_test frame k b [] h ∙ ground arith in
    (none, b, rw (consume, test) refl, refl, h)
consume_lem reach k b (x ∷ xs) all h =
    let test : (b.read_index == b.write_index) ≡ false =
      empty_test frame k b (x ∷ xs) h ∙ ground arith in
    let i = bit_and b.read_index b.mask in
    let inside : is_inside message_size reach i ≡ true =
      is_inside_lem message_size reach (2 ^ k) i all (index-lt frame k b (x ∷ xs) b.read_index h) in
    let (first, rest) = read-Represents frame k b x xs h in
    (
      some (b.slots i),
      record b { read_index = next64 b.read_index },
      rw (consume, test, inside) refl,
      ap some first,
      rest,
    )

-- A bus of a capacity `2 ^ k` that one process creates and another one attaches to, with a capacity that is no
-- smaller and a size below 2 ^ 64, is the same object. Where the first publishes and the second consumes,
-- no call goes beyond what is mapped, and any sequence of calls is answered as a list of at most `2 ^ k`
-- messages that is extended at the end and taken from at the front. A message is the id, the time stamp
-- and the first 104 bytes of the payload.
pub run-create_bus :
    (zeros : IpcMessage) (name k capacity : ℕ) (m : Memory IpcMessage) (calls : List (Call Request))
    → 2 ^ k ≤ capacity
    → header_size + capacity * message_size < 2 ^ 64
    → let (h, m1) = create zeros working name (2 ^ k) m in
      let g = attach working name capacity m1 in
      (i : ℕ) × (base_of h ≡ some i)
      × (base_of g ≡ some i)
      × (run frame publish consume (reach_of m1 h) (reach_of m1 g) calls (m1.objects i)
          ≡ some (run_spec sent (2 ^ k) calls []))
run-create_bus zeros name k capacity m calls le fits =
    let (made, found, ring) =
      attach_object-create_object zeros name (2 ^ k) (calculate_shm_size (2 ^ k))
        (calculate_shm_size capacity) m in
    let small : k < 64 = pow_exponent k (omega (arith, le, fits)) in
    let (ahead, behind) = reach-create_object message_size zeros name (2 ^ k) capacity m le fits in
    (
      object_of m name,
      ap base_of made,
      ap base_of found,
      ap (run frame publish consume _ _ calls) ring
          ∙ run_lem frame message_size sent publish consume
              (record { publish_lem = publish_lem; consume_lem = consume_lem }) _ _ k calls _ []
              ahead behind
              (empty-Represents frame k (calculate_shm_size (2 ^ k)) (λ _. zeros) small),
    )
