-- ===== src/Alloc/Buddy/Runs.antt =====
-- buddy_allocator.hpp: any series of calls by clients that give back what they hold.
use cpp_interview.Prelude.{
  ℕ, ◌+◌, ◌<◌, ◌≡◌, refl, ◌&&◌, not, Option, none, some, List, [], ◌∷◌, ◌==◌, ltb, leb,
  if◌then◌else◌, arith, Bool-cases, inl, inr,
}
use cpp_interview.Alloc.Buddy.{
  BuddyAllocator, order_to_size, max_order, pool_size, size_to_order, allocate, deallocate,
  whole_pool,
}
use cpp_interview.Alloc.Buddy.Weight.{IsAdditive, free_weight, live_weight}
use cpp_interview.Alloc.Buddy.Blocks.{order_to_size-suc}
use cpp_interview.Alloc.Buddy.Merge.{AreListsAligned-set_list}
use cpp_interview.Alloc.Buddy.Client.{
  Holds, owns, forget, AreBlocks, size_of, size_of-IsAdditive, allocate-IsLeastOrder,
  deallocate_lem,
}

pub data Call : Type 0 where
  allocates : ℕ → Call
  deallocates : ℕ → ℕ → Call

abbrev pub hold : Option ℕ → ℕ → List (ℕ × ℕ) → List (ℕ × ℕ)
hold none order live = live
hold (some block) order live = (block, order) ∷ live

-- A client gives back only what it holds.
abbrev pub step : Call → BuddyAllocator × List (ℕ × ℕ) → BuddyAllocator × List (ℕ × ℕ)
step (allocates bytes) (a, live) =
    ((allocate a bytes).1, hold (allocate a bytes).0 (size_to_order bytes) live)
step (deallocates block bytes) (a, live) =
    if not (bytes == 0) && owns block (size_to_order bytes) live
    then (deallocate a (some block) bytes, forget block (size_to_order bytes) live)
    else (a, live)

-- The allocator and the blocks that are held, with their orders, after calls of which the last is listed first.
abbrev pub run : List Call → BuddyAllocator × List (ℕ × ℕ)
run [] = (whole_pool, [])
run (c ∷ calls) = step c (run calls)

step-Holds :
    (c : Call) (a : BuddyAllocator) (live : List (ℕ × ℕ))
    → Holds a live
    → Holds (step c (a, live)).0 (step c (a, live)).1
step-Holds (allocates bytes) a live h = elim (allocate-IsLeastOrder a live h bytes) [
  | inl (block, e, least, low, held) ↦ rw e held
  | inr (e, refused) ↦ rw e h
]
step-Holds (deallocates block bytes) a live h =
    elim (Bool-cases (not (bytes == 0) && owns block (size_to_order bytes) live)) [
      | inl e ↦ rw e (deallocate_lem a live h block bytes (ground (arith, e)) (ground (arith, e)))
      | inr e ↦ rw e h
    ]

pub whole_pool-Holds : Holds whole_pool []
whole_pool-Holds = record {
  balance = λ w additive. omega arith;
  aligned = AreListsAligned-set_list max_order (λ _. []) (0 ∷ []) (λ order. tt) ((0, refl), tt);
  blocks = tt;
  allocated = refl;
}

run-Holds : (calls : List Call) → Holds (run calls).0 (run calls).1
run-Holds [] = whole_pool-Holds
run-Holds (c ∷ calls) = step-Holds c (run calls).0 (run calls).1 (run-Holds calls)

abbrev pub holds_byte : ℕ → ℕ → ℕ → ℕ
holds_byte address block order =
    if leb block address && ltb address (block + order_to_size order) then 1 else 0

holds_byte-IsAdditive : (address : ℕ) → IsAdditive (holds_byte address)
holds_byte-IsAdditive address block order = ground (arith, order_to_size-suc order)

-- After any calls, of which each gives back only a block that is held, every byte of the pool lies in exactly
-- one block, free or held, so that no two blocks overlap; the free bytes and `allocated_bytes` are the pool; and
-- each held block is at a multiple of its size.
pub run-every_byte :
    (calls : List Call) (address : ℕ)
    → address < pool_size
    → let (a, live) = run calls in
      (free_weight (holds_byte address) 9 a.free_lists + live_weight (holds_byte address) live ≡ 1)
      × (free_weight size_of 9 a.free_lists + a.allocated_bytes ≡ pool_size)
      × AreBlocks live
run-every_byte calls address h =
    let held = run-Holds calls in
    (
      ground (arith, held.balance (holds_byte address) (holds_byte-IsAdditive address)),
      omega (arith, held.allocated, held.balance size_of size_of-IsAdditive),
      held.blocks,
    )
