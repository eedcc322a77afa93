-- ===== src/Alloc/Tests.antt =====
-- Runs of the two allocators.
use cpp_interview.Prelude.{
  ℕ, ◌+◌, ◌%◌, ◌≤◌, ◌<◌, ◌≡◌, ◌⊎◌, refl, Option, some, none, List, [], ◌∷◌, arith,
}
use cpp_interview.Prelude.Sorted.{contains}
use cpp_interview.Alloc.Buddy
use cpp_interview.Alloc.Buddy.Weight.{free_weight, live_weight}
use cpp_interview.Alloc.Buddy.Blocks.{IsAligned}
use cpp_interview.Alloc.Buddy.Orders.{IsLeastOrder}
use cpp_interview.Alloc.Buddy.Client as BuddyClient
use cpp_interview.Alloc.Buddy.Runs as BuddyRuns
use cpp_interview.Alloc.Slab
use cpp_interview.Alloc.Slab.Chunks.{chunk_size_lem, count, count_chunks}
use cpp_interview.Alloc.Slab.Client as SlabClient
use cpp_interview.Alloc.Slab.Runs as SlabRuns

-- The blocks that are got, the first one given back: both halves of the second split are joined again.
abbrev buddy_calls : List BuddyRuns.Call
buddy_calls =
    BuddyRuns.Call.deallocates 0 5000
    ∷ BuddyRuns.Call.allocates 4096
    ∷ BuddyRuns.Call.allocates 5000
    ∷ []

buddy_run : (BuddyRuns.run buddy_calls).1 ≡ (8192, 0) ∷ []
unfolding Buddy.allocate Buddy.deallocate Buddy.size_to_order Buddy.double_up Buddy.first_order
    Buddy.back Buddy.pop_back Buddy.split_down Buddy.merge contains Buddy.erase
buddy_run = refl

run-every_byte_example :
    let (a, live) = BuddyRuns.run buddy_calls in
    (free_weight (BuddyRuns.holds_byte 9000) 9 a.free_lists
        + live_weight (BuddyRuns.holds_byte 9000) live
      ≡ 1)
    × (free_weight BuddyClient.size_of 9 a.free_lists + a.allocated_bytes ≡ Buddy.pool_size)
    × BuddyClient.AreBlocks live
run-every_byte_example = BuddyRuns.run-every_byte buddy_calls 9000 (omega arith)

allocate-IsLeastOrder_example :
    ((block : ℕ) × ((Buddy.allocate Buddy.whole_pool 5000).0 ≡ some block)
      × IsLeastOrder 0 5000 (Buddy.size_to_order 5000)
      × IsAligned (Buddy.size_to_order 5000) block
      × BuddyClient.Holds
          (Buddy.allocate Buddy.whole_pool 5000).1
          ((block, Buddy.size_to_order 5000) ∷ []))
    ⊎ ((Buddy.allocate Buddy.whole_pool 5000 ≡ (none, Buddy.whole_pool))
        × BuddyClient.IsRefused Buddy.whole_pool [] BuddyRuns.whole_pool-Holds 5000)
allocate-IsLeastOrder_example =
    BuddyClient.allocate-IsLeastOrder Buddy.whole_pool [] BuddyRuns.whole_pool-Holds 5000

-- Objects of 20 bytes, three in a slab.
abbrev layout : Slab.Layout
layout = record { size_of = 20; align_of = 4; objects_per_slab = 3 }

layout-IsLayout : SlabRuns.IsLayout layout
layout-IsLayout = record {
  bit = 3;
  small = omega arith;
  aligned = refl;
  fits = omega arith;
  some_objects = omega arith;
}

chunk_size_lem_example :
    (Slab.chunk_size layout % Slab.alignment layout ≡ 0)
    × (Slab.object_size layout ≤ Slab.chunk_size layout)
    × (Slab.chunk_size layout < Slab.object_size layout + Slab.alignment layout)
chunk_size_lem_example = chunk_size_lem layout 3 (omega arith) refl (omega arith)

abbrev slab_calls : List SlabRuns.Call
slab_calls =
    SlabRuns.Call.constructs (some 9000) (some 1)
    ∷ SlabRuns.Call.allocates (some 5000)
    ∷ SlabRuns.Call.allocates none
    ∷ SlabRuns.Call.allocates none
    ∷ []

slab_run : (SlabRuns.run layout (some 4096) slab_calls).1 ≡ 9048 ∷ 4096 ∷ 4120 ∷ 4144 ∷ []
unfolding Slab.allocate Slab.grow_slab Slab.take_head Slab.chain_chunks Slab.chunk_size
slab_run = refl

run-every_chunk_example :
    let (s, live) = SlabRuns.run layout (some 4096) slab_calls in
    (free : List ℕ) × SlabClient.Holds layout s free live
run-every_chunk_example = SlabRuns.run-every_chunk layout (some 4096) slab_calls layout-IsLayout

abbrev empty : Slab.SlabAllocator
empty = record { next_of = λ _. none; free_head = none; slabs = []; active_objects = 0 }

allocate-count_chunks_example :
    let (ptr, s1) = Slab.allocate layout (some 4096) empty in
    ((c : ℕ) × (rest : List ℕ) × (ptr ≡ some c)
      × (count c [] ≡ 0)
      × (count_chunks layout c s1.slabs ≡ 1)
      × SlabClient.Holds layout s1 rest (c ∷ []))
    ⊎ ((ptr ≡ none)
        × (s1 ≡ empty)
        × (◌≡◌ {A = Option ℕ} (some 4096) none)
        × (◌≡◌ {A = List ℕ} [] []))
allocate-count_chunks_example =
    SlabClient.allocate-count_chunks layout (some 4096) empty [] []
      (omega (arith, chunk_size_lem_example.1)) (omega arith) refl (SlabRuns.no_slabs-Holds layout)
