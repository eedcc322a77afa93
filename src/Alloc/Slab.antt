-- ===== src/Alloc/Slab.antt =====
-- slab_allocator.hpp. Memory is addressed by bytes. The mutex makes each call one step.
pub mod Chunks
pub mod Chain
pub mod Client
pub mod Runs
use Prim.Native.Nat.{bit_and}
use cpp_interview.Prelude.{
  ℕ, zero, suc, ◌+◌, ◌-◌, ◌*◌, ◌%◌, ◌^◌, Option, none, some, List, [], ◌∷◌, ◌++◌, ◌==◌, ltb,
  if◌then◌else◌, length,
}

-- `sizeof(T)`, `alignof(T)` and `ObjectsPerSlab`.
pub record Layout : Type 0 where
  pub size_of : ℕ
  pub align_of : ℕ
  pub objects_per_slab : ℕ

-- The size of a pointer.
abbrev pub pointer_size : ℕ
pointer_size = 8

abbrev pub object_size : Layout → ℕ
object_size t = if ltb t.size_of pointer_size then pointer_size else t.size_of

abbrev pub alignment : Layout → ℕ
alignment t = if ltb t.align_of pointer_size then pointer_size else t.align_of

unfoldable pub chunk_size : Layout → ℕ
chunk_size t = bit_and (object_size t + (alignment t - 1)) (2 ^ 64 - 1 - (alignment t - 1))

abbrev pub slab_size : Layout → ℕ
slab_size t = chunk_size t * t.objects_per_slab

-- `next_of` is the `FreeNode` that is read at an address.
pub record SlabAllocator : Type 0 where
  pub next_of : ℕ → Option ℕ
  pub free_head : Option ℕ
  pub slabs : List ℕ
  pub active_objects : ℕ

-- What is written into a chunk: a `FreeNode`, or the object that its holder keeps there.
abbrev pub write : ℕ → Option ℕ → SlabAllocator → SlabAllocator
write node v s = record s { next_of = λ j. if node == j then v else s.next_of j }

unfoldable pub take_head : SlabAllocator → Option ℕ × SlabAllocator
take_head s = elim s.free_head [
  | none ↦ (none, s)
  | some node ↦ (
    some node,
    record s { free_head = s.next_of node; active_objects = (s.active_objects + 1) % 2 ^ 64 },
  )
]

unfoldable pub deallocate : Option ℕ → SlabAllocator → SlabAllocator
deallocate none s = s
deallocate (some node) s = record (write node s.free_head s) {
  free_head = some node;
  active_objects = (s.active_objects + 2 ^ 64 - 1) % 2 ^ 64;
}

abbrev pub destroy : Option ℕ → SlabAllocator → SlabAllocator
destroy ptr s = deallocate ptr s

abbrev pub get_active_objects : SlabAllocator → ℕ
get_active_objects s = s.active_objects

abbrev pub get_slab_count : SlabAllocator → ℕ
get_slab_count s = length s.slabs

module _ (t : Layout) where
  -- The loop of `grow_slab` from chunk `i` on.
  unfoldable pub chain_chunks : ℕ → ℕ → ℕ → SlabAllocator → SlabAllocator
  chain_chunks zero i base s = s
  chain_chunks (suc rounds) i base s =
      let node = base + i * chunk_size t in
      chain_chunks rounds (suc i) base (record (write node s.free_head s) { free_head = some node })

  -- The argument is what `mmap` returns, nothing where it fails.
  unfoldable pub grow_slab : Option ℕ → SlabAllocator → SlabAllocator
  unfolding chain_chunks
  grow_slab none s = s
  grow_slab (some slab_mem) s =
      chain_chunks t.objects_per_slab 0 slab_mem (record s { slabs = s.slabs ++ (slab_mem ∷ []) })

  abbrev pub new_allocator : Option ℕ → SlabAllocator
  new_allocator mapped =
      grow_slab mapped
        (record { next_of = λ _. none; free_head = none; slabs = []; active_objects = 0 })

  unfoldable pub allocate : Option ℕ → SlabAllocator → Option ℕ × SlabAllocator
  unfolding grow_slab take_head
  allocate mapped s = take_head (elim s.free_head [ none ↦ grow_slab mapped s | some node ↦ s ])

  -- `object` is what the constructor of `T` leaves where a `FreeNode` would be read.
  abbrev pub construct : Option ℕ → Option ℕ → SlabAllocator → Option ℕ × SlabAllocator
  construct mapped object s =
      let (mem, s1) = allocate mapped s in
      (mem, elim mem [ none ↦ s1 | some node ↦ write node object s1 ])

  abbrev pub get_total_capacity : SlabAllocator → ℕ
  get_total_capacity s = length s.slabs * t.objects_per_slab
