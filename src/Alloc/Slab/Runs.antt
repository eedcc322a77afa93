-- ===== src/Alloc/Slab/Runs.antt =====
-- slab_allocator.hpp: any series of calls by clients that give back what they hold.
use cpp_interview.Prelude.{
  ℕ, ◌+◌, ◌^◌, ◌≤◌, ◌<◌, ◌≡◌, refl, true, Option, none, some, List, [], ◌∷◌, if◌then◌else◌, arith,
  Bool-cases, inl, inr,
}
use cpp_interview.Prelude.Sorted.{contains}
use cpp_interview.Alloc.Slab.{
  Layout, SlabAllocator, alignment, object_size, chunk_size, write, grow_slab, allocate, deallocate,
  construct, new_allocator,
}
use cpp_interview.Alloc.Slab.Chunks.{is_apart, chunk_size_lem}
use cpp_interview.Alloc.Slab.Client.{
  Holds, IsMapping, erase, grow_slab-Holds, allocate-count_chunks, deallocate-Holds, write-Holds,
}

-- A call with what `mmap` would return in it, or a write of the holder of a chunk into it.
pub data Call : Type 0 where
  allocates : Option ℕ → Call
  constructs : Option ℕ → Option ℕ → Call
  deallocates : ℕ → Call
  writes : ℕ → Option ℕ → Call

abbrev pub hold : Option ℕ → List ℕ → List ℕ
hold none live = live
hold (some c) live = c ∷ live

contains_self : (c : ℕ) (live : List ℕ) → contains c (c ∷ live) ≡ true
unfolding contains
contains_self c live = ground arith

-- The new object is written into the chunk that was got for it.
construct-Holds :
    (t : Layout) (ptr object : Option ℕ) (s : SlabAllocator) (rest live : List ℕ)
    → Holds t s rest (hold ptr live)
    → Holds t (elim ptr [ none ↦ s | some node ↦ write node object s ]) rest (hold ptr live)
construct-Holds t none object s rest live h = h
construct-Holds t (some c) object s rest live h =
    write-Holds t c object s rest (c ∷ live) (contains_self c live) h

-- A sensible layout: `alignof` is a power of two, and sizes are well below 2 ^ 64.
pub record IsLayout (t : Layout) : Type 0 where
  pub bit : ℕ
  pub small : bit < 64
  pub aligned : alignment t ≡ 2 ^ bit
  pub fits : object_size t + alignment t ≤ 2 ^ 64
  pub some_objects : 0 < t.objects_per_slab

pub no_slabs-Holds :
    (t : Layout)
    → Holds t
        (record { next_of = λ _. none; free_head = none; slabs = []; active_objects = 0 })
        []
        []
no_slabs-Holds t = record {
  chain = refl;
  balance = λ x. refl;
  once = λ x. omega arith;
  capacity = omega arith;
  active = refl;
}

module _ (t : Layout) where
  -- `mmap` gives no memory that is mapped already.
  abbrev pub mmap : Option ℕ → List ℕ → Option ℕ
  mmap none slabs = none
  mmap (some base) slabs = if is_apart t base slabs then some base else none

  -- A client gives back, and writes into, only what it holds.
  abbrev pub step : Call → SlabAllocator × List ℕ → SlabAllocator × List ℕ
  step (allocates mapped) (s, live) =
      let (ptr, s1) = allocate t (mmap mapped s.slabs) s in (s1, hold ptr live)
  step (constructs mapped object) (s, live) =
      let (ptr, s1) = construct t (mmap mapped s.slabs) object s in (s1, hold ptr live)
  step (deallocates c) (s, live) =
      if contains c live then (deallocate (some c) s, erase c live) else (s, live)
  step (writes c v) (s, live) = if contains c live then (write c v s, live) else (s, live)

  -- The allocator and the chunks that are held, after calls of which the last is listed first.
  abbrev pub run : Option ℕ → List Call → SlabAllocator × List ℕ
  run mapped [] = (new_allocator t mapped, [])
  run mapped (c ∷ calls) = step c (run mapped calls)

  mmap-IsMapping : (mapped : Option ℕ) (slabs : List ℕ) → IsMapping t (mmap mapped slabs) slabs
  mmap-IsMapping none slabs = tt
  mmap-IsMapping (some base) slabs = elim (Bool-cases (is_apart t base slabs)) [
    | inl e ↦ rw e e
    | inr e ↦ rw e tt
  ]

  module _ (l : IsLayout t) where
    some_size : 0 < chunk_size t
    some_size =
        let some_bytes : 8 ≤ object_size t = ground arith in
        omega (arith, some_bytes, (chunk_size_lem t l.bit l.small l.aligned l.fits).1)

    allocate-Holds :
        (mapped : Option ℕ) (s : SlabAllocator) (free live : List ℕ)
        → Holds t s free live
        → let (ptr, s1) = allocate t (mmap mapped s.slabs) s in
          (rest : List ℕ) × Holds t s1 rest (hold ptr live)
    allocate-Holds mapped s free live h =
        elim (allocate-count_chunks t (mmap mapped s.slabs) s free live some_size l.some_objects
          (mmap-IsMapping mapped s.slabs) h) [
            | inl (c, rest, e, apart, chunk, held) ↦ (rest, rw e held)
            | inr (e, same, none_mapped, none_free) ↦ (free, rw (e, same) h)
          ]

    step-Holds :
        (c : Call) (s : SlabAllocator) (free live : List ℕ)
        → Holds t s free live
        → (rest : List ℕ) × Holds t (step c (s, live)).0 rest (step c (s, live)).1
    step-Holds (allocates mapped) s free live h = allocate-Holds mapped s free live h
    step-Holds (constructs mapped object) s free live h =
        let (rest, held) = allocate-Holds mapped s free live h in
        (
          rest,
          construct-Holds t (allocate t (mmap mapped s.slabs) s).0 object
              (allocate t (mmap mapped s.slabs) s).1 rest live held,
        )
    step-Holds (deallocates c) s free live h = elim (Bool-cases (contains c live)) [
      | inl e ↦ (c ∷ free, rw e (deallocate-Holds t c s free live e h))
      | inr e ↦ (free, rw e h)
    ]
    step-Holds (writes c v) s free live h = elim (Bool-cases (contains c live)) [
      | inl e ↦ (free, rw e (write-Holds t c v s free live e h))
      | inr e ↦ (free, rw e h)
    ]

    new_allocator-Holds :
        (mapped : Option ℕ) → (free : List ℕ) × Holds t (new_allocator t mapped) free []
    unfolding grow_slab
    new_allocator-Holds none = ([], no_slabs-Holds t)
    new_allocator-Holds (some base) = (
      _,
      grow_slab-Holds t some_size base
          (record { next_of = λ _. none; free_head = none; slabs = []; active_objects = 0 }) [] []
          refl (no_slabs-Holds t),
    )

    run-Holds :
        (mapped : Option ℕ) (calls : List Call)
        → (free : List ℕ) × Holds t (run mapped calls).0 free (run mapped calls).1
    run-Holds mapped [] = new_allocator-Holds mapped
    run-Holds mapped (c ∷ calls) =
        let (free, h) = run-Holds mapped calls in
        step-Holds c (run mapped calls).0 free (run mapped calls).1 h

-- With a sensible layout, after any calls of clients that give back and write into only what they hold, whatever
-- `mmap` refuses: some list of free chunks is linked through the chunks from the head, each chunk of a
-- slab is once in it or held by a client and never both, no other address is, the slabs share no
-- chunk, the free and the held chunks are `get_total_capacity`, and `active_objects` counts the held ones
-- modulo 2 ^ 64.
pub run-every_chunk :
    (t : Layout) (mapped : Option ℕ) (calls : List Call)
    → IsLayout t
    → let (s, live) = run t mapped calls in (free : List ℕ) × Holds t s free live
run-every_chunk t mapped calls l = run-Holds t l mapped calls
