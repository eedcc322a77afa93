-- ===== src/Alloc/Slab/Client.antt =====
-- slab_allocator.hpp: the chunks that clients hold, and any series of calls.
use native.Mathlib.Nat.{add-mul}
use cpp_interview.Prelude.{
  ℕ, suc, ◌+◌, ◌*◌, ◌%◌, ◌^◌, ◌≤◌, ◌<◌, ◌≡◌, ◌⊎◌, refl, ap, ◌∙◌, true, Option, none, some, List, [],
  ◌∷◌, ◌++◌, ◌==◌, if◌then◌else◌, arith, inl, inr, length, length-append,
}
use cpp_interview.Prelude.Sorted.{contains}
use cpp_interview.Alloc.Slab.{
  Layout, SlabAllocator, chunk_size, write, grow_slab, take_head, allocate, deallocate,
  get_total_capacity,
}
use cpp_interview.Alloc.Slab.Chunks.{count, count_chunks, is_apart, count_chunks-is_apart}
use cpp_interview.Alloc.Slab.Chain.{
  IsChain, IsChain-write, grown, count-grown, length-grown, chain_chunks-IsChain, write_read,
}

-- The free chunks and those of `live`, which the clients hold, are those of the slabs, each once.
pub record Holds (t : Layout) (s : SlabAllocator) (free live : List ℕ) : Type 0 where
  pub chain : IsChain s.next_of s.free_head free
  pub balance : (x : ℕ) → count x free + count x live ≡ count_chunks t x s.slabs
  pub once : (x : ℕ) → count_chunks t x s.slabs ≤ 1
  pub capacity : length free + length live ≡ get_total_capacity t s
  pub active : s.active_objects ≡ length live % 2 ^ 64

-- What `mmap` may return: nothing, or memory that is not mapped yet.
abbrev pub IsMapping : Layout → Option ℕ → List ℕ → Type 0
IsMapping t none slabs = Unit {0}
IsMapping t (some base) slabs = is_apart t base slabs ≡ true

module _ (t : Layout) (some_size : 0 < chunk_size t) where
  count_chunks-append :
      (x base : ℕ) (slabs : List ℕ)
      → count_chunks t x (slabs ++ (base ∷ []))
        ≡ count_chunks t x slabs + count_chunks t x (base ∷ [])
  count_chunks-append x base [] = omega arith
  count_chunks-append x base (b ∷ slabs) = omega (arith, count_chunks-append x base slabs)

  pub grow_slab-Holds :
      (base : ℕ) (s : SlabAllocator) (free live : List ℕ)
      → is_apart t base s.slabs ≡ true
      → Holds t s free live
      → Holds t (grow_slab t (some base) s) (grown t t.objects_per_slab 0 base free) live
  unfolding grow_slab
  grow_slab-Holds base s free live apart h =
      let s0 = record s { slabs = s.slabs ++ (base ∷ []) } in
      let n = t.objects_per_slab in
      let new = λ (x : ℕ). count_chunks-is_apart t some_size base x s.slabs apart (h.once x) in
      let (chain, slabs, active) =
        chain_chunks-IsChain t n 0 base s0 free (λ x. omega (arith, h.balance x, new x)) h.chain in
      record {
        chain = chain;
        balance = λ x.
            ap (λ n. n + count x live) (count-grown t n 0 base x free)
            ∙ omega (
              arith,
              h.balance x,
              count_chunks-append x base s.slabs,
              ap (count_chunks t x) slabs,
            );
        once = λ x.
            omega (arith, new x, count_chunks-append x base s.slabs, ap (count_chunks t x) slabs);
        capacity = omega (
          arith,
          length-grown t n 0 base free,
          h.capacity,
          ap (λ l. length l * n) slabs,
          ap (λ l. l * n) (length-append s.slabs (base ∷ [])),
          add-mul (length s.slabs) 1 n,
        );
        active = active ∙ h.active;
      }

abbrev pub erase : ℕ → List ℕ → List ℕ
erase c [] = []
erase c (x ∷ live) = if x == c then live else x ∷ erase c live

count-contains : (c : ℕ) (live : List ℕ) → contains c live ≡ true → 1 ≤ count c live
unfolding contains
count-contains c [] h = absurd (cc)
count-contains c (x ∷ live) h = ground (arith, count-contains c live)

count-erase :
    (x c : ℕ) (live : List ℕ)
    → contains c live ≡ true
    → count x live ≡ (if c == x then 1 else 0) + count x (erase c live)
unfolding contains
count-erase x c [] h = absurd (cc)
count-erase x c (y ∷ live) h = ground (arith, h, count-erase x c live)

length-erase :
    (c : ℕ) (live : List ℕ) → contains c live ≡ true → length live ≡ suc (length (erase c live))
unfolding contains
length-erase c [] h = absurd (cc)
length-erase c (y ∷ live) h = ground (arith, h, length-erase c live)

module _ (t : Layout) where
  count_free :
      (c : ℕ) (s : SlabAllocator) (free live : List ℕ)
      → contains c live ≡ true
      → Holds t s free live
      → count c free ≡ 0
  count_free c s free live held h = omega (arith, h.balance c, h.once c, count-contains c live held)

  -- What `allocate` gives once the free list has been filled: its first chunk.
  take_head_lem :
      (s : SlabAllocator) (c : ℕ) (free live : List ℕ)
      → Holds t s (c ∷ free) live
      → let (ptr, s1) = take_head s in
        (ptr ≡ some c)
        × (count c live ≡ 0)
        × (count_chunks t c s.slabs ≡ 1)
        × (s1.slabs ≡ s.slabs)
        × Holds t s1 free (c ∷ live)
  unfolding take_head
  take_head_lem s c free live h =
      let first = h.chain.0 in
      let self : (c == c) ≡ true = ground arith in
      let here : count c (c ∷ free) ≡ suc (count c free) = rw self (omega arith) in
      rw first (
        refl,
        omega (arith, here, h.balance c, h.once c),
        omega (arith, here, h.balance c, h.once c),
        refl,
        record {
          chain = h.chain.1;
          balance = λ x. omega (arith, h.balance x);
          once = h.once;
          capacity = omega (arith, h.capacity);
          active = omega (arith, h.active);
        },
      )

  take_head-some :
      (s : SlabAllocator) (free live : List ℕ)
      → 0 < length free
      → Holds t s free live
      → let (ptr, s1) = take_head s in
        (c : ℕ) × (rest : List ℕ) × (ptr ≡ some c)
        × (count c live ≡ 0)
        × (count_chunks t c s1.slabs ≡ 1)
        × Holds t s1 rest (c ∷ live)
  take_head-some s [] live some_free h = absurd (omega arith)
  take_head-some s (c ∷ free) live some_free h =
      let (e, apart, chunk, slabs, held) = take_head_lem s c free live h in
      (c, free, e, apart, ap (count_chunks t c) slabs ∙ chunk, held)

  allocate-take_head :
      (mapped : Option ℕ) (c : ℕ) (s : SlabAllocator)
      → s.free_head ≡ some c
      → allocate t mapped s ≡ take_head s
  unfolding allocate
  allocate-take_head mapped c s e =
      ap (λ (o : Option ℕ). take_head (elim o [ none ↦ grow_slab t mapped s | some node ↦ s ])) e

  allocate-grow_slab :
      (mapped : Option ℕ) (s : SlabAllocator)
      → s.free_head ≡ none
      → allocate t mapped s ≡ take_head (grow_slab t mapped s)
  unfolding allocate
  allocate-grow_slab mapped s e =
      ap (λ (o : Option ℕ). take_head (elim o [ none ↦ grow_slab t mapped s | some node ↦ s ])) e

  allocate_refused : (s : SlabAllocator) → s.free_head ≡ none → allocate t none s ≡ (none, s)
  unfolding take_head grow_slab
  allocate_refused s e = allocate-grow_slab none s e ∙ ground (arith, e)

  -- An allocator whose free and held chunks are those of its slabs gives a chunk of a slab that no client
  -- holds, which then is held, where a chunk is free or `mmap` gives memory that is not mapped; where
  -- `mmap` fails and all chunks are held it gives none, and nothing changes.
  pub allocate-count_chunks :
      (mapped : Option ℕ) (s : SlabAllocator) (free live : List ℕ)
      → 0 < chunk_size t
      → 0 < t.objects_per_slab
      → IsMapping t mapped s.slabs
      → Holds t s free live
      → let (ptr, s1) = allocate t mapped s in
        ((c : ℕ) × (rest : List ℕ) × (ptr ≡ some c)
          × (count c live ≡ 0)
          × (count_chunks t c s1.slabs ≡ 1)
          × Holds t s1 rest (c ∷ live))
        ⊎ ((ptr ≡ none) × (s1 ≡ s) × (mapped ≡ none) × (free ≡ []))
  allocate-count_chunks mapped s (c ∷ free) live some_size some_objects new h =
      rw (allocate-take_head mapped c s h.chain.0)
        (inl (take_head-some s (c ∷ free) live (omega arith) h))
  allocate-count_chunks none s [] live some_size some_objects new h =
      rw (allocate_refused s h.chain) (inr (refl, refl, refl, refl))
  allocate-count_chunks (some base) s [] live some_size some_objects new h =
      rw (allocate-grow_slab (some base) s h.chain) (
        inl (
          take_head-some (grow_slab t (some base) s) (grown t t.objects_per_slab 0 base []) live
            (omega (arith, length-grown t t.objects_per_slab 0 base []))
            (grow_slab-Holds t some_size base s [] live new h)))

  -- A held chunk that is given back is free, and can be given out again.
  pub deallocate-Holds :
      (c : ℕ) (s : SlabAllocator) (free live : List ℕ)
      → contains c live ≡ true
      → Holds t s free live
      → Holds t (deallocate (some c) s) (c ∷ free) (erase c live)
  unfolding deallocate
  deallocate-Holds c s free live held h = record {
    chain = (
      refl,
      rw (write_read c s.free_head s) (
          IsChain-write c s.free_head s.free_head s free (count_free c s free live held h) h.chain),
    );
    balance = λ x. omega (arith, h.balance x, count-erase x c live held);
    once = h.once;
    capacity = omega (arith, h.capacity, length-erase c live held);
    active = omega (arith, h.active, length-erase c live held);
  }

  -- The holder of a chunk may write into it.
  pub write-Holds :
      (c : ℕ) (v : Option ℕ) (s : SlabAllocator) (free live : List ℕ)
      → contains c live ≡ true
      → Holds t s free live
      → Holds t (write c v s) free live
  write-Holds c v s free live held h = record {
    chain = IsChain-write c v s.free_head s free (count_free c s free live held h) h.chain;
    balance = h.balance;
    once = h.once;
    capacity = h.capacity;
    active = h.active;
  }
