-- ===== src/Alloc/Slab/Chain.antt =====
-- slab_allocator.hpp: the list of the free chunks, which lies in the chunks themselves.
use cpp_interview.Prelude.{
  ℕ, zero, suc, ◌+◌, ◌*◌, ◌≤◌, ◌≡◌, refl, false, Option, none, some, List, [], ◌∷◌, ◌==◌, arith,
  length,
}
use cpp_interview.Alloc.Slab.{Layout, SlabAllocator, chunk_size, write, chain_chunks}
use cpp_interview.Alloc.Slab.Chunks.{chunks, count}

-- The links lead from `head` through the chunks of a list to its end.
abbrev pub IsChain : (ℕ → Option ℕ) → Option ℕ → List ℕ → Type 0
IsChain next head [] = head ≡ none
IsChain next head (c ∷ free) = (head ≡ some c) × IsChain next (next c) free

-- A write elsewhere leaves the list.
pub IsChain-write :
    (node : ℕ) (v head : Option ℕ) (s : SlabAllocator) (free : List ℕ)
    → count node free ≡ 0
    → IsChain s.next_of head free
    → IsChain (write node v s).next_of head free
IsChain-write node v head s [] h c = c
IsChain-write node v head s (x ∷ free) h c =
    let other : (node == x) ≡ false = ground (arith, h) in
    (c.0, rw other (IsChain-write node v (s.next_of x) s free (omega arith) c.1))

pub write_read : (node : ℕ) (v : Option ℕ) (s : SlabAllocator) → (write node v s).next_of node ≡ v
write_read node v s = ground arith

module _ (t : Layout) where
  -- The free chunks after the loop of `grow_slab`.
  abbrev pub grown : ℕ → ℕ → ℕ → List ℕ → List ℕ
  grown zero i base free = free
  grown (suc rounds) i base free = grown rounds (suc i) base ((base + i * chunk_size t) ∷ free)

  pub count-grown :
      (rounds i base x : ℕ) (free : List ℕ)
      → count x (grown rounds i base free) ≡ count x (chunks t rounds i base) + count x free
  count-grown zero i base x free = omega arith
  count-grown (suc rounds) i base x free =
      omega (arith, count-grown rounds (suc i) base x ((base + i * chunk_size t) ∷ free))

  pub length-grown :
      (rounds i base : ℕ) (free : List ℕ) → length (grown rounds i base free) ≡ rounds + length free
  length-grown zero i base free = omega arith
  length-grown (suc rounds) i base free =
      omega (arith, length-grown rounds (suc i) base ((base + i * chunk_size t) ∷ free))

  count_self : (x : ℕ) (ys : List ℕ) → 1 ≤ count x (x ∷ ys)
  count_self x ys = ground arith

  pub chain_chunks-IsChain :
      (rounds i base : ℕ) (s : SlabAllocator) (free : List ℕ)
      → ((x : ℕ) → count x (chunks t rounds i base) + count x free ≤ 1)
      → IsChain s.next_of s.free_head free
      → let s1 = chain_chunks t rounds i base s in
        IsChain s1.next_of s1.free_head (grown rounds i base free)
        × (s1.slabs ≡ s.slabs)
        × (s1.active_objects ≡ s.active_objects)
  unfolding chain_chunks
  chain_chunks-IsChain zero i base s free once c = (c, refl, refl)
  chain_chunks-IsChain (suc rounds) i base s free once c =
      let node = base + i * chunk_size t in
      let new : count node free ≡ 0 =
        omega (arith, once node, count_self node (chunks t rounds (suc i) base)) in
      let c1 = IsChain-write node s.free_head s.free_head s free new c in
      chain_chunks-IsChain rounds (suc i) base
        (record (write node s.free_head s) { free_head = some node }) (node ∷ free)
        (λ x. omega (arith, once x)) (refl, rw (write_read node s.free_head s) c1)
