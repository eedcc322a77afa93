-- ===== src/Alloc/Buddy/Client.antt =====
-- buddy_allocator.hpp: the blocks that clients hold, and any series of calls.
use cpp_interview.Prelude.{
  ℕ, ◌+◌, ◌-◌, ◌%◌, ◌^◌, ◌≤◌, ◌≡◌, ◌⊎◌, refl, ap, sym, ◌∙◌, Bool, true, false, ◌&&◌, ◌||◌, none,
  some, List, [], ◌∷◌, ◌==◌, ltb, if◌then◌else◌, arith, Bool-cases, Option-cases, inl, inr, subst,
  ◌≢◌, dec_lt,
}
use cpp_interview.Alloc.Buddy.{
  BuddyAllocator, order_to_size, max_order, pool_size, push_back, set_list, size_to_order,
  first_order, back, pop_back, split_down, merge, allocate, deallocate,
}
use cpp_interview.Alloc.Buddy.Weight.{
  IsAdditive, free_weight, live_weight, list_weight-back, free_weight-set_list,
  free_weight-push_back, free_weight-split_down,
}
use cpp_interview.Alloc.Buddy.Blocks.{IsAligned, order_to_size-suc}
use cpp_interview.Alloc.Buddy.Orders.{
  IsLeastOrder, size_to_order_lem, size_to_order-le, first_order_lem, back-is_empty,
}
use cpp_interview.Alloc.Buddy.Merge.{
  AreListsAligned, AreAligned-back, AreListsAligned-set_list, AreListsAligned-push_back,
  AreListsAligned-split_down, merge-IsAligned, merge-weight,
}

abbrev pub owns : ℕ → ℕ → List (ℕ × ℕ) → Bool
owns b o [] = false
owns b o ((block, order) ∷ live) = (block == b && order == o) || owns b o live

abbrev pub forget : ℕ → ℕ → List (ℕ × ℕ) → List (ℕ × ℕ)
forget b o [] = []
forget b o ((block, order) ∷ live) =
    if block == b && order == o then live else (block, order) ∷ forget b o live

abbrev pub AreBlocks : List (ℕ × ℕ) → Type 0
AreBlocks [] = Unit {0}
AreBlocks ((block, order) ∷ live) = ((order ≤ max_order) × IsAligned order block) × AreBlocks live

abbrev pub size_of : ℕ → ℕ → ℕ
size_of block order = order_to_size order

-- The free blocks and those of `live`, which the clients hold, share out the pool.
pub record Holds (a : BuddyAllocator) (live : List (ℕ × ℕ)) : Type 1 where
  pub balance :
      (w : ℕ → ℕ → ℕ)
      → IsAdditive w
      → free_weight w 9 a.free_lists + live_weight w live ≡ w 0 max_order
  pub aligned : AreListsAligned a.free_lists
  pub blocks : AreBlocks live
  pub allocated : a.allocated_bytes ≡ live_weight size_of live

pub size_of-IsAdditive : IsAdditive size_of
size_of-IsAdditive block order = order_to_size-suc order ∙ omega arith

live_weight-forget :
    (w : ℕ → ℕ → ℕ) (b o : ℕ) (live : List (ℕ × ℕ))
    → owns b o live ≡ true
    → live_weight w live ≡ w b o + live_weight w (forget b o live)
live_weight-forget w b o [] h = absurd (cc)
live_weight-forget w b o ((block, order) ∷ live) h = elim (Bool-cases (block == b && order == o)) [
  | inl e ↦
      let eb : block ≡ b = ground (arith, e) in
      let eo : order ≡ o = ground (arith, e) in
      rw e (ap (λ t. w t order + live_weight w live) eb ∙ ap (λ t. w b t + live_weight w live) eo)
  | inr e ↦ rw e (omega (arith, live_weight-forget w b o live (ground (arith, e, h))))
]

AreBlocks-forget : (b o : ℕ) (live : List (ℕ × ℕ)) → AreBlocks live → AreBlocks (forget b o live)
AreBlocks-forget b o [] h = tt
AreBlocks-forget b o ((block, order) ∷ live) h = elim (Bool-cases (block == b && order == o)) [
  | inl e ↦ rw e h.1
  | inr e ↦ rw e (h.0, AreBlocks-forget b o live h.1)
]

IsAligned-owns :
    (b o : ℕ) (live : List (ℕ × ℕ)) → AreBlocks live → owns b o live ≡ true → IsAligned o b
IsAligned-owns b o [] h e = absurd (cc)
IsAligned-owns b o ((block, order) ∷ live) h e = elim (Bool-cases (block == b && order == o)) [
  | inl f ↦
      let eb : block ≡ b = ground (arith, f) in
      let eo : order ≡ o = ground (arith, f) in
      subst (λ t. IsAligned t b) eo (subst (IsAligned order) eb h.0.1)
  | inr f ↦ IsAligned-owns b o live h.1 (ground (arith, e, f))
]

-- An order with enough bytes is not below the least one.
least_order :
    (bytes order : ℕ) → IsLeastOrder 0 bytes order → (j : ℕ) → bytes ≤ order_to_size j → order ≤ j
least_order bytes order least j enough = elim (dec_lt j order) [
  | yes lt ↦ absurd (omega (arith, enough, least.1 j (omega arith) lt))
  | no ge ↦ omega arith
]

module _ (a : BuddyAllocator) (live : List (ℕ × ℕ)) (h : Holds a live) where
  allocated-le : a.allocated_bytes ≤ pool_size
  allocated-le = omega (arith, h.balance size_of size_of-IsAdditive, h.allocated)

  -- What `allocate` does once it has found a block.
  abbrev served : ℕ → ℕ → ℕ → BuddyAllocator
  served order current block = record a {
    free_lists =
        split_down (current - order) order block
          (set_list a.free_lists current (pop_back (a.free_lists current)));
    allocated_bytes = (a.allocated_bytes + order_to_size order) % 2 ^ 64;
    split_count = (a.split_count + (current - order)) % 2 ^ 64;
  }

  served-Holds :
      (order current block : ℕ)
      → order ≤ current
      → current ≤ max_order
      → back (a.free_lists current) ≡ some block
      → Holds (served order current block) ((block, order) ∷ live)
  served-Holds order current block le small found =
      let blocks = a.free_lists current in
      let rest = set_list a.free_lists current (pop_back blocks) in
      let up : order + (current - order) ≡ current = omega arith in
      let (here, others) = AreAligned-back current block blocks found (h.aligned current) in
      let (split, low) =
        AreListsAligned-split_down (current - order) order block rest
          (AreListsAligned-set_list current a.free_lists (pop_back blocks) h.aligned others)
          (subst (λ o. IsAligned o block) (sym up) here) in
      let balance : (w : ℕ → ℕ → ℕ)
          → IsAdditive w
          → free_weight w 9 (split_down (current - order) order block rest)
              + (w block order + live_weight w live)
            ≡ w 0 max_order =
        λ w additive. omega (
          arith,
          h.balance w additive,
          list_weight-back w current block blocks found,
          ap (λ o. w block o) up,
          free_weight-set_list w 9 current a.free_lists (pop_back blocks) (omega arith),
          free_weight-split_down w additive 9 (current - order) order block rest (omega arith),
        ) in
      record {
        balance = balance;
        aligned = split;
        blocks = ((omega arith, low), h.blocks);
        allocated = omega (arith, h.allocated, balance size_of size_of-IsAdditive);
      }

  -- A request that is refused is out of range, or there is no free block that is large enough.
  abbrev pub IsRefused : ℕ → Type 0
  IsRefused bytes =
      ((bytes == 0 || ltb pool_size bytes) ≡ true)
      ⊎ ((order : ℕ) → bytes ≤ order_to_size order → order ≤ max_order → a.free_lists order ≡ [])

  -- A valid allocator gives a block at a multiple of its size, of the least size that has the bytes asked for, and
  -- stays valid with that block held by the client; or it changes nothing, and no block is given: then
  -- the request is for 0 bytes or more than the pool, or no block of a sufficient size is free.
  pub allocate-IsLeastOrder :
      (bytes : ℕ)
      → ((block : ℕ) × ((allocate a bytes).0 ≡ some block)
          × IsLeastOrder 0 bytes (size_to_order bytes)
          × IsAligned (size_to_order bytes) block
          × Holds (allocate a bytes).1 ((block, size_to_order bytes) ∷ live))
        ⊎ ((allocate a bytes ≡ (none, a)) × IsRefused bytes)
  unfolding allocate
  allocate-IsLeastOrder bytes =
      let order = size_to_order bytes in
      let current = first_order (9 - order) order a.free_lists in
      elim (Bool-cases (bytes == 0 || ltb pool_size bytes)) [
        | inl e ↦ rw e (inr (refl, inl refl))
        | inr e ↦
            let (small, least) = size_to_order_lem bytes (ground (arith, e)) in
            let test : ltb max_order order ≡ false = ground (arith, small) in
            let (from, cases) = first_order_lem (9 - order) order a.free_lists in
            elim cases [
              | inl (room, some_free) ↦
                  let test1 : ltb max_order current ≡ false = ground (arith, room, small) in
                  elim (Option-cases (back (a.free_lists current))) [
                    | inl empty ↦ absurd (back-is_empty (a.free_lists current) some_free empty)
                    | inr (block, found) ↦
                        let held =
                          served-Holds order current block from (omega (arith, room, small))
                            found in
                        rw (e, test, test1, found) (inl (block, refl, least, held.blocks.0.1, held))
                  ]
              | inr (end, no_free) ↦
                  let test1 : ltb max_order current ≡ true = ground (arith, end, small) in
                  rw (e, test, test1)
                    (inr (
                      refl,
                      inr (λ j enough le.
                          no_free j (least_order bytes order least j enough)
                            (omega (arith, le, small))),
                    ))
            ]
      ]

  -- A valid allocator into which a block is given back that a client holds, with a size of its order, is valid
  -- without that block being held, whatever blocks are merged.
  pub deallocate_lem :
      (block bytes : ℕ)
      → bytes ≢ 0
      → owns block (size_to_order bytes) live ≡ true
      → Holds (deallocate a (some block) bytes) (forget block (size_to_order bytes) live)
  unfolding deallocate
  deallocate_lem block bytes ne owned =
      let order = size_to_order bytes in
      let small : order ≤ max_order = size_to_order-le bytes in
      let here : IsAligned order block = IsAligned-owns block order live h.blocks owned in
      let lists = (merge (max_order - order) order block a.free_lists).2 in
      let block1 = (merge (max_order - order) order block a.free_lists).1 in
      let order1 = (merge (max_order - order) order block a.free_lists).0 in
      let (le, up, rest) =
        merge-IsAligned (max_order - order) order block a.free_lists h.aligned here in
      let test : (bytes == 0) ≡ false = ground (arith, ne) in
      let test1 : ltb max_order order ≡ false = ground (arith, small) in
      let kept = live_weight-forget size_of block order live owned in
      let balance : (w : ℕ → ℕ → ℕ)
          → IsAdditive w
          → free_weight w 9 (push_back lists order1 block1)
              + live_weight w (forget block order live)
            ≡ w 0 max_order =
        λ w additive. omega (
          arith,
          h.balance w additive,
          live_weight-forget w block order live owned,
          free_weight-push_back w 9 order1 block1 lists (omega (arith, le, small)),
          merge-weight w additive 9 (max_order - order) order block a.free_lists (omega arith) here,
        ) in
      rw (test, test1)
        (record {
          balance = balance;
          aligned = AreListsAligned-push_back order1 block1 lists rest up;
          blocks = AreBlocks-forget block order live h.blocks;
          allocated = omega (arith, h.allocated, kept, allocated-le);
        })
