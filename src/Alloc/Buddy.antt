-- ===== src/Alloc/Buddy.antt =====
-- buddy_allocator.hpp. A block is its offset in the pool. The mutex makes each call one step.
pub mod Weight
pub mod Blocks
pub mod Orders
pub mod Merge
pub mod Client
pub mod Runs
use Prim.Native.Nat.{bit_xor}
use cpp_interview.Prelude.{
  ℕ, zero, suc, ◌+◌, ◌-◌, ◌*◌, ◌%◌, ◌^◌, Bool, true, false, ◌||◌, Option, none, some, List, [], ◌∷◌,
  ◌++◌, ◌==◌, ltb, leb, if◌then◌else◌,
}
use cpp_interview.Prelude.Sorted.{contains}

abbrev pub min_block_size : ℕ
min_block_size = 4096

abbrev pub max_order : ℕ
max_order = 8

abbrev pub order_to_size : ℕ → ℕ
order_to_size order = min_block_size * 2 ^ order

abbrev pub pool_size : ℕ
pool_size = order_to_size max_order

pub record BuddyAllocator : Type 0 where
  pub free_lists : ℕ → List ℕ
  pub allocated_bytes : ℕ
  pub split_count : ℕ
  pub merge_count : ℕ

abbrev pub set_list : (ℕ → List ℕ) → ℕ → List ℕ → ℕ → List ℕ
set_list lists order blocks j = if order == j then blocks else lists j

-- `push_back`, `back` and `pop_back` of a vector, and `erase` of the first element that is found.
abbrev pub push_back : (ℕ → List ℕ) → ℕ → ℕ → ℕ → List ℕ
push_back lists order block = set_list lists order (lists order ++ (block ∷ []))

unfoldable pub back : List ℕ → Option ℕ
back [] = none
back (x ∷ []) = some x
back (x ∷ y ∷ xs) = back (y ∷ xs)

unfoldable pub pop_back : List ℕ → List ℕ
pop_back [] = []
pop_back (x ∷ []) = []
pop_back (x ∷ y ∷ xs) = x ∷ pop_back (y ∷ xs)

unfoldable pub erase : ℕ → List ℕ → List ℕ
erase b [] = []
erase b (x ∷ xs) = if x == b then xs else x ∷ erase b xs

abbrev pub is_empty : List ℕ → Bool
is_empty [] = true
is_empty (x ∷ xs) = false

abbrev pub whole_pool : BuddyAllocator
whole_pool = record {
  free_lists = push_back (λ _. []) max_order 0;
  allocated_bytes = 0;
  split_count = 0;
  merge_count = 0;
}

-- The constructor: `mapped` is whether the pool could be mapped, and it throws if not.
abbrev pub new_allocator : Bool → Option BuddyAllocator
new_allocator mapped = if mapped then some whole_pool else none

-- The loop of `size_to_order`, `rounds` before `order` reaches the greatest.
unfoldable pub double_up : ℕ → ℕ → ℕ → ℕ → ℕ
double_up zero size order bytes = order
double_up (suc rounds) size order bytes =
    let rest = double_up rounds (size * 2) (suc order) bytes in
    if ltb size bytes then rest else order

unfoldable pub size_to_order : ℕ → ℕ
unfolding double_up
size_to_order bytes =
    if leb bytes min_block_size then 0 else double_up max_order min_block_size 0 bytes

-- The search of `allocate` for an order that has a free block.
unfoldable pub first_order : ℕ → ℕ → (ℕ → List ℕ) → ℕ
first_order zero order lists = order
first_order (suc rounds) order lists =
    let rest = first_order rounds (suc order) lists in
    if is_empty (lists order) then rest else order

-- The splits of `allocate`, `rounds` orders down to `order`: the upper half of the block is freed.
unfoldable pub split_down : ℕ → ℕ → ℕ → (ℕ → List ℕ) → ℕ → List ℕ
split_down zero order block lists = lists
split_down (suc rounds) order block lists =
    split_down rounds order block
      (push_back lists (order + rounds) (block + order_to_size (order + rounds)))

unfoldable pub allocate : BuddyAllocator → ℕ → Option ℕ × BuddyAllocator
unfolding size_to_order first_order back pop_back split_down
allocate a bytes =
    let order = size_to_order bytes in
    let current = first_order (suc max_order - order) order a.free_lists in
    if bytes == 0 || ltb pool_size bytes
    then (none, a)
    else if ltb max_order order
    then (none, a)
    else if ltb max_order current
    then (none, a)
    else elim (back (a.free_lists current)) [
      | none ↦ (none, a)
      | some block ↦ (
        some block,
        record a {
          free_lists =
              split_down (current - order) order block
                (set_list a.free_lists current (pop_back (a.free_lists current)));
          allocated_bytes = (a.allocated_bytes + order_to_size order) % 2 ^ 64;
          split_count = (a.split_count + (current - order)) % 2 ^ 64;
        },
      )
    ]

-- The merges of `deallocate` from `order` on, `rounds` before the greatest: the last order, the block, and the
-- lists.
unfoldable pub merge : ℕ → ℕ → ℕ → (ℕ → List ℕ) → ℕ × ℕ × (ℕ → List ℕ)
unfolding contains erase
merge zero order block lists = (order, block, lists)
merge (suc rounds) order block lists =
    let buddy = bit_xor block (order_to_size order) in
    let rest =
      merge rounds (suc order) (if ltb block buddy then block else buddy)
        (set_list lists order (erase buddy (lists order))) in
    if contains buddy (lists order) then rest else (order, block, lists)

unfoldable pub deallocate : BuddyAllocator → Option ℕ → ℕ → BuddyAllocator
unfolding size_to_order merge
deallocate a none bytes = a
deallocate a (some block) bytes =
    let order = size_to_order bytes in
    let (order1, block1, lists) = merge (max_order - order) order block a.free_lists in
    if bytes == 0 then a else if ltb max_order order then a else record a {
      free_lists = push_back lists order1 block1;
      allocated_bytes = (a.allocated_bytes + 2 ^ 64 - order_to_size order) % 2 ^ 64;
      merge_count = (a.merge_count + (order1 - order)) % 2 ^ 64;
    }

abbrev pub get_allocated_bytes : BuddyAllocator → ℕ
get_allocated_bytes a = a.allocated_bytes

abbrev pub get_total_pool_size : BuddyAllocator → ℕ
get_total_pool_size a = pool_size

abbrev pub get_split_count : BuddyAllocator → ℕ
get_split_count a = a.split_count

abbrev pub get_merge_count : BuddyAllocator → ℕ
get_merge_count a = a.merge_count
