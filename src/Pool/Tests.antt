-- ===== src/Pool/Tests.antt =====
-- The theorems on the buffer pool at concrete pools: pages are numbers, pages 5 and 6 are on the disk.
use cpp_interview.Prelude.{ℕ, ◌+◌, ◌≤◌, ◌≡◌, refl, true, false, none, some, [], ◌∷◌, arith}
use cpp_interview.Prelude.Dict.{find, assign}
use cpp_interview.Pool.Replacer
use cpp_interview.Pool.Replacer.{
  LruKReplacer, FrameNode, record_access, set_evictable, victim, new_replacer, remove, scan, visit,
}
use cpp_interview.Pool.Replacer.Victim.{
  Before, victim_lem, victim-none_lem, new_replacer-IsValid, record_access-IsValid,
  set_evictable-IsValid,
}
use cpp_interview.Pool.Disk.{DiskManager, read_page, allocate_page}
use cpp_interview.Pool.Manager.{
  BufferPoolManager, new_pool, fetch_page, new_page, unpin_page, evict_old, load_page,
  find_available_frame, install, count_up, pin_access,
}
use cpp_interview.Pool.Manager.Invariant.{IsValid}
use cpp_interview.Pool.Manager.Placing.{fetch_page-IsValid, unpin_page-IsValid}
use cpp_interview.Pool.Manager.Content.{content, IsFaithful, content-fetch_page}
use cpp_interview.Pool.Manager.Made.{content-new_page}
use cpp_interview.Pool.Manager.Pinned.{fetch_page-pinned}
use cpp_interview.Pool.Manager.Start.{new_pool-IsValid}

-- Frames 1 and 2 with one access each, and 1 evictable.
abbrev one_evictable : LruKReplacer
one_evictable = set_evictable (record_access (record_access (new_replacer 2) 1) 2) 1 true

abbrev seen_twice : LruKReplacer
seen_twice = record_access (record_access (new_replacer 2) 1) 2

seen_twice-IsValid : Replacer.Victim.IsValid seen_twice
seen_twice-IsValid =
    record_access-IsValid (record_access (new_replacer 2) 1) 2
      (record_access-IsValid (new_replacer 2) 1 (new_replacer-IsValid 2))

one_evictable-IsValid : Replacer.Victim.IsValid one_evictable
one_evictable-IsValid = set_evictable-IsValid seen_twice 1 true seen_twice-IsValid

abbrev seen_once : FrameNode
seen_once = record { history = 1 ∷ []; is_evictable = true }

victim_lem_example :
    (node : FrameNode) × (find 1 one_evictable.entries ≡ some node)
    × (node.is_evictable ≡ true)
    × (find 1 (victim one_evictable).1.entries ≡ none)
    × ((j : ℕ) (other : FrameNode)
        → find j one_evictable.entries ≡ some other
        → other.is_evictable ≡ true
        → Before one_evictable node other)
unfolding victim record_access set_evictable find assign scan visit
victim_lem_example = victim_lem one_evictable 1 one_evictable-IsValid refl

abbrev unseen : FrameNode
unseen = record { history = 1 ∷ []; is_evictable = false }

victim-none_lem_example : unseen.is_evictable ≡ false
unfolding victim record_access set_evictable find assign scan visit
victim-none_lem_example = victim-none_lem seen_twice 1 unseen seen_twice-IsValid refl refl

abbrev disk0 : DiskManager ℕ
disk0 = record { stored = (5, 50) ∷ (6, 60) ∷ []; next_page_id = 7 }

-- A pool of one frame, then page 5 in it, then page 5 unpinned.
abbrev pool0 : BufferPoolManager ℕ
pool0 = new_pool 1 2 disk0 (λ _. 0)

abbrev pool1 : BufferPoolManager ℕ
pool1 = (fetch_page 0 pool0 5).1

abbrev pool2 : BufferPoolManager ℕ
pool2 = (unpin_page pool1 5 false).1

fetch_page-IsValid_example : IsValid pool1
fetch_page-IsValid_example =
    fetch_page-IsValid 0 pool0 5 (new_pool-IsValid 1 2 disk0 (λ _. 0)) (λ e. cc)

pool1-IsValid : IsValid pool1
pool1-IsValid = fetch_page-IsValid 0 pool0 5 (new_pool-IsValid 1 2 disk0 (λ _. 0)) (λ e. cc)

pool2-IsValid : IsValid pool2
pool2-IsValid = unpin_page-IsValid pool1 5 false pool1-IsValid

pool0-IsFaithful : IsFaithful 0 pool0
unfolding new_pool find
pool0-IsFaithful page f e clean = ground (arith, e)

pool1-IsFaithful : IsFaithful 0 pool1
pool1-IsFaithful =
    (content-fetch_page 0 pool0 5 5 (new_pool-IsValid 1 2 disk0 (λ _. 0)) pool0-IsFaithful).2

content-fetch_page_example :
    (content 0 (fetch_page 0 pool1 6).1 5 ≡ content 0 pool1 5)
    × ((f : ℕ)
        → (fetch_page 0 pool1 6).0 ≡ some f
        → (fetch_page 0 pool1 6).1.pages f ≡ content 0 pool1 6)
    × IsFaithful 0 (fetch_page 0 pool1 6).1
content-fetch_page_example = content-fetch_page 0 pool1 6 5 pool1-IsValid pool1-IsFaithful

fetch_page-pinned_example :
    let b3 = (fetch_page 0 pool1 6).1 in
    (find 5 b3.page_table ≡ some 0)
    × (b3.pages 0 ≡ pool1.pages 0)
    × ((pool1.frames 0).pin_count ≤ (b3.frames 0).pin_count)
unfolding new_pool find new_page find_available_frame fetch_page load_page install evict_old
    read_page count_up assign
fetch_page-pinned_example = fetch_page-pinned 0 pool1 6 5 0 pool1-IsValid refl (λ e. cc)

-- Page 7 is made and unpinned, and page 5 takes its frame.
abbrev pool3 : BufferPoolManager ℕ
pool3 = (new_page (λ i. i + 1) pool0).1

abbrev pool4 : BufferPoolManager ℕ
pool4 = (unpin_page pool3 7 false).1

content-new_page_example :
    (content 0 pool3 7 ≡ 8) × (content 0 (fetch_page 0 pool4 5).1 7 ≡ read_page 0 disk0 7)
unfolding new_pool find new_page find_available_frame allocate_page read_page count_up unpin_page
    fetch_page load_page install evict_old victim record_access set_evictable assign scan visit
    pin_access
content-new_page_example =
    content-new_page 0 (λ i. i + 1) pool0 7 0 5 false (new_pool-IsValid 1 2 disk0 (λ _. 0))
      pool0-IsFaithful (λ e. cc) refl refl refl refl
