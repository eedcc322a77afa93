-- ===== src/Pool/Manager.antt =====
-- projects/concurrent_buffer_pool_manager/buffer_pool_manager.hpp, over pages of any type. A pointer
-- to a page is the number of its frame, and the vectors of pages and frames are functions of it. The
-- latch makes each call one step. Pin counts do not overflow.
pub mod Invariant
pub mod Placing
pub mod Content
pub mod Made
pub mod Pinned
pub mod Start
use cpp_interview.Prelude.{
  ℕ, zero, suc, ◌+◌, ◌-◌, Bool, true, false, not, Option, none, some, List, [], ◌∷◌, ◌==◌, ltb,
  if◌then◌else◌,
}
use cpp_interview.Prelude.Dict.{Dict, find, assign, erase}
use cpp_interview.Pool.Disk.{DiskManager, write_page, read_page, allocate_page}
use cpp_interview.Pool.Replacer
use cpp_interview.Pool.Replacer.{LruKReplacer, new_replacer}

abbrev pub invalid_page_id : ℕ
invalid_page_id = 0xffff_ffff_ffff_ffff

pub record FrameMeta : Type 0 where
  pub page_id : ℕ
  pub pin_count : ℕ
  pub is_dirty : Bool

pub record BufferPoolManager (P : Type 0) : Type 0 where
  pub pool_size : ℕ
  pub disk : DiskManager P
  pub replacer : LruKReplacer
  pub pages : ℕ → P
  pub frames : ℕ → FrameMeta
  pub free_list : List ℕ
  pub page_table : Dict ℕ

-- `v[i] = a`
abbrev pub update {ℓ} : {A : Type ℓ} → (ℕ → A) → ℕ → A → ℕ → A
update v i a j = if i == j then a else v j

-- 0, 1, … up to `n` entries from `i` on.
unfoldable pub count_up : ℕ → ℕ → List ℕ
count_up i zero = []
count_up i (suc n) = i ∷ count_up (i + 1) n

-- The replacer sees an access of a frame that is in use.
unfoldable pub pin_access : ℕ → LruKReplacer → LruKReplacer
pin_access f r = Replacer.set_evictable (Replacer.record_access r f) f false

module _ {P : Type 0} where
  unfoldable pub new_pool : ℕ → ℕ → DiskManager P → (ℕ → P) → BufferPoolManager P
  unfolding count_up
  new_pool pool_size k disk pages = record {
    pool_size = pool_size;
    disk = disk;
    replacer = new_replacer k;
    pages = pages;
    frames = λ _. record { page_id = invalid_page_id; pin_count = 0; is_dirty = false };
    free_list = count_up 0 pool_size;
    page_table = [];
  }

  unfoldable pub find_available_frame : BufferPoolManager P → Option ℕ × BufferPoolManager P
  find_available_frame b = elim b.free_list [
    | f ∷ rest ↦ (some f, record b { free_list = rest })
    | [] ↦ let (f, r) = Replacer.victim b.replacer in (f, record b { replacer = r })
  ]

  -- The old page of a frame is written back if it is dirty, and forgotten.
  unfoldable pub evict_old : ℕ → BufferPoolManager P → BufferPoolManager P
  evict_old f b =
      let old = b.frames f in
      if old.page_id == invalid_page_id
      then b
      else if old.is_dirty
      then record b {
        disk = write_page b.disk old.page_id (b.pages f);
        frames = update b.frames f (record old { is_dirty = false });
        page_table = erase old.page_id b.page_table;
      }
      else record b { page_table = erase old.page_id b.page_table }

  -- A page is set up in a frame, pinned once.
  unfoldable pub install : ℕ → ℕ → P → BufferPoolManager P → BufferPoolManager P
  install f page_id page b = record b {
    pages = update b.pages f page;
    page_table = assign page_id f b.page_table;
    frames = update b.frames f (record { page_id = page_id; pin_count = 1; is_dirty = false });
    replacer = pin_access f b.replacer;
  }

  -- `init` is the page that `SlottedPage::init` gives for an id. The result is the new id and frame.
  unfoldable pub new_page : (ℕ → P) → BufferPoolManager P → Option (ℕ × ℕ) × BufferPoolManager P
  new_page init b =
      let (frame, b1) = find_available_frame b in
      elim frame [
        | none ↦ (none, b1)
        | some f ↦
            let (page_id, disk) = allocate_page b1.disk in
            (
              some (page_id, f),
              install f page_id (init page_id) (evict_old f (record b1 { disk = disk })),
            )
      ]

  -- A page that is in the pool gets one more pin.
  pub pin_cached : ℕ → BufferPoolManager P → BufferPoolManager P
  pin_cached f b = record b {
    frames = update b.frames f (record (b.frames f) { pin_count = (b.frames f).pin_count + 1 });
    replacer = pin_access f b.replacer;
  }

  unfoldable pub load_page : P → BufferPoolManager P → ℕ → Option ℕ × BufferPoolManager P
  load_page zeros b page_id =
      let (frame, b1) = find_available_frame b in
      elim frame [
        | none ↦ (none, b1)
        | some f ↦
            let b2 = evict_old f b1 in
            (some f, install f page_id (read_page zeros b2.disk page_id) b2)
      ]

  unfoldable pub fetch_page : P → BufferPoolManager P → ℕ → Option ℕ × BufferPoolManager P
  fetch_page zeros b page_id = elim (find page_id b.page_table) [
    | some f ↦ (some f, pin_cached f b)
    | none ↦ load_page zeros b page_id
  ]

  unfoldable pub unpin_page : BufferPoolManager P → ℕ → Bool → Bool × BufferPoolManager P
  unpin_page b page_id is_dirty = elim (find page_id b.page_table) [
    | none ↦ (false, b)
    | some f ↦
        let meta = b.frames f in
        if meta.pin_count == 0 then (false, b) else (
          true,
          record b {
            frames = update b.frames f (record meta {
              is_dirty = if is_dirty then true else meta.is_dirty;
              pin_count = meta.pin_count - 1;
            });
            replacer =
                if meta.pin_count - 1 == 0
                then Replacer.set_evictable b.replacer f true
                else b.replacer;
          },
        )
  ]

  -- A page is written to the disk and its frame is clean.
  pub flush_frame : ℕ → ℕ → BufferPoolManager P → BufferPoolManager P
  flush_frame page_id f b = record b {
    disk = write_page b.disk page_id (b.pages f);
    frames = update b.frames f (record (b.frames f) { is_dirty = false });
  }

  pub flush_page : BufferPoolManager P → ℕ → Bool × BufferPoolManager P
  flush_page b page_id = elim (find page_id b.page_table) [
    | none ↦ (false, b)
    | some f ↦ (true, flush_frame page_id f b)
  ]

  flush_entries : Dict ℕ → BufferPoolManager P → BufferPoolManager P
  flush_entries [] b = b
  flush_entries ((page_id, f) ∷ entries) b =
      flush_entries entries (if (b.frames f).is_dirty then flush_frame page_id f b else b)

  pub flush_all_pages : BufferPoolManager P → BufferPoolManager P
  flush_all_pages b = flush_entries b.page_table b
