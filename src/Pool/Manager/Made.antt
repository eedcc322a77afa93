-- ===== src/Pool/Manager/Made.antt =====
-- buffer_pool_manager.hpp: what becomes of a page that `new_page` made when its frame is used again.
use cpp_interview.Prelude.{
  ℕ, ◌≡◌, refl, inl, inr, ◌≢◌, Bool, false, none, some, arith, if◌then◌else◌, Option-cases, sym,
  ◌∙◌, ap, subst,
}
use cpp_interview.Prelude.Dict.{find, find-assign, find-erase}
use cpp_interview.Pool.Disk.{allocate_page, read_page, read_page-write_page}
use cpp_interview.Pool.Manager.{
  BufferPoolManager, invalid_page_id, find_available_frame, evict_old, install, load_page,
  fetch_page, new_page, unpin_page,
}
use cpp_interview.Pool.Manager.Invariant.{IsValid, find_available_frame-Found}
use cpp_interview.Pool.Manager.Placing.{
  with_disk, unpin_frame, new_page-IsValid, unpin_page-IsValid,
}
use cpp_interview.Pool.Manager.Content.{content, IsFaithful, read_page-evict_old, same_view}

module _ {P : Type 0} (zeros : P) where
  -- What a page of the frame `f` leaves on the disk when the frame is given to another page.
  content-replaced :
      (f page other : ℕ) (p : P) (b : BufferPoolManager P)
      → (b.frames f).page_id ≡ page
      → page ≢ invalid_page_id
      → other ≢ page
      → content zeros (install f other p (evict_old f b)) page
        ≡ (if (b.frames f).is_dirty then b.pages f else read_page zeros b.disk page)
  unfolding install evict_old
  content-replaced f page other p b here real apart = ground (
    arith,
    here,
    real,
    apart,
    find-assign other page f (evict_old f b).page_table,
    find-erase page page b.page_table,
    read_page-write_page zeros b.disk page page (b.pages f),
  )

  content-load_over :
      (f page other : ℕ) (b : BufferPoolManager P)
      → IsValid b
      → find page b.page_table ≡ some f
      → find other b.page_table ≡ none
      → (load_page zeros b other).0 ≡ some f
      → content zeros (load_page zeros b other).1 page
        ≡ (if (b.frames f).is_dirty then b.pages f else read_page zeros b.disk page)
  unfolding load_page
  content-load_over f page other b v here absent h =
      let (frame, b1) = find_available_frame b in
      let found = find_available_frame-Found b v in
      let apart : other ≢ page = λ e. cc in
      let at : (b.frames f).page_id ≡ page = (v.mapped page f here).0 in
      elim (Option-cases frame) [
        | inl e ↦ ground (arith, h, e)
        | inr (g, e) ↦
            let same : g ≡ f = ground (arith, h, e) in
            rw (load_page, e)
              (content-replaced g page other (read_page zeros (evict_old g b1).disk other) b1
                  (ground (arith, ap (λ x. (x f).page_id) found.same_frames, at, same))
                  (v.mapped page f here).1 apart
                ∙ ground (
                  arith,
                  same,
                  ap (λ x. x f) found.same_frames,
                  ap (λ x. x f) found.same_pages,
                  ap (λ d. read_page zeros d page) found.same_disk,
                ))
      ]

  -- A page that was made, its frame pinned once and not marked.
  record IsMade (b b1 : BufferPoolManager P) (id f : ℕ) (p : P) : Type 0 where
    valid : IsValid b1
    mapped : find id b1.page_table ≡ some f
    page : b1.pages f ≡ p
    pinned : (b1.frames f).pin_count ≡ 1
    clean : (b1.frames f).is_dirty ≡ false
    unwritten : read_page zeros b1.disk id ≡ read_page zeros b.disk id

  new_page-IsMade :
      (init : ℕ → P) (b : BufferPoolManager P) (id f : ℕ)
      → IsValid b
      → IsFaithful zeros b
      → id ≢ invalid_page_id
      → find id b.page_table ≡ none
      → (new_page init b).0 ≡ some (id, f)
      → IsMade b (new_page init b).1 id f (init id)
  unfolding new_page allocate_page read_page install
  new_page-IsMade init b id f v faithful real fresh h =
      let (frame, b1) = find_available_frame b in
      let found = find_available_frame-Found b v in
      let moved =
        same_view zeros b b1 found.same_table found.same_pages found.same_frames found.same_disk in
      elim (Option-cases frame) [
        | inl e ↦ ground (arith, h, e)
        | inr (g, e) ↦
            let (next, disk) = allocate_page b1.disk in
            let b2 : BufferPoolManager P = record b1 { disk = disk } in
            let same : (next ≡ id) × (g ≡ f) = ground (arith, h, e) in
            let valid : IsValid b2 = with_disk b1 disk found.valid in
            let absent : find next b1.page_table ≡ none =
              ground (arith, ap (find next) found.same_table, fresh, same) in
            let at : b.disk.next_page_id ≡ id =
              ground (arith, ap (λ d. d.next_page_id) found.same_disk, same) in
            let all =
              new_page-IsValid init b v (ground (arith, at, real)) (ground (arith, at, fresh)) in
            let unread : read_page zeros (evict_old g b2).disk next ≡ read_page zeros b.disk next =
              ground (
                arith,
                same,
                real,
                absent,
                read_page-evict_old zeros g b2 next valid (moved.1 faithful),
                valid.owned g,
                found.same_disk,
                ap (λ d. d.stored) found.same_disk,
              ) in
            let b3 = install g next (init next) (evict_old g b2) in
            let made : new_page init b ≡ (some (next, g), b3) = rw (new_page, e) refl in
            let table = find-assign next next g (evict_old g b2).page_table in
            subst (λ r. IsMade b r.1 id f (init id)) (sym made)
              (record {
                valid = subst (λ r. IsValid r.1) made all;
                mapped = ground (arith, same, table);
                page = ground (arith, same);
                pinned = ground (arith, same);
                clean = ground (arith, same);
                unwritten = ground (arith, same, unread);
              })
      ]

  -- A frame that is unpinned keeps its page, and is marked as the caller says.
  record IsUnpinned (b b1 : BufferPoolManager P) (f : ℕ) (is_dirty : Bool) : Type 0 where
    table : b1.page_table ≡ b.page_table
    pages : b1.pages ≡ b.pages
    disk : b1.disk ≡ b.disk
    mark : (b1.frames f).is_dirty ≡ is_dirty

  unpin_page-IsUnpinned :
      (b : BufferPoolManager P) (page f : ℕ) (is_dirty : Bool)
      → find page b.page_table ≡ some f
      → (b.frames f).pin_count ≡ 1
      → (b.frames f).is_dirty ≡ false
      → IsUnpinned b (unpin_page b page is_dirty).1 f is_dirty
  unpin_page-IsUnpinned b page f is_dirty here pinned clean =
      rw (unpin_frame b page f is_dirty here, pinned)
        (record { table = refl; pages = refl; disk = refl; mark = ground (arith, clean) })

  -- In a pool in agreement, whose clean frames are equal to the disk, a page that `new_page` made, with
  -- an id that is not the invalid one and was in no frame, holds what `SlottedPage::init` gave. When it
  -- is unpinned next and its frame is then used to fetch another page, one that is in no frame, it holds
  -- that still if it was unpinned as dirty; if it was not, it holds what the disk had before it was made.
  pub content-new_page :
      (init : ℕ → P) (b : BufferPoolManager P) (id f other : ℕ) (is_dirty : Bool)
      → IsValid b
      → IsFaithful zeros b
      → id ≢ invalid_page_id
      → find id b.page_table ≡ none
      → (new_page init b).0 ≡ some (id, f)
      → find other (new_page init b).1.page_table ≡ none
      → (fetch_page zeros (unpin_page (new_page init b).1 id is_dirty).1 other).0 ≡ some f
      → let b1 = (new_page init b).1 in
        let b2 = (unpin_page b1 id is_dirty).1 in
        let b3 = (fetch_page zeros b2 other).1 in
        (content zeros b1 id ≡ init id)
        × (content zeros b3 id ≡ (if is_dirty then init id else read_page zeros b.disk id))
  unfolding fetch_page
  content-new_page init b id f other is_dirty v faithful real fresh h absent over =
      let b1 = (new_page init b).1 in
      let b2 = (unpin_page b1 id is_dirty).1 in
      let made = new_page-IsMade init b id f v faithful real fresh h in
      let left = unpin_page-IsUnpinned b1 id f is_dirty made.mapped made.pinned made.clean in
      let valid : IsValid b2 = unpin_page-IsValid b1 id is_dirty made.valid in
      let gone : find other b2.page_table ≡ none = ap (find other) left.table ∙ absent in
      let loads : fetch_page zeros b2 other ≡ load_page zeros b2 other = ground (arith, gone) in
      (
        ground (arith, made.mapped, made.page),
        ap (λ r. content zeros r.1 id) loads
            ∙ content-load_over f id other b2 valid (ap (find id) left.table ∙ made.mapped) gone
                (ap (λ r. r.0) (sym loads) ∙ over)
            ∙ ground (
              arith,
              left.mark,
              ap (λ x. x f) left.pages,
              made.page,
              ap (λ d. read_page zeros d id) left.disk,
              made.unwritten,
            ),
      )
