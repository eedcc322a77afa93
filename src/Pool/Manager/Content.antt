-- ===== src/Pool/Manager/Content.antt =====
-- buffer_pool_manager.hpp: what a page holds, in its frame or on the disk, across a fetch.
use cpp_interview.Prelude.{
  ℕ, ◌≡◌, refl, inl, inr, false, none, some, arith, ◌==◌, if◌then◌else◌, Option-cases, ◌∙◌, ap,
}
use cpp_interview.Prelude.Dict.{find, find-assign, find-erase}
use cpp_interview.Pool.Disk.{read_page, read_page-write_page}
use cpp_interview.Pool.Manager.{
  BufferPoolManager, invalid_page_id, find_available_frame, evict_old, install, pin_cached,
  load_page, fetch_page,
}
use cpp_interview.Pool.Manager.Invariant.{IsValid, find_available_frame-Found}
use cpp_interview.Pool.Manager.Placing.{find-evict_old, evict_old-same}

module _ {P : Type 0} (zeros : P) where
  -- What a page holds: its frame's copy when it is in one, else the disk's.
  abbrev pub content : BufferPoolManager P → ℕ → P
  content b page = elim (find page b.page_table) [
    | none ↦ read_page zeros b.disk page
    | some f ↦ b.pages f
  ]

  -- A frame that is not marked dirty holds what the disk holds.
  abbrev pub IsFaithful : BufferPoolManager P → Type 0
  IsFaithful b =
      (page f : ℕ)
      → find page b.page_table ≡ some f
      → (b.frames f).is_dirty ≡ false
      → b.pages f ≡ read_page zeros b.disk page

  -- The disk after an eviction.
  pub read_page-evict_old :
      (f : ℕ) (b : BufferPoolManager P) (q : ℕ)
      → IsValid b
      → IsFaithful b
      → read_page zeros (evict_old f b).disk q ≡ (
          if (b.frames f).page_id == q
          then (if (b.frames f).page_id == invalid_page_id
              then read_page zeros b.disk q
              else b.pages f)
          else read_page zeros b.disk q)
  unfolding evict_old
  read_page-evict_old f b q v faithful = ground (
    arith,
    v.owned f,
    faithful q f,
    read_page-write_page zeros b.disk (b.frames f).page_id q (b.pages f),
  )

  find-evicted :
      (f : ℕ) (b : BufferPoolManager P) (q : ℕ)
      → IsValid b
      → find q (evict_old f b).page_table
        ≡ (if (b.frames f).page_id == q then none else find q b.page_table)
  unfolding evict_old
  find-evicted f b q v = elim (Option-cases (find q b.page_table)) [
    | inl e ↦ ground (arith, e, find-erase (b.frames f).page_id q b.page_table)
    | inr (g, e) ↦ ground (arith, e, v.mapped q g e, find-erase (b.frames f).page_id q b.page_table)
  ]

  content-evict_old :
      (f : ℕ) (b : BufferPoolManager P) (q : ℕ)
      → IsValid b
      → IsFaithful b
      → content (evict_old f b) q ≡ content b q
  content-evict_old f b q v faithful =
      let disk = read_page-evict_old f b q v faithful in
      let (_, _, pages, _) = evict_old-same f b in
      elim (Option-cases (find q b.page_table)) [
        | inl e ↦ ground (arith, e, disk, find-evicted f b q v, v.owned f)
        | inr (g, e) ↦
            ground
              (arith, e, disk, find-evicted f b q v, v.owned f, v.mapped q g e, ap (λ p. p g) pages)
      ]

  -- Loading a page that is in no frame, into a frame that may be reused.
  content-install :
      (f page : ℕ) (b : BufferPoolManager P) (q : ℕ)
      → IsValid b
      → IsFaithful b
      → find page b.page_table ≡ none
      → let b2 = evict_old f b in
        content (install f page (read_page zeros b2.disk page) b2) q ≡ content b q
  unfolding install
  content-install f page b q v faithful e =
      let b2 = evict_old f b in
      let kept = content-evict_old f b q v faithful in
      let same = find-assign page q f b2.page_table in
      elim (Option-cases (find q b2.page_table)) [
        | inl e2 ↦ ground (arith, e, e2, same, kept, find-evicted f b page v)
        | inr (g, e2) ↦
            ground
              (arith, e, e2, same, kept, find-evicted f b page v, (find-evict_old f b q g v).0 e2)
      ]

  IsFaithful-install :
      (f page : ℕ) (b : BufferPoolManager P)
      → IsValid b
      → IsFaithful b
      → find page b.page_table ≡ none
      → let b2 = evict_old f b in IsFaithful (install f page (read_page zeros b2.disk page) b2)
  unfolding install
  IsFaithful-install f page b v faithful e q g h clean =
      let b2 = evict_old f b in
      let (_, _, pages, other) = evict_old-same f b in
      ground (
        arith,
        h,
        clean,
        find-assign page q f b2.page_table,
        (find-evict_old f b q g v).0,
        ap (λ p. p g) pages,
        other g,
        faithful q g,
        read_page-evict_old f b q v faithful,
        v.mapped q g,
        v.owned f,
      )

  loaded :
      (f page : ℕ) (b : BufferPoolManager P)
      → IsValid b
      → IsFaithful b
      → find page b.page_table ≡ none
      → let b2 = evict_old f b in
        (install f page (read_page zeros b2.disk page) b2).pages f ≡ content b page
  unfolding install
  loaded f page b v faithful e =
      ground (arith, e, find-evicted f b page v, content-evict_old f b page v faithful)

  -- The content of a pool depends on its table, pages, frames and disk.
  pub same_view :
      (b b1 : BufferPoolManager P)
      → b1.page_table ≡ b.page_table
      → b1.pages ≡ b.pages
      → b1.frames ≡ b.frames
      → b1.disk ≡ b.disk
      → ((q : ℕ) → content b1 q ≡ content b q) × (IsFaithful b → IsFaithful b1)
  same_view b b1 table pages frames disk = rw (table, pages, frames, disk) (λ q. refl, λ h. h)

  content-load_page :
      (b : BufferPoolManager P) (page q : ℕ)
      → IsValid b
      → IsFaithful b
      → find page b.page_table ≡ none
      → (content (load_page zeros b page).1 q ≡ content b q)
        × ((f : ℕ)
            → (load_page zeros b page).0 ≡ some f
            → (load_page zeros b page).1.pages f ≡ content b page)
        × IsFaithful (load_page zeros b page).1
  unfolding load_page
  content-load_page b page q v faithful fresh =
      let (frame, b1) = find_available_frame b in
      let found = find_available_frame-Found b v in
      let moved =
        same_view b b1 found.same_table found.same_pages found.same_frames found.same_disk in
      let fresh1 : find page b1.page_table ≡ none =
        ground (arith, ap (find page) found.same_table, fresh) in
      elim (Option-cases frame) [
        | inl e ↦ rw (load_page, e) (moved.0 q, λ f h. ground (arith, h), moved.1 faithful)
        | inr (f, e) ↦
            rw (load_page, e)
              (
                content-install f page b1 q found.valid (moved.1 faithful) fresh1 ∙ moved.0 q,
                λ g h. ground (
                  arith,
                  h,
                  loaded f page b1 found.valid (moved.1 faithful) fresh1,
                  moved.0 page,
                ),
                IsFaithful-install f page b1 found.valid (moved.1 faithful) fresh1,
              )
      ]

  -- In a pool in agreement, whose clean frames are equal to the disk, fetching a page changes the
  -- content of no page, of it or of another, keeps the clean frames equal to the disk, and the frame
  -- that it gives holds the page's content.
  pub content-fetch_page :
      (b : BufferPoolManager P) (page q : ℕ)
      → IsValid b
      → IsFaithful b
      → (content (fetch_page zeros b page).1 q ≡ content b q)
        × ((f : ℕ)
            → (fetch_page zeros b page).0 ≡ some f
            → (fetch_page zeros b page).1.pages f ≡ content b page)
        × IsFaithful (fetch_page zeros b page).1
  unfolding fetch_page pin_cached
  content-fetch_page b page q v faithful = elim (Option-cases (find page b.page_table)) [
    | inl e ↦ rw (fetch_page, e) (content-load_page b page q v faithful e)
    | inr (f, e) ↦
        rw (fetch_page, e)
          (refl, λ g h. ground (arith, e, h), λ p g m clean. ground (arith, clean, faithful p g m))
  ]
