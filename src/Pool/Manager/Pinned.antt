-- ===== src/Pool/Manager/Pinned.antt =====
-- buffer_pool_manager.hpp: a page that is pinned stays in its frame.
use cpp_interview.Prelude.{
  ℕ, ◌≤◌, ◌≡◌, refl, inl, inr, ◌≢◌, none, some, arith, Option-cases, ◌∙◌, ap,
}
use cpp_interview.Prelude.Dict.{find, find-assign}
use cpp_interview.Pool.Disk.{read_page}
use cpp_interview.Pool.Manager.{
  BufferPoolManager, find_available_frame, evict_old, install, pin_cached, load_page, fetch_page,
}
use cpp_interview.Pool.Manager.Invariant.{IsValid, Available, find_available_frame-Found}
use cpp_interview.Pool.Manager.Placing.{find-evict_old, evict_old-same}

module _ {P : Type 0} where
  -- Setting up a page in a frame that may be reused leaves the pinned pages alone.
  install-pinned :
      (f page : ℕ) (p : P) (b : BufferPoolManager P) (q g : ℕ)
      → IsValid b
      → Available b f
      → find page b.page_table ≡ none
      → find q b.page_table ≡ some g
      → (b.frames g).pin_count ≢ 0
      → let b3 = install f page p (evict_old f b) in
        (find q b3.page_table ≡ some g) × (b3.pages g ≡ b.pages g) × (b3.frames g ≡ b.frames g)
  unfolding install
  install-pinned f page p b q g v a fresh e pinned =
      let b2 = evict_old f b in
      let (_, _, pages, other) = evict_old-same f b in
      let ne : f ≢ g = λ same. ground (arith, same, a.loose, v.mapped q g e, pinned) in
      (
        ground (
          arith,
          ne,
          fresh,
          e,
          find-assign page q f b2.page_table,
          (find-evict_old f b q g v).1 ne e,
        ),
        ground (arith, ne, ap (λ p. p g) pages),
        ground (arith, ne, other g ne),
      )

  -- In a pool in agreement, fetching any page keeps a pinned page in its frame, with the same bytes and at least as many pins.
  pub fetch_page-pinned :
      (zeros : P) (b : BufferPoolManager P) (page q g : ℕ)
      → IsValid b
      → find q b.page_table ≡ some g
      → (b.frames g).pin_count ≢ 0
      → let b3 = (fetch_page zeros b page).1 in
        (find q b3.page_table ≡ some g)
        × (b3.pages g ≡ b.pages g)
        × ((b.frames g).pin_count ≤ (b3.frames g).pin_count)
  unfolding fetch_page load_page pin_cached
  fetch_page-pinned zeros b page q g v e pinned =
      let (frame, b1) = find_available_frame b in
      let found = find_available_frame-Found b v in
      elim (Option-cases (find page b.page_table)) [
        | inr (f, cached) ↦ rw (fetch_page, cached) (e, refl, ground arith)
        | inl absent ↦
            let fresh : find page b1.page_table ≡ none =
              ground (arith, ap (find page) found.same_table, absent) in
            let mapped : find q b1.page_table ≡ some g =
              ground (arith, ap (find q) found.same_table, e) in
            let frame_same = ap (λ fs. fs g) found.same_frames in
            let page_same = ap (λ ps. ps g) found.same_pages in
            elim (Option-cases frame) [
              | inl refused ↦
                  rw (fetch_page, absent, load_page, refused)
                    (mapped, page_same, ground (arith, frame_same))
              | inr (f, e1) ↦
                  let kept =
                    install-pinned f page (read_page zeros (evict_old f b1).disk page) b1 q g
                      found.valid (found.ready f e1) fresh mapped
                      (ground (arith, frame_same, pinned)) in
                  rw (fetch_page, absent, load_page, e1)
                    (kept.0, kept.1 ∙ page_same, ground (arith, kept.2, frame_same))
            ]
      ]
