-- ===== src/Pool/Manager/Placing.antt =====
-- buffer_pool_manager.hpp: the calls keep the page table, the frames, the free list and the replacer
-- in agreement.
use cpp_interview.Prelude.{
  ℕ, ◌-◌, ◌≡◌, refl, ◌⊎◌, inl, inr, ◌≢◌, Bool, true, false, none, some, arith, ◌==◌, if◌then◌else◌,
  Bool-cases, Option-cases, subst, sym, ap,
}
use cpp_interview.Prelude.Dict.{find, find-assign, find-erase}
use cpp_interview.Prelude.Sorted.{contains}
use cpp_interview.Pool.Disk.{DiskManager, allocate_page, read_page}
use cpp_interview.Pool.Replacer
use cpp_interview.Pool.Replacer.{
  LruKReplacer, FrameNode, record_access, set_evictable, victim, push_history, node_at,
}
use cpp_interview.Pool.Replacer.Evict.{may_evict, may_evict-pin, may_evict-set_evictable}
use cpp_interview.Pool.Replacer.Victim.{
  victim_lem, victim-IsValid, victim-none, victim-some, record_access-IsValid,
  set_evictable-IsValid,
}
use cpp_interview.Pool.Manager.{
  BufferPoolManager, FrameMeta, invalid_page_id, update, find_available_frame, evict_old,
  pin_access, install, pin_cached, load_page, fetch_page, new_page, unpin_page, flush_frame,
  flush_page,
}
use cpp_interview.Pool.Manager.Invariant.{
  IsValid, Available, AreDistinct, find_available_frame-Found,
}

pin_access-IsValid :
    (f : ℕ) (r : LruKReplacer)
    → Replacer.Victim.IsValid r
    → Replacer.Victim.IsValid (pin_access f r)
unfolding pin_access
pin_access-IsValid f r v =
    set_evictable-IsValid (record_access r f) f false (record_access-IsValid r f v)

may_evict-pin_access :
    (f g : ℕ) (r : LruKReplacer)
    → may_evict (pin_access f r) g ≡ true
    → (f ≢ g) × (may_evict r g ≡ true)
unfolding pin_access
may_evict-pin_access f g r h = may_evict-pin r f g h

module _ {P : Type 0} where
  -- Evicting touches neither the free list, the replacer, the pages nor the other frames.
  pub evict_old-same :
      (f : ℕ) (b : BufferPoolManager P)
      → ((evict_old f b).free_list ≡ b.free_list)
        × ((evict_old f b).replacer ≡ b.replacer)
        × ((evict_old f b).pages ≡ b.pages)
        × ((g : ℕ) → f ≢ g → (evict_old f b).frames g ≡ b.frames g)
  unfolding evict_old
  evict_old-same f b = (ground arith, ground arith, ground arith, λ g ne. ground (arith, ne))

  -- The pages of the other frames stay in the table, and no page is left in the frame.
  pub find-evict_old :
      (f : ℕ) (b : BufferPoolManager P) (q g : ℕ)
      → IsValid b
      → (find q (evict_old f b).page_table ≡ some g → (f ≢ g) × (find q b.page_table ≡ some g))
        × (f ≢ g → find q b.page_table ≡ some g → find q (evict_old f b).page_table ≡ some g)
  unfolding evict_old
  find-evict_old f b q g v = (
    λ h. ground (arith, h, v.mapped q g, find-erase (b.frames f).page_id q b.page_table),
    λ ne h. ground (arith, ne, h, v.owned f, find-erase (b.frames f).page_id q b.page_table),
  )

  -- A page that is in no frame is set up in a frame that may be reused.
  install-IsValid :
      (f page : ℕ) (p : P) (b : BufferPoolManager P)
      → IsValid b
      → Available b f
      → page ≢ invalid_page_id
      → find page b.page_table ≡ none
      → IsValid (install f page p (evict_old f b))
  unfolding install
  install-IsValid f page p b v a real fresh =
      let b2 = evict_old f b in
      let (free, rep, _, other) = evict_old-same f b in
      let table = λ (q : ℕ). find-assign page q f b2.page_table in
      let left : (g : ℕ)
          → may_evict (pin_access f b2.replacer) g ≡ true
          → (f ≢ g) × (may_evict b.replacer g ≡ true) =
        λ g m.
          let (ne, m') = may_evict-pin_access f g b2.replacer m in
          (ne, subst (λ r. may_evict r g ≡ true) rep m') in
      record {
        mapped = λ q g h.
            ground (arith, h, table q, real, find-evict_old f b q g v, v.mapped q g, other g);
        owned = λ g h. ground (
          arith,
          h,
          fresh,
          table (b.frames g).page_id,
          table page,
          other g,
          v.owned g,
          find-evict_old f b (b.frames g).page_id g v,
        );
        unpinned = λ g m. ground (arith, left g m, other g, v.unpinned g);
        idle = λ g h. ground (arith, ap (contains g) free, h, a.taken, other g, v.idle g);
        resting = λ g m. ground (arith, ap (contains g) free, left g m, v.resting g);
        distinct = subst AreDistinct (sym free) v.distinct;
        replacing =
            pin_access-IsValid f b2.replacer (subst Replacer.Victim.IsValid (sym rep) v.replacing);
      }

  pin_cached-IsValid :
      (f page : ℕ) (b : BufferPoolManager P)
      → IsValid b
      → find page b.page_table ≡ some f
      → IsValid (pin_cached f b)
  unfolding pin_cached
  pin_cached-IsValid f page b v e = record {
    mapped = λ q g h. ground (arith, v.mapped q g h);
    owned = λ g h. ground (arith, h, v.owned g);
    unpinned = λ g m. ground (arith, may_evict-pin_access f g b.replacer m, v.unpinned g);
    idle = λ g h. ground (arith, v.idle g h);
    resting = λ g m. ground (arith, may_evict-pin_access f g b.replacer m, v.resting g);
    distinct = v.distinct;
    replacing = pin_access-IsValid f b.replacer v.replacing;
  }

  -- The disk is not part of the invariant.
  pub with_disk :
      (b : BufferPoolManager P) (disk : DiskManager P)
      → IsValid b
      → IsValid (record b { disk = disk })
  with_disk b disk v = record {
    mapped = v.mapped;
    owned = v.owned;
    unpinned = v.unpinned;
    idle = v.idle;
    resting = v.resting;
    distinct = v.distinct;
    replacing = v.replacing;
  }

  with_disk-Available :
      (b : BufferPoolManager P) (disk : DiskManager P) (f : ℕ)
      → Available b f
      → Available (record b { disk = disk }) f
  with_disk-Available b disk f a = record { loose = a.loose; taken = a.taken; kept = a.kept }

  load_page-IsValid :
      (zeros : P) (b : BufferPoolManager P) (page : ℕ)
      → IsValid b
      → page ≢ invalid_page_id
      → find page b.page_table ≡ none
      → IsValid (load_page zeros b page).1
  unfolding load_page
  load_page-IsValid zeros b page v real fresh =
      let (frame, b1) = find_available_frame b in
      let found = find_available_frame-Found b v in
      elim (Option-cases frame) [
        | inl e ↦ rw (load_page, e) found.valid
        | inr (f, e) ↦
            rw (load_page, e)
              (install-IsValid f page (read_page zeros (evict_old f b1).disk page) b1 found.valid
                (found.ready f e) real (ground (arith, ap (find page) found.same_table, fresh)))
      ]

  -- Fetching a page, other than the invalid id, keeps a pool in agreement, whether the page is in it,
  -- is loaded, or finds no frame.
  pub fetch_page-IsValid :
      (zeros : P) (b : BufferPoolManager P) (page : ℕ)
      → IsValid b
      → page ≢ invalid_page_id
      → IsValid (fetch_page zeros b page).1
  unfolding fetch_page
  fetch_page-IsValid zeros b page v real = elim (Option-cases (find page b.page_table)) [
    | inl e ↦ rw (fetch_page, e) (load_page-IsValid zeros b page v real e)
    | inr (f, e) ↦ rw (fetch_page, e) (pin_cached-IsValid f page b v e)
  ]

  -- Making a page keeps a pool in agreement, whether or not there is a frame for it, if the next id is
  -- not the invalid one and no page with it is in a frame.
  pub new_page-IsValid :
      (init : ℕ → P) (b : BufferPoolManager P)
      → IsValid b
      → b.disk.next_page_id ≢ invalid_page_id
      → find b.disk.next_page_id b.page_table ≡ none
      → IsValid (new_page init b).1
  unfolding new_page allocate_page
  new_page-IsValid init b v real fresh =
      let (frame, b1) = find_available_frame b in
      let found = find_available_frame-Found b v in
      let at = ap (λ d. d.next_page_id) found.same_disk in
      elim (Option-cases frame) [
        | inl e ↦ rw (new_page, e) found.valid
        | inr (f, e) ↦
            let (id, disk) = allocate_page b1.disk in
            rw (new_page, e)
              (install-IsValid f id (init id) (record b1 { disk = disk })
                (with_disk b1 disk found.valid) (with_disk-Available b1 disk f (found.ready f e))
                (ground (arith, at, real))
                (ground (arith, ap (find id) found.same_table, at, fresh)))
      ]

  flush_frame-IsValid :
      (page f : ℕ) (b : BufferPoolManager P) → IsValid b → IsValid (flush_frame page f b)
  unfolding flush_frame
  flush_frame-IsValid page f b v = record {
    mapped = λ q g h. ground (arith, v.mapped q g h);
    owned = λ g h. ground (arith, h, v.owned g);
    unpinned = λ g m. ground (arith, v.unpinned g m);
    idle = λ g h. ground (arith, v.idle g h);
    resting = v.resting;
    distinct = v.distinct;
    replacing = v.replacing;
  }

  -- The frame of a mapped page may change its pin count and its mark, and the replacer may change
  -- with them.
  lower-IsValid :
      (page f : ℕ) (meta : FrameMeta) (r : LruKReplacer) (b : BufferPoolManager P)
      → IsValid b
      → find page b.page_table ≡ some f
      → meta.page_id ≡ (b.frames f).page_id
      → Replacer.Victim.IsValid r
      → ((g : ℕ)
          → may_evict r g ≡ true
          → ((f ≡ g) × (meta.pin_count ≡ 0)) ⊎ ((f ≢ g) × (may_evict b.replacer g ≡ true)))
      → IsValid (record b { frames = update b.frames f meta; replacer = r })
  lower-IsValid page f meta r b v e same vr split = record {
    mapped = λ q g h. ground (arith, v.mapped q g h, same);
    owned = λ g h. ground (arith, h, same, v.owned g);
    unpinned = λ g m. ground (arith, split g m, v.unpinned g);
    idle = λ g h. ground (arith, v.idle g h, same);
    resting = λ g m. ground (
      arith,
      split g m,
      v.resting g,
      v.idle f,
      v.mapped page f e,
      Bool-cases (contains f b.free_list),
    );
    distinct = v.distinct;
    replacing = vr;
  }

  pub unpin_frame :
      (b : BufferPoolManager P) (page f : ℕ) (is_dirty : Bool)
      → find page b.page_table ≡ some f
      → (unpin_page b page is_dirty).1 ≡ (
          if (b.frames f).pin_count == 0 then b else record b {
            frames = update b.frames f (record (b.frames f) {
              is_dirty = if is_dirty then true else (b.frames f).is_dirty;
              pin_count = (b.frames f).pin_count - 1;
            });
            replacer =
                if (b.frames f).pin_count - 1 == 0
                then Replacer.set_evictable b.replacer f true
                else b.replacer;
          })
  unfolding unpin_page
  unpin_frame b page f is_dirty e = ground (arith, e)

  absent_unpin :
      (b : BufferPoolManager P) (page : ℕ) (is_dirty : Bool)
      → find page b.page_table ≡ none
      → (unpin_page b page is_dirty).1 ≡ b
  unfolding unpin_page
  absent_unpin b page is_dirty e = ground (arith, e)

  -- Unpinning any page keeps a pool in agreement: the replacer may give up the frame once nobody pins it.
  pub unpin_page-IsValid :
      (b : BufferPoolManager P) (page : ℕ) (is_dirty : Bool)
      → IsValid b
      → IsValid (unpin_page b page is_dirty).1
  unpin_page-IsValid b page is_dirty v = elim (Option-cases (find page b.page_table)) [
    | inl e ↦ rw (absent_unpin b page is_dirty e) v
    | inr (f, e) ↦
        let meta : FrameMeta = record (b.frames f) {
          is_dirty = if is_dirty then true else (b.frames f).is_dirty;
          pin_count = (b.frames f).pin_count - 1;
        } in
        subst IsValid (sym (unpin_frame b page f is_dirty e))
          (elim (Bool-cases ((b.frames f).pin_count == 0)) [
            | inl z ↦ rw z v
            | inr nz ↦ rw nz (elim (Bool-cases ((b.frames f).pin_count - 1 == 0)) [
              | inl last ↦ rw last (
                  lower-IsValid page f meta (set_evictable b.replacer f true) b v e refl
                    (set_evictable-IsValid b.replacer f true v.replacing)
                    (λ g m. ground (arith, last, may_evict-set_evictable b.replacer f g true m)))
              | inr more ↦ rw more (
                  lower-IsValid page f meta b.replacer b v e refl v.replacing
                    (λ g m. ground (arith, nz, m, v.unpinned g m)))
            ])
          ])
  ]

  -- Flushing any page keeps a pool in agreement.
  pub flush_page-IsValid :
      (b : BufferPoolManager P) (page : ℕ) → IsValid b → IsValid (flush_page b page).1
  unfolding flush_page
  flush_page-IsValid b page v = elim (Option-cases (find page b.page_table)) [
    | inl e ↦ rw (flush_page, e) v
    | inr (f, e) ↦ rw (flush_page, e) (flush_frame-IsValid page f b v)
  ]
