-- ===== src/Pool/Manager/Invariant.antt =====
-- buffer_pool_manager.hpp: the page table, the frames, the free list and the replacer agree.
use cpp_interview.Prelude.{
  ℕ, ◌≡◌, refl, ◌⊎◌, inl, inr, ◌≢◌, true, false, Option, some, List, [], ◌∷◌, arith, Bool-cases,
  Option-cases, subst, sym, ap,
}
use cpp_interview.Prelude.Dict.{Dict, find}
use cpp_interview.Prelude.Sorted.{contains}
use cpp_interview.Pool.Replacer
use cpp_interview.Pool.Replacer.{
  LruKReplacer, FrameNode, record_access, set_evictable, victim, push_history, node_at,
}
use cpp_interview.Pool.Replacer.Evict.{may_evict, may_evict-victim}
use cpp_interview.Pool.Replacer.Victim.{
  victim_lem, victim-IsValid, victim-none, victim-some, record_access-IsValid,
  set_evictable-IsValid,
}
use cpp_interview.Pool.Manager.{BufferPoolManager, invalid_page_id, find_available_frame}

-- No frame stands twice.
abbrev pub AreDistinct : List ℕ → Type 0
AreDistinct [] = Unit {0}
AreDistinct (f ∷ fs) = (contains f fs ≡ false) × AreDistinct fs

abbrev Table : Type 0
Table = Dict ℕ

-- The invariant. A mapped page is in its frame, a frame that holds a page is mapped, a frame that
-- the replacer may give up is not pinned, and a free frame holds no page and is not in the replacer.
pub record IsValid {P : Type 0} (b : BufferPoolManager P) : Type 0 where
  pub mapped :
      (page f : ℕ)
      → find page b.page_table ≡ some f
      → ((b.frames f).page_id ≡ page) × (page ≢ invalid_page_id)
  pub owned :
      (f : ℕ)
      → (b.frames f).page_id ≢ invalid_page_id
      → find (b.frames f).page_id b.page_table ≡ some f
  pub unpinned : (f : ℕ) → may_evict b.replacer f ≡ true → (b.frames f).pin_count ≡ 0
  pub idle : (f : ℕ) → contains f b.free_list ≡ true → (b.frames f).page_id ≡ invalid_page_id
  pub resting : (f : ℕ) → may_evict b.replacer f ≡ true → contains f b.free_list ≡ false
  pub distinct : AreDistinct b.free_list
  pub replacing : Replacer.Victim.IsValid b.replacer

-- A frame that may be reused: it is pinned by nobody if it holds a page, it is not free, and the
-- replacer will not give it up.
pub record Available {P : Type 0} (b : BufferPoolManager P) (f : ℕ) : Type 0 where
  pub loose : ((b.frames f).page_id ≡ invalid_page_id) ⊎ ((b.frames f).pin_count ≡ 0)
  pub taken : contains f b.free_list ≡ false
  pub kept : may_evict b.replacer f ≡ false

module _ {P : Type 0} where
  -- The two ways to a frame: the head of the free list, or the replacer's victim.
  available_from :
      (b : BufferPoolManager P) (free : List ℕ)
      → b.free_list ≡ free
      → ((f : ℕ) × (rest : List ℕ) × (b.free_list ≡ f ∷ rest)
          × (find_available_frame b ≡ (some f, record b { free_list = rest })))
        ⊎ ((b.free_list ≡ [])
            × (find_available_frame b
                ≡ ((victim b.replacer).0, record b { replacer = (victim b.replacer).1 })))
  unfolding find_available_frame
  available_from b [] e = inr (e, ground (arith, e))
  available_from b (f ∷ rest) e = inl (f, rest, e, ground (arith, e))

  -- What a search for a frame leaves: the invariant, the pages where they were, and a frame that may
  -- be reused.
  pub record Found (b b1 : BufferPoolManager P) (r : Option ℕ) : Type 0 where
    pub valid : IsValid b1
    pub ready : (f : ℕ) → r ≡ some f → Available b1 f
    pub same_frames : b1.frames ≡ b.frames
    pub same_pages : b1.pages ≡ b.pages
    pub same_table : b1.page_table ≡ b.page_table
    pub same_disk : b1.disk ≡ b.disk

  -- The head of the free list may be reused.
  head-Available :
      (b : BufferPoolManager P) (f : ℕ) (rest : List ℕ)
      → IsValid b
      → b.free_list ≡ f ∷ rest
      → contains f rest ≡ false
      → Available (record b { free_list = rest }) f
  unfolding contains
  head-Available b f rest v e apart =
      let member : contains f b.free_list ≡ true = ground (arith, ap (contains f) e) in
      record {
        loose = inl (v.idle f member);
        taken = apart;
        kept = elim (Bool-cases (may_evict b.replacer f)) [
          | inl given ↦ ground (arith, v.resting f given, member)
          | inr kept ↦ kept
        ];
      }

  taken_from_free :
      (b : BufferPoolManager P) (f : ℕ) (rest : List ℕ)
      → IsValid b
      → b.free_list ≡ f ∷ rest
      → Found b (record b { free_list = rest }) (some f)
  unfolding contains
  taken_from_free b f rest v e =
      let apart : AreDistinct (f ∷ rest) = subst AreDistinct e v.distinct in
      let member = λ (g : ℕ). ap (contains g) e in
      record {
        valid = record {
          mapped = v.mapped;
          owned = v.owned;
          unpinned = v.unpinned;
          idle = λ g h. v.idle g (ground (arith, member g, h));
          resting = λ g h. ground (arith, member g, v.resting g h);
          distinct = apart.1;
          replacing = v.replacing;
        };
        ready = λ g h.
            let same : f ≡ g = ground (arith, h) in
            subst (Available (record b { free_list = rest })) same
              (head-Available b f rest v e apart.0);
        same_frames = refl;
        same_pages = refl;
        same_table = refl;
        same_disk = refl;
      }

  -- What the replacer gives up, the others that it may give up keep.
  still_evictable :
      (b : BufferPoolManager P) (g : ℕ)
      → IsValid b
      → may_evict (victim b.replacer).1 g ≡ true
      → may_evict b.replacer g ≡ true
  still_evictable b g v h = elim (Option-cases (victim b.replacer).0) [
    | inl none_left ↦
        ground (arith, ap (λ r. may_evict r g) (victim-none b.replacer none_left).0, h)
    | inr (f, e) ↦ ((may_evict-victim b.replacer f v.replacing e).1 g h).1
  ]

  given_up :
      (b : BufferPoolManager P)
      → IsValid b
      → Found b (record b { replacer = (victim b.replacer).1 }) (victim b.replacer).0
  given_up b v = record {
    valid = record {
      mapped = v.mapped;
      owned = v.owned;
      unpinned = λ f h. v.unpinned f (still_evictable b f v h);
      idle = v.idle;
      resting = λ f h. v.resting f (still_evictable b f v h);
      distinct = v.distinct;
      replacing = victim-IsValid b.replacer v.replacing;
    };
    ready = λ f h.
        let (was, left) = may_evict-victim b.replacer f v.replacing h in
        record {
          loose = inr (v.unpinned f was);
          taken = v.resting f was;
          kept = elim (Bool-cases (may_evict (victim b.replacer).1 f)) [
            | inl given ↦ ground (arith, (left f given).0 refl)
            | inr kept ↦ kept
          ];
        };
    same_frames = refl;
    same_pages = refl;
    same_table = refl;
    same_disk = refl;
  }

  pub find_available_frame-Found :
      (b : BufferPoolManager P)
      → IsValid b
      → Found b (find_available_frame b).1 (find_available_frame b).0
  find_available_frame-Found b v = elim (available_from b b.free_list refl) [
    | inl (f, rest, e, run) ↦ subst (λ r. Found b r.1 r.0) (sym run) (taken_from_free b f rest v e)
    | inr (e, run) ↦ subst (λ r. Found b r.1 r.0) (sym run) (given_up b v)
  ]
