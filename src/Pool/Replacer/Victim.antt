-- ===== src/Pool/Replacer/Victim.antt =====
-- lru_k_replacer.hpp, `victim`: which frame it gives up.
use cpp_interview.Prelude.{
  ℕ, ◌+◌, ◌-◌, ◌≤◌, ◌<◌, ◌≡◌, refl, ◌⊎◌, inl, inr, Bool, true, false, Option, none, some, [], ◌∷◌,
  arith, ◌==◌, if◌then◌else◌, length, Bool-cases, Option-cases, ◌≢◌, subst, sym,
}
use cpp_interview.Prelude.Dict.{
  Dict, find, assign, erase, find-erase, IsKeyed, assign-IsKeyed, erase-IsKeyed,
}
use cpp_interview.Pool.Replacer.{
  FrameNode, LruKReplacer, Scan, start_scan, front, visit, scan, victim, record_access,
  set_evictable, remove, node_at, new_replacer, push_history,
}

-- The scan prefers its choice to the entry, or the entry may not be evicted: an entry with fewer
-- than `k` accesses yields only to one with an earlier first access, another also to a frame with a
-- larger distance back to its oldest kept access.
abbrev pub Beaten : ℕ → ℕ → Scan → FrameNode → Type 0
Beaten k now s node =
    (node.is_evictable ≡ false)
    ⊎ ((length node.history < k)
        × (s.found_inf ≡ true)
        × (s.earliest ≤ front node)
        × (s.found_any ≡ true))
    ⊎ ((k ≤ length node.history)
        × (s.found_any ≡ true)
        × ((s.found_inf ≡ true) ⊎ (now - front node ≤ s.max_k_distance)))

-- An entry with no full history has been found only if some entry has.
abbrev InfAny : Scan → Type 0
InfAny s = s.found_inf ≡ true → s.found_any ≡ true

visit-InfAny :
    (k now f : ℕ) (node : FrameNode) (s : Scan) → InfAny s → InfAny (visit k now (f, node) s)
unfolding visit
visit-InfAny k now f node s h e = ground (arith, h)

visit-Beaten :
    (k now f : ℕ) (node : FrameNode) (s : Scan)
    → InfAny s
    → Beaten k now (visit k now (f, node) s) node
unfolding visit
visit-Beaten k now f node s h = ground (arith, h)

visit_mono :
    (k now f : ℕ) (node other : FrameNode) (s : Scan)
    → InfAny s
    → Beaten k now s other
    → Beaten k now (visit k now (f, node) s) other
unfolding visit
visit_mono k now f node other s h b = ground (arith, h, b)

scan_mono :
    (k now : ℕ) (m : Dict FrameNode) (other : FrameNode) (s : Scan)
    → InfAny s
    → Beaten k now s other
    → Beaten k now (scan k now m s) other
unfolding scan
scan_mono k now [] other s h b = b
scan_mono k now ((f, node) ∷ m) other s h b =
    scan_mono k now m other (visit k now (f, node) s) (visit-InfAny k now f node s h)
      (visit_mono k now f node other s h b)

scan-Beaten :
    (k now : ℕ) (m : Dict FrameNode) (s : Scan) (j : ℕ) (other : FrameNode)
    → InfAny s
    → find j m ≡ some other
    → Beaten k now (scan k now m s) other
unfolding scan find
scan-Beaten k now [] s j other h e = cc
scan-Beaten k now ((f, node) ∷ m) s j other h e =
    let h' = visit-InfAny k now f node s h in
    elim (Bool-cases (f == j)) [
      | inl hit ↦ scan_mono k now m other (visit k now (f, node) s) h' (
          subst (Beaten k now (visit k now (f, node) s)) (ground arith)
            (visit-Beaten k now f node s h))
      | inr miss ↦ scan-Beaten k now m (visit k now (f, node) s) j other h' (ground arith)
    ]

-- The choice is this node, and its values are those that the scan has kept.
abbrev Chosen : ℕ → ℕ → Scan → FrameNode → Type 0
Chosen k now s node =
    (node.is_evictable ≡ true)
    × (((s.found_inf ≡ true) × (length node.history < k) × (s.earliest ≡ front node))
        ⊎ ((s.found_inf ≡ false)
            × (k ≤ length node.history)
            × (s.max_k_distance ≡ now - front node)))

visit-Chosen :
    (k now f : ℕ) (node : FrameNode) (s : Scan)
    → (visit k now (f, node) s ≡ s)
      ⊎ (((visit k now (f, node) s).victim_id ≡ f) × Chosen k now (visit k now (f, node) s) node)
unfolding visit
visit-Chosen k now f node s = ground arith

scan-Chosen :
    (k now : ℕ) (m : Dict FrameNode) (s : Scan)
    → IsKeyed m
    → let s' = scan k now m s in
      (s' ≡ s) ⊎ ((node : FrameNode) × (find s'.victim_id m ≡ some node) × Chosen k now s' node)
unfolding scan find
scan-Chosen k now [] s h = inl refl
scan-Chosen k now ((f, node) ∷ m) s h = elim (scan-Chosen k now m (visit k now (f, node) s) h.1) [
  | inl same ↦ rw same (elim (visit-Chosen k now f node s) [
    | inl e ↦ inl e
    | inr (v, c) ↦ inr (node, ground (arith, v), c)
  ])
  | inr (n, e, c) ↦ inr (n, ground (arith, h.0, e), c)
]

pub count_evictable : Dict FrameNode → ℕ
count_evictable [] = 0
count_evictable ((f, node) ∷ m) = (if node.is_evictable then 1 else 0) + count_evictable m

-- The invariant: one entry for a frame, and `curr_size` counts the evictable ones.
pub record IsValid (r : LruKReplacer) : Type 0 where
  pub keyed : IsKeyed r.entries
  pub counted : r.curr_size ≡ count_evictable r.entries

abbrev weight : Option FrameNode → ℕ
weight none = 0
weight (some node) = if node.is_evictable then 1 else 0

count_evictable-assign :
    (f : ℕ) (node : FrameNode) (m : Dict FrameNode)
    → count_evictable (assign f node m) + weight (find f m) ≡ count_evictable m + weight (some node)
unfolding count_evictable assign find
count_evictable-assign f node [] = ground arith
count_evictable-assign f node ((j, w) ∷ m) = ground (arith, count_evictable-assign f node m)

erase_absent : (f : ℕ) (m : Dict FrameNode) → find f m ≡ none → erase f m ≡ m
unfolding find erase
erase_absent f [] h = refl
erase_absent f ((j, w) ∷ m) h = ground (arith, erase_absent f m)

count_evictable-erase :
    (f : ℕ) (m : Dict FrameNode)
    → IsKeyed m
    → count_evictable (erase f m) + weight (find f m) ≡ count_evictable m
unfolding count_evictable erase find
count_evictable-erase f [] h = refl
count_evictable-erase f ((j, w) ∷ m) h =
    ground (arith, count_evictable-erase f m h.1, erase_absent f m, h.0)

pub new_replacer-IsValid : (k : ℕ) → IsValid (new_replacer k)
unfolding count_evictable
new_replacer-IsValid k = record { keyed = tt; counted = refl }

pub record_access-IsValid : (r : LruKReplacer) (f : ℕ) → IsValid r → IsValid (record_access r f)
unfolding record_access
record_access-IsValid r f v =
    let node = node_at f r.entries in
    let node' : FrameNode = record node {
      history = push_history r.k (r.current_timestamp + 1) node.history;
    } in
    record {
      keyed = assign-IsKeyed f node' r.entries v.keyed;
      counted = ground (arith, v.counted, count_evictable-assign f node' r.entries);
    }

pub set_evictable-IsValid :
    (r : LruKReplacer) (f : ℕ) (b : Bool) → IsValid r → IsValid (set_evictable r f b)
unfolding set_evictable
set_evictable-IsValid r f b v = elim (Option-cases (find f r.entries)) [
  | inl e ↦ rw (e, set_evictable) v
  | inr (node, e) ↦
      let node' : FrameNode = record node { is_evictable = b } in
      ground (
        arith,
        e,
        v,
        assign-IsKeyed f node' r.entries v.keyed,
        count_evictable-assign f node' r.entries,
      )
]

pub remove-IsValid : (r : LruKReplacer) (f : ℕ) → IsValid r → IsValid (remove r f)
unfolding remove
remove-IsValid r f v = elim (Option-cases (find f r.entries)) [
  | inl e ↦ rw (e, remove) v
  | inr (node, e) ↦
      ground
        (arith, e, v, erase-IsKeyed f r.entries v.keyed, count_evictable-erase f r.entries v.keyed)
]

-- The LRU-K order: a frame with fewer than `k` accesses goes before one with `k`, of two such frames
-- the one with the earlier first access, and of two others the one with the longer distance.
abbrev pub Before : LruKReplacer → FrameNode → FrameNode → Type 0
Before r a b =
    ((length a.history < r.k) × ((length b.history < r.k) → front a ≤ front b))
    ⊎ ((r.k ≤ length a.history)
        × (r.k ≤ length b.history)
        × (r.current_timestamp - front b ≤ r.current_timestamp - front a))

pub victim-some :
    (r : LruKReplacer) (f : ℕ)
    → (victim r).0 ≡ some f
    → let s = scan r.k r.current_timestamp r.entries start_scan in
      (s.victim_id ≡ f)
      × (s.found_any ≡ true)
      × ((victim r).1.entries ≡ erase f r.entries)
      × (r.curr_size ≢ 0)
      × ((victim r).1.curr_size ≡ r.curr_size - 1)
unfolding victim
victim-some r f h = ground arith

-- The frame that `victim` of a valid replacer gives up is evictable and leaves the replacer, and it comes before every
-- evictable frame in the LRU-K order.
pub victim_lem :
    (r : LruKReplacer) (f : ℕ)
    → IsValid r
    → (victim r).0 ≡ some f
    → (node : FrameNode) × (find f r.entries ≡ some node)
      × (node.is_evictable ≡ true)
      × (find f (victim r).1.entries ≡ none)
      × ((j : ℕ) (other : FrameNode)
          → find j r.entries ≡ some other
          → other.is_evictable ≡ true
          → Before r node other)
victim_lem r f v h =
    let s = scan r.k r.current_timestamp r.entries start_scan in
    let (at_f, any, left, _, _) = victim-some r f h in
    elim (scan-Chosen r.k r.current_timestamp r.entries start_scan v.keyed) [
      | inl same ↦ cc
      | inr (node, e, c) ↦ (
        node,
        ground (arith, at_f, e),
        c.0,
        ground (arith, left, find-erase f f r.entries),
        λ j other o ev. ground (
          arith,
          c,
          any,
          ev,
          scan-Beaten r.k r.current_timestamp r.entries start_scan j other (λ e. cc) o,
        ),
      )
    ]

pub victim-none :
    (r : LruKReplacer)
    → (victim r).0 ≡ none
    → ((victim r).1 ≡ r)
      × ((r.curr_size ≡ 0)
          ⊎ ((scan r.k r.current_timestamp r.entries start_scan).found_any ≡ false))
unfolding victim
victim-none r h = ground arith

pub victim-IsValid : (r : LruKReplacer) → IsValid r → IsValid (victim r).1
victim-IsValid r v = elim (Option-cases (victim r).0) [
  | inl e ↦ subst IsValid (sym (victim-none r e).0) v
  | inr (f, h) ↦
      let (node, e, ev, _, _) = victim_lem r f v h in
      let (_, _, left, _, size) = victim-some r f h in
      record {
        keyed = rw left (erase-IsKeyed f r.entries v.keyed);
        counted =
            ground (arith, left, size, v.counted, e, ev, count_evictable-erase f r.entries v.keyed);
      }
]

-- `victim` of a valid replacer refuses only when no frame is evictable.
pub victim-none_lem :
    (r : LruKReplacer) (j : ℕ) (node : FrameNode)
    → IsValid r
    → (victim r).0 ≡ none
    → find j r.entries ≡ some node
    → node.is_evictable ≡ false
victim-none_lem r j node v h e = ground (
  arith,
  v.counted,
  e,
  victim-none r h,
  count_evictable-erase j r.entries v.keyed,
  scan-Beaten r.k r.current_timestamp r.entries start_scan j node (λ e. cc) e,
)
