-- ===== src/Pool/Replacer/Evict.antt =====
-- lru_k_replacer.hpp: which frames the replacer may give up, after each call.
use cpp_interview.Prelude.{
  ℕ, ◌+◌, ◌≡◌, ap, ◌≢◌, Bool, true, false, none, some, arith, ◌==◌, if◌then◌else◌, Option-cases,
  inl, inr,
}
use cpp_interview.Prelude.Dict.{find, find-assign, find-erase}
use cpp_interview.Pool.Replacer.{
  LruKReplacer, FrameNode, record_access, set_evictable, victim, push_history, node_at,
}
use cpp_interview.Pool.Replacer.Victim.{IsValid, victim_lem, victim-some}

abbrev pub may_evict : LruKReplacer → ℕ → Bool
may_evict r f = elim (find f r.entries) [ none ↦ false | some node ↦ node.is_evictable ]

may_evict-record_access :
    (r : LruKReplacer) (f g : ℕ) → may_evict (record_access r f) g ≡ may_evict r g
unfolding record_access
may_evict-record_access r f g =
    let node = node_at f r.entries in
    let node' : FrameNode = record node {
      history = push_history r.k (r.current_timestamp + 1) node.history;
    } in
    ground (arith, find-assign f g node' r.entries)

pub may_evict-set_evictable :
    (r : LruKReplacer) (f g : ℕ) (b : Bool)
    → may_evict (set_evictable r f b) g ≡ true
    → (f ≡ g → b ≡ true) × (f ≢ g → may_evict r g ≡ true)
unfolding set_evictable
may_evict-set_evictable r f g b h = elim (Option-cases (find f r.entries)) [
  | inl e ↦ (λ same. ground (arith, e), λ other. ground (arith, e))
  | inr (node, e) ↦
      let node' : FrameNode = record node { is_evictable = b } in
      (
        λ same. ground (arith, e, find-assign f g node' r.entries),
        λ other. ground (arith, e, find-assign f g node' r.entries),
      )
]

-- Recording an access and pinning the frame takes it from the evictable ones.
pub may_evict-pin :
    (r : LruKReplacer) (f g : ℕ)
    → may_evict (set_evictable (record_access r f) f false) g ≡ true
    → (f ≢ g) × (may_evict r g ≡ true)
may_evict-pin r f g h =
    let (same, other) = may_evict-set_evictable (record_access r f) f g false h in
    let ne : f ≢ g = λ e. cc (same e) in
    (ne, ground (arith, other ne, may_evict-record_access r f g))

pub may_evict-victim :
    (r : LruKReplacer) (f : ℕ)
    → IsValid r
    → (victim r).0 ≡ some f
    → (may_evict r f ≡ true)
      × ((g : ℕ) → may_evict (victim r).1 g ≡ true → (f ≢ g) × (may_evict r g ≡ true))
may_evict-victim r f v h =
    let (node, e, ev, _, _) = victim_lem r f v h in
    let (_, _, left, _, _) = victim-some r f h in
    (
      ground (arith, e, ev),
      λ g m.
          let same : may_evict (victim r).1 g ≡ (if f == g then false else may_evict r g) =
            ground (arith, ap (find g) left, find-erase f g r.entries) in
          (ground (arith, same), ground (arith, same)),
    )
