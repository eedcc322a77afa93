-- ===== src/Futex/Waiting.antt =====
-- futex_mutex.hpp: a caller that waits in the kernel is not forgotten.
use cpp_interview.Prelude.{
  ℕ, ◌≡◌, ◌≢◌, refl, ap, ◌∙◌, true, false, Option, none, some, ◌==◌, if◌then◌else◌, arith, inl, inr,
  ◌⊎◌, Bool-cases, ◌+◌, ◌%◌, ◌||◌,
}
use cpp_interview.Futex.{Place, System, Step, Reach, move, lock_start, try_lock, unlock_start}
use cpp_interview.Futex.Exclusion.{is_owner, is_active, is_waiting, IsSafe, Reach-IsSafe}

-- While a caller waits, the word is 2, or some caller is about to set it to 2 or to wake one.
abbrev IsHeard : System → Type 0
IsHeard s =
    (u : ℕ)
    → is_waiting (s.places u) ≡ true
    → (s.state ≡ 2) ⊎ ((v : ℕ) × (is_active (s.places v) ≡ true))

kept_active :
    (t v : ℕ) (p : Place) (places : ℕ → Place)
    → is_active (places t) ≡ false
    → is_active (places v) ≡ true
    → is_active (move t p places v) ≡ true
kept_active t v p places e f = elim (Bool-cases (t == v)) [
  | inl same ↦
      let here : t ≡ v = ground (arith, same) in
      absurd (ground (arith, e, f, ap (λ x. is_active (places x)) here))
  | inr other ↦ rw other f
]

before_waiting :
    (t u : ℕ) (p : Place) (places : ℕ → Place)
    → is_waiting p ≡ false
    → is_waiting (move t p places u) ≡ true
    → is_waiting (places u) ≡ true
before_waiting t u p places e h = ground (arith, e, h)

-- A step of an inactive caller that leaves the word, or finds that it is not 2.
passing-IsHeard :
    (s : System) (t word : ℕ) (p : Place)
    → IsHeard s
    → is_active (s.places t) ≡ false
    → is_waiting p ≡ false
    → ((s.state ≡ 2) → (word ≡ 2))
    → IsHeard (record { state = word; places = move t p s.places })
passing-IsHeard s t word p h e f g u w = elim (h u (before_waiting t u p s.places f w)) [
  | inl two ↦ inl (g two)
  | inr (v, active) ↦ inr (v, kept_active t v p s.places e active)
]

lock_start-IsHeard :
    (s : System) (t : ℕ) → IsHeard s → s.places t ≡ Place.outside → IsHeard (lock_start t s)
lock_start-IsHeard s t h e =
    passing-IsHeard s t (if s.state == 0 then 1 else s.state)
      (if s.state == 0
        then Place.holding
        else if s.state == 2
        then Place.sleeping
        else Place.exchanging)
      h (ap is_active e) (ground arith) (λ two. ground (arith, two))

try_lock-IsHeard :
    (s : System) (t : ℕ) → IsHeard s → s.places t ≡ Place.outside → IsHeard (try_lock t s)
try_lock-IsHeard s t h e = elim (Bool-cases (s.state == 0)) [
  | inl free ↦ rw free (
      passing-IsHeard s t 1 Place.holding h (ap is_active e) refl
        (λ two. ground (arith, two, free)))
  | inr taken ↦ rw taken h
]

unlock_start-IsHeard :
    (s : System) (t : ℕ) → IsHeard s → s.places t ≡ Place.holding → IsHeard (unlock_start t s)
unlock_start-IsHeard s t h e = elim (Bool-cases (s.state == 1)) [
  | inl one ↦ rw one (
      passing-IsHeard s t ((s.state + 4294967295) % 4294967296) Place.outside h (ap is_active e)
        refl (λ two. ground (arith, two, one)))
  | inr two ↦ λ u w. inr (t, ground (arith, two))
]

not_waiting : (p : Place) → p ≢ Place.waiting → is_waiting p ≡ false
not_waiting Place.outside h = refl
not_waiting Place.exchanging h = refl
not_waiting Place.sleeping h = refl
not_waiting Place.waiting h = absurd (h refl)
not_waiting Place.holding h = refl
not_waiting Place.storing h = refl
not_waiting Place.waking h = refl

Step-IsHeard : {s s1 : System} → Step s s1 → IsHeard s → IsHeard s1
Step-IsHeard {s} (Step.locks t e) h = lock_start-IsHeard s t h e
Step-IsHeard {s} (Step.tries t e) h = try_lock-IsHeard s t h e
Step-IsHeard {s} (Step.exchanges t e) h = λ u w. inl refl
Step-IsHeard {s} (Step.waits t e) h = elim (Bool-cases (s.state == 2)) [
  | inl two ↦ λ u w. inl (ground (arith, two))
  | inr other ↦ λ u w. inr (t, ground (arith, other))
]
Step-IsHeard {s} (Step.returns t e) h = λ u w. inr (t, ground arith)
Step-IsHeard {s} (Step.unlocks t e) h = unlock_start-IsHeard s t h e
Step-IsHeard {s} (Step.stores t e) h = λ u w. inr (t, ground arith)
Step-IsHeard {s} (Step.wakes t v e f) h = λ u w. inr (
  v,
  elim (Bool-cases (t == v)) [
    | inl same ↦
        let here : t ≡ v = ground (arith, same) in
        absurd
          (ground (arith, ap is_waiting e, ap is_waiting f, ap (λ x. is_waiting (s.places x)) here))
    | inr other ↦ ground (arith, other)
  ],
)
Step-IsHeard {s} (Step.wakes_none t e f) h = λ u w. absurd (
    ground
      (arith, not_waiting (s.places u) (f u), before_waiting t u Place.outside s.places refl w))

Reach-IsHeard : {s : System} → Reach s → IsHeard s
Reach-IsHeard Reach.start = λ u w. cc
Reach-IsHeard (Reach.next r step) = Step-IsHeard step (Reach-IsHeard r)

owner_of :
    (s : System) (o : Option ℕ)
    → IsSafe s o
    → s.state ≡ 2
    → (v : ℕ) × (is_owner (s.places v) ≡ true)
owner_of s none h e = absurd (ground (arith, h.free, e))
owner_of s (some v) h e = (v, h.owned v ∙ ground arith)

-- While a caller waits in the kernel, whatever the callers have done, some caller holds the mutex or
-- is within a call with an operation to come that clears the word, sets it to 2 or wakes a caller.
pub waiting_heard :
    {s : System} (u : ℕ)
    → Reach s
    → s.places u ≡ Place.waiting
    → (v : ℕ) × ((is_owner (s.places v) || is_active (s.places v)) ≡ true)
waiting_heard {s} u r e = elim (Reach-IsHeard r u (ap is_waiting e)) [
  | inr (v, active) ↦ (v, ground (arith, active))
  | inl two ↦
      let (o, h) = Reach-IsSafe r in
      let (v, owner) = owner_of s o h two in (v, ground (arith, owner))
]
