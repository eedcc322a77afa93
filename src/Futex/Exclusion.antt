-- ===== src/Futex/Exclusion.antt =====
-- futex_mutex.hpp: one caller at a time is inside, and none waits for ever in the kernel.
use cpp_interview.Prelude.{
  ℕ, ◌≤◌, ◌≡◌, ◌≢◌, refl, sym, ap, ◌∙◌, Bool, true, false, Option, none, some, ◌==◌, if◌then◌else◌,
  arith, inl, inr, Bool-cases,
}
use cpp_interview.Futex.{
  Place, System, Step, Reach, move, lock_start, exchange, try_lock, unlock_start, store_zero,
}

-- Inside, or in an `unlock` that has not cleared the word.
abbrev pub is_owner : Place → Bool
is_owner Place.outside = false
is_owner Place.exchanging = false
is_owner Place.sleeping = false
is_owner Place.waiting = false
is_owner Place.holding = true
is_owner Place.storing = true
is_owner Place.waking = false

-- In a call, with an operation to come that sets the word to 2 or wakes a caller.
abbrev pub is_active : Place → Bool
is_active Place.outside = false
is_active Place.exchanging = true
is_active Place.sleeping = false
is_active Place.waiting = false
is_active Place.holding = false
is_active Place.storing = true
is_active Place.waking = true

abbrev pub is_waiting : Place → Bool
is_waiting Place.outside = false
is_waiting Place.exchanging = false
is_waiting Place.sleeping = false
is_waiting Place.waiting = true
is_waiting Place.holding = false
is_waiting Place.storing = false
is_waiting Place.waking = false

abbrev pub owns : Option ℕ → ℕ → Bool
owns none u = false
owns (some o) u = o == u

pub record IsSafe (s : System) (o : Option ℕ) : Type 0 where
  pub owned : (u : ℕ) → is_owner (s.places u) ≡ owns o u
  pub free : (s.state == 0) ≡ elim o [ none ↦ true | some u ↦ false ]
  pub small : s.state ≤ 2

-- The places of a caller after another one, or itself, has moved.
moved_owner :
    (t u : ℕ) (p : Place) (places : ℕ → Place)
    → is_owner (move t p places u) ≡ (if t == u then is_owner p else is_owner (places u))
moved_owner t u p places = ground arith

lock_start-IsSafe :
    (s : System) (t : ℕ) (o : Option ℕ)
    → IsSafe s o
    → s.places t ≡ Place.outside
    → (o1 : Option ℕ) × IsSafe (lock_start t s) o1
lock_start-IsSafe s t o h e = elim (Bool-cases (s.state == 0)) [
  | inl free ↦ (
    some t,
    record {
      owned = λ u. ground (arith, free, h.owned u, h.free, moved_owner t u Place.holding s.places);
      free = ground (arith, free);
      small = ground (arith, free);
    },
  )
  | inr taken ↦ (
    o,
    record {
      owned = λ u. ground (arith, taken, h.owned u, ap is_owner e, h.owned t);
      free = ground (arith, taken, h.free);
      small = ground (arith, taken, h.small);
    },
  )
]

try_lock-IsSafe :
    (s : System) (t : ℕ) (o : Option ℕ)
    → IsSafe s o
    → s.places t ≡ Place.outside
    → (o1 : Option ℕ) × IsSafe (try_lock t s) o1
try_lock-IsSafe s t o h e = elim (Bool-cases (s.state == 0)) [
  | inl free ↦ (
    some t,
    record {
      owned = λ u. ground (arith, free, h.owned u, h.free, moved_owner t u Place.holding s.places);
      free = ground (arith, free);
      small = ground (arith, free);
    },
  )
  | inr taken ↦ (
    o,
    record {
      owned = λ u. ground (arith, taken, h.owned u);
      free = ground (arith, taken, h.free);
      small = ground (arith, taken, h.small);
    },
  )
]

exchange-IsSafe :
    (s : System) (t : ℕ) (o : Option ℕ)
    → IsSafe s o
    → s.places t ≡ Place.exchanging
    → (o1 : Option ℕ) × IsSafe (exchange t s) o1
exchange-IsSafe s t o h e = elim (Bool-cases (s.state == 0)) [
  | inl free ↦ (
    some t,
    record {
      owned = λ u. ground (arith, free, h.owned u, h.free, moved_owner t u Place.holding s.places);
      free = refl;
      small = omega arith;
    },
  )
  | inr taken ↦ (
    o,
    record {
      owned = λ u. ground (arith, taken, h.owned u, ap is_owner e, h.owned t);
      free = ground (arith, taken, h.free);
      small = omega arith;
    },
  )
]

-- A caller that is not the owner and does not become it.
passing-IsSafe :
    (s : System) (t : ℕ) (p : Place) (o : Option ℕ)
    → IsSafe s o
    → is_owner (s.places t) ≡ false
    → is_owner p ≡ false
    → IsSafe (record s { places = move t p s.places }) o
passing-IsSafe s t p o h e f = record {
  owned = λ u. elim (Bool-cases (t == u)) [
    | inl same ↦
        let here : t ≡ u = ground (arith, same) in
        rw same (f ∙ sym e ∙ ap (λ x. is_owner (s.places x)) here ∙ h.owned u)
    | inr other ↦ rw other (h.owned u)
  ];
  free = h.free;
  small = h.small;
}

unlock_start-IsSafe :
    (s : System) (t : ℕ) (o : Option ℕ)
    → IsSafe s o
    → s.places t ≡ Place.holding
    → (o1 : Option ℕ) × IsSafe (unlock_start t s) o1
unlock_start-IsSafe s t o h e =
    let mine : owns o t ≡ true = sym (h.owned t) ∙ ap is_owner e in
    elim (Bool-cases (s.state == 1)) [
      | inl one ↦ (
        none,
        record {
          owned = λ u. ground (arith, one, h.owned u, mine);
          free = ground (arith, one);
          small = ground (arith, one);
        },
      )
      | inr two ↦
          let state : s.state ≡ 2 = ground (arith, two, h.free, h.small, mine) in
          (
            o,
            record {
              owned = λ u. ground (arith, two, h.owned u, mine);
              free = ground (arith, state, h.free);
              small = ground (arith, state);
            },
          )
    ]

store_zero-IsSafe :
    (s : System) (t : ℕ) (o : Option ℕ)
    → IsSafe s o
    → s.places t ≡ Place.storing
    → IsSafe (store_zero t s) none
store_zero-IsSafe s t o h e =
    let mine : owns o t ≡ true = sym (h.owned t) ∙ ap is_owner e in
    record { owned = λ u. ground (arith, h.owned u, mine); free = refl; small = omega arith }

Step-IsSafe :
    {s s1 : System} → Step s s1 → (o : Option ℕ) → IsSafe s o → (o1 : Option ℕ) × IsSafe s1 o1
Step-IsSafe {s} (Step.locks t e) o h = lock_start-IsSafe s t o h e
Step-IsSafe {s} (Step.tries t e) o h = try_lock-IsSafe s t o h e
Step-IsSafe {s} (Step.exchanges t e) o h = exchange-IsSafe s t o h e
Step-IsSafe {s} (Step.waits t e) o h = elim (Bool-cases (s.state == 2)) [
  | inl two ↦ (o, rw two (passing-IsSafe s t Place.waiting o h (ap is_owner e) refl))
  | inr other ↦ (o, rw other (passing-IsSafe s t Place.exchanging o h (ap is_owner e) refl))
]
Step-IsSafe {s} (Step.returns t e) o h =
    (o, passing-IsSafe s t Place.exchanging o h (ap is_owner e) refl)
Step-IsSafe {s} (Step.unlocks t e) o h = unlock_start-IsSafe s t o h e
Step-IsSafe {s} (Step.stores t e) o h = (none, store_zero-IsSafe s t o h e)
Step-IsSafe {s} (Step.wakes t u e f) o h =
    let s2 : System = record s { places = move u Place.exchanging s.places } in
    (
      o,
      passing-IsSafe s2 t Place.outside o
          (passing-IsSafe s u Place.exchanging o h (ap is_owner f) refl)
          (ground (arith, ap is_owner e)) refl,
    )
Step-IsSafe {s} (Step.wakes_none t e f) o h =
    (o, passing-IsSafe s t Place.outside o h (ap is_owner e) refl)

pub Reach-IsSafe : {s : System} → Reach s → (o : Option ℕ) × IsSafe s o
Reach-IsSafe Reach.start = (none, record { owned = λ u. refl; free = refl; small = omega arith })
Reach-IsSafe (Reach.next r step) = let (o, h) = Reach-IsSafe r in Step-IsSafe step o h

-- Whatever the callers do and in whatever order, while one of them is inside no other is.
pub mutual_exclusion :
    {s : System} (t u : ℕ)
    → Reach s
    → s.places t ≡ Place.holding
    → t ≢ u
    → s.places u ≢ Place.holding
mutual_exclusion t u r e ne f =
    let (o, h) = Reach-IsSafe r in
    ne (ground (arith, sym (h.owned t) ∙ ap is_owner e, sym (h.owned u) ∙ ap is_owner f))
