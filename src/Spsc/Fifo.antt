-- ===== src/Spsc/Fifo.antt =====
-- spsc_queue.hpp: the ring and its four counters are a bounded first-in first-out queue.
use Prim.Native.Nat.{bit_and}
use cpp_interview.Prelude.{
  ℕ, ◌+◌, ◌-◌, ◌%◌, ◌^◌, ◌≤◌, ◌<◌, ◌≡◌, refl, sym, ap, ◌∙◌, ◌≢◌, inl, inr, Bool, true, false,
  Option, none, some, List, [], ◌∷◌, ◌++◌, ◌==◌, ltb, leb, if◌then◌else◌, length, length-append,
  arith, Bool-cases,
}
use cpp_interview.Prelude.Bits.{bit_and_mask, mod_apart, mod_word, mod_shift}
use cpp_interview.Prelude.Words.{sub64, next64, pow_small}
use cpp_interview.Spsc.{
  SpscQueue, new_queue, store_slot, refresh_head, refresh_tail, push, pop, empty, size,
}

module _ {A : Type 0} where
  -- The items stand in the slots of the positions from `h` on.
  abbrev pub Holds : ℕ → (ℕ → Option A) → ℕ → List A → Type 0
  Holds c storage h [] = Unit {0}
  Holds c storage h (x ∷ xs) = (storage (h % c) ≡ some x) × Holds c storage (h + 1) xs

  -- The queue with capacity `2 ^ k` holds these items. Its counters may have wrapped around, and
  -- those that a side has seen last are at most a capacity behind.
  pub record Represents (k : ℕ) (q : SpscQueue A) (xs : List A) : Type 0 where
    pub small : k < 64
    pub head_word : q.head < 2 ^ 64
    pub tail_word : q.tail ≡ (q.head + length xs) % 2 ^ 64
    pub bounded : length xs ≤ 2 ^ k
    pub head_seen : sub64 q.head q.cached_head + length xs ≤ 2 ^ k
    pub head_seen_word : q.cached_head < 2 ^ 64
    pub tail_seen : sub64 q.cached_tail q.head ≤ length xs
    pub tail_seen_word : q.cached_tail < 2 ^ 64
    pub items : Holds (2 ^ k) q.storage q.head xs

  -- A store at a position that is not among those of the items keeps them.
  Holds-store_slot :
      (c p : ℕ) (a : Option A) (storage : ℕ → Option A) (h : ℕ) (xs : List A)
      → ((j : ℕ) → h ≤ j → j < h + length xs → p ≢ j % c)
      → Holds c storage h xs
      → Holds c (store_slot storage p a) h xs
  Holds-store_slot c p a storage h [] apart held = tt
  Holds-store_slot c p a storage h (x ∷ xs) apart held = (
    ground (arith, apart h (omega arith) (omega arith), held.0),
    Holds-store_slot c p a storage (h + 1) xs (λ j l u. apart j (omega arith) (omega arith)) held.1,
  )

  Holds-append :
      (c : ℕ) (storage : ℕ → Option A) (h : ℕ) (x : A) (xs : List A)
      → Holds c storage h xs
      → storage ((h + length xs) % c) ≡ some x
      → Holds c storage h (xs ++ (x ∷ []))
  Holds-append c storage h x [] held last = (ground (arith, last), tt)
  Holds-append c storage h x (y ∷ xs) held last = (
    held.0,
    Holds-append c storage (h + 1) x xs held.1 (ap (λ n. storage (n % c)) (omega arith) ∙ last),
  )

  -- Positions count only by their remainder.
  Holds-shift :
      (c : ℕ) (storage : ℕ → Option A) (h g : ℕ) (xs : List A)
      → h % c ≡ g % c
      → Holds c storage h xs
      → Holds c storage g xs
  Holds-shift c storage h g [] e held = tt
  Holds-shift c storage h g (x ∷ xs) e held = (
    ap storage (sym e) ∙ held.0,
    Holds-shift c storage (h + 1) (g + 1) xs (mod_shift c h g 1 e) held.1,
  )

  -- A look at the other side's counter changes neither the items nor the bounds.
  refresh_head-Represents :
      (k : ℕ) (q : SpscQueue A) (xs : List A)
      → Represents k q xs
      → Represents k (refresh_head (2 ^ k) q) xs
  unfolding refresh_head
  refresh_head-Represents k q xs r = elim (Bool-cases (leb (2 ^ k) (sub64 q.tail q.cached_head))) [
    | inl e ↦
        rw (refresh_head, e)
          (record {
            small = r.small;
            head_word = r.head_word;
            tail_word = r.tail_word;
            bounded = r.bounded;
            head_seen = omega (arith, r.bounded, r.head_word);
            head_seen_word = r.head_word;
            tail_seen = r.tail_seen;
            tail_seen_word = r.tail_seen_word;
            items = r.items;
          })
    | inr e ↦ rw (refresh_head, e) r
  ]

  refresh_tail-Represents :
      (k : ℕ) (q : SpscQueue A) (xs : List A) → Represents k q xs → Represents k (refresh_tail q) xs
  unfolding refresh_tail
  refresh_tail-Represents k q xs r = elim (Bool-cases (q.head == q.cached_tail)) [
    | inl e ↦
        rw (refresh_tail, e)
          (record {
            small = r.small;
            head_word = r.head_word;
            tail_word = r.tail_word;
            bounded = r.bounded;
            head_seen = r.head_seen;
            head_seen_word = r.head_seen_word;
            tail_seen = omega (arith, r.tail_word, r.head_word, r.bounded, pow_small k r.small);
            tail_seen_word = omega (arith, r.tail_word);
            items = r.items;
          })
    | inr e ↦ rw (refresh_tail, e) r
  ]

  -- After the look, the tests say whether the queue is full, and whether it is empty.
  full_test :
      (k : ℕ) (q : SpscQueue A) (xs : List A)
      → Represents k q xs
      → let q1 = refresh_head (2 ^ k) q in
        leb (2 ^ k) (sub64 q1.tail q1.cached_head) ≡ leb (2 ^ k) (length xs)
  unfolding refresh_head
  full_test k q xs r = ground (
    arith,
    r.tail_word,
    r.head_word,
    r.head_seen,
    r.head_seen_word,
    r.bounded,
    pow_small k r.small,
  )

  empty_test :
      (k : ℕ) (q : SpscQueue A) (xs : List A)
      → Represents k q xs
      → let q1 = refresh_tail q in (q1.head == q1.cached_tail) ≡ (length xs == 0)
  unfolding refresh_tail
  empty_test k q xs r = ground (
    arith,
    r.tail_word,
    r.head_word,
    r.tail_seen,
    r.tail_seen_word,
    r.bounded,
    pow_small k r.small,
  )

  -- A new item goes behind the others.
  stored-Represents :
      (k : ℕ) (q : SpscQueue A) (xs : List A) (x : A)
      → Represents k q xs
      → length xs < 2 ^ k
      → sub64 q.tail q.cached_head < 2 ^ k
      → Represents k
          (record q {
            storage = store_slot q.storage (bit_and q.tail (2 ^ k - 1)) (some x);
            tail = next64 q.tail;
          })
          (xs ++ (x ∷ []))
  stored-Represents k q xs x r room seen =
      let p = q.head + length xs in
      let at : bit_and q.tail (2 ^ k - 1) ≡ p % 2 ^ k =
        bit_and_mask k q.tail
        ∙ ap (λ n. n % 2 ^ k) r.tail_word
        ∙ mod_word k p (omega (arith, r.small)) in
      rw at (record {
        small = r.small;
        head_word = r.head_word;
        tail_word = omega (arith, r.tail_word, length-append xs (x ∷ []));
        bounded = omega (arith, length-append xs (x ∷ []));
        head_seen = omega (
          arith,
          seen,
          r.tail_word,
          r.head_word,
          r.head_seen_word,
          r.head_seen,
          pow_small k r.small,
          length-append xs (x ∷ []),
        );
        head_seen_word = r.head_seen_word;
        tail_seen = omega (arith, r.tail_seen, length-append xs (x ∷ []));
        tail_seen_word = r.tail_seen_word;
        items =
            Holds-append (2 ^ k) (store_slot q.storage (p % 2 ^ k) (some x)) q.head x xs
              (Holds-store_slot (2 ^ k) (p % 2 ^ k) (some x) q.storage q.head xs
                (λ j l u e. mod_apart (2 ^ k) j p (omega arith) (omega arith) (sym e)) r.items)
              (ground arith);
      })

  -- Taking the first item leaves the others.
  taken-Represents :
      (k : ℕ) (q : SpscQueue A) (x : A) (xs : List A)
      → Represents k q (x ∷ xs)
      → q.head ≢ q.cached_tail
      → Represents k
          (record q {
            storage = store_slot q.storage (bit_and q.head (2 ^ k - 1)) none;
            head = next64 q.head;
          })
          xs
  taken-Represents k q x xs r more = rw (bit_and_mask k q.head) (record {
    small = r.small;
    head_word = omega arith;
    tail_word = omega (arith, r.tail_word);
    bounded = omega (arith, r.bounded);
    head_seen = omega (arith, r.head_seen, r.head_seen_word, r.head_word, pow_small k r.small);
    head_seen_word = r.head_seen_word;
    tail_seen = omega (arith, r.tail_seen, r.tail_seen_word, r.head_word, more);
    tail_seen_word = r.tail_seen_word;
    items =
        Holds-shift (2 ^ k) (store_slot q.storage (q.head % 2 ^ k) none) (q.head + 1)
          (next64 q.head) xs (sym (mod_word k (q.head + 1) (omega (arith, r.small))))
          (Holds-store_slot (2 ^ k) (q.head % 2 ^ k) none q.storage (q.head + 1) xs
            (λ j l u. mod_apart (2 ^ k) q.head j (omega arith) (omega (arith, r.bounded)))
            r.items.1);
  })

  -- What a queue of bounded size does.
  abbrev pub push_spec : ℕ → A → List A → Bool × List A
  push_spec capacity x xs = if leb capacity (length xs) then (false, xs) else (true, xs ++ (x ∷ []))

  abbrev pub pop_spec : List A → Option A × List A
  pop_spec [] = (none, [])
  pop_spec (x ∷ xs) = (some x, xs)

  -- In a queue of capacity `2 ^ k` with these items, a push puts the item behind the others, or refuses it and changes no item if the queue is full.
  pub push-Represents :
      (k : ℕ) (q : SpscQueue A) (xs : List A) (x : A)
      → Represents k q xs
      → ((push (2 ^ k) q x).0 ≡ (push_spec (2 ^ k) x xs).0)
        × Represents k (push (2 ^ k) q x).1 (push_spec (2 ^ k) x xs).1
  unfolding push
  push-Represents k q xs x r =
      let q1 = refresh_head (2 ^ k) q in
      let r1 = refresh_head-Represents k q xs r in
      let test = full_test k q xs r in
      elim (Bool-cases (leb (2 ^ k) (length xs))) [
        | inl e ↦ rw (push, test, e) (refl, r1)
        | inr e ↦
            rw (push, test, e)
              (refl, stored-Represents k q1 xs x r1 (ground (arith, e)) (ground (arith, e, test)))
      ]

  -- In a queue of capacity `2 ^ k` with these items, a pop takes the first one, or refuses if there is none.
  pub pop-Represents :
      (k : ℕ) (q : SpscQueue A) (xs : List A)
      → Represents k q xs
      → ((pop (2 ^ k) q).0 ≡ (pop_spec xs).0) × Represents k (pop (2 ^ k) q).1 (pop_spec xs).1
  unfolding pop
  pop-Represents k q [] r = rw (pop, empty_test k q [] r) (refl, refresh_tail-Represents k q [] r)
  pop-Represents k q (x ∷ xs) r =
      let q1 = refresh_tail q in
      let r1 = refresh_tail-Represents k q (x ∷ xs) r in
      let test : (q1.head == q1.cached_tail) ≡ false = empty_test k q (x ∷ xs) r ∙ ground arith in
      rw (pop, test)
        (
          ap q1.storage (bit_and_mask k q1.head) ∙ r1.items.0,
          taken-Represents k q1 x xs r1 (ground (arith, test)),
        )

  pub new_queue-Represents : (k : ℕ) → k < 64 → Represents k new_queue []
  new_queue-Represents k small = record {
    small = small;
    head_word = omega arith;
    tail_word = refl;
    bounded = omega arith;
    head_seen = omega arith;
    head_seen_word = omega arith;
    tail_seen = omega arith;
    tail_seen_word = omega arith;
    items = tt;
  }

  -- The queue is empty when there are no items, and `size` is their number unless the tail has
  -- wrapped around and the head has not; then it is 0.
  pub size-Represents :
      (k : ℕ) (q : SpscQueue A) (xs : List A)
      → Represents k q xs
      → (size q ≡ (if ltb (q.head + length xs) (2 ^ 64) then length xs else 0))
        × (empty q ≡ (length xs == 0))
  unfolding size empty
  size-Represents k q xs r = (
    ground (arith, r.tail_word, r.head_word, r.bounded, pow_small k r.small),
    ground (arith, r.tail_word, r.head_word, r.bounded, pow_small k r.small),
  )
