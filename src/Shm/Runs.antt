-- ===== src/Shm/Runs.antt =====
-- What the two rings share: any sequence of calls, against a list of bounded length.
use cpp_interview.Prelude.{
  ℕ, ◌+◌, ◌*◌, ◌≤◌, ◌^◌, ◌<◌, ◌≡◌, refl, ap, Bool, true, false, Option, none, some, List, [], ◌∷◌,
  ◌++◌, leb, if◌then◌else◌, length, arith,
}
use cpp_interview.Prelude.Bits.{pow-pos}
use cpp_interview.Prelude.Words.{sub64, pow_small}
use cpp_interview.Shm.Ring.{Ring, Represents, header_size}

-- The calls of the two sides, in the order in which they take effect, and their answers.
pub data Call (E : Type 0) : Type 0 where
  publishes : E → Call E
  consumes : Call E

pub data Answer (M : Type 0) : Type 0 where
  published : Bool → Answer M
  consumed : Option M → Answer M

module _ {M : Type 0} where
  abbrev pub publish_spec : ℕ → M → List M → Bool × List M
  publish_spec capacity x xs =
      if leb capacity (length xs) then (false, xs) else (true, xs ++ (x ∷ []))

  abbrev pub consume_spec : List M → Option M × List M
  consume_spec [] = (none, [])
  consume_spec (x ∷ xs) = (some x, xs)

  unfoldable pub run_spec : {E : Type 0} → (E → M) → ℕ → List (Call E) → List M → List (Answer M)
  run_spec item capacity [] xs = []
  run_spec item capacity (publishes e ∷ calls) xs =
      published (publish_spec capacity (item e) xs).0
      ∷ run_spec item capacity calls (publish_spec capacity (item e) xs).1
  run_spec item capacity (consumes ∷ calls) xs =
      consumed (consume_spec xs).0 ∷ run_spec item capacity calls (consume_spec xs).1

module _ {A M : Type 0} (view : A → M) where
  abbrev pub seen : Option A → Option M
  seen none = none
  seen (some a) = some (view a)

  -- A ring whose header was just set holds nothing.
  pub empty-Represents :
      (k bytes : ℕ) (slots : ℕ → A)
      → k < 64
      → Represents view k
          (record {
            write_index = 0;
            read_index = 0;
            capacity = 2 ^ k;
            mask = sub64 (2 ^ k) 1;
            slots = slots;
            bytes = bytes;
          })
          []
  empty-Represents k bytes slots small = record {
    small = small;
    capacity = refl;
    mask = omega (arith, pow_small k small, pow-pos k);
    reads = omega arith;
    writes = refl;
    bounded = omega arith;
    items = tt;
  }

-- An answer before the others, if the others came.
abbrev pub add : {M : Type 0} → Answer M → Option (List (Answer M)) → Option (List (Answer M))
add a none = none
add a (some answers) = some (a ∷ answers)

module _ {A E M : Type 0} (view : A → M) where
  -- The calls, where the publisher reaches the first `ahead` bytes of the object and the consumer the
  -- first `behind`. There is no result where a call goes beyond them.
  unfoldable pub run :
      (ℕ → Ring A → E → Option (Bool × Ring A))
      → (ℕ → Ring A → Option (Option A × Ring A))
      → ℕ
      → ℕ
      → List (Call E)
      → Ring A
      → Option (List (Answer M))
  run publish consume ahead behind [] r = some []
  run publish consume ahead behind (publishes e ∷ calls) r = elim (publish ahead r e) [
    | none ↦ none
    | some o ↦ add (published o.0) (run publish consume ahead behind calls o.1)
  ]
  run publish consume ahead behind (consumes ∷ calls) r = elim (consume behind r) [
    | none ↦ none
    | some o ↦ add (consumed (seen view o.0)) (run publish consume ahead behind calls o.1)
  ]

  -- Two operations that do on a ring what the queue does on the list of its items, where they reach all
  -- of its slots, which have `width` bytes.
  pub record AreFifo (width : ℕ) (item : E → M) (publish : ℕ → Ring A → E → Option (Bool × Ring A))
      (consume : ℕ → Ring A → Option (Option A × Ring A)) : Type 0 where
    pub publish_lem :
        (reach k : ℕ) (r : Ring A) (xs : List M) (e : E)
        → header_size + 2 ^ k * width ≤ reach
        → Represents view k r xs
        → (r1 : Ring A) × (publish reach r e ≡ some ((publish_spec (2 ^ k) (item e) xs).0, r1))
          × Represents view k r1 (publish_spec (2 ^ k) (item e) xs).1
    pub consume_lem :
        (reach k : ℕ) (r : Ring A) (xs : List M)
        → header_size + 2 ^ k * width ≤ reach
        → Represents view k r xs
        → (a : Option A) × (r1 : Ring A) × (consume reach r ≡ some (a, r1))
          × (seen view a ≡ (consume_spec xs).0)
          × Represents view k r1 (consume_spec xs).1

  pub run_lem :
      (width : ℕ) (item : E → M) (publish : ℕ → Ring A → E → Option (Bool × Ring A))
      (consume : ℕ → Ring A → Option (Option A × Ring A))
      → AreFifo width item publish consume
      → (ahead behind k : ℕ) (calls : List (Call E)) (r : Ring A) (xs : List M)
      → header_size + 2 ^ k * width ≤ ahead
      → header_size + 2 ^ k * width ≤ behind
      → Represents view k r xs
      → run publish consume ahead behind calls r ≡ some (run_spec item (2 ^ k) calls xs)
  unfolding run run_spec
  run_lem width item publish consume f ahead behind k [] r xs a b h = refl
  run_lem width item publish consume f ahead behind k (publishes e ∷ calls) r xs a b h =
      let (r1, same, h1) = f.publish_lem ahead k r xs e a h in
      rw (run, same)
        (ap (add (published (publish_spec (2 ^ k) (item e) xs).0)) (
          run_lem width item publish consume f ahead behind k calls r1
            (publish_spec (2 ^ k) (item e) xs).1 a b h1))
  run_lem width item publish consume f ahead behind k (consumes ∷ calls) r xs a b h =
      let (o, r1, same, sees, h1) = f.consume_lem behind k r xs b h in
      rw (run, same, sees)
        (ap (add (consumed (consume_spec xs).0))
          (run_lem width item publish consume f ahead behind k calls r1 (consume_spec xs).1 a b h1))
