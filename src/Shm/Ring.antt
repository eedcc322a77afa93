-- ===== src/Shm/Ring.antt =====
-- What the two rings share: the header, 64-bit counters, and their reading as a list of items.
use Prim.Native.Nat.{bit_and}
use native.Mathlib.Nat.{mod-lt, mul-le-mul_right}
use cpp_interview.Prelude.{
  Bool, true, ℕ, ◌+◌, ◌-◌, ◌*◌, ◌%◌, ◌^◌, ◌≤◌, ◌<◌, ◌≡◌, sym, ap, ◌∙◌, ◌≢◌, List, [], ◌∷◌, ◌++◌,
  ◌==◌, leb, if◌then◌else◌, length, length-append, arith,
}
use cpp_interview.Prelude.Words.{sub64, next64, pow_small}
use cpp_interview.Prelude.Bits.{pow-pos, bit_and_mask, mod_apart, mod_word, mod_shift}

-- The bytes of the header.
abbrev pub header_size : ℕ
header_size = 128

-- The header of a ring and its slots, and the length in bytes of the shared object that they are in.
pub record Ring (A : Type 0) : Type 0 where
  pub write_index : ℕ
  pub read_index : ℕ
  pub capacity : ℕ
  pub mask : ℕ
  pub slots : ℕ → A
  pub bytes : ℕ

-- Whether slot `i`, of `width` bytes, lies in the first `reach` bytes.
abbrev pub is_inside : ℕ → ℕ → ℕ → Bool
is_inside width reach i = leb (header_size + (i + 1) * width) reach

pub is_inside_lem :
    (width reach c i : ℕ) → header_size + c * width ≤ reach → i < c → is_inside width reach i ≡ true
is_inside_lem width reach c i h lt =
    ground (arith, h, mul-le-mul_right {m = i + 1} {n = c} width (omega (arith, lt)))

module _ {A : Type 0} where
  abbrev pub set_slot : (ℕ → A) → ℕ → A → ℕ → A
  set_slot slots i a j = if i == j then a else slots j

module _ {A M : Type 0} (view : A → M) where
  -- The items, as `view` reads them, stand in the slots of the positions from `h` on.
  abbrev pub Holds : ℕ → (ℕ → A) → ℕ → List M → Type 0
  Holds c slots h [] = Unit {0}
  Holds c slots h (x ∷ xs) = (view (slots (h % c)) ≡ x) × Holds c slots (h + 1) xs

  -- The ring has capacity `2 ^ k` and holds these items. The counters may have wrapped around.
  pub record Represents (k : ℕ) (r : Ring A) (xs : List M) : Type 0 where
    pub small : k < 64
    pub capacity : r.capacity ≡ 2 ^ k
    pub mask : r.mask ≡ 2 ^ k - 1
    pub reads : r.read_index < 2 ^ 64
    pub writes : r.write_index ≡ (r.read_index + length xs) % 2 ^ 64
    pub bounded : length xs ≤ 2 ^ k
    pub items : Holds (2 ^ k) r.slots r.read_index xs

  Holds-set_slot :
      (c p : ℕ) (a : A) (slots : ℕ → A) (h : ℕ) (xs : List M)
      → ((j : ℕ) → h ≤ j → j < h + length xs → p ≢ j % c)
      → Holds c slots h xs
      → Holds c (set_slot slots p a) h xs
  Holds-set_slot c p a slots h [] apart held = tt
  Holds-set_slot c p a slots h (x ∷ xs) apart held = (
    ground (arith, apart h (omega arith) (omega arith), held.0),
    Holds-set_slot c p a slots (h + 1) xs (λ j l u. apart j (omega arith) (omega arith)) held.1,
  )

  Holds-append :
      (c : ℕ) (slots : ℕ → A) (h : ℕ) (x : M) (xs : List M)
      → Holds c slots h xs
      → view (slots ((h + length xs) % c)) ≡ x
      → Holds c slots h (xs ++ (x ∷ []))
  Holds-append c slots h x [] held last = (ground (arith, last), tt)
  Holds-append c slots h x (y ∷ xs) held last = (
    held.0,
    Holds-append c slots (h + 1) x xs held.1 (ap (λ n. view (slots (n % c))) (omega arith) ∙ last),
  )

  -- Positions count only by their remainder.
  Holds-shift :
      (c : ℕ) (slots : ℕ → A) (h g : ℕ) (xs : List M)
      → h % c ≡ g % c
      → Holds c slots h xs
      → Holds c slots g xs
  Holds-shift c slots h g [] e held = tt
  Holds-shift c slots h g (x ∷ xs) e held = (
    ap (λ n. view (slots n)) (sym e) ∙ held.0,
    Holds-shift c slots (h + 1) (g + 1) xs (mod_shift c h g 1 e) held.1,
  )

  -- The two tests.
  pub full_test :
      (k : ℕ) (r : Ring A) (xs : List M)
      → Represents k r xs
      → leb r.capacity (sub64 r.write_index r.read_index) ≡ leb (2 ^ k) (length xs)
  full_test k r xs h =
      let count : sub64 r.write_index r.read_index ≡ length xs =
        omega (arith, h.reads, h.writes, h.bounded, pow_small k h.small) in
      ap (λ n. leb r.capacity n) count ∙ ap (λ c. leb c (length xs)) h.capacity

  pub empty_test :
      (k : ℕ) (r : Ring A) (xs : List M)
      → Represents k r xs
      → (r.read_index == r.write_index) ≡ (length xs == 0)
  empty_test k r xs h = ground (arith, h.reads, h.writes, h.bounded, pow_small k h.small)

  pub index-lt :
      (k : ℕ) (r : Ring A) (xs : List M) (i : ℕ) → Represents k r xs → bit_and i r.mask < 2 ^ k
  index-lt k r xs i h =
      let at : bit_and i r.mask ≡ i % 2 ^ k = ap (bit_and i) h.mask ∙ bit_and_mask k i in
      omega (arith, at, mod-lt i {m = 2 ^ k} (pow-pos k))

  -- A new item goes behind the others.
  pub written-Represents :
      (k : ℕ) (r : Ring A) (xs : List M) (a : A)
      → Represents k r xs
      → length xs < 2 ^ k
      → Represents k
          (record r {
            slots = set_slot r.slots (bit_and r.write_index r.mask) a;
            write_index = next64 r.write_index;
          })
          (xs ++ (view a ∷ []))
  written-Represents k r xs a h room =
      let at : bit_and r.write_index r.mask ≡ (r.read_index + length xs) % 2 ^ k =
        ap (bit_and r.write_index) h.mask
        ∙ bit_and_mask k r.write_index
        ∙ ap (λ n. n % 2 ^ k) h.writes
        ∙ mod_word k (r.read_index + length xs) (omega (arith, h.small)) in
      rw at (record {
        small = h.small;
        capacity = h.capacity;
        mask = h.mask;
        reads = h.reads;
        writes = omega (arith, h.writes, length-append xs (view a ∷ []));
        bounded = omega (arith, length-append xs (view a ∷ []));
        items =
            Holds-append (2 ^ k) (set_slot r.slots ((r.read_index + length xs) % 2 ^ k) a)
              r.read_index (view a) xs
              (Holds-set_slot (2 ^ k) ((r.read_index + length xs) % 2 ^ k) a r.slots r.read_index xs
                (λ j l u e.
                  mod_apart (2 ^ k) j (r.read_index + length xs) (omega arith) (omega arith)
                    (sym e))
                h.items)
              (ground arith);
      })

  -- Taking the first item leaves the others.
  pub read-Represents :
      (k : ℕ) (r : Ring A) (x : M) (xs : List M)
      → Represents k r (x ∷ xs)
      → (view (r.slots (bit_and r.read_index r.mask)) ≡ x)
        × Represents k (record r { read_index = next64 r.read_index }) xs
  read-Represents k r x xs h =
      let at : bit_and r.read_index r.mask ≡ r.read_index % 2 ^ k =
        ap (bit_and r.read_index) h.mask ∙ bit_and_mask k r.read_index in
      (
        ap (λ n. view (r.slots n)) at ∙ h.items.0,
        record {
          small = h.small;
          capacity = h.capacity;
          mask = h.mask;
          reads = omega arith;
          writes = omega (arith, h.writes);
          bounded = omega (arith, h.bounded);
          items =
              Holds-shift (2 ^ k) r.slots (r.read_index + 1) (next64 r.read_index) xs
                (sym (mod_word k (r.read_index + 1) (omega (arith, h.small)))) h.items.1;
        },
      )
