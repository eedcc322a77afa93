-- ===== src/Lsm/Bloom/Membership.antt =====
-- bloom_filter.hpp: what was added is found.
use Prim.Native.Nat.{bit_or}
use cpp_interview.Prelude.{
  ℕ, zero, suc, ◌+◌, ◌*◌, ◌/◌, ◌%◌, ◌^◌, ◌≤◌, ◌<◌, ◌≡◌, refl, ap, sym, ◌∙◌, inl, inr, true, false,
  List, [], ◌∷◌, ◌==◌, if◌then◌else◌, get_or, set, length, length-set, length-replicate,
  get_or-set_self, get_or-set_ne, arith, ℕ_discrete, Bool-cases,
}
use cpp_interview.Prelude.Bits.{pow-pos}
use cpp_interview.Prelude.BitOps.{bit_at, bit_and-pow, bit_at-bit_or, bit_at-pow, bit_at_le}
use cpp_interview.Lsm.Bloom
use cpp_interview.Lsm.Bloom.{
  BloomFilter, hash1, hash2, position, set_bit, is_clear, add_from, contains_from, add,
}

-- There are bits, and as many words as they need.
pub record IsValid (b : BloomFilter) : Type 0 where
  pub some_bits : 0 < b.num_bits
  pub words : (b.num_bits + 63) / 64 ≡ length b.bits

bit_of : List ℕ → ℕ → ℕ
bit_of bits c = bit_at (c % 64) (get_or bits (c / 64) 0)

is_clear_lem : (bits : List ℕ) (c : ℕ) → is_clear bits c ≡ (bit_of bits c == 0)
unfolding is_clear bit_of
is_clear_lem bits c = grind (
  arith,
  bit_and-pow (c % 64) (get_or bits (c / 64) 0),
  pow-pos (c % 64),
  bit_at_le (c % 64) (get_or bits (c / 64) 0),
)

length-set_bit : (bits : List ℕ) (c : ℕ) → length (set_bit bits c) ≡ length bits
unfolding set_bit
length-set_bit bits c = length-set bits (c / 64) _

bit_of-set_bit_self : (bits : List ℕ) (c : ℕ) → c / 64 < length bits → bit_of (set_bit bits c) c ≡ 1
unfolding bit_of set_bit
bit_of-set_bit_self bits c h =
    let w = get_or bits (c / 64) 0 in
    ap (bit_at (c % 64)) (get_or-set_self bits (c / 64) (bit_or w (2 ^ (c % 64))) 0 h)
    ∙ omega
        (arith, bit_at-bit_or (c % 64) w (2 ^ (c % 64)), bit_at-pow (c % 64), bit_at_le (c % 64) w)

bit_of-set_bit_mono :
    (bits : List ℕ) (c d : ℕ) → c / 64 < length bits → bit_of bits d ≤ bit_of (set_bit bits c) d
unfolding bit_of set_bit
bit_of-set_bit_mono bits c d h =
    let w = get_or bits (c / 64) 0 in
    elim (ℕ_discrete (c / 64) (d / 64)) [
      | yes e ↦ ground (
        arith,
        e,
        ap (λ i. get_or bits i 0) e,
        ap (bit_at (d % 64)) (
            ap (λ i. get_or (set bits (c / 64) (bit_or w (2 ^ (c % 64)))) i 0) (sym e)
            ∙ get_or-set_self bits (c / 64) (bit_or w (2 ^ (c % 64))) 0 h),
        ap (bit_at (d % 64)) (ap (λ i. get_or bits i 0) e),
        bit_at-bit_or (d % 64) w (2 ^ (c % 64)),
      )
      | no ne ↦ omega (
        arith,
        ap (bit_at (d % 64)) (get_or-set_ne bits (c / 64) (d / 64) (bit_or w (2 ^ (c % 64))) 0 ne),
      )
    ]

position-lt : (m h1 h2 i : ℕ) → 0 < m → position m h1 h2 i < m
unfolding position
position-lt m h1 h2 i h = grind arith

-- The words that a filter of `m` bits writes to.
abbrev Fits : ℕ → List ℕ → Type 0
Fits m bits = (0 < m) × (m ≤ 64 * length bits)

in_range : (m h1 h2 i : ℕ) (bits : List ℕ) → Fits m bits → position m h1 h2 i / 64 < length bits
in_range m h1 h2 i bits h = omega (arith, position-lt m h1 h2 i h.0)

Fits-set_bit : (m c : ℕ) (bits : List ℕ) → Fits m bits → Fits m (set_bit bits c)
Fits-set_bit m c bits h = omega (arith, length-set_bit bits c)

-- A bit that is set stays so.
set_stays :
    (bits : List ℕ) (c d : ℕ)
    → c / 64 < length bits
    → is_clear bits d ≡ false
    → is_clear (set_bit bits c) d ≡ false
set_stays bits c d h e =
    ground
      (arith, is_clear_lem bits d, is_clear_lem (set_bit bits c) d, bit_of-set_bit_mono bits c d h)

add_from_stays :
    (m h1 h2 i n : ℕ) (bits : List ℕ) (d : ℕ)
    → Fits m bits
    → is_clear bits d ≡ false
    → is_clear (add_from m h1 h2 i n bits) d ≡ false
unfolding add_from
add_from_stays m h1 h2 i zero bits d f e = e
add_from_stays m h1 h2 i (suc n) bits d f e =
    let c = position m h1 h2 i in
    add_from_stays m h1 h2 (i + 1) n (set_bit bits c) d (Fits-set_bit m c bits f)
      (set_stays bits c d (in_range m h1 h2 i bits f) e)

contains_from_stays :
    (m h1 h2 i n g1 g2 j k : ℕ) (bits : List ℕ)
    → Fits m bits
    → contains_from m g1 g2 j k bits ≡ true
    → contains_from m g1 g2 j k (add_from m h1 h2 i n bits) ≡ true
unfolding contains_from
contains_from_stays m h1 h2 i n g1 g2 j zero bits f e = refl
contains_from_stays m h1 h2 i n g1 g2 j (suc k) bits f e =
    let c = position m g1 g2 j in
    elim (Bool-cases (is_clear bits c)) [
      | inl clear ↦ ground (arith, e, clear)
      | inr held ↦ ground (
        arith,
        e,
        held,
        add_from_stays m h1 h2 i n bits c f held,
        contains_from_stays m h1 h2 i n g1 g2 (j + 1) k bits f,
      )
    ]

contains_from-add_from :
    (m h1 h2 i n : ℕ) (bits : List ℕ)
    → Fits m bits
    → contains_from m h1 h2 i n (add_from m h1 h2 i n bits) ≡ true
unfolding contains_from add_from
contains_from-add_from m h1 h2 i zero bits f = refl
contains_from-add_from m h1 h2 i (suc n) bits f =
    let c = position m h1 h2 i in
    let bits1 = set_bit bits c in
    let f1 = Fits-set_bit m c bits f in
    let held : is_clear bits1 c ≡ false =
      ground
        (arith, is_clear_lem bits1 c, bit_of-set_bit_self bits c (in_range m h1 h2 i bits f)) in
    ground (
      arith,
      add_from_stays m h1 h2 (i + 1) n bits1 c f1 held,
      contains_from-add_from m h1 h2 (i + 1) n bits1 f1,
    )

length-add_from :
    (m h1 h2 i n : ℕ) (bits : List ℕ) → length (add_from m h1 h2 i n bits) ≡ length bits
unfolding add_from
length-add_from m h1 h2 i zero bits = refl
length-add_from m h1 h2 i (suc n) bits =
    length-add_from m h1 h2 (i + 1) n _ ∙ length-set_bit bits (position m h1 h2 i)

pub length-add : (b : BloomFilter) (key : ℕ) → length (add b key).bits ≡ length b.bits
unfolding add
length-add b key = length-add_from b.num_bits (hash1 key) (hash2 key) 0 b.num_hashes b.bits

pub add-IsValid : (b : BloomFilter) (key : ℕ) → IsValid b → IsValid (add b key)
unfolding add
add-IsValid b key v = record {
  some_bits = v.some_bits;
  words =
      omega
        (arith, v.words, length-add_from b.num_bits (hash1 key) (hash2 key) 0 b.num_hashes b.bits);
}

pub contains-add_self :
    (b : BloomFilter) (key : ℕ) → IsValid b → Bloom.contains (add b key) key ≡ true
unfolding add Bloom.contains
contains-add_self b key v =
    contains_from-add_from b.num_bits (hash1 key) (hash2 key) 0 b.num_hashes b.bits
      (v.some_bits, omega (arith, v.words))

pub contains-add_mono :
    (b : BloomFilter) (key j : ℕ)
    → IsValid b
    → Bloom.contains b j ≡ true
    → Bloom.contains (add b key) j ≡ true
unfolding add Bloom.contains
contains-add_mono b key j v h =
    contains_from_stays b.num_bits (hash1 key) (hash2 key) 0 b.num_hashes (hash1 j) (hash2 j) 0
      b.num_hashes b.bits (v.some_bits, omega (arith, v.words)) h

-- `bloom.add` for each of the keys.
unfoldable pub add_all : List ℕ → BloomFilter → BloomFilter
add_all [] b = b
add_all (k ∷ keys) b = add_all keys (add b k)

pub add_all-IsValid : (keys : List ℕ) (b : BloomFilter) → IsValid b → IsValid (add_all keys b)
unfolding add_all
add_all-IsValid [] b v = v
add_all-IsValid (k ∷ keys) b v = add_all-IsValid keys (add b k) (add-IsValid b k v)

pub contains-add_all_mono :
    (keys : List ℕ) (b : BloomFilter) (j : ℕ)
    → IsValid b
    → Bloom.contains b j ≡ true
    → Bloom.contains (add_all keys b) j ≡ true
unfolding add_all
contains-add_all_mono [] b j v h = h
contains-add_all_mono (k ∷ keys) b j v h =
    contains-add_all_mono keys (add b k) j (add-IsValid b k v) (contains-add_mono b k j v h)

-- A valid filter into which keys were added answers true for each of them: it has no false negatives.
pub contains-add_all :
    (before after : List ℕ) (b : BloomFilter) (key : ℕ)
    → IsValid b
    → Bloom.contains (add_all after (add (add_all before b) key)) key ≡ true
contains-add_all before after b key v =
    let v1 = add_all-IsValid before b v in
    contains-add_all_mono after (add (add_all before b) key) key (add-IsValid _ key v1)
      (contains-add_self (add_all before b) key v1)

-- The constructor's filter is valid, whatever the logarithms give.
pub new_filter-IsValid :
    (ceil_m : ℕ → ℕ) (round_k : ℕ → ℕ → ℕ) (n : ℕ) → IsValid (Bloom.new_filter ceil_m round_k n)
unfolding Bloom.new_filter
new_filter-IsValid ceil_m round_k n =
    let expected = if n == 0 then 1 else n in
    let num_bits = if Bloom.ltb (ceil_m expected) 64 then 64 else ceil_m expected in
    record {
      some_bits = ground arith;
      words = ground (arith, length-replicate {A = ℕ} ((num_bits + 63) / 64) 0);
    }
