-- ===== src/Lsm/Bloom.antt =====
-- bloom_filter.hpp. Words are of 64 bits. The two sizes come from logarithms of doubles: what the
-- constructor rounds them to is a parameter.
pub mod Membership
use Prim.Native.Nat.{bit_and, bit_or, bit_xor}
use cpp_interview.Prelude.{
  ℕ, zero, suc, ◌+◌, ◌-◌, ◌*◌, ◌/◌, ◌%◌, ◌^◌, Bool, true, false, List, [], ◌∷◌, ◌==◌, ltb,
  if◌then◌else◌, get_or, set, replicate, max,
}

pub record BloomFilter : Type 0 where
  pub num_bits : ℕ
  pub num_hashes : ℕ
  pub bits : List ℕ

-- `uint64_t`
abbrev pub u64 : ℕ → ℕ
u64 n = n % 2 ^ 64

-- `sizes n` is `ceil(m)` and `round(k)` for `n` expected elements; `k` is computed from the first
-- after its minimum has been applied.
pub new_filter : (ℕ → ℕ) → (ℕ → ℕ → ℕ) → ℕ → BloomFilter
new_filter ceil_m round_k expected_elements =
    let expected = if expected_elements == 0 then 1 else expected_elements in
    let num_bits = if ltb (ceil_m expected) 64 then 64 else ceil_m expected in
    record {
      num_bits = num_bits;
      num_hashes = max 1 (round_k num_bits expected);
      bits = replicate ((num_bits + 63) / 64) 0;
    }

-- `k ^= k >> s`
abbrev xor_shift : ℕ → ℕ → ℕ
xor_shift k s = bit_xor k (k / 2 ^ s)

pub hash1 : ℕ → ℕ
hash1 k =
    let k1 = u64 (xor_shift k 33 * 0xff51afd7ed558ccd) in
    let k2 = u64 (xor_shift k1 33 * 0xc4ceb9fe1a85ec53) in xor_shift k2 33

-- `k << s`
abbrev shift_left : ℕ → ℕ → ℕ
shift_left k s = u64 (k * 2 ^ s)

pub hash2 : ℕ → ℕ
hash2 k =
    let k1 = u64 (2 ^ 64 - 1 - k + shift_left k 21) in
    let k2 = xor_shift k1 24 in
    let k3 = u64 (u64 (k2 + shift_left k2 3) + shift_left k2 8) in
    let k4 = xor_shift k3 14 in
    let k5 = u64 (u64 (k4 + shift_left k4 2) + shift_left k4 4) in
    let k6 = xor_shift k5 28 in u64 (k6 + shift_left k6 31)

-- `combined` of round `i`.
pub position : ℕ → ℕ → ℕ → ℕ → ℕ
position num_bits h1 h2 i = u64 (h1 + u64 (i * h2)) % num_bits

-- `bits_[c / 64] |= 1 << (c % 64)`
pub set_bit : List ℕ → ℕ → List ℕ
set_bit bits c = set bits (c / 64) (bit_or (get_or bits (c / 64) 0) (2 ^ (c % 64)))

-- `(bits_[c / 64] & (1 << (c % 64))) == 0`
pub is_clear : List ℕ → ℕ → Bool
is_clear bits c = bit_and (get_or bits (c / 64) 0) (2 ^ (c % 64)) == 0

-- The rounds from `i` on, `n` of them left.
pub add_from : ℕ → ℕ → ℕ → ℕ → ℕ → List ℕ → List ℕ
add_from num_bits h1 h2 i zero bits = bits
add_from num_bits h1 h2 i (suc n) bits =
    add_from num_bits h1 h2 (i + 1) n (set_bit bits (position num_bits h1 h2 i))

pub contains_from : ℕ → ℕ → ℕ → ℕ → ℕ → List ℕ → Bool
contains_from num_bits h1 h2 i zero bits = true
contains_from num_bits h1 h2 i (suc n) bits =
    let rest = contains_from num_bits h1 h2 (i + 1) n bits in
    if is_clear bits (position num_bits h1 h2 i) then false else rest

pub add : BloomFilter → ℕ → BloomFilter
unfolding add_from set_bit position hash1 hash2
add b key = record b { bits = add_from b.num_bits (hash1 key) (hash2 key) 0 b.num_hashes b.bits }

pub contains : BloomFilter → ℕ → Bool
unfolding contains_from is_clear position hash1 hash2
contains b key = contains_from b.num_bits (hash1 key) (hash2 key) 0 b.num_hashes b.bits

abbrev pub set_raw_bits : BloomFilter → List ℕ → ℕ → ℕ → BloomFilter
set_raw_bits b bits num_bits num_hashes = record {
  num_bits = num_bits;
  num_hashes = num_hashes;
  bits = bits;
}
