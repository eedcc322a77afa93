-- ===== src/Alloc/Slab/Chunks.antt =====
-- slab_allocator.hpp: the size of a chunk, and the chunks of a slab.
use Prim.Native.Nat.{bit_and}
use native.Mathlib.Nat.{
  suc-mul, add-mul, pow-suc, mod-eq_of_lt, mod-lt, div-add-mod, mul-mod_right, mul_comm,
}
use cpp_interview.Prelude.{
  ℕ, zero, suc, ◌+◌, ◌-◌, ◌*◌, ◌/◌, ◌%◌, ◌^◌, ◌≤◌, ◌<◌, ◌≡◌, refl, ap, ◌∙◌, Bool, true, ◌&&◌, ◌||◌,
  List, [], ◌∷◌, ◌==◌, leb, if◌then◌else◌, arith, ◌≢◌, dec_lt, ℕ_discrete,
}
use cpp_interview.Prelude.Bits.{bit_and_mask, mod-double, pow-pos}
use cpp_interview.Prelude.BitOps.{bit_and_step}
use cpp_interview.Alloc.Slab.{Layout, object_size, alignment, chunk_size, slab_size}

bit_and-high : (n k a : ℕ) → a < 2 ^ (k + n) → bit_and a (2 ^ (k + n) - 2 ^ k) ≡ a - a % 2 ^ k
bit_and-high n zero a h =
    let same : zero + n ≡ n = omega arith in
    let p = ap (λ j. 2 ^ j) same in
    let mask : 2 ^ (zero + n) - 2 ^ zero ≡ 2 ^ n - 1 = omega (arith, p) in
    let whole : a % 2 ^ n ≡ a = mod-eq_of_lt (omega (arith, p)) in
    ap (bit_and a) mask ∙ bit_and_mask n a ∙ omega (arith, whole)
bit_and-high n (suc k) a h =
    let m = 2 ^ (k + n) - 2 ^ k in
    let shift : suc k + n ≡ suc (k + n) = omega arith in
    let p = ap (λ j. 2 ^ j) shift ∙ pow-suc 2 (k + n) in
    let twice : 2 ^ (suc k + n) - 2 ^ suc k ≡ m * 2 = omega (arith, pow-suc 2 k, p) in
    let half : m * 2 / 2 ≡ m = omega arith in
    let low : m * 2 % 2 ≡ 0 = omega arith in
    ap (bit_and a) twice
    ∙ bit_and_step a (m * 2)
    ∙ rw (half, low)
        (omega (
          arith,
          bit_and-high n k (a / 2) (omega (arith, p)),
          mod-double (2 ^ k) a (pow-pos k),
          ap (λ t. a % t) (pow-suc 2 k),
        ))

-- For an alignment that is a power of two, a chunk is the least multiple of the alignment, which is that of `T` or
-- a pointer's, that an object or a pointer fits into.
pub chunk_size_lem :
    (t : Layout) (k : ℕ)
    → k < 64
    → alignment t ≡ 2 ^ k
    → object_size t + alignment t ≤ 2 ^ 64
    → (chunk_size t % alignment t ≡ 0)
      × (object_size t ≤ chunk_size t)
      × (chunk_size t < object_size t + alignment t)
unfolding chunk_size
chunk_size_lem t k small e h =
    let x = object_size t + (2 ^ k - 1) in
    let split : k + (64 - k) ≡ 64 = omega arith in
    let word = ap (λ j. 2 ^ j) split in
    let high : bit_and x (2 ^ (k + (64 - k)) - 2 ^ k) ≡ x - x % 2 ^ k =
      bit_and-high (64 - k) k x (omega (arith, word, pow-pos k)) in
    let mask : 2 ^ 64 - 1 - (2 ^ k - 1) ≡ 2 ^ (k + (64 - k)) - 2 ^ k =
      omega (arith, word, pow-pos k) in
    let whole : x - x % 2 ^ k ≡ 2 ^ k * (x / 2 ^ k) = omega (arith, div-add-mod x (2 ^ k)) in
    rw (e, mask, high)
      (
        ap (λ y. y % 2 ^ k) whole ∙ mul-mod_right (2 ^ k) (x / 2 ^ k),
        omega (arith, mod-lt x {m = 2 ^ k} (pow-pos k)),
        omega (arith, pow-pos k),
      )

module _ (t : Layout) where
  abbrev pub chunks : ℕ → ℕ → ℕ → List ℕ
  chunks zero i base = []
  chunks (suc rounds) i base = (base + i * chunk_size t) ∷ chunks rounds (suc i) base

abbrev pub count : ℕ → List ℕ → ℕ
count x [] = 0
count x (y ∷ ys) = (if y == x then 1 else 0) + count x ys

module _ (t : Layout) (some_size : 0 < chunk_size t) where
  count-chunks :
      (rounds i base x : ℕ)
      → (count x (chunks t rounds i base) ≤ 1)
        × (x < base + i * chunk_size t → count x (chunks t rounds i base) ≡ 0)
        × (base + (i + rounds) * chunk_size t ≤ x → count x (chunks t rounds i base) ≡ 0)
  count-chunks zero i base x = (omega arith, λ h. refl, λ h. refl)
  count-chunks (suc rounds) i base x =
      let (once, before, after) = count-chunks rounds (suc i) base x in
      let next = suc-mul i (chunk_size t) in
      let last : (i + suc rounds) * chunk_size t ≡ (suc i + rounds) * chunk_size t =
        ap (λ j. j * chunk_size t) (omega arith) in
      (
        ground (arith, once, before, next, some_size),
        λ h. ground (arith, h, before, next, some_size),
        λ h. ground (arith, h, after, next, last, add-mul (suc i) rounds (chunk_size t), some_size),
      )

module _ (t : Layout) where
  -- How often an address is the beginning of a chunk of one of the slabs.
  abbrev pub count_chunks : ℕ → List ℕ → ℕ
  count_chunks x [] = 0
  count_chunks x (base ∷ slabs) =
      count x (chunks t t.objects_per_slab 0 base) + count_chunks x slabs

  -- Whether a slab from `base` on overlaps none of the others.
  abbrev pub is_apart : ℕ → List ℕ → Bool
  is_apart base [] = true
  is_apart base (b ∷ slabs) =
      (leb (b + slab_size t) base || leb (base + slab_size t) b) && is_apart base slabs

module _ (t : Layout) (some_size : 0 < chunk_size t) where
  count-slab :
      (base x : ℕ)
      → count x (chunks t t.objects_per_slab 0 base) ≢ 0
      → (base ≤ x) × (x < base + slab_size t)
  count-slab base x h =
      let (once, before, after) = count-chunks t some_size t.objects_per_slab 0 base x in
      let size : (0 + t.objects_per_slab) * chunk_size t ≡ slab_size t =
        ap (λ j. j * chunk_size t) (omega arith) ∙ mul_comm t.objects_per_slab (chunk_size t) in
      (
        elim (dec_lt x base) [
          | yes lt ↦ absurd (h (before (omega (arith, lt))))
          | no ge ↦ omega arith
        ],
        elim (dec_lt x (base + slab_size t)) [
          | yes lt ↦ lt
          | no ge ↦ absurd (h (after (omega (arith, size))))
        ],
      )

  count_chunks-outside :
      (base x : ℕ) (slabs : List ℕ)
      → base ≤ x
      → x < base + slab_size t
      → is_apart t base slabs ≡ true
      → count_chunks t x slabs ≡ 0
  count_chunks-outside base x [] ge lt h = refl
  count_chunks-outside base x (b ∷ slabs) ge lt h =
      elim (ℕ_discrete (count x (chunks t t.objects_per_slab 0 b)) 0) [
        | yes zeros ↦
            omega (arith, zeros, count_chunks-outside base x slabs ge lt (ground (arith, h)))
        | no ne ↦ absurd (ground (arith, count-slab b x ne, h))
      ]

  -- A slab apart from the others shares no chunk with them.
  pub count_chunks-is_apart :
      (base x : ℕ) (slabs : List ℕ)
      → is_apart t base slabs ≡ true
      → count_chunks t x slabs ≤ 1
      → count x (chunks t t.objects_per_slab 0 base) + count_chunks t x slabs ≤ 1
  count_chunks-is_apart base x slabs h once =
      elim (ℕ_discrete (count x (chunks t t.objects_per_slab 0 base)) 0) [
        | yes zeros ↦ omega (arith, zeros)
        | no ne ↦
            let (ge, lt) = count-slab base x ne in
            omega (
              arith,
              (count-chunks t some_size t.objects_per_slab 0 base x).0,
              count_chunks-outside base x slabs ge lt h,
            )
      ]
