-- ===== src/Prelude/Words.antt =====
-- `size_t` and `uint64_t`, with the wrap-around of 64 bits.
use Prim.Native.Nat.{ℕ, ◌+◌, ◌-◌, ◌%◌, ◌^◌, ◌≤◌, ◌<◌}
use native.Mathlib.Decide.{dec_lt}
use native.Mathlib.Omega.{arith}
use native.Mathlib.Nat.{pow-le-pow_right}

abbrev pub sub64 : ℕ → ℕ → ℕ
sub64 a b = (a + 2 ^ 64 - b) % 2 ^ 64

abbrev pub next64 : ℕ → ℕ
next64 a = (a + 1) % 2 ^ 64

pub pow_small : (k : ℕ) → k < 64 → 2 ^ k ≤ 2 ^ 63
pow_small k h = pow-le-pow_right {n = 2} (omega arith) {i = k} {j = 63} (omega arith)

pub pow_exponent : (k : ℕ) → 2 ^ k < 2 ^ 64 → k < 64
pow_exponent k h = elim (dec_lt k 64) [
  | yes lt ↦ lt
  | no ge ↦
      absurd
        (omega (arith, h, pow-le-pow_right {n = 2} (omega arith) {i = 64} {j = k} (omega arith)))
]
