-- ===== src/Mpmc/Slots.antt =====
-- mpmc_queue.hpp: the cells that positions share.
use native.Mathlib.Nat.{add-mod_right, pow-suc, mod-eq_of_lt, mod-lt}
use cpp_interview.Prelude.{ℕ, zero, suc, ◌+◌, ◌-◌, ◌%◌, ◌^◌, ◌≤◌, ◌<◌, ◌≡◌, arith, ap, sym, ◌∙◌}
use cpp_interview.Prelude.Bits.{bit_and_mask, mod_apart, pow-pos}
use cpp_interview.Mpmc.{slot}

two_cells : (k : ℕ) → 1 ≤ k → 2 ≤ 2 ^ k
two_cells zero h = absurd (omega arith)
two_cells (suc k) h = omega (arith, pow-suc 2 k, pow-pos k)

module _ (k : ℕ) where
  slot_lem : (pos : ℕ) → slot (2 ^ k - 1) pos ≡ pos % 2 ^ k
  unfolding slot
  slot_lem pos = bit_and_mask k pos

  slot_round : (pos : ℕ) → slot (2 ^ k - 1) (pos + 2 ^ k) ≡ slot (2 ^ k - 1) pos
  slot_round pos = slot_lem (pos + 2 ^ k) ∙ add-mod_right pos (2 ^ k) ∙ sym (slot_lem pos)

  pub slot-slot : (pos : ℕ) → slot (2 ^ k - 1) (slot (2 ^ k - 1) pos) ≡ slot (2 ^ k - 1) pos
  slot-slot pos =
      slot_lem (slot (2 ^ k - 1) pos)
      ∙ ap (λ t. t % 2 ^ k) (slot_lem pos)
      ∙ mod-eq_of_lt (mod-lt pos (pow-pos k))
      ∙ sym (slot_lem pos)

  pub slot-lt : (pos : ℕ) → slot (2 ^ k - 1) pos < 2 ^ k
  slot-lt pos = omega (arith, slot_lem pos, mod-lt pos {m = 2 ^ k} (pow-pos k))

  -- Two positions in a row have two cells, where there are two.
  slot_next : (p q : ℕ) → 1 ≤ k → q ≡ p + 1 → slot (2 ^ k - 1) p ≡ slot (2 ^ k - 1) q → ⊥
  slot_next p q h e same =
      mod_apart (2 ^ k) p q (omega (arith, e)) (omega (arith, e, two_cells k h))
        (sym (slot_lem p) ∙ same ∙ slot_lem q)

-- What the queue needs of its mask: two positions in a row have two cells, and those a capacity apart one.
pub record IsRing (mask cap : ℕ) : Type 0 where
  pub size : mask + 1 ≡ cap
  pub at_least : 2 ≤ cap
  pub next : (p q : ℕ) → q ≡ p + 1 → slot mask p ≡ slot mask q → ⊥
  pub round : (pos : ℕ) → slot mask (pos + cap) ≡ slot mask pos

pub pow-IsRing : (k : ℕ) → 1 ≤ k → IsRing (2 ^ k - 1) (2 ^ k)
pow-IsRing k h = record {
  size = omega (arith, pow-pos k);
  at_least = two_cells k h;
  next = λ p q e same. slot_next k p q h e same;
  round = slot_round k;
}
