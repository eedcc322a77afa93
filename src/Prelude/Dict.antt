-- ===== src/Prelude/Dict.antt =====
-- `std::unordered_map` with 64-bit keys, as an association list. A traversal meets the entries in
-- the order of the list: the order that a hash table would give is not modelled.
use Prim.Native.Nat.{ℕ, suc}
use mathlib.Core.Path.{◌≡◌, refl}
use mathlib.Core.List.{List, [], ◌∷◌}
use mathlib.Core.Option.{Option, none, some}
use native.Mathlib.Omega.{arith}
use mathlib.Core.Logic.{inl, inr}
use cpp_interview.Prelude.Tests.{◌==◌, if◌then◌else◌, Bool-cases}
use cpp_interview.Prelude.Lists.{length}

abbrev pub Dict {ℓ} : Type ℓ → Type ℓ
Dict V = List (ℕ × V)

module _ {ℓ} {V : Type ℓ} where
  -- `m.find(k)`
  unfoldable pub find : ℕ → Dict V → Option V
  find k [] = none
  find k ((j, v) ∷ m) = if j == k then some v else find k m

  -- `m[k] = v`
  unfoldable pub assign : ℕ → V → Dict V → Dict V
  assign k v [] = (k, v) ∷ []
  assign k v ((j, w) ∷ m) = if j == k then (k, v) ∷ m else (j, w) ∷ assign k v m

  -- `m.erase(k)`
  unfoldable pub erase : ℕ → Dict V → Dict V
  erase k [] = []
  erase k ((j, w) ∷ m) = let rest = erase k m in if j == k then rest else (j, w) ∷ rest

  pub find-assign :
      (k j : ℕ) (v : V) (m : Dict V) → find j (assign k v m) ≡ (if k == j then some v else find j m)
  unfolding find assign
  find-assign k j v [] = refl
  find-assign k j v ((i, w) ∷ m) = ground (arith, find-assign k j v m)

  pub find-erase : (k j : ℕ) (m : Dict V) → find j (erase k m) ≡ (if k == j then none else find j m)
  unfolding find erase
  find-erase k j [] = ground arith
  find-erase k j ((i, w) ∷ m) = ground (arith, find-erase k j m)

  -- The number of entries, `m.size()`, after a first assignment or another.
  pub length-assign :
      (k : ℕ) (v : V) (m : Dict V)
      → length (assign k v m) ≡ elim (find k m) [ none ↦ suc (length m) | some _ ↦ length m ]
  unfolding find assign
  length-assign k v [] = refl
  length-assign k v ((i, w) ∷ m) = ground (arith, length-assign k v m)

  -- No key stands twice.
  abbrev pub IsKeyed : Dict V → Type ℓ
  IsKeyed [] = Unit
  IsKeyed ((k, v) ∷ m) = (find k m ≡ none) × IsKeyed m

  pub assign-IsKeyed : (k : ℕ) (v : V) (m : Dict V) → IsKeyed m → IsKeyed (assign k v m)
  unfolding find assign
  assign-IsKeyed k v [] h = (refl, tt)
  assign-IsKeyed k v ((j, w) ∷ m) h = elim (Bool-cases (j == k)) [
    | inl hit ↦ ground (arith, hit)
    | inr miss ↦ rw miss (ground (arith, miss, h.0, find-assign k j v m), assign-IsKeyed k v m h.1)
  ]

  pub erase-IsKeyed : (k : ℕ) (m : Dict V) → IsKeyed m → IsKeyed (erase k m)
  unfolding find erase
  erase-IsKeyed k [] h = tt
  erase-IsKeyed k ((j, w) ∷ m) h = elim (Bool-cases (j == k)) [
    | inl hit ↦ rw hit (erase-IsKeyed k m h.1)
    | inr miss ↦ rw miss (ground (arith, h.0, find-erase k j m), erase-IsKeyed k m h.1)
  ]
