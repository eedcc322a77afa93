-- ===== src/Lsm/MemTable.antt =====
-- What the engines use of a memtable: a map from keys to values that lists its entries by
-- ascending keys. skiplist_memtable.hpp offers it.
use cpp_interview.Prelude.{ℕ, ◌≡◌, Option, none, some, ◌==◌, if◌then◌else◌, length}
use cpp_interview.Prelude.Dict.{Dict, find}
use cpp_interview.Lsm.SsTable.Records.{AreAscending}

pub record MemTable : Type 1 where
  pub Carrier : Type 0
  pub IsValid : Carrier → Type 0
  pub empty : Carrier
  pub put : Carrier → ℕ → ℕ → Carrier
  pub get : Carrier → ℕ → Option ℕ
  pub to_vector : Carrier → Dict ℕ
  pub size : Carrier → ℕ
  pub byte_size : Carrier → ℕ
  pub empty-IsValid : IsValid empty
  pub put-IsValid : (m : Carrier) (key value : ℕ) → IsValid m → IsValid (put m key value)
  pub get-empty : (key : ℕ) → get empty key ≡ none
  pub get-put :
      (m : Carrier) (key value j : ℕ)
      → IsValid m
      → get (put m key value) j ≡ (if key == j then some value else get m j)
  pub to_vector-AreAscending : (m : Carrier) → IsValid m → AreAscending (to_vector m)
  pub find-to_vector : (m : Carrier) (key : ℕ) → IsValid m → find key (to_vector m) ≡ get m key
  pub size_lem : (m : Carrier) → IsValid m → size m ≡ length (to_vector m)
