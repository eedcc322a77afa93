-- ===== src/Lsm/SsTable/Index.antt =====
-- sstable.hpp: the blocks that `build` writes, and the search for the block of a key.
use cpp_interview.Prelude.{
  ℕ, zero, suc, ◌+◌, ◌-◌, ◌*◌, ◌/◌, ◌≤◌, ◌<◌, ◌≡◌, refl, ap, sym, ◌∙◌, List, [], ◌∷◌, ◌++◌, ltb,
  leb, length, get_or, take, drop, arith, subst, Bool-cases, inl, inr, length-append, length-drop,
}
use cpp_interview.Prelude.Dict.{Dict}
use cpp_interview.Lsm.SsTable.{
  record_words, read_records, BlockIndexEntry, entry_of, write_blocks, search_index, no_entry,
  at_offset,
}
use cpp_interview.Lsm.SsTable.Records.{
  AllAbove, AreAscending, drop-append, read_records-record_words, last_of, AllAbove-last_of,
  AreAscending-append, AllAbove-append, last_above,
}

-- The index describes blocks of the file that hold these records, in order.
pub data Describes (file : List ℕ) : List BlockIndexEntry → Dict ℕ → Type 0 where
  nothing : Describes file [] []
  block :
      (p : ℕ × ℕ) (chunk rest : Dict ℕ) (offset : ℕ) (index : List BlockIndexEntry)
      → read_records (length (p ∷ chunk)) (at_offset file offset) ≡ p ∷ chunk
      → Describes file index rest
      → Describes file (entry_of (p ∷ chunk) offset ∷ index) ((p ∷ chunk) ++ rest)

take-drop : {A : Type 0} (n : ℕ) (xs : List A) → take n xs ++ drop n xs ≡ xs
take-drop zero xs = refl
take-drop (suc n) [] = refl
take-drop (suc n) (x ∷ xs) = ap (◌∷◌ x) (take-drop n xs)

pub append_assoc : {A : Type 0} (xs ys zs : List A) → (xs ++ ys) ++ zs ≡ xs ++ (ys ++ zs)
append_assoc [] ys zs = refl
append_assoc (x ∷ xs) ys zs = ap (◌∷◌ x) (append_assoc xs ys zs)

-- What the loop writes at the end of a file is what its index describes.
pub write_blocks-Describes :
    (size n : ℕ) (pairs : Dict ℕ) (before after : List ℕ)
    → length pairs ≤ n
    → let (words, index) = write_blocks (suc size) n pairs (length before * 8) in
      Describes (before ++ (words ++ after)) index pairs
unfolding write_blocks
write_blocks-Describes size zero [] before after h = nothing
write_blocks-Describes size zero (p ∷ pairs) before after h = absurd (omega arith)
write_blocks-Describes size (suc n) [] before after h = nothing
write_blocks-Describes size (suc n) (p ∷ pairs) before after h =
    let chunk = take size pairs in
    let rest = drop size pairs in
    let ws = record_words (p ∷ chunk) in
    let o = length before * 8 + length ws * 8 in
    let w = (write_blocks (suc size) n rest o).0 in
    let index = (write_blocks (suc size) n rest o).1 in
    let next : length (before ++ ws) * 8 ≡ o = omega (arith, length-append before ws) in
    let here : length before * 8 / 8 ≡ length before = omega arith in
    let regroup =
      append_assoc before ws (w ++ after) ∙ ap (λ t. before ++ t) (sym (append_assoc ws w after)) in
    let later : Describes (before ++ ((ws ++ w) ++ after)) index rest =
      subst (λ f. Describes f index rest) regroup
        (subst
          (λ t.
            Describes ((before ++ ws) ++ ((write_blocks (suc size) n rest t).0 ++ after))
              (write_blocks (suc size) n rest t).1 rest)
          next
          (write_blocks-Describes size n rest (before ++ ws) after
            (omega (arith, length-drop size pairs)))) in
    let read : read_records (length (p ∷ chunk))
          (at_offset (before ++ ((ws ++ w) ++ after)) (length before * 8))
        ≡ p ∷ chunk =
      ap (λ t. read_records (length (p ∷ chunk)) (drop t (before ++ ((ws ++ w) ++ after)))) here
      ∙ ap (read_records (length (p ∷ chunk)))
          (drop-append before ((ws ++ w) ++ after) ∙ append_assoc ws w after)
      ∙ read_records-record_words (p ∷ chunk) (w ++ after) in
    subst
      (Describes (before ++ ((ws ++ w) ++ after))
        (entry_of (p ∷ chunk) (length before * 8) ∷ index))
      (ap (◌∷◌ p) (take-drop size pairs)) (block p chunk rest (length before * 8) index read later)

abbrev pub last_at : List BlockIndexEntry → ℕ → ℕ
last_at index i = (get_or index i no_entry).last_key

-- The last keys of the blocks ascend with the records.
last_at_above :
    {file : List ℕ} {index : List BlockIndexEntry} {pairs : Dict ℕ} (n i : ℕ)
    → Describes file index pairs
    → AreAscending pairs
    → AllAbove n pairs
    → i < length index
    → n < last_at index i
last_at_above n i nothing a above h = absurd (omega arith)
last_at_above n zero (block p chunk rest offset index read d) a above h =
    last_above n p chunk (AllAbove-append n (p ∷ chunk) rest above).0
last_at_above n (suc i) (block p chunk rest offset index read d) a above h =
    last_at_above n i d (AreAscending-append (p ∷ chunk) rest a).1
      (AllAbove-append n (p ∷ chunk) rest above).1 (omega arith)

pub last_at_mono :
    {file : List ℕ} {index : List BlockIndexEntry} {pairs : Dict ℕ} (i j : ℕ)
    → Describes file index pairs
    → AreAscending pairs
    → i ≤ j
    → j < length index
    → last_at index i ≤ last_at index j
last_at_mono i j nothing a le h = absurd (omega arith)
last_at_mono zero zero (block p chunk rest offset index read d) a le h = omega arith
last_at_mono zero (suc j) (block p chunk rest offset index read d) a le h =
    let above = AllAbove-last_of p chunk rest a in
    let later =
      last_at_above (last_of (p ∷ chunk)) j d (AreAscending-append (p ∷ chunk) rest a).1 above
        (omega arith) in
    omega arith
last_at_mono (suc i) zero (block p chunk rest offset index read d) a le h = absurd (omega arith)
last_at_mono (suc i) (suc j) (block p chunk rest offset index read d) a le h =
    last_at_mono i j d (AreAscending-append (p ∷ chunk) rest a).1 (omega arith) (omega arith)

-- The first block whose last key is not below the key, or the number of blocks.
pub record IsBoundary (index : List BlockIndexEntry) (key r : ℕ) : Type 0 where
  pub inside : r ≤ length index
  pub below : (i : ℕ) → i < r → last_at index i < key
  pub from : (i : ℕ) → r ≤ i → i < length index → key ≤ last_at index i

pub search_index-IsBoundary :
    (n : ℕ) (index : List BlockIndexEntry) (key low high : ℕ)
    → ((i j : ℕ) → i ≤ j → j < length index → last_at index i ≤ last_at index j)
    → low ≤ high
    → high ≤ length index
    → high - low ≤ n
    → ((i : ℕ) → i < low → last_at index i < key)
    → ((i : ℕ) → high ≤ i → i < length index → key ≤ last_at index i)
    → IsBoundary index key (search_index n index key low high high)
unfolding search_index
search_index-IsBoundary zero index key low high mono a b c l r = record {
  inside = b;
  below = λ i h. l i (omega arith);
  from = r;
}
search_index-IsBoundary (suc n) index key low high mono a b c l r =
    let mid = low + (high - low) / 2 in
    elim (Bool-cases (ltb low high)) [
      | inr over ↦
          rw over (record { inside = b; below = λ i h. l i (ground (arith, over)); from = r })
      | inl more ↦
          let lt : low < high = ground (arith, more) in
          elim (Bool-cases (leb key (last_at index mid))) [
            | inl left ↦
                rw (more, left)
                  (search_index-IsBoundary n index key low mid mono (omega arith) (omega arith)
                    (omega arith) l (λ i h k. ground (arith, left, mono mid i)))
            | inr right ↦
                rw (more, right)
                  (search_index-IsBoundary n index key (mid + 1) high mono (omega arith) b
                    (omega arith) (λ i h. ground (arith, right, mono i mid)) r)
          ]
    ]
