-- ===== src/Lsm/SsTable/Lookup.antt =====
-- sstable.hpp: a table that was built and opened answers as the pairs that it was built from.
use cpp_interview.Prelude.{
  ℕ, zero, suc, ◌+◌, ◌-◌, ◌*◌, ◌/◌, ◌≤◌, ◌≡◌, refl, ap, sym, ◌∙◌, Bool, true, false, none, some,
  List, [], ◌∷◌, ◌++◌, ◌==◌, leb, if◌then◌else◌, length, get_or, drop, arith, subst, Bool-cases,
  inl, inr, length-append, Option-cases,
}
use cpp_interview.Prelude.Dict.{Dict, find}
use cpp_interview.Lsm.Bloom
use cpp_interview.Lsm.Bloom.{BloomFilter}
use cpp_interview.Lsm.Bloom.Membership.{
  add-IsValid, IsValid, contains-add_self, contains-add_mono, new_filter-IsValid,
}
use cpp_interview.Lsm.SsTable.{
  SsTable, Footer, index_words, footer_words, read_records, read_index, read_words, BlockIndexEntry,
  write_blocks, search_index, no_entry, at_offset, add_pairs, file_of, build, load, open_table, get,
  find_record, records_per_block, footer_magic,
}
use cpp_interview.Lsm.SsTable.Records.{
  AreAscending, drop-append, find_above, find-append, last_of, AllAbove-last_of,
  AreAscending-append, find_past, find_record-find, read_index-index_words, read_words_lem,
}
use cpp_interview.Lsm.SsTable.Index.{
  Describes, nothing, block, write_blocks-Describes, last_at_mono, IsBoundary,
  search_index-IsBoundary, append_assoc,
}

-- The block at the boundary, if there is one, holds what the records hold for the key.
find_in_block :
    {file : List ℕ} {index : List BlockIndexEntry} {pairs : Dict ℕ} (key r : ℕ)
    → Describes file index pairs
    → AreAscending pairs
    → IsBoundary index key r
    → let entry = get_or index r no_entry in
      (if leb (length index) r
        then none
        else find_record key (read_records entry.count (at_offset file entry.offset)))
      ≡ find key pairs
unfolding find
find_in_block key r nothing a b = ground arith
find_in_block {file} key zero (block p chunk rest offset index read d) a b =
    let (a0, a1) = AreAscending-append (p ∷ chunk) rest a in
    let absent =
      find_above key (last_of (p ∷ chunk)) rest (AllAbove-last_of p chunk rest a)
        (b.from 0 (omega arith) (omega arith)) in
    let here : find_record key (read_records (length (p ∷ chunk)) (at_offset file offset))
        ≡ find key (p ∷ chunk) =
      ap (find_record key) read ∙ find_record-find key (p ∷ chunk) a0 in
    ground (arith, here, absent, find-append key (p ∷ chunk) rest)
find_in_block key (suc r) (block p chunk rest offset index read d) a b =
    let (a0, a1) = AreAscending-append (p ∷ chunk) rest a in
    let past = find_past key p chunk a0 (b.below 0 (omega arith)) in
    let tail : IsBoundary index key r = record {
      inside = omega (arith, b.inside);
      below = λ i h. b.below (suc i) (omega arith);
      from = λ i h k. b.from (suc i) (omega arith) (omega arith);
    } in
    ground (arith, past, find-append key (p ∷ chunk) rest, find_in_block key r d a1 tail)

add_pairs-IsValid : (pairs : Dict ℕ) (b : BloomFilter) → IsValid b → IsValid (add_pairs pairs b)
unfolding add_pairs
add_pairs-IsValid [] b v = v
add_pairs-IsValid ((k, v) ∷ pairs) b s = add_pairs-IsValid pairs (Bloom.add b k) (add-IsValid b k s)

contains-add_pairs_mono :
    (pairs : Dict ℕ) (b : BloomFilter) (key : ℕ)
    → IsValid b
    → Bloom.contains b key ≡ true
    → Bloom.contains (add_pairs pairs b) key ≡ true
unfolding add_pairs
contains-add_pairs_mono [] b key s h = h
contains-add_pairs_mono ((k, v) ∷ pairs) b key s h =
    contains-add_pairs_mono pairs (Bloom.add b k) key (add-IsValid b k s)
      (contains-add_mono b k key s h)

-- The filter lets through every key that has a record.
contains-add_pairs :
    (pairs : Dict ℕ) (b : BloomFilter) (key v : ℕ)
    → IsValid b
    → find key pairs ≡ some v
    → Bloom.contains (add_pairs pairs b) key ≡ true
unfolding add_pairs find
contains-add_pairs [] b key v s h = cc
contains-add_pairs ((k, w) ∷ pairs) b key v s h = elim (Bool-cases (k == key)) [
  | inl e ↦
      let same : k ≡ key = ground (arith, e) in
      contains-add_pairs_mono pairs (Bloom.add b k) key (add-IsValid b k s)
        (subst (λ t. Bloom.contains (Bloom.add b k) t ≡ true) same (contains-add_self b k s))
  | inr ne ↦
      contains-add_pairs pairs (Bloom.add b k) key v (add-IsValid b k s) (ground (arith, h, ne))
]

-- A file with a good footer is opened.
open_table_run :
    (file : List ℕ) (footer : Footer)
    → 6 ≤ length file
    → drop (length file - 6) file ≡ footer_words footer
    → footer.magic ≡ footer_magic
    → open_table true file ≡ some (load file footer)
unfolding open_table
open_table_run file footer long e m = rw e (ground (arith, m))

drop_last : (xs ys : List ℕ) (n : ℕ) → length ys ≡ n → drop (length (xs ++ ys) - n) (xs ++ ys) ≡ ys
drop_last xs ys n e =
    let at : length (xs ++ ys) - n ≡ length xs = omega (arith, length-append xs ys) in
    ap (λ i. drop i (xs ++ ys)) at ∙ drop-append xs ys

-- What `open` reads back of a file.
loaded :
    (words : List ℕ) (index : List BlockIndexEntry) (bits : List ℕ) (num_bits num_hashes : ℕ)
    → (num_bits + 63) / 64 ≡ length bits
    → let index_offset = length words * 8 in
      let bloom_offset = index_offset + length (index_words index) * 8 in
      let footer : Footer = record {
        magic = footer_magic;
        index_offset = index_offset;
        index_count = length index;
        bloom_offset = bloom_offset;
        bloom_num_bits = num_bits;
        bloom_num_hashes = num_hashes;
      } in
      let file = words ++ (index_words index ++ (bits ++ footer_words footer)) in
      open_table true file
      ≡ some (record {
        file = file;
        bloom = record { num_bits = num_bits; num_hashes = num_hashes; bits = bits };
        index = index;
      })
unfolding open_table load
loaded words index bits num_bits num_hashes sized =
    let iw = index_words index in
    let footer : Footer = record {
      magic = footer_magic;
      index_offset = length words * 8;
      index_count = length index;
      bloom_offset = length words * 8 + length iw * 8;
      bloom_num_bits = num_bits;
      bloom_num_hashes = num_hashes;
    } in
    let fw = footer_words footer in
    let file = words ++ (iw ++ (bits ++ fw)) in
    let split : file ≡ (words ++ (iw ++ bits)) ++ fw =
      ap (λ t. words ++ t) (sym (append_assoc iw bits fw))
      ∙ sym (append_assoc words (iw ++ bits) fw) in
    let split2 : file ≡ (words ++ iw) ++ (bits ++ fw) = sym (append_assoc words iw (bits ++ fw)) in
    let tail : drop (length file - 6) file ≡ fw =
      ap (λ t. drop (length t - 6) t) split
      ∙ drop_last (words ++ (iw ++ bits)) fw 6 (omega arith) in
    let long : 6 ≤ length file =
      omega (arith, ap length split, length-append (words ++ (iw ++ bits)) fw) in
    let at_index : at_offset file (length words * 8) ≡ iw ++ (bits ++ fw) =
      let n : length words * 8 / 8 ≡ length words = omega arith in
      ap (λ t. drop t file) n ∙ drop-append words (iw ++ (bits ++ fw)) in
    let at_bloom : at_offset file (length words * 8 + length iw * 8) ≡ bits ++ fw =
      let n : (length words * 8 + length iw * 8) / 8 ≡ length (words ++ iw) =
        omega (arith, length-append words iw) in
      ap (λ t. drop t file) n
      ∙ ap (drop (length (words ++ iw))) split2
      ∙ drop-append (words ++ iw) (bits ++ fw) in
    let index_back : read_index (length index) (at_offset file (length words * 8)) ≡ index =
      ap (read_index (length index)) at_index ∙ read_index-index_words index (bits ++ fw) in
    let bits_back : read_words ((num_bits + 63) / 64)
          (at_offset file (length words * 8 + length iw * 8))
        ≡ bits =
      ap (λ n. read_words n (at_offset file (length words * 8 + length iw * 8))) sized
      ∙ ap (read_words (length bits)) at_bloom
      ∙ read_words_lem bits fw in
    open_table_run file footer long tail refl
    ∙ ap
        (λ (t : List ℕ × List BlockIndexEntry). some (record {
          file = file;
          bloom = record { num_bits = num_bits; num_hashes = num_hashes; bits = t.0 };
          index = t.1;
        }))
        (λ i. (bits_back i, index_back i))

-- A table whose index describes ascending records, and whose filter lets their keys through.
get_lem :
    (t : SsTable) (pairs : Dict ℕ) (key : ℕ)
    → AreAscending pairs
    → Describes t.file t.index pairs
    → ((v : ℕ) → find key pairs ≡ some v → Bloom.contains t.bloom key ≡ true)
    → get t key ≡ find key pairs
unfolding get
get_lem t pairs key a d through =
    let n = length t.index in
    let b =
      search_index-IsBoundary n t.index key 0 n (λ i j. last_at_mono i j d a) (omega arith)
        (omega arith) (omega arith) (λ i h. absurd (omega arith)) (λ i h k. absurd (omega arith)) in
    let inside = find_in_block key (search_index n t.index key 0 n n) d a b in
    elim (Bool-cases (Bloom.contains t.bloom key)) [
      | inl shown ↦ rw shown inside
      | inr hidden ↦ rw hidden (elim (Option-cases (find key pairs)) [
        | inl e ↦ sym e
        | inr (v, e) ↦ ground (arith, hidden, through v e)
      ])
    ]

-- For ascending records, `build` writes a file that `open` opens, and the table answers every key as
-- the records do, present or absent.
pub get-build :
    (ceil_m : ℕ → ℕ) (round_k : ℕ → ℕ → ℕ) (p : ℕ × ℕ) (pairs : Dict ℕ)
    → AreAscending (p ∷ pairs)
    → (file : List ℕ) × (t : SsTable) × (build ceil_m round_k true (p ∷ pairs) ≡ some file)
      × (open_table true file ≡ some t)
      × ((key : ℕ) → get t key ≡ find key (p ∷ pairs))
unfolding build file_of
get-build ceil_m round_k p pairs a =
    let all : Dict ℕ = p ∷ pairs in
    let filter = Bloom.new_filter ceil_m round_k (length all) in
    let fresh = new_filter-IsValid ceil_m round_k (length all) in
    let bloom = add_pairs all filter in
    let v = add_pairs-IsValid all filter fresh in
    let words = (write_blocks records_per_block (length all) all 0).0 in
    let index = (write_blocks records_per_block (length all) all 0).1 in
    let t : SsTable = record { file = file_of filter all; bloom = bloom; index = index } in
    (
      file_of filter all,
      t,
      refl,
      loaded words index bloom.bits bloom.num_bits bloom.num_hashes v.words,
      λ key.
          get_lem t all key a (write_blocks-Describes 127 (length all) all [] _ (omega arith))
            (λ w h. contains-add_pairs all filter key w fresh h),
    )

pub build-empty :
    (ceil_m : ℕ → ℕ) (round_k : ℕ → ℕ → ℕ) (opened : Bool) → build ceil_m round_k opened [] ≡ none
unfolding build
build-empty ceil_m round_k opened = refl

pub build_refused :
    (ceil_m : ℕ → ℕ) (round_k : ℕ → ℕ → ℕ) (pairs : Dict ℕ)
    → build ceil_m round_k false pairs ≡ none
unfolding build
build_refused ceil_m round_k [] = refl
build_refused ceil_m round_k (p ∷ pairs) = refl
