-- ===== src/Lsm/SsTable.antt =====
-- sstable.hpp. A file is the list of its 64-bit words: every structure that is written to it is a
-- whole number of words, so a byte offset is eight times a position. Writes and reads are whole, as
-- the code ignores their results; offsets do not wrap.
pub mod Records
pub mod Index
pub mod Lookup
use cpp_interview.Prelude.{
  ℕ, zero, suc, ◌+◌, ◌-◌, ◌*◌, ◌/◌, ◌%◌, ◌^◌, Bool, true, false, Option, none, some, List, [], ◌∷◌,
  ◌++◌, map, ◌==◌, ltb, leb, if◌then◌else◌, length, get_or, take, drop,
}
use cpp_interview.Prelude.Dict.{Dict}
use cpp_interview.Lsm.Bloom
use cpp_interview.Lsm.Bloom.{BloomFilter}

pub record BlockIndexEntry : Type 0 where
  pub last_key : ℕ
  pub offset : ℕ
  pub count : ℕ

pub record Footer : Type 0 where
  pub magic : ℕ
  pub index_offset : ℕ
  pub index_count : ℕ
  pub bloom_offset : ℕ
  pub bloom_num_bits : ℕ
  pub bloom_num_hashes : ℕ

abbrev pub footer_magic : ℕ
footer_magic = 0x53535431

abbrev pub records_per_block : ℕ
records_per_block = 128

pub record SsTable : Type 0 where
  pub file : List ℕ
  pub bloom : BloomFilter
  pub index : List BlockIndexEntry

-- The words of records, of the index and of the footer, as they are written.
unfoldable pub record_words : Dict ℕ → List ℕ
record_words [] = []
record_words ((k, v) ∷ records) = k ∷ v ∷ record_words records

unfoldable pub index_words : List BlockIndexEntry → List ℕ
index_words [] = []
index_words (e ∷ index) = e.last_key ∷ e.offset ∷ e.count ∷ index_words index

abbrev pub footer_words : Footer → List ℕ
footer_words f =
    f.magic ∷ f.index_offset ∷ f.index_count ∷ f.bloom_offset ∷ f.bloom_num_bits
    ∷ f.bloom_num_hashes ∷ []

-- What `pread` leaves in a vector of so many elements that was zero before.
unfoldable pub read_records : ℕ → List ℕ → Dict ℕ
read_records zero words = []
read_records (suc n) words = (get_or words 0 0, get_or words 1 0) ∷ read_records n (drop 2 words)

unfoldable pub read_index : ℕ → List ℕ → List BlockIndexEntry
read_index zero words = []
read_index (suc n) words =
    record { last_key = get_or words 0 0; offset = get_or words 1 0; count = get_or words 2 0 }
    ∷ read_index n (drop 3 words)

unfoldable pub read_words : ℕ → List ℕ → List ℕ
read_words zero words = []
read_words (suc n) words = get_or words 0 0 ∷ read_words n (drop 1 words)

abbrev pub read_footer : List ℕ → Footer
read_footer words = record {
  magic = get_or words 0 0;
  index_offset = get_or words 1 0;
  index_count = get_or words 2 0;
  bloom_offset = get_or words 3 0;
  bloom_num_bits = get_or words 4 0;
  bloom_num_hashes = get_or words 5 0;
}

-- The file from a byte offset on.
abbrev pub at_offset : List ℕ → ℕ → List ℕ
at_offset file offset = drop (offset / 8) file

-- The entry of a block of records that is written at an offset.
abbrev pub entry_of : Dict ℕ → ℕ → BlockIndexEntry
entry_of chunk offset = record {
  last_key = (get_or chunk (length chunk - 1) (0, 0)).0;
  offset = offset;
  count = length chunk;
}

-- The loop over the blocks: the words written and the index. The first argument bounds the rounds.
unfoldable pub write_blocks : ℕ → ℕ → Dict ℕ → ℕ → List ℕ × List BlockIndexEntry
write_blocks size zero pairs offset = ([], [])
write_blocks size (suc n) [] offset = ([], [])
write_blocks size (suc n) (p ∷ pairs) offset =
    let chunk = take size (p ∷ pairs) in
    let (words, index) =
      write_blocks size n (drop size (p ∷ pairs)) (offset + length (record_words chunk) * 8) in
    (record_words chunk ++ words, entry_of chunk offset ∷ index)

-- `bloom.add(k)` for each pair.
unfoldable pub add_pairs : Dict ℕ → BloomFilter → BloomFilter
add_pairs [] b = b
add_pairs ((k, v) ∷ pairs) b = add_pairs pairs (Bloom.add b k)

-- The words of the file that is built from the pairs of the memtable, with a filter to start from.
pub file_of : BloomFilter → Dict ℕ → List ℕ
file_of filter pairs =
    let bloom = add_pairs pairs filter in
    let (words, index) = write_blocks records_per_block (length pairs) pairs 0 in
    let index_offset = length words * 8 in
    let bloom_offset = index_offset + length (index_words index) * 8 in
    words
    ++ (index_words index
        ++ (bloom.bits
            ++ footer_words (record {
              magic = footer_magic;
              index_offset = index_offset;
              index_count = length index;
              bloom_offset = bloom_offset;
              bloom_num_bits = bloom.num_bits;
              bloom_num_hashes = bloom.num_hashes;
            })))

-- `opened` is whether `::open` succeeds. The result is the file, if `build` returns true.
pub build : (ℕ → ℕ) → (ℕ → ℕ → ℕ) → Bool → Dict ℕ → Option (List ℕ)
unfolding file_of
build ceil_m round_k opened [] = none
build ceil_m round_k opened (p ∷ pairs) =
    if opened
    then some (file_of (Bloom.new_filter ceil_m round_k (length (p ∷ pairs))) (p ∷ pairs))
    else none

-- The table that is read from a file with this footer.
pub load : List ℕ → Footer → SsTable
load file footer = record {
  file = file;
  bloom = record {
    num_bits = footer.bloom_num_bits;
    num_hashes = footer.bloom_num_hashes;
    bits = read_words ((footer.bloom_num_bits + 63) / 64) (at_offset file footer.bloom_offset);
  };
  index = read_index footer.index_count (at_offset file footer.index_offset);
}

pub open_table : Bool → List ℕ → Option SsTable
unfolding load
open_table opened file =
    let footer = read_footer (drop (length file - 6) file) in
    if opened
    then (if ltb (length file) 6
        then none
        else if footer.magic % 2 ^ 32 == footer_magic
        then some (load file footer)
        else none)
    else none

abbrev pub no_entry : BlockIndexEntry
no_entry = record { last_key = 0; offset = 0; count = 0 }

-- The binary search in the index. The first argument bounds the rounds.
pub search_index : ℕ → List BlockIndexEntry → ℕ → ℕ → ℕ → ℕ → ℕ
search_index zero index key low high block_idx = block_idx
search_index (suc n) index key low high block_idx =
    let mid = low + (high - low) / 2 in
    let left = search_index n index key low mid mid in
    let right = search_index n index key (mid + 1) high block_idx in
    if ltb low high
    then (if leb key (get_or index mid no_entry).last_key then left else right)
    else block_idx

-- `std::lower_bound`: the first record whose key is not below the one sought.
pub lower_record : ℕ → Dict ℕ → Option (ℕ × ℕ)
lower_record key [] = none
lower_record key ((k, v) ∷ records) = if ltb k key then lower_record key records else some (k, v)

pub find_record : ℕ → Dict ℕ → Option ℕ
unfolding lower_record
find_record key records = elim (lower_record key records) [
  | none ↦ none
  | some (k, v) ↦ if k == key then some v else none
]

pub get : SsTable → ℕ → Option ℕ
unfolding search_index find_record
get t key =
    let n = length t.index in
    let block_idx = search_index n t.index key 0 n n in
    let entry = get_or t.index block_idx no_entry in
    let records = read_records entry.count (at_offset t.file entry.offset) in
    if Bloom.contains t.bloom key
    then (if leb n block_idx then none else find_record key records)
    else none
