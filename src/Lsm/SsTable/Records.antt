-- ===== src/Lsm/SsTable/Records.antt =====
-- sstable.hpp: the records of a block, what is read back of them and the search among them.
use cpp_interview.Prelude.{
  ℕ, suc, ◌-◌, ◌≤◌, ◌<◌, ◌≡◌, refl, ap, ◌∙◌, none, some, List, [], ◌∷◌, ◌++◌, length, get_or, drop,
  arith,
}
use cpp_interview.Prelude.Dict.{Dict, find}
use cpp_interview.Lsm.SsTable.{
  record_words, index_words, read_records, read_index, read_words, BlockIndexEntry, lower_record,
  find_record,
}

-- Every key is above `n`.
abbrev pub AllAbove : ℕ → Dict ℕ → Type 0
AllAbove n [] = Unit {0}
AllAbove n ((k, v) ∷ m) = (n < k) × AllAbove n m

abbrev pub AreAscending : Dict ℕ → Type 0
AreAscending [] = Unit {0}
AreAscending ((k, v) ∷ m) = AllAbove k m × AreAscending m

pub drop-append : {A : Type 0} (xs ys : List A) → drop (length xs) (xs ++ ys) ≡ ys
drop-append [] ys = refl
drop-append (x ∷ xs) ys = drop-append xs ys

pub read_records-record_words :
    (records : Dict ℕ) (more : List ℕ)
    → read_records (length records) (record_words records ++ more) ≡ records
unfolding read_records record_words
read_records-record_words [] more = refl
read_records-record_words ((k, v) ∷ records) more =
    ap (◌∷◌ (k, v)) (read_records-record_words records more)

pub read_index-index_words :
    (index : List BlockIndexEntry) (more : List ℕ)
    → read_index (length index) (index_words index ++ more) ≡ index
unfolding read_index index_words
read_index-index_words [] more = refl
read_index-index_words (e ∷ index) more = ap (◌∷◌ e) (read_index-index_words index more)

pub read_words_lem : (words more : List ℕ) → read_words (length words) (words ++ more) ≡ words
unfolding read_words
read_words_lem [] more = refl
read_words_lem (w ∷ words) more = ap (◌∷◌ w) (read_words_lem words more)

pub find_above : (k n : ℕ) (m : Dict ℕ) → AllAbove n m → k ≤ n → find k m ≡ none
unfolding find
find_above k n [] a h = refl
find_above k n ((j, v) ∷ m) a h = ground (arith, find_above k n m a.1 h)

-- On ascending records the search finds what the key stands with.
pub find_record-find : (key : ℕ) (m : Dict ℕ) → AreAscending m → find_record key m ≡ find key m
unfolding find_record lower_record find
find_record-find key [] a = refl
find_record-find key ((k, v) ∷ m) a =
    ground (arith, find_record-find key m a.1, find_above key k m a.0)

pub find-append :
    (k : ℕ) (a b : Dict ℕ) → find k (a ++ b) ≡ elim (find k a) [ some v ↦ some v | none ↦ find k b ]
unfolding find
find-append k [] b = refl
find-append k ((j, v) ∷ a) b = ground (arith, find-append k a b)

abbrev pub last_of : Dict ℕ → ℕ
last_of chunk = (get_or chunk (length chunk - 1) (0, 0)).0

last_of-cons : (p q : ℕ × ℕ) (a : Dict ℕ) → last_of (p ∷ q ∷ a) ≡ last_of (q ∷ a)
last_of-cons p q a =
    let up : suc (suc (length a)) - 1 ≡ suc (length a) = omega arith in
    let down : length a ≡ suc (length a) - 1 = omega arith in
    ap (λ i. (get_or (p ∷ q ∷ a) i (0, 0)).0) up ∙ ap (λ i. (get_or (q ∷ a) i (0, 0)).0) down

-- In ascending records the last key of the front is above all of it, and below all of the rest.
pub AllAbove-last_of :
    (p : ℕ × ℕ) (a b : Dict ℕ) → AreAscending ((p ∷ a) ++ b) → AllAbove (last_of (p ∷ a)) b
AllAbove-last_of (k, v) [] b h = h.0
AllAbove-last_of (k, v) (q ∷ a) b h = rw (last_of-cons (k, v) q a) (AllAbove-last_of q a b h.1)

pub AllAbove-append : (n : ℕ) (a b : Dict ℕ) → AllAbove n (a ++ b) → AllAbove n a × AllAbove n b
AllAbove-append n [] b h = (tt, h)
AllAbove-append n ((k, v) ∷ a) b h = let (x, y) = AllAbove-append n a b h.1 in ((h.0, x), y)

pub AreAscending-append : (a b : Dict ℕ) → AreAscending (a ++ b) → AreAscending a × AreAscending b
AreAscending-append [] b h = (tt, h)
AreAscending-append ((k, v) ∷ a) b h =
    let (x, y) = AreAscending-append a b h.1 in ((((AllAbove-append k a b h.0).0, x), y))

pub last_above : (n : ℕ) (p : ℕ × ℕ) (a : Dict ℕ) → AllAbove n (p ∷ a) → n < last_of (p ∷ a)
last_above n (k, v) [] h = h.0
last_above n (k, v) (q ∷ a) h = rw (last_of-cons (k, v) q a) (last_above n q a h.1)

-- A key above the last one is not there.
pub find_past :
    (key : ℕ) (p : ℕ × ℕ) (a : Dict ℕ)
    → AreAscending (p ∷ a)
    → last_of (p ∷ a) < key
    → find key (p ∷ a) ≡ none
unfolding find
find_past key (k, v) [] h lt = ground arith
find_past key (k, v) (q ∷ a) h lt =
    let beyond : last_of (q ∷ a) < key = omega (arith, last_of-cons (k, v) q a) in
    ground (arith, find_past key q a h.1 beyond, last_above k q a h.0)
