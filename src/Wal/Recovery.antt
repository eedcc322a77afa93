-- ===== src/Wal/Recovery.antt =====
-- wal_storage_engine.hpp, `recover`: the index that a file gives, after changes and after damage.
use cpp_interview.Prelude.{
  ℕ, ◌+◌, ◌≡◌, refl, ap, ◌∙◌, true, false, Option, none, some, List, [], ◌∷◌, ◌++◌, arith, ◌==◌,
  if◌then◌else◌, max, ==_iff,
}
use cpp_interview.Prelude.Dict.{Dict, find, assign, erase, find-assign, find-erase}
use mathlib.Core.Path.{fun_ext}
use mathlib.Core.List.{append_assoc}
use cpp_interview.Wal.{
  WalOp, put_op, del_op, WalBlock, FileItem, whole, torn, WalStorageEngine, compute_checksum,
  block_of, put, del, get, new_engine, accepts, apply, replay, recover,
}

==_refl : (a : ℕ) → (a == a) ≡ true
==_refl a = (==_iff a a).1 refl

-- A block that `put` or `del` writes passes the checks.
accepts-block_of : (op : WalOp) (seq key value : ℕ) → accepts (block_of op seq key value) ≡ true
unfolding accepts block_of compute_checksum
accepts-block_of op seq key value = ==_refl (compute_checksum (block_of op seq key value))

-- Every block of the file is whole and passes the checks.
abbrev pub IsClean : List FileItem → Type 0
IsClean [] = Unit {0}
IsClean (torn ∷ file) = ⊥
IsClean (whole b ∷ file) = (accepts b ≡ true) × IsClean file

replay-append :
    (file more : List FileItem) (seq : ℕ) (index : Dict ℕ)
    → IsClean file
    → replay (file ++ more) seq index
      ≡ replay more (replay file seq index).0 (replay file seq index).1
unfolding replay
replay-append [] more seq index c = refl
replay-append (torn ∷ file) more seq index c = absurd c
replay-append (whole b ∷ file) more seq index c =
    rw c.0 (replay-append file more (max seq b.seq_num) (apply b index) c.1)

IsClean-append :
    (file : List FileItem) (b : WalBlock)
    → IsClean file
    → accepts b ≡ true
    → IsClean (file ++ (whole b ∷ []))
IsClean-append [] b c h = (h, tt)
IsClean-append (torn ∷ file) b c h = absurd c
IsClean-append (whole a ∷ file) b c h = (c.0, IsClean-append file b c.1 h)

-- The index and the sequence number are those that the file gives, and the file is clean.
pub record IsSynced (e : WalStorageEngine) : Type 0 where
  pub clean : IsClean e.file
  pub same : replay e.file 0 [] ≡ (e.current_seq, e.index)

replay-whole :
    (e : WalStorageEngine) (b : WalBlock)
    → IsSynced e
    → accepts b ≡ true
    → replay (e.file ++ (whole b ∷ [])) 0 [] ≡ (max e.current_seq b.seq_num, apply b e.index)
unfolding replay
replay-whole e b h ok = rw (replay-append e.file (whole b ∷ []) 0 [] h.clean) (rw (h.same, ok) refl)

replay-torn :
    (e : WalStorageEngine) (more : List FileItem)
    → IsSynced e
    → replay (e.file ++ (torn ∷ more)) 0 [] ≡ (e.current_seq, e.index)
unfolding replay
replay-torn e more h = rw (replay-append e.file (torn ∷ more) 0 [] h.clean) (rw h.same refl)

pub new_engine-IsSynced : IsSynced new_engine
unfolding replay
new_engine-IsSynced = record { clean = tt; same = refl }

-- A `put` whose block is written whole keeps the index that of the file.
pub put-IsSynced :
    (e : WalStorageEngine) (key value : ℕ) → IsSynced e → IsSynced (put true e key value).1
unfolding put block_of apply
put-IsSynced e key value h =
    let b = block_of put_op (e.current_seq + 1) key value in
    let ok = accepts-block_of put_op (e.current_seq + 1) key value in
    record {
      clean = IsClean-append e.file b h.clean ok;
      same = replay-whole e b h ok ∙ ap (λ n. (n, assign key value e.index)) (omega arith);
    }

pub del-IsSynced : (e : WalStorageEngine) (key : ℕ) → IsSynced e → IsSynced (del true e key).1
unfolding del block_of apply
del-IsSynced e key h =
    let b = block_of del_op (e.current_seq + 1) key 0 in
    let ok = accepts-block_of del_op (e.current_seq + 1) key 0 in
    record {
      clean = IsClean-append e.file b h.clean ok;
      same = replay-whole e b h ok ∙ ap (λ n. (n, erase key e.index)) (omega arith);
    }

-- The changes of a client.
pub data Change : Type 0 where
  puts : ℕ → ℕ → Change
  dels : ℕ → Change

pub run : WalStorageEngine → List Change → WalStorageEngine
run e [] = e
run e (puts key value ∷ changes) = run (put true e key value).1 changes
run e (dels key ∷ changes) = run (del true e key).1 changes

-- The last change of a key, on a map given by its lookups.
unfoldable pub after_changes : List Change → (ℕ → Option ℕ) → ℕ → Option ℕ
after_changes [] lookup k = lookup k
after_changes (puts key value ∷ changes) lookup k =
    after_changes changes (λ j. if key == j then some value else lookup j) k
after_changes (dels key ∷ changes) lookup k =
    after_changes changes (λ j. if key == j then none else lookup j) k

run-IsSynced :
    (e : WalStorageEngine) (changes : List Change) → IsSynced e → IsSynced (run e changes)
unfolding run
run-IsSynced e [] h = h
run-IsSynced e (puts key value ∷ changes) h =
    run-IsSynced (put true e key value).1 changes (put-IsSynced e key value h)
run-IsSynced e (dels key ∷ changes) h =
    run-IsSynced (del true e key).1 changes (del-IsSynced e key h)

get-run :
    (e : WalStorageEngine) (changes : List Change) (k : ℕ)
    → get (run e changes) k ≡ after_changes changes (get e) k
unfolding run after_changes get put del
get-run e [] k = refl
get-run e (puts key value ∷ changes) k =
    get-run (put true e key value).1 changes k
    ∙ ap (λ lookup. after_changes changes lookup k) (fun_ext (λ j. find-assign key j value e.index))
get-run e (dels key ∷ changes) k =
    get-run (del true e key).1 changes k
    ∙ ap (λ lookup. after_changes changes lookup k) (fun_ext (λ j. find-erase key j e.index))

-- The change that a crash interrupts: it leaves a torn block, or nothing.
abbrev pub interrupted : WalStorageEngine → Option Change → WalStorageEngine
interrupted e none = e
interrupted e (some (puts key value)) = (put false e key value).1
interrupted e (some (dels key)) = (del false e key).1

recover-interrupted :
    (e : WalStorageEngine) (last : Option Change)
    → IsSynced e
    → (recover true (interrupted e last)).1.index ≡ e.index
unfolding recover put del
recover-interrupted e none h = ap (λ r. r.1) h.same
recover-interrupted e (some (puts key value)) h = ap (λ r. r.1) (replay-torn e [] h)
recover-interrupted e (some (dels key)) h = ap (λ r. r.1) (replay-torn e [] h)

-- From an engine whose index is that of its file, after any changes that were written whole, and one more that a crash cuts short or none, a
-- recovery answers every key as its last whole change left it.
pub recover-run :
    (e : WalStorageEngine) (changes : List Change) (last : Option Change) (k : ℕ)
    → IsSynced e
    → get (recover true (interrupted (run e changes) last)).1 k ≡ after_changes changes (get e) k
unfolding get
recover-run e changes last k h =
    ap (find k) (recover-interrupted (run e changes) last (run-IsSynced e changes h))
    ∙ get-run e changes k

-- In a file of good blocks, one that fails its checks hides what is behind it: the recovery is that of the file before it.
pub replay-corrupt :
    (file more : List FileItem) (b : WalBlock)
    → IsClean file
    → accepts b ≡ false
    → replay (file ++ (whole b ∷ more)) 0 [] ≡ replay file 0 []
unfolding replay
replay-corrupt file more b c bad = rw (replay-append file (whole b ∷ more) 0 [] c) (rw bad refl)

-- A torn block is never cut off the file. In an engine whose index is that of its file, after a `put` that fails on one, a `put` of another value
-- succeeds and is read back, but a recovery no longer finds it: it answers as before both.
pub put-torn :
    (e : WalStorageEngine) (key value k v : ℕ)
    → IsSynced e
    → let (failed, e1) = put false e key value in
      let (done, e2) = put true e1 k v in
      (failed ≡ false) × (done ≡ true) × (get e2 k ≡ some v) × (get (recover true e2).1 k ≡ get e k)
unfolding put get recover
put-torn e key value k v h =
    let b = block_of put_op (e.current_seq + 1 + 1) k v in
    (
      refl,
      refl,
      ground (arith, find-assign k k v e.index),
      ap (λ r. find k r.1)
          (ap (λ f. replay f 0 []) (append_assoc e.file (torn ∷ []) (whole b ∷ []))
            ∙ replay-torn e (whole b ∷ []) h),
    )
