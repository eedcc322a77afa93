-- ===== src/Wal.antt =====
-- 12-capstone-systems/02-embedded-lsm-kv-database/wal_storage_engine.hpp: an index in memory, and a
-- file with a block for each change. The file is a list of blocks; a write that the system cuts
-- short leaves a torn block, and what is read at or behind it is taken not to pass the checks of
-- `recover` (a short read, or bytes of two blocks under one checksum). Sequence numbers do not wrap.
pub mod Recovery
mod Tests
use Prim.Native.Nat.{bit_xor}
use cpp_interview.Prelude.{
  ℕ, zero, suc, ◌+◌, ◌*◌, ◌/◌, ◌%◌, ◌^◌, Bool, true, false, Option, none, some, List, [], ◌∷◌, ◌++◌,
  ◌==◌, ◌&&◌, if◌then◌else◌, length, max,
}
use cpp_interview.Prelude.Dict.{Dict, find, assign, erase}

pub data WalOp : Type 0 where
  put_op del_op : WalOp

abbrev pub magic_number : ℕ
magic_number = 0x57414C31

pub record WalBlock : Type 0 where
  pub magic : ℕ
  pub checksum : ℕ
  pub seq_num : ℕ
  pub timestamp_ns : ℕ
  pub op : WalOp
  pub padding : ℕ
  pub key : ℕ
  pub value : ℕ
  pub reserved : List ℕ

-- The bytes of an integer, lowest first, as they lie in memory.
le_bytes : ℕ → ℕ → List ℕ
le_bytes zero v = []
le_bytes (suc n) v = (v % 256) ∷ le_bytes n (v / 256)

op_code : WalOp → ℕ
op_code WalOp.put_op = 1
op_code WalOp.del_op = 2

-- The bytes from `seq_num` to the end of the block.
payload : WalBlock → List ℕ
unfolding le_bytes op_code
payload b =
    le_bytes 8 b.seq_num
    ++ (le_bytes 8 b.timestamp_ns
        ++ (le_bytes 4 (op_code b.op)
            ++ (le_bytes 4 b.padding ++ (le_bytes 8 b.key ++ (le_bytes 8 b.value ++ b.reserved)))))

-- FNV-1a on 32 bits.
fnv : ℕ → List ℕ → ℕ
fnv crc [] = crc
fnv crc (byte ∷ bytes) = fnv (bit_xor crc byte * 0x01000193 % 2 ^ 32) bytes

pub compute_checksum : WalBlock → ℕ
unfolding payload fnv
compute_checksum b = fnv 0x811C9DC5 (payload b)

pub data FileItem : Type 0 where
  whole : WalBlock → FileItem
  torn : FileItem

pub record WalStorageEngine : Type 0 where
  pub file : List FileItem
  pub current_seq : ℕ
  pub index : Dict ℕ

zeros : ℕ → List ℕ
zeros zero = []
zeros (suc n) = 0 ∷ zeros n

-- A new engine on an empty file.
abbrev pub new_engine : WalStorageEngine
new_engine = record { file = []; current_seq = 0; index = [] }

-- The block that a change writes, its checksum computed over the rest of it.
block_of : WalOp → ℕ → ℕ → ℕ → WalBlock
block_of op seq key value =
    let block : WalBlock = record {
      magic = magic_number;
      checksum = 0;
      seq_num = seq;
      timestamp_ns = 0;
      op = op;
      padding = 0;
      key = key;
      value = value;
      reserved = zeros 4048;
    } in
    record block { checksum = compute_checksum block }

-- `written` is whether `::write` takes the whole block; if not, part of it may be in the file.
append : Bool → WalBlock → List FileItem → List FileItem
append written block file = file ++ ((if written then whole block else torn) ∷ [])

pub put : Bool → WalStorageEngine → ℕ → ℕ → Bool × WalStorageEngine
unfolding append
put written e key value =
    let seq = e.current_seq + 1 in
    let block = block_of WalOp.put_op seq key value in
    let e' = record e { current_seq = seq; file = append written block e.file } in
    if written then (true, record e' { index = assign key value e.index }) else (false, e')

pub get : WalStorageEngine → ℕ → Option ℕ
get e key = find key e.index

pub del : Bool → WalStorageEngine → ℕ → Bool × WalStorageEngine
unfolding append
del written e key =
    let seq = e.current_seq + 1 in
    let block = block_of WalOp.del_op seq key 0 in
    let e' = record e { current_seq = seq; file = append written block e.file } in
    if written then (true, record e' { index = erase key e.index }) else (false, e')

pub size : WalStorageEngine → ℕ
size e = length e.index

-- The checks of a block that has been read whole.
pub accepts : WalBlock → Bool
accepts block = block.magic == magic_number && block.checksum == compute_checksum block

pub apply : WalBlock → Dict ℕ → Dict ℕ
apply block index = elim block.op [
  | put_op ↦ assign block.key block.value index
  | del_op ↦ erase block.key index
]

-- The loop of `recover`: it stops at the end, at a torn block and at one that fails its checks.
pub replay : List FileItem → ℕ → Dict ℕ → ℕ × Dict ℕ
replay [] seq index = (seq, index)
replay (torn ∷ file) seq index = (seq, index)
replay (whole block ∷ file) seq index =
    let rest = replay file (max seq block.seq_num) (apply block index) in
    if accepts block then rest else (seq, index)

-- `seekable` is whether `lseek` to the start succeeds.
pub recover : Bool → WalStorageEngine → Bool × WalStorageEngine
unfolding replay
recover seekable e =
    let (seq, index) = replay e.file 0 [] in
    if seekable
    then (true, record e { current_seq = seq; index = index })
    else (false, record e { current_seq = 0; index = [] })

pub close : WalStorageEngine → WalStorageEngine
close e = record e { index = [] }

-- `opened` is whether `::open` succeeds; the file keeps what it holds.
pub open_engine : Bool → Bool → WalStorageEngine → Bool × WalStorageEngine
open_engine opened seekable e = if opened then recover seekable e else (false, e)
