-- ===== src/Pool/Replacer.antt =====
-- projects/concurrent_buffer_pool_manager/lru_k_replacer.hpp. The mutex makes each call one step;
-- the clock does not wrap.
pub mod Victim
pub mod Evict
use cpp_interview.Prelude.{
  ℕ, suc, ◌+◌, ◌-◌, ◌≡◌, Bool, true, false, not, ◌&&◌, ◌||◌, Option, none, some, List, [], ◌∷◌,
  ◌++◌, ltb, ◌==◌, if◌then◌else◌, length, get_or, drop,
}
use cpp_interview.Prelude.Dict.{Dict, find, assign, erase}

pub record FrameNode : Type 0 where
  pub history : List ℕ
  pub is_evictable : Bool

pub record LruKReplacer : Type 0 where
  pub k : ℕ
  pub curr_size : ℕ
  pub current_timestamp : ℕ
  pub entries : Dict FrameNode

abbrev pub new_replacer : ℕ → LruKReplacer
new_replacer k = record { k = k; curr_size = 0; current_timestamp = 0; entries = [] }

-- `entries_[frame_id]`
abbrev pub node_at : ℕ → Dict FrameNode → FrameNode
node_at f entries = elim (find f entries) [
  | none ↦ record { history = []; is_evictable = false }
  | some n ↦ n
]

-- `push_back`, then `pop_front` above `k`.
abbrev pub push_history : ℕ → ℕ → List ℕ → List ℕ
push_history k now history =
    let longer = history ++ (now ∷ []) in if ltb k (length longer) then drop 1 longer else longer

unfoldable pub record_access : LruKReplacer → ℕ → LruKReplacer
record_access r f =
    let now = r.current_timestamp + 1 in
    let node = node_at f r.entries in
    record r {
      current_timestamp = now;
      entries = assign f (record node { history = push_history r.k now node.history }) r.entries;
    }

abbrev differ : Bool → Bool → Bool
differ true b = not b
differ false b = b

unfoldable pub set_evictable : LruKReplacer → ℕ → Bool → LruKReplacer
set_evictable r f evictable = elim (find f r.entries) [
  | none ↦ r
  | some node ↦
      if differ node.is_evictable evictable
      then record r {
        entries = assign f (record node { is_evictable = evictable }) r.entries;
        curr_size = if evictable then r.curr_size + 1 else r.curr_size - 1;
      }
      else r
]

-- The local variables of `victim`. `earliest` is `earliest_inf_timestamp`, read only once
-- `found_inf` is set.
pub record Scan : Type 0 where
  pub victim_id : ℕ
  pub max_k_distance : ℕ
  pub earliest : ℕ
  pub found_inf : Bool
  pub found_any : Bool

abbrev pub start_scan : Scan
start_scan = record {
  victim_id = 0;
  max_k_distance = 0;
  earliest = 0xffff_ffff_ffff_ffff;
  found_inf = false;
  found_any = false;
}

abbrev pub front : FrameNode → ℕ
front node = get_or node.history 0 0

-- The body of the loop.
unfoldable pub visit : ℕ → ℕ → ℕ × FrameNode → Scan → Scan
visit k now (f, node) s =
    if not node.is_evictable
    then s
    else if ltb (length node.history) k
    then (if not s.found_inf || ltb (front node) s.earliest
        then record s { found_inf = true; earliest = front node; victim_id = f; found_any = true }
        else s)
    else if not s.found_inf
    then (if not s.found_any || ltb s.max_k_distance (now - front node)
        then record s { max_k_distance = now - front node; victim_id = f; found_any = true }
        else s)
    else s

unfoldable pub scan : ℕ → ℕ → Dict FrameNode → Scan → Scan
scan k now [] s = s
scan k now (e ∷ entries) s = scan k now entries (visit k now e s)

unfoldable pub victim : LruKReplacer → Option ℕ × LruKReplacer
unfolding scan visit
victim r =
    let s = scan r.k r.current_timestamp r.entries start_scan in
    if r.curr_size == 0
    then (none, r)
    else if s.found_any
    then (
      some s.victim_id,
      record r { entries = erase s.victim_id r.entries; curr_size = r.curr_size - 1 },
    )
    else (none, r)

unfoldable pub remove : LruKReplacer → ℕ → LruKReplacer
remove r f = elim (find f r.entries) [
  | none ↦ r
  | some node ↦ record r {
    curr_size = if node.is_evictable then r.curr_size - 1 else r.curr_size;
    entries = erase f r.entries;
  }
]

pub size : LruKReplacer → ℕ
size r = r.curr_size
