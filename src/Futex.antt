-- ===== src/Futex.antt =====
-- 06-systems-ipc-and-shared-memory/exercises/futex_mutex.hpp. Any number of callers share the word of
-- the mutex; each function below is one atomic operation of the code, with what the caller does next.
pub mod Exclusion
pub mod Waiting
mod Tests
use cpp_interview.Prelude.{
  ℕ, ◌+◌, ◌%◌, ◌≡◌, ◌≢◌, Bool, true, false, Option, none, some, ◌==◌, if◌then◌else◌,
}

-- Where a caller stands: outside, before the exchange of the word, before the wait, in the wait of the
-- kernel, inside, before the store of `unlock`, before its wake.
pub data Place : Type 0 where
  outside : Place
  exchanging : Place
  sleeping : Place
  waiting : Place
  holding : Place
  storing : Place
  waking : Place

pub record System : Type 0 where
  pub state : ℕ
  pub places : ℕ → Place

abbrev pub new_mutex : System
new_mutex = record { state = 0; places = λ _. Place.outside }

abbrev pub move : ℕ → Place → (ℕ → Place) → ℕ → Place
move t p places u = if t == u then p else places u

-- The first compare-exchange of `lock`.
abbrev pub lock_start : ℕ → System → System
lock_start t s = record {
  state = if s.state == 0 then 1 else s.state;
  places =
      move t
        (if s.state == 0
          then Place.holding
          else if s.state == 2
          then Place.sleeping
          else Place.exchanging)
        s.places;
}

-- `expected = state_.exchange(2)`, and the test of the loop.
abbrev pub exchange : ℕ → System → System
exchange t s = record {
  state = 2;
  places = move t (if s.state == 0 then Place.holding else Place.sleeping) s.places;
}

-- `FUTEX_WAIT` with the value 2: the kernel lets the caller wait only while the word is 2.
abbrev pub wait : ℕ → System → System
wait t s = record s {
  places = move t (if s.state == 2 then Place.waiting else Place.exchanging) s.places;
}

abbrev pub try_lock : ℕ → System → System
try_lock t s = record {
  state = if s.state == 0 then 1 else s.state;
  places = if s.state == 0 then move t Place.holding s.places else s.places;
}

-- `state_.fetch_sub(1)` of `unlock`.
abbrev pub unlock_start : ℕ → System → System
unlock_start t s = record {
  state = (s.state + 4294967295) % 4294967296;
  places = move t (if s.state == 1 then Place.outside else Place.storing) s.places;
}

abbrev pub store_zero : ℕ → System → System
store_zero t s = record { state = 0; places = move t Place.waking s.places }

-- `FUTEX_WAKE` of one of the callers that wait, or of none.
abbrev pub wake : ℕ → Option ℕ → System → System
wake t woken s = record s {
  places =
      move t Place.outside
        (elim woken [ none ↦ s.places | some u ↦ move u Place.exchanging s.places ]);
}

-- One atomic operation of one caller. A wait of the kernel may also end by itself.
pub data Step (s : System) : System → Type 0 where
  locks : (t : ℕ) → s.places t ≡ Place.outside → Step s (lock_start t s)
  tries : (t : ℕ) → s.places t ≡ Place.outside → Step s (try_lock t s)
  exchanges : (t : ℕ) → s.places t ≡ Place.exchanging → Step s (exchange t s)
  waits : (t : ℕ) → s.places t ≡ Place.sleeping → Step s (wait t s)
  returns :
      (t : ℕ)
      → s.places t ≡ Place.waiting
      → Step s (record s { places = move t Place.exchanging s.places })
  unlocks : (t : ℕ) → s.places t ≡ Place.holding → Step s (unlock_start t s)
  stores : (t : ℕ) → s.places t ≡ Place.storing → Step s (store_zero t s)
  wakes :
      (t u : ℕ)
      → s.places t ≡ Place.waking
      → s.places u ≡ Place.waiting
      → Step s (wake t (some u) s)
  wakes_none :
      (t : ℕ)
      → s.places t ≡ Place.waking
      → ((u : ℕ) → s.places u ≢ Place.waiting)
      → Step s (wake t none s)

pub data Reach : System → Type 0 where
  start : Reach new_mutex
  next : {s s1 : System} → Reach s → Step s s1 → Reach s1
