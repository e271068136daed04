-- ===== src/Cache/Tasks.antt =====
-- crates/sigstore-cache/src/memory.rs, used by several tasks. An event is what one task does while it
-- holds a lock, or `set` before it asks for one. A task that begins a call before it has finished another
-- has given the other up, as when its future is dropped.
use sigstore_rust.Common.{
  ℕ, ◌+◌, ◌≤◌, List, [], ◌∷◌, Option, none, some, Bytes, if◌then◌else◌, ◌==◌, ◌≢◌,
}
use sigstore_rust.Common.Fallible.{ok}
use sigstore_rust.Cache.{CacheKey, Result}
use sigstore_rust.Cache.Memory.{
  CacheEntry, Entries, CacheKey-discrete, is_expired, write, cleanup_expired, Found, hit, expired,
  absent, find, answer, new_entry, remove, clear, new,
}

-- What a call has still to do under the write lock: `get` after an expired entry, or `set`.
pub data Pending : Type 0 where
  removal : CacheKey → Pending
  insertion : CacheKey → CacheEntry → Pending

pub record World : Type 0 where
  pub entries : Entries
  pub pending : (task : ℕ) → Option Pending

pub data Event : Type 0 where
  get_begin : (task : ℕ) → CacheKey → Event
  set_begin : (task : ℕ) → CacheKey → (value : Bytes) → (ttl : ℕ) → Event
  finish : (task : ℕ) → Event
  remove_call : CacheKey → Event
  clear_call : Event
  cleanup_call : (clock : CacheKey → ℕ) → Event

abbrev pub assign : {A : Type 0} → ℕ → A → (ℕ → A) → ℕ → A
assign task x f = λ u. if u == task then x else f u

abbrev pub rest_of_get : CacheKey → Found → Option Pending
rest_of_get key (hit contents) = none
rest_of_get key expired = some (removal key)
rest_of_get key absent = none

unfoldable pub run_pending : Option Pending → Entries → Entries
unfolding CacheKey-discrete
run_pending none entries = entries
run_pending (some (removal key)) entries = write key none entries
run_pending (some (insertion key entry)) entries = write key (some entry) entries

-- The answer is that of `get`, which its reading settles; the other events answer nothing.
unfoldable pub step : Event → (now : ℕ) → World → Result (Option Bytes) × World
unfolding find run_pending new_entry remove clear cleanup_expired
step (get_begin task key) now w =
    let found = find now (w.entries key) in
    (
      answer found,
      record { entries = w.entries; pending = assign task (rest_of_get key found) w.pending },
    )
step (set_begin task key value ttl) now w = (
  ok none,
  record {
    entries = w.entries;
    pending = assign task (some (insertion key (new_entry value ttl now))) w.pending;
  },
)
step (finish task) now w = (
  ok none,
  record { entries = run_pending (w.pending task) w.entries; pending = assign task none w.pending },
)
step (remove_call key) now w =
    (ok none, record { entries = (remove key w.entries).1; pending = w.pending })
step clear_call now w = (ok none, record { entries = (clear w.entries).1; pending = w.pending })
step (cleanup_call clock) now w =
    (ok none, record { entries = cleanup_expired clock w.entries; pending = w.pending })

-- The answers of events, each with its time.
unfoldable pub answers : List (ℕ × Event) → World → List (Result (Option Bytes))
answers [] w = []
answers ((now, event) ∷ events) w = (step event now w).0 ∷ answers events (step event now w).1

-- A cleanup reads the clock before it ends.
abbrev pub Reads : Event → (now : ℕ) → Type 0
Reads (get_begin task key) now = Unit {0}
Reads (set_begin task key value ttl) now = Unit {0}
Reads (finish task) now = Unit {0}
Reads (remove_call key) now = Unit {0}
Reads clear_call now = Unit {0}
Reads (cleanup_call clock) now = (k : CacheKey) → clock k ≤ now

-- The clock does not go back.
abbrev pub Ordered : ℕ → List (ℕ × Event) → Type 0
Ordered start [] = Unit {0}
Ordered start ((now, event) ∷ events) = (start ≤ now) × Reads event now × Ordered now events

-- An ideal cache never forgets an entry before it is overwritten: a `get` is the contents of the last
-- entry written, if it is still fresh then, and changes nothing; nor does a cleanup.
pub record Ideal : Type 0 where
  pub written : Entries
  pub inserting : (task : ℕ) → Option (CacheKey × CacheEntry)

abbrev pub fresh : (now : ℕ) → Option CacheEntry → Option Bytes
fresh now none = none
fresh now (some entry) = if is_expired entry now then none else some entry.contents

unfoldable pub insert : Option (CacheKey × CacheEntry) → Entries → Entries
unfolding CacheKey-discrete
insert none written = written
insert (some (key, entry)) written = write key (some entry) written

unfoldable pub ideal_step : Event → (now : ℕ) → Ideal → Result (Option Bytes) × Ideal
unfolding CacheKey-discrete insert
ideal_step (get_begin task key) now i = (
  ok (fresh now (i.written key)),
  record { written = i.written; inserting = assign task none i.inserting },
)
ideal_step (set_begin task key value ttl) now i = (
  ok none,
  record {
    written = i.written;
    inserting =
        assign task (some (key, record { contents = value; expires_at = now + ttl })) i.inserting;
  },
)
ideal_step (finish task) now i = (
  ok none,
  record {
    written = insert (i.inserting task) i.written;
    inserting = assign task none i.inserting;
  },
)
ideal_step (remove_call key) now i =
    (ok none, record { written = write key none i.written; inserting = i.inserting })
ideal_step clear_call now i = (ok none, record { written = λ k. none; inserting = i.inserting })
ideal_step (cleanup_call clock) now i = (ok none, i)

unfoldable pub ideal_answers : List (ℕ × Event) → Ideal → List (Result (Option Bytes))
ideal_answers [] i = []
ideal_answers ((now, event) ∷ events) i =
    (ideal_step event now i).0 ∷ ideal_answers events (ideal_step event now i).1

-- No insertion gets the lock while a `get` is about to remove an expired entry of its key.
abbrev pub Clear : Option Pending → (ℕ → Option Pending) → Type 0
Clear none pending = Unit {0}
Clear (some (removal key)) pending = Unit {0}
Clear (some (insertion key entry)) pending = (u : ℕ) → pending u ≢ some (removal key)

abbrev pub Harmless : Event → World → Type 0
Harmless (get_begin task key) w = Unit {0}
Harmless (set_begin task key value ttl) w = Unit {0}
Harmless (finish task) w = Clear (w.pending task) w.pending
Harmless (remove_call key) w = Unit {0}
Harmless clear_call w = Unit {0}
Harmless (cleanup_call clock) w = Unit {0}

abbrev pub Undisturbed : List (ℕ × Event) → World → Type 0
Undisturbed [] w = Unit {0}
Undisturbed ((now, event) ∷ events) w = Harmless event w × Undisturbed events (step event now w).1

abbrev pub new_world : World
new_world = record { entries = new; pending = λ u. none }

abbrev pub new_ideal : Ideal
new_ideal = record { written = λ k. none; inserting = λ u. none }
