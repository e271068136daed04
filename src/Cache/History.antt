-- ===== src/Cache/History.antt =====
-- The in-memory cache against the ideal one: they answer alike if no entry is written while a `get` is
-- about to remove an expired one under its key.
use mathlib.Core.Logic.{if_pos, if_neg}
use sigstore_rust.Common.{
  ℕ, ◌≤◌, List, [], ◌∷◌, Option, none, some, ◌≡◌, ◌≢◌, refl, sym, ap, ap₂, ◌∙◌, inl, inr,
  Bool-cases,
}
use sigstore_rust.Common.Fallible.{ok}
use sigstore_rust.Cache.{CacheKey}
use sigstore_rust.Cache.Memory.{
  CacheEntry, Entries, CacheKey-discrete, is_expired, write, retained, cleanup_expired, find,
  new_entry, remove, clear, new,
}
use sigstore_rust.Cache.Tasks.{
  Pending, removal, insertion, World, Event, get_begin, set_begin, finish, remove_call, clear_call,
  cleanup_call, rest_of_get, run_pending, step, answers, Reads, Ordered, Ideal, fresh, insert,
  ideal_step, ideal_answers, Clear, Harmless, Undisturbed, new_world, new_ideal,
}
use sigstore_rust.Cache.Fresh.{
  retained_after, fresh-retained, answer-find, write_all, write_both, assign_both,
}
use sigstore_rust.Cache.Lossy.{insertion_of, Inserts, rest_of_get-Inserts}

-- The same fresh entry.
abbrev Same : (now : ℕ) → Option CacheEntry → Option CacheEntry → Type 0
Same now a b = retained now a ≡ retained now b

later-Same : (now later : ℕ) (a b : Option CacheEntry) → now ≤ later → Same now a b → Same later a b
later-Same now later a b h e =
    sym (retained_after now later a h) ∙ ap (retained later) e ∙ retained_after now later b h

-- What a `get` is about to remove has expired.
abbrev Doomed : (now : ℕ) → Entries → Option Pending → Type 0
Doomed now a none = Unit {0}
Doomed now a (some (removal key)) = retained now (a key) ≡ none
Doomed now a (some (insertion key entry)) = Unit {0}

later-Doomed :
    (now later : ℕ) (a : Entries) (q : Option Pending)
    → now ≤ later
    → Doomed now a q
    → Doomed later a q
unfolding retained
later-Doomed now later a none h d = tt
later-Doomed now later a (some (removal key)) h d =
    sym (retained_after now later (a key) h) ∙ ap (retained later) d
later-Doomed now later a (some (insertion key entry)) h d = tt

rest_of_get-Doomed :
    (now : ℕ) (key : CacheKey) (a : Entries) (x : Option CacheEntry)
    → a key ≡ x
    → Doomed now a (rest_of_get key (find now x))
unfolding find retained
rest_of_get-Doomed now key a none e = tt
rest_of_get-Doomed now key a (some entry) e = elim (Bool-cases (is_expired entry now)) [
  | inl old ↦ rw old (rw (e, old, retained) refl)
  | inr young ↦ rw young tt
]

-- A step that does not insert under the key of the removal.
abbrev Apart : Option Pending → Option Pending → Type 0
Apart none q = Unit {0}
Apart (some (removal key)) q = Unit {0}
Apart (some (insertion key entry)) q = q ≢ some (removal key)

Apart-of_Clear :
    (p : Option Pending) (pending : ℕ → Option Pending) (u : ℕ)
    → Clear p pending
    → Apart p (pending u)
Apart-of_Clear none pending u c = tt
Apart-of_Clear (some (removal key)) pending u c = tt
Apart-of_Clear (some (insertion key entry)) pending u c = c u

write-Doomed :
    (now : ℕ) (key : CacheKey) (a : Entries) (q : Option Pending)
    → Doomed now a q
    → Doomed now (write key none a) q
unfolding retained
write-Doomed now key a none d = tt
write-Doomed now key a (some (insertion k entry)) d = tt
write-Doomed now key a (some (removal k)) d = elim (CacheKey-discrete k key) [
  | yes p ↦ rw (if_pos _ p) refl
  | no p ↦ rw (if_neg _ p) d
]

run_pending-Doomed :
    (now : ℕ) (p q : Option Pending) (a : Entries)
    → Apart p q
    → Doomed now a q
    → Doomed now (run_pending p a) q
unfolding run_pending
run_pending-Doomed now none q a h d = d
run_pending-Doomed now (some (removal key)) q a h d = write-Doomed now key a q d
run_pending-Doomed now (some (insertion key entry)) none a h d = tt
run_pending-Doomed now (some (insertion key entry)) (some (insertion k e)) a h d = tt
run_pending-Doomed now (some (insertion key entry)) (some (removal k)) a h d =
    elim (CacheKey-discrete k key) [
      | yes p ↦ absurd (h (ap (λ x. some (removal x)) p))
      | no p ↦ rw (if_neg _ p) d
    ]

-- A pending call does the same on both sides, if what it removes has expired.
run_pending-Same :
    (now : ℕ) (p : Option Pending) (a b : Entries)
    → Doomed now a p
    → ((k : CacheKey) → Same now (a k) (b k))
    → (k : CacheKey) → Same now (run_pending p a k) (insert (insertion_of p) b k)
unfolding run_pending insert retained
run_pending-Same now none a b d h = h
run_pending-Same now (some (removal key)) a b d h =
    write_all (λ k x. Same now x (b k)) key none a (sym d ∙ h key) h
run_pending-Same now (some (insertion key entry)) a b d h =
    write_both (Same now) key (some entry) (some entry) a b refl h

abbrev Related : (now : ℕ) → World → Ideal → Type 0
Related now w i =
    ((k : CacheKey) → Same now (w.entries k) (i.written k))
    × ((u : ℕ) → Inserts (w.pending u) (i.inserting u))
    × ((u : ℕ) → Doomed now w.entries (w.pending u))

step-Related :
    (event : Event) (now : ℕ) (w : World) (i : Ideal)
    → Reads event now
    → Harmless event w
    → Related now w i
    → ((step event now w).0 ≡ (ideal_step event now i).0)
      × Related now (step event now w).1 (ideal_step event now i).1
unfolding step ideal_step remove clear cleanup_expired new_entry retained
step-Related (get_begin task key) now w i r safe (same, inserts, doomed) = (
  answer-find now (w.entries key)
      ∙ ap ok (
          sym (fresh-retained now (w.entries key))
          ∙ ap (fresh now) (same key)
          ∙ fresh-retained now (i.written key)),
  (
    same,
    assign_both Inserts task (rest_of_get key (find now (w.entries key))) none w.pending i.inserting
        (rest_of_get-Inserts key (find now (w.entries key))) inserts,
    assign_both (λ p q. Doomed now w.entries p) task _ none w.pending i.inserting
        (rest_of_get-Doomed now key w.entries (w.entries key) refl) doomed,
  ),
)
step-Related (set_begin task key value ttl) now w i r safe (same, inserts, doomed) = (
  refl,
  (
    same,
    assign_both Inserts task _ _ w.pending i.inserting refl inserts,
    assign_both (λ p q. Doomed now w.entries p) task _ none w.pending i.inserting tt doomed,
  ),
)
step-Related (finish task) now w i r safe (same, inserts, doomed) = (
  refl,
  (
    rw (← inserts task)
        (run_pending-Same now (w.pending task) w.entries i.written (doomed task) same),
    assign_both Inserts task none none w.pending i.inserting refl inserts,
    assign_both (λ p q. Doomed now (run_pending (w.pending task) w.entries) p) task none none
        w.pending i.inserting tt
        (λ u.
          run_pending-Doomed now (w.pending task) (w.pending u) w.entries
            (Apart-of_Clear (w.pending task) w.pending u safe) (doomed u)),
  ),
)
step-Related (remove_call key) now w i r safe (same, inserts, doomed) = (
  refl,
  (
    write_both (Same now) key none none w.entries i.written refl same,
    inserts,
    (λ u. write-Doomed now key w.entries (w.pending u) (doomed u)),
  ),
)
step-Related clear_call now w i r safe (same, inserts, doomed) =
    (refl, ((λ k. refl), inserts, (λ u. nothing_doomed now (w.pending u))))
  where
    nothing_doomed : (now : ℕ) (q : Option Pending) → Doomed now (λ k. none) q
    nothing_doomed now none = tt
    nothing_doomed now (some (removal key)) = refl
    nothing_doomed now (some (insertion key entry)) = tt
step-Related (cleanup_call clock) now w i r safe (same, inserts, doomed) = (
  refl,
  (
    (λ k. retained_after (clock k) now (w.entries k) (r k) ∙ same k),
    inserts,
    (λ u. still_doomed now w.entries clock r (w.pending u) (doomed u)),
  ),
)
  where
    still_doomed :
        (now : ℕ) (a : Entries) (clock : CacheKey → ℕ)
        → ((k : CacheKey) → clock k ≤ now)
        → (q : Option Pending) → Doomed now a q
        → Doomed now (λ k. retained (clock k) (a k)) q
    still_doomed now a clock r none d = tt
    still_doomed now a clock r (some (removal key)) d =
        retained_after (clock key) now (a key) (r key) ∙ d
    still_doomed now a clock r (some (insertion key entry)) d = tt

answers-Related :
    (start : ℕ) (events : List (ℕ × Event)) (w : World) (i : Ideal)
    → Ordered start events
    → Undisturbed events w
    → Related start w i
    → answers events w ≡ ideal_answers events i
unfolding answers ideal_answers
answers-Related start [] w i t safe h = refl
answers-Related start ((now, event) ∷ events) w i (le, reads, t) (harmless, safe)
      (same, inserts, doomed) =
    let (agree, after) = step-Related event now w i reads harmless (
      (λ k. later-Same start now (w.entries k) (i.written k) le (same k)),
      inserts,
      (λ u. later-Doomed start now w.entries (w.pending u) le (doomed u)),
    ) in
    ap₂ ◌∷◌ agree (answers-Related now events _ _ t safe after)

-- If the clock does not go back, and no `set` writes under a key between the reading of a `get` that
-- finds an expired entry there and its removal, then several tasks that use a new in-memory cache get the
-- answers of the ideal cache: a `get` is the contents of the last entry written and not removed since, if
-- its time to live has not passed, although the cache drops expired entries.
pub answers-ideal_answers :
    (start : ℕ) (events : List (ℕ × Event))
    → Ordered start events
    → Undisturbed events new_world
    → answers events new_world ≡ ideal_answers events new_ideal
unfolding new
answers-ideal_answers start events t safe =
    answers-Related start events new_world new_ideal t safe ((λ k. refl), (λ u. refl), (λ u. tt))
