-- ===== src/Cache/Lossy.antt =====
-- The in-memory cache used by several tasks, however they interleave: it may lose an entry, never give a
-- wrong one.
use sigstore_rust.Common.{
  ℕ, ◌≤◌, List, [], ◌∷◌, Option, none, some, Bytes, ◌≡◌, refl, sym, ap, ◌∙◌, ◌⊎◌, inl, inr,
}
use sigstore_rust.Common.Fallible.{ok}
use sigstore_rust.Cache.{CacheKey, Result}
use sigstore_rust.Cache.Memory.{
  CacheEntry, Entries, retained, cleanup_expired, Found, hit, expired, absent, find, answer,
  new_entry, remove, clear, new,
}
use sigstore_rust.Cache.Tasks.{
  Pending, removal, insertion, World, Event, get_begin, set_begin, finish, remove_call, clear_call,
  cleanup_call, rest_of_get, run_pending, step, answers, Reads, Ordered, Ideal, fresh, insert,
  ideal_step, ideal_answers, new_world, new_ideal,
}
use sigstore_rust.Cache.Fresh.{
  retained_after, fresh-retained, answer-find, write_all, write_both, assign_both,
}

-- What a task is about to insert.
abbrev pub insertion_of : Option Pending → Option (CacheKey × CacheEntry)
insertion_of none = none
insertion_of (some (removal key)) = none
insertion_of (some (insertion key entry)) = some (key, entry)

abbrev pub Inserts : Option Pending → Option (CacheKey × CacheEntry) → Type 0
Inserts p q = insertion_of p ≡ q

pub rest_of_get-Inserts : (key : CacheKey) (found : Found) → Inserts (rest_of_get key found) none
rest_of_get-Inserts key (hit contents) = refl
rest_of_get-Inserts key expired = refl
rest_of_get-Inserts key absent = refl

-- The one has nothing fresh, or what the other has.
abbrev Below : (now : ℕ) → Option CacheEntry → Option CacheEntry → Type 0
Below now a b = (retained now a ≡ none) ⊎ (retained now a ≡ retained now b)

later-Below :
    (now later : ℕ) (a b : Option CacheEntry) → now ≤ later → Below now a b → Below later a b
unfolding retained
later-Below now later a b h (inl gone) =
    inl (sym (retained_after now later a h) ∙ ap (retained later) gone)
later-Below now later a b h (inr same) =
    inr
      (sym (retained_after now later a h) ∙ ap (retained later) same ∙ retained_after now later b h)

retained-Below :
    (now clock : ℕ) (a b : Option CacheEntry)
    → clock ≤ now
    → Below now a b
    → Below now (retained clock a) b
retained-Below now clock a b h (inl gone) = inl (retained_after clock now a h ∙ gone)
retained-Below now clock a b h (inr same) = inr (retained_after clock now a h ∙ same)

abbrev pub NoneOrSame : Result (Option Bytes) → Result (Option Bytes) → Type 0
NoneOrSame a b = (a ≡ ok none) ⊎ (a ≡ b)

find-Below :
    (now : ℕ) (a b : Option CacheEntry)
    → Below now a b
    → NoneOrSame (answer (find now a)) (ok (fresh now b))
find-Below now a b (inl gone) =
    inl (answer-find now a ∙ ap ok (sym (fresh-retained now a) ∙ ap (fresh now) gone))
find-Below now a b (inr same) = inr (
    answer-find now a
    ∙ ap ok (sym (fresh-retained now a) ∙ ap (fresh now) same ∙ fresh-retained now b))

run_pending-Below :
    (now : ℕ) (p : Option Pending) (a b : Entries)
    → ((k : CacheKey) → Below now (a k) (b k))
    → (k : CacheKey) → Below now (run_pending p a k) (insert (insertion_of p) b k)
unfolding run_pending insert retained
run_pending-Below now none a b h = h
run_pending-Below now (some (removal key)) a b h =
    write_all (λ k x. Below now x (b k)) key none a (inl refl) h
run_pending-Below now (some (insertion key entry)) a b h =
    write_both (Below now) key (some entry) (some entry) a b (inr refl) h

abbrev Related : (now : ℕ) → World → Ideal → Type 0
Related now w i =
    ((k : CacheKey) → Below now (w.entries k) (i.written k))
    × ((u : ℕ) → Inserts (w.pending u) (i.inserting u))

step-Related :
    (event : Event) (now : ℕ) (w : World) (i : Ideal)
    → Reads event now
    → Related now w i
    → NoneOrSame (step event now w).0 (ideal_step event now i).0
      × Related now (step event now w).1 (ideal_step event now i).1
unfolding step ideal_step remove clear cleanup_expired new_entry
step-Related (get_begin task key) now w i r (below, same) = (
  find-Below now (w.entries key) (i.written key) (below key),
  (
    below,
    assign_both Inserts task (rest_of_get key (find now (w.entries key))) none w.pending i.inserting
        (rest_of_get-Inserts key (find now (w.entries key))) same,
  ),
)
step-Related (set_begin task key value ttl) now w i r (below, same) =
    (inr refl, (below, assign_both Inserts task _ _ w.pending i.inserting refl same))
step-Related (finish task) now w i r (below, same) = (
  inr refl,
  (
    rw (← same task) (run_pending-Below now (w.pending task) w.entries i.written below),
    assign_both Inserts task none none w.pending i.inserting refl same,
  ),
)
step-Related (remove_call key) now w i r (below, same) =
    (inr refl, (write_both (Below now) key none none w.entries i.written (inr refl) below, same))
step-Related clear_call now w i r (below, same) = (inr refl, ((λ k. inr refl), same))
step-Related (cleanup_call clock) now w i r (below, same) = (
  inr refl,
  ((λ k. retained-Below now (clock k) (w.entries k) (i.written k) (r k) (below k)), same),
)

-- Each answer is none, or the other's.
abbrev pub Lossy : List (Result (Option Bytes)) → List (Result (Option Bytes)) → Type 0
Lossy [] [] = Unit {0}
Lossy [] (b ∷ bs) = ⊥
Lossy (a ∷ rest) [] = ⊥
Lossy (a ∷ rest) (b ∷ bs) = NoneOrSame a b × Lossy rest bs

answers-Related :
    (start : ℕ) (events : List (ℕ × Event)) (w : World) (i : Ideal)
    → Ordered start events
    → Related start w i
    → Lossy (answers events w) (ideal_answers events i)
unfolding answers ideal_answers
answers-Related start [] w i t h = tt
answers-Related start ((now, event) ∷ events) w i (le, reads, t) (below, same) =
    let (allowed, after) =
      step-Related event now w i reads
        ((λ k. later-Below start now (w.entries k) (i.written k) le (below k)), same) in
    (allowed, answers-Related now events _ _ t after)

-- If the clock does not go back, then however the calls of several tasks interleave, a `get` of a new
-- in-memory cache answers none, or the contents of the last entry written under its key and not removed
-- since, whose time to live has not passed.
pub answers-Lossy :
    (start : ℕ) (events : List (ℕ × Event))
    → Ordered start events
    → Lossy (answers events new_world) (ideal_answers events new_ideal)
unfolding new
answers-Lossy start events t =
    answers-Related start events new_world new_ideal t ((λ k. inr refl), (λ u. refl))
