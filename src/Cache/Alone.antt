-- ===== src/Cache/Alone.antt =====
-- A task that no other interrupts: the parts of `get` and `set` make up the operations of Memory.
use sigstore_rust.Common.{ℕ, some, Bytes, ==_refl, ◌≡◌, refl, ap, ◌∙◌}
use sigstore_rust.Cache.{CacheKey}
use sigstore_rust.Cache.Memory.{
  Entries, Found, hit, expired, absent, find, answer, clean, get, set, new_entry,
}
use sigstore_rust.Cache.Tasks.{
  insertion, World, get_begin, set_begin, finish, assign, rest_of_get, run_pending, step,
}

assigned : {A : Type 0} (task : ℕ) (x : A) (f : ℕ → A) → assign task x f task ≡ x
assigned task x f = rw (==_refl task) refl

rest_of_get-clean :
    (key : CacheKey) (found : Found) (entries : Entries)
    → run_pending (rest_of_get key found) entries ≡ clean key found entries
unfolding run_pending
rest_of_get-clean key (hit contents) entries = refl
rest_of_get-clean key expired entries = refl
rest_of_get-clean key absent entries = refl

get_alone :
    (task : ℕ) (key : CacheKey) (now later : ℕ) (w : World)
    → (
      (step (get_begin task key) now w).0,
      (step (finish task) later (step (get_begin task key) now w).1).1.entries,
    )
      ≡ get key now w.entries
unfolding step get
get_alone task key now later w =
    let found = find now (w.entries key) in
    ap (λ e. (answer found, e))
      (ap (λ p. run_pending p w.entries) (assigned task (rest_of_get key found) w.pending)
        ∙ rest_of_get-clean key found w.entries)

set_alone :
    (task : ℕ) (key : CacheKey) (value : Bytes) (ttl now later : ℕ) (w : World)
    → (step (finish task) later (step (set_begin task key value ttl) now w).1).1.entries
      ≡ (set key value ttl now w.entries).1
unfolding step set run_pending
set_alone task key value ttl now later w =
    ap (λ p. run_pending p w.entries)
      (assigned task (some (insertion key (new_entry value ttl now))) w.pending)
