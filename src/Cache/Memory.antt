-- ===== src/Cache/Memory.antt =====
-- crates/sigstore-cache/src/memory.rs. The `HashMap` is the function from the keys, of which there are
-- five, to its entries. Every operation but `get` holds one lock while it uses the entries; `get` reads
-- under one lock, and removes an expired entry under another. `get` and `set` are here what they do if
-- no other task comes between, and Tasks has them in parts.
use mathlib.Core.Logic.{ite}
use sigstore_rust.Common.{ℕ, ◌+◌, Bool, Option, none, some, Bytes, leb, if◌then◌else◌}
use sigstore_rust.Common.Fallible.{ok}
use sigstore_rust.Cache.{
  CacheKey, rekor_public_key, rekor_log_info, fulcio_trust_bundle, fulcio_configuration,
  trusted_root, Result, CacheAdapter,
}

pub record CacheEntry : Type 0 where
  pub contents : Bytes
  pub expires_at : ℕ

abbrev pub Entries : Type 0
Entries = CacheKey → Option CacheEntry

unfoldable pub CacheKey-discrete : Discrete CacheKey
CacheKey-discrete = hlevel

unfoldable pub is_expired : CacheEntry → (now : ℕ) → Bool
is_expired entry now = leb entry.expires_at now

-- `HashMap::insert` and `HashMap::remove`
abbrev pub write : CacheKey → Option CacheEntry → Entries → Entries
write key entry entries = λ k. ite (CacheKey-discrete k key) entry (entries k)

unfoldable pub new : Entries
new = λ k. none

-- `retain(|_, entry| !entry.is_expired())`, at one key.
unfoldable pub retained : (now : ℕ) → Option CacheEntry → Option CacheEntry
unfolding is_expired
retained now none = none
retained now (some entry) = if is_expired entry now then none else some entry

-- `clock` is the time that the test of each entry reads.
unfoldable pub cleanup_expired : (clock : CacheKey → ℕ) → Entries → Entries
unfolding retained
cleanup_expired clock entries = λ k. retained (clock k) (entries k)

abbrev present : Option CacheEntry → ℕ
present none = 0
present (some entry) = 1

unfoldable pub len : Entries → ℕ
len entries =
    present (entries rekor_public_key)
    + (present (entries rekor_log_info)
        + (present (entries fulcio_trust_bundle)
            + (present (entries fulcio_configuration) + present (entries trusted_root))))

-- What `get` finds under the read lock.
pub data Found : Type 0 where
  hit : Bytes → Found
  expired absent : Found

unfoldable pub find : (now : ℕ) → Option CacheEntry → Found
unfolding is_expired
find now none = absent
find now (some entry) = if is_expired entry now then expired else hit entry.contents

abbrev pub answer : Found → Result (Option Bytes)
answer (hit contents) = ok (some contents)
answer expired = ok none
answer absent = ok none

-- `entries.remove(&key)` of `get`, under the write lock.
abbrev pub clean : CacheKey → Found → Entries → Entries
clean key (hit contents) entries = entries
clean key expired entries = write key none entries
clean key absent entries = entries

unfoldable pub get : CacheKey → (now : ℕ) → Entries → Result (Option Bytes) × Entries
unfolding find CacheKey-discrete
get key now entries = let found = find now (entries key) in (answer found, clean key found entries)

-- The entry of `set`, which is made before the lock is held.
unfoldable pub new_entry : Bytes → (ttl : ℕ) → (now : ℕ) → CacheEntry
new_entry value ttl now = record { contents = value; expires_at = now + ttl }

unfoldable pub set :
    CacheKey → Bytes → (ttl : ℕ) → (now : ℕ) → Entries → Result (Unit {0}) × Entries
unfolding CacheKey-discrete new_entry
set key value ttl now entries = (ok tt, write key (some (new_entry value ttl now)) entries)

unfoldable pub remove : CacheKey → Entries → Result (Unit {0}) × Entries
unfolding CacheKey-discrete
remove key entries = (ok tt, write key none entries)

unfoldable pub clear : Entries → Result (Unit {0}) × Entries
clear entries = (ok tt, λ k. none)

abbrev pub in_memory_cache : CacheAdapter Entries
in_memory_cache = record { get = get; set = set; remove = remove; clear = clear }
