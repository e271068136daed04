-- ===== src/Cache.antt =====
-- crates/sigstore-cache/src/lib.rs and error.rs: the keys, the interface of a cache, and `get_or_set`.
-- A time is a number of nanoseconds on a clock that does not overflow; an operation takes the time at
-- which it reads the clock and the state, and gives its `Result` and the state after it. This is a call
-- that no other task interrupts; Tasks is about calls of several tasks.
pub mod Memory
pub mod Tasks
pub mod Alone
pub mod Fresh
pub mod Lossy
pub mod History
use sigstore_rust.Common.{ℕ, ◌*◌, ◌^◌, Option, none, some, Bytes, Str, str}
use sigstore_rust.Common.Fallible
use sigstore_rust.Common.Fallible.{ok, err}

pub data Error : Type 0 where
  io serialization expired : Error

abbrev pub Result {ℓ} : Type ℓ → Type ℓ
Result A = Fallible.Result Error A

pub data CacheKey : Type 0 where
  rekor_public_key rekor_log_info fulcio_trust_bundle fulcio_configuration trusted_root : CacheKey

unfoldable pub cache_key_as_str : CacheKey → Str
cache_key_as_str rekor_public_key = str "rekor_public_key"
cache_key_as_str rekor_log_info = str "rekor_log_info"
cache_key_as_str fulcio_trust_bundle = str "fulcio_trust_bundle"
cache_key_as_str fulcio_configuration = str "fulcio_configuration"
cache_key_as_str trusted_root = str "trusted_root"

-- `Duration::from_secs`
abbrev pub from_secs : ℕ → ℕ
from_secs n = n * 10 ^ 9

unfoldable pub default_ttl : CacheKey → ℕ
default_ttl rekor_public_key = from_secs (24 * 60 * 60)
default_ttl fulcio_trust_bundle = from_secs (24 * 60 * 60)
default_ttl trusted_root = from_secs (24 * 60 * 60)
default_ttl fulcio_configuration = from_secs (7 * 24 * 60 * 60)
default_ttl rekor_log_info = from_secs (60 * 60)

pub record CacheAdapter (S : Type 0) : Type 0 where
  pub get : CacheKey → (now : ℕ) → S → Result (Option Bytes) × S
  pub set : CacheKey → (value : Bytes) → (ttl : ℕ) → (now : ℕ) → S → Result (Unit {0}) × S
  pub remove : CacheKey → S → Result (Unit {0}) × S
  pub clear : S → Result (Unit {0}) × S

module _ {S : Type 0} (cache : CacheAdapter S) where
  -- What `get_or_set` does with a computed value: the outcome of `set` is ignored.
  abbrev store_computed : CacheKey → (ttl : ℕ) → (now : ℕ) → Result Bytes → S → Result Bytes × S
  store_computed key ttl now (ok value) s = (ok value, (cache.set key value ttl now s).1)
  store_computed key ttl now (err e) s = (err e, s)

  abbrev or_compute :
      CacheKey → (ttl : ℕ) → (now : ℕ) → Result Bytes → Result (Option Bytes) × S → Result Bytes × S
  or_compute key ttl now computed (ok (some cached), s) = (ok cached, s)
  or_compute key ttl now computed (ok none, s) = store_computed key ttl now computed s
  or_compute key ttl now computed (err e, s) = (err e, s)

  -- `computed` is what `compute` gives if it is run; `later` is when `set` reads the clock.
  unfoldable pub get_or_set :
      CacheKey → (ttl : ℕ) → (computed : Result Bytes) → (now later : ℕ) → S → Result Bytes × S
  get_or_set key ttl computed now later s = or_compute key ttl later computed (cache.get key now s)

  unfoldable pub get_or_set_default :
      CacheKey → (computed : Result Bytes) → (now later : ℕ) → S → Result Bytes × S
  unfolding get_or_set default_ttl
  get_or_set_default key computed now later s =
      get_or_set key (default_ttl key) computed now later s

-- crates/sigstore-cache/src/noop.rs
abbrev pub no_cache : CacheAdapter (Unit {0})
no_cache = record {
  get = λ key now s. (ok none, s);
  set = λ key value ttl now s. (ok tt, s);
  remove = λ key s. (ok tt, s);
  clear = λ s. (ok tt, s);
}
