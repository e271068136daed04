-- ===== src/Tuf/Client.antt =====
-- crates/sigstore-tuf/src/client.rs, with the interfaces of transport.rs and cache.rs: the updater's
-- state and the operations' chaining. An operation takes the updater and gives its
-- `Result` and the updater after it.
pub mod Files
pub mod Refresh
pub mod Resolve
pub mod Guarded
pub mod Operations
pub mod Start
pub mod Session
pub mod Names
pub mod Ensures
pub mod Fresh
pub mod Download
use sigstore_rust.Common.{
  ℕ, ◌+◌, ◌/◌, ◌%◌, List, [], ◌∷◌, ◌++◌, Bool, true, false, ◌&&◌, ◌||◌, not, Option, none, some,
  Bytes, Str, Map, str, if◌then◌else◌, ltb, leb, ◌==◌, lookup, length,
}
use sigstore_rust.Common.Fallible.{ok, err}
use sigstore_rust.Tuf.Error.{Error, Result, integrity_mismatch}
use sigstore_rust.Tuf.Key.{Crypto}
use sigstore_rust.Tuf.Metadata.{TargetFile}
use sigstore_rust.Tuf.Trusted.{TrustedMetadataSet, check_hashes}

-- transport.rs. A fetch may change the repository: nothing says that it answers twice alike.
pub record Repository (R : Type 0) : Type 0 where
  pub fetch_metadata : R → (name : Str) → (max_length : ℕ) → Result (Option Bytes) × R
  pub fetch_target : R → (path : Str) → (max_length : ℕ) → Result (Option Bytes) × R

-- cache.rs. The client ignores whether a store succeeds, so `store` gives the store alone.
pub record MetadataStore (S : Type 0) : Type 0 where
  pub load : S → (name : Str) → Option Bytes
  pub store : S → (name : Str) → Bytes → S

-- transport.rs
pub record UpdaterConfig : Type 0 where
  pub root_max_length : ℕ
  pub timestamp_max_length : ℕ
  pub snapshot_max_length : ℕ
  pub targets_max_length : ℕ
  pub target_max_length : ℕ
  pub max_root_rotations : ℕ
  pub max_delegations : ℕ

abbrev pub default_config : UpdaterConfig
default_config = record {
  root_max_length = 512000;
  timestamp_max_length = 16384;
  snapshot_max_length = 2000000;
  targets_max_length = 5000000;
  target_max_length = 50000000;
  max_root_rotations = 32;
  max_delegations = 32;
}

pub record Updater (S R : Type 0) : Type 0 where
  pub repo : R
  pub trusted : TrustedMetadataSet
  pub config : UpdaterConfig
  pub store : Option S

abbrev pub Client : Type 0 → Type 0 → Type 0 → Type 0
Client S R A = Updater S R → Result A × Updater S R

module _ {S R : Type 0} where
  unfoldable pub pure : {A : Type 0} → A → Client S R A
  pure a u = (ok a, u)

  unfoldable pub fail : {A : Type 0} → Error → Client S R A
  fail e u = (err e, u)

  unfoldable pub lift : {A : Type 0} → Result A → Client S R A
  lift r u = (r, u)

  abbrev pub continue :
      {A B : Type 0} → Result A × Updater S R → (A → Client S R B) → Result B × Updater S R
  continue (ok a, u) f = f a u
  continue (err e, u) f = (err e, u)

  infixl 5 ◌>>=◌ ◌>>◌
  unfoldable pub ◌>>=◌ : {A B : Type 0} → Client S R A → (A → Client S R B) → Client S R B
  (m >>= f) u = continue (m u) f

  abbrev pub ◌>>◌ : {B : Type 0} → Client S R (Unit {0}) → Client S R B → Client S R B
  m >> k = m >>= λ _. k

  -- What the code reads of the updater.
  unfoldable pub reads : {A : Type 0} → (Updater S R → A) → Client S R A
  reads f u = (ok (f u), u)

  -- A call on `self.trusted`.
  unfoldable pub on_trusted :
      (TrustedMetadataSet → Result (Unit {0}) × TrustedMetadataSet) → Client S R (Unit {0})
  on_trusted f u = let r = f u.trusted in (r.0, record u { trusted = r.1 })

  -- The result as a value, for a `match` on it or a `let _ =`.
  unfoldable pub attempt : {A : Type 0} → Client S R A → Client S R (Result A)
  attempt m u = let r = m u in (ok r.0, r.1)

-- `cache_put`
module _ {S : Type 0} (ms : MetadataStore S) where
  abbrev put : Option S → Str → Bytes → Option S
  put none name bytes = none
  put (some store) name bytes = some (ms.store store name bytes)

  unfoldable pub cache_put : {R : Type 0} → Str → Bytes → Client S R (Unit {0})
  cache_put name bytes u = (ok tt, record u { store = put u.store name bytes })
