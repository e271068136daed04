-- ===== src/Tuf/Client/Refresh.antt =====
-- crates/sigstore-tuf/src/client.rs: the updater's start and its refresh workflow.
use sigstore_rust.Common.{
  ℕ, zero, suc, ◌+◌, ◌-◌, ◌%◌, ◌^◌, ◌∷◌, ◌++◌, Option, none, some, Bytes, Str, str, if◌then◌else◌,
  lookup,
}
use sigstore_rust.Common.Fallible.{ok, err, ok_or}
use sigstore_rust.Tuf.Error.{Result, malformed, transport, equal_version}
use sigstore_rust.Tuf.Json.{decimal}
use sigstore_rust.Tuf.Key.{Crypto}
use sigstore_rust.Tuf.Metadata.{MetaFile, Parsers, snapshot_meta, snapshot_role, targets_role}
use sigstore_rust.Tuf.Trusted.{
  TrustedMetadataSet, from_root, update_root, next_version, json_name, check_root_expired,
  check_timestamp_expired, check_snapshot_expired,
}
use sigstore_rust.Tuf.Trusted.Roles.{update_timestamp, update_snapshot, update_targets}
use sigstore_rust.Tuf.Client.{
  Repository, MetadataStore, Updater, UpdaterConfig, default_config, Client, pure, fail, lift,
  reads, on_trusted, attempt, ◌>>=◌, ◌>>◌, cache_put,
}
use sigstore_rust.Tuf.Client.Files.{encode_role, is_current}

abbrev pub history_name : ℕ → Str
history_name next = str "root_history/" ++ (decimal next ++ str ".root.json")

-- The version that a role's pin gives.
abbrev pub pinned_version : Option MetaFile → Option ℕ
pinned_version none = none
pinned_version (some m) = some m.version

-- `self.trusted.timestamp().and_then(|t| t.snapshot_meta())`
abbrev pub snapshot_pin : TrustedMetadataSet → Option MetaFile
snapshot_pin s = elim s.timestamp [ none ↦ none | some t ↦ snapshot_meta t.signed ]

-- `self.trusted.snapshot().and_then(|s| s.meta.get(&pin_key))`
abbrev pub targets_pin : TrustedMetadataSet → Str → Option MetaFile
targets_pin s role_name = elim s.snapshot [
  | none ↦ none
  | some snap ↦ lookup (json_name role_name) snap.signed.meta
]

module _ {S R : Type 0} (ms : MetadataStore S) (repo : Repository R) (c : Crypto)
    (p : Parsers) where
  unfoldable pub new : R → Bytes → Result (Updater S R)
  new r root_bytes = elim (from_root c p root_bytes) [
    | ok trusted ↦
        ok (record { repo = r; trusted = trusted; config = default_config; store = none })
    | err e ↦ err e
  ]

  unfoldable pub with_config : Updater S R → UpdaterConfig → Updater S R
  with_config u config = record u { config = config }

  -- The loop of `with_store`; on fuel, since a store may hold a longer chain of roots for ever.
  unfoldable pub adopt_roots : (fuel : ℕ) → S → TrustedMetadataSet → Option TrustedMetadataSet
  adopt_roots zero store trusted = none
  adopt_roots (suc fuel) store trusted =
      elim (ms.load store (history_name (next_version trusted.root.signed.version))) [
        | none ↦ some trusted
        | some bytes ↦
            let (result, after) = update_root c p trusted bytes in
            elim result [ ok done ↦ adopt_roots fuel store after | err e ↦ some trusted ]
      ]

  unfoldable pub with_store : (fuel : ℕ) → Updater S R → S → Option (Updater S R)
  unfolding adopt_roots
  with_store fuel u store = elim (adopt_roots fuel store u.trusted) [
    | none ↦ none
    | some trusted ↦ some (record u { trusted = trusted; store = some store })
  ]

  unfoldable pub fetch_metadata : Str → ℕ → Client S R (Option Bytes)
  fetch_metadata name max_length u =
      let r = repo.fetch_metadata u.repo name max_length in (r.0, record u { repo = r.1 })

  -- The loop of `refresh_root` over the versions.
  unfoldable pub root_loop : (count next : ℕ) → Client S R (Unit {0})
  root_loop zero next = fail transport
  root_loop (suc count) next = do
    max_length ← reads (λ u. u.config.root_max_length)
    found ← fetch_metadata (decimal next ++ str ".root.json") max_length
    elim found [
      | none ↦ pure tt
      | some bytes ↦
          (on_trusted (λ s. update_root c p s bytes)
            >> cache_put ms (history_name next) bytes
            >> cache_put ms (str "root.json") bytes
            >> root_loop count (next + 1))
    ]

  -- The range is inclusive, and its ends are sums on u64.
  unfoldable pub refresh_root : Client S R (Unit {0})
  refresh_root = do
    start ← reads (λ u. u.trusted.root.signed.version)
    max_rotations ← reads (λ u. u.config.max_root_rotations)
    root_loop ((start + max_rotations) % 2 ^ 64 + 1 - next_version start) (next_version start)

  -- A file of the store, if there is one, is fed to an update, whose result is ignored.
  abbrev pub seed :
      Str
      → (TrustedMetadataSet → Bytes → Result (Unit {0}) × TrustedMetadataSet)
      → Option S
      → Client S R (Unit {0})
  seed name update none = pure tt
  seed name update (some store) = elim (ms.load store name) [
    | none ↦ pure tt
    | some bytes ↦ (attempt (on_trusted (λ s. update s bytes)) >>= λ ignored. pure tt)
  ]

  unfoldable pub seed_lower_from_store : ℕ → Client S R (Unit {0})
  seed_lower_from_store now = do
    store ← reads (λ u. u.store)
    seed (str "timestamp.json") (λ s bytes. update_timestamp c p s bytes now) store
    seed (str "snapshot.json") (λ s bytes. update_snapshot c p s bytes now) store
    seed (str "targets.json") (λ s bytes. update_targets c p s bytes now) store

  -- The same version as the trusted one is no error.
  abbrev pub after_timestamp : Bytes → Result (Unit {0}) → Client S R (Unit {0})
  after_timestamp bytes (ok done) = cache_put ms (str "timestamp.json") bytes
  after_timestamp bytes (err e) = elim e [
    | equal_version role version ↦ pure tt
    | other ↦ fail other
  ]

  unfoldable pub refresh_timestamp : ℕ → Client S R (Unit {0})
  refresh_timestamp now = do
    max_length ← reads (λ u. u.config.timestamp_max_length)
    found ← fetch_metadata (str "timestamp.json") max_length
    bytes ← lift (ok_or found transport)
    result ← attempt (on_trusted (λ s. update_timestamp c p s bytes now))
    after_timestamp bytes result

  abbrev pub fetch_snapshot : ℕ → ℕ → Client S R (Unit {0})
  fetch_snapshot version now = do
    consistent ← reads (λ u. u.trusted.root.signed.consistent_snapshot)
    max_length ← reads (λ u. u.config.snapshot_max_length)
    let name = if consistent then decimal version ++ str ".snapshot.json" else str "snapshot.json"
    found ← fetch_metadata name max_length
    bytes ← lift (ok_or found transport)
    on_trusted (λ s. update_snapshot c p s bytes now)
    cache_put ms name bytes
    cache_put ms (str "snapshot.json") bytes

  unfoldable pub refresh_snapshot : ℕ → Client S R (Unit {0})
  refresh_snapshot now = do
    pin ← reads (λ u. snapshot_pin u.trusted)
    version ← lift (ok_or (pinned_version pin) malformed)
    expiry ← reads (λ u. check_timestamp_expired c p u.trusted now)
    lift expiry
    trusted ← reads (λ u. u.trusted)
    current ← lift (is_current p (snapshot_role p) trusted.snapshot (some version) now)
    if current then pure tt else fetch_snapshot version now

  unfoldable pub fetch_targets_metadata : Str → Client S R Bytes
  fetch_targets_metadata role_name = do
    consistent ← reads (λ u. u.trusted.root.signed.consistent_snapshot)
    pin ← reads (λ u. targets_pin u.trusted role_name)
    version ← lift (ok_or (pinned_version pin) malformed)
    let encoded = encode_role role_name
    max_length ← reads (λ u. u.config.targets_max_length)
    found ←
        fetch_metadata
          (if consistent then decimal version ++ (b'.' ∷ json_name encoded) else json_name encoded)
          max_length
    lift (ok_or found transport)

  unfoldable pub refresh_targets : ℕ → Client S R (Unit {0})
  refresh_targets now = do
    expiry ← reads (λ u. check_snapshot_expired c p u.trusted now)
    lift expiry
    trusted ← reads (λ u. u.trusted)
    current ← lift (
        is_current p (targets_role p) (lookup (str "targets") trusted.targets)
          (pinned_version (targets_pin trusted (str "targets"))) now)
    if current
        then pure tt
        else (fetch_targets_metadata (str "targets") >>= λ bytes.
            on_trusted (λ s. update_targets c p s bytes now)
            >> cache_put ms (str "targets.json") bytes)

  unfoldable pub refresh : ℕ → Client S R (Unit {0})
  refresh now = do
    refresh_root
    expiry ← reads (λ u. check_root_expired c p u.trusted now)
    lift expiry
    seed_lower_from_store now
    refresh_timestamp now
    refresh_snapshot now
    refresh_targets now
