-- ===== src/Tuf/Trusted/Roles.antt =====
-- The updates of the roles below the root, of crates/sigstore-tuf/src/trusted.rs.
use sigstore_rust.Common.{
  ℕ, List, [], ◌∷◌, ◌++◌, Option, none, some, Bytes, Str, Map, str, bytes_eq, lookup, insert, not,
  ltb, ◌==◌, if◌then◌else◌,
}
use sigstore_rust.Common.Fallible.{ok, ◌>>=◌, ◌>>◌, ensure, ok_or}
use sigstore_rust.Tuf.Error.{
  Result, malformed, unknown_role, rollback, equal_version, integrity_mismatch,
}
use sigstore_rust.Tuf.Key.{Key, Crypto}
use sigstore_rust.Tuf.Metadata.{
  RoleKeys, MetaFile, Timestamp, Snapshot, DelegatedRole, Targets, Metadata, Parsers, role_keys,
  snapshot_meta, timestamp_role, snapshot_role, targets_role, from_slice,
}
use sigstore_rust.Tuf.Metadata.Threshold.{verify_threshold}
use sigstore_rust.Tuf.Trusted.{
  TrustedMetadataSet, commit, is_top_level_role, json_name, check_integrity, verify_with_root,
  ensure_not_expired,
}

-- The pinned snapshot version must not move backwards.
abbrev pub check_pin : Option MetaFile → Option MetaFile → Result (Unit {0})
check_pin none cur = ok tt
check_pin (some new_meta) none = ok tt
check_pin (some new_meta) (some cur_meta) =
    ensure (not (ltb new_meta.version cur_meta.version))
      (rollback (str "snapshot (via timestamp)") cur_meta.version new_meta.version)

-- The comparison of a candidate with the trusted timestamp, if there is one.
unfoldable pub check_timestamp_version : Option (Metadata Timestamp) → Timestamp → Result (Unit {0})
check_timestamp_version none new = ok tt
check_timestamp_version (some current) new = do
  ensure (not (ltb new.version current.signed.version))
      (rollback (str "timestamp") current.signed.version new.version)
  ensure (not (new.version == current.signed.version)) (equal_version (str "timestamp") new.version)
  check_pin (snapshot_meta new) (snapshot_meta current.signed)

-- The loop over the files that the trusted snapshot pins.
unfoldable pub check_pinned_files : Map MetaFile → Map MetaFile → Result (Unit {0})
check_pinned_files [] new = ok tt
check_pinned_files ((name, cur_meta) ∷ rest) new = do
  new_meta ← ok_or (lookup name new) integrity_mismatch
  ensure (not (ltb new_meta.version cur_meta.version))
      (rollback (name ++ str " (via snapshot)") cur_meta.version new_meta.version)
  check_pinned_files rest new

unfoldable pub check_snapshot_files : Option (Metadata Snapshot) → Snapshot → Result (Unit {0})
check_snapshot_files none new = ok tt
check_snapshot_files (some current) new = check_pinned_files current.signed.meta new.meta

-- `delegations.roles.iter().find(|r| r.name == role_name)`
unfoldable pub find_role : Str → List DelegatedRole → Option DelegatedRole
find_role role_name [] = none
find_role role_name (r ∷ rs) = if bytes_eq r.name role_name then some r else find_role role_name rs

-- The declared keys with the ids that the role lists.
unfoldable pub select_keys : List Str → Map Key → Map Key → Map Key
select_keys [] keys acc = acc
select_keys (kid ∷ kids) keys acc =
    select_keys kids keys (elim (lookup kid keys) [ none ↦ acc | some key ↦ insert kid key acc ])

unfoldable pub delegation_authority : TrustedMetadataSet → Str → Str → Result (Map Key × RoleKeys)
unfolding find_role select_keys
delegation_authority s delegator_name role_name = do
  delegator ← ok_or (lookup delegator_name s.targets) (unknown_role delegator_name)
  delegations ← ok_or delegator.signed.delegations malformed
  role ← ok_or (find_role role_name delegations.roles) (unknown_role role_name)
  ok (select_keys role.keyids delegations.keys [], role_keys role)

module _ (c : Crypto) (p : Parsers) where
  unfoldable pub checked_timestamp : TrustedMetadataSet → Bytes → ℕ → Result (Metadata Timestamp)
  checked_timestamp s bytes now = do
    new ← from_slice p (timestamp_role p) bytes
    verify_with_root c new s.root.signed (str "timestamp")
    check_timestamp_version s.timestamp new.signed
    ensure_not_expired c p (timestamp_role p) new.signed (str "timestamp") now
    ok new

  unfoldable pub update_timestamp :
      TrustedMetadataSet → Bytes → ℕ → Result (Unit {0}) × TrustedMetadataSet
  unfolding checked_timestamp
  update_timestamp s bytes now =
      commit s (checked_timestamp s bytes now) (λ new. record s { timestamp = some new })

  unfoldable pub checked_snapshot : TrustedMetadataSet → Bytes → ℕ → Result (Metadata Snapshot)
  checked_snapshot s bytes now = do
    timestamp ← ok_or s.timestamp malformed
    ensure_not_expired c p (timestamp_role p) timestamp.signed (str "timestamp") now
    pin ← ok_or (snapshot_meta timestamp.signed) malformed
    check_integrity c bytes pin
    new ← from_slice p (snapshot_role p) bytes
    verify_with_root c new s.root.signed (str "snapshot")
    ensure (new.signed.version == pin.version) integrity_mismatch
    check_snapshot_files s.snapshot new.signed
    ensure_not_expired c p (snapshot_role p) new.signed (str "snapshot") now
    ok new

  unfoldable pub update_snapshot :
      TrustedMetadataSet → Bytes → ℕ → Result (Unit {0}) × TrustedMetadataSet
  unfolding checked_snapshot
  update_snapshot s bytes now =
      commit s (checked_snapshot s bytes now)
        (λ new. record s { snapshot = some new; targets = [] })

  unfoldable pub verify_targets_pin :
      TrustedMetadataSet → Bytes → Str → ℕ → Result (Metadata Targets)
  verify_targets_pin s bytes role_name now = do
    snapshot ← ok_or s.snapshot malformed
    ensure_not_expired c p (snapshot_role p) snapshot.signed (str "snapshot") now
    pin ← ok_or (lookup (json_name role_name) snapshot.signed.meta) malformed
    check_integrity c bytes pin
    new ← from_slice p (targets_role p) bytes
    ensure (new.signed.version == pin.version) integrity_mismatch
    ok new

  unfoldable pub checked_targets : TrustedMetadataSet → Bytes → ℕ → Result (Metadata Targets)
  checked_targets s bytes now = do
    new ← verify_targets_pin s bytes (str "targets") now
    verify_with_root c new s.root.signed (str "targets")
    ensure_not_expired c p (targets_role p) new.signed (str "targets") now
    ok new

  unfoldable pub update_targets :
      TrustedMetadataSet → Bytes → ℕ → Result (Unit {0}) × TrustedMetadataSet
  unfolding checked_targets
  update_targets s bytes now =
      commit s (checked_targets s bytes now)
        (λ new. record s { targets = insert (str "targets") new s.targets })

  unfoldable pub checked_delegated :
      TrustedMetadataSet → Bytes → Str → Str → ℕ → Result (Metadata Targets)
  checked_delegated s bytes role_name delegator_name now = do
    ensure (not (is_top_level_role role_name)) malformed
    (keys, role) ← delegation_authority s delegator_name role_name
    new ← verify_targets_pin s bytes role_name now
    verify_threshold c new keys role role_name
    ensure_not_expired c p (targets_role p) new.signed role_name now
    ok new

  unfoldable pub update_delegated_targets :
      TrustedMetadataSet → Bytes → Str → Str → ℕ → Result (Unit {0}) × TrustedMetadataSet
  unfolding checked_delegated
  update_delegated_targets s bytes role_name delegator_name now =
      commit s (checked_delegated s bytes role_name delegator_name now)
        (λ new. record s { targets = insert role_name new s.targets })
