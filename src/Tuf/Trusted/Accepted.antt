-- ===== src/Tuf/Trusted/Accepted.antt =====
-- What the checks of an update that succeeds have established.
use sigstore_rust.Common.{
  ℕ, false, some, Bytes, Str, Map, str, lookup, ◌≡◌, arith, Option-cases, inl, inr,
}
use sigstore_rust.Common.Fallible.{ok, Result-cases}
use sigstore_rust.Tuf.Key.{Key, Crypto}
use sigstore_rust.Tuf.Metadata.{
  RoleKeys, Root, MetaFile, Timestamp, Snapshot, Targets, Metadata, Parsers, role, snapshot_meta,
  timestamp_role, snapshot_role, targets_role,
}
use sigstore_rust.Tuf.Metadata.Threshold.{verify_threshold}
use sigstore_rust.Tuf.Metadata.Threshold.Loop.{MeetsThreshold, verify_threshold_sound}
use sigstore_rust.Tuf.Trusted.{
  TrustedMetadataSet, next_version, is_top_level_role, json_name, check_integrity, verify_with_root,
  verify_root_self_signed, ensure_not_expired, checked_root,
}
use sigstore_rust.Tuf.Trusted.Roles.{
  check_timestamp_version, check_snapshot_files, delegation_authority, checked_timestamp,
  checked_snapshot, verify_targets_pin, checked_targets, checked_delegated,
}

-- `root` authorizes the envelope for `name`: it declares the role, and the threshold is met.
abbrev pub Authorized : {T : Type 0} → Crypto → Root → Str → Metadata T → Type 0
Authorized c root name m =
    (keys : RoleKeys) × (role root name ≡ some keys)
    × MeetsThreshold c root.keys m.canonical_signed keys m.signatures

module _ (c : Crypto) where
  pub verify_with_root-Authorized :
      {T : Type 0} (m : Metadata T) (root : Root) (name : Str)
      → verify_with_root c m root name ≡ ok tt
      → Authorized c root name m
  unfolding verify_with_root
  verify_with_root-Authorized m root name e = elim (Option-cases (role root name)) [
    | inl missing ↦ cc (rw missing at e)
    | inr (keys, found) ↦
        (keys, found, verify_threshold_sound c m root.keys keys name (rw found at e))
  ]

  module _ (p : Parsers) where
    pub checked_root_ok :
        (s : TrustedMetadataSet) (bytes : Bytes) (new : Metadata Root)
        → checked_root c p s bytes ≡ ok new
        → (new.signed.version ≡ next_version s.root.signed.version)
          × (verify_with_root c new s.root.signed (str "root") ≡ ok tt)
          × (verify_root_self_signed c new ≡ ok tt)
    unfolding checked_root
    checked_root_ok s bytes new e = ground arith

    pub checked_timestamp_ok :
        (s : TrustedMetadataSet) (bytes : Bytes) (now : ℕ) (new : Metadata Timestamp)
        → checked_timestamp c p s bytes now ≡ ok new
        → (verify_with_root c new s.root.signed (str "timestamp") ≡ ok tt)
          × (check_timestamp_version s.timestamp new.signed ≡ ok tt)
          × (ensure_not_expired c p (timestamp_role p) new.signed (str "timestamp") now ≡ ok tt)
    unfolding checked_timestamp
    checked_timestamp_ok s bytes now new e = ground arith

    pub checked_snapshot_ok :
        (s : TrustedMetadataSet) (bytes : Bytes) (now : ℕ) (new : Metadata Snapshot)
        → checked_snapshot c p s bytes now ≡ ok new
        → (ts : Metadata Timestamp) × (pin : MetaFile) × (s.timestamp ≡ some ts)
          × (snapshot_meta ts.signed ≡ some pin)
          × (new.signed.version ≡ pin.version)
          × (check_integrity c bytes pin ≡ ok tt)
          × (verify_with_root c new s.root.signed (str "snapshot") ≡ ok tt)
          × (check_snapshot_files s.snapshot new.signed ≡ ok tt)
          × (ensure_not_expired c p (snapshot_role p) new.signed (str "snapshot") now ≡ ok tt)
    unfolding checked_snapshot
    checked_snapshot_ok s bytes now new e = elim (Option-cases s.timestamp) [
      | inl missing ↦ absurd (ground arith)
      | inr (ts, found) ↦ elim (Option-cases (snapshot_meta ts.signed)) [
        | inl missing ↦ absurd (ground arith)
        | inr (pin, pinned) ↦ (
          ts,
          pin,
          found,
          pinned,
          ground arith,
          ground arith,
          ground arith,
          ground arith,
          ground arith,
        )
      ]
    ]

    pub verify_targets_pin_ok :
        (s : TrustedMetadataSet) (bytes role_name : Bytes) (now : ℕ) (new : Metadata Targets)
        → verify_targets_pin c p s bytes role_name now ≡ ok new
        → (snap : Metadata Snapshot) × (pin : MetaFile) × (s.snapshot ≡ some snap)
          × (lookup (json_name role_name) snap.signed.meta ≡ some pin)
          × (new.signed.version ≡ pin.version)
          × (check_integrity c bytes pin ≡ ok tt)
          × (ensure_not_expired c p (snapshot_role p) snap.signed (str "snapshot") now ≡ ok tt)
    unfolding verify_targets_pin
    verify_targets_pin_ok s bytes role_name now new e = elim (Option-cases s.snapshot) [
      | inl missing ↦ absurd (ground arith)
      | inr (snap, found) ↦ elim (Option-cases (lookup (json_name role_name) snap.signed.meta)) [
        | inl missing ↦ absurd (ground arith)
        | inr (pin, pinned) ↦ (snap, pin, found, pinned, ground arith, ground arith, ground arith)
      ]
    ]

    pub checked_targets_ok :
        (s : TrustedMetadataSet) (bytes : Bytes) (now : ℕ) (new : Metadata Targets)
        → checked_targets c p s bytes now ≡ ok new
        → (verify_targets_pin c p s bytes (str "targets") now ≡ ok new)
          × (verify_with_root c new s.root.signed (str "targets") ≡ ok tt)
          × (ensure_not_expired c p (targets_role p) new.signed (str "targets") now ≡ ok tt)
    unfolding checked_targets
    checked_targets_ok s bytes now new e = ground arith

    pub checked_delegated_ok :
        (s : TrustedMetadataSet) (bytes role_name delegator_name : Bytes) (now : ℕ)
        (new : Metadata Targets)
        → checked_delegated c p s bytes role_name delegator_name now ≡ ok new
        → (keys : Map Key) × (role : RoleKeys) × (is_top_level_role role_name ≡ false)
          × (delegation_authority s delegator_name role_name ≡ ok (keys, role))
          × (verify_targets_pin c p s bytes role_name now ≡ ok new)
          × (verify_threshold c new keys role role_name ≡ ok tt)
          × (ensure_not_expired c p (targets_role p) new.signed role_name now ≡ ok tt)
    unfolding checked_delegated
    checked_delegated_ok s bytes role_name delegator_name now new e =
        elim (Result-cases (delegation_authority s delegator_name role_name)) [
          | inl ((keys, role), found) ↦
              (keys, role, ground arith, found, ground arith, ground arith, ground arith)
          | inr (x, failed) ↦ absurd (ground arith)
        ]
