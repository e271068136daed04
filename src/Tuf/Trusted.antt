-- ===== src/Tuf/Trusted.antt =====
-- crates/sigstore-tuf/src/trusted.rs: the trusted metadata and the checks that guard each update. An
-- operation returns its `Result` and the state, which is the old one wherever the code returns early.
pub mod Roles
pub mod Accepted
pub mod Steps
pub mod Pinned
pub mod Rollback
pub mod Integrity
pub mod Authority
pub mod Delegated
pub mod Refused
use sigstore_rust.Common.{
  ℕ, ◌+◌, ◌%◌, ◌^◌, List, [], ◌∷◌, ◌++◌, Bool, true, false, ◌||◌, Option, none, some, Bytes, Str,
  Map, str, if◌then◌else◌, bytes_eq, lookup, insert, not, ltb, ◌==◌, length,
}
use sigstore_rust.Common.Fallible.{ok, err, ◌>>=◌, ◌>>◌, ensure, ok_or}
use sigstore_rust.Tuf.Error.{
  Error, Result, malformed, unknown_role, bad_root_version, rollback, equal_version,
  integrity_mismatch, expired,
}
use sigstore_rust.Tuf.Key.{Key, Crypto}
use sigstore_rust.Tuf.Metadata.{
  RoleKeys, Root, MetaFile, Timestamp, Snapshot, DelegatedRole, Delegations, Targets, Metadata,
  Role, Parsers, role, role_keys, snapshot_meta, root_role, timestamp_role, snapshot_role,
  targets_role, is_expired, from_slice,
}
use sigstore_rust.Tuf.Metadata.Threshold.{verify_threshold}

pub record TrustedMetadataSet : Type 0 where
  pub root : Metadata Root
  pub timestamp : Option (Metadata Timestamp)
  pub snapshot : Option (Metadata Snapshot)
  pub targets : Map (Metadata Targets)

-- The checks, then the assignment, which is made only if they pass.
abbrev pub commit :
    {A : Type 0}
    → TrustedMetadataSet
    → Result A
    → (A → TrustedMetadataSet)
    → Result (Unit {0}) × TrustedMetadataSet
commit s (ok a) f = (ok tt, f a)
commit s (err e) f = (err e, s)

unfoldable pub is_top_level_role : Str → Bool
is_top_level_role name =
    bytes_eq name (str "root")
    || (bytes_eq name (str "timestamp")
        || (bytes_eq name (str "snapshot") || bytes_eq name (str "targets")))

abbrev pub json_name : Str → Str
json_name role_name = role_name ++ str ".json"

-- `hex.eq_ignore_ascii_case(other)`
abbrev lower : ℕ → ℕ
lower b = if ltb b 0x41 then b else if ltb 0x5a b then b else b + 32

unfoldable pub eq_ignore_ascii_case : Str → Str → Bool
eq_ignore_ascii_case [] [] = true
eq_ignore_ascii_case [] (b ∷ t) = false
eq_ignore_ascii_case (a ∷ s) [] = false
eq_ignore_ascii_case (a ∷ s) (b ∷ t) =
    if lower a == lower b then eq_ignore_ascii_case s t else false

-- `version + 1` on a u64, with its wrap-around.
abbrev pub next_version : ℕ → ℕ
next_version version = (version + 1) % 2 ^ 64

module _ (c : Crypto) where
  -- The digest of a supported algorithm, in hex.
  unfoldable pub digest_hex : Str → Bytes → Option Str
  digest_hex algo bytes =
      if bytes_eq algo (str "sha256")
      then some (c.hex_encode (c.sha256 bytes))
      else if bytes_eq algo (str "sha512")
      then some (c.hex_encode (c.sha512 bytes))
      else none

  -- The loop over the pinned hashes; `verified_any` is whether one was compared.
  unfoldable pub check_hashes : Bytes → Bool → Map Str → Result Bool
  check_hashes bytes verified_any [] = ok verified_any
  check_hashes bytes verified_any ((algo, expected_hex) ∷ rest) = elim (digest_hex algo bytes) [
    | none ↦ check_hashes bytes verified_any rest
    | some actual ↦ elim (eq_ignore_ascii_case actual expected_hex) [
      | true ↦ check_hashes bytes true rest
      | false ↦ err integrity_mismatch
    ]
  ]

  abbrev length_matches : Bytes → Option ℕ → Bool
  length_matches bytes none = true
  length_matches bytes (some expected_len) = length bytes == expected_len

  unfoldable pub check_integrity : Bytes → MetaFile → Result (Unit {0})
  check_integrity bytes meta = do
    ensure (length_matches bytes meta.length) integrity_mismatch
    elim meta.hashes [
      | none ↦ ok tt
      | some hashes ↦
          (check_hashes bytes false hashes >>= λ verified_any.
          ensure verified_any integrity_mismatch)
    ]

  unfoldable pub verify_with_root : {T : Type 0} → Metadata T → Root → Str → Result (Unit {0})
  verify_with_root metadata root role_name = do
    keys ← ok_or (role root role_name) (unknown_role role_name)
    verify_threshold c metadata root.keys keys role_name

  unfoldable pub verify_root_self_signed : Metadata Root → Result (Unit {0})
  verify_root_self_signed root = do
    keys ← ok_or (role root.signed (str "root")) (unknown_role (str "root"))
    verify_threshold c root root.signed.keys keys (str "root")

  module _ (p : Parsers) where
    unfoldable pub ensure_not_expired : {T : Type 0} → Role T → T → Str → ℕ → Result (Unit {0})
    ensure_not_expired r t name now = do
      old ← is_expired p r t now
      ensure (not old) (expired name (r.expires t))

    unfoldable pub from_root : Bytes → Result TrustedMetadataSet
    from_root bytes = do
      root ← from_slice p (root_role p) bytes
      verify_root_self_signed root
      ok (record { root = root; timestamp = none; snapshot = none; targets = [] })

    -- The checks of `update_root`; they give the new root.
    unfoldable pub checked_root : TrustedMetadataSet → Bytes → Result (Metadata Root)
    checked_root s bytes = do
      new_root ← from_slice p (root_role p) bytes
      ensure (new_root.signed.version == next_version s.root.signed.version)
          (bad_root_version s.root.signed.version new_root.signed.version)
      verify_with_root new_root s.root.signed (str "root")
      verify_root_self_signed new_root
      ok new_root

    unfoldable pub update_root : TrustedMetadataSet → Bytes → Result (Unit {0}) × TrustedMetadataSet
    unfolding checked_root
    update_root s bytes =
        commit s (checked_root s bytes)
          (λ new_root. record { root = new_root; timestamp = none; snapshot = none; targets = [] })

    unfoldable pub check_root_expired : TrustedMetadataSet → ℕ → Result (Unit {0})
    check_root_expired s now = ensure_not_expired (root_role p) s.root.signed (str "root") now

    unfoldable pub check_timestamp_expired : TrustedMetadataSet → ℕ → Result (Unit {0})
    check_timestamp_expired s now = elim s.timestamp [
      | none ↦ ok tt
      | some ts ↦ ensure_not_expired (timestamp_role p) ts.signed (str "timestamp") now
    ]

    unfoldable pub check_snapshot_expired : TrustedMetadataSet → ℕ → Result (Unit {0})
    check_snapshot_expired s now = elim s.snapshot [
      | none ↦ ok tt
      | some snap ↦ ensure_not_expired (snapshot_role p) snap.signed (str "snapshot") now
    ]
