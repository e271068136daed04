-- ===== src/Tests/Tuf.antt =====
-- Runs of crates/sigstore-tuf, over toy parsers and a signature scheme that accepts all.
use sigstore_rust.Tuf.Trusted.Refused.{accepted, AllSucceed, run-accepted}
use sigstore_rust.Common.{
  ℕ, ◌+◌, List, [], ◌∷◌, true, false, none, some, Str, str, refl, ◌≡◌, ◌≢◌, ◌↔◌, arith, lookup,
  dec_lt,
}
use sigstore_rust.Common.Fallible.{ok}
use sigstore_rust.Common.Order.{lt_wf}
use sigstore_rust.Tuf.Key.{Key, Crypto, verification_key, verify_is_ok}
use sigstore_rust.Tuf.Json.{
  Value, Fields, number, object, field, pos_int, to_canonical_bytes, get, get_value,
}
use sigstore_rust.Tuf.Metadata.{
  RoleKeys, Root, MetaFile, Targets, Signature, Metadata, Parsers, Delegations, from_slice,
  is_expired, role, role_keys,
}
use sigstore_rust.Tuf.Metadata.Threshold.{
  verify_threshold, count_signatures, count_signature, is_good,
}
use sigstore_rust.Tuf.Metadata.Threshold.Loop.{MeetsThreshold, verify_threshold_sound}
use sigstore_rust.Tuf.Metadata.Threshold.Exact.{expected, verify_threshold-expected}
use sigstore_rust.Tuf.Trusted.{
  TrustedMetadataSet, from_root, verify_root_self_signed, verify_with_root, ensure_not_expired,
  check_integrity, update_root, next_version, is_top_level_role,
}
use sigstore_rust.Tuf.Trusted.Roles.{
  update_delegated_targets, verify_targets_pin, delegation_authority,
}
use sigstore_rust.Tuf.Trusted.Accepted.{Authorized}
use sigstore_rust.Tuf.Trusted.Authority.{IsAuthorized, run-IsAuthorized, update_root_ok}
use sigstore_rust.Tuf.Trusted.Delegated.{DelegatedBy, update_delegated_targets_ok}
use sigstore_rust.Tuf.Trusted.Integrity.{LengthMatches, HashesMatch, check_integrity_iff}
use sigstore_rust.Tuf.Trusted.Pinned.{IsPinned, run-IsPinned}
use sigstore_rust.Tuf.Trusted.Rollback.{NoRollback, run-NoRollback}
use sigstore_rust.Tuf.Trusted.Steps.{
  Op, feed_timestamp, feed_snapshot, feed_targets, feed_delegated, run,
}

abbrev pub crypto : Crypto
crypto = record {
  trim = λ s. s;
  hex_decode = λ s. some s;
  hex_encode = λ b. b;
  from_pem = λ s. some s;
  subject_public_key = λ b. some b;
  verify = λ scheme key message signature. true;
  sha256 = λ b. b;
  sha512 = λ b. b;
}

-- A file is one number, the version of what it holds.
abbrev version_of : Value → ℕ
version_of (number (pos_int n)) = n
version_of _ = 0

abbrev key : Key
key = record { keytype = str "ed25519"; scheme = str "ed25519"; public = str "-----BEGIN" }

abbrev one_key : RoleKeys
one_key = record { keyids = str "k" ∷ []; threshold = 1 }

abbrev root_of : ℕ → Root
root_of n = record {
  version = n;
  expires = [];
  consistent_snapshot = false;
  keys = (str "k", key) ∷ [];
  roles =
      (str "root", one_key)
      ∷ (str "timestamp", one_key)
      ∷ (str "snapshot", one_key)
      ∷ (str "targets", one_key)
      ∷ [];
}

abbrev pin_of : ℕ → MetaFile
pin_of n = record { version = n; length = some 1; hashes = none }

abbrev delegations : Delegations
delegations = record {
  keys = (str "k", key) ∷ [];
  roles =
      (record {
        name = str "d";
        keyids = str "k" ∷ [];
        threshold = 1;
        terminating = false;
        paths = none;
        path_hash_prefixes = none;
      })
      ∷ [];
}

abbrev targets_of : ℕ → Targets
targets_of n = record { version = n; expires = []; targets = []; delegations = some delegations }

abbrev pub signed_by_k : List Signature
signed_by_k = record { keyid = str "k"; sig = str "00" } ∷ []

abbrev pub parsers : Parsers
parsers = record {
  from_slice = λ b. elim b [
    | [] ↦ none
    | n ∷ _ ↦ some (
        object (
          field (str "signatures") (number (pos_int n))
            (field (str "signed") (number (pos_int n)) Fields.end)))
  ];
  signatures = λ v. some signed_by_k;
  timestamp = λ s. some 10;
  root = λ v. some (root_of (version_of v));
  timestamp_role = λ v. some (record {
    version = version_of v;
    expires = [];
    meta = (str "snapshot.json", pin_of (version_of v)) ∷ [];
  });
  snapshot = λ v. some (record {
    version = version_of v;
    expires = [];
    meta = (str "targets.json", pin_of (version_of v)) ∷ (str "d.json", pin_of (version_of v)) ∷ [];
  });
  targets = λ v. some (targets_of (version_of v));
}

abbrev pub root_file : ℕ → Metadata Root
root_file n = record {
  signatures = signed_by_k;
  signed = root_of n;
  canonical_signed = (b'0' + n) ∷ [];
}

abbrev pub start : TrustedMetadataSet
start = record { root = root_file 1; timestamp = none; snapshot = none; targets = [] }

pub started : from_root crypto parsers (1 ∷ []) ≡ ok start
unfolding from_root from_slice get get_value to_canonical_bytes dec_lt lt_wf verify_root_self_signed
    role verify_threshold count_signatures count_signature is_good verification_key verify_is_ok
started = refl

abbrev feed : List Op
feed =
    feed_timestamp (2 ∷ []) 5
    ∷ feed_snapshot (2 ∷ []) 5
    ∷ feed_targets (2 ∷ []) 5
    ∷ feed_delegated (2 ∷ []) (str "d") (str "targets") 5
    ∷ feed_timestamp (1 ∷ []) 5
    ∷ []

verify_threshold_sound_example :
    MeetsThreshold crypto ((str "k", key) ∷ []) (b'1' ∷ []) one_key signed_by_k
unfolding verify_threshold count_signatures count_signature is_good verification_key verify_is_ok
verify_threshold_sound_example =
    verify_threshold_sound crypto (root_file 1) ((str "k", key) ∷ []) one_key (str "root") refl

verify_threshold-expected_example :
    verify_threshold crypto (root_file 1) ((str "k", key) ∷ []) one_key (str "root")
    ≡ expected crypto (root_file 1) ((str "k", key) ∷ []) one_key (str "root")
verify_threshold-expected_example =
    verify_threshold-expected crypto (root_file 1) ((str "k", key) ∷ []) one_key (str "root")

check_integrity_iff_example :
    (check_integrity crypto (7 ∷ []) (pin_of 2) ≡ ok tt)
    ↔ (LengthMatches crypto (7 ∷ []) (some 1) × HashesMatch crypto (7 ∷ []) none)
check_integrity_iff_example = check_integrity_iff crypto (7 ∷ []) (pin_of 2)

run-IsPinned_example : IsPinned (run crypto parsers feed start)
run-IsPinned_example = run-IsPinned crypto parsers feed (1 ∷ []) start started

run-IsAuthorized_example : IsAuthorized crypto (run crypto parsers feed start)
run-IsAuthorized_example = run-IsAuthorized crypto parsers feed (1 ∷ []) start started

run-NoRollback_example : NoRollback start (run crypto parsers feed start)
run-NoRollback_example = run-NoRollback crypto parsers feed start (omega arith)

run-accepted_example :
    (run crypto parsers feed start ≡ run crypto parsers (accepted crypto parsers feed start) start)
    × AllSucceed crypto parsers (accepted crypto parsers feed start) start
run-accepted_example = run-accepted crypto parsers feed start

update_root_ok_example :
    let t = (update_root crypto parsers start (2 ∷ [])).1 in
    (t.root.signed.version ≡ next_version 1)
    × Authorized crypto (root_of 1) (str "root") t.root
    × Authorized crypto t.root.signed (str "root") t.root
    × (t.timestamp ≡ none)
    × (t.snapshot ≡ none)
    × (t.targets ≡ [])
unfolding update_root from_slice get get_value to_canonical_bytes dec_lt lt_wf
    verify_root_self_signed verify_with_root role verify_threshold count_signatures count_signature
    is_good verification_key verify_is_ok
update_root_ok_example = update_root_ok crypto parsers start (2 ∷ []) refl

abbrev before_delegation : TrustedMetadataSet
before_delegation = record {
  root = root_file 1;
  timestamp = none;
  snapshot = some (record {
    signatures = signed_by_k;
    signed = record { version = 2; expires = []; meta = (str "d.json", pin_of 2) ∷ [] };
    canonical_signed = [];
  });
  targets =
      (
        str "targets",
        record { signatures = signed_by_k; signed = targets_of 2; canonical_signed = [] },
      )
      ∷ [];
}

abbrev after_delegation : TrustedMetadataSet
after_delegation =
    (update_delegated_targets crypto parsers before_delegation (2 ∷ []) (str "d") (str "targets")
      5).1

update_delegated_targets_ok_example :
    (m : Metadata Targets) × (is_top_level_role (str "d") ≡ false)
    × DelegatedBy crypto before_delegation (str "targets") (str "d") m
    × (lookup (str "d") after_delegation.targets ≡ some m)
    × ((j : Str)
        → j ≢ str "d"
        → lookup j after_delegation.targets ≡ lookup j before_delegation.targets)
    × (after_delegation.root ≡ before_delegation.root)
    × (after_delegation.timestamp ≡ before_delegation.timestamp)
    × (after_delegation.snapshot ≡ before_delegation.snapshot)
unfolding update_delegated_targets delegation_authority verify_targets_pin ensure_not_expired
    is_expired check_integrity from_slice get get_value to_canonical_bytes dec_lt lt_wf
    verify_threshold count_signatures count_signature is_good verification_key verify_is_ok
    is_top_level_role role_keys
update_delegated_targets_ok_example =
    update_delegated_targets_ok crypto parsers before_delegation (2 ∷ []) (str "d") (str "targets")
      5 refl
