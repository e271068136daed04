-- ===== src/Tests/Client.antt =====
-- Runs of the updater of crates/sigstore-tuf/src/client.rs, over a small repository and a store in memory.
use sigstore_rust.Common.{
  [], ◌∷◌, none, some, Bytes, Map, str, refl, ◌≡◌, arith, lookup, insert, dec_lt,
}
use sigstore_rust.Common.Fallible.{ok}
use sigstore_rust.Common.Order.{lt_wf}
use sigstore_rust.Tuf.Key.{verification_key, verify_is_ok}
use sigstore_rust.Tuf.Json.{to_canonical_bytes, get, get_value}
use sigstore_rust.Tuf.Metadata.{TargetFile, from_slice, role, target}
use sigstore_rust.Tuf.Metadata.Threshold.{
  verify_threshold, count_signatures, count_signature, is_good,
}
use sigstore_rust.Tuf.Trusted.{
  TrustedMetadataSet, from_root, verify_root_self_signed, check_hashes, digest_hex,
  eq_ignore_ascii_case,
}
use sigstore_rust.Tuf.Trusted.Authority.{IsAuthorized}
use sigstore_rust.Tuf.Trusted.Pinned.{IsPinned}
use sigstore_rust.Tuf.Client.{
  Repository, MetadataStore, Updater, default_config, pure, lift, reads, ◌>>=◌, cache_put,
}
use sigstore_rust.Tuf.Client.Files.{verify_target_bytes}
use sigstore_rust.Tuf.Client.Refresh.{adopt_roots, with_store, new}
use sigstore_rust.Tuf.Client.Resolve.{
  get_target, get_targetinfo, walk, next_visit, ensure_loaded, download_target, fetch_target,
  find_cached_target, target_location,
}
use sigstore_rust.Tuf.Client.Names.{encode_role_inj}
use sigstore_rust.Tuf.Client.Start.{with_store_total}
use sigstore_rust.Tuf.Client.Download.{IsTarget, get_target_ok}
use sigstore_rust.Tuf.Client.Session.{
  call_refresh, call_get_target, start_session, session, session-IsTrusted,
}
use sigstore_rust.Tuf.Client.{attempt, on_trusted}
use sigstore_rust.Tuf.Client.Fresh.{IsFresh, refresh_ok}
use sigstore_rust.Tuf.Client.Files.{encode_role, is_current, is_unreserved}
use sigstore_rust.Tuf.Client.Refresh.{
  refresh, refresh_root, root_loop, fetch_metadata, seed_lower_from_store, refresh_timestamp,
  refresh_snapshot, refresh_targets, fetch_targets_metadata,
}
use sigstore_rust.Tuf.Json.{decimal}
use sigstore_rust.Tuf.Metadata.{is_expired, expires_at, snapshot_meta}
use sigstore_rust.Tuf.Trusted.{
  ensure_not_expired, check_root_expired, check_timestamp_expired, check_snapshot_expired,
  verify_with_root, check_integrity,
}
use sigstore_rust.Tuf.Trusted.Roles.{
  update_timestamp, checked_timestamp, check_timestamp_version, update_snapshot, checked_snapshot,
  check_snapshot_files, update_targets, checked_targets, verify_targets_pin,
}
use sigstore_rust.Tests.Tuf.{crypto, parsers, start, signed_by_k, root_file}

abbrev memory : MetadataStore (Map Bytes)
memory = record { load = λ s name. lookup name s; store = λ s name bytes. insert name bytes s }

-- Every metadata file but the next root is the one of version 2.
abbrev mirror : Repository (Unit {0})
mirror = record {
  fetch_metadata = λ r name max_length. (
    ok (
        lookup name (
          (str "timestamp.json", 2 ∷ [])
          ∷ (str "snapshot.json", 2 ∷ [])
          ∷ (str "targets.json", 2 ∷ [])
          ∷ [])),
    r,
  );
  fetch_target = λ r path max_length. (ok (some (7 ∷ [])), r);
}

abbrev updater : TrustedMetadataSet → Updater (Map Bytes) (Unit {0})
updater s = record { repo = tt; trusted = s; config = default_config; store = some [] }

abbrev unstored : Updater (Map Bytes) (Unit {0})
unstored = record { repo = tt; trusted = start; config = default_config; store = none }

abbrev listing : TargetFile
listing = record { length = 1; hashes = (str "sha256", 7 ∷ []) ∷ [] }

abbrev listed : TrustedMetadataSet
listed = record {
  root = root_file 1;
  timestamp = none;
  snapshot = none;
  targets =
      (
        str "targets",
        record {
          signatures = signed_by_k;
          signed = record {
            version = 2;
            expires = [];
            targets = (str "a", listing) ∷ [];
            delegations = none;
          };
          canonical_signed = [];
        },
      )
      ∷ [];
}

session-IsTrusted_example :
    let u =
      session memory mirror crypto parsers
        (λ pattern. none)
        (call_refresh 5 ∷ call_get_target (str "a") 5 ∷ [])
        (updater start) in
    IsAuthorized crypto u.trusted × IsPinned u.trusted
unfolding start_session new with_store adopt_roots from_root from_slice get get_value
    to_canonical_bytes dec_lt lt_wf verify_root_self_signed role verify_threshold count_signatures
    count_signature is_good verification_key verify_is_ok
session-IsTrusted_example =
    session-IsTrusted memory mirror crypto parsers (λ pattern. none) 1 tt (1 ∷ []) []
      (updater start) (call_refresh 5 ∷ call_get_target (str "a") 5 ∷ []) refl

get_target_ok_example :
    IsTarget crypto memory mirror parsers (λ pattern. none) (str "a") 5 (updater listed) (7 ∷ [])
unfolding get_target get_targetinfo walk next_visit ensure_loaded ◌>>=◌ pure reads lift target
    find_cached_target download_target fetch_target target_location verify_target_bytes check_hashes
    digest_hex eq_ignore_ascii_case cache_put
get_target_ok_example =
    get_target_ok crypto memory mirror parsers (λ pattern. none) (str "a") 5 (updater listed)
      (7 ∷ []) refl

encode_role_inj_example : str "a/b" ≡ str "a/b"
encode_role_inj_example =
    encode_role_inj (str "a/b") (str "a/b") (omega arith, (omega arith, (omega arith, tt)))
      (omega arith, (omega arith, (omega arith, tt))) refl

with_store_total_example :
    (v : Updater (Map Bytes) (Unit {0})) × (with_store memory mirror crypto parsers 1 unstored []
      ≡ some v)
    × (v.store ≡ some [])
with_store_total_example =
    with_store_total memory mirror crypto parsers 0 1 unstored [] (omega arith) (omega arith) refl

refresh_ok_example :
    IsFresh crypto parsers 5 (refresh memory mirror crypto parsers 5 (updater start)).1.trusted
unfolding refresh ◌>>=◌ pure reads lift attempt on_trusted cache_put refresh_root root_loop
    fetch_metadata decimal dec_lt lt_wf seed_lower_from_store check_root_expired ensure_not_expired
    is_expired expires_at refresh_timestamp update_timestamp checked_timestamp from_slice get
    get_value to_canonical_bytes verify_with_root role verify_threshold count_signatures
    count_signature is_good verification_key verify_is_ok check_timestamp_version refresh_snapshot
    snapshot_meta check_timestamp_expired is_current update_snapshot checked_snapshot
    check_integrity check_snapshot_files refresh_targets check_snapshot_expired
    fetch_targets_metadata encode_role is_unreserved update_targets checked_targets
    verify_targets_pin
refresh_ok_example = refresh_ok crypto parsers memory mirror 5 (updater start) refl
