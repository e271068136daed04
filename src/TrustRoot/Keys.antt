-- ===== src/TrustRoot/Keys.antt =====
-- crates/sigstore-trust-root/src/trusted_root.rs: the certificates of Fulcio and the logs' keys.
use sigstore_rust.Common.{
  List, [], ◌∷◌, Bool, true, false, ◌||◌, Option, none, some, Bytes, Str, Map, bytes_eq,
  if◌then◌else◌, insert, length, take, leb,
}
use sigstore_rust.Common.Fallible.{ok, err, ◌>>=◌}
use sigstore_rust.Types
use sigstore_rust.Types.Encoding.{Codec, KeyHint, LogKeyId, log_key_id_decode}
use sigstore_rust.TrustRoot.{
  Result, key_not_found, from_types_error, Timestamp, ValidityPeriod, TransparencyLog,
  CertificateAuthority, TrustedRoot, contains, usable_for_verification, collect,
}

abbrev any_log : List TransparencyLog → LogKeyId → Bool
any_log [] id = false
any_log (tlog ∷ rest) id = bytes_eq tlog.log_id id || any_log rest id

unfoldable pub has_rekor_key : TrustedRoot → LogKeyId → Bool
has_rekor_key root key_id = any_log root.tlogs key_id

abbrev pub log_valid_for : TransparencyLog → Option ValidityPeriod
log_valid_for log = log.public_key.valid_for

-- `map_err(Error::from)?` on an error of the types' crate.
abbrev pub or_from_types {ℓ} : {A : Type ℓ} → Types.Error.Result A → Result A
or_from_types (ok a) = ok a
or_from_types (err e) = err (from_types_error e)

-- `HashMap::insert` for each pair, in order.
unfoldable pub to_map : List (Str × Bytes) → Map Bytes → Map Bytes
to_map [] keys = keys
to_map (entry ∷ rest) keys = to_map rest (insert entry.0 entry.1 keys)

module _ (parse_timestamp : Str → Option Timestamp) where
  unfoldable pub fulcio_certs : TrustedRoot → Timestamp → Result (List Bytes)
  unfolding collect
  fulcio_certs root now =
      collect parse_timestamp (λ (ca : CertificateAuthority). ca.valid_for)
        (λ (ca : CertificateAuthority). ok ca.cert_chain) now root.certificate_authorities

  abbrev key_by_id : TransparencyLog → Result (List (Str × Bytes))
  key_by_id log = ok ((log.log_id, log.public_key.raw_bytes) ∷ [])

  unfoldable pub rekor_keys : TrustedRoot → Timestamp → Result (Map Bytes)
  unfolding collect to_map
  rekor_keys root now = do
    keys ← collect parse_timestamp log_valid_for key_by_id now root.tlogs
    ok (to_map keys [])

  unfoldable pub ctfe_keys : TrustedRoot → Timestamp → Result (Map Bytes)
  unfolding collect to_map
  ctfe_keys root now = do
    keys ← collect parse_timestamp log_valid_for key_by_id now root.ctlogs
    ok (to_map keys [])

  unfoldable pub ctfe_keys_with_ids :
      (Bytes → Bytes) → TrustedRoot → Timestamp → Result (List (Bytes × Bytes))
  unfolding collect
  ctfe_keys_with_ids sha256 root now =
      collect parse_timestamp log_valid_for
        (λ (ctlog : TransparencyLog).
          ok ((sha256 ctlog.public_key.raw_bytes, ctlog.public_key.raw_bytes) ∷ []))
        now root.ctlogs

  -- The loop over the logs: the first one with the identifier whose key's window passes the test.
  unfoldable pub key_for_log :
      (Option ValidityPeriod → Result Bool) → List TransparencyLog → LogKeyId → Result Bytes
  key_for_log test [] log_id = err (key_not_found log_id)
  key_for_log test (tlog ∷ rest) log_id = elim (bytes_eq tlog.log_id log_id) [
    | false ↦ key_for_log test rest log_id
    | true ↦
        (test (log_valid_for tlog) >>= λ valid. elim valid [
          | false ↦ key_for_log test rest log_id
          | true ↦ ok tlog.public_key.raw_bytes
        ])
  ]

  unfoldable pub rekor_key_for_log : TrustedRoot → LogKeyId → Timestamp → Result Bytes
  unfolding key_for_log usable_for_verification
  rekor_key_for_log root log_id now =
      key_for_log (λ w. usable_for_verification parse_timestamp w now) root.tlogs log_id

  unfoldable pub valid_at : Option ValidityPeriod → Timestamp → Result Bool
  unfolding contains
  valid_at none time = ok true
  valid_at (some period) time = contains parse_timestamp period time

  unfoldable pub rekor_key_for_log_at : TrustedRoot → LogKeyId → Timestamp → Result Bytes
  unfolding key_for_log valid_at
  rekor_key_for_log_at root log_id time = key_for_log (λ w. valid_at w time) root.tlogs log_id

  module _ (codec : Codec) where
    -- A key whose identifier has less than four bytes has no hint and is left out.
    unfoldable pub key_with_hint : TransparencyLog → Result (List (KeyHint × Bytes))
    unfolding log_key_id_decode
    key_with_hint tlog = do
      key_id_bytes ← or_from_types (log_key_id_decode codec tlog.log_id)
      ok (
          if leb 4 (length key_id_bytes)
          then (take 4 key_id_bytes, tlog.public_key.raw_bytes) ∷ []
          else [])

    unfoldable pub rekor_keys_with_hints : TrustedRoot → Timestamp → Result (List (KeyHint × Bytes))
    unfolding collect key_with_hint
    rekor_keys_with_hints root now =
        collect parse_timestamp log_valid_for key_with_hint now root.tlogs
