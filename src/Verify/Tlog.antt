-- ===== src/Verify/Tlog.antt =====
-- crates/sigstore-verify/src/verify_impl/tlog.rs: the entries of the transparency log. `now` is what
-- `Timestamp::now` gives.
pub mod Bound
pub mod Times
pub mod Promise
use sigstore_rust.Common.{
  ℕ, List, [], ◌∷◌, Bool, true, false, Bytes, Str, Option, none, some, if◌then◌else◌, bytes_eq, not,
}
use sigstore_rust.Common.Fallible.{ok, err, ◌>>=◌, ◌>>◌, ensure, ok_or}
use sigstore_rust.Common.Int.{ℤ, pos, ◌+ℤ◌, ltb_ℤ, as_i64, wrap_i64}
use sigstore_rust.Merkle.Tree.{hash_leaf}
use sigstore_rust.Merkle.Inclusion.{verify_inclusion_proof}
use sigstore_rust.Types.Encoding.{KeyHint, index_as_u64}
use sigstore_rust.Types.Checkpoint.{Checkpoint, CheckpointSignature, from_text, signed_data}
use sigstore_rust.Types.Bundle.{Bundle, TransparencyLogEntry, InclusionProof}
use sigstore_rust.TrustRoot.{TrustedRoot, Timestamp}
use sigstore_rust.TrustRoot.Keys.{rekor_keys_with_hints, rekor_key_for_log, rekor_key_for_log_at}
use sigstore_rust.Crypto.Checkpoint.{verify_signature_auto}
use sigstore_rust.Verify.Platform.{
  Platform, Result, Error, verification, or_verification, RekorPayload,
}

module _ (p : Platform) where
  unfoldable pub verify_merkle_inclusion : TransparencyLogEntry → InclusionProof → Result (Unit {0})
  unfolding index_as_u64 hash_leaf verify_inclusion_proof
  verify_merkle_inclusion entry proof = do
    leaf_index ← ok_or (index_as_u64 proof.log_index) verification
    tree_size ← ok_or (index_as_u64 proof.tree_size) verification
    or_verification (
        verify_inclusion_proof p.keys.sha256 (hash_leaf p.keys.sha256 entry.canonicalized_body)
          leaf_index tree_size proof.hashes proof.root_hash)

  -- The keys that have a signature's hint: the first one decides.
  unfoldable pub matching_key : KeyHint → List (KeyHint × Bytes) → Option Bytes
  matching_key key_id [] = none
  matching_key key_id (key ∷ keys) =
      if bytes_eq key_id key.0 then some key.1 else matching_key key_id keys

  -- The loop over the signatures: the first one with a key decides.
  unfoldable pub verify_first_match :
      Bytes → List (KeyHint × Bytes) → List CheckpointSignature → Result (Unit {0})
  unfolding matching_key verify_signature_auto
  verify_first_match message keys [] = err verification
  verify_first_match message keys (sig ∷ sigs) = elim (matching_key sig.key_id keys) [
    | some public_key ↦
        or_verification (verify_signature_auto p.keys p.spki_oid public_key sig.signature message)
    | none ↦ verify_first_match message keys sigs
  ]

  unfoldable pub verify_checkpoint :
      Str → InclusionProof → TrustedRoot → Timestamp → Result (Unit {0})
  unfolding from_text rekor_keys_with_hints verify_first_match signed_data
  verify_checkpoint checkpoint_envelope inclusion_proof trusted_root now = do
    checkpoint ← or_verification (from_text p.codec checkpoint_envelope)
    ensure (bytes_eq checkpoint.root_hash inclusion_proof.root_hash) verification
    keys ← or_verification (rekor_keys_with_hints p.parse_timestamp p.codec trusted_root now)
    verify_first_match (signed_data checkpoint) keys checkpoint.signatures

  -- The key for the entry's log, valid at the integrated time if the entry has one.
  unfoldable pub set_key : TransparencyLogEntry → TrustedRoot → Timestamp → Result Bytes
  unfolding rekor_key_for_log_at rekor_key_for_log
  set_key entry trusted_root now = elim (ltb_ℤ (pos 0) entry.integrated_time) [
    | true ↦ do
      integrated_ts ← ok_or (p.from_second entry.integrated_time) verification
      or_verification
          (rekor_key_for_log_at p.parse_timestamp trusted_root entry.log_id integrated_ts)
    | false ↦ or_verification (rekor_key_for_log p.parse_timestamp trusted_root entry.log_id now)
  ]

  unfoldable pub verify_set : TransparencyLogEntry → TrustedRoot → Timestamp → Result (Unit {0})
  unfolding set_key index_as_u64 verify_signature_auto
  verify_set entry trusted_root now = do
    promise ← ok_or entry.inclusion_promise verification
    log_key ← set_key entry trusted_root now
    log_index ← ok_or (index_as_u64 entry.log_index) verification
    log_id_bytes ← ok_or (p.codec.base64_decode entry.log_id) verification
    json ←
        ok_or
          (p.canonical_json (record {
            body = p.codec.base64_encode entry.canonicalized_body;
            integrated_time = entry.integrated_time;
            log_index = as_i64 log_index;
            log_id = p.codec.hex_encode log_id_bytes;
          }))
          verification
    or_verification
        (verify_signature_auto p.keys p.spki_oid log_key promise.signed_entry_timestamp json)

  unfoldable pub verify_entry_inclusion :
      TransparencyLogEntry → TrustedRoot → Timestamp → Result (Unit {0})
  unfolding verify_merkle_inclusion verify_checkpoint verify_set
  verify_entry_inclusion entry trusted_root now = do
    elim entry.inclusion_proof [
      | none ↦ ok tt
      | some proof ↦
          (verify_merkle_inclusion entry proof
            >> verify_checkpoint proof.checkpoint proof trusted_root now)
    ]
    elim entry.inclusion_promise [ none ↦ ok tt | some promise ↦ verify_set entry trusted_root now ]

  -- The checks of a time that an entry gives.
  unfoldable pub check_integrated_time : ℤ → ℤ → ℤ → ℤ → Timestamp → Result (Unit {0})
  check_integrated_time time not_before not_after clock_skew_seconds now = do
    ensure (not (ltb_ℤ (wrap_i64 (p.as_second now +ℤ clock_skew_seconds)) time)) verification
    ensure (not (ltb_ℤ time not_before)) verification
    ensure (not (ltb_ℤ not_after time)) verification

  unfoldable pub tlog_loop :
      TrustedRoot → ℤ → ℤ → ℤ → Timestamp → Option ℤ → List TransparencyLogEntry → Result (Option ℤ)
  unfolding verify_entry_inclusion check_integrated_time
  tlog_loop trusted_root not_before not_after clock_skew_seconds now result [] = ok result
  tlog_loop trusted_root not_before not_after clock_skew_seconds now result (entry ∷ rest) = do
    verify_entry_inclusion entry trusted_root now
    elim (ltb_ℤ (pos 0) entry.integrated_time) [
      | false ↦ tlog_loop trusted_root not_before not_after clock_skew_seconds now result rest
      | true ↦
          (check_integrated_time entry.integrated_time not_before not_after clock_skew_seconds now
            >> tlog_loop trusted_root not_before not_after clock_skew_seconds now
                (some entry.integrated_time) rest)
    ]

  unfoldable pub verify_tlog_entries :
      Bundle → TrustedRoot → ℤ → ℤ → ℤ → Timestamp → Result (Option ℤ)
  unfolding tlog_loop
  verify_tlog_entries bundle trusted_root not_before not_after clock_skew_seconds now =
      tlog_loop trusted_root not_before not_after clock_skew_seconds now none
        bundle.verification_material.tlog_entries
