-- ===== src/Validation.antt =====
-- crates/sigstore-bundle/src/validation.rs: the shape of a bundle. An error's text is left out.
pub mod Exact
use sigstore_rust.Common.{
  List, [], ◌∷◌, Bool, true, false, ◌&&◌, ◌||◌, Option, none, some, bytes_eq, if◌then◌else◌, ltb,
  not, is_empty, ◌≡◌,
}
use sigstore_rust.Common.Fallible.{Result, ok, err, ◌>>=◌, ◌>>◌, ensure, ok_or}
use sigstore_rust.Types.Encoding.{Codec, index_as_u64}
use sigstore_rust.Types.Checkpoint.{Checkpoint}
use sigstore_rust.Types.Bundle.{
  Bundle, MediaType, bundle_0_1, bundle_0_2, bundle_0_3, VerificationMaterialContent, certificate,
  x509_certificate_chain, public_key, TransparencyLogEntry, InclusionProof, version,
  has_inclusion_proof, has_inclusion_promise, checkpoint_parse,
}

-- crates/sigstore-bundle/src/error.rs
pub data Error : Type 0 where
  validation json : Error

pub record ValidationOptions : Type 0 where
  pub require_inclusion_proof : Bool
  pub require_timestamp : Bool

abbrev pub default_options : ValidationOptions
default_options = record { require_inclusion_proof = true; require_timestamp = false }

-- `map_err(|e| Error::Validation(..))?`
abbrev pub or_validation {ℓ} : {E : Type 0} {A : Type ℓ} → Result E A → Result Error A
or_validation (ok a) = ok a
or_validation (err e) = err validation

pub or_validation-eq-ok {ℓ} :
    {E : Type 0} {A : Type ℓ} (r : Result E A) {a : A} → or_validation r ≡ ok a → r ≡ ok a
or_validation-eq-ok (ok a) h = cc
or_validation-eq-ok (err e) h = cc

-- A v0.3 bundle has a certificate or a key.
abbrev pub is_chain : VerificationMaterialContent → Bool
is_chain (certificate cert) = false
is_chain (x509_certificate_chain certificates) = true
is_chain (public_key hint) = false

module _ (codec : Codec) where
  unfoldable pub validate_proof : InclusionProof → Result Error (Unit {0})
  unfolding checkpoint_parse index_as_u64
  validate_proof proof = do
    checkpoint ← or_validation (checkpoint_parse codec proof.checkpoint)
    leaf_index ← ok_or (index_as_u64 proof.log_index) validation
    tree_size ← ok_or (index_as_u64 proof.tree_size) validation
    ensure (ltb leaf_index tree_size) validation
    ensure (bytes_eq checkpoint.root_hash proof.root_hash) validation

  unfoldable pub validate_entry : Option InclusionProof → Result Error (Unit {0})
  unfolding validate_proof
  validate_entry none = ok tt
  validate_entry (some proof) = validate_proof proof

  unfoldable pub validate_entries : List TransparencyLogEntry → Result Error (Unit {0})
  unfolding validate_entry
  validate_entries [] = ok tt
  validate_entries (entry ∷ rest) = do validate_entry entry.inclusion_proof; validate_entries rest

  unfoldable pub validate_inclusion_proof_structure : Bundle → Result Error (Unit {0})
  unfolding validate_entries
  validate_inclusion_proof_structure bundle =
      validate_entries bundle.verification_material.tlog_entries

  unfoldable pub validate_common : Bundle → ValidationOptions → Result Error (Unit {0})
  validate_common bundle options =
      let has_tlog_entries = not (is_empty bundle.verification_material.tlog_entries) in
      let has_timestamp = not (is_empty bundle.verification_material.rfc3161_timestamps) in
      (ensure (not (not has_tlog_entries && (options.require_inclusion_proof || not has_timestamp)))
          validation
        >> ensure (not (options.require_timestamp && not has_timestamp)) validation)

  unfoldable pub validate_v0_1 : Bundle → ValidationOptions → Result Error (Unit {0})
  unfolding validate_inclusion_proof_structure validate_common has_inclusion_promise
  validate_v0_1 bundle options = do
    ensure (has_inclusion_promise bundle) validation
    validate_inclusion_proof_structure bundle
    validate_common bundle options

  unfoldable pub validate_v0_2 : Bundle → ValidationOptions → Result Error (Unit {0})
  unfolding validate_inclusion_proof_structure validate_common has_inclusion_proof
  validate_v0_2 bundle options = do
    ensure (not (options.require_inclusion_proof && not (has_inclusion_proof bundle))) validation
    validate_inclusion_proof_structure bundle
    validate_common bundle options

  unfoldable pub validate_v0_3 : Bundle → ValidationOptions → Result Error (Unit {0})
  unfolding validate_inclusion_proof_structure validate_common has_inclusion_proof
  validate_v0_3 bundle options = do
    ensure (not (is_chain bundle.verification_material.content)) validation
    ensure (not (options.require_inclusion_proof && not (has_inclusion_proof bundle))) validation
    validate_inclusion_proof_structure bundle
    validate_common bundle options

  unfoldable pub validate_version : MediaType → Bundle → ValidationOptions → Result Error (Unit {0})
  unfolding validate_v0_1 validate_v0_2 validate_v0_3
  validate_version bundle_0_1 bundle options = validate_v0_1 bundle options
  validate_version bundle_0_2 bundle options = validate_v0_2 bundle options
  validate_version bundle_0_3 bundle options = validate_v0_3 bundle options

  unfoldable pub validate_bundle_with_options : Bundle → ValidationOptions → Result Error (Unit {0})
  unfolding version validate_version
  validate_bundle_with_options bundle options = do
    v ← or_validation (version bundle)
    validate_version v bundle options

  unfoldable pub validate_bundle : Bundle → Result Error (Unit {0})
  unfolding validate_bundle_with_options
  validate_bundle bundle = validate_bundle_with_options bundle default_options
