-- ===== src/Validation/Exact.antt =====
-- crates/sigstore-bundle/src/validation.rs: which bundles pass.
use sigstore_rust.Common.{
  not-true, ℕ, ◌<◌, List, [], ◌∷◌, Bool, true, false, ◌&&◌, some, All, not, is_empty, ltb,
  eq_of_bytes_eq, ◌≡◌, refl, arith,
}
use sigstore_rust.Common.Fallible.{ok, >>=-eq-ok, ensure_then_ok, ok_or_then_ok, ensure-eq-ok}
use sigstore_rust.Types.Encoding.{Codec, index_as_u64}
use sigstore_rust.Types.Checkpoint.{Checkpoint}
use sigstore_rust.Types.Bundle.{
  Bundle, MediaType, bundle_0_1, bundle_0_2, bundle_0_3, TransparencyLogEntry, InclusionProof,
  version, has_inclusion_proof, has_inclusion_promise, checkpoint_parse,
}
use sigstore_rust.Validation.{
  ValidationOptions, or_validation, or_validation-eq-ok, validate_proof, validate_entry,
  validate_entries, validate_common, validate_v0_1, validate_v0_2, validate_v0_3, validate_version,
  validate_inclusion_proof_structure, validate_bundle_with_options, is_chain,
}

module _ (codec : Codec) where
  -- The checkpoint parses and has the proof's root hash, and the index is in the tree.
  abbrev pub ProofShaped : InclusionProof → Type 0
  ProofShaped proof =
      (checkpoint : Checkpoint) × (index : ℕ) × (size : ℕ) × (checkpoint_parse codec
          proof.checkpoint
        ≡ ok checkpoint)
      × (index_as_u64 proof.log_index ≡ some index)
      × (index_as_u64 proof.tree_size ≡ some size)
      × (index < size)
      × (checkpoint.root_hash ≡ proof.root_hash)

  abbrev pub EntryShaped : TransparencyLogEntry → Type 0
  EntryShaped entry =
      (proof : InclusionProof) → entry.inclusion_proof ≡ some proof → ProofShaped proof

  validate_proof-Shaped :
      (proof : InclusionProof) → validate_proof codec proof ≡ ok tt → ProofShaped proof
  unfolding validate_proof
  validate_proof-Shaped proof e =
      let (cp, parsed, e1) =
        >>=-eq-ok (or_validation (checkpoint_parse codec proof.checkpoint)) _ e in
      let (i, index, e2) = ok_or_then_ok (index_as_u64 proof.log_index) _ _ e1 in
      let (n, size, e3) = ok_or_then_ok (index_as_u64 proof.tree_size) _ _ e2 in
      let (inside, e4) = ensure_then_ok (ltb i n) _ _ e3 in
      (
        cp,
        i,
        n,
        or_validation-eq-ok _ parsed,
        index,
        size,
        ground arith,
        eq_of_bytes_eq cp.root_hash proof.root_hash (ensure-eq-ok _ _ e4),
      )

  validate_entries-Shaped :
      (entries : List TransparencyLogEntry)
      → validate_entries codec entries ≡ ok tt
      → All EntryShaped entries
  unfolding validate_entries validate_entry
  validate_entries-Shaped [] e = tt
  validate_entries-Shaped (entry ∷ rest) e =
      let (_, first, e1) = >>=-eq-ok (validate_entry codec entry.inclusion_proof) _ e in
      (
        (λ proof has. validate_proof-Shaped proof (rw (has, validate_entry) at first)),
        validate_entries-Shaped rest e1,
      )

  -- What a version asks for, besides entries of the right shape.
  abbrev pub VersionShaped : MediaType → Bundle → ValidationOptions → Type 0
  VersionShaped bundle_0_1 bundle options = has_inclusion_promise bundle ≡ true
  VersionShaped bundle_0_2 bundle options =
      options.require_inclusion_proof ≡ true → has_inclusion_proof bundle ≡ true
  VersionShaped bundle_0_3 bundle options =
      (is_chain bundle.verification_material.content ≡ false)
      × (options.require_inclusion_proof ≡ true → has_inclusion_proof bundle ≡ true)

  validate_common_ok :
      (bundle : Bundle) (options : ValidationOptions)
      → validate_common codec bundle options ≡ ok tt
      → ((is_empty bundle.verification_material.tlog_entries
            && is_empty bundle.verification_material.rfc3161_timestamps)
          ≡ false)
        × ((options.require_timestamp && is_empty bundle.verification_material.rfc3161_timestamps)
            ≡ false)
  unfolding validate_common
  validate_common_ok bundle options e = ground arith

  wanted :
      (asked present : Bool) → not (asked && not present) ≡ true → asked ≡ true → present ≡ true
  wanted true true h k = refl
  wanted true false h k = cc
  wanted false present h k = cc

  validate_version_ok :
      (v : MediaType) (bundle : Bundle) (options : ValidationOptions)
      → validate_version codec v bundle options ≡ ok tt
      → VersionShaped v bundle options
        × (validate_entries codec bundle.verification_material.tlog_entries ≡ ok tt)
        × (validate_common codec bundle options ≡ ok tt)
  unfolding validate_version validate_v0_1 validate_v0_2 validate_v0_3
      validate_inclusion_proof_structure
  validate_version_ok bundle_0_1 bundle options e =
      let (promised, e1) = ensure_then_ok (has_inclusion_promise bundle) _ _ e in
      let (_, structure, common) =
        >>=-eq-ok (validate_entries codec bundle.verification_material.tlog_entries) _ e1 in
      (promised, structure, common)
  validate_version_ok bundle_0_2 bundle options e =
      let (proved, e1) =
        ensure_then_ok (not (options.require_inclusion_proof && not (has_inclusion_proof bundle))) _
          _ e in
      let (_, structure, common) =
        >>=-eq-ok (validate_entries codec bundle.verification_material.tlog_entries) _ e1 in
      (wanted _ _ proved, structure, common)
  validate_version_ok bundle_0_3 bundle options e =
      let (single, e1) =
        ensure_then_ok (not (is_chain bundle.verification_material.content)) _ _ e in
      let (proved, e2) =
        ensure_then_ok (not (options.require_inclusion_proof && not (has_inclusion_proof bundle))) _
          _ e1 in
      let (_, structure, common) =
        >>=-eq-ok (validate_entries codec bundle.verification_material.tlog_entries) _ e2 in
      ((not-true _ single, wanted _ _ proved), structure, common)

  -- A bundle that passes has a known media type and the materials that its version asks for, at least an
  -- entry or a timestamp, a timestamp if the options require one, and entries whose inclusion proofs are
  -- well-formed: the checkpoint parses and has the proof's root hash, and the index is below the size.
  pub validate_bundle_with_options_shaped :
      (bundle : Bundle) (options : ValidationOptions)
      → validate_bundle_with_options codec bundle options ≡ ok tt
      → ((v : MediaType) × (version bundle ≡ ok v) × VersionShaped v bundle options)
        × All EntryShaped bundle.verification_material.tlog_entries
        × ((is_empty bundle.verification_material.tlog_entries
              && is_empty bundle.verification_material.rfc3161_timestamps)
            ≡ false)
        × ((options.require_timestamp && is_empty bundle.verification_material.rfc3161_timestamps)
            ≡ false)
  unfolding validate_bundle_with_options
  validate_bundle_with_options_shaped bundle options e =
      let (v, known, e1) = >>=-eq-ok (or_validation (version bundle)) _ e in
      let (shaped, structure, common) = validate_version_ok v bundle options e1 in
      let (some_material, stamped) = validate_common_ok bundle options common in
      (
        (v, or_validation-eq-ok _ known, shaped),
        validate_entries-Shaped _ structure,
        some_material,
        stamped,
      )
