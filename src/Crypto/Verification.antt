-- ===== src/Crypto/Verification.antt =====
-- crates/sigstore-crypto/src/verification.rs.
use sigstore_rust.Common.{Bool, Bytes, Option, none, some}
use sigstore_rust.Common.Fallible.{ok, ◌>>=◌, ◌>>◌, ensure, ok_or}
use sigstore_rust.Types.Artifact.{HashAlgorithm, sha2_256, sha2_384, sha2_512}
use sigstore_rust.Crypto.Error.{Result, invalid_key, verification, unsupported_algorithm}
use sigstore_rust.Tuf.Key.{
  Crypto, VerificationKey, SigningScheme, ecdsa_p256_sha256, ecdsa_p256_sha384, ecdsa_p384_sha256,
  ecdsa_p384_sha384, ed25519, rsa_pss_sha256, rsa_pss_sha384, rsa_pss_sha512, rsa_pkcs1_sha256,
  rsa_pkcs1_sha384, rsa_pkcs1_sha512,
}

-- What aws-lc-rs does with a digest.
pub record Prehashed : Type 0 where
  -- `Digest::import_less_safe(..).is_ok()`
  pub import_digest : HashAlgorithm → Bytes → Bool
  -- `verify_digest(..).is_ok()`: scheme, key, digest, signature
  pub verify_digest : SigningScheme → Bytes → Bytes → Bytes → Bool

-- The hash whose digest a scheme signs.
unfoldable pub scheme_hash : SigningScheme → Option HashAlgorithm
scheme_hash ecdsa_p256_sha256 = some sha2_256
scheme_hash ecdsa_p256_sha384 = some sha2_384
scheme_hash ecdsa_p384_sha256 = some sha2_256
scheme_hash ecdsa_p384_sha384 = some sha2_384
scheme_hash ed25519 = none
scheme_hash rsa_pss_sha256 = some sha2_256
scheme_hash rsa_pss_sha384 = some sha2_384
scheme_hash rsa_pss_sha512 = some sha2_512
scheme_hash rsa_pkcs1_sha256 = some sha2_256
scheme_hash rsa_pkcs1_sha384 = some sha2_384
scheme_hash rsa_pkcs1_sha512 = some sha2_512

module _ (c : Crypto) where
  unfoldable pub from_spki : Bytes → SigningScheme → Result VerificationKey
  from_spki key scheme = do
    raw_bytes ← ok_or (c.subject_public_key key) invalid_key
    ok (record { bytes = raw_bytes; scheme = scheme })

  -- `VerificationKey::verify`
  unfoldable pub verify : VerificationKey → Bytes → Bytes → Result (Unit {0})
  verify key data_ signature = ensure (c.verify key.scheme key.bytes data_ signature) verification

  unfoldable pub verify_signature : Bytes → Bytes → Bytes → SigningScheme → Result (Unit {0})
  unfolding from_spki verify
  verify_signature public_key data_ signature scheme = do
    key ← from_spki public_key scheme
    verify key data_ signature

  module _ (pre : Prehashed) where
    unfoldable pub verify_prehashed : VerificationKey → Bytes → Bytes → Result (Unit {0})
    unfolding scheme_hash
    verify_prehashed key digest signature = do
      algorithm ← ok_or (scheme_hash key.scheme) unsupported_algorithm
      ensure (pre.import_digest algorithm digest) verification
      ensure (pre.verify_digest key.scheme key.bytes digest signature) verification

    unfoldable pub verify_signature_prehashed :
        Bytes → Bytes → Bytes → SigningScheme → Result (Unit {0})
    unfolding from_spki verify_prehashed
    verify_signature_prehashed public_key digest signature scheme = do
      key ← from_spki public_key scheme
      verify_prehashed key digest signature
