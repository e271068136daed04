-- ===== src/Crypto/Checkpoint.antt =====
-- crates/sigstore-crypto/src/checkpoint.rs: signatures whose scheme the key decides.
pub mod Signed
use sigstore_rust.Common.{
  Bytes, Str, str, Option, none, some, ◌==◌, if◌then◌else◌, bytes_eq, length, take,
}
use sigstore_rust.Common.Fallible.{ok, err, ◌>>=◌, ensure, ok_or}
use sigstore_rust.Crypto.Error.{Result, verification}
use sigstore_rust.Crypto.Error
use sigstore_rust.Types.Encoding.{KeyHint}
use sigstore_rust.Types.Checkpoint.{Checkpoint, find_signature_by_key_hint, signed_data}
use sigstore_rust.Tuf.Key.{Crypto, SigningScheme, ecdsa_p256_sha256}
use sigstore_rust.Tuf.Key

pub data KeyType : Type 0 where
  ed25519 ecdsa_p256 unknown : KeyType

-- `spki_oid` is the algorithm of a `SubjectPublicKeyInfoRef`, in dots; none for other bytes.
module _ (c : Crypto) (spki_oid : Bytes → Option Str) where
  unfoldable pub compute_key_hint : Bytes → KeyHint
  compute_key_hint public_key = take 4 (c.sha256 public_key)

  unfoldable pub detect_key_type : Bytes → KeyType
  detect_key_type public_key = elim (spki_oid public_key) [
    | some oid ↦
        if bytes_eq oid (str "1.3.101.112")
        then ed25519
        else if bytes_eq oid (str "1.2.840.10045.2.1")
        then ecdsa_p256
        else unknown
    | none ↦ if length public_key == 32 then ed25519 else unknown
  ]

  unfoldable pub extract_raw_key : Bytes → Bytes
  extract_raw_key public_key = elim (c.subject_public_key public_key) [
    | some raw_bytes ↦ raw_bytes
    | none ↦ public_key
  ]

  unfoldable pub verify_ed25519 : Bytes → Bytes → Bytes → Result (Unit {0})
  unfolding extract_raw_key
  verify_ed25519 public_key signature message =
      ensure (c.verify Key.ed25519 (extract_raw_key public_key) message signature) verification

  unfoldable pub verify_ecdsa_p256 : Bytes → Bytes → Bytes → Result (Unit {0})
  verify_ecdsa_p256 public_key signature message =
      ensure (c.verify ecdsa_p256_sha256 public_key message signature) verification

  unfoldable pub verify_signature_auto : Bytes → Bytes → Bytes → Result (Unit {0})
  unfolding detect_key_type verify_ed25519 verify_ecdsa_p256
  verify_signature_auto public_key signature message = elim (detect_key_type public_key) [
    | ed25519 ↦ verify_ed25519 public_key signature message
    | ecdsa_p256 ↦ verify_ecdsa_p256 public_key signature message
    | unknown ↦ err verification
  ]

  abbrev or_checkpoint : Result (Unit {0}) → Result (Unit {0})
  or_checkpoint (ok done) = ok done
  or_checkpoint (err e) = err Error.checkpoint

  -- `CheckpointVerifyExt::verify_signature`
  unfoldable pub verify_checkpoint_signature : Checkpoint → Bytes → Result (Unit {0})
  unfolding compute_key_hint verify_signature_auto find_signature_by_key_hint signed_data
  verify_checkpoint_signature checkpoint public_key = do
    found ←
        ok_or (find_signature_by_key_hint checkpoint (compute_key_hint public_key)) Error.checkpoint
    or_checkpoint (verify_signature_auto public_key found.signature (signed_data checkpoint))
