-- ===== src/Types/Error.antt =====
-- crates/sigstore-types/src/error.rs, without the texts and the wrapped errors.
use sigstore_rust.Common.Fallible

pub data Error : Type 0 where
  json base64 invalid_bundle_version missing_field invalid_media_type : Error
  invalid_checkpoint invalid_hash_algorithm invalid_certificate validation invalid_encoding : Error

abbrev pub Result {ℓ} : Type ℓ → Type ℓ
Result A = Fallible.Result Error A
