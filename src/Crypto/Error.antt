-- ===== src/Crypto/Error.antt =====
-- crates/sigstore-crypto/src/error.rs, without the texts and the wrapped errors.
use sigstore_rust.Common.Fallible

pub data Error : Type 0 where
  key_generation signing verification invalid_key_format unsupported_algorithm pem der : Error
  base64 aws_lc checkpoint invalid_certificate invalid_key : Error

abbrev pub Result {ℓ} : Type ℓ → Type ℓ
Result A = Fallible.Result Error A
