-- ===== src/Crypto/Signing.antt =====
-- crates/sigstore-crypto/src/signing.rs: the schemes of a key. Signing itself is left out.
use sigstore_rust.Common.{Bool, true, false}
use sigstore_rust.Common.Fallible.{ok, err}
use sigstore_rust.Types.Artifact.{HashAlgorithm, sha2_256, sha2_384, sha2_512}
use sigstore_rust.Crypto.Error.{Result, unsupported_algorithm}
use sigstore_rust.Tuf.Key.{
  SigningScheme, ecdsa_p256_sha256, ecdsa_p256_sha384, ecdsa_p384_sha256, ecdsa_p384_sha384,
  rsa_pkcs1_sha256, rsa_pkcs1_sha384, rsa_pkcs1_sha512,
}
use sigstore_rust.Tuf.Key

unfoldable pub supports_prehashed : SigningScheme → Bool
supports_prehashed Key.ed25519 = false
supports_prehashed _ = true

pub data KeyAlgorithm : Type 0 where
  ecdsa_p256 ecdsa_p384 ed25519 rsa : KeyAlgorithm

unfoldable pub default_signing_scheme : KeyAlgorithm → SigningScheme
default_signing_scheme ecdsa_p256 = ecdsa_p256_sha256
default_signing_scheme ecdsa_p384 = ecdsa_p384_sha384
default_signing_scheme ed25519 = Key.ed25519
default_signing_scheme rsa = rsa_pkcs1_sha256

unfoldable pub resolve_signing_scheme : KeyAlgorithm → HashAlgorithm → Result SigningScheme
resolve_signing_scheme ecdsa_p256 sha2_256 = ok ecdsa_p256_sha256
resolve_signing_scheme ecdsa_p256 sha2_384 = ok ecdsa_p256_sha384
resolve_signing_scheme ecdsa_p256 sha2_512 = err unsupported_algorithm
resolve_signing_scheme ecdsa_p384 sha2_256 = ok ecdsa_p384_sha256
resolve_signing_scheme ecdsa_p384 sha2_384 = ok ecdsa_p384_sha384
resolve_signing_scheme ecdsa_p384 sha2_512 = err unsupported_algorithm
resolve_signing_scheme ed25519 hash_algo = ok Key.ed25519
resolve_signing_scheme rsa sha2_256 = ok rsa_pkcs1_sha256
resolve_signing_scheme rsa sha2_384 = ok rsa_pkcs1_sha384
resolve_signing_scheme rsa sha2_512 = ok rsa_pkcs1_sha512
