-- ===== src/Tuf/Key.antt =====
-- crates/sigstore-tuf/src/key.rs. Fields that a producer adds (`extra`) are left out.
use sigstore_rust.Common.{
  [], ◌∷◌, ◌++◌, Bool, true, false, Option, Bytes, Str, str, ◌==◌, if◌then◌else◌, bytes_eq,
  starts_with, length, not,
}
use sigstore_rust.Common.Fallible.{ok, err, ◌>>=◌, ok_or}
use sigstore_rust.Tuf.Error.{Result, unsupported_scheme, unusable_key, crypto}

pub record Key : Type 0 where
  pub keytype : Str
  pub scheme : Str
  -- `keyval.public`
  pub public : Str

-- crates/sigstore-crypto/src/signing.rs
pub data SigningScheme : Type 0 where
  ecdsa_p256_sha256 ecdsa_p256_sha384 ecdsa_p384_sha256 ecdsa_p384_sha384 ed25519 : SigningScheme
  rsa_pss_sha256 rsa_pss_sha384 rsa_pss_sha512 : SigningScheme
  rsa_pkcs1_sha256 rsa_pkcs1_sha384 rsa_pkcs1_sha512 : SigningScheme

-- crates/sigstore-crypto/src/verification.rs
pub record VerificationKey : Type 0 where
  pub bytes : Bytes
  pub scheme : SigningScheme

-- The crates that keys and signatures go through.
pub record Crypto : Type 0 where
  -- `str::trim`
  pub trim : Str → Str
  -- `hex::decode`
  pub hex_decode : Str → Option Bytes
  -- `hex::encode`
  pub hex_encode : Bytes → Str
  -- the DER document of a PEM text, by the `pem` crate
  pub from_pem : Str → Option Bytes
  -- the raw key bits of a DER SubjectPublicKeyInfo, by the `spki` crate
  pub subject_public_key : Bytes → Option Bytes
  -- `UnparsedPublicKey::verify` of aws-lc-rs: scheme, key, message, signature
  pub verify : SigningScheme → Bytes → Bytes → Bytes → Bool
  -- the digests of the `sha2` crate
  pub sha256 : Bytes → Bytes
  pub sha512 : Bytes → Bytes

abbrev is_ed25519 : SigningScheme → Bool
is_ed25519 ed25519 = true
is_ed25519 _ = false

unfoldable pub signing_scheme : Key → Result SigningScheme
signing_scheme key =
    if bytes_eq key.scheme (str "ecdsa-sha2-nistp256")
    then ok ecdsa_p256_sha256
    else if bytes_eq key.scheme (str "ecdsa-sha2-nistp384")
    then ok ecdsa_p384_sha384
    else if bytes_eq key.scheme (str "ed25519")
    then ok ed25519
    else if bytes_eq key.scheme (str "rsassa-pss-sha256")
    then ok rsa_pss_sha256
    else if bytes_eq key.scheme (str "rsassa-pss-sha384")
    then ok rsa_pss_sha384
    else if bytes_eq key.scheme (str "rsassa-pss-sha512")
    then ok rsa_pss_sha512
    else err (unsupported_scheme key.keytype key.scheme)

-- The `id-Ed25519` header of a DER SubjectPublicKeyInfo.
abbrev ed25519_prefix : Bytes
ed25519_prefix =
    0x30 ∷ 0x2a ∷ 0x30 ∷ 0x05 ∷ 0x06 ∷ 0x03 ∷ 0x2b ∷ 0x65 ∷ 0x70 ∷ 0x03 ∷ 0x21 ∷ 0x00 ∷ []

unfoldable pub ed25519_spki : Bytes → Result Bytes
ed25519_spki raw = if not (length raw == 32) then err unusable_key else ok (ed25519_prefix ++ raw)

module _ (c : Crypto) where
  unfoldable pub from_spki : Bytes → SigningScheme → Result VerificationKey
  from_spki der scheme = do
    raw ← ok_or (c.subject_public_key der) crypto
    ok (record { bytes = raw; scheme = scheme })

  -- A PEM document, or the hex of a raw ed25519 key.
  unfoldable pub public_key_der : Str → SigningScheme → Result Bytes
  unfolding ed25519_spki
  public_key_der public scheme =
      if starts_with public (str "-----BEGIN")
      then ok_or (c.from_pem public) unusable_key
      else if is_ed25519 scheme
      then (ok_or (c.hex_decode public) unusable_key >>= λ raw. ed25519_spki raw)
      else err unusable_key

  unfoldable pub verification_key : Key → Result VerificationKey
  unfolding signing_scheme public_key_der from_spki
  verification_key key = do
    scheme ← signing_scheme key
    der ← public_key_der (c.trim key.public) scheme
    from_spki der scheme

  -- `VerificationKey::verify(..).is_ok()`
  unfoldable pub verify_is_ok : VerificationKey → Bytes → Bytes → Bool
  verify_is_ok key message signature = c.verify key.scheme key.bytes message signature
