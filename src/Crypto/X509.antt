-- ===== src/Crypto/X509.antt =====
-- crates/sigstore-crypto/src/x509.rs: what Sigstore reads from a certificate.
use sigstore_rust.Common.{
  ℕ, List, [], ◌∷◌, Bytes, Str, str, Option, none, some, true, false, if◌then◌else◌, bytes_eq,
}
use sigstore_rust.Common.Fallible.{ok, err, ◌>>=◌, ok_or}
use sigstore_rust.Common.Int.{ℤ, as_i64}
use sigstore_rust.Crypto.Error.{Result, invalid_certificate}
use sigstore_rust.Crypto.Signing.{KeyAlgorithm, ecdsa_p256, ecdsa_p384, ed25519, rsa}

-- `GeneralName` of the x509-cert crate: the names that are used, and the others.
pub data GeneralName : Type 0 where
  rfc822_name : (email : Str) → GeneralName
  uniform_resource_identifier : (uri : Str) → GeneralName
  other_name : GeneralName

-- What is used of the `Certificate` of the x509-cert crate, object identifiers in dots.
pub record Certificate : Type 0 where
  pub subject : Bytes
  pub issuer : Bytes
  -- seconds since 1970, which that crate's times are never before
  pub not_before : ℕ
  pub not_after : ℕ
  -- the SubjectPublicKeyInfo's `to_der`, algorithm and `from_bytes` of its parameters, if it has any
  pub spki_der : Option Bytes
  pub spki_oid : Str
  pub spki_curve : Option (Option Str)
  -- `get::<SubjectAltName>()`: none is an error
  pub san : Option (Option (List GeneralName))
  pub extensions : Option (List (Str × Bytes))

pub record CertificateInfo : Type 0 where
  pub identity : Option Str
  pub issuer : Option Str
  pub not_before : ℤ
  pub not_after : ℤ
  pub public_key : Bytes
  pub key_algorithm : KeyAlgorithm

abbrev curve_algorithm : Option (Option Str) → Result KeyAlgorithm
curve_algorithm none = err invalid_certificate
curve_algorithm (some none) = err invalid_certificate
curve_algorithm (some (some curve)) =
    if bytes_eq curve (str "1.2.840.10045.3.1.7")
    then ok ecdsa_p256
    else if bytes_eq curve (str "1.3.132.0.34")
    then ok ecdsa_p384
    else err invalid_certificate

unfoldable pub determine_key_algorithm : Certificate → Result KeyAlgorithm
determine_key_algorithm cert =
    if bytes_eq cert.spki_oid (str "1.2.840.10045.2.1")
    then curve_algorithm cert.spki_curve
    else if bytes_eq cert.spki_oid (str "1.2.840.113549.1.1.1")
    then ok rsa
    else if bytes_eq cert.spki_oid (str "1.3.101.112")
    then ok ed25519
    else err invalid_certificate

unfoldable pub first_identity : List GeneralName → Option Str
first_identity [] = none
first_identity (rfc822_name email ∷ names) = some email
first_identity (uniform_resource_identifier uri ∷ names) = some uri
first_identity (other_name ∷ names) = first_identity names

unfoldable pub extract_san_identity : Certificate → Result (Option Str)
unfolding first_identity
extract_san_identity cert = elim cert.san [
  | none ↦ err invalid_certificate
  | some none ↦ ok none
  | some (some names) ↦ ok (first_identity names)
]

-- `utf8_string` is `Utf8StringRef::from_der`, `from_utf8` is `std::str::from_utf8`.
module _ (utf8_string from_utf8 : Bytes → Option Str) where
  unfoldable pub issuer_value : Bytes → Result (Option Str)
  issuer_value value_bytes = elim (utf8_string value_bytes) [
    | some s ↦ ok (some s)
    | none ↦ elim (from_utf8 value_bytes) [ some s ↦ ok (some s) | none ↦ err invalid_certificate ]
  ]

  unfoldable pub find_issuer : List (Str × Bytes) → Result (Option Str)
  unfolding issuer_value
  find_issuer [] = ok none
  find_issuer (ext ∷ exts) = elim (bytes_eq ext.0 (str "1.3.6.1.4.1.57264.1.1")) [
    | true ↦ issuer_value ext.1
    | false ↦ find_issuer exts
  ]

  unfoldable pub extract_fulcio_issuer : Certificate → Result (Option Str)
  unfolding find_issuer
  extract_fulcio_issuer cert = elim cert.extensions [
    | none ↦ ok none
    | some exts ↦ find_issuer exts
  ]

  -- `from_der` is `Certificate::from_der`.
  unfoldable pub parse_certificate_info :
      (from_der : Bytes → Option Certificate) → Bytes → Result CertificateInfo
  unfolding determine_key_algorithm extract_san_identity extract_fulcio_issuer
  parse_certificate_info from_der cert_der = do
    cert ← ok_or (from_der cert_der) invalid_certificate
    public_key_der ← ok_or cert.spki_der invalid_certificate
    key_algorithm ← determine_key_algorithm cert
    identity ← extract_san_identity cert
    issuer ← extract_fulcio_issuer cert
    ok (record {
      identity = identity;
      issuer = issuer;
      not_before = as_i64 cert.not_before;
      not_after = as_i64 cert.not_after;
      public_key = public_key_der;
      key_algorithm = key_algorithm;
    })
