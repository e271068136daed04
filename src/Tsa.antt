-- ===== src/Tsa.antt =====
-- crates/sigstore-tsa/src/asn1.rs and error.rs: the messages of RFC 3161, and what of the CMS and X.509
-- crates is used. An object identifier is its text in dots.
pub mod Verify
pub mod Sound
pub mod Client
use sigstore_rust.Common.{
  ℕ, List, [], ◌∷◌, Bool, true, false, Option, none, some, Bytes, Str, str, bytes_eq, if◌then◌else◌,
}
use sigstore_rust.Common.Fallible
use sigstore_rust.Types.Artifact.{HashAlgorithm, sha2_256, sha2_384, sha2_512}
use sigstore_rust.TrustRoot.{Timestamp}
use sigstore_rust.Common.Int.{ℤ}

-- Only the errors that are given in what is modelled, without the texts.
pub data Error : Type 0 where
  http asn1 invalid_response parse_error signature_verification_error hash_mismatch no_tst_info :
      Error
  certificate_validation_error : Error

abbrev pub Result {ℓ} : Type ℓ → Type ℓ
Result A = Fallible.Result Error A

abbrev pub oid_sha256 : Str
oid_sha256 = str "2.16.840.1.101.3.4.2.1"

abbrev pub oid_sha384 : Str
oid_sha384 = str "2.16.840.1.101.3.4.2.2"

abbrev pub oid_sha512 : Str
oid_sha512 = str "2.16.840.1.101.3.4.2.3"

abbrev pub oid_tst_info : Str
oid_tst_info = str "1.2.840.113549.1.9.16.1.4"

abbrev pub oid_signed_data : Str
oid_signed_data = str "1.2.840.113549.1.7.2"

abbrev pub oid_message_digest : Str
oid_message_digest = str "1.2.840.113549.1.9.4"

abbrev pub oid_ec_public_key : Str
oid_ec_public_key = str "1.2.840.10045.2.1"

abbrev pub oid_secp256r1 : Str
oid_secp256r1 = str "1.2.840.10045.3.1.7"

abbrev pub oid_secp384r1 : Str
oid_secp384r1 = str "1.3.132.0.34"

abbrev pub oid_subject_key_identifier : Str
oid_subject_key_identifier = str "2.5.29.14"

-- `AlgorithmIdentifier`, of which the parameters are not read.
unfoldable pub to_hash_algorithm : (algorithm : Str) → Option HashAlgorithm
to_hash_algorithm algorithm =
    if bytes_eq algorithm oid_sha256
    then some sha2_256
    else if bytes_eq algorithm oid_sha384
    then some sha2_384
    else if bytes_eq algorithm oid_sha512
    then some sha2_512
    else none

unfoldable pub from_hash_algorithm : HashAlgorithm → Str
from_hash_algorithm sha2_256 = oid_sha256
from_hash_algorithm sha2_384 = oid_sha384
from_hash_algorithm sha2_512 = oid_sha512

pub record Asn1MessageImprint : Type 0 where
  pub hash_algorithm : Str
  pub hashed_message : Bytes

-- The nonce is its DER INTEGER.
pub record TimeStampReq : Type 0 where
  pub version : ℕ
  pub message_imprint : Asn1MessageImprint
  pub req_policy : Option Str
  pub nonce : Option Bytes
  pub cert_req : Bool

unfoldable pub new_request : Asn1MessageImprint → (nonce : Bytes) → TimeStampReq
new_request message_imprint nonce = record {
  version = 1;
  message_imprint = message_imprint;
  req_policy = none;
  nonce = some nonce;
  cert_req = true;
}

unfoldable pub new_without_nonce : Asn1MessageImprint → TimeStampReq
new_without_nonce message_imprint = record {
  version = 1;
  message_imprint = message_imprint;
  req_policy = none;
  nonce = none;
  cert_req = true;
}

-- `PkiStatus::Granted` and `GrantedWithMods`
abbrev pub granted : ℕ
granted = 0

abbrev pub granted_with_mods : ℕ
granted_with_mods = 1

-- The token, if there is one, is what its `to_der` gives.
pub record TimeStampResp : Type 0 where
  pub status : ℕ
  pub time_stamp_token : Option (Option Bytes)

-- Of the fields, those that are read; `gen_time` is what converting it to a jiff timestamp gives.
pub record TstInfo : Type 0 where
  pub message_imprint : Asn1MessageImprint
  pub gen_time : Option Timestamp
  pub nonce : Option Bytes

-- `ContentInfo` of cms; `content` is what its `to_der` gives.
pub record ContentInfo : Type 0 where
  pub content_type : Str
  pub content : Option Bytes

-- `Certificate` of x509-cert: the public key's bits, algorithm and the curve that its parameters decode
-- to, if it has any, and what `to_der` of the certificate gives.
pub record Certificate : Type 0 where
  pub issuer : Bytes
  pub serial_number : Bytes
  pub extensions : Option (List (Str × Bytes))
  pub subject_public_key : Option Bytes
  pub spki_oid : Str
  pub spki_curve : Option (Option Str)
  pub der : Option Bytes

pub data CertificateChoices : Type 0 where
  certificate : Certificate → CertificateChoices
  other : CertificateChoices

pub data SignerIdentifier : Type 0 where
  issuer_and_serial_number : (issuer serial_number : Bytes) → SignerIdentifier
  subject_key_identifier : (ski : Bytes) → SignerIdentifier

-- A value is what its `to_der` gives.
pub record Attribute : Type 0 where
  pub oid : Str
  pub values : List (Option Bytes)

pub record SignerInfo : Type 0 where
  pub sid : SignerIdentifier
  pub digest_alg : Str
  pub signed_attrs : Option (List Attribute)
  pub signature : Bytes

-- `econtent` is the value of the encapsulated content.
pub record SignedData : Type 0 where
  pub econtent_type : Str
  pub econtent : Option Bytes
  pub certificates : Option (List CertificateChoices)
  pub signer_infos : List SignerInfo

-- The algorithms of aws-lc-rs that are used.
pub data EcdsaAlgorithm : Type 0 where
  ecdsa_p256_sha256_asn1 ecdsa_p384_sha256_asn1 ecdsa_p384_sha384_asn1 : EcdsaAlgorithm

-- What is used of other crates.
pub record Tsp : Type 0 where
  -- der, cms and x509-cert
  pub time_stamp_resp_from_der : Bytes → Option TimeStampResp
  pub content_info_from_der : Bytes → Option ContentInfo
  pub signed_data_from_der : Bytes → Option SignedData
  pub tst_info_from_der : Bytes → Option TstInfo
  pub certificate_from_der : Bytes → Option Certificate
  pub subject_key_identifier_from_der : Bytes → Option Bytes
  pub octet_string_from_der : Bytes → Option Bytes
  -- the attributes as a SET OF
  pub attributes_to_der : List Attribute → Option Bytes
  pub certificate_eq : Certificate → Certificate → Bool
  pub request_to_der : TimeStampReq → Option Bytes
  -- aws-lc-rs: digests, and `UnparsedPublicKey::verify(..).is_ok()`: algorithm, key, message, signature
  pub sha256 : Bytes → Bytes
  pub sha384 : Bytes → Bytes
  pub sha512 : Bytes → Bytes
  pub verify_ecdsa : EcdsaAlgorithm → Bytes → Bytes → Bytes → Bool
  -- webpki, as for the verifier, for time stamping
  pub anchor_from_trusted_cert : Bytes → Option Bytes
  pub is_end_entity : Bytes → Bool
  pub verify_for_usage : Bytes → List Bytes → List Bytes → ℕ → Bool
  -- jiff
  pub as_second : Timestamp → ℤ
