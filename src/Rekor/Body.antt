-- ===== src/Rekor/Body.antt =====
-- crates/sigstore-rekor/src/body.rs: the bodies of the log's entries. A body is the fields that its
-- nested records end in.
use sigstore_rust.Common.{
  List, Bool, ◌&&◌, Bytes, Str, str, Option, none, some, if◌then◌else◌, bytes_eq,
}
use sigstore_rust.Common.Fallible
use sigstore_rust.Common.Fallible.{ok, err, ◌>>=◌, ◌>>◌, ensure, ok_or}
use sigstore_rust.Types.Encoding.{Codec}

-- The error of crates/sigstore-rekor/src/error.rs that this file gives.
pub data Error : Type 0 where
  invalid_response : Error

abbrev pub Result {ℓ} : Type ℓ → Type ℓ
Result A = Fallible.Result Error A

-- A block of the `pem` crate.
pub record Pem : Type 0 where
  pub tag : Str
  pub contents : Bytes

-- `spec.data.hash.value`, `spec.signature.content` and `spec.signature.public_key.content`
pub record HashedRekordV001Body : Type 0 where
  pub hash_value : Str
  pub signature_content : Bytes
  pub public_key_content : Bytes

-- below `spec.hashed_rekord_v002`: `data.digest`, `signature.content` and, in `signature.verifier`,
-- `x509_certificate` and `public_key`
pub record HashedRekordV002Body : Type 0 where
  pub data_digest : Bytes
  pub signature_content : Bytes
  pub x509_certificate : Option Bytes
  pub public_key : Option Bytes

pub record DsseV001Signature : Type 0 where
  pub signature : Bytes
  pub verifier : Bytes

pub record DsseV001Body : Type 0 where
  pub envelope_hash_value : Str
  pub payload_hash_value : Str
  pub signatures : List DsseV001Signature

pub record DsseV002Signature : Type 0 where
  pub content : Bytes
  pub key_details : Str
  pub x509_certificate : Bytes

pub record DsseV002Body : Type 0 where
  pub payload_hash_digest : Bytes
  pub signatures : List DsseV002Signature

-- `spec.content.envelope`, whose signatures are their bytes.
pub record IntotoV002Body : Type 0 where
  pub payload : Bytes
  pub signatures : List Bytes

pub data RekorEntryBody : Type 0 where
  hashed_rekord_v001 : HashedRekordV001Body → RekorEntryBody
  hashed_rekord_v002 : HashedRekordV002Body → RekorEntryBody
  dsse_v001 : DsseV001Body → RekorEntryBody
  dsse_v002 : DsseV002Body → RekorEntryBody
  intoto_v002 : IntotoV002Body → RekorEntryBody

-- What the `serde_json` and `pem` crates and `String::from_utf8` do.
pub record BodyParsers : Type 0 where
  pub from_utf8 : Bytes → Option Str
  pub pem_parse : Str → Option Pem
  pub parse_hashed_rekord_v001 : Str → Option HashedRekordV001Body
  pub parse_hashed_rekord_v002 : Str → Option HashedRekordV002Body
  pub parse_dsse_v001 : Str → Option DsseV001Body
  pub parse_dsse_v002 : Str → Option DsseV002Body
  pub parse_intoto_v002 : Str → Option IntotoV002Body

module _ (p : BodyParsers) where
  -- `DerCertificate::from_pem` of crates/sigstore-types/src/encoding.rs
  unfoldable pub certificate_from_pem : Str → Result Bytes
  certificate_from_pem pem_str = do
    parsed ← ok_or (p.pem_parse pem_str) invalid_response
    ensure (bytes_eq parsed.tag (str "CERTIFICATE")) invalid_response
    ok parsed.contents

  -- `to_certificate`
  unfoldable pub to_certificate : Bytes → Result Bytes
  unfolding certificate_from_pem
  to_certificate pem_bytes = do
    pem_str ← ok_or (p.from_utf8 pem_bytes) invalid_response
    certificate_from_pem pem_str

  abbrev is_kind : Str → Str → Str → Str → Bool
  is_kind kind version k v = bytes_eq kind k && bytes_eq version v

  abbrev as_body : {B : Type 0} → (B → RekorEntryBody) → Option B → Result RekorEntryBody
  as_body constructor none = err invalid_response
  as_body constructor (some body) = ok (constructor body)

  unfoldable pub parse_body : Str → Str → Str → Result RekorEntryBody
  parse_body body_str kind version =
      if is_kind kind version (str "hashedrekord") (str "0.0.1")
      then as_body hashed_rekord_v001 (p.parse_hashed_rekord_v001 body_str)
      else if is_kind kind version (str "hashedrekord") (str "0.0.2")
      then as_body hashed_rekord_v002 (p.parse_hashed_rekord_v002 body_str)
      else if is_kind kind version (str "dsse") (str "0.0.1")
      then as_body dsse_v001 (p.parse_dsse_v001 body_str)
      else if is_kind kind version (str "dsse") (str "0.0.2")
      then as_body dsse_v002 (p.parse_dsse_v002 body_str)
      else if is_kind kind version (str "intoto") (str "0.0.2")
      then as_body intoto_v002 (p.parse_intoto_v002 body_str)
      else err invalid_response

  unfoldable pub from_base64_json : Codec → Str → Str → Str → Result RekorEntryBody
  unfolding parse_body
  from_base64_json codec base64_body kind version = do
    body_bytes ← ok_or (codec.base64_decode base64_body) invalid_response
    body_str ← ok_or (p.from_utf8 body_bytes) invalid_response
    parse_body body_str kind version
