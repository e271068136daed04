-- ===== src/Verify/Platform.antt =====
-- What the verifier uses of other code, and its error, crates/sigstore-verify/src/error.rs.
use sigstore_rust.Common.{ℕ, List, Bool, Option, Bytes, Str, ◌≡◌}
use sigstore_rust.Common.Fallible
use sigstore_rust.Common.Fallible.{ok, err}
use sigstore_rust.Common.Int.{ℤ}
use sigstore_rust.Types
use sigstore_rust.Crypto
use sigstore_rust.Types.Encoding.{Codec}
use sigstore_rust.Types.Dsse.{Statement}
use sigstore_rust.Crypto.Verification.{Prehashed}
use sigstore_rust.Crypto.X509.{Certificate}
use sigstore_rust.Rekor.Body.{BodyParsers}
use sigstore_rust.TrustRoot.{TrustedRoot, Timestamp}
use sigstore_rust.Tuf.Key
use sigstore_rust.Validation

pub data Error : Type 0 where
  verification : Error
  types : Types.Error.Error → Error
  crypto : Crypto.Error.Error → Error
  bundle : Validation.Error → Error

abbrev pub Result {ℓ} : Type ℓ → Type ℓ
Result A = Fallible.Result Error A

-- `map_err(|e| Error::Verification(..))`
abbrev pub or_verification {ℓ} : {E : Type 0} {A : Type ℓ} → Fallible.Result E A → Result A
or_verification (ok a) = ok a
or_verification (err e) = err verification

-- `map_err(Error::Crypto)`, by `?`
abbrev pub or_crypto {ℓ} : {A : Type ℓ} → Crypto.Error.Result A → Result A
or_crypto (ok a) = ok a
or_crypto (err e) = err (crypto e)

-- crates/sigstore-verify/src/verify_impl/tlog.rs
pub record RekorPayload : Type 0 where
  pub body : Str
  pub integrated_time : ℤ
  pub log_index : ℤ
  pub log_id : Str

-- `VerifyOpts` of crates/sigstore-tsa/src/verify.rs
pub record TsaVerifyOpts : Type 0 where
  pub roots : List Bytes
  pub intermediates : List Bytes
  pub tsa_certificates : List Bytes

pub record Platform : Type 0 where
  -- aws-lc-rs and spki
  pub keys : Key.Crypto
  pub prehashed : Prehashed
  pub sha384 : Bytes → Bytes
  pub spki_oid : Bytes → Option Str
  -- base64 and hex
  pub codec : Codec
  -- serde_json and pem, the canonical JSON of serde_json_canonicalizer, and `str::from_utf8`
  pub bodies : BodyParsers
  pub parse_statement : Str → Option Statement
  pub canonical_json : RekorPayload → Option Bytes
  pub from_utf8 : Bytes → Option Str
  -- x509-cert, and `Utf8StringRef::from_der` of der
  pub certificate_from_der : Bytes → Option Certificate
  pub utf8_string : Bytes → Option Str
  -- webpki: a trust anchor's certificate, `EndEntityCert::try_from(..).is_ok()`, and
  -- `verify_for_usage(..).is_ok()` for code signing: end entity, anchors, intermediates, seconds
  pub anchor_from_trusted_cert : Bytes → Option Bytes
  pub is_end_entity : Bytes → Bool
  pub verify_for_usage : Bytes → List Bytes → List Bytes → ℕ → Bool
  -- jiff
  pub parse_timestamp : Str → Option Timestamp
  pub as_second : Timestamp → ℤ
  pub from_second : ℤ → Option Timestamp
  -- crates/sigstore-tsa: the time of a timestamp that it accepts: token, signature, options
  pub verify_timestamp_response : Bytes → Bytes → TsaVerifyOpts → Option Timestamp
  -- crates/sigstore-verify/src/verify_impl/sct.rs: certificate, issuer's key
  pub verify_sct : Bytes → Bytes → TrustedRoot → Result (Unit {0})

pub or_verification-eq-ok {ℓ} :
    {E : Type 0} {A : Type ℓ} (r : Fallible.Result E A) {a : A}
    → or_verification r ≡ ok a
    → r ≡ ok a
or_verification-eq-ok (ok a) h = cc
or_verification-eq-ok (err e) h = cc
