-- ===== src/TrustRoot.antt =====
-- crates/sigstore-trust-root/src/trusted_root.rs: the trust anchors and when each may be used. A time
-- is a number of nanoseconds since 1970; `now` is what `Timestamp::now` gives.
pub mod Keys
pub mod Tsa
pub mod Windows
pub mod Lookup
pub mod SigningConfig
use sigstore_rust.Common.{
  if◌then◌else◌, ℕ, ◌-◌, List, [], ◌∷◌, ◌++◌, map, Bool, true, false, ◌&&◌, ◌||◌, Option, none,
  some, Bytes, Str, Map, bytes_eq, if◌then◌else◌, insert, length, take, drop, ltb, not, is_empty,
}
use sigstore_rust.Common.Int.{ℤ, leb_ℤ}
use sigstore_rust.Common.Fallible
use sigstore_rust.Common.Fallible.{ok, err, ◌>>=◌}
use sigstore_rust.Types
use sigstore_rust.Types.Artifact.{HashAlgorithm}
use sigstore_rust.Types.Bundle.{first}
use sigstore_rust.Types.Encoding.{Codec, KeyHint, LogKeyId, log_key_id_decode}

-- crates/sigstore-trust-root/src/error.rs, without the texts.
pub data Error : Type 0 where
  json base64 certificate invalid_key missing_field unsupported_media_type : Error
  key_not_found : (id : Str) → Error
  certificate_not_found time_parse tuf : Error

abbrev pub Result {ℓ} : Type ℓ → Type ℓ
Result A = Fallible.Result Error A

unfoldable pub from_types_error : Types.Error.Error → Error
from_types_error Types.Error.base64 = base64
from_types_error Types.Error.json = json
from_types_error Types.Error.invalid_encoding = invalid_key
from_types_error Types.Error.invalid_certificate = certificate
from_types_error Types.Error.missing_field = missing_field
from_types_error _ = invalid_key

abbrev pub Timestamp : Type 0
Timestamp = ℤ

pub record ValidityPeriod : Type 0 where
  pub start : Option Str
  pub end : Option Str

pub record PublicKey : Type 0 where
  pub raw_bytes : Bytes
  pub key_details : Str
  pub valid_for : Option ValidityPeriod

-- Also a `CertificateTransparencyLog`, which has the same fields; `log_id` is the key identifier.
pub record TransparencyLog : Type 0 where
  pub base_url : Str
  pub hash_algorithm : HashAlgorithm
  pub public_key : PublicKey
  pub log_id : LogKeyId

pub record CertificateSubject : Type 0 where
  pub organization : Option Str
  pub common_name : Option Str

-- `cert_chain` is the list of the chain's DER documents.
pub record CertificateAuthority : Type 0 where
  pub subject : CertificateSubject
  pub uri : Str
  pub cert_chain : List Bytes
  pub valid_for : Option ValidityPeriod

pub record TimestampAuthority : Type 0 where
  pub subject : CertificateSubject
  pub uri : Option Str
  pub cert_chain : List Bytes
  pub valid_for : Option ValidityPeriod

pub record TrustedRoot : Type 0 where
  pub media_type : Str
  pub tlogs : List TransparencyLog
  pub certificate_authorities : List CertificateAuthority
  pub ctlogs : List TransparencyLog
  pub timestamp_authorities : List TimestampAuthority

-- `map_or(true, |bound| ..)`
abbrev pub unless : {A : Type 0} → Option A → (A → Bool) → Bool
unless none test = true
unless (some a) test = test a

-- `parse_timestamp` is `str::parse::<Timestamp>`.
module _ (parse_timestamp : Str → Option Timestamp) where
  unfoldable pub parse_validity_timestamp : Option Str → Result (Option Timestamp)
  parse_validity_timestamp none = ok none
  parse_validity_timestamp (some s) = elim (parse_timestamp s) [
    | none ↦ err time_parse
    | some t ↦ ok (some t)
  ]

  unfoldable pub contains : ValidityPeriod → Timestamp → Result Bool
  unfolding parse_validity_timestamp
  contains period time = do
    start ← parse_validity_timestamp period.start
    end ← parse_validity_timestamp period.end
    ok (unless start (λ s. leb_ℤ s time) && unless end (λ e. leb_ℤ time e))

  unfoldable pub has_started_by : ValidityPeriod → Timestamp → Result Bool
  unfolding parse_validity_timestamp
  has_started_by period time = do
    start ← parse_validity_timestamp period.start
    ok (unless start (λ s. leb_ℤ s time))

  unfoldable pub usable_for_verification : Option ValidityPeriod → Timestamp → Result Bool
  unfolding has_started_by
  usable_for_verification none now = ok true
  usable_for_verification (some period) now = has_started_by period now

  -- `for item in items { if !usable_for_verification(..)? { continue } .. }`
  unfoldable pub collect :
      {I : Type 0} {B : Type 0}
      → (I → Option ValidityPeriod)
      → (I → Result (List B))
      → Timestamp
      → List I
      → Result (List B)
  unfolding usable_for_verification
  collect valid_for body now [] = ok []
  collect valid_for body now (item ∷ items) = do
    usable ← usable_for_verification (valid_for item) now
    pushed ← if usable then body item else ok []
    rest ← collect valid_for body now items
    ok (pushed ++ rest)
