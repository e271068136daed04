-- ===== src/TrustRoot/SigningConfig.antt =====
-- crates/sigstore-trust-root/src/signing_config.rs: the services that a client signs with. `now` is what
-- `Timestamp::now` gives, and stays the same while a list is filtered.
pub mod Best
use sigstore_rust.Common.{
  ℕ, ◌+◌, List, [], ◌∷◌, Bool, true, false, ◌&&◌, ◌||◌, not, Option, none, some, Str, str, bytes_eq,
  ltb, leb, ◌==◌, if◌then◌else◌,
}
use sigstore_rust.Common.Int.{ltb_ℤ}
use sigstore_rust.Common.Fallible.{ok, ◌>>=◌, ◌>>◌, ensure, ok_or}
use sigstore_rust.Types.Bundle.{first}
use sigstore_rust.TrustRoot.{Timestamp, Error, Result, json, unsupported_media_type, missing_field}

pub record ServiceValidityPeriod : Type 0 where
  pub start : Timestamp
  pub end : Option Timestamp

pub record ServiceEndpoint : Type 0 where
  pub url : Str
  pub major_api_version : ℕ
  pub valid_for : ServiceValidityPeriod
  pub operator : Option Str

pub data ServiceSelector : Type 0 where
  any exact : ServiceSelector

pub record ServiceConfiguration : Type 0 where
  pub selector : ServiceSelector
  pub count : Option ℕ

pub record SigningConfig : Type 0 where
  pub media_type : Str
  pub ca_urls : List ServiceEndpoint
  pub oidc_urls : List ServiceEndpoint
  pub rekor_tlog_urls : List ServiceEndpoint
  pub tsa_urls : List ServiceEndpoint
  pub rekor_tlog_config : ServiceConfiguration
  pub tsa_config : ServiceConfiguration

abbrev pub supported_rekor_versions : List ℕ
supported_rekor_versions = 1 ∷ 2 ∷ []

abbrev pub supported_tsa_versions : List ℕ
supported_tsa_versions = 1 ∷ []

abbrev pub supported_fulcio_versions : List ℕ
supported_fulcio_versions = 1 ∷ []

abbrev pub signing_config_media_type : Str
signing_config_media_type = str "application/vnd.dev.sigstore.signingconfig.v0.2+json"

abbrev pub has_version : List ℕ → ℕ → Bool
has_version [] v = false
has_version (w ∷ ws) v = (w == v) || has_version ws v

-- `ServiceValidityPeriod::is_valid`
unfoldable pub period_is_valid : ServiceValidityPeriod → (now : Timestamp) → Bool
period_is_valid period now =
    if ltb_ℤ now period.start
    then false
    else elim period.end [ none ↦ true | some end ↦ not (not (ltb_ℤ now end)) ]

unfoldable pub endpoint_is_valid : ServiceEndpoint → (now : Timestamp) → Bool
unfolding period_is_valid
endpoint_is_valid e now = period_is_valid e.valid_for now

-- `parse` is `serde_json::from_str`.
unfoldable pub from_json : (parse : Str → Option SigningConfig) → Str → Result SigningConfig
from_json parse text = do
  config ← ok_or (parse text) json
  ensure (bytes_eq config.media_type signing_config_media_type) unsupported_media_type
  ok config

-- `read_to_string` is `std::fs::read_to_string`.
unfoldable pub from_file :
    (parse : Str → Option SigningConfig)
    → (read_to_string : Str → Option Str) → Str
    → Result SigningConfig
unfolding from_json
from_file parse read_to_string path = do
  text ← ok_or (read_to_string path) missing_field
  from_json parse text

-- `iter().filter(test).collect()`
abbrev pub filter {ℓ} : {A : Type ℓ} → (A → Bool) → List A → List A
filter test [] = []
filter test (x ∷ xs) = let rest = filter test xs in if test x then x ∷ rest else rest

abbrev forced : Option ℕ → ℕ → Bool
forced none version = true
forced (some v) version = version == v

-- The test of `get_rekor_urls`.
unfoldable pub rekor_usable : Option ℕ → (now : Timestamp) → ServiceEndpoint → Bool
unfolding endpoint_is_valid
rekor_usable force_version now e =
    if not (endpoint_is_valid e now)
    then false
    else if not (has_version supported_rekor_versions e.major_api_version)
    then false
    else forced force_version e.major_api_version

-- `sort_by(|a, b| b.major_api_version.cmp(&a.major_api_version))`, which is stable.
abbrev pub place : ServiceEndpoint → List ServiceEndpoint → List ServiceEndpoint
place e [] = e ∷ []
place e (f ∷ fs) =
    if leb f.major_api_version e.major_api_version then e ∷ f ∷ fs else f ∷ place e fs

unfoldable pub sort_by_version : List ServiceEndpoint → List ServiceEndpoint
sort_by_version [] = []
sort_by_version (e ∷ es) = place e (sort_by_version es)

module _ (config : SigningConfig) (now : Timestamp) where
  unfoldable pub get_rekor_urls : Option ℕ → List ServiceEndpoint
  unfolding rekor_usable sort_by_version
  get_rekor_urls force_version =
      sort_by_version (filter (rekor_usable force_version now) config.rekor_tlog_urls)

  unfoldable pub get_rekor_url : Option ℕ → Option ServiceEndpoint
  unfolding get_rekor_urls
  get_rekor_url force_version = first (get_rekor_urls force_version)

  unfoldable pub get_fulcio_urls : List ServiceEndpoint
  unfolding endpoint_is_valid
  get_fulcio_urls =
      filter
        (λ e. endpoint_is_valid e now && has_version supported_fulcio_versions e.major_api_version)
        config.ca_urls

  unfoldable pub get_fulcio_url : Option ServiceEndpoint
  unfolding get_fulcio_urls
  get_fulcio_url = first get_fulcio_urls

  unfoldable pub get_tsa_urls : List ServiceEndpoint
  unfolding endpoint_is_valid
  get_tsa_urls =
      filter
        (λ e. endpoint_is_valid e now && has_version supported_tsa_versions e.major_api_version)
        config.tsa_urls

  unfoldable pub get_tsa_url : Option ServiceEndpoint
  unfolding get_tsa_urls
  get_tsa_url = first get_tsa_urls

  unfoldable pub get_oidc_urls : List ServiceEndpoint
  unfolding endpoint_is_valid
  get_oidc_urls = filter (λ e. endpoint_is_valid e now) config.oidc_urls

  unfoldable pub get_oidc_url : Option ServiceEndpoint
  unfolding get_oidc_urls
  get_oidc_url = first get_oidc_urls
