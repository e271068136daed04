-- ===== src/Sign/Config.antt =====
-- crates/sigstore-sign/src/sign.rs: the configuration of a signer.
use sigstore_rust.Common.{ℕ, Option, none, some, Str, str, ◌==◌, if◌then◌else◌}
use sigstore_rust.Common.Fallible
use sigstore_rust.Common.Fallible.{ok, err, ◌>>=◌, ◌>>◌, ensure, ok_or}
use sigstore_rust.TrustRoot.{Timestamp}
use sigstore_rust.TrustRoot.SigningConfig
use sigstore_rust.TrustRoot.SigningConfig.{
  ServiceEndpoint, get_fulcio_url, get_rekor_url, get_tsa_url, get_oidc_url,
}
use sigstore_rust.Tuf.Key.{SigningScheme, ecdsa_p256_sha256}
use sigstore_rust.Rekor.Entry.{RekorApiVersion, v1, v2, default_url}

-- crates/sigstore-sign/src/error.rs; only these are given here.
pub data Error : Type 0 where
  signing config crypto : Error

abbrev pub Result {ℓ} : Type ℓ → Type ℓ
Result A = Fallible.Result Error A

-- `map_err(|e| Error::Signing(..))?`
abbrev pub or_signing {ℓ} : {E : Type 0} {A : Type ℓ} → Fallible.Result E A → Result A
or_signing (ok a) = ok a
or_signing (err e) = err signing

-- The source's `SigningConfig`.
pub record SignerConfig : Type 0 where
  pub fulcio_url : Str
  pub rekor_url : Str
  pub tsa_url : Option Str
  pub signing_scheme : SigningScheme
  pub rekor_api_version : RekorApiVersion
  pub oidc_url : Option Str

unfoldable pub default_config : SignerConfig
unfolding default_url
default_config = record {
  fulcio_url = str "https://fulcio.sigstore.dev";
  rekor_url = default_url v1;
  tsa_url = some (str "https://timestamp.sigstore.dev/api/v1/timestamp");
  signing_scheme = ecdsa_p256_sha256;
  rekor_api_version = v1;
  oidc_url = some (str "https://oauth2.sigstore.dev/auth");
}

abbrev url_of : Option ServiceEndpoint → Option Str
url_of none = none
url_of (some e) = some e.url

abbrev api_version : ServiceEndpoint → RekorApiVersion
api_version e = if e.major_api_version == 2 then v2 else v1

unfoldable pub from_tuf_config_with_rekor_version :
    SigningConfig.SigningConfig
    → (now : Timestamp) → (force_rekor_version : Option ℕ) → Result SignerConfig
unfolding get_fulcio_url get_rekor_url get_tsa_url get_oidc_url
from_tuf_config_with_rekor_version tuf_config now force_rekor_version = do
  fulcio_url ← ok_or (url_of (get_fulcio_url tuf_config now)) config
  rekor ← ok_or (get_rekor_url tuf_config now force_rekor_version) config
  ok (record {
    fulcio_url = fulcio_url;
    rekor_url = rekor.url;
    tsa_url = url_of (get_tsa_url tuf_config now);
    signing_scheme = ecdsa_p256_sha256;
    rekor_api_version = api_version rekor;
    oidc_url = url_of (get_oidc_url tuf_config now);
  })

unfoldable pub from_tuf_config :
    SigningConfig.SigningConfig → (now : Timestamp) → Result SignerConfig
unfolding from_tuf_config_with_rekor_version
from_tuf_config tuf_config now = from_tuf_config_with_rekor_version tuf_config now none

unfoldable pub with_rekor_version : SignerConfig → RekorApiVersion → SignerConfig
unfolding default_url
with_rekor_version c version = record c {
  rekor_api_version = version;
  rekor_url = default_url version;
}
