-- ===== src/Tests/Sign.antt =====
-- Runs of crates/sigstore-sign, for toy functions in place of the crates: a signature is the word `sig`.
use sigstore_rust.Common.{[], ◌∷◌, true, Bytes, Str, str, none, some, some_inj, ◌≡◌, refl}
use sigstore_rust.Common.Int.{pos, as_i64}
use sigstore_rust.Common.Fallible.{ok}
use sigstore_rust.Types.Artifact.{raw_bytes, sha2_256}
use sigstore_rust.Crypto.X509.{parse_certificate_info}
use sigstore_rust.Types.Bundle.{
  Bundle, TransparencyLogEntry, SignatureContent, certificate, message_signature, dsse_envelope,
}
use sigstore_rust.Tuf.Key.{ecdsa_p256_sha256}
use sigstore_rust.Verify.Platform.{Platform}
use sigstore_rust.Rekor.Entry.{v1, LogEntry}
use sigstore_rust.Rekor.Client.{Http}
use sigstore_rust.Sign.{
  Services, Signer, Attestation, AttestationSubject, sign, sign_attestation, build_statement,
}
use sigstore_rust.Sign.Accepted.{KeysVerify, FulcioCertifies, ContentAccepted, sign-ContentAccepted}
use sigstore_rust.Sign.Attested.{StatementReads, sign_attestation-ContentAccepted}
use sigstore_rust.Tests.Sample.{codec, platform, sha256}

-- Signing.
abbrev logged : LogEntry
logged = record {
  uuid = [];
  body = str "body";
  integrated_time = pos 150;
  log_id = str "id";
  log_index = pos 7;
  verification = none;
}

abbrev http : Http
http = record {
  get_entries = λ url. none;
  post_hashed_rekord =
      λ url e. some (record { is_success = true; json = some ((str "u", logged) ∷ []) });
  post_dsse = λ url e. some (record { is_success = true; json = some ((str "u", logged) ∷ []) });
  post_hashed_rekord_v2 = λ url e. none;
  post_dsse_v2 = λ url e. none;
}

abbrev services : Services
services = record {
  codec = codec;
  sha256 = sha256;
  to_pem = λ b. b;
  generate_ecdsa_p256 = some (str "pair");
  sign_message = λ k m. some (str "sig");
  request_certificate = λ url token k. some (str "cert");
  http_client = http;
  timestamp_signature = λ url b. some (str "stamp");
  statement_to_vec = λ s. some (str "json");
  statement_from_slice = λ b. some (record { type_ = []; subject = []; predicate_type = [] });
  envelope_to_string = λ e. e.payload;
}

abbrev signer : Signer
signer = record {
  identity_token = str "token";
  signing_scheme = ecdsa_p256_sha256;
  fulcio_url = [];
  rekor_url = [];
  tsa_url = some [];
  rekor_api_version = v1;
}

abbrev public : Bytes → Bytes
public k = str "key"

abbrev entry : Str → TransparencyLogEntry
entry kind = record {
  log_index = pos 7;
  log_id = str "id";
  kind_version = record { kind = kind; version = str "0.0.1" };
  integrated_time = pos 150;
  inclusion_promise = none;
  inclusion_proof = none;
  canonicalized_body = str "body";
}

abbrev signed : (kind : Str) → SignatureContent → Bundle
signed kind content = record {
  media_type = str "application/vnd.dev.sigstore.bundle.v0.3+json";
  verification_material = record {
    content = certificate (str "cert");
    tlog_entries = entry kind ∷ [];
    rfc3161_timestamps = str "stamp" ∷ [];
  };
  content = content;
}

abbrev signed_message : Bundle
signed_message = signed (str "hashedrekord") (
    message_signature (record {
      message_digest = some (record { algorithm = sha2_256; digest = sha256 (str "artifact") });
      signature = str "sig";
    }))

sample_signs : sign services signer (raw_bytes (str "artifact")) ≡ ok signed_message
unfolding sign
sample_signs = refl

keys_verify : KeysVerify platform services signer public
keys_verify key_pair message signature h = rw (← some_inj h) refl

fulcio_certifies : FulcioCertifies platform services signer public
unfolding parse_certificate_info as_i64
fulcio_certifies key_pair cert h = (_, refl, refl, refl)

sign-ContentAccepted_example : ContentAccepted platform signed_message (raw_bytes (str "artifact"))
sign-ContentAccepted_example =
    sign-ContentAccepted platform services signer public (str "artifact") signed_message keys_verify
      fulcio_certifies (λ m. refl) sample_signs

-- An attestation.
abbrev subject : AttestationSubject
subject = record { name = str "file"; digest = sha256 (str "artifact") }

abbrev attestation : Attestation
attestation = record { subjects = subject ∷ []; predicate_type = str "type" }

abbrev reader : Platform
reader = record platform { parse_statement = λ s. some (build_statement codec attestation) }

abbrev attested : Bundle
attested = signed (str "dsse") (
    dsse_envelope (record {
      payload_type = str "application/vnd.in-toto+json";
      payload = str "json";
      signatures = record { sig = str "sig"; keyid = [] } ∷ [];
    }))

sample_attests : sign_attestation services signer attestation ≡ ok attested
unfolding sign_attestation
sample_attests = refl

attesting_keys : KeysVerify reader services signer public
attesting_keys key_pair message signature h = rw (← some_inj h) refl

attesting_fulcio : FulcioCertifies reader services signer public
unfolding parse_certificate_info as_i64
attesting_fulcio key_pair cert h = (_, refl, refl, refl)

statement_reads : StatementReads reader services signer public (build_statement codec attestation)
statement_reads json h = (json, refl, refl)

sign_attestation-ContentAccepted_example :
    ContentAccepted reader attested (raw_bytes (str "artifact"))
sign_attestation-ContentAccepted_example =
    sign_attestation-ContentAccepted reader services signer public attestation subject
      (str "artifact") attested attesting_keys attesting_fulcio statement_reads refl (0, refl) refl
      refl sample_attests
