-- ===== src/Tests/Sample.antt =====
-- A bundle with a message signature and one entry, for toy functions in place of the crates: a
-- signature is the word `sig`.
use sigstore_rust.Common.{
  ℕ, ◌+◌, ◌*◌, [], ◌∷◌, ◌++◌, true, Bytes, Str, str, Option, none, some, bytes_eq, length,
  if◌then◌else◌,
}
use sigstore_rust.Common.Int.{pos}
use sigstore_rust.Common.Fallible.{ok}
use sigstore_rust.Merkle.Tree.{Sha256Hash}
use sigstore_rust.Types.Encoding.{Codec}
use sigstore_rust.Types.Artifact.{Artifact, raw_bytes, sha2_256}
use sigstore_rust.Types.Checkpoint.{Checkpoint}
use sigstore_rust.Types.Bundle.{
  Bundle, TransparencyLogEntry, InclusionProof, MessageSignature, message_signature, certificate,
}
use sigstore_rust.TrustRoot.{TrustedRoot, TransparencyLog, CertificateAuthority, ValidityPeriod}
use sigstore_rust.Crypto.X509.{Certificate, rfc822_name}
use sigstore_rust.Verify.Platform.{Platform}
use sigstore_rust.Verify.Verifier.{VerificationPolicy, VerificationResult}

-- The bytes with a weight by place, in front of 31 zeros.
abbrev weigh : Bytes → ℕ
weigh [] = 1
weigh (b ∷ bs) = b + 3 * weigh bs

abbrev pub sha256 : Bytes → Sha256Hash
sha256 bs = weigh bs ∷ str "0123456789012345678901234567890"

abbrev body : Bytes
body = str "body"

abbrev pub logged_root : Sha256Hash
logged_root = sha256 (0 ∷ body)

abbrev pub artifact : Artifact
artifact = raw_bytes (str "artifact")

abbrev decode : Str → Option Bytes
decode s = some (if bytes_eq s (str "ROOT") then logged_root else s)

abbrev pub codec : Codec
codec = record {
  base64_encode = λ b. b;
  base64_decode = decode;
  hex_encode = λ b. b;
  hex_decode = λ s. some s;
}

abbrev cert : Certificate
cert = record {
  subject = str "fulcio";
  issuer = str "fulcio";
  not_before = 100;
  not_after = 200;
  spki_der = some (str "key");
  spki_oid = str "1.2.840.10045.2.1";
  spki_curve = some (some (str "1.2.840.10045.3.1.7"));
  san = some (some (rfc822_name (str "me") ∷ []));
  extensions = some ((str "1.3.6.1.4.1.57264.1.1", str "idp") ∷ []);
}

abbrev pub platform : Platform
platform = record {
  keys = record {
    trim = λ s. s;
    hex_decode = λ s. some s;
    hex_encode = λ b. b;
    from_pem = λ s. some s;
    subject_public_key = λ b. some b;
    verify = λ scheme key message signature. bytes_eq signature (str "sig");
    sha256 = sha256;
    sha512 = λ b. b;
  };
  prehashed = record {
    import_digest = λ algorithm digest. true;
    verify_digest = λ scheme key digest signature. bytes_eq signature (str "sig");
  };
  sha384 = λ b. b;
  spki_oid = λ b. some (str "1.2.840.10045.2.1");
  codec = codec;
  bodies = record {
    from_utf8 = λ b. some b;
    pem_parse = λ s. some (record { tag = str "CERTIFICATE"; contents = s });
    parse_hashed_rekord_v001 = λ s. some (record {
      hash_value = sha256 (str "artifact");
      signature_content = str "sig";
      public_key_content = str "cert";
    });
    parse_hashed_rekord_v002 = λ s. none;
    parse_dsse_v001 = λ s. none;
    parse_dsse_v002 = λ s. none;
    parse_intoto_v002 = λ s. none;
  };
  parse_statement = λ s. none;
  canonical_json = λ payload. some payload.body;
  from_utf8 = λ b. some b;
  certificate_from_der = λ b. some cert;
  utf8_string = λ b. some b;
  anchor_from_trusted_cert = λ b. some b;
  is_end_entity = λ b. true;
  verify_for_usage = λ ee anchors intermediates time. true;
  parse_timestamp = λ s. some (pos (length s));
  as_second = λ t. t;
  from_second = λ t. some t;
  verify_timestamp_response = λ token signature opts. some (pos 150);
  verify_sct = λ c spki root. ok tt;
}

abbrev pub started : ValidityPeriod
started = record { start = some (str "start"); end = none }

abbrev pub log : TransparencyLog
log = record {
  base_url = [];
  hash_algorithm = sha2_256;
  public_key = record { raw_bytes = str "logkey"; key_details = []; valid_for = some started };
  log_id = str "ABCDEF";
}

abbrev pub ca : CertificateAuthority
ca = record {
  subject = record { organization = none; common_name = none };
  uri = [];
  cert_chain = str "fulcio" ∷ [];
  valid_for = some started;
}

abbrev pub trusted_root : TrustedRoot
trusted_root = record {
  media_type = [];
  tlogs = log ∷ [];
  certificate_authorities = ca ∷ [];
  ctlogs = [];
  timestamp_authorities = [];
}

abbrev pub note : Str
note =
    str "log"
    ++ (10
        ∷ (str "1" ++ (10 ∷ (str "ROOT" ++ (10 ∷ 10 ∷ 0xe2 ∷ 0x80 ∷ 0x94 ∷ str " log ABCDsig")))))

abbrev pub noted : Checkpoint
noted = record {
  origin = str "log";
  tree_size = 1;
  root_hash = logged_root;
  other_content = [];
  signatures = record { name = str "log"; key_id = str "ABCD"; signature = str "sig" } ∷ [];
  signed_note_text = str "log" ++ (10 ∷ (str "1" ++ (10 ∷ (str "ROOT" ++ (10 ∷ [])))));
}

abbrev pub proof : InclusionProof
proof = record {
  log_index = pos 0;
  root_hash = logged_root;
  tree_size = pos 1;
  hashes = [];
  checkpoint = note;
}

abbrev pub entry : TransparencyLogEntry
entry = record {
  log_index = pos 7;
  log_id = str "ABCDEF";
  kind_version = record { kind = str "hashedrekord"; version = str "0.0.1" };
  integrated_time = pos 150;
  inclusion_promise = some (record { signed_entry_timestamp = str "sig" });
  inclusion_proof = some proof;
  canonicalized_body = body;
}

abbrev pub message : MessageSignature
message = record { message_digest = none; signature = str "sig" }

abbrev pub bundle : Bundle
bundle = record {
  media_type = str "application/vnd.dev.sigstore.bundle.v0.3+json";
  verification_material = record {
    content = certificate (str "cert");
    tlog_entries = entry ∷ [];
    rfc3161_timestamps = [];
  };
  content = message_signature message;
}

abbrev pub policy : VerificationPolicy
policy = record {
  identity = some (str "me");
  issuer = some (str "idp");
  verify_tlog = true;
  verify_timestamp = true;
  verify_certificate = true;
  verify_sct = true;
  clock_skew_seconds = pos 60;
}

abbrev pub result : VerificationResult
result = record {
  success = true;
  identity = some (str "me");
  issuer = some (str "idp");
  integrated_time = some (pos 150);
}
