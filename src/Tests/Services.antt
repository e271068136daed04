-- ===== src/Tests/Services.antt =====
-- Runs of crates/sigstore-tsa, crates/sigstore-cache and the signing configuration, for toy functions in
-- place of the crates.
use sigstore_rust.Common.{
  ℕ, [], ◌∷◌, List, true, Str, str, none, some, ◌≡◌, ◌≢◌, Option, refl, arith, bytes_eq,
}
use sigstore_rust.Common.Int.{pos}
use sigstore_rust.Common.Fallible.{ok}
use sigstore_rust.TrustRoot.SigningConfig.{
  ServiceEndpoint, SigningConfig, ServiceConfiguration, any, get_rekor_url,
}
use sigstore_rust.TrustRoot.SigningConfig.Best.{IsBest, get_rekor_url-IsBest}
use sigstore_rust.Verify.Platform.{TsaVerifyOpts}
use sigstore_rust.Cache.{CacheKey, rekor_log_info, trusted_root}
use sigstore_rust.Cache.Memory.{new, find, is_expired, new_entry, CacheKey-discrete}
use sigstore_rust.Cache.Tasks.{
  Event, get_begin, set_begin, finish, cleanup_call, Pending, removal, assign, step, answers,
  run_pending, Ordered, ideal_step, ideal_answers, insert, Undisturbed, new_world, new_ideal,
}
use sigstore_rust.Cache.Fresh.{assign_both}
use sigstore_rust.Cache.Lossy.{Lossy, answers-Lossy}
use sigstore_rust.Cache.History.{answers-ideal_answers}
use sigstore_rust.Tsa
use sigstore_rust.Tsa.{
  Tsp, ContentInfo, SignedData, TstInfo, SignerInfo, Certificate, Asn1MessageImprint,
}
use sigstore_rust.Tsa.Verify.{verify_timestamp_response}
use sigstore_rust.Tsa.Sound.{Stamps, verify_timestamp_response-Stamps}
use sigstore_rust.Tests.Sample.{sha256}

-- The cache: the task 2 finds an expired entry, and the task 1 writes under another key before the
-- removal.
abbrev events : List (ℕ × Event)
events =
    (1, set_begin 1 trusted_root (str "root") 10)
    ∷ (1, finish 1)
    ∷ (5, get_begin 2 trusted_root)
    ∷ (11, get_begin 2 trusted_root)
    ∷ (11, set_begin 1 rekor_log_info (str "log") 10)
    ∷ (12, finish 1)
    ∷ (12, finish 2)
    ∷ (13, cleanup_call (λ k. 13))
    ∷ (13, get_begin 2 rekor_log_info)
    ∷ []

events-Ordered : Ordered 0 events
events-Ordered = (
  omega arith,
  tt,
  (
    omega arith,
    tt,
    (
      omega arith,
      tt,
      (
        omega arith,
        tt,
        (
          omega arith,
          tt,
          (
            omega arith,
            tt,
            (omega arith, tt, (omega arith, (λ k. omega arith), (omega arith, tt, tt))),
          ),
        ),
      ),
    ),
  ),
)

events-Undisturbed : Undisturbed events new_world
unfolding step find run_pending new_entry new is_expired
events-Undisturbed = (
  tt,
  (
    untouched 1 _ _ (λ e. cc) (λ u e. cc),
    (
      tt,
      (
        tt,
        (
          tt,
          (
            untouched 1 _ _ (λ e. cc)
                (untouched 2 _ _ (λ e. cc)
                  (untouched 2 _ _ (λ e. cc)
                    (untouched 1 _ _ (λ e. cc) (untouched 1 _ _ (λ e. cc) (λ u e. cc))))),
            (tt, (tt, (tt, tt))),
          ),
        ),
      ),
    ),
  ),
)
  where
    untouched :
        (task : ℕ) (p : Option Pending) (f : ℕ → Option Pending) {key : CacheKey}
        → p ≢ some (removal key)
        → ((u : ℕ) → f u ≢ some (removal key))
        → (u : ℕ) → assign task p f u ≢ some (removal key)
    untouched task p f {key = key} = assign_both (λ a b. a ≢ some (removal key)) task p p f f

answers-ideal_answers_example : answers events new_world ≡ ideal_answers events new_ideal
answers-ideal_answers_example = answers-ideal_answers 0 events events-Ordered events-Undisturbed

-- The task 1 writes an entry while the task 2 is about to remove the expired one: it is lost.
abbrev lost : List (ℕ × Event)
lost =
    (1, set_begin 1 trusted_root (str "old") 1)
    ∷ (1, finish 1)
    ∷ (5, get_begin 2 trusted_root)
    ∷ (6, set_begin 1 trusted_root (str "new") 10)
    ∷ (6, finish 1)
    ∷ (6, finish 2)
    ∷ (7, get_begin 2 trusted_root)
    ∷ []

lost_get :
    answers lost new_world
    ≡ ok none ∷ ok none ∷ ok none ∷ ok none ∷ ok none ∷ ok none ∷ ok none ∷ []
unfolding answers step find run_pending new_entry new is_expired CacheKey-discrete
lost_get = refl

ideal_get :
    ideal_answers lost new_ideal
    ≡ ok none ∷ ok none ∷ ok none ∷ ok none ∷ ok none ∷ ok none ∷ ok (some (str "new")) ∷ []
unfolding ideal_answers ideal_step insert new is_expired CacheKey-discrete
ideal_get = refl

answers-Lossy_example : Lossy (answers lost new_world) (ideal_answers lost new_ideal)
answers-Lossy_example = answers-Lossy 0 lost (
  omega arith,
  tt,
  (
    omega arith,
    tt,
    (
      omega arith,
      tt,
      (omega arith, tt, (omega arith, tt, (omega arith, tt, (omega arith, tt, tt)))),
    ),
  ),
)

-- The configuration.
abbrev endpoint : Str → ℕ → ServiceEndpoint
endpoint url version = record {
  url = url;
  major_api_version = version;
  valid_for = record { start = pos 10; end = some (pos 20) };
  operator = none;
}

abbrev anyhow : ServiceConfiguration
anyhow = record { selector = any; count = none }

abbrev config : SigningConfig
config = record {
  media_type = [];
  ca_urls = [];
  oidc_urls = [];
  rekor_tlog_urls = endpoint (str "one") 1 ∷ endpoint (str "two") 2 ∷ endpoint (str "three") 3 ∷ [];
  tsa_urls = [];
  rekor_tlog_config = anyhow;
  tsa_config = anyhow;
}

rekor_two : get_rekor_url config (pos 15) none ≡ some (endpoint (str "two") 2)
unfolding get_rekor_url
rekor_two = refl

get_rekor_url-IsBest_example :
    IsBest none (pos 15) config.rekor_tlog_urls (get_rekor_url config (pos 15) none)
get_rekor_url-IsBest_example = get_rekor_url-IsBest config (pos 15) none

-- A timestamp.
abbrev tsa_certificate : Certificate
tsa_certificate = record {
  issuer = str "tsa";
  serial_number = str "7";
  extensions = none;
  subject_public_key = some (str "tsakey");
  spki_oid = str "1.2.840.10045.2.1";
  spki_curve = some (some (str "1.2.840.10045.3.1.7"));
  der = some (str "tsacert");
}

abbrev signer_info : SignerInfo
signer_info = record {
  sid = Tsa.issuer_and_serial_number (str "tsa") (str "7");
  digest_alg = str "2.16.840.1.101.3.4.2.1";
  signed_attrs =
      some (
        record { oid = str "1.2.840.113549.1.9.4"; values = some (sha256 (str "info")) ∷ [] } ∷ []);
  signature = str "sig";
}

abbrev tsp : Tsp
tsp = record {
  time_stamp_resp_from_der = λ b. none;
  content_info_from_der =
      λ b. some (record { content_type = str "1.2.840.113549.1.7.2"; content = some b });
  signed_data_from_der = λ b. some (record {
    econtent_type = str "1.2.840.113549.1.9.16.1.4";
    econtent = some (str "info");
    certificates = some (Tsa.certificate tsa_certificate ∷ []);
    signer_infos = signer_info ∷ [];
  });
  tst_info_from_der = λ b. some (record {
    message_imprint = record {
      hash_algorithm = str "2.16.840.1.101.3.4.2.1";
      hashed_message = sha256 (str "sig");
    };
    gen_time = some (pos 150);
    nonce = none;
  });
  certificate_from_der = λ b. none;
  subject_key_identifier_from_der = λ b. none;
  octet_string_from_der = λ b. some b;
  attributes_to_der = λ attrs. some (str "attrs");
  certificate_eq = λ a b. bytes_eq a.serial_number b.serial_number;
  request_to_der = λ r. none;
  sha256 = sha256;
  sha384 = λ b. b;
  sha512 = λ b. b;
  verify_ecdsa = λ algorithm key message signature. bytes_eq signature (str "sig");
  anchor_from_trusted_cert = λ b. some b;
  is_end_entity = λ b. true;
  verify_for_usage = λ ee anchors intermediates time. true;
  as_second = λ t. t;
}

abbrev opts : TsaVerifyOpts
opts = record { roots = str "root" ∷ []; intermediates = []; tsa_certificates = [] }

sample_stamps : verify_timestamp_response tsp (str "token") (str "sig") opts ≡ ok (pos 150)
unfolding verify_timestamp_response
sample_stamps = refl

verify_timestamp_response-Stamps_example : Stamps tsp (str "token") (str "sig") opts (pos 150)
verify_timestamp_response-Stamps_example =
    verify_timestamp_response-Stamps tsp (str "token") (str "sig") opts (pos 150) sample_stamps
