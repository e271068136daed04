-- ===== src/Tests/Checkpoint.antt =====
-- A run of crates/sigstore-crypto/src/checkpoint.rs on a sample checkpoint.
use sigstore_rust.Common.{[], ◌∷◌, str, take, In, ◌≡◌, refl}
use sigstore_rust.Common.Fallible.{ok}
use sigstore_rust.Types.Checkpoint.{
  Checkpoint, CheckpointSignature, find_signature_by_key_hint, signed_data,
}
use sigstore_rust.Crypto.Checkpoint.{
  compute_key_hint, verify_ecdsa_p256, verify_signature_auto, verify_checkpoint_signature,
}
use sigstore_rust.Crypto.Checkpoint.Signed.{Authentic, verify_checkpoint_signature-Authentic}
use sigstore_rust.Tests.Sample.{sha256, logged_root, platform}

-- A checkpoint whose second signature has the key's hint.
abbrev witnessed : Checkpoint
witnessed = record {
  origin = str "log";
  tree_size = 1;
  root_hash = logged_root;
  other_content = [];
  signatures =
      record { name = str "other"; key_id = str "hint"; signature = str "no" }
      ∷ record { name = str "log"; key_id = take 4 (sha256 (str "key")); signature = str "sig" }
      ∷ [];
  signed_note_text = str "note";
}

witnessed_verifies :
    verify_checkpoint_signature platform.keys platform.spki_oid witnessed (str "key") ≡ ok tt
unfolding verify_checkpoint_signature compute_key_hint find_signature_by_key_hint
    verify_signature_auto verify_ecdsa_p256 signed_data
witnessed_verifies = refl

verify_checkpoint_signature-Authentic_example :
    (sig : CheckpointSignature) × In witnessed.signatures sig
    × (sig.key_id ≡ take 4 (sha256 (str "key")))
    × Authentic platform.keys platform.spki_oid (str "key") sig.signature (str "note")
verify_checkpoint_signature-Authentic_example =
    verify_checkpoint_signature-Authentic platform.keys platform.spki_oid (λ b oid o. (b, refl))
      (λ b o. absurd (cc o)) witnessed (str "key") witnessed_verifies
