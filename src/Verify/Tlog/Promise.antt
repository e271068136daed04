-- ===== src/Verify/Tlog/Promise.antt =====
-- crates/sigstore-verify/src/verify_impl/tlog.rs: who signed an accepted inclusion promise.
use sigstore_rust.Common.{ℕ, true, false, Bytes, Option, some, ◌≡◌, Bool-cases, inl, inr}
use sigstore_rust.Common.Int.{ℤ, pos, ltb_ℤ, as_i64}
use sigstore_rust.Common.Fallible.{ok, >>=-eq-ok, ok_or_then_ok, ok_or-eq-ok}
use sigstore_rust.Types.Encoding.{index_as_u64}
use sigstore_rust.Types.Bundle.{TransparencyLogEntry, InclusionPromise}
use sigstore_rust.TrustRoot.{TrustedRoot, Timestamp, ValidityPeriod}
use sigstore_rust.TrustRoot.Windows.{Started, Holds}
use sigstore_rust.TrustRoot.Lookup.{LogKey, rekor_key_for_log_sound, rekor_key_for_log_at_sound}
use sigstore_rust.Crypto.Checkpoint.{verify_signature_auto}
use sigstore_rust.Verify.Platform.{Platform, or_verification-eq-ok}
use sigstore_rust.Verify.Tlog.{set_key, verify_set}

module _ (p : Platform) where
  -- The window holds the entry's integrated time, or has started if the entry has none.
  abbrev pub KeyWindow : ℤ → Timestamp → Option ValidityPeriod → Type 0
  KeyWindow time now window =
      (ltb_ℤ (pos 0) time ≡ true
        → (ts : Timestamp) × (p.from_second time ≡ some ts) × Holds p.parse_timestamp window ts)
      × (ltb_ℤ (pos 0) time ≡ false → Started p.parse_timestamp window now)

  set_key-LogKey :
      (entry : TransparencyLogEntry) (root : TrustedRoot) (now : Timestamp) (key : Bytes)
      → set_key p entry root now ≡ ok key
      → LogKey p.parse_timestamp (KeyWindow entry.integrated_time now) root.tlogs entry.log_id key
  unfolding set_key
  set_key-LogKey entry root now key e = elim (Bool-cases (ltb_ℤ (pos 0) entry.integrated_time)) [
    | inl timed ↦
        let (ts, stamp, e1) =
          ok_or_then_ok (p.from_second entry.integrated_time) _ _ (rw (timed, set_key) at e) in
        let (tlog, at, same, holds, bytes) =
          rekor_key_for_log_at_sound p.parse_timestamp root entry.log_id ts key
            (or_verification-eq-ok _ e1) in
        (tlog, at, same, ((λ _. (ts, stamp, holds)), λ untimed. cc), bytes)
    | inr untimed ↦
        let (tlog, at, same, started, bytes) =
          rekor_key_for_log_sound p.parse_timestamp root entry.log_id now key
            (or_verification-eq-ok _ (rw (untimed, set_key) at e)) in
        (tlog, at, same, ((λ timed. cc), λ _. started), bytes)
  ]

  -- What is signed: the canonical JSON of the body, the time, the index and the log's identifier.
  abbrev pub SignedPayload : TransparencyLogEntry → Bytes → Type 0
  SignedPayload entry json =
      (index : ℕ) × (id : Bytes) × (index_as_u64 entry.log_index ≡ some index)
      × (p.codec.base64_decode entry.log_id ≡ some id)
      × (p.canonical_json (record {
        body = p.codec.base64_encode entry.canonicalized_body;
        integrated_time = entry.integrated_time;
        log_index = as_i64 index;
        log_id = p.codec.hex_encode id;
      })
          ≡ some json)

  -- An accepted promise is signed by a log of the trusted root with the entry's log identifier, over the
  -- entry's body, time, index and log; the log's key was valid at the entry's time, or, if the entry has
  -- none, the key's window has started.
  pub verify_set_signed :
      (entry : TransparencyLogEntry) (root : TrustedRoot) (now : Timestamp)
      → verify_set p entry root now ≡ ok tt
      → (promise : InclusionPromise) × (key : Bytes) × (json : Bytes) × (entry.inclusion_promise
          ≡ some promise)
        × LogKey p.parse_timestamp (KeyWindow entry.integrated_time now) root.tlogs entry.log_id key
        × SignedPayload entry json
        × (verify_signature_auto p.keys p.spki_oid key promise.signed_entry_timestamp json ≡ ok tt)
  unfolding verify_set
  verify_set_signed entry root now e =
      let (promise, promised, e1) = ok_or_then_ok entry.inclusion_promise _ _ e in
      let (key, keyed, e2) = >>=-eq-ok (set_key p entry root now) _ e1 in
      let (index, at, e3) = ok_or_then_ok (index_as_u64 entry.log_index) _ _ e2 in
      let (id, decoded, e4) = ok_or_then_ok (p.codec.base64_decode entry.log_id) _ _ e3 in
      let (json, canonical, e5) = >>=-eq-ok _ _ e4 in
      (
        promise,
        key,
        json,
        promised,
        set_key-LogKey entry root now key keyed,
        (index, id, at, decoded, ok_or-eq-ok _ _ canonical),
        or_verification-eq-ok _ e5,
      )
