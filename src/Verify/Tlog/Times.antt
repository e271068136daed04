-- ===== src/Verify/Tlog/Times.antt =====
-- crates/sigstore-verify/src/verify_impl/tlog.rs: the times of accepted entries, and who promised them.
use sigstore_rust.Common.{
  List, [], ◌∷◌, true, Option, none, some, not, All, ◌≡◌, Bool-cases, inl, inr,
}
use sigstore_rust.Common.Int.{ℤ, pos, ◌+ℤ◌, ◌≤ℤ◌, ltb_ℤ, leb_ℤ_iff, wrap_i64}
use sigstore_rust.Common.Fallible.{ok, >>=-eq-ok, ensure_then_ok, ensure-eq-ok}
use sigstore_rust.Types.Bundle.{Bundle, TransparencyLogEntry}
use sigstore_rust.TrustRoot.{TrustedRoot, Timestamp}
use sigstore_rust.Verify.Platform.{Platform}
use sigstore_rust.Verify.Tlog.{
  verify_entry_inclusion, check_integrated_time, tlog_loop, verify_tlog_entries,
}

module _ (p : Platform) (trusted_root : TrustedRoot) (not_before not_after skew : ℤ)
    (now : Timestamp) where
  -- A time in the certificate's validity that is not in the future, up to the tolerance, whose sum with
  -- the present is that of `i64`.
  abbrev pub Timely : ℤ → Type 0
  Timely time =
      (time ≤ℤ wrap_i64 (p.as_second now +ℤ skew)) × (not_before ≤ℤ time) × (time ≤ℤ not_after)

  check_integrated_time-Timely :
      (time : ℤ) → check_integrated_time p time not_before not_after skew now ≡ ok tt → Timely time
  unfolding check_integrated_time
  check_integrated_time-Timely time e =
      let (past, e1) =
        ensure_then_ok (not (ltb_ℤ (wrap_i64 (p.as_second now +ℤ skew)) time)) _ _ e in
      let (started, e2) = ensure_then_ok (not (ltb_ℤ time not_before)) _ _ e1 in
      (
        (leb_ℤ_iff time _).0 past,
        (leb_ℤ_iff not_before time).0 started,
        (leb_ℤ_iff time not_after).0 (ensure-eq-ok _ _ e2),
      )

  -- What holds of an accepted entry.
  abbrev pub Accepted : TransparencyLogEntry → Type 0
  Accepted entry =
      (verify_entry_inclusion p entry trusted_root now ≡ ok tt)
      × (ltb_ℤ (pos 0) entry.integrated_time ≡ true → Timely entry.integrated_time)

  tlog_loop-Accepted :
      (start result : Option ℤ) (entries : List TransparencyLogEntry)
      → tlog_loop p trusted_root not_before not_after skew now start entries ≡ ok result
      → All Accepted entries
  unfolding tlog_loop
  tlog_loop-Accepted start result [] e = tt
  tlog_loop-Accepted start result (entry ∷ rest) e =
      let (_, included, e1) = >>=-eq-ok (verify_entry_inclusion p entry trusted_root now) _ e in
      elim (Bool-cases (ltb_ℤ (pos 0) entry.integrated_time)) [
        | inr untimed ↦
            ((included, λ timed. cc), tlog_loop-Accepted start result rest (rw untimed at e1))
        | inl timed ↦
            let (_, timely, e2) =
              >>=-eq-ok
                (check_integrated_time p entry.integrated_time not_before not_after skew now) _
                (rw timed at e1) in
            (
              (included, λ _. check_integrated_time-Timely entry.integrated_time timely),
              tlog_loop-Accepted (some entry.integrated_time) result rest e2,
            )
      ]

  -- Every entry of a bundle that `verify_tlog_entries` accepts passes `verify_entry_inclusion`, and an
  -- integrated time above 0 is in the certificate's validity and not after the present and the
  -- tolerance.
  pub verify_tlog_entries-Accepted :
      (bundle : Bundle) (result : Option ℤ)
      → verify_tlog_entries p bundle trusted_root not_before not_after skew now ≡ ok result
      → All Accepted bundle.verification_material.tlog_entries
  unfolding verify_tlog_entries
  verify_tlog_entries-Accepted bundle result e = tlog_loop-Accepted none result _ e
