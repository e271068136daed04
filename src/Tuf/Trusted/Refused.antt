-- ===== src/Tuf/Trusted/Refused.antt =====
-- Updates of the trusted metadata that the checks refuse, among others.
use sigstore_rust.Common.{List, [], ◌∷◌, ◌≡◌, refl, ap, ◌∙◌}
use sigstore_rust.Common.Fallible.{Result, ok, err, Result-cases}
use sigstore_rust.Tuf.Error.{Error}
use sigstore_rust.Tuf.Key.{Crypto}
use sigstore_rust.Tuf.Metadata.{Parsers}
use sigstore_rust.Common.{inl, inr}
use sigstore_rust.Tuf.Trusted.{TrustedMetadataSet, commit, update_root}
use sigstore_rust.Tuf.Trusted.Roles.{
  update_timestamp, update_snapshot, update_targets, update_delegated_targets,
}
use sigstore_rust.Tuf.Trusted.Steps.{
  Op, feed_root, feed_timestamp, feed_snapshot, feed_targets, feed_delegated, apply, run,
}

commit_err :
    {A : Type 0} (s : TrustedMetadataSet) (r : Result Error A) (f : A → TrustedMetadataSet)
    {why : Error}
    → (commit s r f).0 ≡ err why
    → (commit s r f).1 ≡ s
commit_err s (ok a) f h = cc
commit_err s (err e) f h = refl

module _ (c : Crypto) (p : Parsers) where
  -- The updates of a sequence that succeed where they are made.
  unfoldable pub accepted : List Op → TrustedMetadataSet → List Op
  unfolding apply
  accepted [] s = []
  accepted (op ∷ ops) s = elim (apply c p op s).0 [
    | ok done ↦ op ∷ accepted ops (apply c p op s).1
    | err why ↦ accepted ops s
  ]

  -- Every update of a sequence succeeds.
  unfoldable pub AllSucceed : List Op → TrustedMetadataSet → Type 0
  unfolding apply
  AllSucceed [] s = Unit {0}
  AllSucceed (op ∷ ops) s = ((apply c p op s).0 ≡ ok tt) × AllSucceed ops (apply c p op s).1

  apply_err :
      (op : Op) (s : TrustedMetadataSet) {why : Error}
      → (apply c p op s).0 ≡ err why
      → (apply c p op s).1 ≡ s
  unfolding apply update_root update_timestamp update_snapshot update_targets
      update_delegated_targets
  apply_err (feed_root bytes) s h = commit_err s _ _ h
  apply_err (feed_timestamp bytes now) s h = commit_err s _ _ h
  apply_err (feed_snapshot bytes now) s h = commit_err s _ _ h
  apply_err (feed_targets bytes now) s h = commit_err s _ _ h
  apply_err (feed_delegated bytes role_name delegator_name now) s h = commit_err s _ _ h

  accepted_ok :
      (op : Op) (ops : List Op) (s : TrustedMetadataSet)
      → (apply c p op s).0 ≡ ok tt
      → accepted (op ∷ ops) s ≡ op ∷ accepted ops (apply c p op s).1
  unfolding accepted
  accepted_ok op ops s passed = rw (passed, accepted) refl

  accepted_err :
      (op : Op) (ops : List Op) (s : TrustedMetadataSet) {why : Error}
      → (apply c p op s).0 ≡ err why
      → accepted (op ∷ ops) s ≡ accepted ops s
  unfolding accepted
  accepted_err op ops s failed = rw (failed, accepted) refl

  nothing :
      (s : TrustedMetadataSet)
      → (run c p [] s ≡ run c p (accepted [] s) s) × AllSucceed (accepted [] s) s
  unfolding run accepted AllSucceed
  nothing s = (refl, tt)

  -- Refused updates have no effect: a sequence of updates leads where its updates that succeed lead
  -- alone, each of which succeeds there as well.
  pub run-accepted :
      (ops : List Op) (s : TrustedMetadataSet)
      → (run c p ops s ≡ run c p (accepted ops s) s) × AllSucceed (accepted ops s) s
  unfolding run AllSucceed
  run-accepted [] s = nothing s
  run-accepted (op ∷ ops) s = elim (Result-cases (apply c p op s).0) [
    | inl (done, passed) ↦
        let (same, all) = run-accepted ops (apply c p op s).1 in
        rw (accepted_ok op ops s passed) (same, (passed, all))
    | inr (why, failed) ↦
        let (same, all) = run-accepted ops s in
        rw (accepted_err op ops s failed) (ap (run c p ops) (apply_err op s failed) ∙ same, all)
  ]
