-- ===== src/Tuf/Trusted/Authority.antt =====
-- Whatever the trusted metadata holds for a top-level role is signed under the trusted root.
use sigstore_rust.Common.{
  List, [], ◌∷◌, Option, none, some, Bytes, Str, Map, str, bytes_eq, lookup, insert, lookup-insert,
  false, ◌≡◌, refl, arith, inl, inr, ◌∙◌,
}
use mathlib.Core.Path.{subst}
use sigstore_rust.Common.Fallible.{ok, Result-cases}
use sigstore_rust.Tuf.Key.{Crypto}
use sigstore_rust.Tuf.Metadata.{Root, Targets, Metadata, Parsers, from_slice, root_role}
use sigstore_rust.Tuf.Trusted.{
  TrustedMetadataSet, is_top_level_role, verify_root_self_signed, verify_with_root, update_root,
  checked_root, from_root, next_version,
}
use sigstore_rust.Tuf.Trusted.Roles.{
  checked_timestamp, checked_snapshot, checked_targets, checked_delegated, update_timestamp,
  update_snapshot, update_targets, update_delegated_targets,
}
use sigstore_rust.Tuf.Trusted.Accepted.{
  Authorized, verify_with_root-Authorized, checked_root_ok, checked_timestamp_ok,
  checked_snapshot_ok, checked_targets_ok, checked_delegated_ok,
}
use sigstore_rust.Tuf.Trusted.Steps.{
  Op, feed_root, feed_timestamp, feed_snapshot, feed_targets, feed_delegated, apply, run,
}

module _ (c : Crypto) where
  abbrev pub AuthorizedIf : {T : Type 0} → Root → Str → Option (Metadata T) → Type 0
  AuthorizedIf root name none = Unit
  AuthorizedIf root name (some m) = Authorized c root name m

  -- The root signs itself and each top-level role that is there.
  pub record IsAuthorized (s : TrustedMetadataSet) : Type 0 where
    pub by_itself : Authorized c s.root.signed (str "root") s.root
    pub timestamp : AuthorizedIf s.root.signed (str "timestamp") s.timestamp
    pub snapshot : AuthorizedIf s.root.signed (str "snapshot") s.snapshot
    pub targets : AuthorizedIf s.root.signed (str "targets") (lookup (str "targets") s.targets)

  self_signed-Authorized :
      (m : Metadata Root)
      → verify_root_self_signed c m ≡ ok tt
      → Authorized c m.signed (str "root") m
  self_signed-Authorized m e = verify_with_root-Authorized c m m.signed (str "root") (same e)
    where
      same :
          verify_root_self_signed c m ≡ ok tt → verify_with_root c m m.signed (str "root") ≡ ok tt
      same e' = unfold verify_root_self_signed verify_with_root in e'

  -- A name that is not reserved is not "targets".
  lookup-targets :
      (name : Str) (m : Metadata Targets) (ts : Map (Metadata Targets))
      → is_top_level_role name ≡ false
      → lookup (str "targets") (insert name m ts) ≡ lookup (str "targets") ts
  lookup-targets name m ts h = lookup-insert name (str "targets") m ts ∙ rw (not_targets h)
    where
      not_targets : is_top_level_role name ≡ false → bytes_eq name (str "targets") ≡ false
      not_targets h' = unfold is_top_level_role in ground arith

  module _ (p : Parsers) where
    from_root-IsAuthorized :
        (bytes : Bytes) (s : TrustedMetadataSet) → from_root c p bytes ≡ ok s → IsAuthorized s
    unfolding from_root
    from_root-IsAuthorized bytes s e = elim (Result-cases (from_slice p (root_role p) bytes)) [
      | inl (m, parsed) ↦
          let signed : verify_root_self_signed c m ≡ ok tt = ground arith in
          let start : TrustedMetadataSet = record {
            root = m;
            timestamp = none;
            snapshot = none;
            targets = [];
          } in
          let same : start ≡ s = ground arith in
          subst IsAuthorized same (record {
            by_itself = self_signed-Authorized m signed;
            timestamp = tt;
            snapshot = tt;
            targets = tt;
          })
      | inr (x, failed) ↦ absurd (ground arith)
    ]

    apply-IsAuthorized :
        (op : Op) (s : TrustedMetadataSet) → IsAuthorized s → IsAuthorized (apply c p op s).1
    unfolding apply update_root update_timestamp update_snapshot update_targets
        update_delegated_targets
    apply-IsAuthorized (feed_root bytes) s h = elim (Result-cases (checked_root c p s bytes)) [
      | inl (new, e) ↦ rw e (record {
        by_itself = self_signed-Authorized new (checked_root_ok c p s bytes new e).2;
        timestamp = tt;
        snapshot = tt;
        targets = tt;
      })
      | inr (x, e) ↦ rw e h
    ]
    apply-IsAuthorized (feed_timestamp bytes now) s h =
        elim (Result-cases (checked_timestamp c p s bytes now)) [
          | inl (new, e) ↦ rw e (record {
            by_itself = h.by_itself;
            timestamp =
                verify_with_root-Authorized c new _ _
                  (checked_timestamp_ok c p s bytes now new e).0;
            snapshot = h.snapshot;
            targets = h.targets;
          })
          | inr (x, e) ↦ rw e h
        ]
    apply-IsAuthorized (feed_snapshot bytes now) s h =
        elim (Result-cases (checked_snapshot c p s bytes now)) [
          | inl (new, e) ↦ rw e (record {
            by_itself = h.by_itself;
            timestamp = h.timestamp;
            snapshot =
                verify_with_root-Authorized c new _ _ (checked_snapshot_ok c p s bytes now new e).6;
            targets = tt;
          })
          | inr (x, e) ↦ rw e h
        ]
    apply-IsAuthorized (feed_targets bytes now) s h =
        elim (Result-cases (checked_targets c p s bytes now)) [
          | inl (new, e) ↦ rw e (record {
            by_itself = h.by_itself;
            timestamp = h.timestamp;
            snapshot = h.snapshot;
            targets = rw (lookup-insert (str "targets") (str "targets") new s.targets) (
                verify_with_root-Authorized c new _ _ (checked_targets_ok c p s bytes now new e).1);
          })
          | inr (x, e) ↦ rw e h
        ]
    apply-IsAuthorized (feed_delegated bytes role_name delegator_name now) s h =
        elim (Result-cases (checked_delegated c p s bytes role_name delegator_name now)) [
          | inl (new, e) ↦ rw e (record {
            by_itself = h.by_itself;
            timestamp = h.timestamp;
            snapshot = h.snapshot;
            targets =
                rw
                  (lookup-targets role_name new s.targets
                    (checked_delegated_ok c p s bytes role_name delegator_name now new e).2)
                  h.targets;
          })
          | inr (x, e) ↦ rw e h
        ]

    -- After any sequence of updates from a bootstrap root, the trusted root is signed to its own
    -- threshold, and the trusted timestamp, snapshot and top-level targets, where there are any, are
    -- signed to the thresholds that the trusted root declares for them.
    pub run-IsAuthorized :
        (ops : List Op) (bytes : Bytes) (s : TrustedMetadataSet)
        → from_root c p bytes ≡ ok s
        → IsAuthorized (run c p ops s)
    unfolding run
    run-IsAuthorized ops bytes s e = go ops s (from_root-IsAuthorized bytes s e)
      where
        go :
            (ops' : List Op) (s' : TrustedMetadataSet)
            → IsAuthorized s'
            → IsAuthorized (run c p ops' s')
        go [] s' h = h
        go (op ∷ ops') s' h = go ops' (apply c p op s').1 (apply-IsAuthorized op s' h)

    -- A root that is accepted has the next version, is signed to the thresholds of the role `root` in
    -- the old root and in itself, and takes the place of all that was trusted.
    pub update_root_ok :
        (s : TrustedMetadataSet) (bytes : Bytes)
        → (update_root c p s bytes).0 ≡ ok tt
        → let t = (update_root c p s bytes).1 in
          (t.root.signed.version ≡ next_version s.root.signed.version)
          × Authorized c s.root.signed (str "root") t.root
          × Authorized c t.root.signed (str "root") t.root
          × (t.timestamp ≡ none)
          × (t.snapshot ≡ none)
          × (t.targets ≡ [])
    unfolding update_root
    update_root_ok s bytes e = elim (Result-cases (checked_root c p s bytes)) [
      | inl (new, done) ↦
          let r = checked_root_ok c p s bytes new done in
          rw done (
            r.0,
            verify_with_root-Authorized c new _ _ r.1,
            self_signed-Authorized new r.2,
            refl,
            refl,
            refl,
          )
      | inr (x, failed) ↦ absurd (ground arith)
    ]
