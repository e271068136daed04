-- ===== src/Tuf/Trusted/Rollback.antt =====
-- No sequence of updates moves a version backwards, as long as the root is not replaced.
use mathlib.Core.Path.{subst}
use sigstore_rust.Common.{
  ◌+◌, ◌≤◌, ◌<◌, ◌^◌, List, [], ◌∷◌, Option, none, some, Str, Map, bytes_eq, lookup, length, ◌≡◌,
  ◌⊎◌, refl, arith, inl, inr, Bool-cases, Option-cases, eq_of_bytes_eq, ap, ◌∙◌,
}
use sigstore_rust.Common.Fallible.{ok, Result-cases}
use sigstore_rust.Tuf.Key.{Crypto}
use sigstore_rust.Tuf.Metadata.{MetaFile, Root, Snapshot, Timestamp, Metadata, Parsers}
use sigstore_rust.Tuf.Trusted.{TrustedMetadataSet, update_root, checked_root}
use sigstore_rust.Tuf.Trusted.Roles.{
  checked_timestamp, checked_snapshot, checked_targets, checked_delegated, update_timestamp,
  update_snapshot, update_targets, update_delegated_targets, check_timestamp_version,
  check_pinned_files, check_snapshot_files,
}
use sigstore_rust.Tuf.Trusted.Accepted.{checked_root_ok, checked_timestamp_ok, checked_snapshot_ok}
use sigstore_rust.Tuf.Trusted.Steps.{
  Op, feed_root, feed_timestamp, feed_snapshot, feed_targets, feed_delegated, apply, run,
}

-- The later timestamp is there if the earlier is, at its version or a higher one.
abbrev pub TimestampGrows : Option (Metadata Timestamp) → Option (Metadata Timestamp) → Type 0
TimestampGrows none t = Unit
TimestampGrows (some s) none = ⊥
TimestampGrows (some s) (some t) = s.signed.version ≤ t.signed.version

-- Every file that the earlier snapshot pins is pinned by the later, at its version or a higher one.
abbrev pub PinsGrow : Map MetaFile → Map MetaFile → Type 0
PinsGrow m n =
    (name : Str) (old : MetaFile)
    → lookup name m ≡ some old
    → (new : MetaFile) × (lookup name n ≡ some new) × (old.version ≤ new.version)

abbrev pub SnapshotGrows : Option (Metadata Snapshot) → Option (Metadata Snapshot) → Type 0
SnapshotGrows none t = Unit
SnapshotGrows (some s) none = ⊥
SnapshotGrows (some s) (some t) = PinsGrow s.signed.meta t.signed.meta

-- A higher root version, or the same root with timestamp and snapshot not moved backwards.
abbrev pub NoRollback : TrustedMetadataSet → TrustedMetadataSet → Type 0
NoRollback s t =
    (s.root.signed.version < t.root.signed.version)
    ⊎ ((t.root ≡ s.root)
        × TimestampGrows s.timestamp t.timestamp
        × SnapshotGrows s.snapshot t.snapshot)

TimestampGrows-refl : (t : Option (Metadata Timestamp)) → TimestampGrows t t
TimestampGrows-refl none = tt
TimestampGrows-refl (some t) = omega arith

TimestampGrows-trans :
    (s t u : Option (Metadata Timestamp))
    → TimestampGrows s t
    → TimestampGrows t u
    → TimestampGrows s u
TimestampGrows-trans none t u h k = tt
TimestampGrows-trans (some s) none u h k = absurd h
TimestampGrows-trans (some s) (some t) none h k = absurd k
TimestampGrows-trans (some s) (some t) (some u) h k = omega arith

SnapshotGrows-refl : (t : Option (Metadata Snapshot)) → SnapshotGrows t t
SnapshotGrows-refl none = tt
SnapshotGrows-refl (some t) = λ name old e. (old, e, omega arith)

SnapshotGrows-trans :
    (s t u : Option (Metadata Snapshot)) → SnapshotGrows s t → SnapshotGrows t u → SnapshotGrows s u
SnapshotGrows-trans none t u h k = tt
SnapshotGrows-trans (some s) none u h k = absurd h
SnapshotGrows-trans (some s) (some t) none h k = absurd k
SnapshotGrows-trans (some s) (some t) (some u) h k = λ name old e.
    let (mid, em, le) = h name old e in let (new, en, le') = k name mid em in (new, en, omega arith)

NoRollback-refl : (s : TrustedMetadataSet) → NoRollback s s
NoRollback-refl s = inr (refl, TimestampGrows-refl s.timestamp, SnapshotGrows-refl s.snapshot)

NoRollback-trans : (s t u : TrustedMetadataSet) → NoRollback s t → NoRollback t u → NoRollback s u
NoRollback-trans s t u (inl h) (inl k) = inl (omega arith)
NoRollback-trans s t u (inl h) (inr k) =
    inl (omega (arith, ap (λ (r : Metadata Root). r.signed.version) k.0))
NoRollback-trans s t u (inr h) (inl k) =
    inl (omega (arith, ap (λ (r : Metadata Root). r.signed.version) h.0))
NoRollback-trans s t u (inr h) (inr k) = inr (
  k.0 ∙ h.0,
  TimestampGrows-trans s.timestamp t.timestamp u.timestamp h.1 k.1,
  SnapshotGrows-trans s.snapshot t.snapshot u.snapshot h.2 k.2,
)

check_timestamp_version-Grows :
    (t : Option (Metadata Timestamp)) (new : Metadata Timestamp)
    → check_timestamp_version t new.signed ≡ ok tt
    → TimestampGrows t (some new)
unfolding check_timestamp_version
check_timestamp_version-Grows none new e = tt
check_timestamp_version-Grows (some t) new e = ground arith

check_pinned_files-Grow : (m n : Map MetaFile) → check_pinned_files m n ≡ ok tt → PinsGrow m n
unfolding check_pinned_files
check_pinned_files-Grow [] n e = λ name old f. cc
check_pinned_files-Grow ((j, cur) ∷ m) n e = λ name old f. elim (Option-cases (lookup j n)) [
  | inl missing ↦ absurd (ground arith)
  | inr (new, found) ↦ elim (Bool-cases (bytes_eq j name)) [
    | inl same ↦
        let found' : lookup name n ≡ some new =
          subst (λ z. lookup z n ≡ some new) (eq_of_bytes_eq j name same) found in
        (new, found', ground arith)
    | inr other ↦ check_pinned_files-Grow m n (ground arith) name old (ground arith)
  ]
]

check_snapshot_files-Grows :
    (t : Option (Metadata Snapshot)) (new : Metadata Snapshot)
    → check_snapshot_files t new.signed ≡ ok tt
    → SnapshotGrows t (some new)
unfolding check_snapshot_files
check_snapshot_files-Grows none new e = tt
check_snapshot_files-Grows (some t) new e = check_pinned_files-Grow t.signed.meta new.signed.meta e

module _ (c : Crypto) (p : Parsers) where
  apply-NoRollback :
      (op : Op) (s : TrustedMetadataSet)
      → s.root.signed.version + 1 < 2 ^ 64
      → NoRollback s (apply c p op s).1
  unfolding apply update_root update_timestamp update_snapshot update_targets
      update_delegated_targets
  apply-NoRollback (feed_root bytes) s b = elim (Result-cases (checked_root c p s bytes)) [
    | inl (new, e) ↦ rw e (inl (omega (arith, (checked_root_ok c p s bytes new e).0)))
    | inr (x, e) ↦ rw e (NoRollback-refl s)
  ]
  apply-NoRollback (feed_timestamp bytes now) s b =
      elim (Result-cases (checked_timestamp c p s bytes now)) [
        | inl (new, e) ↦ rw e (
            inr (
              refl,
              check_timestamp_version-Grows s.timestamp new
                  (checked_timestamp_ok c p s bytes now new e).1,
              SnapshotGrows-refl s.snapshot,
            ))
        | inr (x, e) ↦ rw e (NoRollback-refl s)
      ]
  apply-NoRollback (feed_snapshot bytes now) s b =
      elim (Result-cases (checked_snapshot c p s bytes now)) [
        | inl (new, e) ↦ rw e (
            inr (
              refl,
              TimestampGrows-refl s.timestamp,
              check_snapshot_files-Grows s.snapshot new
                  (checked_snapshot_ok c p s bytes now new e).7,
            ))
        | inr (x, e) ↦ rw e (NoRollback-refl s)
      ]
  apply-NoRollback (feed_targets bytes now) s b =
      elim (Result-cases (checked_targets c p s bytes now)) [
        | inl (new, e) ↦ rw e (NoRollback-refl s)
        | inr (x, e) ↦ rw e (NoRollback-refl s)
      ]
  apply-NoRollback (feed_delegated bytes role_name delegator_name now) s b =
      elim (Result-cases (checked_delegated c p s bytes role_name delegator_name now)) [
        | inl (new, e) ↦ rw e (NoRollback-refl s)
        | inr (x, e) ↦ rw e (NoRollback-refl s)
      ]

  -- One update raises the root's version by at most one.
  apply_root_version :
      (op : Op) (s : TrustedMetadataSet)
      → (apply c p op s).1.root.signed.version ≤ s.root.signed.version + 1
  unfolding apply update_root update_timestamp update_snapshot update_targets
      update_delegated_targets
  apply_root_version (feed_root bytes) s = elim (Result-cases (checked_root c p s bytes)) [
    | inl (new, e) ↦ rw e (omega (arith, (checked_root_ok c p s bytes new e).0))
    | inr (x, e) ↦ rw e (omega arith)
  ]
  apply_root_version (feed_timestamp bytes now) s = ground arith
  apply_root_version (feed_snapshot bytes now) s = ground arith
  apply_root_version (feed_targets bytes now) s = ground arith
  apply_root_version (feed_delegated bytes role_name delegator_name now) s = ground arith

  -- Over any sequence of updates, either the root's version rises, or the root stays, the trusted
  -- timestamp's version does not fall, and every file that the trusted snapshot pins stays pinned at a
  -- version that does not fall. The sequence is too short for the root's u64 version to wrap.
  pub run-NoRollback :
      (ops : List Op) (s : TrustedMetadataSet)
      → s.root.signed.version + length ops < 2 ^ 64
      → NoRollback s (run c p ops s)
  unfolding run
  run-NoRollback [] s b = NoRollback-refl s
  run-NoRollback (op ∷ ops) s b =
      NoRollback-trans s (apply c p op s).1 (run c p ops (apply c p op s).1)
        (apply-NoRollback op s (omega arith))
        (run-NoRollback ops (apply c p op s).1 (omega (arith, apply_root_version op s)))
