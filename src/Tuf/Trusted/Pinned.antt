-- ===== src/Tuf/Trusted/Pinned.antt =====
-- Every trusted targets role is one that the trusted snapshot pins, at the pinned version.
use sigstore_rust.Common.{
  ℕ, List, [], ◌∷◌, Option, none, some, Bytes, Str, Map, bytes_eq, lookup, insert, All, ◌≡◌, refl,
  arith, inl, inr, Bool-cases,
}
use mathlib.Core.Path.{subst, sym}
use mathlib.Core.Option.{some-injective}
use sigstore_rust.Common.Fallible.{ok, Result-cases}
use sigstore_rust.Tuf.Key.{Crypto}
use sigstore_rust.Tuf.Metadata.{MetaFile, Targets, Snapshot, Timestamp, Metadata, Parsers}
use sigstore_rust.Tuf.Trusted.{TrustedMetadataSet, json_name, update_root, checked_root, from_root}
use sigstore_rust.Tuf.Trusted.Roles.{
  checked_timestamp, checked_snapshot, checked_targets, checked_delegated, verify_targets_pin,
  update_timestamp, update_snapshot, update_targets, update_delegated_targets,
}
use sigstore_rust.Tuf.Trusted.Accepted.{
  checked_snapshot_ok, verify_targets_pin_ok, checked_targets_ok, checked_delegated_ok,
}
use sigstore_rust.Tuf.Trusted.Steps.{
  Op, feed_root, feed_timestamp, feed_snapshot, feed_targets, feed_delegated, apply, run,
}

-- The snapshot pins the role of the entry at the entry's version.
abbrev pub Pins : Snapshot → Str × Metadata Targets → Type 0
Pins snap (name, m) =
    (pin : MetaFile) × (lookup (json_name name) snap.meta ≡ some pin)
    × (m.signed.version ≡ pin.version)

-- With no snapshot no targets are trusted, and with no timestamp no snapshot.
abbrev pub Chained :
    Option (Metadata Timestamp) → Option (Metadata Snapshot) → Map (Metadata Targets) → Type 0
Chained none none ts = ts ≡ []
Chained none (some snap) ts = ⊥
Chained (some t) none ts = ts ≡ []
Chained (some t) (some snap) ts = All (Pins snap.signed) ts

abbrev pub IsPinned : TrustedMetadataSet → Type 0
IsPinned s = Chained s.timestamp s.snapshot s.targets

insert-Pins :
    (snap : Snapshot) (name : Str) (m : Metadata Targets) (ts : Map (Metadata Targets))
    → Pins snap (name, m)
    → All (Pins snap) ts
    → All (Pins snap) (insert name m ts)
insert-Pins snap name m [] h a = (h, tt)
insert-Pins snap name m ((j, n) ∷ ts) h a = elim (Bool-cases (bytes_eq j name)) [
  | inl same ↦ rw same (h, a.1)
  | inr other ↦ rw other (a.0, insert-Pins snap name m ts h a.1)
]

Chained-timestamp :
    (t : Option (Metadata Timestamp)) (new : Metadata Timestamp) (snap : Option (Metadata Snapshot))
    (ts : Map (Metadata Targets))
    → Chained t snap ts
    → Chained (some new) snap ts
Chained-timestamp none new none ts h = h
Chained-timestamp none new (some snap) ts h = absurd h
Chained-timestamp (some t) new none ts h = h
Chained-timestamp (some t) new (some snap) ts h = h

Chained-snapshot :
    (t : Option (Metadata Timestamp)) (snap : Metadata Snapshot) {ts : Metadata Timestamp}
    → t ≡ some ts
    → Chained t (some snap) []
Chained-snapshot none snap e = cc
Chained-snapshot (some t) snap e = tt

Chained-targets :
    (t : Option (Metadata Timestamp)) (snap : Option (Metadata Snapshot))
    (ts : Map (Metadata Targets)) {sn : Metadata Snapshot} (name : Str) (m : Metadata Targets)
    → snap ≡ some sn
    → Pins sn.signed (name, m)
    → Chained t snap ts
    → Chained t snap (insert name m ts)
Chained-targets t none ts name m e h k = cc
Chained-targets none (some sn') ts name m e h k = absurd k
Chained-targets (some t) (some sn') ts name m e h k =
    insert-Pins sn'.signed name m ts
      (subst (λ (z : Metadata Snapshot). Pins z.signed (name, m)) (sym (some-injective _ _ e)) h) k

Chained-empty :
    (t : Option (Metadata Timestamp)) (snap : Option (Metadata Snapshot))
    (ts : Map (Metadata Targets))
    → t ≡ none
    → snap ≡ none
    → ts ≡ []
    → Chained t snap ts
Chained-empty none none ts h k e = e
Chained-empty none (some snap) ts h k e = absurd (cc)
Chained-empty (some t) snap ts h k e = absurd (cc)

module _ (c : Crypto) (p : Parsers) where
  from_root-IsPinned :
      (bytes : Bytes) (s : TrustedMetadataSet) → from_root c p bytes ≡ ok s → IsPinned s
  unfolding from_root
  from_root-IsPinned bytes s e =
      Chained-empty s.timestamp s.snapshot s.targets (ground arith) (ground arith) (ground arith)

  insert-IsPinned :
      (s : TrustedMetadataSet) (bytes name : Bytes) (now : ℕ) (new : Metadata Targets)
      → verify_targets_pin c p s bytes name now ≡ ok new
      → IsPinned s
      → Chained s.timestamp s.snapshot (insert name new s.targets)
  insert-IsPinned s bytes name now new e h =
      let r = verify_targets_pin_ok c p s bytes name now new e in
      Chained-targets s.timestamp s.snapshot s.targets name new r.2 (r.1, r.3, r.4) h

  apply-IsPinned : (op : Op) (s : TrustedMetadataSet) → IsPinned s → IsPinned (apply c p op s).1
  unfolding apply update_root update_timestamp update_snapshot update_targets
      update_delegated_targets
  apply-IsPinned (feed_root bytes) s h = elim (Result-cases (checked_root c p s bytes)) [
    | inl (new, e) ↦ rw e refl
    | inr (x, e) ↦ rw e h
  ]
  apply-IsPinned (feed_timestamp bytes now) s h =
      elim (Result-cases (checked_timestamp c p s bytes now)) [
        | inl (new, e) ↦ rw e (Chained-timestamp s.timestamp new s.snapshot s.targets h)
        | inr (x, e) ↦ rw e h
      ]
  apply-IsPinned (feed_snapshot bytes now) s h =
      elim (Result-cases (checked_snapshot c p s bytes now)) [
        | inl (new, e) ↦
            rw e (Chained-snapshot s.timestamp new (checked_snapshot_ok c p s bytes now new e).2)
        | inr (x, e) ↦ rw e h
      ]
  apply-IsPinned (feed_targets bytes now) s h =
      elim (Result-cases (checked_targets c p s bytes now)) [
        | inl (new, e) ↦
            rw e (insert-IsPinned s bytes _ now new (checked_targets_ok c p s bytes now new e).0 h)
        | inr (x, e) ↦ rw e h
      ]
  apply-IsPinned (feed_delegated bytes role_name delegator_name now) s h =
      elim (Result-cases (checked_delegated c p s bytes role_name delegator_name now)) [
        | inl (new, e) ↦ rw e (
            insert-IsPinned s bytes role_name now new
              (checked_delegated_ok c p s bytes role_name delegator_name now new e).4 h)
        | inr (x, e) ↦ rw e h
      ]

  -- After any sequence of updates from a bootstrap root: no targets are trusted without a snapshot, no
  -- snapshot without a timestamp, and every trusted targets role is pinned by the trusted snapshot,
  -- under its own file name and at its own version.
  pub run-IsPinned :
      (ops : List Op) (bytes : Bytes) (s : TrustedMetadataSet)
      → from_root c p bytes ≡ ok s
      → IsPinned (run c p ops s)
  unfolding run
  run-IsPinned ops bytes s e = go ops s (from_root-IsPinned bytes s e)
    where
      go : (ops' : List Op) (s' : TrustedMetadataSet) → IsPinned s' → IsPinned (run c p ops' s')
      go [] s' h = h
      go (op ∷ ops') s' h = go ops' (apply c p op s').1 (apply-IsPinned op s' h)
