-- ===== src/Tuf/Trusted/Delegated.antt =====
-- What a successful `update_delegated_targets` of crates/sigstore-tuf/src/trusted.rs has done.
use sigstore_rust.Common.{
  ℕ, List, [], ◌∷◌, true, false, some, Bytes, Str, Map, eq_of_bytes_eq, lookup, insert,
  lookup-insert, ◌≡◌, ◌≢◌, refl, arith, inl, inr, Option-cases, All-map, ◌∙◌, bytes_eq_refl,
}
use sigstore_rust.Common.Fallible.{ok, Result-cases}
use sigstore_rust.Tuf.Key.{Key, Crypto}
use sigstore_rust.Tuf.Metadata.{
  RoleKeys, Signature, DelegatedRole, Delegations, Targets, Metadata, Parsers, role_keys,
}
use sigstore_rust.Tuf.Metadata.Threshold.{is_good, verify_threshold}
use sigstore_rust.Tuf.Metadata.Threshold.Loop.{SignedBy, MeetsThreshold, verify_threshold_sound}
use sigstore_rust.Tuf.Trusted.{TrustedMetadataSet, is_top_level_role}
use sigstore_rust.Tuf.Trusted.Roles.{
  select_keys, find_role, delegation_authority, checked_delegated, update_delegated_targets,
}
use sigstore_rust.Tuf.Trusted.Accepted.{checked_delegated_ok}

-- The keys of `sub` are those of `keys`.
abbrev SubMap : Map Key → Map Key → Type 0
SubMap sub keys = (k : Str) (key : Key) → lookup k sub ≡ some key → lookup k keys ≡ some key

insert-SubMap :
    (sub keys : Map Key) (k : Str) (key : Key)
    → lookup k keys ≡ some key
    → SubMap sub keys
    → SubMap (insert k key sub) keys
insert-SubMap sub keys k key e h j v f =
    ground (arith, lookup-insert k j key sub, eq_of_bytes_eq k j, h j v)

select_keys-SubMap :
    (kids : List Str) (keys acc : Map Key)
    → SubMap acc keys
    → SubMap (select_keys kids keys acc) keys
unfolding select_keys
select_keys-SubMap [] keys acc h = h
select_keys-SubMap (kid ∷ kids) keys acc h = elim (Option-cases (lookup kid keys)) [
  | inl missing ↦ rw missing (select_keys-SubMap kids keys acc h)
  | inr (key, found) ↦
      rw found
        (select_keys-SubMap kids keys (insert kid key acc) (insert-SubMap acc keys kid key found h))
]

module _ (c : Crypto) (sub keys : Map Key) (canonical : Bytes) (h : SubMap sub keys) where
  is_good-SubMap :
      (s : Signature) → is_good c sub canonical s ≡ true → is_good c keys canonical s ≡ true
  unfolding is_good
  is_good-SubMap s e = elim (Option-cases (lookup s.keyid sub)) [
    | inl missing ↦ absurd (ground arith)
    | inr (key, found) ↦ ground (arith, h s.keyid key found)
  ]

  SignedBy-SubMap :
      (sigs : List Signature) (k : Str)
      → SignedBy c sub canonical sigs k
      → SignedBy c keys canonical sigs k
  SignedBy-SubMap [] k e = e
  SignedBy-SubMap (s ∷ sigs) k (inl e) = inl (e.0, e.1, is_good-SubMap s e.2)
  SignedBy-SubMap (s ∷ sigs) k (inr e) = inr (SignedBy-SubMap sigs k e)

  MeetsThreshold-SubMap :
      (r : RoleKeys) (sigs : List Signature)
      → MeetsThreshold c sub canonical r sigs
      → MeetsThreshold c keys canonical r sigs
  MeetsThreshold-SubMap r sigs (ks, one, enough, distinct, signed) =
      (ks, one, enough, distinct, All-map ks (λ k e. (e.0, SignedBy-SubMap sigs k e.1)) signed)

-- The trusted role `delegator_name` delegates `role_name`, and the envelope meets the threshold of
-- that delegation, with the keys that the delegator declares.
abbrev pub DelegatedBy : Crypto → TrustedMetadataSet → Str → Str → Metadata Targets → Type 0
DelegatedBy c s delegator_name role_name m =
    (delegator : Metadata Targets) × (d : Delegations) × (r : DelegatedRole) × (lookup
        delegator_name s.targets
      ≡ some delegator)
    × (delegator.signed.delegations ≡ some d)
    × (find_role role_name d.roles ≡ some r)
    × MeetsThreshold c d.keys m.canonical_signed (role_keys r) m.signatures

delegation_authority-DelegatedBy :
    (c : Crypto) (s : TrustedMetadataSet) (delegator_name role_name : Str) (keys : Map Key)
    (role : RoleKeys) (m : Metadata Targets)
    → delegation_authority s delegator_name role_name ≡ ok (keys, role)
    → verify_threshold c m keys role role_name ≡ ok tt
    → DelegatedBy c s delegator_name role_name m
unfolding delegation_authority
delegation_authority-DelegatedBy c s delegator_name role_name keys role m e v =
    elim (Option-cases (lookup delegator_name s.targets)) [
      | inl missing ↦ absurd (ground arith)
      | inr (delegator, trusted) ↦ elim (Option-cases delegator.signed.delegations) [
        | inl nothing ↦ absurd (ground arith)
        | inr (d, delegates) ↦ elim (Option-cases (find_role role_name d.roles)) [
          | inl unknown ↦ absurd (ground arith)
          | inr (r, found) ↦
              let sub = select_keys r.keyids d.keys [] in
              let same_keys : keys ≡ sub = ground arith in
              let same_role : role ≡ role_keys r = ground arith in
              let verified : verify_threshold c m sub (role_keys r) role_name ≡ ok tt = cc in
              (
                delegator,
                d,
                r,
                trusted,
                delegates,
                found,
                MeetsThreshold-SubMap c sub d.keys m.canonical_signed
                    (select_keys-SubMap r.keyids d.keys [] (λ k key f. cc)) (role_keys r)
                    m.signatures (verify_threshold_sound c m sub (role_keys r) role_name verified),
              )
        ]
      ]
    ]

module _ (c : Crypto) (p : Parsers) where
  -- A delegated file that is accepted under `role_name` was signed to the threshold of the delegation of
  -- that name in the trusted role `delegator_name`, by keys that the delegator declares. The name is no
  -- top-level role's. Only the entry `role_name` of the trusted targets changes, and nothing else.
  pub update_delegated_targets_ok :
      (s : TrustedMetadataSet) (bytes role_name delegator_name : Bytes) (now : ℕ)
      → (update_delegated_targets c p s bytes role_name delegator_name now).0 ≡ ok tt
      → let t = (update_delegated_targets c p s bytes role_name delegator_name now).1 in
        (m : Metadata Targets) × (is_top_level_role role_name ≡ false)
        × DelegatedBy c s delegator_name role_name m
        × (lookup role_name t.targets ≡ some m)
        × ((j : Str) → j ≢ role_name → lookup j t.targets ≡ lookup j s.targets)
        × (t.root ≡ s.root)
        × (t.timestamp ≡ s.timestamp)
        × (t.snapshot ≡ s.snapshot)
  unfolding update_delegated_targets
  update_delegated_targets_ok s bytes role_name delegator_name now e =
      elim (Result-cases (checked_delegated c p s bytes role_name delegator_name now)) [
        | inl (m, done) ↦
            let r = checked_delegated_ok c p s bytes role_name delegator_name now m done in
            rw done (
              m,
              r.2,
              delegation_authority-DelegatedBy c s delegator_name role_name r.0 r.1 m r.3 r.5,
              lookup-insert role_name role_name m s.targets ∙ rw bytes_eq_refl,
              (λ j ne. others j ne m),
              refl,
              refl,
              refl,
            )
        | inr (x, failed) ↦ absurd (ground arith)
      ]
    where
      others :
          (j : Str)
          → j ≢ role_name
          → (m : Metadata Targets) → lookup j (insert role_name m s.targets) ≡ lookup j s.targets
      others j ne m =
          ground (arith, lookup-insert role_name j m s.targets, eq_of_bytes_eq role_name j)
