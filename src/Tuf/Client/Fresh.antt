-- ===== src/Tuf/Client/Fresh.antt =====
-- `refresh` of crates/sigstore-tuf/src/client.rs: what a success leaves trusted.
use sigstore_rust.Common.{
  ℕ, true, false, Option, none, some, Bytes, Str, str, ◌≡◌, refl, lookup, lookup-insert, arith, inl,
  inr, ◌∙◌, ap,
}
use sigstore_rust.Common.Fallible.{ok, Result-cases}
use sigstore_rust.Tuf.Key.{Crypto}
use sigstore_rust.Tuf.Metadata.{Targets, Metadata, Parsers, targets_role, is_expired}
use sigstore_rust.Tuf.Trusted.{TrustedMetadataSet, ensure_not_expired}
use sigstore_rust.Tuf.Trusted.Roles.{update_targets, checked_targets}
use sigstore_rust.Tuf.Trusted.Accepted.{checked_targets_ok}
use sigstore_rust.Tuf.Client.{
  Repository, MetadataStore, Updater, on_trusted, ◌>>=◌, ◌>>◌, cache_put,
}
use sigstore_rust.Tuf.Client.Files.{is_current}
use sigstore_rust.Tuf.Client.Refresh.{refresh_targets, refresh}
use sigstore_rust.Tuf.Client.Ensures.{
  Ensures, EnsuresAt, bind-Ensures, reads-Ensures, at_state, pure-EnsuresAt, apply_Ensures,
  continue-Ensures, lift-EnsuresAt, if-EnsuresAt,
}

module _ (c : Crypto) (p : Parsers) where
  -- The top-level targets are trusted and have not expired at `now`.
  abbrev pub IsFresh : ℕ → TrustedMetadataSet → Type 0
  IsFresh now s =
      (m : Metadata Targets) × (lookup (str "targets") s.targets ≡ some m)
      × (is_expired p (targets_role p) m.signed now ≡ ok false)

  is_current_ok :
      (now : ℕ) (s : TrustedMetadataSet) (pin : Option ℕ)
      → is_current p (targets_role p) (lookup (str "targets") s.targets) pin now ≡ ok true
      → IsFresh now s
  unfolding is_current
  is_current_ok now s pin e = by_role (lookup (str "targets") s.targets) pin refl e
    where
      by_role :
          (o : Option (Metadata Targets)) (pin' : Option ℕ)
          → lookup (str "targets") s.targets ≡ o
          → is_current p (targets_role p) o pin' now ≡ ok true
          → IsFresh now s
      by_role none pin' h d = cc
      by_role (some m) none h d = cc
      by_role (some m) (some v) h d = (m, h, ground arith)

  not_expired :
      (now : ℕ) (m : Metadata Targets)
      → ensure_not_expired c p (targets_role p) m.signed (str "targets") now ≡ ok tt
      → is_expired p (targets_role p) m.signed now ≡ ok false
  unfolding ensure_not_expired
  not_expired now m e = ground arith

  update_targets-IsFresh :
      (now : ℕ) (s : TrustedMetadataSet) (bytes : Bytes)
      → (update_targets c p s bytes now).0 ≡ ok tt
      → IsFresh now (update_targets c p s bytes now).1
  unfolding update_targets ensure_not_expired
  update_targets-IsFresh now s bytes e = elim (Result-cases (checked_targets c p s bytes now)) [
    | inl (new, done) ↦
        rw (done, update_targets)
          (
            new,
            lookup-insert (str "targets") (str "targets") new s.targets,
            not_expired now new (checked_targets_ok c p s bytes now new done).2,
          )
    | inr (x, failed) ↦ absurd (cc (rw (failed, update_targets) at e))
  ]

  module _ {S R : Type 0} (ms : MetadataStore S) (repo : Repository R) where
    kept :
        (now : ℕ) (name : Str) (bytes : Bytes) (u : Updater S R)
        → IsFresh now u.trusted
        → EnsuresAt (λ _ v. IsFresh now v.trusted) (cache_put ms name bytes) u
    unfolding EnsuresAt cache_put
    kept now name bytes u h a e = h

    adopted :
        (now : ℕ) (name : Str) (bytes : Bytes)
        → Ensures
            (λ _ v. IsFresh now v.trusted)
            (on_trusted {S = S} {R = R} (λ s. update_targets c p s bytes now)
              >> cache_put ms name bytes)
    unfolding Ensures EnsuresAt ◌>>=◌ on_trusted
    adopted now name bytes u a e =
        continue-Ensures (λ _ v. IsFresh now v.trusted) _ (λ _. cache_put ms name bytes) a
          (λ _ done d. at_put done a d) e
      where
        at_put :
            (update_targets c p u.trusted bytes now).0 ≡ ok tt
            → EnsuresAt
                (λ _ v. IsFresh now v.trusted)
                (cache_put ms name bytes)
                (record u { trusted = (update_targets c p u.trusted bytes now).1 })
        at_put done = kept now name bytes _ (update_targets-IsFresh now u.trusted bytes done)

    refresh_targets-Ensures :
        (now : ℕ) → Ensures (λ _ v. IsFresh now v.trusted) (refresh_targets ms repo c p now)
    unfolding refresh_targets
    refresh_targets-Ensures now = bind-Ensures _ _ _ (λ expiry. bind-Ensures _ _ _ (λ _.
        reads-Ensures _ (λ u. u.trusted) _
          (λ (u : Updater S R). lift-EnsuresAt _ u _ _ (λ current is.
            if-EnsuresAt _ u current _ _
              (λ valid. pure-EnsuresAt _ tt u (is_current_ok now u.trusted _ (is ∙ ap ok valid)))
              (at_state _ _ u
                (bind-Ensures _ _ _ (λ bytes. adopted now (str "targets.json") bytes)))))))

    -- After a refresh that succeeds, the top-level targets are trusted and have not expired at its time.
    pub refresh_ok :
        (now : ℕ) (u : Updater S R)
        → (refresh ms repo c p now u).0 ≡ ok tt
        → IsFresh now (refresh ms repo c p now u).1.trusted
    unfolding refresh
    refresh_ok now u e =
        apply_Ensures (λ _ v. IsFresh now v.trusted) _ u tt
          (bind-Ensures _ _ _ (λ _. bind-Ensures _ _ _ (λ expiry. bind-Ensures _ _ _ (λ _.
            bind-Ensures _ _ _ (λ _.
              bind-Ensures _ _ _ (λ _. bind-Ensures _ _ _ (λ _. refresh_targets-Ensures now)))))))
          e
