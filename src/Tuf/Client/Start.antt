-- ===== src/Tuf/Client/Start.antt =====
-- `with_store` of crates/sigstore-tuf/src/client.rs: the loop over the cached roots ends.
use sigstore_rust.Common.{
  ℕ, zero, suc, ◌+◌, ◌^◌, ◌<◌, none, some, Bytes, ◌≡◌, refl, arith, inl, inr, Option-cases, ap, ◌∙◌,
}
use sigstore_rust.Common.Fallible.{Result-cases}
use sigstore_rust.Tuf.Key.{Crypto}
use sigstore_rust.Tuf.Metadata.{Parsers}
use sigstore_rust.Tuf.Trusted.{TrustedMetadataSet, update_root, next_version}
use sigstore_rust.Tuf.Trusted.Authority.{update_root_ok}
use sigstore_rust.Tuf.Client.{Repository, MetadataStore, Updater}
use sigstore_rust.Tuf.Client.Refresh.{history_name, adopt_roots, with_store}

module _ {S R : Type 0} (ms : MetadataStore S) (repo : Repository R) (c : Crypto)
    (p : Parsers) where
  next_version_lem : (v : ℕ) → v + 1 < 2 ^ 64 → next_version v ≡ v + 1
  next_version_lem v h = omega arith

  -- A root that was adopted leaves one version less to look for.
  one_less :
      (k : ℕ) (store : S) (s t : TrustedMetadataSet) (bytes : Bytes)
      → s.root.signed.version + suc k < 2 ^ 64
      → ms.load store (history_name (s.root.signed.version + suc k)) ≡ none
      → ms.load store (history_name (next_version s.root.signed.version)) ≡ some bytes
      → t.root.signed.version ≡ next_version s.root.signed.version
      → (j : ℕ) × (k ≡ suc j) × (t.root.signed.version + suc j ≡ s.root.signed.version + suc k)
  one_less zero store s t bytes b e found v = absurd (
      cc (
        rw (ap (λ n. ms.load store (history_name n)) (next_version_lem s.root.signed.version b)) at
            found,
        e,
      ))
  one_less (suc j) store s t bytes b e found v =
      (j, refl, omega (arith, v, next_version_lem s.root.signed.version (omega arith)))

  adopt_roots_total :
      (k fuel : ℕ) (store : S) (s : TrustedMetadataSet)
      → k < fuel
      → s.root.signed.version + suc k < 2 ^ 64
      → ms.load store (history_name (s.root.signed.version + suc k)) ≡ none
      → (t : TrustedMetadataSet) × (adopt_roots ms repo c p fuel store s ≡ some t)
  unfolding adopt_roots
  adopt_roots_total k zero store s h b e = absurd (omega arith)
  adopt_roots_total k (suc fuel) store s h b e =
      elim (Option-cases (ms.load store (history_name (next_version s.root.signed.version)))) [
        | inl missing ↦ (s, rw (missing, adopt_roots) refl)
        | inr (bytes, found) ↦ elim (Result-cases (update_root c p s bytes).0) [
          | inr (x, refused) ↦ (s, rw (found, refused, adopt_roots) refl)
          | inl (done, accepted) ↦
              let after = (update_root c p s bytes).1 in
              let (j, is_suc, same) =
                one_less k store s after bytes b e found (update_root_ok c p s bytes accepted).0 in
              let (t, run) =
                adopt_roots_total j fuel store after (omega arith) (omega arith)
                  (ap (λ n. ms.load store (history_name n)) same ∙ e) in
              (t, rw (found, accepted, adopt_roots) run)
        ]
      ]

  -- The loop over the cached roots ends within `fuel` steps, and the updater has the store, if the store
  -- lacks one of the next `fuel` versions after the trusted root's, below the u64 limit.
  pub with_store_total :
      (k fuel : ℕ) (u : Updater S R) (store : S)
      → k < fuel
      → u.trusted.root.signed.version + suc k < 2 ^ 64
      → ms.load store (history_name (u.trusted.root.signed.version + suc k)) ≡ none
      → (v : Updater S R) × (with_store ms repo c p fuel u store ≡ some v) × (v.store ≡ some store)
  unfolding with_store
  with_store_total k fuel u store h b e =
      let (t, run) = adopt_roots_total k fuel store u.trusted h b e in
      (record u { trusted = t; store = some store }, rw (run, with_store) refl, refl)
