-- ===== src/Tuf/Client/Operations.antt =====
-- Each operation of the updater of crates/sigstore-tuf/src/client.rs moves the trusted metadata by
-- guarded updates only, whatever the repository and the store answer.
use sigstore_rust.Common.{
  ℕ, zero, suc, ◌+◌, List, [], Option, none, some, Bytes, Str, ◌≡◌, refl, lookup,
}
use sigstore_rust.Common.Fallible.{ok, err}
use sigstore_rust.Tuf.Error.{Result, equal_version, malformed}
use sigstore_rust.Tuf.Key.{Crypto}
use sigstore_rust.Tuf.Metadata.{TargetFile, Parsers, target}
use sigstore_rust.Tuf.Trusted.{TrustedMetadataSet, update_root}
use sigstore_rust.Tuf.Trusted.Steps.{feed_root, apply, run}
use sigstore_rust.Tuf.Client.{Repository, MetadataStore, on_trusted}
use sigstore_rust.Tuf.Client.Refresh.{
  root_loop, refresh_root, seed_lower_from_store, refresh_timestamp, after_timestamp, seed,
  refresh_snapshot, fetch_targets_metadata, refresh_targets, refresh,
}
use sigstore_rust.Tuf.Metadata.{Targets, Metadata}
use sigstore_rust.Tuf.Trusted.{next_version}
use sigstore_rust.Common.{set_insert, inl, inr, Option-cases}
use sigstore_rust.Common.Fallible.{Result-cases}
use sigstore_rust.Tuf.Client.Guarded.{
  Reaches, Reaches-trans, Reaches-apply, IsGuarded, bind-IsGuarded, pure-IsGuarded, fail-IsGuarded,
  lift-IsGuarded, quiet, reads-IsGuarded, fetch_metadata-IsGuarded, cache_put-IsGuarded,
  timestamp_step, snapshot_step, targets_step, option-IsGuarded, if-IsGuarded, elim-IsGuarded,
  guarded,
}
use sigstore_rust.Tuf.Client.Refresh.{history_name, targets_pin, adopt_roots}
use sigstore_rust.Tuf.Client.Resolve.{
  Glob, Visit, load_role, ensure_loaded, walk, get_targetinfo, fetch_target, download_target,
  get_target, next_visit, next_list,
}

module _ (c : Crypto) (p : Parsers) where
  module _ {S R : Type 0} (ms : MetadataStore S) (repo : Repository R) where
    root_loop-IsGuarded : (count next : ℕ) → IsGuarded c p (root_loop ms repo c p count next)
    unfolding root_loop
    root_loop-IsGuarded zero next = fail-IsGuarded c p _ _ _ _
    root_loop-IsGuarded (suc count) next = bind-IsGuarded c p _ _ (reads-IsGuarded c p _) (λ n.
        bind-IsGuarded c p _ _ (fetch_metadata-IsGuarded c p ms repo _ _) (λ found.
          option-IsGuarded c p found _ _ (pure-IsGuarded c p _ _ _)
            (λ bytes. search (guarded, root_loop-IsGuarded count (next + 1)) depth 16)))

    after_timestamp-IsGuarded :
        (bytes : Bytes) (r : Result (Unit {0}))
        → IsGuarded c p {R = R} (after_timestamp ms repo c p bytes r)
    after_timestamp-IsGuarded bytes (ok done) = cache_put-IsGuarded c p ms repo _ _
    after_timestamp-IsGuarded bytes (err e) =
        elim e as (λ k. IsGuarded c p {R = R} (after_timestamp ms repo c p bytes (err k))) [
          | equal_version role version ↦ pure-IsGuarded c p _ _ _
          | other ↦ fail-IsGuarded c p _ _ _ _
        ]

    refresh_timestamp-IsGuarded : (now : ℕ) → IsGuarded c p (refresh_timestamp ms repo c p now)
    unfolding refresh_timestamp
    refresh_timestamp-IsGuarded now = search (guarded, after_timestamp-IsGuarded) depth 16

    refresh_snapshot-IsGuarded : (now : ℕ) → IsGuarded c p (refresh_snapshot ms repo c p now)
    unfolding refresh_snapshot
    refresh_snapshot-IsGuarded now = search guarded depth 24

    fetch_targets_metadata-IsGuarded :
        (role_name : Str) → IsGuarded c p (fetch_targets_metadata ms repo c p role_name)
    unfolding fetch_targets_metadata
    fetch_targets_metadata-IsGuarded role_name = search guarded depth 16

    refresh_targets-IsGuarded : (now : ℕ) → IsGuarded c p (refresh_targets ms repo c p now)
    unfolding refresh_targets
    refresh_targets-IsGuarded now = search (guarded, fetch_targets_metadata-IsGuarded) depth 24

    refresh_root-IsGuarded : IsGuarded c p (refresh_root ms repo c p)
    unfolding refresh_root
    refresh_root-IsGuarded = search (guarded, root_loop-IsGuarded) depth 16

    seed-IsGuarded :
        (name : Str) (update : TrustedMetadataSet → Bytes → Result (Unit {0}) × TrustedMetadataSet)
        (store : Option S)
        → ((bytes : Bytes) → IsGuarded c p (on_trusted {S = S} {R = R} (λ s. update s bytes)))
        → IsGuarded c p {R = R} (seed ms repo c p name update store)
    seed-IsGuarded name update none h = pure-IsGuarded c p _ _ _
    seed-IsGuarded name update (some s) h =
        option-IsGuarded c p (ms.load s name) _ _ (pure-IsGuarded c p _ _ _)
          (λ bytes. search (guarded, h) depth 8)

    seed_lower_from_store-IsGuarded :
        (now : ℕ) → IsGuarded c p (seed_lower_from_store ms repo c p now)
    unfolding seed_lower_from_store
    seed_lower_from_store-IsGuarded now = bind-IsGuarded c p _ _ (reads-IsGuarded c p _) (λ store.
        bind-IsGuarded c p _ _ (seed-IsGuarded _ _ store (λ b. timestamp_step c p _ _ b now)) (λ _.
          bind-IsGuarded c p _ _ (seed-IsGuarded _ _ store (λ b. snapshot_step c p _ _ b now))
            (λ _. seed-IsGuarded _ _ store (λ b. targets_step c p _ _ b now))))

    pub refresh-IsGuarded : (now : ℕ) → IsGuarded c p (refresh ms repo c p now)
    unfolding refresh
    refresh-IsGuarded now =
        search
          (
            guarded, refresh_root-IsGuarded, seed_lower_from_store-IsGuarded,
            refresh_timestamp-IsGuarded, refresh_snapshot-IsGuarded, refresh_targets-IsGuarded,
          )
          depth 24

    load_role-IsGuarded :
        (role delegator : Str) (now : ℕ) → IsGuarded c p (load_role ms repo c p role delegator now)
    unfolding load_role
    load_role-IsGuarded role delegator now =
        search (guarded, fetch_targets_metadata-IsGuarded) depth 16

    ensure_loaded-IsGuarded :
        (role delegator : Str) (now : ℕ)
        → IsGuarded c p (ensure_loaded ms repo c p role delegator now)
    unfolding ensure_loaded
    ensure_loaded-IsGuarded role delegator now =
        bind-IsGuarded c p _ _ (reads-IsGuarded c p _) (λ trusted.
          if-IsGuarded c p _ _ _ (pure-IsGuarded c p _ _ _) (
            option-IsGuarded c p (targets_pin trusted role) _ _ (pure-IsGuarded c p _ _ _)
              (λ pin. search (guarded, load_role-IsGuarded) depth 16)))

    module _ (glob : Glob) where
      walk-IsGuarded :
          (path : Str) (now left : ℕ) (to_visit : List Visit) (visited : List Str)
          → IsGuarded c p (walk ms repo c p glob path now left to_visit visited)
      unfolding walk
      walk-IsGuarded path now zero to_visit visited = pure-IsGuarded c p _ _ _
      walk-IsGuarded path now (suc left) to_visit visited =
          option-IsGuarded c p (next_visit visited to_visit) _ _ (pure-IsGuarded c p _ _ none)
            (λ (v : Visit × List Visit).
              bind-IsGuarded c p _ _ (ensure_loaded-IsGuarded v.0.0 v.0.1 now) (λ loaded.
                elim-IsGuarded c p loaded _ _ (walk-IsGuarded path now left v.1 visited) (
                  bind-IsGuarded c p _ _ (reads-IsGuarded c p (λ u. lookup v.0.0 u.trusted.targets))
                    (λ (found : Option (Metadata Targets)).
                      option-IsGuarded c p found _ _ (fail-IsGuarded c p _ _ _ malformed)
                        (λ (m : Metadata Targets).
                          option-IsGuarded c p (target m.signed path) _ _
                            (bind-IsGuarded c p _ _
                              (lift-IsGuarded c p _ _ (next_list c glob path v.0.0 m.signed v.1))
                              (λ next.
                                walk-IsGuarded path now left next (set_insert v.0.0 visited)))
                            (λ info. pure-IsGuarded c p _ _ (some info)))))))

      get_targetinfo-IsGuarded :
          (path : Str) (now : ℕ) → IsGuarded c p (get_targetinfo ms repo c p glob path now)
      unfolding get_targetinfo
      get_targetinfo-IsGuarded path now = search (guarded, walk-IsGuarded) depth 16

    fetch_target-IsGuarded :
        (path : Str) (max_length : ℕ) → IsGuarded c p (fetch_target ms repo c p path max_length)
    unfolding fetch_target
    fetch_target-IsGuarded path max_length = quiet c p _ (λ u. refl)

    download_target-IsGuarded :
        (target : TargetFile) (path : Str) → IsGuarded c p (download_target ms repo c p target path)
    unfolding download_target
    download_target-IsGuarded target path = search (guarded, fetch_target-IsGuarded) depth 24

    pub get_target-IsGuarded :
        (glob : Glob) (path : Str) (now : ℕ) → IsGuarded c p (get_target ms repo c p glob path now)
    unfolding get_target
    get_target-IsGuarded glob path now =
        bind-IsGuarded c p _ _ (get_targetinfo-IsGuarded glob path now) (λ found.
          bind-IsGuarded c p _ _ (lift-IsGuarded c p _ _ _) (λ info.
            bind-IsGuarded c p _ _ (reads-IsGuarded c p _) (λ cached.
              option-IsGuarded c p cached _ _ (download_target-IsGuarded info path)
                (λ bytes. pure-IsGuarded c p _ _ _))))

    some_inj : {s t : TrustedMetadataSet} → some s ≡ some t → s ≡ t
    some_inj e = cc

    pub adopt_roots-Reaches :
        (fuel : ℕ) (store : S) (s t : TrustedMetadataSet)
        → adopt_roots ms repo c p fuel store s ≡ some t
        → Reaches c p s t
    unfolding adopt_roots apply run
    adopt_roots-Reaches zero store s t e = cc
    adopt_roots-Reaches (suc fuel) store s t e =
        elim (Option-cases (ms.load store (history_name (next_version s.root.signed.version)))) [
          | inl missing ↦ ([], some_inj (rw (missing, adopt_roots) at e))
          | inr (bytes, found) ↦ elim (Result-cases (update_root c p s bytes).0) [
            | inl (done, accepted) ↦
                Reaches-trans c p s (update_root c p s bytes).1 t
                  (Reaches-apply c p (feed_root bytes) s)
                  (adopt_roots-Reaches fuel store _ t (rw (found, accepted, adopt_roots) at e))
            | inr (x, refused) ↦ ([], some_inj (rw (found, refused, adopt_roots) at e))
          ]
        ]
