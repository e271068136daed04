-- ===== src/Tuf/Client/Download.antt =====
-- The downloads of crates/sigstore-tuf/src/client.rs: what the bytes that a caller gets have passed.
use sigstore_rust.Common.{
  ◌∙◌, ◌++◌, ℕ, zero, suc, List, true, false, Option, none, some, Bytes, Str, str, ◌≡◌, refl,
  lookup, length, All, arith, inl, inr, Option-cases,
}
use mathlib.Core.Path.{subst}
use sigstore_rust.Common.Fallible.{ok, ok_or, Result-cases}
use sigstore_rust.Tuf.Error.{malformed}
use sigstore_rust.Tuf.Key.{Crypto}
use sigstore_rust.Tuf.Metadata.{TargetFile, Targets, Metadata, Parsers, target}
use sigstore_rust.Tuf.Trusted.{check_hashes}
use sigstore_rust.Tuf.Trusted.Integrity.{Agrees, HasSupported, matched}
use sigstore_rust.Tuf.Client.{Repository, MetadataStore, Updater, pure, ◌>>=◌}
use sigstore_rust.Tuf.Client.Files.{verify_target_bytes}
use sigstore_rust.Tuf.Client.Resolve.{
  Glob, Visit, next_visit, walk, find_cached_target, download_target, get_targetinfo, get_target,
}
use sigstore_rust.Tuf.Client.Ensures.{
  Ensures, continue-Ensures, bind-Ensures, reads-Ensures, lift-Ensures, pure-Ensures, fail-Ensures,
  option-Ensures, at_state, pure-EnsuresAt, option-EnsuresAt, apply_Ensures, weaken, elim-Ensures,
}

module _ (c : Crypto) where
  -- The bytes have the pinned length, every pinned hash of a supported algorithm, and there is one.
  abbrev pub IsVerified : TargetFile → Bytes → Type 0
  IsVerified target bytes =
      (length bytes ≡ target.length)
      × All (Agrees c bytes) target.hashes
      × HasSupported c bytes target.hashes

  verify_target_bytes_ok :
      (bytes : Bytes) (target : TargetFile)
      → verify_target_bytes c bytes target ≡ ok tt
      → IsVerified target bytes
  unfolding verify_target_bytes
  verify_target_bytes_ok bytes target e =
      elim (Result-cases (check_hashes c bytes false target.hashes)) [
        | inl (true, h) ↦
            let (agree, known) = matched c bytes target.hashes h in (ground arith, agree, known)
        | inl (false, h) ↦ absurd (ground arith)
        | inr (x, h) ↦ absurd (ground arith)
      ]

  module _ {S R : Type 0} (ms : MetadataStore S) (repo : Repository R) (p : Parsers) where
    download_target-Ensures :
        (target : TargetFile) (path : Str)
        → Ensures (λ bytes _. IsVerified target bytes) (download_target ms repo c p target path)
    unfolding download_target
    download_target-Ensures target path = bind-Ensures _ _ _ (λ max_length. bind-Ensures _ _ _ (λ _.
        bind-Ensures _ _ _ (λ consistent. bind-Ensures _ _ _ (λ relative.
          bind-Ensures _ _ _ (λ found. bind-Ensures _ _ _ (λ bytes.
            lift-Ensures _ _ _ (λ _ verified.
              bind-Ensures _ _ _ (λ _.
                pure-Ensures _ bytes (λ u. verify_target_bytes_ok bytes target verified)))))))))

    some_inj : (a b : Bytes) → some a ≡ some b → a ≡ b
    some_inj a b e = cc

    find_cached_target_ok :
        (u : Updater S R) (target : TargetFile) (path : Str) (bytes : Bytes)
        → find_cached_target ms repo c p u target path ≡ some bytes
        → IsVerified target bytes
    unfolding find_cached_target
    find_cached_target_ok u info path bytes e = elim (Option-cases u.store) [
      | inl no_store ↦ absurd (cc (rw (no_store, find_cached_target) at e))
      | inr (s, held) ↦ elim (Option-cases (ms.load s (str "targets/" ++ path))) [
        | inl missing ↦ absurd (cc (rw (held, missing, find_cached_target) at e))
        | inr (b, loaded) ↦ elim (Result-cases (verify_target_bytes c b info)) [
          | inl (done, v) ↦
              subst (IsVerified info)
                (some_inj b bytes (rw (held, loaded, v, find_cached_target) at e))
                (verify_target_bytes_ok b info v)
          | inr (x, bad) ↦ absurd (cc (rw (held, loaded, bad, find_cached_target) at e))
        ]
      ]
    ]

    from_cache :
        (cached : Option Bytes) (target : TargetFile) (path : Str)
        → ((b : Bytes) → cached ≡ some b → IsVerified target b)
        → Ensures
            (λ bytes _. IsVerified target bytes)
            (elim cached [
              | some bytes ↦ pure bytes
              | none ↦ download_target ms repo c p target path
            ])
    from_cache none target path h = download_target-Ensures target path
    from_cache (some b) target path h = pure-Ensures _ b (λ u. h b refl)

    abbrev pub IsListed : Updater S R → Str → TargetFile → Type 0
    IsListed u path info =
        (role : Str) × (m : Metadata Targets) × (lookup role u.trusted.targets ≡ some m)
        × (target m.signed path ≡ some info)

    ok_or-some :
        (o : Option TargetFile) (info : TargetFile) → ok_or o malformed ≡ ok info → o ≡ some info
    ok_or-some none info e = cc
    ok_or-some (some i) info e = cc

    IsListed-by :
        (u : Updater S R) (path role : Str) (m : Metadata Targets) (info : TargetFile)
        → lookup role u.trusted.targets ≡ some m
        → target m.signed path ≡ some info
        → (other : TargetFile) → some info ≡ some other
        → IsListed u path other
    IsListed-by u path role m info held listed other e = (role, m, held, listed ∙ e)

    module _ (glob : Glob) where
      walk-Ensures :
          (path : Str) (now left : ℕ) (to_visit : List Visit) (visited : List Str)
          → Ensures
              (λ found u. (info : TargetFile) → found ≡ some info → IsListed u path info)
              (walk ms repo c p glob path now left to_visit visited)
      unfolding walk
      walk-Ensures path now zero to_visit visited = pure-Ensures _ none (λ u info e. cc)
      walk-Ensures path now (suc left) to_visit visited =
          option-Ensures _ (next_visit visited to_visit) _ _ (pure-Ensures _ none (λ u info e. cc))
            (λ (v : Visit × List Visit) _. bind-Ensures _ _ _ (λ loaded.
              elim-Ensures _ loaded _ _ (walk-Ensures path now left v.1 visited) (
                reads-Ensures _ (λ u. lookup v.0.0 u.trusted.targets) _
                  (λ u.
                    option-EnsuresAt _ u (lookup v.0.0 u.trusted.targets) _ _
                      (at_state _ _ u (fail-Ensures _ malformed))
                      (λ (m : Metadata Targets) held.
                        option-EnsuresAt _ u (target m.signed path) _ _
                          (at_state _ _ u
                            (bind-Ensures _ _ _ (λ next. walk-Ensures path now left next _)))
                          (λ info listed.
                            pure-EnsuresAt _ (some info) u
                              (IsListed-by u path v.0.0 m info held listed)))))))

      get_targetinfo-Ensures :
          (path : Str) (now : ℕ)
          → Ensures
              (λ found u. (info : TargetFile) → found ≡ some info → IsListed u path info)
              (get_targetinfo ms repo c p glob path now)
      unfolding get_targetinfo
      get_targetinfo-Ensures path now = bind-Ensures _ _ _ (λ found.
          bind-Ensures _ _ _ (λ top. bind-Ensures _ _ _ (λ left. walk-Ensures path now left _ _)))

      -- The bytes are those of the target that the walk from `u` finds for the path.
      abbrev pub IsTarget : Str → ℕ → Updater S R → Bytes → Type 0
      IsTarget path now u bytes =
          (info : TargetFile) × IsListed (get_targetinfo ms repo c p glob path now u).1 path info
          × IsVerified info bytes

      -- Bytes that `get_target` gives come from the cache or the network, and either way: the walk over
      -- the delegations found the path listed by a role that it left trusted, and the bytes have the
      -- listed length and hashes, at least one of a supported algorithm.
      pub get_target_ok :
          (path : Str) (now : ℕ) (u : Updater S R) (bytes : Bytes)
          → (get_target ms repo c p glob path now u).0 ≡ ok bytes
          → IsTarget path now u bytes
      unfolding get_target ◌>>=◌
      get_target_ok path now u bytes e =
          continue-Ensures (λ b _. IsTarget path now u b)
            (get_targetinfo ms repo c p glob path now u) _ bytes
            (λ found ran d.
              apply_Ensures _ _ _ bytes
                (lift-Ensures _ (ok_or found malformed) _ (λ info is.
                  reads-Ensures _ (λ w. find_cached_target ms repo c p w info path) _
                    (λ w. at_state _ _ w (
                      weaken _ (λ b _. IsTarget path now u b) _
                        (λ b v h. (
                          info,
                          apply_Ensures _ _ u found (get_targetinfo-Ensures path now) ran info
                              (ok_or-some found info is),
                          h,
                        ))
                        (from_cache (find_cached_target ms repo c p w info path) info path
                          (find_cached_target_ok w info path))))))
                d)
            e
