-- ===== src/Tuf/Client/Session.antt =====
-- Sessions of the updater of crates/sigstore-tuf/src/client.rs: its start from a bootstrap root and a
-- store, then calls in any order, over a repository and a store that may answer anything.
use sigstore_rust.Common.{
  ℕ, List, [], ◌∷◌, Option, none, some, Bytes, Str, ◌≡◌, refl, inl, inr, Option-cases,
}
use mathlib.Core.Path.{subst}
use sigstore_rust.Common.Fallible.{ok, err, Result-cases}
use sigstore_rust.Tuf.Key.{Crypto}
use sigstore_rust.Tuf.Metadata.{Parsers}
use sigstore_rust.Tuf.Trusted.{TrustedMetadataSet, from_root}
use sigstore_rust.Tuf.Trusted.Steps.{run}
use sigstore_rust.Tuf.Trusted.Authority.{IsAuthorized, run-IsAuthorized}
use sigstore_rust.Tuf.Trusted.Pinned.{IsPinned, run-IsPinned}
use sigstore_rust.Tuf.Client.{Repository, MetadataStore, Updater}
use sigstore_rust.Tuf.Client.Refresh.{adopt_roots, with_store, new, refresh}
use sigstore_rust.Tuf.Client.Resolve.{Glob, get_target}
use sigstore_rust.Tuf.Client.Guarded.{Reaches, Reaches-trans, IsGuarded}
use sigstore_rust.Tuf.Client.Operations.{
  refresh-IsGuarded, get_target-IsGuarded, adopt_roots-Reaches,
}

pub data Call : Type 0 where
  call_refresh : (now : ℕ) → Call
  call_get_target : (path : Str) → (now : ℕ) → Call

module _ {S R : Type 0} (ms : MetadataStore S) (repo : Repository R) (c : Crypto) (p : Parsers)
    (glob : Glob) where
  -- The updater after a call, whether it succeeds or not.
  unfoldable pub call : Call → Updater S R → Updater S R
  call (call_refresh now) u = (refresh ms repo c p now u).1
  call (call_get_target path now) u = (get_target ms repo c p glob path now u).1

  unfoldable pub session : List Call → Updater S R → Updater S R
  unfolding call
  session [] u = u
  session (k ∷ ks) u = session ks (call k u)

  -- The start: a pinned root, then a store's chain of roots.
  unfoldable pub start_session : (fuel : ℕ) → R → Bytes → S → Option (Updater S R)
  start_session fuel r root_bytes store = elim (new ms repo c p r root_bytes) [
    | err e ↦ none
    | ok u ↦ with_store ms repo c p fuel u store
  ]

  session-Reaches :
      (ks : List Call) (u : Updater S R) → Reaches c p u.trusted (session ks u).trusted
  unfolding session call IsGuarded run
  session-Reaches [] u = ([], refl)
  session-Reaches (call_refresh now ∷ ks) u =
      Reaches-trans c p _ _ _ (refresh-IsGuarded c p ms repo now u) (session-Reaches ks _)
  session-Reaches (call_get_target path now ∷ ks) u =
      Reaches-trans c p _ _ _ (get_target-IsGuarded c p ms repo glob path now u)
        (session-Reaches ks _)

  some_inj : (w v : Updater S R) → some w ≡ some v → w ≡ v
  some_inj w v h = cc

  start_session-Reaches :
      (fuel : ℕ) (r : R) (root_bytes : Bytes) (store : S) (u : Updater S R)
      → start_session fuel r root_bytes store ≡ some u
      → (s : TrustedMetadataSet) × (from_root c p root_bytes ≡ ok s) × Reaches c p s u.trusted
  unfolding start_session new with_store
  start_session-Reaches fuel r root_bytes store u e =
      elim (Result-cases (from_root c p root_bytes)) [
        | inl (s, booted) ↦ elim (Option-cases (adopt_roots ms repo c p fuel store s)) [
          | inl stuck ↦ absurd (cc (rw (booted, stuck, start_session, new, with_store) at e))
          | inr (t, adopted) ↦ (
            s,
            booted,
            arrive s _ (rw (booted, adopted, start_session, new, with_store) at e)
                (adopt_roots-Reaches c p ms repo fuel store s t adopted),
          )
        ]
        | inr (x, refused) ↦ absurd (cc (rw (refused, start_session, new) at e))
      ]
    where
      arrive :
          (s' : TrustedMetadataSet) (w : Updater S R)
          → some w ≡ some u
          → Reaches c p s' w.trusted
          → Reaches c p s' u.trusted
      arrive s' w h k = subst (λ x. Reaches c p s' x.trusted) (some_inj w u h) k

  -- However the repository and the store answer, and whichever calls fail: after the start from a
  -- pinned root and any sequence of calls, every trusted top-level role is signed to the thresholds of
  -- the trusted root, and every trusted targets role is pinned by the trusted snapshot.
  pub session-IsTrusted :
      (fuel : ℕ) (r : R) (root_bytes : Bytes) (store : S) (u : Updater S R) (ks : List Call)
      → start_session fuel r root_bytes store ≡ some u
      → IsAuthorized c (session ks u).trusted × IsPinned (session ks u).trusted
  session-IsTrusted fuel r root_bytes store u ks e =
      let (s, booted, reached) = start_session-Reaches fuel r root_bytes store u e in
      let (ops, same) = Reaches-trans c p _ _ _ reached (session-Reaches ks u) in
      (
        subst (IsAuthorized c) same (run-IsAuthorized c p ops root_bytes s booted),
        subst IsPinned same (run-IsPinned c p ops root_bytes s booted),
      )
