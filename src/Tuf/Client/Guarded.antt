-- ===== src/Tuf/Client/Guarded.antt =====
-- Whatever the repository and the store answer, the updater changes its trusted metadata by the guarded
-- updates of crates/sigstore-tuf/src/trusted.rs only.
use sigstore_rust.Common.{
  ℕ, if◌then◌else◌, List, [], ◌∷◌, ◌++◌, Bool, true, false, Option, none, some, Bytes, Str, ◌≡◌,
  refl, sym,
}
use sigstore_rust.Common.Fallible.{ok, err}
use sigstore_rust.Tuf.Error.{Error, Result}
use sigstore_rust.Tuf.Key.{Crypto}
use sigstore_rust.Tuf.Metadata.{Parsers}
use sigstore_rust.Tuf.Trusted.{TrustedMetadataSet, update_root}
use sigstore_rust.Tuf.Trusted.Steps.{
  Op, feed_root, feed_timestamp, feed_snapshot, feed_targets, feed_delegated, apply, run,
}
use sigstore_rust.Tuf.Trusted.Roles.{
  update_timestamp, update_snapshot, update_targets, update_delegated_targets,
}
use sigstore_rust.Tuf.Client.{
  Repository, MetadataStore, Updater, Client, pure, fail, lift, reads, on_trusted, attempt,
  continue, ◌>>=◌, cache_put,
}
use sigstore_rust.Tuf.Client.Refresh.{fetch_metadata}

module _ (c : Crypto) (p : Parsers) where
  abbrev pub Reaches : TrustedMetadataSet → TrustedMetadataSet → Type 0
  Reaches s t = (ops : List Op) × (run c p ops s ≡ t)

  run-append :
      (ops more : List Op) (s : TrustedMetadataSet)
      → run c p (ops ++ more) s ≡ run c p more (run c p ops s)
  unfolding run
  run-append [] more s = refl
  run-append (op ∷ ops) more s = run-append ops more (apply c p op s).1

  pub Reaches-trans : (s t w : TrustedMetadataSet) → Reaches s t → Reaches t w → Reaches s w
  Reaches-trans s t w (ops, e) (more, d) = (ops ++ more, rw (run-append ops more s, e) d)

  pub Reaches-apply : (op : Op) (s : TrustedMetadataSet) → Reaches s (apply c p op s).1
  unfolding run
  Reaches-apply op s = (op ∷ [], refl)

  module _ {S R : Type 0} where
    -- The operation moves the trusted metadata by a sequence of guarded updates.
    unfoldable pub IsGuarded : {A : Type 0} → Client S R A → Type 0
    IsGuarded m = (u : Updater S R) → Reaches u.trusted (m u).1.trusted

    continue-Reaches :
        {A B : Type 0} (s : TrustedMetadataSet) (r : Result A × Updater S R) (f : A → Client S R B)
        → Reaches s r.1.trusted
        → ((a : A) → IsGuarded (f a))
        → Reaches s (continue r f).1.trusted
    unfolding IsGuarded
    continue-Reaches s (ok a, w) f k h = Reaches-trans s w.trusted _ k (h a w)
    continue-Reaches s (err e, w) f k h = k

    pub bind-IsGuarded :
        {A B : Type 0} (m : Client S R A) (f : A → Client S R B)
        → IsGuarded m
        → ((a : A) → IsGuarded (f a))
        → IsGuarded (m >>= f)
    unfolding IsGuarded ◌>>=◌
    bind-IsGuarded m f g h u = continue-Reaches u.trusted (m u) f (g u) h

    pub attempt-IsGuarded : {A : Type 0} (m : Client S R A) → IsGuarded m → IsGuarded (attempt m)
    unfolding IsGuarded attempt
    attempt-IsGuarded m h u = h u

    pub quiet :
        {A : Type 0} (m : Client S R A)
        → ((u : Updater S R) → (m u).1.trusted ≡ u.trusted)
        → IsGuarded m
    unfolding IsGuarded run
    quiet m h u = ([], sym (h u))

    pub reads-IsGuarded : {A : Type 0} (f : Updater S R → A) → IsGuarded (reads f)
    unfolding reads
    reads-IsGuarded f = quiet _ (λ u. refl)

    pub if-IsGuarded :
        {A : Type 0} (b : Bool) (m n : Client S R A)
        → IsGuarded m
        → IsGuarded n
        → IsGuarded (if b then m else n)
    if-IsGuarded true m n g h = g
    if-IsGuarded false m n g h = h

    pub elim-IsGuarded :
        {A : Type 0} (b : Bool) (m n : Client S R A)
        → IsGuarded m
        → IsGuarded n
        → IsGuarded (elim b [ false ↦ m | true ↦ n ])
    elim-IsGuarded false m n g h = g
    elim-IsGuarded true m n g h = h

    pub option-IsGuarded :
        {A B : Type 0} (o : Option B) (m : Client S R A) (f : B → Client S R A)
        → IsGuarded m
        → ((b : B) → IsGuarded (f b))
        → IsGuarded (elim o [ none ↦ m | some b ↦ f b ])
    option-IsGuarded none m f g h = g
    option-IsGuarded (some b) m f g h = h b

  module _ (S R : Type 0) where
    pub pure-IsGuarded : {A : Type 0} (a : A) → IsGuarded (pure {S = S} {R = R} a)
    unfolding pure
    pure-IsGuarded a = quiet _ (λ u. refl)

    pub fail-IsGuarded : (A : Type 0) (e : Error) → IsGuarded (fail {S = S} {R = R} {A = A} e)
    unfolding fail
    fail-IsGuarded A e = quiet _ (λ u. refl)

    pub lift-IsGuarded : {A : Type 0} (r : Result A) → IsGuarded (lift {S = S} {R = R} r)
    unfolding lift
    lift-IsGuarded r = quiet _ (λ u. refl)

    pub on_trusted-IsGuarded :
        (op : Op) (f : TrustedMetadataSet → Result (Unit {0}) × TrustedMetadataSet)
        → ((s : TrustedMetadataSet) → f s ≡ apply c p op s)
        → IsGuarded (on_trusted {S = S} {R = R} f)
    unfolding IsGuarded on_trusted
    on_trusted-IsGuarded op f h u = rw (h u.trusted) (Reaches-apply op u.trusted)

    pub root_step :
        (bytes : Bytes) → IsGuarded (on_trusted {S = S} {R = R} (λ s. update_root c p s bytes))
    unfolding apply
    root_step bytes = on_trusted-IsGuarded (feed_root bytes) _ (λ s. refl)

    pub timestamp_step :
        (bytes : Bytes) (now : ℕ)
        → IsGuarded (on_trusted {S = S} {R = R} (λ s. update_timestamp c p s bytes now))
    unfolding apply
    timestamp_step bytes now = on_trusted-IsGuarded (feed_timestamp bytes now) _ (λ s. refl)

    pub snapshot_step :
        (bytes : Bytes) (now : ℕ)
        → IsGuarded (on_trusted {S = S} {R = R} (λ s. update_snapshot c p s bytes now))
    unfolding apply
    snapshot_step bytes now = on_trusted-IsGuarded (feed_snapshot bytes now) _ (λ s. refl)

    pub targets_step :
        (bytes : Bytes) (now : ℕ)
        → IsGuarded (on_trusted {S = S} {R = R} (λ s. update_targets c p s bytes now))
    unfolding apply
    targets_step bytes now = on_trusted-IsGuarded (feed_targets bytes now) _ (λ s. refl)

    pub delegated_step :
        (bytes : Bytes) (role delegator : Str) (now : ℕ)
        → IsGuarded (
            on_trusted {S = S} {R = R}
              (λ s. update_delegated_targets c p s bytes role delegator now))
    unfolding apply
    delegated_step bytes role delegator now =
        on_trusted-IsGuarded (feed_delegated bytes role delegator now) _ (λ s. refl)

  module _ {S R : Type 0} (ms : MetadataStore S) (repo : Repository R) where
    pub fetch_metadata-IsGuarded :
        (name : Str) (max_length : ℕ) → IsGuarded (fetch_metadata ms repo c p name max_length)
    unfolding fetch_metadata
    fetch_metadata-IsGuarded name max_length = quiet _ (λ u. refl)

    pub cache_put-IsGuarded :
        (name : Str) (bytes : Bytes) → IsGuarded {R = R} (cache_put ms name bytes)
    unfolding cache_put
    cache_put-IsGuarded name bytes = quiet _ (λ u. refl)

    pub ruleset guarded = (
      bind-IsGuarded, reads-IsGuarded, lift-IsGuarded, pure-IsGuarded, fail-IsGuarded,
      attempt-IsGuarded, fetch_metadata-IsGuarded, cache_put-IsGuarded, root_step, timestamp_step,
      snapshot_step, targets_step, delegated_step, if-IsGuarded, option-IsGuarded,
    )
