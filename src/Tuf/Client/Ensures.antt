-- ===== src/Tuf/Client/Ensures.antt =====
-- What holds after every success of an operation of the updater: rules over its chaining.
use sigstore_rust.Common.{if◌then◌else◌, Bool, true, false, Option, none, some, ◌≡◌, refl}
use mathlib.Core.Path.{subst}
use sigstore_rust.Common.Fallible.{ok, err, ok_inj}
use sigstore_rust.Tuf.Error.{Error, Result}
use sigstore_rust.Tuf.Client.{Updater, Client, pure, fail, lift, reads, ◌>>=◌, continue}

module _ {S R : Type 0} where
  -- Every result of a success has `Q`, in the state after it.
  unfoldable pub Ensures : {A : Type 0} → (A → Updater S R → Type 0) → Client S R A → Type 0
  Ensures {A = A} Q m = (u : Updater S R) (a : A) → (m u).0 ≡ ok a → Q a (m u).1

  -- The same of one state before.
  unfoldable pub EnsuresAt :
      {A : Type 0} → (A → Updater S R → Type 0) → Client S R A → Updater S R → Type 0
  EnsuresAt {A = A} Q m u = (a : A) → (m u).0 ≡ ok a → Q a (m u).1

  pub continue-Ensures :
      {A B : Type 0} (Q : B → Updater S R → Type 0) (r : Result A × Updater S R)
      (f : A → Client S R B) (b : B)
      → ((a : A) → r.0 ≡ ok a → (f a r.1).0 ≡ ok b → Q b (f a r.1).1)
      → (continue r f).0 ≡ ok b
      → Q b (continue r f).1
  continue-Ensures Q (ok a, w) f b h e = h a refl e
  continue-Ensures Q (err x, w) f b h e = cc

  pub bind-Ensures :
      {A B : Type 0} (Q : B → Updater S R → Type 0) (m : Client S R A) (f : A → Client S R B)
      → ((a : A) → Ensures Q (f a))
      → Ensures Q (m >>= f)
  unfolding Ensures ◌>>=◌
  bind-Ensures Q m f h u b e = continue-Ensures Q (m u) f b (λ a _ d. h a (m u).1 b d) e

  pub reads-Ensures :
      {A B : Type 0} (Q : B → Updater S R → Type 0) (g : Updater S R → A) (f : A → Client S R B)
      → ((u : Updater S R) → EnsuresAt Q (f (g u)) u)
      → Ensures Q (reads g >>= f)
  unfolding Ensures EnsuresAt ◌>>=◌ reads
  reads-Ensures Q g f h u b e = h u b e

  pub lift-Ensures :
      {A B : Type 0} (Q : B → Updater S R → Type 0) (r : Result A) (f : A → Client S R B)
      → ((a : A) → r ≡ ok a → Ensures Q (f a))
      → Ensures Q (lift r >>= f)
  unfolding Ensures ◌>>=◌ lift
  lift-Ensures Q r f h u b e = continue-Ensures Q (r, u) f b (λ a k d. h a k u b d) e

  pub pure-Ensures :
      {A : Type 0} (Q : A → Updater S R → Type 0) (a : A)
      → ((u : Updater S R) → Q a u)
      → Ensures Q (pure a)
  unfolding Ensures pure
  pure-Ensures Q a h u b e = subst (λ x. Q x u) (ok_inj e) (h u)

  pub fail-Ensures : {A : Type 0} (Q : A → Updater S R → Type 0) (x : Error) → Ensures Q (fail x)
  unfolding Ensures fail
  fail-Ensures Q x u b e = cc

  pub option-Ensures :
      {A B : Type 0} (Q : A → Updater S R → Type 0) (o : Option B) (m : Client S R A)
      (f : B → Client S R A)
      → Ensures Q m
      → ((b : B) → o ≡ some b → Ensures Q (f b))
      → Ensures Q (elim o [ none ↦ m | some b ↦ f b ])
  option-Ensures Q none m f g h = g
  option-Ensures Q (some b) m f g h = h b refl

  pub at_state :
      {A : Type 0} (Q : A → Updater S R → Type 0) (m : Client S R A) (u : Updater S R)
      → Ensures Q m
      → EnsuresAt Q m u
  unfolding Ensures EnsuresAt
  at_state Q m u h = h u

  pub pure-EnsuresAt :
      {A : Type 0} (Q : A → Updater S R → Type 0) (a : A) (u : Updater S R)
      → Q a u
      → EnsuresAt Q (pure a) u
  unfolding EnsuresAt pure
  pure-EnsuresAt Q a u h b e = subst (λ x. Q x u) (ok_inj e) h

  pub option-EnsuresAt :
      {A B : Type 0} (Q : A → Updater S R → Type 0) (u : Updater S R) (o : Option B)
      (m : Client S R A) (f : B → Client S R A)
      → EnsuresAt Q m u
      → ((b : B) → o ≡ some b → EnsuresAt Q (f b) u)
      → EnsuresAt Q (elim o [ none ↦ m | some b ↦ f b ]) u
  option-EnsuresAt Q u none m f g h = g
  option-EnsuresAt Q u (some b) m f g h = h b refl

  pub apply_Ensures :
      {A : Type 0} (Q : A → Updater S R → Type 0) (m : Client S R A) (u : Updater S R) (a : A)
      → Ensures Q m
      → (m u).0 ≡ ok a
      → Q a (m u).1
  unfolding Ensures
  apply_Ensures Q m u a h e = h u a e

  pub weaken :
      {A : Type 0} (P Q : A → Updater S R → Type 0) (m : Client S R A)
      → ((a : A) (u : Updater S R) → P a u → Q a u)
      → Ensures P m
      → Ensures Q m
  unfolding Ensures
  weaken P Q m f h u a e = f a (m u).1 (h u a e)

  pub elim-Ensures :
      {A : Type 0} (Q : A → Updater S R → Type 0) (b : Bool) (m n : Client S R A)
      → Ensures Q m
      → Ensures Q n
      → Ensures Q (elim b [ false ↦ m | true ↦ n ])
  elim-Ensures Q false m n g h = g
  elim-Ensures Q true m n g h = h

  pub lift-EnsuresAt :
      {A B : Type 0} (Q : B → Updater S R → Type 0) (u : Updater S R) (r : Result A)
      (f : A → Client S R B)
      → ((a : A) → r ≡ ok a → EnsuresAt Q (f a) u)
      → EnsuresAt Q (lift r >>= f) u
  unfolding EnsuresAt ◌>>=◌ lift
  lift-EnsuresAt Q u r f h b e = continue-Ensures Q (r, u) f b (λ a k d. h a k b d) e

  pub if-EnsuresAt :
      {A : Type 0} (Q : A → Updater S R → Type 0) (u : Updater S R) (b : Bool) (m n : Client S R A)
      → (b ≡ true → EnsuresAt Q m u)
      → EnsuresAt Q n u
      → EnsuresAt Q (if b then m else n) u
  if-EnsuresAt Q u true m n g h = g refl
  if-EnsuresAt Q u false m n g h = h
