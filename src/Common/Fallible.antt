-- ===== src/Common/Fallible.antt =====
-- Rust's `Result<T, E>` and the `?` operator.
use mathlib.Core.Path.{◌≡◌, refl}
use mathlib.Core.Bool.{Bool, true, false}
use mathlib.Core.Logic.{◌⊎◌, inl, inr}
use mathlib.Core.Option.{Option, none, some}

pub data Result {ℓ} (E : Type 0) (T : Type ℓ) : Type ℓ where
  err : (why : E) → Result E T
  ok : (value : T) → Result E T

module _ {E : Type 0} where
  -- `result?` before the rest of a function.
  infixl 5 ◌>>=◌
  abbrev pub ◌>>=◌ {ℓ κ} :
      {T : Type ℓ} {U : Type κ} → Result E T → (rest : T → Result E U) → Result E U
  err why >>= rest = err why
  ok value >>= rest = rest value

  -- `.ok_or_else(|| e)?`
  abbrev pub ok_or {ℓ} : {T : Type ℓ} → Option T → E → Result E T
  ok_or (some value) why = ok value
  ok_or none why = err why

  -- `if !test { return Err(e) }`
  abbrev pub ensure : (test : Bool) → E → Result E (Unit {0})
  ensure false why = err why
  ensure true why = ok tt

  infixl 5 ◌>>◌
  abbrev pub ◌>>◌ {κ} : {U : Type κ} → Result E (Unit {0}) → (rest : Result E U) → Result E U
  check >> rest = check >>= λ done. rest

  pub Result-cases {ℓ} :
      {T : Type ℓ} (r : Result E T) → ((value : T) × (r ≡ ok value)) ⊎ ((why : E) × (r ≡ err why))
  Result-cases (err why) = inr (why, refl)
  Result-cases (ok value) = inl (value, refl)

  pub >>=-eq-ok {ℓ κ} :
      {T : Type ℓ} {U : Type κ} (r : Result E T) (rest : T → Result E U) {u : U}
      → (r >>= rest) ≡ ok u
      → (value : T) × (r ≡ ok value) × (rest value ≡ ok u)
  >>=-eq-ok (err why) rest h = cc
  >>=-eq-ok (ok value) rest h = (value, refl, h)

  pub ok_inj {ℓ} : {T : Type ℓ} {a b : T} → ◌≡◌ {A = Result E T} (ok a) (ok b) → a ≡ b
  ok_inj e = cc

  pub ensure-eq-ok :
      (test : Bool) (why : E) {done : Unit {0}} → ensure test why ≡ ok done → test ≡ true
  ensure-eq-ok true why h = refl
  ensure-eq-ok false why h = cc

  pub ok_or-eq-ok {ℓ} :
      {T : Type ℓ} (o : Option T) (why : E) {t : T} → ok_or o why ≡ ok t → o ≡ some t
  ok_or-eq-ok none why h = cc
  ok_or-eq-ok (some s) why h = cc

  -- A check that passed, and what came after it.
  pub ensure_then_ok {κ} :
      {U : Type κ} (test : Bool) (why : E) (rest : Result E U) {u : U}
      → (ensure test why >> rest) ≡ ok u
      → (test ≡ true) × (rest ≡ ok u)
  ensure_then_ok true why rest h = (refl, h)
  ensure_then_ok false why rest h = cc

  pub ok_or_then_ok {ℓ κ} :
      {T : Type ℓ} {U : Type κ} (o : Option T) (why : E) (rest : T → Result E U) {u : U}
      → (ok_or o why >>= rest) ≡ ok u
      → (t : T) × (o ≡ some t) × (rest t ≡ ok u)
  ok_or_then_ok none why rest h = cc
  ok_or_then_ok (some t) why rest h = (t, refl, h)

  -- The other way: what comes after a check that passes, and after a result.
  pub ensure_then {κ} :
      {U : Type κ} (test : Bool) (why : E) (rest : Result E U)
      → test ≡ true
      → (ensure test why >> rest) ≡ rest
  ensure_then true why rest h = refl
  ensure_then false why rest h = cc

  pub then_of_ok {ℓ κ} :
      {T : Type ℓ} {U : Type κ} (r : Result E T) (rest : T → Result E U) (t : T)
      → r ≡ ok t
      → (r >>= rest) ≡ rest t
  then_of_ok r rest t h = rw h refl
