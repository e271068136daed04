-- ===== src/TrustRoot/Windows.antt =====
-- crates/sigstore-trust-root/src/trusted_root.rs: the tests of a validity window say what they mean.
use sigstore_rust.Common.{
  Bool, true, Str, Option, none, some, ◌≡◌, refl, ◌↔◌, Option-cases, inl, inr, ap, sym, ◌∙◌,
  some_inj, and_true,
}
use sigstore_rust.Common.Fallible.{ok, >>=-eq-ok, ok_inj}
use sigstore_rust.Common.Int.{◌≤ℤ◌, leb_ℤ, leb_ℤ_iff}
use sigstore_rust.TrustRoot.{
  Timestamp, ValidityPeriod, parse_validity_timestamp, contains, has_started_by,
  usable_for_verification, unless,
}

module _ (parse_timestamp : Str → Option Timestamp) where
  -- A bound is missing, or it parses and its time has the property.
  abbrev pub Meets : (Timestamp → Type 0) → Option Str → Type 0
  Meets P none = Unit {0}
  Meets P (some s) = (t : Timestamp) × (parse_timestamp s ≡ some t) × P t

  abbrev pub StartsBy : Option Str → Timestamp → Type 0
  StartsBy bound time = Meets (λ t. t ≤ℤ time) bound

  abbrev pub EndsAfter : Option Str → Timestamp → Type 0
  EndsAfter bound time = Meets (λ t. time ≤ℤ t) bound

  abbrev pub Started : Option ValidityPeriod → Timestamp → Type 0
  Started none now = Unit {0}
  Started (some period) now = StartsBy period.start now

  abbrev pub Holds : Option ValidityPeriod → Timestamp → Type 0
  Holds none time = Unit {0}
  Holds (some period) time = StartsBy period.start time × EndsAfter period.end time

  parse_validity_timestamp-parses :
      (P : Timestamp → Type 0) (bound : Option Str)
      → Meets P bound
      → (b : Option Timestamp) × (parse_validity_timestamp parse_timestamp bound ≡ ok b)
  unfolding parse_validity_timestamp
  parse_validity_timestamp-parses P none m = (none, refl)
  parse_validity_timestamp-parses P (some s) (t, parsed, h) =
      (some t, rw (parsed, parse_validity_timestamp) refl)

  -- A test of a bound that parses.
  bound_test_iff :
      (P : Timestamp → Type 0) (test : Timestamp → Bool)
      → ((t : Timestamp) → (test t ≡ true) ↔ P t)
      → (bound : Option Str) (b : Option Timestamp)
      → parse_validity_timestamp parse_timestamp bound ≡ ok b
      → (unless b test ≡ true) ↔ Meets P bound
  unfolding parse_validity_timestamp
  bound_test_iff P test agree none b e = rw (← ok_inj e) ((λ h. tt), (λ h. refl))
  bound_test_iff P test agree (some s) b e = elim (Option-cases (parse_timestamp s)) [
    | inl malformed ↦ cc (rw (malformed, parse_validity_timestamp) at e)
    | inr (t, parsed) ↦
        let same : some t ≡ b = ok_inj (rw (parsed, parse_validity_timestamp) at e) in
        rw (← same) (
          (λ h. (t, parsed, (agree t).0 h)),
          (λ m. rw (some_inj (sym parsed ∙ m.1)) ((agree m.0).1 m.2)),
        )
  ]

  start_iff :
      (bound : Option Str) (time : Timestamp) (b : Option Timestamp)
      → parse_validity_timestamp parse_timestamp bound ≡ ok b
      → (unless b (λ t. leb_ℤ t time) ≡ true) ↔ StartsBy bound time
  start_iff bound time = bound_test_iff (λ t. t ≤ℤ time) _ (λ t. leb_ℤ_iff t time) bound

  end_iff :
      (bound : Option Str) (time : Timestamp) (b : Option Timestamp)
      → parse_validity_timestamp parse_timestamp bound ≡ ok b
      → (unless b (λ t. leb_ℤ time t) ≡ true) ↔ EndsAfter bound time
  end_iff bound time = bound_test_iff (λ t. time ≤ℤ t) _ (λ t. leb_ℤ_iff time t) bound

  pub usable_for_verification-Started :
      (valid_for : Option ValidityPeriod) (now : Timestamp)
      → (usable_for_verification parse_timestamp valid_for now ≡ ok true) ↔ Started valid_for now
  unfolding usable_for_verification has_started_by
  usable_for_verification-Started none now = ((λ e. tt), λ s. refl)
  usable_for_verification-Started (some period) now = (
    (λ e.
        let (b, parsed, e1) = >>=-eq-ok _ _ e in
        (start_iff period.start now b parsed).0 (ok_inj e1)),
    (λ m.
        let (b, parsed) = parse_validity_timestamp-parses (λ t. t ≤ℤ now) period.start m in
        rw parsed (ap ok ((start_iff period.start now b parsed).1 m))),
  )

  -- A window holds a time exactly if its bounds parse and the time is between them.
  pub contains_iff :
      (period : ValidityPeriod) (time : Timestamp)
      → (contains parse_timestamp period time ≡ ok true) ↔ Holds (some period) time
  unfolding contains
  contains_iff period time = (
    (λ e.
        let (s, starts, e1) = >>=-eq-ok _ _ e in
        let (t, ends, e2) = >>=-eq-ok _ _ e1 in
        let both = and_true (unless s (λ x. leb_ℤ x time)) _ (ok_inj e2) in
        (
          (start_iff period.start time s starts).0 both.0,
          (end_iff period.end time t ends).0 both.1,
        )),
    (λ m.
        let (s, starts) = parse_validity_timestamp-parses (λ t. t ≤ℤ time) period.start m.0 in
        let (t, ends) = parse_validity_timestamp-parses (λ t. time ≤ℤ t) period.end m.1 in
        rw (starts, ends)
          (rw ((start_iff period.start time s starts).1 m.0, (end_iff period.end time t ends).1 m.1)
            refl)),
  )
