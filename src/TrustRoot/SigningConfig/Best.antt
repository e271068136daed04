-- ===== src/TrustRoot/SigningConfig/Best.antt =====
-- crates/sigstore-trust-root/src/signing_config.rs: which Rekor endpoint is chosen.
use sigstore_rust.Common.{
  ℕ, ◌≤◌, List, [], ◌∷◌, Bool, true, false, not, Option, none, some, All, All-map, In, In-tail,
  In-cons, ap, leb, if◌then◌else◌, ◌≡◌, refl, ◌⊎◌, ◌↔◌, inl, inr, arith, Bool-cases,
}
use sigstore_rust.Common.Int.{◌≤ℤ◌}
use sigstore_rust.Types.Bundle.{first}
use sigstore_rust.TrustRoot.{Timestamp}
use sigstore_rust.TrustRoot.SigningConfig.{
  ServiceEndpoint, ServiceValidityPeriod, SigningConfig, filter, rekor_usable, place,
  sort_by_version, get_rekor_urls, get_rekor_url, endpoint_is_valid, period_is_valid, has_version,
  supported_rekor_versions, forced,
}

-- The period has started at the time, and has not ended.
abbrev pub NotEnded : Option Timestamp → Timestamp → Type 0
NotEnded none now = Unit {0}
NotEnded (some end) now = ¬ (end ≤ℤ now)

abbrev pub Holds : ServiceValidityPeriod → Timestamp → Type 0
Holds period now = (period.start ≤ℤ now) × NotEnded period.end now

abbrev pub Forced : Option ℕ → ℕ → Type 0
Forced none version = Unit {0}
Forced (some v) version = version ≡ v

-- The endpoint can be used: its period holds, and its version is 1 or 2, and the one asked for.
abbrev pub Serves : Option ℕ → Timestamp → ServiceEndpoint → Type 0
Serves force_version now e =
    Holds e.valid_for now
    × ((e.major_api_version ≡ 1) ⊎ (e.major_api_version ≡ 2))
    × Forced force_version e.major_api_version

-- What is chosen from a list serves, and has the highest version of those that do; if nothing is
-- chosen, none serves.
abbrev pub IsBest : Option ℕ → Timestamp → List ServiceEndpoint → Option ServiceEndpoint → Type 0
IsBest force_version now es none = All (λ e. ¬ Serves force_version now e) es
IsBest force_version now es (some best) =
    In es best
    × Serves force_version now best
    × All (λ e. (¬ Serves force_version now e) ⊎ (e.major_api_version ≤ best.major_api_version)) es

period_iff :
    (start : Timestamp) (end : Option Timestamp) (now : Timestamp)
    → (period_is_valid (record { start = start; end = end }) now ≡ true)
      ↔ Holds (record { start = start; end = end }) now
unfolding period_is_valid
period_iff start none now = ground arith
period_iff start (some end) now = ground arith

endpoint_is_valid_iff :
    (e : ServiceEndpoint) (now : Timestamp)
    → (endpoint_is_valid e now ≡ true) ↔ Holds e.valid_for now
unfolding endpoint_is_valid
endpoint_is_valid_iff e now = period_iff e.valid_for.start e.valid_for.end now

both_tests :
    (a b c : Bool)
    → ((if not a then false else if not b then false else c) ≡ true)
      ↔ ((a ≡ true) × (b ≡ true) × (c ≡ true))
both_tests true true c = (λ h. (refl, refl, h), λ h. h.2)
both_tests true false c = (λ h. cc, λ h. cc)
both_tests false b c = (λ h. cc, λ h. cc)

has_rekor_version_iff :
    (v : ℕ) → (has_version supported_rekor_versions v ≡ true) ↔ ((v ≡ 1) ⊎ (v ≡ 2))
has_rekor_version_iff v = ground arith

forced_iff : (f : Option ℕ) (v : ℕ) → (forced f v ≡ true) ↔ Forced f v
forced_iff none v = (λ h. tt, λ h. refl)
forced_iff (some w) v = ground arith

rekor_usable_iff :
    (force_version : Option ℕ) (now : Timestamp) (e : ServiceEndpoint)
    → (rekor_usable force_version now e ≡ true) ↔ Serves force_version now e
unfolding rekor_usable
rekor_usable_iff force_version now e =
    let tests =
      both_tests (endpoint_is_valid e now)
        (has_version supported_rekor_versions e.major_api_version)
        (forced force_version e.major_api_version) in
    let period = endpoint_is_valid_iff e now in
    let version = has_rekor_version_iff e.major_api_version in
    let force = forced_iff force_version e.major_api_version in
    (
      (λ h. let (a, b, c) = tests.0 h in (period.0 a, version.0 b, force.0 c)),
      (λ h. tests.1 (period.1 h.0, version.1 h.1, force.1 h.2)),
    )

-- The first of the sorted endpoints is one of them, and none has a higher version.
abbrev IsTop : List ServiceEndpoint → Option ServiceEndpoint → Type 0
IsTop es none = es ≡ []
IsTop es (some b) = In es b × All (λ e. e.major_api_version ≤ b.major_api_version) es

place-IsTop :
    (e : ServiceEndpoint) (es sorted : List ServiceEndpoint)
    → IsTop es (first sorted)
    → IsTop (e ∷ es) (first (place e sorted))
place-IsTop e es [] h = ((0, refl), (omega arith, rw h tt))
place-IsTop e es (f ∷ fs) h = elim (Bool-cases (leb f.major_api_version e.major_api_version)) [
  | inl above ↦
      let le : f.major_api_version ≤ e.major_api_version = ground arith in
      rw above (
        (0, refl),
        (
          omega arith,
          All-map es (λ x (k : x.major_api_version ≤ f.major_api_version). omega arith) h.1,
        ),
      )
  | inr below ↦ rw below (In-tail e es h.0, (ground arith, h.1))
]

sort_by_version-IsTop : (es : List ServiceEndpoint) → IsTop es (first (sort_by_version es))
unfolding sort_by_version
sort_by_version-IsTop [] = refl
sort_by_version-IsTop (e ∷ es) = place-IsTop e es (sort_by_version es) (sort_by_version-IsTop es)

module _ (test : ServiceEndpoint → Bool) where
  In-filter :
      (es : List ServiceEndpoint) {x : ServiceEndpoint}
      → In (filter test es) x
      → In es x × (test x ≡ true)
  In-filter [] m = cc
  In-filter (e ∷ es) m = elim (Bool-cases (test e)) [
    | inl passes ↦ elim (In-cons e (filter test es) (rw passes at m)) [
      | inl here ↦ ((0, ap some here), rw (← here) passes)
      | inr later ↦ let (old, t) = In-filter es later in (In-tail e es old, t)
    ]
    | inr fails ↦ let (old, t) = In-filter es (rw fails at m) in (In-tail e es old, t)
  ]

  All-filter :
      (P : ServiceEndpoint → Type 0) (es : List ServiceEndpoint)
      → All P (filter test es)
      → All (λ e. (test e ≡ false) ⊎ P e) es
  All-filter P [] h = tt
  All-filter P (e ∷ es) h = elim (Bool-cases (test e)) [
    | inl passes ↦ let k = rw passes at h in (inr k.0, All-filter P es k.1)
    | inr fails ↦ (inl fails, All-filter P es (rw fails at h))
  ]

not_serving :
    (force_version : Option ℕ) (now : Timestamp) (e : ServiceEndpoint)
    → rekor_usable force_version now e ≡ false
    → ¬ Serves force_version now e
not_serving force_version now e h = λ s. cc ((rekor_usable_iff force_version now e).1 s)

none_left :
    (test : ServiceEndpoint → Bool) (es : List ServiceEndpoint)
    → filter test es ≡ []
    → All (λ e. test e ≡ false) es
none_left test [] h = tt
none_left test (e ∷ es) h = elim (Bool-cases (test e)) [
  | inl passes ↦ cc (rw passes at h)
  | inr fails ↦ (fails, none_left test es (rw fails at h))
]

IsBest-of_top :
    (force_version : Option ℕ) (now : Timestamp) (es : List ServiceEndpoint)
    (o : Option ServiceEndpoint)
    → IsTop (filter (rekor_usable force_version now) es) o
    → IsBest force_version now es o
IsBest-of_top force_version now es none h =
    All-map es (not_serving force_version now) (none_left (rekor_usable force_version now) es h)
IsBest-of_top force_version now es (some b) (found, top) =
    let (listed, passes) = In-filter (rekor_usable force_version now) es found in
    (
      listed,
      (rekor_usable_iff force_version now b).0 passes,
      All-map es
          (λ e
              (k : (rekor_usable force_version now e ≡ false)
                ⊎ (e.major_api_version ≤ b.major_api_version)).
            elim k [ inl fails ↦ inl (not_serving force_version now e fails) | inr le ↦ inr le ])
          (All-filter (rekor_usable force_version now)
            (λ e. e.major_api_version ≤ b.major_api_version) es top),
    )

-- The Rekor endpoint that is chosen is one of the configuration whose period holds, of version 1 or 2
-- and the version asked for, and none of these has a higher version; if none is chosen, there are none.
pub get_rekor_url-IsBest :
    (config : SigningConfig) (now : Timestamp) (force_version : Option ℕ)
    → IsBest force_version now config.rekor_tlog_urls (get_rekor_url config now force_version)
unfolding get_rekor_url get_rekor_urls
get_rekor_url-IsBest config now force_version =
    IsBest-of_top force_version now config.rekor_tlog_urls _
      (sort_by_version-IsTop (filter (rekor_usable force_version now) config.rekor_tlog_urls))
