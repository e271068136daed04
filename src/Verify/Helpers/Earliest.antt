-- ===== src/Verify/Helpers/Earliest.antt =====
-- crates/sigstore-verify/src/verify_impl/helpers.rs: where the validation time comes from.
use sigstore_rust.Common.{
  List, [], ◌∷◌, true, ◌&&◌, Bytes, Option, none, some, All, In, In-tail, ◌≡◌, refl, ◌⊎◌, inl, inr,
  Bool-cases, Option-cases, ap, sym, ◌∙◌, some_inj, and_true, arith,
}
use sigstore_rust.Common.Int.{ℤ, pos, ltb_ℤ, ◌≤ℤ◌}
use sigstore_rust.Common.Fallible.{ok, >>=-eq-ok, ok_inj, ok_or-eq-ok}
use sigstore_rust.Types.Bundle.{Bundle, TransparencyLogEntry, is_some}
use sigstore_rust.TrustRoot.{TrustedRoot, Timestamp}
use sigstore_rust.Verify.Platform.{Platform}
use sigstore_rust.Verify.Helpers.{
  is_v1, earlier, integrated_loop, verified_timestamp, tsa_loop, extract_tsa_timestamp,
  extract_v1_integrated_time_with_promise, determine_validation_time,
}

-- `t` is not after the time that a search starts with.
abbrev NotAfter : ℤ → Option ℤ → Type 0
NotAfter t none = Unit {0}
NotAfter t (some s) = t ≤ℤ s

earlier-NotAfter : (start : Option ℤ) (u t : ℤ) → t ≤ℤ earlier start u → NotAfter t start × (t ≤ℤ u)
unfolding earlier
earlier-NotAfter none u t h = (tt, h)
earlier-NotAfter (some s) u t h = ground arith

earlier_one_of :
    (start : Option ℤ) (u : ℤ) → (start ≡ some (earlier start u)) ⊎ (earlier start u ≡ u)
unfolding earlier
earlier_one_of none u = inr refl
earlier_one_of (some s) u = elim (Bool-cases (ltb_ℤ u s)) [
  | inl before ↦ inr (rw before refl)
  | inr after ↦ inl (rw after refl)
]

≤ℤ_refl : (a : ℤ) → a ≤ℤ a
≤ℤ_refl a = omega arith

module _ (p : Platform) (signature : Bytes) (root : TrustedRoot) (now : Timestamp) where
  -- Every timestamp verifies, and `t` is not after its time.
  abbrev pub VerifiedFrom : ℤ → Bytes → Type 0
  VerifiedFrom t ts = (u : ℤ) × (verified_timestamp p ts signature root now ≡ ok u) × (t ≤ℤ u)

  -- What the search for the earliest time gives, with the time that it starts with.
  Found : Option ℤ → ℤ → List Bytes → Type 0
  Found start t tss =
      ((start ≡ some t)
        ⊎ ((ts : Bytes) × In tss ts × (verified_timestamp p ts signature root now ≡ ok t)))
      × NotAfter t start
      × All (VerifiedFrom t) tss

  tsa_loop-Found :
      (start : Option ℤ) (t : ℤ) (tss : List Bytes)
      → tsa_loop p signature root now start tss ≡ ok (some t)
      → Found start t tss
  unfolding tsa_loop Found
  tsa_loop-Found start t [] e = let same = ok_inj e in (inl same, rw same (≤ℤ_refl t), tt)
  tsa_loop-Found start t (ts ∷ rest) e =
      let (u, verified, e1) = >>=-eq-ok (verified_timestamp p ts signature root now) _ e in
      let (source, bound, all) = tsa_loop-Found (some (earlier start u)) t rest e1 in
      let (first, here) = earlier-NotAfter start u t bound in
      (
        elim source [
          | inr (x, at, h) ↦ inr (x, In-tail ts rest at, h)
          | inl same ↦ elim (earlier_one_of start u) [
            | inl kept ↦ inl (kept ∙ same)
            | inr new ↦ inr (ts, (0, refl), verified ∙ ap ok (sym new ∙ some_inj same))
          ]
        ],
        first,
        ((u, verified, here), all),
      )

  tsa_loop-some :
      (s : ℤ) (tss : List Bytes) → tsa_loop p signature root now (some s) tss ≡ ok none → ⊥
  unfolding tsa_loop
  tsa_loop-some s [] e = cc
  tsa_loop-some s (ts ∷ rest) e =
      let (u, _, e1) = >>=-eq-ok (verified_timestamp p ts signature root now) _ e in
      tsa_loop-some (earlier (some s) u) rest e1

  tsa_loop-none : (tss : List Bytes) → tsa_loop p signature root now none tss ≡ ok none → tss ≡ []
  unfolding tsa_loop
  tsa_loop-none [] e = refl
  tsa_loop-none (ts ∷ rest) e =
      let (u, _, e1) = >>=-eq-ok (verified_timestamp p ts signature root now) _ e in
      absurd (tsa_loop-some (earlier none u) rest e1)

  -- An entry of version 0.0.1 with a promise and a time above 0.
  abbrev pub PromisedTime : ℤ → TransparencyLogEntry → Type 0
  PromisedTime t entry =
      (is_v1 entry ≡ true)
      × (is_some entry.inclusion_promise ≡ true)
      × (ltb_ℤ (pos 0) entry.integrated_time ≡ true)
      × (entry.integrated_time ≡ t)

  integrated_loop_source :
      (start : Option ℤ) (t : ℤ) (entries : List TransparencyLogEntry)
      → integrated_loop start entries ≡ some t
      → (start ≡ some t)
        ⊎ ((entry : TransparencyLogEntry) × In entries entry × PromisedTime t entry)
  unfolding integrated_loop
  integrated_loop_source start t [] e = inl e
  integrated_loop_source start t (entry ∷ rest) e =
      elim (Bool-cases
        (is_v1 entry && (is_some entry.inclusion_promise && ltb_ℤ (pos 0) entry.integrated_time))) [
          | inr other ↦
              elim (integrated_loop_source start t rest (rw (other, integrated_loop) at e)) [
                | inl same ↦ inl same
                | inr (x, at, h) ↦ inr (x, In-tail entry rest at, h)
              ]
          | inl good ↦
              let (v1, more) = and_true (is_v1 entry) _ good in
              let (promised, timed) = and_true (is_some entry.inclusion_promise) _ more in
              elim (integrated_loop_source (some (earlier start entry.integrated_time)) t rest
                (rw (good, integrated_loop) at e)) [
                  | inr (x, at, h) ↦ inr (x, In-tail entry rest at, h)
                  | inl same ↦ elim (earlier_one_of start entry.integrated_time) [
                    | inl kept ↦ inl (kept ∙ same)
                    | inr new ↦
                        inr (entry, (0, refl), (v1, promised, timed, sym new ∙ some_inj same))
                  ]
                ]
        ]

  -- The validation time is that of a timestamp, all of the bundle's timestamps verify, and none is
  -- earlier; or the bundle has no timestamps, and it is the integrated time, above 0, of an entry of
  -- version 0.0.1 that has a promise.
  pub determine_validation_time_source :
      (bundle : Bundle) (t : ℤ)
      → determine_validation_time p bundle signature root now ≡ ok t
      → (((ts : Bytes) × In bundle.verification_material.rfc3161_timestamps ts
            × (verified_timestamp p ts signature root now ≡ ok t))
          × All (VerifiedFrom t) bundle.verification_material.rfc3161_timestamps)
        ⊎ ((bundle.verification_material.rfc3161_timestamps ≡ [])
            × ((entry : TransparencyLogEntry) × In bundle.verification_material.tlog_entries entry
                × PromisedTime t entry))
  unfolding determine_validation_time extract_tsa_timestamp extract_v1_integrated_time_with_promise
      Found
  determine_validation_time_source bundle t e =
      let (time, stamped, e1) =
        >>=-eq-ok
          (tsa_loop p signature root now none bundle.verification_material.rfc3161_timestamps) _
          e in
      elim (Option-cases time) [
        | inr (u, is) ↦
            let same : u ≡ t = ok_inj (rw is at e1) in
            let (source, _, all) = tsa_loop-Found none t _ (stamped ∙ ap ok (is ∙ ap some same)) in
            elim source [ inl start ↦ cc | inr found ↦ inl (found, all) ]
        | inl is ↦
            elim (integrated_loop_source none t bundle.verification_material.tlog_entries
              (ok_or-eq-ok _ _ (rw is at e1))) [
                | inl start ↦ cc
                | inr found ↦ inr (tsa_loop-none _ (stamped ∙ ap ok is), found)
              ]
      ]
