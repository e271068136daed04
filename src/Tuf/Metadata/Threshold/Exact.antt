-- ===== src/Tuf/Metadata/Threshold/Exact.antt =====
-- `verify_threshold` answers by two plain counts over the signatures, with no sets.
use sigstore_rust.Common.{
  ℕ, ◌+◌, List, [], ◌∷◌, Bool, true, false, ◌&&◌, not, Option, none, some, Bytes, Str, Map,
  contains, set_insert, length, ◌≡◌, refl, arith, is_empty, if◌then◌else◌, Bool-cases, Option-cases,
  inl, inr, ◌==◌, leb,
}
use sigstore_rust.Common.Fallible.{ok, err}
use sigstore_rust.Tuf.Error.{Result, malformed, duplicate_signature, threshold_not_met}
use sigstore_rust.Tuf.Key.{Key, Crypto}
use sigstore_rust.Tuf.Metadata.{RoleKeys, Signature, Metadata}
use sigstore_rust.Tuf.Metadata.Threshold.{
  Tally, is_good, count_signature, count_signatures, verify_threshold,
}

module _ (authorized : List Str) where
  -- Not skipped: by an authorized key, and no placeholder.
  abbrev is_considered : Signature → Bool
  is_considered s = contains s.keyid authorized && not (is_empty s.sig)

  -- The first key id that a considered signature repeats; `seen` are those before.
  pub first_repeat : List Str → List Signature → Option Str
  first_repeat seen [] = none
  first_repeat seen (s ∷ sigs) =
      let later = first_repeat (s.keyid ∷ seen) sigs in
      let skipped = first_repeat seen sigs in
      if is_considered s then (if contains s.keyid seen then some s.keyid else later) else skipped

module _ (c : Crypto) (keys : Map Key) (canonical_signed : Bytes) (authorized : List Str) where
  -- How many considered signatures verify.
  pub count_good : List Signature → ℕ
  count_good [] = 0
  count_good (s ∷ sigs) =
      (if is_considered authorized s && is_good c keys canonical_signed s then 1 else 0)
      + count_good sigs

  -- A key that was counted was seen.
  abbrev Covered : Tally → Type 0
  Covered t = (k : Str) → contains k t.seen ≡ false → contains k t.good ≡ false

  module _ (role_name : Str) where
    count_signatures_repeat :
        (t : Tally) (sigs : List Signature) (k : Str)
        → first_repeat authorized t.seen sigs ≡ some k
        → count_signatures c keys canonical_signed authorized role_name t sigs
          ≡ err (duplicate_signature role_name k)
    unfolding first_repeat count_signatures count_signature
    count_signatures_repeat t [] k e = cc
    count_signatures_repeat t (s ∷ sigs) k e = ground (
      arith,
      count_signatures_repeat t sigs k,
      count_signatures_repeat (record { good = t.good; seen = s.keyid ∷ t.seen }) sigs k,
      count_signatures_repeat (record { good = set_insert s.keyid t.good; seen = s.keyid ∷ t.seen })
          sigs k,
    )

    -- One signature: skipped, new and good, or new and not good.
    count_signature_skip :
        (t : Tally) (s : Signature)
        → is_considered authorized s ≡ false
        → count_signature c keys canonical_signed authorized role_name t s ≡ ok t
    unfolding count_signature
    count_signature_skip t s h = ground arith

    count_signature_new :
        (t : Tally) (s : Signature)
        → is_considered authorized s ≡ true
        → contains s.keyid t.seen ≡ false
        → contains s.keyid t.good ≡ false
        → count_signature c keys canonical_signed authorized role_name t s
          ≡ ok (record {
            good = if is_good c keys canonical_signed s then s.keyid ∷ t.good else t.good;
            seen = s.keyid ∷ t.seen;
          })
    unfolding count_signature
    count_signature_new t s h fresh unseen = ground arith

    Covered-new :
        (t : Tally) (k : Str) (b : Bool)
        → Covered t
        → Covered (record { good = if b then k ∷ t.good else t.good; seen = k ∷ t.seen })
    Covered-new t k true cov j h = ground (arith, cov j)
    Covered-new t k false cov j h = ground (arith, cov j)

    count_signatures_count :
        (t : Tally) (sigs : List Signature)
        → Covered t
        → first_repeat authorized t.seen sigs ≡ none
        → (t' : Tally) × (count_signatures c keys canonical_signed authorized role_name t sigs
            ≡ ok t')
          × (length t'.good ≡ length t.good + count_good sigs)
    unfolding first_repeat count_signatures count_good
    count_signatures_count t [] cov e = (t, refl, omega arith)
    count_signatures_count t (s ∷ sigs) cov e = elim (Bool-cases (is_considered authorized s)) [
      | inl considered ↦
          let fresh : contains s.keyid t.seen ≡ false = ground arith in
          let u : Tally = record {
            good = if is_good c keys canonical_signed s then s.keyid ∷ t.good else t.good;
            seen = s.keyid ∷ t.seen;
          } in
          let (t', run, len) =
            count_signatures_count u sigs (Covered-new t s.keyid _ cov) (ground arith) in
          (t', rw (count_signature_new t s considered fresh (cov _ fresh)) run, ground arith)
      | inr skipped ↦
          let (t', run, len) = count_signatures_count t sigs cov (ground arith) in
          (t', rw (count_signature_skip t s skipped) run, ground arith)
    ]

-- The answer, by two counts over the signatures: the first key id that stands on a second considered
-- signature, and the number of considered signatures that verify.
unfoldable pub expected :
    {T : Type 0} (c : Crypto) (m : Metadata T) (keys : Map Key) (role_keys : RoleKeys)
    (role_name : Str)
    → Result (Unit {0})
unfolding first_repeat count_good
expected c m keys role_keys role_name =
    let n = count_good c keys m.canonical_signed role_keys.keyids m.signatures in
    if role_keys.threshold == 0
    then err malformed
    else elim (first_repeat role_keys.keyids [] m.signatures) [
      | some k ↦ err (duplicate_signature role_name k)
      | none ↦
          if leb role_keys.threshold n
          then ok tt
          else err (threshold_not_met role_name n role_keys.threshold)
    ]

-- `verify_threshold` refuses a threshold of 0, then the first key id that is named by two considered
-- signatures (of authorized keys, not placeholders), and else compares the number of considered
-- signatures that verify with the threshold.
pub verify_threshold-expected :
    {T : Type 0} (c : Crypto) (m : Metadata T) (keys : Map Key) (role_keys : RoleKeys)
    (role_name : Str)
    → verify_threshold c m keys role_keys role_name ≡ expected c m keys role_keys role_name
unfolding verify_threshold expected
verify_threshold-expected c m keys role_keys role_name =
    elim (Option-cases (first_repeat role_keys.keyids [] m.signatures)) [
      | inl fine ↦ ground (
        arith,
        count_signatures_count c keys m.canonical_signed role_keys.keyids role_name
            (record { good = []; seen = [] }) m.signatures (λ k h. refl) fine,
      )
      | inr (k, twice) ↦ ground (
        arith,
        count_signatures_repeat c keys m.canonical_signed role_keys.keyids role_name
            (record { good = []; seen = [] }) m.signatures k twice,
      )
    ]
