-- ===== src/Tuf/Metadata/Threshold/Loop.antt =====
-- What `verify_threshold` counts: distinct authorized keys with a good signature each.
use sigstore_rust.Common.{
  ◌≤◌, List, [], ◌∷◌, true, false, Bytes, Str, Map, contains, set_insert, length, ◌≡◌, refl, arith,
  All, All-map, is_empty, Bool-cases, ◌==◌, inl, inr, ◌⊎◌,
}
use mathlib.Core.Path.{subst}
use sigstore_rust.Common.Fallible.{ok, >>=-eq-ok, ok_inj}
use sigstore_rust.Tuf.Key.{Key, Crypto}
use sigstore_rust.Tuf.Metadata.{RoleKeys, Signature, Metadata}
use sigstore_rust.Tuf.Metadata.Threshold.{
  Tally, is_good, count_signature, count_signatures, verify_threshold,
}

-- No key id stands twice.
abbrev pub Distinct : List Str → Type 0
Distinct [] = Unit
Distinct (k ∷ ks) = (contains k ks ≡ false) × Distinct ks

module _ (c : Crypto) (keys : Map Key) (canonical_signed : Bytes) where
  -- The list holds a good signature that names the key id `k`.
  abbrev pub SignedBy : List Signature → Str → Type 0
  SignedBy [] k = ⊥
  SignedBy (s ∷ sigs) k =
      ((s.keyid ≡ k) × (is_empty s.sig ≡ false) × (is_good c keys canonical_signed s ≡ true))
      ⊎ SignedBy sigs k

  -- A signature that is not skipped and verifies.
  abbrev IsCounted : List Str → Signature → Type 0
  IsCounted authorized s =
      (contains s.keyid authorized ≡ true)
      × (is_empty s.sig ≡ false)
      × (is_good c keys canonical_signed s ≡ true)

  IsCounted-SignedBy :
      (authorized : List Str) (sigs : List Signature)
      → All
          (λ s.
            IsCounted authorized s → (contains s.keyid authorized ≡ true) × SignedBy sigs s.keyid)
          sigs
  IsCounted-SignedBy authorized [] = tt
  IsCounted-SignedBy authorized (s ∷ sigs) = (
    (λ h. (h.0, inl (refl, h.1, h.2))),
    All-map sigs (λ x f h. let (a, b) = f h in (a, inr b)) (IsCounted-SignedBy authorized sigs),
  )

  -- One round leaves `good` alone or adds the key of a signature that counts.
  count_signature-good :
      (authorized : List Str) (role_name : Str) (t t' : Tally) (s : Signature)
      → count_signature c keys canonical_signed authorized role_name t s ≡ ok t'
      → (t'.good ≡ t.good) ⊎ ((t'.good ≡ set_insert s.keyid t.good) × IsCounted authorized s)
  unfolding count_signature
  count_signature-good authorized role_name t t' s e = ground arith

  module _ (authorized : List Str) (role_name : Str) (Q : Str → Type 0) where
    abbrev Sound : Tally → Type 0
    Sound t = Distinct t.good × All Q t.good

    set_insert-Sound :
        (k : Str) (ks : List Str)
        → Q k
        → Distinct ks
        → All Q ks
        → Distinct (set_insert k ks) × All Q (set_insert k ks)
    set_insert-Sound k ks q d a = elim (Bool-cases (contains k ks)) [
      | inl old ↦ rw old (d, a)
      | inr new ↦ rw new ((new, d), (q, a))
    ]

    count_signature-Sound :
        (t t' : Tally) (s : Signature)
        → (IsCounted authorized s → Q s.keyid)
        → count_signature c keys canonical_signed authorized role_name t s ≡ ok t'
        → Sound t
        → Sound t'
    count_signature-Sound t t' s q e h = elim (count_signature-good authorized role_name t t' s e) [
      | inl same ↦ rw same h
      | inr (more, counted) ↦ rw more (set_insert-Sound s.keyid t.good (q counted) h.0 h.1)
    ]

    count_signatures-Sound :
        (t t' : Tally) (sigs : List Signature)
        → All (λ s. IsCounted authorized s → Q s.keyid) sigs
        → count_signatures c keys canonical_signed authorized role_name t sigs ≡ ok t'
        → Sound t
        → Sound t'
    unfolding count_signatures
    count_signatures-Sound t t' [] q e h = subst Sound (ok_inj e) h
    count_signatures-Sound t t' (s ∷ sigs) q e h =
        let (u, eu, er) = >>=-eq-ok _ _ e in
        count_signatures-Sound u t' sigs q.1 er (count_signature-Sound t u s q.0 eu h)

  -- What a met threshold means: at least `threshold` distinct key ids that the role authorizes, each
  -- with a good signature.
  abbrev pub MeetsThreshold : RoleKeys → List Signature → Type 0
  MeetsThreshold role_keys sigs =
      (ks : List Str) × (1 ≤ role_keys.threshold)
      × (role_keys.threshold ≤ length ks)
      × Distinct ks
      × All (λ k. (contains k role_keys.keyids ≡ true) × SignedBy sigs k) ks

-- A verified envelope has, for a threshold of 1 or more, that many distinct key ids which the role
-- authorizes, each with a signature of the envelope that is no placeholder and verifies over the
-- signed bytes under the key declared for the id.
pub verify_threshold_sound :
    {T : Type 0} (c : Crypto) (m : Metadata T) (keys : Map Key) (role_keys : RoleKeys)
    (role_name : Str)
    → verify_threshold c m keys role_keys role_name ≡ ok tt
    → MeetsThreshold c keys m.canonical_signed role_keys m.signatures
unfolding verify_threshold
verify_threshold_sound c m keys role_keys role_name e =
    elim (Bool-cases (role_keys.threshold == 0)) [
      | inl zero_threshold ↦ cc (rw zero_threshold at e)
      | inr positive ↦
          let (t, counted, enough) = >>=-eq-ok _ _ (rw positive at e) in
          let (distinct, signed) =
            count_signatures-Sound c keys m.canonical_signed role_keys.keyids role_name
              (λ k.
                (contains k role_keys.keyids ≡ true)
                × SignedBy c keys m.canonical_signed m.signatures k)
              _ t m.signatures
              (IsCounted-SignedBy c keys m.canonical_signed role_keys.keyids m.signatures) counted
              (tt, tt) in
          (t.good, ground arith, ground arith, distinct, signed)
    ]
