-- ===== src/TrustRoot/Lookup.antt =====
-- crates/sigstore-trust-root/src/trusted_root.rs: which keys and certificates the queries give.
use sigstore_rust.Common.{
  zero, suc, ◌≤◌, List, [], ◌∷◌, Bool, true, false, Bytes, Str, Option, none, some, bytes_eq, take,
  length, leb, eq_of_bytes_eq, In, In-tail, In-append, In-append_left, In-append_right, ◌≡◌, refl,
  ◌↔◌, inl, inr, Bool-cases, arith, ap, sym, ◌∙◌, some_inj, if◌then◌else◌,
}
use sigstore_rust.Common.Fallible.{ok, >>=-eq-ok, ok_inj, Result-cases}
use sigstore_rust.Types.Encoding.{Codec, KeyHint, LogKeyId, log_key_id_decode}
use sigstore_rust.TrustRoot.{
  Result, Timestamp, ValidityPeriod, TransparencyLog, CertificateAuthority, TrustedRoot,
  usable_for_verification, collect,
}
use sigstore_rust.TrustRoot.Keys.{
  fulcio_certs, key_with_hint, rekor_keys_with_hints, valid_at, key_for_log, rekor_key_for_log,
  rekor_key_for_log_at,
}
use sigstore_rust.TrustRoot.Windows.{Started, Holds, usable_for_verification-Started, contains_iff}

no_member : {B : Type 0} {b : B} → In [] b → ⊥
no_member (i, h) = cc

only :
    {A : Type 0} {B : Type 0} {a : A} {c : B} {b : A × B}
    → In ((a, c) ∷ []) b
    → (b.0 ≡ a) × (b.1 ≡ c)
only (zero, h) = (ap (λ x. x.0) (sym (some_inj h)), ap (λ x. x.1) (sym (some_inj h)))
only (suc i, h) = absurd (no_member (i, h))

chosen :
    {B : Type 0} {b : B} (u : Bool) (r : Result (List B)) (pushed : List B)
    → (if u then r else ok []) ≡ ok pushed
    → In pushed b
    → (u ≡ true) × (r ≡ ok pushed)
chosen true r pushed e m = (refl, e)
chosen false r pushed e m = absurd (no_member (rw (← ok_inj e) at m))

module _ (parse_timestamp : Str → Option Timestamp) where
  -- What an instance that may be used pushes is what the loop collects.
  Pushed :
      {I : Type 0} {B : Type 0}
      → (I → Option ValidityPeriod)
      → (I → Result (List B))
      → Timestamp
      → List I
      → B
      → Type 0
  Pushed {I = I} {B = B} valid_for body now items b =
      (item : I) × (pushed : List B) × In items item
      × Started parse_timestamp (valid_for item) now
      × (body item ≡ ok pushed)
      × In pushed b

  collect_sound :
      {I : Type 0} {B : Type 0} (valid_for : I → Option ValidityPeriod) (body : I → Result (List B))
      (now : Timestamp) (items : List I) (out : List B) (b : B)
      → collect parse_timestamp valid_for body now items ≡ ok out
      → In out b
      → Pushed valid_for body now items b
  unfolding collect Pushed
  collect_sound valid_for body now [] out b e m = absurd (no_member (rw (← ok_inj e) at m))
  collect_sound valid_for body now (item ∷ items) out b e m =
      let (usable, started, e1) =
        >>=-eq-ok (usable_for_verification parse_timestamp (valid_for item) now) _ e in
      let (pushed, gave, e2) = >>=-eq-ok (if usable then body item else ok []) _ e1 in
      let (rest, collected, e3) =
        >>=-eq-ok (collect parse_timestamp valid_for body now items) _ e2 in
      elim (In-append pushed rest (rw (← ok_inj e3) at m)) [
        | inl here ↦
            let (on, ran) = chosen usable (body item) pushed gave here in
            (
              item,
              pushed,
              (0, refl),
              (usable_for_verification-Started parse_timestamp (valid_for item) now).0
                  (started ∙ ap ok on),
              ran,
              here,
            )
        | inr later ↦
            let (i, q, at, q1, q2, q3) =
              collect_sound valid_for body now items rest b collected later in
            (i, q, In-tail item items at, q1, q2, q3)
      ]

  collect_complete :
      {I : Type 0} {B : Type 0} (valid_for : I → Option ValidityPeriod) (body : I → Result (List B))
      (now : Timestamp) (items : List I) (out : List B) (b : B)
      → collect parse_timestamp valid_for body now items ≡ ok out
      → Pushed valid_for body now items b
      → In out b
  unfolding collect Pushed
  collect_complete valid_for body now [] out b e (item, q, m, s, r, h) = absurd (no_member m)
  collect_complete valid_for body now (item ∷ items) out b e (i, q, (zero, at), open_, ran, m) =
      let (usable, started, e1) =
        >>=-eq-ok (usable_for_verification parse_timestamp (valid_for item) now) _ e in
      let (pushed, gave, e2) = >>=-eq-ok (if usable then body item else ok []) _ e1 in
      let (rest, collected, e3) =
        >>=-eq-ok (collect parse_timestamp valid_for body now items) _ e2 in
      let same : item ≡ i = some_inj at in
      let on : usable ≡ true = ok_inj (
        sym started
        ∙ (usable_for_verification-Started parse_timestamp (valid_for item) now).1
            (rw same open_)) in
      let both : ok q ≡ ok pushed = sym ran ∙ ap body (sym same) ∙ (rw on at gave) in
      rw (← ok_inj e3) (In-append_left pushed rest (rw (← ok_inj both) m))
  collect_complete valid_for body now (item ∷ items) out b e (i, q, (suc n, at), open_, ran, m) =
      let (usable, started, e1) =
        >>=-eq-ok (usable_for_verification parse_timestamp (valid_for item) now) _ e in
      let (pushed, gave, e2) = >>=-eq-ok (if usable then body item else ok []) _ e1 in
      let (rest, collected, e3) =
        >>=-eq-ok (collect parse_timestamp valid_for body now items) _ e2 in
      rw (← ok_inj e3) (
        In-append_right pushed rest (
          collect_complete valid_for body now items rest b collected
            (i, q, (n, at), open_, ran, m)))

  -- When `fulcio_certs` gives certificates, they are those of the authorities whose window has started,
  -- the expired ones included.
  pub fulcio_certs_iff :
      (root : TrustedRoot) (now : Timestamp) (certs : List Bytes) (cert : Bytes)
      → fulcio_certs parse_timestamp root now ≡ ok certs
      → In certs cert ↔ (
          (ca : CertificateAuthority) × In root.certificate_authorities ca
          × Started parse_timestamp ca.valid_for now
          × In ca.cert_chain cert)
  unfolding fulcio_certs Pushed
  fulcio_certs_iff root now certs cert e = (
    (λ m.
        let (ca, pushed, at, started, ran, here) = collect_sound _ _ now _ certs cert e m in
        (ca, at, started, rw (ok_inj ran) here)),
    (λ (ca, at, started, here).
        collect_complete _ _ now _ certs cert e (ca, ca.cert_chain, at, started, refl, here)),
  )

  -- A log with the identifier has the key, and the key's window is as described.
  abbrev pub LogKey :
      (Option ValidityPeriod → Type 0) → List TransparencyLog → LogKeyId → Bytes → Type 0
  LogKey Window tlogs log_id key =
      (tlog : TransparencyLog) × In tlogs tlog
      × (tlog.log_id ≡ log_id)
      × Window tlog.public_key.valid_for
      × (key ≡ tlog.public_key.raw_bytes)

  LogKey-tail :
      (Window : Option ValidityPeriod → Type 0) (tlog : TransparencyLog)
      (rest : List TransparencyLog) (log_id : LogKeyId) (key : Bytes)
      → LogKey Window rest log_id key
      → LogKey Window (tlog ∷ rest) log_id key
  LogKey-tail Window tlog rest log_id key (t, at, q, q1, q2) = (t, In-tail tlog rest at, q, q1, q2)

  key_for_log-LogKey :
      (test : Option ValidityPeriod → Result Bool) (Window : Option ValidityPeriod → Type 0)
      → ((w : Option ValidityPeriod) → test w ≡ ok true → Window w)
      → (tlogs : List TransparencyLog) (log_id : LogKeyId) (key : Bytes)
      → key_for_log parse_timestamp test tlogs log_id ≡ ok key
      → LogKey Window tlogs log_id key
  unfolding key_for_log
  key_for_log-LogKey test Window agree [] log_id key e = cc
  key_for_log-LogKey test Window agree (tlog ∷ rest) log_id key e =
      elim (Bool-cases (bytes_eq tlog.log_id log_id)) [
        | inr other ↦
            LogKey-tail Window tlog rest log_id key
              (key_for_log-LogKey test Window agree rest log_id key (rw (other, key_for_log) at e))
        | inl same ↦
            let (valid, window, e1) =
              >>=-eq-ok (test tlog.public_key.valid_for) _ (rw (same, key_for_log) at e) in
            elim (Bool-cases valid) [
              | inl on ↦ (
                tlog,
                (0, refl),
                eq_of_bytes_eq tlog.log_id log_id same,
                agree tlog.public_key.valid_for (window ∙ ap ok on),
                sym (ok_inj (rw on at e1)),
              )
              | inr off ↦
                  LogKey-tail Window tlog rest log_id key
                    (key_for_log-LogKey test Window agree rest log_id key (rw off at e1))
            ]
      ]

  valid_at-Holds :
      (time : Timestamp) (valid_for : Option ValidityPeriod)
      → valid_at parse_timestamp valid_for time ≡ ok true
      → Holds parse_timestamp valid_for time
  unfolding valid_at
  valid_at-Holds time none e = tt
  valid_at-Holds time (some period) e = (contains_iff parse_timestamp period time).0 e

  pub rekor_key_for_log_at_sound :
      (root : TrustedRoot) (log_id : LogKeyId) (time : Timestamp) (key : Bytes)
      → rekor_key_for_log_at parse_timestamp root log_id time ≡ ok key
      → LogKey (λ w. Holds parse_timestamp w time) root.tlogs log_id key
  unfolding rekor_key_for_log_at
  rekor_key_for_log_at_sound root log_id time key e =
      key_for_log-LogKey _ _ (valid_at-Holds time) root.tlogs log_id key e

  pub rekor_key_for_log_sound :
      (root : TrustedRoot) (log_id : LogKeyId) (now : Timestamp) (key : Bytes)
      → rekor_key_for_log parse_timestamp root log_id now ≡ ok key
      → LogKey (λ w. Started parse_timestamp w now) root.tlogs log_id key
  unfolding rekor_key_for_log
  rekor_key_for_log_sound root log_id now key e =
      key_for_log-LogKey _ _ (λ w h. (usable_for_verification-Started parse_timestamp w now).0 h)
        root.tlogs log_id key e

  module _ (codec : Codec) where
    -- The log's key, with the first four bytes of its identifier.
    abbrev pub Hinted : TransparencyLog → KeyHint → Bytes → Type 0
    Hinted tlog hint key =
        (id : Bytes) × (log_key_id_decode codec tlog.log_id ≡ ok id)
        × (4 ≤ length id)
        × (hint ≡ take 4 id)
        × (key ≡ tlog.public_key.raw_bytes)

    key_with_hint-Hinted :
        (tlog : TransparencyLog) (pushed : List (KeyHint × Bytes)) (b : KeyHint × Bytes)
        → key_with_hint parse_timestamp codec tlog ≡ ok pushed
        → In pushed b
        → Hinted tlog b.0 b.1
    unfolding key_with_hint
    key_with_hint-Hinted tlog pushed b e m =
        elim (Result-cases (log_key_id_decode codec tlog.log_id)) [
          | inr (why, bad) ↦ cc (rw bad at e)
          | inl (id, decoded) ↦ elim (Bool-cases (leb 4 (length id))) [
            | inr short ↦ absurd (no_member (rw (← ok_inj (rw (decoded, short) at e)) at m))
            | inl long ↦
                let (h, k) = only (rw (← ok_inj (rw (decoded, long) at e)) at m) in
                (id, decoded, ground arith, h, k)
          ]
        ]

    -- When `rekor_keys_with_hints` gives keys, each is that of a log whose key's window has started, with
    -- the first four bytes of the log's identifier.
    pub rekor_keys_with_hints_sound :
        (root : TrustedRoot) (now : Timestamp) (keys : List (KeyHint × Bytes)) (b : KeyHint × Bytes)
        → rekor_keys_with_hints parse_timestamp codec root now ≡ ok keys
        → In keys b
        → (tlog : TransparencyLog) × In root.tlogs tlog
          × Started parse_timestamp tlog.public_key.valid_for now
          × Hinted tlog b.0 b.1
    unfolding rekor_keys_with_hints Pushed
    rekor_keys_with_hints_sound root now keys b e m =
        let (tlog, pushed, at, started, ran, here) = collect_sound _ _ now _ keys b e m in
        (tlog, at, started, key_with_hint-Hinted tlog pushed b ran here)
