-- ===== src/Tsa/Sound.antt =====
-- crates/sigstore-tsa/src/verify.rs: what an accepted timestamp establishes.
use sigstore_rust.Common.{
  List, [], ◌∷◌, ◌++◌, true, false, some, Bytes, Str, bytes_eq, eq_of_bytes_eq, not, not-true,
  is_empty, In, In-tail, ◌≡◌, sym, ap, ◌∙◌, ◌⊎◌, inl, inr, Bool-cases, some_inj,
}
use sigstore_rust.Common.Int.{pos, ◌≤ℤ◌, ltb_ℤ, ltb_ℤ-false, as_u64}
use sigstore_rust.Common.Fallible.{
  ok, >>=-eq-ok, ensure_then_ok, ensure-eq-ok, ok_or_then_ok, ok_inj,
}
use sigstore_rust.Types.Bundle.{first}
use sigstore_rust.TrustRoot.{Timestamp}
use sigstore_rust.Verify.Platform.{TsaVerifyOpts}
use sigstore_rust.Tsa.{
  oid_sha256, oid_sha384, oid_sha512, TstInfo, SignedData, SignerInfo, Attribute, Certificate,
  SignerIdentifier, EcdsaAlgorithm, Tsp, oid_ec_public_key, oid_signed_data, oid_tst_info,
}
use sigstore_rust.Tsa.Verify.{
  parse_timestamp_token, digest_by, verify_message_imprint, extract_certificates,
  provided_certificates, identifies, find_signer_certificate, message_digest_of,
  verify_message_digest_attribute, ecdsa_algorithm, verify_ecdsa_signature, verify_cms_signature,
  trust_anchors, embedded_intermediates, validate_tsa_certificate_chain, verify_timestamp_response,
  content_info_of,
}

at_least_zero : (a b : Timestamp) → a ≡ b → not (ltb_ℤ a (pos 0)) ≡ true → pos 0 ≤ℤ b
at_least_zero a b e h = rw (← e) (ltb_ℤ-false a (pos 0) (not-true _ h))

module _ (c : Tsp) where
  -- The digest of the message by a SHA-2 that the identifier names.
  abbrev pub IsDigest : Str → Bytes → Bytes → Type 0
  IsDigest oid message hash =
      ((oid ≡ oid_sha256) × (hash ≡ c.sha256 message))
      ⊎ (((oid ≡ oid_sha384) × (hash ≡ c.sha384 message))
          ⊎ ((oid ≡ oid_sha512) × (hash ≡ c.sha512 message)))

  -- The certificate is one of the token or the options, and is the first signer's. That one's attributes
  -- hold the digest of the content, and the certificate's key signs them.
  abbrev pub ContentSigned : SignedData → Bytes → TsaVerifyOpts → Certificate → Type 0
  ContentSigned signed_data content opts cert =
      (info : SignerInfo) × (attrs : List Attribute) × (hash : Bytes) × (attrs_der : Bytes)
      × (key : Bytes) × (algorithm : EcdsaAlgorithm) × (first signed_data.signer_infos ≡ some info)
      × In (extract_certificates c signed_data ++ provided_certificates c opts.tsa_certificates)
          cert
      × (identifies c info.sid cert ≡ true)
      × (info.signed_attrs ≡ some attrs)
      × (message_digest_of c attrs ≡ ok hash)
      × IsDigest info.digest_alg content hash
      × (c.attributes_to_der attrs ≡ some attrs_der)
      × (cert.subject_public_key ≡ some key)
      × (c.verify_ecdsa algorithm key attrs_der info.signature ≡ true)

  -- The certificate chains to a root of the options for time stamping at that time.
  abbrev pub Chained : Certificate → Timestamp → TsaVerifyOpts → List Certificate → Type 0
  Chained cert time opts embedded =
      (der : Bytes) × (anchors : List Bytes) × (intermediates : List Bytes) × (is_empty opts.roots
        ≡ false)
      × (cert.der ≡ some der)
      × (trust_anchors c opts.roots ≡ ok anchors)
      × (embedded_intermediates c cert embedded ≡ ok intermediates)
      × (c.verify_for_usage der anchors (intermediates ++ opts.intermediates)
            (as_u64 (c.as_second time))
          ≡ true)

  abbrev pub Stamps : Bytes → Bytes → TsaVerifyOpts → Timestamp → Type 0
  Stamps token signature opts time =
      (tst_info : TstInfo) × (signed_data : SignedData) × (content : Bytes) × (cert : Certificate)
      × (parse_timestamp_token c token ≡ ok (tst_info, signed_data))
      × (signed_data.econtent ≡ some content)
      × (c.tst_info_from_der content ≡ some tst_info)
      × IsDigest tst_info.message_imprint.hash_algorithm signature
          tst_info.message_imprint.hashed_message
      × (tst_info.gen_time ≡ some time)
      × (pos 0 ≤ℤ time)
      × ContentSigned signed_data content opts cert
      × Chained cert time opts (extract_certificates c signed_data)

  digest_by-IsDigest :
      (oid message hash : Bytes) → digest_by c oid message ≡ ok hash → IsDigest oid message hash
  unfolding digest_by
  digest_by-IsDigest oid message hash e = elim (Bool-cases (bytes_eq oid oid_sha256)) [
    | inl a ↦ inl (eq_of_bytes_eq oid _ a, sym (ok_inj (rw a at e)))
    | inr a ↦ elim (Bool-cases (bytes_eq oid oid_sha384)) [
      | inl b ↦ inr (inl (eq_of_bytes_eq oid _ b, sym (ok_inj (rw (a, b) at e))))
      | inr b ↦ elim (Bool-cases (bytes_eq oid oid_sha512)) [
        | inl d ↦ inr (inr (eq_of_bytes_eq oid _ d, sym (ok_inj (rw (a, b, d) at e))))
        | inr d ↦ cc (rw (a, b, d) at e)
      ]
    ]
  ]

  find_signer_certificate_ok :
      (sid : SignerIdentifier) (certs : List Certificate) {cert : Certificate}
      → find_signer_certificate c sid certs ≡ ok cert
      → In certs cert × (identifies c sid cert ≡ true)
  unfolding find_signer_certificate
  find_signer_certificate_ok sid [] e = cc
  find_signer_certificate_ok sid (x ∷ xs) e = elim (Bool-cases (identifies c sid x)) [
    | inl yes_it ↦
        let same : x ≡ _ = ok_inj (rw yes_it at e) in ((0, ap some same), rw (← same) yes_it)
    | inr other_one ↦
        let (m, t) = find_signer_certificate_ok sid xs (rw other_one at e) in (In-tail x xs m, t)
  ]

  checked-IsDigest :
      (attrs : List Attribute) (content : Bytes) (oid : Str)
      → verify_message_digest_attribute c attrs content oid ≡ ok tt
      → (hash : Bytes) × (message_digest_of c attrs ≡ ok hash) × IsDigest oid content hash
  unfolding verify_message_digest_attribute
  checked-IsDigest attrs content oid e =
      let (stored, has, e1) = >>=-eq-ok (message_digest_of c attrs) _ e in
      let (computed, hashed, e2) = >>=-eq-ok (digest_by c oid content) _ e1 in
      let same = eq_of_bytes_eq computed stored (ensure-eq-ok _ _ e2) in
      (stored, has, digest_by-IsDigest oid content stored (hashed ∙ ap ok same))

  ecdsa_signed :
      (signature message : Bytes) (cert : Certificate) (oid : Str)
      → verify_ecdsa_signature c signature message cert oid ≡ ok tt
      → (key : Bytes) × (algorithm : EcdsaAlgorithm) × (cert.subject_public_key ≡ some key)
        × (c.verify_ecdsa algorithm key message signature ≡ true)
  unfolding verify_ecdsa_signature
  ecdsa_signed signature message cert oid e =
      let (key, has, e1) = ok_or_then_ok cert.subject_public_key _ _ e in
      let (_, e2) = ensure_then_ok (bytes_eq cert.spki_oid oid_ec_public_key) _ _ e1 in
      let (params, _, e3) = ok_or_then_ok cert.spki_curve _ _ e2 in
      let (curve, _, e4) = ok_or_then_ok params _ _ e3 in
      let (algorithm, _, e5) = >>=-eq-ok (ecdsa_algorithm c curve oid) _ e4 in
      (key, algorithm, has, ensure-eq-ok _ _ e5)

  verify_cms_signature-ContentSigned :
      (signed_data : SignedData) (content : Bytes) (opts : TsaVerifyOpts) (cert : Certificate)
      → verify_cms_signature c signed_data content opts ≡ ok cert
      → ContentSigned signed_data content opts cert
  unfolding verify_cms_signature
  verify_cms_signature-ContentSigned signed_data content opts cert e =
      let (info, is_first, e1) = ok_or_then_ok (first signed_data.signer_infos) _ _ e in
      let (found, finds, e2) = >>=-eq-ok (find_signer_certificate c info.sid _) _ e1 in
      let (attrs, has, e3) = ok_or_then_ok info.signed_attrs _ _ e2 in
      let (_, digest, e4) =
        >>=-eq-ok (verify_message_digest_attribute c attrs content info.digest_alg) _ e3 in
      let (attrs_der, encoded, e5) = ok_or_then_ok (c.attributes_to_der attrs) _ _ e4 in
      let (_, signed, e6) =
        >>=-eq-ok (verify_ecdsa_signature c info.signature attrs_der found info.digest_alg) _ e5 in
      let same : found ≡ cert = ok_inj e6 in
      let (listed, named) = find_signer_certificate_ok info.sid _ (finds ∙ ap ok same) in
      let (hash, stored, hashed) = checked-IsDigest attrs content info.digest_alg digest in
      let (key, algorithm, is_key, good) =
        ecdsa_signed info.signature attrs_der cert info.digest_alg (
          ap (λ x. verify_ecdsa_signature c info.signature attrs_der x info.digest_alg) (sym same)
          ∙ signed) in
      (
        info, attrs, hash, attrs_der, key, algorithm, is_first, listed, named, has, stored, hashed,
        encoded, is_key, good,
      )

  validate_tsa_certificate_chain-Chained :
      (cert : Certificate) (time : Timestamp) (opts : TsaVerifyOpts) (embedded : List Certificate)
      → validate_tsa_certificate_chain c cert time opts embedded ≡ ok tt
      → Chained cert time opts embedded
  unfolding validate_tsa_certificate_chain
  validate_tsa_certificate_chain-Chained cert time opts embedded e =
      let (rooted, e1) = ensure_then_ok (not (is_empty opts.roots)) _ _ e in
      let (der, encoded, e2) = ok_or_then_ok cert.der _ _ e1 in
      let (_, e3) = ensure_then_ok (c.is_end_entity der) _ _ e2 in
      let (anchors, anchored, e4) = >>=-eq-ok (trust_anchors c opts.roots) _ e3 in
      let (inter, decoded, e5) = >>=-eq-ok (embedded_intermediates c cert embedded) _ e4 in
      (der, anchors, inter, not-true _ rooted, encoded, anchored, decoded, ensure-eq-ok _ _ e5)

  parsed_content :
      (token : Bytes) (tst_info : TstInfo) (signed_data : SignedData)
      → parse_timestamp_token c token ≡ ok (tst_info, signed_data)
      → (content : Bytes) × (signed_data.econtent ≡ some content)
        × (c.tst_info_from_der content ≡ some tst_info)
  unfolding parse_timestamp_token
  parsed_content token tst_info signed_data e =
      let (outer, _, e1) = >>=-eq-ok (content_info_of c token) _ e in
      let (_, e2) = ensure_then_ok (bytes_eq outer.content_type oid_signed_data) _ _ e1 in
      let (der, _, e3) = ok_or_then_ok outer.content _ _ e2 in
      let (sd, _, e4) = ok_or_then_ok (c.signed_data_from_der der) _ _ e3 in
      let (_, e5) = ensure_then_ok (bytes_eq sd.econtent_type oid_tst_info) _ _ e4 in
      let (content, has, e6) = ok_or_then_ok sd.econtent _ _ e5 in
      let (info, read, e7) = ok_or_then_ok (c.tst_info_from_der content) _ _ e6 in
      let both : ◌≡◌ {A = TstInfo × SignedData} (info, sd) (tst_info, signed_data) = ok_inj e7 in
      (
        content,
        ap (λ (q : TstInfo × SignedData). q.1.econtent) (sym both) ∙ has,
        read ∙ ap (λ (q : TstInfo × SignedData). some q.0) both,
      )

  verify_message_imprint-IsDigest :
      (tst_info : TstInfo) (signature : Bytes)
      → verify_message_imprint c tst_info signature ≡ ok tt
      → IsDigest tst_info.message_imprint.hash_algorithm signature
          tst_info.message_imprint.hashed_message
  unfolding verify_message_imprint
  verify_message_imprint-IsDigest tst_info signature e =
      let (computed, hashed, e1) =
        >>=-eq-ok (digest_by c tst_info.message_imprint.hash_algorithm signature) _ e in
      digest_by-IsDigest _ signature _ (
        hashed
        ∙ ap ok
            (eq_of_bytes_eq computed tst_info.message_imprint.hashed_message (ensure-eq-ok _ _ e1)))

  -- A token whose timestamp is accepted for a signature parses to a time-stamp info that has the
  -- signature's digest by a SHA-2, and that time, not before 1970; the info's bytes are what the token's
  -- first signer, whose certificate is in the token or the options, signs by way of its attributes; and
  -- that certificate chains, for time stamping and at that time, to one of the roots, of which there are some.
  pub verify_timestamp_response-Stamps :
      (token signature : Bytes) (opts : TsaVerifyOpts) (time : Timestamp)
      → verify_timestamp_response c token signature opts ≡ ok time
      → Stamps token signature opts time
  unfolding verify_timestamp_response
  verify_timestamp_response-Stamps token signature opts time e =
      let (parts, parsed, e1) = >>=-eq-ok (parse_timestamp_token c token) _ e in
      let tst_info : TstInfo = parts.0 in
      let signed_data : SignedData = parts.1 in
      let (_, imprint, e2) = >>=-eq-ok (verify_message_imprint c tst_info signature) _ e1 in
      let (at, given, e3) = ok_or_then_ok tst_info.gen_time _ _ e2 in
      let (since, e4) = ensure_then_ok (not (ltb_ℤ at (pos 0))) _ _ e3 in
      let (content, has, e5) = ok_or_then_ok signed_data.econtent _ _ e4 in
      let (cert, signed, e6) = >>=-eq-ok (verify_cms_signature c signed_data content opts) _ e5 in
      let (_, chained, e7) =
        >>=-eq-ok
          (validate_tsa_certificate_chain c cert at opts (extract_certificates c signed_data)) _
          e6 in
      let same : at ≡ time = ok_inj e7 in
      let (content', has', read) = parsed_content token tst_info signed_data parsed in
      let one : content' ≡ content = some_inj (sym has' ∙ has) in
      (
        tst_info,
        signed_data,
        content,
        cert,
        parsed,
        has,
        ap c.tst_info_from_der (sym one) ∙ read,
        verify_message_imprint-IsDigest tst_info signature imprint,
        given ∙ ap some same,
        at_least_zero at time same since,
        verify_cms_signature-ContentSigned signed_data content opts cert signed,
        validate_tsa_certificate_chain-Chained cert time opts (extract_certificates c signed_data) (
            ap
              (λ x.
                validate_tsa_certificate_chain c cert x opts (extract_certificates c signed_data))
              (sym same)
            ∙ chained),
      )
