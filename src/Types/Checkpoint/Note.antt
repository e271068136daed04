-- ===== src/Types/Checkpoint/Note.antt =====
-- crates/sigstore-types/src/checkpoint.rs: what an accepted checkpoint says about its text.
use sigstore_rust.Common.{
  ◌<◌, ◌≤◌, ◌^◌, List, [], ◌∷◌, ◌++◌, true, Bytes, Str, All, length, take, drop, is_empty, not, ltb,
  starts_with, Bool-cases, inl, inr, ◌≡◌, sym, ◌∙◌, arith,
}
use mathlib.Core.List.{append_assoc}
use sigstore_rust.Common.Fallible.{ok, err, >>=-eq-ok, ensure_then_ok, ok_or_then_ok, ok_inj}
use sigstore_rust.Types.Error.{Result}
use sigstore_rust.Types.Encoding.{
  Codec, sha256_try_from_slice, sha256_try_from_slice-eq-ok, key_hint_try_from_slice,
  key_hint_try_from_slice-eq-ok,
}
use sigstore_rust.Types.Text.{
  first_two, split_blank, split_blank-HeadOf, lines, trim, split_whitespace, parse_u64,
  parse_u64-lt,
}
use sigstore_rust.Types.Checkpoint.{
  Checkpoint, CheckpointSignature, or_invalid, next, second_third, em_dash, parse_signature_line,
  parse_signatures, from_text,
}

or_invalid-eq-ok : {A : Type 0} (r : Result A) {a : A} → or_invalid r ≡ ok a → r ≡ ok a
or_invalid-eq-ok (ok a) h = cc
or_invalid-eq-ok (err e) h = cc

-- A signature has a key identifier of four bytes, and bytes of its own.
abbrev pub SignatureShaped : CheckpointSignature → Type 0
SignatureShaped sig = (length sig.key_id ≡ 4) × (1 ≤ length sig.signature)

drop_four : (b : Bytes) → not (ltb (length b) 5) ≡ true → 1 ≤ length (drop 4 b)
drop_four [] h = cc
drop_four (a ∷ []) h = cc
drop_four (a ∷ b ∷ []) h = cc
drop_four (a ∷ b ∷ c ∷ []) h = cc
drop_four (a ∷ b ∷ c ∷ d ∷ []) h = cc
drop_four (a ∷ b ∷ c ∷ d ∷ e ∷ s) h = omega arith

module _ (codec : Codec) where
  parse_signature_line-Shaped :
      (line : Str) (sig : CheckpointSignature)
      → parse_signature_line codec line ≡ ok sig
      → SignatureShaped sig
  unfolding parse_signature_line
  parse_signature_line-Shaped line sig e =
      let (_, e1) = ensure_then_ok (starts_with line em_dash) _ _ e in
      let (parts, _, e2) = ok_or_then_ok (second_third (split_whitespace line)) _ _ e1 in
      let (decoded, _, e3) = ok_or_then_ok (codec.base64_decode parts.1) _ _ e2 in
      let (long, e4) = ensure_then_ok (not (ltb (length decoded) 5)) _ _ e3 in
      let (key_id, four, e5) = >>=-eq-ok (key_hint_try_from_slice (take 4 decoded)) _ e4 in
      rw (← ok_inj e5) ((key_hint_try_from_slice-eq-ok _ key_id four).1, drop_four decoded long)

  parse_signatures-Shaped :
      (ls : List Str) (sigs : List CheckpointSignature)
      → parse_signatures codec ls ≡ ok sigs
      → All SignatureShaped sigs
  unfolding parse_signatures
  parse_signatures-Shaped [] sigs e = rw (← ok_inj e) tt
  parse_signatures-Shaped (line ∷ ls) sigs e = elim (Bool-cases (is_empty (trim line))) [
    | inl blank ↦ parse_signatures-Shaped ls sigs (rw (blank, parse_signatures) at e)
    | inr full ↦
        let (sig, one, e1) =
          >>=-eq-ok (parse_signature_line codec (trim line)) _ (rw (full, parse_signatures) at e) in
        let (rest, others, e2) = >>=-eq-ok (parse_signatures codec ls) _ e1 in
        rw (← ok_inj e2)
          (parse_signature_line-Shaped (trim line) sig one, parse_signatures-Shaped ls rest others)
  ]

  -- A text that is accepted as a checkpoint begins with the text that its signatures are over and a line
  -- feed; the tree's size fits 64 bits, the root hash has 32 bytes, the origin is not empty, and there are
  -- signatures, each with a key identifier of four bytes and bytes of its own.
  pub from_text_ok :
      (text : Str) (c : Checkpoint)
      → from_text codec text ≡ ok c
      → ((rest : Str) × (text ≡ c.signed_note_text ++ (10 ∷ rest)))
        × (c.tree_size < 2 ^ 64)
        × (length c.root_hash ≡ 32)
        × (not (is_empty c.origin) ≡ true)
        × (not (is_empty c.signatures) ≡ true)
        × All SignatureShaped c.signatures
  unfolding from_text
  from_text_ok text c e =
      let (_, e1) = ensure_then_ok (not (is_empty text)) _ _ e in
      let (parts, split, e2) = ok_or_then_ok (first_two (split_blank text)) _ _ e1 in
      let (at_origin, _, e3) = ok_or_then_ok (next (lines parts.0)) _ _ e2 in
      let (named, e4) = ensure_then_ok (not (is_empty (trim at_origin.0))) _ _ e3 in
      let (at_size, _, e5) = ok_or_then_ok (next at_origin.1) _ _ e4 in
      let (size, sized, e6) = ok_or_then_ok (parse_u64 (trim at_size.0)) _ _ e5 in
      let (at_root, _, e7) = ok_or_then_ok (next at_size.1) _ _ e6 in
      let (bytes, _, e8) = ok_or_then_ok (codec.base64_decode (trim at_root.0)) _ _ e7 in
      let (hash, hashed, e9) = >>=-eq-ok (or_invalid (sha256_try_from_slice bytes)) _ e8 in
      let (sigs, signed, e10) = >>=-eq-ok (parse_signatures codec (lines parts.1)) _ e9 in
      let (some_sigs, e11) = ensure_then_ok (not (is_empty sigs)) _ _ e10 in
      let (rest, cut) = split_blank-HeadOf text parts.0 parts.1 split in
      rw (← ok_inj e11) (
        (rest, cut ∙ sym (append_assoc parts.0 (10 ∷ []) (10 ∷ rest))),
        parse_u64-lt (trim at_size.0) size sized,
        (sha256_try_from_slice-eq-ok bytes hash (or_invalid-eq-ok _ hashed)).1,
        named,
        some_sigs,
        parse_signatures-Shaped (lines parts.1) sigs signed,
      )
