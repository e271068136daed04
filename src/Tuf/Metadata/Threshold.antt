-- ===== src/Tuf/Metadata/Threshold.antt =====
-- `Metadata::verify_threshold` of crates/sigstore-tuf/src/metadata/mod.rs.
pub mod Loop
pub mod Exact
use sigstore_rust.Common.{
  ℕ, List, [], ◌∷◌, Bool, true, false, Option, none, some, Bytes, Str, Map, if◌then◌else◌, lookup,
  contains, set_insert, length, not, ltb, leb, ◌==◌, is_empty,
}
use sigstore_rust.Common.Fallible.{ok, err, ◌>>=◌, ensure, ◌>>◌}
use sigstore_rust.Tuf.Error.{Result, malformed, duplicate_signature, threshold_not_met}
use sigstore_rust.Tuf.Key.{Key, Crypto, verification_key, verify_is_ok}
use sigstore_rust.Tuf.Metadata.{RoleKeys, Signature, Metadata}

-- The sets `good` and `seen` of the loop.
pub record Tally : Type 0 where
  pub good : List Str
  pub seen : List Str

module _ (c : Crypto) where
  -- Whether the signature is a good one of the key with its id: the key is declared, the text is hex,
  -- the key is usable and the signature verifies.
  unfoldable pub is_good : Map Key → Bytes → Signature → Bool
  is_good keys canonical_signed sig = elim (lookup sig.keyid keys) [
    | none ↦ false
    | some key ↦ elim (c.hex_decode sig.sig) [
      | none ↦ false
      | some raw ↦ elim (verification_key c key) [
        | err e ↦ false
        | ok vkey ↦ verify_is_ok c vkey canonical_signed raw
      ]
    ]
  ]

  -- The body of the loop: one signature.
  unfoldable pub count_signature :
      Map Key → Bytes → List Str → Str → Tally → Signature → Result Tally
  count_signature keys canonical_signed authorized role_name t sig =
      if not (contains sig.keyid authorized)
      then ok t
      else if is_empty sig.sig
      then ok t
      else if contains sig.keyid t.seen
      then err (duplicate_signature role_name sig.keyid)
      else if is_good keys canonical_signed sig
      then ok (record { good = set_insert sig.keyid t.good; seen = sig.keyid ∷ t.seen })
      else ok (record { good = t.good; seen = sig.keyid ∷ t.seen })

  unfoldable pub count_signatures :
      Map Key → Bytes → List Str → Str → Tally → List Signature → Result Tally
  count_signatures keys canonical_signed authorized role_name t [] = ok t
  count_signatures keys canonical_signed authorized role_name t (sig ∷ rest) = do
    t' ← count_signature keys canonical_signed authorized role_name t sig
    count_signatures keys canonical_signed authorized role_name t' rest

  unfoldable pub verify_threshold :
      {T : Type 0} → Metadata T → Map Key → RoleKeys → Str → Result (Unit {0})
  verify_threshold m keys role_keys role_name =
      if role_keys.threshold == 0
      then err malformed
      else (count_signatures keys m.canonical_signed role_keys.keyids role_name
            (record { good = []; seen = [] }) m.signatures
          >>= λ t.
              if leb role_keys.threshold (length t.good)
              then ok tt
              else err (threshold_not_met role_name (length t.good) role_keys.threshold))
