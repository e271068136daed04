-- ===== src/Tuf/Error.antt =====
-- crates/sigstore-tuf/src/error.rs. The texts and the wrapped errors that a variant carries are left
-- out; the names, versions and counts are kept.
use sigstore_rust.Common.{ℕ, Str}
use sigstore_rust.Common.Fallible

pub data Error : Type 0 where
  json malformed non_integer_number : Error
  unusable_key : Error
  unsupported_scheme : (keytype scheme : Str) → Error
  unknown_role : (role : Str) → Error
  duplicate_signature : (role key_id : Str) → Error
  threshold_not_met : (role : Str) (found threshold : ℕ) → Error
  rollback : (role : Str) (trusted new : ℕ) → Error
  equal_version : (role : Str) (version : ℕ) → Error
  bad_root_version : (trusted new : ℕ) → Error
  expired : (role expires : Str) → Error
  integrity_mismatch : Error
  invalid_timestamp : (value : Str) → Error
  invalid_signature_encoding crypto transport : Error

abbrev pub Result {ℓ} : Type ℓ → Type ℓ
Result A = Fallible.Result Error A
