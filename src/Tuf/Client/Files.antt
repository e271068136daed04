-- ===== src/Tuf/Client/Files.antt =====
-- crates/sigstore-tuf/src/client.rs: the names of files, and the check of a target's bytes.
use sigstore_rust.Common.{
  ℕ, ◌+◌, ◌/◌, ◌%◌, [], ◌∷◌, Bool, false, ◌&&◌, ◌||◌, not, Option, none, some, Bytes, Str, Map, str,
  if◌then◌else◌, ltb, leb, ◌==◌, lookup, length,
}
use sigstore_rust.Common.Fallible.{ok, ◌>>=◌, ◌>>◌, ensure}
use sigstore_rust.Tuf.Error.{Result, integrity_mismatch}
use sigstore_rust.Tuf.Key.{Crypto}
use sigstore_rust.Tuf.Metadata.{TargetFile, Metadata, Role, Parsers, is_expired}
use sigstore_rust.Tuf.Trusted.{check_hashes}

-- `hex` of a digit, in upper case.
abbrev pub hex_digit : ℕ → ℕ
hex_digit d = if ltb d 10 then b'0' + d else 55 + d

unfoldable pub is_unreserved : ℕ → Bool
is_unreserved b =
    (leb b'A' b && leb b b'Z')
    || ((leb b'a' b && leb b b'z')
        || ((leb b'0' b && leb b b'9')
            || ((b == b'-') || ((b == b'_') || ((b == b'.') || (b == b'~'))))))

unfoldable pub encode_role : Str → Str
encode_role [] = []
encode_role (b ∷ rest) =
    if is_unreserved b
    then b ∷ encode_role rest
    else b'%' ∷ hex_digit (b / 16) ∷ hex_digit (b % 16) ∷ encode_role rest

-- sha256, then sha512, then the first that is listed.
unfoldable pub preferred_hash : Map Str → Option (Str × Str)
preferred_hash hashes = elim (lookup (str "sha256") hashes) [
  | some hex ↦ some (str "sha256", hex)
  | none ↦ elim (lookup (str "sha512") hashes) [
    | some hex ↦ some (str "sha512", hex)
    | none ↦ first hashes
  ]
]
  where
    first : Map Str → Option (Str × Str)
    first [] = none
    first (entry ∷ rest) = some entry

-- `path.rsplit_once(c)`
unfoldable pub rsplit_once : ℕ → Str → Option (Str × Str)
rsplit_once c [] = none
rsplit_once c (d ∷ s) = elim (rsplit_once c s) [
  | some (dir, name) ↦ some (d ∷ dir, name)
  | none ↦ if d == c then some ([], s) else none
]

-- Its loop over the hashes is the one of `check_integrity`.
unfoldable pub verify_target_bytes : Crypto → Bytes → TargetFile → Result (Unit {0})
verify_target_bytes c bytes target = do
  ensure (length bytes == target.length) integrity_mismatch
  verified_any ← check_hashes c bytes false target.hashes
  ensure verified_any integrity_mismatch

-- Whether a trusted role is at the pinned version and has not expired, so that it is kept.
unfoldable pub is_current :
    {T : Type 0} → Parsers → Role T → Option (Metadata T) → Option ℕ → ℕ → Result Bool
is_current p r none pinned now = ok false
is_current p r (some m) none now = ok false
is_current p r (some m) (some version) now =
    if r.version m.signed == version
    then (is_expired p r m.signed now >>= λ old. ok (not old))
    else ok false
