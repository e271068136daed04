-- ===== src/Types/Encoding.antt =====
-- crates/sigstore-types/src/encoding.rs: the newtypes that check what they hold. The others are the
-- bytes or the text they wrap.
use sigstore_rust.Common.{
  ℕ, ◌∷◌, Bool, true, ◌&&◌, ◌||◌, [], Option, none, some, Bytes, Str, length, leb, ◌==◌, ◌≡◌, arith,
  if◌then◌else◌,
}
use sigstore_rust.Common.Fallible.{ok, err, ◌>>=◌, ok_or}
use sigstore_rust.Common.Int.{ℤ, pos, negsuc}
use sigstore_rust.Types.Error.{Result, validation, invalid_encoding}

-- The `base64` and `hex` crates.
pub record Codec : Type 0 where
  -- `STANDARD.encode` and `STANDARD.decode`
  pub base64_encode : Bytes → Str
  pub base64_decode : Str → Option Bytes
  pub hex_encode : Bytes → Str
  pub hex_decode : Str → Option Bytes

abbrev pub KeyHint : Type 0
KeyHint = Bytes

abbrev pub Sha256Hash : Type 0
Sha256Hash = Bytes

-- `i64`
abbrev pub LogIndex : Type 0
LogIndex = ℤ

-- The base64 of the identifier's bytes.
abbrev pub LogKeyId : Type 0
LogKeyId = Str

-- A conversion from `i64` to `u64` that may fail: `LogIndex::as_u64`, and `try_into`.
unfoldable pub index_as_u64 : ℤ → Option ℕ
index_as_u64 (pos n) = some n
index_as_u64 (negsuc n) = none

unfoldable pub key_hint_try_from_slice : Bytes → Result KeyHint
key_hint_try_from_slice slice = if length slice == 4 then ok slice else err validation

unfoldable pub sha256_try_from_slice : Bytes → Result Sha256Hash
sha256_try_from_slice bytes = if length bytes == 32 then ok bytes else err invalid_encoding

unfoldable pub is_ascii_hexdigit : ℕ → Bool
is_ascii_hexdigit c =
    (leb b'0' c && leb c b'9') || ((leb b'a' c && leb c b'f') || (leb b'A' c && leb c b'F'))

unfoldable pub all_hexdigit : Str → Bool
unfolding is_ascii_hexdigit
all_hexdigit [] = true
all_hexdigit (c ∷ s) = is_ascii_hexdigit c && all_hexdigit s

module _ (codec : Codec) where
  unfoldable pub sha256_from_hex : Str → Result Sha256Hash
  unfolding sha256_try_from_slice
  sha256_from_hex hex_str = do
    bytes ← ok_or (codec.hex_decode hex_str) invalid_encoding
    sha256_try_from_slice bytes

  unfoldable pub sha256_from_base64 : Str → Result Sha256Hash
  unfolding sha256_try_from_slice
  sha256_from_base64 s = do
    bytes ← ok_or (codec.base64_decode s) invalid_encoding
    sha256_try_from_slice bytes

  unfoldable pub from_hex_or_base64 : Str → Result Sha256Hash
  unfolding sha256_from_hex sha256_from_base64 all_hexdigit
  from_hex_or_base64 s =
      if (length s == 64) && all_hexdigit s then sha256_from_hex s else sha256_from_base64 s

  -- `LogKeyId::from_bytes`
  unfoldable pub log_key_id_from_bytes : Bytes → LogKeyId
  log_key_id_from_bytes bytes = codec.base64_encode bytes

  -- `LogKeyId::decode`
  unfoldable pub log_key_id_decode : LogKeyId → Result Bytes
  log_key_id_decode id = ok_or (codec.base64_decode id) invalid_encoding

  -- `HexLogId::decode` and `to_base64`; the identifier is its text.
  unfoldable pub hex_log_id_decode : Str → Result Bytes
  hex_log_id_decode id = ok_or (codec.hex_decode id) invalid_encoding

  unfoldable pub hex_log_id_to_base64 : Str → Result Str
  unfolding hex_log_id_decode
  hex_log_id_to_base64 id = do bytes ← hex_log_id_decode id; ok (codec.base64_encode bytes)

  -- `HexHash::to_sha256`
  unfoldable pub hex_hash_to_sha256 : Str → Result Sha256Hash
  unfolding sha256_from_hex
  hex_hash_to_sha256 hash = sha256_from_hex hash

pub sha256_try_from_slice-eq-ok :
    (bytes : Bytes) (hash : Sha256Hash)
    → sha256_try_from_slice bytes ≡ ok hash
    → (hash ≡ bytes) × (length hash ≡ 32)
unfolding sha256_try_from_slice
sha256_try_from_slice-eq-ok bytes hash e = ground arith

pub key_hint_try_from_slice-eq-ok :
    (slice : Bytes) (hint : KeyHint)
    → key_hint_try_from_slice slice ≡ ok hint
    → (hint ≡ slice) × (length hint ≡ 4)
unfolding key_hint_try_from_slice
key_hint_try_from_slice-eq-ok slice hint e = ground arith
