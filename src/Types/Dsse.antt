-- ===== src/Types/Dsse.antt =====
-- crates/sigstore-types/src/dsse.rs and intoto.rs.
pub mod Encoding
use sigstore_rust.Common.{
  List, [], ◌∷◌, ◌++◌, Bool, false, Option, none, some, Bytes, Str, str, length, bytes_eq, ◌||◌,
}
use sigstore_rust.Tuf.Json.{decimal}

pub record DsseSignature : Type 0 where
  pub sig : Bytes
  pub keyid : Str

pub record DsseEnvelope : Type 0 where
  pub payload_type : Str
  pub payload : Bytes
  pub signatures : List DsseSignature

-- `DSSEv1 <len(type)> <type> <len(body)> <body>`
unfoldable pub pae : Str → Bytes → Bytes
unfolding decimal
pae payload_type payload =
    str "DSSEv1 "
    ++ (decimal (length payload_type)
        ++ (b' ' ∷ (payload_type ++ (b' ' ∷ (decimal (length payload) ++ (b' ' ∷ payload))))))

-- `DsseEnvelope::pae`
unfoldable pub envelope_pae : DsseEnvelope → Bytes
unfolding pae
envelope_pae envelope = pae envelope.payload_type envelope.payload

pub record Digest : Type 0 where
  pub sha256 : Option Str
  pub sha512 : Option Str

pub record Subject : Type 0 where
  pub name : Str
  pub digest : Digest

-- The predicate itself is left out.
pub record Statement : Type 0 where
  pub type_ : Str
  pub subject : List Subject
  pub predicate_type : Str

abbrev digest_is : Option Str → Str → Bool
digest_is none hash_hex = false
digest_is (some h) hash_hex = bytes_eq h hash_hex

unfoldable pub any_sha256 : List Subject → Str → Bool
any_sha256 [] hash_hex = false
any_sha256 (s ∷ rest) hash_hex = digest_is s.digest.sha256 hash_hex || any_sha256 rest hash_hex

unfoldable pub matches_sha256 : Statement → Str → Bool
unfolding any_sha256
matches_sha256 statement hash_hex = any_sha256 statement.subject hash_hex
