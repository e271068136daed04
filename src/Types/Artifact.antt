-- ===== src/Types/Artifact.antt =====
-- crates/sigstore-types/src/artifact.rs and hash.rs.
use sigstore_rust.Common.{ℕ, Bool, true, false, Option, none, some, Bytes, Str, str}

pub data HashAlgorithm : Type 0 where
  sha2_256 sha2_384 sha2_512 : HashAlgorithm

unfoldable pub digest_size : HashAlgorithm → ℕ
digest_size sha2_256 = 32
digest_size sha2_384 = 48
digest_size sha2_512 = 64

unfoldable pub as_lowercase : HashAlgorithm → Str
as_lowercase sha2_256 = str "sha256"
as_lowercase sha2_384 = str "sha384"
as_lowercase sha2_512 = str "sha512"

-- `bytes` and `digest`, the constructors of the source's `Artifact`.
pub data Artifact : Type 0 where
  raw_bytes : Bytes → Artifact
  digest : Bytes → Artifact

unfoldable pub has_bytes : Artifact → Bool
has_bytes (raw_bytes b) = true
has_bytes (digest d) = false

unfoldable pub artifact_bytes : Artifact → Option Bytes
artifact_bytes (raw_bytes b) = some b
artifact_bytes (digest d) = none

unfoldable pub pre_computed_digest : Artifact → Option Bytes
pre_computed_digest (raw_bytes b) = none
pre_computed_digest (digest d) = some d
