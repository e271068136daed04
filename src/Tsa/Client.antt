-- ===== src/Tsa/Client.antt =====
-- crates/sigstore-tsa/src/client.rs. `post` is the request over HTTP, none for an error of the transport or
-- of the body; the nonce is drawn at random.
use sigstore_rust.Common.{Bool, false, Option, none, some, Bytes, Str, bytes_eq}
use sigstore_rust.Common.Fallible.{ok, ◌>>=◌, ◌>>◌, ensure, ok_or}
use sigstore_rust.Tsa.{Result, http, asn1, invalid_response, oid_sha256, Tsp, new_request}
use sigstore_rust.Tsa.Verify.{parse_timestamp_token}

pub record TsaResponse : Type 0 where
  pub is_success : Bool
  pub body : Option Bytes

abbrev nonce_is : Option Bytes → Bytes → Bool
nonce_is none nonce = false
nonce_is (some n) nonce = bytes_eq n nonce

module _ (c : Tsp) (post : (url : Str) → (request : Bytes) → Option TsaResponse) (url : Str)
    (nonce : Bytes) where
  unfoldable pub timestamp : Bytes → (algorithm : Str) → Result Bytes
  unfolding parse_timestamp_token new_request
  timestamp digest algorithm = do
    request_der ←
        ok_or
          (c.request_to_der
            (new_request (record { hash_algorithm = algorithm; hashed_message = digest }) nonce))
          asn1
    response ← ok_or (post url request_der) http
    ensure response.is_success http
    response_bytes ← ok_or response.body http
    (tst_info, _) ← parse_timestamp_token c response_bytes
    ensure (nonce_is tst_info.nonce nonce) invalid_response
    ok response_bytes

  unfoldable pub timestamp_signature : Bytes → Result Bytes
  unfolding timestamp
  timestamp_signature signature = timestamp (c.sha256 signature) oid_sha256
