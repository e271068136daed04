-- ===== src/Rekor/Client.antt =====
-- crates/sigstore-rekor/src/client.rs: the requests that add entries to the log or fetch them. Sending a
-- request is a parameter. The log's info and its cache are left out.
use mathlib.Core.Option
use sigstore_rust.Common.{List, [], ◌∷◌, ◌++◌, map, Bool, Option, none, some, Str, str}
use sigstore_rust.Common.Int.{ℤ, pos}
use sigstore_rust.Common.Fallible
use sigstore_rust.Common.Fallible.{ok, err, ◌>>=◌, ◌>>◌, ensure, ok_or}
use sigstore_rust.Types.Text.{parse_i64}
use sigstore_rust.Types.Bundle.{InclusionPromise}
use sigstore_rust.Types.Encoding.{Codec}
use sigstore_rust.Rekor.Entry.{
  LogEntry, RekorInclusionProof, HashedRekord, HashedRekordV2, DsseEntry, DsseEntryV2, LogEntryV2,
  InclusionProofV2,
}

-- The errors of crates/sigstore-rekor/src/error.rs that this file gives.
pub data Error : Type 0 where
  http api : Error

abbrev pub Result {ℓ} : Type ℓ → Type ℓ
Result A = Fallible.Result Error A

-- An answer over HTTP, and what its body's JSON parses to.
pub record Response (A : Type 0) : Type 0 where
  pub is_success : Bool
  pub json : Option A

-- `HashMap<String, LogEntry>`, in the order in which it is iterated.
abbrev pub LogEntryResponse : Type 0
LogEntryResponse = List (Str × LogEntry)

-- reqwest and serde_json: the answer to a URL, none for an error of the transport.
pub record Http : Type 0 where
  pub get_entries : (url : Str) → Option (Response LogEntryResponse)
  pub post_hashed_rekord : (url : Str) → HashedRekord → Option (Response LogEntryResponse)
  pub post_dsse : (url : Str) → DsseEntry → Option (Response LogEntryResponse)
  pub post_hashed_rekord_v2 : (url : Str) → HashedRekordV2 → Option (Response LogEntryV2)
  pub post_dsse_v2 : (url : Str) → DsseEntryV2 → Option (Response LogEntryV2)

-- The checks of an answer.
unfoldable pub received : {A : Type 0} → Option (Response A) → Result A
received answer = do
  response ← ok_or answer http
  ensure response.is_success api
  ok_or response.json http

-- `entries.into_iter().next()`, with its key as the entry's UUID.
unfoldable pub first_entry : LogEntryResponse → Result LogEntry
first_entry [] = err api
first_entry ((entry_uuid, entry) ∷ _) = ok (record entry { uuid = entry_uuid })

abbrev or_zero : Option ℤ → ℤ
or_zero none = pos 0
or_zero (some n) = n

-- `parse::<i64>().unwrap_or_default()`
unfoldable pub parse_or_default : Str → ℤ
unfolding parse_i64
parse_or_default s = or_zero (parse_i64 s)

module _ (codec : Codec) where
  unfoldable pub proof_from_v2 : InclusionProofV2 → RekorInclusionProof
  unfolding parse_or_default
  proof_from_v2 p = record {
    checkpoint = p.checkpoint;
    hashes = map codec.hex_encode p.hashes;
    log_index = parse_or_default p.log_index;
    root_hash = codec.hex_encode p.root_hash;
    tree_size = parse_or_default p.tree_size;
  }

  -- The conversion of `create_entry_v2` and `create_dsse_entry_v2`.
  unfoldable pub entry_from_v2 : LogEntryV2 → LogEntry
  unfolding proof_from_v2
  entry_from_v2 entry = record {
    uuid = [];
    body = entry.canonicalized_body;
    integrated_time = parse_or_default entry.integrated_time;
    log_id = entry.log_id;
    log_index = parse_or_default entry.log_index;
    verification = some (record {
      inclusion_proof = Option.map proof_from_v2 entry.inclusion_proof;
      signed_entry_timestamp =
          Option.map (λ (p : InclusionPromise). p.signed_entry_timestamp) entry.inclusion_promise;
    });
  }

module _ (codec : Codec) (http_client : Http) (url : Str) where
  -- `url` is the client's; `index` is the index in decimal.
  unfoldable pub get_entry_by_uuid : (uuid : Str) → Result LogEntry
  unfolding received first_entry
  get_entry_by_uuid uuid =
      received (http_client.get_entries (url ++ (str "/api/v1/log/entries/" ++ uuid)))
      >>= first_entry

  unfoldable pub get_entry_by_index : (index : Str) → Result LogEntry
  unfolding received first_entry
  get_entry_by_index index =
      received (http_client.get_entries (url ++ (str "/api/v1/log/entries?logIndex=" ++ index)))
      >>= first_entry

  unfoldable pub create_entry : HashedRekord → Result LogEntry
  unfolding received first_entry
  create_entry entry =
      received (http_client.post_hashed_rekord (url ++ str "/api/v1/log/entries") entry)
      >>= first_entry

  unfoldable pub create_entry_v2 : HashedRekordV2 → Result LogEntry
  unfolding received entry_from_v2
  create_entry_v2 entry = do
    answer ← received (http_client.post_hashed_rekord_v2 (url ++ str "/api/v2/log/entries") entry)
    ok (entry_from_v2 codec answer)

  unfoldable pub create_dsse_entry : DsseEntry → Result LogEntry
  unfolding received first_entry
  create_dsse_entry entry =
      received (http_client.post_dsse (url ++ str "/api/v1/log/entries") entry) >>= first_entry

  unfoldable pub create_dsse_entry_v2 : DsseEntryV2 → Result LogEntry
  unfolding received entry_from_v2
  create_dsse_entry_v2 entry = do
    answer ← received (http_client.post_dsse_v2 (url ++ str "/api/v2/log/entries") entry)
    ok (entry_from_v2 codec answer)
