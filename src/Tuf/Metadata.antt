-- ===== src/Tuf/Metadata.antt =====
-- crates/sigstore-tuf/src/metadata: the roles' payloads and the signed envelope. Fields that a
-- producer adds (`extra`, `custom`) are left out, and so are `_type` and `spec_version`, which only
-- `from_slice` reads.
pub mod Threshold
use sigstore_rust.Common.{
  ℕ, List, Bool, Option, none, some, Bytes, Str, Map, str, bytes_eq, lookup, before, ltb,
}
use sigstore_rust.Common.Fallible.{ok, ◌>>=◌, ◌>>◌, ensure, ok_or}
use sigstore_rust.Tuf.Error.{Result, json, malformed, invalid_timestamp}
use sigstore_rust.Tuf.Json.{Value, Fields, object, get, get_value, as_str, to_canonical_bytes}
use sigstore_rust.Tuf.Key.{Key}

-- metadata/role.rs
pub record RoleKeys : Type 0 where
  pub keyids : List Str
  pub threshold : ℕ

pub record Root : Type 0 where
  pub version : ℕ
  pub expires : Str
  pub consistent_snapshot : Bool
  pub keys : Map Key
  pub roles : Map RoleKeys

-- metadata/snapshot.rs
pub record MetaFile : Type 0 where
  pub version : ℕ
  pub length : Option ℕ
  pub hashes : Option (Map Str)

pub record Timestamp : Type 0 where
  pub version : ℕ
  pub expires : Str
  pub meta : Map MetaFile

pub record Snapshot : Type 0 where
  pub version : ℕ
  pub expires : Str
  pub meta : Map MetaFile

-- metadata/role.rs
pub record DelegatedRole : Type 0 where
  pub name : Str
  pub keyids : List Str
  pub threshold : ℕ
  pub terminating : Bool
  pub paths : Option (List Str)
  pub path_hash_prefixes : Option (List Str)

pub record Delegations : Type 0 where
  pub keys : Map Key
  pub roles : List DelegatedRole

-- metadata/targets.rs
pub record TargetFile : Type 0 where
  pub length : ℕ
  pub hashes : Map Str

pub record Targets : Type 0 where
  pub version : ℕ
  pub expires : Str
  pub targets : Map TargetFile
  pub delegations : Option Delegations

unfoldable pub role : Root → Str → Option RoleKeys
role root name = lookup name root.roles

unfoldable pub role_keys : DelegatedRole → RoleKeys
role_keys r = record { keyids = r.keyids; threshold = r.threshold }

unfoldable pub snapshot_meta : Timestamp → Option MetaFile
snapshot_meta t = lookup (str "snapshot.json") t.meta

unfoldable pub target : Targets → Str → Option TargetFile
target t path = lookup path t.targets

-- metadata/mod.rs
pub record Signature : Type 0 where
  pub keyid : Str
  pub sig : Str

pub record Metadata (T : Type 0) : Type 0 where
  pub signatures : List Signature
  pub signed : T
  pub canonical_signed : Bytes

-- The trait `Role`: `deserialize` is what serde derives for the payload.
pub record Role (T : Type 0) : Type 0 where
  pub type_name : Str
  pub version : T → ℕ
  pub expires : T → Str
  pub deserialize : Value → Option T

-- What the parsers of other crates give.
pub record Parsers : Type 0 where
  -- `serde_json::from_slice`
  pub from_slice : Bytes → Option Value
  -- `Vec<Signature>` by serde's derived code
  pub signatures : Value → Option (List Signature)
  -- jiff's timestamp of a text, counted in nanoseconds from its least one
  pub timestamp : Str → Option ℕ
  pub root : Value → Option Root
  pub timestamp_role : Value → Option Timestamp
  pub snapshot : Value → Option Snapshot
  pub targets : Value → Option Targets

module _ (p : Parsers) where
  abbrev pub root_role : Role Root
  root_role = record {
    type_name = str "root";
    version = λ r. r.version;
    expires = λ r. r.expires;
    deserialize = p.root;
  }

  abbrev pub timestamp_role : Role Timestamp
  timestamp_role = record {
    type_name = str "timestamp";
    version = λ r. r.version;
    expires = λ r. r.expires;
    deserialize = p.timestamp_role;
  }

  abbrev pub snapshot_role : Role Snapshot
  snapshot_role = record {
    type_name = str "snapshot";
    version = λ r. r.version;
    expires = λ r. r.expires;
    deserialize = p.snapshot;
  }

  abbrev pub targets_role : Role Targets
  targets_role = record {
    type_name = str "targets";
    version = λ r. r.version;
    expires = λ r. r.expires;
    deserialize = p.targets;
  }

  module _ {T : Type 0} (r : Role T) where
    -- `Role::expires_at`
    unfoldable pub expires_at : T → Result ℕ
    expires_at t = ok_or (p.timestamp (r.expires t)) (invalid_timestamp (r.expires t))

    -- `Role::is_expired`
    unfoldable pub is_expired : T → ℕ → Result Bool
    unfolding expires_at
    is_expired t now = expires_at t >>= λ at. ok (ltb at now)

    -- A field that is there and is a text must pass the test.
    abbrev check_text : Option Str → (Str → Bool) → Result (Unit {0})
    check_text none test = ok tt
    check_text (some s) test = ensure (test s) malformed

    abbrev field_text : Str → Value → Option Str
    field_text key v = elim (get_value key v) [ none ↦ none | some w ↦ as_str w ]

    abbrev as_object : Value → Option Fields
    as_object v = elim v [ object fs ↦ some fs | _ ↦ none ]

    -- `Metadata::from_slice`
    unfoldable pub from_slice : Bytes → Result (Metadata T)
    unfolding get get_value as_str
    from_slice bytes = do
      value ← ok_or (p.from_slice bytes) json
      obj ← ok_or (as_object value) malformed
      signed_value ← ok_or (get (str "signed") obj) malformed
      signatures_value ← ok_or (get (str "signatures") obj) malformed
      check_text (field_text (str "_type") signed_value) (λ t. bytes_eq t r.type_name)
      check_text (field_text (str "spec_version") signed_value)
          (λ sv. bytes_eq (before b'.' sv) (str "1"))
      canonical ← to_canonical_bytes signed_value
      signatures ← ok_or (p.signatures signatures_value) json
      signed ← ok_or (r.deserialize signed_value) json
      ok (record { signatures = signatures; signed = signed; canonical_signed = canonical })
