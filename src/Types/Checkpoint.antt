-- ===== src/Types/Checkpoint.antt =====
-- crates/sigstore-types/src/checkpoint.rs: a signed note. An error's text is left out.
pub mod Note
use sigstore_rust.Common.{
  ℕ, ◌<◌, List, [], ◌∷◌, ◌++◌, Option, none, some, Bytes, Str, length, take, drop, is_empty,
  starts_with, bytes_eq, if◌then◌else◌, ltb, not, true, false,
}
use sigstore_rust.Common.Fallible.{ok, err, ◌>>=◌, ◌>>◌, ensure, ok_or}
use sigstore_rust.Types.Error.{Result, invalid_checkpoint}
use sigstore_rust.Types.Encoding.{
  Codec, KeyHint, Sha256Hash, key_hint_try_from_slice, sha256_try_from_slice,
}
use sigstore_rust.Types.Text.{first_two, split_blank, lines, trim, split_whitespace, parse_u64}
use sigstore_rust.Tuf.Json.{decimal}

pub record CheckpointSignature : Type 0 where
  pub name : Str
  pub key_id : KeyHint
  pub signature : Bytes

pub record Checkpoint : Type 0 where
  pub origin : Str
  pub tree_size : ℕ
  pub root_hash : Sha256Hash
  pub other_content : List Str
  pub signatures : List CheckpointSignature
  pub signed_note_text : Str

-- `ok_or_else(..)?` on the error of another crate.
abbrev pub or_invalid {ℓ} : {A : Type ℓ} → Result A → Result A
or_invalid (ok a) = ok a
or_invalid (err e) = err invalid_checkpoint

-- The first element and the others, by `next`; the first two; the second and third.
abbrev pub next : List Str → Option (Str × List Str)
next [] = none
next (line ∷ rest) = some (line, rest)

abbrev pub second_third : List Str → Option (Str × Str)
second_third [] = none
second_third (_ ∷ parts) = first_two parts

abbrev pub em_dash : Str
em_dash = 0xe2 ∷ 0x80 ∷ 0x94 ∷ []

unfoldable pub other_lines : List Str → List Str
unfolding trim
other_lines [] = []
other_lines (line ∷ rest) =
    let content = other_lines rest in if is_empty (trim line) then content else trim line ∷ content

module _ (codec : Codec) where
  unfoldable pub parse_signature_line : Str → Result CheckpointSignature
  unfolding split_whitespace key_hint_try_from_slice
  parse_signature_line line = do
    ensure (starts_with line em_dash) invalid_checkpoint
    parts ← ok_or (second_third (split_whitespace line)) invalid_checkpoint
    decoded ← ok_or (codec.base64_decode parts.1) invalid_checkpoint
    ensure (not (ltb (length decoded) 5)) invalid_checkpoint
    key_id ← key_hint_try_from_slice (take 4 decoded)
    ok (record { name = parts.0; key_id = key_id; signature = drop 4 decoded })

  unfoldable pub parse_signatures : List Str → Result (List CheckpointSignature)
  unfolding parse_signature_line trim
  parse_signatures [] = ok []
  parse_signatures (line ∷ rest) = elim (is_empty (trim line)) [
    | true ↦ parse_signatures rest
    | false ↦ do
      sig ← parse_signature_line (trim line)
      sigs ← parse_signatures rest
      ok (sig ∷ sigs)
  ]

  unfoldable pub from_text : Str → Result Checkpoint
  unfolding split_blank lines trim parse_u64 sha256_try_from_slice parse_signatures other_lines
  from_text text = do
    ensure (not (is_empty text)) invalid_checkpoint
    parts ← ok_or (first_two (split_blank text)) invalid_checkpoint
    at_origin ← ok_or (next (lines parts.0)) invalid_checkpoint
    ensure (not (is_empty (trim at_origin.0))) invalid_checkpoint
    at_size ← ok_or (next at_origin.1) invalid_checkpoint
    tree_size ← ok_or (parse_u64 (trim at_size.0)) invalid_checkpoint
    at_root ← ok_or (next at_size.1) invalid_checkpoint
    root_hash_bytes ← ok_or (codec.base64_decode (trim at_root.0)) invalid_checkpoint
    root_hash ← or_invalid (sha256_try_from_slice root_hash_bytes)
    signatures ← parse_signatures (lines parts.1)
    ensure (not (is_empty signatures)) invalid_checkpoint
    ok (record {
      origin = trim at_origin.0;
      tree_size = tree_size;
      root_hash = root_hash;
      other_content = other_lines at_root.1;
      signatures = signatures;
      signed_note_text = parts.0 ++ (10 ∷ []);
    })

  abbrev push_lines : List Str → Str
  push_lines [] = []
  push_lines (line ∷ rest) = line ++ (10 ∷ push_lines rest)

  unfoldable pub to_signed_note_body : Checkpoint → Str
  unfolding decimal
  to_signed_note_body c =
      c.origin
      ++ (10
          ∷ (decimal c.tree_size
              ++ (10 ∷ (codec.base64_encode c.root_hash ++ (10 ∷ push_lines c.other_content)))))

-- `find(|sig| &sig.key_id == key_hint)`
unfoldable pub find_signature : List CheckpointSignature → KeyHint → Option CheckpointSignature
find_signature [] key_hint = none
find_signature (sig ∷ rest) key_hint =
    if bytes_eq sig.key_id key_hint then some sig else find_signature rest key_hint

unfoldable pub find_signature_by_key_hint : Checkpoint → KeyHint → Option CheckpointSignature
unfolding find_signature
find_signature_by_key_hint c key_hint = find_signature c.signatures key_hint

unfoldable pub signed_data : Checkpoint → Bytes
signed_data c = c.signed_note_text
