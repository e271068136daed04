-- ===== src/Tuf/Trusted/Steps.antt =====
-- Sequences of updates of the trusted metadata, as a client or a hostile mirror may feed them.
use sigstore_rust.Common.{ℕ, List, [], ◌∷◌, Bytes, Str}
use sigstore_rust.Common.Fallible.{Result}
use sigstore_rust.Tuf.Error.{Error}
use sigstore_rust.Tuf.Key.{Crypto}
use sigstore_rust.Tuf.Metadata.{Parsers}
use sigstore_rust.Tuf.Trusted.{TrustedMetadataSet, update_root}
use sigstore_rust.Tuf.Trusted.Roles.{
  update_timestamp, update_snapshot, update_targets, update_delegated_targets,
}

pub data Op : Type 0 where
  feed_root : Bytes → Op
  feed_timestamp feed_snapshot feed_targets : Bytes → (now : ℕ) → Op
  feed_delegated : Bytes → (role_name delegator_name : Str) → (now : ℕ) → Op

module _ (c : Crypto) (p : Parsers) where
  unfoldable pub apply : Op → TrustedMetadataSet → Result Error (Unit {0}) × TrustedMetadataSet
  apply (feed_root bytes) s = update_root c p s bytes
  apply (feed_timestamp bytes now) s = update_timestamp c p s bytes now
  apply (feed_snapshot bytes now) s = update_snapshot c p s bytes now
  apply (feed_targets bytes now) s = update_targets c p s bytes now
  apply (feed_delegated bytes role_name delegator_name now) s =
      update_delegated_targets c p s bytes role_name delegator_name now

  unfoldable pub run : List Op → TrustedMetadataSet → TrustedMetadataSet
  unfolding apply
  run [] s = s
  run (op ∷ ops) s = run ops (apply op s).1
