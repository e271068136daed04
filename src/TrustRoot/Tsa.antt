-- ===== src/TrustRoot/Tsa.antt =====
-- crates/sigstore-trust-root/src/trusted_root.rs: the timestamp authorities.
use sigstore_rust.Common.{
  ◌-◌, List, [], ◌∷◌, ◌++◌, Bool, true, false, ◌&&◌, Option, none, some, Bytes, Str, map,
  if◌then◌else◌, length, take, drop, ltb, is_empty,
}
use sigstore_rust.Common.Int.{leb_ℤ}
use sigstore_rust.Common.Fallible.{ok, ◌>>=◌}
use sigstore_rust.Types.Bundle.{first}
use sigstore_rust.TrustRoot.{
  Result, Timestamp, ValidityPeriod, TimestampAuthority, TrustedRoot, parse_validity_timestamp,
  contains, collect,
}

-- `certificates.last()`
abbrev last : List Bytes → Option Bytes
last [] = none
last (c ∷ []) = some c
last (c ∷ d ∷ cs) = last (d ∷ cs)

abbrev option_list : Option Bytes → List Bytes
option_list none = []
option_list (some c) = c ∷ []

-- `certificates[1..chain_len - 1]`, if there are more than two.
abbrev middle : List Bytes → List Bytes
middle certs = if ltb 2 (length certs) then take (length certs - 2) (drop 1 certs) else []

abbrev tsa_valid_for : TimestampAuthority → Option ValidityPeriod
tsa_valid_for tsa = tsa.valid_for

-- The window, and whether the timestamp decides the answer: a window with both ends that holds it gives
-- that window, one with a start only gives no window.
abbrev window_answer :
    Option Timestamp → Option Timestamp → Timestamp → Option (Option (Timestamp × Timestamp))
window_answer (some start) (some end) time =
    if leb_ℤ start time && leb_ℤ time end then some (some (start, end)) else none
window_answer (some start) none time = if leb_ℤ start time then some none else none
window_answer none end time = none

module _ (parse_timestamp : Str → Option Timestamp) where
  unfoldable pub tsa_root_certs : TrustedRoot → Timestamp → Result (List Bytes)
  unfolding collect
  tsa_root_certs root now =
      collect parse_timestamp tsa_valid_for
        (λ (tsa : TimestampAuthority). ok (option_list (last tsa.cert_chain))) now
        root.timestamp_authorities

  unfoldable pub tsa_intermediate_certs : TrustedRoot → Timestamp → Result (List Bytes)
  unfolding collect
  tsa_intermediate_certs root now =
      collect parse_timestamp tsa_valid_for
        (λ (tsa : TimestampAuthority). ok (middle tsa.cert_chain)) now root.timestamp_authorities

  unfoldable pub tsa_leaf_certs : TrustedRoot → Timestamp → Result (List Bytes)
  unfolding collect
  tsa_leaf_certs root now =
      collect parse_timestamp tsa_valid_for
        (λ (tsa : TimestampAuthority). ok (option_list (first tsa.cert_chain))) now
        root.timestamp_authorities

  unfoldable pub window_of : Option ValidityPeriod → Result (Option Timestamp × Option Timestamp)
  unfolding parse_validity_timestamp
  window_of none = ok (none, none)
  window_of (some period) = do
    start ← parse_validity_timestamp parse_timestamp period.start
    end ← parse_validity_timestamp parse_timestamp period.end
    ok (start, end)

  unfoldable pub certs_with_validity :
      List TimestampAuthority → Result (List (Bytes × Option Timestamp × Option Timestamp))
  unfolding window_of
  certs_with_validity [] = ok []
  certs_with_validity (tsa ∷ rest) = do
    window ← window_of tsa.valid_for
    others ← certs_with_validity rest
    ok (map (λ cert. (cert, window.0, window.1)) tsa.cert_chain ++ others)

  unfoldable pub tsa_certs_with_validity :
      TrustedRoot → Result (List (Bytes × Option Timestamp × Option Timestamp))
  unfolding certs_with_validity
  tsa_certs_with_validity root = certs_with_validity root.timestamp_authorities

  unfoldable pub validity_for_time :
      List TimestampAuthority → Timestamp → Result (Option (Timestamp × Timestamp))
  unfolding window_of
  validity_for_time [] time = ok none
  validity_for_time (tsa ∷ rest) time = do
    window ← window_of tsa.valid_for
    elim (window_answer window.0 window.1 time) [
      | some answer ↦ ok answer
      | none ↦ validity_for_time rest time
    ]

  unfoldable pub tsa_validity_for_time :
      TrustedRoot → Timestamp → Result (Option (Timestamp × Timestamp))
  unfolding validity_for_time
  tsa_validity_for_time root time = validity_for_time root.timestamp_authorities time

  unfoldable pub within_any : List TimestampAuthority → Timestamp → Result Bool
  unfolding contains
  within_any [] time = ok false
  within_any (tsa ∷ rest) time = elim tsa.valid_for [
    | none ↦ ok true
    | some period ↦
        (contains parse_timestamp period time >>= λ inside. elim inside [
          | true ↦ ok true
          | false ↦ within_any rest time
        ])
  ]

  unfoldable pub is_timestamp_within_tsa_validity : TrustedRoot → Timestamp → Result Bool
  unfolding within_any
  is_timestamp_within_tsa_validity root time =
      if is_empty root.timestamp_authorities
      then ok true
      else within_any root.timestamp_authorities time
