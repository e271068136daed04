-- ===== src/Tests/Json.antt =====
-- A run of the serializer of crates/sigstore-tuf/src/canonical_json.rs.
use sigstore_rust.Common.{true, str, refl, ◌≡◌, dec_lt}
use sigstore_rust.Common.Fallible.{ok}
use sigstore_rust.Common.Order.{lt_wf}
use sigstore_rust.Tuf.Json.{
  number, bool, string, array, object, cons, nil, field, pos_int, to_canonical_bytes,
}
use sigstore_rust.Tuf.Json.{Fields}

canonical_object :
    to_canonical_bytes (
      object (
        field
          (str "a")
          (array (cons (number (pos_int 120)) (cons (bool true) nil)))
          (field (str "b") (string (str "x\"y")) Fields.end)))
    ≡ ok (str "{\"a\":[120,true],\"b\":\"x\\\"y\"}")
unfolding to_canonical_bytes lt_wf dec_lt
canonical_object = refl
