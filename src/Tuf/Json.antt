-- ===== src/Tuf/Json.antt =====
-- `serde_json::Value`, and crates/sigstore-tuf/src/canonical_json.rs.
pub mod Decimal
use mathlib.Core.Logic.{dite}
use mathlib.Core.WellFounded.{Acc}
use sigstore_rust.Common.{
  ℕ, ◌+◌, ◌/◌, ◌%◌, ◌<◌, [], ◌∷◌, ◌++◌, Bool, true, false, Option, none, some, Bytes, Str, str,
  ◌==◌, if◌then◌else◌, bytes_eq, dec_lt, arith,
}
use sigstore_rust.Common.Order.{lt_wf}
use sigstore_rust.Common.Fallible.{ok, err, ◌>>=◌}
use sigstore_rust.Tuf.Error.{Result, non_integer_number}

-- serde_json holds an integer below 0 as `neg_int n` for -(n + 1), one from 0 on as `pos_int`, and
-- anything with a fraction or an exponent as a float.
pub data Number : Type 0 where
  pos_int neg_int : ℕ → Number
  float : Number

-- An object is serde_json's BTreeMap: its fields stand in the order of their keys.
mutual
  pub data Value : Type 0 where
    null : Value
    bool : Bool → Value
    number : Number → Value
    string : Str → Value
    array : Items → Value
    object : Fields → Value

  pub data Items : Type 0 where
    nil : Items
    cons : Value → Items → Items

  pub data Fields : Type 0 where
    end : Fields
    field : Str → Value → Fields → Fields

-- `map.get(key)`
unfoldable pub get : Str → Fields → Option Value
get key end = none
get key (field k v fs) = if bytes_eq k key then some v else get key fs

-- `value.get(key)`, which is `none` on anything but an object.
unfoldable pub get_value : Str → Value → Option Value
unfolding get
get_value key (object fs) = get key fs
get_value key null = none
get_value key (bool b) = none
get_value key (number n) = none
get_value key (string s) = none
get_value key (array vs) = none

unfoldable pub as_str : Value → Option Str
as_str (string s) = some s
as_str null = none
as_str (bool b) = none
as_str (number n) = none
as_str (array vs) = none
as_str (object fs) = none

pub quotient_lt : (n : ℕ) → 9 < n → n / 10 < n
quotient_lt n more = omega arith

-- `to_string` of a number, most significant digit first.
decimal_loop : (n : ℕ) → Acc ◌<◌ n → Str
decimal_loop n (Acc.intro _ smaller) =
    dite (dec_lt 9 n)
      (λ more.
        decimal_loop (n / 10) (smaller (n / 10) (quotient_lt n more)) ++ ((b'0' + n % 10) ∷ []))
      (λ _. (b'0' + n) ∷ [])

unfoldable pub decimal : ℕ → Str
unfolding decimal_loop lt_wf
decimal n = decimal_loop n (lt_wf.apply n)

encode_number : Number → Result Str
unfolding decimal
encode_number (pos_int n) = ok (decimal n)
encode_number (neg_int n) = ok (b'-' ∷ decimal (n + 1))
encode_number float = err non_integer_number

-- Only the backslash and the double quote are escaped.
abbrev escape_byte : ℕ → Str
escape_byte c =
    if c == 0x5c then 0x5c ∷ 0x5c ∷ [] else if c == 0x22 then 0x5c ∷ 0x22 ∷ [] else c ∷ []

escape : Str → Str
escape [] = []
escape (c ∷ s) = escape_byte c ++ escape s

encode_string : Str → Str
unfolding escape
encode_string s = 0x22 ∷ (escape s ++ (0x22 ∷ []))

-- A comma stands before every item and field but the first.
mutual
  unfolding encode_number encode_string

  encode : Value → Result Bytes
  encode null = ok (str "null")
  encode (bool true) = ok (str "true")
  encode (bool false) = ok (str "false")
  encode (number n) = encode_number n
  encode (string s) = ok (encode_string s)
  encode (array vs) = do body ← encode_items vs; ok (b'[' ∷ (body ++ (b']' ∷ [])))
  encode (object fs) = do body ← encode_fields fs; ok (b'{' ∷ (body ++ (b'}' ∷ [])))

  encode_items : Items → Result Bytes
  encode_items nil = ok []
  encode_items (cons v nil) = encode v
  encode_items (cons v (cons w vs)) = do
    first ← encode v
    rest ← encode_items (cons w vs)
    ok (first ++ (b',' ∷ rest))

  encode_fields : Fields → Result Bytes
  encode_fields end = ok []
  encode_fields (field k v end) = do value ← encode v; ok (encode_string k ++ (b':' ∷ value))
  encode_fields (field k v (field j w fs)) = do
    value ← encode v
    rest ← encode_fields (field j w fs)
    ok (encode_string k ++ (b':' ∷ (value ++ (b',' ∷ rest))))

unfoldable pub to_canonical_bytes : Value → Result Bytes
unfolding encode
to_canonical_bytes value = encode value
