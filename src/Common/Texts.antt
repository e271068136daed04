-- ===== src/Common/Texts.antt =====
-- Texts and maps: a Rust `String` is the list of its UTF-8 bytes, a `BTreeMap<String, V>` the list of
-- its entries, a `BTreeSet` the list of its elements.
use Prim.Native.Nat.{ℕ}
use Prim.Native.Char.{code}
use Prim.Native.String.{String}
use mathlib.Core.Path.{◌≡◌, refl}
use mathlib.Core.Bool.{Bool, true, false, ◌||◌}
use mathlib.Core.List.{List, [], ◌∷◌}
use mathlib.Core.Option.{Option, none, some}
use native.Mathlib.Omega.{arith}
use sigstore_rust.Common.Tests.{if◌then◌else◌, ◌==◌}
use sigstore_rust.Common.Lists.{bytes_eq, eq_of_bytes_eq, bytes_eq_refl, Bytes}

abbrev pub Str : Type 0
Str = Bytes

-- The bytes of an ASCII literal.
abbrev pub str : String → Str
str String.[] = []
str (String.◌∷◌ c s) = code c ∷ str s

abbrev pub Map {ℓ} : Type ℓ → Type ℓ
Map V = List (Str × V)

module _ {ℓ} {V : Type ℓ} where
  abbrev pub lookup : Str → Map V → Option V
  lookup k [] = none
  lookup k ((j, v) ∷ m) = if bytes_eq j k then some v else lookup k m

  abbrev pub insert : Str → V → Map V → Map V
  insert k v [] = (k, v) ∷ []
  insert k v ((j, w) ∷ m) = if bytes_eq j k then (k, v) ∷ m else (j, w) ∷ insert k v m

abbrev pub contains : Str → List Str → Bool
contains k [] = false
contains k (j ∷ js) = bytes_eq j k || contains k js

-- `BTreeSet::insert`.
abbrev pub set_insert : Str → List Str → List Str
set_insert k ks = if contains k ks then ks else k ∷ ks

-- `s.split(c).next()`
abbrev pub before : ℕ → Str → Str
before c [] = []
before c (d ∷ s) = if d == c then [] else d ∷ before c s

-- `s.starts_with(t)`
abbrev pub starts_with : Str → Str → Bool
starts_with s [] = true
starts_with [] (c ∷ t) = false
starts_with (d ∷ s) (c ∷ t) = if d == c then starts_with s t else false

module _ {ℓ} {V : Type ℓ} where
  pub lookup-insert :
      (k j : Str) (v : V) (m : Map V)
      → lookup j (insert k v m) ≡ (if bytes_eq k j then some v else lookup j m)
  lookup-insert k j v [] = refl
  lookup-insert k j v ((i, w) ∷ m) = ground (
    arith,
    eq_of_bytes_eq i k,
    eq_of_bytes_eq k j,
    eq_of_bytes_eq i j,
    bytes_eq_refl i,
    lookup-insert k j v m,
  )
