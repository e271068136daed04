-- ===== src/Cache/Fresh.antt =====
-- Which entries of the in-memory cache are fresh, as time passes and as entries are written and forgotten.
use mathlib.Core.Logic.{if_pos, if_neg}
use sigstore_rust.Common.{ℕ, ◌≤◌, Option, none, some, ◌==◌, ◌≡◌, refl, arith, inl, inr, Bool-cases}
use sigstore_rust.Common.Fallible.{ok}
use sigstore_rust.Cache.{CacheKey}
use sigstore_rust.Cache.Memory.{
  CacheEntry, Entries, CacheKey-discrete, is_expired, write, retained, find, answer,
}
use sigstore_rust.Cache.Tasks.{removal, assign, fresh, rest_of_get}

-- What was forgotten earlier makes no difference later.
pub retained_after :
    (now later : ℕ) (a : Option CacheEntry)
    → now ≤ later
    → retained later (retained now a) ≡ retained later a
unfolding retained is_expired
retained_after now later none h = refl
retained_after now later (some a) h = ground arith

pub fresh-retained : (now : ℕ) (a : Option CacheEntry) → fresh now (retained now a) ≡ fresh now a
unfolding retained is_expired
fresh-retained now none = refl
fresh-retained now (some a) = ground arith

pub answer-find : (now : ℕ) (a : Option CacheEntry) → answer (find now a) ≡ ok (fresh now a)
unfolding find is_expired
answer-find now none = refl
answer-find now (some a) = elim (Bool-cases (is_expired a now)) [
  | inl old ↦ rw old refl
  | inr young ↦ rw young refl
]

-- A `get` is left with a removal only of its key, and only of an expired entry.
pub rest_of_get-expired :
    (now : ℕ) (key k : CacheKey) (a : Option CacheEntry)
    → rest_of_get key (find now a) ≡ some (removal k)
    → (key ≡ k) × (retained now a ≡ none)
unfolding find retained
rest_of_get-expired now key k none e = cc
rest_of_get-expired now key k (some a) e = elim (Bool-cases (is_expired a now)) [
  | inl old ↦ rw old (removal_inj (rw old at e), refl)
  | inr young ↦ absurd (cc (rw young at e))
]
  where
    removal_inj : {x y : CacheKey} → some (removal x) ≡ some (removal y) → x ≡ y
    removal_inj h = cc

-- A predicate of every entry, after a write.
pub write_all :
    (P : CacheKey → Option CacheEntry → Type 0) (key : CacheKey) (x : Option CacheEntry)
    (a : Entries)
    → P key x
    → ((k : CacheKey) → P k (a k))
    → (k : CacheKey) → P k (write key x a k)
write_all P key x a px pa k = elim (CacheKey-discrete k key) [
  | yes p ↦ rw (if_pos _ p) (rw p px)
  | no p ↦ rw (if_neg _ p) (pa k)
]

pub write_both :
    (R : Option CacheEntry → Option CacheEntry → Type 0) (key : CacheKey) (x y : Option CacheEntry)
    (a b : Entries)
    → R x y
    → ((k : CacheKey) → R (a k) (b k))
    → (k : CacheKey) → R (write key x a k) (write key y b k)
write_both R key x y a b rxy rab k = elim (CacheKey-discrete k key) [
  | yes p ↦ rw (if_pos _ p, if_pos _ p) rxy
  | no p ↦ rw (if_neg _ p, if_neg _ p) (rab k)
]

-- The same for the calls of the tasks.
pub assign_both :
    {A B : Type 0} (R : A → B → Type 0) (task : ℕ) (x : A) (y : B) (f : ℕ → A) (g : ℕ → B)
    → R x y
    → ((u : ℕ) → R (f u) (g u))
    → (u : ℕ) → R (assign task x f u) (assign task y g u)
assign_both R task x y f g rxy rfg u = elim (Bool-cases (u == task)) [
  | inl same ↦ rw same rxy
  | inr other ↦ rw other (rfg u)
]
