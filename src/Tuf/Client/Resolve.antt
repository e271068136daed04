-- ===== src/Tuf/Client/Resolve.antt =====
-- crates/sigstore-tuf/src/client.rs: the walk over the delegations, and the download of a target; with
-- `DelegatedRole::matches_path` of crates/sigstore-tuf/src/metadata/role.rs.
use sigstore_rust.Common.{
  ℕ, zero, suc, List, [], ◌∷◌, ◌++◌, Bool, true, false, ◌||◌, not, Option, none, some, Bytes, Str,
  str, if◌then◌else◌, lookup, bytes_eq, contains, set_insert, starts_with, ltb,
}
use sigstore_rust.Common.Fallible.{ok, err, ok_or, ensure}
use sigstore_rust.Tuf.Error.{Result, malformed, transport, integrity_mismatch}
use sigstore_rust.Tuf.Key.{Crypto}
use sigstore_rust.Tuf.Metadata.{DelegatedRole, TargetFile, Targets, Parsers, target}
use sigstore_rust.Tuf.Trusted.{TrustedMetadataSet, is_top_level_role, json_name}
use sigstore_rust.Tuf.Trusted.Roles.{update_delegated_targets}
use sigstore_rust.Tuf.Client.{
  Repository, MetadataStore, Updater, Client, pure, fail, lift, reads, on_trusted, ◌>>=◌, ◌>>◌,
  cache_put,
}
use sigstore_rust.Tuf.Client.Files.{encode_role, preferred_hash, rsplit_once, verify_target_bytes}
use sigstore_rust.Tuf.Client.Refresh.{targets_pin, fetch_targets_metadata}

-- The `globset` crate: a pattern's matcher, if it is a pattern.
abbrev pub Glob : Type 0
Glob = Str → Option (Str → Bool)

unfoldable pub any_prefix : Str → List Str → Bool
any_prefix hash [] = false
any_prefix hash (p ∷ ps) = starts_with hash p || any_prefix hash ps

-- The loop over the patterns: the first that matches decides, an invalid one before it is an error.
unfoldable pub any_glob : Glob → Str → List Str → Result Bool
any_glob glob path [] = ok false
any_glob glob path (pattern ∷ rest) = elim (glob pattern) [
  | none ↦ err malformed
  | some is_match ↦ elim (is_match path) [ true ↦ ok true | false ↦ any_glob glob path rest ]
]

unfoldable pub matches_path : Crypto → Glob → DelegatedRole → Str → Result Bool
matches_path c glob role path = elim role.path_hash_prefixes [
  | some prefixes ↦ ok (any_prefix (c.hex_encode (c.sha256 path)) prefixes)
  | none ↦ elim role.paths [ some patterns ↦ any_glob glob path patterns | none ↦ ok false ]
]

-- A role to visit, with its delegator.
abbrev pub Visit : Type 0
Visit = Str × Str

-- The front of the work list, past the roles that were visited, and the rest.
unfoldable pub next_visit : List Str → List Visit → Option (Visit × List Visit)
next_visit visited [] = none
next_visit visited ((role, delegator) ∷ rest) =
    if contains role visited then next_visit visited rest else some ((role, delegator), rest)

-- The loop over a role's delegations: the children to visit, in order, and whether one terminates.
unfoldable pub matching_children :
    Crypto → Glob → Str → Str → List DelegatedRole → Result (List Visit × Bool)
matching_children c glob path role [] = ok ([], false)
matching_children c glob path role (child ∷ rest) = elim (is_top_level_role child.name) [
  | true ↦ matching_children c glob path role rest
  | false ↦ elim (matches_path c glob child path) [
    | err e ↦ err e
    | ok false ↦ matching_children c glob path role rest
    | ok true ↦ elim child.terminating [
      | true ↦ ok ((child.name, role) ∷ [], true)
      | false ↦ elim (matching_children c glob path role rest) [
        | err e ↦ err e
        | ok (children, terminated) ↦ ok ((child.name, role) ∷ children, terminated)
      ]
    ]
  ]
]

-- The work list after a role: the children first, and nothing else once one terminates.
unfoldable pub next_list : Crypto → Glob → Str → Str → Targets → List Visit → Result (List Visit)
next_list c glob path role targets to_visit = elim targets.delegations [
  | none ↦ ok to_visit
  | some delegations ↦ elim (matching_children c glob path role delegations.roles) [
    | err e ↦ err e
    | ok (children, terminated) ↦ ok (children ++ (if terminated then [] else to_visit))
  ]
]

-- The name of the file that holds a target: with consistent snapshots the hash goes before the last
-- component of its path.
unfoldable pub target_location : Bool → TargetFile → Str → Result Str
target_location false target path = ok path
target_location true target path = elim (preferred_hash target.hashes) [
  | none ↦ err integrity_mismatch
  | some (algo, hash) ↦ elim (rsplit_once b'/' path) [
    | some (dir, name) ↦ ok (dir ++ (b'/' ∷ (hash ++ (b'.' ∷ name))))
    | none ↦ ok (hash ++ (b'.' ∷ path))
  ]
]

module _ {S R : Type 0} (ms : MetadataStore S) (repo : Repository R) (c : Crypto)
    (p : Parsers) where
  unfoldable pub find_target : Updater S R → Str → Option TargetFile
  find_target u path = elim (lookup (str "targets") u.trusted.targets) [
    | none ↦ none
    | some m ↦ target m.signed path
  ]

  -- A role that is trusted is not fetched again, and one that the snapshot does not pin is skipped.
  abbrev is_loaded : TrustedMetadataSet → Str → Bool
  is_loaded s role =
      bytes_eq role (str "targets") || elim (lookup role s.targets) [ none ↦ false | some m ↦ true ]

  unfoldable pub load_role : Str → Str → ℕ → Client S R (Unit {0})
  load_role role delegator now = do
    bytes ← fetch_targets_metadata ms repo c p role
    on_trusted (λ s. update_delegated_targets c p s bytes role delegator now)
    cache_put ms (json_name (encode_role role)) bytes

  -- Whether the role is there after the step that loads it.
  unfoldable pub ensure_loaded : Str → Str → ℕ → Client S R Bool
  ensure_loaded role delegator now = do
    trusted ← reads (λ u. u.trusted)
    if is_loaded trusted role then pure true else elim (targets_pin trusted role) [
      | none ↦ pure false
      | some pin ↦ (load_role role delegator now >> pure true)
    ]

  module _ (glob : Glob) where
    -- The loop of `get_targetinfo`; `left` is how many steps `max_delegations` still allows.
    unfoldable pub walk :
        (path : Str) (now left : ℕ) (to_visit : List Visit) (visited : List Str)
        → Client S R (Option TargetFile)
    walk path now zero to_visit visited = pure none
    walk path now (suc left) to_visit visited = elim (next_visit visited to_visit) [
      | none ↦ pure none
      | some v ↦
          let ((role, delegator), rest) = v in
          (ensure_loaded role delegator now >>= λ loaded. elim loaded [
            | false ↦ walk path now left rest visited
            | true ↦
                (reads (λ u. lookup role u.trusted.targets) >>= λ found. elim found [
                  | none ↦ fail malformed
                  | some m ↦ elim (target m.signed path) [
                    | some info ↦ pure (some info)
                    | none ↦
                        (lift (next_list c glob path role m.signed rest) >>= λ next.
                        walk path now left next (set_insert role visited))
                  ]
                ])
          ])
    ]

    unfoldable pub get_targetinfo : Str → ℕ → Client S R (Option TargetFile)
    get_targetinfo path now = do
      found ← reads (λ u. lookup (str "targets") u.trusted.targets)
      top ← lift (ok_or found malformed)
      left ← reads (λ u. u.config.max_delegations)
      walk path now left ((str "targets", str "root") ∷ []) []

  unfoldable pub find_cached_target : Updater S R → TargetFile → Str → Option Bytes
  find_cached_target u target path = elim u.store [
    | none ↦ none
    | some store ↦ elim (ms.load store (str "targets/" ++ path)) [
      | none ↦ none
      | some bytes ↦ elim (verify_target_bytes c bytes target) [
        | ok done ↦ some bytes
        | err e ↦ none
      ]
    ]
  ]

  unfoldable pub fetch_target : Str → ℕ → Client S R (Option Bytes)
  fetch_target path max_length u =
      let r = repo.fetch_target u.repo path max_length in (r.0, record u { repo = r.1 })

  unfoldable pub download_target : TargetFile → Str → Client S R Bytes
  download_target target path = do
    max_length ← reads (λ u. u.config.target_max_length)
    lift (ensure (not (ltb max_length target.length)) integrity_mismatch)
    consistent ← reads (λ u. u.trusted.root.signed.consistent_snapshot)
    relative ← lift (target_location consistent target path)
    found ← fetch_target relative target.length
    bytes ← lift (ok_or found transport)
    lift (verify_target_bytes c bytes target)
    cache_put ms (str "targets/" ++ path) bytes
    pure bytes

  unfoldable pub get_target : Glob → Str → ℕ → Client S R Bytes
  get_target glob path now = do
    found ← get_targetinfo glob path now
    info ← lift (ok_or found malformed)
    cached ← reads (λ u. find_cached_target u info path)
    elim cached [ some bytes ↦ pure bytes | none ↦ download_target info path ]
