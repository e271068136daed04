-- ===== src/Lib.antt =====
-- A verification library for the core of sigstore-rust: the verification of a bundle, the transparency log's
-- inclusion proofs, and the client of The Update Framework (TUF) that brings sigstore its root of trust.
--
-- The program's parts and how they meet. A TUF client (crates/sigstore-tuf/src/client.rs) fetches metadata
-- files from a repository and a local store and feeds each of them to the trusted metadata set
-- (crates/sigstore-tuf/src/trusted.rs). The set decides: it parses a file
-- (crates/sigstore-tuf/src/metadata), canonicalizes what is signed
-- (crates/sigstore-tuf/src/canonical_json.rs), builds the keys (crates/sigstore-tuf/src/key.rs), counts the
-- signatures against a role's threshold, and compares versions, expiry, lengths and hashes. The targets
-- that the client downloads carry the keys of the logs and authorities: the trusted root
-- (crates/sigstore-trust-root/src/trusted_root.rs). The verifier (crates/sigstore-verify/src/verify.rs) checks
-- a bundle's shape (crates/sigstore-bundle/src/validation.rs), finds the time to judge it at, checks the
-- certificate's chain and the policy, the log's entries with their inclusion proofs
-- (crates/sigstore-merkle/src), checkpoints (crates/sigstore-types/src/checkpoint.rs) and promises, the
-- signature over the artifact, and last the entries against the bundle. The signer
-- (crates/sigstore-sign/src/sign.rs) picks its services from a signing configuration, asks Fulcio for a
-- certificate, signs, adds an entry to the log, asks for a timestamp and builds a bundle
-- (crates/sigstore-bundle/src/builder.rs).
--
-- Files.
--   Common, Common/*: Boolean tests, lists over the native numbers, texts and maps, `Result` and `?`.
--   Merkle/Error, Merkle/Tree, Merkle/Inclusion: error.rs, tree.rs and proof.rs of crates/sigstore-merkle/src:
--     hash_leaf, hash_children, expected_inclusion_proof_length, verify_inclusion_proof. Below Inclusion are
--     the proofs: the length (Length), the levels of a tree (Levels), soundness (Sound, Bound) and both
--     directions together (Correct).
--   Merkle/Consistency: verify_consistency_proof of the same file and its helpers, over Common/Bits, the bit
--     operations of a u64. Prefix is about the first leaves of a tree, Chains about the two loops, Growth about
--     trees of different sizes, Accepts about the guards, AppendOnly and Complete about the whole.
--   Merkle/Spec/*: RFC 6962's tree, root and audit path by the RFC's own recursion, independent of the code.
--   Tuf/Error, Tuf/Json, Tuf/Key, Tuf/Metadata, Tuf/Metadata/Threshold: the files of those names of
--     crates/sigstore-tuf/src, with `VerificationKey` of crates/sigstore-crypto/src/verification.rs and
--     `SigningScheme` of crates/sigstore-crypto/src/signing.rs.
--   Tuf/Trusted, Tuf/Trusted/Roles: trusted.rs. `TrustedMetadataSet` keeps the fields of the struct; each
--     update_* takes the state and gives the `Result` and the state after it. Steps are sequences of
--     updates; Accepted, Authority, Pinned, Rollback, Integrity, Delegated and Refused are the proofs.
--   Tuf/Client, Tuf/Client/Files, Tuf/Client/Refresh, Tuf/Client/Resolve: client.rs, with the traits and the
--     configuration of transport.rs and cache.rs. An operation takes the `Updater` and gives its `Result`
--     and the updater after it. Guarded and Operations relate an operation to the updates of the
--     trusted set, Session runs calls in any order, Ensures and Download follow a target's bytes, Fresh is
--     about a refresh that succeeds, Start about the store's chain of roots, Names about file names.
--   Types/*: crates/sigstore-types/src. Text is what is used of Rust's `str`; Encoding, Checkpoint, Artifact
--     (with hash.rs), Dsse (with intoto.rs) and Bundle are the files of those names. Checkpoint/Note is about
--     the text of a checkpoint, Dsse/Encoding about the DSSE encoding.
--   Validation: crates/sigstore-bundle/src/validation.rs, with its proof in Exact.
--   TrustRoot, TrustRoot/Keys, TrustRoot/Tsa: trusted_root.rs, the records and windows, the certificates and
--     log keys, and the timestamp authorities. Windows and Lookup are the proofs.
--   Crypto/*: signing.rs, verification.rs, checkpoint.rs (with Signed, its proof) and x509.rs of
--     crates/sigstore-crypto/src.
--   Rekor/Body: crates/sigstore-rekor/src/body.rs.
--   Verify/Tlog, Verify/Helpers, Verify/Chain, Verify/Hashedrekord, Verify/Consistency: tlog.rs, helpers.rs (two
--     files), hashedrekord.rs and rekor.rs of crates/sigstore-verify/src/verify_impl. Verify/Content and
--     Verify/Verifier: verify.rs, its step 7 and the whole. Bound, Times and Promise are about log entries,
--     Earliest about the validation time, Accepted, Artifacts, Logged, Policy and WithKey about accepted
--     bundles.
--   Tsa, Tsa/Verify, Tsa/Client: asn1.rs, verify.rs and client.rs of crates/sigstore-tsa/src. Sound is the proof.
--   TrustRoot/SigningConfig: crates/sigstore-trust-root/src/signing_config.rs, with its proof in Best.
--   Rekor/Entry, Rekor/Client: entry.rs and client.rs of crates/sigstore-rekor/src.
--   Builder: crates/sigstore-bundle/src/builder.rs. Sign: crates/sigstore-sign/src/sign.rs; Accepted and Attested
--     put what is signed before the verifier.
--   Cache, Cache/Memory: lib.rs with noop.rs, and memory.rs of crates/sigstore-cache/src, for a call that no
--     other task interrupts. Cache/Tasks has the calls of several tasks on the cache in memory, in the parts
--     that hold one lock each, and an ideal cache; Alone says that the parts make up the calls, Fresh, Lossy
--     and History compare the two caches.
--   Tests/*: runs at concrete inputs.
--
-- Conventions. A Rust String is the list of its UTF-8 bytes, a BTreeMap<String, _> the list of its entries,
-- of which the first with a key counts, and a BTreeSet a list. An unsigned number is a native natural
-- number. `version + 1` of a root wraps at 2^64, as does the end of the range of root versions to fetch; the
-- other numbers of the client are unbounded. An i64 is an integer; the tolerance is added to the present with
-- the wrap-around of i64, and a cast between i64 and u64 wraps. The clock is read once per verification: `now`
-- is an argument, in nanoseconds since 1970. The cache in memory reads a clock of its own, at each event.
-- Errors keep their variant, the role, the versions and the counts; their texts are left out.
--
-- Parameters: what other crates do. SHA-256 is any function from bytes to digests, and where a proof needs
-- it, its digests are 32 bytes; a security statement gives the property or two inputs with one digest.
-- `Crypto` has the hash functions, hex, PEM, SPKI and the signature check of aws-lc-rs; `Parsers` has
-- serde_json, the derived deserializers and jiff's timestamps; `Glob` is the globset crate. `Repository` and
-- `MetadataStore` are the traits of the same names: nothing is assumed of their answers, and a repository may
-- answer the same question twice in different ways. `Platform` has what the verifier uses: base64, hex, the
-- signature checks, the X.509 certificates as x509-cert reads them, webpki's chain check, the JSON readers
-- and jiff. Of its fields, `verify_timestamp_response` stands for crates/sigstore-tsa, which is modelled by
-- itself over `Tsp`, the ASN.1, CMS and webpki crates; `verify_sct` stands for verify_impl/sct.rs, which is not
-- modelled. `Services` has what signing uses: key pairs, Fulcio's certificate, the timestamp, serde_json, and
-- `Http`, the answers of Rekor.
--
-- Loops. The loop over a tree's size goes by well-founded recursion on the size. The walk over the
-- delegations is bounded by `max_delegations`, as in the code, and the loop over the root versions by its
-- range. The loop over the cached roots in `with_store` has no bound in the code; it runs on fuel, and fuel
-- above the number of roots that the store holds in a row lets it end. Where the code of the walk has an
-- `expect` on a role that was just loaded, the model has an error.
--
-- Not modelled. The HTTP repository and the file store, SCTs, the file system cache, the
-- TUF-backed roots (crates/sigstore-trust-root/src/tuf.rs), key generation and signing by a key, and the clients
-- of Fulcio and the OIDC provider: input and output, glue, or calls of other crates throughout.
pub mod Common
pub mod Merkle
pub mod Tuf
pub mod Types
pub mod Validation
pub mod TrustRoot
pub mod Crypto
pub mod Rekor
pub mod Verify
pub mod Builder
pub mod Cache
pub mod Sign
pub mod Tsa
pub mod Tests
