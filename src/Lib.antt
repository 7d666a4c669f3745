-- ===== src/Lib.antt =====
-- Thorax keeps the secrets of a team in one file, the vault: a set of individually signed records
-- that every machine validates for itself. This library models the parts of crates/thorax-core that
-- decide what a set of records means and who may change it.
--
--   - Format (Selector, Key, Body, RatchetRecord): the data types of crates/thorax-core/src/format.rs
--     that the other parts read. A newtype is a synonym of the bytes that it wraps, a string is its
--     UTF-8 bytes, a handle, which is trimmed by characters, its code points, and `Evolving`, a type of
--     the cord library, is a known record or opaque bytes, the two forms that the source takes apart.
--   - Authz: crates/thorax-core/src/authz.rs, the capability model. Selectors name sets of secrets,
--     an `AuthoritySet` holds what a principal may read, write, manage and hand out.
--     `AuthoritySet::add_permission` and `merge_from` mutate the set; here they return the new set
--     with the flag that the source returns. Subsume is about selectors, Cover and Delegate about
--     granting, Grow about the merge of sets, Confer about group membership.
--   - Authority: `compute_authorities_from_selected` of crates/thorax-core/src/validate/effective.rs,
--     which spreads what grants confer from groups to their members. Count, Measure and Round bound
--     the rounds, Settle ends the loop; Powers, Sound, Complete and Holding say what it computes.
--   - Lww: the resolution of crates/thorax-core/src/validate/effective.rs that picks one record for
--     each key (`lww_resolution`, `partition_lww`, `compare_lww`). Its two loops are folds over the
--     slots. Slot, Collect, Winner, Converge and
--     Partition follow the loops.
--   - Effective: the rest of validate/effective.rs. Select is `select_authorized_records`, State the
--     loop and the state of `compute_effective_state`, Report `materialize_conflicts`; Settled and
--     Granted are about the state.
--   - Crypto: crates/thorax-core/src/crypto.rs and the derivations of crates/thorax-core/src/ids.rs.
--     The trait `CryptoProvider` and `cord::serialize` are a record of functions; an error of the
--     serialiser is `none` here and in the parts that call it.
--   - Pipeline: crates/thorax-core/src/validate/pipeline.rs and `validate_vault_with_verified` of
--     validate/mod.rs. Root, Signers, Records, Deletions and Watermarks are the steps of
--     `validate_v1`, in its order, and Validate composes them; Report is what they return. A step
--     that pushes issues returns them. The children are about the step that they stand under.
--   - Query: crates/thorax-core/src/validate/state.rs, and the counters of validate/mod.rs. An index
--     out of range, where the source would panic, is `none`. Index and Greatest are about the index
--     of secrets, Classify about reading.
--   - Ratchet: crates/thorax-core/src/ratchet.rs, the local memory of the highest counter at each key.
--     Validation raises it by `RatchetUpdate`s, and the ratchet store and invitations write it as
--     records and read them back. Monotone is about the updates, Restore about the records.
--   - Merge: crates/thorax-core/src/merge.rs, the three-way merge. `cord::Set` and `cord::serialize`
--     are the parameter `RecordSet`, with the one law that a set collected from records has these
--     elements. A result is nothing when the serialisation fails. Union, Anchor and Accept are about
--     its result.
--   - Handle: `normalize_handle` and `is_valid_handle` of crates/thorax-core/src/ids.rs, over the code
--     points of a string; `str::trim` and `as_bytes` are written out.
--   - Envelope: `encode_vault` and `decode_vault` of crates/thorax-core/src/validate/mod.rs. The
--     serialiser is the parameter `VaultCodec`, with the law that what was serialised is read back.
--     An error keeps its kind and the number that its message names.
--   - Join: crates/thorax-core/src/join.rs, candidates and approvals with the messages that are signed
--     and their encodings; each store has its serialiser `ArtifactCodec`, with the same law. The limit
--     is on the payload where an artifact is written, and on magic and payload where it is read.
--   - Invitation: the invitations of crates/thorax-core/src/format.rs, and `invite_bytes` and
--     `decode_invite_bytes` of crates/thorax-frontend/src/runtime.rs, over a serialiser with that law.
--   - Structure: crates/thorax-core/src/validate/structure.rs. A check returns the defect that the
--     source's error message names. Structure/Record checks whole records, with the ids that Crypto
--     derives.
--   - Prelude: Boolean tests, list operations, equality and order classes, and `BTreeMap` as an
--     association list in the order of the keys. A module called Examples holds tests and the
--     theorems at concrete inputs.
--
-- The parts interact as the source has it: a merge makes the union of the records. Pipeline hashes the
-- union, finds the root that Ratchet trusts, resolves the signing keys, and keeps the records that
-- Structure and the signatures allow. Effective, with Lww, Authority and Authz, makes the state of
-- them, once to see which counters count and once without the keys that Ratchet shows to have gone
-- backward. Query answers from that state, and the update goes back to Ratchet.
--
-- Counters are natural numbers; the source has u64 and compares them and takes maxima, and where it
-- adds one it saturates, as `next_counter` here does. The sum of lengths in `encode_vault` saturates
-- on a `usize` of 64 bits.
--
-- Most loops run over lists and are structural recursion. Four run on a number of rounds: the loop of
-- `compute_effective_state` has the 64 rounds of the source; the loop over memberships has `rounds`,
-- one more than all principals together can gain; the loop that introduces users has one more than
-- there are user records; the loop that admits deletions has as many as there are candidates. The last
-- three are `loop`s in the source, and that they end in these rounds is among the results.
--
-- Not modelled: signatures, key derivation and encryption (crates/thorax-core/src/hazmat.rs,
-- crates/thorax-crypto), since they only call libraries; the byte format of the cord library; the
-- crates above the core: operations, stores, frontends (but for invitation files), bindings, the
-- updater and the Kubernetes controller.
pub mod Prelude
pub mod Format
pub mod Authz
pub mod Lww
pub mod Ratchet
pub mod Merge
pub mod Handle
pub mod Join
pub mod Invitation
pub mod Envelope
pub mod Structure
pub mod Authority
pub mod Crypto
pub mod Pipeline
pub mod Query
pub mod Effective
