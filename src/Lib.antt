-- ===== src/Lib.antt =====
-- semantiCore: the context session, its item records and its Python bindings, and the storage interface
-- with its in-memory reference store, its contract suite and its Oxigraph adapter.
--
-- A session (crates/semanticore-context) keeps context items in three tiers, enduring, major and
-- minor, each backed by its own store of quads. It holds an index of the live items in memory and
-- writes every item through to the store of its scope; additions, promotions, evictions and queries
-- move items between the tiers and keep each tier within its bound. A store is anything that
-- implements the storage traits (crates/semanticore-core/src/storage.rs); the repository's reference
-- implementation is the in-memory store of crates/semanticore-storage-testkit/src/mem.rs, and its
-- persistent one is the adapter of crates/semanticore-store-oxigraph.
--
-- The files:
-- - Prelude and its children: names of the libraries, and lists, results, ordered maps (BTreeMap),
--   stable sorting, sets and 64-bit sums.
-- - Model: crates/semanticore-core/src/model.rs, the terms and quads.
-- - Storage: crates/semanticore-core/src/storage.rs, the traits as a record of operations.
--   Storage/Contract holds the laws that the session relies on,
--   Storage/Restricted the same laws over part of the quads, and
--   Storage/Reliable those of a storage on which a lone writer never fails.
-- - MemStore: crates/semanticore-storage-testkit/src/mem.rs. Storage/Guarded: guard.rs beside it.
-- - Suite: crates/semanticore-storage-testkit/src/contract.rs, the contract suite. Checks and Graphs hold
--   the checks on generated quads, Examples those on fixed quads, and the other files their proofs for
--   the in-memory store.
-- - Context/Scope and Context/Item: crates/semanticore-context/src/item.rs. Context/Config, Query and
--   Error: config.rs, query.rs and error.rs beside it, with the texts of the
--   errors in Messages.
-- - Context/Record with Wire and Decimal: crates/semanticore-context/src/record.rs, how an item is laid
--   out in a store.
-- - Context/Session: crates/semanticore-context/src/session.rs. State is the session and the actions on
--   it, Stored what works on one store (with_write, delete, load), Moves the private helpers
--   (move_item, victims, enforce_bounds, auto_promote), Checks the checks, Operations and Querying the
--   public calls, History the runs of calls. The other files of that folder hold proofs.
-- - Context/Platform: what the session uses and the repository does not implement.
-- - Context/Demo and Scenes, and the Tests, CallTests, DataTests and IdTests files: concrete inputs.
-- - Oxigraph/Convert: crates/semanticore-store-oxigraph/src/convert.rs, and Oxigraph/Adapter lib.rs
--   beside it. Oxigraph/Engine is what they use of the crates oxigraph and oxsdatatypes, Oxigraph/Laws
--   the documented behaviour that they rely on, Oxigraph/Sample an engine that meets it, for the
--   tests. The other files of that folder hold proofs.
-- - Bindings: crates/semanticore-context-py/src. Errors is errors.rs, PySession the class of session.rs
--   with its proofs in Wraps, and Terms the terms and triples of terms.rs.
-- - Reasoning: the data of the reasoner interfaces, datalog.rs, shacl.rs, owl.rs and reasoner.rs of
--   crates/semanticore-core/src.
--
-- A fallible operation returns a result; an action returns its result beside the session that it
-- leaves, so what was done before an error stays done. A panic is an error of its own kind. The mutex
-- of a session makes each public call one step, so concurrent use is a sequence of calls. Ids and
-- counters are 64-bit numbers whose sums wrap; a 64-bit platform is assumed for usize. A Duration is a
-- number of nanoseconds. A hash set is a list without repetition. A transaction that is dropped is a
-- value that is not used again.
--
-- Loops are structural recursion. The loop of enforce_bounds goes down a chain of three scopes and is
-- written out, so there is no fuel.
--
-- Parameters: a platform (JSON text of a record, 32- and 64-bit floats, the clock, Debug text), a
-- storage, and the engine of the Oxigraph adapter. Laws of them are named where they are used:
-- ReadsBack and FloatOrder in Context/Platform, the storage contract, and TermLaws, StoredAs and
-- StoreLaws in Oxigraph/Laws. An adapter's transaction that reads the store itself is given the store
-- as it stands when it begins, so no other writer commits while it is open.
--
-- Not modelled: the conversions of Python objects in crates/semanticore-context-py/src but those of
-- terms and triples, since the JSON values and most objects are PyO3's; the traits of reasoners, which
-- have no implementation; and of the testkit the generators, the macro and the check with threads.
pub mod Prelude
pub mod Model
pub mod Storage
pub mod MemStore
pub mod Context
pub mod Oxigraph
pub mod Suite
pub mod Bindings
pub mod Reasoning
