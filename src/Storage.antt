-- ===== src/Storage.antt =====
-- crates/semanticore-core/src/storage.rs: the `Storage` and `StorageTransaction` traits as a record
-- of operations, and `matches_pattern` of crates/semanticore-storage-testkit/src/lib.rs. `Contract`
-- holds the laws of the trait's documentation and of the contract suite.
pub mod Contract
pub mod Reliable
pub mod Restricted
pub mod Guarded
use semanticore.Prelude.{ℕ, String, Bool, true, ◌&&◌, Option, none, some, List, Result, Eq, ◌==◌}
use semanticore.Model.{
  NamedNode, NamedOrBlankNode, NamedOrDefault, Term, Quad, named_node_eq, node_eq, term_eq,
  graph_eq,
}

pub data TransactionIsolation : Type 0 where
  read_committed snapshot_isolation serializable : TransactionIsolation

pub record StorageCapabilities : Type 0 where
  pub persistent : Bool
  pub concurrent_writes : Bool
  pub bulk_load : Bool
  pub sparql_endpoint : Bool
  pub approximate_quad_count : Bool
  pub isolation : TransactionIsolation

pub data StorageCapability : Type 0 where
  persistent concurrent_writes bulk_load sparql_endpoint : StorageCapability
  approximate_quad_count : StorageCapability
  isolation : TransactionIsolation → StorageCapability

-- The boxed errors of `Io` and `Backend` are kept as their messages.
pub data StorageError : Type 0 where
  io : String → StorageError
  serialization : String → StorageError
  transaction_conflict : StorageError
  unsupported_capability : StorageCapability → StorageError
  backend : String → StorageError

-- The four optional positions of `quads_for_pattern`; `none` matches anything.
pub record Pattern : Type 0 where
  pub subject : Option NamedOrBlankNode
  pub predicate : Option NamedNode
  pub object : Option Term
  pub graph : Option NamedOrDefault

-- `is_none_or(|x| y == x)`
abbrev pub none_or {ℓ} : {A : Type ℓ} ⦃e : Eq A⦄ → A → Option A → Bool
none_or y none = true
none_or y (some x) = y == x

unfoldable pub matches_pattern : Quad → Pattern → Bool
matches_pattern q p =
    none_or q.subject p.subject
    && (none_or q.predicate p.predicate && (none_or q.object p.object && none_or q.graph p.graph))

-- A call through `&self` that may change what the store holds returns the store; `insert` and
-- `remove` return the transaction. An iterator of results is a list of results.
pub record Storage : Type 1 where
  pub Store : Type 0
  pub Transaction : Type 0
  pub Error : Type 0
  pub begin_read : Store → Result Error Transaction
  pub begin_write : Store → Result Error Transaction
  pub quad_count : Store → Result Error ℕ
  pub named_graphs : Store → Result Error (List NamedNode)
  pub capabilities : Store → StorageCapabilities
  pub insert : Transaction → Quad → Result Error Bool × Transaction
  pub remove : Transaction → Quad → Result Error Bool × Transaction
  pub contains : Transaction → Quad → Result Error Bool
  pub quads_for_pattern : Transaction → Pattern → List (Result Error Quad)
  pub commit : Transaction → Store → Result Error (Unit {0}) × Store
  pub rollback : Transaction → Store → Result Error (Unit {0}) × Store
