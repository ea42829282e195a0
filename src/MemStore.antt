-- ===== src/MemStore.antt =====
-- crates/semanticore-storage-testkit/src/mem.rs: the reference in-memory store. A transaction works
-- on a private copy of the committed quads, and a commit checks the version that it began from. A
-- `HashSet` is a list without repetition. The mutex makes each call one step of the store.
pub mod Laws
pub mod Conflicts
pub mod Reliability
mod Tests
use semanticore.Prelude.{
  string_le, ℕ, Bool, true, false, not, List, [], ◌∷◌, Result, ok, err, ◌>>=◌, ◌==◌, nat_eq,
  if◌then◌else◌, length, filter, mem, map, set_insert, set_remove, sort_by, dedup, u64_add,
}
use semanticore.Model.{NamedNode, NamedOrDefault, Quad, named_node_eq, quad_eq}
use semanticore.Storage.{
  Storage, StorageError, StorageCapabilities, TransactionIsolation, Pattern, matches_pattern,
}

-- the `State` behind the mutex, which is all that a `MemStore` is
pub record MemStore : Type 0 where
  pub version : ℕ
  pub quads : List Quad

abbrev pub new : MemStore
new = record { version = 0; quads = [] }

pub record MemTx : Type 0 where
  pub base_version : ℕ
  pub working : List Quad
  pub writable : Bool

abbrev pub read_only_error : StorageError
read_only_error = StorageError.backend "write attempted in a read-only transaction"

unfoldable pub begin_read : MemStore → Result StorageError MemTx
begin_read st = ok (record { base_version = st.version; working = st.quads; writable = false })

unfoldable pub begin_write : MemStore → Result StorageError MemTx
unfolding begin_read
begin_write st = do tx ← begin_read st; ok (record tx { writable = true })

unfoldable pub quad_count : MemStore → Result StorageError ℕ
quad_count st = ok (length st.quads)

-- the order of IRIs
abbrev pub iri_le : NamedNode → NamedNode → Bool
iri_le a b = string_le a.iri b.iri

-- the `filter_map` of `named_graphs`
unfoldable pub graph_names : List Quad → List NamedNode
graph_names [] = []
graph_names (q ∷ qs) = elim q.graph [
  | NamedOrDefault.named g ↦ g ∷ graph_names qs
  | NamedOrDefault.default ↦ graph_names qs
]

unfoldable pub named_graphs : MemStore → Result StorageError (List NamedNode)
named_graphs st = ok (dedup (sort_by iri_le (graph_names st.quads)))

abbrev pub capabilities : MemStore → StorageCapabilities
capabilities st = record {
  persistent = false;
  concurrent_writes = false;
  bulk_load = false;
  sparql_endpoint = false;
  approximate_quad_count = false;
  isolation = TransactionIsolation.snapshot_isolation;
}

unfoldable pub insert : MemTx → Quad → Result StorageError Bool × MemTx
insert tx quad =
    if not tx.writable
    then (err read_only_error, tx)
    else (ok (not (mem quad tx.working)), record tx { working = set_insert quad tx.working })

unfoldable pub remove : MemTx → Quad → Result StorageError Bool × MemTx
remove tx quad =
    if not tx.writable
    then (err read_only_error, tx)
    else (ok (mem quad tx.working), record tx { working = set_remove quad tx.working })

unfoldable pub contains : MemTx → Quad → Result StorageError Bool
contains tx quad = ok (mem quad tx.working)

unfoldable pub quads_for_pattern : MemTx → Pattern → List (Result StorageError Quad)
quads_for_pattern tx p = map ok (filter (λ q. matches_pattern q p) tx.working)

unfoldable pub commit : MemTx → MemStore → Result StorageError (Unit {0}) × MemStore
commit tx st =
    if not tx.writable
    then (ok tt, st)
    else if not (st.version == tx.base_version)
    then (err StorageError.transaction_conflict, st)
    else (ok tt, record { version = u64_add st.version 1; quads = tx.working })

unfoldable pub rollback : MemTx → MemStore → Result StorageError (Unit {0}) × MemStore
rollback tx st = (ok tt, st)

abbrev pub mem_storage : Storage
mem_storage = record {
  Store = MemStore;
  Transaction = MemTx;
  Error = StorageError;
  begin_read = begin_read;
  begin_write = begin_write;
  quad_count = quad_count;
  named_graphs = named_graphs;
  capabilities = capabilities;
  insert = insert;
  remove = remove;
  contains = contains;
  quads_for_pattern = quads_for_pattern;
  commit = commit;
  rollback = rollback;
}
