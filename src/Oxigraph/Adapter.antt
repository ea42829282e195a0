-- ===== src/Oxigraph/Adapter.antt =====
-- crates/semanticore-store-oxigraph/src/lib.rs: `OxigraphStore` and its transactions. A transaction of
-- the kind `latest` reads the store itself; it is given the store as it stands when the transaction is
-- begun, so nothing else commits while it is open. `begin_write` waits for no other writer.
use semanticore.Prelude.{
  ℕ, String, Bool, true, false, not, Option, none, some, List, [], ◌∷◌, map, Result, ok, err, ◌>>=◌,
  map_err, if◌then◌else◌,
}
use semanticore.Model.{NamedNode, Quad}
use semanticore.Storage.{Storage, StorageError, StorageCapabilities, TransactionIsolation, Pattern}
use semanticore.Oxigraph.Engine.{OxSubject, OxGraphName, OxPattern, Engine}
use semanticore.Oxigraph.Engine
use semanticore.Oxigraph.Convert.{
  Unrepresentable, storage_error, core_error, subject_to_ox, named_to_ox, term_to_ox, graph_to_ox,
  quad_to_ox, quad_from_ox, named_from_ox,
}

pub data AdapterError : Type 0 where
  read_only_transaction read_only_store : AdapterError

abbrev pub display_adapter : AdapterError → String
display_adapter AdapterError.read_only_transaction = "transaction is read-only"
display_adapter AdapterError.read_only_store = "store was opened read-only"

-- `From<AdapterError> for StorageError`
abbrev pub adapter_error : AdapterError → StorageError
adapter_error e = StorageError.backend (display_adapter e)

pub data Kind : Type 0 where
  in_memory on_disk on_disk_read_only : Kind

-- `map` and `transpose` of an optional position
abbrev pub transposed {ℓ κ} :
    {A : Type ℓ} {B : Type κ}
    → (A → Result Unrepresentable B)
    → Option A
    → Result Unrepresentable (Option B)
transposed f none = ok none
transposed f (some a) = do b ← f a; ok (some b)

unfoldable pub capabilities_of : Kind → StorageCapabilities
capabilities_of Kind.in_memory = record {
  persistent = false;
  concurrent_writes = true;
  bulk_load = false;
  sparql_endpoint = true;
  approximate_quad_count = false;
  isolation = TransactionIsolation.read_committed;
}
capabilities_of Kind.on_disk = record {
  persistent = true;
  concurrent_writes = true;
  bulk_load = true;
  sparql_endpoint = true;
  approximate_quad_count = false;
  isolation = TransactionIsolation.snapshot_isolation;
}
capabilities_of Kind.on_disk_read_only = record {
  persistent = true;
  concurrent_writes = false;
  bulk_load = false;
  sparql_endpoint = true;
  approximate_quad_count = false;
  isolation = TransactionIsolation.snapshot_isolation;
}

module _ (ox : Engine) where
  pub record OxigraphStore : Type 0 where
    pub inner : ox.Store
    pub kind : Kind

  -- `OxigraphTransaction`, which is its `TxInner`
  pub data TxInner : Type 0 where
    write : ox.Transaction → TxInner
    snapshot : ox.Transaction → TxInner
    latest : ox.Store → TxInner

  -- The three constructors, from what the crate's constructor of that kind gives.
  abbrev pub open_as : Kind → Result ox.Error ox.Store → Result StorageError OxigraphStore
  open_as kind opened = do
    inner ← map_err (core_error ox) opened
    ok (record { inner = inner; kind = kind })

  abbrev pub started : OxigraphStore → Result StorageError ox.Transaction
  started s = map_err (core_error ox) (ox.start_transaction s.inner)

  unfoldable pub begin_read : OxigraphStore → Result StorageError TxInner
  begin_read s = elim s.kind [
    | Kind.on_disk ↦ started s >>= λ tx. ok (TxInner.snapshot tx)
    | Kind.in_memory ↦ ok (TxInner.latest s.inner)
    | Kind.on_disk_read_only ↦ ok (TxInner.latest s.inner)
  ]

  unfoldable pub begin_write : OxigraphStore → Result StorageError TxInner
  begin_write s = elim s.kind [
    | Kind.on_disk_read_only ↦ err (adapter_error AdapterError.read_only_store)
    | _ ↦ started s >>= λ tx. ok (TxInner.write tx)
  ]

  unfoldable pub quad_count : OxigraphStore → Result StorageError ℕ
  quad_count s = map_err (core_error ox) (ox.len s.inner)

  -- A graph of the core model is named by an IRI.
  abbrev pub graph_iri : Engine.SubjectIn ox → Result StorageError ox.Named
  graph_iri (OxSubject.named_node n) = ok n
  graph_iri (OxSubject.blank_node b) =
      err (storage_error (Unrepresentable.blank_graph_name (ox.label b)))

  abbrev pub in_graph : ox.Named → Engine.PatternIn ox
  in_graph g = record {
    subject = none;
    predicate = none;
    object = none;
    graph_name = some (OxGraphName.named_node g);
  }

  -- whether the graph has a first quad, which may be an error
  abbrev pub is_inhabited : ox.Store → ox.Named → Result StorageError Bool
  is_inhabited s g = elim (ox.store_quads s (in_graph g)) [
    | [] ↦ ok false
    | first ∷ _ ↦ map_err (core_error ox) first >>= λ _. ok true
  ]

  -- the loop of `named_graphs`
  unfoldable pub inhabited :
      ox.Store → List (Result ox.Error (Engine.SubjectIn ox)) → Result StorageError (List NamedNode)
  inhabited s [] = ok []
  inhabited s (r ∷ rs) = do
    subject ← map_err (core_error ox) r
    g ← graph_iri subject
    used ← is_inhabited s g
    graphs ← inhabited s rs
    ok (if used then named_from_ox ox g ∷ graphs else graphs)

  abbrev pub named_graphs : OxigraphStore → Result StorageError (List NamedNode)
  named_graphs s = inhabited s.inner (ox.store_graphs s.inner)

  abbrev pub writer : TxInner → Result StorageError ox.Transaction
  writer (TxInner.write tx) = ok tx
  writer _ = err (adapter_error AdapterError.read_only_transaction)

  abbrev pub contains_ox : TxInner → Engine.QuadIn ox → Result StorageError Bool
  contains_ox (TxInner.write tx) q = map_err (core_error ox) (ox.contains tx q)
  contains_ox (TxInner.snapshot tx) q = map_err (core_error ox) (ox.contains tx q)
  contains_ox (TxInner.latest s) q = map_err (core_error ox) (ox.store_contains s q)

  -- what `insert` finds before it writes
  abbrev pub sought :
      TxInner → Quad → Result StorageError (ox.Transaction × Engine.QuadIn ox × Bool)
  sought inner quad = do
    tx ← writer inner
    q ← map_err storage_error (quad_to_ox ox quad)
    present ← contains_ox inner q
    ok (tx, q, present)

  unfoldable pub insert : TxInner → Quad → Result StorageError Bool × TxInner
  insert inner quad = elim (sought inner quad) [
    | err e ↦ (err e, inner)
    | ok (tx, q, present) ↦
        if present then (ok false, inner) else (ok true, TxInner.write (ox.insert tx q))
  ]

  -- A quad that cannot be represented is not there.
  unfoldable pub remove : TxInner → Quad → Result StorageError Bool × TxInner
  remove inner quad = elim (writer inner) [
    | err e ↦ (err e, inner)
    | ok tx ↦ elim (quad_to_ox ox quad) [
      | err _ ↦ (ok false, inner)
      | ok q ↦ elim (contains_ox inner q) [
        | err e ↦ (err e, inner)
        | ok present ↦
            if not present then (ok false, inner) else (ok true, TxInner.write (ox.remove tx q))
      ]
    ]
  ]

  unfoldable pub contains : TxInner → Quad → Result StorageError Bool
  contains inner quad = elim (quad_to_ox ox quad) [ ok q ↦ contains_ox inner q | err _ ↦ ok false ]

  unfoldable pub pattern_to_ox : Pattern → Result Unrepresentable (Engine.PatternIn ox)
  pattern_to_ox p = do
    s ← transposed (subject_to_ox ox) p.subject
    n ← transposed (named_to_ox ox) p.predicate
    o ← transposed (term_to_ox ox) p.object
    g ← transposed (graph_to_ox ox) p.graph
    ok (record { subject = s; predicate = n; object = o; graph_name = g })

  abbrev pub quads_ox : TxInner → Engine.PatternIn ox → List (Result ox.Error (Engine.QuadIn ox))
  quads_ox (TxInner.write tx) p = ox.quads tx p
  quads_ox (TxInner.snapshot tx) p = ox.quads tx p
  quads_ox (TxInner.latest s) p = ox.store_quads s p

  abbrev pub read_back : Result ox.Error (Engine.QuadIn ox) → Result StorageError Quad
  read_back r = map_err (core_error ox) r >>= quad_from_ox ox

  unfoldable pub quads_for_pattern : TxInner → Pattern → List (Result StorageError Quad)
  quads_for_pattern inner p = elim (pattern_to_ox p) [
    | ok q ↦ map read_back (quads_ox inner q)
    | err _ ↦ []
  ]

  unfoldable pub commit : TxInner → OxigraphStore → Result StorageError (Unit {0}) × OxigraphStore
  commit (TxInner.write tx) s =
      let done = ox.commit tx s.inner in
      (map_err (core_error ox) done.0, record s { inner = done.1 })
  commit (TxInner.snapshot _) s = (ok tt, s)
  commit (TxInner.latest _) s = (ok tt, s)

  abbrev pub rollback : TxInner → OxigraphStore → Result StorageError (Unit {0}) × OxigraphStore
  rollback _ s = (ok tt, s)

  abbrev pub oxigraph_storage : Storage
  oxigraph_storage = record {
    Store = OxigraphStore;
    Transaction = TxInner;
    Error = StorageError;
    begin_read = begin_read;
    begin_write = begin_write;
    quad_count = quad_count;
    named_graphs = named_graphs;
    capabilities = λ s. capabilities_of s.kind;
    insert = insert;
    remove = remove;
    contains = contains;
    quads_for_pattern = quads_for_pattern;
    commit = commit;
    rollback = rollback;
  }
