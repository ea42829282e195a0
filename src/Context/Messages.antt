-- ===== src/Context/Messages.antt =====
-- The texts of the errors of crates/semanticore-context/src/error.rs.
use semanticore.Prelude.{String, [], ◌∷◌}
use semanticore.Model.{format}
use semanticore.Storage.{StorageCapability, StorageError, TransactionIsolation}
use semanticore.Context.Scope.{tag}
use semanticore.Context.Record.{display_id}
use semanticore.Context.Error.{SessionError, ContextError, Unimplemented}

abbrev pub display_context_error : ContextError → String
display_context_error ContextError.shacl_unavailable =
    "SHACL validation needs a SHACL reasoner from the premium tier"
display_context_error ContextError.datalog_unavailable =
    "Datalog evaluation needs a Datalog engine from the premium tier"

abbrev pub display_unimplemented : Unimplemented → String
display_unimplemented Unimplemented.owl_el_reasoner = "the default OWL 2 EL reasoner"
display_unimplemented Unimplemented.ann_index = "similarity search (default ANN/HNSW index)"
display_unimplemented Unimplemented.sparql = "SPARQL query evaluation"

-- `derive(Debug)`
abbrev pub debug_isolation : TransactionIsolation → String
debug_isolation TransactionIsolation.read_committed = "ReadCommitted"
debug_isolation TransactionIsolation.snapshot_isolation = "SnapshotIsolation"
debug_isolation TransactionIsolation.serializable = "Serializable"

abbrev pub debug_capability : StorageCapability → String
debug_capability StorageCapability.persistent = "Persistent"
debug_capability StorageCapability.concurrent_writes = "ConcurrentWrites"
debug_capability StorageCapability.bulk_load = "BulkLoad"
debug_capability StorageCapability.sparql_endpoint = "SparqlEndpoint"
debug_capability StorageCapability.approximate_quad_count = "ApproximateQuadCount"
debug_capability (StorageCapability.isolation level) =
    format ("Isolation(" ∷ debug_isolation level ∷ ")" ∷ [])

-- `display` is the text of the backend's own error
unfoldable pub display_session_error : {E : Type 0} → (E → String) → SessionError E → String
display_session_error display (SessionError.capability_shortfall scope required) =
    format (tag scope ∷ " storage lacks the " ∷ debug_capability required ∷ " capability" ∷ [])
display_session_error display SessionError.missing_provenance = "item has no provenance"
display_session_error display (SessionError.invalid_item reason) =
    format ("invalid item: " ∷ reason ∷ [])
display_session_error display (SessionError.unknown_item id) =
    format ("unknown item " ∷ display_id id ∷ [])
display_session_error display (SessionError.scope_mismatch item expected found) =
    format (display_id item ∷ " is in " ∷ tag found ∷ ", not " ∷ tag expected ∷ [])
display_session_error display (SessionError.durability_violation from to) =
    format ("cannot move items from " ∷ tag from ∷ " to " ∷ tag to ∷ " this way" ∷ [])
display_session_error display (SessionError.premium_only which) =
    format ("premium-only at v0.1: " ∷ display_context_error which ∷ [])
display_session_error display (SessionError.not_yet_implemented what) =
    format ("not yet implemented: " ∷ display_unimplemented what ∷ [])
display_session_error display (SessionError.corrupt reason) =
    format ("corrupt context store: " ∷ reason ∷ [])
display_session_error display (SessionError.storage e) = format ("storage: " ∷ display e ∷ [])

-- `Display` of crates/semanticore-core/src/storage.rs
unfoldable pub display_storage_error : StorageError → String
display_storage_error (StorageError.io e) = format ("io: " ∷ e ∷ [])
display_storage_error (StorageError.serialization e) = format ("serialization: " ∷ e ∷ [])
display_storage_error StorageError.transaction_conflict = "transaction conflict"
display_storage_error (StorageError.unsupported_capability c) =
    format ("unsupported capability: " ∷ debug_capability c ∷ [])
display_storage_error (StorageError.backend e) = format ("backend: " ∷ e ∷ [])
