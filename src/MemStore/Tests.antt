-- ===== src/MemStore/Tests.antt =====
-- The theorems about the in-memory store at concrete inputs.
use semanticore.Prelude.{◌≡◌, refl, true, List, [], ◌∷◌, ok, err, mem, any, arith}
use semanticore.Model.{
  NamedNode, NamedOrBlankNode, NamedOrDefault, Term, Quad, named_node, named_node_eq,
}
use semanticore.Storage.{StorageError}
use semanticore.MemStore.{MemStore, MemTx, commit, named_graphs}
use semanticore.MemStore.Conflicts.{commit_conflict, in_graph, named_graphs_complete}

abbrev fact : NamedOrDefault → Quad
fact g = record {
  subject = NamedOrBlankNode.named (named_node "urn:a");
  predicate = named_node "urn:b";
  object = Term.named (named_node "urn:c");
  graph = g;
}

abbrev in_g : Quad
in_g = fact (NamedOrDefault.named (named_node "urn:g"))

abbrev store : MemStore
store = record { version = 4; quads = fact NamedOrDefault.default ∷ in_g ∷ [] }

abbrev writer : List Quad → MemTx
writer qs = record { base_version = 4; working = qs; writable = true }

commit_conflict_example :
    ((commit (writer (in_g ∷ [])) store).0 ≡ ok tt)
    × ((commit (writer (in_g ∷ [])) store).1.quads ≡ in_g ∷ [])
    × (commit (writer []) (commit (writer (in_g ∷ [])) store).1
        ≡ (err StorageError.transaction_conflict, (commit (writer (in_g ∷ [])) store).1))
commit_conflict_example =
    commit_conflict store (writer (in_g ∷ [])) (writer []) refl refl refl refl (omega arith)

named_graphs_complete_example :
    (gs : List NamedNode) × (named_graphs store ≡ ok gs)
    × ((g : NamedNode) → mem g gs ≡ any (in_graph g) store.quads)
named_graphs_complete_example = named_graphs_complete store
