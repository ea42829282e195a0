-- ===== src/MemStore/Conflicts.antt =====
-- Two write transactions on one `MemStore`, and the graphs that it lists.
use semanticore.Prelude.{
  ◌+◌, ◌<◌, ◌≡◌, refl, Bool, true, List, [], ◌∷◌, ok, err, ◌==◌, mem, any, arith, u64_limit,
  u64_add_fits, mem-sort_by, mem-dedup, dedup, sort_by, ◌∙◌,
}
use semanticore.Model.{NamedNode, NamedOrDefault, Quad, named_node_eq, graph_eq}
use semanticore.Storage.{StorageError}
use semanticore.MemStore.{MemStore, MemTx, commit, graph_names, named_graphs, iri_le}

-- Of two write transactions begun on the same store, the first commit applies its quads, and the
-- second, whatever it wrote, is refused with `TransactionConflict` and leaves the store as the
-- first commit made it, as long as the version counter does not wrap.
pub commit_conflict :
    (s : MemStore) (a b : MemTx)
    → a.writable ≡ true
    → b.writable ≡ true
    → a.base_version ≡ s.version
    → b.base_version ≡ s.version
    → s.version + 1 < u64_limit
    → ((commit a s).0 ≡ ok tt)
      × ((commit a s).1.quads ≡ a.working)
      × (commit b (commit a s).1 ≡ (err StorageError.transaction_conflict, (commit a s).1))
unfolding commit
commit_conflict s a b wa wb ea eb fits = ground (arith, u64_add_fits s.version 1 fits)

unfoldable pub in_graph : NamedNode → Quad → Bool
in_graph g q = q.graph == NamedOrDefault.named g

mem-graph_names : (g : NamedNode) (qs : List Quad) → mem g (graph_names qs) ≡ any (in_graph g) qs
unfolding graph_names mem any in_graph
mem-graph_names g [] = refl
mem-graph_names g (q ∷ qs) = ground (arith, mem-graph_names g qs)

pub mem-listed :
    (g : NamedNode) (qs : List Quad)
    → mem g (dedup (sort_by iri_le (graph_names qs))) ≡ any (in_graph g) qs
mem-listed g qs =
    mem-dedup g (sort_by iri_le (graph_names qs))
    ∙ mem-sort_by iri_le g (graph_names qs)
    ∙ mem-graph_names g qs

-- `named_graphs` succeeds, and lists a name exactly when some quad of the store is in its graph.
pub named_graphs_complete :
    (s : MemStore)
    → (gs : List NamedNode) × (named_graphs s ≡ ok gs)
      × ((g : NamedNode) → mem g gs ≡ any (in_graph g) s.quads)
unfolding named_graphs
named_graphs_complete s =
    (dedup (sort_by iri_le (graph_names s.quads)), refl, λ g. mem-listed g s.quads)
