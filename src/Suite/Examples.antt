-- ===== src/Suite/Examples.antt =====
-- The checks of crates/semanticore-storage-testkit/src/contract.rs at fixed quads.
use semanticore.Prelude.{String, none, some, List, [], ◌∷◌, collect, ◌==◌, nat_eq, length, sort_by}
use Prim.Native.String.{◌++◌ as append}
use semanticore.Model.{
  NamedNode, NamedOrBlankNode, NamedOrDefault, Term, Quad, named_node, named_node_eq, quad_eq,
}
use semanticore.Storage.{Storage}
use semanticore.MemStore.{iri_le}
use semanticore.Suite.{
  Check, any_quad, same_set, same_list, to_set, unwrap, assert, reads, writes, ends, committed,
  load, unload, ◌>>=◌, ◌>>◌,
}

abbrev pub iri : String → NamedNode
iri s = named_node (append "https://example.org/" s)

abbrev pub in_graph : NamedOrDefault → Quad
in_graph g = record {
  subject = NamedOrBlankNode.named (iri "s");
  predicate = iri "p";
  object = Term.named (iri "o");
  graph = g;
}

abbrev pub triple_of : String → Quad
triple_of n = record {
  subject = NamedOrBlankNode.named (iri n);
  predicate = iri "p";
  object = Term.named (iri "o");
  graph = NamedOrDefault.default;
}

module _ ⦃st : Storage⦄ where
  -- the quads of one graph
  abbrev pub only : st.Transaction → NamedOrDefault → Check (List Quad)
  only tx g = unwrap (collect (st.quads_for_pattern tx (record any_quad { graph = some g })))

  unfoldable pub graphs_are_separate : Check (Unit {0})
  graphs_are_separate = do
    let qd = in_graph NamedOrDefault.default
    let q1 = in_graph (NamedOrDefault.named (iri "g1"))
    let q2 = in_graph (NamedOrDefault.named (iri "g2"))
    load (qd ∷ q1 ∷ q2 ∷ [])
    n ← reads st.quad_count
    assert (n == 3) "store.quad_count() == 3"
    tx ← reads st.begin_read
    in_default ← only tx NamedOrDefault.default
    assert (same_list in_default (qd ∷ [])) "only(Default) == [qd]"
    in_g1 ← only tx (NamedOrDefault.named (iri "g1"))
    assert (same_list in_g1 (q1 ∷ [])) "only(g1) == [q1]"
    in_none ← only tx (NamedOrDefault.named (iri "nope"))
    assert (same_list in_none []) "only(nope) == []"
    same ← unwrap (
        collect (
          st.quads_for_pattern tx (record {
            subject = some qd.subject;
            predicate = some qd.predicate;
            object = some qd.object;
            graph = none;
          })))
    assert (length (to_set same) == 3) "same_triple.len() == 3"
    ends (st.rollback tx)
    graphs ← reads st.named_graphs
    assert (same_list (sort_by iri_le graphs) (iri "g1" ∷ iri "g2" ∷ [])) "graphs == [g1, g2]"
    unload (q1 ∷ [])
    left ← committed
    assert (same_set left (to_set (qd ∷ q2 ∷ []))) "committed(&store) == {qd, q2}"
    graphs_left ← reads st.named_graphs
    assert (same_list graphs_left (iri "g2" ∷ [])) "store.named_graphs() == [g2]"

  unfoldable pub writes_after_rollback : Check (Unit {0})
  writes_after_rollback = do
    tx ← reads st.begin_write
    r ← writes (st.insert tx (triple_of "a"))
    ends (st.rollback r.1)
    dropped ← reads st.begin_write
    _ ← writes (st.insert dropped (triple_of "b"))
    last ← reads st.begin_write
    r' ← writes (st.insert last (triple_of "c"))
    assert r'.0 "tx.insert(&q(c))"
    ends (st.commit r'.1)
    quads ← committed
    assert (same_set quads (to_set (triple_of "c" ∷ []))) "committed(&store) == {c}"
