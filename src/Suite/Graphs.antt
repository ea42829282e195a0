-- ===== src/Suite/Graphs.antt =====
-- The checks of crates/semanticore-storage-testkit/src/contract.rs on named graphs and on readers that
-- are open while a writer commits.
use semanticore.Prelude.{
  Bool, true, false, List, [], ◌∷◌, ◌==◌, nat_eq, bool_eq, length, mem, sort_by, dedup,
  if◌then◌else◌,
}
use semanticore.Model.{Quad, named_node_eq, quad_eq}
use semanticore.Storage.{Storage, TransactionIsolation}
use semanticore.MemStore.{iri_le}
use semanticore.Suite.{
  Check, to_set, same_set, graphs_of, unwrap, assert, reads, writes, ends, all_quads, committed,
  insert_each, load, unload, pure, ◌>>=◌, ◌>>◌,
}
use semanticore.Suite.Checks.{set_extend, without_first}

-- `zip(remove.iter().cycle())` with a filter on the flag: `all` is the list that starts again
unfoldable pub flagged : List Bool → List Bool → List Quad → List Quad
flagged all flags [] = []
flagged [] flags (q ∷ qs) = []
flagged (a ∷ all) [] (q ∷ qs) = let rest = flagged (a ∷ all) all qs in if a then q ∷ rest else rest
flagged (a ∷ all) (f ∷ flags) (q ∷ qs) =
    let rest = flagged (a ∷ all) flags qs in if f then q ∷ rest else rest

module _ ⦃st : Storage⦄ where
  unfoldable pub named_graphs : List Quad → Check (Unit {0})
  named_graphs quads = do
    load quads
    got ← reads st.named_graphs
    assert (length got == length (to_set got)) "named_graphs yielded duplicates"
    assert (same_set (to_set got) (graphs_of quads)) "got_set == graphs_of(quads)"

  unfoldable pub named_graphs_track_removals : List Quad → List Bool → Check (Unit {0})
  named_graphs_track_removals quads flags = do
    load quads
    unload (flagged flags flags quads)
    remaining ← committed
    listed ← reads st.named_graphs
    let got = dedup (sort_by iri_le listed)
    assert (length got == length listed) "named_graphs yielded duplicates"
    assert (same_set (to_set got) (graphs_of remaining)) "got == graphs_of(&remaining)"
    n ← reads st.quad_count
    assert (n == length remaining) "store.quad_count() == remaining.len()"

  abbrev pub is_snapshot : TransactionIsolation → Bool
  is_snapshot TransactionIsolation.read_committed = false
  is_snapshot TransactionIsolation.snapshot_isolation = true
  is_snapshot TransactionIsolation.serializable = true

  -- the reader finds what was there before
  unfoldable pub reads_before : List Quad → List Quad → st.Transaction → Check (Unit {0})
  reads_before [] before reader = pure tt
  reads_before (q ∷ qs) before reader = do
    found ← unwrap (st.contains reader q)
    assert (found == mem q before) "reader.contains(q) == before.contains(q)"
    reads_before qs before reader

  unfoldable pub stays : List Quad → List Quad → st.Transaction → Check (Unit {0})
  stays quads before reader = do
    seen ← all_quads reader
    assert (same_set seen before) "snapshot moved under a reader"
    reads_before quads before reader

  unfoldable pub remove_first : List Quad → st.Transaction → Check st.Transaction
  remove_first [] tx = pure tx
  remove_first (q ∷ _) tx = do r ← writes (st.remove tx q); pure r.1

  unfoldable pub snapshot_reads : List Quad → List Quad → Check (Unit {0})
  snapshot_reads base quads = do
    load base
    before ← committed
    snapshot ← λ s. pure (is_snapshot (st.capabilities s).isolation) s
    reader ← reads st.begin_read
    pinned ← all_quads reader
    assert (same_set pinned before) "all_quads(&reader) == before"
    tx ← reads st.begin_write
    tx' ← insert_each quads tx
    tx'' ← remove_first base tx'
    ends (st.commit tx'')
    after ← committed
    if snapshot then stays quads before reader else pure tt
    ends (st.rollback reader)
    assert (same_set after (without_first base (set_extend quads before))) "after == expected"

  unfoldable pub empty_store_is_empty : Check (Unit {0})
  empty_store_is_empty = do
    n ← reads st.quad_count
    assert (n == 0) "store.quad_count() == 0"
    graphs ← reads st.named_graphs
    assert (length graphs == 0) "store.named_graphs().is_empty()"
    quads ← committed
    assert (length quads == 0) "committed(&store).is_empty()"
