-- ===== src/Suite/Passing.antt =====
-- The contract suite of crates/semanticore-storage-testkit/src/contract.rs on the in-memory store of
-- crates/semanticore-storage-testkit/src/mem.rs, which the test kit runs on generated quads.
use semanticore.Prelude.{◌≡◌, Bool, true, List, mem}
use semanticore.Model.{Quad, quad_eq}
use semanticore.Storage.{Pattern}
use semanticore.Suite.Checks.{
  round_trip, idempotent_insert, delete_after_insert, pattern, pattern_from_member,
  rollback_and_isolation, drop_discards_writes, read_only_rejects_writes,
}
use semanticore.Suite.Graphs.{
  named_graphs, named_graphs_track_removals, snapshot_reads, empty_store_is_empty,
}
use semanticore.Suite.Steps.{tested, Passes}
use semanticore.Suite.Passes.{
  round_trip-Passes, idempotent_insert-Passes, pattern-Passes, pattern_from_member-Passes,
}
use semanticore.Suite.WritePasses.{
  rollback_and_isolation-Passes, drop_discards_writes-Passes, read_only_rejects_writes-Passes,
}
use semanticore.Suite.DeletePasses.{delete_after_insert-Passes}
use semanticore.Suite.GraphPasses.{
  named_graphs-Passes, named_graphs_track_removals-Passes, snapshot_reads-Passes,
  empty_store_is_empty-Passes,
}

-- On a fresh in-memory store, whatever the quads: the checks of the round trip, of a second insertion
-- and of a pattern pass, and so does the check of a pattern made from a quad that is among them.
pub quad_checks :
    (quads : List Quad) (p : Pattern) (q : Quad) (mask : Bool × Bool × Bool × Bool)
    → mem q quads ≡ true
    → Passes (round_trip quads)
      × Passes (idempotent_insert quads)
      × Passes (pattern quads p)
      × Passes (pattern_from_member quads q mask)
quad_checks quads p q mask h = (
  round_trip-Passes quads,
  idempotent_insert-Passes quads,
  pattern-Passes quads p,
  pattern_from_member-Passes quads q mask h,
)

-- On a fresh in-memory store, whatever the quads: the checks that a removal undoes an insertion, of
-- rollbacks and isolation, of dropped transactions and of read-only transactions pass.
pub write_checks :
    (base quads : List Quad) (q : Quad)
    → Passes (delete_after_insert base q)
      × Passes (rollback_and_isolation base quads)
      × Passes (drop_discards_writes base quads)
      × Passes (read_only_rejects_writes base q)
write_checks base quads q = (
  delete_after_insert-Passes base q,
  rollback_and_isolation-Passes base quads,
  drop_discards_writes-Passes base quads,
  read_only_rejects_writes-Passes base q,
)

-- On a fresh in-memory store, whatever the quads: the checks of its named graphs, of graphs that
-- removals empty, of a reader that stays open while a writer commits, and of emptiness pass.
pub graph_checks :
    (base quads : List Quad) (flags : List Bool)
    → Passes (named_graphs quads)
      × Passes (named_graphs_track_removals quads flags)
      × Passes (snapshot_reads base quads)
      × Passes empty_store_is_empty
graph_checks base quads flags = (
  named_graphs-Passes quads,
  named_graphs_track_removals-Passes quads flags,
  snapshot_reads-Passes base quads,
  empty_store_is_empty-Passes,
)
