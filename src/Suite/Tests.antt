-- ===== src/Suite/Tests.antt =====
-- The contract suite at fixed quads, and the theorems about it at concrete inputs.
use semanticore.Prelude.{
  ◌≡◌, refl, Bool, true, false, none, some, List, [], ◌∷◌, mem, collect, filter, length, sort_by,
  dedup, set_insert, set_remove, u64_add, String_discrete, ℕ_discrete,
}
use semanticore.Prelude
use semanticore.Model.{
  NamedOrDefault, Quad, quad_eq, Quad-discrete, NamedNode-discrete, NamedOrBlankNode-discrete,
  Term-discrete, NamedOrDefault-discrete,
}
use semanticore.Storage.{matches_pattern}
use semanticore.MemStore
use semanticore.Suite.{
  any_quad, to_set, all_in, same_set, same_list, all_quads, committed, load, unload, insert_each,
  remove_each, ◌>>=◌,
}
use semanticore.Suite.Checks.{
  round_trip, idempotent_insert, delete_after_insert, pattern, pattern_from_member,
  rollback_and_isolation, drop_discards_writes, read_only_rejects_writes,
}
use semanticore.Suite.Graphs.{
  named_graphs, named_graphs_track_removals, snapshot_reads, empty_store_is_empty,
}
use semanticore.Suite.Examples.{
  iri, in_graph, triple_of, graphs_are_separate, writes_after_rollback,
}
use semanticore.Suite.Steps.{tested, Passes}
use semanticore.Suite.Passing.{quad_checks, write_checks, graph_checks}

graphs_are_separate-Passes : Passes graphs_are_separate
unfolding graphs_are_separate ◌>>=◌ load unload insert_each remove_each committed all_quads to_set
    all_in same_set same_list MemStore.begin_read MemStore.begin_write Prelude.◌>>=◌ MemStore.insert
    MemStore.remove MemStore.commit MemStore.rollback MemStore.quad_count MemStore.named_graphs
    MemStore.graph_names MemStore.quads_for_pattern matches_pattern collect filter length sort_by
    dedup set_insert set_remove mem Quad-discrete NamedNode-discrete NamedOrBlankNode-discrete
    Term-discrete NamedOrDefault-discrete u64_add String_discrete ℕ_discrete
graphs_are_separate-Passes = (_, refl)

writes_after_rollback-Passes : Passes writes_after_rollback
unfolding writes_after_rollback ◌>>=◌ committed all_quads to_set all_in same_set MemStore.begin_read
    MemStore.begin_write Prelude.◌>>=◌ MemStore.insert MemStore.commit MemStore.rollback
    MemStore.quads_for_pattern matches_pattern collect filter length set_insert mem Quad-discrete
    NamedNode-discrete NamedOrBlankNode-discrete Term-discrete NamedOrDefault-discrete u64_add
    String_discrete ℕ_discrete
writes_after_rollback-Passes = (_, refl)

abbrev sample : List Quad
sample = triple_of "a" ∷ in_graph (NamedOrDefault.named (iri "g1")) ∷ triple_of "a" ∷ []

sample-mem : mem (triple_of "a") sample ≡ true
unfolding mem Quad-discrete NamedNode-discrete NamedOrBlankNode-discrete Term-discrete
    NamedOrDefault-discrete String_discrete
sample-mem = refl

quad_checks_example :
    Passes (round_trip sample)
    × Passes (idempotent_insert sample)
    × Passes (pattern sample any_quad)
    × Passes (pattern_from_member sample (triple_of "a") (true, false, true, false))
quad_checks_example =
    quad_checks sample any_quad (triple_of "a") (true, false, true, false) sample-mem

write_checks_example :
    Passes (delete_after_insert sample (triple_of "b"))
    × Passes (rollback_and_isolation sample (triple_of "b" ∷ []))
    × Passes (drop_discards_writes sample (triple_of "b" ∷ []))
    × Passes (read_only_rejects_writes sample (triple_of "b"))
write_checks_example = write_checks sample (triple_of "b" ∷ []) (triple_of "b")

graph_checks_example :
    Passes (named_graphs sample)
    × Passes (named_graphs_track_removals sample (false ∷ true ∷ []))
    × Passes (snapshot_reads (triple_of "b" ∷ []) sample)
    × Passes empty_store_is_empty
graph_checks_example = graph_checks (triple_of "b" ∷ []) sample (false ∷ true ∷ [])
