-- ===== src/Context/IdTests.antt =====
-- The theorems about the ids of a session at concrete inputs.
use semanticore.Prelude.{
  ◌≡◌, refl, none, ◌+◌, ◌<◌, ◌≤◌, u64_limit, length, collect, filter, count, sort_by, set_insert,
  set_remove, mem, u64_add, String_discrete, ℕ_discrete, arith,
}
use semanticore.Prelude.OrdMap
use semanticore.MemStore
use semanticore.Model.{
  Quad-discrete, NamedNode-discrete, NamedOrBlankNode-discrete, Term-discrete,
  NamedOrDefault-discrete,
}
use semanticore.Storage.{matches_pattern}
use semanticore.Context.Scope.{ContextScope, ContextScope-discrete, ItemId, colder}
use semanticore.Context.Decimal.{show, is_blank}
use semanticore.Context.Record.{item_graph, encode}
use semanticore.Context.Demo.{demo_platform, demo_storage}
use semanticore.Context.Session.State
use semanticore.Context.Session.State.{Session}
use semanticore.Context.Session.Stored
use semanticore.Context.Session.Moves
use semanticore.Context.Session.Checks
use semanticore.Context.Session.Operations
use semanticore.Context.Session.History.{Call, perform, run}
use semanticore.Context.Session.Fresh.{assigned, assigned_by, never_reused, next_is_new}
use semanticore.Context.Scenes.{crowded, story}

-- the crowded session without its last item
abbrev thinned : Session
thinned = perform (Call.remove ContextScope.major 2) crowded

thinned-next : thinned.state.next_id ≡ 3
unfolding run perform Operations.add_batch Operations.take_batch Operations.remove State.◌>>=◌
    State.for_each Checks.validate Checks.validate_all Checks.check_source Checks.check_payload
    Checks.check_embedding Checks.check_derived Checks.first_unknown is_blank Operations.range
    Operations.range_from Operations.zip Stored.with_write Stored.insert_all Stored.remove_all
    Stored.delete Operations.insert_items Operations.index_added MemStore.begin_write
    MemStore.begin_read MemStore.insert MemStore.remove MemStore.quads_for_pattern MemStore.commit
    matches_pattern set_insert set_remove filter collect mem sort_by Quad-discrete
    NamedNode-discrete NamedOrBlankNode-discrete Term-discrete NamedOrDefault-discrete encode
    item_graph show Moves.enforce_bounds Moves.enforce_bound Moves.evict_over colder OrdMap.get
    OrdMap.insert OrdMap.remove OrdMap.adjust count u64_add ContextScope-discrete String_discrete
    ℕ_discrete length
thinned-next = refl

thinned_absent : OrdMap.get 2 thinned.state.items ≡ none
unfolding run perform Operations.add_batch Operations.take_batch Operations.remove State.◌>>=◌
    State.for_each Checks.validate Checks.validate_all Checks.check_source Checks.check_payload
    Checks.check_embedding Checks.check_derived Checks.first_unknown is_blank Operations.range
    Operations.range_from Operations.zip Stored.with_write Stored.insert_all Stored.remove_all
    Stored.delete Operations.insert_items Operations.index_added MemStore.begin_write
    MemStore.begin_read MemStore.insert MemStore.remove MemStore.quads_for_pattern MemStore.commit
    matches_pattern set_insert set_remove filter collect mem sort_by Quad-discrete
    NamedNode-discrete NamedOrBlankNode-discrete Term-discrete NamedOrDefault-discrete encode
    item_graph show Moves.enforce_bounds Moves.enforce_bound Moves.evict_over colder OrdMap.get
    OrdMap.insert OrdMap.remove OrdMap.adjust count u64_add ContextScope-discrete String_discrete
    ℕ_discrete length
thinned_absent = refl

story-assigned : assigned_by story ≡ 3
unfolding assigned assigned_by length
story-assigned = refl

story_fits : thinned.state.next_id + assigned_by story < u64_limit
story_fits = rw (thinned-next, story-assigned) (omega arith)

below_next : 2 < thinned.state.next_id
below_next = rw thinned-next (omega arith)

never_reused_example : OrdMap.get 2 (run story thinned).state.items ≡ none
never_reused_example = never_reused story thinned 2 below_next story_fits thinned_absent

crowded-next : crowded.state.next_id ≡ 3
unfolding run perform Operations.add_batch Operations.take_batch Operations.remove State.◌>>=◌
    State.for_each Checks.validate Checks.validate_all Checks.check_source Checks.check_payload
    Checks.check_embedding Checks.check_derived Checks.first_unknown is_blank Operations.range
    Operations.range_from Operations.zip Stored.with_write Stored.insert_all Stored.remove_all
    Stored.delete Operations.insert_items Operations.index_added MemStore.begin_write
    MemStore.begin_read MemStore.insert MemStore.remove MemStore.quads_for_pattern MemStore.commit
    matches_pattern set_insert set_remove filter collect mem sort_by Quad-discrete
    NamedNode-discrete NamedOrBlankNode-discrete Term-discrete NamedOrDefault-discrete encode
    item_graph show Moves.enforce_bounds Moves.enforce_bound Moves.evict_over colder OrdMap.get
    OrdMap.insert OrdMap.remove OrdMap.adjust count u64_add ContextScope-discrete String_discrete
    ℕ_discrete length
crowded-next = refl

crowded_fits : crowded.state.next_id + assigned_by story < u64_limit
crowded_fits = rw (crowded-next, story-assigned) (omega arith)

crowded_unused : (j : ItemId) → crowded.state.next_id ≤ j → OrdMap.get j crowded.state.items ≡ none
unfolding run perform Operations.add_batch Operations.take_batch Operations.remove State.◌>>=◌
    State.for_each Checks.validate Checks.validate_all Checks.check_source Checks.check_payload
    Checks.check_embedding Checks.check_derived Checks.first_unknown is_blank Operations.range
    Operations.range_from Operations.zip Stored.with_write Stored.insert_all Stored.remove_all
    Stored.delete Operations.insert_items Operations.index_added MemStore.begin_write
    MemStore.begin_read MemStore.insert MemStore.remove MemStore.quads_for_pattern MemStore.commit
    matches_pattern set_insert set_remove filter collect mem sort_by Quad-discrete
    NamedNode-discrete NamedOrBlankNode-discrete Term-discrete NamedOrDefault-discrete encode
    item_graph show Moves.enforce_bounds Moves.enforce_bound Moves.evict_over colder OrdMap.get
    OrdMap.insert OrdMap.remove OrdMap.adjust count u64_add ContextScope-discrete String_discrete
    ℕ_discrete length
crowded_unused j le = ground arith

next_is_new_example :
    OrdMap.get (run story crowded).state.next_id (run story crowded).state.items ≡ none
next_is_new_example =
    next_is_new story crowded crowded_fits crowded_unused (run story crowded).state.next_id
      (omega arith)
