-- ===== src/Context/Tests.antt =====
-- The theorems about sessions at concrete inputs.
use semanticore.Prelude.{
  ◌≡◌, ◌≢◌, refl, some, [], ◌∷◌, ok, mem, not, ◌&&◌, filter, String_discrete, ℕ_discrete,
  set_insert, set_remove, collect, sort_by, count, u64_add, All, Pairs, ◌||◌,
}
use semanticore.Prelude.OrdMap
use semanticore.MemStore
use semanticore.MemStore.Laws.{mem_view, MemStore-Contract}
use semanticore.Context.Scope.{ContextScope, ContextScope-discrete, colder}
use semanticore.Context.Config.{no_bounds, tier}
use semanticore.Context.Session.State.{Session, Arrival, Failure}
use semanticore.Context.Session.State
use semanticore.Context.Session.History.{run, perform}
use semanticore.Context.Session.Moves.{enforce_bounds, population, move_item, evict_victims}
use semanticore.Context.Session.Moves
use semanticore.Context.Session.Stored
use semanticore.Context.Session.Checks
use semanticore.Context.Session.Operations
use semanticore.Context.Record.{encode, item_graph}
use semanticore.Context.Decimal.{show, is_blank}
use semanticore.Context.Session.Durable.{IsStored}
use semanticore.Context.Session.DurableMoves.{move_item-IsStored}
use semanticore.Context.Session.Durability.{run-IsStored}
use semanticore.Context.Session.Bounds.{Enforced, enforce_bounds-Enforced}
use semanticore.Context.Session.BoundedCalls.{WithinFrom, add_batch-WithinFrom, promote-WithinFrom}
use semanticore.Context.Session.OneEvicted.{Evicted}
use semanticore.Context.Session.Evicted.{evict_victims-Evicted}
use semanticore.Context.Session.DurableEvictions.{ItemIn, Differ}
use semanticore.Context.Session.Effects.{effect, delete_holds, with_write_holds, insert_all-Does}
use semanticore.Context.Record.{meta_quad}
use semanticore.Context.Record.Owners.{belongs}
use semanticore.Context.Session.State.{Entry}
use semanticore.Context.Demo.{demo_platform, demo_storage, doc, fresh}
use semanticore.Model.{
  Quad-discrete, NamedNode-discrete, NamedOrBlankNode-discrete, Term-discrete,
  NamedOrDefault-discrete, quad_eq,
}
use semanticore.Storage.{matches_pattern}
use semanticore.Context.Scenes.{
  fresh-IsStored, story, crowded, one_each, tightened, crowded-IsStored, tightened-IsStored, three,
}

run-IsStored_example : IsStored mem_view (run story (fresh no_bounds))
run-IsStored_example =
    run-IsStored mem_view MemStore-Contract story (fresh no_bounds) (fresh-IsStored no_bounds)

tightened-enforce_bounds : (enforce_bounds ContextScope.major tightened).0 ≡ ok tt
unfolding run perform Operations.add_batch Operations.take_batch Operations.promote
    Operations.promote_checked State.◌>>=◌ State.for_each Checks.validate Checks.validate_all
    Checks.check_in_scope Checks.check_each Checks.check_entry Checks.first_seen Checks.check_source
    Checks.check_payload Checks.check_embedding Checks.check_derived Checks.first_unknown is_blank
    Operations.range Operations.range_from Operations.zip Stored.with_write Stored.insert_all
    Stored.remove_all Stored.delete Operations.insert_items Operations.index_added
    MemStore.begin_write MemStore.begin_read MemStore.insert MemStore.remove
    MemStore.quads_for_pattern MemStore.commit matches_pattern set_insert set_remove filter collect
    mem sort_by Quad-discrete NamedNode-discrete NamedOrBlankNode-discrete Term-discrete
    NamedOrDefault-discrete encode item_graph show Moves.enforce_bounds Moves.enforce_bound
    Moves.evict_over Moves.evict_count Moves.victims Moves.evict_victims Moves.evict_one
    Moves.evict_by Moves.evict_to Moves.drop_item Moves.drop_entry Moves.move_item Moves.move_entry
    colder OrdMap.get OrdMap.insert OrdMap.remove OrdMap.adjust count u64_add ContextScope-discrete
    String_discrete ℕ_discrete
tightened-enforce_bounds = refl

enforce_bounds-Enforced_example :
    Enforced ContextScope.major tightened (enforce_bounds ContextScope.major tightened).1
enforce_bounds-Enforced_example =
    enforce_bounds-Enforced mem_view MemStore-Contract ContextScope.major tightened
      tightened-IsStored tightened-enforce_bounds

three-added :
    (Operations.add_batch ContextScope.major three (fresh one_each)).0 ≡ ok (0 ∷ 1 ∷ 2 ∷ [])
unfolding run perform Operations.add_batch Operations.take_batch Operations.promote
    Operations.promote_checked State.◌>>=◌ State.for_each Checks.validate Checks.validate_all
    Checks.check_in_scope Checks.check_each Checks.check_entry Checks.first_seen Checks.check_source
    Checks.check_payload Checks.check_embedding Checks.check_derived Checks.first_unknown is_blank
    Operations.range Operations.range_from Operations.zip Stored.with_write Stored.insert_all
    Stored.remove_all Stored.delete Operations.insert_items Operations.index_added
    MemStore.begin_write MemStore.begin_read MemStore.insert MemStore.remove
    MemStore.quads_for_pattern MemStore.commit matches_pattern set_insert set_remove filter collect
    mem sort_by Quad-discrete NamedNode-discrete NamedOrBlankNode-discrete Term-discrete
    NamedOrDefault-discrete encode item_graph show Moves.enforce_bounds Moves.enforce_bound
    Moves.evict_over Moves.evict_count Moves.victims Moves.evict_victims Moves.evict_one
    Moves.evict_by Moves.evict_to Moves.drop_item Moves.drop_entry Moves.move_item Moves.move_entry
    colder OrdMap.get OrdMap.insert OrdMap.remove OrdMap.adjust count u64_add ContextScope-discrete
    String_discrete ℕ_discrete
three-added = refl

add_batch-WithinFrom_example :
    WithinFrom ContextScope.major (Operations.add_batch ContextScope.major three (fresh one_each)).1
add_batch-WithinFrom_example =
    add_batch-WithinFrom mem_view MemStore-Contract ContextScope.major three (fresh one_each)
      (fresh-IsStored one_each) three-added

two-promoted :
    (Operations.promote (2 ∷ 0 ∷ 2 ∷ []) ContextScope.major ContextScope.enduring tightened).0
    ≡ ok 2
unfolding run perform Operations.add_batch Operations.take_batch Operations.promote
    Operations.promote_checked State.◌>>=◌ State.for_each Checks.validate Checks.validate_all
    Checks.check_in_scope Checks.check_each Checks.check_entry Checks.first_seen Checks.check_source
    Checks.check_payload Checks.check_embedding Checks.check_derived Checks.first_unknown is_blank
    Operations.range Operations.range_from Operations.zip Stored.with_write Stored.insert_all
    Stored.remove_all Stored.delete Operations.insert_items Operations.index_added
    MemStore.begin_write MemStore.begin_read MemStore.insert MemStore.remove
    MemStore.quads_for_pattern MemStore.commit matches_pattern set_insert set_remove filter collect
    mem sort_by Quad-discrete NamedNode-discrete NamedOrBlankNode-discrete Term-discrete
    NamedOrDefault-discrete encode item_graph show Moves.enforce_bounds Moves.enforce_bound
    Moves.evict_over Moves.evict_count Moves.victims Moves.evict_victims Moves.evict_one
    Moves.evict_by Moves.evict_to Moves.drop_item Moves.drop_entry Moves.move_item Moves.move_entry
    colder OrdMap.get OrdMap.insert OrdMap.remove OrdMap.adjust count u64_add ContextScope-discrete
    String_discrete ℕ_discrete
two-promoted = refl

promote-WithinFrom_example :
    WithinFrom ContextScope.enduring
      (Operations.promote (2 ∷ 0 ∷ 2 ∷ []) ContextScope.major ContextScope.enduring tightened).1
promote-WithinFrom_example =
    promote-WithinFrom mem_view MemStore-Contract (2 ∷ 0 ∷ 2 ∷ []) ContextScope.major
      ContextScope.enduring tightened (λ e. cc e) tightened-IsStored two-promoted

-- where the first of the crowd is
first-in_major :
    (e : Entry) → OrdMap.get 0 crowded.state.items ≡ some e → ContextScope.enduring ≢ e.scope
unfolding run perform Operations.add_batch Operations.take_batch Operations.promote
    Operations.promote_checked State.◌>>=◌ State.for_each Checks.validate Checks.validate_all
    Checks.check_in_scope Checks.check_each Checks.check_entry Checks.first_seen Checks.check_source
    Checks.check_payload Checks.check_embedding Checks.check_derived Checks.first_unknown is_blank
    Operations.range Operations.range_from Operations.zip Stored.with_write Stored.insert_all
    Stored.remove_all Stored.delete Operations.insert_items Operations.index_added
    MemStore.begin_write MemStore.begin_read MemStore.insert MemStore.remove
    MemStore.quads_for_pattern MemStore.commit matches_pattern set_insert set_remove filter collect
    mem sort_by Quad-discrete NamedNode-discrete NamedOrBlankNode-discrete Term-discrete
    NamedOrDefault-discrete encode item_graph show Moves.enforce_bounds Moves.enforce_bound
    Moves.evict_over Moves.evict_count Moves.victims Moves.evict_victims Moves.evict_one
    Moves.evict_by Moves.evict_to Moves.drop_item Moves.drop_entry Moves.move_item Moves.move_entry
    colder OrdMap.get OrdMap.insert OrdMap.remove OrdMap.adjust count u64_add ContextScope-discrete
    String_discrete ℕ_discrete
first-in_major e g = λ x. cc (x, some-inj g)
  where
    some-inj : {a b : Entry} → some a ≡ some b → a ≡ b
    some-inj h = cc

move_item-IsStored_example :
    IsStored mem_view (move_item 0 ContextScope.enduring Arrival.promoted crowded).1
move_item-IsStored_example =
    move_item-IsStored mem_view MemStore-Contract 0 ContextScope.enduring Arrival.promoted crowded
      first-in_major crowded-IsStored

evicted-in_major : All (λ id. ItemIn ContextScope.major id crowded) (2 ∷ 0 ∷ [])
unfolding run perform Operations.add_batch Operations.take_batch Operations.promote
    Operations.promote_checked State.◌>>=◌ State.for_each Checks.validate Checks.validate_all
    Checks.check_in_scope Checks.check_each Checks.check_entry Checks.first_seen Checks.check_source
    Checks.check_payload Checks.check_embedding Checks.check_derived Checks.first_unknown is_blank
    Operations.range Operations.range_from Operations.zip Stored.with_write Stored.insert_all
    Stored.remove_all Stored.delete Operations.insert_items Operations.index_added
    MemStore.begin_write MemStore.begin_read MemStore.insert MemStore.remove
    MemStore.quads_for_pattern MemStore.commit matches_pattern set_insert set_remove filter collect
    mem sort_by Quad-discrete NamedNode-discrete NamedOrBlankNode-discrete Term-discrete
    NamedOrDefault-discrete encode item_graph show Moves.enforce_bounds Moves.enforce_bound
    Moves.evict_over Moves.evict_count Moves.victims Moves.evict_victims Moves.evict_one
    Moves.evict_by Moves.evict_to Moves.drop_item Moves.drop_entry Moves.move_item Moves.move_entry
    colder OrdMap.get OrdMap.insert OrdMap.remove OrdMap.adjust count u64_add ContextScope-discrete
    String_discrete ℕ_discrete
evicted-in_major = (refl, (refl, tt))

evicted-Differ : Pairs Differ (2 ∷ 0 ∷ [])
unfolding ℕ_discrete
evicted-Differ = ((refl, tt), (tt, tt))

evicted-ok : (evict_victims ContextScope.major (2 ∷ 0 ∷ []) crowded).0 ≡ ok tt
unfolding run perform Operations.add_batch Operations.take_batch Operations.promote
    Operations.promote_checked State.◌>>=◌ State.for_each Checks.validate Checks.validate_all
    Checks.check_in_scope Checks.check_each Checks.check_entry Checks.first_seen Checks.check_source
    Checks.check_payload Checks.check_embedding Checks.check_derived Checks.first_unknown is_blank
    Operations.range Operations.range_from Operations.zip Stored.with_write Stored.insert_all
    Stored.remove_all Stored.delete Operations.insert_items Operations.index_added
    MemStore.begin_write MemStore.begin_read MemStore.insert MemStore.remove
    MemStore.quads_for_pattern MemStore.commit matches_pattern set_insert set_remove filter collect
    mem sort_by Quad-discrete NamedNode-discrete NamedOrBlankNode-discrete Term-discrete
    NamedOrDefault-discrete encode item_graph show Moves.enforce_bounds Moves.enforce_bound
    Moves.evict_over Moves.evict_count Moves.victims Moves.evict_victims Moves.evict_one
    Moves.evict_by Moves.evict_to Moves.drop_item Moves.drop_entry Moves.move_item Moves.move_entry
    colder OrdMap.get OrdMap.insert OrdMap.remove OrdMap.adjust count u64_add ContextScope-discrete
    String_discrete ℕ_discrete
evicted-ok = refl

evict_victims-Evicted_example :
    Evicted
      (2 ∷ 0 ∷ [])
      ContextScope.major
      crowded
      (evict_victims ContextScope.major (2 ∷ 0 ∷ []) crowded).1
evict_victims-Evicted_example =
    evict_victims-Evicted mem_view MemStore-Contract ContextScope.major (2 ∷ 0 ∷ []) crowded
      evicted-in_major evicted-Differ crowded-IsStored evicted-ok

delete_holds_example :
    mem_view.holds (Stored.delete (tier crowded.stores ContextScope.major) 1).1 (meta_quad 1 "b")
    ≡ effect mem_view MemStore-Contract
        (Stored.delete (tier crowded.stores ContextScope.major) 1).0
        (not (belongs 1 (meta_quad 1 "b"))
          && mem_view.holds (tier crowded.stores ContextScope.major) (meta_quad 1 "b"))
        (mem_view.holds (tier crowded.stores ContextScope.major) (meta_quad 1 "b"))
delete_holds_example =
    delete_holds mem_view MemStore-Contract (tier crowded.stores ContextScope.major) 1
      (meta_quad 1 "b")

with_write_holds_example :
    mem_view.holds
      (Stored.with_write MemStore.new (Stored.insert_all (encode 1 (doc "b")))).1
      (meta_quad 1 "b")
    ≡ effect mem_view MemStore-Contract
        (Stored.with_write MemStore.new (Stored.insert_all (encode 1 (doc "b")))).0
        (mem (meta_quad 1 "b") (encode 1 (doc "b"))
          || mem_view.holds MemStore.new (meta_quad 1 "b"))
        (mem_view.holds MemStore.new (meta_quad 1 "b"))
with_write_holds_example =
    with_write_holds mem_view MemStore-Contract (Stored.insert_all (encode 1 (doc "b")))
      (λ q b. mem q (encode 1 (doc "b")) || b)
      (insert_all-Does mem_view MemStore-Contract (encode 1 (doc "b"))) MemStore.new
      (meta_quad 1 "b")
