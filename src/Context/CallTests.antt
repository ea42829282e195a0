-- ===== src/Context/CallTests.antt =====
-- The theorems about the checks, the victims and the success of calls at concrete inputs.
use semanticore.Prelude.{count, set_insert, mem, sort_by, filter, arith, String_discrete}
use semanticore.Prelude.OrdMap
use semanticore.MemStore
use semanticore.Context.Scope.{ContextScope-discrete}
use semanticore.Context.Session.State
use semanticore.Context.Session.State.{Session, Arrival}
use semanticore.Context.Session.History.{run, perform}
use semanticore.Context.Session.Stored
use semanticore.Context.Record.{item_graph, encode}
use semanticore.Context.Decimal.{show}
use semanticore.Model.{Quad-discrete}
use semanticore.Context.Session.Promotion.{moved_count, promote-ok}
use semanticore.Prelude.{
  ◌≡◌, ◌⊎◌, ◌↔◌, refl, [], ◌∷◌, ok, err, length, min, ℕ_discrete, u64_add, All,
}
use semanticore.MemStore.Laws.{mem_view, MemStore-Contract}
use semanticore.Context.Scope.{ContextScope}
use semanticore.Context.Session.State.{Failure}
use semanticore.Context.Session.Moves.{enforce_bounds, population, move_item, evict_victims}
use semanticore.Context.Session.Moves
use semanticore.Context.Session.Checks
use semanticore.Context.Session.Operations
use semanticore.Context.Decimal.{is_blank}
use semanticore.Context.Session.Validity.{Valid, validate_iff, add_batch-Valid}
use semanticore.Context.Session.Repeats.{without_repeats}
use semanticore.Context.Session.Checked.{LiveIn, check_in_scope_iff}
use semanticore.Context.Session.Bounds.{pick_victims-length}
use semanticore.Context.Session.Order.{Precedes, pick_victims-Precedes}
use semanticore.Context.Error.{SessionError}
use semanticore.Context.Config.{EvictionPolicy}
use semanticore.Context.Session.State.{Entry, new_entry}
use semanticore.Storage.{StorageError}
use semanticore.Context.Demo.{demo_platform, demo_storage, doc}
use semanticore.Model.{quad_eq}
use semanticore.Context.Scenes.{
  crowded, tightened, crowded-IsStored, tightened-IsStored, leb-FloatOrder,
}
use semanticore.Prelude.OrdMap.{OrdMap}
use semanticore.MemStore.Reliability.{MemStore-Reliable}
use semanticore.Context.Session.Completion.{add_batch-ok, enforce_bounds-ok}

validate_iff_example :
    (Checks.validate {E = StorageError} crowded.state.items (doc "d") ≡ ok tt)
    ↔ Valid crowded.state.items (doc "d")
validate_iff_example = validate_iff crowded.state.items (doc "d")

add_batch-Valid_example :
    All (Valid crowded.state.items) (doc " " ∷ [])
    ⊎ ((e : SessionError StorageError) × (Operations.add_batch ContextScope.minor
            (doc " " ∷ [])
            crowded
          ≡ (err (Failure.error e), crowded)))
add_batch-Valid_example = add_batch-Valid ContextScope.minor (doc " " ∷ []) crowded

check_in_scope_iff_example :
    (Checks.check_in_scope {E = StorageError} crowded.state.items
        (2 ∷ 0 ∷ 2 ∷ [])
        ContextScope.major
      ≡ ok (2 ∷ 0 ∷ []))
    ↔ (All (LiveIn crowded.state.items ContextScope.major) (2 ∷ 0 ∷ 2 ∷ [])
        × ((2 ∷ 0 ∷ []) ≡ without_repeats (2 ∷ 0 ∷ 2 ∷ [])))
check_in_scope_iff_example =
    check_in_scope_iff crowded.state.items (2 ∷ 0 ∷ 2 ∷ []) ContextScope.major (2 ∷ 0 ∷ [])

pick_victims-length_example :
    length (Moves.pick_victims EvictionPolicy.lru crowded.state.items ContextScope.major 2 9)
    ≡ min 2 (population crowded.state.items ContextScope.major)
pick_victims-length_example =
    pick_victims-length EvictionPolicy.lru crowded.state.items ContextScope.major 2 9

-- the first item was touched again after the second was added
abbrev older : Entry
older = new_entry (doc "b") ContextScope.major Arrival.added 5

abbrev newer : Entry
newer = record (new_entry (doc "a") ContextScope.major Arrival.added 3) {
  accesses = 1;
  last_touch = 8;
}

abbrev two_touched : OrdMap Entry
two_touched = (0, newer) ∷ (1, older) ∷ []

pick_victims-Precedes_example : Precedes EvictionPolicy.lru 9 older newer
unfolding OrdMap.get mem sort_by filter ContextScope-discrete ℕ_discrete
pick_victims-Precedes_example =
    pick_victims-Precedes leb-FloatOrder EvictionPolicy.lru two_touched ContextScope.major 1 9 1 0
      older newer (ground arith) refl refl refl refl refl

doc-Valid : (items : OrdMap Entry) → Valid items (doc "d")
unfolding is_blank ℕ_discrete
doc-Valid items = record {
  sourced = refl;
  payload_valid = tt;
  embedding_valid = tt;
  derived_live = tt;
}

add_batch-ok_example :
    (Operations.add_batch ContextScope.major (doc "d" ∷ []) crowded).0
    ≡ ok (Operations.range crowded.state.next_id (u64_add crowded.state.next_id 1))
add_batch-ok_example =
    add_batch-ok mem_view MemStore-Contract MemStore-Reliable ContextScope.major (doc "d" ∷ [])
      crowded crowded-IsStored (doc-Valid crowded.state.items, tt)

enforce_bounds-ok_example : (enforce_bounds ContextScope.major tightened).0 ≡ ok tt
enforce_bounds-ok_example =
    enforce_bounds-ok mem_view MemStore-Contract MemStore-Reliable ContextScope.major tightened
      tightened-IsStored

two-checked :
    Checks.check_in_scope {E = StorageError} crowded.state.items (2 ∷ 0 ∷ 2 ∷ []) ContextScope.major
    ≡ ok (2 ∷ 0 ∷ [])
unfolding Checks.check_in_scope Checks.check_each Checks.check_entry Checks.first_seen run perform
    Operations.add_batch Operations.take_batch State.◌>>=◌ Checks.validate Checks.validate_all
    Checks.check_source Checks.check_payload Checks.check_embedding Checks.check_derived
    Checks.first_unknown is_blank Operations.range Operations.range_from Operations.zip
    Stored.with_write Stored.insert_all Operations.insert_items Operations.index_added
    MemStore.begin_write MemStore.begin_read MemStore.insert MemStore.commit set_insert mem
    Quad-discrete encode item_graph show enforce_bounds Moves.enforce_bound Moves.evict_over
    OrdMap.get OrdMap.insert count u64_add ContextScope-discrete String_discrete ℕ_discrete
two-checked = refl

promote-ok_example :
    (Operations.promote (2 ∷ 0 ∷ 2 ∷ []) ContextScope.major ContextScope.enduring crowded).0
    ≡ ok (moved_count ContextScope.major ContextScope.enduring (without_repeats (2 ∷ 0 ∷ 2 ∷ [])))
promote-ok_example =
    promote-ok mem_view MemStore-Contract MemStore-Reliable (2 ∷ 0 ∷ 2 ∷ []) ContextScope.major
      ContextScope.enduring crowded refl
      ((check_in_scope_iff crowded.state.items (2 ∷ 0 ∷ 2 ∷ []) ContextScope.major (2 ∷ 0 ∷ [])).0
        two-checked).0
      crowded-IsStored
