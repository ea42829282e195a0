-- ===== src/Context/Session/Moves.antt =====
-- The internals of crates/semanticore-context/src/session.rs that move and drop items: moves,
-- eviction down to the bounds, and auto-promotion.
use semanticore.Prelude.{
  ℕ, ◌+◌, ◌-◌, Bool, not, ◌&&◌, Option, none, some, List, [], ◌∷◌, map, ◌==◌, nat_eq, if◌then◌else◌,
  ltb, leb, length, take, filter, count, mem, sort_by,
}
use semanticore.Prelude.OrdMap
use semanticore.Prelude.OrdMap.{OrdMap}
use semanticore.Storage.{Storage}
use semanticore.Context.Scope.{ContextScope, ItemId, colder, scope_eq}
use semanticore.Context.Platform.{Platform}
use semanticore.Context.Config.{EvictionPolicy, DemotionTarget, PromotionConfig, bound_of}
use semanticore.Context.Record.{encode}
use semanticore.Context.Session.State.{
  Entry, Arrival, Action, pure, panic, gets, now, modify_items, modify_stats, on_store, for_each,
  weight_at, count_promoted, count_demoted, count_evicted, ◌>>=◌, ◌>>◌,
}
use semanticore.Context.Session.Stored.{with_write, insert_all, delete}

-- where a victim goes: a colder scope, or nowhere
unfoldable pub target_of : DemotionTarget → ContextScope → Arrival → Option ContextScope
target_of DemotionTarget.drop scope arrival = none
target_of DemotionTarget.next_colder scope arrival = colder scope
target_of DemotionTarget.one_step_then_drop scope Arrival.promoted = colder scope
target_of DemotionTarget.one_step_then_drop scope _ = none

module _ ⦃p : Platform⦄ ⦃st : Storage⦄ where
  -- the writes to the entry at the end of `move_item`
  abbrev pub relocate : ContextScope → Arrival → Entry → Entry
  relocate to arrival e = record e {
    scope = to;
    arrival = arrival;
    recent = elim arrival [ Arrival.demoted ↦ [] | _ ↦ e.recent ];
  }

  -- Write to the target's store, then delete from the source's.
  unfoldable pub move_entry : ItemId → ContextScope → Arrival → Entry → Action (Unit {0})
  move_entry id to arrival e = do
    on_store to (λ store. with_write store (insert_all (encode id e.item)))
    on_store e.scope (λ store. delete store id)
    modify_items (OrdMap.adjust id (relocate to arrival))

  unfoldable pub move_item : ItemId → ContextScope → Arrival → Action (Unit {0})
  move_item id to arrival = do
    entry ← gets (λ s. OrdMap.get id s.state.items)
    elim entry [ some e ↦ move_entry id to arrival e | none ↦ panic "caller checked the id" ]

  unfoldable pub drop_entry : ItemId → Entry → Action (Unit {0})
  drop_entry id e = do
    on_store e.scope (λ store. delete store id)
    modify_items (OrdMap.remove id)
    modify_stats count_evicted

  unfoldable pub drop_item : ItemId → Action (Unit {0})
  drop_item id = do
    entry ← gets (λ s. OrdMap.get id s.state.items)
    elim entry [ some e ↦ drop_entry id e | none ↦ panic "no entry found for key" ]

  abbrev pub in_scope : ContextScope → ItemId × Entry → Bool
  in_scope scope e = e.1.scope == scope

  -- how many items are in the scope
  abbrev pub population : OrdMap Entry → ContextScope → ℕ
  population items scope = count (in_scope scope) items

  -- `sort_by_key` and `sort_by` of `victims`: no later in the eviction order
  abbrev pub evict_le : EvictionPolicy → ℕ → ItemId × Entry → ItemId × Entry → Bool
  evict_le EvictionPolicy.lru t a b = leb a.1.last_touch b.1.last_touch
  evict_le EvictionPolicy.lfu t a b = leb a.1.accesses b.1.accesses
  evict_le (EvictionPolicy.recency_weighted half_life) t a b =
      p.total_le (weight_at a.1 t half_life) (weight_at b.1 t half_life)

  -- the candidates of the scope in eviction order
  abbrev pub candidates : EvictionPolicy → OrdMap Entry → ContextScope → ℕ → List (ItemId × Entry)
  candidates policy items scope t = sort_by (evict_le policy t) (filter (in_scope scope) items)

  abbrev pub pick_victims : EvictionPolicy → OrdMap Entry → ContextScope → ℕ → ℕ → List ItemId
  pick_victims policy items scope n t = map (λ e. e.0) (take n (candidates policy items scope t))

  unfoldable pub victims : ContextScope → ℕ → Action (List ItemId)
  victims scope n = do
    t ← now
    gets (λ s. pick_victims s.settings.eviction_policy s.state.items scope n t)

  unfoldable pub evict_to : Option ContextScope → ItemId → Action (Unit {0})
  evict_to (some to) id = do move_item id to Arrival.demoted; modify_stats (count_demoted 1)
  evict_to none id = drop_item id

  unfoldable pub evict_arrived : ContextScope → ItemId → Option Entry → Action (Unit {0})
  evict_arrived scope id none = panic "no entry found for key"
  evict_arrived scope id (some e) =
      evict_to (target_of DemotionTarget.one_step_then_drop scope e.arrival) id

  -- The entry is read, and so the item must be live, only under `OneStepThenDrop`.
  unfoldable pub evict_by : DemotionTarget → ContextScope → ItemId → Action (Unit {0})
  evict_by DemotionTarget.drop scope id = evict_to none id
  evict_by DemotionTarget.next_colder scope id = evict_to (colder scope) id
  evict_by DemotionTarget.one_step_then_drop scope id = do
    entry ← gets (λ s. OrdMap.get id s.state.items)
    evict_arrived scope id entry

  -- the body of the loop of `evict_victims`
  unfoldable pub evict_one : ContextScope → ItemId → Action (Unit {0})
  evict_one scope id = do target ← gets (λ s. s.settings.demotion_target); evict_by target scope id

  unfoldable pub evict_victims : ContextScope → List ItemId → Action (Unit {0})
  evict_victims scope ids = for_each ids (evict_one scope)

  unfoldable pub evict_count : ContextScope → ℕ → Action (Unit {0})
  evict_count scope n = do ids ← victims scope n; evict_victims scope ids

  -- with a bound, and more items than it allows
  unfoldable pub evict_over : ContextScope → Option ℕ → ℕ → Action (Unit {0})
  evict_over scope none n = pure tt
  evict_over scope (some bound) n = if ltb bound n then evict_count scope (n - bound) else pure tt

  -- one round of the loop of `enforce_bounds`
  unfoldable pub enforce_bound : ContextScope → Action (Unit {0})
  enforce_bound scope = do
    bound ← gets (λ s. bound_of s.settings.bounds scope)
    n ← gets (λ s. population s.state.items scope)
    evict_over scope bound n

  -- The loop goes from a scope to the next colder one, so it has three rounds at most.
  unfoldable pub enforce_bounds : ContextScope → Action (Unit {0})
  enforce_bounds ContextScope.enduring = do
    enforce_bound ContextScope.enduring
    enforce_bound ContextScope.major
    enforce_bound ContextScope.minor
  enforce_bounds ContextScope.major = do
    enforce_bound ContextScope.major
    enforce_bound ContextScope.minor
  enforce_bounds ContextScope.minor = enforce_bound ContextScope.minor

  -- how many other items cite `id`, each counted once
  unfoldable pub references : ItemId → OrdMap Entry → ℕ
  references id items =
      count (λ e. not (e.0 == id) && mem id e.1.item.provenance.derived_from) items

  -- the query accesses within the window
  unfoldable pub in_window : ℕ → ℕ → Entry → ℕ
  in_window t window e = count (λ a. leb (t - a) window) e.recent

  unfoldable pub to_enduring : PromotionConfig → OrdMap Entry → ItemId × Entry → Bool
  to_enduring cfg items e =
      e.1.scope == ContextScope.major && ltb cfg.major_to_enduring_references (references e.0 items)

  unfoldable pub to_major : PromotionConfig → ℕ → ItemId × Entry → Bool
  to_major cfg t e =
      e.1.scope == ContextScope.minor
      && ltb cfg.minor_to_major_accesses (in_window t cfg.minor_window e.1)

  abbrev pub ids_where : (ItemId × Entry → Bool) → OrdMap Entry → List ItemId
  ids_where test items = map (λ e. e.0) (filter test items)

  -- enforcing the bounds after promotions: from the most durable scope that was promoted to
  abbrev pub enforce_after : List ItemId → List ItemId → Action (Unit {0})
  enforce_after (_ ∷ _) majors = enforce_bounds ContextScope.enduring
  enforce_after [] (_ ∷ _) = enforce_bounds ContextScope.major
  enforce_after [] [] = pure tt

  -- the end of `auto_promote`, from the ids that it collected
  unfoldable pub promote_found : List ItemId → List ItemId → Action ℕ
  promote_found enduring majors = do
    for_each enduring (λ id. move_item id ContextScope.enduring Arrival.promoted)
    for_each majors (λ id. move_item id ContextScope.major Arrival.promoted)
    let promoted = length enduring + length majors
    modify_stats (count_promoted promoted)
    enforce_after enduring majors
    pure promoted

  unfoldable pub auto_promote : ℕ → Action ℕ
  auto_promote t = do
    cfg ← gets (λ s. s.settings.promotion)
    items ← gets (λ s. s.state.items)
    promote_found (ids_where (to_enduring cfg items) items) (ids_where (to_major cfg t) items)
