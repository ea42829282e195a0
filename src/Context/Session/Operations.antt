-- ===== src/Context/Session/Operations.antt =====
-- The public methods of `Session` in crates/semanticore-context/src/session.rs, except `query`.
use semanticore.Prelude.{
  ℕ, zero, suc, ◌+◌, ◌-◌, String, Bool, true, false, not, Option, none, some, List, [], ◌∷◌, map,
  Result, ok, err, map_err, ◌==◌, nat_eq, if◌then◌else◌, length, filter, count, u64_add, is_some,
}
use semanticore.Prelude
use semanticore.Prelude.OrdMap
use semanticore.Prelude.OrdMap.{OrdMap}
use semanticore.Storage.{Storage, StorageCapability}
use semanticore.Context.Scope.{ContextScope, ItemId, colder, scope_lt, scope_eq}
use semanticore.Context.Platform.{Platform}
use semanticore.Context.Item.{ContextItem}
use semanticore.Context.Error.{SessionError, ContextError, Unimplemented}
use semanticore.Context.Config.{SessionConfig, EvictionCriteria, tier}
use semanticore.Context.Record.{encode}
use semanticore.Context.Session.State.{
  Entry, Arrival, SessionStats, no_stats, Session, Action, pure, fail, panic, lift, gets, now,
  modify_items, modify_stats, on_store, count_added, count_promoted, count_demoted, for_each,
  new_entry, ◌>>=◌, ◌>>◌,
}
use semanticore.Context.Session.Stored.{with_write, insert_all, delete, load, Work}
use semanticore.Context.Session.Checks.{validate_all, check_in_scope}
use semanticore.Context.Session.Moves.{
  move_item, drop_item, victims, evict_victims, enforce_bounds, population, in_scope,
}

-- the ids `first..first + n`, by how many there are
unfoldable pub range_from : ℕ → ℕ → List ItemId
range_from first zero = []
range_from first (suc n) = first ∷ range_from (first + 1) n

-- `(first..end).map(ItemId)`
unfoldable pub range : ℕ → ℕ → List ItemId
unfolding range_from
range first end = range_from first (end - first)

unfoldable pub zip {ℓ κ} : {A : Type ℓ} {B : Type κ} → List A → List B → List (A × B)
zip [] bs = []
zip (a ∷ as') [] = []
zip (a ∷ as') (b ∷ bs) = (a, b) ∷ zip as' bs

module _ ⦃p : Platform⦄ ⦃st : Storage⦄ where
  -- `entry(id).or_insert_with(..)` for each loaded item
  unfoldable pub index_loaded :
      ContextScope → ℕ → List (ItemId × ContextItem) → OrdMap Entry → OrdMap Entry
  index_loaded scope t [] items = items
  index_loaded scope t ((id, item) ∷ rest) items = index_loaded scope t rest (
      if is_some (OrdMap.get id items)
      then items
      else OrdMap.insert id (new_entry item scope Arrival.added t) items)

  abbrev next_after : Option ItemId → ℕ
  next_after none = 0
  next_after (some id) = u64_add id 1

  unfoldable pub open_session : SessionConfig st → Result (SessionError st.Error) Session
  open_session config =
      let stores = config.storage in
      let t = p.clock 0 in
      let (enduring, store_e) = load stores.enduring in
      let (major, store_m) = load stores.major in
      let (minor, store_n) = load stores.minor in
      if not (st.capabilities stores.enduring).persistent
      then err
          (SessionError.capability_shortfall ContextScope.enduring StorageCapability.persistent)
      else Prelude.◌>>=◌ enduring λ es. Prelude.◌>>=◌ major λ ms. Prelude.◌>>=◌ minor λ ns.
        let items =
          index_loaded ContextScope.minor t ns
            (index_loaded ContextScope.major t ms (index_loaded ContextScope.enduring t es [])) in
        ok (record {
          stores = record { enduring = store_e; major = store_m; minor = store_n };
          settings = record {
            bounds = config.bounds;
            eviction_policy = config.eviction_policy;
            demotion_target = config.demotion_target;
            promotion = config.promotion;
          };
          state = record {
            items = items;
            next_id = next_after (OrdMap.last_key items);
            stats = no_stats;
          };
          readings = 1;
        })

  unfoldable pub close : Session → Result (SessionError st.Error) SessionStats
  close s = ok s.state.stats

  -- the closure of `add_batch`: every item's quads in one transaction
  unfoldable pub insert_items : List (ItemId × ContextItem) → Work (Unit {0})
  insert_items [] tx = (ok tt, tx)
  insert_items ((id, item) ∷ rest) tx =
      let (r, tx') = insert_all (encode id item) tx in
      elim r [ ok _ ↦ insert_items rest tx' | err e ↦ (err e, tx') ]

  unfoldable pub index_added :
      ContextScope → ℕ → List (ItemId × ContextItem) → OrdMap Entry → OrdMap Entry
  index_added scope t [] items = items
  index_added scope t ((id, item) ∷ rest) items =
      index_added scope t rest (OrdMap.insert id (new_entry item scope Arrival.added t) items)

  abbrev pub set_next_id : ℕ → Action (Unit {0})
  set_next_id n s = (ok tt, record s { state = record s.state { next_id = n } })

  -- the index takes the items of a batch that was written, and the bounds are enforced
  unfoldable pub take_batch :
      ContextScope → List ContextItem → List ItemId → ℕ → Action (List ItemId)
  take_batch scope items ids end = do
    t ← now
    set_next_id end
    modify_items (index_added scope t (zip ids items))
    modify_stats (count_added (length items))
    enforce_bounds scope
    pure ids

  unfoldable pub add_batch : ContextScope → List ContextItem → Action (List ItemId)
  add_batch scope items = do
    state ← gets (λ s. s.state)
    lift (validate_all state.items items)
    let first = state.next_id
    let end = u64_add first (length items)
    let ids = range first end
    on_store scope (λ store. with_write store (insert_items (zip ids items)))
    take_batch scope items ids end

  abbrev pub first_of : List ItemId → Action ItemId
  first_of [] = panic "index out of bounds"
  first_of (id ∷ _) = pure id

  unfoldable pub add : ContextScope → ContextItem → Action ItemId
  add scope item = do ids ← add_batch scope (item ∷ []); first_of ids

  abbrev pub entry_in : ContextScope → Option Entry → Bool
  entry_in scope none = false
  entry_in scope (some e) = e.scope == scope

  unfoldable pub remove : ContextScope → ItemId → Action Bool
  remove scope id = do
    entry ← gets (λ s. OrdMap.get id s.state.items)
    if not (entry_in scope entry) then pure false else do
      on_store scope (λ store. delete store id)
      modify_items (OrdMap.remove id)
      pure true

  abbrev pub reason : ContextScope → Action (Unit {0})
  reason scope = fail (SessionError.not_yet_implemented Unimplemented.owl_el_reasoner)

  abbrev pub validate_shapes : ContextScope → ContextScope → Action (Unit {0})
  validate_shapes shapes_in shapes = fail (SessionError.premium_only ContextError.shacl_unavailable)

  abbrev pub evaluate_datalog : ContextScope → Action (Unit {0})
  evaluate_datalog scope = fail (SessionError.premium_only ContextError.datalog_unavailable)

  -- `promote` after its checks
  unfoldable pub promote_checked : ContextScope → ContextScope → List ItemId → Action ℕ
  promote_checked from to items = if to == from then pure 0 else do
    for_each items (λ id. move_item id to Arrival.promoted)
    modify_stats (count_promoted (length items))
    enforce_bounds to
    pure (length items)

  -- Returns how many items moved.
  unfoldable pub promote : List ItemId → ContextScope → ContextScope → Action ℕ
  promote ids from to =
      if scope_lt to from then fail (SessionError.durability_violation from to) else do
        state ← gets (λ s. s.state)
        items ← lift (check_in_scope state.items ids from)
        promote_checked from to items

  abbrev pub enforce_colder : Option ContextScope → Action (Unit {0})
  enforce_colder none = pure tt
  enforce_colder (some scope) = enforce_bounds scope

  unfoldable pub evict : ContextScope → EvictionCriteria → Action ℕ
  evict scope (EvictionCriteria.items ids) = do
    state ← gets (λ s. s.state)
    items ← lift (check_in_scope state.items ids scope)
    for_each items drop_item
    pure (length items)
  evict scope (EvictionCriteria.demote ids to) =
      if not (scope_lt to scope) then fail (SessionError.durability_violation scope to) else do
        state ← gets (λ s. s.state)
        items ← lift (check_in_scope state.items ids scope)
        for_each items (λ id. move_item id to Arrival.demoted)
        modify_stats (count_demoted (length items))
        enforce_bounds to
        pure (length items)
  evict scope (EvictionCriteria.policy n) = do
    ids ← victims scope n
    evict_victims scope ids
    enforce_colder (colder scope)
    pure (length ids)

  pub record ContextSnapshot : Type 0 where
    pub scope : ContextScope
    pub items : List (ItemId × ContextItem)
    pub quad_count : ℕ

  unfoldable pub snapshot : ContextScope → Action ContextSnapshot
  snapshot scope = do
    state ← gets (λ s. s.state)
    stores ← gets (λ s. s.stores)
    quads ← lift (map_err SessionError.storage (st.quad_count (tier stores scope)))
    pure (record {
      scope = scope;
      items = map (λ e. (e.0, e.1.item)) (filter (in_scope scope) state.items);
      quad_count = quads;
    })

  unfoldable pub scope_of : ItemId → Session → Option ContextScope
  scope_of id s = elim (OrdMap.get id s.state.items) [ none ↦ none | some e ↦ some e.scope ]

  unfoldable pub item_count : ContextScope → Session → ℕ
  item_count scope s = population s.state.items scope
