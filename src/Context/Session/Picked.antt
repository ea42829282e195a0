-- ===== src/Context/Session/Picked.antt =====
-- Which items a policy and the promotions pick, and what an eviction leaves of the others.
use semanticore.Prelude.{
  ℕ, ◌≡◌, refl, Bool, true, Option, none, some, nat_eq, ==_iff, arith, All, All-take, Pairs,
  Pairs-take, All-filter, Pairs-filter, All-image, Pairs-image, sort_by, All-sort_by, Pairs-sort_by,
  IsSorted-keys, IsSorted-entries, filter, take,
}
use semanticore.Prelude.OrdMap
use semanticore.Prelude.OrdMap.{OrdMap, IsSorted}
use semanticore.Storage.{Storage}
use semanticore.Context.Scope.{ContextScope, ItemId, colder, scope_eq}
use semanticore.Context.Platform.{Platform}
use semanticore.Context.Config.{DemotionTarget, EvictionPolicy}
use semanticore.Context.Session.State.{Entry, Arrival, Session, modify_stats, count_demoted, ◌>>=◌}
use semanticore.Context.Session.Moves.{
  move_item, in_scope, evict_le, pick_victims, evict_to, evict_arrived, evict_by, evict_one,
  target_of, ids_where,
}
use semanticore.Context.Session.DurableEvictions.{ItemIn, Differ, get-move_item, get-drop_item}
use semanticore.Context.Session.Rules.{>>=_ends}

pub Differ-swap : (a b : ItemId) → Differ a b → Differ b a
Differ-swap a b h = ground arith

module _ ⦃p : Platform⦄ ⦃st : Storage⦄ where
  get-evict_to :
      (id j : ItemId) (target : Option ContextScope) (s : Session)
      → IsSorted s.state.items
      → Differ id j
      → OrdMap.get j (evict_to target id s).1.state.items ≡ OrdMap.get j s.state.items
  unfolding evict_to
  get-evict_to id j none s sorted n = get-drop_item id j s sorted n
  get-evict_to id j (some to) s sorted n =
      >>=_ends (λ s'. OrdMap.get j s'.state.items ≡ OrdMap.get j s.state.items)
        (move_item id to Arrival.demoted) (λ _. modify_stats (count_demoted 1)) s
        (get-move_item id j to Arrival.demoted s n) (λ a e h. h)

  get-evict_arrived :
      (at : ContextScope) (id j : ItemId) (o : Option Entry) (s : Session)
      → IsSorted s.state.items
      → Differ id j
      → OrdMap.get j (evict_arrived at id o s).1.state.items ≡ OrdMap.get j s.state.items
  unfolding evict_arrived
  get-evict_arrived at id j none s sorted n = refl
  get-evict_arrived at id j (some e) s sorted n =
      get-evict_to id j (target_of DemotionTarget.one_step_then_drop at e.arrival) s sorted n

  get-evict_by :
      (t : DemotionTarget) (at : ContextScope) (id j : ItemId) (s : Session)
      → IsSorted s.state.items
      → Differ id j
      → OrdMap.get j (evict_by t at id s).1.state.items ≡ OrdMap.get j s.state.items
  unfolding evict_by ◌>>=◌
  get-evict_by DemotionTarget.drop at id j s sorted n = get-evict_to id j none s sorted n
  get-evict_by DemotionTarget.next_colder at id j s sorted n =
      get-evict_to id j (colder at) s sorted n
  get-evict_by DemotionTarget.one_step_then_drop at id j s sorted n =
      get-evict_arrived at id j (OrdMap.get id s.state.items) s sorted n

  -- Evicting an item changes no other entry of the index.
  pub get-evict_one :
      (at : ContextScope) (id j : ItemId) (s : Session)
      → IsSorted s.state.items
      → Differ id j
      → OrdMap.get j (evict_one at id s).1.state.items ≡ OrdMap.get j s.state.items
  unfolding evict_one ◌>>=◌
  get-evict_one at id j s sorted n = get-evict_by s.settings.demotion_target at id j s sorted n

  pub ItemIn-evict_one :
      (scope : ContextScope) (id j : ItemId) (s : Session)
      → IsSorted s.state.items
      → Differ id j
      → ItemIn scope j s
      → ItemIn scope j (evict_one scope id s).1
  ItemIn-evict_one scope id j s sorted n h = rw (get-evict_one scope id j s sorted n) h

  -- The ids of entries that pass a test which only entries of the scope pass are in the scope.
  picked-ItemIn :
      (scope : ContextScope) (test : ItemId × Entry → Bool) (s : Session)
      → ((e : ItemId × Entry) → test e ≡ true → in_scope scope e ≡ true)
      → IsSorted s.state.items
      → All (λ e. ItemIn scope e.0 s) (filter test s.state.items)
  picked-ItemIn scope test s only sorted =
      All-filter (λ e. OrdMap.get e.0 s.state.items ≡ some e.1) (λ e. ItemIn scope e.0 s) test
        (λ e t g. rw g ((==_iff e.1.scope scope).0 (only e t))) s.state.items
        (IsSorted-entries s.state.items sorted)

  pub ids_where-ItemIn :
      (scope : ContextScope) (test : ItemId × Entry → Bool) (s : Session)
      → ((e : ItemId × Entry) → test e ≡ true → in_scope scope e ≡ true)
      → IsSorted s.state.items
      → All (λ id. ItemIn scope id s) (ids_where test s.state.items)
  ids_where-ItemIn scope test s only sorted =
      All-image (λ id. ItemIn scope id s) (λ e. e.0) (filter test s.state.items)
        (picked-ItemIn scope test s only sorted)

  pub ids_where-Differ :
      (test : ItemId × Entry → Bool) (items : OrdMap Entry)
      → IsSorted items
      → Pairs Differ (ids_where test items)
  ids_where-Differ test items sorted =
      Pairs-image Differ (λ e. e.0) (filter test items)
        (Pairs-filter (λ a b. Differ a.0 b.0) test items (IsSorted-keys items sorted))

  -- The victims of a policy are distinct items of the scope.
  pub pick_victims-ItemIn :
      (policy : EvictionPolicy) (scope : ContextScope) (n t : ℕ) (s : Session)
      → IsSorted s.state.items
      → All (λ id. ItemIn scope id s) (pick_victims policy s.state.items scope n t)
  pick_victims-ItemIn policy scope n t s sorted =
      let found = filter (in_scope scope) s.state.items in
      All-image (λ id. ItemIn scope id s) (λ e. e.0) (take n (sort_by (evict_le policy t) found))
        (All-take (λ e. ItemIn scope e.0 s) n (sort_by (evict_le policy t) found)
          (All-sort_by (evict_le policy t) (λ e. ItemIn scope e.0 s) found
            (picked-ItemIn scope (in_scope scope) s (λ e x. x) sorted)))

  pub pick_victims-Differ :
      (policy : EvictionPolicy) (scope : ContextScope) (n t : ℕ) (items : OrdMap Entry)
      → IsSorted items
      → Pairs Differ (pick_victims policy items scope n t)
  pick_victims-Differ policy scope n t items sorted =
      let found = filter (in_scope scope) items in
      Pairs-image Differ (λ e. e.0) (take n (sort_by (evict_le policy t) found))
        (Pairs-take (λ a b. Differ a.0 b.0) n (sort_by (evict_le policy t) found)
          (Pairs-sort_by (evict_le policy t) (λ a b. Differ a.0 b.0) (λ a b. Differ-swap a.0 b.0)
            found
            (Pairs-filter (λ a b. Differ a.0 b.0) (in_scope scope) items
              (IsSorted-keys items sorted))))
