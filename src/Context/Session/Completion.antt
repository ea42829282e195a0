-- ===== src/Context/Session/Completion.antt =====
-- Over a reliable storage, enforcing the bounds succeeds, and so does adding items that are valid.
use semanticore.Prelude.{
  ℕ, ◌-◌, ◌≡◌, refl, ap, inl, inr, ◌||◌, Option, none, some, List, [], ◌∷◌, ok, map_err, Bool-cases,
  pair_of, arith, mem, All, All-take, All-filter, All-image, All-sort_by, length, take, filter,
  sort_by, ltb, u64_add, ==_iff, IsSorted-entries,
}
use semanticore.Prelude.OrdMap
use semanticore.Prelude.OrdMap.{OrdMap, IsSorted}
use semanticore.Model.{quad_eq}
use semanticore.Storage.{Storage}
use semanticore.Storage.Contract.{View, Contract}
use semanticore.Storage.Reliable.{Reliable}
use semanticore.Context.Scope.{ContextScope, ItemId, scope_eq}
use semanticore.Context.Platform.{Platform}
use semanticore.Context.Config.{tier, EvictionPolicy, bound_of}
use semanticore.Context.Item.{ContextItem}
use semanticore.Context.Record.{encode}
use semanticore.Context.Session.State.{
  Entry, Failure, Session, gets, now, lift, modify_items, modify_stats, on_store, count_added,
  ◌>>=◌, ◌>>◌,
}
use semanticore.Context.Session.Stored.{with_write, insert_all}
use semanticore.Context.Session.Effects.{insert_all-Does}
use semanticore.Context.Session.Moves.{
  in_scope, population, evict_le, pick_victims, victims, evict_count, evict_over, enforce_bound,
  enforce_bounds,
}
use semanticore.Context.Session.Checks.{validate_all}
use semanticore.Context.Session.Operations.{
  insert_items, index_added, range, zip, set_next_id, take_batch, add_batch,
}
use semanticore.Context.Session.Durable.{IsStored}
use semanticore.Context.Session.DurableMoves.{stats-IsStored}
use semanticore.Context.Session.DurableEvictions.{ItemIn}
use semanticore.Context.Session.DurableBounds.{enforce_bound-IsStored}
use semanticore.Context.Session.Picked.{pick_victims-Differ}
use semanticore.Context.Session.DurableAdditions.{
  Ready, range-fits, after_batch-IsStored, batch_written, batch-Ready, index_added-IsStored,
  insert_items-Does, batch_quads,
}
use semanticore.Context.Session.DurableAdds.{set_next_id-IsStored}
use semanticore.Context.Session.DurableQueries.{now-IsStored}
use semanticore.Context.Session.Validity.{Valid, validate_all_iff}
use semanticore.Context.Session.Progress.{
  Live, Works, >>=_succeeds, with_write-ok, insert_all-Works, evict_victims-ok,
}

module _ ⦃p : Platform⦄ ⦃st : Storage⦄ where
  -- What a policy picks is live and in the scope.
  pick_victims-Live :
      (policy : EvictionPolicy) (scope : ContextScope) (n t : ℕ) (s : Session)
      → IsSorted s.state.items
      → All (λ id. ItemIn scope id s × Live s id) (pick_victims policy s.state.items scope n t)
  pick_victims-Live policy scope n t s sorted =
      let found = filter (in_scope scope) s.state.items in
      let Q = λ (e : ItemId × Entry). ItemIn scope e.0 s × Live s e.0 in
      All-image (λ id. ItemIn scope id s × Live s id) (λ e. e.0)
        (take n (sort_by (evict_le policy t) found))
        (All-take Q n (sort_by (evict_le policy t) found) (
          All-sort_by (evict_le policy t) Q found (
            All-filter (λ e. OrdMap.get e.0 s.state.items ≡ some e.1) Q (in_scope scope)
              (λ e x g. (rw g ((==_iff e.1.scope scope).0 x), (e.1, g))) s.state.items
              (IsSorted-entries s.state.items sorted))))

module _ ⦃p : Platform⦄ ⦃st : Storage⦄ (v : View st) (c : Contract st v) (rel : Reliable st v) where
  evict_count-ok :
      (scope : ContextScope) (n : ℕ) (s : Session)
      → IsStored v s
      → (evict_count scope n s).0 ≡ ok tt
  unfolding evict_count victims ◌>>=◌
  evict_count-ok scope n s h =
      let t = p.clock s.readings in
      let policy = s.settings.eviction_policy in
      evict_victims-ok v c rel scope (pick_victims policy s.state.items scope n t) (now s).1
        (pick_victims-Live policy scope n t (now s).1 h.sorted)
        (pick_victims-Differ policy scope n t s.state.items h.sorted)
        (record { sorted = h.sorted; fits = h.fits; whole = h.whole })

  evict_over-ok :
      (scope : ContextScope) (o : Option ℕ) (n : ℕ) (s : Session)
      → IsStored v s
      → (evict_over scope o n s).0 ≡ ok tt
  unfolding evict_over
  evict_over-ok scope none n s h = refl
  evict_over-ok scope (some bound) n s h = elim (Bool-cases (ltb bound n)) [
    | inl t ↦ rw t (evict_count-ok scope (n - bound) s h)
    | inr t ↦ rw t refl
  ]

  enforce_bound-ok :
      (scope : ContextScope) (s : Session) → IsStored v s → (enforce_bound scope s).0 ≡ ok tt
  unfolding enforce_bound ◌>>=◌
  enforce_bound-ok scope s h =
      evict_over-ok scope (bound_of s.settings.bounds scope) (population s.state.items scope) s h

  -- Over a reliable storage, enforcing the bounds of a session whose items are stored succeeds.
  pub enforce_bounds-ok :
      (scope : ContextScope) (s : Session) → IsStored v s → (enforce_bounds scope s).0 ≡ ok tt
  unfolding enforce_bounds
  enforce_bounds-ok ContextScope.minor s h = enforce_bound-ok ContextScope.minor s h
  enforce_bounds-ok ContextScope.major s h =
      >>=_succeeds (enforce_bound ContextScope.major) (λ _. enforce_bound ContextScope.minor) s
        (enforce_bound-ok ContextScope.major s h)
        (enforce_bound-ok ContextScope.minor (enforce_bound ContextScope.major s).1
          (enforce_bound-IsStored v c ContextScope.major s h))
  enforce_bounds-ok ContextScope.enduring s h =
      let s1 = (enforce_bound ContextScope.enduring s).1 in
      let h1 = enforce_bound-IsStored v c ContextScope.enduring s h in
      >>=_succeeds (enforce_bound ContextScope.enduring)
        (λ _. enforce_bound ContextScope.major >> enforce_bound ContextScope.minor) s
        (enforce_bound-ok ContextScope.enduring s h)
        (>>=_succeeds (enforce_bound ContextScope.major) (λ _. enforce_bound ContextScope.minor) s1
          (enforce_bound-ok ContextScope.major s1 h1)
          (enforce_bound-ok ContextScope.minor (enforce_bound ContextScope.major s1).1
            (enforce_bound-IsStored v c ContextScope.major s1 h1)))

  take_batch-ok :
      (scope : ContextScope) (items : List ContextItem) (ids : List ItemId) (end : ℕ) (s : Session)
      → All (Ready v scope s) (zip ids items)
      → IsStored v s
      → (take_batch scope items ids end s).0 ≡ ok ids
  unfolding take_batch
  take_batch-ok scope items ids end s ready h =
      let t = p.clock s.readings in
      let s2 = (set_next_id end (now s).1).1 in
      let h2 = set_next_id-IsStored v c end (now s).1 (now-IsStored v s h) in
      let s3 = (modify_items (index_added scope t (zip ids items)) s2).1 in
      let h3 = index_added-IsStored v scope t (zip ids items) s2 ready h2 in
      let s4 = (modify_stats (count_added (length items)) s3).1 in
      let h4 = stats-IsStored v (count_added (length items)) s3 h3 in
      >>=_succeeds now _ s refl (
        >>=_succeeds (set_next_id end) _ (now s).1 refl (
          >>=_succeeds (modify_items (index_added scope t (zip ids items))) _ s2 refl (
            >>=_succeeds (modify_stats (count_added (length items))) _ s3 refl
              (>>=_succeeds (enforce_bounds scope) _ s4 (enforce_bounds-ok scope s4 h4) refl))))

  insert_items-Works : (zs : List (ItemId × ContextItem)) → Works v c rel (insert_items zs)
  unfolding insert_items
  insert_items-Works [] s tx w = refl
  insert_items-Works ((id, item) ∷ rest) s tx w =
      let r = insert_all-Works v c rel (encode id item) s tx w in
      let (w', _) =
        insert_all-Does v c (encode id item) s tx tt (insert_all (encode id item) tx).1 w
          (pair_of (insert_all (encode id item) tx) r) in
      let k = insert_items-Works rest s (insert_all (encode id item) tx).1 w' in
      ground (arith, r, k)

  -- Over a reliable storage, adding valid items to a session whose items are stored succeeds,
  -- with the next ids in order.
  pub add_batch-ok :
      (scope : ContextScope) (items : List ContextItem) (s : Session)
      → IsStored v s
      → All (Valid s.state.items) items
      → (add_batch scope items s).0
        ≡ ok (range s.state.next_id (u64_add s.state.next_id (length items)))
  unfolding add_batch
  add_batch-ok scope items s h valid =
      let end = u64_add s.state.next_id (length items) in
      let ids = range s.state.next_id end in
      let zs = zip ids items in
      let write = on_store scope (λ store. with_write store (insert_items zs)) in
      let wrote : (with_write (tier s.stores scope) (insert_items zs)).0 ≡ ok tt =
        with_write-ok v c rel (insert_items zs) (λ q b. mem q (batch_quads zs) || b)
          (insert_items-Does v c zs) (insert_items-Works zs) (tier s.stores scope) in
      >>=_succeeds (gets (λ s. s.state)) _ s refl (
        >>=_succeeds (lift (validate_all s.state.items items)) _ s
          (ap (map_err Failure.error)
            ((validate_all_iff {E = st.Error} s.state.items items).1 valid))
          (>>=_succeeds write _ s (ap (map_err Failure.error) wrote) (
            take_batch-ok scope items ids end (write s).1
              (batch-Ready v scope (write s).1 ids items (range-fits s.state.next_id (length items))
                (batch_written v c scope zs s wrote))
              (after_batch-IsStored v c scope zs s h))))
