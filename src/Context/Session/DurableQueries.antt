-- ===== src/Context/Session/DurableQueries.antt =====
-- A query keeps the invariant of `Durable`: it reads the stores, counts the accesses of what it serves
-- and may promote.
use semanticore.Prelude.{
  ℕ, ◌≡◌, refl, inl, inr, Option, none, some, List, [], ◌∷◌, ◌++◌, Result, Result-cases,
  Option-cases, nat_eq, ==_cases, arith, map,
}
use semanticore.Prelude.OrdMap
use semanticore.Prelude.OrdMap.{OrdMap, adjust-IsSorted, get-adjust}
use semanticore.Model.{Quad, quad_eq}
use semanticore.Storage.{Storage}
use semanticore.Storage.Contract.{View, Contract}
use semanticore.Context.Scope.{ContextScope, ItemId, scope_eq}
use semanticore.Context.Platform.{Platform}
use semanticore.Context.Error.{SessionError, Unimplemented}
use semanticore.Context.Config.{tier, PromotionCadence}
use semanticore.Context.Query.{QuadPattern, in_any_graph, scopes, ContextQueryKind, ContextQuery}
use semanticore.Context.Session.State.{
  Entry, Session, gets, now, modify_items, modify_stats, on_store, count_served, ◌>>=◌,
}
use semanticore.Context.Session.Querying.{
  scan, scan_scope, search_scopes, touch, serve, truncate, half_life_of, promote_after, respond,
  query_pattern, not_yet, query,
}
use semanticore.Context.Session.Durable.{holds_in, WholeEntry-map, IsStored, tier-set_tier}
use semanticore.Context.Session.DurableMoves.{stats-IsStored}
use semanticore.Context.Session.DurablePromotions.{auto_promote-IsStored}
use semanticore.Context.Session.Rules.{Keeps, >>=-Keeps}

module _ ⦃p : Platform⦄ ⦃st : Storage⦄ where
  -- An access changes neither the item nor its scope.
  touch_item : (t window : ℕ) (o : Option ℕ) (e : Entry) → (touch t window o e).item ≡ e.item
  unfolding touch
  touch_item t window none e = refl
  touch_item t window (some _) e = refl

  touch_scope : (t window : ℕ) (o : Option ℕ) (e : Entry) → (touch t window o e).scope ≡ e.scope
  unfolding touch
  touch_scope t window none e = refl
  touch_scope t window (some _) e = refl

module _ ⦃p : Platform⦄ ⦃st : Storage⦄ (v : View st) where
  -- A store that holds what it held may take its place.
  pub on_store-IsStored :
      {A : Type 0} (scope : ContextScope)
      (f : st.Store → Result (SessionError st.Error) A × st.Store) (s : Session)
      → ((q : Quad) → v.holds (f (tier s.stores scope)).1 q ≡ holds_in v s scope q)
      → IsStored v s
      → IsStored v (on_store scope f s).1
  on_store-IsStored scope f s same h = record {
    sorted = h.sorted;
    fits = h.fits;
    whole = λ j n.
        WholeEntry-map v s (on_store scope f s).1 j (OrdMap.get j s.state.items) (h.fits j)
          (λ at item q _ _ held.
            ground (arith, tier-set_tier s.stores scope at (f (tier s.stores scope)).1, same q))
          (h.whole j n);
  }

  touched-IsStored :
      (id t window : ℕ) (o : Option ℕ) (e : Entry) (s : Session)
      → OrdMap.get id s.state.items ≡ some e
      → IsStored v s
      → IsStored v (modify_items (OrdMap.adjust id (touch t window o)) s).1
  touched-IsStored id t window o e s g h = record {
    sorted = adjust-IsSorted id (touch t window o) s.state.items h.sorted;
    fits = λ j. elim (==_cases j id) [
      | inl (k, same) ↦
          rw (get-adjust j id (touch t window o) s.state.items)
            (rw (k, g) (rw same (rw g at (h.fits id))))
      | inr (k, other) ↦ rw (get-adjust j id (touch t window o) s.state.items) (rw k (h.fits j))
    ];
    whole = λ j n. elim (==_cases j id) [
      | inl (k, same) ↦ rw (get-adjust j id (touch t window o) s.state.items) (
          rw (k, g)
            (rw (touch_scope t window o e)
              (rw (touch_item t window o e) (rw same (rw g at (h.whole id (λ x. cc)))))))
      | inr (k, other) ↦ rw (get-adjust j id (touch t window o) s.state.items) (rw k (h.whole j n))
    ];
  }

  serve-IsStored : (t : ℕ) (hits : List (ItemId × ContextScope)) → Keeps (IsStored v) (serve t hits)
  unfolding serve ◌>>=◌
  serve-IsStored t [] s h = h
  serve-IsStored t ((id, scope) ∷ rest) s h = elim (Option-cases (OrdMap.get id s.state.items)) [
    | inl g ↦ rw (g, ◌>>=◌) h
    | inr (e, g) ↦
        let o = half_life_of s.settings.eviction_policy in
        let s' =
          (modify_items (OrdMap.adjust id (touch t s.settings.promotion.minor_window o)) s).1 in
        let h' =
          serve-IsStored t rest s'
            (touched-IsStored id t s.settings.promotion.minor_window o e s g h) in
        elim (Result-cases (serve t rest s').0) [
          | inl (others, r) ↦ rw (g, r, ◌>>=◌) h'
          | inr (x, r) ↦ rw (g, r, ◌>>=◌) h'
        ]
  ]

  pub now-IsStored : Keeps (IsStored v) now
  now-IsStored s h = record { sorted = h.sorted; fits = h.fits; whole = h.whole }

module _ ⦃p : Platform⦄ ⦃st : Storage⦄ (v : View st) (c : Contract st v) where
  scan_scope_holds :
      (items : OrdMap Entry) (pattern : QuadPattern) (scope : ContextScope) (n : ℕ) (s : st.Store)
      (q : Quad)
      → v.holds (scan_scope items pattern scope n s).1 q ≡ v.holds s q
  unfolding scan_scope
  scan_scope_holds items pattern scope n s q = elim (Result-cases (st.begin_read s)) [
    | inr (e, b) ↦ ground arith
    | inl (tx, b) ↦
        elim (Result-cases (
          scan items scope (st.quads_for_pattern tx (in_any_graph pattern))
            (record { matched = n; found = [] }))) [
              | inr (e, r) ↦ ground arith
              | inl (acc, r) ↦ ground (arith, c.rollback_holds tx s q)
            ]
  ]

  search_scopes-IsStored :
      (pattern : QuadPattern) (ss : List ContextScope) (n : ℕ) (hits : List (ItemId × ContextScope))
      → Keeps (IsStored v) (search_scopes pattern ss n hits)
  unfolding search_scopes
  search_scopes-IsStored pattern [] n hits = λ s h. h
  search_scopes-IsStored pattern (scope ∷ rest) n hits =
      >>=-Keeps (IsStored v) (gets (λ s. s.state.items))
        (λ items. on_store scope (scan_scope items pattern scope n) >>= λ acc.
          search_scopes pattern rest acc.matched (hits ++ map (λ e. (e.0, scope)) acc.found))
        (λ s h. h)
        (λ items.
          >>=-Keeps (IsStored v) (on_store scope (scan_scope items pattern scope n))
            (λ acc.
              search_scopes pattern rest acc.matched (hits ++ map (λ e. (e.0, scope)) acc.found))
            (λ s h.
              on_store-IsStored v scope (scan_scope items pattern scope n) s
                (scan_scope_holds items pattern scope n (tier s.stores scope)) h)
            (λ acc.
              search_scopes-IsStored pattern rest acc.matched
                (hits ++ map (λ e. (e.0, scope)) acc.found)))

  promote_after-IsStored :
      (cadence : PromotionCadence) (t : ℕ) → Keeps (IsStored v) (promote_after cadence t)
  promote_after-IsStored PromotionCadence.after_each_query t = auto_promote-IsStored v c t
  promote_after-IsStored PromotionCadence.never t = λ s h. h

  -- each part of the answer keeps the invariant
  respond-IsStored :
      (q : ContextQuery) (n : ℕ) (hits : List (ItemId × ContextScope))
      → Keeps (IsStored v) (respond q n hits)
  unfolding respond
  respond-IsStored q n hits = >>=-Keeps (IsStored v) now _ (now-IsStored v) (λ t.
      >>=-Keeps (IsStored v) (serve t (truncate q.limit hits)) _
        (serve-IsStored v t (truncate q.limit hits))
        (λ items.
          >>=-Keeps (IsStored v) (modify_stats count_served) _ (stats-IsStored v count_served) (λ _.
            >>=-Keeps (IsStored v) (gets (λ s. s.settings.promotion.cadence)) _ (λ s h. h)
              (λ cadence.
                >>=-Keeps (IsStored v) (promote_after cadence t) _
                  (promote_after-IsStored cadence t) (λ _ s h. h)))))

  query_pattern-IsStored :
      (q : ContextQuery) (pattern : QuadPattern) → Keeps (IsStored v) (query_pattern q pattern)
  unfolding query_pattern
  query_pattern-IsStored q pattern =
      >>=-Keeps (IsStored v) (search_scopes pattern (scopes q.scopes) 0 []) _
        (search_scopes-IsStored pattern (scopes q.scopes) 0 [])
        (λ found. respond-IsStored q found.0 found.1)

  hinted-IsStored :
      (q : ContextQuery) (pattern : QuadPattern) (hint : Option ContextScope)
      → Keeps (IsStored v) (elim hint [
        | none ↦ query_pattern q pattern
        | some _ ↦ not_yet Unimplemented.owl_el_reasoner
      ])
  hinted-IsStored q pattern none = query_pattern-IsStored q pattern
  hinted-IsStored q pattern (some _) = λ s h. h

  by_kind-IsStored :
      (q : ContextQuery) (kind : ContextQueryKind)
      → Keeps (IsStored v) (query (record q { kind = kind }))
  unfolding query
  by_kind-IsStored q (ContextQueryKind.pattern pattern) =
      hinted-IsStored (record q { kind = ContextQueryKind.pattern pattern }) pattern q.reasoner_hint
  by_kind-IsStored q (ContextQueryKind.sparql _) = λ s h. h
  by_kind-IsStored q (ContextQueryKind.similarity _ _) = λ s h. h
  by_kind-IsStored q (ContextQueryKind.inference _) = λ s h. h

  -- A query keeps the invariant, answered or not.
  pub query-IsStored : (q : ContextQuery) → Keeps (IsStored v) (query q)
  query-IsStored q = by_kind-IsStored q q.kind
