-- ===== src/Context/Session/QuietCalls.antt =====
-- Statements on the index and the next id, over the public calls of
-- crates/semanticore-context/src/session.rs that add nothing.
use semanticore.Prelude.{
  ℕ, Option, none, some, List, [], ◌∷◌, not, length, ◌==◌, true, false, Option-cases, Result-cases,
  inl, inr,
}
use semanticore.Prelude.OrdMap
use semanticore.Prelude.OrdMap.{OrdMap}
use semanticore.Storage.{Storage}
use semanticore.Context.Scope.{ContextScope, ItemId, colder, scope_lt, scope_eq}
use semanticore.Context.Platform.{Platform}
use semanticore.Context.Error.{SessionError, Unimplemented}
use semanticore.Context.Config.{EvictionCriteria, PromotionCadence}
use semanticore.Context.Query.{QuadPattern, ContextQueryKind, ContextQuery, scopes}
use semanticore.Context.Session.State.{
  Entry, Arrival, Session, SessionStats, gets, lift, modify_items, modify_stats, on_store, pure,
  fail, count_promoted, count_demoted, for_each, ◌>>=◌, ◌>>◌,
}
use semanticore.Context.Session.Moves.{drop_item, enforce_bounds, move_item}
use semanticore.Context.Session.Stored.{delete}
use semanticore.Context.Session.Checks.{check_in_scope}
use semanticore.Context.Session.Operations.{
  entry_in, remove, promote_checked, promote, enforce_colder, evict, snapshot,
}
use semanticore.Context.Session.Querying.{
  search_scopes, touch, serve, truncate, half_life_of, promote_after, respond, query_pattern,
  not_yet, query,
}
use semanticore.Context.Session.Rules.{Keeps, if_Keeps, >>=-Keeps, for_each-Keeps}
use semanticore.Context.Session.Quiet.{
  IsQuiet, Holds, adjust-Holds, remove-Holds, drop_item-Holds, moves-Holds, victims-Holds,
  evict_victims-Holds, enforce_bounds-Holds, auto_promote-Holds,
}

module _ ⦃p : Platform⦄ ⦃st : Storage⦄ (Q : OrdMap Entry → ℕ → Type 0) (quiet : IsQuiet Q) where
  abbrev H : Session → Type 0
  H = Holds Q quiet

  pub remove-call : (scope : ContextScope) (id : ItemId) → Keeps H (remove scope id)
  unfolding remove
  remove-call scope id =
      >>=-Keeps H _ _ (λ s h. h)
        (λ entry.
          if_Keeps H (not (entry_in scope entry)) (pure false)
            (on_store scope (λ store. delete store id)
              >> (modify_items (OrdMap.remove id) >> pure true))
            (λ _ s h. h)
            (λ _.
              >>=-Keeps H _ _ (λ s h. h)
                (λ _. >>=-Keeps H _ _ (remove-Holds Q quiet id) (λ _ s h. h))))

  pub snapshot-call : (scope : ContextScope) → Keeps H (snapshot scope)
  unfolding snapshot
  snapshot-call scope =
      >>=-Keeps H _ _ (λ s h. h)
        (λ state.
          >>=-Keeps H _ _ (λ s h. h) (λ stores. >>=-Keeps H _ _ (λ s h. h) (λ quads s h. h)))

  -- counting what moved and enforcing the bounds
  counted-call :
      (f : SessionStats → SessionStats) (to : ContextScope) (n : ℕ)
      → Keeps H (modify_stats f >>= λ _. enforce_bounds to >> pure n)
  counted-call f to n =
      >>=-Keeps H _ _ (λ s h. h)
        (λ _. >>=-Keeps H _ _ (enforce_bounds-Holds Q quiet to) (λ _ s h. h))

  promote_checked-call :
      (from to : ContextScope) (ids : List ItemId) → Keeps H (promote_checked from to ids)
  unfolding promote_checked
  promote_checked-call from to ids =
      if_Keeps H (to == from) (pure 0)
        (for_each ids (λ id. move_item id to Arrival.promoted)
          >> (modify_stats (count_promoted (length ids)) >>= λ _.
              enforce_bounds to >> pure (length ids)))
        (λ _ s h. h)
        (λ _.
          >>=-Keeps H _ _ (moves-Holds Q quiet ids to Arrival.promoted)
            (λ _. counted-call _ to (length ids)))

  pub promote-call : (ids : List ItemId) (from to : ContextScope) → Keeps H (promote ids from to)
  unfolding promote
  promote-call ids from to =
      if_Keeps H (scope_lt to from) (fail (SessionError.durability_violation from to))
        (gets (λ s. s.state) >>= λ state.
          lift (check_in_scope state.items ids from) >>= promote_checked from to)
        (λ _ s h. h)
        (λ _.
          >>=-Keeps H _ _ (λ s h. h)
            (λ state. >>=-Keeps H _ _ (λ s h. h) (promote_checked-call from to)))

  enforce_colder-call : (o : Option ContextScope) → Keeps H (enforce_colder o)
  enforce_colder-call none = λ s h. h
  enforce_colder-call (some scope) = enforce_bounds-Holds Q quiet scope

  pub evict-call :
      (scope : ContextScope) (criteria : EvictionCriteria) → Keeps H (evict scope criteria)
  unfolding evict
  evict-call scope (EvictionCriteria.items ids) =
      >>=-Keeps H _ _ (λ s h. h)
        (λ state.
          >>=-Keeps H _ _ (λ s h. h)
            (λ out.
              >>=-Keeps H _ _ (for_each-Keeps H drop_item (drop_item-Holds Q quiet) out)
                (λ _ s h. h)))
  evict-call scope (EvictionCriteria.demote ids to) =
      if_Keeps H (not (scope_lt to scope)) (fail (SessionError.durability_violation scope to))
        (gets (λ s. s.state) >>= λ state. lift (check_in_scope state.items ids scope) >>= λ out.
          for_each out (λ id. move_item id to Arrival.demoted)
          >> (modify_stats (count_demoted (length out)) >>= λ _.
              enforce_bounds to >> pure (length out)))
        (λ _ s h. h)
        (λ _.
          >>=-Keeps H _ _ (λ s h. h)
            (λ state.
              >>=-Keeps H _ _ (λ s h. h)
                (λ out.
                  >>=-Keeps H _ _ (moves-Holds Q quiet out to Arrival.demoted)
                    (λ _. counted-call _ to (length out)))))
  evict-call scope (EvictionCriteria.policy n) =
      >>=-Keeps H _ _ (victims-Holds Q quiet scope n) (λ ids.
        >>=-Keeps H _ _ (evict_victims-Holds Q quiet scope ids)
          (λ _. >>=-Keeps H _ _ (enforce_colder-call (colder scope)) (λ _ s h. h)))

  search_scopes-call :
      (pattern : QuadPattern) (ss : List ContextScope) (n : ℕ) (hits : List (ItemId × ContextScope))
      → Keeps H (search_scopes pattern ss n hits)
  unfolding search_scopes
  search_scopes-call pattern [] n hits = λ s h. h
  search_scopes-call pattern (scope ∷ rest) n hits =
      >>=-Keeps H _ _ (λ s h. h)
        (λ items. >>=-Keeps H _ _ (λ s h. h) (λ acc. search_scopes-call pattern rest _ _))

  serve-call : (t : ℕ) (hits : List (ItemId × ContextScope)) → Keeps H (serve t hits)
  unfolding serve ◌>>=◌
  serve-call t [] s h = h
  serve-call t ((id, scope) ∷ rest) s h = elim (Option-cases (OrdMap.get id s.state.items)) [
    | inl g ↦ rw (g, ◌>>=◌) h
    | inr (e, g) ↦
        let f =
          touch t s.settings.promotion.minor_window (half_life_of s.settings.eviction_policy) in
        let s' = (modify_items (OrdMap.adjust id f) s).1 in
        let h' = serve-call t rest s' (adjust-Holds Q quiet id f s h) in
        elim (Result-cases (serve t rest s').0) [
          | inl (others, r) ↦ rw (g, r, ◌>>=◌) h'
          | inr (x, r) ↦ rw (g, r, ◌>>=◌) h'
        ]
  ]

  promote_after-call : (cadence : PromotionCadence) (t : ℕ) → Keeps H (promote_after cadence t)
  promote_after-call PromotionCadence.after_each_query t = auto_promote-Holds Q quiet t
  promote_after-call PromotionCadence.never t = λ s h. h

  query_pattern-call :
      (q : ContextQuery) (pattern : QuadPattern) → Keeps H (query_pattern q pattern)
  unfolding query_pattern respond
  query_pattern-call q pattern =
      >>=-Keeps H _ _ (search_scopes-call pattern (scopes q.scopes) 0 []) (λ found.
        >>=-Keeps H _ _ (λ s h. h)
          (λ t. >>=-Keeps H _ _ (serve-call t (truncate q.limit found.1)) (λ items.
            >>=-Keeps H _ _ (λ s h. h)
              (λ _.
                >>=-Keeps H _ _ (λ s h. h)
                  (λ cadence. >>=-Keeps H _ _ (promote_after-call cadence t) (λ _ s h. h))))))

  hinted-call :
      (q : ContextQuery) (pattern : QuadPattern) (hint : Option ContextScope)
      → Keeps H (elim hint [
        | none ↦ query_pattern q pattern
        | some _ ↦ not_yet Unimplemented.owl_el_reasoner
      ])
  hinted-call q pattern none = query_pattern-call q pattern
  hinted-call q pattern (some _) = λ s h. h

  by_kind-call :
      (q : ContextQuery) (kind : ContextQueryKind) → Keeps H (query (record q { kind = kind }))
  unfolding query
  by_kind-call q (ContextQueryKind.pattern pattern) =
      hinted-call (record q { kind = ContextQueryKind.pattern pattern }) pattern q.reasoner_hint
  by_kind-call q (ContextQueryKind.sparql _) = λ s h. h
  by_kind-call q (ContextQueryKind.similarity _ _) = λ s h. h
  by_kind-call q (ContextQueryKind.inference _) = λ s h. h

  pub query-call : (q : ContextQuery) → Keeps H (query q)
  query-call q = by_kind-call q q.kind
