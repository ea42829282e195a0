-- ===== src/Context/Session/Querying.antt =====
-- `Session::query` of crates/semanticore-context/src/session.rs.
use semanticore.Prelude.{
  ℕ, ◌+◌, ◌-◌, Bool, true, false, Option, none, some, List, [], ◌∷◌, ◌++◌, map, Result, ok, err,
  map_err, ◌==◌, if◌then◌else◌, ltb, length, take, u64_add,
}
use semanticore.Prelude
use semanticore.Prelude.OrdMap
use semanticore.Prelude.OrdMap.{OrdMap}
use semanticore.Model.{Quad, NamedOrDefault}
use semanticore.Storage.{Storage}
use semanticore.Context.Scope.{ContextScope, ItemId, scope_eq}
use semanticore.Context.Platform.{Platform}
use semanticore.Context.Error.{SessionError, Unimplemented}
use semanticore.Context.Config.{EvictionPolicy, PromotionCadence}
use semanticore.Context.Query.{
  QuadPattern, in_any_graph, scopes, ContextQueryKind, ContextQuery, RankedItem, ContextQueryResult,
}
use semanticore.Context.Record.{parse_item_graph}
use semanticore.Context.Session.State.{
  Entry, Action, pure, fail, panic, gets, now, modify_items, modify_stats, on_store, count_served,
  weight_at, ◌>>=◌, ◌>>◌,
}
use semanticore.Context.Session.Moves.{auto_promote}
use semanticore.Context.Session.Operations.{entry_in}

-- what the loop over the quads of one scope has counted, and the `BTreeSet` of the ids that it found
pub record Scan : Type 0 where
  pub matched : ℕ
  pub found : OrdMap (Unit {0})

module _ ⦃p : Platform⦄ ⦃st : Storage⦄ where
  -- the item whose graph the quad is in, if it is live in the scope
  abbrev pub live_id : OrdMap Entry → ContextScope → Option ItemId → Option ItemId
  live_id items scope none = none
  live_id items scope (some id) = if entry_in scope (OrdMap.get id items) then some id else none

  abbrev pub graph_id : NamedOrDefault → Option ItemId
  graph_id (NamedOrDefault.named g) = parse_item_graph g
  graph_id NamedOrDefault.default = none

  unfoldable pub hit_of : OrdMap Entry → ContextScope → Quad → Option ItemId
  hit_of items scope q = live_id items scope (graph_id q.graph)

  abbrev pub scan_hit : Option ItemId → Scan → Scan
  scan_hit none acc = acc
  scan_hit (some id) acc = record {
    matched = u64_add acc.matched 1;
    found = OrdMap.insert id tt acc.found;
  }

  unfoldable pub scan :
      OrdMap Entry
      → ContextScope
      → List (Result st.Error Quad)
      → Scan
      → Result (SessionError st.Error) Scan
  scan items scope [] acc = ok acc
  scan items scope (err e ∷ rest) acc = err (SessionError.storage e)
  scan items scope (ok q ∷ rest) acc = scan items scope rest (scan_hit (hit_of items scope q) acc)

  -- the body of the loop over the scopes, with the count so far
  unfoldable pub scan_scope :
      OrdMap Entry
      → QuadPattern
      → ContextScope
      → ℕ
      → st.Store
      → Result (SessionError st.Error) Scan × st.Store
  scan_scope items pattern scope matched store = elim (st.begin_read store) [
    | err e ↦ (err (SessionError.storage e), store)
    | ok tx ↦
        elim (scan items scope (st.quads_for_pattern tx (in_any_graph pattern))
          (record { matched = matched; found = [] })) [
            | err e ↦ (err e, store)
            | ok acc ↦
                let (r, store') = st.rollback tx store in
                (map_err SessionError.storage (Prelude.◌>>=◌ r (λ _. ok acc)), store')
          ]
  ]

  -- the hits of the scopes in turn, with the count of matched quads
  unfoldable pub search_scopes :
      QuadPattern
      → List ContextScope
      → ℕ
      → List (ItemId × ContextScope)
      → Action (ℕ × List (ItemId × ContextScope))
  search_scopes pattern [] matched hits = pure (matched, hits)
  search_scopes pattern (scope ∷ rest) matched hits = do
    items ← gets (λ s. s.state.items)
    acc ← on_store scope (scan_scope items pattern scope matched)
    search_scopes pattern rest acc.matched (hits ++ map (λ e. (e.0, scope)) acc.found)

  -- `while front is older than the window: pop_front`
  unfoldable pub drop_stale : ℕ → ℕ → List ℕ → List ℕ
  drop_stale t window [] = []
  drop_stale t window (a ∷ as') =
      let rest = drop_stale t window as' in if ltb window (t - a) then rest else a ∷ as'

  -- the half-life of the policy that keeps weights
  abbrev pub half_life_of : EvictionPolicy → Option ℕ
  half_life_of EvictionPolicy.lru = none
  half_life_of EvictionPolicy.lfu = none
  half_life_of (EvictionPolicy.recency_weighted half_life) = some half_life

  abbrev pub reweigh : ℕ → Option ℕ → Entry → Entry
  reweigh t none e = e
  reweigh t (some half_life) e = record e {
    weight = p.add (weight_at e t half_life) p.one;
    weighed_at = t;
  }

  -- what an access does to an entry
  unfoldable pub touch : ℕ → ℕ → Option ℕ → Entry → Entry
  touch t window half_life e = reweigh t half_life (record e {
    accesses = u64_add e.accesses 1;
    last_touch = t;
    recent = drop_stale t window (e.recent ++ t ∷ []);
  })

  unfoldable pub serve : ℕ → List (ItemId × ContextScope) → Action (List RankedItem)
  serve t [] = pure []
  serve t ((id, scope) ∷ rest) = do
    settings ← gets (λ s. s.settings)
    entry ← gets (λ s. OrdMap.get id s.state.items)
    elim entry [
      | none ↦ panic "hit is indexed"
      | some e ↦ do
        let half_life = half_life_of settings.eviction_policy
        modify_items (OrdMap.adjust id (touch t settings.promotion.minor_window half_life))
        others ← serve t rest
        pure (record { id = id; item = e.item; score = p.one; source_scope = scope } ∷ others)
    ]

  -- `Vec::truncate`, if there is a limit
  abbrev pub truncate : Option ℕ → List (ItemId × ContextScope) → List (ItemId × ContextScope)
  truncate none hits = hits
  truncate (some limit) hits = take limit hits

  -- auto-promotion, if the cadence asks for it
  abbrev pub promote_after : PromotionCadence → ℕ → Action ℕ
  promote_after PromotionCadence.after_each_query t = auto_promote t
  promote_after PromotionCadence.never t = pure 0

  -- the end of a pattern query, after its search
  unfoldable pub respond :
      ContextQuery → ℕ → List (ItemId × ContextScope) → Action ContextQueryResult
  respond query matched hits = do
    t ← now
    items ← serve t (truncate query.limit hits)
    modify_stats count_served
    cadence ← gets (λ s. s.settings.promotion.cadence)
    promoted ← promote_after cadence t
    pure (record {
      items = items;
      query_stats = record {
        scopes_consulted = length (scopes query.scopes);
        quads_matched = matched;
        auto_promoted = promoted;
      };
    })

  unfoldable pub query_pattern : ContextQuery → QuadPattern → Action ContextQueryResult
  query_pattern query pattern = do
    found ← search_scopes pattern (scopes query.scopes) 0 []
    respond query found.0 found.1

  abbrev pub not_yet : Unimplemented → Action ContextQueryResult
  not_yet what = fail (SessionError.not_yet_implemented what)

  unfoldable pub query : ContextQuery → Action ContextQueryResult
  query q = elim q.kind [
    | ContextQueryKind.pattern pattern ↦ elim q.reasoner_hint [
      | none ↦ query_pattern q pattern
      | some _ ↦ not_yet Unimplemented.owl_el_reasoner
    ]
    | ContextQueryKind.sparql _ ↦ not_yet Unimplemented.sparql
    | ContextQueryKind.similarity _ _ ↦ not_yet Unimplemented.ann_index
    | ContextQueryKind.inference _ ↦ not_yet Unimplemented.owl_el_reasoner
  ]
