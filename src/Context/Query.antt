-- ===== src/Context/Query.antt =====
-- crates/semanticore-context/src/query.rs: what a query asks and what it returns.
use semanticore.Prelude.{
  ℕ, String, ◌≡◌, ◌||◌, Option, none, some, List, [], ◌∷◌, ◌++◌, arith, mem, if◌then◌else◌,
  Distinct, Distinct-append, mem-append, Bool-cases, inl, inr,
}
use semanticore.Model.{NamedNode, NamedOrBlankNode, Term}
use semanticore.Storage.{Pattern}
use semanticore.Context.Scope.{ContextScope, ItemId, all_scopes, scope_eq}
use semanticore.Context.Platform.{Platform}
use semanticore.Context.Item.{ContextItem}

-- a triple pattern over the items' triples; `none` matches anything
pub record QuadPattern : Type 0 where
  pub subject : Option NamedOrBlankNode
  pub predicate : Option NamedNode
  pub object : Option Term

-- the pattern as it is given to the storage: any graph
abbrev pub in_any_graph : QuadPattern → Pattern
in_any_graph p = record {
  subject = p.subject;
  predicate = p.predicate;
  object = p.object;
  graph = none;
}

pub data ScopeSelection : Type 0 where
  single : ContextScope → ScopeSelection
  all : ScopeSelection
  set : List ContextScope → ScopeSelection

abbrev pub listed : ScopeSelection → List ContextScope
listed (ScopeSelection.single s) = s ∷ []
listed ScopeSelection.all = all_scopes
listed (ScopeSelection.set v) = v

-- the loop of `scopes`, with what it has put out
push_new : List ContextScope → List ContextScope → List ContextScope
push_new out [] = out
push_new out (s ∷ ss) = push_new (if mem s out then out else out ++ s ∷ []) ss

unfoldable pub scopes : ScopeSelection → List ContextScope
unfolding push_new
scopes selection = push_new [] (listed selection)

module _ ⦃p : Platform⦄ where
  pub data ContextQueryKind : Type 0 where
    pattern : QuadPattern → ContextQueryKind
    sparql : String → ContextQueryKind
    -- the query vector and how many results to return
    similarity : List p.F32 → ℕ → ContextQueryKind
    inference : QuadPattern → ContextQueryKind

  pub record ContextQuery : Type 0 where
    pub scopes : ScopeSelection
    pub kind : ContextQueryKind
    pub limit : Option ℕ
    pub reasoner_hint : Option ContextScope

  -- `ContextQuery::new`
  abbrev pub context_query : ScopeSelection → ContextQueryKind → ContextQuery
  context_query selection kind = record {
    scopes = selection;
    kind = kind;
    limit = none;
    reasoner_hint = none;
  }

  -- `ContextQuery::pattern`
  abbrev pub pattern_query : ScopeSelection → QuadPattern → ContextQuery
  pattern_query selection asked = context_query selection (ContextQueryKind.pattern asked)

  abbrev pub with_limit : ContextQuery → ℕ → ContextQuery
  with_limit q limit = record q { limit = some limit }

  abbrev pub with_reasoner_hint : ContextQuery → ContextScope → ContextQuery
  with_reasoner_hint q scope = record q { reasoner_hint = some scope }

  pub record RankedItem : Type 0 where
    pub id : ItemId
    pub item : ContextItem
    pub score : p.F64
    pub source_scope : ContextScope

  pub record QueryStats : Type 0 where
    pub scopes_consulted : ℕ
    pub quads_matched : ℕ
    pub auto_promoted : ℕ

  pub record ContextQueryResult : Type 0 where
    pub items : List RankedItem
    pub query_stats : QueryStats

mem-push_new :
    (s : ContextScope) (out ss : List ContextScope)
    → mem s (push_new out ss) ≡ (mem s out || mem s ss)
unfolding push_new mem
mem-push_new s out [] = ground arith
mem-push_new s out (t ∷ ss) = elim (Bool-cases (mem t out)) [
  | inl old ↦ rw old (ground (arith, mem-push_new s out ss))
  | inr new ↦ rw new (ground (arith, mem-push_new s (out ++ t ∷ []) ss, mem-append s out (t ∷ [])))
]

push_new-Distinct : (out ss : List ContextScope) → Distinct out → Distinct (push_new out ss)
unfolding push_new
push_new-Distinct out [] d = d
push_new-Distinct out (t ∷ ss) d = elim (Bool-cases (mem t out)) [
  | inl old ↦ rw old (push_new-Distinct out ss d)
  | inr new ↦ rw new (push_new-Distinct (out ++ t ∷ []) ss (Distinct-append t out new d))
]

-- A selection is consulted once per scope: exactly the scopes that it lists, none of them twice.
pub scopes_once :
    (sel : ScopeSelection)
    → Distinct (scopes sel) × ((s : ContextScope) → mem s (scopes sel) ≡ mem s (listed sel))
unfolding scopes mem
scopes_once sel = (push_new-Distinct [] (listed sel) tt, λ s. mem-push_new s [] (listed sel))
