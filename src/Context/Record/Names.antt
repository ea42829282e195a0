-- ===== src/Context/Record/Names.antt =====
-- Graph names and ids: one id has one graph name, and no other name of the layout is one.
use Prim.Native.String.{◌++◌ as append}
use semanticore.Prelude.{
  strip_prefix, strip_prefix-append, append-strip_prefix, ℕ, ◌<◌, String, ◌≡◌, ◌≢◌, refl, sym, ap,
  ◌∙◌, Option, none, some, arith, string_eq, ==_refl, ==_iff, u64_limit, inl, inr, Option-cases,
  ℕ_discrete,
}
use semanticore.Model.{NamedNode, named_node}
use semanticore.Context.Scope.{ItemId}
use semanticore.Context.Decimal.{show, parse, parse-show}
use semanticore.Context.Record.{
  item_prefix, meta_graph_iri, item_graph, parse_item_graph, canonical, id_of,
}

canonical_self : (id : ItemId) → canonical (show id) (some id) ≡ some id
canonical_self id = rw (==_refl (show id))

-- Every id of 64 bits is read back from the name of its graph.
pub parse_item_graph-item_graph :
    (id : ItemId) → id < u64_limit → parse_item_graph (item_graph id) ≡ some id
unfolding parse_item_graph item_graph
parse_item_graph-item_graph id h =
    ap id_of (strip_prefix-append item_prefix (show id))
    ∙ (ap (canonical (show id)) (parse-show id h) ∙ canonical_self id)

canonical-some : (n : String) (o : Option ℕ) (id : ItemId) → canonical n o ≡ some id → show id ≡ n
canonical-some n none id h = cc
canonical-some n (some i) id h = ground (arith, ==_iff (show i) n)

-- A name that is read as an id is the name of that id's graph, so no two names give one id.
pub item_graph-parse_item_graph :
    (g : NamedNode) (id : ItemId) → parse_item_graph g ≡ some id → item_graph id ≡ g
unfolding parse_item_graph item_graph
item_graph-parse_item_graph g id h = elim (Option-cases (strip_prefix item_prefix g.iri)) [
  | inl e ↦ cc (ap id_of e, h)
  | inr (n, e) ↦ ap named_node (
      ap (append item_prefix) (canonical-some n (parse n) id (sym (ap id_of e) ∙ h))
      ∙ append-strip_prefix item_prefix g.iri e)
]

some-inj : (a b : ℕ) → some a ≡ some b → a ≡ b
some-inj a b h = cc

-- Ids of 64 bits with the same graph name are the same.
pub item_graph-injective :
    (a b : ItemId) → a < u64_limit → b < u64_limit → item_graph a ≡ item_graph b → a ≡ b
item_graph-injective a b ha hb e = some-inj a b (
    sym (parse_item_graph-item_graph a ha)
    ∙ (ap parse_item_graph e ∙ parse_item_graph-item_graph b hb))

none-ne-some : (a : ℕ) → none ≢ some a
none-ne-some a h = cc

meta_graph_no_id : parse_item_graph (named_node meta_graph_iri) ≡ none
unfolding parse_item_graph strip_prefix ℕ_discrete
meta_graph_no_id = refl

-- The metadata graph is not the graph of an item whose id has 64 bits.
pub meta_graph-ne-item_graph :
    (id : ItemId) → id < u64_limit → named_node meta_graph_iri ≢ item_graph id
meta_graph-ne-item_graph id h e =
    none-ne-some id
      (sym meta_graph_no_id ∙ (ap parse_item_graph e ∙ parse_item_graph-item_graph id h))
