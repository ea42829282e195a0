-- ===== src/Context/DataTests.antt =====
-- The theorems about scopes, numbers, queries and records at concrete inputs.
use semanticore.Prelude.{
  ℕ, ◌≡◌, ◌≢◌, ◌↔◌, refl, true, some, [], ◌∷◌, ok, ◌==◌, nat_eq, arith, mem, filter, Distinct,
  String, String_discrete,
}
use semanticore.Model.{Quad-discrete, named_node, quad_eq}
use semanticore.Context.Scope.{ContextScope, tag, from_tag, from_tag_iff, scope_eq}
use semanticore.Context.Decimal.{show, parse, parse-show}
use semanticore.Context.Query.{ScopeSelection, scopes, listed, scopes_once}
use semanticore.Context.Record.{
  item_graph, parse_item_graph, meta_graph_iri, meta_quad, record_of, encode, decode,
}
use semanticore.Context.Record.Names.{
  parse_item_graph-item_graph, item_graph-parse_item_graph, meta_graph-ne-item_graph,
}
use semanticore.Context.Record.Owners.{belongs, belongs-encode}
use semanticore.Context.Record.RoundTrip.{in_graph_of, decode-encode}
use semanticore.Context.Demo.{demo_platform, doc}

abbrev six : ℕ
six = 6

abbrev seven : ℕ
seven = 7

parse-show_example : parse (show 42) ≡ some 42
parse-show_example = parse-show 42 (omega arith)

from_tag_iff_example :
    (from_tag "major" ≡ some ContextScope.major) ↔ (tag ContextScope.major ≡ "major")
from_tag_iff_example = from_tag_iff "major" ContextScope.major

abbrev twice : ScopeSelection
twice = ScopeSelection.set (ContextScope.minor ∷ ContextScope.major ∷ ContextScope.minor ∷ [])

scopes_once_example :
    Distinct (scopes twice) × ((s : ContextScope) → mem s (scopes twice) ≡ mem s (listed twice))
scopes_once_example = scopes_once twice

parse_item_graph-item_graph_example : parse_item_graph (item_graph 7) ≡ some 7
parse_item_graph-item_graph_example = parse_item_graph-item_graph 7 (omega arith)

item_graph-parse_item_graph_example : item_graph 7 ≡ named_node "urn:semanticore:context:item:7"
unfolding item_graph show
item_graph-parse_item_graph_example =
    item_graph-parse_item_graph (named_node "urn:semanticore:context:item:7") 7
      (parse_item_graph-item_graph 7 (omega arith))

meta_graph-ne-item_graph_example : named_node meta_graph_iri ≢ item_graph 7
meta_graph-ne-item_graph_example = meta_graph-ne-item_graph 7 (omega arith)

meta_quad-is_written : mem (meta_quad 7 "a") (encode 7 (doc "a")) ≡ true
unfolding mem encode item_graph show Quad-discrete String_discrete
meta_quad-is_written = refl

belongs-encode_example : belongs 6 (meta_quad 7 "a") ≡ (six == seven)
belongs-encode_example =
    belongs-encode 6 7 (omega arith) (omega arith) (doc "a") (meta_quad 7 "a") meta_quad-is_written

decode-encode_example :
    decode {E = String} 7
      (demo_platform.to_json (record_of (doc "a")))
      (filter (in_graph_of 7) (encode 7 (doc "a")))
    ≡ ok (doc "a")
decode-encode_example = decode-encode 7 (doc "a") refl (omega arith) tt
