-- ===== src/Context/Record.antt =====
-- How an item is laid out in a scope's storage: crates/semanticore-context/src/record.rs.
pub mod Names
pub mod Owners
pub mod RoundTrip
use Prim.Native.String.{◌++◌ as append}
use semanticore.Prelude.{
  strip_prefix, strip_prefix-append, append-strip_prefix, ℕ, String, Option, none, some, List, [],
  ◌∷◌, ◌++◌, map, Result, ok, err, ◌>>=◌, map_err, ◌==◌, string_eq, if◌then◌else◌,
}
use semanticore.Model.{
  NamedNode, NamedOrBlankNode, NamedOrDefault, Term, Quad, named_node, new_simple, triple, format,
}
use semanticore.Storage.{Pattern}
use semanticore.Context.Scope.{ContextScope, ItemId, tag, from_tag}
use semanticore.Context.Decimal.{show, parse}
use semanticore.Context.Wire.{Record, RecordPayload}
use semanticore.Context.Platform.{Platform}
use semanticore.Context.Item.{Provenance, ContextPayload, ContextItem}
use semanticore.Context.Error.{SessionError}

abbrev pub item_prefix : String
item_prefix = "urn:semanticore:context:item:"

abbrev pub meta_graph_iri : String
meta_graph_iri = "urn:semanticore:context:meta"

abbrev pub record_iri : String
record_iri = "urn:semanticore:context:record"

unfoldable pub item_graph : ItemId → NamedNode
item_graph id = named_node (append item_prefix (show id))

-- only the canonical spelling of a number is an id
abbrev canonical : String → Option ℕ → Option ItemId
canonical n none = none
canonical n (some id) = if show id == n then some id else none

abbrev id_of : Option String → Option ItemId
id_of none = none
id_of (some n) = canonical n (parse n)

unfoldable pub parse_item_graph : NamedNode → Option ItemId
parse_item_graph graph = id_of (strip_prefix item_prefix graph.iri)

abbrev pub meta_graph : NamedOrDefault
meta_graph = NamedOrDefault.named (named_node meta_graph_iri)

abbrev pub record_predicate : NamedNode
record_predicate = named_node record_iri

-- `Display` of an `ItemId`
abbrev pub display_id : ItemId → String
display_id id = append "item:" (show id)

-- what `delete` and `load` look for
abbrev pub graph_pattern : ItemId → Pattern
graph_pattern id = record {
  subject = none;
  predicate = none;
  object = none;
  graph = some (NamedOrDefault.named (item_graph id));
}

abbrev pub meta_pattern : ItemId → Pattern
meta_pattern id = record {
  subject = some (NamedOrBlankNode.named (item_graph id));
  predicate = some record_predicate;
  object = none;
  graph = some meta_graph;
}

-- the metadata quads of all items
abbrev pub records_pattern : Pattern
records_pattern = record {
  subject = none;
  predicate = some record_predicate;
  object = none;
  graph = some meta_graph;
}

module _ ⦃p : Platform⦄ where
  -- the pair of the first statement of `encode`
  abbrev pub record_payload : ContextPayload → RecordPayload p.Value × List Quad
  record_payload (ContextPayload.triples t) = (RecordPayload.triples, t)
  record_payload (ContextPayload.event kind body) = (RecordPayload.event kind body, [])
  record_payload (ContextPayload.chunk content type) = (RecordPayload.chunk content type, [])

  abbrev pub record_of : ContextItem → Record p.Value p.F32
  record_of item = record {
    payload = (record_payload item.payload).0;
    source = item.provenance.source;
    derived_from = item.provenance.derived_from;
    scope_hint = elim item.scope_hint [ none ↦ none | some s ↦ some (tag s) ];
    embedding = item.embedding;
  }

  abbrev pub in_item_graph : ItemId → Quad → Quad
  in_item_graph id t = record t { graph = NamedOrDefault.named (item_graph id) }

  abbrev pub meta_quad : ItemId → String → Quad
  meta_quad id json = record {
    subject = NamedOrBlankNode.named (item_graph id);
    predicate = record_predicate;
    object = Term.literal (new_simple json);
    graph = meta_graph;
  }

  unfoldable pub encode : ItemId → ContextItem → List Quad
  encode id item =
      map (in_item_graph id) (record_payload item.payload).1
      ++ meta_quad id (p.to_json (record_of item)) ∷ []

  abbrev pub payload_of : RecordPayload p.Value → List Quad → ContextPayload
  payload_of RecordPayload.triples graph_quads =
      ContextPayload.triples (map (λ q. triple q.subject q.predicate q.object) graph_quads)
  payload_of (RecordPayload.event kind body) graph_quads = ContextPayload.event kind body
  payload_of (RecordPayload.chunk content type) graph_quads = ContextPayload.chunk content type

  module _ {E : Type 0} where
    abbrev pub hint_of : ItemId → Option String → Result (SessionError E) (Option ContextScope)
    hint_of id none = ok none
    hint_of id (some t) = elim (from_tag t) [
      | some s ↦ ok (some s)
      | none ↦ err (
          SessionError.corrupt
            (format ("metadata of " ∷ display_id id ∷ ": unknown scope " ∷ p.debug t ∷ [])))
    ]

    unfoldable pub decode : ItemId → String → List Quad → Result (SessionError E) ContextItem
    decode id json graph_quads = do
      r ←
          map_err
            (λ e. SessionError.corrupt (format ("metadata of " ∷ display_id id ∷ ": " ∷ e ∷ [])))
            (p.from_json json)
      scope_hint ← hint_of id r.scope_hint
      ok (record {
        payload = payload_of r.payload graph_quads;
        provenance = record { source = r.source; derived_from = r.derived_from };
        scope_hint = scope_hint;
        embedding = r.embedding;
      })
