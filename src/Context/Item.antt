-- ===== src/Context/Item.antt =====
-- The unit of content of crates/semanticore-context/src/item.rs.
use semanticore.Prelude.{String, Option, none, some, List, [], ◌++◌}
use semanticore.Model.{Quad}
use semanticore.Context.Scope.{ContextScope, ItemId}
use semanticore.Context.Platform.{Platform}

pub record Provenance : Type 0 where
  pub source : String
  pub derived_from : List ItemId

abbrev pub provenance : String → Provenance
provenance source = record { source = source; derived_from = [] }

abbrev pub with_derived_from : Provenance → List ItemId → Provenance
with_derived_from p items = record p { derived_from = p.derived_from ++ items }

module _ ⦃p : Platform⦄ where
  pub data ContextPayload : Type 0 where
    triples : List Quad → ContextPayload
    -- the kind and the body
    event : String → p.Value → ContextPayload
    -- the content and its type
    chunk : String → String → ContextPayload

  pub record ContextItem : Type 0 where
    pub payload : ContextPayload
    pub provenance : Provenance
    pub scope_hint : Option ContextScope
    pub embedding : Option (List p.F32)

  abbrev pub context_item : ContextPayload → Provenance → ContextItem
  context_item payload source = record {
    payload = payload;
    provenance = source;
    scope_hint = none;
    embedding = none;
  }

  abbrev pub triples_item : List Quad → Provenance → ContextItem
  triples_item quads source = context_item (ContextPayload.triples quads) source

  abbrev pub event_item : String → p.Value → Provenance → ContextItem
  event_item kind body source = context_item (ContextPayload.event kind body) source

  abbrev pub chunk_item : String → String → Provenance → ContextItem
  chunk_item content content_type source =
      context_item (ContextPayload.chunk content content_type) source

  abbrev pub with_scope_hint : ContextItem → ContextScope → ContextItem
  with_scope_hint item scope = record item { scope_hint = some scope }

  abbrev pub with_embedding : ContextItem → List p.F32 → ContextItem
  with_embedding item embedding = record item { embedding = some embedding }
