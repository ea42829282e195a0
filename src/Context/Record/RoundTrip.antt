-- ===== src/Context/Record/RoundTrip.antt =====
-- Reading an item's quads back gives the item, as crates/semanticore-context/src/session.rs reads them:
-- the text of the metadata quad and the quads of the item's graph.
use semanticore.Prelude.{
  ◌<◌, u64_limit, ◌≡◌, refl, ap, ◌∙◌, inl, inr, Bool, Option, none, some, List, [], ◌∷◌, map, ok,
  arith, All, ◌++◌, String, filter, ==_refl, ==_cases,
}
use semanticore.Model.{Quad, NamedNode, NamedOrDefault, triple, graph_eq}
use semanticore.Storage.{matches_pattern}
use semanticore.Context.Record.Names.{meta_graph-ne-item_graph}
use semanticore.Context.Scope.{ContextScope, ItemId, tag, from_tag-tag}
use semanticore.Context.Platform.{Platform, ReadsBack}
use semanticore.Context.Item.{ContextPayload, ContextItem}
use semanticore.Context.Record.{
  record_payload, record_of, item_graph, meta_graph, meta_quad, graph_pattern, in_item_graph,
  payload_of, hint_of, encode, decode,
}

module _ ⦃p : Platform⦄ where
  -- A triple that is put into a graph and taken out again is the triple.
  back_from_graph :
      (id : ItemId) (quads : List Quad)
      → All (λ q. q.graph ≡ NamedOrDefault.default) quads
      → map (λ q. triple q.subject q.predicate q.object) (map (in_item_graph id) quads) ≡ quads
  back_from_graph id [] h = refl
  back_from_graph id (q ∷ quads) h = ground (arith, h.0, back_from_graph id quads h.1)

  -- the triples of the payload are in the default graph
  abbrev pub DefaultTriples : ContextPayload → Type 0
  DefaultTriples (ContextPayload.triples quads) = All (λ q. q.graph ≡ NamedOrDefault.default) quads
  DefaultTriples (ContextPayload.event _ _) = Unit
  DefaultTriples (ContextPayload.chunk _ _) = Unit

  payload_back :
      (id : ItemId) (x : ContextPayload)
      → DefaultTriples x
      → payload_of (record_payload x).0 (map (in_item_graph id) (record_payload x).1) ≡ x
  payload_back id (ContextPayload.triples quads) h =
      ap ContextPayload.triples (back_from_graph id quads h)
  payload_back id (ContextPayload.event kind body) h = refl
  payload_back id (ContextPayload.chunk content type) h = refl

  append_nil : (xs : List Quad) → xs ++ [] ≡ xs
  append_nil [] = refl
  append_nil (x ∷ xs) = ap (λ ys. x ∷ ys) (append_nil xs)

  named-inj : {a b : NamedNode} → NamedOrDefault.named a ≡ NamedOrDefault.named b → a ≡ b
  named-inj h = cc

  abbrev pub in_graph_of : ItemId → Quad → Bool
  in_graph_of id q = matches_pattern q (graph_pattern id)

  keeps_triples :
      (id : ItemId) (quads : List Quad)
      → filter (in_graph_of id) (map (in_item_graph id) quads) ≡ map (in_item_graph id) quads
  unfolding filter matches_pattern
  keeps_triples id [] = refl
  keeps_triples id (q ∷ quads) =
      rw (==_refl (NamedOrDefault.named (item_graph id)))
        (ap (λ qs. in_item_graph id q ∷ qs) (keeps_triples id quads))

  filter-append :
      (t : Quad → Bool) (xs ys : List Quad) → filter t (xs ++ ys) ≡ filter t xs ++ filter t ys
  unfolding filter
  filter-append t [] ys = refl
  filter-append t (x ∷ xs) ys = ground (arith, filter-append t xs ys)

  drops_meta :
      (id : ItemId) (json : String)
      → id < u64_limit
      → filter (in_graph_of id) (meta_quad id json ∷ []) ≡ []
  unfolding filter matches_pattern
  drops_meta id json fits = elim (==_cases meta_graph (NamedOrDefault.named (item_graph id))) [
    | inl (_, e) ↦ absurd (meta_graph-ne-item_graph id fits (named-inj e))
    | inr (t, _) ↦ rw t refl
  ]

  -- The quads of the item's graph are its triples, not the metadata.
  pub graph-encode :
      (id : ItemId) (item : ContextItem)
      → id < u64_limit
      → filter (in_graph_of id) (encode id item)
        ≡ map (in_item_graph id) (record_payload item.payload).1
  unfolding encode
  graph-encode id item fits =
      let quads = map (in_item_graph id) (record_payload item.payload).1 in
      let json = p.to_json (record_of item) in
      filter-append (in_graph_of id) quads (meta_quad id json ∷ [])
      ∙ (rw (drops_meta id json fits)
          (rw (keeps_triples id (record_payload item.payload).1) (append_nil quads)))

module _ ⦃p : Platform⦄ {E : Type 0} where
  hint_back :
      (id : ItemId) (o : Option ContextScope)
      → hint_of {E = E} id (elim o [ none ↦ none | some s ↦ some (tag s) ]) ≡ ok o
  hint_back id none = refl
  hint_back id (some s) = rw (hint_of, from_tag-tag s) refl

  -- Decoding what `encode` wrote for an item whose triples are in the default graph and whose id
  -- has 64 bits, from its metadata and the quads of its graph, gives the item, if the JSON text
  -- of its record reads back.
  pub decode-encode :
      (id : ItemId) (item : ContextItem)
      → ReadsBack p (record_of item)
      → id < u64_limit
      → DefaultTriples item.payload
      → decode {E = E} id (p.to_json (record_of item)) (filter (in_graph_of id) (encode id item))
        ≡ ok item
  unfolding decode
  decode-encode id item json fits t =
      rw (graph-encode id item fits)
        (rw json (rw (hint_back id item.scope_hint) (rw (payload_back id item.payload t) refl)))
