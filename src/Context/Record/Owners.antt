-- ===== src/Context/Record/Owners.antt =====
-- Whose quads are whose: the quads of two items never meet.
use semanticore.Prelude.{
  ◌<◌, ◌≡◌, refl, ap, Bool, true, ◌||◌, List, [], ◌∷◌, ◌++◌, map, ◌==◌, nat_eq, arith, mem, All,
  All-mem, u64_limit,
}
use semanticore.Model.{
  NamedOrBlankNode, NamedOrDefault, Quad, named_node_eq, node_eq, term_eq, graph_eq, quad_eq,
}
use semanticore.Storage.{matches_pattern}
use semanticore.Context.Scope.{ItemId}
use semanticore.Context.Platform.{Platform}
use semanticore.Context.Item.{ContextItem}
use semanticore.Context.Record.{
  item_graph, meta_graph, record_predicate, record_payload, record_of, in_item_graph, meta_quad,
  encode, graph_pattern, meta_pattern,
}
use semanticore.Context.Record.Names.{item_graph-injective, meta_graph-ne-item_graph}

-- What `delete` looks for: the item's graph and its metadata quad.
unfoldable pub belongs : ItemId → Quad → Bool
belongs id q = matches_pattern q (graph_pattern id) || matches_pattern q (meta_pattern id)

item_graph-cong : (a b : ItemId) → a ≡ b → item_graph a ≡ item_graph b
item_graph-cong a b e = ap item_graph e

module _ (a b : ItemId) (ha : a < u64_limit) (hb : b < u64_limit) (q : Quad) where
  -- a quad in an item's graph is of the item whose graph it is
  belongs-in_graph : q.graph ≡ NamedOrDefault.named (item_graph b) → belongs a q ≡ (a == b)
  unfolding belongs matches_pattern
  belongs-in_graph e =
      ground
        (arith, item_graph-injective a b ha hb, item_graph-cong a b, meta_graph-ne-item_graph b hb)

  -- a metadata quad is of the item that is its subject
  belongs-meta :
      q.graph ≡ meta_graph
      → q.predicate ≡ record_predicate
      → q.subject ≡ NamedOrBlankNode.named (item_graph b)
      → belongs a q ≡ (a == b)
  unfolding belongs matches_pattern
  belongs-meta e f g =
      ground
        (arith, item_graph-injective a b ha hb, item_graph-cong a b, meta_graph-ne-item_graph a ha)

module _ ⦃p : Platform⦄ (a b : ItemId) (ha : a < u64_limit) (hb : b < u64_limit) where
  belongs-triples : (ts : List Quad) → All (λ q. belongs a q ≡ (a == b)) (map (in_item_graph b) ts)
  belongs-triples [] = tt
  belongs-triples (t ∷ ts) =
      (belongs-in_graph a b ha hb (in_item_graph b t) refl, belongs-triples ts)

  All-append_one {κ} :
      (P : Quad → Type κ) (xs : List Quad) (x : Quad) → All P xs → P x → All P (xs ++ x ∷ [])
  All-append_one P [] x h k = (k, tt)
  All-append_one P (y ∷ xs) x h k = (h.0, All-append_one P xs x h.1 k)

  belongs-All : (item : ContextItem) → All (λ q. belongs a q ≡ (a == b)) (encode b item)
  unfolding encode
  belongs-All item =
      let json = p.to_json (record_of item) in
      All-append_one (λ q. belongs a q ≡ (a == b))
        (map (in_item_graph b) (record_payload item.payload).1) (meta_quad b json)
        (belongs-triples (record_payload item.payload).1)
        (belongs-meta a b ha hb (meta_quad b json) refl refl refl)

  -- For ids of 64 bits, a quad that is written for one item is found by the deletion of that
  -- item, and of no other.
  pub belongs-encode :
      (item : ContextItem) (q : Quad) → mem q (encode b item) ≡ true → belongs a q ≡ (a == b)
  belongs-encode item q m =
      All-mem (λ q. belongs a q ≡ (a == b)) q (encode b item) (belongs-All item) m
