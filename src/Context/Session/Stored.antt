-- ===== src/Context/Session/Stored.antt =====
-- The parts of crates/semanticore-context/src/session.rs that work on one scope's storage.
use semanticore.Prelude.{
  Option, none, some, List, [], ◌∷◌, ◌++◌, Result, ok, err, ◌>>=◌, ◌>>◌, map_err, collect,
}
use semanticore.Model.{Quad, NamedOrBlankNode, Term, Literal, format, display_node, display_term}
use semanticore.Storage.{Storage, Pattern}
use semanticore.Context.Scope.{ItemId}
use semanticore.Context.Platform.{Platform}
use semanticore.Context.Item.{ContextItem}
use semanticore.Context.Error.{SessionError}
use semanticore.Context.Record.{
  parse_item_graph, decode, graph_pattern, meta_pattern, records_pattern,
}

module _ ⦃st : Storage⦄ where
  -- what a closure does with the transaction that it borrows
  abbrev pub Work : Type 0 → Type 0
  Work A = st.Transaction → Result (SessionError st.Error) A × st.Transaction

  -- Commit on `Ok`, roll back on `Err`.
  unfoldable pub with_write :
      {A : Type 0} → st.Store → Work A → Result (SessionError st.Error) A × st.Store
  with_write store f = elim (st.begin_write store) [
    | err e ↦ (err (SessionError.storage e), store)
    | ok tx ↦
        let (r, tx') = f tx in
        elim r [
          | ok v ↦
              let (committed, store') = st.commit tx' store in
              (map_err SessionError.storage (do committed; ok v), store')
          | err e ↦ (err e, (st.rollback tx' store).1)
        ]
  ]

  unfoldable pub insert_all : List Quad → Work (Unit {0})
  insert_all [] tx = (ok tt, tx)
  insert_all (q ∷ qs) tx =
      let (r, tx') = st.insert tx q in
      elim r [ ok _ ↦ insert_all qs tx' | err e ↦ (err (SessionError.storage e), tx') ]

  -- the loop of `delete` over the quads that it found
  unfoldable pub remove_all : List Quad → Work (Unit {0})
  remove_all [] tx = (ok tt, tx)
  remove_all (q ∷ qs) tx =
      let (r, tx') = st.remove tx q in
      elim r [ ok _ ↦ remove_all qs tx' | err e ↦ (err (SessionError.storage e), tx') ]

  -- `collect` of the quads of a pattern
  abbrev pub found : st.Transaction → Pattern → Result (SessionError st.Error) (List Quad)
  found tx pattern = map_err SessionError.storage (collect (st.quads_for_pattern tx pattern))

  -- every quad of the item: its graph and its metadata quad
  abbrev pub item_quads : ItemId → st.Transaction → Result (SessionError st.Error) (List Quad)
  item_quads id tx = do
    quads ← found tx (graph_pattern id)
    meta ← found tx (meta_pattern id)
    ok (quads ++ meta)

  unfoldable pub delete : st.Store → ItemId → Result (SessionError st.Error) (Unit {0}) × st.Store
  delete store id =
      with_write store
        λ tx. elim (item_quads id tx) [ ok quads ↦ remove_all quads tx | err e ↦ (err e, tx) ]

  abbrev unexpected : {A : Type 0} → Quad → Result (SessionError st.Error) A
  unexpected q = err (
      SessionError.corrupt (
        format (
          "unexpected metadata quad " ∷ display_node q.subject ∷ " " ∷ display_term q.object ∷ [])))

  -- the id and the literal of a metadata quad
  abbrev pub subject_id : NamedOrBlankNode → Option ItemId
  subject_id (NamedOrBlankNode.named n) = parse_item_graph n
  subject_id (NamedOrBlankNode.blank _) = none

  abbrev pub literal_of : Term → Option Literal
  literal_of (Term.literal l) = some l
  literal_of _ = none

module _ ⦃p : Platform⦄ ⦃st : Storage⦄ where
  -- the body of the loop of `load`
  unfoldable pub load_record :
      st.Transaction → Quad → Result (SessionError st.Error) (ItemId × ContextItem)
  load_record tx q = elim (subject_id q.subject) [
    | none ↦ unexpected q
    | some id ↦ elim (literal_of q.object) [
      | none ↦ unexpected q
      | some lit ↦ do
        triples ← found tx (graph_pattern id)
        item ← decode id lit.value triples
        ok (id, item)
    ]
  ]

  unfoldable pub load_records :
      st.Transaction → List Quad → Result (SessionError st.Error) (List (ItemId × ContextItem))
  load_records tx [] = ok []
  load_records tx (q ∷ qs) = do
    entry ← load_record tx q
    rest ← load_records tx qs
    ok (entry ∷ rest)

  -- every item of the store; on an error the transaction is dropped
  unfoldable pub load :
      st.Store → Result (SessionError st.Error) (List (ItemId × ContextItem)) × st.Store
  load store = elim (st.begin_read store) [
    | err e ↦ (err (SessionError.storage e), store)
    | ok tx ↦ elim (do records ← found tx records_pattern; load_records tx records) [
      | ok out ↦
          let (r, store') = st.rollback tx store in
          (map_err SessionError.storage (do r; ok out), store')
      | err e ↦ (err e, store)
    ]
  ]
