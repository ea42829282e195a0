-- ===== src/Oxigraph/Refusals.antt =====
-- What the adapter of crates/semanticore-store-oxigraph/src/lib.rs does with a quad that Oxigraph cannot
-- hold as it is, and with a write that is not allowed.
use semanticore.Prelude.{
  ◌≡◌, ◌≢◌, ◌↔◌, refl, ap, inl, inr, String, true, none, some, [], ok, err, arith, string_eq,
  ==_cases, Bool-cases,
}
use semanticore.Model.{Literal, Term, Quad, rdf_lang_string}
use semanticore.Storage.{Pattern, StorageError}
use semanticore.Oxigraph.Engine.{Engine, OxTerm}
use semanticore.Oxigraph.Engine
use semanticore.Oxigraph.Laws.{TermLaws, StoredAs}
use semanticore.Oxigraph.Verbatim.{round_trips_iff}
use semanticore.Oxigraph.Convert.{
  Unrepresentable, storage_error, round_trips, named_to_ox, typed_to_ox, literal_to_ox,
  subject_to_ox, term_to_ox, graph_to_ox, quad_to_ox,
}
use semanticore.Oxigraph.Adapter.{
  Kind, OxigraphStore, AdapterError, adapter_error, TxInner, begin_write, insert, quads_for_pattern,
  pattern_to_ox,
}

module _ (ox : Engine) (terms : TermLaws ox) (stored : ox.Literal → ox.Literal)
    (laws : StoredAs ox stored) where
  -- the store keeps the typed literal as it is
  abbrev pub IsKept : String → ox.Named → Type 0
  IsKept v d = stored (ox.new_typed v d) ≡ ox.new_typed v d

  module _ (l : Literal) (d : ox.Named) (untagged : l.language ≡ none)
      (plain : l.datatype.iri ≢ rdf_lang_string)
      (typed : ox.new_named l.datatype.iri ≡ some d) where
    round_trips-IsKept : (round_trips ox l.value l.datatype.iri ≡ true) ↔ IsKept l.value d
    round_trips-IsKept =
        rw (terms.iri_new l.datatype.iri typed) at (round_trips_iff ox terms stored laws l.value d)

    IsKept-literal_to_ox : IsKept l.value d → literal_to_ox ox l ≡ ok (ox.new_typed l.value d)
    unfolding literal_to_ox typed_to_ox named_to_ox
    IsKept-literal_to_ox kept =
        let same = round_trips-IsKept.1 kept in
        elim (==_cases l.datatype.iri rdf_lang_string) [
          | inl (_, e) ↦ absurd (plain e)
          | inr (e, _) ↦ rw (untagged, e, same, typed) refl
        ]

    changed-literal_to_ox :
        ¬ IsKept l.value d
        → literal_to_ox ox l ≡ err (Unrepresentable.non_canonical_literal l.value l.datatype.iri)
    unfolding literal_to_ox
    changed-literal_to_ox changed = elim (Bool-cases (round_trips ox l.value l.datatype.iri)) [
      | inl t ↦ absurd (changed (round_trips-IsKept.0 t))
      | inr t ↦ elim (==_cases l.datatype.iri rdf_lang_string) [
        | inl (_, e) ↦ absurd (plain e)
        | inr (e, _) ↦ rw (untagged, e, t) refl
      ]
    ]

    module _ (q : Quad) (literal : q.object ≡ Term.literal l) {s : Engine.SubjectIn ox}
        {p : ox.Named} {g : Engine.GraphIn ox} (subject : subject_to_ox ox q.subject ≡ ok s)
        (predicate : named_to_ox ox q.predicate ≡ ok p)
        (graph : graph_to_ox ox q.graph ≡ ok g) where
      IsKept-quad_to_ox :
          IsKept l.value d
          → quad_to_ox ox q
            ≡ ok (record {
              subject = s;
              predicate = p;
              object = OxTerm.literal (ox.new_typed l.value d);
              graph_name = g;
            })
      unfolding quad_to_ox term_to_ox
      IsKept-quad_to_ox kept =
          let same = IsKept-literal_to_ox kept in rw (literal, subject, predicate, graph, same) refl

      changed-quad_to_ox :
          ¬ IsKept l.value d
          → quad_to_ox ox q ≡ err (Unrepresentable.non_canonical_literal l.value l.datatype.iri)
      unfolding quad_to_ox term_to_ox
      changed-quad_to_ox changed =
          let same = changed-literal_to_ox changed in rw (literal, subject, predicate, same) refl

      not_refused :
          (tx : ox.Transaction) (x : String) (a : Engine.QuadIn ox)
          → quad_to_ox ox q ≡ ok a
          → (insert ox (TxInner.write tx) q).0 ≢ err (StorageError.serialization x)
      unfolding insert
      not_refused tx x a h r = ground arith

      -- Given the laws on literals and on how a store reads one back, an insertion into a write
      -- transaction of a quad with a typed literal (not tagged, its datatype a valid IRI other than
      -- rdf:langString) and other positions that convert is refused as non-canonical, with the
      -- transaction as it was, exactly if the store would not keep the literal as it is.
      pub insert-refused_iff :
          (tx : ox.Transaction)
          → (insert ox (TxInner.write tx) q ≡ (
            err (storage_error (Unrepresentable.non_canonical_literal l.value l.datatype.iri)),
            TxInner.write tx,
          ))
            ↔ (¬ IsKept l.value d)
      unfolding insert
      insert-refused_iff tx = (
        λ r kept. not_refused tx _ _ (IsKept-quad_to_ox kept) (ap (λ x. x.0) r),
        λ changed. let h = changed-quad_to_ox changed in ground arith,
      )

-- A pattern with a position that does not convert matches nothing.
pub quads_for_pattern-unrepresentable :
    (ox : Engine) (tx : TxInner ox) (p : Pattern) {u : Unrepresentable}
    → pattern_to_ox ox p ≡ err u
    → quads_for_pattern ox tx p ≡ []
unfolding quads_for_pattern
quads_for_pattern-unrepresentable ox tx p h = ground arith

-- A store that was opened read-only begins no write transaction.
pub begin_write-read_only :
    (ox : Engine) (s : OxigraphStore ox)
    → s.kind ≡ Kind.on_disk_read_only
    → begin_write ox s ≡ err (adapter_error AdapterError.read_only_store)
unfolding begin_write
begin_write-read_only ox s h = ground arith
