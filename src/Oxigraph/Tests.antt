-- ===== src/Oxigraph/Tests.antt =====
-- The adapter of crates/semanticore-store-oxigraph on the sample engine.
use semanticore.Prelude.{
  ◌≡◌, ◌≢◌, ◌↔◌, ◌==◌, ==_iff, string_eq, refl, inl, String, true, false, none, some, [], ◌∷◌, ok,
  err, String_discrete, filter, mem, strip_prefix, ℕ_discrete,
}
use semanticore.Model.{
  NamedOrBlankNode, NamedOrDefault, Term, Quad, named_node, new_typed, new_lang, Literal,
  rdf_lang_string,
}
use semanticore.Storage.Restricted.{ContractFor}
use semanticore.Oxigraph.Engine.{OxSubject, OxTerm, OxGraphName}
use semanticore.Oxigraph.Convert.{
  Unrepresentable, storage_error, arm, handling_of, round_trips, named_to_ox, typed_to_ox,
  tagged_to_ox, literal_to_ox, subject_to_ox, term_to_ox, graph_to_ox, quad_to_ox, quad_from_ox,
}
use semanticore.Oxigraph.Adapter.{
  Kind, OxigraphStore, TxInner, oxigraph_storage, insert, commit, named_graphs, inhabited,
}
use semanticore.Oxigraph.Verbatim.{round_trips_iff}
use semanticore.Oxigraph.RoundTrip.{quad_from_ox-quad_to_ox}
use semanticore.Oxigraph.Held.{oxigraph_view, ours}
use semanticore.Oxigraph.Contract.{adapter-ContractFor}
use semanticore.Oxigraph.Refusals.{insert-refused_iff}
use semanticore.Oxigraph.Sample.{
  QuadOf, GraphOf-discrete, stored, as_stored, seen_in, found_in, with_quad, commit_to, graphs_of,
  sample,
}
use semanticore.Oxigraph.Sample.Literals.{sample-TermLaws, sample-StoredAs}
use semanticore.Oxigraph.Sample.Stores.{sample_view, sample-StoreLaws}

abbrev integer : String
integer = "http://www.w3.org/2001/XMLSchema#integer"

abbrev about : Literal → Quad
about l = record {
  subject = NamedOrBlankNode.named (named_node "http://a");
  predicate = named_node "http://p";
  object = Term.literal l;
  graph = NamedOrDefault.named (named_node "http://g");
}

abbrev one : Quad
one = about (new_typed "1" (named_node integer))

abbrev padded : Quad
padded = about (new_typed "01" (named_node integer))

abbrev empty : OxigraphStore sample
empty = record { inner = record { version = 0; quads = [] }; kind = Kind.in_memory }

canonical_integer : round_trips sample "1" integer ≡ true
unfolding round_trips handling_of arm strip_prefix String_discrete ℕ_discrete
canonical_integer = refl

padded_integer : round_trips sample "01" integer ≡ false
unfolding round_trips handling_of arm strip_prefix String_discrete ℕ_discrete
padded_integer = refl

parsable_int : round_trips sample "1" "http://www.w3.org/2001/XMLSchema#int" ≡ false
unfolding round_trips handling_of arm strip_prefix String_discrete ℕ_discrete
parsable_int = refl

language_tag_kept :
    literal_to_ox sample (new_lang "colour" "en-GB")
    ≡ ok (record {
      text = "colour";
      kind = "http://www.w3.org/1999/02/22-rdf-syntax-ns#langString";
      tag = some "en-GB";
    })
unfolding literal_to_ox tagged_to_ox String_discrete
language_tag_kept = refl

language_tag_refused :
    literal_to_ox sample (new_lang "x" "") ≡ err (Unrepresentable.language_tag "")
unfolding literal_to_ox tagged_to_ox String_discrete
language_tag_refused = refl

abbrev one_ox : QuadOf
one_ox = record {
  subject = OxSubject.named_node "http://a";
  predicate = "http://p";
  object = OxTerm.literal (record { text = "1"; kind = integer; tag = none });
  graph_name = OxGraphName.named_node "http://g";
}

one_converts : quad_to_ox sample one ≡ ok one_ox
unfolding quad_to_ox subject_to_ox named_to_ox term_to_ox literal_to_ox typed_to_ox graph_to_ox
    round_trips handling_of arm strip_prefix String_discrete ℕ_discrete
one_converts = refl

abbrev written : TxInner sample
written = TxInner.write (with_quad empty.inner one_ox)

insert_one : insert sample (TxInner.write empty.inner) one ≡ (ok true, written)
unfolding insert quad_to_ox subject_to_ox named_to_ox term_to_ox literal_to_ox typed_to_ox
    graph_to_ox round_trips handling_of arm strip_prefix String_discrete ℕ_discrete seen_in mem
insert_one = refl

commit_one : named_graphs sample (commit sample written empty).1 ≡ ok (named_node "http://g" ∷ [])
unfolding commit commit_to with_quad inhabited graphs_of found_in filter as_stored stored ℕ_discrete
    handling_of arm strip_prefix String_discrete GraphOf-discrete
commit_one = refl

round_trips_iff_example : (round_trips sample "01" integer ≡ true) ↔ (
    stored (record { text = "01"; kind = integer; tag = none })
    ≡ record { text = "01"; kind = integer; tag = none })
round_trips_iff_example = round_trips_iff sample sample-TermLaws stored sample-StoredAs "01" integer

quad_from_ox-quad_to_ox_example : quad_from_ox sample one_ox ≡ ok one
quad_from_ox-quad_to_ox_example =
    quad_from_ox-quad_to_ox sample sample-TermLaws one (inl refl) one_converts

adapter-ContractFor_example :
    ContractFor
      (oxigraph_storage sample)
      (oxigraph_view sample sample_view)
      (ours sample sample_view stored)
adapter-ContractFor_example =
    adapter-ContractFor sample sample-TermLaws stored sample-StoredAs sample_view sample-StoreLaws

integer_is_plain : integer ≢ rdf_lang_string
unfolding String_discrete
integer_is_plain e =
    let differ : (integer == rdf_lang_string) ≡ false = refl in
    absurd (cc ((==_iff integer rdf_lang_string).1 e, differ))

insert-refused_iff_example :
    (insert sample (TxInner.write empty.inner) padded ≡ (
      err (storage_error (Unrepresentable.non_canonical_literal "01" integer)),
      TxInner.write empty.inner,
    ))
    ↔ (¬ (
        stored (record { text = "01"; kind = integer; tag = none })
        ≡ record { text = "01"; kind = integer; tag = none }))
unfolding subject_to_ox named_to_ox graph_to_ox strip_prefix ℕ_discrete
insert-refused_iff_example =
    insert-refused_iff sample sample-TermLaws stored sample-StoredAs
      (new_typed "01" (named_node integer)) integer refl integer_is_plain refl padded refl refl refl
      refl empty.inner
