-- ===== src/Oxigraph/Sample/Literals.antt =====
-- How the sample engine keeps the laws on literals that the adapter of
-- crates/semanticore-store-oxigraph relies on.
use Prim.Native.String.{◌++◌ as append}
use semanticore.Prelude.{◌≢◌, ◌≡◌, ◌∙◌, refl, sym, ap, Option, none, some, String, arith, string_eq}
use semanticore.Oxigraph.Engine.{Primitive}
use semanticore.Oxigraph.Convert.{xsd, Handling, primitive, derived, handling_of}
use semanticore.Oxigraph.Laws.{primitive_name, Derived, derived_name, TermLaws, StoredAs}
use semanticore.Oxigraph.Verbatim.{handling_of-primitive, handling_of-derived, handling_of-Fitting}
use semanticore.Oxigraph.Sample.{stored, sample}

pub sample-TermLaws : TermLaws sample
sample-TermLaws = record {
  iri_new = λ s h. ground arith;
  label_new = λ s h. ground arith;
  typed_value = λ v d. refl;
  typed_language = λ v d. refl;
  typed_datatype = λ v d. refl;
  tagged_value = λ v tag. refl;
  tagged_language = λ v tag. refl;
  tagged_datatype = λ v tag. refl;
}

handling_of-other :
    (d : String) (h : Option Handling)
    → handling_of d ≡ h
    → ((t : Primitive) → d ≢ append xsd (primitive_name t))
    → ((k : Derived) → d ≢ append xsd (derived_name k))
    → h ≡ none
handling_of-other d none e p k = refl
handling_of-other d (some (primitive t)) e p k =
    let (local, at, name) = handling_of-Fitting d e in
    absurd (p t (at ∙ ap (append xsd) (sym name)))
handling_of-other d (some (derived t)) e p k =
    let (local, at, (j, name, same)) = handling_of-Fitting d e in
    absurd (k j (at ∙ ap (append xsd) (sym name)))

pub sample-StoredAs : StoredAs sample stored
unfolding stored
sample-StoredAs = record {
  primitive_parsed = λ t v c d at h. ground (arith, handling_of-primitive t at);
  primitive_unparsed = λ t v d at h. ground (arith, handling_of-primitive t at);
  derived_parsed = λ k v c d at h. ground (arith, handling_of-derived k at);
  derived_unparsed = λ k v d at h. ground (arith, handling_of-derived k at);
  other_datatype = λ v d p k. ground (arith, handling_of-other d (handling_of d) refl p k);
  tagged = λ v tag. refl;
}
