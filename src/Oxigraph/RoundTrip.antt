-- ===== src/Oxigraph/RoundTrip.antt =====
-- The conversions of crates/semanticore-store-oxigraph/src/convert.rs there and back.
use semanticore.Prelude.{
  ◌≡◌, ◌⊎◌, inl, inr, String, true, false, none, some, ok, >>=-ok, arith, ◌==◌, string_eq, ==_iff,
  Option-cases, Bool-cases,
}
use semanticore.Model.{
  NamedNode, BlankNode, Literal, NamedOrBlankNode, NamedOrDefault, Term, Quad, rdf_lang_string,
  xsd_string,
}
use semanticore.Oxigraph.Engine.{OxSubject, OxTerm, OxGraphName, OxQuad, Engine}
use semanticore.Oxigraph.Engine
use semanticore.Oxigraph.Convert.{
  checked, round_trips, named_to_ox, blank_to_ox, typed_to_ox, tagged_to_ox, literal_to_ox,
  subject_to_ox, term_to_ox, graph_to_ox, quad_to_ox, named_from_ox, blank_from_ox, subject_from_ox,
  literal_from_ox, term_from_ox, graph_from_ox, quad_from_ox,
}
use semanticore.Oxigraph.Laws.{TermLaws, StoredAs, KeptTerm, Kept}
use semanticore.Oxigraph.Verbatim.{round_trips_iff}

-- A literal as the constructors of the core model make one: with a language tag it is an
-- `rdf:langString`.
abbrev pub IsMade : Literal → Type 0
IsMade l = (l.language ≡ none) ⊎ (l.datatype.iri ≡ rdf_lang_string)

abbrev pub IsMadeTerm : Term → Type 0
IsMadeTerm (Term.literal l) = IsMade l
IsMadeTerm _ = Unit {0}

abbrev pub IsMadeQuad : Quad → Type 0
IsMadeQuad q = IsMadeTerm q.object

module _ (ox : Engine) (terms : TermLaws ox) where
  named_from_ox-named_to_ox :
      (n : NamedNode) {x : ox.Named} → named_to_ox ox n ≡ ok x → named_from_ox ox x ≡ n
  unfolding named_to_ox
  named_from_ox-named_to_ox n {x} h = elim (Option-cases (ox.new_named n.iri)) [
    | inl gone ↦ absurd (ground arith)
    | inr (y, e) ↦ ground (arith, terms.iri_new n.iri e)
  ]

  blank_from_ox-blank_to_ox :
      (b : BlankNode) {x : ox.Blank} → blank_to_ox ox b ≡ ok x → blank_from_ox ox x ≡ b
  unfolding blank_to_ox
  blank_from_ox-blank_to_ox b {x} h = elim (Option-cases (ox.new_blank b.id)) [
    | inl gone ↦ absurd (ground arith)
    | inr (y, e) ↦ ground (arith, terms.label_new b.id e)
  ]

  subject_from_ox-subject_to_ox :
      (s : NamedOrBlankNode) {x : Engine.SubjectIn ox}
      → subject_to_ox ox s ≡ ok x
      → subject_from_ox ox x ≡ s
  unfolding subject_to_ox subject_from_ox
  subject_from_ox-subject_to_ox (NamedOrBlankNode.named n) {x} h =
      let (y, e, f) = >>=-ok (named_to_ox ox n) _ h in ground (arith, named_from_ox-named_to_ox n e)
  subject_from_ox-subject_to_ox (NamedOrBlankNode.blank b) {x} h =
      let (y, e, f) = >>=-ok (blank_to_ox ox b) _ h in ground (arith, blank_from_ox-blank_to_ox b e)

  graph_from_ox-graph_to_ox :
      (g : NamedOrDefault) {x : Engine.GraphIn ox}
      → graph_to_ox ox g ≡ ok x
      → graph_from_ox ox x ≡ ok g
  unfolding graph_to_ox graph_from_ox
  graph_from_ox-graph_to_ox (NamedOrDefault.named n) {x} h =
      let (y, e, f) = >>=-ok (named_to_ox ox n) _ h in ground (arith, named_from_ox-named_to_ox n e)
  graph_from_ox-graph_to_ox NamedOrDefault.default {x} h = ground arith

  -- What a literal is converted to: a tagged one, or a typed one that reads back identical.
  pub data Converts (l : Literal) (x : ox.Literal) : Type 0 where
    tagged :
        (tag : String)
        → l.language ≡ some tag
        → x ≡ ox.new_tagged_unchecked l.value tag
        → Converts l x
    typed :
        (d : ox.Named)
        → l.language ≡ none
        → (l.datatype.iri == rdf_lang_string) ≡ false
        → round_trips ox l.value l.datatype.iri ≡ true
        → ox.iri d ≡ l.datatype.iri
        → x ≡ ox.new_typed l.value d
        → Converts l x

  typed_to_ox-ok :
      (v : String) (n : NamedNode) {x : ox.Literal}
      → typed_to_ox ox v n ≡ ok x
      → (d : ox.Named) × (ox.iri d ≡ n.iri) × (x ≡ ox.new_typed v d)
  unfolding typed_to_ox
  typed_to_ox-ok v n {x} h =
      let (d, e, f) = >>=-ok (named_to_ox ox n) _ h in
      (d, ground (arith, named_from_ox-named_to_ox n e), ground arith)

  tagged_to_ox-ok :
      (v tag : String) {x : ox.Literal}
      → tagged_to_ox ox v tag ≡ ok x
      → x ≡ ox.new_tagged_unchecked v tag
  unfolding tagged_to_ox
  tagged_to_ox-ok v tag {x} h =
      let (_, _, f) = >>=-ok (checked ox _ (ox.new_tagged v tag)) _ h in ground arith

  literal_to_ox-Converts : (l : Literal) {x : ox.Literal} → literal_to_ox ox l ≡ ok x → Converts l x
  unfolding literal_to_ox
  literal_to_ox-Converts l {x} h = elim (Option-cases l.language) [
    | inr (tag, e) ↦ tagged tag e (tagged_to_ox-ok l.value tag (ground arith))
    | inl e ↦ elim (Bool-cases (l.datatype.iri == rdf_lang_string)) [
      | inl lang ↦ absurd (ground arith)
      | inr other ↦ elim (Bool-cases (round_trips ox l.value l.datatype.iri)) [
        | inl trips ↦
            let (d, f, g) = typed_to_ox-ok l.value l.datatype {x = x} (ground arith) in
            typed d e other trips f g
        | inr not_kept ↦ absurd (ground arith)
      ]
    ]
  ]

  literal_from_ox-Converts :
      (l : Literal) {x : ox.Literal} → IsMade l → Converts l x → literal_from_ox ox x ≡ ok l
  unfolding literal_from_ox
  literal_from_ox-Converts l {x} made (tagged tag e f) = ground (
    arith,
    terms.tagged_value l.value tag,
    terms.tagged_language l.value tag,
    terms.tagged_datatype l.value tag,
    ==_iff (ox.iri (ox.datatype x)) rdf_lang_string,
  )
  literal_from_ox-Converts l {x} made (typed d e other trips f g) = ground (
    arith,
    terms.typed_value l.value d,
    terms.typed_language l.value d,
    terms.typed_datatype l.value d,
    ==_iff (ox.iri (ox.datatype x)) xsd_string,
  )

  term_from_ox-term_to_ox :
      (t : Term) {x : Engine.TermIn ox}
      → IsMadeTerm t
      → term_to_ox ox t ≡ ok x
      → term_from_ox ox x ≡ ok t
  unfolding term_to_ox term_from_ox
  term_from_ox-term_to_ox (Term.named n) {x} made h =
      let (y, e, f) = >>=-ok (named_to_ox ox n) _ h in ground (arith, named_from_ox-named_to_ox n e)
  term_from_ox-term_to_ox (Term.blank b) {x} made h =
      let (y, e, f) = >>=-ok (blank_to_ox ox b) _ h in ground (arith, blank_from_ox-blank_to_ox b e)
  term_from_ox-term_to_ox (Term.literal l) {x} made h =
      let (y, e, f) = >>=-ok (literal_to_ox ox l) _ h in
      ground (arith, literal_from_ox-Converts l made (literal_to_ox-Converts l e))

  -- what a converted quad consists of
  pub record QuadParts (q : Quad) (x : Engine.QuadIn ox) : Type 0 where
    pub subject : subject_to_ox ox q.subject ≡ ok x.subject
    pub predicate : named_to_ox ox q.predicate ≡ ok x.predicate
    pub object : term_to_ox ox q.object ≡ ok x.object
    pub graph : graph_to_ox ox q.graph ≡ ok x.graph_name

  pub quad_to_ox-QuadParts :
      (q : Quad) {x : Engine.QuadIn ox} → quad_to_ox ox q ≡ ok x → QuadParts q x
  unfolding quad_to_ox
  quad_to_ox-QuadParts q {x} h =
      let (s, es, h₁) = >>=-ok (subject_to_ox ox q.subject) _ h in
      let (p, ep, h₂) = >>=-ok (named_to_ox ox q.predicate) _ h₁ in
      let (o, eo, h₃) = >>=-ok (term_to_ox ox q.object) _ h₂ in
      let (g, eg, h₄) = >>=-ok (graph_to_ox ox q.graph) _ h₃ in ground arith

  -- Given the laws on the crate's terms, a quad whose literal the constructors made and which converts
  -- to Oxigraph's model converts back to itself.
  pub quad_from_ox-quad_to_ox :
      (q : Quad) {x : Engine.QuadIn ox}
      → IsMadeQuad q
      → quad_to_ox ox q ≡ ok x
      → quad_from_ox ox x ≡ ok q
  unfolding quad_from_ox
  quad_from_ox-quad_to_ox q {x} made h =
      let parts = quad_to_ox-QuadParts q h in
      ground (
        arith,
        subject_from_ox-subject_to_ox q.subject parts.subject,
        named_from_ox-named_to_ox q.predicate parts.predicate,
        term_from_ox-term_to_ox q.object made parts.object,
        graph_from_ox-graph_to_ox q.graph parts.graph,
      )

  -- Each conversion tells apart what it converts.
  pub named_to_ox-inj :
      (m n : NamedNode) {x : ox.Named} → named_to_ox ox m ≡ ok x → named_to_ox ox n ≡ ok x → m ≡ n
  named_to_ox-inj m n h k = cc (named_from_ox-named_to_ox m h, named_from_ox-named_to_ox n k)

  pub subject_to_ox-inj :
      (s t : NamedOrBlankNode) {x : Engine.SubjectIn ox}
      → subject_to_ox ox s ≡ ok x
      → subject_to_ox ox t ≡ ok x
      → s ≡ t
  subject_to_ox-inj s t h k =
      cc (subject_from_ox-subject_to_ox s h, subject_from_ox-subject_to_ox t k)

  pub term_to_ox-inj :
      (s t : Term) {x : Engine.TermIn ox}
      → IsMadeTerm s
      → IsMadeTerm t
      → term_to_ox ox s ≡ ok x
      → term_to_ox ox t ≡ ok x
      → s ≡ t
  term_to_ox-inj s t ms mt h k = cc (term_from_ox-term_to_ox s ms h, term_from_ox-term_to_ox t mt k)

  pub graph_to_ox-inj :
      (g h : NamedOrDefault) {x : Engine.GraphIn ox}
      → graph_to_ox ox g ≡ ok x
      → graph_to_ox ox h ≡ ok x
      → g ≡ h
  graph_to_ox-inj g h eg eh = cc (graph_from_ox-graph_to_ox g eg, graph_from_ox-graph_to_ox h eh)

  module _ {stored : ox.Literal → ox.Literal} (laws : StoredAs ox stored) where
    Converts-kept : (l : Literal) {x : ox.Literal} → Converts l x → stored x ≡ x
    Converts-kept l {x} (tagged tag e f) = rw f (laws.tagged l.value tag)
    Converts-kept l {x} (typed d e other trips f g) =
        rw g ((round_trips_iff ox terms stored laws l.value d).0 (rw f trips))

    -- What converts is kept as it is.
    pub term_to_ox-KeptTerm :
        (t : Term) {x : Engine.TermIn ox} → term_to_ox ox t ≡ ok x → KeptTerm ox stored x
    unfolding term_to_ox
    term_to_ox-KeptTerm (Term.named n) {x} h =
        let (y, e, f) = >>=-ok (named_to_ox ox n) _ h in ground arith
    term_to_ox-KeptTerm (Term.blank b) {x} h =
        let (y, e, f) = >>=-ok (blank_to_ox ox b) _ h in ground arith
    term_to_ox-KeptTerm (Term.literal l) {x} h =
        let (y, e, f) = >>=-ok (literal_to_ox ox l) _ h in
        ground (arith, Converts-kept l (literal_to_ox-Converts l e))

    pub quad_to_ox-Kept :
        (q : Quad) {x : Engine.QuadIn ox} → quad_to_ox ox q ≡ ok x → Kept ox stored x
    quad_to_ox-Kept q h = term_to_ox-KeptTerm q.object (quad_to_ox-QuadParts q h).object
