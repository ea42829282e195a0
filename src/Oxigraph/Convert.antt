-- ===== src/Oxigraph/Convert.antt =====
-- crates/semanticore-store-oxigraph/src/convert.rs: terms between the core model and Oxigraph's.
use semanticore.Prelude.{
  String, Bool, true, false, ◌||◌, Option, none, some, List, [], ◌∷◌, Result, ok, err, ◌>>=◌, ◌>>◌,
  ◌==◌, string_eq, if◌then◌else◌, strip_prefix,
}
use semanticore.Model.{
  NamedNode, BlankNode, Literal, NamedOrBlankNode, NamedOrDefault, Term, Quad, named_node,
  new_simple, new_typed, new_lang, xsd_string, rdf_lang_string, format,
}
use semanticore.Storage.{StorageError}
use semanticore.Oxigraph.Engine.{
  OxSubject, OxTerm, OxGraphName, OxQuad, OxPattern, Primitive, Engine,
}
use semanticore.Oxigraph.Engine

abbrev pub xsd : String
xsd = "http://www.w3.org/2001/XMLSchema#"

pub data Unrepresentable : Type 0 where
  iri : String → Unrepresentable
  blank_node : String → Unrepresentable
  language_tag : String → Unrepresentable
  lang_string_without_tag : Unrepresentable
  non_canonical_literal : String → String → Unrepresentable
  blank_graph_name : String → Unrepresentable
  rdf12_term : String → Unrepresentable

unfoldable pub display : Unrepresentable → String
display (Unrepresentable.iri s) = format ("invalid IRI <" ∷ s ∷ ">" ∷ [])
display (Unrepresentable.blank_node id) = format ("invalid blank node label _:" ∷ id ∷ [])
display (Unrepresentable.language_tag tag) = format ("invalid language tag @" ∷ tag ∷ [])
display Unrepresentable.lang_string_without_tag = "rdf:langString literal without a language tag"
display (Unrepresentable.non_canonical_literal value datatype) = format (
    "literal \"" ∷ value ∷ "\"^^<" ∷ datatype
    ∷ "> would be stored in canonical form; insert the canonical lexical form with the primitive datatype instead"
    ∷ [])
display (Unrepresentable.blank_graph_name id) =
    format ("graph named by blank node _:" ∷ id ∷ " has no core equivalent" ∷ [])
display (Unrepresentable.rdf12_term term) =
    format ("RDF 1.2 term " ∷ term ∷ " has no core equivalent" ∷ [])

-- `From<Unrepresentable> for StorageError`
abbrev pub storage_error : Unrepresentable → StorageError
storage_error u = StorageError.serialization (display u)

-- how a value of an XSD datatype is stored
pub data Handling : Type 0 where
  primitive : Primitive → Handling
  derived : Primitive → Handling

-- the arms of the `match` in `round_trips`, one after the other
abbrev pub handlings : List (String × Handling)
handlings =
    ("boolean", primitive Primitive.boolean)
    ∷ ("float", primitive Primitive.float)
    ∷ ("double", primitive Primitive.double)
    ∷ ("integer", primitive Primitive.integer)
    ∷ ("decimal", primitive Primitive.decimal)
    ∷ ("dateTime", primitive Primitive.date_time)
    ∷ ("time", primitive Primitive.time)
    ∷ ("date", primitive Primitive.date)
    ∷ ("gYearMonth", primitive Primitive.g_year_month)
    ∷ ("gYear", primitive Primitive.g_year)
    ∷ ("gMonthDay", primitive Primitive.g_month_day)
    ∷ ("gDay", primitive Primitive.g_day)
    ∷ ("gMonth", primitive Primitive.g_month)
    ∷ ("duration", primitive Primitive.duration)
    ∷ ("yearMonthDuration", primitive Primitive.year_month_duration)
    ∷ ("dayTimeDuration", primitive Primitive.day_time_duration)
    ∷ ("byte", derived Primitive.integer)
    ∷ ("short", derived Primitive.integer)
    ∷ ("int", derived Primitive.integer)
    ∷ ("long", derived Primitive.integer)
    ∷ ("unsignedByte", derived Primitive.integer)
    ∷ ("unsignedShort", derived Primitive.integer)
    ∷ ("unsignedInt", derived Primitive.integer)
    ∷ ("unsignedLong", derived Primitive.integer)
    ∷ ("positiveInteger", derived Primitive.integer)
    ∷ ("negativeInteger", derived Primitive.integer)
    ∷ ("nonPositiveInteger", derived Primitive.integer)
    ∷ ("nonNegativeInteger", derived Primitive.integer)
    ∷ ("dateTimeStamp", derived Primitive.date_time)
    ∷ []

unfoldable pub arm : String → List (String × Handling) → Option Handling
arm local [] = none
arm local ((name, h) ∷ rest) = if name == local then some h else arm local rest

abbrev pub arm_of : Option String → Option Handling
arm_of none = none
arm_of (some local) = arm local handlings

-- The arm for a datatype; one outside the XSD namespace is as one that no arm names.
unfoldable pub handling_of : String → Option Handling
handling_of datatype = arm_of (strip_prefix xsd datatype)

module _ (ox : Engine) where
  -- `map_err`
  abbrev pub core_error : ox.Error → StorageError
  core_error e = elim (ox.io_error e) [
    | some io ↦ StorageError.io io
    | none ↦ StorageError.backend (ox.message e)
  ]

  -- `value.parse::<T>().is_ok_and(|v| v.to_string() == value)`
  abbrev pub canonical : Primitive → String → Bool
  canonical t value = elim (ox.reprint t value) [ some text ↦ text == value | none ↦ false ]

  -- `value.parse::<T>().is_err()`
  abbrev pub unparsable : Primitive → String → Bool
  unparsable t value = elim (ox.reprint t value) [ some _ ↦ false | none ↦ true ]

  -- the body of the arm
  abbrev pub accepts : Option Handling → String → Bool
  accepts none value = true
  accepts (some (primitive t)) value = canonical t value || unparsable t value
  accepts (some (derived t)) value = unparsable t value

  unfoldable pub round_trips : String → String → Bool
  round_trips value datatype = accepts (handling_of datatype) value

  -- a result of a constructor that checks, with the error that reports its argument
  abbrev pub checked {ℓ} : {A : Type ℓ} → Unrepresentable → Option A → Result Unrepresentable A
  checked u none = err u
  checked u (some a) = ok a

  unfoldable pub named_to_ox : NamedNode → Result Unrepresentable ox.Named
  named_to_ox n = checked (Unrepresentable.iri n.iri) (ox.new_named n.iri)

  unfoldable pub blank_to_ox : BlankNode → Result Unrepresentable ox.Blank
  blank_to_ox b = checked (Unrepresentable.blank_node b.id) (ox.new_blank b.id)

  unfoldable pub typed_to_ox : String → NamedNode → Result Unrepresentable ox.Literal
  typed_to_ox value datatype = do named ← named_to_ox datatype; ok (ox.new_typed value named)

  -- The tag is checked, and kept as it is written.
  unfoldable pub tagged_to_ox : String → String → Result Unrepresentable ox.Literal
  tagged_to_ox value tag = do
    checked (Unrepresentable.language_tag tag) (ox.new_tagged value tag)
    ok (ox.new_tagged_unchecked value tag)

  unfoldable pub literal_to_ox : Literal → Result Unrepresentable ox.Literal
  literal_to_ox l = elim l.language [
    | some tag ↦ tagged_to_ox l.value tag
    | none ↦
        if l.datatype.iri == rdf_lang_string
        then err Unrepresentable.lang_string_without_tag
        else if round_trips l.value l.datatype.iri
        then typed_to_ox l.value l.datatype
        else err (Unrepresentable.non_canonical_literal l.value l.datatype.iri)
  ]

  unfoldable pub subject_to_ox : NamedOrBlankNode → Result Unrepresentable (Engine.SubjectIn ox)
  subject_to_ox (NamedOrBlankNode.named n) = do x ← named_to_ox n; ok (OxSubject.named_node x)
  subject_to_ox (NamedOrBlankNode.blank b) = do x ← blank_to_ox b; ok (OxSubject.blank_node x)

  unfoldable pub term_to_ox : Term → Result Unrepresentable (Engine.TermIn ox)
  term_to_ox (Term.named n) = do x ← named_to_ox n; ok (OxTerm.named_node x)
  term_to_ox (Term.blank b) = do x ← blank_to_ox b; ok (OxTerm.blank_node x)
  term_to_ox (Term.literal l) = do x ← literal_to_ox l; ok (OxTerm.literal x)

  unfoldable pub graph_to_ox : NamedOrDefault → Result Unrepresentable (Engine.GraphIn ox)
  graph_to_ox (NamedOrDefault.named n) = do x ← named_to_ox n; ok (OxGraphName.named_node x)
  graph_to_ox NamedOrDefault.default = ok OxGraphName.default_graph

  unfoldable pub quad_to_ox : Quad → Result Unrepresentable (Engine.QuadIn ox)
  quad_to_ox q = do
    s ← subject_to_ox q.subject
    p ← named_to_ox q.predicate
    o ← term_to_ox q.object
    g ← graph_to_ox q.graph
    ok (record { subject = s; predicate = p; object = o; graph_name = g })

  abbrev pub named_from_ox : ox.Named → NamedNode
  named_from_ox n = named_node (ox.iri n)

  abbrev pub blank_from_ox : ox.Blank → BlankNode
  blank_from_ox b = record { id = ox.label b }

  unfoldable pub subject_from_ox : Engine.SubjectIn ox → NamedOrBlankNode
  subject_from_ox (OxSubject.named_node n) = NamedOrBlankNode.named (named_from_ox n)
  subject_from_ox (OxSubject.blank_node b) = NamedOrBlankNode.blank (blank_from_ox b)

  unfoldable pub literal_from_ox : ox.Literal → Result StorageError Literal
  literal_from_ox l = elim (ox.language l) [
    | some tag ↦
        if ox.iri (ox.datatype l) == rdf_lang_string
        then ok (new_lang (ox.value l) tag)
        else err (storage_error (Unrepresentable.rdf12_term (ox.display_literal l)))
    | none ↦
        if ox.iri (ox.datatype l) == xsd_string
        then ok (new_simple (ox.value l))
        else ok (new_typed (ox.value l) (named_node (ox.iri (ox.datatype l))))
  ]

  unfoldable pub term_from_ox : Engine.TermIn ox → Result StorageError Term
  term_from_ox (OxTerm.named_node n) = ok (Term.named (named_from_ox n))
  term_from_ox (OxTerm.blank_node b) = ok (Term.blank (blank_from_ox b))
  term_from_ox (OxTerm.literal l) = do x ← literal_from_ox l; ok (Term.literal x)
  term_from_ox (OxTerm.other text) = err (storage_error (Unrepresentable.rdf12_term text))

  unfoldable pub graph_from_ox : Engine.GraphIn ox → Result StorageError NamedOrDefault
  graph_from_ox (OxGraphName.named_node n) = ok (NamedOrDefault.named (named_from_ox n))
  graph_from_ox OxGraphName.default_graph = ok NamedOrDefault.default
  graph_from_ox (OxGraphName.blank_node b) =
      err (storage_error (Unrepresentable.blank_graph_name (ox.label b)))

  unfoldable pub quad_from_ox : Engine.QuadIn ox → Result StorageError Quad
  quad_from_ox q = do
    o ← term_from_ox q.object
    g ← graph_from_ox q.graph_name
    ok (record {
      subject = subject_from_ox q.subject;
      predicate = named_from_ox q.predicate;
      object = o;
      graph = g;
    })
