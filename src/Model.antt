-- ===== src/Model.antt =====
-- crates/semanticore-core/src/model.rs: RDF terms and quads. Terms are kept verbatim and compared
-- by their text. `to_string` is the `Display` of each type.
use Prim.Native.String.{◌++◌ as append}
use semanticore.Prelude.{String, Option, none, some, List, [], ◌∷◌, Eq, String_discrete}

-- `format!` of the parts
abbrev pub format : List String → String
format [] = ""
format (s ∷ ss) = append s (format ss)

abbrev pub xsd_string : String
xsd_string = "http://www.w3.org/2001/XMLSchema#string"

abbrev pub rdf_lang_string : String
rdf_lang_string = "http://www.w3.org/1999/02/22-rdf-syntax-ns#langString"

pub record NamedNode : Type 0 where
  pub iri : String

pub record BlankNode : Type 0 where
  pub id : String

pub record Literal : Type 0 where
  pub value : String
  pub datatype : NamedNode
  pub language : Option String

pub data NamedOrBlankNode : Type 0 where
  named : NamedNode → NamedOrBlankNode
  blank : BlankNode → NamedOrBlankNode

pub data Term : Type 0 where
  named : NamedNode → Term
  blank : BlankNode → Term
  literal : Literal → Term

pub data NamedOrDefault : Type 0 where
  named : NamedNode → NamedOrDefault
  default : NamedOrDefault

pub record Quad : Type 0 where
  pub subject : NamedOrBlankNode
  pub predicate : NamedNode
  pub object : Term
  pub graph : NamedOrDefault

abbrev pub named_node : String → NamedNode
named_node iri = record { iri = iri }

abbrev pub new_simple : String → Literal
new_simple value = record { value = value; datatype = named_node xsd_string; language = none }

abbrev pub new_typed : String → NamedNode → Literal
new_typed value datatype = record { value = value; datatype = datatype; language = none }

abbrev pub new_lang : String → String → Literal
new_lang value language = record {
  value = value;
  datatype = named_node rdf_lang_string;
  language = some language;
}

-- a quad in the default graph
abbrev pub triple : NamedOrBlankNode → NamedNode → Term → Quad
triple subject predicate object = record {
  subject = subject;
  predicate = predicate;
  object = object;
  graph = NamedOrDefault.default;
}

-- `From<NamedOrBlankNode> for Term`
abbrev pub term_of_node : NamedOrBlankNode → Term
term_of_node (NamedOrBlankNode.named n) = Term.named n
term_of_node (NamedOrBlankNode.blank b) = Term.blank b

abbrev pub display_named : NamedNode → String
display_named n = format ("<" ∷ n.iri ∷ ">" ∷ [])

abbrev pub display_blank : BlankNode → String
display_blank b = format ("_:" ∷ b.id ∷ [])

abbrev pub display_literal : Literal → String
display_literal l = elim l.language [
  | some lang ↦ format ("\"" ∷ l.value ∷ "\"@" ∷ lang ∷ [])
  | none ↦ format ("\"" ∷ l.value ∷ "\"^^" ∷ display_named l.datatype ∷ [])
]

abbrev pub display_node : NamedOrBlankNode → String
display_node (NamedOrBlankNode.named n) = display_named n
display_node (NamedOrBlankNode.blank b) = display_blank b

abbrev pub display_term : Term → String
display_term (Term.named n) = display_named n
display_term (Term.blank b) = display_blank b
display_term (Term.literal l) = display_literal l

unfoldable pub NamedNode-discrete : Discrete NamedNode
unfolding String_discrete
NamedNode-discrete = hlevel String_discrete

unfoldable pub NamedOrBlankNode-discrete : Discrete NamedOrBlankNode
unfolding String_discrete
NamedOrBlankNode-discrete = hlevel String_discrete

unfoldable pub Term-discrete : Discrete Term
unfolding String_discrete
Term-discrete = hlevel String_discrete

unfoldable pub NamedOrDefault-discrete : Discrete NamedOrDefault
unfolding String_discrete
NamedOrDefault-discrete = hlevel String_discrete

unfoldable pub Quad-discrete : Discrete Quad
unfolding String_discrete
Quad-discrete = hlevel String_discrete

instance abbrev pub named_node_eq : Eq NamedNode
named_node_eq = record { dec = NamedNode-discrete }

instance abbrev pub node_eq : Eq NamedOrBlankNode
node_eq = record { dec = NamedOrBlankNode-discrete }

instance abbrev pub term_eq : Eq Term
term_eq = record { dec = Term-discrete }

instance abbrev pub graph_eq : Eq NamedOrDefault
graph_eq = record { dec = NamedOrDefault-discrete }

instance abbrev pub quad_eq : Eq Quad
quad_eq = record { dec = Quad-discrete }
