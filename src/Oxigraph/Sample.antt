-- ===== src/Oxigraph/Sample.antt =====
-- An engine in memory that behaves as crates/semanticore-store-oxigraph expects of Oxigraph: it reads
-- an integer back in its canonical form.
pub mod Literals
pub mod Stores
use Prim.Native.String.{◌++◌ as append}
use semanticore.Prelude.{
  ℕ, suc, String, Bool, true, false, not, ◌&&◌, Option, none, some, List, [], ◌∷◌, map, Result, ok,
  err, Eq, ◌==◌, string_eq, nat_eq, String_discrete, if◌then◌else◌, strip_prefix, is_some, filter,
  mem, length,
}
use semanticore.Model.{rdf_lang_string}
use semanticore.Storage.{none_or}
use semanticore.Oxigraph.Engine.{
  OxSubject, OxTerm, OxGraphName, OxQuad, OxPattern, Primitive, Engine,
}
use semanticore.Oxigraph.Convert.{xsd, Handling, primitive, derived, handling_of}
use semanticore.Oxigraph.Laws.{primitive_name}

pub record Lit : Type 0 where
  pub text : String
  pub kind : String
  pub tag : Option String

abbrev pub SubjectOf : Type 0
SubjectOf = OxSubject String String

abbrev pub TermOf : Type 0
TermOf = OxTerm String String Lit

abbrev pub GraphOf : Type 0
GraphOf = OxGraphName String String

abbrev pub QuadOf : Type 0
QuadOf = OxQuad String String Lit

abbrev pub PatternOf : Type 0
PatternOf = OxPattern String String Lit

unfoldable pub SubjectOf-discrete : Discrete SubjectOf
unfolding String_discrete
SubjectOf-discrete = hlevel String_discrete

unfoldable pub TermOf-discrete : Discrete TermOf
unfolding String_discrete
TermOf-discrete = hlevel String_discrete

unfoldable pub GraphOf-discrete : Discrete GraphOf
unfolding String_discrete
GraphOf-discrete = hlevel String_discrete

unfoldable pub QuadOf-discrete : Discrete QuadOf
unfolding String_discrete
QuadOf-discrete = hlevel String_discrete

instance abbrev pub subject_of_eq : Eq SubjectOf
subject_of_eq = record { dec = SubjectOf-discrete }

instance abbrev pub term_of_eq : Eq TermOf
term_of_eq = record { dec = TermOf-discrete }

instance abbrev pub graph_of_eq : Eq GraphOf
graph_of_eq = record { dec = GraphOf-discrete }

instance abbrev pub quad_of_eq : Eq QuadOf
quad_of_eq = record { dec = QuadOf-discrete }

-- Only "1" and "01" are read as integers, and both print as "1".
abbrev pub reprint : Primitive → String → Option String
reprint Primitive.integer v = if v == "1" then some "1" else if v == "01" then some "1" else none
reprint _ v = none

abbrev pub read_as : Option Handling → Lit → Lit
read_as none l = l
read_as (some (primitive t)) l = elim (reprint t l.text) [
  | none ↦ l
  | some c ↦ record l { text = c }
]
read_as (some (derived t)) l = elim (reprint t l.text) [
  | none ↦ l
  | some c ↦ record l { text = c; kind = append xsd (primitive_name t) }
]

unfoldable pub stored : Lit → Lit
stored l = elim l.tag [ some _ ↦ l | none ↦ read_as (handling_of l.kind) l ]

abbrev pub stored_term : TermOf → TermOf
stored_term (OxTerm.literal l) = OxTerm.literal (stored l)
stored_term t = t

-- a quad as it reads back
unfoldable pub as_stored : QuadOf → QuadOf
as_stored q = record q { object = stored_term q.object }

pub record Quads : Type 0 where
  pub version : ℕ
  pub quads : List QuadOf

abbrev pub fits : PatternOf → QuadOf → Bool
fits p q =
    none_or q.subject p.subject
    && (none_or q.predicate p.predicate
        && (none_or q.object p.object && none_or q.graph_name p.graph_name))

unfoldable pub seen_in : Quads → QuadOf → Bool
seen_in s q = mem (as_stored q) (map as_stored s.quads)

unfoldable pub found_in : Quads → PatternOf → List (Result String QuadOf)
found_in s p = map ok (filter (fits p) (map as_stored s.quads))

unfoldable pub with_quad : Quads → QuadOf → Quads
with_quad s q = record s { quads = q ∷ s.quads }

unfoldable pub without_quad : Quads → QuadOf → Quads
without_quad s q = record s { quads = filter (λ x. not (as_stored x == as_stored q)) s.quads }

unfoldable pub commit_to : Quads → Quads → Result String (Unit {0}) × Quads
commit_to tx s =
    if s.version == tx.version
    then (ok tt, record { version = suc s.version; quads = tx.quads })
    else (err "the store has changed", s)

unfoldable pub graphs_of : List QuadOf → List (Result String SubjectOf)
graphs_of [] = []
graphs_of (q ∷ qs) = elim q.graph_name [
  | OxGraphName.named_node g ↦ ok (OxSubject.named_node g) ∷ graphs_of qs
  | OxGraphName.blank_node b ↦ ok (OxSubject.blank_node b) ∷ graphs_of qs
  | OxGraphName.default_graph ↦ graphs_of qs
]

abbrev pub sample : Engine
sample = record {
  Named = String;
  Blank = String;
  Literal = Lit;
  new_named = λ s. if is_some (strip_prefix "http" s) then some s else none;
  iri = λ n. n;
  new_blank = λ s. if s == "" then none else some s;
  label = λ b. b;
  new_tagged = λ v tag.
      if tag == ""
      then none
      else some (record { text = v; kind = rdf_lang_string; tag = some tag });
  new_tagged_unchecked = λ v tag. record { text = v; kind = rdf_lang_string; tag = some tag };
  new_typed = λ v d. record { text = v; kind = d; tag = none };
  value = λ l. l.text;
  language = λ l. l.tag;
  datatype = λ l. l.kind;
  display_literal = λ l. l.text;
  reprint = reprint;
  Store = Quads;
  Transaction = Quads;
  Error = String;
  io_error = λ e. none;
  message = λ e. e;
  start_transaction = ok;
  store_contains = λ s q. ok (seen_in s q);
  store_quads = found_in;
  len = λ s. ok (length s.quads);
  store_graphs = λ s. graphs_of s.quads;
  contains = λ s q. ok (seen_in s q);
  quads = found_in;
  insert = with_quad;
  remove = without_quad;
  commit = commit_to;
}
