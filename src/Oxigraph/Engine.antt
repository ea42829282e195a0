-- ===== src/Oxigraph/Engine.antt =====
-- What crates/semanticore-store-oxigraph uses of the crates `oxigraph` and `oxsdatatypes`, which are
-- not part of the repository: the public shapes of `oxigraph::model` and the operations of its store.
use semanticore.Prelude.{ℕ, String, Bool, Option, List, Result}

-- the variants that the adapter matches on, over the terms that a store holds
pub data OxSubject (Named Blank : Type 0) : Type 0 where
  named_node : Named → OxSubject Named Blank
  blank_node : Blank → OxSubject Named Blank

-- `other` is any further variant, such as the triple terms of RDF 1.2, by its `Display`.
pub data OxTerm (Named Blank Literal : Type 0) : Type 0 where
  named_node : Named → OxTerm Named Blank Literal
  blank_node : Blank → OxTerm Named Blank Literal
  literal : Literal → OxTerm Named Blank Literal
  other : String → OxTerm Named Blank Literal

pub data OxGraphName (Named Blank : Type 0) : Type 0 where
  named_node : Named → OxGraphName Named Blank
  blank_node : Blank → OxGraphName Named Blank
  default_graph : OxGraphName Named Blank

pub record OxQuad (Named Blank Literal : Type 0) : Type 0 where
  pub subject : OxSubject Named Blank
  pub predicate : Named
  pub object : OxTerm Named Blank Literal
  pub graph_name : OxGraphName Named Blank

pub record OxPattern (Named Blank Literal : Type 0) : Type 0 where
  pub subject : Option (OxSubject Named Blank)
  pub predicate : Option Named
  pub object : Option (OxTerm Named Blank Literal)
  pub graph_name : Option (OxGraphName Named Blank)

-- the types of `oxsdatatypes` that the adapter parses a value as
pub data Primitive : Type 0 where
  boolean float double integer decimal date_time time date : Primitive
  g_year_month g_year g_month_day g_day g_month : Primitive
  duration year_month_duration day_time_duration : Primitive

pub record Engine : Type 1 where
  -- terms: the checked constructors, those without a check, and the accessors
  pub Named : Type 0
  pub Blank : Type 0
  pub Literal : Type 0
  pub new_named : String → Option Named
  pub iri : Named → String
  pub new_blank : String → Option Blank
  pub label : Blank → String
  pub new_tagged : String → String → Option Literal
  pub new_tagged_unchecked : String → String → Literal
  pub new_typed : String → Named → Literal
  pub value : Literal → String
  pub language : Literal → Option String
  pub datatype : Literal → Named
  pub display_literal : Literal → String
  -- `value.parse::<T>()`, as the `Display` of what it gives
  pub reprint : Primitive → String → Option String
  -- a store, a transaction on it and the errors of both
  pub Store : Type 0
  pub Transaction : Type 0
  pub Error : Type 0
  pub io_error : Error → Option String
  pub message : Error → String
  pub start_transaction : Store → Result Error Transaction
  pub store_contains : Store → OxQuad Named Blank Literal → Result Error Bool
  pub store_quads :
      Store → OxPattern Named Blank Literal → List (Result Error (OxQuad Named Blank Literal))
  pub len : Store → Result Error ℕ
  pub store_graphs : Store → List (Result Error (OxSubject Named Blank))
  pub contains : Transaction → OxQuad Named Blank Literal → Result Error Bool
  pub quads :
      Transaction → OxPattern Named Blank Literal → List (Result Error (OxQuad Named Blank Literal))
  pub insert : Transaction → OxQuad Named Blank Literal → Transaction
  pub remove : Transaction → OxQuad Named Blank Literal → Transaction
  pub commit : Transaction → Store → Result Error (Unit {0}) × Store

module _ (ox : Engine) where
  abbrev pub QuadIn : Type 0
  QuadIn = OxQuad ox.Named ox.Blank ox.Literal

  abbrev pub PatternIn : Type 0
  PatternIn = OxPattern ox.Named ox.Blank ox.Literal

  abbrev pub SubjectIn : Type 0
  SubjectIn = OxSubject ox.Named ox.Blank

  abbrev pub TermIn : Type 0
  TermIn = OxTerm ox.Named ox.Blank ox.Literal

  abbrev pub GraphIn : Type 0
  GraphIn = OxGraphName ox.Named ox.Blank
