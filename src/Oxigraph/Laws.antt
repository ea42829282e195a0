-- ===== src/Oxigraph/Laws.antt =====
-- What the adapter of crates/semanticore-store-oxigraph relies on: the documented behaviour of the
-- crate `oxigraph`, over what a store holds and a transaction sees.
use Prim.Native.String.{◌++◌ as append}
use semanticore.Prelude.{
  ◌≡◌, ◌≢◌, ◌⊎◌, String, Bool, true, false, Option, none, some, List, [], ◌∷◌, Result, ok, err,
  collect,
}
use semanticore.Model.{rdf_lang_string}
use semanticore.Oxigraph.Engine.{OxTerm, OxPattern, OxQuad, Primitive, Engine}
use semanticore.Oxigraph.Engine
use semanticore.Oxigraph.Convert.{xsd}

-- the local name of the datatype whose values a primitive type has
abbrev pub primitive_name : Primitive → String
primitive_name Primitive.boolean = "boolean"
primitive_name Primitive.float = "float"
primitive_name Primitive.double = "double"
primitive_name Primitive.integer = "integer"
primitive_name Primitive.decimal = "decimal"
primitive_name Primitive.date_time = "dateTime"
primitive_name Primitive.time = "time"
primitive_name Primitive.date = "date"
primitive_name Primitive.g_year_month = "gYearMonth"
primitive_name Primitive.g_year = "gYear"
primitive_name Primitive.g_month_day = "gMonthDay"
primitive_name Primitive.g_day = "gDay"
primitive_name Primitive.g_month = "gMonth"
primitive_name Primitive.duration = "duration"
primitive_name Primitive.year_month_duration = "yearMonthDuration"
primitive_name Primitive.day_time_duration = "dayTimeDuration"

-- the derived XSD datatypes that are stored as a value of a primitive one
pub data Derived : Type 0 where
  byte short int long unsigned_byte unsigned_short unsigned_int unsigned_long : Derived
  positive_integer negative_integer non_positive_integer non_negative_integer : Derived
  date_time_stamp : Derived

abbrev pub derived_name : Derived → String
derived_name Derived.byte = "byte"
derived_name Derived.short = "short"
derived_name Derived.int = "int"
derived_name Derived.long = "long"
derived_name Derived.unsigned_byte = "unsignedByte"
derived_name Derived.unsigned_short = "unsignedShort"
derived_name Derived.unsigned_int = "unsignedInt"
derived_name Derived.unsigned_long = "unsignedLong"
derived_name Derived.positive_integer = "positiveInteger"
derived_name Derived.negative_integer = "negativeInteger"
derived_name Derived.non_positive_integer = "nonPositiveInteger"
derived_name Derived.non_negative_integer = "nonNegativeInteger"
derived_name Derived.date_time_stamp = "dateTimeStamp"

abbrev pub base : Derived → Primitive
base Derived.date_time_stamp = Primitive.date_time
base _ = Primitive.integer

-- membership in a list
abbrev pub In : {A : Type 0} → A → List A → Type 0
In a [] = ⊥
In a (x ∷ xs) = (a ≡ x) ⊎ In a xs

-- an optional position of a pattern
abbrev pub At : {A : Type 0} → Option A → A → Type 0
At none a = Unit {0}
At (some x) a = a ≡ x

module _ (ox : Engine) where
  -- The constructors keep their text, and only `new_named`, `new_blank` and `new_tagged` check it.
  pub record TermLaws : Type 0 where
    pub iri_new : (s : String) {n : ox.Named} → ox.new_named s ≡ some n → ox.iri n ≡ s
    pub label_new : (s : String) {b : ox.Blank} → ox.new_blank s ≡ some b → ox.label b ≡ s
    pub typed_value : (v : String) (d : ox.Named) → ox.value (ox.new_typed v d) ≡ v
    pub typed_language : (v : String) (d : ox.Named) → ox.language (ox.new_typed v d) ≡ none
    pub typed_datatype :
        (v : String) (d : ox.Named) → ox.iri (ox.datatype (ox.new_typed v d)) ≡ ox.iri d
    pub tagged_value : (v tag : String) → ox.value (ox.new_tagged_unchecked v tag) ≡ v
    pub tagged_language : (v tag : String) → ox.language (ox.new_tagged_unchecked v tag) ≡ some tag
    pub tagged_datatype :
        (v tag : String) → ox.iri (ox.datatype (ox.new_tagged_unchecked v tag)) ≡ rdf_lang_string

  -- How a stored literal reads back: a value of a primitive XSD datatype that parses as the `Display`
  -- of what was parsed, one of a derived datatype under the primitive datatype, and everything else
  -- as it was.
  pub record StoredAs (stored : ox.Literal → ox.Literal) : Type 0 where
    pub primitive_parsed :
        (t : Primitive) (v c : String) (d : ox.Named)
        → ox.iri d ≡ append xsd (primitive_name t)
        → ox.reprint t v ≡ some c
        → stored (ox.new_typed v d) ≡ ox.new_typed c d
    pub primitive_unparsed :
        (t : Primitive) (v : String) (d : ox.Named)
        → ox.iri d ≡ append xsd (primitive_name t)
        → ox.reprint t v ≡ none
        → stored (ox.new_typed v d) ≡ ox.new_typed v d
    pub derived_parsed :
        (k : Derived) (v c : String) (d : ox.Named)
        → ox.iri d ≡ append xsd (derived_name k)
        → ox.reprint (base k) v ≡ some c
        → ox.iri (ox.datatype (stored (ox.new_typed v d))) ≡ append xsd (primitive_name (base k))
    pub derived_unparsed :
        (k : Derived) (v : String) (d : ox.Named)
        → ox.iri d ≡ append xsd (derived_name k)
        → ox.reprint (base k) v ≡ none
        → stored (ox.new_typed v d) ≡ ox.new_typed v d
    pub other_datatype :
        (v : String) (d : ox.Named)
        → ((t : Primitive) → ox.iri d ≢ append xsd (primitive_name t))
        → ((k : Derived) → ox.iri d ≢ append xsd (derived_name k))
        → stored (ox.new_typed v d) ≡ ox.new_typed v d
    pub tagged :
        (v tag : String) → stored (ox.new_tagged_unchecked v tag) ≡ ox.new_tagged_unchecked v tag

  -- the quads that a store holds, that a transaction sees, and which transactions were started on the
  -- store as it stands
  pub record OxView : Type 0 where
    pub holds : ox.Store → Engine.QuadIn ox → Bool
    pub sees : ox.Transaction → Engine.QuadIn ox → Bool
    pub current : ox.Store → ox.Transaction → Bool

  -- The quads that a pattern selects.
  abbrev pub Fits : Engine.PatternIn ox → Engine.QuadIn ox → Type 0
  Fits p q =
      At p.subject q.subject
      × At p.predicate q.predicate
      × At p.object q.object
      × At p.graph_name q.graph_name

module _ (ox : Engine) (stored : ox.Literal → ox.Literal) where
  -- a term that reads back identical
  abbrev pub KeptTerm : Engine.TermIn ox → Type 0
  KeptTerm (OxTerm.literal l) = stored l ≡ l
  KeptTerm _ = Unit {0}

  abbrev pub Kept : Engine.QuadIn ox → Type 0
  Kept q = KeptTerm q.object

  abbrev pub KeptAt : Option (Engine.TermIn ox) → Type 0
  KeptAt none = Unit {0}
  KeptAt (some t) = KeptTerm t

  -- Reading gives the quads that are seen, each as it is kept.
  pub record ReadLaws {S : Type 0} (contains : S → Engine.QuadIn ox → Result ox.Error Bool)
      (quads : S → Engine.PatternIn ox → List (Result ox.Error (Engine.QuadIn ox)))
      (sees : S → Engine.QuadIn ox → Bool) : Type 0 where
    pub contains_sees :
        (s : S) (q : Engine.QuadIn ox) {b : Bool} → contains s q ≡ ok b → b ≡ sees s q
    pub quads_seen :
        (s : S) (p : Engine.PatternIn ox) {qs : List (Engine.QuadIn ox)}
        → KeptAt p.object
        → collect (quads s p) ≡ ok qs
        → (q : Engine.QuadIn ox) → In q qs
        → Kept q × (sees s q ≡ true) × Fits ox p q
    pub seen_quads :
        (s : S) (p : Engine.PatternIn ox) {qs : List (Engine.QuadIn ox)}
        → KeptAt p.object
        → collect (quads s p) ≡ ok qs
        → (q : Engine.QuadIn ox) → Kept q
        → sees s q ≡ true
        → Fits ox p q
        → In q qs

  -- A transaction starts from what is committed, sees its own writes, and commits as a whole.
  pub record StoreLaws (v : OxView ox) : Type 0 where
    pub store_reads : ReadLaws ox.store_contains ox.store_quads v.holds
    pub reads : ReadLaws ox.contains ox.quads v.sees
    pub starts :
        (s : ox.Store) {tx : ox.Transaction}
        → ox.start_transaction s ≡ ok tx
        → (v.current s tx ≡ true) × ((q : Engine.QuadIn ox) → v.sees tx q ≡ v.holds s q)
    pub insert_current :
        (s : ox.Store) (tx : ox.Transaction) (p : Engine.QuadIn ox)
        → v.current s (ox.insert tx p) ≡ v.current s tx
    pub insert_self :
        (tx : ox.Transaction) (p : Engine.QuadIn ox) → Kept p → v.sees (ox.insert tx p) p ≡ true
    pub insert_keeps :
        (tx : ox.Transaction) (p q : Engine.QuadIn ox)
        → v.sees tx q ≡ true
        → v.sees (ox.insert tx p) q ≡ true
    pub insert_only :
        (tx : ox.Transaction) (p q : Engine.QuadIn ox)
        → Kept p
        → Kept q
        → v.sees (ox.insert tx p) q ≡ true
        → (q ≡ p) ⊎ (v.sees tx q ≡ true)
    pub remove_current :
        (s : ox.Store) (tx : ox.Transaction) (p : Engine.QuadIn ox)
        → v.current s (ox.remove tx p) ≡ v.current s tx
    pub remove_self :
        (tx : ox.Transaction) (p : Engine.QuadIn ox) → v.sees (ox.remove tx p) p ≡ false
    pub remove_keeps :
        (tx : ox.Transaction) (p q : Engine.QuadIn ox)
        → Kept p
        → Kept q
        → q ≢ p
        → v.sees tx q ≡ true
        → v.sees (ox.remove tx p) q ≡ true
    pub remove_only :
        (tx : ox.Transaction) (p q : Engine.QuadIn ox)
        → v.sees (ox.remove tx p) q ≡ true
        → v.sees tx q ≡ true
    pub commit_ok :
        (s s' : ox.Store) (tx : ox.Transaction)
        → v.current s tx ≡ true
        → ox.commit tx s ≡ (ok tt, s')
        → (q : Engine.QuadIn ox) → v.holds s' q ≡ v.sees tx q
    pub commit_err :
        (s s' : ox.Store) (tx : ox.Transaction) {e : ox.Error}
        → ox.commit tx s ≡ (err e, s')
        → (q : Engine.QuadIn ox) → v.holds s' q ≡ v.holds s q
