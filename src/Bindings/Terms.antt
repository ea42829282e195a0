-- ===== src/Bindings/Terms.antt =====
-- crates/semanticore-context-py/src/terms.rs: RDF terms and triples as Python objects.
use Prim.Native.String.{◌++◌ as append}
use semanticore.Context.Decimal.{show}
use semanticore.Prelude.{
  ℕ, suc, String, Option, none, some, Result, ok, err, ◌>>=◌, ◌≡◌, refl, nat_eq, ap, sym, ◌∙◌, ◌↔◌,
  arith, inl, inr, Result-cases,
}
use semanticore.Model.{
  NamedNode, BlankNode, Literal, NamedOrBlankNode, NamedOrDefault, Term, Quad, named_node,
  new_simple, new_typed, new_lang, triple,
}

-- The objects that the conversions tell apart. A `str` with a lone surrogate has no UTF-8 text; any other
-- object is known by the name of its type.
mutual
  pub data PyObject : Type 0 where
    str : String → PyObject
    surrogate_str : PyObject
    blank_node : BlankNode → PyObject
    literal : Literal → PyObject
    tuple : PyObjects → PyObject
    other : String → PyObject

  pub data PyObjects : Type 0 where
    empty : PyObjects
    and : PyObject → PyObjects → PyObjects

pub data ConversionError : Type 0 where
  type_error : String → ConversionError
  value_error : String → ConversionError
  unicode_error : ConversionError

unfoldable pub size : PyObjects → ℕ
size PyObjects.empty = 0
size (PyObjects.and _ rest) = suc (size rest)

abbrev type_name : PyObject → String
type_name (PyObject.str _) = "str"
type_name PyObject.surrogate_str = "str"
type_name (PyObject.blank_node _) = "BlankNode"
type_name (PyObject.literal _) = "Literal"
type_name (PyObject.tuple _) = "tuple"
type_name (PyObject.other name) = name

-- a tuple of three
abbrev three : PyObject → PyObject → PyObject → PyObject
three a b c = PyObject.tuple (PyObjects.and a (PyObjects.and b (PyObjects.and c PyObjects.empty)))

-- `BlankNode(id)`
abbrev pub new_blank_node : String → PyObject
new_blank_node id = PyObject.blank_node (record { id = id })

-- `Literal(value, datatype, language)`
unfoldable pub new_literal :
    String → Option String → Option String → Result ConversionError PyObject
new_literal value none none = ok (PyObject.literal (new_simple value))
new_literal value (some dt) none = ok (PyObject.literal (new_typed value (named_node dt)))
new_literal value none (some lang) = ok (PyObject.literal (new_lang value lang))
new_literal value (some _) (some _) =
    err (ConversionError.value_error "a literal has a datatype or a language tag, not both")

unfoldable pub subject_from_py : PyObject → Result ConversionError NamedOrBlankNode
subject_from_py (PyObject.str s) = ok (NamedOrBlankNode.named (named_node s))
subject_from_py PyObject.surrogate_str = err ConversionError.unicode_error
subject_from_py (PyObject.blank_node b) = ok (NamedOrBlankNode.blank b)
subject_from_py obj = err (
    ConversionError.type_error
      (append "subject must be an IRI str or a BlankNode, not " (type_name obj)))

unfoldable pub predicate_from_py : PyObject → Result ConversionError NamedNode
predicate_from_py (PyObject.str s) = ok (named_node s)
predicate_from_py PyObject.surrogate_str = err ConversionError.unicode_error
predicate_from_py obj =
    err (ConversionError.type_error (append "predicate must be an IRI str, not " (type_name obj)))

unfoldable pub object_from_py : PyObject → Result ConversionError Term
object_from_py (PyObject.str s) = ok (Term.named (named_node s))
object_from_py PyObject.surrogate_str = err ConversionError.unicode_error
object_from_py (PyObject.blank_node b) = ok (Term.blank b)
object_from_py (PyObject.literal l) = ok (Term.literal l)
object_from_py obj = err (
    ConversionError.type_error
      (append "object must be an IRI str, a BlankNode or a Literal, not " (type_name obj)))

unfoldable pub subject_to_py : NamedOrBlankNode → PyObject
subject_to_py (NamedOrBlankNode.named n) = PyObject.str n.iri
subject_to_py (NamedOrBlankNode.blank b) = PyObject.blank_node b

unfoldable pub object_to_py : Term → PyObject
object_to_py (Term.named n) = PyObject.str n.iri
object_to_py (Term.blank b) = PyObject.blank_node b
object_to_py (Term.literal l) = PyObject.literal l

unfoldable pub triple_from_py : PyObject → Result ConversionError Quad
triple_from_py
      (PyObject.tuple (PyObjects.and s (PyObjects.and p (PyObjects.and o PyObjects.empty)))) =
    do
      subject ← subject_from_py s
      predicate ← predicate_from_py p
      object ← object_from_py o
      ok (triple subject predicate object)
triple_from_py (PyObject.tuple items) =
    err (ConversionError.value_error (append "a triple has 3 terms, not " (show (size items))))
triple_from_py obj = err (
    ConversionError.type_error
      (append "a triple is a (subject, predicate, object) tuple, not " (type_name obj)))

-- the graph is not exposed
unfoldable pub triple_to_py : Quad → PyObject
triple_to_py q =
    three (subject_to_py q.subject) (PyObject.str q.predicate.iri) (object_to_py q.object)

subject_from_py-subject_to_py : (s : NamedOrBlankNode) → subject_from_py (subject_to_py s) ≡ ok s
unfolding subject_from_py subject_to_py
subject_from_py-subject_to_py (NamedOrBlankNode.named n) = refl
subject_from_py-subject_to_py (NamedOrBlankNode.blank b) = refl

object_from_py-object_to_py : (t : Term) → object_from_py (object_to_py t) ≡ ok t
unfolding object_from_py object_to_py
object_from_py-object_to_py (Term.named n) = refl
object_from_py-object_to_py (Term.blank b) = refl
object_from_py-object_to_py (Term.literal l) = refl

-- What an object was read as becomes the object again.
subject_to_py-subject_from_py :
    (o : PyObject) (s : NamedOrBlankNode) → subject_from_py o ≡ ok s → subject_to_py s ≡ o
unfolding subject_from_py subject_to_py
subject_to_py-subject_from_py (PyObject.str t) s h = ground arith
subject_to_py-subject_from_py PyObject.surrogate_str s h = absurd (ground arith)
subject_to_py-subject_from_py (PyObject.blank_node b) s h = ground arith
subject_to_py-subject_from_py (PyObject.literal l) s h = absurd (ground arith)
subject_to_py-subject_from_py (PyObject.tuple os) s h = absurd (ground arith)
subject_to_py-subject_from_py (PyObject.other n) s h = absurd (ground arith)

predicate_from_py-str :
    (o : PyObject) (n : NamedNode) → predicate_from_py o ≡ ok n → PyObject.str n.iri ≡ o
unfolding predicate_from_py
predicate_from_py-str (PyObject.str t) n h = ground arith
predicate_from_py-str PyObject.surrogate_str n h = absurd (ground arith)
predicate_from_py-str (PyObject.blank_node b) n h = absurd (ground arith)
predicate_from_py-str (PyObject.literal l) n h = absurd (ground arith)
predicate_from_py-str (PyObject.tuple os) n h = absurd (ground arith)
predicate_from_py-str (PyObject.other x) n h = absurd (ground arith)

object_to_py-object_from_py :
    (o : PyObject) (t : Term) → object_from_py o ≡ ok t → object_to_py t ≡ o
unfolding object_from_py object_to_py
object_to_py-object_from_py (PyObject.str x) t h = ground arith
object_to_py-object_from_py PyObject.surrogate_str t h = absurd (ground arith)
object_to_py-object_from_py (PyObject.blank_node b) t h = ground arith
object_to_py-object_from_py (PyObject.literal l) t h = ground arith
object_to_py-object_from_py (PyObject.tuple os) t h = absurd (ground arith)
object_to_py-object_from_py (PyObject.other n) t h = absurd (ground arith)

triple_read_back :
    (q : Quad) → q.graph ≡ NamedOrDefault.default → triple_from_py (triple_to_py q) ≡ ok q
unfolding triple_from_py triple_to_py predicate_from_py
triple_read_back q h =
    rw (subject_from_py-subject_to_py q.subject, object_from_py-object_to_py q.object, ◌>>=◌)
      (ap (λ g. ok (record q { graph = g })) (sym h))

triple_written_back :
    (o : PyObject) (q : Quad)
    → triple_from_py o ≡ ok q
    → (triple_to_py q ≡ o) × (q.graph ≡ NamedOrDefault.default)
unfolding triple_from_py triple_to_py
triple_written_back
      (PyObject.tuple (PyObjects.and s (PyObjects.and p (PyObjects.and o PyObjects.empty)))) q h =
    elim (Result-cases (subject_from_py s)) [
      | inr (e, r) ↦ absurd (ground arith)
      | inl (s', r) ↦ elim (Result-cases (predicate_from_py p)) [
        | inr (e, r2) ↦ absurd (ground arith)
        | inl (p', r2) ↦ elim (Result-cases (object_from_py o)) [
          | inr (e, r3) ↦ absurd (ground arith)
          | inl (o', r3) ↦
              let a = subject_to_py-subject_from_py s s' r in
              let b = predicate_from_py-str p p' r2 in
              let c = object_to_py-object_from_py o o' r3 in
              let made : triple s' p' o' ≡ q = ground (arith, r, r2, r3, h) in
              rw (sym made) (rw (a, b, c) (refl, refl))
        ]
      ]
    ]
triple_written_back _ q h = absurd (ground arith)

-- For a quad of the default graph, an object is read as that triple exactly if it is the tuple that the
-- triple becomes.
pub triple_from_py_iff :
    (o : PyObject) (q : Quad)
    → q.graph ≡ NamedOrDefault.default
    → (triple_from_py o ≡ ok q) ↔ (o ≡ triple_to_py q)
triple_from_py_iff o q h =
    (λ k. sym (triple_written_back o q k).0, λ e. ap triple_from_py e ∙ triple_read_back q h)
