-- ===== src/Oxigraph/Sample/Stores.antt =====
-- How the sample engine keeps the laws on stores and transactions that the adapter of
-- crates/semanticore-store-oxigraph relies on.
use Prim.Native.String.{◌++◌ as append}
use semanticore.Prelude.{
  ◌≡◌, inl, inr, refl, sym, ◌∙◌, ap, true, not, ◌&&◌, none, some, List, [], ◌∷◌, map, Option,
  Option-cases, ok, collect, collect-map_ok, ok-inj, arith, filter, mem, Eq, ◌==◌, ==_iff, ==_refl,
  ==_cases, Bool-cases, ◌↔◌, string_eq, nat_eq, String,
}
use semanticore.Storage.{none_or}
use semanticore.Oxigraph.Engine.{OxTerm, Primitive}
use semanticore.Oxigraph.Convert.{xsd, Handling, primitive, derived, handling_of}
use semanticore.Oxigraph.Laws.{
  In, At, KeptTerm, Kept, Fits, OxView, ReadLaws, StoreLaws, primitive_name,
}
use semanticore.Oxigraph.Verbatim.{handling_of-primitive}
use semanticore.Oxigraph.Sample.{
  Lit, QuadOf, TermOf, PatternOf, Quads, reprint, read_as, stored, stored_term, as_stored, fits,
  seen_in, found_in, with_quad, without_quad, commit_to, sample, subject_of_eq, term_of_eq,
  graph_of_eq, quad_of_eq,
}

-- What is printed is printed as it is.
reprint-reprint :
    (t : Primitive) (v : String) {c : String} → reprint t v ≡ some c → reprint t c ≡ some c
reprint-reprint Primitive.integer v h = ground arith
reprint-reprint Primitive.boolean v h = absurd (ground arith)
reprint-reprint _ v h = absurd (ground arith)

read_as-stored :
    (l : Lit) (h : Option Handling)
    → handling_of l.kind ≡ h
    → l.tag ≡ none
    → stored (read_as h l) ≡ read_as h l
unfolding stored
read_as-stored l none e n = ground arith
read_as-stored l (some (primitive t)) e n = elim (Option-cases (reprint t l.text)) [
  | inl gone ↦ ground arith
  | inr (c, parsed) ↦ ground (arith, reprint-reprint t l.text parsed)
]
read_as-stored l (some (derived t)) e n = elim (Option-cases (reprint t l.text)) [
  | inl gone ↦ ground arith
  | inr (c, parsed) ↦ ground (
    arith,
    reprint-reprint t l.text parsed,
    handling_of-primitive t {d = append xsd (primitive_name t)} refl,
  )
]

stored-stored : (l : Lit) → stored (stored l) ≡ stored l
stored-stored l = elim (Option-cases l.tag) [
  | inr (tag, e) ↦ let same : stored l ≡ l = unfold stored in ground arith in ap stored same
  | inl e ↦
      let same : stored l ≡ read_as (handling_of l.kind) l = unfold stored in ground arith in
      rw same (read_as-stored l (handling_of l.kind) refl e)
]

stored_term-Kept : (t : TermOf) → KeptTerm sample stored (stored_term t)
stored_term-Kept (OxTerm.named_node n) = tt
stored_term-Kept (OxTerm.blank_node n) = tt
stored_term-Kept (OxTerm.literal l) = stored-stored l
stored_term-Kept (OxTerm.other s) = tt

Kept-stored_term : (t : TermOf) → KeptTerm sample stored t → stored_term t ≡ t
Kept-stored_term (OxTerm.named_node n) k = refl
Kept-stored_term (OxTerm.blank_node n) k = refl
Kept-stored_term (OxTerm.literal l) k = ap OxTerm.literal k
Kept-stored_term (OxTerm.other s) k = refl

as_stored-Kept : (q : QuadOf) → Kept sample stored (as_stored q)
unfolding as_stored
as_stored-Kept q = stored_term-Kept q.object

Kept-as_stored : (q : QuadOf) → Kept sample stored q → as_stored q ≡ q
unfolding as_stored
Kept-as_stored q k = ap (λ o. record q { object = o }) (Kept-stored_term q.object k)

as_stored-as_stored : (q : QuadOf) → as_stored (as_stored q) ≡ as_stored q
as_stored-as_stored q = Kept-as_stored (as_stored q) (as_stored-Kept q)

In-map-as_stored :
    (qs : List QuadOf) (p : PatternOf) (x : QuadOf)
    → In x (filter (fits p) (map as_stored qs))
    → (mem x (map as_stored qs) ≡ true) × Kept sample stored x × (fits p x ≡ true)
unfolding filter mem
In-map-as_stored [] p x i = absurd i
In-map-as_stored (q ∷ qs) p x i = elim (Bool-cases (fits p (as_stored q))) [
  | inl f ↦
      let j : In x (as_stored q ∷ filter (fits p) (map as_stored qs)) = rw f at i in
      elim j [
        | inl same ↦ rw same (ground (arith, ==_refl (as_stored q)), as_stored-Kept q, f)
        | inr k ↦ let (m, kx, f') = In-map-as_stored qs p x k in (ground arith, kx, f')
      ]
  | inr f ↦
      let j : In x (filter (fits p) (map as_stored qs)) = rw f at i in
      let (m, kx, f') = In-map-as_stored qs p x j in (ground arith, kx, f')
]

mem-In :
    (xs : List QuadOf) (p : PatternOf) (x : QuadOf)
    → mem x xs ≡ true
    → fits p x ≡ true
    → In x (filter (fits p) xs)
unfolding filter mem
mem-In [] p x m f = absurd (ground arith)
mem-In (y ∷ xs) p x m f = elim (==_cases x y) [
  | inl (t, same) ↦ let g : fits p y ≡ true = rw (← same) f in rw g (inl same)
  | inr (t, differ) ↦
      let rest = mem-In xs p x (ground arith) f in
      elim (Bool-cases (fits p y)) [ inl g ↦ rw g (inr rest) | inr g ↦ rw g rest ]
]

none_or-At : {A : Type 0} ⦃e : Eq A⦄ (a : A) (o : Option A) → (none_or a o ≡ true) ↔ At o a
none_or-At a none = (λ _. tt, λ _. refl)
none_or-At a (some x) = ==_iff a x

fits-Fits : (p : PatternOf) (x : QuadOf) → fits p x ≡ true → Fits sample p x
fits-Fits p x f = (
  (none_or-At x.subject p.subject).0 (ground arith),
  (none_or-At x.predicate p.predicate).0 (ground arith),
  (none_or-At x.object p.object).0 (ground arith),
  (none_or-At x.graph_name p.graph_name).0 (ground arith),
)

Fits-fits : (p : PatternOf) (x : QuadOf) → Fits sample p x → fits p x ≡ true
Fits-fits p x (s, n, o, g) =
    let s' = (none_or-At x.subject p.subject).1 s in
    let n' = (none_or-At x.predicate p.predicate).1 n in
    let o' = (none_or-At x.object p.object).1 o in
    let g' = (none_or-At x.graph_name p.graph_name).1 g in ground arith

collect-found_in :
    (s : Quads) (p : PatternOf) {qs : List QuadOf}
    → collect (found_in s p) ≡ ok qs
    → qs ≡ filter (fits p) (map as_stored s.quads)
unfolding found_in
collect-found_in s p h = ok-inj h (collect-map_ok (filter (fits p) (map as_stored s.quads)))

sample-ReadLaws : ReadLaws sample stored (λ s q. ok (seen_in s q)) found_in seen_in
unfolding seen_in
sample-ReadLaws = record {
  contains_sees = λ s q h. ground arith;
  quads_seen = λ s p {qs} k h q i.
      let (m, kq, f) = In-map-as_stored s.quads p q (rw (← collect-found_in s p h) i) in
      (kq, rw (Kept-as_stored q kq) m, fits-Fits p q f);
  seen_quads = λ s p k h q kq seen fit.
      rw (collect-found_in s p h)
        (mem-In (map as_stored s.quads) p q (rw (Kept-as_stored q kq) at seen) (Fits-fits p q fit));
}

abbrev pub sample_view : OxView sample
sample_view = record { holds = seen_in; sees = seen_in; current = λ s tx. s.version == tx.version }

mem-without :
    (p : QuadOf) (xs : List QuadOf) (y : QuadOf)
    → mem y (map as_stored (filter (λ x. not (as_stored x == as_stored p)) xs))
      ≡ (not (y == as_stored p) && mem y (map as_stored xs))
unfolding filter mem
mem-without p [] y = ground arith
mem-without p (x ∷ xs) y = ground (arith, mem-without p xs y)

same_quad :
    (q p : QuadOf) → Kept sample stored q → Kept sample stored p → as_stored q ≡ as_stored p → q ≡ p
same_quad q p kq kp e = sym (Kept-as_stored q kq) ∙ e ∙ Kept-as_stored p kp

pub sample-StoreLaws : StoreLaws sample stored sample_view
unfolding with_quad without_quad seen_in commit_to mem
sample-StoreLaws = record {
  store_reads = sample-ReadLaws;
  reads = sample-ReadLaws;
  starts = λ s h. (ground arith, λ q. ground arith);
  insert_current = λ s tx p. refl;
  insert_self = λ tx p k. ground (arith, ==_refl (as_stored p));
  insert_keeps = λ tx p q h. ground arith;
  insert_only = λ tx p q kp kq h. elim (==_cases (as_stored q) (as_stored p)) [
    | inl (t, same) ↦ inl (same_quad q p kq kp same)
    | inr (t, other) ↦ inr (ground arith)
  ];
  remove_current = λ s tx p. refl;
  remove_self = λ tx p. ground (arith, mem-without p tx.quads (as_stored p), ==_refl (as_stored p));
  remove_keeps = λ tx p q kp kq differ h. elim (==_cases (as_stored q) (as_stored p)) [
    | inl (t, same) ↦ absurd (differ (same_quad q p kq kp same))
    | inr (t, other) ↦ ground (arith, mem-without p tx.quads (as_stored q))
  ];
  remove_only = λ tx p q h. ground (arith, mem-without p tx.quads (as_stored q));
  commit_ok = λ s s' tx w h q. ground arith;
  commit_err = λ s s' tx h q. ground arith;
}
