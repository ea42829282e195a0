-- ===== src/Oxigraph/Verbatim.antt =====
-- `round_trips` of crates/semanticore-store-oxigraph/src/convert.rs against what the store does.
use Prim.Native.String.{◌++◌ as append}
use semanticore.Prelude.{
  ◌≡◌, ◌≢◌, ◌↔◌, ◌∙◌, refl, sym, ap, inl, inr, String, true, Option, none, some, List, [], ◌∷◌,
  arith, All, string_eq, ==_iff, ==_cases, strip_prefix, strip_prefix-append, append-strip_prefix,
  String_discrete, Option-cases,
}
use semanticore.Oxigraph.Engine.{Primitive, Engine}
use semanticore.Oxigraph.Convert.{
  xsd, Handling, primitive, derived, handlings, arm, arm_of, handling_of, accepts, round_trips,
}
use semanticore.Oxigraph.Laws.{primitive_name, Derived, derived_name, base, TermLaws, StoredAs}

-- An arm is named after the datatype that it is about.
abbrev pub Fitting : String → Handling → Type 0
Fitting name (primitive t) = primitive_name t ≡ name
Fitting name (derived t) = (k : Derived) × (derived_name k ≡ name) × (base k ≡ t)

handlings-Fitting : All (λ a. Fitting a.0 a.1) handlings
handlings-Fitting = (
  refl,
  (
    refl,
    (
      refl,
      (
        refl,
        (
          refl,
          (
            refl,
            (
              refl,
              (
                refl,
                (
                  refl,
                  (
                    refl,
                    (
                      refl,
                      (
                        refl,
                        (
                          refl,
                          (
                            refl,
                            (
                              refl,
                              (
                                refl,
                                (
                                  (Derived.byte, refl, refl),
                                  (
                                    (Derived.short, refl, refl),
                                    (
                                      (Derived.int, refl, refl),
                                      (
                                        (Derived.long, refl, refl),
                                        (
                                          (Derived.unsigned_byte, refl, refl),
                                          (
                                            (Derived.unsigned_short, refl, refl),
                                            (
                                              (Derived.unsigned_int, refl, refl),
                                              (
                                                (Derived.unsigned_long, refl, refl),
                                                (
                                                  (Derived.positive_integer, refl, refl),
                                                  (
                                                    (Derived.negative_integer, refl, refl),
                                                    (
                                                      (Derived.non_positive_integer, refl, refl),
                                                      (
                                                        (Derived.non_negative_integer, refl, refl),
                                                        ((Derived.date_time_stamp, refl, refl), tt),
                                                      ),
                                                    ),
                                                  ),
                                                ),
                                              ),
                                            ),
                                          ),
                                        ),
                                      ),
                                    ),
                                  ),
                                ),
                              ),
                            ),
                          ),
                        ),
                      ),
                    ),
                  ),
                ),
              ),
            ),
          ),
        ),
      ),
    ),
  ),
)

arm-Fitting :
    (local : String) (arms : List (String × Handling)) {h : Handling}
    → All (λ a. Fitting a.0 a.1) arms
    → arm local arms ≡ some h
    → Fitting local h
unfolding arm
arm-Fitting local [] fit e = absurd (cc)
arm-Fitting local ((name, h') ∷ arms) {h} fit e = elim (==_cases name local) [
  | inl (t, same) ↦ let found : h' ≡ h = ground arith in rw (← same) (rw (← found) fit.0)
  | inr (t, _) ↦ arm-Fitting local arms fit.1 (ground arith)
]

arm-primitive_name : (t : Primitive) → arm (primitive_name t) handlings ≡ some (primitive t)
unfolding arm String_discrete
arm-primitive_name Primitive.boolean = refl
arm-primitive_name _ = refl

arm-derived_name : (k : Derived) → arm (derived_name k) handlings ≡ some (derived (base k))
unfolding arm String_discrete
arm-derived_name Derived.byte = refl
arm-derived_name _ = refl

derived_name-ne-primitive_name : (k : Derived) (t : Primitive) → derived_name k ≢ primitive_name t
derived_name-ne-primitive_name k t e =
    let same = ap (λ s. arm s handlings) e in cc (arm-derived_name k, arm-primitive_name t, same)

append-xsd-inj : (s t : String) → append xsd s ≡ append xsd t → s ≡ t
append-xsd-inj s t e =
    let stripped = ap (strip_prefix xsd) e in
    cc (strip_prefix-append xsd s, strip_prefix-append xsd t, stripped)

pub handling_of-primitive :
    (t : Primitive) {d : String}
    → d ≡ append xsd (primitive_name t)
    → handling_of d ≡ some (primitive t)
unfolding handling_of
handling_of-primitive t e =
    ap handling_of e ∙ ap arm_of (strip_prefix-append xsd (primitive_name t)) ∙ arm-primitive_name t

pub handling_of-derived :
    (k : Derived) {d : String}
    → d ≡ append xsd (derived_name k)
    → handling_of d ≡ some (derived (base k))
unfolding handling_of
handling_of-derived k e =
    ap handling_of e ∙ ap arm_of (strip_prefix-append xsd (derived_name k)) ∙ arm-derived_name k

-- A handled datatype is in the namespace, under the name of the arm.
pub handling_of-Fitting :
    (d : String) {h : Handling}
    → handling_of d ≡ some h
    → (local : String) × (d ≡ append xsd local) × Fitting local h
unfolding handling_of
handling_of-Fitting d {h} e = elim (Option-cases (strip_prefix xsd d)) [
  | inl gone ↦ absurd (ground arith)
  | inr (local, found) ↦ (
    local,
    sym (append-strip_prefix xsd d found),
    arm-Fitting local handlings handlings-Fitting (ground arith),
  )
]

module _ (ox : Engine) (terms : TermLaws ox) (stored : ox.Literal → ox.Literal) where
  new_typed-inj : (v w : String) (d : ox.Named) → ox.new_typed v d ≡ ox.new_typed w d → v ≡ w
  new_typed-inj v w d e =
      let same = ap ox.value e in cc (terms.typed_value v d, terms.typed_value w d, same)

  module _ (laws : StoredAs ox stored) (v : String) (d : ox.Named) where
    abbrev IsKept : Type 0
    IsKept = stored (ox.new_typed v d) ≡ ox.new_typed v d

    accepts-primitive :
        (t : Primitive)
        → ox.iri d ≡ append xsd (primitive_name t)
        → (accepts ox (some (primitive t)) v ≡ true) ↔ IsKept
    accepts-primitive t e = elim (Option-cases (ox.reprint t v)) [
      | inl gone ↦ (λ _. laws.primitive_unparsed t v d e gone, λ _. ground arith)
      | inr (c, parsed) ↦
          let as_parsed = laws.primitive_parsed t v c d e parsed in
          (
            λ h. as_parsed ∙ ap (λ x. ox.new_typed x d) ((==_iff c v).0 (ground arith)),
            λ kept.
                let same = (==_iff c v).1 (new_typed-inj c v d (sym as_parsed ∙ kept)) in
                ground arith,
          )
    ]

    accepts-derived :
        (k : Derived)
        → ox.iri d ≡ append xsd (derived_name k)
        → (accepts ox (some (derived (base k))) v ≡ true) ↔ IsKept
    accepts-derived k e = elim (Option-cases (ox.reprint (base k) v)) [
      | inl gone ↦ (λ _. laws.derived_unparsed k v d e gone, λ _. ground arith)
      | inr (c, parsed) ↦ (
        λ h. absurd (ground arith),
        λ kept.
            let read = ap (λ l. ox.iri (ox.datatype l)) kept in
            let changed = laws.derived_parsed k v c d e parsed in
            absurd (
              derived_name-ne-primitive_name k (base k)
                (append-xsd-inj _ _ (cc (terms.typed_datatype v d)))),
      )
    ]

    accepts-handling_of :
        (h : Option Handling) → handling_of (ox.iri d) ≡ h → (accepts ox h v ≡ true) ↔ IsKept
    accepts-handling_of none e = (
      λ _.
          laws.other_datatype v d (λ t at. cc (handling_of-primitive t at))
            (λ k at. cc (handling_of-derived k at)),
      λ _. refl,
    )
    accepts-handling_of (some (primitive t)) e =
        let (local, at, name) = handling_of-Fitting (ox.iri d) e in
        accepts-primitive t (at ∙ ap (append xsd) (sym name))
    accepts-handling_of (some (derived t)) e =
        let (local, at, (k, name, same)) = handling_of-Fitting (ox.iri d) e in
        rw (← same) (accepts-derived k (at ∙ ap (append xsd) (sym name)))

    -- Given the laws on literals and on how a store reads one back, `round_trips` holds exactly of the
    -- typed literals that the store keeps as they are, for every value and datatype.
    pub round_trips_iff : (round_trips ox v (ox.iri d) ≡ true) ↔ IsKept
    unfolding round_trips
    round_trips_iff = accepts-handling_of (handling_of (ox.iri d)) refl
