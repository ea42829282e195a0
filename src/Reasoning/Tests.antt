-- ===== src/Reasoning/Tests.antt =====
-- The reasoner interfaces of crates/semanticore-core/src at concrete inputs.
use semanticore.Prelude.{
  refl, none, false, ◌||◌, ◌<◌, arith, String_discrete, suc, ◌≡◌, some, List, [], ◌∷◌, ◌++◌, ◌==◌,
  if◌then◌else◌,
}
use semanticore.Model.{
  NamedNode, Term, named_node, named_node_eq, NamedNode-discrete, display_node, display_named,
}
use semanticore.Reasoning.Datalog.{
  DatalogResult, empty_result, add_fact, relation, total_facts, tuples_or_none, add_fact_lem,
}
use semanticore.Context.Decimal.{show}
use semanticore.Reasoning.DatalogErrors.{DatalogError, display_datalog}
use semanticore.Reasoning.Profiles.{
  OwlProfile, profile_eq, empty_profiles, with_profile, insert_profile, contains_profile,
  has_no_profile, contains_profile-with_profile,
}
use semanticore.Reasoning.Shacl.{
  PropertyPath, Severity, ValidationResult, ValidationResults, ShaclError, display_shacl,
  conforming, from_results,
}
use semanticore.Reasoning.Owl.{OwlError, display_owl, types_of}

abbrev edge : NamedNode
edge = named_node "urn:edge"

abbrev pair : List Term
pair = Term.named (named_node "urn:a") ∷ Term.named (named_node "urn:b") ∷ []

abbrev one_fact : DatalogResult
one_fact = add_fact edge pair empty_result

add_fact_lem_example :
    ((q : NamedNode)
      → relation q (add_fact edge pair one_fact) ≡ (
          if q == edge
          then some (tuples_or_none (relation q one_fact) ++ pair ∷ [])
          else relation q one_fact))
    × (total_facts (add_fact edge pair one_fact) ≡ suc (total_facts one_fact))
add_fact_lem_example = add_fact_lem edge pair one_fact

contains_profile-with_profile_example :
    (contains_profile (with_profile empty_profiles OwlProfile.rl) OwlProfile.dl
      ≡ (OwlProfile.dl == OwlProfile.rl || contains_profile empty_profiles OwlProfile.dl))
    × (insert_profile empty_profiles OwlProfile.rl ≡ with_profile empty_profiles OwlProfile.rl)
    × ((with_profile empty_profiles OwlProfile.rl).bits < 256)
    × (has_no_profile (with_profile empty_profiles OwlProfile.rl) ≡ false)
contains_profile-with_profile_example =
    contains_profile-with_profile empty_profiles OwlProfile.dl OwlProfile.rl (omega arith)

abbrev too_few : ValidationResults
too_few =
    ValidationResults.result_then
      (ValidationResult.validation_result (Term.named (named_node "urn:n")) Severity.warning
        (named_node "http://www.w3.org/ns/shacl#MinCountConstraintComponent")
        (some (PropertyPath.inverse (PropertyPath.predicate (named_node "urn:p")))) none none
        (some "too few") ValidationResults.no_results)
      ValidationResults.no_results

warning_does_not_conform : (from_results too_few).conforms ≡ false
unfolding from_results
warning_does_not_conform = refl

no_results_conform : from_results ValidationResults.no_results ≡ conforming
unfolding from_results
no_results_conform = refl

types_found :
    types_of edge (record { individual_types = (edge, named_node "urn:Person" ∷ []) ∷ [] })
    ≡ some (named_node "urn:Person" ∷ [])
unfolding types_of NamedNode-discrete String_discrete
types_found = refl

limit_displayed :
    display_owl (OwlError.evaluation_limit_exceeded 12) ≡ "evaluation limit exceeded: 12"
unfolding display_owl show
limit_displayed = refl

grounding_displayed :
    display_datalog (DatalogError.grounding_failure "r" "unbound")
    ≡ "grounding failure in rule r: unbound"
unfolding display_datalog
grounding_displayed = refl

license_displayed :
    display_shacl display_node display_named (ShaclError.license "x") ≡ "feature not licensed: x"
unfolding display_shacl
license_displayed = refl
