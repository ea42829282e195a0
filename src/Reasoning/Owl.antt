-- ===== src/Reasoning/Owl.antt =====
-- crates/semanticore-core/src/owl.rs: what an OWL reasoner returns. The ordered set of classes is a list,
-- and the ordered map from individuals the list of its entries.
use semanticore.Prelude.{
  ℕ, String, Bool, true, false, Option, none, some, List, [], ◌∷◌, ◌==◌, if◌then◌else◌,
}
use semanticore.Model.{NamedNode, named_node_eq, format}
use semanticore.Context.Decimal.{show}

pub record EquivalenceClass : Type 0 where
  pub members : List NamedNode

pub record ClassHierarchy : Type 0 where
  pub equivalence_classes : List EquivalenceClass
  pub direct_subclass_of : List (NamedNode × NamedNode)
  pub unsatisfiable : List NamedNode

abbrev pub new_hierarchy : ClassHierarchy
new_hierarchy = record { equivalence_classes = []; direct_subclass_of = []; unsatisfiable = [] }

pub record InstanceRealization : Type 0 where
  pub individual_types : List (NamedNode × List NamedNode)

abbrev pub new_realization : InstanceRealization
new_realization = record { individual_types = [] }

types_at : NamedNode → List (NamedNode × List NamedNode) → Option (List NamedNode)
types_at individual [] = none
types_at individual ((i, types) ∷ rest) =
    if individual == i then some types else types_at individual rest

unfoldable pub types_of : NamedNode → InstanceRealization → Option (List NamedNode)
unfolding types_at
types_of individual r = types_at individual r.individual_types

pub record Axiom : Type 0 where
  pub text : String

pub data ConsistencyResult : Type 0 where
  consistent : ConsistencyResult
  inconsistent : Option (List Axiom) → ConsistencyResult

abbrev pub is_consistent : ConsistencyResult → Bool
is_consistent ConsistencyResult.consistent = true
is_consistent (ConsistencyResult.inconsistent _) = false

pub data OwlError : Type 0 where
  load : String → OwlError
  -- the axiom and the profile
  unsupported_axiom : String → String → OwlError
  profile_violation : String → OwlError
  consistency_violation : String → OwlError
  materialization_failure : String → OwlError
  evaluation_limit_exceeded : ℕ → OwlError
  quota_exceeded : String → ℕ → OwlError
  license : String → OwlError

unfoldable pub display_owl : OwlError → String
display_owl (OwlError.load reason) = format ("owl load error: " ∷ reason ∷ [])
display_owl (OwlError.unsupported_axiom text profile) =
    format ("unsupported axiom for " ∷ profile ∷ " profile: " ∷ text ∷ [])
display_owl (OwlError.profile_violation reason) = format ("profile violation: " ∷ reason ∷ [])
display_owl (OwlError.consistency_violation reason) =
    format ("consistency violation: " ∷ reason ∷ [])
display_owl (OwlError.materialization_failure reason) =
    format ("materialization failure: " ∷ reason ∷ [])
display_owl (OwlError.evaluation_limit_exceeded limit) =
    format ("evaluation limit exceeded: " ∷ show limit ∷ [])
display_owl (OwlError.quota_exceeded kind limit) =
    format ("quota exceeded: " ∷ kind ∷ " (limit " ∷ show limit ∷ ")" ∷ [])
display_owl (OwlError.license feature) = format ("feature not licensed: " ∷ feature ∷ [])
