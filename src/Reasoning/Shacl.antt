-- ===== src/Reasoning/Shacl.antt =====
-- crates/semanticore-core/src/shacl.rs: paths, results, reports and errors. The `Debug` texts of terms in
-- an error's message are parameters.
use semanticore.Prelude.{ℕ, String, Bool, true, false, Option, [], ◌∷◌}
use semanticore.Model.{NamedNode, NamedOrBlankNode, Term, format}
use semanticore.Context.Decimal.{show}

mutual
  pub data PropertyPath : Type 0 where
    predicate : NamedNode → PropertyPath
    inverse : PropertyPath → PropertyPath
    sequence : PropertyPaths → PropertyPath
    alternative : PropertyPaths → PropertyPath
    zero_or_more : PropertyPath → PropertyPath
    one_or_more : PropertyPath → PropertyPath
    zero_or_one : PropertyPath → PropertyPath

  -- `Vec<PropertyPath>`
  pub data PropertyPaths : Type 0 where
    nil : PropertyPaths
    cons : PropertyPath → PropertyPaths → PropertyPaths

pub data Severity : Type 0 where
  violation warning info : Severity

mutual
  pub data ValidationResult : Type 0 where
    -- the focus node, its severity, the component, the path, the value, the shape, the message and
    -- the nested results
    validation_result :
        Term
        → Severity
        → NamedNode
        → Option PropertyPath
        → Option Term
        → Option NamedOrBlankNode
        → Option String
        → ValidationResults
        → ValidationResult

  -- `Vec<ValidationResult>`
  pub data ValidationResults : Type 0 where
    no_results : ValidationResults
    result_then : ValidationResult → ValidationResults → ValidationResults

pub record ShaclValidationReport : Type 0 where
  pub conforms : Bool
  pub results : ValidationResults

abbrev pub conforming : ShaclValidationReport
conforming = record { conforms = true; results = no_results }

abbrev pub has_no_results : ValidationResults → Bool
has_no_results no_results = true
has_no_results (result_then _ _) = false

unfoldable pub from_results : ValidationResults → ShaclValidationReport
from_results results = record { conforms = has_no_results results; results = results }

pub record NodeValidationResult : Type 0 where
  pub focus : NamedOrBlankNode
  pub conforms : Bool
  pub results : ValidationResults

pub data ShaclError : Type 0 where
  constraint_violation : NamedOrBlankNode → NamedNode → String → ShaclError
  unsupported_constraint_component : NamedNode → ShaclError
  sparql_execution_error : String → ShaclError
  malformed_shapes_graph : String → ShaclError
  quota_exceeded : String → ℕ → ShaclError
  license : String → ShaclError

module _ (debug_node : NamedOrBlankNode → String) (debug_named : NamedNode → String) where
  unfoldable pub display_shacl : ShaclError → String
  display_shacl (ShaclError.constraint_violation focus constraint message) = format (
      "constraint violation on "
      ∷ debug_node focus
      ∷ " ("
      ∷ debug_named constraint
      ∷ "): "
      ∷ message
      ∷ [])
  display_shacl (ShaclError.unsupported_constraint_component component) =
      format ("unsupported constraint component: " ∷ debug_named component ∷ [])
  display_shacl (ShaclError.sparql_execution_error detail) =
      format ("sparql execution error: " ∷ detail ∷ [])
  display_shacl (ShaclError.malformed_shapes_graph reason) =
      format ("malformed shapes graph: " ∷ reason ∷ [])
  display_shacl (ShaclError.quota_exceeded kind limit) =
      format ("quota exceeded: " ∷ kind ∷ " (limit " ∷ show limit ∷ ")" ∷ [])
  display_shacl (ShaclError.license feature) = format ("feature not licensed: " ∷ feature ∷ [])
