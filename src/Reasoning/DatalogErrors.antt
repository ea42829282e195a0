-- ===== src/Reasoning/DatalogErrors.antt =====
-- crates/semanticore-core/src/datalog.rs: the error of an engine, and its messages.
use semanticore.Prelude.{ℕ, String, [], ◌∷◌}
use semanticore.Model.{format}
use semanticore.Context.Decimal.{show}

pub data DatalogError : Type 0 where
  -- the rule and the reason
  grounding_failure : String → String → DatalogError
  stratification_violation : String → DatalogError
  evaluation_limit_exceeded : ℕ → DatalogError
  quota_exceeded : String → ℕ → DatalogError
  license : String → DatalogError

unfoldable pub display_datalog : DatalogError → String
display_datalog (DatalogError.grounding_failure rule reason) =
    format ("grounding failure in rule " ∷ rule ∷ ": " ∷ reason ∷ [])
display_datalog (DatalogError.stratification_violation rule_set) =
    format ("stratification violation: " ∷ rule_set ∷ [])
display_datalog (DatalogError.evaluation_limit_exceeded iterations) =
    format ("evaluation limit exceeded after " ∷ show iterations ∷ " iterations" ∷ [])
display_datalog (DatalogError.quota_exceeded kind limit) =
    format ("quota exceeded: " ∷ kind ∷ " (limit " ∷ show limit ∷ ")" ∷ [])
display_datalog (DatalogError.license feature) = format ("feature not licensed: " ∷ feature ∷ [])
