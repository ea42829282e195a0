-- ===== src/Context/Wire.antt =====
-- The metadata record of crates/semanticore-context/src/record.rs that is written as JSON, over the
-- types of a JSON value and of a 32-bit float.
use semanticore.Prelude.{ℕ, String, Option, List}

pub data RecordPayload (Value : Type 0) : Type 0 where
  triples : RecordPayload Value
  event : String → Value → RecordPayload Value
  chunk : String → String → RecordPayload Value

pub record Record (Value F32 : Type 0) : Type 0 where
  pub payload : RecordPayload Value
  pub source : String
  pub derived_from : List ℕ
  pub scope_hint : Option String
  pub embedding : Option (List F32)
