-- ===== src/Context/Error.antt =====
-- crates/semanticore-context/src/error.rs. A storage error keeps the backend's own error.
use semanticore.Prelude.{String}
use semanticore.Storage.{StorageCapability}
use semanticore.Context.Scope.{ContextScope, ItemId}

pub data ContextError : Type 0 where
  shacl_unavailable datalog_unavailable : ContextError

pub data Unimplemented : Type 0 where
  owl_el_reasoner ann_index sparql : Unimplemented

pub data SessionError (E : Type 0) : Type 0 where
  capability_shortfall : ContextScope → StorageCapability → SessionError E
  missing_provenance : SessionError E
  invalid_item : String → SessionError E
  unknown_item : ItemId → SessionError E
  -- the item, the scope expected and the scope found
  scope_mismatch : ItemId → ContextScope → ContextScope → SessionError E
  durability_violation : ContextScope → ContextScope → SessionError E
  premium_only : ContextError → SessionError E
  not_yet_implemented : Unimplemented → SessionError E
  corrupt : String → SessionError E
  storage : E → SessionError E
