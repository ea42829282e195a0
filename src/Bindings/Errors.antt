-- ===== src/Bindings/Errors.antt =====
-- crates/semanticore-context-py/src/errors.rs: the Python exception of each error of a session.
use semanticore.Prelude.{◌≡◌, ◌≢◌, ◌⊎◌, inl, inr, refl, String, Option, none, some, List, [], ◌∷◌}
use semanticore.Storage.{StorageCapability}
use semanticore.Context.Scope.{ContextScope, ItemId}
use semanticore.Context.Error.{SessionError, ContextError, Unimplemented}

-- the classes that `create_exception!` makes
pub data ExceptionClass : Type 0 where
  session_error capability_shortfall_error missing_provenance_error invalid_item_error :
      ExceptionClass
  unknown_item_error scope_mismatch_error durability_violation_error premium_only_error :
      ExceptionClass
  shacl_unavailable_error datalog_unavailable_error not_yet_implemented_error : ExceptionClass
  corrupt_store_error storage_error session_closed_error : ExceptionClass

-- the base class; `none` stands for Python's `Exception`
unfoldable pub base : ExceptionClass → Option ExceptionClass
base ExceptionClass.session_error = none
base ExceptionClass.shacl_unavailable_error = some ExceptionClass.premium_only_error
base ExceptionClass.datalog_unavailable_error = some ExceptionClass.premium_only_error
base _ = some ExceptionClass.session_error

-- the Python object that an attribute holds
pub data Attribute : Type 0 where
  of_scope : ContextScope → Attribute
  of_text : String → Attribute
  of_id : ItemId → Attribute

pub record PyErr : Type 0 where
  pub class : ExceptionClass
  pub message : String
  pub attributes : List (String × Attribute)

unfoldable pub feature_name : Unimplemented → String
feature_name Unimplemented.owl_el_reasoner = "owl_el_reasoner"
feature_name Unimplemented.ann_index = "ann_index"
feature_name Unimplemented.sparql = "sparql"

abbrev premium_class : ContextError → ExceptionClass
premium_class ContextError.shacl_unavailable = ExceptionClass.shacl_unavailable_error
premium_class ContextError.datalog_unavailable = ExceptionClass.datalog_unavailable_error

unfoldable pub class_of : {E : Type 0} → SessionError E → ExceptionClass
class_of (SessionError.capability_shortfall _ _) = ExceptionClass.capability_shortfall_error
class_of SessionError.missing_provenance = ExceptionClass.missing_provenance_error
class_of (SessionError.invalid_item _) = ExceptionClass.invalid_item_error
class_of (SessionError.unknown_item _) = ExceptionClass.unknown_item_error
class_of (SessionError.scope_mismatch _ _ _) = ExceptionClass.scope_mismatch_error
class_of (SessionError.durability_violation _ _) = ExceptionClass.durability_violation_error
class_of (SessionError.premium_only which) = premium_class which
class_of (SessionError.not_yet_implemented _) = ExceptionClass.not_yet_implemented_error
class_of (SessionError.corrupt _) = ExceptionClass.corrupt_store_error
class_of (SessionError.storage _) = ExceptionClass.storage_error

-- `debug` is the `Debug` text of a capability
unfoldable pub attributes_of :
    {E : Type 0} → (StorageCapability → String) → SessionError E → List (String × Attribute)
attributes_of debug (SessionError.capability_shortfall scope required) =
    ("scope", Attribute.of_scope scope) ∷ ("required", Attribute.of_text (debug required)) ∷ []
attributes_of debug SessionError.missing_provenance = []
attributes_of debug (SessionError.invalid_item reason) = ("reason", Attribute.of_text reason) ∷ []
attributes_of debug (SessionError.unknown_item id) = ("item_id", Attribute.of_id id) ∷ []
attributes_of debug (SessionError.scope_mismatch item expected found) =
    ("item_id", Attribute.of_id item)
    ∷ ("expected", Attribute.of_scope expected)
    ∷ ("found", Attribute.of_scope found)
    ∷ []
attributes_of debug (SessionError.durability_violation from to) =
    ("from_scope", Attribute.of_scope from) ∷ ("to_scope", Attribute.of_scope to) ∷ []
attributes_of debug (SessionError.premium_only _) = []
attributes_of debug (SessionError.not_yet_implemented what) =
    ("feature", Attribute.of_text (feature_name what)) ∷ []
attributes_of debug (SessionError.corrupt reason) = ("reason", Attribute.of_text reason) ∷ []
attributes_of debug (SessionError.storage _) = []

-- `display` is the `Display` text of an error
unfoldable pub to_py_err :
    {E : Type 0} → (SessionError E → String) → (StorageCapability → String) → SessionError E → PyErr
to_py_err display debug e = record {
  class = class_of e;
  message = display e;
  attributes = attributes_of debug e;
}

unfoldable pub closed_err : PyErr
closed_err = record {
  class = ExceptionClass.session_closed_error;
  message = "the Session is closed";
  attributes = [];
}

-- whether a class is another or below it, which takes two steps at most
abbrev pub IsBelow : ExceptionClass → ExceptionClass → Type 0
IsBelow class above =
    (class ≡ above)
    ⊎ ((base class ≡ some above)
        ⊎ ((next : ExceptionClass) × (base class ≡ some next) × (base next ≡ some above)))

-- The exception of every error, and that of a closed session, is below `SessionError`, and that of an
-- error is not the one of a closed session.
pub to_py_err-base :
    {E : Type 0} (display : SessionError E → String) (debug : StorageCapability → String)
    (e : SessionError E)
    → IsBelow (to_py_err display debug e).class ExceptionClass.session_error
      × IsBelow closed_err.class ExceptionClass.session_error
      × ((to_py_err display debug e).class ≢ closed_err.class)
unfolding to_py_err class_of base closed_err
to_py_err-base display debug (SessionError.capability_shortfall _ _) =
    (inr (inl refl), inr (inl refl), λ q. cc)
to_py_err-base display debug SessionError.missing_provenance =
    (inr (inl refl), inr (inl refl), λ q. cc)
to_py_err-base display debug (SessionError.invalid_item _) =
    (inr (inl refl), inr (inl refl), λ q. cc)
to_py_err-base display debug (SessionError.unknown_item _) =
    (inr (inl refl), inr (inl refl), λ q. cc)
to_py_err-base display debug (SessionError.scope_mismatch _ _ _) =
    (inr (inl refl), inr (inl refl), λ q. cc)
to_py_err-base display debug (SessionError.durability_violation _ _) =
    (inr (inl refl), inr (inl refl), λ q. cc)
to_py_err-base display debug (SessionError.premium_only ContextError.shacl_unavailable) =
    (inr (inr (_, refl, refl)), inr (inl refl), λ q. cc)
to_py_err-base display debug (SessionError.premium_only ContextError.datalog_unavailable) =
    (inr (inr (_, refl, refl)), inr (inl refl), λ q. cc)
to_py_err-base display debug (SessionError.not_yet_implemented _) =
    (inr (inl refl), inr (inl refl), λ q. cc)
to_py_err-base display debug (SessionError.corrupt _) = (inr (inl refl), inr (inl refl), λ q. cc)
to_py_err-base display debug (SessionError.storage _) = (inr (inl refl), inr (inl refl), λ q. cc)
