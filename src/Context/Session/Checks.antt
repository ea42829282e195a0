-- ===== src/Context/Session/Checks.antt =====
-- The checks of crates/semanticore-context/src/session.rs that an operation makes before it changes
-- anything: `validate` and `check_in_scope`.
use semanticore.Prelude.{
  Bool, not, Option, none, some, List, [], ◌∷◌, Result, ok, err, ◌>>◌, ◌==◌, nat_eq, if◌then◌else◌,
  any, mem, is_some,
}
use semanticore.Prelude.OrdMap
use semanticore.Prelude.OrdMap.{OrdMap}
use semanticore.Model.{Quad, NamedOrDefault, graph_eq}
use semanticore.Context.Scope.{ContextScope, ItemId, scope_eq}
use semanticore.Context.Decimal.{is_blank}
use semanticore.Context.Platform.{Platform}
use semanticore.Context.Item.{ContextPayload, ContextItem}
use semanticore.Context.Error.{SessionError}
use semanticore.Context.Session.State.{Entry}

-- the ids without repetition, in the order in which they are first seen
unfoldable pub first_seen : List ItemId → List ItemId → List ItemId
first_seen seen [] = []
first_seen seen (id ∷ ids) =
    let known = first_seen seen ids in
    let new = id ∷ first_seen (id ∷ seen) ids in if mem id seen then known else new

unfoldable pub outside_default : Quad → Bool
outside_default q = not (q.graph == NamedOrDefault.default)

-- `find` of the first id that is not a key
unfoldable pub first_unknown {ℓ} : {V : Type ℓ} → OrdMap V → List ItemId → Option ItemId
first_unknown items [] = none
first_unknown items (id ∷ ids) =
    let rest = first_unknown items ids in if is_some (OrdMap.get id items) then rest else some id

module _ ⦃p : Platform⦄ {E : Type 0} where
  unfoldable pub check_payload : ContextPayload → Result (SessionError E) (Unit {0})
  check_payload (ContextPayload.triples quads) =
      if any outside_default quads
      then err (SessionError.invalid_item "triples must be in the default graph")
      else ok tt
  check_payload _ = ok tt

  unfoldable pub check_embedding : Option (List p.F32) → Result (SessionError E) (Unit {0})
  check_embedding none = ok tt
  check_embedding (some v) =
      if any (λ x. not (p.is_finite x)) v
      then err (SessionError.invalid_item "embedding values must be finite")
      else ok tt

  unfoldable pub check_derived : OrdMap Entry → List ItemId → Result (SessionError E) (Unit {0})
  check_derived items ids = elim (first_unknown items ids) [
    | some id ↦ err (SessionError.unknown_item id)
    | none ↦ ok tt
  ]

  unfoldable pub check_source : Bool → Result (SessionError E) (Unit {0})
  check_source blank = if blank then err SessionError.missing_provenance else ok tt

  unfoldable pub validate : OrdMap Entry → ContextItem → Result (SessionError E) (Unit {0})
  validate items item = do
    check_source (is_blank item.provenance.source)
    check_payload item.payload
    check_embedding item.embedding
    check_derived items item.provenance.derived_from

  -- the loop of `add_batch` over `validate`
  unfoldable pub validate_all : OrdMap Entry → List ContextItem → Result (SessionError E) (Unit {0})
  validate_all items [] = ok tt
  validate_all items (item ∷ rest) = do validate items item; validate_all items rest

  unfoldable pub check_entry :
      ContextScope → ItemId → Option Entry → Result (SessionError E) (Unit {0})
  check_entry scope id none = err (SessionError.unknown_item id)
  check_entry scope id (some e) =
      if e.scope == scope then ok tt else err (SessionError.scope_mismatch id scope e.scope)

  -- the loop of `check_in_scope`
  unfoldable pub check_each :
      OrdMap Entry → ContextScope → List ItemId → Result (SessionError E) (Unit {0})
  unfolding check_entry
  check_each items scope [] = ok tt
  check_each items scope (id ∷ ids) = do
    check_entry scope id (OrdMap.get id items)
    check_each items scope ids

  unfoldable pub check_in_scope :
      OrdMap Entry → List ItemId → ContextScope → Result (SessionError E) (List ItemId)
  check_in_scope items ids scope = do
    check_each items scope (first_seen [] ids)
    ok (first_seen [] ids)
