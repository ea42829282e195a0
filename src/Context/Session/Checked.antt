-- ===== src/Context/Session/Checked.antt =====
-- What the checks of a session promise to the operation that follows them.
use semanticore.Prelude.{
  ◌≡◌, ◌↔◌, refl, sym, ◌∙◌, inl, inr, false, not, ◌&&◌, some, List, [], ◌∷◌, ok, Bool-cases,
  Option-cases, Result-cases, nat_eq, ==_cases, arith, All, All-map, Pairs, mem,
}
use semanticore.Prelude.OrdMap
use semanticore.Prelude.OrdMap.{OrdMap}
use semanticore.Storage.{Storage}
use semanticore.Context.Scope.{ContextScope, ItemId, scope_eq}
use semanticore.Context.Platform.{Platform}
use semanticore.Context.Session.State.{Entry, Session}
use semanticore.Context.Session.Checks.{first_seen, check_each, check_in_scope}
use semanticore.Context.Session.Repeats.{
  without_repeats, first_seen-without_repeats, All-without_repeats, without_repeats-All,
}
use semanticore.Context.Session.DurableEvictions.{Differ, ItemIn}

-- an id that is not in a list is not its head and not in its tail
mem_tail : (j id : ItemId) (seen : List ItemId) → mem j (id ∷ seen) ≡ false → mem j seen ≡ false
unfolding mem
mem_tail j id seen h = ground arith

mem_head : (j id : ItemId) (seen : List ItemId) → mem j (id ∷ seen) ≡ false → Differ id j
unfolding mem
mem_head j id seen h = ground arith

first_seen-unseen : (seen ids : List ItemId) → All (λ id. mem id seen ≡ false) (first_seen seen ids)
unfolding first_seen
first_seen-unseen seen [] = tt
first_seen-unseen seen (id ∷ ids) = elim (Bool-cases (mem id seen)) [
  | inl t ↦ rw t (first_seen-unseen seen ids)
  | inr t ↦ rw t (
    t,
    All-map (λ j. mem j (id ∷ seen) ≡ false) (λ j. mem j seen ≡ false) (λ j. mem_tail j id seen)
        (first_seen (id ∷ seen) ids) (first_seen-unseen (id ∷ seen) ids),
  )
]

-- The checked ids are without repetition.
pub first_seen-Differ : (seen ids : List ItemId) → Pairs Differ (first_seen seen ids)
unfolding first_seen
first_seen-Differ seen [] = tt
first_seen-Differ seen (id ∷ ids) = elim (Bool-cases (mem id seen)) [
  | inl t ↦ rw t (first_seen-Differ seen ids)
  | inr t ↦ rw t (
    All-map (λ j. mem j (id ∷ seen) ≡ false) (Differ id) (λ j. mem_head j id seen)
        (first_seen (id ∷ seen) ids) (first_seen-unseen (id ∷ seen) ids),
    first_seen-Differ (id ∷ seen) ids,
  )
]

-- Nothing is lost and nothing added: the ids are those that were given and not seen before.
pub mem-first_seen :
    (id : ItemId) (seen ids : List ItemId)
    → mem id (first_seen seen ids) ≡ (not (mem id seen) && mem id ids)
unfolding first_seen mem
mem-first_seen id seen [] = ground arith
mem-first_seen id seen (j ∷ ids) =
    ground (arith, mem-first_seen id seen ids, mem-first_seen id (j ∷ seen) ids)

-- the item is live in the scope
abbrev pub LiveIn : ⦃p : Platform⦄ → OrdMap Entry → ContextScope → ItemId → Type 0
LiveIn items scope id = (e : Entry) × (OrdMap.get id items ≡ some e) × (e.scope ≡ scope)

module _ ⦃p : Platform⦄ {E : Type 0} where
  check_each-LiveIn :
      (items : OrdMap Entry) (scope : ContextScope) (ids : List ItemId)
      → check_each {E = E} items scope ids ≡ ok tt
      → All (LiveIn items scope) ids
  unfolding check_each
  check_each-LiveIn items scope [] h = tt
  check_each-LiveIn items scope (id ∷ ids) h = elim (Option-cases (OrdMap.get id items)) [
    | inl g ↦ absurd (ground arith)
    | inr (e, g) ↦ elim (==_cases e.scope scope) [
      | inl (t, same) ↦ ((e, g, same), check_each-LiveIn items scope ids (ground arith))
      | inr (t, _) ↦ absurd (ground arith)
    ]
  ]

  LiveIn-check_each :
      (items : OrdMap Entry) (scope : ContextScope) (ids : List ItemId)
      → All (LiveIn items scope) ids
      → check_each {E = E} items scope ids ≡ ok tt
  unfolding check_each
  LiveIn-check_each items scope [] h = refl
  LiveIn-check_each items scope (id ∷ ids) ((e, g, same), h) =
      ground (arith, LiveIn-check_each items scope ids h)

  pub check_in_scope-first_seen :
      (items : OrdMap Entry) (ids : List ItemId) (scope : ContextScope) (out : List ItemId)
      → (check_in_scope {E = E} items ids scope ≡ ok out)
        ↔ (All (LiveIn items scope) (first_seen [] ids) × (out ≡ first_seen [] ids))
  unfolding check_in_scope
  check_in_scope-first_seen items ids scope out = (
    λ h. elim (Result-cases (check_each {E = E} items scope (first_seen [] ids))) [
      | inl (u, r) ↦ (check_each-LiveIn items scope (first_seen [] ids) r, ground arith)
      | inr (e, r) ↦ absurd (ground arith)
    ],
    λ (l, e). ground (arith, LiveIn-check_each items scope (first_seen [] ids) l),
  )

  -- `check_in_scope` succeeds exactly when every given id is live in the scope, and gives back the
  -- list in which each given id stands once, where the given list has it first.
  pub check_in_scope_iff :
      (items : OrdMap Entry) (ids : List ItemId) (scope : ContextScope) (out : List ItemId)
      → (check_in_scope {E = E} items ids scope ≡ ok out)
        ↔ (All (LiveIn items scope) ids × (out ≡ without_repeats ids))
  check_in_scope_iff items ids scope out =
      let live = LiveIn items scope in
      let same = first_seen-without_repeats ids in
      let (there, back) = check_in_scope-first_seen items ids scope out in
      (
        λ h. let (l, e) = there h in (All-without_repeats live ids (rw same at l), e ∙ same),
        λ (l, e). back (rw same (without_repeats-All live ids l), e ∙ sym same),
      )

module _ ⦃p : Platform⦄ ⦃st : Storage⦄ where
  pub LiveIn-ItemIn :
      (scope : ContextScope) (s : Session) (ids : List ItemId)
      → All (LiveIn s.state.items scope) ids
      → All (λ id. ItemIn scope id s) ids
  LiveIn-ItemIn scope s ids =
      All-map (LiveIn s.state.items scope) (λ id. ItemIn scope id s) (λ id (e, g, same). rw g same)
        ids
