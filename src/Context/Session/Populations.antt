-- ===== src/Context/Session/Populations.antt =====
-- The populations of the scopes after one item has moved or was removed.
use semanticore.Prelude.{◌+◌, ◌≡◌, ◌≢◌, inl, inr, true, some, ◌==◌, nat_eq, ==_iff, ==_cases, arith}
use semanticore.Prelude.OrdMap
use semanticore.Prelude.OrdMap.{OrdMap, count-adjust, count-remove}
use semanticore.Storage.{Storage}
use semanticore.Context.Scope.{ContextScope, ItemId, scope_eq}
use semanticore.Context.Platform.{Platform}
use semanticore.Context.Session.State.{Entry, Arrival}
use semanticore.Context.Session.Moves.{relocate, in_scope, population}

module _ ⦃p : Platform⦄ ⦃st : Storage⦄ where
  -- the populations after a move to the colder scope, and after a removal
  pub fewer_moved :
      (scope to : ContextScope) (arrival : Arrival) (id : ItemId) (items : OrdMap Entry) (e : Entry)
      → OrdMap.get id items ≡ some e
      → e.scope ≡ scope
      → to ≢ scope
      → population (OrdMap.adjust id (relocate to arrival) items) scope + 1 ≡ population items scope
  fewer_moved scope to arrival id items e g same n =
      let k = count-adjust (in_scope scope) id (relocate to arrival) items e g in
      let here : (e.scope == scope) ≡ true = (==_iff e.scope scope).1 same in
      let k' = rw here at k in
      elim (==_cases to scope) [
        | inl (t, x) ↦ absurd (n x)
        | inr (t, x) ↦ let k'' = rw t at k' in omega arith
      ]

  pub hotter_moved :
      (scope to a : ContextScope) (arrival : Arrival) (id : ItemId) (items : OrdMap Entry)
      (e : Entry)
      → OrdMap.get id items ≡ some e
      → e.scope ≢ a
      → to ≢ a
      → population (OrdMap.adjust id (relocate to arrival) items) a ≡ population items a
  hotter_moved scope to a arrival id items e g n m =
      let k = count-adjust (in_scope a) id (relocate to arrival) items e g in
      elim (==_cases e.scope a) [
        | inl (t, x) ↦ absurd (n x)
        | inr (t, x) ↦ elim (==_cases to a) [
          | inl (t', x') ↦ absurd (m x')
          | inr (t', x') ↦ let k'' = rw t at (rw t' at k) in omega arith
        ]
      ]

  pub fewer_removed :
      (scope : ContextScope) (id : ItemId) (items : OrdMap Entry) (e : Entry)
      → OrdMap.get id items ≡ some e
      → e.scope ≡ scope
      → population (OrdMap.remove id items) scope + 1 ≡ population items scope
  fewer_removed scope id items e g same =
      let k = count-remove (in_scope scope) id items e g in
      let here : (e.scope == scope) ≡ true = (==_iff e.scope scope).1 same in
      let k' = rw here at k in omega arith

  pub hotter_removed :
      (a : ContextScope) (id : ItemId) (items : OrdMap Entry) (e : Entry)
      → OrdMap.get id items ≡ some e
      → e.scope ≢ a
      → population (OrdMap.remove id items) a ≡ population items a
  hotter_removed a id items e g n =
      let k = count-remove (in_scope a) id items e g in
      elim (==_cases e.scope a) [
        | inl (t, x) ↦ absurd (n x)
        | inr (t, x) ↦ let k' = rw t at k in omega arith
      ]
