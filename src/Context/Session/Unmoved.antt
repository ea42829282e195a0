-- ===== src/Context/Session/Unmoved.antt =====
-- Which entries of the index an eviction of crates/semanticore-context/src/session.rs leaves as they
-- are, and where its victims are afterwards.
use semanticore.Prelude.{
  ◌<◌, ◌≡◌, ◌↔◌, ◌∙◌, sym, inl, inr, some, List, [], ◌∷◌, nat_eq, ==_cases, arith, All,
}
use semanticore.Prelude.OrdMap
use semanticore.Prelude.OrdMap.{OrdMap, IsSorted, get-adjust, get-remove}
use semanticore.Storage.{Storage}
use semanticore.Context.Scope.{ContextScope, ItemId, rank, colder}
use semanticore.Context.Platform.{Platform}
use semanticore.Context.Session.State.{Entry, Arrival, Session}
use semanticore.Context.Session.Moves.{relocate}
use semanticore.Context.Session.DurableEvictions.{ItemIn, Differ}

colder-below : (scope to : ContextScope) → colder scope ≡ some to → rank to < rank scope
unfolding colder
colder-below scope to h = ground arith

module _ ⦃p : Platform⦄ ⦃st : Storage⦄ where
  -- the entries of the more durable scopes are the same, and the same items have them
  abbrev pub SameAbove : ContextScope → Session → Session → Type 0
  SameAbove scope s s' =
      (j : ItemId) (e : Entry)
      → rank scope < rank e.scope
      → (OrdMap.get j s'.state.items ≡ some e) ↔ (OrdMap.get j s.state.items ≡ some e)

  -- the item is in a colder scope, or it is no longer live
  abbrev pub IsBelow : ContextScope → ItemId → Session → Type 0
  IsBelow scope id s =
      (e : Entry) → OrdMap.get id s.state.items ≡ some e → rank e.scope < rank scope

  -- all entries but those of the items are the same
  abbrev pub SameBut : List ItemId → Session → Session → Type 0
  SameBut ids s s' =
      (j : ItemId)
      → All (λ id. Differ id j) ids
      → OrdMap.get j s'.state.items ≡ OrdMap.get j s.state.items

  pub SameAbove-refl : (scope : ContextScope) (s : Session) → SameAbove scope s s
  SameAbove-refl scope s j e h = (λ x. x, λ x. x)

  pub SameAbove-trans :
      (scope to : ContextScope) (s s' s'' : Session)
      → ((a : ContextScope) → rank scope < rank a → rank to < rank a)
      → SameAbove scope s s'
      → SameAbove to s' s''
      → SameAbove scope s s''
  SameAbove-trans scope to s s' s'' c a b j e h =
      let x = a j e h in let y = b j e (c e.scope h) in (λ k. x.0 (y.0 k), λ k. y.1 (x.1 k))

  -- If one item of the scope goes below it and the others stay, the scopes above are the same.
  pub SameBut-SameAbove :
      (scope : ContextScope) (id : ItemId) (s s' : Session)
      → ItemIn scope id s
      → IsBelow scope id s'
      → SameBut (id ∷ []) s s'
      → SameAbove scope s s'
  SameBut-SameAbove scope id s s' l b k j e h = elim (==_cases j id) [
    | inr (t, _) ↦ rw (k j (t, tt)) (λ x. x, λ x. x)
    | inl (t, same) ↦ rw same (
      (λ x. let below = b e x in absurd (omega arith)),
      (λ x. let at = rw x at l in absurd (ground arith)),
    )
  ]

  -- A victim that stays below stays there when other entries change only.
  pub IsBelow-SameBut :
      (scope : ContextScope) (id : ItemId) (ids : List ItemId) (s s' : Session)
      → All (λ j. Differ j id) ids
      → SameBut ids s s'
      → IsBelow scope id s
      → IsBelow scope id s'
  IsBelow-SameBut scope id ids s s' d k b e h = b e (sym (k id d) ∙ h)

  pub moved-IsBelow :
      (scope to : ContextScope) (arrival : Arrival) (id : ItemId) (items : OrdMap Entry) (e : Entry)
      → OrdMap.get id items ≡ some e
      → colder scope ≡ some to
      → (e' : Entry) → OrdMap.get id (OrdMap.adjust id (relocate to arrival) items) ≡ some e'
      → rank e'.scope < rank scope
  moved-IsBelow scope to arrival id items e g c e' h =
      ground (arith, get-adjust id id (relocate to arrival) items, colder-below scope to c)

  pub removed-IsBelow :
      (scope : ContextScope) (id : ItemId) (items : OrdMap Entry)
      → IsSorted items
      → (e' : Entry) → OrdMap.get id (OrdMap.remove id items) ≡ some e'
      → rank e'.scope < rank scope
  removed-IsBelow scope id items sorted e' h =
      absurd (ground (arith, get-remove id id items sorted))
