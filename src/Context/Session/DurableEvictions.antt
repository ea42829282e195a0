-- ===== src/Context/Session/DurableEvictions.antt =====
-- Evictions keep the invariant of `Durable`: down to the bounds, and by choice of the caller.
use semanticore.Prelude.{
  ◌≡◌, ◌≢◌, refl, sym, ap, ◌∙◌, inl, inr, false, Option, none, some, Result-cases, Option-cases,
  ◌==◌, nat_eq, arith,
}
use semanticore.Prelude.OrdMap
use semanticore.Prelude.OrdMap.{OrdMap, IsSorted, get-adjust, get-remove}
use semanticore.Storage.{Storage}
use semanticore.Storage.Contract.{View, Contract}
use semanticore.Context.Scope.{ContextScope, ItemId, colder}
use semanticore.Context.Platform.{Platform}
use semanticore.Context.Config.{tier, DemotionTarget}
use semanticore.Context.Session.State.{Entry, Arrival, Session, modify_stats, count_demoted, ◌>>=◌}
use semanticore.Context.Session.Stored.{delete}
use semanticore.Context.Session.Moves.{
  relocate, move_item, drop_item, evict_to, evict_arrived, evict_by, evict_one, target_of,
}
use semanticore.Context.Session.Ends.{
  write_target, clear_source, move_item_missing, move_item_uncopied, move_item_uncleared,
  move_item_moved, drop_item_missing, drop_item_kept, drop_item_dropped,
}
use semanticore.Context.Session.Durable.{IsStored}
use semanticore.Context.Session.DurableMoves.{
  move_item-IsStored, drop_item-IsStored, stats-IsStored,
}
use semanticore.Context.Session.Rules.{>>=_ends}

abbrev pub Differ : ItemId → ItemId → Type 0
Differ a b = (b == a) ≡ false

module _ ⦃p : Platform⦄ ⦃st : Storage⦄ where
  -- A move changes no other entry of the index.
  pub get-move_item :
      (id j : ItemId) (to : ContextScope) (arrival : Arrival) (s : Session)
      → (j == id) ≡ false
      → OrdMap.get j (move_item id to arrival s).1.state.items ≡ OrdMap.get j s.state.items
  get-move_item id j to arrival s n = elim (Option-cases (OrdMap.get id s.state.items)) [
    | inl g ↦ rw (move_item_missing id to arrival s g) refl
    | inr (e, g) ↦ elim (Result-cases (write_target id to arrival s e g)) [
      | inr (x, r) ↦ rw (move_item_uncopied id to arrival s e g r) refl
      | inl (u, r) ↦ elim (Result-cases (clear_source id to arrival s e g)) [
        | inr (x, k) ↦ rw (move_item_uncleared id to arrival s e g r k) refl
        | inl (w, k) ↦
            rw (move_item_moved id to arrival s e g r k)
              (rw (get-adjust j id (relocate to arrival) s.state.items) (rw n))
      ]
    ]
  ]

  pub get-drop_item :
      (id j : ItemId) (s : Session)
      → IsSorted s.state.items
      → (j == id) ≡ false
      → OrdMap.get j (drop_item id s).1.state.items ≡ OrdMap.get j s.state.items
  get-drop_item id j s sorted n = elim (Option-cases (OrdMap.get id s.state.items)) [
    | inl g ↦ rw (drop_item_missing id s g) refl
    | inr (e, g) ↦ elim (Result-cases (delete (tier s.stores e.scope) id).0) [
      | inr (x, r) ↦ rw (drop_item_kept id s e g r) refl
      | inl (u, r) ↦
          rw (drop_item_dropped id s e g r) (rw (get-remove j id s.state.items sorted) (rw n))
    ]
  ]

  -- the item is in the scope, if it is live at all
  abbrev pub LiesIn : ContextScope → Option Entry → Type 0
  LiesIn scope none = Unit
  LiesIn scope (some e) = e.scope ≡ scope

  abbrev pub ItemIn : ContextScope → ItemId → Session → Type 0
  ItemIn scope id s = LiesIn scope (OrdMap.get id s.state.items)

  -- A move keeps the place of every other item.
  pub ItemIn-move_item :
      (scope : ContextScope) (id j : ItemId) (to : ContextScope) (arrival : Arrival) (s : Session)
      → Differ id j
      → ItemIn scope j s
      → ItemIn scope j (move_item id to arrival s).1
  ItemIn-move_item scope id j to arrival s n h = rw (get-move_item id j to arrival s n) h

  LiesIn-away :
      (scope to : ContextScope) (o : Option Entry) (e : Entry)
      → to ≢ scope
      → LiesIn scope o
      → o ≡ some e
      → to ≢ e.scope
  LiesIn-away scope to none e n l g = cc
  LiesIn-away scope to (some f) e n l g = λ x. n (x ∙ (ap (λ o. scope_or scope o) (sym g) ∙ l))
    where
      scope_or : ContextScope → Option Entry → ContextScope
      scope_or d none = d
      scope_or d (some e) = e.scope

-- A colder scope is another scope.
pub colder-ne : (scope to : ContextScope) → colder scope ≡ some to → to ≢ scope
unfolding colder
colder-ne scope to h e = ground arith

pub target_of-colder :
    (scope to : ContextScope) (t : DemotionTarget) (a : Arrival)
    → target_of t scope a ≡ some to
    → colder scope ≡ some to
unfolding target_of
target_of-colder scope to t a h = ground arith

module _ ⦃p : Platform⦄ ⦃st : Storage⦄ (v : View st) (c : Contract st v) where
  pub move_away-IsStored :
      (scope to : ContextScope) (arrival : Arrival) (id : ItemId) (s : Session)
      → to ≢ scope
      → ItemIn scope id s
      → IsStored v s
      → IsStored v (move_item id to arrival s).1
  move_away-IsStored scope to arrival id s n l h =
      move_item-IsStored v c id to arrival s
        (λ e g. LiesIn-away scope to (OrdMap.get id s.state.items) e n l g) h

  evict_to-IsStored :
      (scope : ContextScope) (target : Option ContextScope) (id : ItemId) (s : Session)
      → ((to : ContextScope) → target ≡ some to → to ≢ scope)
      → ItemIn scope id s
      → IsStored v s
      → IsStored v (evict_to target id s).1
  unfolding evict_to
  evict_to-IsStored scope none id s n l h = drop_item-IsStored v c id s h
  evict_to-IsStored scope (some to) id s n l h =
      >>=_ends (IsStored v) (move_item id to Arrival.demoted) (λ _. modify_stats (count_demoted 1))
        s (move_away-IsStored scope to Arrival.demoted id s (n to refl) l h)
        (λ a e h'. stats-IsStored v (count_demoted 1) (move_item id to Arrival.demoted s).1 h')

  evict_arrived-IsStored :
      (scope : ContextScope) (id : ItemId) (o : Option Entry) (s : Session)
      → ItemIn scope id s
      → IsStored v s
      → IsStored v (evict_arrived scope id o s).1
  unfolding evict_arrived
  evict_arrived-IsStored scope id none s l h = h
  evict_arrived-IsStored scope id (some e) s l h =
      evict_to-IsStored scope (target_of DemotionTarget.one_step_then_drop scope e.arrival) id s
        (λ to t.
          colder-ne scope to
            (target_of-colder scope to DemotionTarget.one_step_then_drop e.arrival t))
        l h

  evict_by-IsStored :
      (t : DemotionTarget) (scope : ContextScope) (id : ItemId) (s : Session)
      → ItemIn scope id s
      → IsStored v s
      → IsStored v (evict_by t scope id s).1
  unfolding evict_by ◌>>=◌
  evict_by-IsStored DemotionTarget.drop scope id s l h =
      evict_to-IsStored scope none id s (λ to x. cc) l h
  evict_by-IsStored DemotionTarget.next_colder scope id s l h =
      evict_to-IsStored scope (colder scope) id s (λ to x. colder-ne scope to x) l h
  evict_by-IsStored DemotionTarget.one_step_then_drop scope id s l h =
      evict_arrived-IsStored scope id (OrdMap.get id s.state.items) s l h

  pub evict_one-IsStored :
      (scope : ContextScope) (id : ItemId) (s : Session)
      → ItemIn scope id s
      → IsStored v s
      → IsStored v (evict_one scope id s).1
  unfolding evict_one ◌>>=◌
  evict_one-IsStored scope id s l h = evict_by-IsStored s.settings.demotion_target scope id s l h
