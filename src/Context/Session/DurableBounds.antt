-- ===== src/Context/Session/DurableBounds.antt =====
-- Evicting the victims of a policy and enforcing the bounds keep the invariant of `Durable`.
use semanticore.Prelude.{
  ℕ, ◌≡◌, ◌≢◌, refl, ap, inl, inr, Option, none, some, List, ok, ok-inj, Bool-cases, nat_eq, All,
  Pairs, ltb, ◌-◌,
}
use semanticore.Storage.{Storage}
use semanticore.Storage.Contract.{View, Contract}
use semanticore.Context.Scope.{ContextScope, ItemId, scope_eq}
use semanticore.Context.Platform.{Platform}
use semanticore.Context.Config.{bound_of}
use semanticore.Context.Session.State.{Arrival, Session, now, for_each, ◌>>=◌, ◌>>◌}
use semanticore.Context.Session.Moves.{
  move_item, drop_item, pick_victims, victims, evict_one, evict_victims, evict_count, evict_over,
  enforce_bound, enforce_bounds, population,
}
use semanticore.Context.Session.Durable.{IsStored}
use semanticore.Context.Session.DurableMoves.{drop_item-IsStored}
use semanticore.Context.Session.DurableEvictions.{
  ItemIn, Differ, ItemIn-move_item, evict_one-IsStored, move_away-IsStored,
}
use semanticore.Context.Session.Rules.{Keeps, >>=_ends, >>=-Keeps, for_each_ends}
use semanticore.Context.Session.Picked.{ItemIn-evict_one, pick_victims-ItemIn, pick_victims-Differ}

module _ ⦃p : Platform⦄ ⦃st : Storage⦄ (v : View st) (c : Contract st v) where
  -- Evicting distinct items of a scope keeps the invariant.
  pub evict_victims-IsStored :
      (scope : ContextScope) (ids : List ItemId) (s : Session)
      → All (λ id. ItemIn scope id s) ids
      → Pairs Differ ids
      → IsStored v s
      → IsStored v (evict_victims scope ids s).1
  unfolding evict_victims
  evict_victims-IsStored scope ids s l d h =
      for_each_ends (evict_one scope) (IsStored v) (ItemIn scope) Differ
        (λ id s' h' l'. evict_one-IsStored v c scope id s' l' h')
        (λ id j s' h' _ n l'. ItemIn-evict_one scope id j s' h'.sorted n l') ids s h l d

  -- Moving distinct items of a scope out of it keeps the invariant.
  pub moves-IsStored :
      (scope to : ContextScope) (arrival : Arrival) (ids : List ItemId) (s : Session)
      → to ≢ scope
      → All (λ id. ItemIn scope id s) ids
      → Pairs Differ ids
      → IsStored v s
      → IsStored v (for_each ids (λ id. move_item id to arrival) s).1
  moves-IsStored scope to arrival ids s n l d h =
      for_each_ends (λ id. move_item id to arrival) (IsStored v) (ItemIn scope) Differ
        (λ id s' h' l'. move_away-IsStored v c scope to arrival id s' n l' h')
        (λ id j s' _ _ r l'. ItemIn-move_item scope id j to arrival s' r l') ids s h l d

  pub drops-IsStored :
      (ids : List ItemId) (s : Session)
      → Pairs Differ ids
      → All (λ _. Unit {0}) ids
      → IsStored v s
      → IsStored v (for_each ids drop_item s).1
  drops-IsStored ids s d u h =
      for_each_ends drop_item (IsStored v) (λ _ _. Unit {0}) Differ
        (λ id s' h' _. drop_item-IsStored v c id s' h') (λ _ _ _ _ _ _ _. tt) ids s h u d

  pub victims-IsStored : (scope : ContextScope) (n : ℕ) → Keeps (IsStored v) (victims scope n)
  unfolding victims ◌>>=◌
  victims-IsStored scope n s h = record { sorted = h.sorted; fits = h.fits; whole = h.whole }

  -- Evicting what a policy picks keeps the invariant.
  pub picked-IsStored :
      (scope : ContextScope) (n : ℕ) (s : Session) {ids : List ItemId}
      → victims scope n s ≡ (ok ids, (victims scope n s).1)
      → IsStored v s
      → IsStored v (evict_victims scope ids (victims scope n s).1).1
  unfolding victims ◌>>=◌
  picked-IsStored scope n s {ids} e h =
      let t = p.clock s.readings in
      let policy = s.settings.eviction_policy in
      let same : pick_victims policy s.state.items scope n t ≡ ids =
        ok-inj refl (ap (λ x. x.0) e) in
      evict_victims-IsStored scope ids (victims scope n s).1
        (rw (← same) (pick_victims-ItemIn policy scope n t (now s).1 h.sorted))
        (rw (← same) (pick_victims-Differ policy scope n t s.state.items h.sorted))
        (victims-IsStored scope n s h)

  pub evict_count-IsStored :
      (scope : ContextScope) (n : ℕ) → Keeps (IsStored v) (evict_count scope n)
  unfolding evict_count
  evict_count-IsStored scope n s h =
      >>=_ends (IsStored v) (victims scope n) _ s (victims-IsStored scope n s h)
        (λ ids e _. picked-IsStored scope n s e h)

  evict_over-IsStored :
      (scope : ContextScope) (o : Option ℕ) (n : ℕ) (s : Session)
      → IsStored v s
      → IsStored v (evict_over scope o n s).1
  unfolding evict_over
  evict_over-IsStored scope none n s h = h
  evict_over-IsStored scope (some bound) n s h = elim (Bool-cases (ltb bound n)) [
    | inl t ↦ rw t (evict_count-IsStored scope (n - bound) s h)
    | inr t ↦ rw t h
  ]

  pub enforce_bound-IsStored :
      (scope : ContextScope) (s : Session) → IsStored v s → IsStored v (enforce_bound scope s).1
  unfolding enforce_bound ◌>>=◌
  enforce_bound-IsStored scope s h =
      evict_over-IsStored scope (bound_of s.settings.bounds scope) (population s.state.items scope)
        s h

  -- Enforcing the bounds keeps the invariant, however far it gets.
  pub enforce_bounds-IsStored : (scope : ContextScope) → Keeps (IsStored v) (enforce_bounds scope)
  unfolding enforce_bounds
  enforce_bounds-IsStored ContextScope.enduring =
      >>=-Keeps (IsStored v) (enforce_bound ContextScope.enduring)
        (λ _. enforce_bound ContextScope.major >> enforce_bound ContextScope.minor)
        (enforce_bound-IsStored ContextScope.enduring)
        (λ _.
          >>=-Keeps (IsStored v) (enforce_bound ContextScope.major)
            (λ _. enforce_bound ContextScope.minor) (enforce_bound-IsStored ContextScope.major)
            (λ _. enforce_bound-IsStored ContextScope.minor))
  enforce_bounds-IsStored ContextScope.major =
      >>=-Keeps (IsStored v) (enforce_bound ContextScope.major)
        (λ _. enforce_bound ContextScope.minor) (enforce_bound-IsStored ContextScope.major)
        (λ _. enforce_bound-IsStored ContextScope.minor)
  enforce_bounds-IsStored ContextScope.minor = enforce_bound-IsStored ContextScope.minor
