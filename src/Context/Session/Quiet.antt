-- ===== src/Context/Session/Quiet.antt =====
-- Statements on the index and the next id, over the private helpers of
-- crates/semanticore-context/src/session.rs.
use semanticore.Prelude.{
  ℕ, ◌-◌, Option, none, some, List, [], ◌∷◌, ltb, Bool-cases, inl, inr, Option-cases,
}
use semanticore.Prelude.OrdMap
use semanticore.Prelude.OrdMap.{OrdMap}
use semanticore.Storage.{Storage}
use semanticore.Context.Scope.{ContextScope, ItemId, colder}
use semanticore.Context.Platform.{Platform}
use semanticore.Context.Config.{DemotionTarget}
use semanticore.Context.Session.State.{Entry, Arrival, Session, modify_items, for_each, ◌>>=◌}
use semanticore.Context.Session.Moves.{
  relocate, move_entry, move_item, drop_entry, drop_item, victims, evict_to, evict_arrived,
  evict_by, evict_one, evict_victims, evict_count, evict_over, enforce_bound, enforce_bounds,
  enforce_after, promote_found, auto_promote,
}
use semanticore.Context.Session.Rules.{Keeps, >>=-Keeps, for_each-Keeps}

module _ ⦃p : Platform⦄ ⦃st : Storage⦄ where
  -- A statement on the index and the next id that holds on when an entry is changed or removed.
  pub record IsQuiet (Q : OrdMap Entry → ℕ → Type 0) : Type 0 where
    pub adjusts :
        (id : ItemId) (f : Entry → Entry) (m : OrdMap Entry) (n : ℕ)
        → Q m n
        → Q (OrdMap.adjust id f m) n
    pub removes : (id : ItemId) (m : OrdMap Entry) (n : ℕ) → Q m n → Q (OrdMap.remove id m) n

module _ ⦃p : Platform⦄ ⦃st : Storage⦄ (Q : OrdMap Entry → ℕ → Type 0) (quiet : IsQuiet Q) where
  abbrev pub Holds : Session → Type 0
  Holds s = Q s.state.items s.state.next_id

  pub adjust-Holds :
      (id : ItemId) (f : Entry → Entry) → Keeps Holds (modify_items (OrdMap.adjust id f))
  adjust-Holds id f s h = quiet.adjusts id f s.state.items s.state.next_id h

  pub remove-Holds : (id : ItemId) → Keeps Holds (modify_items (OrdMap.remove id))
  remove-Holds id s h = quiet.removes id s.state.items s.state.next_id h

  move_entry-Holds :
      (id : ItemId) (to : ContextScope) (arrival : Arrival) (e : Entry)
      → Keeps Holds (move_entry id to arrival e)
  unfolding move_entry
  move_entry-Holds id to arrival e =
      >>=-Keeps Holds _ _ (λ s h. h)
        (λ _. >>=-Keeps Holds _ _ (λ s h. h) (λ _. adjust-Holds id (relocate to arrival)))

  pub move_item-Holds :
      (id : ItemId) (to : ContextScope) (arrival : Arrival) → Keeps Holds (move_item id to arrival)
  unfolding move_item ◌>>=◌
  move_item-Holds id to arrival s h = elim (Option-cases (OrdMap.get id s.state.items)) [
    | inl g ↦ rw (g, ◌>>=◌) h
    | inr (e, g) ↦ rw (g, ◌>>=◌) (move_entry-Holds id to arrival e s h)
  ]

  drop_entry-Holds : (id : ItemId) (e : Entry) → Keeps Holds (drop_entry id e)
  unfolding drop_entry
  drop_entry-Holds id e =
      >>=-Keeps Holds _ _ (λ s h. h) (λ _. >>=-Keeps Holds _ _ (remove-Holds id) (λ _ s h. h))

  pub drop_item-Holds : (id : ItemId) → Keeps Holds (drop_item id)
  unfolding drop_item ◌>>=◌
  drop_item-Holds id s h = elim (Option-cases (OrdMap.get id s.state.items)) [
    | inl g ↦ rw (g, ◌>>=◌) h
    | inr (e, g) ↦ rw (g, ◌>>=◌) (drop_entry-Holds id e s h)
  ]

  evict_to-Holds : (o : Option ContextScope) (id : ItemId) → Keeps Holds (evict_to o id)
  unfolding evict_to
  evict_to-Holds none id = drop_item-Holds id
  evict_to-Holds (some to) id =
      >>=-Keeps Holds _ _ (move_item-Holds id to Arrival.demoted) (λ _ s h. h)

  evict_arrived-Holds :
      (scope : ContextScope) (id : ItemId) (o : Option Entry)
      → Keeps Holds (evict_arrived scope id o)
  unfolding evict_arrived
  evict_arrived-Holds scope id none = λ s h. h
  evict_arrived-Holds scope id (some e) = evict_to-Holds _ id

  evict_by-Holds :
      (target : DemotionTarget) (scope : ContextScope) (id : ItemId)
      → Keeps Holds (evict_by target scope id)
  unfolding evict_by
  evict_by-Holds DemotionTarget.drop scope id = evict_to-Holds none id
  evict_by-Holds DemotionTarget.next_colder scope id = evict_to-Holds (colder scope) id
  evict_by-Holds DemotionTarget.one_step_then_drop scope id =
      >>=-Keeps Holds _ _ (λ s h. h) (evict_arrived-Holds scope id)

  evict_one-Holds : (scope : ContextScope) (id : ItemId) → Keeps Holds (evict_one scope id)
  unfolding evict_one
  evict_one-Holds scope id =
      >>=-Keeps Holds _ _ (λ s h. h) (λ target. evict_by-Holds target scope id)

  pub evict_victims-Holds :
      (scope : ContextScope) (ids : List ItemId) → Keeps Holds (evict_victims scope ids)
  unfolding evict_victims
  evict_victims-Holds scope ids = for_each-Keeps Holds (evict_one scope) (evict_one-Holds scope) ids

  pub victims-Holds : (scope : ContextScope) (n : ℕ) → Keeps Holds (victims scope n)
  unfolding victims
  victims-Holds scope n = >>=-Keeps Holds _ _ (λ s h. h) (λ t s h. h)

  evict_over-Holds :
      (scope : ContextScope) (o : Option ℕ) (n : ℕ) → Keeps Holds (evict_over scope o n)
  unfolding evict_over evict_count
  evict_over-Holds scope none n = λ s h. h
  evict_over-Holds scope (some bound) n = elim (Bool-cases (ltb bound n)) [
    | inl t ↦
        rw t (>>=-Keeps Holds _ _ (victims-Holds scope (n - bound)) (evict_victims-Holds scope))
    | inr t ↦ rw t (λ s h. h)
  ]

  enforce_bound-Holds : (scope : ContextScope) → Keeps Holds (enforce_bound scope)
  unfolding enforce_bound
  enforce_bound-Holds scope =
      >>=-Keeps Holds _ _ (λ s h. h)
        (λ bound. >>=-Keeps Holds _ _ (λ s h. h) (λ n. evict_over-Holds scope bound n))

  pub enforce_bounds-Holds : (scope : ContextScope) → Keeps Holds (enforce_bounds scope)
  unfolding enforce_bounds
  enforce_bounds-Holds ContextScope.minor = enforce_bound-Holds ContextScope.minor
  enforce_bounds-Holds ContextScope.major =
      >>=-Keeps Holds _ _ (enforce_bound-Holds ContextScope.major)
        (λ _. enforce_bound-Holds ContextScope.minor)
  enforce_bounds-Holds ContextScope.enduring =
      >>=-Keeps Holds _ _ (enforce_bound-Holds ContextScope.enduring) (λ _.
        >>=-Keeps Holds _ _ (enforce_bound-Holds ContextScope.major)
          (λ _. enforce_bound-Holds ContextScope.minor))

  enforce_after-Holds : (es ms : List ItemId) → Keeps Holds (enforce_after es ms)
  enforce_after-Holds (_ ∷ _) ms = enforce_bounds-Holds ContextScope.enduring
  enforce_after-Holds [] (_ ∷ _) = enforce_bounds-Holds ContextScope.major
  enforce_after-Holds [] [] = λ s h. h

  pub moves-Holds :
      (ids : List ItemId) (to : ContextScope) (arrival : Arrival)
      → Keeps Holds (for_each ids (λ id. move_item id to arrival))
  moves-Holds ids to arrival =
      for_each-Keeps Holds (λ id. move_item id to arrival) (λ id. move_item-Holds id to arrival) ids

  promote_found-Holds : (es ms : List ItemId) → Keeps Holds (promote_found es ms)
  unfolding promote_found
  promote_found-Holds es ms =
      >>=-Keeps Holds _ _ (moves-Holds es ContextScope.enduring Arrival.promoted) (λ _.
        >>=-Keeps Holds _ _ (moves-Holds ms ContextScope.major Arrival.promoted) (λ _.
          >>=-Keeps Holds _ _ (λ s h. h)
            (λ _. >>=-Keeps Holds _ _ (enforce_after-Holds es ms) (λ _ s h. h))))

  pub auto_promote-Holds : (t : ℕ) → Keeps Holds (auto_promote t)
  unfolding auto_promote
  auto_promote-Holds t =
      >>=-Keeps Holds _ _ (λ s h. h)
        (λ cfg. >>=-Keeps Holds _ _ (λ s h. h) (λ items. promote_found-Holds _ _))
