-- ===== src/Context/Session/OneEvicted.antt =====
-- What an eviction of crates/semanticore-context/src/session.rs that succeeds does to the index.
use semanticore.Prelude.{
  ◌+◌, ◌<◌, ◌≡◌, ◌≢◌, refl, ◌∙◌, inl, inr, Option, none, some, List, [], ◌∷◌, ok, Result-cases,
  Option-cases, nat_eq, arith, All, length,
}
use semanticore.Prelude.OrdMap
use semanticore.Prelude.OrdMap.{OrdMap, IsSorted}
use semanticore.Storage.{Storage}
use semanticore.Context.Scope.{ContextScope, ItemId, rank, colder, scope_eq}
use semanticore.Context.Platform.{Platform}
use semanticore.Context.Config.{DemotionTarget, tier}
use semanticore.Context.Session.State.{Entry, Arrival, Session, modify_stats, count_demoted, ◌>>=◌}
use semanticore.Context.Session.Stored.{delete}
use semanticore.Context.Session.Moves.{
  move_item, drop_item, population, target_of, evict_to, evict_arrived, evict_by, evict_one,
}
use semanticore.Context.Session.Ends.{
  write_target, clear_source, move_item_missing, move_item_uncopied, move_item_uncleared,
  move_item_moved, drop_item_missing, drop_item_kept, drop_item_dropped,
}
use semanticore.Context.Session.DurableEvictions.{
  ItemIn, Differ, get-move_item, get-drop_item, colder-ne, target_of-colder,
}
use semanticore.Context.Session.Unmoved.{
  SameAbove, IsBelow, SameBut, SameAbove-refl, SameAbove-trans, SameBut-SameAbove, IsBelow-SameBut,
  moved-IsBelow, removed-IsBelow,
}
use semanticore.Context.Session.Rules.{>>=_establishes}
use semanticore.Context.Session.Populations.{
  fewer_moved, hotter_moved, fewer_removed, hotter_removed,
}

hotter-ne : (scope a b : ContextScope) → rank scope < rank a → b ≡ scope → b ≢ a
hotter-ne scope a b h e x = ground arith

colder-hotter : (scope to a : ContextScope) → colder scope ≡ some to → rank scope < rank a → to ≢ a
unfolding colder
colder-hotter scope to a c h x = ground arith

module _ ⦃p : Platform⦄ ⦃st : Storage⦄ where
  -- The items left the scope, one after the other, for a colder one or for good; every other entry,
  -- each of a more durable scope among them, and the settings are the same.
  pub record Evicted (ids : List ItemId) (scope : ContextScope) (s s' : Session) : Type 0 where
    pub fewer : population s'.state.items scope + length ids ≡ population s.state.items scope
    pub left : All (λ id. IsBelow scope id s') ids
    pub kept : SameBut ids s s'
    pub above : SameAbove scope s s'
    pub hotter :
        (a : ContextScope)
        → rank scope < rank a
        → population s'.state.items a ≡ population s.state.items a
    pub settled : s'.settings ≡ s.settings

  pub Evicted-none : (scope : ContextScope) (s : Session) → Evicted [] scope s s
  Evicted-none scope s = record {
    fewer = omega arith;
    left = tt;
    kept = λ j d. refl;
    above = SameAbove-refl scope s;
    hotter = λ a h. refl;
    settled = refl;
  }

  pub Evicted-then :
      (id : ItemId) (ids : List ItemId) (scope : ContextScope) (s s' s'' : Session)
      → All (λ j. Differ j id) ids
      → Evicted (id ∷ []) scope s s'
      → Evicted ids scope s' s''
      → Evicted (id ∷ ids) scope s s''
  Evicted-then id ids scope s s' s'' d a b =
      let x = a.fewer in
      let y = b.fewer in
      record {
        fewer = omega arith;
        left = (IsBelow-SameBut scope id ids s' s'' d b.kept a.left.0, b.left);
        kept = λ j (n, ns). b.kept j ns ∙ a.kept j (n, tt);
        above = SameAbove-trans scope scope s s' s'' (λ c h. h) a.above b.above;
        hotter = λ c h. b.hotter c h ∙ a.hotter c h;
        settled = b.settled ∙ a.settled;
      }

  -- One item of the scope that goes below it is evicted, if no other entry changes.
  one_gone-Evicted :
      (scope : ContextScope) (id : ItemId) (s s' : Session)
      → ItemIn scope id s
      → IsBelow scope id s'
      → SameBut (id ∷ []) s s'
      → population s'.state.items scope + 1 ≡ population s.state.items scope
      → ((a : ContextScope)
          → rank scope < rank a
          → population s'.state.items a ≡ population s.state.items a)
      → s'.settings ≡ s.settings
      → Evicted (id ∷ []) scope s s'
  one_gone-Evicted scope id s s' l b k f h e = record {
    fewer = f;
    left = (b, tt);
    kept = k;
    above = SameBut-SameAbove scope id s s' l b k;
    hotter = h;
    settled = e;
  }

  -- An item that moves to the next colder scope has left its own.
  move_item-Evicted :
      (scope to : ContextScope) (arrival : Arrival) (id : ItemId) (s : Session) {u : Unit {0}}
      → colder scope ≡ some to
      → ItemIn scope id s
      → (move_item id to arrival s).0 ≡ ok u
      → Evicted (id ∷ []) scope s (move_item id to arrival s).1
  move_item-Evicted scope to arrival id s away l h =
      elim (Option-cases (OrdMap.get id s.state.items)) [
        | inl g ↦ absurd (cc (move_item_missing id to arrival s g, h))
        | inr (e, g) ↦ elim (Result-cases (write_target id to arrival s e g)) [
          | inr (x, r) ↦ absurd (cc (move_item_uncopied id to arrival s e g r, h))
          | inl (w, r) ↦ elim (Result-cases (clear_source id to arrival s e g)) [
            | inr (x, k) ↦ absurd (cc (move_item_uncleared id to arrival s e g r k, h))
            | inl (w', k) ↦
                let same : e.scope ≡ scope = rw g at l in
                let moved = move_item_moved id to arrival s e g r k in
                one_gone-Evicted scope id s (move_item id to arrival s).1 l
                  (rw moved (moved-IsBelow scope to arrival id s.state.items e g away))
                  (λ j d. get-move_item id j to arrival s d.0)
                  (rw moved (
                    fewer_moved scope to arrival id s.state.items e g same
                      (colder-ne scope to away)))
                  (rw moved (λ a b.
                    hotter_moved scope to a arrival id s.state.items e g
                      (hotter-ne scope a e.scope b same) (colder-hotter scope to a away b)))
                  (rw moved refl)
          ]
        ]
      ]

  -- An item that is dropped has left its scope.
  drop_item-Evicted :
      (scope : ContextScope) (id : ItemId) (s : Session) {u : Unit {0}}
      → IsSorted s.state.items
      → ItemIn scope id s
      → (drop_item id s).0 ≡ ok u
      → Evicted (id ∷ []) scope s (drop_item id s).1
  drop_item-Evicted scope id s sorted l h = elim (Option-cases (OrdMap.get id s.state.items)) [
    | inl g ↦ absurd (cc (drop_item_missing id s g, h))
    | inr (e, g) ↦ elim (Result-cases (delete (tier s.stores e.scope) id).0) [
      | inr (x, r) ↦ absurd (cc (drop_item_kept id s e g r, h))
      | inl (w, r) ↦
          let same : e.scope ≡ scope = rw g at l in
          let dropped = drop_item_dropped id s e g r in
          one_gone-Evicted scope id s (drop_item id s).1 l
            (rw dropped (removed-IsBelow scope id s.state.items sorted))
            (λ j d. get-drop_item id j s sorted d.0)
            (rw dropped (fewer_removed scope id s.state.items e g same))
            (rw dropped
              (λ a b. hotter_removed a id s.state.items e g (hotter-ne scope a e.scope b same)))
            (rw dropped refl)
    ]
  ]

  evict_to-Evicted :
      (scope : ContextScope) (target : Option ContextScope) (id : ItemId) (s : Session)
      {u : Unit {0}}
      → IsSorted s.state.items
      → ((to : ContextScope) → target ≡ some to → colder scope ≡ some to)
      → ItemIn scope id s
      → (evict_to target id s).0 ≡ ok u
      → Evicted (id ∷ []) scope s (evict_to target id s).1
  unfolding evict_to
  evict_to-Evicted scope none id s sorted n l h = drop_item-Evicted scope id s sorted l h
  evict_to-Evicted scope (some to) id s sorted n l h =
      >>=_establishes (Evicted (id ∷ []) scope s) (move_item id to Arrival.demoted)
        (λ _. modify_stats (count_demoted 1)) s h
        (λ a r _.
          let e = move_item-Evicted scope to Arrival.demoted id s (n to refl) l r in
          record {
            fewer = e.fewer;
            left = e.left;
            kept = e.kept;
            above = e.above;
            hotter = e.hotter;
            settled = e.settled;
          })

  evict_arrived-Evicted :
      (scope : ContextScope) (id : ItemId) (o : Option Entry) (s : Session) {u : Unit {0}}
      → IsSorted s.state.items
      → ItemIn scope id s
      → (evict_arrived scope id o s).0 ≡ ok u
      → Evicted (id ∷ []) scope s (evict_arrived scope id o s).1
  unfolding evict_arrived
  evict_arrived-Evicted scope id none s sorted l h = absurd (cc h)
  evict_arrived-Evicted scope id (some e) s sorted l h =
      evict_to-Evicted scope (target_of DemotionTarget.one_step_then_drop scope e.arrival) id s
        sorted (λ to t. target_of-colder scope to DemotionTarget.one_step_then_drop e.arrival t) l h

  evict_by-Evicted :
      (t : DemotionTarget) (scope : ContextScope) (id : ItemId) (s : Session) {u : Unit {0}}
      → IsSorted s.state.items
      → ItemIn scope id s
      → (evict_by t scope id s).0 ≡ ok u
      → Evicted (id ∷ []) scope s (evict_by t scope id s).1
  unfolding evict_by ◌>>=◌
  evict_by-Evicted DemotionTarget.drop scope id s sorted l h =
      evict_to-Evicted scope none id s sorted (λ to x. cc) l h
  evict_by-Evicted DemotionTarget.next_colder scope id s sorted l h =
      evict_to-Evicted scope (colder scope) id s sorted (λ to x. x) l h
  evict_by-Evicted DemotionTarget.one_step_then_drop scope id s sorted l h =
      evict_arrived-Evicted scope id (OrdMap.get id s.state.items) s sorted l h

  pub evict_one-Evicted :
      (scope : ContextScope) (id : ItemId) (s : Session) {u : Unit {0}}
      → IsSorted s.state.items
      → ItemIn scope id s
      → (evict_one scope id s).0 ≡ ok u
      → Evicted (id ∷ []) scope s (evict_one scope id s).1
  unfolding evict_one ◌>>=◌
  evict_one-Evicted scope id s sorted l h =
      evict_by-Evicted s.settings.demotion_target scope id s sorted l h
