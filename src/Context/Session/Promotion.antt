-- ===== src/Context/Session/Promotion.antt =====
-- Over a reliable storage, promoting items that are live in their scope succeeds.
use semanticore.Prelude.{
  ℕ, ◌≡◌, ◌∙◌, refl, ap, inl, inr, false, List, [], ◌∷◌, ok, map_err, ==_cases, All, Pairs, length,
  if◌then◌else◌, ◌==◌,
}
use semanticore.Storage.{Storage}
use semanticore.Storage.Contract.{View, Contract}
use semanticore.Storage.Reliable.{Reliable}
use semanticore.Context.Scope.{ContextScope, ItemId, scope_lt, scope_eq}
use semanticore.Context.Platform.{Platform}
use semanticore.Context.Session.State.{
  Arrival, Failure, Session, gets, lift, for_each, modify_stats, count_promoted,
}
use semanticore.Context.Session.Moves.{move_item, enforce_bounds}
use semanticore.Context.Session.Checks.{check_in_scope, first_seen}
use semanticore.Context.Session.Operations.{promote, promote_checked}
use semanticore.Context.Session.Durable.{IsStored}
use semanticore.Context.Session.DurableMoves.{stats-IsStored}
use semanticore.Context.Session.DurableEvictions.{Differ, ItemIn, get-move_item}
use semanticore.Context.Session.DurableBounds.{moves-IsStored}
use semanticore.Context.Session.Checked.{
  LiveIn, check_in_scope-first_seen, first_seen-Differ, LiveIn-ItemIn,
}
use semanticore.Context.Session.Progress.{Live, >>=_succeeds, move_item-ok}
use semanticore.Context.Session.Repeats.{
  without_repeats, first_seen-without_repeats, without_repeats-All,
}
use semanticore.Context.Session.Completion.{enforce_bounds-ok}

-- how many items a promotion moves
abbrev pub moved_count : ContextScope → ContextScope → List ItemId → ℕ
moved_count from to out = if to == from then 0 else length out

module _ ⦃p : Platform⦄ ⦃st : Storage⦄ (v : View st) (c : Contract st v) (rel : Reliable st v) where
  moved-Live :
      (to : ContextScope) (arrival : Arrival) (id : ItemId) (ids : List ItemId) (s : Session)
      → All (Differ id) ids
      → All (Live s) ids
      → All (Live (move_item id to arrival s).1) ids
  moved-Live to arrival id [] s d l = tt
  moved-Live to arrival id (j ∷ ids) s d ((e, g), l) =
      ((e, get-move_item id j to arrival s d.0 ∙ g), moved-Live to arrival id ids s d.1 l)

  moves-ok :
      (to : ContextScope) (arrival : Arrival) (ids : List ItemId) (s : Session)
      → Pairs Differ ids
      → All (Live s) ids
      → (for_each ids (λ id. move_item id to arrival) s).0 ≡ ok tt
  unfolding for_each
  moves-ok to arrival [] s d l = refl
  moves-ok to arrival (id ∷ ids) s d l =
      >>=_succeeds (move_item id to arrival) (λ _. for_each ids (λ j. move_item j to arrival)) s
        (move_item-ok v c rel id to arrival s l.0)
        (moves-ok to arrival ids (move_item id to arrival s).1 d.1
          (moved-Live to arrival id ids s d.0 l.1))

  promote_checked-ok :
      (from to : ContextScope) (out : List ItemId) (s : Session)
      → All (λ id. ItemIn from id s) out
      → All (Live s) out
      → Pairs Differ out
      → IsStored v s
      → (promote_checked from to out s).0 ≡ ok (moved_count from to out)
  unfolding promote_checked
  promote_checked-ok from to out s i l d h = elim (==_cases to from) [
    | inl (same, _) ↦ rw same refl
    | inr (other, n) ↦
        let s1 = (for_each out (λ id. move_item id to Arrival.promoted) s).1 in
        let h1 = moves-IsStored v c from to Arrival.promoted out s n i d h in
        let s2 = (modify_stats (count_promoted (length out)) s1).1 in
        let h2 = stats-IsStored v (count_promoted (length out)) s1 h1 in
        rw other (
          >>=_succeeds (for_each out (λ id. move_item id to Arrival.promoted)) _ s
            (moves-ok to Arrival.promoted out s d l)
            (>>=_succeeds (modify_stats (count_promoted (length out))) _ s1 refl
              (>>=_succeeds (enforce_bounds to) _ s2 (enforce_bounds-ok v c rel to s2 h2) refl)))
  ]

  LiveIn-Live :
      (scope : ContextScope) (s : Session) (ids : List ItemId)
      → All (LiveIn s.state.items scope) ids
      → All (Live s) ids
  LiveIn-Live scope s [] l = tt
  LiveIn-Live scope s (id ∷ ids) ((e, g, _), l) = ((e, g), LiveIn-Live scope s ids l)

  promote-collected :
      (ids : List ItemId) (from to : ContextScope) (s : Session)
      → scope_lt to from ≡ false
      → All (LiveIn s.state.items from) (first_seen [] ids)
      → IsStored v s
      → (promote ids from to s).0 ≡ ok (moved_count from to (first_seen [] ids))
  unfolding promote
  promote-collected ids from to s t live h =
      let checked =
        (check_in_scope-first_seen {E = st.Error} s.state.items ids from (first_seen [] ids)).1
          (live, refl) in
      rw t (
        >>=_succeeds (gets (λ s. s.state)) _ s refl (
          >>=_succeeds (lift (check_in_scope s.state.items ids from)) (promote_checked from to) s
            (ap (map_err Failure.error) checked)
            (promote_checked-ok from to (first_seen [] ids) s
              (LiveIn-ItemIn from s (first_seen [] ids) live)
              (LiveIn-Live from s (first_seen [] ids) live) (first_seen-Differ [] ids) h)))

  -- Over a reliable storage and on a session whose items are stored, promoting live items of a
  -- scope to it or to a more durable one succeeds; each is counted once, and none if the scope is
  -- the same.
  pub promote-ok :
      (ids : List ItemId) (from to : ContextScope) (s : Session)
      → scope_lt to from ≡ false
      → All (LiveIn s.state.items from) ids
      → IsStored v s
      → (promote ids from to s).0 ≡ ok (moved_count from to (without_repeats ids))
  promote-ok ids from to s t live h =
      let same = first_seen-without_repeats ids in
      let l = without_repeats-All (LiveIn s.state.items from) ids live in
      rw same at (promote-collected ids from to s t (rw same l) h)
