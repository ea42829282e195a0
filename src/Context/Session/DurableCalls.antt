-- ===== src/Context/Session/DurableCalls.antt =====
-- Removals, promotions and evictions keep the invariant of `Durable`.
use semanticore.Prelude.{
  ℕ, ◌≡◌, ◌≢◌, refl, inl, inr, true, Option, none, some, List, [], Bool-cases, Result-cases, nat_eq,
  ==_cases, arith, All, All-map, Pairs, length,
}
use semanticore.Prelude.OrdMap
use semanticore.Storage.{Storage}
use semanticore.Storage.Contract.{View, Contract}
use semanticore.Context.Scope.{ContextScope, ItemId, colder, scope_lt, scope_eq}
use semanticore.Context.Platform.{Platform}
use semanticore.Context.Config.{EvictionCriteria, tier}
use semanticore.Context.Session.State.{
  Entry, Arrival, Session, SessionStats, Action, pure, gets, lift, modify_stats, for_each,
  count_promoted, count_demoted, ◌>>=◌, ◌>>◌,
}
use semanticore.Context.Session.Stored.{delete}
use semanticore.Context.Session.Moves.{move_item, drop_item, victims, evict_victims, enforce_bounds}
use semanticore.Context.Session.Checks.{first_seen, check_in_scope}
use semanticore.Context.Session.Operations.{
  entry_in, remove, promote_checked, promote, enforce_colder, evict,
}
use semanticore.Context.Session.Ends.{after_delete}
use semanticore.Context.Session.Durable.{IsStored, after_delete-IsStoredBut, failed_delete-IsStored}
use semanticore.Context.Session.DurableMoves.{removed-IsStored, stats-IsStored}
use semanticore.Context.Session.DurableEvictions.{Differ, ItemIn}
use semanticore.Context.Session.DurableBounds.{
  moves-IsStored, drops-IsStored, enforce_bounds-IsStored, victims-IsStored, picked-IsStored,
}
use semanticore.Context.Session.Checked.{
  check_in_scope-first_seen, first_seen-Differ, LiveIn-ItemIn,
}
use semanticore.Context.Session.Rules.{Keeps, >>=_ends, >>=-Keeps}

module _ ⦃p : Platform⦄ ⦃st : Storage⦄ (v : View st) (c : Contract st v) where
  entry_in-some :
      (scope : ContextScope) (o : Option Entry)
      → entry_in scope o ≡ true
      → (e : Entry) × (o ≡ some e)
  entry_in-some scope none h = cc
  entry_in-some scope (some e) h = (e, refl)

  pub remove-IsStored : (scope : ContextScope) (id : ItemId) → Keeps (IsStored v) (remove scope id)
  unfolding remove ◌>>=◌
  remove-IsStored scope id s h = elim (Bool-cases (entry_in scope (OrdMap.get id s.state.items))) [
    | inr t ↦ rw (t, ◌>>=◌) h
    | inl t ↦
        let (e, g) = entry_in-some scope (OrdMap.get id s.state.items) t in
        elim (Result-cases (delete (tier s.stores scope) id).0) [
          | inr (x, r) ↦ rw (t, r, ◌>>=◌) (failed_delete-IsStored v c scope id s r h)
          | inl (u, r) ↦
              rw (t, r, ◌>>=◌)
                (removed-IsStored v id (after_delete scope id s)
                  (after_delete-IsStoredBut v c scope id s (rw g at (h.fits id)) h))
        ]
  ]

  -- An action on the ids that a check lets through keeps the invariant if it does so for distinct items
  -- of the scope.
  checked-IsStored :
      {A : Type 0} (ids : List ItemId) (scope : ContextScope) (f : List ItemId → Action A)
      (s : Session)
      → ((out : List ItemId)
          → All (λ id. ItemIn scope id s) out
          → Pairs Differ out
          → IsStored v (f out s).1)
      → IsStored v s
      → IsStored v
          ((gets (λ s. s.state) >>= λ state. lift (check_in_scope state.items ids scope) >>= f) s).1
  unfolding ◌>>=◌
  checked-IsStored ids scope f s k h =
      elim (Result-cases (check_in_scope {E = st.Error} s.state.items ids scope)) [
        | inr (e, r) ↦ rw (r, ◌>>=◌) h
        | inl (out, r) ↦
            let (live, same) = (check_in_scope-first_seen s.state.items ids scope out).0 r in
            rw (r, ◌>>=◌)
              (k out (rw same (LiveIn-ItemIn scope s (first_seen [] ids) live))
                (rw same (first_seen-Differ [] ids)))
      ]

  -- counting the moved items and enforcing the bounds of where they went
  counted-IsStored :
      (f : ℕ → SessionStats → SessionStats) (to : ContextScope) (n : ℕ)
      → Keeps (IsStored v) (modify_stats (f n) >>= λ _. enforce_bounds to >> pure n)
  counted-IsStored f to n =
      >>=-Keeps (IsStored v) (modify_stats (f n)) _ (stats-IsStored v (f n)) (λ _.
        >>=-Keeps (IsStored v) (enforce_bounds to) _ (enforce_bounds-IsStored v c to) (λ _ s h. h))

  -- moving distinct items of one scope to another
  moved-IsStored :
      (f : ℕ → SessionStats → SessionStats) (from to : ContextScope) (arrival : Arrival)
      (out : List ItemId) (s : Session)
      → to ≢ from
      → All (λ id. ItemIn from id s) out
      → Pairs Differ out
      → IsStored v s
      → IsStored v
          ((for_each out (λ id. move_item id to arrival) >>= λ _.
              modify_stats (f (length out)) >>= λ _. enforce_bounds to >> pure (length out))
            s).1
  moved-IsStored f from to arrival out s n l d h =
      >>=_ends (IsStored v) (for_each out (λ id. move_item id to arrival)) _ s
        (moves-IsStored v c from to arrival out s n l d h)
        (λ _ _ h'.
          counted-IsStored f to (length out) (for_each out (λ id. move_item id to arrival) s).1 h')

  colder_scope-ne : (a b : ContextScope) → scope_lt a b ≡ true → a ≢ b
  colder_scope-ne a b h e = ground arith

  promoted-IsStored :
      (from to : ContextScope) (out : List ItemId) (s : Session)
      → All (λ id. ItemIn from id s) out
      → Pairs Differ out
      → IsStored v s
      → IsStored v (promote_checked from to out s).1
  unfolding promote_checked
  promoted-IsStored from to out s l d h = elim (==_cases to from) [
    | inl (same, _) ↦ rw same h
    | inr (other, n) ↦
        rw other (moved-IsStored count_promoted from to Arrival.promoted out s n l d h)
  ]

  -- A promotion keeps the invariant, also where it stops half way.
  pub promote-IsStored :
      (ids : List ItemId) (from to : ContextScope) → Keeps (IsStored v) (promote ids from to)
  unfolding promote
  promote-IsStored ids from to s h = elim (Bool-cases (scope_lt to from)) [
    | inl t ↦ rw t h
    | inr t ↦ rw t (
        checked-IsStored ids from (promote_checked from to) s
          (λ out l d. promoted-IsStored from to out s l d h) h)
  ]

  enforce_colder-IsStored : (o : Option ContextScope) → Keeps (IsStored v) (enforce_colder o)
  enforce_colder-IsStored none = λ s h. h
  enforce_colder-IsStored (some scope) = enforce_bounds-IsStored v c scope

  -- An eviction keeps the invariant, by any criteria, also where it stops half way.
  pub evict-IsStored :
      (scope : ContextScope) (criteria : EvictionCriteria)
      → Keeps (IsStored v) (evict scope criteria)
  unfolding evict
  evict-IsStored scope (EvictionCriteria.items ids) s h =
      checked-IsStored ids scope _ s
        (λ out l d.
          >>=_ends (IsStored v) (for_each out drop_item) _ s
            (drops-IsStored v c out s d
              (All-map (λ id. ItemIn scope id s) (λ _. Unit {0}) (λ _ _. tt) out l) h)
            (λ _ _ h'. h'))
        h
  evict-IsStored scope (EvictionCriteria.demote ids to) s h =
      elim (Bool-cases (scope_lt to scope)) [
        | inr t ↦ rw t h
        | inl t ↦ rw t (
            checked-IsStored ids scope _ s
              (λ out l d.
                moved-IsStored count_demoted scope to Arrival.demoted out s
                  (colder_scope-ne to scope t) l d h)
              h)
      ]
  evict-IsStored scope (EvictionCriteria.policy n) s h =
      >>=_ends (IsStored v) (victims scope n) _ s (victims-IsStored v c scope n s h) (λ ids e _.
        >>=_ends (IsStored v) (evict_victims scope ids) _ (victims scope n s).1
          (picked-IsStored v c scope n s e h)
          (λ _ _ h'.
            >>=_ends (IsStored v) (enforce_colder (colder scope)) _
              (evict_victims scope ids (victims scope n s).1).1
              (enforce_colder-IsStored (colder scope)
                (evict_victims scope ids (victims scope n s).1).1 h')
              (λ _ _ h''. h'')))
