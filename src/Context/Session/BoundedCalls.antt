-- ===== src/Context/Session/BoundedCalls.antt =====
-- After an addition or a promotion that succeeds the bounds hold again.
use semanticore.Prelude.{
  ℕ, ◌≤◌, ◌≡◌, ◌≢◌, refl, inl, inr, List, [], ok, ok-inj, ok-ne-err, map_err-ok, pair_of,
  Bool-cases, ==_cases, length, u64_add, All, Pairs,
}
use semanticore.Storage.{Storage}
use semanticore.Storage.Contract.{View, Contract}
use semanticore.Context.Scope.{ContextScope, ItemId, rank, scope_lt, scope_eq}
use semanticore.Context.Platform.{Platform}
use semanticore.Context.Item.{ContextItem}
use semanticore.Context.Session.State.{
  Arrival, Failure, Session, gets, now, pure, lift, modify_items, modify_stats, on_store, for_each,
  count_added, count_promoted, ◌>>◌,
}
use semanticore.Context.Session.Stored.{with_write}
use semanticore.Context.Session.Moves.{enforce_bounds, move_item}
use semanticore.Context.Session.Checks.{validate_all, check_in_scope, first_seen}
use semanticore.Context.Session.Operations.{
  insert_items, index_added, range, zip, set_next_id, take_batch, add_batch, promote_checked,
  promote,
}
use semanticore.Context.Session.Durable.{IsStored}
use semanticore.Context.Session.DurableMoves.{stats-IsStored}
use semanticore.Context.Session.DurableEvictions.{ItemIn, Differ}
use semanticore.Context.Session.DurableBounds.{moves-IsStored}
use semanticore.Context.Session.DurableAdditions.{
  range-fits, after_batch-IsStored, batch_written, batch-Ready, index_added-IsStored, Ready,
}
use semanticore.Context.Session.DurableAdds.{set_next_id-IsStored, on_store-ok}
use semanticore.Context.Session.DurableQueries.{now-IsStored}
use semanticore.Context.Session.Checked.{
  check_in_scope-first_seen, first_seen-Differ, LiveIn-ItemIn,
}
use semanticore.Context.Session.Bounds.{Within, enforce_bounds-Enforced}
use semanticore.Context.Session.Rules.{>>=_establishes}

module _ ⦃p : Platform⦄ ⦃st : Storage⦄ where
  -- the scope and every colder one is within its bound
  abbrev pub WithinFrom : ContextScope → Session → Type 0
  WithinFrom scope s = (a : ContextScope) → rank a ≤ rank scope → Within a s

module _ ⦃p : Platform⦄ ⦃st : Storage⦄ (v : View st) (c : Contract st v) where
  ended-WithinFrom :
      {A : Type 0} (scope : ContextScope) (x : A) (s : Session) {y : A}
      → IsStored v s
      → ((enforce_bounds scope >> pure x) s).0 ≡ ok y
      → WithinFrom scope ((enforce_bounds scope >> pure x) s).1
  ended-WithinFrom scope x s h r =
      >>=_establishes (WithinFrom scope) (enforce_bounds scope) (λ _. pure x) s r
        (λ _ r1 _. (enforce_bounds-Enforced v c scope s h r1).within)

  take_batch-WithinFrom :
      (scope : ContextScope) (items : List ContextItem) (ids : List ItemId) (end : ℕ) (s : Session)
      {out : List ItemId}
      → All (Ready v scope s) (zip ids items)
      → IsStored v s
      → (take_batch scope items ids end s).0 ≡ ok out
      → WithinFrom scope (take_batch scope items ids end s).1
  unfolding take_batch
  take_batch-WithinFrom scope items ids end s ready h r =
      >>=_establishes (WithinFrom scope) now _ s r (λ t _ r1.
        >>=_establishes (WithinFrom scope) (set_next_id end) _ (now s).1 r1 (λ _ _ r2.
          let s2 = (set_next_id end (now s).1).1 in
          let h2 = set_next_id-IsStored v c end (now s).1 (now-IsStored v s h) in
          let s3 = (modify_items (index_added scope t (zip ids items)) s2).1 in
          let h3 = index_added-IsStored v scope t (zip ids items) s2 ready h2 in
          >>=_establishes (WithinFrom scope) (modify_items (index_added scope t (zip ids items))) _
            s2 r2
            (λ _ _ r3.
              >>=_establishes (WithinFrom scope) (modify_stats (count_added (length items))) _ s3 r3
                (λ _ _ r4.
                  ended-WithinFrom scope ids (modify_stats (count_added (length items)) s3).1
                    (stats-IsStored v (count_added (length items)) s3 h3) r4))))

  -- After an addition that succeeds on a session whose items are stored, its scope and every
  -- colder one is within its bound.
  pub add_batch-WithinFrom :
      (scope : ContextScope) (items : List ContextItem) (s : Session) {out : List ItemId}
      → IsStored v s
      → (add_batch scope items s).0 ≡ ok out
      → WithinFrom scope (add_batch scope items s).1
  unfolding add_batch
  add_batch-WithinFrom scope items s h r =
      >>=_establishes (WithinFrom scope) (gets (λ s. s.state)) _ s r (λ state _ r1.
        >>=_establishes (WithinFrom scope) (lift (validate_all state.items items)) _ s r1 (λ _ _ r2.
          let end = u64_add state.next_id (length items) in
          let ids = range state.next_id end in
          let write = on_store scope (λ store. with_write store (insert_items (zip ids items))) in
          >>=_establishes (WithinFrom scope) write _ s r2 (λ u done r3.
            take_batch-WithinFrom scope items ids end (write s).1
              (batch-Ready v scope (write s).1 ids items (range-fits state.next_id (length items)) (
                batch_written v c scope (zip ids items) s (
                  on_store-ok v c scope (λ store. with_write store (insert_items (zip ids items))) s
                    (pair_of (write s) done))))
              (after_batch-IsStored v c scope (zip ids items) s h) r3)))

  promote_checked-WithinFrom :
      (from to : ContextScope) (out : List ItemId) (s : Session) {n : ℕ}
      → to ≢ from
      → All (λ id. ItemIn from id s) out
      → Pairs Differ out
      → IsStored v s
      → (promote_checked from to out s).0 ≡ ok n
      → WithinFrom to (promote_checked from to out s).1
  unfolding promote_checked
  promote_checked-WithinFrom from to out s away l d h r = elim (==_cases to from) [
    | inl (_, same) ↦ absurd (away same)
    | inr (other, _) ↦
        let move = λ (id : ItemId). move_item id to Arrival.promoted in
        let s1 = (for_each out move s).1 in
        let h1 = moves-IsStored v c from to Arrival.promoted out s away l d h in
        rw other (
          >>=_establishes (WithinFrom to) (for_each out move) _ s (rw other at r) (λ _ _ r1.
            >>=_establishes (WithinFrom to) (modify_stats (count_promoted (length out))) _ s1 r1
              (λ _ _ r2.
                ended-WithinFrom to (length out) (modify_stats (count_promoted (length out)) s1).1
                  (stats-IsStored v (count_promoted (length out)) s1 h1) r2)))
  ]

  -- After a promotion to another scope that succeeds on a session whose items are stored, that
  -- scope and every colder one is within its bound.
  pub promote-WithinFrom :
      (ids : List ItemId) (from to : ContextScope) (s : Session) {n : ℕ}
      → to ≢ from
      → IsStored v s
      → (promote ids from to s).0 ≡ ok n
      → WithinFrom to (promote ids from to s).1
  unfolding promote
  promote-WithinFrom ids from to s away h r = elim (Bool-cases (scope_lt to from)) [
    | inl t ↦ absurd (ok-ne-err (rw t at r))
    | inr t ↦ rw t (
        >>=_establishes (WithinFrom to) (gets (λ s. s.state)) _ s (rw t at r) (λ state got r1.
          >>=_establishes (WithinFrom to) (lift (check_in_scope state.items ids from))
            (promote_checked from to) s r1
            (λ out r2 r3.
              let at : state ≡ s.state = ok-inj got refl in
              let checked = map_err-ok Failure.error (check_in_scope state.items ids from) r2 in
              let (live, same) =
                (check_in_scope-first_seen s.state.items ids from out).0 (rw at at checked) in
              promote_checked-WithinFrom from to out s away
                (rw same (LiveIn-ItemIn from s (first_seen [] ids) live))
                (rw same (first_seen-Differ [] ids)) h r3)))
  ]
