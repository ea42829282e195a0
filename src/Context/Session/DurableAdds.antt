-- ===== src/Context/Session/DurableAdds.antt =====
-- The additions to a session keep the invariant of `Durable`.
use semanticore.Prelude.{
  ℕ, ◌≡◌, inl, inr, List, [], ◌∷◌, Result, ok, Result-cases, nat_eq, arith, All, length, u64_add,
}
use semanticore.Storage.{Storage}
use semanticore.Storage.Contract.{View, Contract}
use semanticore.Context.Scope.{ContextScope, ItemId, scope_eq}
use semanticore.Context.Platform.{Platform}
use semanticore.Context.Item.{ContextItem}
use semanticore.Context.Error.{SessionError}
use semanticore.Context.Config.{tier}
use semanticore.Context.Session.State.{
  Session, pure, gets, now, lift, modify_items, modify_stats, on_store, count_added, ◌>>=◌, ◌>>◌,
}
use semanticore.Context.Session.Stored.{with_write}
use semanticore.Context.Session.Moves.{enforce_bounds}
use semanticore.Context.Session.Checks.{validate_all}
use semanticore.Context.Session.Operations.{
  insert_items, index_added, range, zip, set_next_id, take_batch, add_batch, first_of, add,
}
use semanticore.Context.Session.Durable.{IsStored}
use semanticore.Context.Session.DurableMoves.{stats-IsStored}
use semanticore.Context.Session.DurableBounds.{enforce_bounds-IsStored}
use semanticore.Context.Session.DurableAdditions.{
  range-fits, after_batch-IsStored, batch_written, batch-Ready, Ready, index_added-IsStored,
}
use semanticore.Context.Session.DurableQueries.{now-IsStored}
use semanticore.Context.Session.Rules.{Keeps, >>=_ends, >>=-Keeps}

module _ ⦃p : Platform⦄ ⦃st : Storage⦄ (v : View st) (c : Contract st v) where
  pub set_next_id-IsStored : (n : ℕ) → Keeps (IsStored v) (set_next_id n)
  set_next_id-IsStored n s h = record { sorted = h.sorted; fits = h.fits; whole = h.whole }

  -- the part of `add_batch` after the index has taken the items
  settled-IsStored :
      (scope : ContextScope) (n : ℕ) (ids : List ItemId)
      → Keeps (IsStored v) (modify_stats (count_added n) >>= λ _. enforce_bounds scope >> pure ids)
  settled-IsStored scope n ids =
      >>=-Keeps (IsStored v) (modify_stats (count_added n)) _ (stats-IsStored v (count_added n))
        (λ _.
          >>=-Keeps (IsStored v) (enforce_bounds scope) _ (enforce_bounds-IsStored v c scope)
            (λ _ s h. h))

  take_batch-IsStored :
      (scope : ContextScope) (items : List ContextItem) (ids : List ItemId) (end : ℕ) (s : Session)
      → All (Ready v scope s) (zip ids items)
      → IsStored v s
      → IsStored v (take_batch scope items ids end s).1
  unfolding take_batch
  take_batch-IsStored scope items ids end s r h =
      >>=_ends (IsStored v) now _ s (now-IsStored v s h) (λ t _ h1.
        >>=_ends (IsStored v) (set_next_id end) _ (now s).1 (set_next_id-IsStored end (now s).1 h1)
          (λ _ _ h2.
            let s2 = (set_next_id end (now s).1).1 in
            >>=_ends (IsStored v) (modify_items (index_added scope t (zip ids items))) _ s2
              (index_added-IsStored v scope t (zip ids items) s2 r h2)
              (λ _ _ h3.
                settled-IsStored scope (length items) ids
                  (modify_items (index_added scope t (zip ids items)) s2).1 h3)))

  pub on_store-ok :
      {A : Type 0} (scope : ContextScope)
      (f : st.Store → Result (SessionError st.Error) A × st.Store) (s : Session) {a : A}
      {s' : Session}
      → on_store scope f s ≡ (ok a, s')
      → (f (tier s.stores scope)).0 ≡ ok a
  on_store-ok scope f s h = elim (Result-cases (f (tier s.stores scope)).0) [
    | inl (a, r) ↦ ground arith
    | inr (e, r) ↦ absurd (ground arith)
  ]

  -- A batch is added whole, or not at all, or the bounds could not be enforced: the invariant holds.
  pub add_batch-IsStored :
      (scope : ContextScope) (items : List ContextItem) → Keeps (IsStored v) (add_batch scope items)
  unfolding add_batch
  add_batch-IsStored scope items s h =
      >>=_ends (IsStored v) (gets (λ s. s.state)) _ s h (λ state _ _.
        >>=_ends (IsStored v) (lift (validate_all state.items items)) _ s h (λ _ _ _.
          let end = u64_add state.next_id (length items) in
          let ids = range state.next_id end in
          let write = on_store scope (λ store. with_write store (insert_items (zip ids items))) in
          let h1 = after_batch-IsStored v c scope (zip ids items) s h in
          >>=_ends (IsStored v) write _ s h1 (λ u done _.
            take_batch-IsStored scope items ids end (write s).1
              (batch-Ready v scope (write s).1 ids items (range-fits state.next_id (length items)) (
                batch_written v c scope (zip ids items) s (
                  on_store-ok scope (λ store. with_write store (insert_items (zip ids items))) s
                    done)))
              h1)))

  pub add-IsStored :
      (scope : ContextScope) (item : ContextItem) → Keeps (IsStored v) (add scope item)
  unfolding add
  add-IsStored scope item =
      >>=-Keeps (IsStored v) (add_batch scope (item ∷ [])) _ (add_batch-IsStored scope (item ∷ []))
        first
    where
      first : (ids : List ItemId) → Keeps (IsStored v) (first_of ids)
      first [] = λ s h. h
      first (id ∷ ids) = λ s h. h
