-- ===== src/Context/Session/Takes.antt =====
-- Statements on the index and the next id, over every call of `Session` in
-- crates/semanticore-context/src/session.rs: what the index takes of an addition, and the rest.
use semanticore.Prelude.{ℕ, inl, inr, Result-cases, nat_eq, List, [], ◌∷◌, length, u64_add}
use semanticore.Prelude.OrdMap.{OrdMap}
use semanticore.Storage.{Storage}
use semanticore.Context.Scope.{ContextScope, ItemId}
use semanticore.Context.Platform.{Platform}
use semanticore.Context.Item.{ContextItem}
use semanticore.Context.Session.State.{
  Entry, Session, now, pure, modify_items, modify_stats, on_store, count_added, ◌>>=◌, ◌>>◌,
}
use semanticore.Context.Session.Stored.{with_write}
use semanticore.Context.Session.Moves.{enforce_bounds}
use semanticore.Context.Session.Checks.{validate_all}
use semanticore.Context.Session.Operations.{
  insert_items, index_added, range, zip, set_next_id, take_batch, add_batch, first_of, add,
}
use semanticore.Context.Session.History.{Call, perform}
use semanticore.Context.Session.Rules.{Keeps, >>=_ends, >>=-Keeps}
use semanticore.Context.Session.Quiet.{IsQuiet, Holds, enforce_bounds-Holds}
use semanticore.Context.Session.QuietCalls.{
  remove-call, query-call, snapshot-call, promote-call, evict-call,
}

module _ ⦃p : Platform⦄ ⦃st : Storage⦄ where
  module _ (Q : OrdMap Entry → ℕ → Type 0) (quiet : IsQuiet Q) where
    -- the part of `add_batch` after the index has taken the items
    settled-Holds :
        (scope : ContextScope) (n : ℕ) (ids : List ItemId)
        → Keeps
            (Holds Q quiet)
            (modify_stats (count_added n) >>= λ _. enforce_bounds scope >> pure ids)
    settled-Holds scope n ids =
        >>=-Keeps (Holds Q quiet) _ _ (λ s h. h)
          (λ _. >>=-Keeps (Holds Q quiet) _ _ (enforce_bounds-Holds Q quiet scope) (λ _ s h. h))

    take_batch-Holds :
        (scope : ContextScope) (items : List ContextItem) (ids : List ItemId) (end : ℕ)
        (s : Session)
        → ((t : ℕ) → Q (index_added scope t (zip ids items) s.state.items) end)
        → Holds Q quiet (take_batch scope items ids end s).1
    unfolding take_batch ◌>>=◌
    take_batch-Holds scope items ids end s q =
        settled-Holds scope (length items) ids
          (modify_items (index_added scope (p.clock s.readings) (zip ids items))
            (set_next_id end (now s).1).1).1
          (q (p.clock s.readings))

    write_batch-Holds :
        (scope : ContextScope) (items : List ContextItem) (ids : List ItemId) (end : ℕ)
        (s : Session)
        → ((t : ℕ) → Q (index_added scope t (zip ids items) s.state.items) end)
        → Holds Q quiet s
        → Holds Q quiet
            ((on_store scope (λ store. with_write store (insert_items (zip ids items)))
                >> take_batch scope items ids end)
              s).1
    write_batch-Holds scope items ids end s q h =
        let write = on_store scope (λ store. with_write store (insert_items (zip ids items))) in
        >>=_ends (Holds Q quiet) write (λ _. take_batch scope items ids end) s h
          (λ _ _ _. take_batch-Holds scope items ids end (write s).1 q)

    -- A batch keeps what holds when the index has taken its items, and what holds already.
    add_batch-Holds :
        (scope : ContextScope) (items : List ContextItem) (s : Session)
        → (let n = s.state.next_id in
            let end = u64_add n (length items) in
            (t : ℕ) → Q (index_added scope t (zip (range n end) items) s.state.items) end)
        → Holds Q quiet s
        → Holds Q quiet (add_batch scope items s).1
    unfolding add_batch ◌>>=◌
    add_batch-Holds scope items s q h =
        let n = s.state.next_id in
        let end = u64_add n (length items) in
        elim (Result-cases (validate_all {E = st.Error} s.state.items items)) [
          | inl (u, r) ↦ rw (r, ◌>>=◌) (write_batch-Holds scope items (range n end) end s q h)
          | inr (e, r) ↦ rw (r, ◌>>=◌) h
        ]

  first-Keeps : (Q : Session → Type 0) (ids : List ItemId) → Keeps Q (first_of ids)
  first-Keeps Q [] = λ s h. h
  first-Keeps Q (id ∷ ids) = λ s h. h

  module _ (Q : OrdMap Entry → ℕ → Type 0) (quiet : IsQuiet Q) where
    -- `Q` holds when the index has taken the items that a call adds
    abbrev pub Takes : Call → Session → Type 0
    Takes (Call.add scope item) s =
        let n = s.state.next_id in
        let end = u64_add n 1 in
        (t : ℕ) → Q (index_added scope t (zip (range n end) (item ∷ [])) s.state.items) end
    Takes (Call.add_batch scope items) s =
        let n = s.state.next_id in
        let end = u64_add n (length items) in
        (t : ℕ) → Q (index_added scope t (zip (range n end) items) s.state.items) end
    Takes _ s = Unit

    pub perform-Holds :
        (call : Call) (s : Session)
        → Takes call s
        → Holds Q quiet s
        → Holds Q quiet (perform call s)
    unfolding perform add
    perform-Holds (Call.add_batch scope items) s q h = add_batch-Holds Q quiet scope items s q h
    perform-Holds (Call.add scope item) s q h =
        >>=_ends (Holds Q quiet) (add_batch scope (item ∷ [])) first_of s
          (add_batch-Holds Q quiet scope (item ∷ []) s q h)
          (λ ids _. first-Keeps (Holds Q quiet) ids (add_batch scope (item ∷ []) s).1)
    perform-Holds (Call.remove scope id) s q h = remove-call Q quiet scope id s h
    perform-Holds (Call.query x) s q h = query-call Q quiet x s h
    perform-Holds (Call.snapshot scope) s q h = snapshot-call Q quiet scope s h
    perform-Holds (Call.promote ids from to) s q h = promote-call Q quiet ids from to s h
    perform-Holds (Call.evict scope criteria) s q h = evict-call Q quiet scope criteria s h
    perform-Holds (Call.reason scope) s q h = h
    perform-Holds (Call.evaluate_datalog scope) s q h = h
    perform-Holds (Call.validate_shapes shapes_in shapes) s q h = h
