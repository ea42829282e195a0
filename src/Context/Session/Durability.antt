-- ===== src/Context/Session/Durability.antt =====
-- What runs of a session promise for its items, from the invariant of `Durable`.
use semanticore.Prelude.{List, [], ◌∷◌, map_err}
use semanticore.Model.{quad_eq}
use semanticore.Storage.{Storage}
use semanticore.Storage.Contract.{View, Contract}
use semanticore.Context.Platform.{Platform}
use semanticore.Context.Scope.{ContextScope}
use semanticore.Context.Error.{SessionError}
use semanticore.Context.Config.{tier}
use semanticore.Context.Session.Rules.{Keeps, >>=-Keeps}
use semanticore.Context.Session.State.{Session, gets, lift}
use semanticore.Context.Session.History.{Call, perform, run}
use semanticore.Context.Session.Durable.{IsStored}
use semanticore.Context.Session.DurableCalls.{remove-IsStored, promote-IsStored, evict-IsStored}
use semanticore.Context.Session.DurableAdds.{add-IsStored, add_batch-IsStored}
use semanticore.Context.Session.DurableQueries.{query-IsStored}
use semanticore.Context.Session.Operations.{snapshot}

module _ ⦃p : Platform⦄ ⦃st : Storage⦄ (v : View st) (c : Contract st v) where
  snapshot-IsStored : (scope : ContextScope) → Keeps (IsStored v) (snapshot scope)
  unfolding snapshot
  snapshot-IsStored scope =
      >>=-Keeps (IsStored v) (gets (λ s. s.state)) _ (λ s h. h)
        (λ state.
          >>=-Keeps (IsStored v) (gets (λ s. s.stores)) _ (λ s h. h)
            (λ stores.
              >>=-Keeps (IsStored v)
                (lift (map_err SessionError.storage (st.quad_count (tier stores scope)))) _
                (λ s h. h) (λ _ s h. h)))

  perform-IsStored : (call : Call) (s : Session) → IsStored v s → IsStored v (perform call s)
  unfolding perform
  perform-IsStored (Call.add scope item) = add-IsStored v c scope item
  perform-IsStored (Call.add_batch scope items) = add_batch-IsStored v c scope items
  perform-IsStored (Call.remove scope id) = remove-IsStored v c scope id
  perform-IsStored (Call.query q) = query-IsStored v c q
  perform-IsStored (Call.reason scope) = λ s h. h
  perform-IsStored (Call.evaluate_datalog scope) = λ s h. h
  perform-IsStored (Call.snapshot scope) = snapshot-IsStored scope
  perform-IsStored (Call.validate_shapes shapes_in shapes) = λ s h. h
  perform-IsStored (Call.promote ids from to) = promote-IsStored v c ids from to
  perform-IsStored (Call.evict scope criteria) = evict-IsStored v c scope criteria

  -- From a session whose items are stored, whatever calls it takes, and wherever any of them
  -- fails, every item of the index stays whole in the store of its scope, the index stays sorted
  -- and its ids fit into 64 bits, over any storage that keeps the contract.
  pub run-IsStored : (calls : List Call) (s : Session) → IsStored v s → IsStored v (run calls s)
  unfolding run
  run-IsStored [] s h = h
  run-IsStored (call ∷ calls) s h = run-IsStored calls (perform call s) (perform-IsStored call s h)
