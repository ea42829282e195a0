-- ===== src/Bindings/PySession.antt =====
-- crates/semanticore-context-py/src/session.rs: the Python `Session`, which owns a native session until
-- it is closed and outlives it. The lock makes each call one step.
use semanticore.Prelude.{ℕ, String, Bool, true, false, Option, List, Result, ok, err, map_err}
use semanticore.Storage.{Storage}
use semanticore.Context.Scope.{ContextScope, ItemId}
use semanticore.Context.Platform.{Platform}
use semanticore.Context.Item.{ContextItem}
use semanticore.Context.Error.{SessionError}
use semanticore.Context.Config.{SessionConfig, EvictionCriteria}
use semanticore.Context.Query.{ContextQuery, ContextQueryResult}
use semanticore.Context.Session.State.{Session, SessionStats, Failure, Action, no_stats, gets}
use semanticore.Context.Session.Operations
use semanticore.Context.Session.Operations.{ContextSnapshot}
use semanticore.Context.Session.Querying

module _ ⦃p : Platform⦄ ⦃st : Storage⦄ where
  pub data State : Type 0 where
    opened : Session → State
    closed : SessionStats → State

  -- why a call failed; a panic of the native session is a failure of it
  pub data CallError : Type 0 where
    closed : CallError
    session : Failure st.Error → CallError

  -- What a call raises: `closed_err`, the `to_py_err` of a native error, PyO3's exception for a panic,
  -- or Python's `NotImplementedError`.
  pub data Raised : Type 0 where
    session_closed : Raised
    native : SessionError st.Error → Raised
    panicked : String → Raised
    not_implemented : String → Raised

  unfoldable pub raise : {A : Type 0} → Result CallError A → Result Raised A
  raise (ok a) = ok a
  raise (err CallError.closed) = err Raised.session_closed
  raise (err (CallError.session (Failure.error e))) = err (Raised.native e)
  raise (err (CallError.session (Failure.panicked message))) = err (Raised.panicked message)

  abbrev pub PyAction : Type 0 → Type 0
  PyAction A = State → Result Raised A × State

  -- `f(s).map_err(CallError::from)`
  abbrev kept : {A : Type 0} → Result (Failure st.Error) A × Session → Result Raised A × State
  kept (r, s) = (raise (map_err CallError.session r), State.opened s)

  -- runs a call on the open native session, which it shares with other readers
  unfoldable pub read : {A : Type 0} → Action A → PyAction A
  unfolding raise
  read f (State.opened s) = kept (f s)
  read f (State.closed stats) = (raise (err CallError.closed), State.closed stats)

  -- runs a call on the open native session, exclusively
  unfoldable pub write : {A : Type 0} → Action A → PyAction A
  unfolding raise
  write f (State.opened s) = kept (f s)
  write f (State.closed stats) = (raise (err CallError.closed), State.closed stats)

  unfoldable pub open_py : SessionConfig st → Result (SessionError st.Error) State
  open_py config = elim (Operations.open_session config) [
    | ok s ↦ ok (State.opened s)
    | err e ↦ err e
  ]

  -- a native session that fails to close is gone all the same
  unfoldable pub close : PyAction SessionStats
  unfolding raise
  close (State.closed stats) = (raise (ok stats), State.closed stats)
  close (State.opened s) = elim (Operations.close s) [
    | ok stats ↦ (raise (ok stats), State.closed stats)
    | err e ↦ (raise (err (CallError.session (Failure.error e))), State.closed no_stats)
  ]

  unfoldable pub is_closed : State → Bool
  is_closed (State.opened _) = false
  is_closed (State.closed _) = true

  -- `__exit__`: exceptions of the block propagate
  unfoldable pub exit : PyAction Bool
  exit t = let (r, t') = close t in elim r [ ok _ ↦ (ok false, t') | err e ↦ (err e, t') ]

  unfoldable pub add : ContextScope → ContextItem → PyAction ItemId
  add scope item = write (Operations.add scope item)

  unfoldable pub add_batch : ContextScope → List ContextItem → PyAction (List ItemId)
  add_batch scope items = write (Operations.add_batch scope items)

  unfoldable pub remove : ContextScope → ItemId → PyAction Bool
  remove scope id = write (Operations.remove scope id)

  unfoldable pub query : ContextQuery → PyAction ContextQueryResult
  query q = read (Querying.query q)

  unfoldable pub reason : ContextScope → PyAction (Unit {0})
  reason scope = write (Operations.reason scope)

  -- a call whose report is not marshaled
  abbrev unmarshaled : PyAction (Unit {0}) → String → PyAction (Unit {0})
  unmarshaled call message t =
      let (r, t') = call t in
      elim r [ ok _ ↦ (err (Raised.not_implemented message), t') | err e ↦ (err e, t') ]

  unfoldable pub validate : ContextScope → ContextScope → PyAction (Unit {0})
  validate shapes_in shapes =
      unmarshaled (read (Operations.validate_shapes shapes_in shapes))
        "SHACL validation reports are not marshaled to Python yet"

  unfoldable pub evaluate_datalog : ContextScope → PyAction (Unit {0})
  evaluate_datalog scope =
      unmarshaled (read (Operations.evaluate_datalog scope))
        "Datalog programs and results are not marshaled to Python yet"

  unfoldable pub promote : List ItemId → ContextScope → ContextScope → PyAction ℕ
  promote ids from to = write (Operations.promote ids from to)

  unfoldable pub evict : ContextScope → EvictionCriteria → PyAction ℕ
  evict scope criteria = write (Operations.evict scope criteria)

  unfoldable pub snapshot : ContextScope → PyAction ContextSnapshot
  snapshot scope = read (Operations.snapshot scope)

  unfoldable pub scope_of : ItemId → PyAction (Option ContextScope)
  scope_of id = read (gets (Operations.scope_of id))

  unfoldable pub item_count : ContextScope → PyAction ℕ
  item_count scope = read (gets (Operations.item_count scope))

  unfoldable pub repr : State → String
  repr (State.closed _) = "<Session closed>"
  repr (State.opened _) = "<Session open>"
