-- ===== src/Context/Session/History.antt =====
-- Runs of the public calls of `Session` in crates/semanticore-context/src/session.rs. The mutex of a
-- session makes each call one step, so a run is a list of calls.
use semanticore.Prelude.{List, [], ◌∷◌}
use semanticore.Storage.{Storage}
use semanticore.Context.Scope.{ContextScope, ItemId}
use semanticore.Context.Platform.{Platform}
use semanticore.Context.Item.{ContextItem}
use semanticore.Context.Config.{EvictionCriteria}
use semanticore.Context.Query.{ContextQuery}
use semanticore.Context.Session.State.{Session}
use semanticore.Context.Session.Operations
use semanticore.Context.Session.Querying

module _ ⦃p : Platform⦄ where
  pub data Call : Type 0 where
    add : ContextScope → ContextItem → Call
    add_batch : ContextScope → List ContextItem → Call
    remove : ContextScope → ItemId → Call
    query : ContextQuery → Call
    reason evaluate_datalog snapshot : ContextScope → Call
    validate_shapes : ContextScope → ContextScope → Call
    promote : List ItemId → ContextScope → ContextScope → Call
    evict : ContextScope → EvictionCriteria → Call

module _ ⦃p : Platform⦄ ⦃st : Storage⦄ where
  -- where a call leaves the session, whatever it returns
  unfoldable pub perform : Call → Session → Session
  perform (Call.add scope item) s = (Operations.add scope item s).1
  perform (Call.add_batch scope items) s = (Operations.add_batch scope items s).1
  perform (Call.remove scope id) s = (Operations.remove scope id s).1
  perform (Call.query q) s = (Querying.query q s).1
  perform (Call.reason scope) s = (Operations.reason scope s).1
  perform (Call.evaluate_datalog scope) s = (Operations.evaluate_datalog scope s).1
  perform (Call.snapshot scope) s = (Operations.snapshot scope s).1
  perform (Call.validate_shapes shapes_in shapes) s =
      (Operations.validate_shapes shapes_in shapes s).1
  perform (Call.promote ids from to) s = (Operations.promote ids from to s).1
  perform (Call.evict scope criteria) s = (Operations.evict scope criteria s).1

  unfoldable pub run : List Call → Session → Session
  run [] s = s
  run (call ∷ calls) s = run calls (perform call s)
