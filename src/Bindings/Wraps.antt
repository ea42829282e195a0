-- ===== src/Bindings/Wraps.antt =====
-- The Python `Session` of crates/semanticore-context-py/src/session.rs beside the native session that it
-- owns.
use semanticore.Prelude.{◌≡◌, refl, true, List, [], ◌∷◌, ok}
use semanticore.Storage.{Storage}
use semanticore.Context.Platform.{Platform}
use semanticore.Context.Session.State.{Session, SessionStats, Action}
use semanticore.Context.Session.Operations
use semanticore.Context.Session.Querying
use semanticore.Context.Session.History.{Call, perform, run}
use semanticore.Bindings.PySession.{State, CallError, PyAction, read, write, close, is_closed}
use semanticore.Bindings.PySession

module _ ⦃p : Platform⦄ ⦃st : Storage⦄ where
  -- where a call through the wrapper leaves it
  unfoldable pub perform_py : Call → State → State
  perform_py (Call.add scope item) t = (PySession.add scope item t).1
  perform_py (Call.add_batch scope items) t = (PySession.add_batch scope items t).1
  perform_py (Call.remove scope id) t = (PySession.remove scope id t).1
  perform_py (Call.query q) t = (PySession.query q t).1
  perform_py (Call.reason scope) t = (PySession.reason scope t).1
  perform_py (Call.evaluate_datalog scope) t = (PySession.evaluate_datalog scope t).1
  perform_py (Call.snapshot scope) t = (PySession.snapshot scope t).1
  perform_py (Call.validate_shapes data_in shapes) t = (PySession.validate data_in shapes t).1
  perform_py (Call.promote ids from to) t = (PySession.promote ids from to t).1
  perform_py (Call.evict scope criteria) t = (PySession.evict scope criteria t).1

  unfoldable pub run_py : List Call → State → State
  run_py [] t = t
  run_py (call ∷ calls) t = run_py calls (perform_py call t)

  read-opened :
      {A : Type 0} (f : Action A) (s : Session) → (read f (State.opened s)).1 ≡ State.opened (f s).1
  unfolding read
  read-opened f s = refl

  write-opened :
      {A : Type 0} (f : Action A) (s : Session)
      → (write f (State.opened s)).1 ≡ State.opened (f s).1
  unfolding write
  write-opened f s = refl

  perform_py-opened :
      (call : Call) (s : Session) → perform_py call (State.opened s) ≡ State.opened (perform call s)
  unfolding perform_py perform PySession.add PySession.add_batch PySession.remove PySession.query
      PySession.reason PySession.evaluate_datalog PySession.snapshot PySession.validate
      PySession.promote PySession.evict read PySession.raise
  perform_py-opened (Call.add scope item) s = write-opened (Operations.add scope item) s
  perform_py-opened (Call.add_batch scope items) s =
      write-opened (Operations.add_batch scope items) s
  perform_py-opened (Call.remove scope id) s = write-opened (Operations.remove scope id) s
  perform_py-opened (Call.query q) s = read-opened (Querying.query q) s
  perform_py-opened (Call.reason scope) s = write-opened (Operations.reason scope) s
  perform_py-opened (Call.evaluate_datalog scope) s = refl
  perform_py-opened (Call.snapshot scope) s = read-opened (Operations.snapshot scope) s
  perform_py-opened (Call.validate_shapes data_in shapes) s = refl
  perform_py-opened (Call.promote ids from to) s = write-opened (Operations.promote ids from to) s
  perform_py-opened (Call.evict scope criteria) s = write-opened (Operations.evict scope criteria) s

  run_py-opened :
      (calls : List Call) (s : Session) → run_py calls (State.opened s) ≡ State.opened (run calls s)
  unfolding run_py run
  run_py-opened [] s = refl
  run_py-opened (call ∷ calls) s =
      rw (perform_py-opened call s) (run_py-opened calls (perform call s))

  perform_py-closed :
      (call : Call) (stats : SessionStats)
      → perform_py call (State.closed stats) ≡ State.closed stats
  unfolding perform_py PySession.add PySession.add_batch PySession.remove PySession.query
      PySession.reason PySession.evaluate_datalog PySession.snapshot PySession.validate
      PySession.promote PySession.evict read write PySession.raise
  perform_py-closed (Call.add scope item) stats = refl
  perform_py-closed (Call.add_batch scope items) stats = refl
  perform_py-closed (Call.remove scope id) stats = refl
  perform_py-closed (Call.query q) stats = refl
  perform_py-closed (Call.reason scope) stats = refl
  perform_py-closed (Call.evaluate_datalog scope) stats = refl
  perform_py-closed (Call.snapshot scope) stats = refl
  perform_py-closed (Call.validate_shapes data_in shapes) stats = refl
  perform_py-closed (Call.promote ids from to) stats = refl
  perform_py-closed (Call.evict scope criteria) stats = refl

  run_py-closed :
      (calls : List Call) (stats : SessionStats)
      → run_py calls (State.closed stats) ≡ State.closed stats
  unfolding run_py
  run_py-closed [] stats = refl
  run_py-closed (call ∷ calls) stats = rw (perform_py-closed call stats) (run_py-closed calls stats)

  -- A Python session does what the native one does: after any calls, closing it returns the counters of
  -- the native session after the same calls. Whatever is called then leaves it closed, and closing it
  -- again returns the same counters.
  pub close-run_py :
      (calls later : List Call) (s : Session)
      → let t = run_py calls (State.opened s) in
        let stats = (run calls s).state.stats in
        (t ≡ State.opened (run calls s))
        × (close t ≡ (ok stats, State.closed stats))
        × (close (run_py later (close t).1) ≡ (ok stats, State.closed stats))
        × (is_closed (run_py later (close t).1) ≡ true)
  unfolding close is_closed Operations.close PySession.raise
  close-run_py calls later s =
      let at_end = run_py-opened calls s in
      let stats = (run calls s).state.stats in
      (
        at_end,
        rw at_end refl,
        rw at_end (rw (run_py-closed later stats) refl),
        rw at_end (rw (run_py-closed later stats) refl),
      )
