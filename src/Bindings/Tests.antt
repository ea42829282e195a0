-- ===== src/Bindings/Tests.antt =====
-- The theorems about the Python bindings at concrete inputs.
use semanticore.Prelude.{◌≡◌, ◌↔◌, refl, true, List, [], ◌∷◌, ok}
use semanticore.Context.Scope.{ContextScope}
use semanticore.Context.Config.{no_bounds}
use semanticore.Context.Session.History.{Call, run}
use semanticore.Context.Demo.{demo_platform, demo_storage, doc, fresh}
use semanticore.Context.Scenes.{story}
use semanticore.Suite.Examples.{triple_of}
use semanticore.Bindings.Terms.{triple_from_py, triple_to_py, triple_from_py_iff}
use semanticore.Bindings.PySession.{State, close, is_closed}
use semanticore.Bindings.Wraps.{run_py, close-run_py}

abbrev later : List Call
later = Call.add ContextScope.minor (doc "z") ∷ []

close-run_py_example :
    (run_py story (State.opened (fresh no_bounds)) ≡ State.opened (run story (fresh no_bounds)))
    × (close (run_py story (State.opened (fresh no_bounds))) ≡ (
      ok (run story (fresh no_bounds)).state.stats,
      State.closed (run story (fresh no_bounds)).state.stats,
    ))
    × (close (run_py later (close (run_py story (State.opened (fresh no_bounds)))).1) ≡ (
      ok (run story (fresh no_bounds)).state.stats,
      State.closed (run story (fresh no_bounds)).state.stats,
    ))
    × (is_closed (run_py later (close (run_py story (State.opened (fresh no_bounds)))).1) ≡ true)
close-run_py_example = close-run_py story later (fresh no_bounds)

triple_from_py_iff_example :
    (triple_from_py (triple_to_py (triple_of "a")) ≡ ok (triple_of "a"))
    ↔ (triple_to_py (triple_of "a") ≡ triple_to_py (triple_of "a"))
triple_from_py_iff_example = triple_from_py_iff (triple_to_py (triple_of "a")) (triple_of "a") refl
