-- ===== src/Context/Session/Evicted.antt =====
-- What the evictions of a list of victims do to the index and to the populations of the scopes.
use semanticore.Prelude.{◌≡◌, List, [], ◌∷◌, ok, nat_eq, All, All-map, Pairs}
use semanticore.Storage.{Storage}
use semanticore.Storage.Contract.{View, Contract}
use semanticore.Context.Scope.{ContextScope, ItemId, scope_eq}
use semanticore.Context.Platform.{Platform}
use semanticore.Context.Session.State.{Session, for_each}
use semanticore.Context.Session.Moves.{evict_one, evict_victims}
use semanticore.Context.Session.Durable.{IsStored}
use semanticore.Context.Session.DurableEvictions.{ItemIn, Differ, evict_one-IsStored}
use semanticore.Context.Session.Picked.{Differ-swap, ItemIn-evict_one}
use semanticore.Context.Session.Rules.{>>=_establishes}
use semanticore.Context.Session.OneEvicted.{Evicted, Evicted-none, Evicted-then, evict_one-Evicted}

module _ ⦃p : Platform⦄ ⦃st : Storage⦄ (v : View st) (c : Contract st v) where
  Differ-each : (id : ItemId) (ids : List ItemId) → All (Differ id) ids → All (λ j. Differ j id) ids
  Differ-each id ids = All-map (Differ id) (λ j. Differ j id) (Differ-swap id) ids

  still_in :
      (scope : ContextScope) (id : ItemId) (ids : List ItemId) (s : Session)
      → IsStored v s
      → All (Differ id) ids
      → All (λ j. ItemIn scope j s) ids
      → All (λ j. ItemIn scope j (evict_one scope id s).1) ids
  still_in scope id [] s h d l = tt
  still_in scope id (j ∷ ids) s h d l =
      (ItemIn-evict_one scope id j s h.sorted d.0 l.0, still_in scope id ids s h d.1 l.1)

  -- Evicting distinct items of a scope, if it succeeds on a session whose items are stored, leaves the
  -- scope with as many items fewer, each of these items in a colder scope or no longer live, and all
  -- other entries as they were, with those of the more durable scopes the same for the same items. It
  -- changes no setting.
  pub evict_victims-Evicted :
      (scope : ContextScope) (ids : List ItemId) (s : Session) {u : Unit {0}}
      → All (λ id. ItemIn scope id s) ids
      → Pairs Differ ids
      → IsStored v s
      → (evict_victims scope ids s).0 ≡ ok u
      → Evicted ids scope s (evict_victims scope ids s).1
  unfolding evict_victims for_each
  evict_victims-Evicted scope [] s l d h r = Evicted-none scope s
  evict_victims-Evicted scope (id ∷ ids) s l d h r =
      >>=_establishes (Evicted (id ∷ ids) scope s) (evict_one scope id)
        (λ _. for_each ids (evict_one scope)) s r
        (λ _ r1 r2.
          let s1 = (evict_one scope id s).1 in
          Evicted-then id ids scope s s1 (for_each ids (evict_one scope) s1).1
            (Differ-each id ids d.0) (evict_one-Evicted scope id s h.sorted l.0 r1)
            (evict_victims-Evicted scope ids s1 (still_in scope id ids s h d.0 l.1) d.1
              (evict_one-IsStored v c scope id s l.0 h) r2))
