-- ===== src/Context/Session/Opened.antt =====
-- The index and the next id of a session that `Session::open` in
-- crates/semanticore-context/src/session.rs makes.
use semanticore.Prelude.{
  ℕ, ◌+◌, ◌<◌, ◌≤◌, ◌≡◌, refl, inl, inr, Result-cases, Option-cases, Bool-cases, Option, none, some,
  List, [], ◌∷◌, Result, ok, err, not, is_some, if◌then◌else◌, u64_add, u64_add_fits, u64_limit,
  arith, ok-inj,
}
use semanticore.Prelude
use semanticore.Prelude.OrdMap
use semanticore.Prelude.OrdMap.{OrdMap, IsSorted, insert-IsSorted, get-last_key, get-no_last_key}
use semanticore.Storage.{Storage}
use semanticore.Context.Scope.{ContextScope, ItemId}
use semanticore.Context.Platform.{Platform}
use semanticore.Context.Item.{ContextItem}
use semanticore.Context.Config.{SessionConfig}
use semanticore.Context.Session.State.{Entry, Session, Arrival, new_entry}
use semanticore.Context.Session.Stored.{load}
use semanticore.Context.Session.Operations.{index_loaded, open_session}

module _ ⦃p : Platform⦄ ⦃st : Storage⦄ where
  index_loaded-IsSorted :
      (scope : ContextScope) (t : ℕ) (xs : List (ItemId × ContextItem)) (m : OrdMap Entry)
      → IsSorted m
      → IsSorted (index_loaded scope t xs m)
  unfolding index_loaded
  index_loaded-IsSorted scope t [] m s = s
  index_loaded-IsSorted scope t ((id, item) ∷ rest) m s =
      elim (Bool-cases (is_some (OrdMap.get id m))) [
        | inl h ↦ rw h (index_loaded-IsSorted scope t rest m s)
        | inr h ↦ rw h (
            index_loaded-IsSorted scope t rest _
              (insert-IsSorted id (new_entry item scope Arrival.added t) m s))
      ]

  -- the index is in order and the next id is above its last key
  record Numbered (s : Session) : Type 0 where
    sorted : IsSorted s.state.items
    none_yet : OrdMap.last_key s.state.items ≡ none → s.state.next_id ≡ 0
    after_last : (k : ℕ) → OrdMap.last_key s.state.items ≡ some k → s.state.next_id ≡ u64_add k 1

  open_session-Numbered :
      (config : SessionConfig st) {s : Session} → open_session config ≡ ok s → Numbered s
  unfolding open_session Prelude.◌>>=◌
  open_session-Numbered config {s} h =
      elim (Bool-cases (st.capabilities config.storage.enduring).persistent) [
        | inr t ↦ absurd (ground (arith, h))
        | inl t ↦ elim (Result-cases (load config.storage.enduring).0) [
          | inr (e, r) ↦ absurd (ground (arith, h))
          | inl (es, r) ↦ elim (Result-cases (load config.storage.major).0) [
            | inr (e, r2) ↦ absurd (ground (arith, h))
            | inl (ms, r2) ↦ elim (Result-cases (load config.storage.minor).0) [
              | inr (e, r3) ↦ absurd (ground (arith, h))
              | inl (ns, r3) ↦
                  let t0 = p.clock 0 in
                  let items = index_loaded ContextScope.minor t0 ns (
                    index_loaded ContextScope.major t0 ms
                      (index_loaded ContextScope.enduring t0 es [])) in
                  let sorted = index_loaded-IsSorted ContextScope.minor t0 ns _ (
                    index_loaded-IsSorted ContextScope.major t0 ms _
                      (index_loaded-IsSorted ContextScope.enduring t0 es [] tt)) in
                  let at : s.state.items ≡ items = ground (arith, h) in
                  record {
                    sorted = rw at sorted;
                    none_yet = λ k. ground (arith, h);
                    after_last = λ k e. ground (arith, h);
                  }
            ]
          ]
        ]
      ]

  -- In a session that was just opened no id from the next one on is live, if the last id stored is not
  -- the last one of u64.
  pub open_session-unused :
      (config : SessionConfig st) {s : Session}
      → open_session config ≡ ok s
      → ((k : ItemId) → OrdMap.last_key s.state.items ≡ some k → k + 1 < u64_limit)
      → (j : ItemId) → s.state.next_id ≤ j
      → OrdMap.get j s.state.items ≡ none
  open_session-unused config {s} h fits j le =
      let n = open_session-Numbered config h in
      elim (Option-cases (OrdMap.last_key s.state.items)) [
        | inl e ↦ get-no_last_key j s.state.items e
        | inr (k, e) ↦
            let at = n.after_last k e in
            let sum = u64_add_fits k 1 (fits k e) in
            get-last_key j k s.state.items n.sorted e (omega arith)
      ]
