-- ===== src/Context/Session/Ends.antt =====
-- Where a move and a drop can end: the session and the result of each way through the code.
use semanticore.Prelude.{◌≡◌, none, some, List, Result, ok, err}
use semanticore.Prelude.OrdMap
use semanticore.Model.{Quad}
use semanticore.Storage.{Storage}
use semanticore.Context.Scope.{ContextScope, ItemId}
use semanticore.Context.Platform.{Platform}
use semanticore.Context.Error.{SessionError}
use semanticore.Context.Config.{tier}
use semanticore.Context.Record.{encode}
use semanticore.Context.Session.State.{
  Entry, Arrival, Session, Failure, count_evicted, on_store, modify_items, modify_stats, ◌>>=◌,
}
use semanticore.Context.Session.Stored.{with_write, insert_all, delete}
use semanticore.Context.Session.Moves.{relocate, move_entry, move_item, drop_entry, drop_item}

module _ ⦃p : Platform⦄ ⦃st : Storage⦄ where
  -- the session after a write to the store of a scope, whether it succeeded or not
  abbrev pub after_insert : ContextScope → List Quad → Session → Session
  after_insert scope qs s = (on_store scope (λ store. with_write store (insert_all qs)) s).1

  abbrev pub after_delete : ContextScope → ItemId → Session → Session
  after_delete scope id s = (on_store scope (λ store. delete store id) s).1

  pub move_item_missing :
      (id : ItemId) (to : ContextScope) (arrival : Arrival) (s : Session)
      → OrdMap.get id s.state.items ≡ none
      → move_item id to arrival s ≡ (err (Failure.panicked "caller checked the id"), s)
  unfolding move_item ◌>>=◌
  move_item_missing id to arrival s g = rw (g, ◌>>=◌)

  module _ (id : ItemId) (to : ContextScope) (arrival : Arrival) (s : Session) (e : Entry)
      (live : OrdMap.get id s.state.items ≡ some e) where
    -- the results of the two writes, and the session between them
    abbrev pub write_target : Result (SessionError st.Error) (Unit {0})
    write_target = (with_write (tier s.stores to) (insert_all (encode id e.item))).0

    abbrev pub copied : Session
    copied = after_insert to (encode id e.item) s

    abbrev pub clear_source : Result (SessionError st.Error) (Unit {0})
    clear_source = (delete (tier copied.stores e.scope) id).0

    pub move_item_uncopied :
        {x : SessionError st.Error}
        → write_target ≡ err x
        → move_item id to arrival s ≡ (err (Failure.error x), copied)
    unfolding move_item move_entry ◌>>=◌
    move_item_uncopied r = rw (live, ◌>>=◌) (rw (r, ◌>>=◌))

    pub move_item_uncleared :
        {u : Unit {0}} {x : SessionError st.Error}
        → write_target ≡ ok u
        → clear_source ≡ err x
        → move_item id to arrival s ≡ (err (Failure.error x), after_delete e.scope id copied)
    unfolding move_item move_entry ◌>>=◌
    move_item_uncleared r k = rw (live, ◌>>=◌) (rw (r, ◌>>=◌) (rw (k, ◌>>=◌)))

    pub move_item_moved :
        {u w : Unit {0}}
        → write_target ≡ ok u
        → clear_source ≡ ok w
        → move_item id to arrival s
          ≡ modify_items (OrdMap.adjust id (relocate to arrival)) (after_delete e.scope id copied)
    unfolding move_item move_entry ◌>>=◌
    move_item_moved r k = rw (live, ◌>>=◌) (rw (r, ◌>>=◌) (rw (k, ◌>>=◌)))

  pub drop_item_missing :
      (id : ItemId) (s : Session)
      → OrdMap.get id s.state.items ≡ none
      → drop_item id s ≡ (err (Failure.panicked "no entry found for key"), s)
  unfolding drop_item ◌>>=◌
  drop_item_missing id s g = rw (g, ◌>>=◌)

  module _ (id : ItemId) (s : Session) (e : Entry)
      (live : OrdMap.get id s.state.items ≡ some e) where
    pub drop_item_kept :
        {x : SessionError st.Error}
        → (delete (tier s.stores e.scope) id).0 ≡ err x
        → drop_item id s ≡ (err (Failure.error x), after_delete e.scope id s)
    unfolding drop_item drop_entry ◌>>=◌
    drop_item_kept r = rw (live, ◌>>=◌) (rw (r, ◌>>=◌))

    pub drop_item_dropped :
        {u : Unit {0}}
        → (delete (tier s.stores e.scope) id).0 ≡ ok u
        → drop_item id s
          ≡ modify_stats count_evicted
              (modify_items (OrdMap.remove id) (after_delete e.scope id s)).1
    unfolding drop_item drop_entry ◌>>=◌
    drop_item_dropped r = rw (live, ◌>>=◌) (rw (r, ◌>>=◌))
