-- ===== src/Context/Session/DurableMoves.antt =====
-- Moving and dropping an item keep the invariant of `Durable`, on success and on every failure.
use semanticore.Prelude.{
  ℕ, ◌≡◌, ◌≢◌, sym, ◌∙◌, inl, inr, none, some, Result-cases, Option-cases, nat_eq, ==_cases,
}
use semanticore.Prelude.OrdMap
use semanticore.Prelude.OrdMap.{
  OrdMap, IsSorted, adjust-IsSorted, remove-IsSorted, get-adjust, get-remove,
}
use semanticore.Model.{quad_eq}
use semanticore.Storage.{Storage}
use semanticore.Storage.Contract.{View, Contract}
use semanticore.Context.Scope.{ContextScope, ItemId}
use semanticore.Context.Platform.{Platform}
use semanticore.Context.Config.{tier}
use semanticore.Context.Record.{encode}
use semanticore.Context.Session.State.{
  Entry, Arrival, Session, SessionStats, modify_items, modify_stats, count_evicted,
}
use semanticore.Context.Session.Stored.{delete}
use semanticore.Context.Session.Moves.{relocate, move_item, drop_item}
use semanticore.Context.Session.Ends.{
  after_delete, write_target, copied, clear_source, move_item_missing, move_item_uncopied,
  move_item_uncleared, move_item_moved, drop_item_missing, drop_item_kept, drop_item_dropped,
}
use semanticore.Context.Session.Durable.{
  Whole, IsStoredBut, IsStored, after_insert-IsStoredBut, after_delete-IsStoredBut, inserted_holds,
  deleted_elsewhere, failed_delete-IsStored,
}

some-inj : (a b : ℕ) → some a ≡ some b → a ≡ b
some-inj a b h = cc

module _ ⦃p : Platform⦄ ⦃st : Storage⦄ (v : View st) where
  -- Once the item is whole in the target, the index may say that it is there.
  relocated-IsStored :
      (id : ItemId) (to : ContextScope) (arrival : Arrival) (e : Entry) (s : Session)
      → OrdMap.get id s.state.items ≡ some e
      → IsStoredBut v (some id) s
      → Whole v s to id e.item
      → IsStored v (modify_items (OrdMap.adjust id (relocate to arrival)) s).1
  relocated-IsStored id to arrival e s g h w = record {
    sorted = adjust-IsSorted id (relocate to arrival) s.state.items h.sorted;
    fits = λ j. elim (==_cases j id) [
      | inl (t, same) ↦
          rw (get-adjust j id (relocate to arrival) s.state.items)
            (rw (t, g) (rw same (rw g at (h.fits id))))
      | inr (t, other) ↦ rw (get-adjust j id (relocate to arrival) s.state.items) (rw t (h.fits j))
    ];
    whole = λ j n. elim (==_cases j id) [
      | inl (t, same) ↦
          rw (get-adjust j id (relocate to arrival) s.state.items) (rw (t, g) (rw same w))
      | inr (t, other) ↦
          rw (get-adjust j id (relocate to arrival) s.state.items)
            (rw t (h.whole j (λ x. other (sym (some-inj id j x)))))
    ];
  }

  -- An item that is not live need not be whole.
  pub removed-IsStored :
      (id : ItemId) (s : Session)
      → IsStoredBut v (some id) s
      → IsStored v (modify_items (OrdMap.remove id) s).1
  removed-IsStored id s h = record {
    sorted = remove-IsSorted id s.state.items h.sorted;
    fits = λ j. elim (==_cases j id) [
      | inl (t, same) ↦ rw (get-remove j id s.state.items h.sorted) (rw t tt)
      | inr (t, other) ↦ rw (get-remove j id s.state.items h.sorted) (rw t (h.fits j))
    ];
    whole = λ j n. elim (==_cases j id) [
      | inl (t, same) ↦ rw (get-remove j id s.state.items h.sorted) (rw t tt)
      | inr (t, other) ↦
          rw (get-remove j id s.state.items h.sorted)
            (rw t (h.whole j (λ x. other (sym (some-inj id j x)))))
    ];
  }

  -- Counters are no part of the invariant.
  pub stats-IsStored :
      (f : SessionStats → SessionStats) (s : Session)
      → IsStored v s
      → IsStored v (modify_stats f s).1
  stats-IsStored f s h = record { sorted = h.sorted; fits = h.fits; whole = h.whole }

module _ ⦃p : Platform⦄ ⦃st : Storage⦄ (v : View st) (c : Contract st v) where
  -- On a session whose items are stored, a move to another scope leaves every live item whole
  -- where the index says that it is, whether it succeeds or fails before, between or after its
  -- two writes.
  pub move_item-IsStored :
      (id : ItemId) (to : ContextScope) (arrival : Arrival) (s : Session)
      → ((e : Entry) → OrdMap.get id s.state.items ≡ some e → to ≢ e.scope)
      → IsStored v s
      → IsStored v (move_item id to arrival s).1
  move_item-IsStored id to arrival s away h = elim (Option-cases (OrdMap.get id s.state.items)) [
    | inl g ↦ rw (move_item_missing id to arrival s g) h
    | inr (e, g) ↦
        let qs = encode id e.item in
        let s1 = copied id to arrival s e g in
        let h1 : IsStored v s1 = after_insert-IsStoredBut v c to qs s none h in
        elim (Result-cases (write_target id to arrival s e g)) [
          | inr (x, r) ↦ rw (move_item_uncopied id to arrival s e g r) h1
          | inl (u, r) ↦ elim (Result-cases (clear_source id to arrival s e g)) [
            | inr (x, k) ↦
                rw (move_item_uncleared id to arrival s e g r k)
                  (failed_delete-IsStored v c e.scope id s1 k h1)
            | inl (w, k) ↦ rw (move_item_moved id to arrival s e g r k) (
                relocated-IsStored v id to arrival e (after_delete e.scope id s1) g
                  (after_delete-IsStoredBut v c e.scope id s1 (rw g at (h.fits id)) h1)
                  (λ q m.
                    deleted_elsewhere v c e.scope id s1 to (away e g) q
                    ∙ inserted_holds v c to qs s r q m))
          ]
        ]
  ]

  -- Dropping an item leaves every other live item whole, and the item too if the drop fails.
  pub drop_item-IsStored :
      (id : ItemId) (s : Session) → IsStored v s → IsStored v (drop_item id s).1
  drop_item-IsStored id s h = elim (Option-cases (OrdMap.get id s.state.items)) [
    | inl g ↦ rw (drop_item_missing id s g) h
    | inr (e, g) ↦ elim (Result-cases (delete (tier s.stores e.scope) id).0) [
      | inr (x, r) ↦ rw (drop_item_kept id s e g r) (failed_delete-IsStored v c e.scope id s r h)
      | inl (u, r) ↦ rw (drop_item_dropped id s e g r) (
          stats-IsStored v count_evicted
            (modify_items (OrdMap.remove id) (after_delete e.scope id s)).1
            (removed-IsStored v id (after_delete e.scope id s)
              (after_delete-IsStoredBut v c e.scope id s (rw g at (h.fits id)) h)))
    ]
  ]
