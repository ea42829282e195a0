-- ===== src/Context/Session/DurableAdditions.antt =====
-- Adding items keeps the invariant of `Durable`: the quads of a batch are written before the index
-- takes the items.
use semanticore.Prelude.{
  ℕ, zero, suc, ◌+◌, ◌-◌, ◌<◌, ◌≡◌, inl, inr, true, ◌||◌, List, [], ◌∷◌, ◌++◌, ok, Result-cases,
  pair_of, nat_eq, ==_cases, arith, All, mem, mem-append, u64_add, u64_add-lt, u64_limit,
}
use semanticore.Prelude.OrdMap
use semanticore.Prelude.OrdMap.{insert-IsSorted, get-insert}
use semanticore.Model.{Quad, quad_eq}
use semanticore.Storage.{Storage}
use semanticore.Storage.Contract.{View, Contract}
use semanticore.Context.Scope.{ContextScope, ItemId, scope_eq}
use semanticore.Context.Platform.{Platform}
use semanticore.Context.Item.{ContextItem}
use semanticore.Context.Config.{tier}
use semanticore.Context.Record.{encode}
use semanticore.Context.Session.State.{Arrival, Session, new_entry, modify_items, on_store}
use semanticore.Context.Session.Stored.{with_write, insert_all}
use semanticore.Context.Session.Operations.{insert_items, index_added, range_from, range, zip}
use semanticore.Context.Session.Effects.{Does, insert_all-Does, with_write_holds}
use semanticore.Context.Session.Durable.{holds_in, Whole, WholeEntry-map, IsStored, tier-set_tier}

range_from-fits :
    (first n : ℕ)
    → (0 < n → first + n < u64_limit)
    → All (λ id. id < u64_limit) (range_from first n)
unfolding range_from
range_from-fits first zero h = tt
range_from-fits first (suc n) h =
    let b = h (omega arith) in (omega arith, range_from-fits (first + 1) n (λ x. omega arith))

-- The ids of a batch fit into their word, also where their sum wraps.
pub range-fits : (first n : ℕ) → All (λ id. id < u64_limit) (range first (u64_add first n))
unfolding range
range-fits first n =
    range_from-fits first (u64_add first n - first) (bound (u64_add first n) (u64_add-lt first n))
  where
    bound : (e : ℕ) → e < u64_limit → 0 < e - first → first + (e - first) < u64_limit
    bound e h x = omega arith

module _ ⦃p : Platform⦄ where
  -- every quad of the batch
  unfoldable pub batch_quads : List (ItemId × ContextItem) → List Quad
  batch_quads [] = []
  batch_quads ((id, item) ∷ rest) = encode id item ++ batch_quads rest

module _ ⦃p : Platform⦄ ⦃st : Storage⦄ (v : View st) (c : Contract st v) where
  pub insert_items-Does :
      (zs : List (ItemId × ContextItem))
      → Does v c (insert_items zs) (λ q b. mem q (batch_quads zs) || b)
  unfolding insert_items batch_quads mem
  insert_items-Does [] s tx a tx' w h = (ground arith, λ q. ground arith)
  insert_items-Does ((id, item) ∷ rest) s tx a tx' w h =
      elim (Result-cases (insert_all (encode id item) tx).0) [
        | inr (e, r) ↦ absurd (ground arith)
        | inl (u, r) ↦
            let next = (insert_all (encode id item) tx).1 in
            let (w', sees) =
              insert_all-Does v c (encode id item) s tx u next w
                (pair_of (insert_all (encode id item) tx) r) in
            let (w'', others) = insert_items-Does rest s next a tx' w' (ground arith) in
            (
              w'',
              λ q.
                  ground
                    (arith, sees q, others q, mem-append q (encode id item) (batch_quads rest)),
            )
      ]

  -- the session after the write of a batch
  abbrev pub after_batch : ContextScope → List (ItemId × ContextItem) → Session → Session
  after_batch scope zs s = (on_store scope (λ store. with_write store (insert_items zs)) s).1

  batch_holds :
      (scope : ContextScope) (zs : List (ItemId × ContextItem)) (s : Session) (at : ContextScope)
      (q : Quad)
      → holds_in v s at q ≡ true
      → holds_in v (after_batch scope zs s) at q ≡ true
  batch_holds scope zs s at q h =
      let old = tier s.stores scope in
      ground (
        arith,
        tier-set_tier s.stores scope at (with_write old (insert_items zs)).1,
        with_write_holds v c (insert_items zs) (λ q b. mem q (batch_quads zs) || b)
            (insert_items-Does zs) old q,
      )

  pub after_batch-IsStored :
      (scope : ContextScope) (zs : List (ItemId × ContextItem)) (s : Session)
      → IsStored v s
      → IsStored v (after_batch scope zs s)
  after_batch-IsStored scope zs s h = record {
    sorted = h.sorted;
    fits = h.fits;
    whole = λ j n.
        WholeEntry-map v s (after_batch scope zs s) j (OrdMap.get j s.state.items) (h.fits j)
          (λ at item q _ _ held. batch_holds scope zs s at q held) (h.whole j n);
  }

  -- A batch that was written is in the store of its scope.
  pub batch_written :
      (scope : ContextScope) (zs : List (ItemId × ContextItem)) (s : Session)
      → (with_write (tier s.stores scope) (insert_items zs)).0 ≡ ok tt
      → (q : Quad) → mem q (batch_quads zs) ≡ true
      → holds_in v (after_batch scope zs s) scope q ≡ true
  batch_written scope zs s r q m =
      let old = tier s.stores scope in
      ground (
        arith,
        tier-set_tier s.stores scope scope (with_write old (insert_items zs)).1,
        with_write_holds v c (insert_items zs) (λ q b. mem q (batch_quads zs) || b)
            (insert_items-Does zs) old q,
      )

module _ ⦃p : Platform⦄ ⦃st : Storage⦄ (v : View st) where
  -- what the index needs of an item that it takes
  abbrev pub Ready : ContextScope → Session → ItemId × ContextItem → Type 0
  Ready scope s z = (z.0 < u64_limit) × Whole v s scope z.0 z.1

  -- The items of a batch that the store holds are ready for the index.
  pub batch-Ready :
      (scope : ContextScope) (s : Session) (ids : List ItemId) (items : List ContextItem)
      → All (λ id. id < u64_limit) ids
      → ((q : Quad) → mem q (batch_quads (zip ids items)) ≡ true → holds_in v s scope q ≡ true)
      → All (Ready scope s) (zip ids items)
  unfolding zip batch_quads
  batch-Ready scope s [] items f h = tt
  batch-Ready scope s (id ∷ ids) [] f h = tt
  batch-Ready scope s (id ∷ ids) (item ∷ items) f h = (
    (f.0, λ q m. h q (ground (arith, mem-append q (encode id item) (batch_quads (zip ids items))))),
    batch-Ready scope s ids items f.1
        (λ q m. h q (ground (arith, mem-append q (encode id item) (batch_quads (zip ids items))))),
  )

  indexed-IsStored :
      (scope : ContextScope) (t id : ℕ) (item : ContextItem) (s : Session)
      → Ready scope s (id, item)
      → IsStored v s
      → IsStored v (modify_items (OrdMap.insert id (new_entry item scope Arrival.added t)) s).1
  indexed-IsStored scope t id item s r h =
      let e = new_entry item scope Arrival.added t in
      record {
        sorted = insert-IsSorted id e s.state.items h.sorted;
        fits = λ j. elim (==_cases j id) [
          | inl (k, same) ↦ rw (get-insert j id e s.state.items) (rw k (rw same r.0))
          | inr (k, other) ↦ rw (get-insert j id e s.state.items) (rw k (h.fits j))
        ];
        whole = λ j n. elim (==_cases j id) [
          | inl (k, same) ↦ rw (get-insert j id e s.state.items) (rw k (rw same r.1))
          | inr (k, other) ↦ rw (get-insert j id e s.state.items) (rw k (h.whole j n))
        ];
      }

  -- The index takes items that the store holds.
  pub index_added-IsStored :
      (scope : ContextScope) (t : ℕ) (zs : List (ItemId × ContextItem)) (s : Session)
      → All (Ready scope s) zs
      → IsStored v s
      → IsStored v (modify_items (index_added scope t zs) s).1
  unfolding index_added
  index_added-IsStored scope t [] s r h = record {
    sorted = h.sorted;
    fits = h.fits;
    whole = h.whole;
  }
  index_added-IsStored scope t ((id, item) ∷ rest) s r h =
      index_added-IsStored scope t rest
        (modify_items (OrdMap.insert id (new_entry item scope Arrival.added t)) s).1 r.1
        (indexed-IsStored scope t id item s r.0 h)
