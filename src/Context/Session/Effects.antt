-- ===== src/Context/Session/Effects.antt =====
-- What the calls on one store do to the quads that it holds, over the storage contract.
use semanticore.Prelude.{
  ◌≡◌, inl, inr, Result-cases, pair_of, Bool, true, not, ◌&&◌, ◌||◌, List, [], ◌∷◌, Result, ok, err,
  collect, arith, mem, mem-append,
}
use semanticore.Model.{Quad, quad_eq}
use semanticore.Storage.{Storage, Pattern, matches_pattern}
use semanticore.Storage.Contract.{View, Contract}
use semanticore.Context.Scope.{ItemId}
use semanticore.Context.Error.{SessionError}
use semanticore.Context.Record.{graph_pattern, meta_pattern}
use semanticore.Context.Record.Owners.{belongs}
use semanticore.Context.Session.Stored.{
  Work, with_write, insert_all, remove_all, found, item_quads, delete,
}

module _ ⦃st : Storage⦄ (v : View st) (c : Contract st v) where
  -- what the store holds afterwards: `g` of what it held if the call succeeded, else the same
  abbrev pub effect : {A : Type 0} → Result (SessionError st.Error) A → Bool → Bool → Bool
  effect (ok _) new old = new
  effect (err _) new old = old

  -- Work that sees `g` of what it saw, and still writes on the same store.
  abbrev pub Does : {A : Type 0} → Work A → (Quad → Bool → Bool) → Type 0
  Does {A} f g =
      (s : st.Store) (tx : st.Transaction) (a : A) (tx' : st.Transaction)
      → v.writing s tx ≡ true
      → f tx ≡ (ok a, tx')
      → (v.writing s tx' ≡ true) × ((q : Quad) → v.sees tx' q ≡ g q (v.sees tx q))

  -- Work that does the same to the view of every transaction that writes is applied by a write
  -- whole, or not at all.
  pub with_write_holds :
      {A : Type 0} (f : Work A) (g : Quad → Bool → Bool)
      → Does f g
      → (s : st.Store) (q : Quad)
      → v.holds (with_write s f).1 q ≡ effect (with_write s f).0 (g q (v.holds s q)) (v.holds s q)
  unfolding with_write
  with_write_holds f g d s q = elim (Result-cases (st.begin_write s)) [
    | inr (e, b) ↦ ground arith
    | inl (tx, b) ↦ elim (Result-cases (f tx).0) [
      | inr (e, r) ↦ ground (arith, c.rollback_holds (f tx).1 s q)
      | inl (a, r) ↦
          let tx' = (f tx).1 in
          let (w, starts) = c.begin_write_sees s b in
          let (w', does) = d s tx a tx' w (pair_of (f tx) r) in
          elim (Result-cases (st.commit tx' s).0) [
            | inr (e, k) ↦ ground (arith, c.commit_err s tx' (pair_of (st.commit tx' s) k) q)
            | inl (u, k) ↦
                ground
                  (arith, c.commit_ok s tx' w' (pair_of (st.commit tx' s) k) q, does q, starts q)
          ]
    ]
  ]

  pub insert_all-Does : (qs : List Quad) → Does (insert_all qs) (λ q b. mem q qs || b)
  unfolding insert_all mem
  insert_all-Does [] s tx a tx' w h = (ground arith, λ q. ground arith)
  insert_all-Does (p ∷ qs) s tx a tx' w h = elim (Result-cases (st.insert tx p).0) [
    | inr (e, r) ↦ absurd (ground arith)
    | inl (b, r) ↦
        let next = (st.insert tx p).1 in
        let (w', _, sees) = c.insert_sees s tx p w (pair_of (st.insert tx p) r) in
        let (w'', rest) = insert_all-Does qs s next a tx' w' (ground arith) in
        (w'', λ q. ground (arith, sees q, rest q))
  ]

  pub remove_all-Does : (qs : List Quad) → Does (remove_all qs) (λ q b. not (mem q qs) && b)
  unfolding remove_all mem
  remove_all-Does [] s tx a tx' w h = (ground arith, λ q. ground arith)
  remove_all-Does (p ∷ qs) s tx a tx' w h = elim (Result-cases (st.remove tx p).0) [
    | inr (e, r) ↦ absurd (ground arith)
    | inl (b, r) ↦
        let next = (st.remove tx p).1 in
        let (w', _, sees) = c.remove_sees s tx p w (pair_of (st.remove tx p) r) in
        let (w'', rest) = remove_all-Does qs s next a tx' w' (ground arith) in
        (w'', λ q. ground (arith, sees q, rest q))
  ]

  found_sees :
      (tx : st.Transaction) (p : Pattern) {qs : List Quad}
      → found tx p ≡ ok qs
      → (q : Quad) → mem q qs ≡ (v.sees tx q && matches_pattern q p)
  found_sees tx p h q = elim (Result-cases (collect (st.quads_for_pattern tx p))) [
    | inr (e, r) ↦ absurd (ground arith)
    | inl (qs, r) ↦ ground (arith, c.pattern_sees tx p r q)
  ]

  -- The quads that `delete` collects are those of the item that the transaction sees.
  item_quads_sees :
      (id : ItemId) (tx : st.Transaction) {qs : List Quad}
      → item_quads id tx ≡ ok qs
      → (q : Quad) → mem q qs ≡ (v.sees tx q && belongs id q)
  unfolding belongs
  item_quads_sees id tx h q = elim (Result-cases (found tx (graph_pattern id))) [
    | inr (e, r) ↦ absurd (ground arith)
    | inl (as', ra) ↦ elim (Result-cases (found tx (meta_pattern id))) [
      | inr (e, r) ↦ absurd (ground arith)
      | inl (bs, rb) ↦ ground (
        arith,
        found_sees tx (graph_pattern id) ra q,
        found_sees tx (meta_pattern id) rb q,
        mem-append q as' bs,
      )
    ]
  ]

  abbrev pub delete_work : ItemId → Work (Unit {0})
  delete_work id tx = elim (item_quads id tx) [
    | ok quads ↦ remove_all quads tx
    | err e ↦ (err e, tx)
  ]

  pub delete_work-Does : (id : ItemId) → Does (delete_work id) (λ q b. not (belongs id q) && b)
  delete_work-Does id s tx a tx' w h = elim (Result-cases (item_quads id tx)) [
    | inr (e, r) ↦ absurd (ground arith)
    | inl (qs, r) ↦
        let (w', sees) = remove_all-Does qs s tx a tx' w (ground arith) in
        (w', λ q. ground (arith, sees q, item_quads_sees id tx r q))
  ]

  -- A deletion removes the quads of the item and no others, or fails and removes nothing.
  pub delete_holds :
      (s : st.Store) (id : ItemId) (q : Quad)
      → v.holds (delete s id).1 q
        ≡ effect (delete s id).0 (not (belongs id q) && v.holds s q) (v.holds s q)
  unfolding delete
  delete_holds s id q =
      with_write_holds (delete_work id) (λ q b. not (belongs id q) && b) (delete_work-Does id) s q

  -- Writing quads adds them, or fails and adds nothing.
  pub insert_all_holds :
      (s : st.Store) (qs : List Quad) (q : Quad)
      → v.holds (with_write s (insert_all qs)).1 q
        ≡ effect (with_write s (insert_all qs)).0 (mem q qs || v.holds s q) (v.holds s q)
  insert_all_holds s qs q =
      with_write_holds (insert_all qs) (λ q b. mem q qs || b) (insert_all-Does qs) s q
