-- ===== src/Oxigraph/Contract.antt =====
-- The adapter of crates/semanticore-store-oxigraph keeps the storage contract.
use semanticore.Prelude.{
  ◌≡◌, ◌∙◌, inl, inr, refl, Bool, true, not, ◌&&◌, ◌||◌, ok, err, map_err-ok, Result-cases, arith,
  ◌==◌, ==_cases,
}
use semanticore.Model.{Quad, quad_eq}
use semanticore.Storage.{StorageError}
use semanticore.Storage.Restricted.{ContractFor}
use semanticore.Oxigraph.Engine.{Engine}
use semanticore.Oxigraph.Engine
use semanticore.Oxigraph.Convert.{core_error, quad_to_ox}
use semanticore.Oxigraph.Adapter.{
  OxigraphStore, TxInner, AdapterError, adapter_error, contains_ox, oxigraph_storage, insert,
  remove, contains, commit,
}
use semanticore.Oxigraph.Laws.{TermLaws, StoredAs, OxView, StoreLaws}
use semanticore.Oxigraph.RoundTrip.{IsMadeQuad}
use semanticore.Oxigraph.Held.{
  sees_ox, current_ox, is_reader, held, seen, OursTx, OursStore, oxigraph_view, ours,
}
use semanticore.Oxigraph.Writes.{
  insert-ok, remove-ok, inserted-current, removed-current, lifted-inserted, lifted-removed,
  inserted-Ours, removed-Ours,
}
use semanticore.Oxigraph.Begins.{Ours-agree, lifted-agree, begin_read-sees, begin_write-sees}
use semanticore.Oxigraph.Reads.{mem-quads_for_pattern}

module _ (ox : Engine) (terms : TermLaws ox) (stored : ox.Literal → ox.Literal)
    (literals : StoredAs ox stored) (v : OxView ox) (laws : StoreLaws ox stored v) where
  module _ (s : OxigraphStore ox) (t : ox.Transaction) (p : Quad) {b : Bool} {tx' : TxInner ox}
      (o : OursTx ox v stored (TxInner.write t)) (made : IsMadeQuad p)
      (w : current_ox ox v s (TxInner.write t) ≡ true) where
    insert_write-sees :
        insert ox (TxInner.write t) p ≡ (ok b, tx')
        → OursTx ox v stored tx'
          × (current_ox ox v s tx' ≡ true)
          × (b ≡ not (seen ox v (TxInner.write t) p))
          × ((q : Quad)
              → IsMadeQuad q
              → seen ox v tx' q ≡ (q == p || seen ox v (TxInner.write t) q))
    insert_write-sees h =
        let (y, e, told, written) = insert-ok ox stored v laws t p h in
        rw written (
          inserted-Ours ox stored v laws t y terms literals p made e o,
          inserted-current ox stored v laws t y s.inner ∙ w,
          ground arith,
          lifted-inserted ox stored v laws t y terms literals p made e,
        )

    remove_write-sees :
        remove ox (TxInner.write t) p ≡ (ok b, tx')
        → OursTx ox v stored tx'
          × (current_ox ox v s tx' ≡ true)
          × (b ≡ seen ox v (TxInner.write t) p)
          × ((q : Quad)
              → IsMadeQuad q
              → seen ox v tx' q ≡ (not (q == p) && seen ox v (TxInner.write t) q))
    remove_write-sees h = elim (remove-ok ox stored v laws t p h) [
      | inr (y, e, told, written) ↦ rw written (
        removed-Ours ox stored v laws t y terms literals p made e o,
        removed-current ox stored v laws t y s.inner ∙ w,
        ground arith,
        lifted-removed ox stored v laws t y terms literals p made e,
      )
      | inl (u, fails, told, written) ↦ rw written (
        o,
        w,
        ground arith,
        λ q mq. elim (==_cases q p) [
          | inl (test, same) ↦ let at : quad_to_ox ox q ≡ err u = rw same fails in ground arith
          | inr (test, differ) ↦ ground arith
        ],
      )
    ]

  insert-sees :
      (s : OxigraphStore ox) (tx : TxInner ox) (p : Quad) {b : Bool} {tx' : TxInner ox}
      → OursTx ox v stored tx
      → IsMadeQuad p
      → current_ox ox v s tx ≡ true
      → insert ox tx p ≡ (ok b, tx')
      → OursTx ox v stored tx'
        × (current_ox ox v s tx' ≡ true)
        × (b ≡ not (seen ox v tx p))
        × ((q : Quad) → IsMadeQuad q → seen ox v tx' q ≡ (q == p || seen ox v tx q))
  insert-sees s (TxInner.write t) p o made w h = insert_write-sees s t p o made w h
  insert-sees s (TxInner.snapshot t) p o made w h = absurd (ground arith)
  insert-sees s (TxInner.latest t) p o made w h = absurd (ground arith)

  remove-sees :
      (s : OxigraphStore ox) (tx : TxInner ox) (p : Quad) {b : Bool} {tx' : TxInner ox}
      → OursTx ox v stored tx
      → IsMadeQuad p
      → current_ox ox v s tx ≡ true
      → remove ox tx p ≡ (ok b, tx')
      → OursTx ox v stored tx'
        × (current_ox ox v s tx' ≡ true)
        × (b ≡ seen ox v tx p)
        × ((q : Quad) → IsMadeQuad q → seen ox v tx' q ≡ (not (q == p) && seen ox v tx q))
  remove-sees s (TxInner.write t) p o made w h = remove_write-sees s t p o made w h
  remove-sees s (TxInner.snapshot t) p o made w h = absurd (ground arith)
  remove-sees s (TxInner.latest t) p o made w h = absurd (ground arith)

  contains_ox-sees :
      (tx : TxInner ox) (x : Engine.QuadIn ox) {b : Bool}
      → contains_ox ox tx x ≡ ok b
      → b ≡ sees_ox ox v tx x
  contains_ox-sees (TxInner.write t) x h =
      laws.reads.contains_sees t x (map_err-ok (core_error ox) _ h)
  contains_ox-sees (TxInner.snapshot t) x h =
      laws.reads.contains_sees t x (map_err-ok (core_error ox) _ h)
  contains_ox-sees (TxInner.latest s) x h =
      laws.store_reads.contains_sees s x (map_err-ok (core_error ox) _ h)

  contains-sees :
      (tx : TxInner ox) (q : Quad) {b : Bool} → contains ox tx q ≡ ok b → b ≡ seen ox v tx q
  unfolding contains
  contains-sees tx q {b} h = elim (Result-cases (quad_to_ox ox q)) [
    | inl (x, e) ↦ ground (arith, contains_ox-sees tx x {b = b})
    | inr (u, e) ↦ ground arith
  ]

  commit-holds :
      (s : OxigraphStore ox) (tx : TxInner ox) {s' : OxigraphStore ox}
      → OursTx ox v stored tx
      → current_ox ox v s tx ≡ true
      → commit ox tx s ≡ (ok tt, s')
      → OursStore ox v stored s' × ((q : Quad) → held ox v s' q ≡ seen ox v tx q)
  unfolding commit
  commit-holds s (TxInner.snapshot t) o w h = absurd (ground arith)
  commit-holds s (TxInner.latest t) o w h = absurd (ground arith)
  commit-holds s (TxInner.write t) {s'} o w h =
      let done = map_err-ok (core_error ox) (ox.commit t s.inner).0 (ground arith) in
      let same = laws.commit_ok s.inner s'.inner t w (ground arith) in
      (
        Ours-agree ox stored v laws (v.holds s'.inner) (v.sees t) same o,
        lifted-agree ox stored v laws (v.holds s'.inner) (v.sees t) same,
      )

  commit_err-holds :
      (s : OxigraphStore ox) (tx : TxInner ox) {e : StorageError} {s' : OxigraphStore ox}
      → OursStore ox v stored s
      → commit ox tx s ≡ (err e, s')
      → OursStore ox v stored s' × ((q : Quad) → held ox v s' q ≡ held ox v s q)
  unfolding commit
  commit_err-holds s (TxInner.snapshot t) o h = absurd (ground arith)
  commit_err-holds s (TxInner.latest t) o h = absurd (ground arith)
  commit_err-holds s (TxInner.write t) {e} {s'} o h = elim (Result-cases (ox.commit t s.inner).0) [
    | inl (u, done) ↦ absurd (ground arith)
    | inr (x, failed) ↦
        let same = laws.commit_err s.inner s'.inner t {e = x} (ground arith) in
        (
          Ours-agree ox stored v laws (v.holds s'.inner) (v.holds s.inner) same o,
          lifted-agree ox stored v laws (v.holds s'.inner) (v.holds s.inner) same,
        )
  ]

  abbrev refused : StorageError
  refused = adapter_error AdapterError.read_only_transaction

  reader-insert :
      (tx : TxInner ox) (p : Quad)
      → is_reader ox v tx ≡ true
      → (e : StorageError) × (insert ox tx p ≡ (err e, tx))
  unfolding insert
  reader-insert (TxInner.write t) p h = absurd (ground arith)
  reader-insert (TxInner.snapshot t) p h = (refused, refl)
  reader-insert (TxInner.latest t) p h = (refused, refl)

  reader-remove :
      (tx : TxInner ox) (p : Quad)
      → is_reader ox v tx ≡ true
      → (e : StorageError) × (remove ox tx p ≡ (err e, tx))
  unfolding remove
  reader-remove (TxInner.write t) p h = absurd (ground arith)
  reader-remove (TxInner.snapshot t) p h = (refused, refl)
  reader-remove (TxInner.latest t) p h = (refused, refl)

  -- Given the laws on the crate's terms, on how its store reads a literal back and on its store and
  -- transactions, the adapter keeps the whole storage contract for the quads and patterns whose
  -- literals the constructors of the model made, in stores and transactions whose quads were written
  -- through it, and every call that succeeds keeps to those.
  pub adapter-ContractFor :
      ContractFor (oxigraph_storage ox) (oxigraph_view ox v) (ours ox v stored)
  adapter-ContractFor = record {
    begin_read_sees = λ s o h. begin_read-sees ox stored v laws s o h;
    begin_write_sees = λ s o h. begin_write-sees ox stored v laws s o h;
    insert_sees = insert-sees;
    remove_sees = remove-sees;
    contains_sees = contains-sees;
    pattern_sees = λ tx p o made h q mq.
        mem-quads_for_pattern ox terms stored literals v laws tx o p made q mq h;
    read_only_insert = reader-insert;
    read_only_remove = reader-remove;
    commit_ok = commit-holds;
    commit_err = commit_err-holds;
    rollback_holds = λ tx s q. refl;
  }
