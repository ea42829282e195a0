-- ===== src/Oxigraph/Begins.antt =====
-- How a transaction of crates/semanticore-store-oxigraph/src/lib.rs begins.
use semanticore.Prelude.{
  ◌≡◌, ◌⊎◌, inl, inr, refl, Bool, true, ok, map_err, >>=-ok, map_err-ok, Result-cases, arith,
}
use semanticore.Model.{Quad, quad_eq}
use semanticore.Oxigraph.Engine.{Engine}
use semanticore.Oxigraph.Engine
use semanticore.Oxigraph.Convert.{core_error, quad_to_ox}
use semanticore.Oxigraph.Adapter.{Kind, OxigraphStore, TxInner, begin_read, begin_write}
use semanticore.Oxigraph.Laws.{OxView, StoreLaws}
use semanticore.Oxigraph.Held.{lifted, current_ox, is_reader, held, seen, OursTx, OursStore, Ours}

module _ (ox : Engine) (stored : ox.Literal → ox.Literal) (v : OxView ox)
    (laws : StoreLaws ox stored v) where
  -- Two tests that agree on every quad hold the same.
  pub Ours-agree :
      (f g : Engine.QuadIn ox → Bool)
      → ((x : Engine.QuadIn ox) → f x ≡ g x)
      → Ours ox v stored g
      → Ours ox v stored f
  Ours-agree f g same o x k h = o x k (ground (arith, same x))

  pub lifted-agree :
      (f g : Engine.QuadIn ox → Bool)
      → ((x : Engine.QuadIn ox) → f x ≡ g x)
      → (q : Quad) → lifted ox f (quad_to_ox ox q) ≡ lifted ox g (quad_to_ox ox q)
  lifted-agree f g same q = elim (Result-cases (quad_to_ox ox q)) [
    | inl (x, e) ↦ ground (arith, same x)
    | inr (u, e) ↦ ground arith
  ]

  -- A store's transactions are snapshots or writers that were started, or read the store itself.
  begin_read-kind :
      (s : OxigraphStore ox) {tx : TxInner ox} (k : Kind)
      → s.kind ≡ k
      → begin_read ox s ≡ ok tx
      → (tx ≡ TxInner.latest s.inner)
        ⊎ ((t : ox.Transaction) × (map_err (core_error ox) (ox.start_transaction s.inner) ≡ ok t)
            × (tx ≡ TxInner.snapshot t))
  unfolding begin_read
  begin_read-kind s {tx} Kind.in_memory e h = inl (ground arith)
  begin_read-kind s {tx} Kind.on_disk_read_only e h = inl (ground arith)
  begin_read-kind s {tx} Kind.on_disk e h =
      let (t, f, g) =
        >>=-ok (map_err (core_error ox) (ox.start_transaction s.inner))
          (λ t. ok (TxInner.snapshot t)) {out = tx} (ground arith) in
      inr (t, f, ground arith)

  begin_write-kind :
      (s : OxigraphStore ox) {tx : TxInner ox} (k : Kind)
      → s.kind ≡ k
      → begin_write ox s ≡ ok tx
      → (t : ox.Transaction) × (map_err (core_error ox) (ox.start_transaction s.inner) ≡ ok t)
        × (tx ≡ TxInner.write t)
  unfolding begin_write
  begin_write-kind s {tx} Kind.on_disk_read_only e h = absurd (ground arith)
  begin_write-kind s {tx} Kind.in_memory e h =
      let (t, f, g) =
        >>=-ok (map_err (core_error ox) (ox.start_transaction s.inner)) (λ t. ok (TxInner.write t))
          {out = tx} (ground arith) in
      (t, f, ground arith)
  begin_write-kind s {tx} Kind.on_disk e h =
      let (t, f, g) =
        >>=-ok (map_err (core_error ox) (ox.start_transaction s.inner)) (λ t. ok (TxInner.write t))
          {out = tx} (ground arith) in
      (t, f, ground arith)

  module _ (s : OxigraphStore ox) (o : OursStore ox v stored s) where
    started-sees :
        {t : ox.Transaction}
        → map_err (core_error ox) (ox.start_transaction s.inner) ≡ ok t
        → Ours ox v stored (v.sees t)
          × (v.current s.inner t ≡ true)
          × ((q : Quad) → lifted ox (v.sees t) (quad_to_ox ox q) ≡ held ox v s q)
    started-sees {t} h =
        let (now, same) = laws.starts s.inner (map_err-ok (core_error ox) _ h) in
        (
          Ours-agree (v.sees t) (v.holds s.inner) same o,
          now,
          lifted-agree (v.sees t) (v.holds s.inner) same,
        )

    pub begin_read-sees :
        {tx : TxInner ox}
        → begin_read ox s ≡ ok tx
        → OursTx ox v stored tx
          × (is_reader ox v tx ≡ true)
          × ((q : Quad) → seen ox v tx q ≡ held ox v s q)
    begin_read-sees {tx} h = elim (begin_read-kind s s.kind refl h) [
      | inl e ↦ rw e (o, refl, λ q. refl)
      | inr (t, started, e) ↦ let (o', _, same) = started-sees started in rw e (o', refl, same)
    ]

    pub begin_write-sees :
        {tx : TxInner ox}
        → begin_write ox s ≡ ok tx
        → OursTx ox v stored tx
          × (current_ox ox v s tx ≡ true)
          × ((q : Quad) → seen ox v tx q ≡ held ox v s q)
    begin_write-sees {tx} h =
        let (t, started, e) = begin_write-kind s s.kind refl h in rw e (started-sees started)
