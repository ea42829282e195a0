-- ===== src/Oxigraph/Writes.antt =====
-- `insert` and `remove` of crates/semanticore-store-oxigraph/src/lib.rs in a write transaction.
use semanticore.Prelude.{
  ◌≡◌, ◌≢◌, ◌⊎◌, inl, inr, Bool, true, false, not, ◌&&◌, ◌||◌, ok, err, Result-cases, Bool-cases,
  arith, ◌==◌, ==_cases, if◌then◌else◌,
}
use semanticore.Model.{Quad, quad_eq}
use semanticore.Oxigraph.Engine.{Engine}
use semanticore.Oxigraph.Engine
use semanticore.Oxigraph.Convert.{Unrepresentable, quad_to_ox}
use semanticore.Oxigraph.Adapter.{TxInner, insert, remove}
use semanticore.Oxigraph.Laws.{TermLaws, StoredAs, Kept, OxView, StoreLaws}
use semanticore.Oxigraph.RoundTrip.{IsMadeQuad, quad_to_ox-Kept}
use semanticore.Oxigraph.Held.{Bool-ext, lifted, quad_to_ox-inj, Ours}

module _ (ox : Engine) (stored : ox.Literal → ox.Literal) (v : OxView ox)
    (laws : StoreLaws ox stored v) (tx : ox.Transaction) (p : Quad) where
  -- A write that succeeds has found out whether the quad is there, and writes if that changes anything.
  pub insert-ok :
      {b : Bool} {tx' : TxInner ox}
      → insert ox (TxInner.write tx) p ≡ (ok b, tx')
      → (y : Engine.QuadIn ox) × (quad_to_ox ox p ≡ ok y)
        × (b ≡ not (v.sees tx y))
        × (tx' ≡ TxInner.write (if v.sees tx y then tx else ox.insert tx y))
  unfolding insert
  insert-ok h = elim (Result-cases (quad_to_ox ox p)) [
    | inr (e, fails) ↦ absurd (ground arith)
    | inl (y, e) ↦ elim (Result-cases (ox.contains tx y)) [
      | inr (x, fails) ↦ absurd (ground arith)
      | inl (present, found) ↦
          let seen = laws.reads.contains_sees tx y found in (y, e, ground arith, ground arith)
    ]
  ]

  -- A quad that does not convert is not there, so nothing is removed.
  pub remove-ok :
      {b : Bool} {tx' : TxInner ox}
      → remove ox (TxInner.write tx) p ≡ (ok b, tx')
      → ((e : Unrepresentable) × (quad_to_ox ox p ≡ err e) × (b ≡ false) × (tx' ≡ TxInner.write tx))
        ⊎ ((y : Engine.QuadIn ox) × (quad_to_ox ox p ≡ ok y)
            × (b ≡ v.sees tx y)
            × (tx' ≡ TxInner.write (if v.sees tx y then ox.remove tx y else tx)))
  unfolding remove
  remove-ok h = elim (Result-cases (quad_to_ox ox p)) [
    | inr (e, fails) ↦ inl (e, fails, ground arith, ground arith)
    | inl (y, e) ↦ elim (Result-cases (ox.contains tx y)) [
      | inr (x, fails) ↦ absurd (ground arith)
      | inl (present, found) ↦
          let seen = laws.reads.contains_sees tx y found in inr (y, e, ground arith, ground arith)
    ]
  ]

module _ (ox : Engine) (stored : ox.Literal → ox.Literal) (v : OxView ox)
    (laws : StoreLaws ox stored v) (tx : ox.Transaction) (y : Engine.QuadIn ox) where
  abbrev pub inserted : ox.Transaction
  inserted = if v.sees tx y then tx else ox.insert tx y

  abbrev pub removed : ox.Transaction
  removed = if v.sees tx y then ox.remove tx y else tx

  inserted_self : Kept ox stored y → v.sees inserted y ≡ true
  inserted_self k = ground (arith, laws.insert_self tx y k)

  inserted-keeps : (x : Engine.QuadIn ox) → v.sees tx x ≡ true → v.sees inserted x ≡ true
  inserted-keeps x h = ground (arith, laws.insert_keeps tx y x h)

  inserted-only :
      (x : Engine.QuadIn ox)
      → Kept ox stored y
      → Kept ox stored x
      → v.sees inserted x ≡ true
      → (x ≡ y) ⊎ (v.sees tx x ≡ true)
  inserted-only x ky kx h = elim (Bool-cases (v.sees tx y)) [
    | inl there ↦ inr (ground arith)
    | inr new ↦ laws.insert_only tx y x ky kx (ground arith)
  ]

  removed_self : v.sees removed y ≡ false
  removed_self = ground (arith, laws.remove_self tx y)

  removed-only : (x : Engine.QuadIn ox) → v.sees removed x ≡ true → v.sees tx x ≡ true
  removed-only x h = elim (Bool-cases (v.sees tx y)) [
    | inl there ↦ laws.remove_only tx y x (ground arith)
    | inr gone ↦ ground arith
  ]

  removed-keeps :
      (x : Engine.QuadIn ox)
      → Kept ox stored y
      → Kept ox stored x
      → x ≢ y
      → v.sees tx x ≡ true
      → v.sees removed x ≡ true
  removed-keeps x ky kx differ h = elim (Bool-cases (v.sees tx y)) [
    | inl there ↦ ground (arith, laws.remove_keeps tx y x ky kx differ h)
    | inr gone ↦ ground arith
  ]

  pub inserted-current : (s : ox.Store) → v.current s inserted ≡ v.current s tx
  inserted-current s = ground (arith, laws.insert_current s tx y)

  pub removed-current : (s : ox.Store) → v.current s removed ≡ v.current s tx
  removed-current s = ground (arith, laws.remove_current s tx y)

  module _ (terms : TermLaws ox) (literals : StoredAs ox stored) (p : Quad) (made : IsMadeQuad p)
      (conv : quad_to_ox ox p ≡ ok y) where
    kept : Kept ox stored y
    kept = quad_to_ox-Kept ox terms literals p conv

    -- After an insertion the transaction sees what it saw, and the quad.
    pub lifted-inserted :
        (q : Quad)
        → IsMadeQuad q
        → lifted ox (v.sees inserted) (quad_to_ox ox q)
          ≡ (q == p || lifted ox (v.sees tx) (quad_to_ox ox q))
    lifted-inserted q mq = elim (==_cases q p) [
      | inl (t, same) ↦
          let at : quad_to_ox ox q ≡ ok y = rw same conv in ground (arith, inserted_self kept)
      | inr (t, differ) ↦ elim (Result-cases (quad_to_ox ox q)) [
        | inr (e, fails) ↦ ground arith
        | inl (x, e) ↦
            let kx = quad_to_ox-Kept ox terms literals q e in
            let both =
              Bool-ext (v.sees inserted x) (v.sees tx x)
                (λ h. elim (inserted-only x kept kx h) [
                  | inl same ↦
                      absurd (differ (quad_to_ox-inj ox terms q p mq made e (rw same conv)))
                  | inr seen ↦ seen
                ])
                (inserted-keeps x) in
            ground arith
      ]
    ]

    pub inserted-Ours : Ours ox v stored (v.sees tx) → Ours ox v stored (v.sees inserted)
    inserted-Ours ours x kx h = elim (inserted-only x kept kx h) [
      | inl same ↦ (p, made, rw same conv)
      | inr seen ↦ ours x kx seen
    ]

    -- After a removal it sees what it saw, without the quad.
    pub lifted-removed :
        (q : Quad)
        → IsMadeQuad q
        → lifted ox (v.sees removed) (quad_to_ox ox q)
          ≡ (not (q == p) && lifted ox (v.sees tx) (quad_to_ox ox q))
    lifted-removed q mq = elim (==_cases q p) [
      | inl (t, same) ↦
          let at : quad_to_ox ox q ≡ ok y = rw same conv in ground (arith, removed_self)
      | inr (t, differ) ↦ elim (Result-cases (quad_to_ox ox q)) [
        | inr (e, fails) ↦ ground arith
        | inl (x, e) ↦
            let kx = quad_to_ox-Kept ox terms literals q e in
            let both = Bool-ext (v.sees removed x) (v.sees tx x) (removed-only x) (
              removed-keeps x kept kx
                (λ same. differ (quad_to_ox-inj ox terms q p mq made e (rw same conv)))) in
            ground arith
      ]
    ]

    pub removed-Ours : Ours ox v stored (v.sees tx) → Ours ox v stored (v.sees removed)
    removed-Ours ours x kx h = ours x kx (removed-only x h)
