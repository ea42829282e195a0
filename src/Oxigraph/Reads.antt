-- ===== src/Oxigraph/Reads.antt =====
-- `quads_for_pattern` of crates/semanticore-store-oxigraph/src/lib.rs.
use semanticore.Prelude.{
  ◌≡◌, inl, inr, refl, Bool, true, ◌&&◌, List, [], ◌∷◌, map, Result, ok, err, >>=-ok, Result-cases,
  collect, arith, mem, ==_iff, ==_cases, ok-inj, ok-ne-err,
}
use semanticore.Model.{Quad, quad_eq}
use semanticore.Storage.{Pattern, matches_pattern}
use semanticore.Oxigraph.Engine.{Engine}
use semanticore.Oxigraph.Engine
use semanticore.Oxigraph.Convert.{quad_to_ox, quad_from_ox}
use semanticore.Oxigraph.Adapter.{TxInner, quads_ox, read_back, pattern_to_ox, quads_for_pattern}
use semanticore.Oxigraph.Laws.{TermLaws, StoredAs, In, KeptAt, Kept, Fits, OxView, StoreLaws}
use semanticore.Oxigraph.RoundTrip.{
  IsMadeQuad, quad_to_ox-QuadParts, quad_from_ox-quad_to_ox, quad_to_ox-Kept,
}
use semanticore.Oxigraph.Positions.{
  matches_pattern-Fits, Fits-matches_pattern, pattern_to_ox-KeptAt,
}
use semanticore.Oxigraph.Held.{Bool-ext, lifted, sees_ox, Ours, IsMadePattern}

module _ (ox : Engine) where
  -- the quads of the one list converted one by one to those of the other
  abbrev Converted : List (Engine.QuadIn ox) → List Quad → Type 0
  Converted [] [] = Unit {0}
  Converted [] (q ∷ qs) = ⊥
  Converted (x ∷ xs) [] = ⊥
  Converted (x ∷ xs) (q ∷ qs) = (quad_from_ox ox x ≡ ok q) × Converted xs qs

  -- A query that succeeds has read every quad and converted it.
  collect-read_back :
      (rs : List (Result ox.Error (Engine.QuadIn ox))) (qs : List Quad)
      → collect (map (read_back ox) rs) ≡ ok qs
      → (xs : List (Engine.QuadIn ox)) × (collect rs ≡ ok xs) × Converted xs qs
  unfolding collect
  collect-read_back [] [] h = ([], refl, tt)
  collect-read_back [] (q ∷ qs) h = absurd (ground arith)
  collect-read_back (err e ∷ rs) qs h = absurd (ok-ne-err h)
  collect-read_back (ok x ∷ rs) [] h =
      let (a, e₁, h₁) = >>=-ok (quad_from_ox ox x) _ h in
      let (as', e₂, h₂) = >>=-ok (collect (map (read_back ox) rs)) _ h₁ in absurd (ground arith)
  collect-read_back (ok x ∷ rs) (q ∷ qs) h =
      let (a, e₁, h₁) = >>=-ok (quad_from_ox ox x) _ h in
      let (as', e₂, h₂) = >>=-ok (collect (map (read_back ox) rs)) _ h₁ in
      let (xs, g, conv) = collect-read_back rs qs (ground arith) in
      (x ∷ xs, ground arith, (ground arith, conv))

  Converted-mem :
      (xs : List (Engine.QuadIn ox)) (qs : List Quad) (q : Quad)
      → Converted xs qs
      → mem q qs ≡ true
      → (x : Engine.QuadIn ox) × In x xs × (quad_from_ox ox x ≡ ok q)
  unfolding mem
  Converted-mem [] [] q c m = absurd (ground arith)
  Converted-mem [] (p ∷ qs) q c m = absurd c
  Converted-mem (x ∷ xs) [] q c m = absurd c
  Converted-mem (x ∷ xs) (p ∷ qs) q (e, c) m = elim (==_cases q p) [
    | inl (t, same) ↦ (x, inl refl, rw same e)
    | inr (t, differ) ↦ let (y, i, f) = Converted-mem xs qs q c (ground arith) in (y, inr i, f)
  ]

  Converted-In :
      (xs : List (Engine.QuadIn ox)) (qs : List Quad) (q : Quad) (x : Engine.QuadIn ox)
      → Converted xs qs
      → In x xs
      → quad_from_ox ox x ≡ ok q
      → mem q qs ≡ true
  unfolding mem
  Converted-In [] qs q x c i e = absurd i
  Converted-In (y ∷ xs) [] q x c i e = absurd c
  Converted-In (y ∷ xs) (p ∷ qs) q x (f, c) (inl same) e =
      let found : q ≡ p = ok-inj e (rw same f) in ground (arith, (==_iff q p).1 found)
  Converted-In (y ∷ xs) (p ∷ qs) q x (f, c) (inr i) e = ground (arith, Converted-In xs qs q x c i e)

module _ (ox : Engine) (stored : ox.Literal → ox.Literal) (v : OxView ox)
    (laws : StoreLaws ox stored v) (px : Engine.PatternIn ox) {xs : List (Engine.QuadIn ox)}
    (kept : KeptAt ox stored px.object) where
  quads_ox-seen :
      (tx : TxInner ox)
      → collect (quads_ox ox tx px) ≡ ok xs
      → (x : Engine.QuadIn ox) → In x xs
      → Kept ox stored x × (sees_ox ox v tx x ≡ true) × Fits ox px x
  quads_ox-seen (TxInner.write tx) = laws.reads.quads_seen tx px kept
  quads_ox-seen (TxInner.snapshot tx) = laws.reads.quads_seen tx px kept
  quads_ox-seen (TxInner.latest s) = laws.store_reads.quads_seen s px kept

  seen-quads_ox :
      (tx : TxInner ox)
      → collect (quads_ox ox tx px) ≡ ok xs
      → (x : Engine.QuadIn ox) → Kept ox stored x
      → sees_ox ox v tx x ≡ true
      → Fits ox px x
      → In x xs
  seen-quads_ox (TxInner.write tx) = laws.reads.seen_quads tx px kept
  seen-quads_ox (TxInner.snapshot tx) = laws.reads.seen_quads tx px kept
  seen-quads_ox (TxInner.latest s) = laws.store_reads.seen_quads s px kept

module _ (ox : Engine) (terms : TermLaws ox) (stored : ox.Literal → ox.Literal)
    (literals : StoredAs ox stored) (v : OxView ox) (laws : StoreLaws ox stored v) (tx : TxInner ox)
    (ours : Ours ox v stored (sees_ox ox v tx)) (p : Pattern) (made_pattern : IsMadePattern p)
    (q : Quad) (made : IsMadeQuad q) where
  abbrev pub sees : Bool
  sees = lifted ox (sees_ox ox v tx) (quad_to_ox ox q)

  -- What is yielded is seen and matches.
  yielded :
      {px : Engine.PatternIn ox} (xs : List (Engine.QuadIn ox)) (qs : List Quad)
      → pattern_to_ox ox p ≡ ok px
      → collect (quads_ox ox tx px) ≡ ok xs
      → Converted ox xs qs
      → mem q qs ≡ true
      → (sees && matches_pattern q p) ≡ true
  yielded {px} xs qs ep ex conv m =
      let (x, i, e) = Converted-mem ox xs qs q conv m in
      let kept_at = pattern_to_ox-KeptAt ox terms stored literals p ep in
      let (kx, seen, fits) = quads_ox-seen ox stored v laws px kept_at tx ex x i in
      let (q', made', e') = ours x kx seen in
      let same : q ≡ q' = ok-inj e (quad_from_ox-quad_to_ox ox terms q' made' e') in
      let here : quad_to_ox ox q ≡ ok x = rw same e' in
      let parts = quad_to_ox-QuadParts ox terms q here in
      ground (arith, Fits-matches_pattern ox terms q x parts p made made_pattern ep fits)

  -- What is seen and matches is yielded.
  yields :
      {px : Engine.PatternIn ox} (xs : List (Engine.QuadIn ox)) (qs : List Quad)
      → pattern_to_ox ox p ≡ ok px
      → collect (quads_ox ox tx px) ≡ ok xs
      → Converted ox xs qs
      → (sees && matches_pattern q p) ≡ true
      → mem q qs ≡ true
  yields {px} xs qs ep ex conv h = elim (Result-cases (quad_to_ox ox q)) [
    | inr (e, fails) ↦ absurd (ground arith)
    | inl (x, here) ↦
        let parts = quad_to_ox-QuadParts ox terms q here in
        let (px', ep', fits) = matches_pattern-Fits ox terms q x parts p (ground arith) in
        let same : px' ≡ px = ok-inj ep' ep in
        let kept_at = pattern_to_ox-KeptAt ox terms stored literals p ep in
        let kx = quad_to_ox-Kept ox terms literals q here in
        let i =
          seen-quads_ox ox stored v laws px kept_at tx ex x kx (ground arith) (rw (← same) fits) in
        Converted-In ox xs qs q x conv i (quad_from_ox-quad_to_ox ox terms q made here)
  ]

  -- A pattern yields the matching quads that the transaction sees.
  pub mem-quads_for_pattern :
      {qs : List Quad}
      → collect (quads_for_pattern ox tx p) ≡ ok qs
      → mem q qs ≡ (sees && matches_pattern q p)
  unfolding quads_for_pattern collect mem
  mem-quads_for_pattern {qs} h = elim (Result-cases (pattern_to_ox ox p)) [
    | inl (px, ep) ↦
        let (xs, ex, conv) = collect-read_back ox (quads_ox ox tx px) qs (ground arith) in
        Bool-ext (mem q qs) (sees && matches_pattern q p) (yielded xs qs ep ex conv)
          (yields xs qs ep ex conv)
    | inr (u, fails) ↦
        let nothing : qs ≡ [] = ground arith in
        Bool-ext (mem q qs) (sees && matches_pattern q p) (λ m. absurd (ground arith))
          (λ h. elim (Result-cases (quad_to_ox ox q)) [
            | inr (e, gone) ↦ absurd (ground arith)
            | inl (x, here) ↦
                let parts = quad_to_ox-QuadParts ox terms q here in
                let (px, ep, fits) = matches_pattern-Fits ox terms q x parts p (ground arith) in
                absurd (ground arith)
          ])
  ]
