-- ===== src/Oxigraph/Positions.antt =====
-- The positions of a pattern in crates/semanticore-store-oxigraph/src/lib.rs before and after they are
-- converted.
use semanticore.Prelude.{◌≡◌, refl, true, Option, none, some, Result, ok, >>=-ok, arith, Eq, ==_iff}
use semanticore.Model.{Term, Quad, named_node_eq, node_eq, term_eq, graph_eq}
use semanticore.Storage.{Pattern, none_or, matches_pattern}
use semanticore.Oxigraph.Engine.{Engine}
use semanticore.Oxigraph.Engine
use semanticore.Oxigraph.Convert.{
  Unrepresentable, subject_to_ox, named_to_ox, term_to_ox, graph_to_ox,
}
use semanticore.Oxigraph.Adapter.{transposed, pattern_to_ox}
use semanticore.Oxigraph.Laws.{TermLaws, StoredAs, At, KeptAt, Fits}
use semanticore.Oxigraph.RoundTrip.{
  IsMadeQuad, QuadParts, subject_to_ox-inj, named_to_ox-inj, term_to_ox-inj, graph_to_ox-inj,
  term_to_ox-KeptTerm,
}
use semanticore.Oxigraph.Held.{IsMadePattern}

module _ {A B : Type 0} ⦃e : Eq A⦄ (f : A → Result Unrepresentable B) where
  -- A matched position converts, and to what the value converts to.
  transposed-match :
      (o : Option A) (a : A) {b : B}
      → f a ≡ ok b
      → none_or a o ≡ true
      → (x : Option B) × (transposed f o ≡ ok x) × At x b
  transposed-match none a h m = (none, refl, tt)
  transposed-match (some c) a {b} h m = let same = (==_iff a c).0 m in (some b, ground arith, refl)

  transposed-At :
      (o : Option A) (a : A) {x : Option B} {b : B}
      → ((c : A) → o ≡ some c → f c ≡ ok b → c ≡ a)
      → transposed f o ≡ ok x
      → At x b
      → none_or a o ≡ true
  transposed-At none a inj h at = refl
  transposed-At (some c) a {x = none} inj h at =
      let (d, e₁, e₂) = >>=-ok (f c) _ h in absurd (ground arith)
  transposed-At (some c) a {x = some y} inj h at =
      let (d, e₁, e₂) = >>=-ok (f c) _ h in (==_iff a c).1 (ground (arith, inj c refl))

module _ (ox : Engine) (p : Pattern) where
  -- What a converted pattern consists of.
  pub record PatternParts (px : Engine.PatternIn ox) : Type 0 where
    pub subject : transposed (subject_to_ox ox) p.subject ≡ ok px.subject
    pub predicate : transposed (named_to_ox ox) p.predicate ≡ ok px.predicate
    pub object : transposed (term_to_ox ox) p.object ≡ ok px.object
    pub graph : transposed (graph_to_ox ox) p.graph ≡ ok px.graph_name

  pub pattern_to_ox-PatternParts :
      {px : Engine.PatternIn ox} → pattern_to_ox ox p ≡ ok px → PatternParts px
  unfolding pattern_to_ox
  pattern_to_ox-PatternParts h =
      let (s, es, h₁) = >>=-ok (transposed (subject_to_ox ox) p.subject) _ h in
      let (n, en, h₂) = >>=-ok (transposed (named_to_ox ox) p.predicate) _ h₁ in
      let (o, eo, h₃) = >>=-ok (transposed (term_to_ox ox) p.object) _ h₂ in
      let (g, eg, h₄) = >>=-ok (transposed (graph_to_ox ox) p.graph) _ h₃ in ground arith

module _ (ox : Engine) (terms : TermLaws ox) (stored : ox.Literal → ox.Literal)
    (laws : StoredAs ox stored) where
  transposed-KeptAt :
      (o : Option Term) (x : Option (Engine.TermIn ox))
      → transposed (term_to_ox ox) o ≡ ok x
      → KeptAt ox stored x
  transposed-KeptAt o none h = tt
  transposed-KeptAt none (some y) h = absurd (ground arith)
  transposed-KeptAt (some t) (some y) h =
      let (z, e, f) = >>=-ok (term_to_ox ox t) _ h in
      term_to_ox-KeptTerm ox terms laws t (ground arith)

  -- The object of a converted pattern is a term that is kept.
  pub pattern_to_ox-KeptAt :
      (p : Pattern) {px : Engine.PatternIn ox}
      → pattern_to_ox ox p ≡ ok px
      → KeptAt ox stored px.object
  pattern_to_ox-KeptAt p {px} h =
      transposed-KeptAt p.object px.object (pattern_to_ox-PatternParts ox p h).object

module _ (ox : Engine) (terms : TermLaws ox) (q : Quad) (x : Engine.QuadIn ox)
    (parts : QuadParts ox terms q x) (p : Pattern) where
  matched :
      matches_pattern q p ≡ true
      → (none_or q.subject p.subject ≡ true)
        × (none_or q.predicate p.predicate ≡ true)
        × (none_or q.object p.object ≡ true)
        × (none_or q.graph p.graph ≡ true)
  unfolding matches_pattern
  matched m = (ground arith, ground arith, ground arith, ground arith)

  -- A pattern that a converted quad matches converts to one that the conversion fits.
  pub matches_pattern-Fits :
      matches_pattern q p ≡ true
      → (px : Engine.PatternIn ox) × (pattern_to_ox ox p ≡ ok px) × Fits ox px x
  unfolding pattern_to_ox
  matches_pattern-Fits m =
      let (ms, mp, mo, mg) = matched m in
      let (s, es, fs) = transposed-match (subject_to_ox ox) p.subject q.subject parts.subject ms in
      let (n, en, fn) =
        transposed-match (named_to_ox ox) p.predicate q.predicate parts.predicate mp in
      let (o, eo, fo) = transposed-match (term_to_ox ox) p.object q.object parts.object mo in
      let (g, eg, fg) = transposed-match (graph_to_ox ox) p.graph q.graph parts.graph mg in
      (
        record { subject = s; predicate = n; object = o; graph_name = g },
        ground arith,
        (fs, fn, fo, fg),
      )

  -- A quad whose conversion fits the converted pattern matches the pattern.
  pub Fits-matches_pattern :
      {px : Engine.PatternIn ox}
      → IsMadeQuad q
      → IsMadePattern p
      → pattern_to_ox ox p ≡ ok px
      → Fits ox px x
      → matches_pattern q p ≡ true
  unfolding matches_pattern
  Fits-matches_pattern {px = px} mq mp h (fs, fn, fo, fg) =
      let ps = pattern_to_ox-PatternParts ox p h in
      let s =
        transposed-At (subject_to_ox ox) p.subject q.subject
          (λ c e k. subject_to_ox-inj ox terms c q.subject k parts.subject) ps.subject fs in
      let n =
        transposed-At (named_to_ox ox) p.predicate q.predicate
          (λ c e k. named_to_ox-inj ox terms c q.predicate k parts.predicate) ps.predicate fn in
      let o =
        transposed-At (term_to_ox ox) p.object q.object
          (λ c e k. term_to_ox-inj ox terms c q.object (ground arith) mq k parts.object) ps.object
          fo in
      let g =
        transposed-At (graph_to_ox ox) p.graph q.graph
          (λ c e k. graph_to_ox-inj ox terms c q.graph k parts.graph) ps.graph fg in
      ground arith
