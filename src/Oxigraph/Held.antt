-- ===== src/Oxigraph/Held.antt =====
-- What the stores and transactions of crates/semanticore-store-oxigraph hold, as quads of the core
-- model.
use semanticore.Prelude.{◌≡◌, refl, Bool, true, false, none, some, Result, ok, err, arith}
use semanticore.Model.{Quad, quad_eq}
use semanticore.Storage.{Pattern}
use semanticore.Storage.Contract.{View}
use semanticore.Storage.Restricted.{Restriction}
use semanticore.Oxigraph.Engine.{Engine}
use semanticore.Oxigraph.Engine
use semanticore.Oxigraph.Convert.{Unrepresentable, quad_to_ox}
use semanticore.Oxigraph.Adapter.{OxigraphStore, TxInner, oxigraph_storage}
use semanticore.Oxigraph.Laws.{TermLaws, Kept, OxView}
use semanticore.Oxigraph.RoundTrip.{IsMadeTerm, IsMadeQuad, quad_from_ox-quad_to_ox}

-- A pattern with a literal that the constructors made.
abbrev pub IsMadePattern : Pattern → Type 0
IsMadePattern p = elim p.object [ none ↦ Unit {0} | some t ↦ IsMadeTerm t ]

-- To prove two tests equal.
pub Bool-ext : (a b : Bool) → (a ≡ true → b ≡ true) → (b ≡ true → a ≡ true) → a ≡ b
Bool-ext true b f g = ground (arith, f refl)
Bool-ext false true f g = g refl
Bool-ext false false f g = refl

module _ (ox : Engine) where
  -- A test on what a quad converts to; what does not convert is not there.
  abbrev pub lifted : (Engine.QuadIn ox → Bool) → Result Unrepresentable (Engine.QuadIn ox) → Bool
  lifted test (ok x) = test x
  lifted test (err _) = false

  module _ (terms : TermLaws ox) where
    -- Two quads that the constructors made convert to the same only if they are the same.
    pub quad_to_ox-inj :
        (p q : Quad) {x : Engine.QuadIn ox}
        → IsMadeQuad p
        → IsMadeQuad q
        → quad_to_ox ox p ≡ ok x
        → quad_to_ox ox q ≡ ok x
        → p ≡ q
    quad_to_ox-inj p q mp mq ep eq =
        cc (quad_from_ox-quad_to_ox ox terms p mp ep, quad_from_ox-quad_to_ox ox terms q mq eq)

module _ (ox : Engine) (v : OxView ox) where
  abbrev pub sees_ox : TxInner ox → Engine.QuadIn ox → Bool
  sees_ox (TxInner.write tx) = v.sees tx
  sees_ox (TxInner.snapshot tx) = v.sees tx
  sees_ox (TxInner.latest s) = v.holds s

  abbrev pub current_ox : OxigraphStore ox → TxInner ox → Bool
  current_ox s (TxInner.write tx) = v.current s.inner tx
  current_ox s _ = false

  abbrev pub is_reader : TxInner ox → Bool
  is_reader (TxInner.write _) = false
  is_reader _ = true

  abbrev pub held : OxigraphStore ox → Quad → Bool
  held s q = lifted ox (v.holds s.inner) (quad_to_ox ox q)

  abbrev pub seen : TxInner ox → Quad → Bool
  seen tx q = lifted ox (sees_ox tx) (quad_to_ox ox q)

  abbrev pub oxigraph_view : View (oxigraph_storage ox)
  oxigraph_view = record { holds = held; sees = seen; writing = current_ox; read_only = is_reader }

  module _ (stored : ox.Literal → ox.Literal) where
    -- Every quad that is kept was written through the adapter.
    abbrev pub Ours : (Engine.QuadIn ox → Bool) → Type 0
    Ours test =
        (x : Engine.QuadIn ox)
        → Kept ox stored x
        → test x ≡ true
        → (q : Quad) × IsMadeQuad q × (quad_to_ox ox q ≡ ok x)

    abbrev pub OursTx : TxInner ox → Type 0
    OursTx tx = Ours (sees_ox tx)

    abbrev pub OursStore : OxigraphStore ox → Type 0
    OursStore s = Ours (v.holds s.inner)

    abbrev pub ours : Restriction (oxigraph_storage ox)
    ours = record {
      OnQuad = IsMadeQuad;
      OnPattern = IsMadePattern;
      OnStore = OursStore;
      OnTransaction = OursTx;
    }
