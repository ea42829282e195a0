-- ===== src/Context/Scenes.antt =====
-- Sessions, calls and settings on which the tests run the theorems.
use semanticore.Prelude.{some, List, [], ◌∷◌, arith}
use semanticore.Prelude.OrdMap
use semanticore.MemStore.Laws.{mem_view, MemStore-Contract}
use semanticore.Context.Scope.{ContextScope}
use semanticore.Context.Config.{ScopeBounds, no_bounds, EvictionCriteria}
use semanticore.Context.Session.State.{Session}
use semanticore.Context.Session.History.{Call, perform}
use semanticore.Context.Session.Durable.{IsStored}
use semanticore.Context.Session.DurableAdds.{add_batch-IsStored}
use semanticore.Context.Item.{ContextItem}
use semanticore.Context.Platform.{FloatOrder}
use semanticore.Context.Demo.{demo_platform, demo_storage, doc, fresh, demo_settings}
use semanticore.Model.{quad_eq}

-- A session without items is in order.
pub fresh-IsStored : (bounds : ScopeBounds) → IsStored mem_view (fresh bounds)
unfolding OrdMap.get
fresh-IsStored bounds = record { sorted = tt; fits = λ j. tt; whole = λ j n. tt }

abbrev pub story : List Call
story =
    Call.add ContextScope.minor (doc "a")
    ∷ Call.add_batch ContextScope.minor (doc "b" ∷ doc "c" ∷ [])
    ∷ Call.promote (1 ∷ []) ContextScope.minor ContextScope.enduring
    ∷ Call.evict ContextScope.minor (EvictionCriteria.policy 1)
    ∷ Call.remove ContextScope.minor 2
    ∷ []

-- three items in the major scope, of which the new bounds allow one
abbrev pub crowded : Session
crowded =
    perform (Call.add_batch ContextScope.major (doc "a" ∷ doc "b" ∷ doc "c" ∷ [])) (fresh no_bounds)

abbrev pub one_each : ScopeBounds
one_each = record {
  enduring_max_items = some 1;
  major_max_items = some 1;
  minor_max_items = some 1;
}

abbrev pub tightened : Session
tightened = record crowded { settings = demo_settings one_each }

pub crowded-IsStored : IsStored mem_view crowded
unfolding perform
crowded-IsStored =
    add_batch-IsStored mem_view MemStore-Contract ContextScope.major
      (doc "a" ∷ doc "b" ∷ doc "c" ∷ []) (fresh no_bounds) (fresh-IsStored no_bounds)

pub tightened-IsStored : IsStored mem_view tightened
tightened-IsStored =
    let h = crowded-IsStored in record { sorted = h.sorted; fits = h.fits; whole = h.whole }

-- an addition of three items to a scope that may hold one
abbrev pub three : List ContextItem
three = doc "a" ∷ doc "b" ∷ doc "c" ∷ []

pub leb-FloatOrder : FloatOrder demo_platform
leb-FloatOrder = record { total = λ a b h. ground arith; trans = λ a b c h k. ground arith }
