-- ===== src/Context/Session/State.antt =====
-- The state of a `Session` in crates/semanticore-context/src/session.rs, and the actions on it. An
-- action that fails keeps what it did before, so the state comes back beside the error. The mutex
-- around the state makes each public call one action.
use semanticore.Prelude.{ℕ, suc, ◌-◌, String, List, [], ◌∷◌, Result, ok, err, map_err, u64_add}
use semanticore.Prelude.OrdMap.{OrdMap}
use semanticore.Storage.{Storage}
use semanticore.Context.Scope.{ContextScope}
use semanticore.Context.Platform.{Platform}
use semanticore.Context.Item.{ContextItem}
use semanticore.Context.Error.{SessionError}
use semanticore.Context.Config.{
  ScopeBounds, EvictionPolicy, DemotionTarget, PromotionConfig, Tiers, tier, set_tier,
}

pub record SessionStats : Type 0 where
  pub items_added : ℕ
  pub queries_served : ℕ
  pub reasoning_passes : ℕ
  pub items_promoted : ℕ
  pub items_demoted : ℕ
  pub items_evicted : ℕ

abbrev pub no_stats : SessionStats
no_stats = record {
  items_added = 0;
  queries_served = 0;
  reasoning_passes = 0;
  items_promoted = 0;
  items_demoted = 0;
  items_evicted = 0;
}

-- the counts of additions, queries, promotions, demotions and evictions
abbrev pub count_added : ℕ → SessionStats → SessionStats
count_added n c = record c { items_added = u64_add c.items_added n }

abbrev pub count_served : SessionStats → SessionStats
count_served c = record c { queries_served = u64_add c.queries_served 1 }

abbrev pub count_promoted : ℕ → SessionStats → SessionStats
count_promoted n c = record c { items_promoted = u64_add c.items_promoted n }

abbrev pub count_demoted : ℕ → SessionStats → SessionStats
count_demoted n c = record c { items_demoted = u64_add c.items_demoted n }

abbrev pub count_evicted : SessionStats → SessionStats
count_evicted c = record c { items_evicted = u64_add c.items_evicted 1 }

pub data Arrival : Type 0 where
  added promoted demoted : Arrival

pub record Settings : Type 0 where
  pub bounds : ScopeBounds
  pub eviction_policy : EvictionPolicy
  pub demotion_target : DemotionTarget
  pub promotion : PromotionConfig

-- An error, or a panic of `expect` or of an index with its message.
pub data Failure (E : Type 0) : Type 0 where
  error : SessionError E → Failure E
  panicked : String → Failure E

module _ ⦃p : Platform⦄ where
  pub record Entry : Type 0 where
    pub item : ContextItem
    pub scope : ContextScope
    pub arrival : Arrival
    pub accesses : ℕ
    pub last_touch : ℕ
    pub recent : List ℕ
    pub weight : p.F64
    pub weighed_at : ℕ

  -- `Entry::new`
  abbrev pub new_entry : ContextItem → ContextScope → Arrival → ℕ → Entry
  new_entry item scope arrival now = record {
    item = item;
    scope = scope;
    arrival = arrival;
    accesses = 0;
    last_touch = now;
    recent = [];
    weight = p.one;
    weighed_at = now;
  }

  -- `Entry::weight_at`; an age before the clock's start is zero
  unfoldable pub weight_at : Entry → ℕ → ℕ → p.F64
  weight_at e now half_life =
      let hl = p.max (p.as_secs_f64 half_life) p.min_positive in
      let age = p.as_secs_f64 (now - e.weighed_at) in p.mul e.weight (p.powf p.half (p.div age hl))

  pub record State : Type 0 where
    pub items : OrdMap Entry
    pub next_id : ℕ
    pub stats : SessionStats

module _ ⦃p : Platform⦄ ⦃st : Storage⦄ where
  -- `readings` counts the readings of the clock that were taken
  pub record Session : Type 0 where
    pub stores : Tiers st.Store
    pub settings : Settings
    pub state : State
    pub readings : ℕ

  abbrev pub Action : Type 0 → Type 0
  Action A = Session → Result (Failure st.Error) A × Session

  infixl 5 ◌>>=◌ ◌>>◌
  unfoldable pub ◌>>=◌ : {A B : Type 0} → Action A → (A → Action B) → Action B
  ◌>>=◌ m f s = let (r, s') = m s in elim r [ ok a ↦ f a s' | err e ↦ (err e, s') ]

  abbrev pub ◌>>◌ : {A B : Type 0} → Action A → Action B → Action B
  m >> n = m >>= λ _. n

  abbrev pub pure : {A : Type 0} → A → Action A
  pure a s = (ok a, s)

  abbrev pub fail : {A : Type 0} → SessionError st.Error → Action A
  fail e s = (err (Failure.error e), s)

  abbrev pub panic : {A : Type 0} → String → Action A
  panic message s = (err (Failure.panicked message), s)

  -- `?` on a value that was computed from the state alone
  abbrev pub lift : {A : Type 0} → Result (SessionError st.Error) A → Action A
  lift r s = (map_err Failure.error r, s)

  abbrev pub gets : {A : Type 0} → (Session → A) → Action A
  gets f s = (ok (f s), s)

  abbrev pub modify_items : (OrdMap Entry → OrdMap Entry) → Action (Unit {0})
  modify_items f s = (ok tt, record s { state = record s.state { items = f s.state.items } })

  abbrev pub modify_stats : (SessionStats → SessionStats) → Action (Unit {0})
  modify_stats f s = (ok tt, record s { state = record s.state { stats = f s.state.stats } })

  -- `Instant::now`
  abbrev pub now : Action ℕ
  now s = (ok (p.clock s.readings), record s { readings = suc s.readings })

  -- a call that works on the store of one scope
  abbrev pub on_store :
      {A : Type 0}
      → ContextScope
      → (st.Store → Result (SessionError st.Error) A × st.Store)
      → Action A
  on_store scope f s =
      let (r, store) = f (tier s.stores scope) in
      (map_err Failure.error r, record s { stores = set_tier s.stores scope store })

  -- a `for` loop whose body may fail
  unfoldable pub for_each : {A : Type 0} → List A → (A → Action (Unit {0})) → Action (Unit {0})
  for_each [] body = pure tt
  for_each (x ∷ xs) body = body x >> for_each xs body
