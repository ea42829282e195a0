-- ===== src/Context/Config.antt =====
-- crates/semanticore-context/src/config.rs. A `Duration` is a number of nanoseconds.
use semanticore.Prelude.{ℕ, ◌*◌, Option, none, List}
use semanticore.Storage.{Storage}
use semanticore.Context.Scope.{ContextScope, ItemId}

pub record ScopeBounds : Type 0 where
  pub enduring_max_items : Option ℕ
  pub major_max_items : Option ℕ
  pub minor_max_items : Option ℕ

-- `ScopeBounds::get`
abbrev pub bound_of : ScopeBounds → ContextScope → Option ℕ
bound_of b ContextScope.enduring = b.enduring_max_items
bound_of b ContextScope.major = b.major_max_items
bound_of b ContextScope.minor = b.minor_max_items

pub data EvictionPolicy : Type 0 where
  lru lfu : EvictionPolicy
  -- with the half-life
  recency_weighted : ℕ → EvictionPolicy

pub data DemotionTarget : Type 0 where
  drop next_colder one_step_then_drop : DemotionTarget

pub data PromotionCadence : Type 0 where
  after_each_query never : PromotionCadence

pub record PromotionConfig : Type 0 where
  pub cadence : PromotionCadence
  pub minor_to_major_accesses : ℕ
  pub minor_window : ℕ
  pub major_to_enduring_references : ℕ

abbrev pub default_promotion : PromotionConfig
default_promotion = record {
  cadence = PromotionCadence.after_each_query;
  minor_to_major_accesses = 3;
  minor_window = 60 * 1_000_000_000;
  major_to_enduring_references = 5;
}

abbrev pub no_bounds : ScopeBounds
no_bounds = record { enduring_max_items = none; major_max_items = none; minor_max_items = none }

pub data EvictionCriteria : Type 0 where
  items : List ItemId → EvictionCriteria
  demote : List ItemId → ContextScope → EvictionCriteria
  policy : ℕ → EvictionCriteria

-- `Tiers`, and the `PerScope` storage of a configuration
pub record Tiers (S : Type 0) : Type 0 where
  pub enduring : S
  pub major : S
  pub minor : S

-- `Tiers::get`
abbrev pub tier : {S : Type 0} → Tiers S → ContextScope → S
tier t ContextScope.enduring = t.enduring
tier t ContextScope.major = t.major
tier t ContextScope.minor = t.minor

-- the tiers after a call has changed the store of one scope
abbrev pub set_tier : {S : Type 0} → Tiers S → ContextScope → S → Tiers S
set_tier t ContextScope.enduring s = record t { enduring = s }
set_tier t ContextScope.major s = record t { major = s }
set_tier t ContextScope.minor s = record t { minor = s }

pub data ReasonerSelection : Type 0 where
  auto : ReasonerSelection

pub data PersistenceTarget : Type 0 where
  enduring_storage : PersistenceTarget

pub data FlushStrategy : Type 0 where
  on_commit : FlushStrategy

pub record PersistenceConfig : Type 0 where
  pub target : PersistenceTarget
  pub flush_strategy : FlushStrategy

pub record SessionConfig (st : Storage) : Type 0 where
  pub storage : Tiers st.Store
  pub reasoners : ReasonerSelection
  pub bounds : ScopeBounds
  pub eviction_policy : EvictionPolicy
  pub demotion_target : DemotionTarget
  pub persistence : PersistenceConfig
  pub promotion : PromotionConfig

-- `SessionConfig::new`, with the defaults of each part
abbrev pub session_config : (st : Storage) → Tiers st.Store → SessionConfig st
session_config st stores = record {
  storage = stores;
  reasoners = ReasonerSelection.auto;
  bounds = no_bounds;
  eviction_policy = EvictionPolicy.lru;
  demotion_target = DemotionTarget.one_step_then_drop;
  persistence = record {
    target = PersistenceTarget.enduring_storage;
    flush_strategy = FlushStrategy.on_commit;
  };
  promotion = default_promotion;
}
