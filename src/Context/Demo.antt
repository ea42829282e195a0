-- ===== src/Context/Demo.antt =====
-- A concrete platform, a store and a small session, on which the tests run the theorems.
use semanticore.Prelude.{ℕ, ◌+◌, ◌*◌, true, String, none, [], ok, leb}
use semanticore.Storage.{Storage}
use semanticore.MemStore.{mem_storage}
use semanticore.MemStore
use semanticore.Context.Wire.{Record, RecordPayload}
use semanticore.Context.Platform.{Platform}
use semanticore.Context.Item.{ContextPayload, ContextItem, context_item, provenance}
use semanticore.Context.Config.{ScopeBounds, EvictionPolicy, DemotionTarget, default_promotion}
use semanticore.Context.Session.State.{Session, Settings, no_stats}

-- records of chunks are written as their source
abbrev write_source : Record (Unit {0}) ℕ → String
write_source r = r.source

abbrev chunk_record : String → Record (Unit {0}) ℕ
chunk_record s = record {
  payload = RecordPayload.chunk "content" "text/plain";
  source = s;
  derived_from = [];
  scope_hint = none;
  embedding = none;
}

instance abbrev pub demo_platform : Platform
demo_platform = record {
  Value = Unit {0};
  F32 = ℕ;
  F64 = ℕ;
  is_finite = λ x. true;
  to_json = write_source;
  from_json = λ s. ok (chunk_record s);
  debug = λ s. s;
  one = 1;
  half = 1;
  min_positive = 1;
  add = λ a b. a + b;
  mul = λ a b. a * b;
  div = λ a b. a;
  max = λ a b. a + b;
  powf = λ a b. a;
  as_secs_f64 = λ n. n;
  total_le = leb;
  clock = λ n. n;
}

instance abbrev pub demo_storage : Storage
demo_storage = mem_storage

abbrev pub doc : String → ContextItem
doc source = context_item (ContextPayload.chunk "content" "text/plain") (provenance source)

abbrev pub demo_settings : ScopeBounds → Settings
demo_settings bounds = record {
  bounds = bounds;
  eviction_policy = EvictionPolicy.lru;
  demotion_target = DemotionTarget.next_colder;
  promotion = default_promotion;
}

abbrev pub fresh : ScopeBounds → Session
fresh bounds = record {
  stores = record { enduring = MemStore.new; major = MemStore.new; minor = MemStore.new };
  settings = demo_settings bounds;
  state = record { items = []; next_id = 0; stats = no_stats };
  readings = 0;
}
