-- ===== src/Context/Platform.antt =====
-- What the session uses and this repository does not implement: JSON by `serde_json`, IEEE floats,
-- and the monotonic clock.
use semanticore.Prelude.{ℕ, ◌≡◌, String, Bool, true, false, Result, ok}
use semanticore.Context.Wire.{Record}

pub record Platform : Type 1 where
  -- `serde_json::Value`, `f32` and `f64`
  pub Value : Type 0
  pub F32 : Type 0
  pub F64 : Type 0
  pub is_finite : F32 → Bool
  -- `serde_json::to_string` and `from_str`, whose error is kept as its message
  pub to_json : Record Value F32 → String
  pub from_json : String → Result String (Record Value F32)
  -- `{:?}` of a string
  pub debug : String → String
  -- `f64` arithmetic: 1.0, `f64::MIN_POSITIVE`, `Duration::as_secs_f64` and `total_cmp`
  pub one : F64
  pub half : F64
  pub min_positive : F64
  pub add : F64 → F64 → F64
  pub mul : F64 → F64 → F64
  pub div : F64 → F64 → F64
  pub max : F64 → F64 → F64
  pub powf : F64 → F64 → F64
  pub as_secs_f64 : ℕ → F64
  pub total_le : F64 → F64 → Bool
  -- the readings of `Instant::now`, in nanoseconds, in the order in which they are taken
  pub clock : ℕ → ℕ

-- `total_cmp` is a total order.
pub record FloatOrder (p : Platform) : Type 0 where
  pub total : (a b : p.F64) → p.total_le a b ≡ false → p.total_le b a ≡ true
  pub trans :
      (a b c : p.F64) → p.total_le a b ≡ true → p.total_le b c ≡ true → p.total_le a c ≡ true

-- Parsing the text of a record gives the record.
abbrev pub ReadsBack : (p : Platform) → Record p.Value p.F32 → Type 0
ReadsBack p r = p.from_json (p.to_json r) ≡ ok r
