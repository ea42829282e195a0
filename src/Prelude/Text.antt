-- ===== src/Prelude/Text.antt =====
-- `str::strip_prefix`.
use Prim.Native.Char.{code}
use Prim.Native.String.{String, ◌++◌ as append}
use mathlib.Core.Path.{◌≡◌, ap₂}
use mathlib.Core.Logic.{inl, inr}
use mathlib.Core.Option.{Option, none, some}
use native.Mathlib.Omega.{arith}
use text.Mathlib.TextEquality.{Char-path}
use text.Mathlib.TextLemmas.{cons-append, nil-append}
use semanticore.Prelude.Equality.{◌==◌, nat_eq, ==_cases}
use semanticore.Prelude.Tests.{if◌then◌else◌}

-- the prefix comes first
unfoldable pub strip_prefix : String → String → Option String
strip_prefix String.[] s = some s
strip_prefix (String.◌∷◌ p ps) String.[] = none
strip_prefix (String.◌∷◌ p ps) (String.◌∷◌ c cs) =
    let rest = strip_prefix ps cs in if code p == code c then rest else none

pub strip_prefix-append : (p s : String) → strip_prefix p (append p s) ≡ some s
unfolding strip_prefix
strip_prefix-append String.[] s = rw nil-append
strip_prefix-append (String.◌∷◌ c p) s = rw cons-append (ground (arith, strip_prefix-append p s))

-- Only a text with the prefix has it stripped.
pub append-strip_prefix : (p s : String) {t : String} → strip_prefix p s ≡ some t → append p t ≡ s
unfolding strip_prefix
append-strip_prefix String.[] s {t} h = rw nil-append (cc)
append-strip_prefix (String.◌∷◌ c p) String.[] h = cc
append-strip_prefix (String.◌∷◌ c p) (String.◌∷◌ d s) {t} h = elim (==_cases (code c) (code d)) [
  | inl (same, e) ↦
      rw cons-append (ap₂ String.◌∷◌ (Char-path c d e) (append-strip_prefix p s (ground arith)))
  | inr (differ, _) ↦ absurd (ground arith)
]
