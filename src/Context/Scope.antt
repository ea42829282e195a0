-- ===== src/Context/Scope.antt =====
-- The tiers and handles of crates/semanticore-context/src/item.rs. Scopes are ordered by durability,
-- `minor < major < enduring`.
use semanticore.Prelude.{
  ℕ, ◌+◌, String, ◌≡◌, ◌↔◌, refl, Bool, Option, none, some, List, [], ◌∷◌, arith, Eq, ◌==◌,
  string_eq, if◌then◌else◌, ltb, String_discrete,
}

pub data ContextScope : Type 0 where
  minor major enduring : ContextScope

unfoldable pub ContextScope-discrete : Discrete ContextScope
ContextScope-discrete = hlevel

instance abbrev pub scope_eq : Eq ContextScope
scope_eq = record { dec = ContextScope-discrete }

-- the derived order, by the place of the variant
abbrev pub rank : ContextScope → ℕ
rank ContextScope.minor = 0
rank ContextScope.major = 1
rank ContextScope.enduring = 2

-- `a < b`; `a >= b` is its negation
abbrev pub scope_lt : ContextScope → ContextScope → Bool
scope_lt a b = ltb (rank a) (rank b)

-- every scope, most durable first
abbrev pub all_scopes : List ContextScope
all_scopes = ContextScope.enduring ∷ ContextScope.major ∷ ContextScope.minor ∷ []

unfoldable pub colder : ContextScope → Option ContextScope
colder ContextScope.enduring = some ContextScope.major
colder ContextScope.major = some ContextScope.minor
colder ContextScope.minor = none

unfoldable pub tag : ContextScope → String
tag ContextScope.enduring = "enduring"
tag ContextScope.major = "major"
tag ContextScope.minor = "minor"

find_tag : String → List ContextScope → Option ContextScope
find_tag t [] = none
find_tag t (s ∷ ss) = if tag s == t then some s else find_tag t ss

unfoldable pub from_tag : String → Option ContextScope
unfolding find_tag tag
from_tag t = find_tag t all_scopes

-- An opaque handle: the number in it.
abbrev pub ItemId : Type 0
ItemId = ℕ

pub from_tag-tag : (s : ContextScope) → from_tag (tag s) ≡ some s
unfolding from_tag String_discrete
from_tag-tag ContextScope.minor = refl
from_tag-tag ContextScope.major = refl
from_tag-tag ContextScope.enduring = refl

-- A tag names a scope exactly when it is that scope's tag.
pub from_tag_iff : (t : String) (s : ContextScope) → (from_tag t ≡ some s) ↔ (tag s ≡ t)
unfolding from_tag
from_tag_iff t s = (λ h. ground arith, λ h. rw (← h) (from_tag-tag s))

-- The next colder scope is the one just below in durability.
pub colder_iff : (s t : ContextScope) → (colder s ≡ some t) ↔ (rank s ≡ rank t + 1)
unfolding colder
colder_iff s t = (λ h. ground arith, λ h. ground arith)
