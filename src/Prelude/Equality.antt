-- ===== src/Prelude/Equality.antt =====
-- Rust's `==` on types with a decidable equality, one operator for every instance.
use Prim.Native.Nat.{ℕ}
use Prim.Native.String.{String}
use mathlib.Core.Path.{◌≡◌, refl}
use mathlib.Core.Logic.{◌≢◌, ◌↔◌, ◌⊎◌, inl, inr}
use mathlib.Core.Bool.{Bool, true, false, Bool-discrete}
use native.Mathlib.Decide.{ℕ_discrete}
use text.Mathlib.Text.{◌==◌ as str_eq}
use text.Mathlib.TextEquality.{eq_iff}

decide_by {ℓ} : {A : Type ℓ} (a b : A) (t : Bool) → (t ≡ true) ↔ (a ≡ b) → Dec (a ≡ b)
decide_by a b true h = yes (h.0 refl)
decide_by a b false h = no (λ e. cc (h.1 e))

unfoldable pub String_discrete : Discrete String
unfolding decide_by
String_discrete s t = decide_by s t (str_eq s t) (eq_iff s t)

pub record Eq {ℓ} (A : Type ℓ) : Type ℓ where
  pub dec : Discrete A

abbrev pub decide {ℓ} : {A : Type ℓ} → Dec A → Bool
decide (yes _) = true
decide (no _) = false

infix 50 ◌==◌
abbrev pub ◌==◌ {ℓ} : {A : Type ℓ} ⦃e : Eq A⦄ → A → A → Bool
◌==◌ ⦃e⦄ a b = decide (e.dec a b)

instance abbrev pub nat_eq : Eq ℕ
nat_eq = record { dec = ℕ_discrete }

instance abbrev pub bool_eq : Eq Bool
bool_eq = record { dec = Bool-discrete }

instance abbrev pub string_eq : Eq String
string_eq = record { dec = String_discrete }

module _ {ℓ} {A : Type ℓ} ⦃e : Eq A⦄ where
  pub ==_iff : (a b : A) → ((a == b) ≡ true) ↔ (a ≡ b)
  ==_iff a b = elim (e.dec a b) as (λ d. (decide d ≡ true) ↔ (a ≡ b)) [
    | yes p ↦ (λ _. p, λ _. refl)
    | no p ↦ (λ h. cc, λ q. absurd (p q))
  ]

  pub ==_refl : (a : A) → (a == a) ≡ true
  ==_refl a = (==_iff a a).1 refl

  -- To split on a test and keep what it decides.
  pub ==_cases : (a b : A) → (((a == b) ≡ true) × (a ≡ b)) ⊎ (((a == b) ≡ false) × (a ≢ b))
  ==_cases a b =
      elim (e.dec a b) as (λ d. ((decide d ≡ true) × (a ≡ b)) ⊎ ((decide d ≡ false) × (a ≢ b))) [
        | yes p ↦ inl (refl, p)
        | no p ↦ inr (refl, p)
      ]
