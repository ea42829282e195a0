-- ===== src/Prelude/Selections.antt =====
-- What filters, prefixes and images of a list inherit from it.
use Prim.Native.Nat.{ℕ, zero, suc}
use mathlib.Core.Path.{◌≡◌}
use mathlib.Core.Logic.{inl, inr}
use mathlib.Core.Bool.{Bool, true, false}
use mathlib.Core.Option.{some}
use mathlib.Core.List.{List, [], ◌∷◌, map}
use native.Mathlib.Omega.{arith}
use semanticore.Prelude.Equality.{◌==◌, nat_eq}
use semanticore.Prelude.Lists.{All, All-take, Pairs, take, filter}
use semanticore.Prelude.OrdMap
use semanticore.Prelude.OrdMap.{OrdMap, IsSorted, Above}
use semanticore.Prelude.Tests.{Bool-cases}

module _ {ℓ} {A : Type ℓ} where
  pub All-filter {κ} :
      (P Q : A → Type κ) (p : A → Bool)
      → ((a : A) → p a ≡ true → P a → Q a)
      → (xs : List A) → All P xs
      → All Q (filter p xs)
  unfolding filter
  All-filter P Q p f [] h = tt
  All-filter P Q p f (x ∷ xs) h = elim (Bool-cases (p x)) [
    | inl t ↦ rw t (f x t h.0, All-filter P Q p f xs h.1)
    | inr t ↦ rw t (All-filter P Q p f xs h.1)
  ]

  pub Pairs-filter {κ} :
      (R : A → A → Type κ) (p : A → Bool) (xs : List A) → Pairs R xs → Pairs R (filter p xs)
  unfolding filter
  Pairs-filter R p [] h = tt
  Pairs-filter R p (x ∷ xs) h = elim (Bool-cases (p x)) [
    | inl t ↦ rw t (All-filter (R x) (R x) p (λ a _ r. r) xs h.0, Pairs-filter R p xs h.1)
    | inr t ↦ rw t (Pairs-filter R p xs h.1)
  ]

  pub Pairs-take {κ} : (R : A → A → Type κ) (n : ℕ) (xs : List A) → Pairs R xs → Pairs R (take n xs)
  Pairs-take R zero xs h = tt
  Pairs-take R (suc n) [] h = tt
  Pairs-take R (suc n) (x ∷ xs) h = (All-take (R x) n xs h.0, Pairs-take R n xs h.1)

module _ {ℓ μ} {A : Type ℓ} {B : Type μ} where
  pub All-image {κ} :
      (P : B → Type κ) (f : A → B) (xs : List A) → All (λ a. P (f a)) xs → All P (map f xs)
  All-image P f [] h = tt
  All-image P f (x ∷ xs) h = (h.0, All-image P f xs h.1)

  pub Pairs-image {κ} :
      (R : B → B → Type κ) (f : A → B) (xs : List A)
      → Pairs (λ a b. R (f a) (f b)) xs
      → Pairs R (map f xs)
  Pairs-image R f [] h = tt
  Pairs-image R f (x ∷ xs) h = (All-image (R (f x)) f xs h.0, Pairs-image R f xs h.1)

module _ {ℓ} {V : Type ℓ} where
  Above-keys : (k : ℕ) (m : OrdMap V) → Above k m → All (λ e. (e.0 == k) ≡ false) m
  Above-keys k [] h = tt
  Above-keys k (e ∷ m) h = (ground arith, Above-keys k m h.1)

  -- The keys of an ordered map differ.
  pub IsSorted-keys : (m : OrdMap V) → IsSorted m → Pairs (λ a b. (b.0 == a.0) ≡ false) m
  IsSorted-keys [] h = tt
  IsSorted-keys (e ∷ m) h = (Above-keys e.0 m h.0, IsSorted-keys m h.1)

  deeper :
      (e : ℕ × V) (m xs : OrdMap V)
      → All (λ x. (x.0 == e.0) ≡ false) xs
      → All (λ x. OrdMap.get x.0 m ≡ some x.1) xs
      → All (λ x. OrdMap.get x.0 (e ∷ m) ≡ some x.1) xs
  unfolding OrdMap.get
  deeper e m [] n h = tt
  deeper e m (x ∷ xs) n h = (ground (arith, n.0, h.0), deeper e m xs n.1 h.1)

  -- Every entry of an ordered map is the one that its key finds.
  pub IsSorted-entries : (m : OrdMap V) → IsSorted m → All (λ e. OrdMap.get e.0 m ≡ some e.1) m
  unfolding OrdMap.get
  IsSorted-entries [] h = tt
  IsSorted-entries (e ∷ m) h =
      (ground arith, deeper e m m (Above-keys e.0 m h.0) (IsSorted-entries m h.1))
