-- ===== src/Prelude/Sort.antt =====
-- Rust's stable `sort_by` as an insertion sort: equal keys keep their order. `Vec::dedup`.
use Prim.Native.Nat.{suc}
use mathlib.Core.Path.{◌≡◌, refl, ap, ◌∙◌}
use mathlib.Core.Logic.{inl, inr}
use mathlib.Core.Bool.{Bool, true, false, ◌||◌}
use mathlib.Core.List.{List, [], ◌∷◌}
use native.Mathlib.Omega.{arith}
use semanticore.Prelude.Equality.{Eq, ◌==◌, ==_refl}
use semanticore.Prelude.Sets.{Distinct}
use semanticore.Prelude.Lists.{length, mem, All, All-map, All-mem, Pairs}
use semanticore.Prelude.Tests.{if◌then◌else◌, Bool-cases}

module _ {ℓ} {A : Type ℓ} (le : A → A → Bool) where
  unfoldable pub insert_sorted : A → List A → List A
  insert_sorted a [] = a ∷ []
  insert_sorted a (x ∷ xs) =
      let rest = insert_sorted a xs in if le a x then a ∷ x ∷ xs else x ∷ rest

  unfoldable pub sort_by : List A → List A
  unfolding insert_sorted
  sort_by [] = []
  sort_by (x ∷ xs) = insert_sorted x (sort_by xs)

  length-insert_sorted : (a : A) (xs : List A) → length (insert_sorted a xs) ≡ suc (length xs)
  unfolding insert_sorted
  length-insert_sorted a [] = refl
  length-insert_sorted a (x ∷ xs) = ground (arith, length-insert_sorted a xs)

  pub length-sort_by : (xs : List A) → length (sort_by xs) ≡ length xs
  unfolding sort_by
  length-sort_by [] = refl
  length-sort_by (x ∷ xs) = length-insert_sorted x (sort_by xs) ∙ ap suc (length-sort_by xs)

  -- What holds of every element holds of every element of the sorted list.
  All-insert_sorted {κ} :
      (P : A → Type κ) (a : A) (xs : List A) → P a → All P xs → All P (insert_sorted a xs)
  unfolding insert_sorted
  All-insert_sorted P a [] p h = (p, tt)
  All-insert_sorted P a (x ∷ xs) p h = elim (Bool-cases (le a x)) [
    | inl t ↦ rw t (p, h)
    | inr f ↦ rw f (h.0, All-insert_sorted P a xs p h.1)
  ]

  pub All-sort_by {κ} : (P : A → Type κ) (xs : List A) → All P xs → All P (sort_by xs)
  unfolding sort_by
  All-sort_by P [] h = tt
  All-sort_by P (x ∷ xs) h = All-insert_sorted P x (sort_by xs) h.0 (All-sort_by P xs h.1)

  -- A symmetric relation between any two elements holds between any two of the sorted list.
  Pairs-insert_sorted {κ} :
      (R : A → A → Type κ)
      → ((a b : A) → R a b → R b a)
      → (a : A) (xs : List A) → All (R a) xs
      → Pairs R xs
      → Pairs R (insert_sorted a xs)
  unfolding insert_sorted
  Pairs-insert_sorted R swap a [] h hs = (tt, tt)
  Pairs-insert_sorted R swap a (x ∷ xs) h hs = elim (Bool-cases (le a x)) [
    | inl t ↦ rw t (h, hs)
    | inr f ↦
        rw f (
          All-insert_sorted (R x) a xs (swap a x h.0) hs.0,
          Pairs-insert_sorted R swap a xs h.1 hs.1,
        )
  ]

  pub Pairs-sort_by {κ} :
      (R : A → A → Type κ)
      → ((a b : A) → R a b → R b a)
      → (xs : List A) → Pairs R xs
      → Pairs R (sort_by xs)
  unfolding sort_by
  Pairs-sort_by R swap [] h = tt
  Pairs-sort_by R swap (x ∷ xs) h =
      Pairs-insert_sorted R swap x (sort_by xs) (All-sort_by (R x) xs h.0)
        (Pairs-sort_by R swap xs h.1)

  -- With a total and transitive order the result is in order.
  module _ (total : (a b : A) → le a b ≡ false → le b a ≡ true)
      (trans : (a b c : A) → le a b ≡ true → le b c ≡ true → le a c ≡ true) where
    insert_sorted-Ordered :
        (a : A) (xs : List A)
        → Pairs (λ x y. le x y ≡ true) xs
        → Pairs (λ x y. le x y ≡ true) (insert_sorted a xs)
    unfolding insert_sorted
    insert_sorted-Ordered a [] h = (tt, tt)
    insert_sorted-Ordered a (x ∷ xs) h = elim (Bool-cases (le a x)) [
      | inl t ↦
          rw t
            ((t, All-map (λ y. le x y ≡ true) (λ y. le a y ≡ true) (λ y. trans a x y t) xs h.0), h)
      | inr f ↦ rw f (
        All-insert_sorted (λ y. le x y ≡ true) a xs (total a x f) h.0,
        insert_sorted-Ordered a xs h.1,
      )
    ]

    pub sort_by-Ordered : (xs : List A) → Pairs (λ x y. le x y ≡ true) (sort_by xs)
    unfolding sort_by
    sort_by-Ordered [] = tt
    sort_by-Ordered (x ∷ xs) = insert_sorted-Ordered x (sort_by xs) (sort_by-Ordered xs)

module _ {ℓ} {A : Type ℓ} ⦃e : Eq A⦄ where
  -- drops each element that equals the one before it
  unfoldable pub dedup : List A → List A
  dedup [] = []
  dedup (x ∷ []) = x ∷ []
  dedup (x ∷ y ∷ xs) = let rest = dedup (y ∷ xs) in if x == y then rest else x ∷ rest

  mem-insert_sorted :
      (le : A → A → Bool) (b a : A) (xs : List A)
      → mem b (insert_sorted le a xs) ≡ (b == a || mem b xs)
  unfolding insert_sorted mem
  mem-insert_sorted le b a [] = refl
  mem-insert_sorted le b a (x ∷ xs) = ground (arith, mem-insert_sorted le b a xs)

  pub mem-sort_by : (le : A → A → Bool) (b : A) (xs : List A) → mem b (sort_by le xs) ≡ mem b xs
  unfolding sort_by mem
  mem-sort_by le b [] = refl
  mem-sort_by le b (x ∷ xs) =
      ground (arith, mem-insert_sorted le b x (sort_by le xs), mem-sort_by le b xs)

  pub mem-dedup : (b : A) (xs : List A) → mem b (dedup xs) ≡ mem b xs
  unfolding dedup mem
  mem-dedup b [] = refl
  mem-dedup b (x ∷ []) = refl
  mem-dedup b (x ∷ y ∷ xs) = ground (arith, mem-dedup b (y ∷ xs))

  -- A list in an order that is antisymmetric has no element twice once neighbours differ.
  module _ (le : A → A → Bool) (antisym : (a b : A) → le a b ≡ true → le b a ≡ true → a ≡ b) where
    head_absent :
        (x y : A) (xs : List A)
        → (x == y) ≡ false
        → All (λ z. le x z ≡ true) (y ∷ xs)
        → All (λ z. le y z ≡ true) xs
        → mem x (y ∷ xs) ≡ false
    unfolding mem
    head_absent x y xs t hx hy = elim (Bool-cases (mem x xs)) [
      | inr f ↦ rw (t, f) refl
      | inl m ↦
          absurd
            (ground (arith, antisym x y hx.0 (All-mem (λ z. le y z ≡ true) x xs hy m), ==_refl x))
    ]

    pub dedup-Distinct : (xs : List A) → Pairs (λ a b. le a b ≡ true) xs → Distinct (dedup xs)
    unfolding dedup mem
    dedup-Distinct [] h = tt
    dedup-Distinct (x ∷ []) h = (refl, tt)
    dedup-Distinct (x ∷ y ∷ xs) h = elim (Bool-cases (x == y)) [
      | inl t ↦ rw t (dedup-Distinct (y ∷ xs) h.1)
      | inr t ↦
          rw t (mem-dedup x (y ∷ xs) ∙ head_absent x y xs t h.0 h.1.0, dedup-Distinct (y ∷ xs) h.1)
    ]
