-- ===== src/Prelude/Sets.antt =====
-- Rust's hash sets, as lists without repetition whose order nothing reads.
use mathlib.Core.Path.{◌≡◌, refl}
use mathlib.Core.Bool.{Bool, true, false, not, ◌&&◌, ◌||◌}
use mathlib.Core.List.{List, [], ◌∷◌, ◌++◌}
use native.Mathlib.Omega.{arith}
use semanticore.Prelude.Equality.{Eq, ◌==◌, ==_refl, ==_cases}
use mathlib.Core.Logic.{inl, inr}
use Prim.Native.Nat.{suc}
use semanticore.Prelude.Lists.{length, filter, mem, mem-append}
use semanticore.Prelude.Tests.{if◌then◌else◌}

module _ {ℓ} {A : Type ℓ} ⦃e : Eq A⦄ where
  unfoldable pub set_insert : A → List A → List A
  set_insert a xs = if mem a xs then xs else a ∷ xs

  unfoldable pub set_remove : A → List A → List A
  set_remove a xs = filter (λ x. not (x == a)) xs

  -- no element twice
  abbrev pub Distinct : List A → Type 0
  Distinct [] = Unit
  Distinct (x ∷ xs) = (mem x xs ≡ false) × Distinct xs

  pub mem-set_insert : (b a : A) (xs : List A) → mem b (set_insert a xs) ≡ (b == a || mem b xs)
  unfolding set_insert mem
  mem-set_insert b a xs = ground arith

  pub mem-set_remove :
      (b a : A) (xs : List A) → mem b (set_remove a xs) ≡ (not (b == a) && mem b xs)
  unfolding set_remove filter mem
  mem-set_remove b a [] = ground arith
  mem-set_remove b a (x ∷ xs) = ground (arith, mem-set_remove b a xs)

  pub set_insert-Distinct : (a : A) (xs : List A) → Distinct xs → Distinct (set_insert a xs)
  unfolding set_insert
  set_insert-Distinct a xs d = ground arith

  pub set_remove-Distinct : (a : A) (xs : List A) → Distinct xs → Distinct (set_remove a xs)
  unfolding set_remove filter mem
  set_remove-Distinct a [] d = tt
  set_remove-Distinct a (x ∷ xs) d =
      ground (arith, set_remove-Distinct a xs d.1, mem-set_remove x a xs)

  pub Distinct-append :
      (a : A) (xs : List A) → mem a xs ≡ false → Distinct xs → Distinct (xs ++ a ∷ [])
  unfolding mem
  Distinct-append a [] m d = (refl, tt)
  Distinct-append a (x ∷ xs) m d =
      (ground (arith, mem-append x xs (a ∷ [])), Distinct-append a xs (ground arith) d.1)

  set_remove_absent : (a : A) (xs : List A) → mem a xs ≡ false → set_remove a xs ≡ xs
  unfolding set_remove filter mem
  set_remove_absent a [] h = refl
  set_remove_absent a (x ∷ xs) h = ground (arith, set_remove_absent a xs)

  length-set_remove :
      (a : A) (xs : List A)
      → mem a xs ≡ true
      → Distinct xs
      → length xs ≡ suc (length (set_remove a xs))
  unfolding set_remove filter mem
  length-set_remove a [] h d = cc
  length-set_remove a (x ∷ xs) h d = ground (arith, length-set_remove a xs, set_remove_absent a xs)

  -- Sets with the same elements have equally many.
  pub Distinct-length :
      (xs ys : List A)
      → Distinct xs
      → Distinct ys
      → ((a : A) → mem a xs ≡ mem a ys)
      → length xs ≡ length ys
  unfolding mem
  Distinct-length [] [] d d' h = refl
  Distinct-length [] (y ∷ ys) d d' h = absurd (ground (arith, h y, ==_refl y))
  Distinct-length (x ∷ xs) ys d d' h =
      let found : mem x ys ≡ true = ground (arith, h x, ==_refl x) in
      let rest =
        Distinct-length xs (set_remove x ys) d.1 (set_remove-Distinct x ys d')
          (λ a. ground (arith, h a, mem-set_remove a x ys)) in
      ground (arith, length-set_remove x ys found d', rest)

  pub mem-filter : (p : A → Bool) (a : A) (xs : List A) → mem a (filter p xs) ≡ (mem a xs && p a)
  unfolding filter mem
  mem-filter p a [] = refl
  mem-filter p a (x ∷ xs) = elim (==_cases a x) [
    | inl (t, same) ↦ rw t (rw same (ground (arith, mem-filter p x xs)))
    | inr (t, other) ↦ rw t (ground (arith, mem-filter p a xs))
  ]

  pub filter-Distinct : (p : A → Bool) (xs : List A) → Distinct xs → Distinct (filter p xs)
  unfolding filter mem
  filter-Distinct p [] d = tt
  filter-Distinct p (x ∷ xs) d = ground (arith, filter-Distinct p xs d.1, mem-filter p x xs)

  pub set_insert_present : (a : A) (xs : List A) → mem a xs ≡ true → set_insert a xs ≡ xs
  unfolding set_insert
  set_insert_present a xs h = rw h refl
