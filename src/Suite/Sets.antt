-- ===== src/Suite/Sets.antt =====
-- The hash sets that the contract suite of crates/semanticore-storage-testkit/src/contract.rs builds and
-- compares.
use semanticore.Prelude.{
  ◌≡◌, refl, true, ◌||◌, List, [], ◌∷◌, Eq, ==_refl, nat_eq, arith, length, mem, set_insert,
  set_insert-Distinct, mem-set_insert, Distinct, Distinct-length,
}
use semanticore.Model.{Quad, quad_eq}
use semanticore.Suite.{to_set, all_in, same_set}
use semanticore.Suite.Checks.{set_extend}

module _ {ℓ} {A : Type ℓ} ⦃e : Eq A⦄ where
  pub to_set-Distinct : (xs : List A) → Distinct (to_set xs)
  unfolding to_set
  to_set-Distinct [] = tt
  to_set-Distinct (x ∷ xs) = set_insert-Distinct x (to_set xs) (to_set-Distinct xs)

  pub mem-to_set : (a : A) (xs : List A) → mem a (to_set xs) ≡ mem a xs
  unfolding to_set mem
  mem-to_set a [] = refl
  mem-to_set a (x ∷ xs) = ground (arith, mem-set_insert a x (to_set xs), mem-to_set a xs)

  -- collecting a set again changes nothing
  pub to_set_twice : (xs : List A) → Distinct xs → to_set xs ≡ xs
  unfolding to_set set_insert
  to_set_twice [] d = refl
  to_set_twice (x ∷ xs) d = ground (arith, to_set_twice xs d.1)

  all_in-true :
      (xs ys : List A) → ((a : A) → mem a xs ≡ true → mem a ys ≡ true) → all_in xs ys ≡ true
  unfolding all_in mem
  all_in-true [] ys h = refl
  all_in-true (x ∷ xs) ys h =
      let rest = all_in-true xs ys (λ a m. h a (ground arith)) in
      let here = h x (ground (arith, ==_refl x)) in ground arith

  -- Sets with the same elements are equal.
  pub same_set_lem :
      (xs ys : List A)
      → Distinct xs
      → Distinct ys
      → ((a : A) → mem a xs ≡ mem a ys)
      → same_set xs ys ≡ true
  unfolding same_set
  same_set_lem xs ys d d' h =
      let same = all_in-true xs ys (λ a m. ground (arith, h a)) in
      rw (Distinct-length xs ys d d' h, same, ==_refl (length ys)) refl

  pub same_set_refl : (xs : List A) → Distinct xs → same_set xs xs ≡ true
  same_set_refl xs d = same_set_lem xs xs d d (λ a. refl)

pub set_extend-Distinct : (qs xs : List Quad) → Distinct xs → Distinct (set_extend qs xs)
unfolding set_extend
set_extend-Distinct [] xs d = d
set_extend-Distinct (q ∷ qs) xs d =
    set_extend-Distinct qs (set_insert q xs) (set_insert-Distinct q xs d)

pub mem-set_extend :
    (a : Quad) (qs xs : List Quad) → mem a (set_extend qs xs) ≡ (mem a qs || mem a xs)
unfolding set_extend mem
mem-set_extend a [] xs = refl
mem-set_extend a (q ∷ qs) xs =
    ground (arith, mem-set_extend a qs (set_insert q xs), mem-set_insert a q xs)
