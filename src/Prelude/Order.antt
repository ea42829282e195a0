-- ===== src/Prelude/Order.antt =====
-- The order of Rust's strings.
use Prim.Native.Nat.compare as compare_ℕ
use Prim.Native.Nat.{ℕ, zero, suc, Ordering, ◌<◌, compare as compare_ℕ}
use Prim.Native.Char.{Char, code}
use Prim.Native.String.compare
use Prim.Native.String.{String, [], ◌∷◌, compare, then}
use mathlib.Core.Path.{◌≡◌, refl, ap, ◌∙◌}
use mathlib.Core.Logic.{◌⊎◌, inl, inr}
use mathlib.Core.Bool.{Bool, true, false}
use native.Mathlib.Omega.{arith}
use text.Mathlib.TextEquality.{path_by_compare}

-- the three outcomes of a comparison of numbers
compare-cases :
    (m n : ℕ)
    → ((m < n) × (compare_ℕ m n ≡ Ordering.lt))
      ⊎ (((m ≡ n) × (compare_ℕ m n ≡ Ordering.eq)) ⊎ ((n < m) × (compare_ℕ m n ≡ Ordering.gt)))
compare-cases zero zero = inr (inl (refl, compare_ℕ.zero-zero))
compare-cases zero (suc n) = inl (omega arith, compare_ℕ.zero-suc n)
compare-cases (suc m) zero = inr (inr (omega arith, compare_ℕ.suc-zero m))
compare-cases (suc m) (suc n) = elim (compare-cases m n) [
  | inl h ↦ inl (omega arith, compare_ℕ.suc-suc m n ∙ h.1)
  | inr (inl h) ↦ inr (inl (ap suc h.0, compare_ℕ.suc-suc m n ∙ h.1))
  | inr (inr h) ↦ inr (inr (omega arith, compare_ℕ.suc-suc m n ∙ h.1))
]

abbrev is_le : Ordering → Bool
is_le Ordering.gt = false
is_le Ordering.lt = true
is_le Ordering.eq = true

abbrev flip : Ordering → Ordering
flip Ordering.lt = Ordering.gt
flip Ordering.eq = Ordering.eq
flip Ordering.gt = Ordering.lt

-- `<=` of strings
abbrev pub string_le : String → String → Bool
string_le s t = is_le (compare s t)

flip_ℕ : (m n : ℕ) → compare_ℕ n m ≡ flip (compare_ℕ m n)
flip_ℕ m n = elim (compare-cases m n) [
  | inl h ↦ elim (compare-cases n m) [
    | inl k ↦ absurd (omega arith)
    | inr (inl k) ↦ absurd (omega arith)
    | inr (inr k) ↦ rw (h.1, k.1) refl
  ]
  | inr (inl h) ↦ elim (compare-cases n m) [
    | inl k ↦ absurd (omega arith)
    | inr (inl k) ↦ rw (h.1, k.1) refl
    | inr (inr k) ↦ absurd (omega arith)
  ]
  | inr (inr h) ↦ elim (compare-cases n m) [
    | inl k ↦ rw (h.1, k.1) refl
    | inr (inl k) ↦ absurd (omega arith)
    | inr (inr k) ↦ absurd (omega arith)
  ]
]

flip-then : (a b : Ordering) → then (flip a) (flip b) ≡ flip (then a b)
flip-then Ordering.lt b = refl
flip-then Ordering.eq b = refl
flip-then Ordering.gt b = refl

compare-flip : (s t : String) → compare t s ≡ flip (compare s t)
compare-flip [] [] = rw compare.nil-nil refl
compare-flip [] (d ∷ t) = rw (compare.nil-cons d t, compare.cons-nil d t) refl
compare-flip (c ∷ s) [] = rw (compare.nil-cons c s, compare.cons-nil c s) refl
compare-flip (c ∷ s) (d ∷ t) =
    rw
      (
        compare.cons-cons c d s t,
        compare.cons-cons d c t s,
        flip_ℕ (code c) (code d),
        compare-flip s t,
      )
      (flip-then (compare_ℕ (code c) (code d)) (compare s t))

flip_le : (o : Ordering) → is_le o ≡ false → is_le (flip o) ≡ true
flip_le Ordering.gt h = refl
flip_le Ordering.lt h = cc
flip_le Ordering.eq h = cc

pub string_le-total : (s t : String) → string_le s t ≡ false → string_le t s ≡ true
string_le-total s t h = rw (compare-flip s t) (flip_le (compare s t) h)

both_le : (o : Ordering) → is_le o ≡ true → is_le (flip o) ≡ true → o ≡ Ordering.eq
both_le Ordering.lt h k = cc
both_le Ordering.eq h k = refl
both_le Ordering.gt h k = cc

pub string_le-antisym : (s t : String) → string_le s t ≡ true → string_le t s ≡ true → s ≡ t
string_le-antisym s t h k =
    path_by_compare s t (both_le (compare s t) h (rw (compare-flip s t) at k))

-- the order of texts that start with characters: by the characters, or by the rests
abbrev Below : ℕ → ℕ → Ordering → Type 0
Below l m a = (l < m) ⊎ ((l ≡ m) × (is_le a ≡ true))

then-Below : (l m : ℕ) (a : Ordering) → is_le (then (compare_ℕ l m) a) ≡ true → Below l m a
then-Below l m a h = elim (compare-cases l m) [
  | inl x ↦ inl x.0
  | inr (inl x) ↦ inr (x.0, ground (arith, x.1))
  | inr (inr x) ↦ absurd (ground (arith, x.1))
]

Below-then : (l m : ℕ) (a : Ordering) → Below l m a → is_le (then (compare_ℕ l m) a) ≡ true
Below-then l m a h = elim (compare-cases l m) [
  | inl x ↦ ground (arith, x.1)
  | inr (inl x) ↦ ground (arith, x.1)
  | inr (inr x) ↦ absurd (ground arith)
]

then_trans :
    (l m n : ℕ) (a b c : Ordering)
    → (is_le a ≡ true → is_le b ≡ true → is_le c ≡ true)
    → is_le (then (compare_ℕ l m) a) ≡ true
    → is_le (then (compare_ℕ m n) b) ≡ true
    → is_le (then (compare_ℕ l n) c) ≡ true
then_trans l m n a b c r h k =
    let x = then-Below l m a h in let y = then-Below m n b k in Below-then l n c (ground arith)

nil_le : (u : String) → string_le [] u ≡ true
nil_le [] = ap is_le compare.nil-nil
nil_le (e ∷ u) = rw (compare.nil-cons e u, is_le) refl

cons_gt_nil : (c : Char) (s : String) → string_le (c ∷ s) [] ≡ false
cons_gt_nil c s = rw (compare.cons-nil c s, is_le) refl

pub string_le_trans :
    (s t u : String) → string_le s t ≡ true → string_le t u ≡ true → string_le s u ≡ true
string_le_trans [] t u h k = nil_le u
string_le_trans (c ∷ s) [] u h k = let no = cons_gt_nil c s in cc
string_le_trans (c ∷ s) (d ∷ t) [] h k = let no = cons_gt_nil d t in cc
string_le_trans (c ∷ s) (d ∷ t) (e ∷ u) h k =
    rw (compare.cons-cons c e s u, is_le)
      (then_trans (code c) (code d) (code e) (compare s t) (compare t u) (compare s u)
        (string_le_trans s t u) (rw (compare.cons-cons c d s t, is_le) at h)
        (rw (compare.cons-cons d e t u, is_le) at k))
