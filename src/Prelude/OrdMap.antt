-- ===== src/Prelude/OrdMap.antt =====
-- Rust's `BTreeMap` with integer keys, as the list of its entries in the order of the keys.
use Prim.Native.Nat.{ℕ, ◌+◌, ◌<◌, ◌≤◌}
use mathlib.Core.Path.{◌≡◌, refl}
use mathlib.Core.Logic.{inl, inr}
use mathlib.Core.Bool.{Bool}
use mathlib.Core.Option.{Option, none, some}
use mathlib.Core.List.{List, [], ◌∷◌}
use native.Mathlib.Omega.{arith}
use semanticore.Prelude.Equality.{◌==◌, nat_eq, ==_cases}
use semanticore.Prelude.Lists.{count}
use semanticore.Prelude.Tests.{if◌then◌else◌, ltb}

abbrev pub OrdMap {ℓ} : Type ℓ → Type ℓ
OrdMap V = List (ℕ × V)

module _ {ℓ} {V : Type ℓ} where
  unfoldable pub get : ℕ → OrdMap V → Option V
  get k [] = none
  get k ((j, v) ∷ m) = if k == j then some v else get k m

  unfoldable pub insert : ℕ → V → OrdMap V → OrdMap V
  insert k v [] = (k, v) ∷ []
  insert k v ((j, w) ∷ m) =
      let rest = insert k v m in
      if k == j then (k, v) ∷ m else if ltb k j then (k, v) ∷ (j, w) ∷ m else (j, w) ∷ rest

  unfoldable pub remove : ℕ → OrdMap V → OrdMap V
  remove k [] = []
  remove k ((j, v) ∷ m) = let rest = remove k m in if k == j then m else (j, v) ∷ rest

  -- a write through `get_mut`
  unfoldable pub adjust : ℕ → (V → V) → OrdMap V → OrdMap V
  adjust k f [] = []
  adjust k f ((j, v) ∷ m) =
      let rest = adjust k f m in if k == j then (j, f v) ∷ m else (j, v) ∷ rest

  -- `keys().next_back()`
  unfoldable pub last_key : OrdMap V → Option ℕ
  last_key [] = none
  last_key ((j, v) ∷ []) = some j
  last_key ((j, v) ∷ e ∷ m) = last_key (e ∷ m)

  -- every key is above `k`; the keys ascend
  abbrev pub Above : ℕ → OrdMap V → Type 0
  Above k [] = Unit
  Above k (e ∷ m) = (k < e.0) × Above k m

  abbrev pub IsSorted : OrdMap V → Type 0
  IsSorted [] = Unit
  IsSorted (e ∷ m) = Above e.0 m × IsSorted m

  Above-le : (j k : ℕ) (m : OrdMap V) → j ≤ k → Above k m → Above j m
  Above-le j k [] h a = tt
  Above-le j k (e ∷ m) h a = (omega arith, Above-le j k m h a.1)

  -- Nothing is stored at a key that is below them all.
  pub get-Above : (j k : ℕ) (m : OrdMap V) → j ≤ k → Above k m → get j m ≡ none
  unfolding get
  get-Above j k [] h a = refl
  get-Above j k (e ∷ m) h a = ground (arith, get-Above j k m h a.1)

  Above-insert : (j k : ℕ) (v : V) (m : OrdMap V) → j < k → Above j m → Above j (insert k v m)
  unfolding insert
  Above-insert j k v [] h a = (h, tt)
  Above-insert j k v (e ∷ m) h a = ground (arith, Above-insert j k v m h a.1)

  pub insert-IsSorted : (k : ℕ) (v : V) (m : OrdMap V) → IsSorted m → IsSorted (insert k v m)
  unfolding insert
  insert-IsSorted k v [] s = (tt, tt)
  insert-IsSorted k v (e ∷ m) s =
      ground (arith, insert-IsSorted k v m s.1, Above-insert e.0 k v m, Above-le k e.0 m)

  Above-remove : (j k : ℕ) (m : OrdMap V) → Above j m → Above j (remove k m)
  unfolding remove
  Above-remove j k [] a = tt
  Above-remove j k (e ∷ m) a = ground (arith, Above-remove j k m a.1)

  pub remove-IsSorted : (k : ℕ) (m : OrdMap V) → IsSorted m → IsSorted (remove k m)
  unfolding remove
  remove-IsSorted k [] s = tt
  remove-IsSorted k (e ∷ m) s = ground (arith, remove-IsSorted k m s.1, Above-remove e.0 k m s.0)

  Above-adjust : (j k : ℕ) (f : V → V) (m : OrdMap V) → Above j m → Above j (adjust k f m)
  unfolding adjust
  Above-adjust j k f [] a = tt
  Above-adjust j k f (e ∷ m) a = ground (arith, Above-adjust j k f m a.1)

  pub adjust-IsSorted : (k : ℕ) (f : V → V) (m : OrdMap V) → IsSorted m → IsSorted (adjust k f m)
  unfolding adjust
  adjust-IsSorted k f [] s = tt
  adjust-IsSorted k f (e ∷ m) s =
      ground (arith, adjust-IsSorted k f m s.1, Above-adjust e.0 k f m s.0)

  pub get-insert :
      (j k : ℕ) (v : V) (m : OrdMap V) → get j (insert k v m) ≡ (if j == k then some v else get j m)
  unfolding get insert
  get-insert j k v [] = refl
  get-insert j k v (e ∷ m) = ground (arith, get-insert j k v m)

  pub get-remove :
      (j k : ℕ) (m : OrdMap V)
      → IsSorted m
      → get j (remove k m) ≡ (if j == k then none else get j m)
  unfolding get remove
  get-remove j k [] s = ground arith
  get-remove j k (e ∷ m) s = ground (arith, get-remove j k m s.1, get-Above j e.0 m)

  -- What is absent stays absent when another key or its own is removed.
  pub get-remove_absent : (j k : ℕ) (m : OrdMap V) → get j m ≡ none → get j (remove k m) ≡ none
  unfolding get remove
  get-remove_absent j k [] h = refl
  get-remove_absent j k (e ∷ m) h = ground (arith, get-remove_absent j k m)

  pub get-adjust :
      (j k : ℕ) (f : V → V) (m : OrdMap V)
      → get j (adjust k f m)
        ≡ (if j == k then (elim (get k m) [ none ↦ none | some v ↦ some (f v) ]) else get j m)
  unfolding get adjust
  get-adjust j k f [] = ground arith
  get-adjust j k f (e ∷ m) = ground (arith, get-adjust j k f m)

  -- A write moves one entry from what it was to what it is.
  pub count-adjust :
      (test : ℕ × V → Bool) (k : ℕ) (f : V → V) (m : OrdMap V) (v : V)
      → get k m ≡ some v
      → count test (adjust k f m) + (if test (k, v) then 1 else 0)
        ≡ count test m + (if test (k, f v) then 1 else 0)
  unfolding get adjust count
  count-adjust test k f [] v h = cc
  count-adjust test k f (e ∷ m) v h = elim (==_cases k e.0) [
    | inl (t, same) ↦ let at : v ≡ e.1 = ground arith in rw t (rw at (rw same (ground arith)))
    | inr (t, other) ↦ let next = count-adjust test k f m v (ground arith) in rw t (ground arith)
  ]

  pub count-remove :
      (test : ℕ × V → Bool) (k : ℕ) (m : OrdMap V) (v : V)
      → get k m ≡ some v
      → count test (remove k m) + (if test (k, v) then 1 else 0) ≡ count test m
  unfolding get remove count
  count-remove test k [] v h = cc
  count-remove test k (e ∷ m) v h = elim (==_cases k e.0) [
    | inl (t, same) ↦ let at : v ≡ e.1 = ground arith in rw t (rw at (rw same (ground arith)))
    | inr (t, other) ↦ let next = count-remove test k m v (ground arith) in rw t (ground arith)
  ]

  last_key-Above : (j k : ℕ) (m : OrdMap V) → Above j m → last_key m ≡ some k → j < k
  unfolding last_key
  last_key-Above j k [] a h = cc
  last_key-Above j k (e ∷ []) a h = ground arith
  last_key-Above j k (e ∷ f ∷ m) a h = last_key-Above j k (f ∷ m) a.1 h

  last_key-some : (e f : ℕ × V) (m : OrdMap V) → last_key (e ∷ f ∷ m) ≡ none → ⊥
  unfolding last_key
  last_key-some e f [] h = cc
  last_key-some e f (g ∷ m) h = last_key-some f g m h

  -- Nothing is stored beyond the last key.
  pub get-last_key :
      (j k : ℕ) (m : OrdMap V) → IsSorted m → last_key m ≡ some k → k < j → get j m ≡ none
  unfolding get last_key
  get-last_key j k [] s h lt = refl
  get-last_key j k (e ∷ []) s h lt = ground arith
  get-last_key j k (e ∷ f ∷ m) s h lt =
      let rest = get-last_key j k (f ∷ m) s.1 h lt in
      let above = last_key-Above e.0 k (f ∷ m) s.0 h in ground arith

  pub get-no_last_key : (j : ℕ) (m : OrdMap V) → last_key m ≡ none → get j m ≡ none
  unfolding get last_key
  get-no_last_key j [] h = refl
  get-no_last_key j (e ∷ []) h = cc
  get-no_last_key j (e ∷ f ∷ m) h = absurd (last_key-some e f m h)
