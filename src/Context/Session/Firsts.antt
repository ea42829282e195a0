-- ===== src/Context/Session/Firsts.antt =====
-- The first entries of an ordered list of entries, by their keys.
use semanticore.Prelude.{
  ℕ, zero, suc, ◌≡◌, refl, inl, inr, Bool, true, false, ◌||◌, some, List, [], ◌∷◌, map, ◌==◌,
  nat_eq, ==_cases, arith, All, Pairs, mem, take, filter, sort_by, insert_sorted,
}
use semanticore.Prelude.OrdMap
use semanticore.Prelude.OrdMap.{OrdMap}

module _ {ℓ} {V : Type ℓ} where
  abbrev pub keys : OrdMap V → List ℕ
  keys = map (λ e. e.0)

  mem-insert_sorted :
      (le : ℕ × V → ℕ × V → Bool) (j : ℕ) (x : ℕ × V) (xs : OrdMap V)
      → mem j (keys (insert_sorted le x xs)) ≡ (j == x.0 || mem j (keys xs))
  unfolding mem insert_sorted
  mem-insert_sorted le j x [] = refl
  mem-insert_sorted le j x (y ∷ xs) = ground (arith, mem-insert_sorted le j x xs)

  -- Sorting keeps the keys.
  pub mem-sort_by :
      (le : ℕ × V → ℕ × V → Bool) (j : ℕ) (xs : OrdMap V)
      → mem j (keys (sort_by le xs)) ≡ mem j (keys xs)
  unfolding mem sort_by
  mem-sort_by le j [] = refl
  mem-sort_by le j (x ∷ xs) =
      ground (arith, mem-insert_sorted le j x (sort_by le xs), mem-sort_by le j xs)

  -- A key whose entry passes a test is a key of the entries that do.
  pub mem-keys-filter :
      (test : ℕ × V → Bool) (j : ℕ) (f : V) (m : OrdMap V)
      → OrdMap.get j m ≡ some f
      → test (j, f) ≡ true
      → mem j (keys (filter test m)) ≡ true
  unfolding OrdMap.get mem filter
  mem-keys-filter test j f [] g t = absurd (cc g)
  mem-keys-filter test j f ((i, v) ∷ m) g t = elim (==_cases j i) [
    | inl (e, same) ↦
        let here : v ≡ f = ground arith in
        let there : test (i, v) ≡ true = rw (← same, here) t in ground arith
    | inr (e, _) ↦ ground (arith, mem-keys-filter test j f m (ground arith) t)
  ]

  -- What holds of all entries holds of the one with a key among theirs.
  All-key {κ} :
      (P : ℕ × V → Type κ) (m : OrdMap V) (j : ℕ) (f : V) (xs : OrdMap V)
      → OrdMap.get j m ≡ some f
      → All (λ x. OrdMap.get x.0 m ≡ some x.1) xs
      → mem j (keys xs) ≡ true
      → All P xs
      → P (j, f)
  unfolding mem
  All-key P m j f [] g e h l = absurd (ground arith)
  All-key P m j f ((i, v) ∷ xs) g e h l = elim (==_cases j i) [
    | inl (t, same) ↦ let here : v ≡ f = ground arith in rw (same, ← here) l.0
    | inr (t, _) ↦ All-key P m j f xs g e.1 (ground arith) l.1
  ]

  -- Of an ordered list of the entries of a map, one among the first comes before one that is not.
  pub take-first {κ} :
      (R : ℕ × V → ℕ × V → Type κ) (m : OrdMap V) (i j : ℕ) (e f : V) (n : ℕ) (xs : OrdMap V)
      → OrdMap.get i m ≡ some e
      → OrdMap.get j m ≡ some f
      → Pairs R xs
      → All (λ x. OrdMap.get x.0 m ≡ some x.1) xs
      → mem i (keys (take n xs)) ≡ true
      → mem j (keys xs) ≡ true
      → mem j (keys (take n xs)) ≡ false
      → R (i, e) (j, f)
  unfolding mem
  take-first R m i j e f zero xs a b r l h k o = absurd (ground arith)
  take-first R m i j e f (suc n) [] a b r l h k o = absurd (ground arith)
  take-first R m i j e f (suc n) ((x, v) ∷ xs) a b r l h k o = elim (==_cases i x) [
    | inl (t, same) ↦
        let here : v ≡ e = ground arith in
        rw (same, ← here) (All-key (R (x, v)) m j f xs b l.1 (ground arith) r.0)
    | inr (t, _) ↦
        take-first R m i j e f n xs a b r.1 l.1 (ground arith) (ground arith) (ground arith)
  ]
