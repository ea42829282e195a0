-- ===== src/Context/Session/Rules.antt =====
-- Rules for the do blocks and loops of an action: what holds of the session when it ends.
use semanticore.Prelude.{
  ◌≡◌, refl, Bool, true, false, if◌then◌else◌, inl, inr, List, [], ◌∷◌, ok, Result-cases, pair_of,
  arith, All, Pairs,
}
use semanticore.Storage.{Storage}
use semanticore.Context.Platform.{Platform}
use semanticore.Context.Session.State.{Session, Action, for_each, ◌>>=◌}

module _ ⦃p : Platform⦄ ⦃st : Storage⦄ where
  -- If the first action fails the block ends where it ended, and else where the rest ends.
  pub >>=_ends :
      {A B : Type 0} (Q : Session → Type 0) (m : Action A) (f : A → Action B) (s : Session)
      → Q (m s).1
      → ((a : A) → m s ≡ (ok a, (m s).1) → Q (m s).1 → Q (f a (m s).1).1)
      → Q ((m >>= f) s).1
  unfolding ◌>>=◌
  >>=_ends Q m f s h k = elim (Result-cases (m s).0) [
    | inl (a, r) ↦ rw (r, ◌>>=◌) (k a (pair_of (m s) r) h)
    | inr (e, r) ↦ rw (r, ◌>>=◌) h
  ]

  -- what holds before the action holds after it, on success and on failure
  abbrev pub Keeps : {A : Type 0} → (Session → Type 0) → Action A → Type 0
  Keeps Q m = (s : Session) → Q s → Q (m s).1

  -- A block keeps what each part keeps.
  pub >>=-Keeps :
      {A B : Type 0} (Q : Session → Type 0) (m : Action A) (f : A → Action B)
      → Keeps Q m
      → ((a : A) → Keeps Q (f a))
      → Keeps Q (m >>= f)
  >>=-Keeps Q m f hm hf s h = >>=_ends Q m f s (hm s h) (λ a _ h'. hf a (m s).1 h')

  -- A test keeps what both branches keep.
  pub if_Keeps :
      {A : Type 0} (Q : Session → Type 0) (b : Bool) (x y : Action A)
      → (b ≡ true → Keeps Q x)
      → (b ≡ false → Keeps Q y)
      → Keeps Q (if b then x else y)
  if_Keeps Q true x y hx hy = hx refl
  if_Keeps Q false x y hx hy = hy refl

  -- A loop keeps what its body keeps.
  pub for_each-Keeps :
      {A : Type 0} (Q : Session → Type 0) (body : A → Action (Unit {0}))
      → ((x : A) → Keeps Q (body x))
      → (xs : List A) → Keeps Q (for_each xs body)
  unfolding for_each
  for_each-Keeps Q body h [] = λ s q. q
  for_each-Keeps Q body h (x ∷ xs) =
      >>=-Keeps Q (body x) (λ _. for_each xs body) (h x) (λ _. for_each-Keeps Q body h xs)

  -- What holds after a block that succeeds follows from the success of each part.
  pub >>=_establishes :
      {A B : Type 0} (Q : Session → Type 0) (m : Action A) (f : A → Action B) (s : Session) {b : B}
      → ((m >>= f) s).0 ≡ ok b
      → ((a : A) → (m s).0 ≡ ok a → (f a (m s).1).0 ≡ ok b → Q (f a (m s).1).1)
      → Q ((m >>= f) s).1
  unfolding ◌>>=◌
  >>=_establishes Q m f s h k = elim (Result-cases (m s).0) [
    | inl (a, r) ↦ rw (r, ◌>>=◌) (k a r (rw (r, ◌>>=◌) at h))
    | inr (e, r) ↦ absurd (ground arith)
  ]

  module _ {A : Type 0} (body : A → Action (Unit {0})) (P : Session → Type 0)
      (Q : A → Session → Type 0) (R : A → A → Type 0) where
    All-frame :
        (x : A) (s : Session) (xs : List A)
        → ((y : A) → R x y → Q y s → Q y (body x s).1)
        → All (R x) xs
        → All (λ y. Q y s) xs
        → All (λ y. Q y (body x s).1) xs
    All-frame x s [] frame r q = tt
    All-frame x s (y ∷ xs) frame r q = (frame y r.0 q.0, All-frame x s xs frame r.1 q.1)

    -- A loop keeps `P` if each round does where its element satisfies `Q`, and leaves the `Q` of the
    -- elements that are still to come.
    pub for_each_ends :
        ((x : A) (s : Session) → P s → Q x s → P (body x s).1)
        → ((x y : A) (s : Session) → P s → Q x s → R x y → Q y s → Q y (body x s).1)
        → (xs : List A) (s : Session) → P s
        → All (λ x. Q x s) xs
        → Pairs R xs
        → P (for_each xs body s).1
    unfolding for_each
    for_each_ends step frame [] s h q r = h
    for_each_ends step frame (x ∷ xs) s h q r =
        >>=_ends P (body x) (λ _. for_each xs body) s (step x s h q.0)
          (λ a e h'.
            for_each_ends step frame xs (body x s).1 h'
              (All-frame x s xs (λ y rxy qy. frame x y s h q.0 rxy qy) r.0 q.1) r.1)
