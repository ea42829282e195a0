-- ===== src/Prelude/Results.antt =====
-- `Result<A, E>` of Rust, with `?` as the bind of a `do` block.
use mathlib.Core.Path.{◌≡◌, refl, ap}
use mathlib.Core.Logic.{◌⊎◌, inl, inr}
use mathlib.Core.List.{List, [], ◌∷◌, map}

pub data Result {ℓ κ} (E : Type κ) (A : Type ℓ) : Type (ℓ ⊔ κ) where
  ok : A → Result E A
  err : E → Result E A

-- `map_err`
abbrev pub map_err {ℓ κ μ} :
    {E : Type ℓ} {F : Type κ} {A : Type μ} → (E → F) → Result E A → Result F A
map_err f (ok a) = ok a
map_err f (err e) = err (f e)

abbrev pub ◌>>=◌ {ℓ κ μ} :
    {E : Type μ} {A : Type ℓ} {B : Type κ} → Result E A → (A → Result E B) → Result E B
err e >>= rest = err e
ok a >>= rest = rest a

abbrev pub ◌>>◌ {ℓ κ μ} :
    {E : Type μ} {A : Type ℓ} {B : Type κ} → Result E A → Result E B → Result E B
first >> next = first >>= λ _. next

infixl 5 ◌>>=◌ ◌>>◌
-- A chain that succeeds has succeeded in its first step, and goes on from its value.
pub >>=-ok {ℓ κ μ} :
    {E : Type μ} {A : Type ℓ} {B : Type κ} (r : Result E A) (next : A → Result E B) {out : B}
    → (r >>= next) ≡ ok out
    → (value : A) × (r ≡ ok value) × (next value ≡ ok out)
>>=-ok (err x) next eq = cc
>>=-ok (ok value) next eq = (value, refl, eq)

-- `collect` of an iterator of results: all the values, or the first error.
unfoldable pub collect {ℓ κ} : {E : Type κ} {A : Type ℓ} → List (Result E A) → Result E (List A)
collect [] = ok []
collect (r ∷ rs) = do a ← r; as' ← collect rs; ok (a ∷ as')

pub Result-cases {ℓ κ} :
    {E : Type κ} {A : Type ℓ} (r : Result E A) → ((a : A) × (r ≡ ok a)) ⊎ ((e : E) × (r ≡ err e))
Result-cases (ok a) = inl (a, refl)
Result-cases (err e) = inr (e, refl)

-- A pair whose first part is known.
pub pair_of {ℓ κ} : {A : Type ℓ} {B : Type κ} (t : A × B) {a : A} → t.0 ≡ a → t ≡ (a, t.1)
pair_of t e = ap (λ x. (x, t.1)) e

pub ok-inj {ℓ κ} :
    {E : Type κ} {A : Type ℓ} {r : Result E A} {a b : A} → r ≡ ok a → r ≡ ok b → a ≡ b
ok-inj h k = cc

pub ok-ne-err {ℓ κ} : {E : Type κ} {A : Type ℓ} {e : E} {a : A} → err e ≡ ok a → ⊥
ok-ne-err h = cc

pub map_err-ok {ℓ κ μ} :
    {E : Type ℓ} {F : Type κ} {A : Type μ} (f : E → F) (r : Result E A) {a : A}
    → map_err f r ≡ ok a
    → r ≡ ok a
map_err-ok f (ok b) h = cc
map_err-ok f (err e) h = absurd (ok-ne-err h)

pub collect-map_ok {ℓ κ} :
    {E : Type κ} {A : Type ℓ} (xs : List A) → collect {E = E} (map ok xs) ≡ ok xs
unfolding collect
collect-map_ok [] = refl
collect-map_ok {E = E} (x ∷ xs) = rw (collect-map_ok {E = E} xs)
