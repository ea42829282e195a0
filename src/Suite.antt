-- ===== src/Suite.antt =====
-- crates/semanticore-storage-testkit/src/contract.rs: the contract suite that every backend runs. A check
-- runs on a fresh store and passes, or panics: on a failed assertion, or where it unwraps an error. A
-- `HashSet` is a list without repetition. A transaction that is dropped is a value that is not used
-- again.
pub mod Checks
pub mod Graphs
pub mod Sets
pub mod Steps
pub mod Passes
pub mod WritePasses
pub mod DeletePasses
pub mod GraphPasses
pub mod Passing
pub mod WithQuads
pub mod Examples
mod Tests
use semanticore.Prelude.{
  ℕ, Bool, true, false, ◌&&◌, Option, none, some, List, [], ◌∷◌, Result, ok, err, map_err, collect,
  Eq, ◌==◌, nat_eq, length, mem, set_insert, if◌then◌else◌, String,
}
use semanticore.Model.{NamedNode, NamedOrDefault, Quad, named_node, named_node_eq, quad_eq}
use semanticore.Storage.{Storage, Pattern}

pub data Panic (E : Type 0) : Type 0 where
  unwrapped : E → Panic E
  assertion : String → Panic E

module _ {ℓ} {A : Type ℓ} ⦃e : Eq A⦄ where
  -- `collect` into a `HashSet`
  unfoldable pub to_set : List A → List A
  to_set [] = []
  to_set (x ∷ xs) = set_insert x (to_set xs)

  unfoldable pub all_in : List A → List A → Bool
  all_in [] ys = true
  all_in (x ∷ xs) ys = mem x ys && all_in xs ys

  -- `==` of two `HashSet`s: as many elements, each of which is in the other
  unfoldable pub same_set : List A → List A → Bool
  same_set xs ys = length xs == length ys && all_in xs ys

  -- `==` of two `Vec`s
  unfoldable pub same_list : List A → List A → Bool
  same_list [] [] = true
  same_list (x ∷ xs) (y ∷ ys) = x == y && same_list xs ys
  same_list _ _ = false

unfoldable pub graphs_in : List Quad → List NamedNode
graphs_in [] = []
graphs_in (q ∷ qs) = elim q.graph [
  | NamedOrDefault.named g ↦ g ∷ graphs_in qs
  | NamedOrDefault.default ↦ graphs_in qs
]

abbrev pub graphs_of : List Quad → List NamedNode
graphs_of quads = to_set (graphs_in quads)

abbrev pub any_quad : Pattern
any_quad = record { subject = none; predicate = none; object = none; graph = none }

module _ ⦃st : Storage⦄ where
  -- what a check does to the store, and where it panics
  abbrev pub Check : Type 0 → Type 0
  Check A = st.Store → Result (Panic st.Error) (A × st.Store)

  infixl 5 ◌>>=◌ ◌>>◌
  unfoldable pub ◌>>=◌ : {A B : Type 0} → Check A → (A → Check B) → Check B
  ◌>>=◌ m f s = elim (m s) [ ok t ↦ f t.0 t.1 | err e ↦ err e ]

  abbrev pub ◌>>◌ : {A B : Type 0} → Check A → Check B → Check B
  m >> n = m >>= λ _. n

  abbrev pub pure : {A : Type 0} → A → Check A
  pure a s = ok (a, s)

  -- a value of the code's, whose error panics
  abbrev pub unwrap : {A : Type 0} → Result st.Error A → Check A
  unwrap (ok a) s = ok (a, s)
  unwrap (err e) s = err (Panic.unwrapped e)

  abbrev pub assert : Bool → String → Check (Unit {0})
  assert true message s = ok (tt, s)
  assert false message s = err (Panic.assertion message)

  -- what a call answers, which must fail
  abbrev pub assert_err : {A : Type 0} → Result st.Error A → String → Check (Unit {0})
  assert_err (err _) message s = ok (tt, s)
  assert_err (ok _) message s = err (Panic.assertion message)

  -- a call on the store
  abbrev pub reads : {A : Type 0} → (st.Store → Result st.Error A) → Check A
  reads call s = unwrap (call s) s

  -- a call on a transaction, whose answer comes with the transaction after it
  abbrev pub writes : {A : Type 0} → Result st.Error A × st.Transaction → Check (A × st.Transaction)
  writes (ok a, tx) s = ok ((a, tx), s)
  writes (err e, tx) s = err (Panic.unwrapped e)

  -- the end of a transaction
  abbrev pub ends : (st.Store → Result st.Error (Unit {0}) × st.Store) → Check (Unit {0})
  ends call s = let (r, s') = call s in unwrap r s'

  unfoldable pub all_quads : st.Transaction → Check (List Quad)
  all_quads tx = do quads ← unwrap (collect (st.quads_for_pattern tx any_quad)); pure (to_set quads)

  unfoldable pub committed : Check (List Quad)
  committed = do tx ← reads st.begin_read; out ← all_quads tx; ends (st.rollback tx); pure out

  -- `for q in quads { tx.insert(q).unwrap(); }`
  unfoldable pub insert_each : List Quad → st.Transaction → Check st.Transaction
  insert_each [] tx = pure tx
  insert_each (q ∷ qs) tx = do r ← writes (st.insert tx q); insert_each qs r.1

  unfoldable pub remove_each : List Quad → st.Transaction → Check st.Transaction
  remove_each [] tx = pure tx
  remove_each (q ∷ qs) tx = do r ← writes (st.remove tx q); remove_each qs r.1

  unfoldable pub load : List Quad → Check (Unit {0})
  load quads = do tx ← reads st.begin_write; tx' ← insert_each quads tx; ends (st.commit tx')

  unfoldable pub unload : List Quad → Check (Unit {0})
  unload quads = do tx ← reads st.begin_write; tx' ← remove_each quads tx; ends (st.commit tx')
