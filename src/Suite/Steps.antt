-- ===== src/Suite/Steps.antt =====
-- How the steps of a check of crates/semanticore-storage-testkit/src/contract.rs run on the in-memory
-- store of crates/semanticore-storage-testkit/src/mem.rs.
use semanticore.Prelude.{
  ℕ, Bool, ◌≡◌, refl, true, false, not, ◌&&◌, ◌||◌, none, List, [], ◌∷◌, ◌==◌, ==_refl, nat_eq,
  arith, Result, ok, mem, length, filter, set_insert, set_remove, u64_add, String, collect,
  Distinct, Result-cases, inl, inr,
}
use semanticore.Prelude
use semanticore.Model.{Quad, quad_eq}
use semanticore.Storage.{Storage, StorageError, Pattern, matches_pattern}
use semanticore.MemStore
use semanticore.MemStore.{MemStore, MemTx, mem_storage}
use semanticore.MemStore.Laws.{quads_for_pattern-collect}
use semanticore.Suite.{
  Check, Panic, any_quad, to_set, unwrap, assert, reads, writes, ends, all_quads, committed,
  insert_each, remove_each, load, unload, ◌>>=◌, ◌>>◌,
}
use semanticore.Suite.Checks.{set_extend}

instance abbrev pub tested : Storage
tested = mem_storage

-- A check that passes on a store.
abbrev pub PassesOn : MemStore → Check (Unit {0}) → Type 0
PassesOn s m = (s' : MemStore) × (m s ≡ ok (tt, s'))

-- a check on a fresh store
abbrev pub Passes : Check (Unit {0}) → Type 0
Passes m = PassesOn MemStore.new m

-- A block does what its first step does and then what its rest does.
pub runs :
    {A B : Type 0} (m : Check A) (f : A → Check B) {s : MemStore} {a : A} {s' : MemStore}
    {r : Result (Panic StorageError) (B × MemStore)}
    → m s ≡ ok (a, s')
    → f a s' ≡ r
    → (m >>= f) s ≡ r
unfolding ◌>>=◌
runs m f h rest = rw (h, ◌>>=◌) rest

-- A check passes if its first step succeeds and the rest passes.
pub step :
    {A : Type 0} (m : Check A) (f : A → Check (Unit {0})) {s : MemStore} {a : A} {s' : MemStore}
    → m s ≡ ok (a, s')
    → PassesOn s' (f a)
    → PassesOn s (m >>= f)
step m f h rest = (rest.0, runs m f h rest.1)

-- An assertion that holds does nothing.
pub assert_lem :
    (b : Bool) (message : String) (s : MemStore) → b ≡ true → assert b message s ≡ ok (tt, s)
assert_lem b message s h = rw h refl

abbrev pub store : ℕ → List Quad → MemStore
store v xs = record { version = v; quads = xs }

abbrev pub writer : ℕ → List Quad → MemTx
writer v xs = record { base_version = v; working = xs; writable = true }

abbrev pub reader : ℕ → List Quad → MemTx
reader v xs = record { base_version = v; working = xs; writable = false }

module _ (v : ℕ) (xs : List Quad) where
  pub begin_read_lem : reads MemStore.begin_read (store v xs) ≡ ok (reader v xs, store v xs)
  unfolding MemStore.begin_read
  begin_read_lem = refl

  pub begin_write_lem : reads MemStore.begin_write (store v xs) ≡ ok (writer v xs, store v xs)
  unfolding MemStore.begin_write MemStore.begin_read Prelude.◌>>=◌
  begin_write_lem = refl

  pub insert_lem :
      (q : Quad) (s : MemStore)
      → writes (MemStore.insert (writer v xs) q) s
        ≡ ok ((not (mem q xs), writer v (set_insert q xs)), s)
  unfolding MemStore.insert
  insert_lem q s = refl

  pub remove_lem :
      (q : Quad) (s : MemStore)
      → writes (MemStore.remove (writer v xs) q) s ≡ ok ((mem q xs, writer v (set_remove q xs)), s)
  unfolding MemStore.remove
  remove_lem q s = refl

  pub contains_lem :
      (w : Bool) (q : Quad) (s : MemStore)
      → unwrap (MemStore.contains (record { base_version = v; working = xs; writable = w }) q) s
        ≡ ok (mem q xs, s)
  unfolding MemStore.contains
  contains_lem w q s = refl

  pub commit_lem :
      (ys : List Quad)
      → ends (MemStore.commit (writer v ys)) (store v xs) ≡ ok (tt, store (u64_add v 1) ys)
  unfolding MemStore.commit
  commit_lem ys = rw (==_refl v) refl

  pub rollback_lem : (tx : MemTx) → ends (MemStore.rollback tx) (store v xs) ≡ ok (tt, store v xs)
  unfolding MemStore.rollback
  rollback_lem tx = refl

pub quad_count_lem : (s : MemStore) → reads MemStore.quad_count s ≡ ok (length s.quads, s)
unfolding MemStore.quad_count
quad_count_lem s = refl

pub pattern_lem :
    (tx : MemTx) (p : Pattern) (s : MemStore)
    → unwrap (collect (MemStore.quads_for_pattern tx p)) s
      ≡ ok (filter (λ q. matches_pattern q p) tx.working, s)
pattern_lem tx p s = rw (quads_for_pattern-collect tx p) refl

filter_any : (xs : List Quad) → filter (λ q. matches_pattern q any_quad) xs ≡ xs
unfolding filter matches_pattern
filter_any [] = refl
filter_any (x ∷ xs) = rw (filter_any xs) refl

pub all_quads_lem : (tx : MemTx) (s : MemStore) → all_quads tx s ≡ ok (to_set tx.working, s)
unfolding all_quads ◌>>=◌
all_quads_lem tx s = rw (quads_for_pattern-collect tx any_quad, filter_any tx.working) refl

pub committed_lem : (v : ℕ) (xs : List Quad) → committed (store v xs) ≡ ok (to_set xs, store v xs)
unfolding committed
committed_lem v xs = runs _ _ (begin_read_lem v xs) (
    runs _ _ (all_quads_lem (reader v xs) (store v xs))
      (runs _ _ (rollback_lem v xs (reader v xs)) refl))

pub insert_each_lem :
    (qs : List Quad) (v : ℕ) (xs : List Quad) (s : MemStore)
    → insert_each qs (writer v xs) s ≡ ok (writer v (set_extend qs xs), s)
unfolding insert_each set_extend
insert_each_lem [] v xs s = refl
insert_each_lem (q ∷ qs) v xs s =
    runs _ _ (insert_lem v xs q s) (insert_each_lem qs v (set_insert q xs) s)

-- the removal of each quad
unfoldable pub set_without : List Quad → List Quad → List Quad
set_without [] xs = xs
set_without (q ∷ qs) xs = set_without qs (set_remove q xs)

pub remove_each_lem :
    (qs : List Quad) (v : ℕ) (xs : List Quad) (s : MemStore)
    → remove_each qs (writer v xs) s ≡ ok (writer v (set_without qs xs), s)
unfolding remove_each set_without
remove_each_lem [] v xs s = refl
remove_each_lem (q ∷ qs) v xs s =
    runs _ _ (remove_lem v xs q s) (remove_each_lem qs v (set_remove q xs) s)

pub load_lem :
    (qs : List Quad) (v : ℕ) (xs : List Quad)
    → load qs (store v xs) ≡ ok (tt, store (u64_add v 1) (set_extend qs xs))
unfolding load
load_lem qs v xs =
    runs _ _ (begin_write_lem v xs)
      (runs _ _ (insert_each_lem qs v xs (store v xs)) (commit_lem v xs (set_extend qs xs)))

pub unload_lem :
    (qs : List Quad) (v : ℕ) (xs : List Quad)
    → unload qs (store v xs) ≡ ok (tt, store (u64_add v 1) (set_without qs xs))
unfolding unload
unload_lem qs v xs =
    runs _ _ (begin_write_lem v xs)
      (runs _ _ (remove_each_lem qs v xs (store v xs)) (commit_lem v xs (set_without qs xs)))

-- an assertion that holds, before the rest or at the end
pub holds :
    (b : Bool) (message : String) (m : Check (Unit {0})) {s : MemStore}
    → b ≡ true
    → PassesOn s m
    → PassesOn s (assert b message >> m)
holds b message m {s} h = step (assert b message) (λ _. m) (assert_lem b message s h)

pub holds_last :
    (b : Bool) (message : String) (s : MemStore) → b ≡ true → PassesOn s (assert b message)
holds_last b message s h = (s, assert_lem b message s h)
