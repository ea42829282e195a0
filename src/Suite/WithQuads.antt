-- ===== src/Suite/WithQuads.antt =====
-- The conveniences of `MemStore` in crates/semanticore-storage-testkit/src/mem.rs for tests.
use semanticore.Prelude.{◌≡◌, refl, List, [], Result, ok, err, mem, u64_add, Distinct}
use semanticore.Model.{Quad, quad_eq}
use semanticore.Storage.{StorageError}
use semanticore.MemStore
use semanticore.MemStore.{MemStore}
use semanticore.Suite.{Panic, load}
use semanticore.Suite.Steps.{tested, store, load_lem}
use semanticore.Suite.Passes.{loaded, loaded-Distinct, mem-loaded}

-- a new store with the quads, or the panic of `load`
unfoldable pub with_quads : List Quad → Result (Panic StorageError) MemStore
with_quads quads = elim (load quads MemStore.new) [ ok t ↦ ok t.1 | err e ↦ err e ]

-- the committed state
abbrev pub committed_quads : MemStore → List Quad
committed_quads s = s.quads

-- A store made with quads holds them, each of them once, and no others.
pub committed_quads-with_quads :
    (quads : List Quad)
    → (s : MemStore) × (with_quads quads ≡ ok s)
      × Distinct (committed_quads s)
      × ((q : Quad) → mem q (committed_quads s) ≡ mem q quads)
unfolding with_quads
committed_quads-with_quads quads = (
  store (u64_add 0 1) (loaded quads),
  rw (load_lem quads 0 [], with_quads) refl,
  loaded-Distinct quads,
  λ q. mem-loaded q quads,
)
