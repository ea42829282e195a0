-- ===== src/MemStore/Laws.antt =====
-- `MemStore` keeps the storage contract.
use semanticore.Prelude.{
  ◌≡◌, refl, Bool, true, not, ◌&&◌, ◌||◌, List, [], ◌∷◌, ok, collect, ◌==◌, nat_eq, arith, filter,
  mem, collect-map_ok, mem-set_insert, mem-set_remove,
}
use semanticore.Model.{Quad, quad_eq}
use semanticore.Storage.{Pattern, matches_pattern}
use semanticore.Storage.Contract.{View, Contract}
use semanticore.MemStore.{
  MemStore, MemTx, begin_read, begin_write, insert, remove, contains, quads_for_pattern, commit,
  rollback, mem_storage, read_only_error,
}

mem-filter :
    (q : Quad) (p : Pattern) (xs : List Quad)
    → mem q (filter (λ r. matches_pattern r p) xs) ≡ (mem q xs && matches_pattern q p)
unfolding filter mem
mem-filter q p [] = refl
mem-filter q p (x ∷ xs) = ground (arith, mem-filter q p xs)

-- What a pattern query of a transaction returns, with every result a success.
pub quads_for_pattern-collect :
    (tx : MemTx) (p : Pattern)
    → collect (quads_for_pattern tx p) ≡ ok (filter (λ q. matches_pattern q p) tx.working)
unfolding quads_for_pattern
quads_for_pattern-collect tx p = collect-map_ok (filter (λ q. matches_pattern q p) tx.working)

-- A transaction that writes on the store as it stands has the version of the store.
abbrev pub mem_view : View mem_storage
mem_view = record {
  holds = λ s q. mem q s.quads;
  sees = λ tx q. mem q tx.working;
  writing = λ s tx. tx.writable && s.version == tx.base_version;
  read_only = λ tx. not tx.writable;
}

module _ (s : MemStore) (tx : MemTx) (p : Quad) {b : Bool} {tx' : MemTx} where
  insert-sees :
      (tx.writable && s.version == tx.base_version) ≡ true
      → insert tx p ≡ (ok b, tx')
      → ((tx'.writable && s.version == tx'.base_version) ≡ true)
        × (b ≡ not (mem p tx.working))
        × ((q : Quad) → mem q tx'.working ≡ (q == p || mem q tx.working))
  unfolding insert
  insert-sees w h = (ground arith, ground arith, λ q. ground (arith, mem-set_insert q p tx.working))

  remove-sees :
      (tx.writable && s.version == tx.base_version) ≡ true
      → remove tx p ≡ (ok b, tx')
      → ((tx'.writable && s.version == tx'.base_version) ≡ true)
        × (b ≡ mem p tx.working)
        × ((q : Quad) → mem q tx'.working ≡ (not (q == p) && mem q tx.working))
  unfolding remove
  remove-sees w h = (ground arith, ground arith, λ q. ground (arith, mem-set_remove q p tx.working))

pattern-sees :
    (tx : MemTx) (p : Pattern) {qs : List Quad}
    → collect (quads_for_pattern tx p) ≡ ok qs
    → (q : Quad) → mem q qs ≡ (mem q tx.working && matches_pattern q p)
pattern-sees tx p h q = ground (arith, quads_for_pattern-collect tx p, mem-filter q p tx.working)

begin_read-sees :
    (s : MemStore) {tx : MemTx}
    → begin_read s ≡ ok tx
    → (not tx.writable ≡ true) × ((q : Quad) → mem q tx.working ≡ mem q s.quads)
unfolding begin_read
begin_read-sees s h = (ground arith, λ q. ground arith)

begin_write-sees :
    (s : MemStore) {tx : MemTx}
    → begin_write s ≡ ok tx
    → ((tx.writable && s.version == tx.base_version) ≡ true)
      × ((q : Quad) → mem q tx.working ≡ mem q s.quads)
unfolding begin_write
begin_write-sees s h = (ground arith, λ q. ground arith)

-- The reference store keeps every law of the storage contract, for every store, transaction, quad
-- and pattern.
pub MemStore-Contract : Contract mem_storage mem_view
unfolding insert remove contains commit rollback
MemStore-Contract = record {
  begin_read_sees = begin_read-sees;
  begin_write_sees = begin_write-sees;
  insert_sees = insert-sees;
  remove_sees = remove-sees;
  contains_sees = λ tx q h. ground arith;
  pattern_sees = pattern-sees;
  read_only_insert = λ tx p h. (read_only_error, ground arith);
  read_only_remove = λ tx p h. (read_only_error, ground arith);
  commit_ok = λ s tx w h q. ground arith;
  commit_err = λ s tx h q. ground arith;
  rollback_holds = λ tx s q. refl;
}
