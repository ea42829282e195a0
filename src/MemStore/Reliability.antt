-- ===== src/MemStore/Reliability.antt =====
-- The in-memory store of crates/semanticore-storage-testkit/src/mem.rs never fails a lone writer.
use semanticore.Prelude.{refl, true, not, nat_eq, arith, filter, mem}
use semanticore.Model.{quad_eq}
use semanticore.Storage.{matches_pattern}
use semanticore.Storage.Reliable.{Reliable}
use semanticore.MemStore.{begin_read, begin_write, insert, remove, commit, mem_storage}
use semanticore.MemStore.Laws.{mem_view, quads_for_pattern-collect}

-- A write transaction on the store as it stands can be begun, written to and committed, and every
-- pattern can be read.
pub MemStore-Reliable : Reliable mem_storage mem_view
unfolding begin_write begin_read insert remove commit
MemStore-Reliable = record {
  begins = λ s. (record { base_version = s.version; working = s.quads; writable = true }, refl);
  inserts = λ s tx p w. (not (mem p tx.working), ground arith);
  removes = λ s tx p w. (mem p tx.working, ground arith);
  matches = λ tx p. (filter (λ q. matches_pattern q p) tx.working, quads_for_pattern-collect tx p);
  commits = λ s tx w. ground arith;
}
