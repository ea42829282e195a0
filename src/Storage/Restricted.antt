-- ===== src/Storage/Restricted.antt =====
-- The storage contract over part of the quads: what a `Storage` promises of the quads and patterns that
-- it can tell apart, in stores and transactions that keep an invariant.
use semanticore.Prelude.{◌≡◌, Bool, true, not, ◌&&◌, ◌||◌, List, ok, err, collect, ◌==◌, mem}
use semanticore.Model.{Quad, quad_eq}
use semanticore.Storage.{Storage, Pattern, matches_pattern}
use semanticore.Storage.Contract.{View}

module _ (st : Storage) where
  pub record Restriction : Type 1 where
    pub OnQuad : Quad → Type 0
    pub OnPattern : Pattern → Type 0
    pub OnStore : st.Store → Type 0
    pub OnTransaction : st.Transaction → Type 0

module _ (st : Storage) (v : View st) (r : Restriction st) where
  open st use {
    Store, Transaction, Error, begin_read, begin_write, insert, remove, contains, quads_for_pattern,
    commit, rollback,
  }
  open v use {holds, sees, writing, read_only}
  open r use {OnQuad, OnPattern, OnStore, OnTransaction}

  pub record ContractFor : Type 0 where
    -- A transaction starts from what is committed.
    pub begin_read_sees :
        (s : Store) {tx : Transaction}
        → OnStore s
        → begin_read s ≡ ok tx
        → OnTransaction tx × (read_only tx ≡ true) × ((q : Quad) → sees tx q ≡ holds s q)
    pub begin_write_sees :
        (s : Store) {tx : Transaction}
        → OnStore s
        → begin_write s ≡ ok tx
        → OnTransaction tx × (writing s tx ≡ true) × ((q : Quad) → sees tx q ≡ holds s q)
    -- A write shows in its own transaction, and reports whether it changed anything.
    pub insert_sees :
        (s : Store) (tx : Transaction) (p : Quad) {b : Bool} {tx' : Transaction}
        → OnTransaction tx
        → OnQuad p
        → writing s tx ≡ true
        → insert tx p ≡ (ok b, tx')
        → OnTransaction tx'
          × (writing s tx' ≡ true)
          × (b ≡ not (sees tx p))
          × ((q : Quad) → OnQuad q → sees tx' q ≡ (q == p || sees tx q))
    pub remove_sees :
        (s : Store) (tx : Transaction) (p : Quad) {b : Bool} {tx' : Transaction}
        → OnTransaction tx
        → OnQuad p
        → writing s tx ≡ true
        → remove tx p ≡ (ok b, tx')
        → OnTransaction tx'
          × (writing s tx' ≡ true)
          × (b ≡ sees tx p)
          × ((q : Quad) → OnQuad q → sees tx' q ≡ (not (q == p) && sees tx q))
    pub contains_sees :
        (tx : Transaction) (q : Quad) {b : Bool} → contains tx q ≡ ok b → b ≡ sees tx q
    -- A pattern yields the matching quads that the transaction sees.
    pub pattern_sees :
        (tx : Transaction) (p : Pattern) {qs : List Quad}
        → OnTransaction tx
        → OnPattern p
        → collect (quads_for_pattern tx p) ≡ ok qs
        → (q : Quad) → OnQuad q
        → mem q qs ≡ (sees tx q && matches_pattern q p)
    -- A read-only transaction refuses every write.
    pub read_only_insert :
        (tx : Transaction) (p : Quad)
        → read_only tx ≡ true
        → (e : Error) × (insert tx p ≡ (err e, tx))
    pub read_only_remove :
        (tx : Transaction) (p : Quad)
        → read_only tx ≡ true
        → (e : Error) × (remove tx p ≡ (err e, tx))
    -- A commit applies the whole transaction or nothing; a rollback applies nothing.
    pub commit_ok :
        (s : Store) (tx : Transaction) {s' : Store}
        → OnTransaction tx
        → writing s tx ≡ true
        → commit tx s ≡ (ok tt, s')
        → OnStore s' × ((q : Quad) → holds s' q ≡ sees tx q)
    pub commit_err :
        (s : Store) (tx : Transaction) {e : Error} {s' : Store}
        → OnStore s
        → commit tx s ≡ (err e, s')
        → OnStore s' × ((q : Quad) → holds s' q ≡ holds s q)
    pub rollback_holds :
        (tx : Transaction) (s : Store) (q : Quad) → holds (rollback tx s).1 q ≡ holds s q
