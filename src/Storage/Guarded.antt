-- ===== src/Storage/Guarded.antt =====
-- crates/semanticore-storage-testkit/src/guard.rs: a store bundled with a guard that outlives it.
use semanticore.Prelude.{ap}
use semanticore.Storage.{Storage}
use semanticore.Storage.Contract.{View, Contract}

pub record WithGuard (S G : Type 0) : Type 0 where
  pub store : S
  pub guard : G

module _ (st : Storage) (G : Type 0) where
  -- what a call on the inner store leaves
  abbrev put_back : {A : Type 0} → WithGuard st.Store G → A × st.Store → A × WithGuard st.Store G
  put_back s (r, store) = (r, record s { store = store })

  -- `impl Storage for WithGuard`
  abbrev pub guarded : Storage
  guarded = record {
    Store = WithGuard st.Store G;
    Transaction = st.Transaction;
    Error = st.Error;
    begin_read = λ s. st.begin_read s.store;
    begin_write = λ s. st.begin_write s.store;
    quad_count = λ s. st.quad_count s.store;
    named_graphs = λ s. st.named_graphs s.store;
    capabilities = λ s. st.capabilities s.store;
    insert = st.insert;
    remove = st.remove;
    contains = st.contains;
    quads_for_pattern = st.quads_for_pattern;
    commit = λ tx s. put_back s (st.commit tx s.store);
    rollback = λ tx s. put_back s (st.rollback tx s.store);
  }

  abbrev pub guarded_view : View st → View guarded
  guarded_view v = record {
    holds = λ s. v.holds s.store;
    sees = v.sees;
    writing = λ s. v.writing s.store;
    read_only = v.read_only;
  }

  -- A guarded store keeps the contract that the store keeps.
  pub guarded-Contract : (v : View st) → Contract st v → Contract guarded (guarded_view v)
  guarded-Contract v c = record {
    begin_read_sees = λ s. c.begin_read_sees s.store;
    begin_write_sees = λ s. c.begin_write_sees s.store;
    insert_sees = λ s. c.insert_sees s.store;
    remove_sees = λ s. c.remove_sees s.store;
    contains_sees = c.contains_sees;
    pattern_sees = c.pattern_sees;
    read_only_insert = c.read_only_insert;
    read_only_remove = c.read_only_remove;
    commit_ok = λ s tx w h. c.commit_ok s.store tx w (ap (λ r. (r.0, r.1.store)) h);
    commit_err = λ s tx h. c.commit_err s.store tx (ap (λ r. (r.0, r.1.store)) h);
    rollback_holds = λ tx s. c.rollback_holds tx s.store;
  }
