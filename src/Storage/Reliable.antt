-- ===== src/Storage/Reliable.antt =====
-- A storage that refuses nothing but a conflict: the calls that the trait allows to fail succeed. A
-- store in memory is of this kind; one on a disk is not.
use semanticore.Prelude.{◌≡◌, Bool, true, List, ok, collect}
use semanticore.Model.{Quad}
use semanticore.Storage.{Storage, Pattern}
use semanticore.Storage.Contract.{View}

module _ (st : Storage) (v : View st) where
  pub record Reliable : Type 0 where
    pub begins : (s : st.Store) → (tx : st.Transaction) × (st.begin_write s ≡ ok tx)
    pub inserts :
        (s : st.Store) (tx : st.Transaction) (p : Quad)
        → v.writing s tx ≡ true
        → (b : Bool) × ((st.insert tx p).0 ≡ ok b)
    pub removes :
        (s : st.Store) (tx : st.Transaction) (p : Quad)
        → v.writing s tx ≡ true
        → (b : Bool) × ((st.remove tx p).0 ≡ ok b)
    pub matches :
        (tx : st.Transaction) (p : Pattern)
        → (qs : List Quad) × (collect (st.quads_for_pattern tx p) ≡ ok qs)
    pub commits :
        (s : st.Store) (tx : st.Transaction) → v.writing s tx ≡ true → (st.commit tx s).0 ≡ ok tt
