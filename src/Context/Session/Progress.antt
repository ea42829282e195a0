-- ===== src/Context/Session/Progress.antt =====
-- Over a reliable storage the moves and evictions of a session succeed.
use semanticore.Prelude.{
  ◌≡◌, ◌∙◌, refl, pair_of, Bool, true, not, ◌&&◌, ◌||◌, Option, none, some, List, [], ◌∷◌, ◌++◌, ok,
  arith, mem, All, Pairs,
}
use semanticore.Prelude.OrdMap
use semanticore.Prelude.OrdMap.{OrdMap}
use semanticore.Model.{Quad, quad_eq}
use semanticore.Storage.{Storage}
use semanticore.Storage.Contract.{View, Contract}
use semanticore.Storage.Reliable.{Reliable}
use semanticore.Context.Scope.{ContextScope, ItemId, colder}
use semanticore.Context.Platform.{Platform}
use semanticore.Context.Config.{tier, DemotionTarget}
use semanticore.Context.Record.{encode, graph_pattern, meta_pattern}
use semanticore.Context.Record.Owners.{belongs}
use semanticore.Context.Session.State.{
  Entry, Arrival, Session, Action, modify_stats, count_demoted, for_each, ◌>>=◌,
}
use semanticore.Context.Session.Stored.{Work, with_write, insert_all, remove_all, delete}
use semanticore.Context.Session.Effects.{Does, insert_all-Does, delete_work, delete_work-Does}
use semanticore.Context.Session.Moves.{
  move_item, drop_item, target_of, evict_to, evict_arrived, evict_by, evict_one, evict_victims,
}
use semanticore.Context.Session.Ends.{copied, move_item_moved, drop_item_dropped}
use semanticore.Context.Session.Durable.{IsStored}
use semanticore.Context.Session.DurableEvictions.{Differ, ItemIn, evict_one-IsStored}
use semanticore.Context.Session.Picked.{get-evict_one, ItemIn-evict_one}

module _ ⦃p : Platform⦄ ⦃st : Storage⦄ where
  -- A block succeeds if each part does.
  pub >>=_succeeds :
      {A B : Type 0} (m : Action A) (f : A → Action B) (s : Session) {a : A} {b : B}
      → (m s).0 ≡ ok a
      → (f a (m s).1).0 ≡ ok b
      → ((m >>= f) s).0 ≡ ok b
  unfolding ◌>>=◌
  >>=_succeeds m f s r k = rw (r, ◌>>=◌) k

  -- the item is live
  abbrev pub Live : Session → ItemId → Type 0
  Live s id = (e : Entry) × (OrdMap.get id s.state.items ≡ some e)

module _ ⦃st : Storage⦄ (v : View st) (c : Contract st v) (rel : Reliable st v) where
  -- Work that succeeds on every transaction that writes.
  abbrev pub Works : Work (Unit {0}) → Type 0
  Works f = (s : st.Store) (tx : st.Transaction) → v.writing s tx ≡ true → (f tx).0 ≡ ok tt

  pub with_write-ok :
      (f : Work (Unit {0})) (g : Quad → Bool → Bool)
      → Does v c f g
      → Works f
      → (s : st.Store) → (with_write s f).0 ≡ ok tt
  unfolding with_write
  with_write-ok f g d w s =
      let (tx, b) = rel.begins s in
      let (wr, _) = c.begin_write_sees s b in
      let r = w s tx wr in
      let (wr', _) = d s tx tt (f tx).1 wr (pair_of (f tx) r) in
      let k = rel.commits s (f tx).1 wr' in ground (arith, b, r, k)

  pub insert_all-Works : (qs : List Quad) → Works (insert_all qs)
  unfolding insert_all
  insert_all-Works [] s tx w = refl
  insert_all-Works (q ∷ qs) s tx w =
      let (b, r) = rel.inserts s tx q w in
      let (w', _, _) = c.insert_sees s tx q w (pair_of (st.insert tx q) r) in
      let rest = insert_all-Works qs s (st.insert tx q).1 w' in ground (arith, r, rest)

  remove_all-Works : (qs : List Quad) → Works (remove_all qs)
  unfolding remove_all
  remove_all-Works [] s tx w = refl
  remove_all-Works (q ∷ qs) s tx w =
      let (b, r) = rel.removes s tx q w in
      let (w', _, _) = c.remove_sees s tx q w (pair_of (st.remove tx q) r) in
      let rest = remove_all-Works qs s (st.remove tx q).1 w' in ground (arith, r, rest)

  delete_work-Works : (id : ItemId) → Works (delete_work v c id)
  delete_work-Works id s tx w =
      let (as', ra) = rel.matches tx (graph_pattern id) in
      let (bs, rb) = rel.matches tx (meta_pattern id) in
      rw (delete_work, ra) (rw rb (remove_all-Works (as' ++ bs) s tx w))

  pub delete-ok : (s : st.Store) (id : ItemId) → (delete s id).0 ≡ ok tt
  unfolding delete
  delete-ok s id =
      with_write-ok (delete_work v c id) (λ q b. not (belongs id q) && b) (delete_work-Does v c id)
        (delete_work-Works id) s

  pub insert_all-ok : (s : st.Store) (qs : List Quad) → (with_write s (insert_all qs)).0 ≡ ok tt
  insert_all-ok s qs =
      with_write-ok (insert_all qs) (λ q b. mem q qs || b) (insert_all-Does v c qs)
        (insert_all-Works qs) s

module _ ⦃p : Platform⦄ ⦃st : Storage⦄ (v : View st) (c : Contract st v) (rel : Reliable st v) where
  -- A live item can be moved, and dropped.
  pub move_item-ok :
      (id : ItemId) (to : ContextScope) (arrival : Arrival) (s : Session)
      → Live s id
      → (move_item id to arrival s).0 ≡ ok tt
  move_item-ok id to arrival s (e, g) =
      rw
        (move_item_moved id to arrival s e g
          (insert_all-ok v c rel (tier s.stores to) (encode id e.item))
          (delete-ok v c rel (tier (copied id to arrival s e g).stores e.scope) id))
        refl

  pub drop_item-ok : (id : ItemId) (s : Session) → Live s id → (drop_item id s).0 ≡ ok tt
  drop_item-ok id s (e, g) =
      rw (drop_item_dropped id s e g (delete-ok v c rel (tier s.stores e.scope) id)) refl

  evict_to-ok :
      (target : Option ContextScope) (id : ItemId) (s : Session)
      → Live s id
      → (evict_to target id s).0 ≡ ok tt
  unfolding evict_to
  evict_to-ok none id s l = drop_item-ok id s l
  evict_to-ok (some to) id s l =
      >>=_succeeds (move_item id to Arrival.demoted) (λ _. modify_stats (count_demoted 1)) s
        (move_item-ok id to Arrival.demoted s l) refl

  evict_by-ok :
      (t : DemotionTarget) (scope : ContextScope) (id : ItemId) (s : Session)
      → Live s id
      → (evict_by t scope id s).0 ≡ ok tt
  unfolding evict_by evict_arrived ◌>>=◌
  evict_by-ok DemotionTarget.drop scope id s l = evict_to-ok none id s l
  evict_by-ok DemotionTarget.next_colder scope id s l = evict_to-ok (colder scope) id s l
  evict_by-ok DemotionTarget.one_step_then_drop scope id s (e, g) =
      rw g (evict_to-ok (target_of DemotionTarget.one_step_then_drop scope e.arrival) id s (e, g))

  evict_one-ok :
      (scope : ContextScope) (id : ItemId) (s : Session)
      → Live s id
      → (evict_one scope id s).0 ≡ ok tt
  unfolding evict_one ◌>>=◌
  evict_one-ok scope id s l = evict_by-ok s.settings.demotion_target scope id s l

  still-Live :
      (scope : ContextScope) (id : ItemId) (ids : List ItemId) (s : Session)
      → IsStored v s
      → All (Differ id) ids
      → All (λ j. ItemIn scope j s × Live s j) ids
      → All (λ j. ItemIn scope j (evict_one scope id s).1 × Live (evict_one scope id s).1 j) ids
  still-Live scope id [] s h d l = tt
  still-Live scope id (j ∷ ids) s h d ((i, (e, g)), l) =
      let same = get-evict_one scope id j s h.sorted d.0 in
      (
        (ItemIn-evict_one scope id j s h.sorted d.0 i, (e, same ∙ g)),
        still-Live scope id ids s h d.1 l,
      )

  -- Evicting distinct live items of a scope succeeds.
  pub evict_victims-ok :
      (scope : ContextScope) (ids : List ItemId) (s : Session)
      → All (λ id. ItemIn scope id s × Live s id) ids
      → Pairs Differ ids
      → IsStored v s
      → (evict_victims scope ids s).0 ≡ ok tt
  unfolding evict_victims for_each
  evict_victims-ok scope [] s l d h = refl
  evict_victims-ok scope (id ∷ ids) s ((i, live), l) d h =
      >>=_succeeds (evict_one scope id) (λ _. for_each ids (evict_one scope)) s
        (evict_one-ok scope id s live)
        (evict_victims-ok scope ids (evict_one scope id s).1 (still-Live scope id ids s h d.0 l) d.1
          (evict_one-IsStored v c scope id s i h))
