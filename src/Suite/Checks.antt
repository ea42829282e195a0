-- ===== src/Suite/Checks.antt =====
-- The checks of crates/semanticore-storage-testkit/src/contract.rs that take generated quads. Each runs
-- on a fresh store.
use semanticore.Prelude.{
  Bool, true, false, not, Option, none, some, List, [], ◌∷◌, collect, ◌==◌, nat_eq, bool_eq, length,
  mem, filter, set_insert, set_remove, if◌then◌else◌, Result,
}
use semanticore.Model.{Quad, named_node_eq, quad_eq}
use semanticore.Storage.{Storage, Pattern, matches_pattern}
use semanticore.Suite.{
  Check, to_set, same_set, unwrap, assert, assert_err, reads, writes, ends, all_quads, committed,
  insert_each, remove_each, load, pure, ◌>>=◌, ◌>>◌,
}

-- `mask[i].then_some(x)`
abbrev pub then_some {ℓ} : {A : Type ℓ} → Bool → A → Option A
then_some true a = some a
then_some false a = none

abbrev pub masked : Quad → Bool × Bool × Bool × Bool → Pattern
masked q mask = record {
  subject = then_some mask.0 q.subject;
  predicate = then_some mask.1 q.predicate;
  object = then_some mask.2 q.object;
  graph = then_some mask.3 q.graph;
}

-- `expected.insert(q)` for each
unfoldable pub set_extend : List Quad → List Quad → List Quad
set_extend [] xs = xs
set_extend (q ∷ qs) xs = set_extend qs (set_insert q xs)

abbrev pub without_first : List Quad → List Quad → List Quad
without_first [] xs = xs
without_first (q ∷ _) xs = set_remove q xs

module _ ⦃st : Storage⦄ where
  -- every quad is found, or the message
  unfoldable pub contains_each : List Quad → st.Transaction → Check (Unit {0})
  contains_each [] tx = pure tt
  contains_each (q ∷ qs) tx = do
    found ← unwrap (st.contains tx q)
    assert found "inserted quad missing"
    contains_each qs tx

  unfoldable pub round_trip : List Quad → Check (Unit {0})
  round_trip quads = do
    load quads
    tx ← reads st.begin_read
    contains_each quads tx
    seen ← all_quads tx
    assert (same_set seen (to_set quads)) "all_quads(&tx) == expected"
    ends (st.rollback tx)
    n ← reads st.quad_count
    assert (n == length (to_set quads)) "store.quad_count() == expected.len()"

  -- insertions that report a change exactly for a quad that was not seen yet
  unfoldable pub insert_new : List Quad → List Quad → st.Transaction → Check st.Transaction
  insert_new [] seen tx = pure tx
  insert_new (q ∷ qs) seen tx = do
    r ← writes (st.insert tx q)
    assert (r.0 == not (mem q seen)) "insert() return"
    insert_new qs (set_insert q seen) r.1

  unfoldable pub insert_again : List Quad → st.Transaction → Check st.Transaction
  insert_again [] tx = pure tx
  insert_again (q ∷ qs) tx = do
    r ← writes (st.insert tx q)
    assert (not r.0) "re-insert reported a change"
    insert_again qs r.1

  unfoldable pub idempotent_insert : List Quad → Check (Unit {0})
  idempotent_insert quads = do
    tx ← reads st.begin_write
    tx' ← insert_new quads [] tx
    ends (st.commit tx')
    once ← committed
    again ← reads st.begin_write
    again' ← insert_again quads again
    ends (st.commit again')
    twice ← committed
    assert (same_set twice once) "committed(&store) == once"
    n ← reads st.quad_count
    assert (n == length once) "store.quad_count() == once.len()"

  -- the part of `delete_after_insert` for a quad that the base does not have
  unfoldable pub delete_committed : Quad → List Quad → Check (Unit {0})
  delete_committed extra before = do
    load (extra ∷ [])
    tx ← reads st.begin_write
    r ← writes (st.remove tx extra)
    assert r.0 "tx.remove(extra)"
    ends (st.commit r.1)
    after ← committed
    assert (same_set after before) "committed(&store) == before"

  -- a removal that changes nothing
  unfoldable pub remove_absent : Quad → st.Transaction → Check st.Transaction
  remove_absent extra tx = do
    r ← writes (st.remove tx extra)
    assert (not r.0) "!tx.remove(extra)"
    pure r.1

  unfoldable pub delete_after_insert : List Quad → Quad → Check (Unit {0})
  delete_after_insert base extra = do
    load base
    before ← committed
    let was_present = mem extra before
    tx ← reads st.begin_write
    r ← writes (st.insert tx extra)
    assert (r.0 == not was_present) "tx.insert(extra) == !was_present"
    r' ← writes (st.remove r.1 extra)
    assert r'.0 "remove after insert must report a change"
    left ← unwrap (st.contains r'.1 extra)
    assert (not left) "!tx.contains(extra)"
    ends (st.commit r'.1)
    after ← committed
    assert (same_set after (set_remove extra before)) "committed(&store) == expected"
    load base
    restored ← committed
    assert (same_set restored before) "committed(&store) == before"
    if was_present then pure tt else delete_committed extra before
    last ← reads st.begin_write
    last' ← if was_present then pure last else remove_absent extra last
    ends (st.rollback last')
    end ← committed
    assert (same_set end before) "committed(&store) == before"

  unfoldable pub pattern : List Quad → Pattern → Check (Unit {0})
  pattern quads p = do
    load quads
    tx ← reads st.begin_read
    got ← unwrap (collect (st.quads_for_pattern tx p))
    assert (length got == length (to_set got)) "pattern yielded duplicates"
    assert (same_set (to_set got) (to_set (filter (λ q. matches_pattern q p) quads)))
        "got_set == expected"

  -- `.map(|r| r.unwrap()).any(|x| &x == q)`, which stops where it finds the quad
  unfoldable pub any_is : Quad → List (Result st.Error Quad) → Check Bool
  any_is q [] = pure false
  any_is q (r ∷ rs) = do x ← unwrap r; if x == q then pure true else any_is q rs

  unfoldable pub pattern_from_member :
      List Quad → Quad → Bool × Bool × Bool × Bool → Check (Unit {0})
  pattern_from_member quads q mask = do
    load quads
    tx ← reads st.begin_read
    found ← any_is q (st.quads_for_pattern tx (masked q mask))
    assert found "pattern from member did not find the quad"

  -- writes that the transaction sees at once
  unfoldable pub insert_seen : List Quad → st.Transaction → Check st.Transaction
  insert_seen [] tx = pure tx
  insert_seen (q ∷ qs) tx = do
    r ← writes (st.insert tx q)
    seen ← unwrap (st.contains r.1 q)
    assert seen "read-your-writes violated"
    insert_seen qs r.1

  -- the removal of the first quad of the base, if it has one
  unfoldable pub remove_first_seen : List Quad → st.Transaction → Check st.Transaction
  remove_first_seen [] tx = pure tx
  remove_first_seen (q ∷ _) tx = do
    r ← writes (st.remove tx q)
    seen ← unwrap (st.contains r.1 q)
    assert (not seen) "read-your-writes violated (remove)"
    pure r.1

  unfoldable pub rollback_and_isolation : List Quad → List Quad → Check (Unit {0})
  rollback_and_isolation base quads = do
    load base
    before ← committed
    tx ← reads st.begin_write
    tx' ← insert_seen quads tx
    tx'' ← remove_first_seen base tx'
    seen ← all_quads tx''
    assert (same_set seen (without_first base (set_extend quads before)))
        "read-your-writes violated (pattern)"
    outside ← committed
    assert (same_set outside before) "uncommitted writes leaked"
    ends (st.rollback tx'')
    after ← committed
    assert (same_set after before) "committed(&store) == before"

  unfoldable pub drop_discards_writes : List Quad → List Quad → Check (Unit {0})
  drop_discards_writes base quads = do
    load base
    before ← committed
    tx ← reads st.begin_write
    tx' ← insert_each quads tx
    remove_each base tx'
    after ← committed
    assert (same_set after before) "committed(&store) == before"
    n ← reads st.quad_count
    assert (n == length before) "store.quad_count() == before.len()"

  -- the second refusal of `read_only_rejects_writes`, if the base has a quad
  unfoldable pub refuses_first : List Quad → st.Transaction → Check st.Transaction
  refuses_first [] tx = pure tx
  refuses_first (q ∷ _) tx = do
    assert_err (st.remove tx q).0 "tx.remove(first).is_err()"
    pure (st.remove tx q).1

  unfoldable pub read_only_rejects_writes : List Quad → Quad → Check (Unit {0})
  read_only_rejects_writes base q = do
    load base
    before ← committed
    tx ← reads st.begin_read
    assert_err (st.insert tx q).0 "read-only insert must fail"
    let tx' = (st.insert tx q).1
    assert_err (st.remove tx' q).0 "read-only remove must fail"
    let tx'' = (st.remove tx' q).1
    found ← unwrap (st.contains tx'' q)
    assert (found == mem q before) "tx.contains(q) == before.contains(q)"
    seen ← all_quads tx''
    assert (same_set seen before) "all_quads(&tx) == before"
    ends (st.commit tx'')
    after ← committed
    assert (same_set after before) "committed(&store) == before"
    last ← reads st.begin_read
    last' ← refuses_first base last
    ends (st.rollback last')
    end ← committed
    assert (same_set end before) "committed(&store) == before"
