-- ===== src/Suite/WritePasses.antt =====
-- The checks of crates/semanticore-storage-testkit/src/contract.rs on rollbacks, dropped transactions
-- and read-only transactions, on the in-memory store.
use semanticore.Prelude.{
  ℕ, ◌≡◌, refl, true, false, List, [], ◌∷◌, ==_refl, nat_eq, bool_eq, arith, ok, mem, length,
  set_insert, set_remove, Distinct, set_remove-Distinct, mem-set_insert, mem-set_remove,
}
use semanticore.Model.{Quad, quad_eq}
use semanticore.MemStore
use semanticore.MemStore.{MemStore, MemTx, mem_storage}
use semanticore.Suite.{to_set, same_set, ◌>>=◌}
use semanticore.Suite.Checks.{
  set_extend, insert_seen, remove_first_seen, without_first, rollback_and_isolation,
  drop_discards_writes, refuses_first, read_only_rejects_writes,
}
use semanticore.Suite.Sets.{
  to_set-Distinct, mem-to_set, to_set_twice, same_set_lem, same_set_refl, set_extend-Distinct,
  mem-set_extend,
}
use semanticore.Suite.Steps.{
  tested, Passes, runs, step, holds, holds_last, assert_lem, writer, reader, begin_read_lem,
  begin_write_lem, insert_lem, remove_lem, contains_lem, rollback_lem, all_quads_lem, committed_lem,
  insert_each_lem, remove_each_lem, load_lem, quad_count_lem,
}
use semanticore.Suite.Passes.{loaded, loaded-Distinct}

-- The sets of quads that two lists with the same members make are equal.
pub same_sets :
    (xs ys : List Quad)
    → ((a : Quad) → mem a xs ≡ mem a ys)
    → same_set (to_set xs) (to_set ys) ≡ true
same_sets xs ys h =
    same_set_lem (to_set xs) (to_set ys) (to_set-Distinct xs) (to_set-Distinct ys)
      (λ a. ground (arith, mem-to_set a xs, mem-to_set a ys, h a))

insert_seen_lem :
    (qs : List Quad) (v : ℕ) (xs : List Quad) (s : MemStore)
    → insert_seen qs (writer v xs) s ≡ ok (writer v (set_extend qs xs), s)
unfolding insert_seen set_extend
insert_seen_lem [] v xs s = refl
insert_seen_lem (q ∷ qs) v xs s = runs _ _ (insert_lem v xs q s) (
    runs _ _ (contains_lem v (set_insert q xs) true q s) (
      runs _ _ (assert_lem _ _ s (ground (arith, mem-set_insert q q xs, ==_refl q)))
        (insert_seen_lem qs v (set_insert q xs) s)))

remove_first_seen_lem :
    (base : List Quad) (v : ℕ) (xs : List Quad) (s : MemStore)
    → remove_first_seen base (writer v xs) s ≡ ok (writer v (without_first base xs), s)
unfolding remove_first_seen
remove_first_seen_lem [] v xs s = refl
remove_first_seen_lem (q ∷ _) v xs s = runs _ _ (remove_lem v xs q s) (
    runs _ _ (contains_lem v (set_remove q xs) true q s)
      (runs _ _ (assert_lem _ _ s (ground (arith, mem-set_remove q q xs, ==_refl q))) refl))

pub without_first-Distinct : (base xs : List Quad) → Distinct xs → Distinct (without_first base xs)
without_first-Distinct [] xs d = d
without_first-Distinct (q ∷ _) xs d = set_remove-Distinct q xs d

pub mem-without_first :
    (a : Quad) (base xs ys : List Quad)
    → mem a xs ≡ mem a ys
    → mem a (without_first base xs) ≡ mem a (without_first base ys)
mem-without_first a [] xs ys h = h
mem-without_first a (q ∷ _) xs ys h = ground (arith, mem-set_remove a q xs, mem-set_remove a q ys)

-- What a writer sees after writes is what the check expects.
pub expected-same :
    (base quads : List Quad)
    → same_set
        (to_set (without_first base (set_extend quads (loaded base))))
        (without_first base (set_extend quads (to_set (loaded base))))
      ≡ true
expected-same base quads =
    let xs = loaded base in
    let ys = without_first base (set_extend quads xs) in
    let zs = without_first base (set_extend quads (to_set xs)) in
    same_set_lem (to_set ys) zs (to_set-Distinct ys)
      (without_first-Distinct base (set_extend quads (to_set xs))
        (set_extend-Distinct quads (to_set xs) (to_set-Distinct xs)))
      (λ a. ground (
        arith,
        mem-to_set a ys,
        mem-without_first a base (set_extend quads xs) (set_extend quads (to_set xs)),
        mem-set_extend a quads xs,
        mem-set_extend a quads (to_set xs),
        mem-to_set a xs,
      ))

-- The in-memory store passes the check of rollbacks and isolation.
pub rollback_and_isolation-Passes :
    (base quads : List Quad) → Passes (rollback_and_isolation base quads)
unfolding rollback_and_isolation
rollback_and_isolation-Passes base quads =
    let xs = loaded base in
    let same = same_set_refl (to_set xs) (to_set-Distinct xs) in
    step _ _ (load_lem base 0 []) (
      step _ _ (committed_lem _ xs) (
        step _ _ (begin_write_lem _ xs) (
          step _ _ (insert_seen_lem quads _ xs _) (
            step _ _ (remove_first_seen_lem base _ (set_extend quads xs) _) (
              step _ _ (all_quads_lem _ _) (
                holds _ _ _ (expected-same base quads) (
                  step _ _ (committed_lem _ xs) (
                    holds _ _ _ same (
                      step _ _ (rollback_lem _ xs _)
                        (step _ _ (committed_lem _ xs) (holds_last _ _ _ same)))))))))))

-- It passes the check that a dropped transaction leaves nothing.
pub drop_discards_writes-Passes :
    (base quads : List Quad) → Passes (drop_discards_writes base quads)
unfolding drop_discards_writes
drop_discards_writes-Passes base quads =
    let xs = loaded base in
    step _ _ (load_lem base 0 []) (
      step _ _ (committed_lem _ xs) (
        step _ _ (begin_write_lem _ xs) (
          step _ _ (insert_each_lem quads _ xs _) (
            step _ _ (remove_each_lem base _ (set_extend quads xs) _) (
              step _ _ (committed_lem _ xs) (
                holds _ _ _ (same_set_refl (to_set xs) (to_set-Distinct xs)) (
                  step _ _ (quad_count_lem _) (
                    holds_last _ _ _
                      (rw (to_set_twice xs (loaded-Distinct base)) (==_refl (length xs)))))))))))

refuses_first_lem :
    (base : List Quad) (v : ℕ) (xs : List Quad) (s : MemStore)
    → refuses_first base (reader v xs) s ≡ ok (reader v xs, s)
unfolding refuses_first MemStore.remove ◌>>=◌
refuses_first_lem [] v xs s = refl
refuses_first_lem (q ∷ _) v xs s = refl

-- It passes the check that read-only transactions reject writes.
pub read_only_rejects_writes-Passes :
    (base : List Quad) (q : Quad) → Passes (read_only_rejects_writes base q)
unfolding read_only_rejects_writes MemStore.insert MemStore.remove MemStore.commit
read_only_rejects_writes-Passes base q =
    let xs = loaded base in
    let same = same_set_refl (to_set xs) (to_set-Distinct xs) in
    step _ _ (load_lem base 0 []) (
      step _ _ (committed_lem _ xs) (
        step _ _ (begin_read_lem _ xs) (
          step _ _ refl (
            step _ _ refl (
              step _ _ (contains_lem _ xs false q _) (
                holds _ _ _ (rw (mem-to_set q xs) (==_refl (mem q xs))) (
                  step _ _ (all_quads_lem (reader _ xs) _) (
                    holds _ _ _ same (
                      step _ _ refl (
                        step _ _ (committed_lem _ xs) (
                          holds _ _ _ same (
                            step _ _ (begin_read_lem _ xs) (
                              step _ _ (refuses_first_lem base _ xs _) (
                                step _ _ (rollback_lem _ xs _) (
                                  step _ _ (committed_lem _ xs)
                                    (holds_last _ _ _ same))))))))))))))))
