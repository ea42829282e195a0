-- ===== src/Suite/Passes.antt =====
-- The checks of crates/semanticore-storage-testkit/src/contract.rs on reads and insertions, on the
-- in-memory store.
use semanticore.Prelude.{
  ℕ, Bool, ◌≡◌, refl, true, false, not, List, [], ◌∷◌, Eq, ==_refl, nat_eq, bool_eq, arith, ok, mem,
  filter, length, set_insert, Distinct, Distinct-length, All, map, mem-set_insert, inl, inr,
  filter-Distinct, mem-filter, set_insert_present, ==_cases,
}
use semanticore.Model.{Quad, quad_eq, named_node_eq, node_eq, term_eq, graph_eq}
use semanticore.Storage.{Pattern, matches_pattern, none_or}
use semanticore.MemStore
use semanticore.MemStore.{MemStore, MemTx, mem_storage}
use semanticore.Suite.{to_set, same_set}
use semanticore.Suite.Checks.{
  set_extend, contains_each, round_trip, insert_new, insert_again, idempotent_insert, pattern,
  masked, then_some, any_is, pattern_from_member,
}
use semanticore.Suite.Sets.{
  to_set-Distinct, mem-to_set, to_set_twice, same_set_lem, same_set_refl, set_extend-Distinct,
  mem-set_extend,
}
use semanticore.Suite.Steps.{
  tested, Passes, runs, step, holds, holds_last, assert_lem, writer, reader, begin_read_lem,
  begin_write_lem, insert_lem, contains_lem, commit_lem, rollback_lem, all_quads_lem, committed_lem,
  load_lem, quad_count_lem, pattern_lem,
}

contains_each_lem :
    (qs xs : List Quad) (v : ℕ) (s : MemStore)
    → All (λ q. mem q xs ≡ true) qs
    → contains_each qs (reader v xs) s ≡ ok (tt, s)
unfolding contains_each
contains_each_lem [] xs v s h = refl
contains_each_lem (q ∷ qs) xs v s h =
    runs _ _ (contains_lem v xs false q s)
      (runs _ _ (assert_lem (mem q xs) _ s h.0) (contains_each_lem qs xs v s h.1))

pub members :
    (qs xs : List Quad)
    → ((q : Quad) → mem q qs ≡ true → mem q xs ≡ true)
    → All (λ q. mem q xs ≡ true) qs
unfolding mem
members [] xs h = tt
members (q ∷ qs) xs h = (h q (ground (arith, ==_refl q)), members qs xs (λ a m. h a (ground arith)))

-- what a fresh store holds after a load
abbrev pub loaded : List Quad → List Quad
loaded quads = set_extend quads []

pub loaded-Distinct : (quads : List Quad) → Distinct (loaded quads)
loaded-Distinct quads = set_extend-Distinct quads [] tt

pub mem-loaded : (q : Quad) (quads : List Quad) → mem q (loaded quads) ≡ mem q quads
unfolding mem
mem-loaded q quads = ground (arith, mem-set_extend q quads [])

loaded-set : (quads : List Quad) → same_set (to_set (loaded quads)) (to_set quads) ≡ true
loaded-set quads =
    same_set_lem (to_set (loaded quads)) (to_set quads) (to_set-Distinct (loaded quads))
      (to_set-Distinct quads)
      (λ a. ground (arith, mem-to_set a (loaded quads), mem-to_set a quads, mem-loaded a quads))

loaded-length : (quads : List Quad) → length (loaded quads) ≡ length (to_set quads)
loaded-length quads =
    Distinct-length (loaded quads) (to_set quads) (loaded-Distinct quads) (to_set-Distinct quads)
      (λ a. ground (arith, mem-to_set a quads, mem-loaded a quads))

-- The in-memory store passes the round trip of any quads.
pub round_trip-Passes : (quads : List Quad) → Passes (round_trip quads)
unfolding round_trip
round_trip-Passes quads =
    let xs = loaded quads in
    let found = members quads xs (λ q m. ground (arith, mem-loaded q quads)) in
    step _ _ (load_lem quads 0 []) (
      step _ _ (begin_read_lem _ xs) (
        step _ _ (contains_each_lem quads xs _ _ found) (
          step _ _ (all_quads_lem (reader _ xs) _) (
            holds _ _ _ (loaded-set quads) (
              step _ _ (rollback_lem _ xs _) (
                step _ _ (quad_count_lem _) (
                  holds_last _ _ _
                    (rw (loaded-length quads) (==_refl (length (to_set quads)))))))))))

insert_new_lem :
    (qs seen : List Quad) (v : ℕ) (xs : List Quad) (s : MemStore)
    → ((q : Quad) → mem q seen ≡ mem q xs)
    → insert_new qs seen (writer v xs) s ≡ ok (writer v (set_extend qs xs), s)
unfolding insert_new set_extend
insert_new_lem [] seen v xs s h = refl
insert_new_lem (q ∷ qs) seen v xs s h = runs _ _ (insert_lem v xs q s) (
    runs _ _ (assert_lem _ _ s (rw (h q) (==_refl (not (mem q xs))))) (
      insert_new_lem qs (set_insert q seen) v (set_insert q xs) s
        (λ a. ground (arith, mem-set_insert a q seen, mem-set_insert a q xs, h a))))

insert_again_lem :
    (qs : List Quad) (v : ℕ) (xs : List Quad) (s : MemStore)
    → All (λ q. mem q xs ≡ true) qs
    → insert_again qs (writer v xs) s ≡ ok (writer v xs, s)
unfolding insert_again
insert_again_lem [] v xs s h = refl
insert_again_lem (q ∷ qs) v xs s h = runs _ _ (insert_lem v xs q s) (
    runs _ _ (assert_lem _ _ s (rw h.0 refl))
      (rw (set_insert_present q xs h.0) (insert_again_lem qs v xs s h.1)))

-- It passes the check that a second insertion changes nothing.
pub idempotent_insert-Passes : (quads : List Quad) → Passes (idempotent_insert quads)
unfolding idempotent_insert
idempotent_insert-Passes quads =
    let xs = loaded quads in
    let found = members quads xs (λ q m. ground (arith, mem-loaded q quads)) in
    step _ _ (begin_write_lem 0 []) (
      step _ _ (insert_new_lem quads [] 0 [] _ (λ q. refl)) (
        step _ _ (commit_lem 0 [] xs) (
          step _ _ (committed_lem _ xs) (
            step _ _ (begin_write_lem _ xs) (
              step _ _ (insert_again_lem quads _ xs _ found) (
                step _ _ (commit_lem _ xs xs) (
                  step _ _ (committed_lem _ xs) (
                    holds _ _ _ (same_set_refl (to_set xs) (to_set-Distinct xs)) (
                      step _ _ (quad_count_lem _) (
                        holds_last _ _ _ (
                          rw (to_set_twice xs (loaded-Distinct quads))
                            (==_refl (length xs)))))))))))))

-- It passes the check of a pattern.
pub pattern-Passes : (quads : List Quad) (p : Pattern) → Passes (pattern quads p)
unfolding pattern
pattern-Passes quads p =
    let xs = loaded quads in
    let test : Quad → Bool = λ q. matches_pattern q p in
    let got = filter test xs in
    let once = to_set_twice got (filter-Distinct test xs (loaded-Distinct quads)) in
    let same =
      same_set_lem (to_set got) (to_set (filter test quads)) (to_set-Distinct got)
        (to_set-Distinct (filter test quads))
        (λ a. ground (
          arith,
          mem-to_set a got,
          mem-to_set a (filter test quads),
          mem-filter test a xs,
          mem-filter test a quads,
          mem-loaded a quads,
        )) in
    step _ _ (load_lem quads 0 []) (
      step _ _ (begin_read_lem _ xs) (
        step _ _ (pattern_lem (reader _ xs) p _)
          (holds _ _ _ (rw once (==_refl (length got))) (holds_last _ _ _ same))))

any_is_lem :
    (q : Quad) (xs : List Quad) (s : MemStore)
    → mem q xs ≡ true
    → any_is q (map ok xs) s ≡ ok (true, s)
unfolding any_is mem
any_is_lem q [] s h = cc
any_is_lem q (x ∷ xs) s h = elim (==_cases x q) [
  | inl (t, same) ↦ runs _ _ {a = x} {s' = s} refl (rw t refl)
  | inr (t, other) ↦
      runs _ _ {a = x} {s' = s} refl (rw t (any_is_lem q xs s (ground (arith, ==_cases q x))))
]

none_or-then_some : {A : Type 0} ⦃e : Eq A⦄ (b : Bool) (a : A) → none_or a (then_some b a) ≡ true
none_or-then_some true a = ==_refl a
none_or-then_some false a = refl

-- A pattern made from a quad matches the quad.
matches-masked :
    (q : Quad) (mask : Bool × Bool × Bool × Bool) → matches_pattern q (masked q mask) ≡ true
unfolding matches_pattern
matches-masked q (a, b, c, d) =
    rw
      (
        none_or-then_some a q.subject,
        none_or-then_some b q.predicate,
        none_or-then_some c q.object,
        none_or-then_some d q.graph,
      )
      refl

-- It passes the check that a pattern made from a loaded quad finds it.
pub pattern_from_member-Passes :
    (quads : List Quad) (q : Quad) (mask : Bool × Bool × Bool × Bool)
    → mem q quads ≡ true
    → Passes (pattern_from_member quads q mask)
unfolding pattern_from_member MemStore.quads_for_pattern
pattern_from_member-Passes quads q mask h =
    let xs = loaded quads in
    let test : Quad → Bool = λ x. matches_pattern x (masked q mask) in
    let found : mem q (filter test xs) ≡ true =
      ground (arith, mem-filter test q xs, mem-loaded q quads, matches-masked q mask) in
    step _ _ (load_lem quads 0 []) (
      step _ _ (begin_read_lem _ xs) (
        step _ _ (any_is_lem q (filter test xs) _ found)
          (holds_last true "pattern from member did not find the quad" _ refl)))
