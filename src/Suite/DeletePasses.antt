-- ===== src/Suite/DeletePasses.antt =====
-- The check of crates/semanticore-storage-testkit/src/contract.rs on a removal after an insertion, on
-- the in-memory store.
use semanticore.Prelude.{
  ℕ, Bool, ◌≡◌, refl, true, false, not, ◌&&◌, List, [], ◌∷◌, ◌==◌, ==_refl, ==_cases, nat_eq,
  bool_eq, arith, ok, mem, set_insert, set_remove, u64_add, Distinct, set_insert-Distinct,
  set_remove-Distinct, mem-set_insert, mem-set_remove, inl, inr, if◌then◌else◌,
}
use semanticore.Model.{Quad, quad_eq}
use semanticore.MemStore.{MemStore, MemTx}
use semanticore.Suite.{to_set, same_set, pure}
use semanticore.Suite.Checks.{set_extend, delete_committed, remove_absent, delete_after_insert}
use semanticore.Suite.Sets.{
  to_set-Distinct, mem-to_set, same_set_lem, set_extend-Distinct, mem-set_extend,
}
use semanticore.Suite.Steps.{
  tested, Passes, runs, step, holds, holds_last, assert_lem, store, writer, begin_write_lem,
  insert_lem, remove_lem, contains_lem, commit_lem, rollback_lem, committed_lem, load_lem,
}
use semanticore.Suite.Passes.{loaded, loaded-Distinct, mem-loaded}
use semanticore.Suite.WritePasses.{same_sets}

-- A store with the members of `xs`, whatever its version.
abbrev Like : List Quad → MemStore → Type 0
Like xs s = Distinct s.quads × ((a : Quad) → mem a s.quads ≡ mem a xs)

-- Inserting and then removing a quad takes it out.
mem-undone :
    (a extra : Quad) (xs : List Quad)
    → mem a (set_remove extra (set_insert extra xs)) ≡ (not (a == extra) && mem a xs)
mem-undone a extra xs =
    ground (arith, mem-set_remove a extra (set_insert extra xs), mem-set_insert a extra xs)

-- If the quad was not there, that changes nothing.
mem-undone_absent :
    (a extra : Quad) (xs : List Quad)
    → mem extra xs ≡ false
    → mem a (set_remove extra (set_insert extra xs)) ≡ mem a xs
mem-undone_absent a extra xs h = elim (==_cases a extra) [
  | inl (t, e) ↦ rw e (ground (arith, mem-undone extra extra xs, ==_refl extra))
  | inr (t, e) ↦ ground (arith, mem-undone a extra xs)
]

delete_committed_lem :
    (extra : Quad) (before : List Quad) (xs : List Quad) (s : MemStore)
    → same_set (to_set (set_remove extra (set_insert extra s.quads))) before ≡ true
    → mem extra s.quads ≡ false
    → Like xs s
    → (s' : MemStore) × (delete_committed extra before s ≡ ok (tt, s')) × Like xs s'
unfolding delete_committed set_extend
delete_committed_lem extra before xs s same absent like =
    let ys = set_insert extra s.quads in
    let zs = set_remove extra ys in
    (
      _,
      runs _ _ (load_lem (extra ∷ []) s.version s.quads) (
          runs _ _ (begin_write_lem _ ys) (
            runs _ _ (remove_lem _ ys extra _) (
              runs _ _
                (assert_lem _ _ _
                  (ground (arith, mem-set_insert extra extra s.quads, ==_refl extra)))
                (runs _ _ (commit_lem _ ys zs)
                  (runs _ _ (committed_lem _ zs) (assert_lem _ _ _ same)))))),
      (
        set_remove-Distinct extra ys (set_insert-Distinct extra s.quads like.0),
        λ a. ground (arith, mem-undone_absent a extra s.quads absent, like.1 a),
      ),
    )

-- the deletion across two commits, if the quad was not there
restore_lem :
    (was_present : Bool) (extra : Quad) (before xs : List Quad) (s : MemStore)
    → (was_present ≡ false → mem extra s.quads ≡ false)
    → (was_present ≡ false
        → same_set (to_set (set_remove extra (set_insert extra s.quads))) before ≡ true)
    → Like xs s
    → (s' : MemStore) × ((if was_present then pure tt else delete_committed extra before) s
        ≡ ok (tt, s'))
      × Like xs s'
restore_lem true extra before xs s absent same like = (s, refl, like)
restore_lem false extra before xs s absent same like =
    delete_committed_lem extra before xs s (same refl) (absent refl) like

-- the removal that changes nothing
absent_lem :
    (was_present : Bool) (extra : Quad) (v : ℕ) (xs : List Quad) (s : MemStore)
    → (was_present ≡ false → mem extra xs ≡ false)
    → (tx : MemTx) × ((if was_present
            then pure (writer v xs)
            else remove_absent extra (writer v xs))
          s
        ≡ ok (tx, s))
unfolding remove_absent
absent_lem true extra v xs s h = (writer v xs, refl)
absent_lem false extra v xs s h =
    (_, runs _ _ (remove_lem v xs extra s) (runs _ _ (assert_lem _ _ s (rw (h refl) refl)) refl))

-- The in-memory store passes the check that a removal undoes an insertion.
pub delete_after_insert-Passes :
    (base : List Quad) (extra : Quad) → Passes (delete_after_insert base extra)
unfolding delete_after_insert
delete_after_insert-Passes base extra =
    let xs = loaded base in
    let before = to_set xs in
    let ys = set_insert extra xs in
    let zs = set_remove extra ys in
    let ws = set_extend base zs in
    let back : (a : Quad) → mem a ws ≡ mem a xs =
      λ a. ground (arith, mem-set_extend a base zs, mem-undone a extra xs, mem-loaded a base) in
    let undone =
      same_set_lem (to_set zs) (set_remove extra before) (to_set-Distinct zs)
        (set_remove-Distinct extra before (to_set-Distinct xs))
        (λ a. ground (
          arith,
          mem-to_set a zs,
          mem-undone a extra xs,
          mem-set_remove a extra before,
          mem-to_set a xs,
        )) in
    let v = u64_add (u64_add (u64_add 0 1) 1) 1 in
    let like : Like xs (store v ws) = (
      set_extend-Distinct base zs
          (set_remove-Distinct extra ys (set_insert-Distinct extra xs (loaded-Distinct base))),
      back,
    ) in
    let (s', restored, like') =
      restore_lem (mem extra before) extra before xs (store v ws)
        (λ f. ground (arith, back extra, mem-to_set extra xs))
        (λ f. same_sets (set_remove extra (set_insert extra ws)) xs (λ a.
          ground (arith, mem-undone_absent a extra ws, back a, back extra, mem-to_set extra xs)))
        like in
    let (tx, removed) =
      absent_lem (mem extra before) extra s'.version s'.quads s'
        (λ f. ground (arith, like'.1 extra, mem-to_set extra xs)) in
    step _ _ (load_lem base 0 []) (
      step _ _ (committed_lem _ xs) (
        step _ _ (begin_write_lem _ xs) (
          step _ _ (insert_lem _ xs extra _) (
            holds _ _ _ (rw (mem-to_set extra xs) (==_refl (not (mem extra xs)))) (
              step _ _ (remove_lem _ ys extra _) (
                holds _ _ _ (ground (arith, mem-set_insert extra extra xs, ==_refl extra)) (
                  step _ _ (contains_lem _ zs true extra _) (
                    holds _ _ _ (ground (arith, mem-undone extra extra xs, ==_refl extra)) (
                      step _ _ (commit_lem _ xs zs) (
                        step _ _ (committed_lem _ zs) (
                          holds _ _ _ undone (
                            step _ _ (load_lem base _ zs) (
                              step _ _ (committed_lem _ ws) (
                                holds _ _ _ (same_sets ws xs back) (
                                  step _ _ restored (
                                    step _ _ (begin_write_lem s'.version s'.quads) (
                                      step _ _ removed (
                                        step _ _ (rollback_lem s'.version s'.quads tx) (
                                          step _ _ (committed_lem s'.version s'.quads) (
                                            holds_last _ _ _
                                              (same_sets s'.quads xs like'.1)))))))))))))))))))))
