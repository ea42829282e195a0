-- ===== src/Suite/GraphPasses.antt =====
-- The checks of crates/semanticore-storage-testkit/src/contract.rs on named graphs and on open readers,
-- on the in-memory store.
use semanticore.Prelude.{
  ℕ, Bool, ◌≡◌, refl, true, false, List, [], ◌∷◌, ==_refl, ==_cases, ap, sym, ◌∙◌,
  string_le-antisym, string_le-total, string_le_trans, dedup-Distinct, sort_by-Ordered, mem-dedup,
  mem-sort_by, dedup, sort_by, nat_eq, bool_eq, arith, ok, mem, any, length, set_remove, Distinct,
  Distinct-length, set_remove-Distinct, Bool-cases, inl, inr,
}
use semanticore.Model.{NamedNode, Quad, named_node_eq, quad_eq, graph_eq}
use semanticore.MemStore
use semanticore.MemStore.Conflicts.{in_graph, mem-listed}
use semanticore.MemStore.{MemStore, MemTx, mem_storage, iri_le}
use semanticore.Suite.{reads, graphs_in, graphs_of, to_set}
use semanticore.Suite.Checks.{set_extend, without_first}
use semanticore.Suite.Sets.{to_set-Distinct, mem-to_set, to_set_twice, same_set_lem, same_set_refl}
use semanticore.Suite.Steps.{
  tested, Passes, runs, step, holds, holds_last, assert_lem, writer, reader, begin_read_lem,
  begin_write_lem, remove_lem, contains_lem, commit_lem, rollback_lem, all_quads_lem, committed_lem,
  insert_each_lem, set_without, load_lem, unload_lem, quad_count_lem,
}
use semanticore.Suite.Passes.{loaded, loaded-Distinct, mem-loaded}
use semanticore.Suite.WritePasses.{expected-same}
use semanticore.Suite.Graphs.{
  flagged, named_graphs, named_graphs_track_removals, reads_before, stays, remove_first,
  snapshot_reads, empty_store_is_empty,
}

any_of :
    (p : Quad → Bool) (q : Quad) (xs : List Quad) → mem q xs ≡ true → p q ≡ true → any p xs ≡ true
unfolding mem any
any_of p q [] m h = cc
any_of p q (x ∷ xs) m h = elim (==_cases q x) [
  | inl (t, same) ↦ ground (arith, ap p same)
  | inr (t, other) ↦ ground (arith, any_of p q xs)
]

any_more :
    (p : Quad → Bool) (xs ys : List Quad)
    → ((q : Quad) → mem q xs ≡ true → mem q ys ≡ true)
    → any p xs ≡ true
    → any p ys ≡ true
unfolding mem any
any_more p [] ys h a = cc
any_more p (x ∷ xs) ys h a = elim (Bool-cases (p x)) [
  | inl t ↦ any_of p x ys (h x (ground (arith, ==_refl x))) t
  | inr f ↦ any_more p xs ys (λ q m. h q (ground arith)) (ground arith)
]

-- A test holds of some element of lists with the same members, or of none.
any_same :
    (p : Quad → Bool) (xs ys : List Quad) → ((q : Quad) → mem q xs ≡ mem q ys) → any p xs ≡ any p ys
any_same p xs ys h = elim (Bool-cases (any p xs)) [
  | inl t ↦ t ∙ sym (any_more p xs ys (λ q m. sym (h q) ∙ m) t)
  | inr f ↦ elim (Bool-cases (any p ys)) [
    | inl t ↦ absurd (ground (arith, any_more p ys xs (λ q m. h q ∙ m) t))
    | inr f' ↦ f ∙ sym f'
  ]
]

mem-graphs_in : (g : NamedNode) (qs : List Quad) → mem g (graphs_in qs) ≡ any (in_graph g) qs
unfolding graphs_in mem any in_graph
mem-graphs_in g [] = refl
mem-graphs_in g (q ∷ qs) = ground (arith, mem-graphs_in g qs)

-- the named graphs of a store
abbrev listing : List Quad → List NamedNode
listing xs = dedup (sort_by iri_le (MemStore.graph_names xs))

iri_le-antisym : (a b : NamedNode) → iri_le a b ≡ true → iri_le b a ≡ true → a ≡ b
iri_le-antisym a b h k = ap (λ iri. record { iri = iri }) (string_le-antisym a.iri b.iri h k)

sorted-Distinct : (gs : List NamedNode) → Distinct (dedup (sort_by iri_le gs))
sorted-Distinct gs = dedup-Distinct iri_le iri_le-antisym (sort_by iri_le gs) (
    sort_by-Ordered iri_le (λ a b. string_le-total a.iri b.iri)
      (λ a b c. string_le_trans a.iri b.iri c.iri) gs)

named_graphs_lem : (s : MemStore) → reads MemStore.named_graphs s ≡ ok (listing s.quads, s)
unfolding MemStore.named_graphs
named_graphs_lem s = refl

-- The in-memory store passes the check of its named graphs.
pub named_graphs-Passes : (quads : List Quad) → Passes (named_graphs quads)
unfolding named_graphs
named_graphs-Passes quads =
    let xs = loaded quads in
    let got = listing xs in
    let same =
      same_set_lem (to_set got) (graphs_of quads) (to_set-Distinct got)
        (to_set-Distinct (graphs_in quads))
        (λ g.
          mem-to_set g got
          ∙ mem-listed g xs
          ∙ any_same (in_graph g) xs quads (λ q. mem-loaded q quads)
          ∙ sym (mem-graphs_in g quads)
          ∙ sym (mem-to_set g (graphs_in quads))) in
    step _ _ (load_lem quads 0 []) (
      step _ _ (named_graphs_lem _) (
        holds _ _ _
          (rw (to_set_twice got (sorted-Distinct (MemStore.graph_names xs))) (==_refl (length got)))
          (holds_last _ _ _ same)))

set_without-Distinct : (qs xs : List Quad) → Distinct xs → Distinct (set_without qs xs)
unfolding set_without
set_without-Distinct [] xs d = d
set_without-Distinct (q ∷ qs) xs d =
    set_without-Distinct qs (set_remove q xs) (set_remove-Distinct q xs d)

-- It passes the check that a graph that is emptied disappears.
pub named_graphs_track_removals-Passes :
    (quads : List Quad) (flags : List Bool) → Passes (named_graphs_track_removals quads flags)
unfolding named_graphs_track_removals
named_graphs_track_removals-Passes quads flags =
    let xs = loaded quads in
    let removed = flagged flags flags quads in
    let ys = set_without removed xs in
    let once = to_set_twice ys (set_without-Distinct removed xs (loaded-Distinct quads)) in
    let listed = listing ys in
    let got = dedup (sort_by iri_le listed) in
    let kept : (g : NamedNode) → mem g got ≡ mem g listed =
      λ g. mem-dedup g (sort_by iri_le listed) ∙ mem-sort_by iri_le g listed in
    let as_many =
      Distinct-length got listed (sorted-Distinct listed)
        (sorted-Distinct (MemStore.graph_names ys)) kept in
    let same =
      same_set_lem (to_set got) (graphs_of (to_set ys)) (to_set-Distinct got)
        (to_set-Distinct (graphs_in (to_set ys)))
        (λ g.
          mem-to_set g got
          ∙ kept g
          ∙ mem-listed g ys
          ∙ any_same (in_graph g) ys (to_set ys) (λ q. sym (mem-to_set q ys))
          ∙ sym (mem-graphs_in g (to_set ys))
          ∙ sym (mem-to_set g (graphs_in (to_set ys)))) in
    step _ _ (load_lem quads 0 []) (
      step _ _ (unload_lem removed _ xs) (
        step _ _ (committed_lem _ ys) (
          step _ _ (named_graphs_lem _) (
            holds _ _ _ (rw as_many (==_refl (length listed))) (
              holds _ _ _ same (
                step _ _ (quad_count_lem _) (holds_last _ _ _ (rw once (==_refl (length ys))))))))))

reads_before_lem :
    (qs xs : List Quad) (v : ℕ) (s : MemStore)
    → reads_before qs (to_set xs) (reader v xs) s ≡ ok (tt, s)
unfolding reads_before
reads_before_lem [] xs v s = refl
reads_before_lem (q ∷ qs) xs v s = runs _ _ (contains_lem v xs false q s) (
    runs _ _ (assert_lem _ _ s (rw (mem-to_set q xs) (==_refl (mem q xs))))
      (reads_before_lem qs xs v s))

stays_lem :
    (qs xs : List Quad) (v : ℕ) (s : MemStore) → stays qs (to_set xs) (reader v xs) s ≡ ok (tt, s)
unfolding stays
stays_lem qs xs v s = runs _ _ (all_quads_lem (reader v xs) s) (
    runs _ _ (assert_lem _ _ s (same_set_refl (to_set xs) (to_set-Distinct xs)))
      (reads_before_lem qs xs v s))

remove_first_lem :
    (base : List Quad) (v : ℕ) (xs : List Quad) (s : MemStore)
    → remove_first base (writer v xs) s ≡ ok (writer v (without_first base xs), s)
unfolding remove_first
remove_first_lem [] v xs s = refl
remove_first_lem (q ∷ _) v xs s = runs _ _ (remove_lem v xs q s) refl

-- It passes the check that an open reader keeps its snapshot.
pub snapshot_reads-Passes : (base quads : List Quad) → Passes (snapshot_reads base quads)
unfolding snapshot_reads
snapshot_reads-Passes base quads =
    let xs = loaded base in
    let zs = without_first base (set_extend quads xs) in
    step _ _ (load_lem base 0 []) (
      step _ _ (committed_lem _ xs) (
        step _ _ refl (
          step _ _ (begin_read_lem _ xs) (
            step _ _ (all_quads_lem (reader _ xs) _) (
              holds _ _ _ (same_set_refl (to_set xs) (to_set-Distinct xs)) (
                step _ _ (begin_write_lem _ xs) (
                  step _ _ (insert_each_lem quads _ xs _) (
                    step _ _ (remove_first_lem base _ (set_extend quads xs) _) (
                      step _ _ (commit_lem _ xs zs) (
                        step _ _ (committed_lem _ zs) (
                          step _ _ (stays_lem quads xs _ _) (
                            step _ _ (rollback_lem _ zs (reader _ xs))
                              (holds_last _ _ _ (expected-same base quads))))))))))))))

-- It passes the check that a fresh store is empty.
pub empty_store_is_empty-Passes : Passes empty_store_is_empty
unfolding empty_store_is_empty MemStore.graph_names sort_by dedup to_set length
empty_store_is_empty-Passes = step _ _ (quad_count_lem MemStore.new) (
    holds _ _ _ (==_refl {A = ℕ} 0) (
      step _ _ (named_graphs_lem MemStore.new) (
        holds _ _ _ (==_refl {A = ℕ} 0)
          (step _ _ (committed_lem 0 []) (holds_last _ _ _ (==_refl {A = ℕ} 0))))))
