-- ===== src/Context/Session/Fresh.antt =====
-- The ids that `Session` in crates/semanticore-context/src/session.rs assigns, over a run of its calls.
use semanticore.Prelude.{
  ℕ, zero, suc, ◌+◌, ◌-◌, ◌<◌, ◌≤◌, ◌≡◌, refl, nat_eq, none, List, [], ◌∷◌, length, u64_add,
  u64_limit, u64_add_fits, arith,
}
use semanticore.Prelude.OrdMap
use semanticore.Prelude.OrdMap.{OrdMap, get-insert, get-adjust, get-remove_absent}
use semanticore.Storage.{Storage}
use semanticore.Context.Scope.{ContextScope, ItemId}
use semanticore.Context.Platform.{Platform}
use semanticore.Context.Item.{ContextItem}
use semanticore.Context.Session.State.{Entry, Session, Arrival, new_entry}
use semanticore.Context.Session.Operations.{index_added, range, range_from, zip}
use semanticore.Context.Session.History.{Call, perform, run}
use semanticore.Context.Session.Quiet.{IsQuiet}
use semanticore.Context.Session.Takes.{Takes, perform-Holds}

module _ ⦃p : Platform⦄ where
  -- how many ids a call can assign
  unfoldable pub assigned : Call → ℕ
  assigned (Call.add scope item) = 1
  assigned (Call.add_batch scope items) = length items
  assigned _ = 0

  unfoldable pub assigned_by : List Call → ℕ
  assigned_by [] = 0
  assigned_by (call ∷ calls) = assigned call + assigned_by calls

module _ ⦃p : Platform⦄ ⦃st : Storage⦄ where
  -- Nothing is live at `j`, and the next id has grown from `n` by `k` at most.
  abbrev Absent : ItemId → ℕ → ℕ → OrdMap Entry → ℕ → Type 0
  Absent j n k items next = (OrdMap.get j items ≡ none) × (n ≤ next) × (next ≤ n + k)

  -- Nothing is live at the next id or above it, and the next id is `n + k` at most.
  abbrev Unused : ℕ → OrdMap Entry → ℕ → Type 0
  Unused n items next = ((j : ItemId) → next ≤ j → OrdMap.get j items ≡ none) × (next ≤ n)

  get-adjust_absent :
      (j id : ItemId) (f : Entry → Entry) (items : OrdMap Entry)
      → OrdMap.get j items ≡ none
      → OrdMap.get j (OrdMap.adjust id f items) ≡ none
  unfolding OrdMap.get OrdMap.adjust
  get-adjust_absent j id f [] h = refl
  get-adjust_absent j id f (e ∷ items) h = ground (arith, get-adjust_absent j id f items)

  Absent-IsQuiet : (j : ItemId) (n k : ℕ) → IsQuiet (Absent j n k)
  Absent-IsQuiet j n k = record {
    adjusts = λ id f items next h. (get-adjust_absent j id f items h.0, h.1, h.2);
    removes = λ id items next h. (get-remove_absent j id items h.0, h.1, h.2);
  }

  Unused-IsQuiet : (n : ℕ) → IsQuiet (Unused n)
  Unused-IsQuiet n = record {
    adjusts = λ id f items next h. (λ j le. get-adjust_absent j id f items (h.0 j le), h.1);
    removes = λ id items next h. (λ j le. get-remove_absent j id items (h.0 j le), h.1);
  }

  -- The index takes the items of a batch at the ids `first..first + n` only.
  index_added_absent :
      (j : ItemId) (scope : ContextScope) (t first n : ℕ) (items : List ContextItem)
      (m : OrdMap Entry)
      → (first ≤ j → first + n ≤ j)
      → OrdMap.get j m ≡ none
      → OrdMap.get j (index_added scope t (zip (range_from first n) items) m) ≡ none
  unfolding index_added zip range_from
  index_added_absent j scope t first zero items m out h = h
  index_added_absent j scope t first (suc n) [] m out h = h
  index_added_absent j scope t first (suc n) (item ∷ items) m out h =
      let e = new_entry item scope Arrival.added t in
      index_added_absent j scope t (first + 1) n items (OrdMap.insert first e m)
        (λ le. let b = out (omega arith) in omega arith) (ground (arith, get-insert j first e m))

  absent_taken :
      (call : Call) (s : Session) (j : ItemId)
      → j < s.state.next_id
      → s.state.next_id + assigned call < u64_limit
      → OrdMap.get j s.state.items ≡ none
      → Takes
          (Absent j s.state.next_id (assigned call))
          (Absent-IsQuiet j s.state.next_id (assigned call))
          call
          s
  unfolding assigned range
  absent_taken (Call.add scope item) s j lt fits h = λ t.
      let sum = u64_add_fits s.state.next_id 1 fits in
      (
        index_added_absent j scope t s.state.next_id (u64_add s.state.next_id 1 - s.state.next_id)
            (item ∷ []) s.state.items (λ le. absurd (omega arith)) h,
        omega arith,
        omega arith,
      )
  absent_taken (Call.add_batch scope items) s j lt fits h = λ t.
      let sum = u64_add_fits s.state.next_id (length items) fits in
      (
        index_added_absent j scope t s.state.next_id
            (u64_add s.state.next_id (length items) - s.state.next_id) items s.state.items
            (λ le. absurd (omega arith)) h,
        omega arith,
        omega arith,
      )
  absent_taken (Call.remove _ _) s j lt fits h = tt
  absent_taken (Call.query _) s j lt fits h = tt
  absent_taken (Call.snapshot _) s j lt fits h = tt
  absent_taken (Call.promote _ _ _) s j lt fits h = tt
  absent_taken (Call.evict _ _) s j lt fits h = tt
  absent_taken (Call.reason _) s j lt fits h = tt
  absent_taken (Call.evaluate_datalog _) s j lt fits h = tt
  absent_taken (Call.validate_shapes _ _) s j lt fits h = tt

  -- An id below the next one that is not live is not live after any run of calls, whatever the calls
  -- return, if the run cannot assign ids up to the limit of u64: no id that was assigned and has been
  -- removed or evicted comes back.
  pub never_reused :
      (calls : List Call) (s : Session) (j : ItemId)
      → j < s.state.next_id
      → s.state.next_id + assigned_by calls < u64_limit
      → OrdMap.get j s.state.items ≡ none
      → OrdMap.get j (run calls s).state.items ≡ none
  unfolding run assigned_by
  never_reused [] s j lt fits h = h
  never_reused (call ∷ calls) s j lt fits h =
      let n = s.state.next_id in
      let (h', low, high) =
        perform-Holds (Absent j n (assigned call)) (Absent-IsQuiet j n (assigned call)) call s
          (absent_taken call s j lt (omega arith) h) (h, omega arith, omega arith) in
      never_reused calls (perform call s) j (omega arith) (omega arith) h'

  unused_taken :
      (call : Call) (s : Session)
      → s.state.next_id + assigned call < u64_limit
      → ((j : ItemId) → s.state.next_id ≤ j → OrdMap.get j s.state.items ≡ none)
      → Takes
          (Unused (s.state.next_id + assigned call))
          (Unused-IsQuiet (s.state.next_id + assigned call))
          call
          s
  unfolding assigned range
  unused_taken (Call.add scope item) s fits h = λ t.
      let sum = u64_add_fits s.state.next_id 1 fits in
      (
        λ j le.
            index_added_absent j scope t s.state.next_id
              (u64_add s.state.next_id 1 - s.state.next_id) (item ∷ []) s.state.items
              (λ _. omega arith) (h j (omega arith)),
        omega arith,
      )
  unused_taken (Call.add_batch scope items) s fits h = λ t.
      let sum = u64_add_fits s.state.next_id (length items) fits in
      (
        λ j le.
            index_added_absent j scope t s.state.next_id
              (u64_add s.state.next_id (length items) - s.state.next_id) items s.state.items
              (λ _. omega arith) (h j (omega arith)),
        omega arith,
      )
  unused_taken (Call.remove _ _) s fits h = tt
  unused_taken (Call.query _) s fits h = tt
  unused_taken (Call.snapshot _) s fits h = tt
  unused_taken (Call.promote _ _ _) s fits h = tt
  unused_taken (Call.evict _ _) s fits h = tt
  unused_taken (Call.reason _) s fits h = tt
  unused_taken (Call.evaluate_datalog _) s fits h = tt
  unused_taken (Call.validate_shapes _ _) s fits h = tt

  -- If no id from the next one on is live, that is so after any run of calls, whatever the calls
  -- return, if the run cannot assign ids up to the limit of u64: what the next addition assigns is new.
  pub next_is_new :
      (calls : List Call) (s : Session)
      → s.state.next_id + assigned_by calls < u64_limit
      → ((j : ItemId) → s.state.next_id ≤ j → OrdMap.get j s.state.items ≡ none)
      → (j : ItemId) → (run calls s).state.next_id ≤ j
      → OrdMap.get j (run calls s).state.items ≡ none
  unfolding run assigned_by
  next_is_new [] s fits h = h
  next_is_new (call ∷ calls) s fits h =
      let n = s.state.next_id + assigned call in
      let (h', high) =
        perform-Holds (Unused n) (Unused-IsQuiet n) call s (unused_taken call s (omega arith) h)
          (h, omega arith) in
      next_is_new calls (perform call s) (omega arith) h'
