-- ===== src/Context/Session/Order.antt =====
-- The order in which a policy picks its victims.
use semanticore.Prelude.{
  ℕ, ◌≤◌, ◌≡◌, ◌∙◌, true, false, some, All, All-filter, All-sort_by, Pairs, arith, leb, filter, mem,
  nat_eq, ==_iff, IsSorted-entries, sort_by-Ordered,
}
use semanticore.Prelude.OrdMap
use semanticore.Prelude.OrdMap.{OrdMap, IsSorted}
use semanticore.Storage.{Storage}
use semanticore.Context.Scope.{ContextScope, ItemId, scope_eq}
use semanticore.Context.Platform.{Platform, FloatOrder}
use semanticore.Context.Config.{EvictionPolicy}
use semanticore.Context.Session.State.{Entry, weight_at}
use semanticore.Context.Session.Moves.{in_scope, evict_le, candidates, pick_victims}
use semanticore.Context.Session.Firsts.{keys, mem-sort_by, mem-keys-filter, take-first}

leb-total : (a b : ℕ) → leb a b ≡ false → leb b a ≡ true
leb-total a b h = ground arith

leb_trans : (a b c : ℕ) → leb a b ≡ true → leb b c ≡ true → leb a c ≡ true
leb_trans a b c h k = ground arith

module _ ⦃p : Platform⦄ ⦃st : Storage⦄ where
  evict_le-total :
      (o : FloatOrder p) (policy : EvictionPolicy) (t : ℕ) (a b : ItemId × Entry)
      → evict_le policy t a b ≡ false
      → evict_le policy t b a ≡ true
  evict_le-total o EvictionPolicy.lru t a b = leb-total a.1.last_touch b.1.last_touch
  evict_le-total o EvictionPolicy.lfu t a b = leb-total a.1.accesses b.1.accesses
  evict_le-total o (EvictionPolicy.recency_weighted half_life) t a b =
      o.total (weight_at a.1 t half_life) (weight_at b.1 t half_life)

  evict_le_trans :
      (o : FloatOrder p) (policy : EvictionPolicy) (t : ℕ) (a b c : ItemId × Entry)
      → evict_le policy t a b ≡ true
      → evict_le policy t b c ≡ true
      → evict_le policy t a c ≡ true
  evict_le_trans o EvictionPolicy.lru t a b c =
      leb_trans a.1.last_touch b.1.last_touch c.1.last_touch
  evict_le_trans o EvictionPolicy.lfu t a b c = leb_trans a.1.accesses b.1.accesses c.1.accesses
  evict_le_trans o (EvictionPolicy.recency_weighted half_life) t a b c =
      o.trans (weight_at a.1 t half_life) (weight_at b.1 t half_life) (weight_at c.1 t half_life)

  -- the candidates are in the order of the comparison
  candidates-Ordered :
      (o : FloatOrder p) (policy : EvictionPolicy) (items : OrdMap Entry) (scope : ContextScope)
      (t : ℕ)
      → Pairs (λ a b. evict_le policy t a b ≡ true) (candidates policy items scope t)
  candidates-Ordered o policy items scope t =
      sort_by-Ordered (evict_le policy t) (evict_le-total o policy t) (evict_le_trans o policy t)
        (filter (in_scope scope) items)

  -- What a policy asks of a victim and an item that stays: not accessed later, not accessed more
  -- often, or no heavier at the time.
  abbrev pub Precedes : EvictionPolicy → ℕ → Entry → Entry → Type 0
  Precedes EvictionPolicy.lru t a b = a.last_touch ≤ b.last_touch
  Precedes EvictionPolicy.lfu t a b = a.accesses ≤ b.accesses
  Precedes (EvictionPolicy.recency_weighted half_life) t a b =
      p.total_le (weight_at a t half_life) (weight_at b t half_life) ≡ true

  evict_le-Precedes :
      (policy : EvictionPolicy) (t : ℕ) (a b : ItemId × Entry)
      → evict_le policy t a b ≡ true
      → Precedes policy t a.1 b.1
  evict_le-Precedes EvictionPolicy.lru t a b h = ground arith
  evict_le-Precedes EvictionPolicy.lfu t a b h = ground arith
  evict_le-Precedes (EvictionPolicy.recency_weighted half_life) t a b h = h

  candidates-entries :
      (policy : EvictionPolicy) (items : OrdMap Entry) (scope : ContextScope) (t : ℕ)
      → IsSorted items
      → All (λ e. OrdMap.get e.0 items ≡ some e.1) (candidates policy items scope t)
  candidates-entries policy items scope t sorted =
      let P : ItemId × Entry → Type 0 = λ e. OrdMap.get e.0 items ≡ some e.1 in
      All-sort_by (evict_le policy t) P (filter (in_scope scope) items)
        (All-filter P P (in_scope scope) (λ a _ h. h) items (IsSorted-entries items sorted))

  -- Of two live items, the second of the scope, of which only the first is picked as a victim, the
  -- first has not been accessed later (least recently used), has not been accessed more often (least
  -- frequently used) or has no greater decayed weight, if `total_cmp` is a total order and the index
  -- is in the order of its keys.
  pub pick_victims-Precedes :
      (o : FloatOrder p) (policy : EvictionPolicy) (items : OrdMap Entry) (scope : ContextScope)
      (n t : ℕ) (id j : ItemId) (e f : Entry)
      → IsSorted items
      → OrdMap.get id items ≡ some e
      → OrdMap.get j items ≡ some f
      → f.scope ≡ scope
      → mem id (pick_victims policy items scope n t) ≡ true
      → mem j (pick_victims policy items scope n t) ≡ false
      → Precedes policy t e f
  pick_victims-Precedes o policy items scope n t id j e f sorted g g' same picked other =
      let found = filter (in_scope scope) items in
      let there : mem j (keys found) ≡ true =
        mem-keys-filter (in_scope scope) j f items g' ((==_iff f.scope scope).1 same) in
      let sorted_there = mem-sort_by (evict_le policy t) j found ∙ there in
      evict_le-Precedes policy t (id, e) (j, f)
        (take-first (λ a b. evict_le policy t a b ≡ true) items id j e f n
          (candidates policy items scope t) g g' (candidates-Ordered o policy items scope t)
          (candidates-entries policy items scope t sorted) picked sorted_there other)
