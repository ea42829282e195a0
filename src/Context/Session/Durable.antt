-- ===== src/Context/Session/Durable.antt =====
-- The invariant between the index of a session and its stores: every live item is whole in the store
-- of its scope. Moves and deletions keep it, also where they fail half way.
use semanticore.Prelude.{
  ◌<◌, ◌≡◌, ◌≢◌, ◌∙◌, Bool, true, false, Option, none, some, List, ok, err, ◌==◌, nat_eq, arith,
  mem, u64_limit, if◌then◌else◌,
}
use semanticore.Prelude.OrdMap
use semanticore.Prelude.OrdMap.{OrdMap, IsSorted}
use semanticore.Model.{Quad, quad_eq}
use semanticore.Storage.{Storage}
use semanticore.Storage.Contract.{View, Contract}
use semanticore.Context.Scope.{ContextScope, ItemId, scope_eq}
use semanticore.Context.Platform.{Platform}
use semanticore.Context.Item.{ContextItem}
use semanticore.Context.Error.{SessionError}
use semanticore.Context.Config.{Tiers, tier, set_tier}
use semanticore.Context.Record.{encode}
use semanticore.Context.Record.Owners.{belongs, belongs-encode}
use semanticore.Context.Session.State.{Entry, Session}
use semanticore.Context.Session.Stored.{with_write, insert_all, delete}
use semanticore.Context.Session.Ends.{after_insert, after_delete}
use semanticore.Context.Session.Effects.{insert_all_holds, delete_holds}

pub tier-set_tier :
    {S : Type 0} (t : Tiers S) (a b : ContextScope) (x : S)
    → tier (set_tier t a x) b ≡ (if b == a then x else tier t b)
tier-set_tier t ContextScope.minor ContextScope.minor x = ground arith
tier-set_tier t ContextScope.minor ContextScope.major x = ground arith
tier-set_tier t ContextScope.minor ContextScope.enduring x = ground arith
tier-set_tier t ContextScope.major ContextScope.minor x = ground arith
tier-set_tier t ContextScope.major ContextScope.major x = ground arith
tier-set_tier t ContextScope.major ContextScope.enduring x = ground arith
tier-set_tier t ContextScope.enduring ContextScope.minor x = ground arith
tier-set_tier t ContextScope.enduring ContextScope.major x = ground arith
tier-set_tier t ContextScope.enduring ContextScope.enduring x = ground arith

-- what an id that is in use may be
abbrev pub Fits {ℓ} : {V : Type ℓ} → ItemId → Option V → Type 0
Fits id none = Unit
Fits id (some _) = id < u64_limit

module _ ⦃p : Platform⦄ ⦃st : Storage⦄ (v : View st) where
  -- whether the scope's store holds the quad
  abbrev pub holds_in : Session → ContextScope → Quad → Bool
  holds_in s scope q = v.holds (tier s.stores scope) q

  -- every quad of the item is in the scope's store
  abbrev pub Whole : Session → ContextScope → ItemId → ContextItem → Type 0
  Whole s scope id item = (q : Quad) → mem q (encode id item) ≡ true → holds_in s scope q ≡ true

  abbrev pub WholeEntry : Session → ItemId → Option Entry → Type 0
  WholeEntry s id none = Unit
  WholeEntry s id (some e) = Whole s e.scope id e.item

  -- Every live item but `id` is whole where the index says that it is.
  pub record IsStoredBut (id : Option ItemId) (s : Session) : Type 0 where
    pub sorted : IsSorted s.state.items
    pub fits : (j : ItemId) → Fits j (OrdMap.get j s.state.items)
    pub whole : (j : ItemId) → id ≢ some j → WholeEntry s j (OrdMap.get j s.state.items)

  abbrev pub IsStored : Session → Type 0
  IsStored = IsStoredBut none

  -- An entry stays whole from one session to another that holds what it needs.
  pub WholeEntry-map :
      (s s' : Session) (j : ItemId) (o : Option Entry)
      → Fits j o
      → ((scope : ContextScope) (item : ContextItem) (q : Quad)
          → j < u64_limit
          → mem q (encode j item) ≡ true
          → holds_in s scope q ≡ true
          → holds_in s' scope q ≡ true)
      → WholeEntry s j o
      → WholeEntry s' j o
  WholeEntry-map s s' j none fits keep w = tt
  WholeEntry-map s s' j (some e) fits keep w = λ q m. keep e.scope e.item q fits m (w q m)

module _ ⦃p : Platform⦄ ⦃st : Storage⦄ (v : View st) (c : Contract st v) where
  after_insert_holds :
      (scope : ContextScope) (qs : List Quad) (s : Session) (at : ContextScope) (q : Quad)
      → holds_in v s at q ≡ true
      → holds_in v (after_insert scope qs s) at q ≡ true
  after_insert_holds scope qs s at q h =
      let old = tier s.stores scope in
      ground (
        arith,
        tier-set_tier s.stores scope at (with_write old (insert_all qs)).1,
        insert_all_holds v c old qs q,
      )

  -- Writing to a store keeps what every store holds, so it keeps the invariant.
  pub after_insert-IsStoredBut :
      (scope : ContextScope) (qs : List Quad) (s : Session) (id : Option ItemId)
      → IsStoredBut v id s
      → IsStoredBut v id (after_insert scope qs s)
  after_insert-IsStoredBut scope qs s id h = record {
    sorted = h.sorted;
    fits = h.fits;
    whole = λ j n.
        WholeEntry-map v s (after_insert scope qs s) j (OrdMap.get j s.state.items) (h.fits j)
          (λ at item q _ _ held. after_insert_holds scope qs s at q held) (h.whole j n);
  }

  pub inserted_holds :
      (scope : ContextScope) (qs : List Quad) (s : Session) {u : Unit {0}}
      → (with_write (tier s.stores scope) (insert_all qs)).0 ≡ ok u
      → (q : Quad) → mem q qs ≡ true
      → holds_in v (after_insert scope qs s) scope q ≡ true
  inserted_holds scope qs s r q m =
      let old = tier s.stores scope in
      ground (
        arith,
        tier-set_tier s.stores scope scope (with_write old (insert_all qs)).1,
        insert_all_holds v c old qs q,
      )

  after_delete_holds :
      (scope : ContextScope) (id : ItemId) (s : Session) (at : ContextScope) (q : Quad)
      → belongs id q ≡ false
      → holds_in v s at q ≡ true
      → holds_in v (after_delete scope id s) at q ≡ true
  after_delete_holds scope id s at q b h =
      let old = tier s.stores scope in
      ground (arith, tier-set_tier s.stores scope at (delete old id).1, delete_holds v c old id q)

  not_other : (id j : ItemId) → some id ≢ some j → (id == j) ≡ false
  not_other id j n = ground arith

  -- Deleting an item's quads leaves every other item whole.
  pub after_delete-IsStoredBut :
      (scope : ContextScope) (id : ItemId) (s : Session)
      → id < u64_limit
      → IsStored v s
      → IsStoredBut v (some id) (after_delete scope id s)
  after_delete-IsStoredBut scope id s fits h = record {
    sorted = h.sorted;
    fits = h.fits;
    whole = λ j n.
        WholeEntry-map v s (after_delete scope id s) j (OrdMap.get j s.state.items) (h.fits j)
          (λ at item q jfits m held.
            after_delete_holds scope id s at q
              (belongs-encode id j fits jfits item q m ∙ not_other id j n) held)
          (h.whole j (λ x. cc));
  }

  pub deleted_elsewhere :
      (scope : ContextScope) (id : ItemId) (s : Session) (at : ContextScope)
      → at ≢ scope
      → (q : Quad) → holds_in v (after_delete scope id s) at q ≡ holds_in v s at q
  deleted_elsewhere scope id s at n q =
      ground (arith, tier-set_tier s.stores scope at (delete (tier s.stores scope) id).1)

  failed_delete_holds :
      (scope : ContextScope) (id : ItemId) (s : Session) {e : SessionError st.Error}
      → (delete (tier s.stores scope) id).0 ≡ err e
      → (at : ContextScope) (q : Quad)
      → holds_in v (after_delete scope id s) at q ≡ holds_in v s at q
  failed_delete_holds scope id s r at q =
      let old = tier s.stores scope in
      ground (arith, tier-set_tier s.stores scope at (delete old id).1, delete_holds v c old id q)

  -- A deletion that fails leaves every item whole.
  pub failed_delete-IsStored :
      (scope : ContextScope) (id : ItemId) (s : Session) {e : SessionError st.Error}
      → (delete (tier s.stores scope) id).0 ≡ err e
      → IsStored v s
      → IsStored v (after_delete scope id s)
  failed_delete-IsStored scope id s r h = record {
    sorted = h.sorted;
    fits = h.fits;
    whole = λ j n.
        WholeEntry-map v s (after_delete scope id s) j (OrdMap.get j s.state.items) (h.fits j)
          (λ at item q _ _ held. failed_delete_holds scope id s r at q ∙ held) (h.whole j n);
  }
