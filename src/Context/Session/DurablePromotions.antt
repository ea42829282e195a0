-- ===== src/Context/Session/DurablePromotions.antt =====
-- Auto-promotion keeps the invariant of `Durable`.
use semanticore.Prelude.{
  ℕ, ◌≡◌, ◌≢◌, sym, ◌∙◌, inl, inr, true, List, [], ◌∷◌, Option-cases, nat_eq, ==_cases, arith, All,
  All-map, Pairs, length, ◌+◌,
}
use semanticore.Prelude.OrdMap
use semanticore.Storage.{Storage}
use semanticore.Storage.Contract.{View, Contract}
use semanticore.Context.Scope.{ContextScope, ItemId, scope_eq}
use semanticore.Context.Platform.{Platform}
use semanticore.Context.Config.{PromotionConfig}
use semanticore.Context.Session.State.{
  Entry, Arrival, Session, Action, modify_stats, count_promoted, pure, for_each, ◌>>=◌, ◌>>◌,
}
use semanticore.Context.Session.Moves.{
  in_scope, move_item, to_enduring, to_major, ids_where, enforce_after, promote_found, auto_promote,
}
use semanticore.Context.Session.Ends.{move_item_missing}
use semanticore.Context.Session.Durable.{IsStored}
use semanticore.Context.Session.DurableMoves.{stats-IsStored}
use semanticore.Context.Session.DurableEvictions.{
  ItemIn, Differ, ItemIn-move_item, move_away-IsStored,
}
use semanticore.Context.Session.DurableBounds.{moves-IsStored, enforce_bounds-IsStored}
use semanticore.Context.Session.Picked.{ids_where-ItemIn, ids_where-Differ}
use semanticore.Context.Session.Rules.{Keeps, >>=_ends, >>=-Keeps, for_each_ends}

module _ ⦃p : Platform⦄ ⦃st : Storage⦄ where
  -- Moving an item of one scope keeps the place of the items of another.
  ItemIn-apart :
      (a b to : ContextScope) (arrival : Arrival) (id j : ItemId) (s : Session)
      → a ≢ b
      → ItemIn a id s
      → ItemIn b j s
      → ItemIn b j (move_item id to arrival s).1
  ItemIn-apart a b to arrival id j s n ha hb = elim (==_cases j id) [
    | inr (t, _) ↦ ItemIn-move_item b id j to arrival s t hb
    | inl (_, same) ↦ elim (Option-cases (OrdMap.get id s.state.items)) [
      | inl g ↦ rw (move_item_missing id to arrival s g) hb
      | inr (e, g) ↦
          let ea : e.scope ≡ a = rw g at ha in
          let eb : e.scope ≡ b = rw g at (rw same at hb) in absurd (n (sym ea ∙ eb))
    ]
  ]

  All-apart :
      (a b to : ContextScope) (arrival : Arrival) (id : ItemId) (js : List ItemId) (s : Session)
      → a ≢ b
      → ItemIn a id s
      → All (λ j. ItemIn b j s) js
      → All (λ j. ItemIn b j (move_item id to arrival s).1) js
  All-apart a b to arrival id js s n ha =
      All-map (λ j. ItemIn b j s) (λ j. ItemIn b j (move_item id to arrival s).1)
        (λ j hb. ItemIn-apart a b to arrival id j s n ha hb) js

-- the tests of the two promotions imply the scope that they promote from
to_enduring-major :
    ⦃p : Platform⦄ ⦃st : Storage⦄ (cfg : PromotionConfig) (items : OrdMap.OrdMap Entry)
    (e : ItemId × Entry)
    → to_enduring cfg items e ≡ true
    → in_scope ContextScope.major e ≡ true
unfolding to_enduring
to_enduring-major cfg items e h = ground arith

to_major-minor :
    ⦃p : Platform⦄ ⦃st : Storage⦄ (cfg : PromotionConfig) (t : ℕ) (e : ItemId × Entry)
    → to_major cfg t e ≡ true
    → in_scope ContextScope.minor e ≡ true
unfolding to_major
to_major-minor cfg t e h = ground arith

module _ ⦃p : Platform⦄ ⦃st : Storage⦄ (v : View st) (c : Contract st v) where
  -- The first loop keeps the invariant and the place of the items of the second.
  first_loop :
      (ids majors : List ItemId) (s : Session)
      → All (λ id. ItemIn ContextScope.major id s) ids
      → Pairs Differ ids
      → All (λ id. ItemIn ContextScope.minor id s) majors
      → IsStored v s
      → let s' = (for_each ids (λ id. move_item id ContextScope.enduring Arrival.promoted) s).1 in
        IsStored v s' × All (λ id. ItemIn ContextScope.minor id s') majors
  first_loop ids majors s l d m h =
      for_each_ends (λ id. move_item id ContextScope.enduring Arrival.promoted)
        (λ s'. IsStored v s' × All (λ id. ItemIn ContextScope.minor id s') majors)
        (ItemIn ContextScope.major) Differ
        (λ id s' h' l'. (
          move_away-IsStored v c ContextScope.major ContextScope.enduring Arrival.promoted id s'
              (λ x. cc) l' h'.0,
          All-apart ContextScope.major ContextScope.minor ContextScope.enduring Arrival.promoted id
              majors s' (λ x. cc) l' h'.1,
        ))
        (λ id j s' _ _ r l'.
          ItemIn-move_item ContextScope.major id j ContextScope.enduring Arrival.promoted s' r l')
        ids s (h, m) l d

  enforce_after-IsStored :
      (ids majors : List ItemId) → Keeps (IsStored v) (enforce_after ids majors)
  enforce_after-IsStored (id ∷ ids) majors = enforce_bounds-IsStored v c ContextScope.enduring
  enforce_after-IsStored [] (id ∷ majors) = enforce_bounds-IsStored v c ContextScope.major
  enforce_after-IsStored [] [] = λ s h. h

  rest_of_promotion : List ItemId → List ItemId → Action ℕ
  rest_of_promotion ids majors = do
    modify_stats (count_promoted (length ids + length majors))
    enforce_after ids majors
    pure (length ids + length majors)

  rest_of_promotion-IsStored :
      (ids majors : List ItemId) → Keeps (IsStored v) (rest_of_promotion ids majors)
  unfolding rest_of_promotion
  rest_of_promotion-IsStored ids majors =
      >>=-Keeps (IsStored v) (modify_stats (count_promoted (length ids + length majors)))
        (λ _. enforce_after ids majors >> pure (length ids + length majors))
        (stats-IsStored v (count_promoted (length ids + length majors)))
        (λ _.
          >>=-Keeps (IsStored v) (enforce_after ids majors) (λ _. pure (length ids + length majors))
            (enforce_after-IsStored ids majors) (λ _ s h. h))

  promote_found-IsStored :
      (ids majors : List ItemId) (s : Session)
      → All (λ id. ItemIn ContextScope.major id s) ids
      → Pairs Differ ids
      → All (λ id. ItemIn ContextScope.minor id s) majors
      → Pairs Differ majors
      → IsStored v s
      → IsStored v (promote_found ids majors s).1
  unfolding promote_found rest_of_promotion
  promote_found-IsStored ids majors s l d m e h =
      let first = λ (id : ItemId). move_item id ContextScope.enduring Arrival.promoted in
      let second = λ (id : ItemId). move_item id ContextScope.major Arrival.promoted in
      let (h1, m1) = first_loop ids majors s l d m h in
      let s1 = (for_each ids first s).1 in
      >>=_ends (IsStored v) (for_each ids first)
        (λ _. for_each majors second >> rest_of_promotion ids majors) s h1
        (λ _ _ _.
          >>=_ends (IsStored v) (for_each majors second) (λ _. rest_of_promotion ids majors) s1
            (moves-IsStored v c ContextScope.minor ContextScope.major Arrival.promoted majors s1
              (λ x. cc) m1 e h1)
            (λ _ _ h2. rest_of_promotion-IsStored ids majors (for_each majors second s1).1 h2))

  -- Auto-promotion keeps the invariant.
  pub auto_promote-IsStored : (t : ℕ) → Keeps (IsStored v) (auto_promote t)
  unfolding auto_promote ◌>>=◌
  auto_promote-IsStored t s h =
      let cfg = s.settings.promotion in
      let items = s.state.items in
      promote_found-IsStored (ids_where (to_enduring cfg items) items)
        (ids_where (to_major cfg t) items) s
        (ids_where-ItemIn ContextScope.major (to_enduring cfg items) s (to_enduring-major cfg items)
          h.sorted)
        (ids_where-Differ (to_enduring cfg items) items h.sorted)
        (ids_where-ItemIn ContextScope.minor (to_major cfg t) s (to_major-minor cfg t) h.sorted)
        (ids_where-Differ (to_major cfg t) items h.sorted) h
