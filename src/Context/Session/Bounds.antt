-- ===== src/Context/Session/Bounds.antt =====
-- Enforcing the bounds of a session reaches them.
use semanticore.Prelude.{
  ℕ, suc, ◌+◌, ◌-◌, ◌≤◌, ◌<◌, min, ◌≡◌, refl, ap, ◌∙◌, inl, inr, ◌⊎◌, Option, none, some, List, [],
  ◌∷◌, map, ok, Bool-cases, arith, length, take, filter, length-take, length-filter, length-sort_by,
  sort_by, ltb,
}
use semanticore.Prelude.OrdMap.{OrdMap}
use semanticore.Storage.{Storage}
use semanticore.Storage.Contract.{View, Contract}
use semanticore.Context.Scope.{ContextScope, rank, colder}
use semanticore.Context.Platform.{Platform}
use semanticore.Context.Config.{EvictionPolicy, bound_of}
use semanticore.Context.Session.State.{Entry, Session, now, ◌>>=◌, ◌>>◌}
use semanticore.Context.Session.Moves.{
  in_scope, population, evict_le, pick_victims, victims, evict_count, evict_over, enforce_bound,
  enforce_bounds,
}
use semanticore.Context.Session.Durable.{IsStored}
use semanticore.Context.Session.DurableBounds.{enforce_bound-IsStored}
use semanticore.Context.Session.Picked.{pick_victims-ItemIn, pick_victims-Differ}
use semanticore.Context.Session.OneEvicted.{Evicted}
use semanticore.Context.Session.Evicted.{evict_victims-Evicted}
use semanticore.Context.Session.Unmoved.{SameAbove, SameAbove-refl, SameAbove-trans}
use semanticore.Context.Session.Rules.{>>=_establishes}

-- no more than the bound, if there is one
abbrev pub AtMost : Option ℕ → ℕ → Type 0
AtMost none n = Unit
AtMost (some bound) n = n ≤ bound

length-map {ℓ κ} :
    {A : Type ℓ} {B : Type κ} (f : A → B) (xs : List A) → length (map f xs) ≡ length xs
length-map f [] = refl
length-map f (x ∷ xs) = ap suc (length-map f xs)

module _ ⦃p : Platform⦄ ⦃st : Storage⦄ where
  abbrev pub Within : ContextScope → Session → Type 0
  Within scope s = AtMost (bound_of s.settings.bounds scope) (population s.state.items scope)

  -- As many victims as asked for are picked, or as the scope has.
  pub pick_victims-length :
      (policy : EvictionPolicy) (items : OrdMap Entry) (scope : ContextScope) (n t : ℕ)
      → length (pick_victims policy items scope n t) ≡ min n (population items scope)
  pick_victims-length policy items scope n t =
      let found = filter (in_scope scope) items in
      let sorted = sort_by (evict_le policy t) found in
      length-map (λ e. e.0) (take n sorted)
      ∙ (length-take n sorted
          ∙ ap (min n)
              (length-sort_by (evict_le policy t) found ∙ length-filter (in_scope scope) items))

  -- The bounds of the scope and of the colder ones hold, and the entries of the more durable scopes,
  -- their number and the settings are the same.
  pub record Enforced (scope : ContextScope) (s s' : Session) : Type 0 where
    pub within : (a : ContextScope) → rank a ≤ rank scope → Within a s'
    pub above : SameAbove scope s s'
    pub hotter :
        (a : ContextScope)
        → rank scope < rank a
        → population s'.state.items a ≡ population s.state.items a
    pub settled : s'.settings ≡ s.settings

  -- one round of the loop
  record OneEnforced (scope : ContextScope) (s s' : Session) : Type 0 where
    within : Within scope s'
    above : SameAbove scope s s'
    hotter :
        (a : ContextScope)
        → rank scope < rank a
        → population s'.state.items a ≡ population s.state.items a
    settled : s'.settings ≡ s.settings

module _ ⦃p : Platform⦄ ⦃st : Storage⦄ (v : View st) (c : Contract st v) where
  evict_count-Evicted :
      (scope : ContextScope) (n : ℕ) (s : Session) {u : Unit {0}}
      → IsStored v s
      → (evict_count scope n s).0 ≡ ok u
      → let ids =
          pick_victims s.settings.eviction_policy s.state.items scope n (p.clock s.readings) in
        Evicted ids scope s (evict_count scope n s).1
  unfolding evict_count victims ◌>>=◌
  evict_count-Evicted scope n s h r =
      let t = p.clock s.readings in
      let policy = s.settings.eviction_policy in
      let ids = pick_victims policy s.state.items scope n t in
      let e =
        evict_victims-Evicted v c scope ids (now s).1
          (pick_victims-ItemIn policy scope n t (now s).1 h.sorted)
          (pick_victims-Differ policy scope n t s.state.items h.sorted)
          (record { sorted = h.sorted; fits = h.fits; whole = h.whole }) r in
      record {
        fewer = e.fewer;
        left = e.left;
        kept = e.kept;
        above = e.above;
        hotter = e.hotter;
        settled = e.settled;
      }

  evict_over-OneEnforced :
      (scope : ContextScope) (o : Option ℕ) (s : Session) {u : Unit {0}}
      → o ≡ bound_of s.settings.bounds scope
      → IsStored v s
      → (evict_over scope o (population s.state.items scope) s).0 ≡ ok u
      → OneEnforced scope s (evict_over scope o (population s.state.items scope) s).1
  unfolding evict_over
  evict_over-OneEnforced scope none s o h r = record {
    within = rw (← o) tt;
    above = SameAbove-refl scope s;
    hotter = λ a b. refl;
    settled = refl;
  }
  evict_over-OneEnforced scope (some bound) s o h r =
      elim (Bool-cases (ltb bound (population s.state.items scope))) [
        | inr t ↦ rw t (record {
          within = rw (← o) (ground arith);
          above = SameAbove-refl scope s;
          hotter = λ a b. refl;
          settled = refl;
        })
        | inl t ↦
            let n = population s.state.items scope in
            let e = evict_count-Evicted scope (n - bound) s h (rw t at r) in
            let size =
              pick_victims-length s.settings.eviction_policy s.state.items scope (n - bound)
                (p.clock s.readings) in
            let fewer = rw size at e.fewer in
            rw t (record {
              within = rw e.settled (
                  rw (← o) (
                    at_bound n bound
                      (population (evict_count scope (n - bound) s).1.state.items scope)
                      (ground arith) fewer));
              above = e.above;
              hotter = e.hotter;
              settled = e.settled;
            })
      ]
    where
      at_bound : (n bound after : ℕ) → bound < n → after + min (n - bound) n ≡ n → after ≤ bound
      at_bound n bound after x y = omega arith

  enforce_bound-OneEnforced :
      (scope : ContextScope) (s : Session) {u : Unit {0}}
      → IsStored v s
      → (enforce_bound scope s).0 ≡ ok u
      → OneEnforced scope s (enforce_bound scope s).1
  unfolding enforce_bound ◌>>=◌
  enforce_bound-OneEnforced scope s h r =
      evict_over-OneEnforced scope (bound_of s.settings.bounds scope) s refl h r

colder_major : colder ContextScope.major ≡ some ContextScope.minor
unfolding colder
colder_major = refl

colder_enduring : colder ContextScope.enduring ≡ some ContextScope.major
unfolding colder
colder_enduring = refl

at_or_below :
    (scope to a : ContextScope)
    → colder scope ≡ some to
    → rank a ≤ rank scope
    → (a ≡ scope) ⊎ (rank a ≤ rank to)
unfolding colder
at_or_below scope to a c h = ground arith

colder-rank :
    (scope to a : ContextScope) → colder scope ≡ some to → rank scope ≤ rank a → rank to < rank a
unfolding colder
colder-rank scope to a c h = ground arith

module _ ⦃p : Platform⦄ ⦃st : Storage⦄ where
  -- What the colder scopes overflow into is colder still, so a round keeps what the rounds before reached.
  OneEnforced-then :
      (scope to : ContextScope) (s s' s'' : Session)
      → colder scope ≡ some to
      → OneEnforced scope s s'
      → Enforced to s' s''
      → Enforced scope s s''
  OneEnforced-then scope to s s' s'' c one rest = record {
    within = λ a h. elim (at_or_below scope to a c h) [
      | inr below ↦ rest.within a below
      | inl same ↦ rw same (
          rw rest.settled
            (rw (rest.hotter scope (colder-rank scope to scope c (omega arith))) one.within))
    ];
    above =
        SameAbove-trans scope to s s' s'' (λ a h. colder-rank scope to a c (omega arith)) one.above
          rest.above;
    hotter = λ a h. rest.hotter a (colder-rank scope to a c (omega arith)) ∙ one.hotter a h;
    settled = rest.settled ∙ one.settled;
  }

  only_minor : (a : ContextScope) → rank a ≤ rank ContextScope.minor → a ≡ ContextScope.minor
  only_minor a h = ground arith

  OneEnforced-minor :
      (s s' : Session) → OneEnforced ContextScope.minor s s' → Enforced ContextScope.minor s s'
  OneEnforced-minor s s' one = record {
    within = λ a h. rw (only_minor a h) one.within;
    above = one.above;
    hotter = one.hotter;
    settled = one.settled;
  }

module _ ⦃p : Platform⦄ ⦃st : Storage⦄ (v : View st) (c : Contract st v) where
  minor-Enforced :
      (s : Session) {u : Unit {0}}
      → IsStored v s
      → (enforce_bound ContextScope.minor s).0 ≡ ok u
      → Enforced ContextScope.minor s (enforce_bound ContextScope.minor s).1
  minor-Enforced s h r =
      OneEnforced-minor s (enforce_bound ContextScope.minor s).1
        (enforce_bound-OneEnforced v c ContextScope.minor s h r)

  major-Enforced :
      (s : Session) {u : Unit {0}}
      → IsStored v s
      → ((enforce_bound ContextScope.major >> enforce_bound ContextScope.minor) s).0 ≡ ok u
      → Enforced ContextScope.major s
          ((enforce_bound ContextScope.major >> enforce_bound ContextScope.minor) s).1
  major-Enforced s h r =
      >>=_establishes (Enforced ContextScope.major s) (enforce_bound ContextScope.major)
        (λ _. enforce_bound ContextScope.minor) s r
        (λ _ r1 r2.
          let s1 = (enforce_bound ContextScope.major s).1 in
          OneEnforced-then ContextScope.major ContextScope.minor s s1
            (enforce_bound ContextScope.minor s1).1 colder_major
            (enforce_bound-OneEnforced v c ContextScope.major s h r1)
            (minor-Enforced s1 (enforce_bound-IsStored v c ContextScope.major s h) r2))

  -- If enforcing the bounds from a scope succeeds on a session whose items are stored, that scope
  -- and every colder one is within its bound, the same items have the same entries in each more
  -- durable scope, which has as many items as before, and the settings are the same.
  pub enforce_bounds-Enforced :
      (scope : ContextScope) (s : Session) {u : Unit {0}}
      → IsStored v s
      → (enforce_bounds scope s).0 ≡ ok u
      → Enforced scope s (enforce_bounds scope s).1
  unfolding enforce_bounds
  enforce_bounds-Enforced ContextScope.minor s h r = minor-Enforced s h r
  enforce_bounds-Enforced ContextScope.major s h r = major-Enforced s h r
  enforce_bounds-Enforced ContextScope.enduring s h r =
      >>=_establishes (Enforced ContextScope.enduring s) (enforce_bound ContextScope.enduring)
        (λ _. enforce_bound ContextScope.major >> enforce_bound ContextScope.minor) s r
        (λ _ r1 r2.
          let s1 = (enforce_bound ContextScope.enduring s).1 in
          OneEnforced-then ContextScope.enduring ContextScope.major s s1
            ((enforce_bound ContextScope.major >> enforce_bound ContextScope.minor) s1).1
            colder_enduring (enforce_bound-OneEnforced v c ContextScope.enduring s h r1)
            (major-Enforced s1 (enforce_bound-IsStored v c ContextScope.enduring s h) r2))
