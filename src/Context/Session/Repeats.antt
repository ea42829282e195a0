-- ===== src/Context/Session/Repeats.antt =====
-- A list without its repetitions, and `check_in_scope` of crates/semanticore-context/src/session.rs, which
-- collects the ids it has not seen before.
use semanticore.Prelude.{
  ◌≡◌, refl, sym, ap, ◌∙◌, inl, inr, Bool, true, not, ◌&&◌, List, [], ◌∷◌, ◌==◌, nat_eq, Bool-cases,
  ==_cases, arith, All, All-filter, mem, filter,
}
use semanticore.Context.Scope.{ItemId}
use semanticore.Context.Session.Checks.{first_seen}

-- every id once, where it stands first: behind it all its repetitions are left out
abbrev pub without_repeats : List ItemId → List ItemId
without_repeats [] = []
without_repeats (id ∷ ids) = id ∷ filter (λ j. not (j == id)) (without_repeats ids)

filter-filter :
    (f g h : ItemId → Bool) (ids : List ItemId)
    → ((j : ItemId) → h j ≡ (g j && f j))
    → filter f (filter g ids) ≡ filter h ids
unfolding filter
filter-filter f g h [] e = refl
filter-filter f g h (id ∷ ids) e = ground (arith, e id, filter-filter f g h ids e)

known_twice :
    (id j : ItemId) (seen : List ItemId)
    → mem id seen ≡ true
    → not (mem j seen) ≡ (not (j == id) && not (mem j seen))
known_twice id j seen h = elim (==_cases j id) [
  | inl (t, same) ↦ rw (same, h) (ground arith)
  | inr (t, _) ↦ ground arith
]

new_twice :
    (id j : ItemId) (seen : List ItemId)
    → not (mem j (id ∷ seen)) ≡ (not (j == id) && not (mem j seen))
unfolding mem
new_twice id j seen = ground arith

-- What is collected beside the ids that were seen before.
first_seen-filter :
    (seen ids : List ItemId)
    → first_seen seen ids ≡ filter (λ j. not (mem j seen)) (without_repeats ids)
unfolding first_seen filter
first_seen-filter seen [] = refl
first_seen-filter seen (id ∷ ids) =
    let others : ItemId → Bool = λ j. not (j == id) in
    let new : ItemId → Bool = λ j. not (mem j seen) in
    elim (Bool-cases (mem id seen)) [
      | inl t ↦ rw t (
          first_seen-filter seen ids
          ∙ sym (filter-filter new others new (without_repeats ids) (λ j. known_twice id j seen t)))
      | inr t ↦ rw t (
          ap (λ l. id ∷ l)
            (first_seen-filter (id ∷ seen) ids
              ∙ sym (
                  filter-filter new others (λ j. not (mem j (id ∷ seen))) (without_repeats ids)
                    (λ j. new_twice id j seen))))
    ]

filter_all : (ids : List ItemId) → filter (λ j. not (mem j [])) ids ≡ ids
unfolding filter mem
filter_all [] = refl
filter_all (id ∷ ids) = ground (arith, filter_all ids)

-- With nothing seen before, every id is collected once.
pub first_seen-without_repeats : (ids : List ItemId) → first_seen [] ids ≡ without_repeats ids
first_seen-without_repeats ids = first_seen-filter [] ids ∙ filter_all (without_repeats ids)

All-filter_others {κ} :
    (P : ItemId → Type κ) (id : ItemId) (ids : List ItemId)
    → P id
    → All P (filter (λ j. not (j == id)) ids)
    → All P ids
unfolding filter
All-filter_others P id [] h l = tt
All-filter_others P id (j ∷ ids) h l = elim (==_cases j id) [
  | inl (t, same) ↦ (rw same h, All-filter_others P id ids h (rw t at l))
  | inr (t, _) ↦ let (x, xs) = rw t at l in (x, All-filter_others P id ids h xs)
]

-- What holds of every id holds of every id once, and conversely.
pub All-without_repeats {κ} :
    (P : ItemId → Type κ) (ids : List ItemId) → All P (without_repeats ids) → All P ids
All-without_repeats P [] l = tt
All-without_repeats P (id ∷ ids) l =
    (l.0, All-without_repeats P ids (All-filter_others P id (without_repeats ids) l.0 l.1))

pub without_repeats-All {κ} :
    (P : ItemId → Type κ) (ids : List ItemId) → All P ids → All P (without_repeats ids)
without_repeats-All P [] l = tt
without_repeats-All P (id ∷ ids) l = (
  l.0,
  All-filter P P (λ j. not (j == id)) (λ j _ h. h) (without_repeats ids)
      (without_repeats-All P ids l.1),
)
