-- ===== src/Reasoning/Datalog.antt =====
-- crates/semanticore-core/src/datalog.rs: programs and results. A hash map from predicates is the list
-- of its entries, in an order that nothing reads.
use semanticore.Prelude.{
  ℕ, suc, ◌+◌, ◌≡◌, refl, String, Bool, true, false, Option, none, some, List, [], ◌∷◌, ◌++◌, ◌==◌,
  any, length, arith, if◌then◌else◌,
}
use semanticore.Model.{NamedNode, Term, named_node_eq}

pub data DatalogTerm : Type 0 where
  var : String → DatalogTerm
  const : Term → DatalogTerm

pub record Atom : Type 0 where
  pub predicate : NamedNode
  pub terms : List DatalogTerm

pub data BodyLiteral : Type 0 where
  positive negative : Atom → BodyLiteral

abbrev pub atom : BodyLiteral → Atom
atom (BodyLiteral.positive a) = a
atom (BodyLiteral.negative a) = a

abbrev pub is_negative : BodyLiteral → Bool
is_negative (BodyLiteral.positive _) = false
is_negative (BodyLiteral.negative _) = true

pub record Rule : Type 0 where
  pub head : Atom
  pub body : List BodyLiteral

abbrev pub is_fact : Rule → Bool
is_fact r = elim r.body [ [] ↦ true | _ ∷ _ ↦ false ]

pub record DatalogProgram : Type 0 where
  pub rules : List Rule

unfoldable pub has_negation : DatalogProgram → Bool
has_negation p = any (λ r. any is_negative r.body) p.rules

abbrev Relations : Type 0
Relations = List (NamedNode × List (List Term))

pub record DatalogResult : Type 0 where
  pub relations : Relations

abbrev pub empty_result : DatalogResult
empty_result = record { relations = [] }

-- `entry(predicate).or_default().push(tuple)`
push_at : NamedNode → List Term → Relations → Relations
push_at p tuple [] = (p, tuple ∷ []) ∷ []
push_at p tuple ((q, tuples) ∷ rest) =
    let others = push_at p tuple rest in
    if p == q then (q, tuples ++ tuple ∷ []) ∷ rest else (q, tuples) ∷ others

unfoldable pub add_fact : NamedNode → List Term → DatalogResult → DatalogResult
unfolding push_at
add_fact p tuple r = record { relations = push_at p tuple r.relations }

tuples_of : NamedNode → Relations → Option (List (List Term))
tuples_of p [] = none
tuples_of p ((q, tuples) ∷ rest) = if p == q then some tuples else tuples_of p rest

unfoldable pub relation : NamedNode → DatalogResult → Option (List (List Term))
unfolding tuples_of
relation p r = tuples_of p r.relations

abbrev pub predicate_count : DatalogResult → ℕ
predicate_count r = length r.relations

sum_lengths : Relations → ℕ
sum_lengths [] = 0
sum_lengths ((q, tuples) ∷ rest) = length tuples + sum_lengths rest

unfoldable pub total_facts : DatalogResult → ℕ
unfolding sum_lengths
total_facts r = sum_lengths r.relations

abbrev pub tuples_or_none : Option (List (List Term)) → List (List Term)
tuples_or_none none = []
tuples_or_none (some tuples) = tuples

tuples_of-push_at :
    (p q : NamedNode) (tuple : List Term) (r : Relations)
    → tuples_of q (push_at p tuple r)
      ≡ (if q == p then some (tuples_or_none (tuples_of q r) ++ tuple ∷ []) else tuples_of q r)
unfolding tuples_of push_at
tuples_of-push_at p q tuple [] = ground arith
tuples_of-push_at p q tuple (e ∷ r) = ground (arith, tuples_of-push_at p q tuple r)

length-snoc : (ts : List (List Term)) (t : List Term) → length (ts ++ t ∷ []) ≡ suc (length ts)
length-snoc [] t = refl
length-snoc (x ∷ ts) t = ground (arith, length-snoc ts t)

sum_lengths-push_at :
    (p : NamedNode) (tuple : List Term) (r : Relations)
    → sum_lengths (push_at p tuple r) ≡ suc (sum_lengths r)
unfolding sum_lengths push_at
sum_lengths-push_at p tuple [] = refl
sum_lengths-push_at p tuple (e ∷ r) =
    ground (arith, sum_lengths-push_at p tuple r, length-snoc e.1 tuple)

-- An added fact is the last tuple of its predicate and counts once, and every other relation is as it
-- was.
pub add_fact_lem :
    (p : NamedNode) (tuple : List Term) (r : DatalogResult)
    → ((q : NamedNode)
        → relation q (add_fact p tuple r)
          ≡ (if q == p then some (tuples_or_none (relation q r) ++ tuple ∷ []) else relation q r))
      × (total_facts (add_fact p tuple r) ≡ suc (total_facts r))
unfolding relation add_fact total_facts
add_fact_lem p tuple r =
    (λ q. tuples_of-push_at p q tuple r.relations, sum_lengths-push_at p tuple r.relations)
