-- ===== src/Related.antt =====
-- olivia/src/sources/complete_related.rs: which outcomes follow from an outcome. The events that the
-- database finds under the outcome's path are an argument.
pub mod Equality
pub mod Equalities
use olivia.Base.{
  ℕ, Text, Bool, true, false, ltb, if◌then◌else◌, Option, none, some, List, [], ◌∷◌, Result, ok,
  ◌>>=◌,
}
use olivia.Kind.{
  EventKind, Predicate, vs_match, single_occurrence, predicate, price, eq_fuzzy, predicate_outcome,
}
use olivia.EventId.{EventId, event_kind, n_outcomes}
use olivia.Outcome.{Outcome, outcome_string}

is_price : EventKind → Bool
is_price (price _) = true
is_price _ = false

module _ {E : Type 0} where
  -- The outcome of a predicate on the event, if the predicate is on it.
  unfoldable pub predicate_follows :
      Outcome → EventId → Predicate → Bool → Result E (Option Outcome)
  predicate_follows o related p true = do
    s ← outcome_string o
    v ← predicate_outcome p s
    ok (some (record { id = related; value = v }))
  predicate_follows o related p false = ok none

  unfoldable pub follows : Outcome → EventKind → EventId → EventKind → Result E (Option Outcome)
  unfolding predicate_follows is_price
  follows o k related (predicate inner p) = predicate_follows o related p (eq_fuzzy inner k)
  follows o k related (price _) =
      ok (if is_price k then some (record { id = related; value = o.value }) else none)
  follows o k related _ = ok none

  unfoldable pub related_outcome : Outcome → EventKind → EventId → Result E (Option Outcome)
  unfolding follows
  related_outcome o k related = event_kind related >>= follows o k related

  -- `filter_map`.
  unfoldable pub related_outcomes : Outcome → EventKind → List EventId → Result E (List Outcome)
  unfolding related_outcome
  related_outcomes o k [] = ok []
  related_outcomes o k (id ∷ ids) =
      let rest = related_outcomes o k ids in
      related_outcome o k id >>= λ found.
      rest >>= λ others. ok (elim found [ none ↦ others | some first ↦ first ∷ others ])

  -- An event with less than three outcomes is not looked up.
  unfoldable pub complete_related : Outcome → List EventId → Result E (List Outcome)
  unfolding related_outcomes
  complete_related o ids = n_outcomes o.id >>= λ n.
      if ltb n 3 then ok [] else event_kind o.id >>= (λ k. related_outcomes o k ids)
