-- ===== src/Predicates.antt =====
-- olivia/src/sources/predicate.rs: the predicates that are announced beside an event.
pub mod Valid
use olivia.Base.{ℕ, zero, suc, List, [], ◌∷◌, Result, ok, ◌>>=◌}
use olivia.Kind.{PredicateKind}
use olivia.EventId.{EventId, n_outcomes}
use olivia.Event.{predicate_id}

-- `Pattern` has one value.
pub data OutcomeFilter : Type 0 where
  pattern_all : OutcomeFilter
  indexes : List ℕ → OutcomeFilter

pub record Predicate : Type 0 where
  pub outcome_filter : OutcomeFilter
  pub predicate_kind : PredicateKind

-- `(from..from + n)`.
unfoldable pub range : ℕ → ℕ → List ℕ
range from zero = []
range from (suc n) = from ∷ range (suc from) n

module _ {E : Type 0} where
  unfoldable pub outcomes_for : OutcomeFilter → EventId → Result E (List ℕ)
  unfolding range
  outcomes_for pattern_all id = do n ← n_outcomes id; ok (range 0 n)
  outcomes_for (indexes chosen) id = ok chosen

  -- `map` with a function that may panic.
  unfoldable pub predicate_ids : EventId → PredicateKind → List ℕ → Result E (List EventId)
  predicate_ids id pk [] = ok []
  predicate_ids id pk (v ∷ vs) =
      let rest = predicate_ids id pk vs in
      predicate_id id pk v >>= λ new. rest >>= λ news. ok (new ∷ news)

  unfoldable pub apply_to_event_id : Predicate → EventId → Result E (List EventId)
  unfolding outcomes_for predicate_ids
  apply_to_event_id p id = outcomes_for p.outcome_filter id >>= predicate_ids id p.predicate_kind
