-- ===== src/Event.antt =====
-- olivia_core/src/event.rs: reading an event's id, the ids of predicated events, and events.
pub mod Parse
pub mod Crash
pub mod Checked
pub mod Predicated
use olivia.Base.{
  ℕ, Text, text_eq, Bool, true, false, if◌then◌else◌, Option, none, some, List, [], ◌∷◌, Result, ok,
  err, panic, ◌>>=◌, ◌>>◌, ok_or, map_err, ◌==◌,
}
use olivia.Base.Slices.{split}
use olivia.Path
use olivia.Kind
use olivia.Kind.{
  EventKind, EventKindError, vs_match, single_occurrence, predicate, price, eq, bound,
  PredicateKind, is_eq, is_bound, Predicate, pred_eq_to_invalid_outcome,
}
use olivia.EventId.{EventId, event_kind, replace_kind, from_path_and_kind}
use olivia.Outcome.{Outcome, OutcomeError, invalid, try_from_id_and_outcome, outcome_string}

pub data EventIdError : Type 0 where
  not_an_event bad_format missing_event_kind : EventIdError
  kind : EventKindError → EventIdError

-- There must be two teams, with different names.
check_teams : List Text → Result EventIdError (Unit {0})
check_teams (a ∷ b ∷ []) = if text_eq a b then err bad_format else ok tt
check_teams _ = err bad_format

-- The value of an equality must be an outcome of the event that it is about.
check_eq : Result OutcomeError Outcome → Result EventIdError (Unit {0})
check_eq (ok o) = ok tt
check_eq (err (invalid entity)) = err (kind (pred_eq_to_invalid_outcome entity))
check_eq panic = panic

check_kind : Text → EventKind → Result EventIdError (Unit {0})
unfolding check_teams check_eq
check_kind p (vs_match _) = check_teams (split (Path.last p) b'_')
check_kind p (predicate inner (eq value)) =
    check_eq (try_from_id_and_outcome (from_path_and_kind p inner) value)
check_kind p _ = ok tt

-- `TryFrom<Path>`.
unfoldable pub try_from : Text → Result EventIdError EventId
unfolding check_kind
try_from id = do
  parts ← ok_or (Path.strip_event id) missing_event_kind
  k ← map_err kind (Kind.from_str parts.1)
  check_kind parts.0 k
  ok id

unfoldable pub from_str : Text → Result EventIdError EventId
unfolding try_from
from_str s = map_err (λ _. bad_format) (Path.from_str s) >>= try_from

-- The digits of a price do not matter to a predicate on it.
unfoldable pub forget_digits : EventKind → EventKind
forget_digits (price _) = price 0
forget_digits k = k

is_predicate : EventKind → Bool
is_predicate (predicate _ _) = true
is_predicate _ = false

module _ {E : Type 0} where
  predicate_on : EventId → PredicateKind → ℕ → Result E Predicate
  predicate_on id is_eq value = do s ← outcome_string (record { id = id; value = value }); ok (eq s)
  predicate_on id (is_bound b) value = ok (bound b value)

  predicated : EventId → PredicateKind → ℕ → EventKind → Result E EventId
  unfolding is_predicate predicate_on forget_digits
  predicated id pk value k =
      if is_predicate k
      then panic
      else predicate_on id pk value >>= λ p. replace_kind id (predicate (forget_digits k) p)

  -- `EventId::predicate`.
  unfoldable pub predicate_id : EventId → PredicateKind → ℕ → Result E EventId
  unfolding predicated
  predicate_id id pk value = event_kind id >>= predicated id pk value

-- `Time` stands for chrono's `NaiveDateTime`.
pub record Event (Time : Type 0) : Type 0 where
  pub id : EventId
  pub expected_outcome_time : Option Time

-- The two `PrefixPath` methods.
unfoldable pub prefix_path : {Time : Type 0} → Event Time → Text → Event Time
prefix_path e p = record e { id = Path.prefix_path e.id p }

unfoldable pub strip_prefix_path : {Time : Type 0} → Event Time → Text → Event Time
strip_prefix_path e p = record e { id = Path.strip_prefix_path e.id p }
