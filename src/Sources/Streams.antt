-- ===== src/Sources/Streams.antt =====
-- olivia/src/config/config_impls.rs: the streams that the sources of a configuration make, as lists of
-- what they yield. The streams of redis and the loggers are left out.
use olivia.Base.{
  ℕ, suc, Text, Bool, true, false, Option, none, some, List, [], ◌∷◌, ◌++◌, map, Result, ok, err,
  panic, ◌>>=◌,
}
use olivia.Path
use olivia.Kind.{PredicateKind, is_eq, is_bound, BoundKind, EventKind}
use olivia.EventId.{EventId}
use olivia.Event.{Event}
use olivia.Outcome.{Outcome}
use olivia.Oracle.{StampedOutcome}
use olivia.Node.{Node, NodeKind, RangeKind}
use olivia.Group.{Blake2b, Chrono}
use olivia.Predicates.{Predicate, OutcomeFilter, apply_to_event_id}
use olivia.Sources.{Update, from}
use olivia.Sources.Ticker.{TimeOutcomeStream, create_random, create_zero}

-- The configuration's own `PredicateKind`.
pub data PredicateKindConfig : Type 0 where
  eq gt : PredicateKindConfig

-- `From<PredicateKind>`.
to_predicate_kind : PredicateKindConfig → PredicateKind
to_predicate_kind eq = is_eq
to_predicate_kind gt = is_bound BoundKind.gt

pub record PredicateConfig : Type 0 where
  pub kind : PredicateKindConfig
  pub filter : OutcomeFilter

-- The updates for the predicates on an event.
predicate_updates : {Time : Type 0} → Option Time → List EventId → List (Update (Event Time))
unfolding from
predicate_updates time ids = map (λ id. from (record { id = id; expected_outcome_time = time })) ids

module _ {E Time : Type 0} where
  -- Each update is followed by those of its predicates.
  expand : Predicate → List (Update (Event Time)) → Result E (List (Update (Event Time)))
  unfolding predicate_updates apply_to_event_id
  expand p [] = ok []
  expand p (u ∷ us) =
      let rest = expand p us in
      apply_to_event_id p u.update.id >>= λ ids.
      rest >>= λ more. ok (u ∷ predicate_updates u.update.expected_outcome_time ids ++ more)

  -- The second half of `to_event_stream`.
  unfoldable pub with_predicates :
      Option PredicateConfig → List (Update (Event Time)) → Result E (List (Update (Event Time)))
  unfolding expand to_predicate_kind
  with_predicates none us = ok us
  with_predicates (some config) us =
      expand
        (record { outcome_filter = config.filter; predicate_kind = to_predicate_kind config.kind })
        us

-- The stream of `EventSource::Init`.
unfoldable pub init_stream : {Time : Type 0} → List (Event Time) → List (Update (Event Time))
unfolding from
init_stream events = map from events

pub record TickerConfig (Time : Type 0) : Type 0 where
  pub interval : ℕ
  pub look_ahead : ℕ
  pub initial_time : Option Time
  pub ends_with : Text
  pub event_kind : EventKind

pub data EventSource (Time : Type 0) : Type 0 where
  ticker : TickerConfig Time → EventSource Time
  redis : EventSource Time
  init : List (Event Time) → EventSource Time

-- `to_node_stream`: a ticker tells the kind of the node that it fills.
unfoldable pub to_node_stream : {Time : Type 0} → EventSource Time → List (Update Node)
to_node_stream (ticker config) =
    record {
      update = record { path = Path.root; kind = NodeKind.range (RangeKind.time config.interval) };
      processed_notifier = none;
    }
    ∷ []
to_node_stream redis = []
to_node_stream (init events) = []

-- The keys of a parent's streams, from a number on.
node_streams :
    {Time : Type 0} → Text → ℕ → List (EventSource Time) → List ((Text × ℕ) × List (Update Node))
unfolding to_node_stream
node_streams parent i [] = []
node_streams parent i (s ∷ ss) = ((parent, i), to_node_stream s) ∷ node_streams parent (suc i) ss

-- `build_node_streams`, over the sources below each parent.
unfoldable pub build_node_streams :
    {Time : Type 0} → List (Text × List (EventSource Time)) → List ((Text × ℕ) × List (Update Node))
unfolding node_streams
build_node_streams [] = []
build_node_streams ((parent, sources) ∷ rest) =
    node_streams parent 0 sources ++ build_node_streams rest

pub data OutcomeSource : Type 0 where
  random : Text → Option EventKind → Option ℕ → OutcomeSource
  zero_source : Text → Option EventKind → OutcomeSource
  redis : OutcomeSource

-- The time stream of an outcome source below a parent, if it is one, with the seed that
-- `build_outcome_streams` derives for the parent.
unfoldable pub to_time_stream :
    {E : Type 0} (B : Blake2b)
    → (B.Seed → ℕ → ℕ)
    → B.Seed
    → Text
    → OutcomeSource
    → Option (TimeOutcomeStream E)
unfolding create_random create_zero
to_time_stream B sample secret_seed parent (random ends_with kind max) = some (record {
  ends_with = ends_with;
  event_kind = kind;
  outcome_creator =
      create_random {B = B} sample (record { seed = B.keyed secret_seed parent; max = max });
})
to_time_stream B sample secret_seed parent (zero_source ends_with kind) =
    some (record { ends_with = ends_with; event_kind = kind; outcome_creator = create_zero })
to_time_stream B sample secret_seed parent redis = none

related_updates : {T : Chrono} → T.Time → List Outcome → List (Update (StampedOutcome T))
unfolding from
related_updates time os = map (λ o. from (record { outcome = o; time = time })) os

module _ {T : Chrono} {E F : Type 0} where
  -- With `complete_related` set, each update is followed by those of the related outcomes. `related` is
  -- `complete_related` on the database as it is when the stream goes on; a failure is logged.
  follow :
      (Outcome → Result F (List Outcome))
      → Update (StampedOutcome T)
      → Result E (List (Update (StampedOutcome T)))
  unfolding related_updates
  follow related u = elim (related u.update.outcome) [
    | ok os ↦ ok (u ∷ related_updates u.update.time os)
    | err e ↦ ok (u ∷ [])
    | panic ↦ panic
  ]

  -- The second half of `to_outcome_stream`.
  unfoldable pub with_related :
      Bool
      → List (Update (StampedOutcome T) × (Outcome → Result F (List Outcome)))
      → Result E (List (Update (StampedOutcome T)))
  unfolding follow
  with_related enabled [] = ok []
  with_related enabled ((u, related) ∷ us) =
      let rest = with_related enabled us in
      let first : Result E (List (Update (StampedOutcome T))) = elim enabled [
        | true ↦ follow related u
        | false ↦ ok (u ∷ [])
      ] in
      first >>= λ now. rest >>= λ later. ok (now ++ later)
