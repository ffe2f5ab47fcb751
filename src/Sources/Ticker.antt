-- ===== src/Sources/Ticker.antt =====
-- olivia/src/sources/ticker.rs: the streams of events at regular times and of their outcomes. A round
-- of a stream's loop is a function of what the database answers; the waiting between is in its result.
pub mod Bounds
pub mod Matches
pub mod Progress
use olivia.Base.{
  ℕ, ◌==◌, min, Text, Bool, true, false, if◌then◌else◌, Option, none, some, ◌∷◌, ◌++◌, Result, ok,
  err, panic, ◌>>=◌, expect,
}
use olivia.Path
use olivia.Kind.{EventKind}
use olivia.EventId.{EventId, from_path_and_kind, n_outcomes}
use olivia.Event.{Event}
use olivia.Outcome.{Outcome}
use olivia.Oracle.{StampedOutcome}
use olivia.Group.{Blake2b, Chrono}
use olivia.Db.InMemory.Query.{EventQuery, Order, earliest, latest}

-- What the ticker asks of chrono: durations, and the printing of a time (`format("%FT%T")`).
pub record Calendar (T : Chrono) : Type 1 where
  pub Duration : Type 0
  pub add : T.Time → Duration → T.Time
  pub sub : T.Time → Duration → T.Time
  pub show : T.Time → Text

-- A round of a loop: the end of the stream, a pause of some seconds before the next round, or an
-- update, after a wait until a time where there is one.
pub data Round (Time A : Type 0) : Type 0 where
  stop : Round Time A
  sleep : ℕ → Round Time A
  emit : Option Time → A → Round Time A

-- `Path::from_dt`.
unfoldable pub from_dt : {T : Chrono} → Calendar T → T.Time → Text
from_dt cal dt = b'/' ∷ cal.show dt

-- `EventId::occur_from_dt` and `Event::occur_event_from_dt`.
unfoldable pub occur_from_dt : {T : Chrono} → Calendar T → T.Time → EventId
unfolding from_dt
occur_from_dt cal dt = from_path_and_kind (from_dt cal dt) EventKind.single_occurrence

unfoldable pub occur_event_from_dt : {T : Chrono} → Calendar T → T.Time → Event T.Time
unfolding occur_from_dt
occur_event_from_dt cal dt = record { id = occur_from_dt cal dt; expected_outcome_time = some dt }

-- The fields of `TimeEventStream` but for the database and the logger.
pub record TimeEventStream (T : Chrono) (cal : Calendar T) : Type 0 where
  pub look_ahead : cal.Duration
  pub interval : cal.Duration
  pub initial_time : T.Time
  pub ends_with : Text
  pub event_kind : EventKind

module _ {T : Chrono} {cal : Calendar T} (ticker : TimeEventStream T cal) where
  -- `create_update`.
  unfoldable pub create_update : T.Time → Event T.Time
  unfolding from_dt
  create_update dt = record {
    id = from_path_and_kind (Path.prefix_path ticker.ends_with (from_dt cal dt)) ticker.event_kind;
    expected_outcome_time = some dt;
  }

  unfoldable pub latest_query : EventQuery
  latest_query = record {
    path = none;
    attested = none;
    order = latest;
    ends_with = ticker.ends_with;
    kind = some ticker.event_kind;
  }

  -- A round, by the answer to the query.
  unfoldable pub next_event :
      {E F : Type 0} → Result F (Option (Event T.Time)) → Result E (Round T.Time (Event T.Time))
  unfolding create_update
  next_event (ok (some e)) = do
    last ← expect e.expected_outcome_time
    let next : T.Time = cal.add last ticker.interval
    ok (emit (some (cal.sub next ticker.look_ahead)) (create_update next))
  next_event (ok none) = ok (emit none (create_update ticker.initial_time))
  next_event (err e) = ok stop
  next_event panic = panic

-- `OutcomeCreator::create_outcome`.
abbrev pub OutcomeCreator : Type 0 → Type 0
OutcomeCreator E = EventId → Result E ℕ

pub record TimeOutcomeStream (E : Type 0) : Type 0 where
  pub ends_with : Text
  pub event_kind : Option EventKind
  pub outcome_creator : OutcomeCreator E

module _ {E : Type 0} (T : Chrono) (stream : TimeOutcomeStream E) where
  unfoldable pub earliest_query : EventQuery
  earliest_query = record {
    path = none;
    attested = some false;
    order = earliest;
    ends_with = stream.ends_with;
    kind = stream.event_kind;
  }

  -- A round at the time `now`.
  unfoldable pub next_outcome :
      {F : Type 0}
      → T.Time
      → Result F (Option (Event T.Time))
      → Result E (Round T.Time (StampedOutcome T))
  next_outcome now (ok (some e)) = do
    complete_time ← expect e.expected_outcome_time
    value ← stream.outcome_creator e.id
    ok (
        emit (some complete_time)
          (record { outcome = record { id = e.id; value = value }; time = now }))
  next_outcome now (err e) = ok (sleep 60)
  next_outcome now (ok none) = ok (sleep 1)
  next_outcome now panic = panic

-- `sample` stands for `ChaCha20Rng` and `gen_range`, which panics on an empty range.
pub gen_range : {E Seed : Type 0} → (Seed → ℕ → ℕ) → Seed → ℕ → Result E ℕ
gen_range sample seed max = if max == 0 then panic else ok (sample seed max)

pub record RandomOutcomeCreator (B : Blake2b) : Type 0 where
  pub seed : B.Seed
  pub max : Option ℕ

max_or : Option ℕ → ℕ → ℕ
max_or none n = n
max_or (some m) n = m

unfoldable pub create_random :
    {E : Type 0} {B : Blake2b} → (B.Seed → ℕ → ℕ) → RandomOutcomeCreator B → OutcomeCreator E
unfolding gen_range max_or
create_random {E} {B} sample creator id = do
  n ← n_outcomes id
  gen_range sample (B.keyed creator.seed id) (min (max_or creator.max n) n)

unfoldable pub create_zero : {E : Type 0} → OutcomeCreator E
create_zero id = ok 0
