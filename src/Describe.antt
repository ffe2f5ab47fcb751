-- ===== src/Describe.antt =====
-- olivia_describe/src/lib.rs: descriptions of events and of their outcomes. What a description
-- calls on an id may panic; the proofs that it does not are in the modules below.
pub mod Tables
pub mod Paths
pub mod Total
pub mod Outcomes
pub mod Levels
pub mod Shallow
pub mod Safe
pub mod Html
use olivia.Base.{
  ℕ, zero, suc, Text, codes, text_eq, Bool, true, false, if◌then◌else◌, Option, none, some, List,
  [], ◌∷◌, ◌++◌, length, Result, ok, err, panic, ◌>>=◌, expect, expect_ok, map_err,
}
use olivia.Base.Slices.{strip_suffix}
use olivia.Base.Decimal.{show_uint}
use olivia.Path
use olivia.Kind.{
  VsMatchKind, win, win_or_draw, EventKind, vs_match, single_occurrence, predicate, price, eq,
  bound, Predicate,
}
use olivia.EventId.{EventId, path, event_kind, both_parties, n_outcomes, replace_kind}
use olivia.Outcome.{Outcome, try_from_id_and_outcome, outcome_string}
use olivia.Event
use olivia.Describe.Tables.{lookup_competition, lookup_team}
use olivia.Describe.Paths.{Maybe}

pub record OutcomeDesc : Type 0 where
  pub positive : Text
  pub negative : Text

unfoldable pub maybe_negate : OutcomeDesc → Bool → OutcomeDesc
maybe_negate desc negate =
    if negate then record { positive = desc.negative; negative = desc.positive } else desc

-- The competition and the date of `["s", competition, "match", date, _]`.
abbrev pub match_segments : List Text → Option (Text × Text)
match_segments (first ∷ competition ∷ word ∷ date ∷ _ ∷ []) =
    if text_eq first (codes "s")
    then (if text_eq word (codes "match") then some (competition, date) else none)
    else none
match_segments _ = none

-- The time of `["random", datetime, ..]`.
abbrev pub random_time : List Text → Option Text
random_time (first ∷ time ∷ _) = if text_eq first (codes "random") then some time else none
random_time _ = none

-- The time of `["time", datetime]`.
abbrev pub passed_time : List Text → Option Text
passed_time (first ∷ time ∷ []) = if text_eq first (codes "time") then some time else none
passed_time _ = none

-- The exchange, the instrument and the time of `["x", exchange, instrument, time]`.
abbrev pub price_segments : List Text → Option (Text × Text × Text)
price_segments (first ∷ exchange ∷ instrument ∷ time ∷ []) =
    if text_eq first (codes "x") then some (exchange, instrument, time) else none
price_segments _ = none

pub match_word : VsMatchKind → Text
match_word win_or_draw = codes "result of "
match_word win = codes "winner of "

match_short : VsMatchKind → Option (Text × Text) → Text × Text → Text → Text
unfolding match_word
match_short k (some (competition, date)) (left, right) parent =
    match_word k
    ++ lookup_competition competition
    ++ codes " match "
    ++ lookup_team competition left
    ++ codes " vs "
    ++ lookup_team competition right
    ++ codes " on "
    ++ date
match_short k none (left, right) parent =
    match_word k ++ left ++ codes " vs " ++ right ++ codes " in " ++ parent

pub price_short : Option (Text × Text × Text) → Text → Text
price_short (some (exchange, instrument, time)) p =
    codes "price of " ++ instrument ++ codes " on " ++ exchange ++ codes " at " ++ time
price_short none p = codes "price of " ++ p

random_text : ℕ → Text → Text
random_text n time =
    codes "oracle's randomly selected outcome from "
    ++ show_uint n
    ++ codes " possibilities at "
    ++ time

occur_short : Option Text → Text → Text
occur_short (some time) p = codes "time " ++ time ++ codes " has passed"
occur_short none p = p ++ codes " has transpired"

-- The sentences on the outcome of a match that is listed below a competition.
draw_desc : Text → Text → Text → Text → OutcomeDesc
draw_desc left right competition date = record {
  positive =
      left
      ++ codes " and "
      ++ right
      ++ codes " draw in their "
      ++ competition
      ++ codes " match on "
      ++ date;
  negative =
      left
      ++ codes " and "
      ++ right
      ++ codes " do not draw in their "
      ++ competition
      ++ codes " match on "
      ++ date;
}

beats_desc : Text → Text → Text → Text → OutcomeDesc
beats_desc winner loser competition date = record {
  positive =
      winner
      ++ codes " beats "
      ++ loser
      ++ codes " in their "
      ++ competition
      ++ codes " match on "
      ++ date;
  negative =
      winner
      ++ codes " does not beat "
      ++ loser
      ++ codes " in their "
      ++ competition
      ++ codes " match on "
      ++ date;
}

winner_desc : Bool → Text → Text → Text → Text → OutcomeDesc
unfolding beats_desc
winner_desc is_left left right competition date =
    if is_left
    then beats_desc left right competition date
    else beats_desc right left competition date

is_desc : Text → Text → OutcomeDesc
is_desc short value = record {
  positive = codes "the " ++ short ++ codes " is \"" ++ value ++ codes "\"";
  negative = codes "the " ++ short ++ codes " is not \"" ++ value ++ codes "\"";
}

price_desc : Text → Text → OutcomeDesc
price_desc short value = record {
  positive = codes "the price of " ++ short ++ codes " is " ++ value;
  negative = codes "the price of " ++ short ++ codes " is not " ++ value;
}

pub above_desc : Text → ℕ → OutcomeDesc
above_desc short n = record {
  positive = codes "the " ++ short ++ codes " is above " ++ show_uint n;
  negative = codes "the " ++ short ++ codes " is not above " ++ show_uint n;
}

is_match : EventKind → Bool
is_match (vs_match _) = true
is_match _ = false

pub bound_text : Text → ℕ → Text
bound_text short n =
    codes "assertion that the " ++ short ++ codes " will be greater than " ++ show_uint n

-- The two functions that call each other.
pub record Describer (E : Type 0) : Type 0 where
  pub event_short : EventId → Result E Text
  pub outcome : Outcome → Result E OutcomeDesc

module _ {E : Type 0} where
  -- `event_id.path().parent().unwrap()` under a match that is not listed below a competition.
  match_parent : EventId → Option (Text × Text) → Result E Text
  match_parent id (some _) = ok []
  match_parent id none = do p ← path id; expect (Path.parent p)

  pub predicate_short : Describer E → EventId → Predicate → Result E Text
  unfolding bound_text
  predicate_short rec inner_id (eq value) = do
    o ← expect_ok (try_from_id_and_outcome inner_id value)
    desc ← rec.outcome o
    ok (codes "assertion that " ++ desc.positive)
  predicate_short rec inner_id (bound _ n) = do
    short ← rec.event_short inner_id
    ok (bound_text short n)

  -- The arms behind that of a random event.
  pub kind_short : Describer E → EventId → Text → EventKind → Result E Text
  unfolding match_parent match_short price_short occur_short predicate_short
  kind_short rec id p (vs_match k) = do
    pair ← both_parties id
    parent ← match_parent id (match_segments (Path.segments p))
    ok (match_short k (match_segments (Path.segments p)) pair parent)
  kind_short rec id p single_occurrence = ok (occur_short (passed_time (Path.segments p)) p)
  kind_short rec id p (price _) = ok (price_short (price_segments (Path.segments p)) p)
  kind_short rec id p (predicate inner pred) = do
    inner_id ← replace_kind id inner
    predicate_short rec inner_id pred

  -- The arm of a random event stands behind those of a match.
  short_with : Describer E → EventId → Text → EventKind → Option Text → Result E Text
  unfolding is_match random_text kind_short n_outcomes
  short_with rec id p k (some time) =
      if is_match k then kind_short rec id p k else (n_outcomes id >>= λ n. ok (random_text n time))
  short_with rec id p k none = kind_short rec id p k

  pub event_short_body : Describer E → EventId → Result E Text
  unfolding short_with
  event_short_body rec id = do
    p ← path id
    k ← event_kind id
    short_with rec id p k (random_time (Path.segments p))

  -- The winner's text, without the suffix that a match with a draw adds.
  winner_of : VsMatchKind → Text → Result E Text
  winner_of win s = ok s
  winner_of win_or_draw s = expect (strip_suffix s (codes "_win"))

  match_desc : VsMatchKind → Text → Text × Text → Text → Text → Result E OutcomeDesc
  unfolding draw_desc winner_desc winner_of
  match_desc k s (left, right) competition date =
      let left_long = lookup_team competition left in
      let right_long = lookup_team competition right in
      let name = lookup_competition competition in
      if text_eq s (codes "draw")
      then ok (draw_desc left_long right_long name date)
      else (winner_of k s >>= λ winner.
          ok (winner_desc (text_eq winner left) left_long right_long name date))

  pub predicate_desc : Describer E → EventId → Predicate → Text → Result E OutcomeDesc
  unfolding maybe_negate above_desc
  predicate_desc rec inner_id (eq value) s = do
    o ← expect_ok (try_from_id_and_outcome inner_id value)
    desc ← rec.outcome o
    ok (maybe_negate desc (text_eq s (codes "false")))
  predicate_desc rec inner_id (bound _ n) s = do
    short ← rec.event_short inner_id
    ok (maybe_negate (above_desc short n) (text_eq s (codes "false")))

  pub kind_desc :
      Describer E → EventId → EventKind → Option (Text × Text) → Text → Result E OutcomeDesc
  unfolding match_desc price_desc predicate_desc is_desc
  kind_desc rec id (vs_match k) (some (competition, date)) s = do
    pair ← both_parties id
    match_desc k s pair competition date
  kind_desc rec id (price _) _ s = do short ← rec.event_short id; ok (price_desc short s)
  kind_desc rec id (predicate inner pred) _ s = do
    inner_id ← replace_kind id inner
    predicate_desc rec inner_id pred s
  kind_desc rec id _ _ s = do short ← rec.event_short id; ok (is_desc short s)

  pub outcome_body : Describer E → Outcome → Result E OutcomeDesc
  unfolding kind_desc
  outcome_body rec o = do
    p ← path o.id
    k ← event_kind o.id
    s ← outcome_string o
    kind_desc rec o.id k (match_segments (Path.segments p)) s

  -- The recursion on fuel; out of it is the overflow of the stack.
  pub describer : ℕ → Describer E
  unfolding event_short_body outcome_body
  describer zero = record { event_short = λ _. panic; outcome = λ _. panic }
  describer (suc fuel) =
      let rec : Describer E = describer fuel in
      record { event_short = event_short_body rec; outcome = outcome_body rec }

  unfoldable pub event_short : EventId → Result E Text
  unfolding describer
  event_short id = (describer (suc (length id))).event_short id

  unfoldable pub outcome : Outcome → Result E OutcomeDesc
  unfolding describer
  outcome o = (describer (suc (length o.id))).outcome o

unfoldable pub event_short_str : Text → Maybe Text
unfolding event_short
event_short_str s = map_err (λ _. tt) (Event.from_str s) >>= event_short

unfoldable pub outcome_str : Text → Text → Maybe Text
unfolding outcome
outcome_str id s = do
  event_id ← map_err (λ _. tt) (Event.from_str id)
  o ← map_err (λ _. tt) (try_from_id_and_outcome event_id s)
  desc ← outcome o
  ok desc.positive
