-- ===== src/Describe/Html.antt =====
-- olivia_describe/src/lib.rs: the descriptions of events in HTML.
use olivia.Base.{
  ℕ, zero, suc, Text, codes, Option, none, some, List, [], ◌∷◌, ◌++◌, length, Result, ok, err,
  panic, ◌>>=◌, expect_ok, map_err,
}
use olivia.Base.Decimal.{show_uint}
use olivia.Path
use olivia.Kind.{
  VsMatchKind, win, win_or_draw, EventKind, vs_match, single_occurrence, predicate, price,
  Predicate, eq, bound,
}
use olivia.EventId.{EventId, path, event_kind, parties, n_outcomes, replace_kind}
use olivia.Outcome.{Outcome, try_from_id_and_outcome, outcome_string}
use olivia.Event
use olivia.Describe.Tables.{lookup_competition, lookup_team, exchange_link, instrument_link}
use olivia.Describe.Paths.{Maybe}
use olivia.Describe.{match_segments, random_time, price_segments, event_short, outcome}

-- `Heventid`.
show_event_id : EventId → Text
show_event_id id =
    codes "<a class='oracle-event-id' href='" ++ id ++ codes "'>" ++ id ++ codes "</a>"

-- `Houtcome`.
unfoldable pub show_outcome : {E : Type 0} → Outcome → Result E Text
show_outcome o = do
  s ← outcome_string o
  ok (codes "<b class='oracle-outcome'>" ++ s ++ codes "</b>")

unwrap_or : Option Text → Text → Text
unwrap_or (some s) t = s
unwrap_or none t = t

at : EventId → ℕ → Outcome
at id v = record { id = id; value = v }

random_html : ℕ → Text → Text
random_html n time =
    codes "This event has no real world meaning. The outcome will randomly be selected from the <b>"
    ++ show_uint n
    ++ codes "</b> possibilities at <b>"
    ++ time
    ++ codes "</b>"

price_html : Text × Text × Text → Text
price_html (exchange, instrument, time) =
    codes "price of <b>"
    ++ instrument_link exchange instrument
    ++ codes "</b> on <b>"
    ++ exchange_link exchange
    ++ codes "</b> at <b>"
    ++ time
    ++ codes "</b>"

-- A match's teams and date, as both of its sentences begin.
between : Text × Text → Text → Text → Text
between (competition, date) left right =
    lookup_competition competition
    ++ codes " match "
    ++ left
    ++ codes " vs "
    ++ right
    ++ codes " on "
    ++ date
    ++ codes "."

if_wins : Text → Text → Text → Text
if_wins name words attested = codes "If " ++ name ++ words ++ attested

module _ {E : Type 0} where
  match_html : EventId → Text × Text → VsMatchKind → Text → Text → Result E Text
  unfolding at show_outcome between if_wins
  match_html id info win_or_draw left right = do
    first ← show_outcome (at id 0)
    second ← show_outcome (at id 1)
    third ← show_outcome (at id 2)
    ok (
        between info left right
        ++ b' ' ∷ if_wins left (codes " wins the oracle will attest ") first
        ++ b'.' ∷ b' ' ∷ if_wins right (codes " wins the oracle will attest ") second
        ++ codes ". Otherwise the oracle will attest "
        ++ third)
  match_html id info win left right = do
    first ← show_outcome (at id 0)
    second ← show_outcome (at id 1)
    ok (
        codes "The winner of "
        ++ between info left right
        ++ if_wins left (codes " wins then the oracle will attest ") first
        ++ b'.' ∷ if_wins right (codes " wins then the oracle will attest ") second)

  -- `id.parties()?` of a match that is listed below a competition.
  parties_html : EventId → Text × Text → VsMatchKind → Option (Text × Text) → Result E (Option Text)
  unfolding match_html
  parties_html id info k none = ok none
  parties_html id info k (some (left, right)) = do
    html ← match_html id info k (lookup_team info.0 left) (lookup_team info.0 right)
    ok (some html)

  short_html : EventId → Result E (Option Text)
  short_html id = do s ← event_short id; ok (some (s ++ b'.' ∷ []))

  predicate_html :
      (EventId → Result E (Option Text)) → EventId → EventId → Predicate → Result E Text
  unfolding at show_outcome show_event_id unwrap_or
  predicate_html event_html id inner_id (eq value) = do
    o ← expect_ok (try_from_id_and_outcome inner_id value)
    desc ← outcome o
    holds ← show_outcome (at id 1)
    inner ← show_outcome o
    fails ← show_outcome (at id 0)
    ok (
        codes "Whether "
        ++ desc.positive
        ++ codes ".The oracle will attest to "
        ++ holds
        ++ codes " if the outcome of "
        ++ show_event_id inner_id
        ++ codes " is "
        ++ inner
        ++ codes ". Otherwise "
        ++ fails)
  predicate_html event_html id inner_id (bound _ n) = do
    html ← event_html inner_id
    short ← event_short inner_id
    ok (
        codes "Whether the "
        ++ unwrap_or html short
        ++ codes " is greater than <b>"
        ++ show_uint n
        ++ codes "</b>")

  -- The arms behind that of a random event.
  kind_html :
      (EventId → Result E (Option Text)) → EventId → List Text → EventKind → Result E (Option Text)
  unfolding parties_html price_html short_html predicate_html
  kind_html event_html id ss (vs_match k) = elim (match_segments ss) [
    | some info ↦ parties id >>= parties_html id info k
    | none ↦ short_html id
  ]
  kind_html event_html id ss (price _) = elim (price_segments ss) [
    | some parts ↦ ok (some (price_html parts))
    | none ↦ short_html id
  ]
  kind_html event_html id ss (predicate inner pred) = do
    inner_id ← replace_kind id inner
    html ← predicate_html event_html id inner_id pred
    ok (some html)
  kind_html event_html id ss single_occurrence = short_html id

  html_body : (EventId → Result E (Option Text)) → EventId → Result E (Option Text)
  unfolding random_html kind_html
  html_body event_html id = do
    p ← path id
    k ← event_kind id
    elim (random_time (Path.segments p)) [
      | some time ↦ n_outcomes id >>= λ n. ok (some (random_html n time))
      | none ↦ kind_html event_html id (Path.segments p) k
    ]

  html_within : ℕ → EventId → Result E (Option Text)
  unfolding html_body
  html_within zero id = panic
  html_within (suc fuel) id = html_body (html_within fuel) id

  unfoldable pub event_html : EventId → Result E (Option Text)
  unfolding html_within
  event_html id = html_within (suc (length id)) id

-- An absent description is `None`.
or_none : Option Text → Maybe Text
or_none none = err tt
or_none (some s) = ok s

unfoldable pub event_html_str : Text → Maybe Text
unfolding event_html or_none
event_html_str s = map_err (λ _. tt) (Event.from_str s) >>= λ id. event_html id >>= or_none
