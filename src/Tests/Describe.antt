-- ===== src/Tests/Describe.antt =====
-- The tests of olivia_describe/src/lib.rs, and descriptions at other inputs.
use olivia.Base.{Text, codes, text_eq, ◌≡◌, ◌≢◌, refl, ok, err, panic}
use olivia.Base.Slices
use olivia.Base.Slices.{split_once, split, strip_suffix}
use olivia.Base.Decimal.{parse_uint, show_uint}
use olivia.Path
use olivia.Kind
use olivia.Kind.{predicate, vs_match, win_or_draw, eq}
use olivia.EventId.{
  EventId, from_path_and_kind, path, event_kind, both_parties, n_outcomes, replace_kind,
}
use olivia.Outcome.{Outcome, OutcomeError, outcome_string, try_from_id_and_outcome}
use olivia.Event
use olivia.Describe.Tables.{lookup_team, lookup_competition, exchange_link, instrument_link}
use olivia.Describe.{OutcomeDesc, event_short, event_short_str, outcome, outcome_str}
use olivia.Describe.Paths.{path_short_str, path_html_str, long_path_name_str}
use olivia.Describe.Paths.Agree.{Agree, path_descriptions-Agree}
use olivia.Describe.Safe.{event_short-outcome_total, outcome-eq}
use olivia.Describe.Html.{event_html_str}

outcome_str_tests :
    (outcome_str (codes "/s/EPL/match/2021-08-13/BRE_ARS.vs") (codes "BRE_win")
      ≡ ok (codes "Brentford beats Arsenal in their English Premier League match on 2021-08-13"))
    × (outcome_str (codes "/s/EPL/match/2021-08-13/BRE_ARS.vs=ARS_win") (codes "false")
        ≡ ok (
            codes
              "Arsenal does not beat Brentford in their English Premier League match on 2021-08-13"))
    × (outcome_str (codes "/s/EPL/match/2021-08-13/BRE_ARS.vs=draw") (codes "true")
        ≡ ok (
            codes "Brentford and Arsenal draw in their English Premier League match on 2021-08-13"))
unfolding outcome_str lookup_team lookup_competition from_path_and_kind Event.from_str
    try_from_id_and_outcome Slices.strip_suffix event_kind both_parties replace_kind path
    outcome_string Path.last Path.segments Path.from_str Path.strip_event Slices.rsplit_once
    split_once Kind.from_str Kind.show_kind text_eq split parse_uint
outcome_str_tests = (refl, refl, refl)

path_short_str_tests :
    (path_short_str (codes "/x/BitMEX") ≡ ok (codes "exchange rates and prices on BitMEX"))
    × (path_short_str (codes "/x/BitMEX/BXBT") ≡ ok (codes "BXBT on BitMEX"))
    × (path_short_str (codes "/x/BitMEX/BXBT/2021-10-05T5:00:00")
        ≡ ok (codes "BXBT on BitMEX at 2021-10-05T5:00:00"))
    × (path_short_str (codes "/x/BitMEX/BXBT/2021-10-05T500:00:00") ≡ err tt)
unfolding path_short_str Path.segments Path.from_str text_eq split split_once parse_uint
path_short_str_tests = (refl, refl, refl, refl)

event_short_str_tests :
    (event_short_str (codes "/x/BitMEX/BXBT/2021-10-05T5:00:00.price?n=20")
      ≡ ok (codes "price of BXBT on BitMEX at 2021-10-05T5:00:00"))
    × (event_short_str (codes "/x/BitMEX/BXBT/2021-10-05T5:00:00.price_10000")
        ≡ ok (
            codes
              "assertion that the price of BXBT on BitMEX at 2021-10-05T5:00:00 will be greater than 10000"))
    × (event_short_str (codes "/foo/RED_BLUE.winner") ≡ ok (codes "winner of RED vs BLUE in /foo"))
    × (event_short_str (codes "/x/A/B/C.price_7=false")
        ≡ ok (codes "assertion that the price of B on A at C is not above 7"))
unfolding event_short_str lookup_team lookup_competition from_path_and_kind Event.from_str
    try_from_id_and_outcome Slices.strip_suffix event_kind both_parties replace_kind path
    outcome_string Path.last Path.parent Path.segments Path.from_str Path.strip_event
    Slices.rsplit_once split_once Kind.from_str Kind.show_kind show_uint text_eq split parse_uint
event_short_str_tests = (refl, refl, refl, refl)

abbrev draw_predicate : EventId
draw_predicate = codes "/s/EPL/match/2021-08-13/BRE_ARS.vs=draw"

draw_predicate_read : Event.from_str draw_predicate ≡ ok draw_predicate
unfolding Event.from_str from_path_and_kind try_from_id_and_outcome Slices.strip_suffix event_kind
    both_parties Path.last Path.from_str Path.strip_event Slices.rsplit_once split_once
    Kind.from_str Kind.show_kind text_eq split parse_uint
draw_predicate_read = refl

draw_predicate_kind :
    event_kind {E = OutcomeError} draw_predicate
    ≡ ok (predicate (vs_match win_or_draw) (eq (codes "draw")))
unfolding event_kind Path.strip_event Slices.rsplit_once split_once Kind.from_str text_eq split
    parse_uint
draw_predicate_kind = refl

event_short-outcome_total_example :
    ((s : Text) × (event_short {E = OutcomeError} draw_predicate ≡ ok s))
    × ((s : Text) (o : Outcome)
        → try_from_id_and_outcome draw_predicate s ≡ ok o
        → (d : OutcomeDesc) × (outcome {E = OutcomeError} o ≡ ok d))
event_short-outcome_total_example = event_short-outcome_total draw_predicate draw_predicate_read

outcome-eq_example :
    (inner_id : EventId) × (o : Outcome) × (d : OutcomeDesc) × (replace_kind {E = OutcomeError}
        draw_predicate
        (vs_match win_or_draw)
      ≡ ok inner_id)
    × (try_from_id_and_outcome inner_id (codes "draw") ≡ ok o)
    × (outcome {E = OutcomeError} o ≡ ok d)
    × (outcome {E = OutcomeError} (record { id = draw_predicate; value = 1 }) ≡ ok d)
    × (outcome {E = OutcomeError} (record { id = draw_predicate; value = 0 })
        ≡ ok (record { positive = d.negative; negative = d.positive }))
outcome-eq_example =
    outcome-eq draw_predicate (vs_match win_or_draw) (codes "draw") draw_predicate_read
      draw_predicate_kind

path_descriptions-Agree_example :
    Agree (path_short_str (codes "/x/BitMEX")) (path_html_str (codes "/x/BitMEX"))
    × (long_path_name_str (codes "/x/BitMEX") ≢ panic)
path_descriptions-Agree_example = path_descriptions-Agree (codes "/x/BitMEX")

event_html_str_tests :
    (event_html_str (codes "/foo/RED_BLUE.winner") ≡ ok (codes "winner of RED vs BLUE in /foo."))
    × (event_html_str (codes "/x/A/B/C.price_7")
        ≡ ok (
            codes "Whether the price of <b>B</b> on <b>A</b> at <b>C</b> is greater than <b>7</b>"))
unfolding event_html_str event_short n_outcomes lookup_team lookup_competition from_path_and_kind
    Event.from_str try_from_id_and_outcome Slices.strip_suffix event_kind both_parties replace_kind
    path outcome_string Path.last Path.parent Path.segments Path.from_str Path.strip_event
    Slices.rsplit_once split_once Kind.from_str Kind.show_kind show_uint text_eq split parse_uint
    exchange_link instrument_link
event_html_str_tests = (refl, refl)
