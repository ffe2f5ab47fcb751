-- ===== src/Tests/Ids.antt =====
-- Event ids and outcomes at concrete inputs.
use olivia.Base.{
  ℕ, ◌<◌, ◌^◌, ◌-◌, min, Text, codes, text_eq, All, length, ◌≡◌, ◌↔◌, refl, List, [], ◌∷◌, ok, err,
  panic, arith,
}
use olivia.Base.Slices
use olivia.Base.Slices.{split_once, split}
use olivia.Base.Decimal.{parse_uint}
use olivia.Path
use olivia.Path.Prefix.{IsPath}
use olivia.Kind
use olivia.Kind.{EventKind, is_eq, unexpected_args, vs_match, win_or_draw, price}
use olivia.EventId.{EventId, from_path_and_kind, event_kind, both_parties, n_outcomes}
use olivia.EventId.Valid.{IsEventId}
use olivia.Outcome.{
  Outcome, OutcomeError, outcome_string, try_from_id_and_outcome, attestation_indexes,
}
use olivia.Outcome.RoundTrip.{outcome_string-round_trip}
use olivia.Outcome.Sound.{IsRead, try_from_id_and_outcome_sound}
use olivia.Outcome.Indexes.{number, attestation_indexes-price}
use olivia.Outcome.Signing.{attestation_string-injective}
use olivia.Event
use olivia.Event.{predicate_id, EventIdError, kind}
use olivia.Event.Parse.{from_str_sound}
use olivia.Event.Crash.{Crashes, from_str_panic_iff}
use olivia.Event.Predicated.{predicate_id-valid, predicate_id_marked}

abbrev pub red_blue : EventId
red_blue = codes "/foo/RED_BLUE.vs"

abbrev red_mark : EventId
red_mark = codes "/foo/RED?_BLUE.vs"

abbrev price_6 : EventId
price_6 = codes "/foo/bar.price?n=6"

pub red_blue_read : Event.from_str red_blue ≡ ok red_blue
unfolding Event.from_str Path.last Path.from_str Path.strip_event Slices.rsplit_once split_once
    Kind.from_str text_eq split parse_uint
red_blue_read = refl

pub red_blue_kind : {E : Type 0} → event_kind {E = E} red_blue ≡ ok (vs_match win_or_draw)
unfolding event_kind Path.strip_event Slices.rsplit_once split_once Kind.from_str text_eq split
    parse_uint
red_blue_kind = refl

pub red_blue_outcomes : {E : Type 0} → n_outcomes {E = E} red_blue ≡ ok 3
unfolding n_outcomes event_kind Path.strip_event Slices.rsplit_once split_once Kind.from_str text_eq
    split parse_uint
red_blue_outcomes = refl

pub red_wins :
    outcome_string {E = OutcomeError} (record { id = red_blue; value = 0 }) ≡ ok (codes "RED_win")
unfolding outcome_string event_kind both_parties Path.last Path.strip_event Slices.rsplit_once
    split_once Kind.from_str text_eq split parse_uint
red_wins = refl

red_mark_read : Event.from_str red_mark ≡ ok red_mark
unfolding Event.from_str Path.last Path.from_str Path.strip_event Slices.rsplit_once split_once
    Kind.from_str text_eq split parse_uint
red_mark_read = refl

red_mark_kind : {E : Type 0} → event_kind {E = E} red_mark ≡ ok (vs_match win_or_draw)
unfolding event_kind Path.strip_event Slices.rsplit_once split_once Kind.from_str text_eq split
    parse_uint
red_mark_kind = refl

red_mark_outcomes : {E : Type 0} → n_outcomes {E = E} red_mark ≡ ok 3
unfolding n_outcomes event_kind Path.strip_event Slices.rsplit_once split_once Kind.from_str text_eq
    split parse_uint
red_mark_outcomes = refl

red_mark_wins :
    outcome_string {E = OutcomeError} (record { id = red_mark; value = 0 }) ≡ ok (codes "RED?_win")
unfolding outcome_string event_kind both_parties Path.last Path.strip_event Slices.rsplit_once
    split_once Kind.from_str text_eq split parse_uint
red_mark_wins = refl

blue_read :
    try_from_id_and_outcome red_blue (codes "BLUE_win") ≡ ok (record { id = red_blue; value = 1 })
unfolding try_from_id_and_outcome Slices.strip_suffix event_kind both_parties Path.last
    Path.strip_event Slices.rsplit_once split_once Kind.from_str text_eq split parse_uint
blue_read = refl

price_6_kind : {E : Type 0} → event_kind {E = E} price_6 ≡ ok (price 6)
unfolding event_kind Path.strip_event Slices.rsplit_once split_once Kind.from_str text_eq split
    parse_uint
price_6_kind = refl

price_6_bits :
    attestation_indexes {E = OutcomeError} (record { id = price_6; value = 36 })
    ≡ ok (1 ∷ 0 ∷ 0 ∷ 1 ∷ 0 ∷ 0 ∷ [])
unfolding attestation_indexes event_kind Path.strip_event Slices.rsplit_once split_once
    Kind.from_str text_eq split parse_uint
price_6_bits = refl

price_6_capped :
    attestation_indexes {E = OutcomeError} (record { id = price_6; value = 100 })
    ≡ ok (1 ∷ 1 ∷ 1 ∷ 1 ∷ 1 ∷ 1 ∷ [])
unfolding attestation_indexes event_kind Path.strip_event Slices.rsplit_once split_once
    Kind.from_str text_eq split parse_uint
price_6_capped = refl

lone_crash : Event.from_str (codes "/foo.vs=bar_win") ≡ panic
unfolding Event.from_str try_from_id_and_outcome from_path_and_kind Kind.show_kind both_parties
    event_kind Path.last Path.from_str Path.strip_event Slices.rsplit_once split_once Kind.from_str
    text_eq split parse_uint
lone_crash = refl

red_blue_valid : IsEventId red_blue
red_blue_valid = (from_str_sound red_blue red_blue red_blue_read).2

from_str_panic_iff_example :
    (Event.from_str (codes "/foo.vs=bar_win") ≡ panic) ↔ Crashes (codes "/foo.vs=bar_win")
from_str_panic_iff_example = from_str_panic_iff (codes "/foo.vs=bar_win")

from_str_sound_example : (red_blue ≡ red_blue) × IsPath red_blue × IsEventId red_blue
from_str_sound_example = from_str_sound red_blue red_blue red_blue_read

predicate_id-valid_example :
    (new : EventId) × (predicate_id {E = OutcomeError} red_blue is_eq 0 ≡ ok new)
    × (Event.from_str new ≡ ok new)
predicate_id-valid_example =
    predicate_id-valid red_blue (vs_match win_or_draw) 3 0 (codes "RED_win") red_blue_read
      red_blue_kind tt red_blue_outcomes (omega arith) red_wins (omega arith)

predicate_id_marked_example :
    (new : EventId) × (predicate_id {E = OutcomeError} red_mark is_eq 0 ≡ ok new)
    × (Event.from_str new ≡ err (kind unexpected_args))
predicate_id_marked_example =
    predicate_id_marked red_mark (vs_match win_or_draw) 3 0 (codes "RED?_win") (codes "RED")
      (codes "_win") red_mark_read red_mark_kind tt red_mark_outcomes (omega arith) red_mark_wins
      (omega arith) refl

outcome_string-round_trip_example :
    (s : Text) × (outcome_string {E = OutcomeError} (record { id = red_blue; value = 1 }) ≡ ok s)
    × (try_from_id_and_outcome red_blue s ≡ ok (record { id = red_blue; value = 1 }))
outcome_string-round_trip_example =
    outcome_string-round_trip (record { id = red_blue; value = 1 }) {E = OutcomeError} 3
      red_blue_valid red_blue_outcomes (omega arith)

try_from_id_and_outcome_sound_example :
    (red_blue ≡ red_blue) × IsRead OutcomeError red_blue red_blue_valid.kind (codes "BLUE_win") 1
try_from_id_and_outcome_sound_example =
    try_from_id_and_outcome_sound red_blue (codes "BLUE_win") (record { id = red_blue; value = 1 })
      OutcomeError red_blue_valid blue_read

attestation_indexes-price_example :
    (bs : List ℕ) × (attestation_indexes {E = OutcomeError} (record { id = price_6; value = 100 })
      ≡ ok bs)
    × (length bs ≡ 6)
    × All (λ b. b < 2) bs
    × (number bs ≡ min 100 (2 ^ 6 - 1))
attestation_indexes-price_example =
    attestation_indexes-price (record { id = price_6; value = 100 }) 6 {E = OutcomeError}
      price_6_kind (omega arith)

attestation_string-injective_example :
    ◌≡◌ {A = Outcome} (record { id = red_blue; value = 2 }) (record { id = red_blue; value = 2 })
attestation_string-injective_example =
    attestation_string-injective (record { id = red_blue; value = 2 })
      (record { id = red_blue; value = 2 }) (omega arith) (omega arith) refl

-- A match of one party with itself is refused, but an equality on it is not.
one_party_refused : Event.from_str (codes "/a_a.vs") ≡ err Event.bad_format
unfolding Event.from_str Path.last Path.from_str Path.strip_event Slices.rsplit_once split_once
    Kind.from_str text_eq split parse_uint
one_party_refused = refl

one_party_equality_read : Event.from_str (codes "/a_a.vs=a_win") ≡ ok (codes "/a_a.vs=a_win")
unfolding Event.from_str Path.last Path.from_str Path.strip_event Slices.rsplit_once split_once
    Kind.from_str text_eq split parse_uint try_from_id_and_outcome event_kind from_path_and_kind
    Kind.show_kind both_parties Slices.strip_suffix
one_party_equality_read = refl
