-- ===== src/Tests/Predicates.antt =====
-- Predicates on events at concrete inputs.
use olivia.Base.{
  ℕ, zero, suc, Text, codes, text_eq, Lacks, All, List, [], ◌∷◌, ltb, length, Result, ok, panic,
  if◌then◌else◌, ◌≡◌, refl, sym, ◌∙◌, arith,
}
use olivia.Base.Slices.{rsplit_once, split_once, split}
use olivia.Base.Decimal.{parse_uint}
use olivia.Path
use olivia.Kind
use olivia.Kind.{is_eq, single_occurrence, vs_match, win_or_draw}
use olivia.EventId.{EventId, both_parties, event_kind, n_outcomes}
use olivia.Outcome.{OutcomeError, outcome_string}
use olivia.Event
use olivia.Event.{predicate_id}
use olivia.Predicates.{pattern_all, indexes, apply_to_event_id}
use olivia.Predicates.Valid.{Parses, apply_to_event_id-Parses}
use olivia.Related.{complete_related}
use olivia.Related.Equalities.{settled, complete_related-apply_to_event_id}
use olivia.Tests.Ids.{red_blue, red_blue_read, red_blue_kind, red_blue_outcomes, red_wins}

abbrev launch : EventId
launch = codes "/foo/launch.occur"

launch_read : Parses launch
unfolding Event.from_str Path.last Path.from_str Path.strip_event rsplit_once split_once
    Kind.from_str text_eq split parse_uint
launch_read = refl

launch_kind : {E : Type 0} → event_kind {E = E} launch ≡ ok single_occurrence
unfolding event_kind Path.strip_event rsplit_once split_once Kind.from_str text_eq split parse_uint
launch_kind = refl

launch_outcomes : {E : Type 0} → n_outcomes {E = E} launch ≡ ok 1
unfolding n_outcomes event_kind Path.strip_event rsplit_once split_once Kind.from_str text_eq split
    parse_uint
launch_outcomes = refl

launch_string :
    outcome_string {E = OutcomeError} (record { id = launch; value = 0 }) ≡ ok (codes "true")
unfolding outcome_string event_kind Path.strip_event rsplit_once split_once Kind.from_str text_eq
    split parse_uint
launch_string = refl

launch_other :
    (v : ℕ) → outcome_string {E = OutcomeError} (record { id = launch; value = suc v }) ≡ panic
unfolding outcome_string event_kind Path.strip_event rsplit_once split_once Kind.from_str text_eq
    split parse_uint
launch_other v = ground arith

same_text : (s t : Text) → ◌≡◌ {A = Result OutcomeError Text} (ok s) (ok t) → s ≡ t
same_text s t h = cc

no_mark :
    (v : ℕ) (s : Text)
    → outcome_string {E = OutcomeError} (record { id = launch; value = v }) ≡ ok s
    → Lacks b'?' s
no_mark zero s h = rw (same_text s (codes "true") (sym h ∙ launch_string)) (omega arith)
no_mark (suc v) s h = absurd (cc (launch_other v))

apply_to_event_id-Parses_example :
    (news : List EventId) × (apply_to_event_id {E = OutcomeError}
        (record { outcome_filter = pattern_all; predicate_kind = is_eq })
        launch
      ≡ ok news)
    × (length news ≡ 1)
    × All Parses news
apply_to_event_id-Parses_example =
    apply_to_event_id-Parses launch single_occurrence 1 launch_read launch_kind tt launch_outcomes
      no_mark

blue_wins :
    outcome_string {E = OutcomeError} (record { id = red_blue; value = 1 }) ≡ ok (codes "BLUE_win")
unfolding outcome_string event_kind both_parties Path.last Path.strip_event rsplit_once split_once
    Kind.from_str text_eq split parse_uint
blue_wins = refl

red_blue_draw :
    outcome_string {E = OutcomeError} (record { id = red_blue; value = 2 }) ≡ ok (codes "draw")
unfolding outcome_string event_kind both_parties Path.last Path.strip_event rsplit_once split_once
    Kind.from_str text_eq split parse_uint
red_blue_draw = refl

red_blue_other :
    (v : ℕ)
    → outcome_string {E = OutcomeError} (record { id = red_blue; value = suc (suc (suc v)) })
      ≡ panic
unfolding outcome_string event_kind both_parties Path.last Path.strip_event rsplit_once split_once
    Kind.from_str text_eq split parse_uint
red_blue_other v = ground arith

red_blue_no_mark :
    (v : ℕ) (s : Text)
    → outcome_string {E = OutcomeError} (record { id = red_blue; value = v }) ≡ ok s
    → Lacks b'?' s
red_blue_no_mark zero s h = rw (same_text s (codes "RED_win") (sym h ∙ red_wins)) (omega arith)
red_blue_no_mark (suc zero) s h =
    rw (same_text s (codes "BLUE_win") (sym h ∙ blue_wins)) (omega arith)
red_blue_no_mark (suc (suc zero)) s h =
    rw (same_text s (codes "draw") (sym h ∙ red_blue_draw)) (omega arith)
red_blue_no_mark (suc (suc (suc v))) s h = absurd (cc (red_blue_other v))

complete_related-apply_to_event_id_example :
    (news : List EventId) × (apply_to_event_id {E = OutcomeError}
        (record { outcome_filter = indexes (0 ∷ 1 ∷ []); predicate_kind = is_eq })
        red_blue
      ≡ ok news)
    × (complete_related {E = OutcomeError} (record { id = red_blue; value = 1 }) news
        ≡ ok (if ltb 3 3 then [] else settled 1 (0 ∷ 1 ∷ []) news))
complete_related-apply_to_event_id_example =
    complete_related-apply_to_event_id red_blue (vs_match win_or_draw) 3 1 red_blue_read
      red_blue_kind tt red_blue_outcomes red_blue_no_mark (omega arith) (0 ∷ 1 ∷ [])
      (omega arith, (omega arith, tt))
