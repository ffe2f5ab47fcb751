-- ===== src/Predicates/Valid.antt =====
-- The predicates that are announced beside an event are events.
use olivia.Base.{
  ℕ, zero, suc, ◌+◌, ◌<◌, ◌≤◌, Text, Lacks, All, List, [], ◌∷◌, length, ok, ◌≡◌, refl, ap, ◌∙◌,
  arith,
}
use olivia.Kind.{EventKind, is_eq}
use olivia.EventId.{EventId, event_kind, n_outcomes}
use olivia.Outcome.{OutcomeError, outcome_string}
use olivia.Outcome.RoundTrip.{outcome_string-round_trip}
use olivia.Event
use olivia.Event.{predicate_id}
use olivia.Event.Parse.{from_str_sound}
use olivia.Event.Predicated.{IsBasic, predicate_id-valid}
use olivia.Predicates.{pattern_all, range, outcomes_for, predicate_ids, apply_to_event_id}

-- An id that can be parsed.
abbrev pub Parses : EventId → Type 0
Parses id = Event.from_str id ≡ ok id

range-All : (from n m : ℕ) → from + n ≤ m → All (λ v. v < m) (range from n)
unfolding range
range-All from zero m h = tt
range-All from (suc n) m h = (omega arith, range-All (suc from) n m (omega arith))

length-range : (from n : ℕ) → length (range from n) ≡ n
unfolding range
length-range from zero = refl
length-range from (suc n) = ap suc (length-range (suc from) n)

-- An event that can be parsed, is no predicate, and has no question mark in a text of its outcomes.
module _ (id : EventId) (k : EventKind) (n : ℕ) (valid : Parses id)
    (is_kind : event_kind {E = OutcomeError} id ≡ ok k) (basic : IsBasic k)
    (count : n_outcomes {E = OutcomeError} id ≡ ok n)
    (no_mark : (v : ℕ) (s : Text)
      → outcome_string {E = OutcomeError} (record { id = id; value = v }) ≡ ok s
      → Lacks b'?' s) where
  predicate_ids-Parses :
      (vs : List ℕ)
      → All (λ v. v < n) vs
      → (news : List EventId) × (predicate_ids {E = OutcomeError} id is_eq vs ≡ ok news)
        × (length news ≡ length vs)
        × All Parses news
  unfolding predicate_ids
  predicate_ids-Parses [] h = ([], refl, refl, tt)
  predicate_ids-Parses (v ∷ vs) (lt, h) =
      let (_, _, h') = from_str_sound id id valid in
      let (s, written, _) =
        outcome_string-round_trip (record { id = id; value = v }) {E = OutcomeError} n h' count
          lt in
      let (new, made, parses) =
        predicate_id-valid id k n v s valid is_kind basic count lt written (no_mark v s written) in
      let (news, rest, size, all) = predicate_ids-Parses vs h in
      (
        new ∷ news,
        rw (made, predicate_ids) (rw (rest, predicate_ids) refl),
        ap suc size,
        (parses, all),
      )

  -- The equalities with all outcomes of an event that can be parsed and is no predicate are as many as
  -- the outcomes, and each can be parsed, if no outcome has a text with a question mark.
  pub apply_to_event_id-Parses :
      (news : List EventId) × (apply_to_event_id {E = OutcomeError}
          (record { outcome_filter = pattern_all; predicate_kind = is_eq })
          id
        ≡ ok news)
      × (length news ≡ n)
      × All Parses news
  unfolding apply_to_event_id outcomes_for
  apply_to_event_id-Parses =
      let (news, made, size, all) =
        predicate_ids-Parses (range 0 n) (range-All 0 n n (omega arith)) in
      (news, rw (count, outcomes_for) made, size ∙ length-range 0 n, all)
