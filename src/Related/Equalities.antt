-- ===== src/Related/Equalities.antt =====
-- What the equalities that are announced beside an event get from an outcome of the event.
use olivia.Base.{
  ℕ, ◌<◌, ltb, Text, Lacks, All, if◌then◌else◌, ◌==◌, Bool-cases, List, [], ◌∷◌, ok, ◌≡◌, refl, inl,
  inr,
}
use olivia.Kind.{EventKind, is_eq}
use olivia.EventId.{EventId, event_kind, n_outcomes}
use olivia.Outcome.{Outcome, OutcomeError, outcome_string}
use olivia.Outcome.RoundTrip.{outcome_string-round_trip}
use olivia.Event
use olivia.Event.{predicate_id}
use olivia.Event.Parse.{from_str_sound}
use olivia.Event.Predicated.{IsBasic}
use olivia.Predicates.{indexes, outcomes_for, predicate_ids, apply_to_event_id}
use olivia.Related.{related_outcomes, complete_related}
use olivia.Related.Equality.{related_outcome-predicate_id}

-- Each equality is true if it is with the value, and false otherwise.
abbrev pub settled : ℕ → List ℕ → List EventId → List Outcome
settled v (w ∷ ws) (new ∷ news) =
    record { id = new; value = if v == w then 1 else 0 } ∷ settled v ws news
settled v _ _ = []

-- An event that can be parsed, is no predicate, and has no question mark in a text of its outcomes.
module _ (id : EventId) (k : EventKind) (n v : ℕ) (valid : Event.from_str id ≡ ok id)
    (is_kind : event_kind {E = OutcomeError} id ≡ ok k) (basic : IsBasic k)
    (count : n_outcomes {E = OutcomeError} id ≡ ok n)
    (no_mark : (w : ℕ) (s : Text)
      → outcome_string {E = OutcomeError} (record { id = id; value = w }) ≡ ok s
      → Lacks b'?' s)
    (lt : v < n) where
  related_outcomes-predicate_ids :
      (ws : List ℕ)
      → All (λ w. w < n) ws
      → (news : List EventId) × (predicate_ids {E = OutcomeError} id is_eq ws ≡ ok news)
        × (related_outcomes {E = OutcomeError} (record { id = id; value = v }) k news
            ≡ ok (settled v ws news))
  unfolding predicate_ids related_outcomes
  related_outcomes-predicate_ids [] h = ([], refl, refl)
  related_outcomes-predicate_ids (w ∷ ws) (lt', h) =
      let (_, _, h') = from_str_sound id id valid in
      let (s, written, _) =
        outcome_string-round_trip (record { id = id; value = v }) {E = OutcomeError} n h' count
          lt in
      let (t, written', _) =
        outcome_string-round_trip (record { id = id; value = w }) {E = OutcomeError} n h' count
          lt' in
      let (new, made, found) =
        related_outcome-predicate_id id k n v w s t valid is_kind basic count lt lt' written
          written' (no_mark w t written') in
      let (news, rest, others) = related_outcomes-predicate_ids ws h in
      (
        new ∷ news,
        rw (made, predicate_ids) (rw (rest, predicate_ids) refl),
        rw (found, related_outcomes) (rw (others, related_outcomes) refl),
      )

  -- For an event that can be parsed, is no predicate and has no question mark in a text of its
  -- outcomes, and any of its outcomes: the equalities with chosen outcomes are announced beside it, and
  -- where `complete_related` is given them, it yields for each, in their order, the outcome true if the
  -- equality is with the outcome of the event and false otherwise; but nothing at all if the event has
  -- less than three outcomes.
  pub complete_related-apply_to_event_id :
      (ws : List ℕ)
      → All (λ w. w < n) ws
      → (news : List EventId) × (apply_to_event_id {E = OutcomeError}
            (record { outcome_filter = indexes ws; predicate_kind = is_eq })
            id
          ≡ ok news)
        × (complete_related {E = OutcomeError} (record { id = id; value = v }) news
            ≡ ok (if ltb n 3 then [] else settled v ws news))
  unfolding apply_to_event_id outcomes_for complete_related
  complete_related-apply_to_event_id ws h =
      let (news, made, found) = related_outcomes-predicate_ids ws h in
      (
        news,
        made,
        rw (count, complete_related)
            (elim (Bool-cases (ltb n 3)) [
              | inl few ↦ rw few refl
              | inr many ↦ rw many (rw (is_kind, complete_related) found)
            ]),
      )
