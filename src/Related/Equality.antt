-- ===== src/Related/Equality.antt =====
-- What follows for the equalities on an event from an outcome of the event.
use olivia.Base.{
  ℕ, ◌<◌, Text, text_eq, text_eq_iff, Lacks, Bool-cases, true, if◌then◌else◌, ◌==◌, ==_iff, some,
  Result, ok, ◌≡◌, refl, sym, ap, ◌∙◌, inl, inr,
}
use olivia.Kind.{
  EventKind, vs_match, win, win_or_draw, single_occurrence, predicate, price, is_eq, eq_fuzzy,
  predicate_outcome,
}
use olivia.EventId.{EventId, event_kind, n_outcomes}
use olivia.Outcome.{Outcome, OutcomeError, outcome_string, try_from_id_and_outcome}
use olivia.Outcome.RoundTrip.{outcome_string-round_trip}
use olivia.Event
use olivia.Event.{predicate_id, forget_digits}
use olivia.Event.Parse.{from_str_sound}
use olivia.Event.Predicated.{IsBasic, predicate_id-kind}
use olivia.Related.{related_outcome, follows, predicate_follows}

eq_fuzzy-forget_digits : (k : EventKind) → IsBasic k → eq_fuzzy (forget_digits k) k ≡ true
unfolding eq_fuzzy forget_digits
eq_fuzzy-forget_digits (vs_match win) b = refl
eq_fuzzy-forget_digits (vs_match win_or_draw) b = refl
eq_fuzzy-forget_digits single_occurrence b = refl
eq_fuzzy-forget_digits (predicate _ _) b = absurd b
eq_fuzzy-forget_digits (price n) b = refl

same_outcome : (a b : Outcome) → ◌≡◌ {A = Result OutcomeError Outcome} (ok a) (ok b) → a ≡ b
same_outcome a b h = cc

same_ok_text : (s t : Text) → ◌≡◌ {A = Result OutcomeError Text} (ok s) (ok t) → s ≡ t
same_ok_text s t h = cc

-- Two outcomes of an event have the same text exactly if they are the same.
text_eq-outcome_string :
    (id : EventId) (n v w : ℕ) (s t : Text)
    → Event.from_str id ≡ ok id
    → n_outcomes {E = OutcomeError} id ≡ ok n
    → v < n
    → w < n
    → outcome_string {E = OutcomeError} (record { id = id; value = v }) ≡ ok s
    → outcome_string {E = OutcomeError} (record { id = id; value = w }) ≡ ok t
    → text_eq s t ≡ (v == w)
text_eq-outcome_string id n v w s t valid count lt lt' written written' =
    let (_, _, h) = from_str_sound id id valid in
    let (s₁, e₁, read₁) =
      outcome_string-round_trip (record { id = id; value = v }) {E = OutcomeError} n h count lt in
    let (t₁, f₁, read₂) =
      outcome_string-round_trip (record { id = id; value = w }) {E = OutcomeError} n h count lt' in
    let p : s₁ ≡ s = same_ok_text s₁ s (sym e₁ ∙ written) in
    let q : t₁ ≡ t = same_ok_text t₁ t (sym f₁ ∙ written') in
    elim (Bool-cases (text_eq s t)) [
      | inl e ↦
          let same : s ≡ t = (text_eq_iff s t).0 e in
          let value : v ≡ w =
            ap (λ (o : Outcome). o.value)
              (same_outcome (record { id = id; value = v }) (record { id = id; value = w })
                (sym read₁ ∙ ap (try_from_id_and_outcome id) (p ∙ same ∙ sym q) ∙ read₂)) in
          e ∙ sym ((==_iff v w).1 value)
      | inr e ↦ elim (Bool-cases (v == w)) [
        | inr f ↦ e ∙ sym f
        | inl f ↦
            let value : v ≡ w = (==_iff v w).0 f in
            let same : s ≡ t = same_ok_text s t (
              sym written
              ∙ ap (λ (x : ℕ). outcome_string {E = OutcomeError} (record { id = id; value = x }))
                  value
              ∙ written') in
            absurd (cc ((text_eq_iff s t).1 same))
      ]
    ]

-- For an event that can be parsed and is no predicate, and two of its outcomes: the equality with the
-- one, if no question mark stands in its text, is an event for which `related_outcome`, the step of
-- `complete_related`, finds the outcome true when the event has the same outcome, and false when it has
-- another.
pub related_outcome-predicate_id :
    (id : EventId) (k : EventKind) (n v w : ℕ) (s t : Text)
    → Event.from_str id ≡ ok id
    → event_kind {E = OutcomeError} id ≡ ok k
    → IsBasic k
    → n_outcomes {E = OutcomeError} id ≡ ok n
    → v < n
    → w < n
    → outcome_string {E = OutcomeError} (record { id = id; value = v }) ≡ ok s
    → outcome_string {E = OutcomeError} (record { id = id; value = w }) ≡ ok t
    → Lacks b'?' t
    → (new : EventId) × (predicate_id {E = OutcomeError} id is_eq w ≡ ok new)
      × (related_outcome {E = OutcomeError} (record { id = id; value = v }) k new
          ≡ ok (some (record { id = new; value = if v == w then 1 else 0 })))
unfolding related_outcome follows predicate_follows predicate_outcome
related_outcome-predicate_id id k n v w s t valid is_kind basic count lt lt' written written' mark =
    let (new, made, kind) =
      predicate_id-kind id k n w t valid is_kind basic count lt' written' mark in
    (
      new,
      made,
      rw (kind, related_outcome)
          (rw (eq_fuzzy-forget_digits k basic, predicate_follows)
            (rw (written, predicate_follows)
              (rw (text_eq-outcome_string id n v w s t valid count lt lt' written written') refl))),
    )
