-- ===== src/Event/Predicated.antt =====
-- `EventId::predicate`: when the id of a predicated event is an event's id again.
use olivia.Base.{
  ℕ, ◌<◌, Text, ◌≡◌, ◌≢◌, refl, sym, ap, ◌∙◌, subst, some, [], ◌∷◌, ◌++◌, Result, ok, err, arith,
  Lacks, cons-ne-nil, middle-ne-nil, All-append, false,
}
use olivia.Base.Slices.{split}
use olivia.Path
use olivia.Path.Prefix.{IsPath, IsPath-replace}
use olivia.Path.Events.{IsEventPath, strip_event-append, strip_event-eq-some}
use olivia.Kind
use olivia.Kind.{
  EventKind, vs_match, single_occurrence, predicate, price, eq, win, win_or_draw, show_kind, is_eq,
  unexpected_args,
}
use olivia.Kind.RoundTrip.{
  IsInner, IsWellFormed, from_str-show_kind, from_str-mark, show_kind-Lacks,
}
use olivia.Kind.Sound.{from_str-IsWellFormed}
use olivia.EventId.{
  EventId, event_kind, both_parties, n_outcomes, kind_outcomes, from_path_and_kind, first_two,
}
use olivia.EventId.Valid.{
  IsEventId, HasParties, event_kind_lem, both_parties_of, event_kind_of, replace_kind_lem,
  n_outcomes_lem,
}
use olivia.Outcome.{OutcomeError, write_value, try_from_id_and_outcome, outcome_string}
use olivia.Outcome.Slashes.{write_value-Lacks_slash}
use olivia.Outcome.RoundTrip.{outcome_string-round_trip}
use olivia.Event.Parse.{from_str_sound}
use olivia.Event.Crash.{inner_cut, show_kind-Lacks_slash}
use olivia.Event.{
  kind, check_eq, check_kind, try_from, from_str, forget_digits, is_predicate, predicate_on,
  predicated, predicate_id,
}

-- A predicate can be put on a kind that is no predicate.
abbrev pub IsBasic : EventKind → Type 0
IsBasic (predicate _ _) = ⊥
IsBasic _ = Unit

same_match : (m : Kind.VsMatchKind) → forget_digits (vs_match m) ≡ vs_match m
unfolding forget_digits
same_match m = refl

IsBasic-false : (k : EventKind) → IsBasic k → is_predicate k ≡ false
unfolding is_predicate
IsBasic-false (vs_match _) b = refl
IsBasic-false single_occurrence b = refl
IsBasic-false (predicate _ _) b = absurd b
IsBasic-false (price _) b = refl

forget_digits-IsWellFormed :
    (k : EventKind)
    → IsBasic k
    → IsWellFormed k
    → IsWellFormed (forget_digits k) × IsInner (forget_digits k)
unfolding forget_digits
forget_digits-IsWellFormed (vs_match _) b w = (tt, tt)
forget_digits-IsWellFormed single_occurrence b w = (tt, tt)
forget_digits-IsWellFormed (predicate _ _) b w = absurd b
forget_digits-IsWellFormed (price n) b w = (omega arith, refl)

forget_digits-HasParties :
    (p : Text) (k : EventKind) → HasParties p k → HasParties p (forget_digits k)
unfolding forget_digits
forget_digits-HasParties p (vs_match _) h = h
forget_digits-HasParties p single_occurrence h = h
forget_digits-HasParties p (predicate _ _) h = h
forget_digits-HasParties p (price n) h = h

forget_digits-outcomes : (k : EventKind) → kind_outcomes (forget_digits k) ≡ kind_outcomes k
unfolding forget_digits kind_outcomes
forget_digits-outcomes (vs_match _) = refl
forget_digits-outcomes single_occurrence = refl
forget_digits-outcomes (predicate _ _) = refl
forget_digits-outcomes (price n) = refl

-- The text of an outcome depends on the parties only.
write_value_same :
    {E : Type 0} (id id' : EventId) (k : EventKind) (v : ℕ)
    → ((m : Kind.VsMatchKind) → k ≡ vs_match m → both_parties {E = E} id ≡ both_parties {E = E} id')
    → write_value {E = E} id k v ≡ write_value {E = E} id' (forget_digits k) v
unfolding write_value forget_digits
write_value_same id id' (vs_match win) v h = ground (arith, h win refl)
write_value_same id id' (vs_match win_or_draw) v h = ground (arith, h win_or_draw refl)
write_value_same id id' single_occurrence v h = refl
write_value_same id id' (predicate _ _) v h = refl
write_value_same id id' (price n) v h = refl

-- The id of an equality on an event.
module _ {id : EventId} (h : IsEventId id) (basic : IsBasic h.kind) (w : IsWellFormed h.kind)
    (is_path : IsPath id) (v : ℕ) (s : Text) (lt : v < kind_outcomes h.kind)
    (written : write_value {E = OutcomeError} id h.kind v ≡ ok s) where
  named : IsEventPath h.name
  named = (strip_event-eq-some id h.name h.kind_text h.cut).0

  abbrev inner : EventKind
  inner = forget_digits h.kind

  inner_ok : IsWellFormed inner × IsInner inner
  inner_ok = forget_digits-IsWellFormed h.kind basic w

  abbrev inner_id : EventId
  inner_id = from_path_and_kind h.name inner

  abbrev inner_valid : IsEventId inner_id
  inner_valid = record {
    name = h.name;
    kind_text = show_kind inner;
    cut = inner_cut named inner inner_ok.0 inner_ok.1;
    kind = inner;
    read = from_str-show_kind inner inner_ok.0;
    matched = forget_digits-HasParties h.name h.kind h.matched;
  }

  same_written : write_value {E = OutcomeError} inner_id inner v ≡ ok s
  same_written =
      sym (
        write_value_same id inner_id h.kind v
          (λ m e. both_parties_of id h.name h.kind_text h.cut h.read e ∙ sym (parties_inner m e)))
      ∙ written
    where
      parties_inner :
          (m : Kind.VsMatchKind)
          → h.kind ≡ vs_match m
          → both_parties {E = OutcomeError} inner_id ≡ first_two (split (Path.last h.name) b'_')
      parties_inner m e =
          both_parties_of inner_id h.name (show_kind inner) inner_valid.cut inner_valid.read {v = m}
            (ap forget_digits e ∙ same_match m)

  -- The value of the equality is an outcome of the event.
  value_valid : try_from_id_and_outcome inner_id s ≡ ok (record { id = inner_id; value = v })
  unfolding outcome_string
  value_valid =
      let (s', written', read) =
        outcome_string-round_trip (record { id = inner_id; value = v }) {E = OutcomeError}
          (kind_outcomes inner) inner_valid (n_outcomes_lem inner_valid)
          (rw (forget_digits-outcomes h.kind) lt) in
      let same : ◌≡◌ {A = Result OutcomeError Text} (ok s') (ok s) =
        sym written' ∙ rw (event_kind_lem inner_valid, outcome_string) same_written in
      let same_text : s' ≡ s = cc in rw same_text at read

  abbrev new_id : EventId
  new_id = h.name ++ b'.' ∷ show_kind (predicate inner (eq s))

  new_text : show_kind (predicate inner (eq s)) ≡ show_kind inner ++ b'=' ∷ s
  unfolding show_kind
  new_text = refl

  new_text-Lacks_slash : Lacks b'/' (show_kind (predicate inner (eq s)))
  new_text-Lacks_slash = rw new_text (
      All-append _ (show_kind inner) (b'=' ∷ s) (show_kind-Lacks_slash inner inner_ok.0 inner_ok.1)
        (
          omega arith,
          write_value-Lacks_slash h named OutcomeError h.kind v s refl h.matched written,
        ))

  new_cut : Path.strip_event new_id ≡ some (h.name, show_kind (predicate inner (eq s)))
  new_cut = strip_event-append named _ new_text-Lacks_slash

  name-ne-nil : h.name ≢ []
  name-ne-nil e = middle-ne-nil b'/' named.before named.name (sym named.parts ∙ e)

  new-IsPath : IsPath new_id
  new-IsPath =
      IsPath-replace h.name (b'.' ∷ h.kind_text) (b'.' ∷ show_kind (predicate inner (eq s)))
        name-ne-nil (cons-ne-nil _ _) (omega arith, new_text-Lacks_slash)
        (subst IsPath (strip_event-eq-some id h.name h.kind_text h.cut).1 is_path)

  new_id_made :
      {E : Type 0}
      → write_value {E = E} id h.kind v ≡ ok s
      → predicate_id {E = E} id is_eq v ≡ ok new_id
  unfolding predicate_id predicated predicate_on outcome_string
  new_id_made e =
      rw (event_kind_lem h, predicate_id)
        (rw (IsBasic-false h.kind basic, predicated)
          (rw (event_kind_lem h, predicate_on)
            (rw (e, predicate_on) (replace_kind_lem h (predicate inner (eq s))))))

  new_id_kind :
      {E : Type 0} → Lacks b'?' s → event_kind {E = E} new_id ≡ ok (predicate inner (eq s))
  new_id_kind mark =
      event_kind_of new_id h.name (show_kind (predicate inner (eq s))) new_cut
        (from_str-show_kind (predicate inner (eq s)) (inner_ok.0, inner_ok.1, mark))

  new_id_read : Lacks b'?' s → from_str new_id ≡ ok new_id
  unfolding from_str check_kind
  new_id_read mark =
      let read = from_str-show_kind (predicate inner (eq s)) (inner_ok.0, inner_ok.1, mark) in
      rw (new-IsPath, from_str)
        (rw (new_cut, try_from) (rw (read, try_from) (rw (value_valid, check_eq))))

  new_id_refused :
      (a b : Text) → Lacks b'?' a → s ≡ a ++ b'?' ∷ b → from_str new_id ≡ err (kind unexpected_args)
  unfolding from_str try_from
  new_id_refused a b no_mark marked =
      let (q, e) = show_kind-Lacks inner inner_ok.0 inner_ok.1 in
      let refused : Kind.from_str (show_kind (predicate inner (eq s))) ≡ err unexpected_args =
        ap Kind.from_str (new_text ∙ ap (λ t. show_kind inner ++ b'=' ∷ t) marked)
        ∙ from_str-mark (show_kind inner) a b q e no_mark in
      rw (new-IsPath, from_str) (rw (new_cut, try_from) (rw (refused, try_from)))

-- The equality with an outcome of an event that can be parsed and is no predicate is an id that can be
-- parsed, provided that no question mark stands in the text of the outcome.
pub predicate_id-valid :
    (id : EventId) (k : EventKind) (n v : ℕ) (s : Text)
    → from_str id ≡ ok id
    → event_kind {E = OutcomeError} id ≡ ok k
    → IsBasic k
    → n_outcomes {E = OutcomeError} id ≡ ok n
    → v < n
    → outcome_string {E = OutcomeError} (record { id = id; value = v }) ≡ ok s
    → Lacks b'?' s
    → (new : EventId) × (predicate_id {E = OutcomeError} id is_eq v ≡ ok new)
      × (from_str new ≡ ok new)
unfolding outcome_string
predicate_id-valid id k n v s valid is_kind basic count lt written mark =
    let (_, is_path, h) = from_str_sound id id valid in
    let same_kind : h.kind ≡ k = cc (event_kind_lem h {E = OutcomeError}) in
    let same_count : kind_outcomes h.kind ≡ n = cc (n_outcomes_lem h {E = OutcomeError}) in
    let basic' : IsBasic h.kind = rw same_kind basic in
    let written' = rw (event_kind_lem h, outcome_string) at written in
    let w = from_str-IsWellFormed h.kind_text h.kind h.read in
    let lt' : v < kind_outcomes h.kind = rw same_count lt in
    (
      new_id h basic' w is_path v s lt' written',
      new_id_made h basic' w is_path v s lt' written' written',
      new_id_read h basic' w is_path v s lt' written' mark,
    )

-- Where a question mark stands in the text of the outcome, as it does where a party's name has one,
-- the id that is made is refused: what follows the mark is taken for an argument.
pub predicate_id_marked :
    (id : EventId) (k : EventKind) (n v : ℕ) (s a b : Text)
    → from_str id ≡ ok id
    → event_kind {E = OutcomeError} id ≡ ok k
    → IsBasic k
    → n_outcomes {E = OutcomeError} id ≡ ok n
    → v < n
    → outcome_string {E = OutcomeError} (record { id = id; value = v }) ≡ ok s
    → Lacks b'?' a
    → s ≡ a ++ b'?' ∷ b
    → (new : EventId) × (predicate_id {E = OutcomeError} id is_eq v ≡ ok new)
      × (from_str new ≡ err (kind unexpected_args))
unfolding outcome_string
predicate_id_marked id k n v s a b valid is_kind basic count lt written no_mark marked =
    let (_, is_path, h) = from_str_sound id id valid in
    let same_kind : h.kind ≡ k = cc (event_kind_lem h {E = OutcomeError}) in
    let same_count : kind_outcomes h.kind ≡ n = cc (n_outcomes_lem h {E = OutcomeError}) in
    let basic' : IsBasic h.kind = rw same_kind basic in
    let written' = rw (event_kind_lem h, outcome_string) at written in
    let w = from_str-IsWellFormed h.kind_text h.kind h.read in
    let lt' : v < kind_outcomes h.kind = rw same_count lt in
    (
      new_id h basic' w is_path v s lt' written',
      new_id_made h basic' w is_path v s lt' written' written',
      new_id_refused h basic' w is_path v s lt' written' a b no_mark marked,
    )

pub predicate_id-kind :
    (id : EventId) (k : EventKind) (n v : ℕ) (s : Text)
    → from_str id ≡ ok id
    → event_kind {E = OutcomeError} id ≡ ok k
    → IsBasic k
    → n_outcomes {E = OutcomeError} id ≡ ok n
    → v < n
    → outcome_string {E = OutcomeError} (record { id = id; value = v }) ≡ ok s
    → Lacks b'?' s
    → (new : EventId) × (predicate_id {E = OutcomeError} id is_eq v ≡ ok new)
      × (event_kind {E = OutcomeError} new ≡ ok (predicate (forget_digits k) (eq s)))
unfolding outcome_string
predicate_id-kind id k n v s valid is_kind basic count lt written mark =
    let (_, is_path, h) = from_str_sound id id valid in
    let same_kind : h.kind ≡ k = cc (event_kind_lem h {E = OutcomeError}) in
    let same_count : kind_outcomes h.kind ≡ n = cc (n_outcomes_lem h {E = OutcomeError}) in
    let basic' : IsBasic h.kind = rw same_kind basic in
    let written' = rw (event_kind_lem h, outcome_string) at written in
    let w = from_str-IsWellFormed h.kind_text h.kind h.read in
    let lt' : v < kind_outcomes h.kind = rw same_count lt in
    (
      new_id h basic' w is_path v s lt' written',
      new_id_made h basic' w is_path v s lt' written' written',
      new_id_kind h basic' w is_path v s lt' written' mark
          ∙ ap (λ q. ok (predicate (forget_digits q) (eq s))) same_kind,
    )
