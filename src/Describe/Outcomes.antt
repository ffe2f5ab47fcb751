-- ===== src/Describe/Outcomes.antt =====
-- olivia_describe/src/lib.rs: describing an outcome in the range of its event does not panic, for
-- the events that are no predicates.
use olivia.Base.{
  ℕ, zero, suc, ◌<◌, Text, codes, text_eq, text_eq_iff, Option, none, some, ◌++◌, false, Bool-cases,
  ◌⊎◌, inl, inr, ok, ◌≡◌, refl, arith,
}
use olivia.Base.Slices.{strip_suffix-append}
use olivia.Base.Decimal.{show_uint}
use olivia.Path
use olivia.Kind
use olivia.Kind.{
  VsMatchKind, win, win_or_draw, EventKind, vs_match, single_occurrence, predicate, price, eq,
  bound,
}
use olivia.EventId.{kind_outcomes}
use olivia.EventId.Valid.{path_of, event_kind_of}
use olivia.Outcome.{write_value, outcome_string}
use olivia.Outcome.Range.{InRange}
use olivia.Event.Predicated.{IsBasic}
use olivia.Describe.{
  Describer, OutcomeDesc, match_segments, winner_of, match_desc, kind_desc, is_desc, price_desc,
  draw_desc, winner_desc, outcome_body,
}
use olivia.Describe.Tables.{lookup_team, lookup_competition}
use olivia.Describe.Total.{HasNames, both_of_names}

-- What a match's outcome is written as: a draw, or a text with a winner in it.
abbrev IsResult : Type 0 → VsMatchKind → Text → Type 0
IsResult E v s = (s ≡ codes "draw") ⊎ ((w : Text) × (winner_of {E = E} v s ≡ ok w))

module _ (E : Type 0) (l r competition date : Text) where
  match_desc_total :
      (v : VsMatchKind) (s : Text)
      → IsResult E v s
      → (d : OutcomeDesc) × (match_desc {E = E} v s (l, r) competition date ≡ ok d)
  unfolding match_desc
  match_desc_total v s result = elim (Bool-cases (text_eq s (codes "draw"))) [
    | inl same ↦ (
      draw_desc (lookup_team competition l) (lookup_team competition r)
          (lookup_competition competition) date,
      rw (same, match_desc) refl,
    )
    | inr differ ↦
        let (w, e) = winner_of_result differ result in
        (
          winner_desc (text_eq w l) (lookup_team competition l) (lookup_team competition r)
              (lookup_competition competition) date,
          rw (differ, match_desc) (rw (e, match_desc) refl),
        )
  ]
    where
      winner_of_result :
          text_eq s (codes "draw") ≡ false
          → IsResult E v s
          → (w : Text) × (winner_of {E = E} v s ≡ ok w)
      winner_of_result differ (inl e) = absurd (ground (arith, text_eq_iff s (codes "draw")))
      winner_of_result differ (inr h) = h

win-IsResult : (E : Type 0) (l : Text) → IsResult E win_or_draw (l ++ codes "_win")
unfolding winner_of
win-IsResult E l = inr (l, rw (strip_suffix-append l (codes "_win"), winner_of) refl)

name-IsResult : (E : Type 0) (l : Text) → IsResult E win l
unfolding winner_of
name-IsResult E l = inr (l, refl)

module _ (E : Type 0) (id p t : Text) {k : EventKind} (cut : Path.strip_event id ≡ some (p, t))
    (read : Kind.from_str t ≡ ok k) where
  written_match :
      (v : VsMatchKind) (n : ℕ)
      → k ≡ vs_match v
      → HasNames p (vs_match v)
      → n < kind_outcomes (vs_match v)
      → (s : Text) × (write_value {E = E} id (vs_match v) n ≡ ok s) × IsResult E v s
  unfolding write_value kind_outcomes
  written_match win zero e (l, r, _, parts) lt =
      (l, rw (both_of_names E id p t cut read l r e parts) refl, name-IsResult E l)
  written_match win (suc zero) e (l, r, _, parts) lt =
      (r, rw (both_of_names E id p t cut read l r e parts) refl, name-IsResult E r)
  written_match win (suc (suc n)) e h lt = absurd (omega arith)
  written_match win_or_draw zero e (l, r, _, parts) lt =
      (l ++ codes "_win", rw (both_of_names E id p t cut read l r e parts) refl, win-IsResult E l)
  written_match win_or_draw (suc zero) e (l, r, _, parts) lt =
      (r ++ codes "_win", rw (both_of_names E id p t cut read l r e parts) refl, win-IsResult E r)
  written_match win_or_draw (suc (suc zero)) e h lt = (codes "draw", refl, inl refl)
  written_match win_or_draw (suc (suc (suc n))) e h lt = absurd (omega arith)

  -- The description of an outcome's text, where the event's own description is `short`.
  abbrev pub Described : EventKind → Text → Text → Type 0
  Described j short s =
      (d : OutcomeDesc) × ((rec : Describer E)
        → rec.event_short id ≡ ok short
        → kind_desc rec id j (match_segments (Path.segments p)) s ≡ ok d)

  match_total :
      (v : VsMatchKind) (short s : Text)
      → k ≡ vs_match v
      → HasNames p (vs_match v)
      → IsResult E v s
      → (m : Option (Text × Text))
      → (d : OutcomeDesc) × ((rec : Describer E)
          → rec.event_short id ≡ ok short
          → kind_desc rec id (vs_match v) m s ≡ ok d)
  unfolding kind_desc
  match_total v short s e h result none = (is_desc short s, λ rec known. rw (known, kind_desc) refl)
  match_total v short s e (l, r, _, parts) result (some (competition, date)) =
      let (d, made) = match_desc_total E l r competition date v s result in
      (d, λ rec known. rw (both_of_names E id p t cut read l r e parts, kind_desc) made)

  once : (n : ℕ) → n < 1 → write_value {E = E} id single_occurrence n ≡ ok (codes "true")
  unfolding write_value
  once zero lt = refl
  once (suc n) lt = absurd (omega arith)

  -- An outcome of an event that is no predicate.
  pub basic_total :
      (j : EventKind) (n : ℕ) (short : Text)
      → k ≡ j
      → IsBasic j
      → HasNames p j
      → InRange j n
      → (s : Text) × (write_value {E = E} id j n ≡ ok s) × Described j short s
  unfolding kind_desc write_value kind_outcomes
  basic_total (vs_match v) n short e b h lt =
      let (s, written, result) = written_match v n e h lt in
      (s, written, match_total v short s e h result (match_segments (Path.segments p)))
  basic_total single_occurrence n short e b h lt = (
    codes "true",
    once n lt,
    (is_desc short (codes "true"), λ rec known. rw (known, kind_desc) refl),
  )
  basic_total (price _) n short e b h lt =
      (show_uint n, refl, (price_desc short (show_uint n), λ rec known. rw (known, kind_desc) refl))
  basic_total (predicate _ _) n short e b h lt = absurd b

  pub outcome_lem :
      (rec : Describer E) (n : ℕ) {s : Text}
      → write_value {E = E} id k n ≡ ok s
      → outcome_body rec (record { id = id; value = n })
        ≡ kind_desc rec id k (match_segments (Path.segments p)) s
  unfolding outcome_body outcome_string
  outcome_lem rec n written =
      rw (path_of id p t cut read, outcome_body)
        (rw (event_kind_of id p t cut read, outcome_body) (rw (written, outcome_body) refl))
