-- ===== src/Outcome/RoundTrip.antt =====
-- Outcomes written as texts and read again.
use olivia.Base.{
  ℕ, zero, suc, ◌<◌, Text, codes, text_eq, text_eq_iff, text_eq_refl, text_eq-of_Lacks, ◌≡◌, ◌≢◌,
  refl, ◌++◌, ok, arith,
}
use olivia.Base.Slices.{strip_suffix-append}
use olivia.Base.Decimal.{u64_max, show_uint, parse_uint-show_uint}
use olivia.Kind.{EventKind, vs_match, single_occurrence, predicate, price, win, win_or_draw}
use olivia.EventId.{EventId, n_outcomes, kind_outcomes}
use olivia.EventId.Valid.{IsEventId, HasParties, event_kind_lem, both_parties_lem, n_outcomes_lem}
use olivia.Outcome.{
  Outcome, read_value, read_win_or_draw, read_win, read_bool, try_from_id_and_outcome, write_value,
  outcome_string,
}

-- A value with its text, which reads back as the value.
abbrev Written : EventId → EventKind → ℕ → Type 1
Written id k v =
    (s : Text) × ((E : Type 0) → write_value {E = E} id k v ≡ ok s) × (read_value id k s ≡ ok v)

module _ (l r : Text) where
  read_winner-left : read_win_or_draw (l, r) (l ++ codes "_win") ≡ ok 0
  unfolding read_win_or_draw
  read_winner-left =
      rw
        (
          text_eq-of_Lacks b'_' l (codes "win") (codes "draw") (omega arith),
          strip_suffix-append l (codes "_win"),
          read_win_or_draw,
        )
        (rw (text_eq_refl l))

  read_winner-right : l ≢ r → read_win_or_draw (l, r) (r ++ codes "_win") ≡ ok 1
  unfolding read_win_or_draw
  read_winner-right differ =
      rw
        (
          text_eq-of_Lacks b'_' r (codes "win") (codes "draw") (omega arith),
          strip_suffix-append r (codes "_win"),
          read_win_or_draw,
        )
        (ground (arith, text_eq_iff r l, text_eq_refl r))

module _ {id : EventId} (h : IsEventId id) where
  Written-win_or_draw :
      (v : ℕ)
      → h.kind ≡ vs_match win_or_draw
      → HasParties h.name (vs_match win_or_draw)
      → v < 3
      → Written id (vs_match win_or_draw) v
  unfolding write_value read_value
  Written-win_or_draw zero e (l, r, parts, differ) lt = (
    l ++ codes "_win",
    λ E. rw (both_parties_lem h {E = E} l r e parts) refl,
    rw (both_parties_lem h l r e parts) (read_winner-left l r),
  )
  Written-win_or_draw (suc zero) e (l, r, parts, differ) lt = (
    r ++ codes "_win",
    λ E. rw (both_parties_lem h {E = E} l r e parts) refl,
    rw (both_parties_lem h l r e parts) (read_winner-right l r differ),
  )
  Written-win_or_draw (suc (suc zero)) e (l, r, parts, differ) lt = (
    codes "draw",
    λ E. refl,
    rw (both_parties_lem h l r e parts) (unfold read_win_or_draw text_eq in refl),
  )
  Written-win_or_draw (suc (suc (suc v))) e p lt = absurd (omega arith)

  Written-win :
      (v : ℕ)
      → h.kind ≡ vs_match win
      → HasParties h.name (vs_match win)
      → v < 2
      → Written id (vs_match win) v
  unfolding write_value read_value read_win
  Written-win zero e (l, r, parts, differ) lt = (
    l,
    λ E. rw (both_parties_lem h {E = E} l r e parts) refl,
    rw (both_parties_lem h l r e parts) (ground (arith, text_eq_refl l)),
  )
  Written-win (suc zero) e (l, r, parts, differ) lt = (
    r,
    λ E. rw (both_parties_lem h {E = E} l r e parts) refl,
    rw (both_parties_lem h l r e parts) (ground (arith, text_eq_iff r l, text_eq_refl r)),
  )
  Written-win (suc (suc v)) e p lt = absurd (omega arith)

  Written-kind :
      (k : EventKind) (v : ℕ)
      → h.kind ≡ k
      → HasParties h.name k
      → v < kind_outcomes k
      → Written id k v
  unfolding write_value read_value kind_outcomes read_bool text_eq
  Written-kind (vs_match win_or_draw) v e p lt = Written-win_or_draw v e p lt
  Written-kind (vs_match win) v e p lt = Written-win v e p lt
  Written-kind single_occurrence v e p lt =
      let zero_value : v ≡ 0 = omega arith in
      (codes "true", λ E. rw zero_value refl, rw zero_value refl)
  Written-kind (predicate _ _) zero e p lt = (codes "false", λ E. refl, refl)
  Written-kind (predicate _ _) (suc zero) e p lt = (codes "true", λ E. refl, refl)
  Written-kind (predicate _ _) (suc (suc v)) e p lt = absurd (omega arith)
  Written-kind (price _) v e p lt =
      (show_uint v, λ E. refl, rw (parse_uint-show_uint u64_max v (omega arith)))

pub outcome_string_total :
    (o : Outcome) (h : IsEventId o.id)
    → o.value < kind_outcomes h.kind
    → (s : Text) × ((E : Type 0) → outcome_string {E = E} o ≡ ok s)
      × (try_from_id_and_outcome o.id s ≡ ok o)
unfolding outcome_string try_from_id_and_outcome
outcome_string_total o h lt =
    let (s, written, read) = Written-kind h h.kind o.value refl h.matched lt in
    (
      s,
      λ E. rw (event_kind_lem h {E = E}, outcome_string) (written E),
      rw (event_kind_lem h, try_from_id_and_outcome) (rw (read, try_from_id_and_outcome) refl),
    )

-- An outcome of a valid id, with a value below the number of its event's outcomes, is written as a text
-- (nothing panics), and the text is read back as the outcome.
pub outcome_string-round_trip :
    (o : Outcome) {E : Type 0} (n : ℕ)
    → IsEventId o.id
    → n_outcomes {E = E} o.id ≡ ok n
    → o.value < n
    → (s : Text) × (outcome_string {E = E} o ≡ ok s) × (try_from_id_and_outcome o.id s ≡ ok o)
outcome_string-round_trip o {E} n h count lt =
    let same : kind_outcomes h.kind ≡ n = cc (n_outcomes_lem h) in
    let (s, written, read) = outcome_string_total o h (rw same lt) in (s, written E, read)
