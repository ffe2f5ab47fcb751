-- ===== src/Outcome/Range.antt =====
-- olivia_core/src/outcome.rs: a value that was read is in the range of its event.
use olivia.Base.{ℕ, ◌<◌, Text, ◌≡◌, ok, sym, subst, ◌>>=◌, >>=-eq-ok, arith}
use olivia.Kind
use olivia.Kind.{win, win_or_draw, EventKind, vs_match, single_occurrence, predicate, price}
use olivia.EventId.{EventId, event_kind, both_parties, kind_outcomes}
use olivia.Outcome.{
  Outcome, OutcomeError, read_value, read_win_or_draw, read_win, read_bool, try_from_id_and_outcome,
}

-- A price may be each number of 64 bits, though `n_outcomes` leaves out the last.
abbrev pub InRange : EventKind → ℕ → Type 0
InRange (price _) v = Unit
InRange k v = v < kind_outcomes k

read_win_or_draw_lt :
    (pair : Text × Text) (s : Text) (v : ℕ) → read_win_or_draw pair s ≡ ok v → v < 3
unfolding read_win_or_draw
read_win_or_draw_lt (l, r) s v h = ground arith

read_win_lt : (pair : Text × Text) (s : Text) (v : ℕ) → read_win pair s ≡ ok v → v < 2
unfolding read_win
read_win_lt (l, r) s v h = ground arith

read_value-InRange :
    (id : EventId) (k : EventKind) (s : Text) (v : ℕ) → read_value id k s ≡ ok v → InRange k v
unfolding read_value kind_outcomes read_bool
read_value-InRange id (vs_match win_or_draw) s v h =
    let (pair, _, h') = >>=-eq-ok (both_parties id) _ h in read_win_or_draw_lt pair s v h'
read_value-InRange id (vs_match win) s v h =
    let (pair, _, h') = >>=-eq-ok (both_parties id) _ h in read_win_lt pair s v h'
read_value-InRange id single_occurrence s v h = ground arith
read_value-InRange id (predicate _ _) s v h = ground arith
read_value-InRange id (price _) s v h = tt

-- A match of which an outcome was read has parties.
read_value-parties :
    (id : EventId) (v : Kind.VsMatchKind) (s : Text) (n : ℕ)
    → read_value id (vs_match v) s ≡ ok n
    → (pair : Text × Text) × (both_parties {E = OutcomeError} id ≡ ok pair)
unfolding read_value
read_value-parties id win_or_draw s n h =
    let (pair, e, _) = >>=-eq-ok (both_parties id) _ h in (pair, e)
read_value-parties id win s n h = let (pair, e, _) = >>=-eq-ok (both_parties id) _ h in (pair, e)

module _ (id : EventId) (k : EventKind) (s : Text) (o : Outcome)
    (is_kind : event_kind {E = OutcomeError} id ≡ ok k)
    (read : try_from_id_and_outcome id s ≡ ok o) where
  value_read : (v : ℕ) × (read_value id k s ≡ ok v) × (record { id = id; value = v } ≡ o)
  unfolding try_from_id_and_outcome
  value_read =
      let read' : (read_value id k s >>= λ v. ok (record { id = id; value = v })) ≡ ok o =
        rw (is_kind, try_from_id_and_outcome) at read in
      let (v, e, made) = >>=-eq-ok (read_value id k s) _ read' in (v, e, cc)

  pub try_from_id_and_outcome-InRange : (v : ℕ) × InRange k v × (o ≡ record { id = id; value = v })
  try_from_id_and_outcome-InRange =
      let (v, e, made) = value_read in (v, read_value-InRange id k s v e, sym made)

  pub try_from_id_and_outcome-parties :
      {m : Kind.VsMatchKind}
      → k ≡ vs_match m
      → (pair : Text × Text) × (both_parties {E = OutcomeError} id ≡ ok pair)
  try_from_id_and_outcome-parties {m} same =
      let (v, e, _) = value_read in
      read_value-parties id m s v (subst (λ j. read_value id j s ≡ ok v) same e)
