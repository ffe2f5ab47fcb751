-- ===== src/Outcome/Panic.antt =====
-- When reading an outcome panics.
use olivia.Base.{Text, ◌≡◌, ◌≢◌, refl, Result, ok, err, panic, ◌>>=◌, arith}
use olivia.Kind.{
  EventKind, VsMatchKind, vs_match, single_occurrence, predicate, price, win, win_or_draw,
}
use olivia.EventId.{EventId, event_kind, both_parties}
use olivia.Outcome.{OutcomeError, read_value, read_win_or_draw, read_win, try_from_id_and_outcome}

read_win_or_draw-ne-panic : (q : Text × Text) (s : Text) → read_win_or_draw q s ≢ panic
unfolding read_win_or_draw
read_win_or_draw-ne-panic (l, r) s = ground arith

read_win-ne-panic : (q : Text × Text) (s : Text) → read_win q s ≢ panic
unfolding read_win
read_win-ne-panic (l, r) s = ground arith

bind_panic :
    {E A B : Type 0} (m : Result E A) {f : A → Result E B}
    → ((a : A) → f a ≢ panic)
    → (m >>= f) ≡ panic
    → m ≡ panic
bind_panic (ok a) n h = absurd (n a h)
bind_panic (err e) n h = cc
bind_panic panic n h = refl

-- Reading an outcome panics only for want of an opponent.
pub read_value_panic :
    (id : EventId) (k : EventKind) (s : Text)
    → read_value id k s ≡ panic
    → (v : VsMatchKind) × (k ≡ vs_match v) × (both_parties {E = OutcomeError} id ≡ panic)
unfolding read_value
read_value_panic id (vs_match win_or_draw) s h =
    (win_or_draw, refl, bind_panic (both_parties id) (λ pair. read_win_or_draw-ne-panic pair s) h)
read_value_panic id (vs_match win) s h =
    (win, refl, bind_panic (both_parties id) (λ pair. read_win-ne-panic pair s) h)
read_value_panic id single_occurrence s h = ground arith
read_value_panic id (predicate _ _) s h = ground arith
read_value_panic id (price _) s h = ground arith

pub try_from_id_and_outcome_panic :
    (id : EventId) (k : EventKind) (s : Text)
    → event_kind {E = OutcomeError} id ≡ ok k
    → try_from_id_and_outcome id s ≡ panic
    → read_value id k s ≡ panic
unfolding try_from_id_and_outcome
try_from_id_and_outcome_panic id k s e h =
    bind_panic (read_value id k s) (λ v. cc) (rw (e, try_from_id_and_outcome) at h)

-- A match without two parties has no outcome that can be read.
pub try_from_id_and_outcome_no_parties :
    (id : EventId) (v : VsMatchKind) (s : Text)
    → event_kind {E = OutcomeError} id ≡ ok (vs_match v)
    → both_parties {E = OutcomeError} id ≡ panic
    → try_from_id_and_outcome id s ≡ panic
unfolding try_from_id_and_outcome read_value
try_from_id_and_outcome_no_parties id win s e h =
    rw (e, try_from_id_and_outcome) (rw (h, read_value))
try_from_id_and_outcome_no_parties id win_or_draw s e h =
    rw (e, try_from_id_and_outcome) (rw (h, read_value))
