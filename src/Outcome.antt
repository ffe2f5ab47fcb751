-- ===== src/Outcome.antt =====
-- olivia_core/src/outcome.rs: outcomes as numbers and as texts, and what an oracle signs of them.
pub mod RoundTrip
pub mod Sound
pub mod Panic
pub mod Slashes
pub mod Indexes
pub mod Range
pub mod Signing
use olivia.Base.{
  ℕ, zero, suc, ◌-◌, ◌/◌, ◌%◌, ◌^◌, min, Text, codes, text_eq, if◌then◌else◌, ltb, ◌==◌, Option,
  none, some, List, [], ◌∷◌, ◌++◌, Result, ok, err, panic, ◌>>=◌, expect, ok_or,
}
use olivia.Base.Slices.{strip_suffix}
use olivia.Base.Decimal.{u64_max, parse_uint, show_uint}
use olivia.Kind.{win, win_or_draw, EventKind, vs_match, single_occurrence, predicate, price}
use olivia.EventId.{EventId, event_kind, both_parties, n_outcomes}

pub record Outcome : Type 0 where
  pub id : EventId
  pub value : ℕ

pub data OutcomeError : Type 0 where
  invalid : Text → OutcomeError

pub data Win : Type 0 where
  left right : Win

pub data WinOrDraw : Type 0 where
  left right draw : WinOrDraw

pub data Occur : Type 0 where
  occurred : Occur

-- The `TryFrom<u64>` of the three enums; each constructor's value is its place.
unfoldable pub to_win : ℕ → Option Win
to_win v = if v == 0 then some Win.left else if v == 1 then some Win.right else none

unfoldable pub to_win_or_draw : ℕ → Option WinOrDraw
to_win_or_draw v =
    if v == 0
    then some WinOrDraw.left
    else if v == 1
    then some WinOrDraw.right
    else if v == 2
    then some draw
    else none

unfoldable pub to_occur : ℕ → Option Occur
to_occur v = if v == 0 then some occurred else none

-- The value of an outcome's text, given the parties of the match.
read_win_or_draw : Text × Text → Text → Result OutcomeError ℕ
read_win_or_draw (l, r) outcome =
    if text_eq outcome (codes "draw") then ok 2 else elim (strip_suffix outcome (codes "_win")) [
      | some winner ↦
          if text_eq winner l then ok 0 else if text_eq winner r then ok 1 else err (invalid winner)
      | none ↦ err (invalid outcome)
    ]

read_win : Text × Text → Text → Result OutcomeError ℕ
read_win (l, r) winner =
    if text_eq winner l then ok 0 else if text_eq winner r then ok 1 else err (invalid winner)

-- `bool::from_str`.
read_bool : Text → Option ℕ
read_bool s =
    if text_eq s (codes "true") then some 1 else if text_eq s (codes "false") then some 0 else none

unfoldable pub read_value : EventId → EventKind → Text → Result OutcomeError ℕ
unfolding read_win_or_draw read_win read_bool
read_value id single_occurrence outcome =
    if text_eq outcome (codes "true") then ok 0 else err (invalid outcome)
read_value id (vs_match win_or_draw) outcome = do
  pair ← both_parties id
  read_win_or_draw pair outcome
read_value id (vs_match win) outcome = do pair ← both_parties id; read_win pair outcome
read_value id (predicate _ _) outcome = ok_or (read_bool outcome) (invalid outcome)
read_value id (price _) outcome = ok_or (parse_uint u64_max outcome) (invalid outcome)

unfoldable pub try_from_id_and_outcome : EventId → Text → Result OutcomeError Outcome
unfolding read_value
try_from_id_and_outcome id outcome = do
  k ← event_kind id
  value ← read_value id k outcome
  ok (record { id = id; value = value })

module _ {E : Type 0} where
  write_win_or_draw : EventId → WinOrDraw → Result E Text
  write_win_or_draw id WinOrDraw.left = do pair ← both_parties id; ok (pair.0 ++ codes "_win")
  write_win_or_draw id WinOrDraw.right = do pair ← both_parties id; ok (pair.1 ++ codes "_win")
  write_win_or_draw id draw = ok (codes "draw")

  write_win : EventId → Win → Result E Text
  write_win id Win.left = do pair ← both_parties id; ok pair.0
  write_win id Win.right = do pair ← both_parties id; ok pair.1

  unfoldable pub write_value : EventId → EventKind → ℕ → Result E Text
  unfolding write_win_or_draw write_win to_win_or_draw to_win to_occur
  write_value id single_occurrence v = do o ← expect (to_occur v); ok (codes "true")
  write_value id (vs_match win_or_draw) v = expect (to_win_or_draw v) >>= write_win_or_draw id
  write_value id (vs_match win) v = expect (to_win v) >>= write_win id
  write_value id (predicate _ _) v =
      if ltb v 2 then ok (if v == 0 then codes "false" else codes "true") else panic
  write_value id (price _) v = ok (show_uint v)

  -- `write_outcome_string` into an empty string.
  unfoldable pub outcome_string : Outcome → Result E Text
  unfolding write_value
  outcome_string o = do k ← event_kind o.id; write_value o.id k o.value

  -- `Display`.
  unfoldable pub show_outcome : Outcome → Result E Text
  unfolding outcome_string
  show_outcome o = do s ← outcome_string o; ok (o.id ++ b':' ∷ s)

  -- `Outcome::test_instance`.
  unfoldable pub test_instance : EventId → Result E Outcome
  unfolding n_outcomes
  test_instance id = do n ← n_outcomes id; ok (record { id = id; value = n - 1 })

-- `checked_shr` of a `u64`.
unfoldable pub checked_shr : ℕ → ℕ → Option ℕ
checked_shr x k = if ltb k 64 then some (x / 2 ^ k) else none

-- The bits below bit `n`, the highest first: `(0..n).map(|i| bit i).rev()`.
unfoldable pub bits : ℕ → ℕ → List ℕ
bits zero v = []
bits (suc i) v = v / 2 ^ i % 2 ∷ bits i v

-- The largest value that `n` digits hold, for `n` at most 64.
unfoldable pub cap : ℕ → ℕ
unfolding checked_shr
cap n = elim (checked_shr u64_max (64 - n)) [ some c ↦ c | none ↦ 0 ]

module _ {E : Type 0} where
  -- More than 64 digits overflow the subtraction, and more than 32 bits do not fit a `u32`.
  kind_indexes : EventKind → ℕ → Result E (List ℕ)
  unfolding cap bits
  kind_indexes (price n) v = if ltb 64 n then panic else ok (bits n (min v (cap n)))
  kind_indexes _ v = if ltb v (2 ^ 32) then ok (v ∷ []) else panic

  unfoldable pub attestation_indexes : Outcome → Result E (List ℕ)
  unfolding kind_indexes
  attestation_indexes o = do k ← event_kind o.id; kind_indexes k o.value

-- The lowest `n` bytes of a number, the highest first: `to_be_bytes` at `n = 8`.
unfoldable pub be_bytes : ℕ → ℕ → Text
be_bytes zero v = []
be_bytes (suc i) v = v / 256 ^ i % 256 ∷ be_bytes i v

unfoldable pub attestation_string : Outcome → Text
unfolding be_bytes
attestation_string o = o.id ++ b'!' ∷ be_bytes 8 o.value
