-- ===== src/EventId.antt =====
-- olivia_core/src/event.rs: what an event's id says of it. An `EventId` is the text of its path;
-- `unwrap` and `expect` on an id that is none are panics.
pub mod Valid
use olivia.Base.{
  ℕ, Text, codes, text_eq, Bool, true, false, if◌then◌else◌, ltb, Option, none, some, List, [], ◌∷◌,
  ◌++◌, Result, ok, panic, ◌>>=◌, expect, expect_ok,
}
use olivia.Base.Slices.{split}
use olivia.Base.Decimal.{u64_max}
use olivia.Path
use olivia.Kind
use olivia.Kind.{
  VsMatchKind, win, win_or_draw, EventKind, vs_match, single_occurrence, predicate, price,
  show_kind,
}
use mathlib.Core.List.{get_last?}

-- olivia_core/src/descriptor.rs
pub data Descriptor : Type 0 where
  enum : List Text → Descriptor
  digit_decomposition : Bool → ℕ → Option Text → Descriptor
  missing_descriptor : Descriptor

abbrev pub EventId : Type 0
EventId = Text

module _ {E : Type 0} where
  unfoldable pub path : EventId → Result E Text
  path id = do parts ← expect (Path.strip_event id); ok parts.0

  unfoldable pub event_kind : EventId → Result E EventKind
  event_kind id = do parts ← expect (Path.strip_event id); expect_ok (Kind.from_str parts.1)

  -- The two `next().unwrap()` of `parties`.
  unfoldable pub first_two : List Text → Result E (Text × Text)
  first_two (left ∷ right ∷ _) = ok (left, right)
  first_two _ = panic

  parties_of : EventId → EventKind → Result E (Option (Text × Text))
  unfolding path first_two
  parties_of id (vs_match _) = do
    p ← path id
    pair ← first_two (split (Path.last p) b'_')
    ok (some pair)
  parties_of id _ = ok none

  unfoldable pub parties : EventId → Result E (Option (Text × Text))
  unfolding event_kind parties_of
  parties id = event_kind id >>= parties_of id

  -- `parties().unwrap()`.
  unfoldable pub both_parties : EventId → Result E (Text × Text)
  unfolding parties
  both_parties id = parties id >>= expect

-- The same number for each nonce.
unfoldable pub kind_outcomes_for_nonce : EventKind → ℕ
kind_outcomes_for_nonce (vs_match win_or_draw) = 3
kind_outcomes_for_nonce (vs_match win) = 2
kind_outcomes_for_nonce single_occurrence = 1
kind_outcomes_for_nonce (predicate _ _) = 2
kind_outcomes_for_nonce (price _) = 2

unfoldable pub kind_outcomes : EventKind → ℕ
unfolding kind_outcomes_for_nonce
kind_outcomes (price _) = u64_max
kind_outcomes k = kind_outcomes_for_nonce k

module _ {E : Type 0} where
  unfoldable pub n_outcomes_for_nonce : EventId → ℕ → Result E ℕ
  unfolding event_kind kind_outcomes_for_nonce
  n_outcomes_for_nonce id nonce_index = do k ← event_kind id; ok (kind_outcomes_for_nonce k)

  unfoldable pub n_outcomes : EventId → Result E ℕ
  unfolding event_kind kind_outcomes
  n_outcomes id = do k ← event_kind id; ok (kind_outcomes k)

  unfoldable pub n_nonces : EventId → Result E ℕ
  unfolding event_kind Kind.n_nonces
  n_nonces id = do k ← event_kind id; ok (Kind.n_nonces k)

  unfoldable pub is_binary : EventId → Result E Bool
  unfolding event_kind
  is_binary id = do k ← event_kind id; ok (elim k [ vs_match win ↦ true | _ ↦ false ])

  kind_descriptor : EventId → EventKind → Result E Descriptor
  unfolding both_parties
  kind_descriptor id (vs_match win) = do pair ← both_parties id; ok (enum (pair.0 ∷ pair.1 ∷ []))
  kind_descriptor id (vs_match win_or_draw) = do
    pair ← both_parties id
    ok (enum ((pair.0 ++ codes "_win") ∷ (pair.1 ++ codes "_win") ∷ codes "draw" ∷ []))
  kind_descriptor id single_occurrence = ok (enum (codes "true" ∷ []))
  kind_descriptor id (predicate _ _) = ok (enum (codes "true" ∷ codes "false" ∷ []))
  kind_descriptor id (price n) =
      ok (if ltb 0 n then digit_decomposition false n none else missing_descriptor)

  unfoldable pub descriptor : EventId → Result E Descriptor
  unfolding event_kind kind_descriptor
  descriptor id = event_kind id >>= kind_descriptor id

unfoldable pub from_path_and_kind : Text → EventKind → EventId
from_path_and_kind p k = p ++ b'.' ∷ show_kind k

module _ {E : Type 0} where
  unfoldable pub replace_kind : EventId → EventKind → Result E EventId
  unfolding path
  replace_kind id k = do p ← path id; ok (p ++ b'.' ∷ show_kind k)

  unfoldable pub short_id : EventId → Result E Text
  unfolding path event_kind
  short_id id = do
    p ← path id
    name ← expect (get_last? (Path.segments p))
    k ← event_kind id
    ok (name ++ b'.' ∷ show_kind k)
