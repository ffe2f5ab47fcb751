-- ===== src/Kind.antt =====
-- olivia_core/src/event.rs: event kinds and predicates, and how they are written and read.
pub mod Fuel
pub mod RoundTrip
pub mod Sound
pub mod Equal
use olivia.Base.{
  ◌≡◌, refl, ℕ, zero, suc, Text, codes, text_eq, Bool, true, false, ◌&&◌, ◌||◌, if◌then◌else◌, ltb,
  ◌==◌, Option, none, some, List, [], ◌∷◌, ◌++◌, map, length, Result, ok, err, panic, ◌>>=◌, ◌>>◌,
  ok_or,
}
use olivia.Base.Slices.{split_once, split}
use olivia.Base.Decimal.{parse_uint, show_uint, u8_max, u64_max}

pub data VsMatchKind : Type 0 where
  win_or_draw win : VsMatchKind

pub data BoundKind : Type 0 where
  gt : BoundKind

pub data Predicate : Type 0 where
  eq : Text → Predicate
  bound : BoundKind → ℕ → Predicate

pub data PredicateKind : Type 0 where
  is_eq : PredicateKind
  is_bound : BoundKind → PredicateKind

pub data EventKind : Type 0 where
  vs_match : VsMatchKind → EventKind
  single_occurrence : EventKind
  predicate : EventKind → Predicate → EventKind
  price : ℕ → EventKind

-- `PredEqToInvalidOutcome` holds the text of the `OutcomeError`.
pub data EventKindError : Type 0 where
  unknown : Text → EventKindError
  args_bad_format unexpected_args : EventKindError
  pred_eq_to_invalid_outcome : Text → EventKindError
  pred_bound_with_non_numeric_rhs pred_bound_on_non_numeric_event : EventKindError

pub vs_match_kind_eq : VsMatchKind → VsMatchKind → Bool
vs_match_kind_eq win_or_draw win_or_draw = true
vs_match_kind_eq win win = true
vs_match_kind_eq _ _ = false

pub predicate_eq : Predicate → Predicate → Bool
predicate_eq (eq s) (eq t) = text_eq s t
predicate_eq (bound gt m) (bound gt n) = m == n
predicate_eq _ _ = false

-- The derived `PartialEq`.
unfoldable pub kind_eq : EventKind → EventKind → Bool
unfolding vs_match_kind_eq predicate_eq
kind_eq (vs_match k) (vs_match l) = vs_match_kind_eq k l
kind_eq single_occurrence single_occurrence = true
kind_eq (predicate k p) (predicate l q) = kind_eq k l && predicate_eq p q
kind_eq (price m) (price n) = m == n
kind_eq _ _ = false

unfoldable pub eq_fuzzy : EventKind → EventKind → Bool
unfolding kind_eq
eq_fuzzy (price m) (price n) = true
eq_fuzzy k l = kind_eq k l

unfoldable pub n_nonces : EventKind → ℕ
n_nonces (price n_digits) = n_digits
n_nonces _ = 1

-- `Predicate::predicate_outcome`: a bound panics on a text that is no number.
unfoldable pub predicate_outcome : {E : Type 0} → Predicate → Text → Result E ℕ
predicate_outcome (eq target) outcome = ok (if text_eq outcome target then 1 else 0)
predicate_outcome (bound gt target) outcome = elim (parse_uint u64_max outcome) [
  | some value ↦ ok (if ltb target value then 1 else 0)
  | none ↦ panic
]

-- `Display`.
unfoldable pub show_kind : EventKind → Text
show_kind (vs_match win) = codes "winner"
show_kind (vs_match win_or_draw) = codes "vs"
show_kind single_occurrence = codes "occur"
show_kind (predicate inner (eq value)) = show_kind inner ++ b'=' ∷ value
show_kind (predicate inner (bound gt n)) = show_kind inner ++ b'_' ∷ show_uint n
show_kind (price n_digits) =
    if ltb 0 n_digits then codes "price?n=" ++ show_uint n_digits else codes "price"

abbrev pub Args : Type 0
Args = List (Text × Text)

pub check_no_args : Args → Result EventKindError (Unit {0})
check_no_args [] = ok tt
check_no_args (_ ∷ _) = err unexpected_args

-- One argument, `split_once('=').unwrap_or((arg, ""))`.
pub split_arg : Text → Text × Text
split_arg arg = elim (split_once arg b'=') [ some p ↦ p | none ↦ (arg, []) ]

-- The text before the question mark, and the arguments behind it.
pub split_args : Text → Text × Args
unfolding split_arg
split_args s = elim (split_once s b'?') [
  | some (kind, rest) ↦ (kind, map split_arg (split rest b'&'))
  | none ↦ (s, [])
]

-- The number of digits that a price asks for.
read_n_digits : Text → Result EventKindError ℕ
read_n_digits s = elim (parse_uint u8_max s) [
  | none ↦ err args_bad_format
  | some n ↦ if n == 0 || ltb 64 n then err args_bad_format else ok n
]

pub price_digits : Args → Result EventKindError ℕ
unfolding read_n_digits
price_digits [] = ok 0
price_digits ((name, value) ∷ []) =
    if text_eq name (codes "n") then read_n_digits value else err unexpected_args
price_digits (_ ∷ _ ∷ _) = err unexpected_args

is_price : EventKind → Bool
is_price (price _) = true
is_price _ = false

bound_on : EventKind → ℕ → Result EventKindError EventKind
unfolding is_price
bound_on inner n =
    if is_price inner
    then ok (predicate inner (bound gt n))
    else err pred_bound_on_non_numeric_event

-- The last three arms of the match: predicates, read with `from_str` for what they are about.
read_predicate :
    (Text → Result EventKindError EventKind) → Text → Args → Result EventKindError EventKind
unfolding check_no_args bound_on
read_predicate from_str pred args = elim (split_once pred b'=') [
  | some (lhs, rhs) ↦ do check_no_args args; inner ← from_str lhs; ok (predicate inner (eq rhs))
  | none ↦ elim (split_once pred b'_') [
    | some (lhs, rhs) ↦ do
      check_no_args args
      n ← ok_or (parse_uint u64_max rhs) pred_bound_with_non_numeric_rhs
      inner ← from_str lhs
      bound_on inner n
    | none ↦ err (unknown pred)
  ]
]

read_kind : (Text → Result EventKindError EventKind) → Text → Args → Result EventKindError EventKind
unfolding read_predicate price_digits
read_kind from_str kind args =
    if text_eq kind (codes "vs")
    then check_no_args args >> ok (vs_match win_or_draw)
    else if text_eq kind (codes "winner")
    then check_no_args args >> ok (vs_match win)
    else if text_eq kind (codes "occur")
    then check_no_args args >> ok single_occurrence
    else if text_eq kind (codes "price")
    then price_digits args >>= (λ n. ok (price n))
    else read_predicate from_str kind args

-- The body of `EventKind::from_str`, over the function that it calls on the left of a predicate.
pub from_str_body :
    (Text → Result EventKindError EventKind) → Text → Result EventKindError EventKind
unfolding read_kind split_args
from_str_body from_str s = let (kind, args) = split_args s in read_kind from_str kind args

-- The recursion on fuel; each call is on a shorter text.
from_str_within : ℕ → Text → Result EventKindError EventKind
unfolding from_str_body
from_str_within zero s = panic
from_str_within (suc fuel) s = from_str_body (from_str_within fuel) s

unfoldable pub from_str : Text → Result EventKindError EventKind
unfolding from_str_within
from_str s = from_str_within (suc (length s)) s

from_str_tests :
    (from_str (codes "vs=FOO_win") ≡ ok (predicate (vs_match win_or_draw) (eq (codes "FOO_win"))))
    × (from_str (codes "price?n=20") ≡ ok (price 20))
    × (from_str (codes "price?n=65") ≡ err args_bad_format)
    × (from_str (codes "price_5?n=20") ≡ err unexpected_args)
    × (from_str (codes "price?n=20_5") ≡ err args_bad_format)
    × (from_str (codes "winner_5") ≡ err pred_bound_on_non_numeric_event)
    × (from_str (codes "price_foo") ≡ err pred_bound_with_non_numeric_rhs)
unfolding from_str split_once split parse_uint text_eq
from_str_tests = (refl, refl, refl, refl, refl, refl, refl)
