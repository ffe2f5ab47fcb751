-- ===== src/Tests/Kinds.antt =====
-- Event kinds at concrete inputs.
use olivia.Base.{codes, text_eq, ◌≡◌, refl, ok, arith}
use olivia.Base.Slices.{split_once, split}
use olivia.Base.Decimal.{parse_uint}
use olivia.Kind.{EventKind, vs_match, predicate, price, win, eq, show_kind, from_str}
use olivia.Kind.RoundTrip.{IsWellFormed, from_str-show_kind}
use olivia.Kind.Sound.{from_str-IsWellFormed}

abbrev left_wins : EventKind
left_wins = predicate (vs_match win) (eq (codes "foo"))

price_read : from_str (codes "price?n=6") ≡ ok (price 6)
unfolding from_str split_once split text_eq parse_uint
price_read = refl

from_str-show_kind_example : from_str (show_kind left_wins) ≡ ok left_wins
from_str-show_kind_example = from_str-show_kind left_wins (tt, tt, omega arith)

from_str-IsWellFormed_example : IsWellFormed (price 6)
from_str-IsWellFormed_example = from_str-IsWellFormed (codes "price?n=6") (price 6) price_read
