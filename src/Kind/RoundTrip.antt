-- ===== src/Kind/RoundTrip.antt =====
-- Reading a printed event kind.
use olivia.Base.{
  List, sym, append_assoc, ◌≢◌, err, Result, ◌>>=◌, ℕ, ◌≤◌, ◌<◌, Text, codes, text_eq,
  text_eq-of_Lacks, Lacks, All-append, ltb, Bool-cases, inl, inr, [], ◌∷◌, ◌++◌, ◌≡◌, refl, ap, ◌∙◌,
  arith, ok, map,
}
use olivia.Base.Slices.{
  split_once, split_once_of_Lacks, split, split_of_Lacks, split-ne-nil, split_once-append,
}
use olivia.Base.Decimal.{u8_max, u64_max, show_uint, show_uint-Lacks, parse_uint-show_uint}
use olivia.Kind.{
  EventKind, EventKindError, unexpected_args, vs_match, single_occurrence, predicate, price, win,
  win_or_draw, eq, bound, gt, show_kind, split_arg, split_args, read_n_digits, price_digits,
  bound_on, check_no_args, read_predicate, read_kind, from_str_body, from_str,
}
use olivia.Kind.Fuel.{from_str_lem}

-- A kind that an equality can be about: no equality, and no price that names its digits.
abbrev pub IsInner : EventKind → Type 0
IsInner (vs_match _) = Unit
IsInner single_occurrence = Unit
IsInner (predicate _ (eq _)) = ⊥
IsInner (predicate _ (bound _ _)) = Unit
IsInner (price n) = n ≡ 0

-- A kind that has a printed form: at most 64 digits, bounds on plain prices only.
abbrev pub IsWellFormed : EventKind → Type 0
IsWellFormed (vs_match _) = Unit
IsWellFormed single_occurrence = Unit
IsWellFormed (predicate inner (eq value)) = IsWellFormed inner × IsInner inner × Lacks b'?' value
IsWellFormed (predicate inner (bound _ n)) = (inner ≡ price 0) × (n ≤ u64_max)
IsWellFormed (price n) = n ≤ 64

pub split_args_of_Lacks : (s : Text) → Lacks b'?' s → split_args s ≡ (s, [])
unfolding split_args
split_args_of_Lacks s h = rw (split_once_of_Lacks s b'?' h, split_args)

split_args-append :
    (kind rest : Text)
    → Lacks b'?' kind
    → split_args (kind ++ b'?' ∷ rest) ≡ (kind, map split_arg (split rest b'&'))
unfolding split_args
split_args-append kind rest h = rw (split_once-append kind rest b'?' h, split_args)

show_bound :
    (n : ℕ) → show_kind (predicate (price 0) (bound gt n)) ≡ codes "price" ++ b'_' ∷ show_uint n
unfolding show_kind
show_bound n = refl

-- The printed form of such a kind holds no byte that the reader cuts at first.
pub show_kind-Lacks :
    (k : EventKind)
    → IsWellFormed k
    → IsInner k
    → Lacks b'?' (show_kind k) × Lacks b'=' (show_kind k)
unfolding show_kind
show_kind-Lacks (vs_match win) w i = omega arith
show_kind-Lacks (vs_match win_or_draw) w i = omega arith
show_kind-Lacks single_occurrence w i = omega arith
show_kind-Lacks (predicate k (eq v)) w i = absurd i
show_kind-Lacks (predicate k (bound gt n)) (e, le) i = rw e (
  All-append _ (codes "price") (b'_' ∷ show_uint n) (omega arith)
      (omega arith, show_uint-Lacks b'?' n refl),
  All-append _ (codes "price") (b'_' ∷ show_uint n) (omega arith)
      (omega arith, show_uint-Lacks b'=' n refl),
)
show_kind-Lacks (price n) w i = rw i (omega arith, omega arith)

from_str_body-eq :
    (lhs rhs : Text) (k : EventKind)
    → Lacks b'?' lhs
    → Lacks b'=' lhs
    → Lacks b'?' rhs
    → from_str lhs ≡ ok k
    → from_str_body from_str (lhs ++ b'=' ∷ rhs) ≡ ok (predicate k (eq rhs))
unfolding from_str_body read_kind check_no_args
from_str_body-eq lhs rhs k q e q' inner =
    rw
      (
        split_args_of_Lacks (lhs ++ b'=' ∷ rhs) (All-append _ lhs (b'=' ∷ rhs) q (omega arith, q')),
        text_eq-of_Lacks b'=' lhs rhs (codes "vs") (omega arith),
        text_eq-of_Lacks b'=' lhs rhs (codes "winner") (omega arith),
        text_eq-of_Lacks b'=' lhs rhs (codes "occur") (omega arith),
        text_eq-of_Lacks b'=' lhs rhs (codes "price") (omega arith),
      )
      (rw (split_once-append lhs rhs b'=' e, read_predicate) (rw inner refl))

from_str_price : from_str (codes "price") ≡ ok (price 0)
unfolding from_str split_once split text_eq
from_str_price = refl

from_str_body-bound :
    (n : ℕ)
    → n ≤ u64_max
    → from_str_body from_str (codes "price" ++ b'_' ∷ show_uint n)
      ≡ ok (predicate (price 0) (bound gt n))
unfolding from_str_body read_kind check_no_args
from_str_body-bound n h =
    rw
      (
        split_args_of_Lacks (codes "price" ++ b'_' ∷ show_uint n) (
            All-append _ (codes "price") (b'_' ∷ show_uint n) (omega arith)
              (omega arith, show_uint-Lacks b'?' n refl)),
        text_eq-of_Lacks b'_' (codes "price") (show_uint n) (codes "vs") (omega arith),
        text_eq-of_Lacks b'_' (codes "price") (show_uint n) (codes "winner") (omega arith),
        text_eq-of_Lacks b'_' (codes "price") (show_uint n) (codes "occur") (omega arith),
        text_eq-of_Lacks b'_' (codes "price") (show_uint n) (codes "price") (omega arith),
      )
      (rw
        (
          split_once_of_Lacks (codes "price" ++ b'_' ∷ show_uint n) b'=' (
              All-append _ (codes "price") (b'_' ∷ show_uint n) (omega arith)
                (omega arith, show_uint-Lacks b'=' n refl)),
          split_once-append (codes "price") (show_uint n) b'_' (omega arith),
          read_predicate,
        )
        (rw (parse_uint-show_uint u64_max n h, from_str_price) (unfold bound_on in refl)))

split_arg_n : (n : ℕ) → split_arg (codes "n=" ++ show_uint n) ≡ (codes "n", show_uint n)
unfolding split_arg
split_arg_n n = rw (split_once-append (codes "n") (show_uint n) b'=' (omega arith), split_arg)

read_n_digits_lem : (n : ℕ) → n ≤ 64 → 0 < n → read_n_digits (show_uint n) ≡ ok n
unfolding read_n_digits
read_n_digits_lem n h pos =
    rw (parse_uint-show_uint u8_max n (omega arith), read_n_digits) (ground arith)

from_str_body-price :
    (n : ℕ)
    → n ≤ 64
    → 0 < n
    → from_str_body from_str (codes "price" ++ b'?' ∷ (codes "n=" ++ show_uint n)) ≡ ok (price n)
unfolding from_str_body read_kind price_digits text_eq
from_str_body-price n h pos =
    rw
      (
        split_args-append (codes "price") (codes "n=" ++ show_uint n) (omega arith),
        split_of_Lacks (codes "n=" ++ show_uint n) b'&'
            (All-append _ (codes "n=") (show_uint n) (omega arith) (show_uint-Lacks b'&' n refl)),
      )
      (rw (split_arg_n n, price_digits) (rw (read_n_digits_lem n h pos)))

from_str-show_price : (n : ℕ) → n ≤ 64 → from_str (show_kind (price n)) ≡ ok (price n)
unfolding show_kind
from_str-show_price n w = elim (Bool-cases (ltb 0 n)) [
  | inl e ↦
      rw e (from_str_lem (codes "price?n=" ++ show_uint n) ∙ from_str_body-price n w (ground arith))
  | inr e ↦ let zero_digits : n ≡ 0 = ground arith in rw e (rw zero_digits from_str_price)
]

from_str-show_eq :
    (k : EventKind) (v : Text)
    → IsWellFormed (predicate k (eq v))
    → from_str (show_kind k) ≡ ok k
    → from_str (show_kind (predicate k (eq v))) ≡ ok (predicate k (eq v))
unfolding show_kind
from_str-show_eq k v (w, i, q) inner =
    let (no_args, no_eq) = show_kind-Lacks k w i in
    from_str_lem (show_kind k ++ b'=' ∷ v)
    ∙ from_str_body-eq (show_kind k) v k no_args no_eq q inner

-- A kind is read back from its printed form, if it is well formed: a price of at most 64 digits, an
-- equality to a text without question mark on a kind that is no equality and names no digits, or a
-- bound that fits 64 bits on a price that names no digits.
pub from_str-show_kind : (k : EventKind) → IsWellFormed k → from_str (show_kind k) ≡ ok k
from_str-show_kind (vs_match win) w = unfold from_str show_kind split_once text_eq in refl
from_str-show_kind (vs_match win_or_draw) w = unfold from_str show_kind split_once text_eq in refl
from_str-show_kind single_occurrence w = unfold from_str show_kind split_once text_eq in refl
from_str-show_kind (predicate k (eq v)) w = from_str-show_eq k v w (from_str-show_kind k w.0)
from_str-show_kind (predicate k (bound gt n)) (e, le) =
    rw e (ap from_str (show_bound n) ∙ from_str_lem _ ∙ from_str_body-bound n le)
from_str-show_kind (price n) w = from_str-show_price n w

no_args_fails :
    (ts : List Text) (f : Unit {0} → Result EventKindError EventKind)
    → ts ≢ []
    → (check_no_args (map split_arg ts) >>= f) ≡ err unexpected_args
unfolding check_no_args
no_args_fails [] f n = absurd (n refl)
no_args_fails (t ∷ ts) f n = refl

from_str_body-mark :
    (lhs a b : Text)
    → Lacks b'?' lhs
    → Lacks b'=' lhs
    → Lacks b'?' a
    → from_str_body from_str ((lhs ++ b'=' ∷ a) ++ b'?' ∷ b) ≡ err unexpected_args
unfolding from_str_body read_kind check_no_args split
from_str_body-mark lhs a b q e q' =
    rw
      (
        split_args-append (lhs ++ b'=' ∷ a) b (All-append _ lhs (b'=' ∷ a) q (omega arith, q')),
        text_eq-of_Lacks b'=' lhs a (codes "vs") (omega arith),
        text_eq-of_Lacks b'=' lhs a (codes "winner") (omega arith),
        text_eq-of_Lacks b'=' lhs a (codes "occur") (omega arith),
        text_eq-of_Lacks b'=' lhs a (codes "price") (omega arith),
      )
      (rw (split_once-append lhs a b'=' e, read_predicate)
        (no_args_fails (split b b'&') _ (split-ne-nil b b'&')))

-- The first question mark of an equality, where it stands behind the equality sign, is taken for the
-- beginning of arguments, which an equality has not.
pub from_str-mark :
    (lhs a b : Text)
    → Lacks b'?' lhs
    → Lacks b'=' lhs
    → Lacks b'?' a
    → from_str (lhs ++ b'=' ∷ (a ++ b'?' ∷ b)) ≡ err unexpected_args
from_str-mark lhs a b q e q' =
    ap from_str (sym (append_assoc lhs (b'=' ∷ a) (b'?' ∷ b)))
    ∙ from_str_lem ((lhs ++ b'=' ∷ a) ++ b'?' ∷ b)
    ∙ from_str_body-mark lhs a b q e q'
