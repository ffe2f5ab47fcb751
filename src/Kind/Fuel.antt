-- ===== src/Kind/Fuel.antt =====
-- The fuel of `from_str` is enough: it solves the recursive equation that the code states.
use olivia.Base.{
  ℕ, zero, suc, ◌≤◌, ◌<◌, Text, some, Option-cases, inl, inr, ◌∷◌, ◌≡◌, refl, ap, arith, length,
  length-append, Result, panic, ◌≢◌,
}
use olivia.Base.Slices.{split_once, split_once-eq-some}
use olivia.Kind.{
  EventKind, EventKindError, Args, split_args, read_predicate, read_kind, from_str_body,
  from_str_within, from_str,
}

pub length-cut :
    (s : Text) (c : ℕ) (a b : Text) → split_once s c ≡ some (a, b) → length a < length s
length-cut s c a b h =
    omega (arith, ap length (split_once-eq-some s c h).0, length-append a (c ∷ b))

pub length-split_args : (s : Text) → length (split_args s).0 ≤ length s
unfolding split_args
length-split_args s = elim (Option-cases (split_once s b'?')) [
  | inl e ↦ rw (e, split_args) (omega arith)
  | inr ((a, b), e) ↦ rw (e, split_args) (omega (arith, length-cut s b'?' a b e))
]

-- Two functions agree on the texts shorter than a bound.
abbrev Agree :
    ℕ → (Text → Result EventKindError EventKind) → (Text → Result EventKindError EventKind) → Type 0
Agree n f g = (t : Text) → length t < n → f t ≡ g t

module _ (f g : Text → Result EventKindError EventKind) where
  read_predicate-Agree :
      (pred : Text) (args : Args)
      → Agree (length pred) f g
      → read_predicate f pred args ≡ read_predicate g pred args
  unfolding read_predicate
  read_predicate-Agree pred args h = elim (Option-cases (split_once pred b'=')) [
    | inr ((a, b), e) ↦ rw (e, read_predicate) (rw (h a (length-cut pred b'=' a b e)) refl)
    | inl e ↦ elim (Option-cases (split_once pred b'_')) [
      | inl e' ↦ rw (e, e', read_predicate) refl
      | inr ((a, b), e') ↦ rw (e, e', read_predicate) (rw (h a (length-cut pred b'_' a b e')) refl)
    ]
  ]

  read_kind-Agree :
      (kind : Text) (args : Args)
      → Agree (length kind) f g
      → read_kind f kind args ≡ read_kind g kind args
  unfolding read_kind
  read_kind-Agree kind args h = ground (arith, read_predicate-Agree kind args h)

  from_str_body-Agree : (s : Text) → Agree (length s) f g → from_str_body f s ≡ from_str_body g s
  unfolding from_str_body
  from_str_body-Agree s h =
      read_kind-Agree (split_args s).0 (split_args s).1
        (λ t lt. h t (omega (arith, length-split_args s)))

from_str_within-fuel :
    (m n : ℕ) (s : Text) → length s < m → length s < n → from_str_within m s ≡ from_str_within n s
unfolding from_str_within
from_str_within-fuel zero n s hm hn = absurd (omega arith)
from_str_within-fuel (suc m) zero s hm hn = absurd (omega arith)
from_str_within-fuel (suc m) (suc n) s hm hn =
    from_str_body-Agree (from_str_within m) (from_str_within n) s
      (λ t lt. from_str_within-fuel m n t (omega arith) (omega arith))

-- `from_str` is a solution of the equation that its Rust body writes down: the fuel never runs out.
pub from_str_lem : (s : Text) → from_str s ≡ from_str_body from_str s
unfolding from_str
from_str_lem s =
    from_str_body-Agree (from_str_within (length s)) from_str s
      (λ t lt. from_str_within-fuel (length s) (suc (length t)) t lt (omega arith))

-- A function that does not panic on the texts shorter than a bound.
abbrev Returns : ℕ → (Text → Result EventKindError EventKind) → Type 0
Returns n f = (t : Text) → length t < n → f t ≢ panic

module _ (f : Text → Result EventKindError EventKind) where
  read_predicate-ne-panic :
      (pred : Text) (args : Args) → Returns (length pred) f → read_predicate f pred args ≢ panic
  unfolding read_predicate
  read_predicate-ne-panic pred args h q = elim (Option-cases (split_once pred b'=')) [
    | inr ((a, b), e) ↦
        let no_panic = h a (length-cut pred b'=' a b e) in
        let q' = rw (e, read_predicate) at q in ground arith
    | inl e ↦ elim (Option-cases (split_once pred b'_')) [
      | inl e' ↦ let q' = rw (e, e', read_predicate) at q in ground arith
      | inr ((a, b), e') ↦
          let no_panic = h a (length-cut pred b'_' a b e') in
          let q' = rw (e, e', read_predicate) at q in ground arith
    ]
  ]

  read_kind-ne-panic :
      (kind : Text) (args : Args) → Returns (length kind) f → read_kind f kind args ≢ panic
  unfolding read_kind
  read_kind-ne-panic kind args h = ground (arith, read_predicate-ne-panic kind args h)

from_str_within-ne-panic : (m : ℕ) (s : Text) → length s < m → from_str_within m s ≢ panic
unfolding from_str_within
from_str_within-ne-panic zero s h = absurd (omega arith)
from_str_within-ne-panic (suc m) s h =
    read_kind-ne-panic (from_str_within m) (split_args s).0 (split_args s).1
      (λ t lt. from_str_within-ne-panic m t (omega (arith, length-split_args s)))

-- `from_str` never panics: it returns a kind or an error for each text.
pub from_str-ne-panic : (s : Text) → from_str s ≢ panic
unfolding from_str
from_str-ne-panic s = from_str_within-ne-panic (suc (length s)) s (omega arith)
