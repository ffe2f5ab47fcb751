-- ===== src/Kind/Sound.antt =====
-- What `EventKind::from_str` accepts.
use olivia.Base.{
  ℕ, zero, suc, ◌≤◌, ◌<◌, Text, codes, text_eq, Lacks, All-append_left, All-append_right,
  Bool-cases, none, some, Option-cases, inl, inr, [], ◌∷◌, ◌≡◌, refl, sym, ap, ◌∙◌, subst, arith,
  length, Result, ok, ◌>>=◌, >>=-eq-ok, ok_or, ok_or-eq-ok, ◌>>◌,
}
use olivia.Base.Slices.{split_once, split_once-eq-some, Lacks-of_split_once}
use olivia.Base.Decimal.{u64_max, parse_uint, parse_uint-le}
use olivia.Kind.{
  EventKind, vs_match, single_occurrence, predicate, price, win, win_or_draw, eq, bound, gt,
  EventKindError, pred_bound_with_non_numeric_rhs, Args, split_args, price_digits, is_price,
  bound_on, check_no_args, read_predicate, read_kind, from_str_body, from_str,
}
use olivia.Kind.Fuel.{length-cut, length-split_args, from_str_lem}
use olivia.Kind.RoundTrip.{IsInner, IsWellFormed, split_args_of_Lacks}

check_no_args-eq-ok : (args : Args) {u : Unit {0}} → check_no_args args ≡ ok u → args ≡ []
unfolding check_no_args
check_no_args-eq-ok [] h = refl
check_no_args-eq-ok (_ ∷ _) h = cc

check_no_args-ok : (args : Args) (j k : EventKind) → (check_no_args args >> ok j) ≡ ok k → j ≡ k
unfolding check_no_args
check_no_args-ok [] j k h = cc
check_no_args-ok (_ ∷ _) j k h = cc

no_digits : {args : Args} (n : ℕ) → args ≡ [] → price_digits args ≡ ok n → n ≡ 0
unfolding price_digits
no_digits n e h = let h' : price_digits [] ≡ ok n = rw e at h in ground arith

-- What `from_str` guarantees; the second part serves the text left of an equality sign.
abbrev Sound : Text → EventKind → Type 0
Sound s k = IsWellFormed k × (Lacks b'?' s → Lacks b'=' s → IsInner k)

split_args-Lacks : (s : Text) → Lacks b'?' (split_args s).0
unfolding split_args
split_args-Lacks s = elim (Option-cases (split_once s b'?')) [
  | inl e ↦ rw (e, split_args) (Lacks-of_split_once s b'?' e)
  | inr ((a, b), e) ↦ rw (e, split_args) (split_once-eq-some s b'?' e).1
]

price_digits-le : (args : Args) (n : ℕ) → price_digits args ≡ ok n → n ≤ 64
unfolding price_digits
price_digits-le [] n h = ground arith
price_digits-le ((a, b) ∷ []) n h = ground arith
price_digits-le (_ ∷ _ ∷ _) n h = cc

bound_on-eq-ok :
    (inner k : EventKind) (n : ℕ)
    → bound_on inner n ≡ ok k
    → (d : ℕ) × (inner ≡ price d) × (k ≡ predicate (price d) (bound gt n))
unfolding bound_on
bound_on-eq-ok (price d) k n h = (d, refl, cc)
bound_on-eq-ok (vs_match _) k n h = cc
bound_on-eq-ok single_occurrence k n h = cc
bound_on-eq-ok (predicate _ _) k n h = cc

module _ (from : Text → Result EventKindError EventKind) (pred : Text) (args : Args)
    (k : EventKind) where
  read_eq-Sound :
      (lhs rhs : Text)
      → ((j : EventKind) → from lhs ≡ ok j → Sound lhs j)
      → Lacks b'?' pred
      → split_once pred b'=' ≡ some (lhs, rhs)
      → read_predicate from pred args ≡ ok k
      → IsWellFormed k
  unfolding read_predicate
  read_eq-Sound lhs rhs sound q cut h =
      let (parts, no_eq) = split_once-eq-some pred b'=' cut in
      let q' = subst (Lacks b'?') parts q in
      let (_, _, h₁) = >>=-eq-ok (check_no_args args) _ (rw (cut, read_predicate) at h) in
      let (inner, read, h₂) = >>=-eq-ok (from lhs) _ h₁ in
      let (w, i) = sound inner read in
      let same : predicate inner (eq rhs) ≡ k = cc in
      subst IsWellFormed same (
        w,
        i (All-append_left _ lhs (b'=' ∷ rhs) q') no_eq,
        (All-append_right _ lhs (b'=' ∷ rhs) q').1,
      )

  read_bound-Sound :
      (lhs rhs : Text)
      → ((j : EventKind) → from lhs ≡ ok j → Sound lhs j)
      → Lacks b'?' pred
      → split_once pred b'=' ≡ none
      → split_once pred b'_' ≡ some (lhs, rhs)
      → read_predicate from pred args ≡ ok k
      → Sound pred k
  unfolding read_predicate
  read_bound-Sound lhs rhs sound q no_cut cut h =
      let (parts, _) = split_once-eq-some pred b'_' cut in
      let q' = All-append_left _ lhs (b'_' ∷ rhs) (subst (Lacks b'?') parts q) in
      let e' =
        All-append_left _ lhs (b'_' ∷ rhs)
          (subst (Lacks b'=') parts (Lacks-of_split_once pred b'=' no_cut)) in
      let (_, _, h₁) = >>=-eq-ok (check_no_args args) _ (rw (no_cut, cut, read_predicate) at h) in
      let (n, number, h₂) =
        >>=-eq-ok (ok_or (parse_uint u64_max rhs) pred_bound_with_non_numeric_rhs) _ h₁ in
      let (inner, read, h₃) = >>=-eq-ok (from lhs) _ h₂ in
      let (d, is_price, same) = bound_on-eq-ok inner k n h₃ in
      let zero_digits : d ≡ 0 = subst IsInner is_price ((sound inner read).1 q' e') in
      let fits : n ≤ u64_max =
        parse_uint-le u64_max n rhs
          (ok_or-eq-ok (parse_uint u64_max rhs) pred_bound_with_non_numeric_rhs number) in
      rw same ((ap price zero_digits, fits), λ _ _. tt)

  -- The same, said of a kind that was read with its arguments cut off.
  abbrev SoundWith : EventKind → Type 0
  SoundWith j = IsWellFormed j × (args ≡ [] → Lacks b'=' pred → IsInner j)

  read_predicate-Sound :
      ((t : Text) (j : EventKind) → length t < length pred → from t ≡ ok j → Sound t j)
      → Lacks b'?' pred
      → read_predicate from pred args ≡ ok k
      → SoundWith k
  unfolding read_predicate
  read_predicate-Sound sound q h = elim (Option-cases (split_once pred b'=')) [
    | inr ((a, b), cut) ↦
        let (parts, _) = split_once-eq-some pred b'=' cut in
        (
          read_eq-Sound a b (λ j. sound a j (length-cut pred b'=' a b cut)) q cut h,
          λ _ lacks.
              absurd ((All-append_right _ a (b'=' ∷ b) (subst (Lacks b'=') parts lacks)).0 refl),
        )
    | inl no_cut ↦ elim (Option-cases (split_once pred b'_')) [
      | inl no_cut' ↦ absurd (ground arith)
      | inr ((a, b), cut) ↦
          let (w, i) =
            read_bound-Sound a b (λ j. sound a j (length-cut pred b'_' a b cut)) q no_cut cut h in
          (w, λ _ lacks. i q lacks)
    ]
  ]

  read_kind-Sound :
      ((t : Text) (j : EventKind) → length t < length pred → from t ≡ ok j → Sound t j)
      → Lacks b'?' pred
      → read_kind from pred args ≡ ok k
      → SoundWith k
  unfolding read_kind
  read_kind-Sound sound q h = elim (Bool-cases (text_eq pred (codes "vs"))) [
    | inl e ↦
        subst SoundWith (check_no_args-ok args (vs_match win_or_draw) k (rw (e, read_kind) at h))
          (tt, λ _ _. tt)
    | inr e₁ ↦ elim (Bool-cases (text_eq pred (codes "winner"))) [
      | inl e ↦
          subst SoundWith (check_no_args-ok args (vs_match win) k (rw (e₁, e, read_kind) at h))
            (tt, λ _ _. tt)
      | inr e₂ ↦ elim (Bool-cases (text_eq pred (codes "occur"))) [
        | inl e ↦
            subst SoundWith
              (check_no_args-ok args single_occurrence k (rw (e₁, e₂, e, read_kind) at h))
              (tt, λ _ _. tt)
        | inr e₃ ↦ elim (Bool-cases (text_eq pred (codes "price"))) [
          | inl e ↦ read_price (rw (e₁, e₂, e₃, e, read_kind) at h)
          | inr e₄ ↦ read_predicate-Sound sound q (rw (e₁, e₂, e₃, e₄, read_kind) at h)
        ]
      ]
    ]
  ]
    where
      read_price : (price_digits args >>= (λ n. ok (price n))) ≡ ok k → SoundWith k
      read_price h' =
          let (n, digits, same) = >>=-eq-ok (price_digits args) _ h' in
          let same_kind : price n ≡ k = cc in
          subst SoundWith same_kind
            (price_digits-le args n digits, λ none_given _. no_digits n none_given digits)

from_str-Sound : (m : ℕ) (s : Text) (k : EventKind) → length s < m → from_str s ≡ ok k → Sound s k
unfolding from_str_body
from_str-Sound zero s k lt h = absurd (omega arith)
from_str-Sound (suc m) s k lt h =
    let (w, i) =
      read_kind-Sound from_str (split_args s).0 (split_args s).1 k
        (λ t j shorter. from_str-Sound m t j (omega (arith, length-split_args s)))
        (split_args-Lacks s) (sym (from_str_lem s) ∙ h) in
    (
      w,
      λ q e.
          i (ap (λ (p : Text × Args). p.1) (split_args_of_Lacks s q))
            (subst (Lacks b'=') (sym (ap (λ (p : Text × Args). p.0) (split_args_of_Lacks s q))) e),
    )

-- Whatever `from_str` accepts is well formed: its digits are at most 64, a bound is on a plain price,
-- and an equality is on a kind that is no equality and names no digits.
pub from_str-IsWellFormed : (s : Text) (k : EventKind) → from_str s ≡ ok k → IsWellFormed k
from_str-IsWellFormed s k h = (from_str-Sound (suc (length s)) s k (omega arith) h).0
