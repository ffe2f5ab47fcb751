-- ===== src/Kind/Equal.antt =====
-- olivia_core/src/event.rs: the derived equality of kinds holds exactly of equal kinds.
use olivia.Base.{
  text_eq_refl, text_eq_iff, ==_iff, Bool-cases, true, ◌≡◌, refl, ap, arith, inl, inr,
}
use olivia.Kind.{
  VsMatchKind, win, win_or_draw, Predicate, eq, bound, gt, EventKind, vs_match, single_occurrence,
  predicate, price, vs_match_kind_eq, predicate_eq, kind_eq,
}

vs_match_kind_eq_refl : (k : VsMatchKind) → vs_match_kind_eq k k ≡ true
unfolding vs_match_kind_eq
vs_match_kind_eq_refl win_or_draw = refl
vs_match_kind_eq_refl win = refl

predicate_eq_refl : (p : Predicate) → predicate_eq p p ≡ true
unfolding predicate_eq
predicate_eq_refl (eq s) = text_eq_refl s
predicate_eq_refl (bound gt n) = ground arith

pub kind_eq_refl : (k : EventKind) → kind_eq k k ≡ true
unfolding kind_eq
kind_eq_refl (vs_match v) = vs_match_kind_eq_refl v
kind_eq_refl single_occurrence = refl
kind_eq_refl (predicate k p) = ground (arith, kind_eq_refl k, predicate_eq_refl p)
kind_eq_refl (price n) = ground arith

vs_match_kind_eq_sound : (k l : VsMatchKind) → vs_match_kind_eq k l ≡ true → k ≡ l
unfolding vs_match_kind_eq
vs_match_kind_eq_sound win_or_draw win_or_draw h = refl
vs_match_kind_eq_sound win win h = refl
vs_match_kind_eq_sound win_or_draw win h = absurd (cc)
vs_match_kind_eq_sound win win_or_draw h = absurd (cc)

predicate_eq_sound : (p q : Predicate) → predicate_eq p q ≡ true → p ≡ q
unfolding predicate_eq
predicate_eq_sound (eq s) (eq t) h = ap eq ((text_eq_iff s t).0 h)
predicate_eq_sound (bound gt m) (bound gt n) h = ap (bound gt) ((==_iff m n).0 h)
predicate_eq_sound (eq s) (bound gt n) h = absurd (cc)
predicate_eq_sound (bound gt n) (eq s) h = absurd (cc)

pub kind_eq_sound : (k l : EventKind) → kind_eq k l ≡ true → k ≡ l
unfolding kind_eq
kind_eq_sound (vs_match v) (vs_match w) h = ap vs_match (vs_match_kind_eq_sound v w h)
kind_eq_sound single_occurrence single_occurrence h = refl
kind_eq_sound (price m) (price n) h = ap price ((==_iff m n).0 h)
kind_eq_sound (predicate k p) (predicate l q) h = elim (Bool-cases (kind_eq k l)) [
  | inr f ↦ absurd (cc (rw f at h))
  | inl e ↦
      let same_kind : k ≡ l = kind_eq_sound k l e in
      let same_predicate : p ≡ q = predicate_eq_sound p q (rw e at h) in cc
]
kind_eq_sound (vs_match v) single_occurrence h = absurd (cc)
kind_eq_sound (vs_match v) (price n) h = absurd (cc)
kind_eq_sound (vs_match v) (predicate l q) h = absurd (cc)
kind_eq_sound single_occurrence (vs_match w) h = absurd (cc)
kind_eq_sound single_occurrence (price n) h = absurd (cc)
kind_eq_sound single_occurrence (predicate l q) h = absurd (cc)
kind_eq_sound (price m) (vs_match w) h = absurd (cc)
kind_eq_sound (price m) single_occurrence h = absurd (cc)
kind_eq_sound (price m) (predicate l q) h = absurd (cc)
kind_eq_sound (predicate k p) (vs_match w) h = absurd (cc)
kind_eq_sound (predicate k p) single_occurrence h = absurd (cc)
kind_eq_sound (predicate k p) (price n) h = absurd (cc)
