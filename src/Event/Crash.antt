-- ===== src/Event/Crash.antt =====
-- When `EventId::from_str` panics: an equality on a match whose name has no underscore.
use olivia.Base.{
  Text, codes, ◌≡◌, ◌≢◌, refl, sym, ap, ◌∙◌, some, inl, inr, List, [], ◌∷◌, Result, ok, panic,
  ◌>>=◌, ◌>>◌, >>=-eq-panic, map_err-eq-ok, map_err-eq-panic, ok_or-eq-ok, ok_or-ne-panic, ◌↔◌,
  ok_or, map_err, arith, Lacks, All-append,
}
use olivia.Base.Slices.{split, split-ne-nil}
use olivia.Base.Decimal.{show_uint, show_uint-Lacks}
use olivia.Path
use olivia.Path.Prefix.{IsPath}
use olivia.Path.Events.{IsEventPath, strip_event-append, strip_event-eq-some}
use olivia.Kind
use olivia.Kind.{
  EventKind, VsMatchKind, vs_match, single_occurrence, predicate, price, eq, bound, gt, win,
  win_or_draw, show_kind,
}
use olivia.Kind.Fuel
use olivia.Kind.RoundTrip.{IsInner, IsWellFormed, from_str-show_kind}
use olivia.Kind.Sound.{from_str-IsWellFormed}
use olivia.EventId.{event_kind, both_parties, first_two, from_path_and_kind}
use olivia.EventId.Valid.{first_two_panic, event_kind_of, both_parties_of}
use olivia.Outcome.{Outcome, OutcomeError, try_from_id_and_outcome}
use olivia.Outcome.Panic.{
  read_value_panic, try_from_id_and_outcome_panic, try_from_id_and_outcome_no_parties,
}
use olivia.Event.Parse.{path_of_ok}
use olivia.Event.{
  bad_format, missing_event_kind, kind, check_teams, check_eq, check_kind, try_from, from_str,
}

-- The kinds that an equality can be about are printed without a slash.
pub show_kind-Lacks_slash : (k : EventKind) → IsWellFormed k → IsInner k → Lacks b'/' (show_kind k)
unfolding show_kind
show_kind-Lacks_slash (vs_match win) w i = omega arith
show_kind-Lacks_slash (vs_match win_or_draw) w i = omega arith
show_kind-Lacks_slash single_occurrence w i = omega arith
show_kind-Lacks_slash (predicate k (eq v)) w i = absurd i
show_kind-Lacks_slash (predicate k (bound gt n)) (e, le) i = rw e (
    All-append _ (codes "price") (b'_' ∷ show_uint n) (omega arith)
      (omega arith, show_uint-Lacks b'/' n refl))
show_kind-Lacks_slash (price n) w i = rw i (omega arith)

-- The id of the event that an equality is about.
module _ {p : Text} (named : IsEventPath p) (k : EventKind) (w : IsWellFormed k)
    (i : IsInner k) where
  pub inner_cut : Path.strip_event (from_path_and_kind p k) ≡ some (p, show_kind k)
  unfolding from_path_and_kind
  inner_cut = strip_event-append named (show_kind k) (show_kind-Lacks_slash k w i)

  pub inner_kind : {E : Type 0} → event_kind {E = E} (from_path_and_kind p k) ≡ ok k
  inner_kind =
      event_kind_of (from_path_and_kind p k) p (show_kind k) inner_cut (from_str-show_kind k w)

  pub inner_parties :
      {E : Type 0} {v : VsMatchKind}
      → k ≡ vs_match v
      → both_parties {E = E} (from_path_and_kind p k) ≡ first_two (split (Path.last p) b'_')
  inner_parties e =
      both_parties_of (from_path_and_kind p k) p (show_kind k) inner_cut (from_str-show_kind k w) e

-- The texts on which the reader panics.
pub record Crashes (s : Text) : Type 0 where
  pub is_path : IsPath s
  pub name : Text
  pub kind_text : Text
  pub cut : Path.strip_event s ≡ some (name, kind_text)
  pub match_kind : VsMatchKind
  pub value : Text
  pub read : Kind.from_str kind_text ≡ ok (predicate (vs_match match_kind) (eq value))
  pub lone : Text
  pub no_opponent : split (Path.last name) b'_' ≡ lone ∷ []

check_teams-ne-panic : (ts : List Text) → check_teams ts ≢ panic
unfolding check_teams
check_teams-ne-panic [] = cc
check_teams-ne-panic (a ∷ []) = cc
check_teams-ne-panic (a ∷ b ∷ []) = ground arith
check_teams-ne-panic (a ∷ b ∷ c ∷ ts) = cc

check_eq_panic : (r : Result OutcomeError Outcome) → check_eq r ≡ panic → r ≡ panic
unfolding check_eq
check_eq_panic r h = ground arith

-- What a panic of the check of a kind tells.
check_kind_panic :
    {p : Text} (named : IsEventPath p) (k : EventKind)
    → IsWellFormed k
    → check_kind p k ≡ panic
    → (v : VsMatchKind) × (value : Text) × (t : Text) × (k ≡ predicate (vs_match v) (eq value))
      × (split (Path.last p) b'_' ≡ t ∷ [])
unfolding check_kind
check_kind_panic {p} named (vs_match _) w h =
    absurd (check_teams-ne-panic (split (Path.last p) b'_') h)
check_kind_panic named single_occurrence w h = absurd (ground arith)
check_kind_panic named (price _) w h = absurd (ground arith)
check_kind_panic named (predicate _ (bound _ _)) w h = absurd (ground arith)
check_kind_panic {p} named (predicate k (eq value)) (w, i, _) h =
    let crash = check_eq_panic (try_from_id_and_outcome (from_path_and_kind p k) value) h in
    let (v, is_match, no_pair) = read_value_panic (from_path_and_kind p k) k value (
      try_from_id_and_outcome_panic (from_path_and_kind p k) k value (inner_kind named k w i)
        crash) in
    let (t, alone) =
      first_two_panic {E = OutcomeError} (split (Path.last p) b'_')
        (split-ne-nil (Path.last p) b'_') (sym (inner_parties named k w i is_match) ∙ no_pair) in
    (v, value, t, ap (λ j. predicate j (eq value)) is_match, alone)

path-ne-panic : (s : Text) → Path.from_str s ≢ panic
unfolding Path.from_str
path-ne-panic s = ground arith

crash_of_cut :
    (s p t : Text)
    → IsPath s
    → Path.strip_event s ≡ some (p, t)
    → (map_err kind (Kind.from_str t) >>= (λ k. check_kind p k >> ok s)) ≡ panic
    → Crashes s
crash_of_cut s p t is_path cut h = elim (>>=-eq-panic (map_err kind (Kind.from_str t)) _ h) [
  | inl e ↦ absurd (Fuel.from_str-ne-panic t (map_err-eq-panic kind (Kind.from_str t) e))
  | inr (k, read, h') ↦ elim (>>=-eq-panic (check_kind p k) _ h') [
    | inr (_, _, e) ↦ absurd (let no_panic : ok s ≡ panic = e in cc)
    | inl e ↦
        let read' = map_err-eq-ok kind (Kind.from_str t) read in
        let (named, _, _) = strip_event-eq-some s p t cut in
        let (v, value, lone, same, alone) =
          check_kind_panic named k (from_str-IsWellFormed t k read') e in
        record {
          is_path = is_path;
          name = p;
          kind_text = t;
          cut = cut;
          match_kind = v;
          value = value;
          read = read' ∙ ap ok same;
          lone = lone;
          no_opponent = alone;
        }
  ]
]

crash_of_panic : (s : Text) → from_str s ≡ panic → Crashes s
unfolding from_str try_from
crash_of_panic s h = elim (>>=-eq-panic (map_err (λ _. bad_format) (Path.from_str s)) try_from h) [
  | inl e ↦ absurd (path-ne-panic s (map_err-eq-panic (λ _. bad_format) (Path.from_str s) e))
  | inr (q, is_path, h') ↦
      let is_path' = map_err-eq-ok (λ _. bad_format) (Path.from_str s) is_path in
      let same = path_of_ok s q is_path' in
      elim (>>=-eq-panic (ok_or (Path.strip_event s) missing_event_kind) _ (rw same at h')) [
        | inl e ↦ absurd (ok_or-ne-panic (Path.strip_event s) missing_event_kind e)
        | inr ((p, t), cut, h'') ↦
            crash_of_cut s p t (rw same at is_path')
              (ok_or-eq-ok (Path.strip_event s) missing_event_kind cut) h''
      ]
]

panic_of_crash : (s : Text) → Crashes s → from_str s ≡ panic
unfolding from_str try_from check_kind check_eq
panic_of_crash s c =
    let (named, _, _) = strip_event-eq-some s c.name c.kind_text c.cut in
    let (w, i, _) = from_str-IsWellFormed c.kind_text _ c.read in
    let no_pair : both_parties {E = OutcomeError}
          (from_path_and_kind c.name (vs_match c.match_kind))
        ≡ panic =
      inner_parties named (vs_match c.match_kind) w i refl
      ∙ ap first_two c.no_opponent
      ∙ unfold first_two in refl in
    let crash =
      try_from_id_and_outcome_no_parties (from_path_and_kind c.name (vs_match c.match_kind))
        c.match_kind c.value (inner_kind named (vs_match c.match_kind) w i) no_pair in
    rw (c.is_path, from_str) (rw (c.cut, try_from) (rw (c.read, try_from) (rw (crash, check_eq))))

-- `EventId::from_str` panics on exactly these texts: paths of an equality on a match, where the name
-- of the match has no underscore.
pub from_str_panic_iff : (s : Text) → (from_str s ≡ panic) ↔ Crashes s
from_str_panic_iff s = (crash_of_panic s, panic_of_crash s)
