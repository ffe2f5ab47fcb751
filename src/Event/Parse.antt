-- ===== src/Event/Parse.antt =====
-- What `EventId::from_str` accepts: its accessors do not panic.
use olivia.Base.{
  Text, text_eq_iff, List, [], ◌∷◌, ◌≡◌, ◌≢◌, refl, ok, >>=-eq-ok, ok_or, map_err, map_err-eq-ok,
  ok_or-eq-ok, arith,
}
use olivia.Base.Slices.{split}
use olivia.Path
use olivia.Path.Prefix.{IsPath}
use olivia.Kind
use olivia.Kind.{EventKind, vs_match, single_occurrence, predicate, price}
use olivia.EventId.{EventId}
use olivia.EventId.Valid.{IsEventId, HasParties}
use olivia.Event.{bad_format, missing_event_kind, kind, check_teams, check_kind, try_from, from_str}

check_teams-ok :
    (teams : List Text) {u : Unit {0}}
    → check_teams teams ≡ ok u
    → (l : Text) × (r : Text) × (teams ≡ l ∷ r ∷ []) × (l ≢ r)
unfolding check_teams
check_teams-ok [] h = cc
check_teams-ok (a ∷ []) h = cc
check_teams-ok (a ∷ b ∷ []) h = (a, b, refl, λ e. ground (arith, text_eq_iff a b))
check_teams-ok (a ∷ b ∷ c ∷ ts) h = cc

check_kind-HasParties :
    (p : Text) (k : EventKind) {u : Unit {0}} → check_kind p k ≡ ok u → HasParties p k
unfolding check_kind
check_kind-HasParties p (vs_match _) h = check_teams-ok (split (Path.last p) b'_') h
check_kind-HasParties p single_occurrence h = tt
check_kind-HasParties p (predicate _ _) h = tt
check_kind-HasParties p (price _) h = tt

-- What `TryFrom<Path>` has established of an id that it returns.
pub try_from_sound : (s : Text) (id : EventId) → try_from s ≡ ok id → (id ≡ s) × IsEventId s
unfolding try_from
try_from_sound s id h =
    let ((p, t), cut, h₁) = >>=-eq-ok (ok_or (Path.strip_event s) missing_event_kind) _ h in
    let (k, read, h₂) = >>=-eq-ok (map_err kind (Kind.from_str t)) _ h₁ in
    let (_, checked, h₃) = >>=-eq-ok (check_kind p k) _ h₂ in
    (
      cc,
      record {
        name = p;
        kind_text = t;
        cut = ok_or-eq-ok (Path.strip_event s) missing_event_kind cut;
        kind = k;
        read = map_err-eq-ok kind (Kind.from_str t) read;
        matched = check_kind-HasParties p k checked;
      },
    )

pub path_of_ok : (s p : Text) → Path.from_str s ≡ ok p → p ≡ s
unfolding Path.from_str
path_of_ok s p h = ground arith

-- `EventId::from_str` returns only the text that it was given, and only if that is a path and a valid
-- id: it ends in a kind that can be read, and a match has two parties with different names.
pub from_str_sound :
    (s : Text) (id : EventId) → from_str s ≡ ok id → (id ≡ s) × IsPath s × IsEventId s
unfolding from_str
from_str_sound s id h =
    let (p, is_path, h₁) = >>=-eq-ok (map_err (λ _. bad_format) (Path.from_str s)) _ h in
    let is_path' = map_err-eq-ok (λ _. bad_format) (Path.from_str s) is_path in
    let same : p ≡ s = path_of_ok s p is_path' in
    let (same_id, valid) = try_from_sound s id (rw same at h₁) in
    (same_id, rw same at is_path', valid)
