-- ===== src/Event/Checked.antt =====
-- olivia_core/src/event.rs: what `TryFrom<Path>` has checked of an equality.
use olivia.Base.{Text, ◌≡◌, some, ok, map_err, >>=-eq-ok, map_err-eq-ok, Result, err, panic, refl}
use olivia.Path
use olivia.Kind
use olivia.Kind.{EventKind, predicate, eq}
use olivia.EventId.{from_path_and_kind}
use olivia.Outcome.{Outcome, OutcomeError, invalid, try_from_id_and_outcome}
use olivia.Event.{bad_format, check_eq, check_kind, try_from, from_str}
use olivia.Event.Parse.{path_of_ok}

check_eq-ok : (r : Result OutcomeError Outcome) → check_eq r ≡ ok tt → (o : Outcome) × (r ≡ ok o)
unfolding check_eq
check_eq-ok (ok o) h = (o, refl)
check_eq-ok (err (invalid x)) h = cc
check_eq-ok panic h = cc

-- The value of an equality was read as an outcome of the event that it is about.
pub from_str-eq :
    (s p t : Text) (inner : EventKind) (value : Text)
    → from_str s ≡ ok s
    → Path.strip_event s ≡ some (p, t)
    → Kind.from_str t ≡ ok (predicate inner (eq value))
    → (o : Outcome) × (try_from_id_and_outcome (from_path_and_kind p inner) value ≡ ok o)
unfolding from_str try_from check_kind
from_str-eq s p t inner value h cut read =
    let (q, is_path, h₁) = >>=-eq-ok (map_err (λ _. bad_format) (Path.from_str s)) _ h in
    let same = path_of_ok s q (map_err-eq-ok (λ _. bad_format) (Path.from_str s) is_path) in
    let h₂ = rw same at h₁ in
    let h₃ = rw (cut, try_from) at h₂ in
    let h₄ = rw (read, try_from) at h₃ in
    let (u, checked, _) =
      >>=-eq-ok (check_eq (try_from_id_and_outcome (from_path_and_kind p inner) value)) _ h₄ in
    check_eq-ok (try_from_id_and_outcome (from_path_and_kind p inner) value) checked
