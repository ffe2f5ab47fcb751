-- ===== src/Describe/Shallow.antt =====
-- olivia_describe/src/lib.rs: events that are no equality, and their outcomes, take two levels.
use olivia.Base.{ℕ, ◌≤◌, Text, some, ok, ◌≡◌, refl, arith, subst, sym}
use olivia.Path
use olivia.Path.Events.{strip_event-eq-some}
use olivia.Kind
use olivia.Kind.{EventKind, vs_match, single_occurrence, predicate, price, eq, bound, show_kind, gt}
use olivia.Kind.RoundTrip.{IsWellFormed, from_str-show_kind}
use olivia.EventId.{EventId, kind_outcomes, from_path_and_kind, replace_kind}
use olivia.EventId.Valid.{path_of}
use olivia.Outcome.Range.{InRange}
use olivia.Event.Crash.{inner_cut}
use olivia.Describe.Total.{HasNames}
use olivia.Describe.Levels.{
  HasShort, HasDesc, basic-HasShort, basic-HasDesc, bound-HasShort, bound-HasDesc,
}

-- No equality.
abbrev pub IsShallow : EventKind → Type 0
IsShallow (predicate _ (eq _)) = ⊥
IsShallow _ = Unit

pub HasShort-weaken :
    (E : Type 0) (id : EventId) (m n : ℕ) → m ≤ n → HasShort E m id → HasShort E n id
HasShort-weaken E id m n le (s, known) = (s, λ fuel enough. known fuel (omega arith))

module _ (E : Type 0) (id p t : Text) {k : EventKind} (cut : Path.strip_event id ≡ some (p, t))
    (read : Kind.from_str t ≡ ok k) where
  pub replaced : (j : EventKind) → replace_kind {E = E} id j ≡ ok (from_path_and_kind p j)
  unfolding replace_kind from_path_and_kind
  replaced j = rw (path_of id p t cut read, replace_kind) refl

  -- The price that a bound is on.
  price_short : (j : EventKind) → j ≡ price 0 → HasShort E 1 (from_path_and_kind p j)
  price_short j e =
      subst (λ i. HasShort E 1 (from_path_and_kind p i)) (sym e)
        (basic-HasShort E (from_path_and_kind p (price 0)) p (show_kind (price 0))
          (inner_cut (strip_event-eq-some id p t cut).0 (price 0) (omega arith) refl)
          (from_str-show_kind (price 0) (omega arith)) tt tt)

  pub shallow-HasShort :
      (j : EventKind) → k ≡ j → IsWellFormed j → IsShallow j → HasNames p j → HasShort E 2 id
  shallow-HasShort (vs_match v) e w i h =
      (HasShort-weaken E id 1 2 (omega arith) (basic-HasShort E id p t cut (rw e at read) tt h))
  shallow-HasShort single_occurrence e w i h =
      (HasShort-weaken E id 1 2 (omega arith) (basic-HasShort E id p t cut (rw e at read) tt h))
  shallow-HasShort (price n) e w i h =
      (HasShort-weaken E id 1 2 (omega arith) (basic-HasShort E id p t cut (rw e at read) tt h))
  shallow-HasShort (predicate j (bound gt n)) e (w, _) i h =
      bound-HasShort E id p t (from_path_and_kind p j) j (bound gt n) cut (rw e at read)
        (replaced j) 1 gt n refl (price_short j w)
  shallow-HasShort (predicate j (eq _)) e w i h = absurd i

  pub shallow-HasDesc :
      (j : EventKind) (v : ℕ)
      → k ≡ j
      → IsWellFormed j
      → IsShallow j
      → HasNames p j
      → InRange j v
      → HasDesc E 2 (record { id = id; value = v })
  unfolding kind_outcomes
  shallow-HasDesc (vs_match m) v e w i h lt = basic-HasDesc E id p t cut (rw e at read) v tt h lt
  shallow-HasDesc single_occurrence v e w i h lt =
      basic-HasDesc E id p t cut (rw e at read) v tt h lt
  shallow-HasDesc (price n) v e w i h lt = basic-HasDesc E id p t cut (rw e at read) v tt h lt
  shallow-HasDesc (predicate j (bound gt n)) v e (w, _) i h lt =
      bound-HasDesc E id p t (from_path_and_kind p j) j (bound gt n) cut (rw e at read) (replaced j)
        1 gt n v refl lt (price_short j w)
  shallow-HasDesc (predicate j (eq _)) v e w i h lt = absurd i
