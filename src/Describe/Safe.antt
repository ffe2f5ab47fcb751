-- ===== src/Describe/Safe.antt =====
-- olivia_describe/src/lib.rs: what was parsed can be described.
use olivia.Base.{
  ℕ, suc, ◌<◌, ◌≤◌, Text, codes, text_eq, some, List, [], ◌∷◌, length, length-append, ok, ◌≡◌, refl,
  sym, ap, ◌∙◌, arith, subst,
}
use olivia.Base.Slices.{split}
use olivia.Path
use olivia.Path.Events.{IsEventPath, strip_event-eq-some}
use olivia.Kind
use olivia.Kind.{EventKind, vs_match, single_occurrence, predicate, price, eq, bound, show_kind}
use olivia.Kind.RoundTrip.{IsInner, IsWellFormed, from_str-show_kind}
use olivia.Kind.Sound.{from_str-IsWellFormed}
use olivia.EventId.{EventId, event_kind, first_two, kind_outcomes, from_path_and_kind, replace_kind}
use olivia.EventId.Valid.{IsEventId, HasParties, event_kind_lem}
use olivia.Outcome.{Outcome, OutcomeError, try_from_id_and_outcome}
use olivia.Outcome.Range.{InRange, try_from_id_and_outcome-InRange, try_from_id_and_outcome-parties}
use olivia.Event.{from_str}
use olivia.Event.Checked.{from_str-eq}
use olivia.Event.Parse.{from_str_sound}
use olivia.Event.Crash.{inner_cut, inner_kind, inner_parties}
use olivia.Describe.{OutcomeDesc, maybe_negate, event_short, outcome}
use olivia.Describe.Total.{HasNames}
use olivia.Describe.Levels.{HasShort, HasDesc, IsDesc, truth, eq-HasShort, eq-IsDesc}
use olivia.Describe.Shallow.{
  IsShallow, HasShort-weaken, replaced, shallow-HasShort, shallow-HasDesc,
}

parties-names : (p : Text) (k : EventKind) → HasParties p k → HasNames p k
parties-names p (vs_match _) (l, r, parts, _) = (l, r, [], parts)
parties-names p single_occurrence h = tt
parties-names p (predicate _ _) h = tt
parties-names p (price _) h = tt

first_two-names :
    (E : Type 0) (ts : List Text) (pair : Text × Text)
    → first_two {E = E} ts ≡ ok pair
    → (l : Text) × (r : Text) × (rest : List Text) × (ts ≡ l ∷ r ∷ rest)
unfolding first_two
first_two-names E [] pair h = cc
first_two-names E (a ∷ []) pair h = cc
first_two-names E (a ∷ b ∷ ts) pair h = (a, b, ts, refl)

IsShallow-of_inner : (k : EventKind) → IsInner k → IsShallow k
IsShallow-of_inner (vs_match _) i = tt
IsShallow-of_inner single_occurrence i = tt
IsShallow-of_inner (predicate _ (eq _)) i = i
IsShallow-of_inner (predicate _ (bound _ _)) i = tt
IsShallow-of_inner (price _) i = tt

-- The texts of events are long enough for three levels.
long_enough : (id p t : Text) → Path.strip_event id ≡ some (p, t) → 3 ≤ suc (length id)
long_enough id p t cut =
    let (named, parts, _) = strip_event-eq-some id p t cut in
    omega (
      arith,
      ap length parts,
      length-append p (b'.' ∷ t),
      ap length named.parts,
      length-append named.before (b'/' ∷ named.name),
    )

three_two : {n : ℕ} → 3 ≤ n → 2 ≤ n
three_two le = omega arith

-- What an equality is about: its kind, the outcome that it is with, and the description of that.
module _ {p : Text} (named : IsEventPath p) (inner : EventKind) (value : Text) (o : Outcome)
    (w : IsWellFormed inner) (i : IsInner inner)
    (is : try_from_id_and_outcome (from_path_and_kind p inner) value ≡ ok o) where
  inner-HasNames : (j : EventKind) → inner ≡ j → HasNames p j
  inner-HasNames (vs_match m) e =
      let (pair, both) =
        try_from_id_and_outcome-parties (from_path_and_kind p inner) inner value o
          (inner_kind named inner w i) is e in
      first_two-names OutcomeError (split (Path.last p) b'_') pair
        (sym (inner_parties named inner w i e) ∙ both)
  inner-HasNames single_occurrence e = tt
  inner-HasNames (predicate _ _) e = tt
  inner-HasNames (price _) e = tt

  inner_enough : 3 ≤ suc (length o.id)
  inner_enough =
      let (v, _, e) =
        try_from_id_and_outcome-InRange (from_path_and_kind p inner) inner value o
          (inner_kind named inner w i) is in
      subst (λ (x : Outcome). 3 ≤ suc (length x.id)) (sym e)
        (long_enough (from_path_and_kind p inner) p (show_kind inner) (inner_cut named inner w i))

  inner-HasDesc : (E : Type 0) → HasDesc E 2 o
  inner-HasDesc E =
      let (v, range, e) =
        try_from_id_and_outcome-InRange (from_path_and_kind p inner) inner value o
          (inner_kind named inner w i) is in
      subst (HasDesc E 2) (sym e) (
        shallow-HasDesc E (from_path_and_kind p inner) p (show_kind inner)
          (inner_cut named inner w i) (from_str-show_kind inner w) inner v refl w
          (IsShallow-of_inner inner i) (inner-HasNames inner refl) range)

module _ (E : Type 0) {id : EventId} (h : IsEventId id) (valid : from_str id ≡ ok id) where
  w : IsWellFormed h.kind
  w = from_str-IsWellFormed h.kind_text h.kind h.read

  named : IsEventPath h.name
  named = (strip_event-eq-some id h.name h.kind_text h.cut).0

  -- The description of an equality, and that of its outcomes.
  module _ (inner : EventKind) (value : Text) (e : h.kind ≡ predicate inner (eq value)) where
    read : Kind.from_str h.kind_text ≡ ok (predicate inner (eq value))
    read = rw e at h.read

    inner_outcome :
        (o : Outcome) × (try_from_id_and_outcome (from_path_and_kind h.name inner) value ≡ ok o)
    inner_outcome = from_str-eq id h.name h.kind_text inner value valid h.cut read

    inner_desc :
        (o : Outcome)
        → try_from_id_and_outcome (from_path_and_kind h.name inner) value ≡ ok o
        → HasDesc E 2 o
    inner_desc o is =
        let (wi, i, _) = (subst IsWellFormed e w) in inner-HasDesc named inner value o wi i is E

    eq_short : HasShort E 3 id
    eq_short =
        let (o, is) = inner_outcome in
        eq-HasShort E id h.name h.kind_text (from_path_and_kind h.name inner) inner (eq value) h.cut
          read (replaced E id h.name h.kind_text h.cut h.read inner) 2 value o refl is
          (inner_desc o is)

    eq-IsDesc_of_id :
        (o : Outcome) (v : ℕ)
        → try_from_id_and_outcome (from_path_and_kind h.name inner) value ≡ ok o
        → v < 2
        → (d : OutcomeDesc) → IsDesc E 2 o d
        → IsDesc E 3
            (record { id = id; value = v })
            (maybe_negate d (text_eq (truth v) (codes "false")))
    eq-IsDesc_of_id o v is lt d known =
        eq-IsDesc E id h.name h.kind_text (from_path_and_kind h.name inner) inner (eq value) h.cut
          read (replaced E id h.name h.kind_text h.cut h.read inner) 2 value o v refl is lt d known

  shallow_short : (k : EventKind) → h.kind ≡ k → IsShallow k → HasShort E 3 id
  shallow_short k e i = HasShort-weaken E id 2 3 (omega arith) (
      shallow-HasShort E id h.name h.kind_text h.cut (rw e at h.read) k refl
        (subst IsWellFormed e w) i (parties-names h.name k (subst (HasParties h.name) e h.matched)))

  short_total : (k : EventKind) → h.kind ≡ k → HasShort E 3 id
  short_total (predicate inner (eq value)) e = eq_short inner value e
  short_total (predicate inner (bound g n)) e = shallow_short (predicate inner (bound g n)) e tt
  short_total (vs_match m) e = shallow_short (vs_match m) e tt
  short_total single_occurrence e = shallow_short single_occurrence e tt
  short_total (price n) e = shallow_short (price n) e tt

  shallow_desc :
      (k : EventKind) (v : ℕ)
      → h.kind ≡ k
      → IsShallow k
      → InRange k v
      → HasDesc E 3 (record { id = id; value = v })
  shallow_desc k v e i range =
      let (d, known) =
        shallow-HasDesc E id h.name h.kind_text h.cut (rw e at h.read) k v refl
          (subst IsWellFormed e w) i
          (parties-names h.name k (subst (HasParties h.name) e h.matched)) range in
      (d, λ n le. known n (omega arith))

  desc_total :
      (k : EventKind) (v : ℕ)
      → h.kind ≡ k
      → InRange k v
      → HasDesc E 3 (record { id = id; value = v })
  unfolding kind_outcomes
  desc_total (predicate inner (eq value)) v e range =
      let (o, is) = inner_outcome inner value e in
      let (d, known) = inner_desc inner value e o is in
      (_, eq-IsDesc_of_id inner value e o v is range d known)
  desc_total (predicate inner (bound g n)) v e range =
      shallow_desc (predicate inner (bound g n)) v e tt range
  desc_total (vs_match m) v e range = shallow_desc (vs_match m) v e tt range
  desc_total single_occurrence v e range = shallow_desc single_occurrence v e tt range
  desc_total (price n) v e range = shallow_desc (price n) v e tt range

-- Every event with an id that was parsed has a description, and so does each of its outcomes that was
-- parsed: nothing panics, and the functions that call each other come to an end.
pub event_short-outcome_total :
    (id : EventId) {E : Type 0}
    → from_str id ≡ ok id
    → ((s : Text) × (event_short {E = E} id ≡ ok s))
      × ((s : Text) (o : Outcome)
          → try_from_id_and_outcome id s ≡ ok o
          → (d : OutcomeDesc) × (outcome {E = E} o ≡ ok d))
unfolding event_short outcome
event_short-outcome_total id {E} valid =
    let (_, _, h) = from_str_sound id id valid in
    let enough = long_enough id h.name h.kind_text h.cut in
    let (short, known) = short_total E h valid h.kind refl in
    (
      (short, known (suc (length id)) enough),
      λ s o is.
          let (v, range, e) = try_from_id_and_outcome-InRange id h.kind s o (event_kind_lem h) is in
          let (d, desc) = desc_total E h valid h.kind v refl range in
          (
            d,
            subst (λ (x : Outcome). outcome {E = E} x ≡ ok d) (sym e)
                (desc (suc (length id)) enough),
          ),
    )

-- The outcome `true` of an equality that was parsed is described as the outcome that the equality is
-- with, and the outcome `false` in the same words with the positive and the negative exchanged.
pub outcome-eq :
    (id : EventId) (inner : EventKind) (value : Text) {E : Type 0}
    → from_str id ≡ ok id
    → event_kind {E = OutcomeError} id ≡ ok (predicate inner (eq value))
    → (inner_id : EventId) × (o : Outcome) × (d : OutcomeDesc) × (replace_kind {E = OutcomeError} id
          inner
        ≡ ok inner_id)
      × (try_from_id_and_outcome inner_id value ≡ ok o)
      × (outcome {E = E} o ≡ ok d)
      × (outcome {E = E} (record { id = id; value = 1 }) ≡ ok d)
      × (outcome {E = E} (record { id = id; value = 0 })
          ≡ ok (record { positive = d.negative; negative = d.positive }))
unfolding outcome maybe_negate text_eq
outcome-eq id inner value {E} valid is_kind =
    let (_, _, h) = from_str_sound id id valid in
    let e : h.kind ≡ predicate inner (eq value) = cc (event_kind_lem h {E = OutcomeError}) in
    let enough = long_enough id h.name h.kind_text h.cut in
    let (o, is) = inner_outcome E h valid inner value e in
    let (d, known) = inner_desc E h valid inner value e o is in
    let (wi, i, _) = subst IsWellFormed e (w E h valid) in
    (
      from_path_and_kind h.name inner,
      o,
      d,
      replaced OutcomeError id h.name h.kind_text h.cut h.read inner,
      is,
      known (suc (length o.id)) (three_two (inner_enough (named E h valid) inner value o wi i is)),
      eq-IsDesc_of_id E h valid inner value e o 1 is (omega arith) d known (suc (length id)) enough,
      eq-IsDesc_of_id E h valid inner value e o 0 is (omega arith) d known (suc (length id)) enough,
    )
