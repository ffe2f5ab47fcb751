-- ===== src/Describe/Levels.antt =====
-- olivia_describe/src/lib.rs: how deep the two descriptions call each other. An event that is no
-- predicate takes one level, with its outcomes two; a predicate takes one more than what it is on.
use olivia.Base.{
  ℕ, zero, suc, ◌<◌, ◌≤◌, Text, codes, text_eq, some, ◌++◌, if◌then◌else◌, ◌==◌, ok, ◌≡◌, refl, ◌∙◌,
  arith,
}
use olivia.Path
use olivia.Kind
use olivia.Kind.{EventKind, predicate, price, Predicate, eq, bound, BoundKind, gt, show_kind}
use olivia.EventId.{EventId, replace_kind}
use olivia.Outcome.{Outcome, write_value, try_from_id_and_outcome}
use olivia.Outcome.Range.{InRange}
use olivia.Event.Predicated.{IsBasic}
use olivia.Describe.{
  Describer, OutcomeDesc, bound_text, maybe_negate, predicate_short, predicate_desc, kind_short,
  above_desc, kind_desc, event_short_body, outcome_body, describer,
}
use olivia.Describe.Total.{HasNames, body_total, basic_short}
use olivia.Describe.Outcomes.{basic_total, outcome_lem}

-- A description of the event, and one of an outcome of it, at each depth from a depth on.
abbrev pub HasShort : Type 0 → ℕ → EventId → Type 0
HasShort E m id = (s : Text) × ((n : ℕ) → m ≤ n → (describer {E = E} n).event_short id ≡ ok s)

abbrev pub IsDesc : Type 0 → ℕ → Outcome → OutcomeDesc → Type 0
IsDesc E m o d = (n : ℕ) → m ≤ n → (describer {E = E} n).outcome o ≡ ok d

abbrev pub HasDesc : Type 0 → ℕ → Outcome → Type 0
HasDesc E m o = (d : OutcomeDesc) × IsDesc E m o d

-- A call of depth `m` in the body makes a depth of one more.
HasShort-suc :
    (E : Type 0) (id : EventId) (s : Text) (m : ℕ)
    → ((n : ℕ) → m ≤ n → event_short_body (describer {E = E} n) id ≡ ok s)
    → HasShort E (suc m) id
unfolding describer
HasShort-suc E id s m h = (s, deeper)
  where
    deeper : (n : ℕ) → suc m ≤ n → (describer {E = E} n).event_short id ≡ ok s
    deeper zero le = absurd (omega arith)
    deeper (suc n) le = h n (omega arith)

IsDesc-suc :
    (E : Type 0) (o : Outcome) (d : OutcomeDesc) (m : ℕ)
    → ((n : ℕ) → m ≤ n → outcome_body (describer {E = E} n) o ≡ ok d)
    → IsDesc E (suc m) o d
unfolding describer
IsDesc-suc E o d m h = deeper
  where
    deeper : (n : ℕ) → suc m ≤ n → (describer {E = E} n).outcome o ≡ ok d
    deeper zero le = absurd (omega arith)
    deeper (suc n) le = h n (omega arith)

-- The text of a predicate's outcome.
abbrev pub truth : ℕ → Text
truth v = if v == 0 then codes "false" else codes "true"

module _ (E : Type 0) (id p t : Text) {k : EventKind} (cut : Path.strip_event id ≡ some (p, t))
    (read : Kind.from_str t ≡ ok k) where
  pub basic-HasShort : IsBasic k → HasNames p k → HasShort E 1 id
  basic-HasShort b h =
      let (s, e) = basic_short E id p t cut read b h in
      HasShort-suc E id s 0 (λ n _. e (describer n))

  pub basic-HasDesc :
      (v : ℕ) → IsBasic k → HasNames p k → InRange k v → HasDesc E 2 (record { id = id; value = v })
  basic-HasDesc v b h lt =
      let (short, known) = basic-HasShort b h in
      let (s, written, (d, made)) = basic_total E id p t cut read k v short refl b h lt in
      (
        d,
        IsDesc-suc E (record { id = id; value = v }) d 1
            (λ n le.
              outcome_lem E id p t cut read (describer n) v written
              ∙ made (describer n) (known n le)),
      )

module _ (E : Type 0) (id p t inner_id : Text) (inner : EventKind) (pred : Predicate)
    (cut : Path.strip_event id ≡ some (p, t)) (read : Kind.from_str t ≡ ok (predicate inner pred))
    (inner_made : replace_kind {E = E} id inner ≡ ok inner_id) where
  -- The event of a predicate, if the description of what it is on is known.
  predicate-HasShort :
      (Knows : Describer E → Type 0) (m : ℕ) (s : Text)
      → ((rec : Describer E) → Knows rec → predicate_short rec inner_id pred ≡ ok s)
      → ((n : ℕ) → m ≤ n → Knows (describer n))
      → HasShort E (suc m) id
  unfolding kind_short
  predicate-HasShort Knows m s made known =
      let (s', e) =
        body_total E id p t cut read Knows (s, λ rec h. rw (inner_made, kind_short) (made rec h)) in
      HasShort-suc E id s' m (λ n le. e (describer n) (known n le))

  written_truth : (v : ℕ) → v < 2 → write_value {E = E} id (predicate inner pred) v ≡ ok (truth v)
  unfolding write_value
  written_truth v lt = ground arith

  predicate-IsDesc :
      (m v : ℕ) (d : OutcomeDesc)
      → v < 2
      → ((n : ℕ) → m ≤ n → predicate_desc (describer {E = E} n) inner_id pred (truth v) ≡ ok d)
      → IsDesc E (suc m) (record { id = id; value = v }) d
  unfolding kind_desc
  predicate-IsDesc m v d lt made =
      IsDesc-suc E (record { id = id; value = v }) d m
        (λ n le.
          outcome_lem E id p t cut read (describer n) v (written_truth v lt)
          ∙ rw (inner_made, kind_desc) (made n le))

  -- A bound is on a price, whose own description takes one level.
  short_of_bound :
      (rec : Describer E) (g : BoundKind) (n : ℕ) {short : Text}
      → pred ≡ bound g n
      → rec.event_short inner_id ≡ ok short
      → predicate_short rec inner_id pred ≡ ok (bound_text short n)
  unfolding predicate_short
  short_of_bound rec g n e known = rw (e, predicate_short) (rw (known, predicate_short) refl)

  desc_of_bound :
      (rec : Describer E) (g : BoundKind) (n : ℕ) (s : Text) {short : Text}
      → pred ≡ bound g n
      → rec.event_short inner_id ≡ ok short
      → predicate_desc rec inner_id pred s
        ≡ ok (maybe_negate (above_desc short n) (text_eq s (codes "false")))
  unfolding predicate_desc
  desc_of_bound rec g n s e known = rw (e, predicate_desc) (rw (known, predicate_desc) refl)

  -- An equality asks for the description of the outcome that it is with.
  short_of_eq :
      (rec : Describer E) (value : Text) (o : Outcome) {d : OutcomeDesc}
      → pred ≡ eq value
      → try_from_id_and_outcome inner_id value ≡ ok o
      → rec.outcome o ≡ ok d
      → predicate_short rec inner_id pred ≡ ok (codes "assertion that " ++ d.positive)
  unfolding predicate_short
  short_of_eq rec value o e is known =
      rw (e, predicate_short) (rw (is, predicate_short) (rw (known, predicate_short) refl))

  desc_of_eq :
      (rec : Describer E) (value : Text) (o : Outcome) (s : Text) {d : OutcomeDesc}
      → pred ≡ eq value
      → try_from_id_and_outcome inner_id value ≡ ok o
      → rec.outcome o ≡ ok d
      → predicate_desc rec inner_id pred s ≡ ok (maybe_negate d (text_eq s (codes "false")))
  unfolding predicate_desc
  desc_of_eq rec value o s e is known =
      rw (e, predicate_desc) (rw (is, predicate_desc) (rw (known, predicate_desc) refl))

  pub bound-HasShort :
      (m : ℕ) (g : BoundKind) (n : ℕ)
      → pred ≡ bound g n
      → HasShort E m inner_id
      → HasShort E (suc m) id
  bound-HasShort m g n e (short, known) =
      predicate-HasShort (λ rec. rec.event_short inner_id ≡ ok short) m (bound_text short n)
        (λ rec h. short_of_bound rec g n e h) known

  pub bound-HasDesc :
      (m : ℕ) (g : BoundKind) (n v : ℕ)
      → pred ≡ bound g n
      → v < 2
      → HasShort E m inner_id
      → HasDesc E (suc m) (record { id = id; value = v })
  bound-HasDesc m g n v e lt (short, known) = (
    _,
    predicate-IsDesc m v (maybe_negate (above_desc short n) (text_eq (truth v) (codes "false"))) lt
        (λ fuel le. desc_of_bound (describer fuel) g n (truth v) e (known fuel le)),
  )

  pub eq-HasShort :
      (m : ℕ) (value : Text) (o : Outcome)
      → pred ≡ eq value
      → try_from_id_and_outcome inner_id value ≡ ok o
      → HasDesc E m o
      → HasShort E (suc m) id
  eq-HasShort m value o e is (d, known) =
      predicate-HasShort (λ rec. rec.outcome o ≡ ok d) m (codes "assertion that " ++ d.positive)
        (λ rec h. short_of_eq rec value o e is h) known

  -- The outcome of an equality is described as the outcome that it is with, turned round for
  -- `false`.
  pub eq-IsDesc :
      (m : ℕ) (value : Text) (o : Outcome) (v : ℕ)
      → pred ≡ eq value
      → try_from_id_and_outcome inner_id value ≡ ok o
      → v < 2
      → (d : OutcomeDesc) → IsDesc E m o d
      → IsDesc E
          (suc m)
          (record { id = id; value = v })
          (maybe_negate d (text_eq (truth v) (codes "false")))
  eq-IsDesc m value o v e is lt d known =
      predicate-IsDesc m v (maybe_negate d (text_eq (truth v) (codes "false"))) lt
        (λ fuel enough. desc_of_eq (describer fuel) value o (truth v) e is (known fuel enough))
