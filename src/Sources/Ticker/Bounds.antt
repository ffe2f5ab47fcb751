-- ===== src/Sources/Ticker/Bounds.antt =====
-- olivia/src/sources/ticker.rs: the outcomes that the two creators make are outcomes of their events.
use olivia.Base.{
  ℕ, zero, suc, ◌<◌, min, Text, Option, none, some, Result, ok, panic, ◌≡◌, ◌≢◌, ◌↔◌, ◌⊎◌, ◌∙◌,
  refl, sym, arith, inl, inr,
}
use olivia.Kind.{EventKind, vs_match, win, win_or_draw, single_occurrence, predicate, price}
use olivia.EventId.{EventId, n_outcomes, kind_outcomes}
use olivia.EventId.Valid.{IsEventId, n_outcomes_lem}
use olivia.Outcome.{outcome_string, try_from_id_and_outcome}
use olivia.Outcome.RoundTrip.{outcome_string-round_trip}
use olivia.Event.{from_str}
use olivia.Event.Parse.{from_str_sound}
use olivia.Group.{Blake2b}
use olivia.Sources.Ticker.{RandomOutcomeCreator, create_random, create_zero, gen_range, max_or}

kind_outcomes_pos : (k : EventKind) → 0 < kind_outcomes k
unfolding kind_outcomes
kind_outcomes_pos (vs_match win) = omega arith
kind_outcomes_pos (vs_match win_or_draw) = omega arith
kind_outcomes_pos single_occurrence = omega arith
kind_outcomes_pos (predicate _ _) = omega arith
kind_outcomes_pos (price _) = omega arith

-- An outcome of the event with the value, below the event's number of outcomes, which is written as a
-- text and read back.
abbrev pub IsOutcome : Type 0 → EventId → ℕ → Type 0
IsOutcome E id v =
    (n : ℕ) × (n_outcomes {E = E} id ≡ ok n)
    × (v < n)
    × ((s : Text) × (outcome_string {E = E} (record { id = id; value = v }) ≡ ok s)
        × (try_from_id_and_outcome id s ≡ ok (record { id = id; value = v })))

module _ (E : Type 0) {id : EventId} (h : IsEventId id) where
  in_range : (v : ℕ) → v < kind_outcomes h.kind → IsOutcome E id v
  in_range v lt = (
    kind_outcomes h.kind,
    n_outcomes_lem h,
    lt,
    outcome_string-round_trip (record { id = id; value = v }) {E = E} (kind_outcomes h.kind) h
        (n_outcomes_lem h) lt,
  )

-- What `gen_range` is known to do: the number lies in the range.
abbrev pub InGivenRange : {Seed : Type 0} → (Seed → ℕ → ℕ) → Type 0
InGivenRange {Seed} sample = (seed : Seed) (max : ℕ) → 0 < max → sample seed max < max

gen_range_ok :
    {E Seed : Type 0} (sample : Seed → ℕ → ℕ) (seed : Seed) (max : ℕ)
    → 0 < max
    → gen_range {E = E} sample seed max ≡ ok (sample seed max)
unfolding gen_range
gen_range_ok sample seed max lt = ground arith

max_or_pos : (m : Option ℕ) (n : ℕ) → m ≢ some 0 → 0 < n → 0 < min (max_or m n) n
unfolding max_or
max_or_pos none n h lt = omega arith
max_or_pos (some zero) n h lt = absurd (h refl)
max_or_pos (some (suc m)) n h lt = omega arith

gen_range_empty :
    {E Seed : Type 0} (sample : Seed → ℕ → ℕ) (seed : Seed) (max : ℕ)
    → max ≡ 0
    → gen_range {E = E} sample seed max ≡ panic
unfolding gen_range
gen_range_empty sample seed max e = ground arith

create_lem :
    {E : Type 0} {B : Blake2b} (sample : B.Seed → ℕ → ℕ) (creator : RandomOutcomeCreator B)
    {id : EventId} (h : IsEventId id)
    → create_random {E = E} sample creator id
      ≡ gen_range sample
          (B.keyed creator.seed id)
          (min (max_or creator.max (kind_outcomes h.kind)) (kind_outcomes h.kind))
unfolding create_random
create_lem sample creator h = rw (n_outcomes_lem h, create_random) refl

no_min : (m : Option ℕ) (n : ℕ) → m ≡ some 0 → min (max_or m n) n ≡ 0
unfolding max_or
no_min none n e = cc
no_min (some zero) n e = omega arith
no_min (some (suc m)) n e = cc

ok-ne-panic : {E A : Type 0} {a : A} → ◌≢◌ {A = Result E A} (ok a) panic
ok-ne-panic e = cc

zero_or_not : (m : Option ℕ) → (m ≡ some 0) ⊎ (m ≢ some 0)
zero_or_not none = inr (λ e. cc)
zero_or_not (some zero) = inl refl
zero_or_not (some (suc m)) = inr (λ e. cc)

min_lt : (a b v : ℕ) → v < min a b → v < b
min_lt a b v h = omega arith

-- On an id that was parsed, a random outcome whose upper limit, if there is one, is not zero is an
-- outcome of the event, given that a number drawn from a range lies in it. So is the outcome that is
-- always zero.
pub create_random-IsOutcome :
    {E : Type 0} {B : Blake2b} (sample : B.Seed → ℕ → ℕ) (creator : RandomOutcomeCreator B)
    (id : EventId)
    → InGivenRange sample
    → from_str id ≡ ok id
    → creator.max ≢ some 0
    → ((v : ℕ) × (create_random {E = E} sample creator id ≡ ok v) × IsOutcome E id v)
      × ((v : ℕ) × (create_zero {E = E} id ≡ ok v) × IsOutcome E id v)
unfolding create_zero
create_random-IsOutcome {E} {B} sample creator id given valid some_max =
    let (_, _, h) = from_str_sound id id valid in
    let n : ℕ = kind_outcomes h.kind in
    let pos = max_or_pos creator.max n some_max (kind_outcomes_pos h.kind) in
    let seed : B.Seed = B.keyed creator.seed id in
    let max : ℕ = min (max_or creator.max n) n in
    (
      (
        sample seed max,
        create_lem sample creator h ∙ gen_range_ok sample seed max pos,
        in_range E h (sample seed max)
            (min_lt (max_or creator.max n) n (sample seed max) (given seed max pos)),
      ),
      (0, refl, in_range E h 0 (kind_outcomes_pos h.kind)),
    )

-- A random outcome of an event with an id that was parsed panics exactly if the upper limit is zero.
pub create_random_panic_iff :
    {E : Type 0} {B : Blake2b} (sample : B.Seed → ℕ → ℕ) (creator : RandomOutcomeCreator B)
    (id : EventId)
    → from_str id ≡ ok id
    → (create_random {E = E} sample creator id ≡ panic) ↔ (creator.max ≡ some 0)
create_random_panic_iff {E} {B} sample creator id valid =
    let (_, _, h) = from_str_sound id id valid in
    let n : ℕ = kind_outcomes h.kind in
    let seed : B.Seed = B.keyed creator.seed id in
    let max : ℕ = min (max_or creator.max n) n in
    let made = create_lem {E = E} sample creator h in
    (
      λ crash. elim (zero_or_not creator.max) [
        | inl e ↦ e
        | inr e ↦
            let drawn =
              gen_range_ok {E = E} sample seed max
                (max_or_pos creator.max n e (kind_outcomes_pos h.kind)) in
            absurd (ok-ne-panic (sym drawn ∙ sym made ∙ crash))
      ],
      λ e. made ∙ gen_range_empty sample seed max (no_min creator.max n e),
    )
