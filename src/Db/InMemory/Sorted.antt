-- ===== src/Db/InMemory/Sorted.antt =====
-- The answer of `query_events`: what its filter lets through, in the order that is asked for.
use olivia.Base.{
  Text, Bool, Bool-cases, true, false, ◌&&◌, if◌then◌else◌, Option, none, some, List, [], ◌∷◌, map,
  ok, ◌≡◌, refl, sym, subst, inl, inr,
}
use olivia.Kind.{EventKind, kind_eq}
use olivia.EventId.{EventId}
use olivia.EventId.Valid.{IsEventId, path_lem, event_kind_lem}
use olivia.Group.{Group, Chrono}
use olivia.Db.{AnnouncedEvent}
use olivia.Db.InMemory.{InMemory}
use olivia.Db.InMemory.Query.{
  Order, earliest, latest, EventQuery, matches, filtered, time_leb, before, insert, sort,
  query_events, kind_matches, path_matches, attested_matches, is_some,
}
use mathlib.Core.List.{Perm}
use mathlib.Core.List.Perm

module _ {C : Group} {T : Chrono} where
  abbrev pub IsBefore : Order → AnnouncedEvent C T → AnnouncedEvent C T → Type 0
  IsBefore o e f = before T o e.event.expected_outcome_time f.event.expected_outcome_time ≡ true

  -- Each event may stand in front of the next.
  abbrev pub IsSorted : Order → List (AnnouncedEvent C T) → Type 0
  IsSorted o [] = Unit
  IsSorted o (e ∷ []) = Unit
  IsSorted o (e ∷ f ∷ fs) = IsBefore o e f × IsSorted o (f ∷ fs)

abbrev IsTotal : Chrono → Type 0
IsTotal T = (s t : T.Time) → T.leb s t ≡ false → T.leb t s ≡ true

time_leb_total :
    (T : Chrono)
    → IsTotal T
    → (s t : Option T.Time) → time_leb T s t ≡ false
    → time_leb T t s ≡ true
unfolding time_leb
time_leb_total T total none t h = cc
time_leb_total T total (some s) none h = refl
time_leb_total T total (some s) (some t) h = total s t h

before_total :
    (T : Chrono)
    → IsTotal T
    → (o : Order) (s t : Option T.Time) → before T o s t ≡ false
    → before T o t s ≡ true
unfolding before
before_total T total earliest s t h = time_leb_total T total s t h
before_total T total latest s t h = time_leb_total T total t s h

module _ {C : Group} {T : Chrono} where
  pub insert-in_front :
      (o : Order) (e f : AnnouncedEvent C T) (fs : List (AnnouncedEvent C T))
      → IsBefore o e f
      → insert o e (f ∷ fs) ≡ e ∷ f ∷ fs
  unfolding insert
  insert-in_front o e f fs h = rw h refl

  insert-behind :
      (o : Order) (e f : AnnouncedEvent C T) (fs : List (AnnouncedEvent C T))
      → before T o e.event.expected_outcome_time f.event.expected_outcome_time ≡ false
      → insert o e (f ∷ fs) ≡ f ∷ insert o e fs
  unfolding insert
  insert-behind o e f fs h = rw h refl

  insert-IsSorted :
      IsTotal T
      → (o : Order) (e : AnnouncedEvent C T) (fs : List (AnnouncedEvent C T)) → IsSorted o fs
      → IsSorted o (insert o e fs)
  insert-IsSorted total o e [] h = unfold insert in tt
  insert-IsSorted total o e (f ∷ []) h =
      elim (Bool-cases (before T o e.event.expected_outcome_time f.event.expected_outcome_time)) [
        | inl b ↦ subst (IsSorted o) (sym (insert-in_front o e f [] b)) (b, tt)
        | inr b ↦
            subst (IsSorted o) (sym (insert-behind o e f [] b))
              (unfold insert in (before_total T total o _ _ b, tt))
      ]
  insert-IsSorted total o e (f ∷ g ∷ gs) (first, h) =
      let rest = insert-IsSorted total o e (g ∷ gs) h in
      elim (Bool-cases (before T o e.event.expected_outcome_time f.event.expected_outcome_time)) [
        | inl b ↦ subst (IsSorted o) (sym (insert-in_front o e f (g ∷ gs) b)) (b, (first, h))
        | inr b ↦
            subst (IsSorted o) (sym (insert-behind o e f (g ∷ gs) b))
              (elim (Bool-cases
                (before T o e.event.expected_outcome_time g.event.expected_outcome_time)) [
                  | inl b' ↦
                      let shape = insert-in_front o e g gs b' in
                      subst (λ es. IsSorted o (f ∷ es)) (sym shape)
                        (before_total T total o _ _ b, subst (IsSorted o) shape rest)
                  | inr b' ↦
                      let shape = insert-behind o e g gs b' in
                      subst (λ es. IsSorted o (f ∷ es)) (sym shape)
                        (first, subst (IsSorted o) shape rest)
                ])
      ]

  insert-Perm :
      (o : Order) (e : AnnouncedEvent C T) (fs : List (AnnouncedEvent C T))
      → Perm (e ∷ fs) (insert o e fs)
  insert-Perm o e [] = unfold insert in Perm.rfl
  insert-Perm o e (f ∷ fs) =
      let rest = insert-Perm o e fs in
      elim (Bool-cases (before T o e.event.expected_outcome_time f.event.expected_outcome_time)) [
        | inl b ↦ subst (Perm (e ∷ f ∷ fs)) (sym (insert-in_front o e f fs b)) Perm.rfl
        | inr b ↦
            subst (Perm (e ∷ f ∷ fs)) (sym (insert-behind o e f fs b))
              (Perm.trans (Perm.swap f e fs) (Perm.cons f rest))
      ]

  sort-IsSorted :
      IsTotal T
      → (o : Order) (es : List (AnnouncedEvent C T)) → IsSorted o (sort o es) × Perm es (sort o es)
  unfolding sort
  sort-IsSorted total o [] = (tt, Perm.nil)
  sort-IsSorted total o (e ∷ es) =
      let (sorted, perm) = sort-IsSorted total o es in
      (
        insert-IsSorted total o e (sort o es) sorted,
        Perm.trans (Perm.cons e perm) (insert-Perm o e (sort o es)),
      )

abbrev pub HasValidIds : {C : Group} {T : Chrono} → List (Text × AnnouncedEvent C T) → Type 0
HasValidIds [] = Unit
HasValidIds ((_, e) ∷ rest) = IsEventId e.event.id × HasValidIds rest

kind_matches_total :
    {E : Type 0} (o : Option EventKind) (id : EventId)
    → IsEventId id
    → (b : Bool) × (kind_matches {E = E} o id ≡ ok b)
unfolding kind_matches
kind_matches_total none id h = (true, refl)
kind_matches_total (some k) id h = (kind_eq h.kind k, rw (event_kind_lem h, kind_matches) refl)

module _ {C : Group} {T : Chrono} {E : Type 0} (q : EventQuery) where
  matches_total :
      (e : AnnouncedEvent C T) → IsEventId e.event.id → (b : Bool) × (matches {E = E} q e ≡ ok b)
  unfolding matches
  matches_total e h = elim (Bool-cases (path_matches q h.name)) [
    | inr n ↦ (false, rw (path_lem h, matches) (rw n refl))
    | inl y ↦
        let (b, kind) = kind_matches_total {E = E} q.kind e.event.id h in
        (
          b && attested_matches q.attested (is_some e.attestation),
          rw (path_lem h, matches) (rw y (rw (kind, matches) refl)),
        )
  ]

  filtered_total :
      (m : List (Text × AnnouncedEvent C T))
      → HasValidIds m
      → (fs : List (AnnouncedEvent C T)) × (filtered {E = E} q m ≡ ok fs)
  unfolding filtered
  filtered_total [] h = ([], refl)
  filtered_total ((id, e) ∷ m) (valid, h) =
      let (b, found) = matches_total e valid in
      let (fs, rest) = filtered_total m h in
      (if b then e ∷ fs else fs, rw (found, filtered) (rw (rest, filtered) refl))

-- A query in memory, where the ids are valid and times have a total order, does not panic; its answer
-- is the events of a rearrangement of what the filter lets through: by rising expected time, those
-- without one first, or by falling time where the latest come first.
pub query_events-IsSorted :
    {C : Group} {T : Chrono} (E : Type 0) (s : InMemory C T) (q : EventQuery)
    → ((s t : T.Time) → T.leb s t ≡ false → T.leb t s ≡ true)
    → HasValidIds s.inner
    → (fs : List (AnnouncedEvent C T)) × (es : List (AnnouncedEvent C T)) × (filtered {E = E} q
          s.inner
        ≡ ok fs)
      × Perm fs es
      × IsSorted q.order es
      × (query_events {E = E} s q ≡ ok (map AnnouncedEvent.event es))
unfolding query_events
query_events-IsSorted E s q total valid =
    let (fs, found) = filtered_total {E = E} q s.inner valid in
    let (sorted, perm) = sort-IsSorted total q.order fs in
    (fs, sort q.order fs, found, perm, sorted, rw (found, query_events) refl)
