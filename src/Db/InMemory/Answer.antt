-- ===== src/Db/InMemory/Answer.antt =====
-- The answer of `query_events` against what a query asks for, said without the code's tests.
use olivia.Base.{
  Text, text_eq, text_eq_iff, text_eq_refl, Bool, Bool-cases, true, false, ◌&&◌, ◌||◌, Option, none,
  some, List, [], ◌∷◌, ◌++◌, map, ok, ◌==◌, ==_iff, ◌≡◌, ◌↔◌, ◌⊎◌, refl, sym, ap, subst, ◌∙◌, inl,
  inr, Result,
}
use olivia.Base.Slices.{starts_with, ends_with, starts_with-append}
use olivia.Path.{root, is_root}
use olivia.Kind.{EventKind, kind_eq}
use olivia.Kind.Equal.{kind_eq_refl, kind_eq_sound}
use olivia.EventId.{EventId}
use olivia.EventId.Valid.{IsEventId, path_lem, event_kind_lem}
use olivia.Group.{Group, Chrono}
use olivia.Db.{AnnouncedEvent}
use olivia.Db.InMemory.{InMemory}
use olivia.Db.InMemory.Query.{
  Order, earliest, latest, EventQuery, matches, filtered, time_leb, before, query_events,
  kind_matches, path_matches, attested_matches, is_some,
}
use olivia.Db.InMemory.Sorted.{HasValidIds, IsSorted, query_events-IsSorted}
use mathlib.Core.List.{Perm}

-- What a query asks of the path of an event, of its kind and of its attestation.
abbrev pub IsBelow : Option Text → Text → Type 0
IsBelow none name = Unit
IsBelow (some prefix) name = (rest : Text) × (name ≡ prefix ++ rest)

abbrev pub EndsIn : Text → Text → Type 0
EndsIn suffix name = (suffix ≡ root) ⊎ ((front : Text) × (name ≡ front ++ suffix))

abbrev pub IsOfKind : Option EventKind → EventKind → Type 0
IsOfKind none k = Unit
IsOfKind (some asked) k = k ≡ asked

abbrev pub IsAttested : {A : Type 0} → Option Bool → Option A → Type 0
IsAttested none o = Unit
IsAttested {A} (some true) o = (a : A) × (o ≡ some a)
IsAttested (some false) o = o ≡ none

abbrev pub Wanted :
    {C : Group} {T : Chrono} → EventQuery → (e : AnnouncedEvent C T) → IsEventId e.event.id → Type 0
Wanted q e h =
    IsBelow q.path h.name
    × EndsIn q.ends_with h.name
    × IsOfKind q.kind h.kind
    × IsAttested q.attested e.attestation

-- The wanted events among those of the database, each as often as it is there.
abbrev pub Selects :
    {C : Group} {T : Chrono}
    → EventQuery
    → (m : List (Text × AnnouncedEvent C T)) → HasValidIds m
    → List (AnnouncedEvent C T)
    → Type 0
Selects q [] h es = es ≡ []
Selects {C} {T} q ((id, e) ∷ m) (valid, h) es =
    Wanted q e valid × ((rest : List (AnnouncedEvent C T)) × (es ≡ e ∷ rest) × Selects q m h rest)
    ⊎ (¬ Wanted q e valid) × Selects q m h es

-- Which expected time may come first: by rising time those without one come first, by falling time
-- last.
abbrev pub Precedes : (T : Chrono) → Order → Option T.Time → Option T.Time → Type 0
Precedes T earliest none t = Unit
Precedes T earliest (some s) none = ⊥
Precedes T earliest (some s) (some t) = T.leb s t ≡ true
Precedes T latest s none = Unit
Precedes T latest none (some t) = ⊥
Precedes T latest (some s) (some t) = T.leb t s ≡ true

module _ {C : Group} {T : Chrono} where
  abbrev pub IsOrdered : Order → List (AnnouncedEvent C T) → Type 0
  IsOrdered o [] = Unit
  IsOrdered o (e ∷ []) = Unit
  IsOrdered o (e ∷ f ∷ fs) =
      Precedes T o e.event.expected_outcome_time f.event.expected_outcome_time
      × IsOrdered o (f ∷ fs)

before-Precedes :
    (T : Chrono) (o : Order) (s t : Option T.Time) → before T o s t ≡ true → Precedes T o s t
unfolding before time_leb
before-Precedes T earliest none t h = tt
before-Precedes T earliest (some s) none h = absurd (cc)
before-Precedes T earliest (some s) (some t) h = h
before-Precedes T latest none none h = tt
before-Precedes T latest (some s) none h = tt
before-Precedes T latest none (some t) h = absurd (cc)
before-Precedes T latest (some s) (some t) h = h

IsSorted-IsOrdered :
    {C : Group} {T : Chrono} (o : Order) (es : List (AnnouncedEvent C T))
    → IsSorted o es
    → IsOrdered o es
IsSorted-IsOrdered o [] h = tt
IsSorted-IsOrdered o (e ∷ []) h = tt
IsSorted-IsOrdered {C} {T} o (e ∷ f ∷ fs) (first, h) =
    (before-Precedes T o _ _ first, IsSorted-IsOrdered o (f ∷ fs) h)

starts_with_sound : (name p : Text) → starts_with name p ≡ true → IsBelow (some p) name
unfolding starts_with
starts_with_sound name [] h = (name, refl)
starts_with_sound [] (c ∷ p) h = absurd (cc)
starts_with_sound (x ∷ name) (c ∷ p) h = elim (Bool-cases (x == c)) [
  | inr f ↦ absurd (cc (rw f at h))
  | inl e ↦
      let (rest, same) = starts_with_sound name p (rw e at h) in
      let first : x ≡ c = (==_iff x c).0 e in (rest, cc)
]

ends_with_sound : (name p : Text) → ends_with name p ≡ true → (front : Text) × (name ≡ front ++ p)
unfolding ends_with
ends_with_sound [] p h = ([], (text_eq_iff [] p).0 h)
ends_with_sound (x ∷ name) p h = elim (Bool-cases (text_eq (x ∷ name) p)) [
  | inl e ↦ ([], (text_eq_iff (x ∷ name) p).0 e)
  | inr f ↦
      let (front, same) = ends_with_sound name p (rw f at h) in (x ∷ front, ap (λ t. x ∷ t) same)
]

ends_with_self : (p : Text) → ends_with p p ≡ true
unfolding ends_with
ends_with_self [] = text_eq_refl []
ends_with_self (x ∷ p) = rw (text_eq_refl (x ∷ p)) refl

ends_with-append : (front p : Text) → ends_with (front ++ p) p ≡ true
unfolding ends_with
ends_with-append [] p = ends_with_self p
ends_with-append (x ∷ front) p = elim (Bool-cases (text_eq (x ∷ (front ++ p)) p)) [
  | inl e ↦ rw e refl
  | inr f ↦ rw f (ends_with-append front p)
]

or_true : (b : Bool) → (b || true) ≡ true
or_true true = refl
or_true false = refl

starts_with-IsBelow : (name p : Text) → (starts_with name p ≡ true) ↔ IsBelow (some p) name
starts_with-IsBelow name p = (
  starts_with_sound name p,
  λ (rest, same). ap (λ t. starts_with t p) same ∙ starts_with-append p rest,
)

ends_with-EndsIn : (name p : Text) → ((is_root p || ends_with name p) ≡ true) ↔ EndsIn p name
unfolding is_root
ends_with-EndsIn name p = (
  (λ h. elim (Bool-cases (text_eq p root)) [
    | inl e ↦ inl ((text_eq_iff p root).0 e)
    | inr e ↦ inr (ends_with_sound name p (rw e at h))
  ]),
  λ h. elim h [
    | inl e ↦ rw ((text_eq_iff p root).1 e) refl
    | inr (front, same) ↦
        ap (λ t. text_eq p root || ends_with t p) same
        ∙ ap (λ b. text_eq p root || b) (ends_with-append front p)
        ∙ or_true (text_eq p root)
  ],
)

and_iff : (a b : Bool) → ((a && b) ≡ true) ↔ ((a ≡ true) × (b ≡ true))
and_iff true b = ((λ h. (refl, h)), λ (_, h). h)
and_iff false b = ((λ h. absurd (cc)), λ (h, _). h)

IsBelow-iff :
    (o : Option Text) (name : Text)
    → (elim o [ none ↦ true | some prefix ↦ starts_with name prefix ] ≡ true) ↔ IsBelow o name
IsBelow-iff none name = ((λ h. tt), λ h. refl)
IsBelow-iff (some prefix) name = starts_with-IsBelow name prefix

IsAttested-iff :
    {A : Type 0} (o : Option Bool) (a : Option A)
    → (attested_matches o (is_some a) ≡ true) ↔ IsAttested o a
unfolding attested_matches is_some
IsAttested-iff none a = ((λ h. tt), λ h. refl)
IsAttested-iff (some true) none = ((λ h. absurd (cc)), λ (x, h). absurd (cc))
IsAttested-iff (some true) (some a) = ((λ h. (a, refl)), λ h. refl)
IsAttested-iff (some false) none = ((λ h. refl), λ h. refl)
IsAttested-iff (some false) (some a) = ((λ h. absurd (cc)), λ h. absurd (cc))

path_matches_iff :
    (q : EventQuery) (name : Text)
    → (path_matches q name ≡ true) ↔ (IsBelow q.path name × EndsIn q.ends_with name)
unfolding path_matches
path_matches_iff q name =
    let parts = and_iff _ (is_root q.ends_with || ends_with name q.ends_with) in
    (
      (λ h.
          let (below, behind) = parts.0 h in
          ((IsBelow-iff q.path name).0 below, (ends_with-EndsIn name q.ends_with).0 behind)),
      λ (below, behind).
          parts.1 ((IsBelow-iff q.path name).1 below, (ends_with-EndsIn name q.ends_with).1 behind),
    )

kind_matches_iff :
    {E : Type 0} (o : Option EventKind) (id : EventId) (h : IsEventId id)
    → (b : Bool) × (kind_matches {E = E} o id ≡ ok b) × ((b ≡ true) ↔ IsOfKind o h.kind)
unfolding kind_matches
kind_matches_iff none id h = (true, refl, ((λ e. tt), λ e. refl))
kind_matches_iff (some k) id h = (
  kind_eq h.kind k,
  rw (event_kind_lem h, kind_matches) refl,
  (kind_eq_sound h.kind k, λ e. ap (kind_eq h.kind) (sym e) ∙ kind_eq_refl h.kind),
)

module _ {C : Group} {T : Chrono} {E : Type 0} (q : EventQuery) where
  matches-Wanted :
      (e : AnnouncedEvent C T) (h : IsEventId e.event.id)
      → (b : Bool) × (matches {E = E} q e ≡ ok b) × ((b ≡ true) ↔ Wanted q e h)
  unfolding matches
  matches-Wanted e h =
      let (b, kind, kind_iff) = kind_matches_iff {E = E} q.kind e.event.id h in
      let done = attested_matches q.attested (is_some e.attestation) in
      let done_iff = IsAttested-iff q.attested e.attestation in
      let place_iff = path_matches_iff q h.name in
      elim (Bool-cases (path_matches q h.name)) [
        | inr n ↦ (
          false,
          rw (path_lem h, matches) (rw n refl),
          ((λ f. absurd (cc)), λ (x, y, _, _). sym n ∙ place_iff.1 (x, y)),
        )
        | inl y ↦ (
          b && done,
          rw (path_lem h, matches) (rw y (rw (kind, matches) refl)),
          (
            (λ f.
                let (of_kind, attested) = (and_iff b done).0 f in
                let (below, behind) = place_iff.0 y in
                (below, behind, kind_iff.0 of_kind, done_iff.0 attested)),
            λ (_, _, of_kind, attested).
                (and_iff b done).1 (kind_iff.1 of_kind, done_iff.1 attested),
          ),
        )
      ]

  filtered-Selects :
      (m : List (Text × AnnouncedEvent C T)) (h : HasValidIds m)
      → (es : List (AnnouncedEvent C T)) × (filtered {E = E} q m ≡ ok es) × Selects q m h es
  unfolding filtered
  filtered-Selects [] h = ([], refl, refl)
  filtered-Selects ((id, e) ∷ m) (valid, h) =
      let (b, found, wanted) = matches-Wanted e valid in
      let (es, rest, selects) = filtered-Selects m h in
      elim (Bool-cases b) [
        | inl y ↦ (
          e ∷ es,
          rw (found, filtered) (rw (rest, filtered) (rw y refl)),
          inl (wanted.0 y, (es, refl, selects)),
        )
        | inr n ↦ (
          es,
          rw (found, filtered) (rw (rest, filtered) (rw n refl)),
          inr ((λ w. absurd (cc (sym n ∙ wanted.1 w))), selects),
        )
      ]

same_list : {A E : Type 0} (x y : List A) → ◌≡◌ {A = Result E (List A)} (ok x) (ok y) → x ≡ y
same_list x y h = cc

-- A query in memory, where the ids are valid and times have a total order, does not panic. Its answer
-- holds exactly the events that are wanted, each as often as the database has it: their path continues
-- the query's path and ends in its suffix, if it is not the root, their kind is the one asked for, if
-- there is one, and they are attested or not as asked. They come by rising expected time, those without
-- one first, or by falling time, those without one last, where the latest are asked for.
pub query_events-Selects :
    {C : Group} {T : Chrono} (E : Type 0) (s : InMemory C T) (q : EventQuery)
    → ((s t : T.Time) → T.leb s t ≡ false → T.leb t s ≡ true)
    → (valid : HasValidIds s.inner)
    → (fs : List (AnnouncedEvent C T)) × (es : List (AnnouncedEvent C T)) × Selects q s.inner valid
        fs
      × Perm fs es
      × IsOrdered q.order es
      × (query_events {E = E} s q ≡ ok (map AnnouncedEvent.event es))
query_events-Selects E s q total valid =
    let (fs, found, selects) = filtered-Selects {E = E} q s.inner valid in
    let (gs, es, found', perm, sorted, answer) = query_events-IsSorted E s q total valid in
    let same : gs ≡ fs = same_list {E = E} gs fs (sym found' ∙ found) in
    (
      fs,
      es,
      selects,
      subst (λ x. Perm x es) same perm,
      IsSorted-IsOrdered q.order es sorted,
      answer,
    )
