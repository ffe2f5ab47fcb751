-- ===== src/Db/InMemory/Query.antt =====
-- olivia/src/db/in_memory.rs: `query_events`, with the `EventQuery` of olivia/src/db/mod.rs. The values
-- of the map come in the order of the association list.
use olivia.Base.{
  Text, Bool, true, false, ◌&&◌, ◌||◌, if◌then◌else◌, Option, none, some, List, [], ◌∷◌, map,
  Result, ok, ◌>>=◌,
}
use olivia.Base.Slices.{starts_with, ends_with}
use olivia.Path.{is_root}
use olivia.Kind.{EventKind, kind_eq}
use olivia.EventId.{EventId, path, event_kind}
use olivia.Event.{Event}
use olivia.Group.{Group, Chrono}
use olivia.Db.{AnnouncedEvent}
use olivia.Db.InMemory.{InMemory}
use mathlib.Core.List.{head?}

pub data Order : Type 0 where
  earliest latest : Order

pub record EventQuery : Type 0 where
  pub path : Option Text
  pub attested : Option Bool
  pub order : Order
  -- the root stands for anything
  pub ends_with : Text
  pub kind : Option EventKind

unfoldable pub path_matches : EventQuery → Text → Bool
path_matches q p =
    elim q.path [ none ↦ true | some prefix ↦ starts_with p prefix ]
    && (is_root q.ends_with || ends_with p q.ends_with)

unfoldable pub attested_matches : Option Bool → Bool → Bool
attested_matches none b = true
attested_matches (some true) b = b
attested_matches (some false) true = false
attested_matches (some false) false = true

unfoldable pub is_some : {A : Type 0} → Option A → Bool
is_some none = false
is_some (some _) = true

module _ {E : Type 0} where
  -- The kind is read only if one is asked for.
  unfoldable pub kind_matches : Option EventKind → EventId → Result E Bool
  kind_matches none id = ok true
  kind_matches (some k) id = do found ← event_kind id; ok (kind_eq found k)

  module _ {C : Group} {T : Chrono} where
    -- The tests of the filter, each made only if those before it hold.
    unfoldable pub matches : EventQuery → AnnouncedEvent C T → Result E Bool
    unfolding path_matches kind_matches attested_matches is_some
    matches q e = do
      p ← path e.event.id
      if path_matches q p
          then kind_matches q.kind e.event.id
            >>= (λ k. ok (k && attested_matches q.attested (is_some e.attestation)))
          else ok false

    unfoldable pub filtered :
        EventQuery → List (Text × AnnouncedEvent C T) → Result E (List (AnnouncedEvent C T))
    unfolding matches
    filtered q [] = ok []
    filtered q ((id, e) ∷ rest) =
        let others = filtered q rest in
        matches q e >>= λ b. others >>= λ es. ok (if b then e ∷ es else es)

module _ (T : Chrono) where
  -- `Ord` of an optional time: none comes first.
  unfoldable pub time_leb : Option T.Time → Option T.Time → Bool
  time_leb none t = true
  time_leb (some s) none = false
  time_leb (some s) (some t) = T.leb s t

  -- The key may stand in front of the other.
  unfoldable pub before : Order → Option T.Time → Option T.Time → Bool
  unfolding time_leb
  before earliest s t = time_leb s t
  before latest s t = time_leb t s

module _ {C : Group} {T : Chrono} where
  unfoldable pub insert :
      Order → AnnouncedEvent C T → List (AnnouncedEvent C T) → List (AnnouncedEvent C T)
  unfolding before
  insert o e [] = e ∷ []
  insert o e (f ∷ fs) =
      let after = insert o e fs in
      if before T o e.event.expected_outcome_time f.event.expected_outcome_time
      then e ∷ f ∷ fs
      else f ∷ after

  -- `sort_by_key`, which is stable.
  unfoldable pub sort : Order → List (AnnouncedEvent C T) → List (AnnouncedEvent C T)
  unfolding insert
  sort o [] = []
  sort o (e ∷ es) = insert o e (sort o es)

  unfoldable pub query_events :
      {E : Type 0} → InMemory C T → EventQuery → Result E (List (Event T.Time))
  unfolding filtered sort
  query_events s q = do es ← filtered q s.inner; ok (map AnnouncedEvent.event (sort q.order es))

  -- `first()` of the answer.
  unfoldable pub query_event :
      {E : Type 0} → InMemory C T → EventQuery → Result E (Option (Event T.Time))
  unfolding query_events
  query_event s q = do es ← query_events s q; ok (head? es)
