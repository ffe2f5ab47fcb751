-- ===== src/Sources/Ticker/Progress.antt =====
-- olivia/src/sources/ticker.rs: a ticker under the oracle loop, with the database in memory read
-- through the view below the ticker's path. No time is skipped.
use olivia.Base.{
  ℕ, zero, suc, ◌<◌, Text, text_eq, text_eq_iff, text_eq_refl, Bool-cases, true, Option, none, some,
  List, [], ◌∷◌, map, Result, ok, ◌≡◌, ◌≢◌, inl, inr, refl, ap, ◌∙◌, arith,
}
use olivia.Event
use olivia.Event.{Event}
use olivia.Group.{Group, Blake2b, Chrono}
use olivia.Announcement.{Json, RawAnnouncement}
use olivia.KeyChain.{KeyChain, create_announcement}
use olivia.Db.{AnnouncedEvent}
use olivia.Db.InMemory.{InMemory, in_memory, empty, find}
use olivia.Db.InMemory.Query.{
  latest, filtered, before, time_leb, sort, insert, query_event, query_events,
}
use olivia.Db.InMemory.Sorted.{insert-in_front}
use olivia.Db.InMemory.Tree.{Dates, in_memory_reads}
use olivia.Db.Read.{prefixed, prefixed_query}
use olivia.Oracle.{EventResult, add_event}
use olivia.Oracle.Lifecycle.{add_event-ok}
use olivia.Sources.{prefix_path}
use olivia.Sources.Ticker.{
  Calendar, TimeEventStream, Round, emit, create_update, latest_query, next_event,
}
use olivia.Sources.Ticker.Matches.{IsTicker, emitted, emitted-matches, emitted-inj}
use olivia.OracleLoop.{event, turn, log_event_result}
use olivia.OracleLoop.Final.{react_state}
use mathlib.Core.Option
use mathlib.Core.List.{head?}

module _ {C : Group} {B : Blake2b} {T : Chrono} {cal : Calendar T} (ticker : TimeEventStream T cal)
    (parent : Text) (D : Dates) (json : Json C T) (kc : KeyChain C B) where
  -- What the ticker's query is answered.
  pub answer : InMemory C T → Result Text (Option (Event T.Time))
  unfolding prefixed in_memory_reads latest_query
  answer s = (prefixed (in_memory_reads D) parent).query_event s (latest_query ticker)

  -- A turn of the loop on what the ticker emits.
  take : InMemory C T → Result Text (Round T.Time (Event T.Time)) → InMemory C T
  unfolding turn
  take s (ok (emit _ e)) =
      (turn in_memory json kc {E = Text} s
        (event parent (record { update = e; processed_notifier = some 0 }))).0
  take s _ = s

  -- Rounds of the ticker, from the empty database on.
  pub rounds : ℕ → InMemory C T
  unfolding answer take next_event
  rounds zero = empty
  rounds (suc k) = let s = rounds k in take s (next_event ticker (answer s))

-- The time of a round: the initial one and an interval for each round before.
unfoldable pub tick : {T : Chrono} {cal : Calendar T} → TimeEventStream T cal → ℕ → T.Time
tick ticker zero = ticker.initial_time
tick {cal = cal} ticker (suc k) = cal.add (tick ticker k) ticker.interval

module _ {C : Group} {B : Blake2b} {T : Chrono} {cal : Calendar T} (ticker : TimeEventStream T cal)
    (parent : Text) (D : Dates) (json : Json C T) (kc : KeyChain C B) (h : IsTicker ticker)
    (announced : (t : T.Time)
      → (a : RawAnnouncement C) × (create_announcement kc json {E = EventResult Text}
            (emitted ticker h parent t)
          ≡ ok a))
    (later : (t : T.Time) → T.leb t (cal.add t ticker.interval) ≡ true)
    (differ : (i j : ℕ) → i < j → cal.show (tick ticker i) ≢ cal.show (tick ticker j)) where
  abbrev stored : ℕ → AnnouncedEvent C T
  stored k = record {
    event = emitted ticker h parent (tick ticker k);
    announcement = (announced (tick ticker k)).0;
    attestation = none;
  }

  -- What is in the database before a round.
  abbrev history : ℕ → List (Text × AnnouncedEvent C T)
  history zero = []
  history (suc k) = ((stored k).event.id, stored k) ∷ history k

  abbrev events : ℕ → List (AnnouncedEvent C T)
  events zero = []
  events (suc k) = stored k ∷ events k

  filtered-history :
      (k : ℕ)
      → filtered {E = Text} (prefixed_query parent (latest_query ticker)) (history k)
        ≡ ok (events k)
  unfolding filtered
  filtered-history zero = refl
  filtered-history (suc k) =
      rw (emitted-matches ticker h parent (tick ticker k) {E = Text} (stored k) refl, filtered)
        (rw (filtered-history k, filtered) refl)

  sorted_events : (k : ℕ) → sort latest (events k) ≡ events k
  unfolding sort before time_leb tick create_update Event.prefix_path
  sorted_events zero = refl
  sorted_events (suc zero) = unfold insert in refl
  sorted_events (suc (suc k)) =
      ap (insert latest (stored (suc k))) (sorted_events (suc k))
      ∙ insert-in_front latest (stored (suc k)) (stored k) (events k) (later (tick ticker k))

  fresh : (j k : ℕ) → j < suc k → find (stored k).event.id (history j) ≡ none
  unfolding find
  fresh zero k lt = refl
  fresh (suc j) k lt = elim (Bool-cases (text_eq (stored j).event.id (stored k).event.id)) [
    | inl e ↦
        let same = (text_eq_iff (stored j).event.id (stored k).event.id).0 e in
        absurd (
          differ j k (omega arith)
            (emitted-inj ticker h parent (tick ticker j) (tick ticker k) same))
    | inr e ↦ rw (e, find) (fresh j k (omega arith))
  ]

  answer_lem :
      (k : ℕ) (s : InMemory C T)
      → s.inner ≡ history k
      → answer ticker parent D json kc s
        ≡ ok (
            Option.map
              (λ e. Event.strip_prefix_path e parent)
              (head? (map AnnouncedEvent.event (events k))))
  unfolding answer prefixed in_memory_reads query_event query_events
  answer_lem k s e =
      rw (e, query_events)
        (rw (filtered-history k, query_events) (rw (sorted_events k, query_events) refl))

  -- The wait before a round's event: none at first, then until a look ahead before it.
  pub wait : ℕ → Option T.Time
  wait zero = none
  wait (suc k) = some (cal.sub (tick ticker (suc k)) ticker.look_ahead)

  next_lem :
      (k : ℕ) (s : InMemory C T)
      → s.inner ≡ history k
      → next_event ticker {E = Text} (answer ticker parent D json kc s)
        ≡ ok (emit (wait k) (create_update ticker (tick ticker k)))
  unfolding next_event wait tick create_update Event.prefix_path Event.strip_prefix_path
  next_lem zero s e = rw (answer_lem zero s e, next_event) refl
  next_lem (suc k) s e = rw (answer_lem (suc k) s e, next_event) refl

  take_lem :
      (k : ℕ) (s : InMemory C T)
      → s.inner ≡ history k
      → (take ticker parent D json kc s
          (ok (emit (wait k) (create_update ticker (tick ticker k))))).inner
        ≡ history (suc k)
  unfolding take turn prefix_path
  take_lem k s e =
      let ev = emitted ticker h parent (tick ticker k) in
      let missing = ap (find ev.id) e ∙ fresh k k (omega arith) in
      let added =
        add_event-ok kc json s ev (announced (tick ticker k)).0 missing
          (announced (tick ticker k)).1 in
      ap InMemory.inner (
        react_state Text (some 0) log_event_result (add_event in_memory json kc s ev)
        ∙ ap (λ (r : InMemory C T × Result (EventResult Text) (Unit {0})). r.0) added)
      ∙ ap (λ m. (ev.id, stored k) ∷ m) e

  rounds-history : (k : ℕ) → (rounds ticker parent D json kc k).inner ≡ history k
  unfolding rounds empty
  rounds-history zero = refl
  rounds-history (suc k) =
      ap (λ r. (take ticker parent D json kc (rounds ticker parent D json kc k) r).inner)
        (next_lem k (rounds ticker parent D json kc k) (rounds-history k))
      ∙ take_lem k (rounds ticker parent D json kc k) (rounds-history k)

  -- A ticker as in `IsTicker`, under any path, on an empty database in memory: if each of its events can be
  -- announced, a time is not later than the one an interval behind it, and the times of two rounds are
  -- printed differently, then each round emits the event of its time, the initial time and an interval
  -- for each round before, after a wait until a look ahead before it (the first without), and the loop
  -- stores that event below the path.
  pub rounds-emit :
      (k : ℕ)
      → (next_event ticker {E = Text}
            (answer ticker parent D json kc (rounds ticker parent D json kc k))
          ≡ ok (emit (wait k) (create_update ticker (tick ticker k))))
        × ((a : AnnouncedEvent C T) × (find
                (emitted ticker h parent (tick ticker k)).id
                (rounds ticker parent D json kc (suc k)).inner
              ≡ some a)
            × (a.event ≡ emitted ticker h parent (tick ticker k)))
  unfolding find
  rounds-emit k = (
    next_lem k (rounds ticker parent D json kc k) (rounds-history k),
    (
      stored k,
      ap (find (stored k).event.id) (rounds-history (suc k))
          ∙ rw (text_eq_refl (stored k).event.id, find) refl,
      refl,
    ),
  )
