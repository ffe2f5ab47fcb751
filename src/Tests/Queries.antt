-- ===== src/Tests/Queries.antt =====
-- A query of the database in memory at a concrete input.
use olivia.Base.{ℕ, ltb, not, true, false, ◌≡◌, none, some, List, map, ok, codes, arith}
use olivia.Event.Parse.{from_str_sound}
use olivia.Db.{AnnouncedEvent}
use olivia.Db.InMemory.Query.{EventQuery, latest, query_events}
use olivia.Db.InMemory.Answer.{Selects, IsOrdered, query_events-Selects}
use olivia.Outcome.{OutcomeError}
use olivia.Tests.Toy.{toy_group, toy_clock}
use olivia.Tests.Signing.{one_stored, price_2, read_2}
use mathlib.Core.List.{Perm}

abbrev newest : EventQuery
newest = record {
  path = some (codes "/foo");
  attested = none;
  order = latest;
  ends_with = codes "/";
  kind = none;
}

toy_total : (s t : ℕ) → not (ltb t s) ≡ false → not (ltb s t) ≡ true
toy_total s t h = ground arith

query_events-Selects_example :
    (fs : List (AnnouncedEvent toy_group toy_clock)) × (es : List
      (AnnouncedEvent toy_group toy_clock))
    × Selects newest one_stored.inner ((from_str_sound price_2 price_2 read_2).2, tt) fs
    × Perm fs es
    × IsOrdered latest es
    × (query_events {E = OutcomeError} one_stored newest ≡ ok (map AnnouncedEvent.event es))
query_events-Selects_example =
    query_events-Selects OutcomeError one_stored newest toy_total
      ((from_str_sound price_2 price_2 read_2).2, tt)
