-- ===== src/Db/Read.antt =====
-- olivia/src/db/mod.rs: how the sources and the API read events (`DbReadEvent`), as an interface; and
-- olivia/src/db/prefixed.rs, a view of the events below a path.
use olivia.Base.{Text, Option, none, some, List, map, Result, ok, panic, ◌>>=◌}
use olivia.Path
use olivia.Node.{GetPath}
use olivia.Event
use olivia.Event.{Event}
use olivia.Group.{Chrono}
use olivia.Db.InMemory.Query.{EventQuery}
use mathlib.Core.Option

pub record DbReadEvent (T : Chrono) (Date S F : Type 0) : Type 0 where
  pub get_node : S → Text → Result F (Option (GetPath Date))
  pub query_event : S → EventQuery → Result F (Option (Event T.Time))
  pub query_events : S → EventQuery → Result F (List (Event T.Time))

-- `query.path.unwrap_or(PathRef::root())`.
path_or_root : EventQuery → Text
path_or_root q = elim q.path [ none ↦ Path.root | some p ↦ p ]

-- The query with its path below the prefix.
unfoldable pub prefixed_query : Text → EventQuery → EventQuery
unfolding path_or_root
prefixed_query prefix q = record q { path = some (Path.prefix_path (path_or_root q) prefix) }

-- `PrefixedDb`; `get_node` is `unimplemented!`.
unfoldable pub prefixed :
    {T : Chrono} {Date S F : Type 0} → DbReadEvent T Date S F → Text → DbReadEvent T Date S F
unfolding prefixed_query
prefixed db prefix = record {
  get_node = λ s p. panic;
  query_event = λ s q. db.query_event s (prefixed_query prefix q) >>= λ found.
      ok (Option.map (λ e. Event.strip_prefix_path e prefix) found);
  query_events = λ s q. db.query_events s (prefixed_query prefix q) >>= λ found.
      ok (map (λ e. Event.strip_prefix_path e prefix) found);
}
