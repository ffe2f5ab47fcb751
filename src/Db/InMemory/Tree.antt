-- ===== src/Db/InMemory/Tree.antt =====
-- olivia/src/db/in_memory.rs: `get_node`, what the database tells of a path: its events, and its
-- children as the kind of the node asks for. The keys come in the order of the association list.
use olivia.Base.{
  Text, codes, text_eq, Bool, true, false, ◌&&◌, if◌then◌else◌, ltb, ◌==◌, Option, none, some, List,
  [], ◌∷◌, Result, ok, ◌>>=◌,
}
use olivia.Base.Slices.{starts_with, strip_prefix}
use olivia.Path
use olivia.Kind.{EventKind}
use olivia.EventId.{path, event_kind}
use olivia.Event.{Event}
use olivia.Node.{NodeKind, RangeKind, Child, ChildDesc, GetPath}
use olivia.Describe.Paths.{infer_node_kind}
use olivia.Group.{Group, Chrono}
use olivia.Db.InMemory.{InMemory, find}
use olivia.Db.InMemory.Query.{EventQuery, earliest, query_event, query_events}
use olivia.Db.Read.{DbReadEvent}
use mathlib.Core.List.{get_last?}

-- `NaiveDate` of chrono, with `from_str` and its order.
pub record Dates : Type 1 where
  pub Date : Type 0
  pub from_str : Text → Option Date
  pub leb : Date → Date → Bool
  pub eq : Date → Date → Bool

-- The order of texts, byte by byte.
text_leb : Text → Text → Bool
text_leb [] t = true
text_leb (a ∷ s) [] = false
text_leb (a ∷ s) (b ∷ t) =
    let later = text_leb s t in if ltb a b then true else if ltb b a then false else later

-- The node kind that was set, or the one that the path suggests.
node_kind_of : List (Text × NodeKind) → Text → NodeKind
unfolding find infer_node_kind
node_kind_of kinds p = elim (find p kinds) [ some k ↦ k | none ↦ infer_node_kind p ]

-- The child of a path on the way to an event's path.
child_of : List (Text × NodeKind) → Text → Text → Option Child
unfolding node_kind_of Path.is_parent_of Path.first Path.child
child_of kinds p event_path =
    if Path.is_parent_of p event_path
    then elim (Path.first (Path.strip_prefix_path event_path p)) [
      | none ↦ none
      | some name ↦ some (record {
        name = name;
        kind = node_kind_of kinds (Path.prefix_path (Path.child Path.root name) p);
      })
    ]
    else none

insert_child : Child → List Child → List Child
unfolding text_leb
insert_child c [] = c ∷ []
insert_child c (d ∷ ds) =
    let after = insert_child c ds in if text_leb c.name d.name then c ∷ d ∷ ds else d ∷ after

range_kind_eq : RangeKind → RangeKind → Bool
range_kind_eq (RangeKind.time m) (RangeKind.time n) = m == n

node_kind_eq : NodeKind → NodeKind → Bool
unfolding range_kind_eq
node_kind_eq NodeKind.list NodeKind.list = true
node_kind_eq NodeKind.date_map NodeKind.date_map = true
node_kind_eq (NodeKind.range r) (NodeKind.range q) = range_kind_eq r q
node_kind_eq _ _ = false

child_eq : Child → Child → Bool
unfolding node_kind_eq
child_eq c d = text_eq c.name d.name && node_kind_eq c.kind d.kind

-- `dedup`: of equal neighbours the first stays.
dedup_behind : Child → List Child → List Child
unfolding child_eq
dedup_behind c [] = []
dedup_behind c (d ∷ ds) =
    let same = dedup_behind c ds in
    let other = dedup_behind d ds in if child_eq d c then same else d ∷ other

dedup : List Child → List Child
unfolding dedup_behind
dedup [] = []
dedup (c ∷ cs) = c ∷ dedup_behind c cs

-- An event that stands at the path itself.
at_path : Text → Text → Bool
at_path p id = elim (strip_prefix id p) [ some rest ↦ starts_with rest (codes ".") | none ↦ false ]

module _ (D : Dates) where
  -- `list.insert` in the set of a date.
  add_name : Text → List Text → List Text
  add_name name [] = name ∷ []
  add_name name (n ∷ ns) =
      let after = add_name name ns in if text_eq n name then n ∷ ns else n ∷ after

  -- `entry(date)` with the two ways to fill it, in the order of the dates.
  add_date : D.Date → Text → List (D.Date × List Text) → List (D.Date × List Text)
  unfolding add_name
  add_date date name [] = (date, name ∷ []) ∷ []
  add_date date name ((d, names) ∷ rest) =
      let after = add_date date name rest in
      if D.eq date d
      then (d, add_name name names) ∷ rest
      else if D.leb date d
      then (date, name ∷ []) ∷ (d, names) ∷ rest
      else (d, names) ∷ after

  -- The first two segments below the path, if the first is a date.
  dated : List Text → List (D.Date × List Text) → List (D.Date × List Text)
  unfolding add_date
  dated (date ∷ next ∷ _) dates = elim (D.from_str date) [
    | some d ↦ add_date d next dates
    | none ↦ dates
  ]
  dated _ dates = dates

module _ {E : Type 0} where
  -- The children, with one for each event below the path.
  children : {V : Type 0} → List (Text × NodeKind) → Text → List (Text × V) → Result E (List Child)
  unfolding child_of
  children kinds p [] = ok []
  children kinds p ((id, _) ∷ rest) =
      let others = children kinds p rest in
      path {E = E} id >>= λ event_path.
      others >>= λ more. ok (elim (child_of kinds p event_path) [ some c ↦ c ∷ more | none ↦ more ])

  -- The kinds of the events at the path itself.
  events_at : {V : Type 0} → Text → List (Text × V) → Result E (List EventKind)
  unfolding at_path
  events_at p [] = ok []
  events_at p ((id, _) ∷ rest) =
      let others = events_at p rest in
      others >>= λ more. if at_path p id then event_kind id >>= (λ k. ok (k ∷ more)) else ok more

  -- The events below the path by their dates.
  dates_below :
      (D : Dates)
      → {V : Type 0} → Text
      → List (Text × V)
      → List (D.Date × List Text)
      → Result E (List (D.Date × List Text))
  unfolding dated
  dates_below D p [] dates = ok dates
  dates_below D p ((id, _) ∷ rest) dates = path {E = E} id >>= λ event_path.
      if starts_with event_path p
      then path (Path.strip_prefix_path id p)
        >>= (λ below. dates_below D p rest (dated D (Path.segments below) dates))
      else dates_below D p rest dates

-- `sort_unstable_by_key` on the name; two children with one name are equal.
sort_children : List Child → List Child
unfolding insert_child
sort_children [] = []
sort_children (c ∷ cs) = insert_child c (sort_children cs)

-- The name below the path of the earliest event that is not attested.
next_name : {E Time : Type 0} → Text → Option (Event Time) → Result E (Option Text)
next_name p none = ok none
next_name p (some e) = do
  event_path ← path e.id
  ok (Path.first (Path.strip_prefix_path event_path p))

-- A range from the first to the last child, and an empty list where there is none.
range_desc : {Date : Type 0} → RangeKind → Option Text → List Child → ChildDesc Date
range_desc kind next [] = ChildDesc.list []
range_desc kind next (c ∷ cs) =
    ChildDesc.range kind (some c.name) next
      (elim (get_last? (c ∷ cs)) [ some last ↦ some last.name | none ↦ none ])

unattested_below : Text → EventQuery
unattested_below p = record {
  path = some p;
  attested = some false;
  order = earliest;
  ends_with = Path.root;
  kind = none;
}

-- Nothing at a path without events and children.
node_or_none :
    {Date : Type 0} → List EventKind → List Child → ChildDesc Date → Option (GetPath Date)
node_or_none [] [] desc = none
node_or_none events cs desc = some (record { events = events; child_desc = desc })

module _ {C : Group} {T : Chrono} {E : Type 0} (D : Dates) where
  describe_children :
      InMemory C T → Text → Option Text → List Child → NodeKind → Result E (ChildDesc D.Date)
  unfolding range_desc dates_below
  describe_children s p next cs NodeKind.list = ok (ChildDesc.list cs)
  describe_children s p next cs (NodeKind.range kind) = ok (range_desc kind next cs)
  describe_children s p next cs NodeKind.date_map = do
    dates ← dates_below D p s.inner []
    ok (ChildDesc.date_map dates)

  unfoldable pub get_node : InMemory C T → Text → Result E (Option (GetPath D.Date))
  unfolding query_event unattested_below next_name children sort_children dedup events_at
      node_kind_of describe_children node_or_none
  get_node s p = do
    found ← query_event s (unattested_below p)
    next ← next_name p found
    below ← children s.node_kinds p s.inner
    let cs : List Child = dedup (sort_children below)
    events ← events_at p s.inner
    desc ← describe_children s p next cs (node_kind_of s.node_kinds p)
    ok (node_or_none events cs desc)

  -- `DbReadEvent` for the database in memory.
  unfoldable pub in_memory_reads : DbReadEvent T D.Date (InMemory C T) E
  unfolding get_node query_event query_events
  in_memory_reads = record {
    get_node = get_node;
    query_event = query_event;
    query_events = query_events;
  }
