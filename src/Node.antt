-- ===== src/Node.antt =====
-- olivia_core/src/node.rs: the nodes of the tree of events, and how their children are described.
use olivia.Base.{ℕ, Text, List, Option}
use olivia.Path
use olivia.Kind.{EventKind}

pub data RangeKind : Type 0 where
  time : ℕ → RangeKind

pub data NodeKind : Type 0 where
  list date_map : NodeKind
  range : RangeKind → NodeKind

pub record Child : Type 0 where
  pub name : Text
  pub kind : NodeKind

-- `Date` stands for chrono's `NaiveDate`; the map and its sets are lists.
pub data ChildDesc (Date : Type 0) : Type 0 where
  list : List Child → ChildDesc Date
  range : RangeKind → Option Text → Option Text → Option Text → ChildDesc Date
  date_map : List (Date × List Text) → ChildDesc Date

pub record GetPath (Date : Type 0) : Type 0 where
  pub events : List EventKind
  pub child_desc : ChildDesc Date

pub record Node : Type 0 where
  pub path : Text
  pub kind : NodeKind

-- The two `PrefixPath` methods.
unfoldable pub prefix_path : Node → Text → Node
prefix_path node p = record node { path = Path.prefix_path node.path p }

unfoldable pub strip_prefix_path : Node → Text → Node
strip_prefix_path node p = record node { path = Path.strip_prefix_path node.path p }
