-- ===== src/Db/InMemory.antt =====
-- olivia/src/db/in_memory.rs: the database in memory, as far as the oracle writes it. The maps behind
-- the locks are association lists.
pub mod Laws
pub mod Query
pub mod Tree
pub mod Sorted
pub mod Answer
use olivia.Base.{
  Text, codes, text_eq, if◌then◌else◌, Option, none, some, List, [], ◌∷◌, ◌++◌, Result, ok, err,
}
use olivia.EventId.{EventId}
use olivia.Group.{Group, Chrono}
use olivia.Announcement.{OracleKeys}
use olivia.Node.{Node, NodeKind}
use olivia.Attestation.{Attestation}
use olivia.Db.{AnnouncedEvent, Db}

-- `HashMap::get`.
unfoldable pub find : {V : Type 0} → Text → List (Text × V) → Option V
find key [] = none
find key ((k, v) ∷ rest) = if text_eq k key then some v else find key rest

-- The value at a key, replaced: what is written through `HashMap::get_mut`.
unfoldable pub replace : {V : Type 0} → Text → V → List (Text × V) → List (Text × V)
replace key v [] = []
replace key v ((k, w) ∷ rest) =
    let after = replace key v rest in if text_eq k key then (k, v) ∷ rest else (k, w) ∷ after

pub record InMemory (C : Group) (T : Chrono) : Type 0 where
  pub public_keys : Option (OracleKeys C)
  pub inner : List (Text × AnnouncedEvent C T)
  pub node_kinds : List (Text × NodeKind)

-- `HashMap::insert`.
put : {V : Type 0} → Text → V → List (Text × V) → List (Text × V)
unfolding find
put key v m = elim (find key m) [ some _ ↦ replace key v m | none ↦ (key, v) ∷ m ]

module _ {C : Group} {T : Chrono} where
  -- `Default`.
  unfoldable pub empty : InMemory C T
  empty = record { public_keys = none; inner = []; node_kinds = [] }

  unfoldable pub insert_event :
      InMemory C T → AnnouncedEvent C T → InMemory C T × Result Text (Unit {0})
  unfolding find
  insert_event s e = elim (find e.event.id s.inner) [
    | some _ ↦ (s, err (e.event.id ++ codes " already exists"))
    | none ↦ (record s { inner = (e.event.id, e) ∷ s.inner }, ok tt)
  ]

  -- The slot of an event that was found.
  unfoldable pub fill :
      InMemory C T
      → EventId
      → Attestation C T
      → AnnouncedEvent C T
      → Option (Attestation C T)
      → InMemory C T × Result Text (Unit {0})
  unfolding replace
  fill s id a e (some _) = (s, err (codes "This event has already been attested to"))
  fill s id a e none =
      (record s { inner = replace id (record e { attestation = some a }) s.inner }, ok tt)

  unfoldable pub complete_event :
      InMemory C T → EventId → Attestation C T → InMemory C T × Result Text (Unit {0})
  unfolding find fill
  complete_event s id a = elim (find id s.inner) [
    | some e ↦ fill s id a e e.attestation
    | none ↦ (s, err (codes "Cannot complete event that does not exist"))
  ]

  unfoldable pub set_public_keys :
      InMemory C T → OracleKeys C → InMemory C T × Result Text (Unit {0})
  set_public_keys s keys = (record s { public_keys = some keys }, ok tt)

  unfoldable pub set_node : InMemory C T → Node → InMemory C T × Result Text (Unit {0})
  unfolding put
  set_node s node = (record s { node_kinds = put node.path node.kind s.node_kinds }, ok tt)

  unfoldable pub in_memory : Db C T (InMemory C T) Text
  unfolding find insert_event complete_event set_public_keys set_node
  in_memory = record {
    get_announced_event = λ s id. ok (find id s.inner);
    get_public_keys = λ s. ok s.public_keys;
    insert_event = insert_event;
    complete_event = complete_event;
    set_public_keys = set_public_keys;
    set_node = set_node;
  }
