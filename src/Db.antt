-- ===== src/Db.antt =====
-- olivia/src/db/mod.rs: the part of a database that the oracle uses (`DbReadOracle`, `DbWrite`), as
-- an interface over the states of the database.
pub mod Laws
pub mod InMemory
pub mod Read
use olivia.Base.{Text, Option, Result}
use olivia.EventId.{EventId}
use olivia.Event.{Event}
use olivia.Group.{Group, Chrono}
use olivia.Announcement.{RawAnnouncement, OracleKeys}
use olivia.Node.{Node}
use olivia.Attestation.{Attestation}

-- olivia_core's `AnnouncedEvent`.
pub record AnnouncedEvent (C : Group) (T : Chrono) : Type 0 where
  pub event : Event T.Time
  pub announcement : RawAnnouncement C
  pub attestation : Option (Attestation C T)

-- `S` is the type of the states, `F` of the failures. A write gives the state that it leaves.
pub record Db (C : Group) (T : Chrono) (S F : Type 0) : Type 0 where
  pub get_announced_event : S → EventId → Result F (Option (AnnouncedEvent C T))
  pub get_public_keys : S → Result F (Option (OracleKeys C))
  pub insert_event : S → AnnouncedEvent C T → S × Result F (Unit {0})
  pub complete_event : S → EventId → Attestation C T → S × Result F (Unit {0})
  pub set_public_keys : S → OracleKeys C → S × Result F (Unit {0})
  pub set_node : S → Node → S × Result F (Unit {0})
