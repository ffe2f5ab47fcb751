-- ===== src/Sources.antt =====
-- olivia/src/sources/mod.rs: what a source sends to the oracle loop.
pub mod Ticker
pub mod Streams
use olivia.Base.{ℕ, Text, Bool, Option, none, some}
use olivia.EventId.{EventId}
use olivia.Event.{Event}
use olivia.Outcome.{Outcome}
use olivia.Oracle.{StampedOutcome}
use olivia.Event
use olivia.Path
use olivia.Group.{Chrono}

-- The sending end of a channel, by a number of the channel.
abbrev pub Sender : Type 0
Sender = ℕ

pub record Update (A : Type 0) : Type 0 where
  pub update : A
  pub processed_notifier : Option Sender

module _ {A : Type 0} where
  -- `From` and `Update::new`.
  unfoldable pub from : A → Update A
  from e = record { update = e; processed_notifier = none }

  -- `PrefixPath`, with that of what is sent.
  unfoldable pub prefix_path : (A → Text → A) → Update A → Text → Update A
  prefix_path prefix u p = record u { update = prefix u.update p }

-- `Event::from(EventId)`: an event without an expected time.
unfoldable pub from_id : {Time : Type 0} → EventId → Update (Event Time)
unfolding from
from_id id = from (record { id = id; expected_outcome_time = none })

-- `PrefixPath` for an outcome and for a stamped one.
unfoldable pub prefix_outcome : Outcome → Text → Outcome
prefix_outcome o p = record o { id = Path.prefix_path o.id p }

unfoldable pub prefix_stamped : {T : Chrono} → StampedOutcome T → Text → StampedOutcome T
unfolding prefix_outcome
prefix_stamped stamped p = record stamped { outcome = prefix_outcome stamped.outcome p }
