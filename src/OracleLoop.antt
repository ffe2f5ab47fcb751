-- ===== src/OracleLoop.antt =====
-- olivia/src/oracle_loop.rs: the loop that hands what the sources send to the oracle and the database,
-- with the log of olivia/src/log.rs. What the streams yield comes as a list, in the order in which
-- `select!` takes it; a message goes back to the sender where there is one.
pub mod Final
pub mod Notice
use olivia.Base.{
  Text, codes, Bool, true, false, Option, none, some, List, [], ◌∷◌, Result, ok, err, panic, ◌>>=◌,
}
use olivia.Outcome.{outcome_string}
use olivia.Event
use olivia.Event.{Event}
use olivia.Node
use olivia.Node.{Node}
use olivia.Group.{Group, Blake2b, Chrono}
use olivia.Announcement.{Json}
use olivia.KeyChain.{KeyChain}
use olivia.Db.{Db}
use olivia.Oracle.{EventResult, OutcomeResult, StampedOutcome, add_event, complete_event}
use olivia.Sources.{Update, Sender, prefix_path, prefix_stamped}
use mathlib.Core.Option

pub data Level : Type 0 where
  debug info error crit : Level

-- A line of the log.
abbrev pub Line : Type 0
Line = Level × Text

pub log_event_result : {F : Type 0} → Option (EventResult F) → Line
log_event_result none = (info, codes "created")
log_event_result (some EventResult.changed) = (info, codes "changed")
log_event_result (some EventResult.already_exists) = (debug, codes "ignored - already exists")
log_event_result (some EventResult.already_completed) = (debug, codes "ignored - already completed")
log_event_result (some (EventResult.db_read_err e)) = (crit, codes "database read")
log_event_result (some (EventResult.db_write_err e)) = (crit, codes "database write")

pub log_outcome_result : {F : Type 0} → Option (OutcomeResult F) → Line
log_outcome_result none = (info, codes "completed")
log_outcome_result (some OutcomeResult.already_completed) = (debug, codes "already completed")
log_outcome_result (some (OutcomeResult.outcome_changed existing new)) =
    (crit, codes "outcome changed")
log_outcome_result (some OutcomeResult.event_not_exist) = (debug, codes "event doesn't exist")
log_outcome_result (some (OutcomeResult.db_read_err e)) = (crit, codes "database read")
log_outcome_result (some (OutcomeResult.db_write_err e)) = (crit, codes "database write")
log_outcome_result (some OutcomeResult.announcement_was_bogus) = (crit, codes "bogus announcement")

pub log_node_result : {F : Type 0} → Option F → Line
log_node_result none = (info, codes "added")
log_node_result (some e) = (error, codes "failed to add")

-- What a stream yields, with the path that the stream is configured under.
pub data Incoming (T : Chrono) : Type 0 where
  event : Text → Update (Event T.Time) → Incoming T
  outcome : Text → Update (StampedOutcome T) → Incoming T
  node : Text → Update Node → Incoming T

-- What the loop does besides its call: the notice to the sender, whether the call failed, and a line
-- of the log.
pub record Reaction : Type 0 where
  pub notified : Option (Sender × Bool)
  pub line : Line

is_some : {A : Type 0} → Option A → Bool
is_some none = false
is_some (some _) = true

module _ {S E : Type 0} where
  -- What follows a call: `send(res.is_err())`, and the log.
  unfoldable pub react :
      {F : Type 0}
      → Option Sender
      → (Option F → Line)
      → S × Result F (Unit {0})
      → S × Result E Reaction
  unfolding is_some
  react sender log (s, ok _) =
      (s, ok (record { notified = Option.map (λ c. (c, false)) sender; line = log none }))
  react sender log (s, err e) =
      (s, ok (record { notified = Option.map (λ c. (c, true)) sender; line = log (some e) }))
  react sender log (s, panic) = (s, panic)

module _ {C : Group} {B : Blake2b} {T : Chrono} {S F : Type 0} (db : Db C T S F) (json : Json C T)
    (kc : KeyChain C B) {E : Type 0} where
  -- The outcome's text is made for the log before the oracle is called.
  take_outcome : S → Option Sender → StampedOutcome T → Result E Text → S × Result E Reaction
  unfolding react log_outcome_result complete_event
  take_outcome s sender stamped (ok text) =
      react sender log_outcome_result (complete_event db json kc s stamped)
  take_outcome s sender stamped (err e) = (s, err e)
  take_outcome s sender stamped panic = (s, panic)

  -- One turn of the loop.
  unfoldable pub turn : S → Incoming T → S × Result E Reaction
  unfolding take_outcome react log_event_result log_node_result add_event prefix_path prefix_stamped
  turn s (event parent u) =
      let u' : Update (Event T.Time) = prefix_path Event.prefix_path u parent in
      react u'.processed_notifier log_event_result (add_event db json kc s u'.update)
  turn s (outcome parent u) =
      let u' : Update (StampedOutcome T) = prefix_path prefix_stamped u parent in
      take_outcome s u'.processed_notifier u'.update (outcome_string u'.update.outcome)
  turn s (node parent u) =
      let u' : Update Node = prefix_path Node.prefix_path u parent in
      react u'.processed_notifier log_node_result (db.set_node s u'.update)

-- The turns behind one, which a panic cuts off.
pub then_turns :
    {S E : Type 0}
    → S × Result E Reaction
    → S × Result E (List Reaction)
    → S × Result E (List Reaction)
then_turns (s, ok reaction) (s', rs) = (s', rs >>= λ more. ok (reaction ∷ more))
then_turns (s, err e) rest = (s, err e)
then_turns (s, panic) rest = (s, panic)

module _ {C : Group} {B : Blake2b} {T : Chrono} {S F : Type 0} (db : Db C T S F) (json : Json C T)
    (kc : KeyChain C B) {E : Type 0} where
  -- The loop, until the streams end.
  unfoldable pub start : S → List (Incoming T) → S × Result E (List Reaction)
  unfolding turn then_turns
  start s [] = (s, ok [])
  start s (i ∷ is) =
      let first : S × Result E Reaction = turn db json kc s i in
      let rest = start first.0 is in then_turns first rest
