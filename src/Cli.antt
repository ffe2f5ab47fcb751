-- ===== src/Cli.antt =====
-- olivia/src/cli/add.rs and olivia/src/cli/derive.rs: the commands that add an event or an outcome
-- by hand, on a database that is connected, and that print the nonces of an event.
pub mod Lifecycle
use olivia.Base.{Text, Option, none, some, List, Result, ok, err, panic, map_err}
use olivia.EventId.{EventId}
use olivia.Outcome.{Outcome, OutcomeError, try_from_id_and_outcome}
use olivia.Group.{Group, Blake2b, Chrono}
use olivia.Announcement.{Json}
use olivia.KeyChain
use olivia.KeyChain.{KeyChain, nonces_for_event}
use olivia.Db.{Db}
use olivia.Oracle
use olivia.Oracle.{EventResult, OutcomeResult, NewError, add_event, complete_event}

pub data Entity (T : Chrono) : Type 0 where
  event : EventId → Option T.Time → Entity T
  outcome : EventId → Text → Entity T

-- What `anyhow` carries.
pub data AddError (F : Type 0) : Type 0 where
  no_seed : AddError F
  new_err : NewError F → AddError F
  event_err : EventResult F → AddError F
  outcome_err : OutcomeResult F → AddError F
  bad_outcome : OutcomeError → AddError F

module _ {C : Group} (B : Blake2b) {T : Chrono} {S F : Type 0} (db : Db C T S F)
    (json : Json C T) where
  unfoldable pub add_outcome :
      KeyChain C B → T.Time → S → Result OutcomeError Outcome → S × Result (AddError F) (Unit {0})
  add_outcome kc now s (ok o) =
      let (s', r) = complete_event db json kc s (record { outcome = o; time = now }) in
      (s', map_err outcome_err r)
  add_outcome kc now s (err e) = (s, err (bad_outcome e))
  add_outcome kc now s panic = (s, panic)

  unfoldable pub add_entity :
      KeyChain C B → T.Time → S → Entity T → S × Result (AddError F) (Unit {0})
  unfolding add_outcome
  add_entity kc now s (Entity.event id time) =
      let (s', r) = add_event db json kc s (record { id = id; expected_outcome_time = time }) in
      (s', map_err event_err r)
  add_entity kc now s (Entity.outcome id text) =
      add_outcome kc now s (try_from_id_and_outcome id text)

  unfoldable pub add_with :
      T.Time
      → Entity T
      → S × Result (NewError F) (KeyChain C B)
      → S × Result (AddError F) (Unit {0})
  unfolding add_entity
  add_with now entity (s, ok kc) = add_entity kc now s entity
  add_with now entity (s, err e) = (s, err (new_err e))
  add_with now entity (s, panic) = (s, panic)

  -- `add` at the time `now`, on the state of the database.
  unfoldable pub add : Option B.Seed → T.Time → S → Entity T → S × Result (AddError F) (Unit {0})
  unfolding add_with
  add none now s entity = (s, err no_seed)
  add (some seed) now s entity = add_with now entity (Oracle.new db seed s)

module _ (C : Group) (B : Blake2b) where
  -- What `derive` prints, and nothing without a seed.
  pub derive : {E : Type 0} → Option B.Seed → EventId → Option (Result E (List C.NonceKeyPair))
  derive none id = none
  derive {E} (some seed) id =
      let keychain : KeyChain C B = KeyChain.new seed in some (nonces_for_event keychain id)
