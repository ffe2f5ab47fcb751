-- ===== src/Oracle.antt =====
-- olivia/src/oracle.rs: the oracle, which announces events and attests to their outcomes. Each
-- request is one step from a state of the database to the next.
pub mod Final
pub mod Keys
pub mod Lifecycle
use olivia.Base.{
  Text, text_eq, Bool, if◌then◌else◌, Option, none, some, List, [], ◌∷◌, Result, ok, err, panic,
  ◌>>=◌, map_err,
}
use olivia.EventId.{EventId}
use olivia.Outcome.{Outcome, outcome_string}
use olivia.Event.{Event}
use olivia.Group.{Group, Blake2b, Chrono}
use olivia.Announcement.{OracleEvent, OracleKeys, RawAnnouncement, Json, verify_against_id}
use olivia.Attestation
use olivia.Attestation.{Attestation, AttestationSchemes}
use olivia.KeyChain
use olivia.KeyChain.{
  KeyChain, oracle_public_keys, create_announcement, olivia_v1_scalars_for_event_outcome,
  ecdsa_sign_outcome,
}
use olivia.Db.{AnnouncedEvent, Db}
use mathlib.Core.Option

pub data EventResult (F : Type 0) : Type 0 where
  already_exists already_completed changed : EventResult F
  db_read_err db_write_err : F → EventResult F

pub data OutcomeResult (F : Type 0) : Type 0 where
  already_completed : OutcomeResult F
  -- the existing outcome and the new one
  outcome_changed : Text → Text → OutcomeResult F
  event_not_exist : OutcomeResult F
  db_read_err db_write_err : F → OutcomeResult F
  announcement_was_bogus : OutcomeResult F

pub record StampedOutcome (T : Chrono) : Type 0 where
  pub outcome : Outcome
  pub time : T.Time

-- The errors of `Oracle::new`: the database's, and `anyhow`'s one of other keys.
pub data NewError (F : Type 0) : Type 0 where
  db_err : F → NewError F
  other_keys : NewError F

unfoldable pub option_eq : {A : Type 0} → (A → A → Bool) → Option A → Option A → Bool
option_eq eq none none = Bool.true
option_eq eq (some a) (some b) = eq a b
option_eq eq _ _ = Bool.false

-- The derived `PartialEq`; `group` has one value.
unfoldable pub keys_eq : {C : Group} → OracleKeys C → OracleKeys C → Bool
unfolding option_eq
keys_eq {C} k l = elim (option_eq C.public_key_eq k.olivia_v1 l.olivia_v1) [
  | Bool.false ↦ Bool.false
  | Bool.true ↦ elim (option_eq C.public_key_eq k.ecdsa_v1 l.ecdsa_v1) [
    | Bool.false ↦ Bool.false
    | Bool.true ↦ C.public_key_eq k.announcement l.announcement
  ]
]

module _ {C : Group} {B : Blake2b} {T : Chrono} {S F : Type 0} (db : Db C T S F) where
  unfoldable pub keep_keys :
      KeyChain C B → S → Result F (Option (OracleKeys C)) → S × Result (NewError F) (KeyChain C B)
  unfolding keys_eq
  keep_keys kc s (ok (some stored)) =
      (s, if keys_eq (oracle_public_keys kc) stored then ok kc else err other_keys)
  keep_keys kc s (ok none) =
      let (s', r) = db.set_public_keys s (oracle_public_keys kc) in
      (s', map_err db_err r >>= λ _. ok kc)
  keep_keys kc s (err e) = (s, err (db_err e))
  keep_keys kc s panic = (s, panic)

  -- `Oracle::new`; an oracle is its key chain and the database.
  unfoldable pub new : B.Seed → S → S × Result (NewError F) (KeyChain C B)
  unfolding keep_keys
  new seed s = keep_keys (KeyChain.new seed) s (db.get_public_keys s)

module _ {C : Group} {B : Blake2b} {T : Chrono} {S F : Type 0} (db : Db C T S F) (json : Json C T)
    (kc : KeyChain C B) where
  -- `OracleEvent::add_event` on an id that is not there yet.
  unfoldable pub insert_announced :
      S
      → Event T.Time
      → Result (EventResult F) (RawAnnouncement C)
      → S × Result (EventResult F) (Unit {0})
  insert_announced s event (ok a) =
      let (s', r) =
        db.insert_event s (record { event = event; announcement = a; attestation = none }) in
      (s', map_err EventResult.db_write_err r)
  insert_announced s event (err e) = (s, err e)
  insert_announced s event panic = (s, panic)

  present : Option (Attestation C T) → EventResult F
  present (some _) = EventResult.already_completed
  present none = EventResult.already_exists

  unfoldable pub add_to :
      S
      → Event T.Time
      → Result F (Option (AnnouncedEvent C T))
      → S × Result (EventResult F) (Unit {0})
  unfolding present insert_announced create_announcement
  add_to s event (ok (some old)) = (s, err (present old.attestation))
  add_to s event (ok none) = insert_announced s event (create_announcement kc json event)
  add_to s event (err e) = (s, err (EventResult.db_read_err e))
  add_to s event panic = (s, panic)

  unfoldable pub add_event : S → Event T.Time → S × Result (EventResult F) (Unit {0})
  unfolding add_to
  add_event s event = add_to s event (db.get_announced_event s event.id)

  module _ {E : Type 0} where
    -- `Option::map` with a function that may panic.
    unfoldable pub reveal_for :
        Outcome → Option (List C.PublicNonce) → Result E (Option (List C.AttestScalar))
    reveal_for o none = ok none
    reveal_for o (some _) = do scalars ← olivia_v1_scalars_for_event_outcome kc o; ok (some scalars)

    unfoldable pub attest : StampedOutcome T → Text → OracleEvent C T → Result E (Attestation C T)
    unfolding reveal_for
    attest stamped text e = do
      scalars ← reveal_for stamped.outcome e.schemes.olivia_v1
      ok (
          Attestation.new text stamped.time (record {
            olivia_v1 = scalars;
            ecdsa_v1 = Option.map (λ _. ecdsa_sign_outcome kc stamped.outcome) e.schemes.ecdsa_v1;
          }))

  unfoldable pub write_attestation :
      S
      → EventId
      → Result (OutcomeResult F) (Attestation C T)
      → S × Result (OutcomeResult F) (Unit {0})
  write_attestation s id (ok a) =
      let (s', r) = db.complete_event s id a in (s', map_err OutcomeResult.db_write_err r)
  write_attestation s id (err e) = (s, err e)
  write_attestation s id panic = (s, panic)

  unfoldable pub complete_verified :
      S
      → StampedOutcome T
      → Text
      → EventId
      → Result (OutcomeResult F) (Option (OracleEvent C T))
      → S × Result (OutcomeResult F) (Unit {0})
  unfolding write_attestation attest
  complete_verified s stamped text id (ok (some e)) = write_attestation s id (attest stamped text e)
  complete_verified s stamped text id (ok none) = (s, err announcement_was_bogus)
  complete_verified s stamped text id (err e) = (s, err e)
  complete_verified s stamped text id panic = (s, panic)

  unfoldable pub complete_existing :
      S
      → StampedOutcome T
      → Text
      → AnnouncedEvent C T
      → Option (Attestation C T)
      → S × Result (OutcomeResult F) (Unit {0})
  unfolding complete_verified
  complete_existing s stamped text old (some a) = (
    s,
    err (
        if text_eq a.outcome text
        then OutcomeResult.already_completed
        else outcome_changed a.outcome text),
  )
  complete_existing s stamped text old none = complete_verified s stamped text old.event.id (
      verify_against_id json old.announcement stamped.outcome.id
        (oracle_public_keys kc).announcement)

  unfoldable pub complete_found :
      S
      → StampedOutcome T
      → Result F (Option (AnnouncedEvent C T))
      → Text
      → S × Result (OutcomeResult F) (Unit {0})
  unfolding complete_existing
  complete_found s stamped (ok (some old)) text =
      complete_existing s stamped text old old.attestation
  complete_found s stamped (ok none) text = (s, err event_not_exist)
  complete_found s stamped (err e) text = (s, err (OutcomeResult.db_read_err e))
  complete_found s stamped panic text = (s, panic)

  unfoldable pub complete_with :
      S
      → StampedOutcome T
      → Result F (Option (AnnouncedEvent C T))
      → Result (OutcomeResult F) Text
      → S × Result (OutcomeResult F) (Unit {0})
  unfolding complete_found
  complete_with s stamped existing (ok text) = complete_found s stamped existing text
  complete_with s stamped existing (err e) = (s, err e)
  complete_with s stamped existing panic = (s, panic)

  unfoldable pub complete_event : S → StampedOutcome T → S × Result (OutcomeResult F) (Unit {0})
  unfolding complete_with
  complete_event s stamped =
      complete_with s stamped (db.get_announced_event s stamped.outcome.id)
        (outcome_string stamped.outcome)
