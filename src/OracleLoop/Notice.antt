-- ===== src/OracleLoop/Notice.antt =====
-- olivia/src/oracle_loop.rs: what the sender of an event may conclude from the notice.
use olivia.Base.{
  Text, Bool, true, false, Option, none, some, Result, ok, err, panic, map_err-eq-ok, ◌≡◌, inl, inr,
  refl, sym, ap, ◌∙◌, subst,
}
use olivia.Event
use olivia.Event.{Event}
use olivia.Group.{Group, Blake2b, Chrono}
use olivia.Announcement.{Json, RawAnnouncement}
use olivia.KeyChain.{KeyChain, create_announcement}
use olivia.Db.{AnnouncedEvent, Db}
use olivia.Db.Laws.{Inserts, IsDb}
use olivia.Oracle.{EventResult, add_event, add_to, insert_announced}
use olivia.Sources.{Sender, prefix_path}
use olivia.OracleLoop.{event, Reaction, Line, react, turn, log_event_result}
use olivia.OracleLoop.Final.{react_state}

notice_of : {E : Type 0} → Result E Reaction → Option (Sender × Bool)
notice_of (ok r) = r.notified
notice_of _ = none

told :
    {S F : Type 0} (E' : Type 0) (c : Sender) (log : Option F → Line) (r : S × Result F (Unit {0}))
    (reaction : Reaction)
    → (react {E = E'} (some c) log r).1 ≡ ok reaction
    → reaction.notified ≡ some (c, false)
    → r.1 ≡ ok tt
unfolding react notice_of
told E' c log (s, ok _) reaction e n = refl
told E' c log (s, err x) reaction e n =
    let differ : ◌≡◌ {A = Option (Sender × Bool)} (some (c, true)) (some (c, false)) =
      ap notice_of e ∙ n in
    cc
told E' c log (s, panic) reaction e n = cc

module _ {C : Group} {B : Blake2b} {T : Chrono} {S F : Type 0} (db : Db C T S F) (json : Json C T)
    (kc : KeyChain C B) (laws : IsDb db) where
  -- The event was inserted, with an announcement and without an attestation.
  abbrev Stores : S → Event T.Time → S → Type 0
  Stores s e s' =
      (new : AnnouncedEvent C T) × (new.event ≡ e) × (new.attestation ≡ none) × Inserts db s new s'

  insert_announced_ok :
      (s : S) (e : Event T.Time) (r : Result (EventResult F) (RawAnnouncement C))
      → (insert_announced db json kc s e r).1 ≡ ok tt
      → Stores s e (insert_announced db json kc s e r).0
  unfolding insert_announced
  insert_announced_ok s e (ok a) h =
      let new : AnnouncedEvent C T = record { event = e; announcement = a; attestation = none } in
      elim (laws.insert_event_lem s new) [
        | inl (done, inserts) ↦ (new, refl, refl, inserts)
        | inr (refused, _) ↦
            absurd (refused (map_err-eq-ok EventResult.db_write_err (db.insert_event s new).1 h))
      ]
  insert_announced_ok s e (err x) h = cc
  insert_announced_ok s e panic h = cc

  add_to_ok :
      (s : S) (e : Event T.Time) (r : Result F (Option (AnnouncedEvent C T)))
      → (add_to db json kc s e r).1 ≡ ok tt
      → Stores s e (add_to db json kc s e r).0
  unfolding add_to
  add_to_ok s e (ok (some old)) h = cc
  add_to_ok s e (ok none) h = insert_announced_ok s e (create_announcement kc json e) h
  add_to_ok s e (err x) h = cc
  add_to_ok s e panic h = cc

-- On any lawful database: where the sender of an event, under any path, is told that its update did not
-- fail, the event was not there before, and is there now under its prefixed path, announced and without
-- an attestation.
pub turn-Stores :
    {C : Group} {B : Blake2b} {T : Chrono} {S F : Type 0} (E : Type 0) (db : Db C T S F)
    (json : Json C T) (kc : KeyChain C B) (s : S) (parent : Text) (e : Event T.Time) (c : Sender)
    (reaction : Reaction)
    → IsDb db
    → (turn db json kc {E = E} s
        (event parent (record { update = e; processed_notifier = some c }))).1
      ≡ ok reaction
    → reaction.notified ≡ some (c, false)
    → (new : AnnouncedEvent C T) × (new.event ≡ Event.prefix_path e parent)
      × (new.attestation ≡ none)
      × (db.get_announced_event s new.event.id ≡ ok none)
      × (db.get_announced_event
            (turn db json kc {E = E} s
              (event parent (record { update = e; processed_notifier = some c }))).0
            new.event.id
          ≡ ok (some new))
unfolding turn prefix_path add_event
turn-Stores E db json kc s parent e c reaction laws h n =
    let e' = Event.prefix_path e parent in
    let r = add_event db json kc s e' in
    let (new, is, open_slot, (missing, there, _)) =
      add_to_ok db json kc laws s e' (db.get_announced_event s e'.id)
        (told E c log_event_result r reaction h n) in
    (
      new,
      is,
      open_slot,
      missing,
      subst (λ t. db.get_announced_event t new.event.id ≡ ok (some new))
          (sym (react_state E (some c) log_event_result r)) there,
    )
