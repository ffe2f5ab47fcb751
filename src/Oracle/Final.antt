-- ===== src/Oracle/Final.antt =====
-- What no request changes: an event that was announced, and an attestation that was published.
use olivia.Base.{
  Text, text_eq, text_eq_iff, Bool-cases, Option, none, some, List, [], ◌∷◌, Result, ok, err, panic,
  ◌≡◌, ◌⊎◌, inl, inr, refl, sym, ap, ◌∙◌,
}
use olivia.EventId.{EventId}
use olivia.Outcome.{outcome_string}
use olivia.Event.{Event}
use olivia.Group.{Group, Blake2b, Chrono}
use olivia.Announcement.{Json, OracleEvent, RawAnnouncement}
use olivia.Attestation.{Attestation}
use olivia.KeyChain.{KeyChain, create_announcement}
use olivia.Db.{AnnouncedEvent, Db}
use olivia.Db.Laws.{SameEvents, Inserts, Completes, IsStore, HasOwnIds}
use olivia.Oracle.{
  EventResult, OutcomeResult, StampedOutcome, insert_announced, add_to, add_event,
  write_attestation, complete_verified, complete_existing, complete_found, complete_with,
  complete_event, attest,
}

pub data Request (T : Chrono) : Type 0 where
  add : Event T.Time → Request T
  complete : StampedOutcome T → Request T

-- What a later state may hold for an event: the same announcement, and the same attestation if
-- there was one.
abbrev pub Extends : {C : Group} {T : Chrono} → AnnouncedEvent C T → AnnouncedEvent C T → Type 0
Extends e e' =
    (e'.event ≡ e.event)
    × (e'.announcement ≡ e.announcement)
    × ((e.attestation ≡ none) ⊎ (e'.attestation ≡ e.attestation))

module _ {C : Group} {B : Blake2b} {T : Chrono} {S F : Type 0} (db : Db C T S F) (json : Json C T)
    (kc : KeyChain C B) where
  unfoldable pub handle : S → Request T → S
  unfolding add_event complete_event
  handle s (add event) = (add_event db json kc s event).0
  handle s (complete stamped) = (complete_event db json kc s stamped).0

  unfoldable pub run : S → List (Request T) → S
  unfolding handle
  run s [] = s
  run s (r ∷ rs) = run (handle s r) rs

module _ {C : Group} {T : Chrono} {S F : Type 0} (db : Db C T S F) where
  -- A request makes one write at most.
  abbrev pub Writes : S → S → Type 0
  Writes s s' =
      SameEvents db s s'
      ⊎ ((e : AnnouncedEvent C T) × Inserts db s e s')
      ⊎ ((id : EventId) × (a : Attestation C T) × Completes db s id a s')

  same : (s : S) → Writes s s
  same s = inl (λ id. refl)

  some_event :
      (a b : AnnouncedEvent C T)
      → ◌≡◌ {A = Result F (Option (AnnouncedEvent C T))} (ok (some a)) (ok (some b))
      → a ≡ b
  some_event a b h = cc

module _ {C : Group} {B : Blake2b} {T : Chrono} {S F : Type 0} (db : Db C T S F) (json : Json C T)
    (kc : KeyChain C B) (laws : IsStore db) where
  insert_announced-Writes :
      (s : S) (event : Event T.Time) (r : Result (EventResult F) (RawAnnouncement C))
      → db.get_announced_event s event.id ≡ ok none
      → Writes db s (insert_announced db json kc s event r).0
  unfolding insert_announced
  insert_announced-Writes s event (ok a) missing =
      let new : AnnouncedEvent C T = record {
        event = event;
        announcement = a;
        attestation = none;
      } in
      elim (laws.insert_event_lem s new) [
        | inl keeps ↦ inl keeps
        | inr (there, elsewhere) ↦ inr (inl (new, (missing, there, elsewhere)))
      ]
  insert_announced-Writes s event (err e) missing = same db s
  insert_announced-Writes s event panic missing = same db s

  add_to-Writes :
      (s : S) (event : Event T.Time) (r : Result F (Option (AnnouncedEvent C T)))
      → db.get_announced_event s event.id ≡ r
      → Writes db s (add_to db json kc s event r).0
  unfolding add_to
  add_to-Writes s event (ok (some old)) found = same db s
  add_to-Writes s event (ok none) missing =
      insert_announced-Writes s event (create_announcement kc json event) missing
  add_to-Writes s event (err e) found = same db s
  add_to-Writes s event panic found = same db s

  module _ (s : S) (st : StampedOutcome T) where
    module _ (text : Text) (old : AnnouncedEvent C T)
        (found : db.get_announced_event s old.event.id ≡ ok (some old)) where
      write_attestation-Writes :
          (r : Result (OutcomeResult F) (Attestation C T))
          → old.attestation ≡ none
          → Writes db s (write_attestation db json kc s old.event.id r).0
      unfolding write_attestation
      write_attestation-Writes (ok a) vacant = elim (laws.complete_event_lem s old.event.id a) [
        | inl keeps ↦ inl keeps
        | inr (e, there, after, elsewhere) ↦
            let is_old : e ≡ old = some_event db e old (sym there ∙ found) in
            inr (
              inr (
                old.event.id,
                a,
                (e, there, ap AnnouncedEvent.attestation is_old ∙ vacant, after, elsewhere),
              ))
      ]
      write_attestation-Writes (err e) vacant = same db s
      write_attestation-Writes panic vacant = same db s

      complete_verified-Writes :
          (r : Result (OutcomeResult F) (Option (OracleEvent C T)))
          → old.attestation ≡ none
          → Writes db s (complete_verified db json kc s st text old.event.id r).0
      unfolding complete_verified
      complete_verified-Writes (ok (some e)) vacant =
          write_attestation-Writes (attest db json kc st text e) vacant
      complete_verified-Writes (ok none) vacant = same db s
      complete_verified-Writes (err e) vacant = same db s
      complete_verified-Writes panic vacant = same db s

      complete_existing-Writes :
          (o : Option (Attestation C T))
          → old.attestation ≡ o
          → Writes db s (complete_existing db json kc s st text old o).0
      unfolding complete_existing
      complete_existing-Writes (some a) done = same db s
      complete_existing-Writes none vacant = complete_verified-Writes _ vacant

    complete_with-Writes :
        (r : Result F (Option (AnnouncedEvent C T))) (t : Result (OutcomeResult F) Text)
        → HasOwnIds db s
        → db.get_announced_event s st.outcome.id ≡ r
        → Writes db s (complete_with db json kc s st r t).0
    unfolding complete_with complete_found
    complete_with-Writes (ok (some old)) (ok text) own found =
        complete_existing-Writes text old
          (ap (db.get_announced_event s) (own st.outcome.id old found) ∙ found) old.attestation refl
    complete_with-Writes (ok none) (ok text) own found = same db s
    complete_with-Writes (err e) (ok text) own found = same db s
    complete_with-Writes panic (ok text) own found = same db s
    complete_with-Writes r (err e) own found = same db s
    complete_with-Writes r panic own found = same db s

  pub handle-Writes : (s : S) (r : Request T) → HasOwnIds db s → Writes db s (handle db json kc s r)
  unfolding handle add_event complete_event
  handle-Writes s (add event) own = add_to-Writes s event (db.get_announced_event s event.id) refl
  handle-Writes s (complete st) own =
      complete_with-Writes s st (db.get_announced_event s st.outcome.id) (outcome_string st.outcome)
        own refl

module _ {C : Group} {T : Chrono} {S F : Type 0} (db : Db C T S F) where
  -- The state holds an event that extends the one given.
  abbrev pub Keeps : EventId → AnnouncedEvent C T → S → Type 0
  Keeps id e s =
      (e' : AnnouncedEvent C T) × (db.get_announced_event s id ≡ ok (some e')) × Extends e e'

  pub write-HasOwnIds : (s s' : S) → HasOwnIds db s → Writes db s s' → HasOwnIds db s'
  write-HasOwnIds s s' own (inl keeps) id e there = own id e (sym (keeps id) ∙ there)
  write-HasOwnIds s s' own (inr (inl (new, (_, after, elsewhere)))) id e there =
      elim (Bool-cases (text_eq id new.event.id)) [
        | inl same_id ↦
            let p : id ≡ new.event.id = (text_eq_iff id new.event.id).0 same_id in
            let is_new : new ≡ e =
              some_event db new e (sym after ∙ ap (db.get_announced_event s') (sym p) ∙ there) in
            ap (λ (x : AnnouncedEvent C T). x.event.id) (sym is_new) ∙ sym p
        | inr other ↦
            own id e (sym (elsewhere id (λ p. cc ((text_eq_iff id new.event.id).1 p))) ∙ there)
      ]
  write-HasOwnIds s s' own (inr (inr (done, a, (old, found, _, after, elsewhere)))) id e there =
      elim (Bool-cases (text_eq id done)) [
        | inl same_id ↦
            let p : id ≡ done = (text_eq_iff id done).0 same_id in
            let is_new : record old { attestation = some a } ≡ e =
              some_event db (record old { attestation = some a }) e
                (sym after ∙ ap (db.get_announced_event s') (sym p) ∙ there) in
            ap (λ (x : AnnouncedEvent C T). x.event.id) (sym is_new) ∙ own done old found ∙ sym p
        | inr other ↦ own id e (sym (elsewhere id (λ p. cc ((text_eq_iff id done).1 p))) ∙ there)
      ]

  pub write-Keeps :
      (s s' : S) (id : EventId) (e : AnnouncedEvent C T)
      → db.get_announced_event s id ≡ ok (some e)
      → Writes db s s'
      → Keeps id e s'
  write-Keeps s s' id e there (inl keeps) = (e, keeps id ∙ there, (refl, refl, inr refl))
  write-Keeps s s' id e there (inr (inl (new, (missing, _, elsewhere)))) =
      elim (Bool-cases (text_eq id new.event.id)) [
        | inl same_id ↦
            let p : id ≡ new.event.id = (text_eq_iff id new.event.id).0 same_id in absurd (cc)
        | inr other ↦ (
          e,
          elsewhere id (λ p. cc ((text_eq_iff id new.event.id).1 p)) ∙ there,
          (refl, refl, inr refl),
        )
      ]
  write-Keeps s s' id e there (inr (inr (done, a, (old, found, vacant, after, elsewhere)))) =
      elim (Bool-cases (text_eq id done)) [
        | inl same_id ↦
            let p : id ≡ done = (text_eq_iff id done).0 same_id in
            let same_event : old ≡ e =
              some_event db old e (sym found ∙ ap (db.get_announced_event s) (sym p) ∙ there) in
            (
              record old { attestation = some a },
              ap (db.get_announced_event s') p ∙ after,
              (
                ap AnnouncedEvent.event same_event,
                ap AnnouncedEvent.announcement same_event,
                inl (ap AnnouncedEvent.attestation (sym same_event) ∙ vacant),
              ),
            )
        | inr other ↦
            (e, elsewhere id (λ p. cc ((text_eq_iff id done).1 p)) ∙ there, (refl, refl, inr refl))
      ]

module _ {C : Group} {T : Chrono} where
  pub Extends-trans : (a b c : AnnouncedEvent C T) → Extends a b → Extends b c → Extends a c
  Extends-trans a b c (p, q, r) (u, v, w) = (
    u ∙ p,
    v ∙ q,
    elim r [
      | inl vacant ↦ inl vacant
      | inr e ↦ elim w [ inl vacant ↦ inl (sym e ∙ vacant) | inr f ↦ inr (f ∙ e) ]
    ],
  )

-- On any database, also one that writes over what is there, whose events stand under their own ids:
-- after any requests to an oracle, whatever they return, each event that was announced before is there
-- with the same announcement, and with the same attestation if it had one.
pub run-Extends :
    {C : Group} {B : Blake2b} {T : Chrono} {S F : Type 0} (db : Db C T S F) (json : Json C T)
    (kc : KeyChain C B) (rs : List (Request T)) (s : S) (id : EventId) (e : AnnouncedEvent C T)
    → IsStore db
    → HasOwnIds db s
    → db.get_announced_event s id ≡ ok (some e)
    → (e' : AnnouncedEvent C T) × (db.get_announced_event (run db json kc s rs) id ≡ ok (some e'))
      × Extends e e'
unfolding run
run-Extends db json kc [] s id e laws own there = (e, there, (refl, refl, inr refl))
run-Extends db json kc (r ∷ rs) s id e laws own there =
    let s₁ = handle db json kc s r in
    let writes = handle-Writes db json kc laws s r own in
    let (e₁, there₁, ext₁) = write-Keeps db s s₁ id e there writes in
    let (e₂, there₂, ext₂) =
      run-Extends db json kc rs s₁ id e₁ laws (write-HasOwnIds db s s₁ own writes) there₁ in
    (e₂, there₂, Extends-trans e e₁ e₂ ext₁ ext₂)
