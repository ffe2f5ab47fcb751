-- ===== src/Oracle/Lifecycle.antt =====
-- An event's way through the oracle: announced, then attested to.
use olivia.Base.{ℕ, ◌<◌, ◌≤◌, Text, text_eq_refl, Option, none, some, List, ◌∷◌, ok, ◌≡◌, refl}
use olivia.Kind
use olivia.EventId.{kind_outcomes, n_outcomes, n_nonces}
use olivia.EventId.Valid.{n_outcomes_lem, n_nonces_lem}
use olivia.Outcome.{Outcome, outcome_string}
use olivia.Event
use olivia.Event.{Event}
use olivia.Event.Parse.{from_str_sound}
use olivia.Group.{Group, Blake2b, Chrono}
use olivia.Group.Laws.{IsCorrect}
use olivia.Announcement.{Json, IsFaithful, OracleEvent, RawAnnouncement, verify_against_id}
use olivia.Attestation
use olivia.Attestation.{Attestation, AttestationSchemes, verify_olivia_v1_attestation}
use olivia.KeyChain.{
  KeyChain, oracle_public_keys, create_announcement, ecdsa_sign_outcome,
  olivia_v1_scalars_for_event_outcome,
}
use olivia.KeyChain.Attests.{announced_total}
use olivia.Db.{AnnouncedEvent}
use olivia.Db.InMemory
use olivia.Db.InMemory.{InMemory, find, replace, fill, in_memory}
use olivia.Db.InMemory.Laws.{find-replace}
use olivia.Oracle.{
  EventResult, OutcomeResult, insert_announced, add_to, add_event, reveal_for, attest,
  write_attestation, complete_verified, complete_existing, complete_found, complete_with,
  complete_event,
}
use mathlib.Core.Option

module _ {C : Group} {B : Blake2b} {T : Chrono} (kc : KeyChain C B) (json : Json C T) where
  -- The state once an event has been inserted at the front.
  abbrev pub with_event : InMemory C T → AnnouncedEvent C T → InMemory C T
  with_event s e = record s { inner = (e.event.id, e) ∷ s.inner }

  pub add_event-ok :
      (s : InMemory C T) (event : Event T.Time) (a : RawAnnouncement C)
      → find event.id s.inner ≡ none
      → create_announcement kc json {E = EventResult Text} event ≡ ok a
      → add_event in_memory json kc s event
        ≡ (with_event s (record { event = event; announcement = a; attestation = none }), ok tt)
  unfolding add_event add_to insert_announced in_memory InMemory.insert_event
  add_event-ok s event a missing created =
      rw (missing, add_to)
        (rw (created, insert_announced) (rw (missing, InMemory.insert_event) refl))

  found_first :
      (s : InMemory C T) (e : AnnouncedEvent C T) → find e.event.id (with_event s e).inner ≡ some e
  unfolding find
  found_first s e = rw (text_eq_refl e.event.id) refl

  reveal_for-ok :
      {E : Type 0} (o : Outcome) (ns : Option (List C.PublicNonce)) (ss : List C.AttestScalar)
      → olivia_v1_scalars_for_event_outcome kc {E = E} o ≡ ok ss
      → reveal_for in_memory json kc {E = E} o ns ≡ ok (Option.map (λ _. ss) ns)
  unfolding reveal_for
  reveal_for-ok o none ss h = refl
  reveal_for-ok o (some ns) ss h = rw (h, reveal_for) refl

  module _ (s : InMemory C T) (o : Outcome) (time : T.Time) (expected : Option T.Time)
      (a : RawAnnouncement C) (e : OracleEvent C T) (text : Text) (ss : List C.AttestScalar) where
    abbrev announced : Option (Attestation C T) → AnnouncedEvent C T
    announced att = record {
      event = record { id = o.id; expected_outcome_time = expected };
      announcement = a;
      attestation = att;
    }

    abbrev attestation : Attestation C T
    attestation = Attestation.new text time (record {
      olivia_v1 = Option.map (λ _. ss) e.schemes.olivia_v1;
      ecdsa_v1 = Option.map (λ _. ecdsa_sign_outcome kc o) e.schemes.ecdsa_v1;
    })

    complete_event-ok :
        find o.id s.inner ≡ some (announced none)
        → outcome_string {E = OutcomeResult Text} o ≡ ok text
        → verify_against_id json {E = OutcomeResult Text} a o.id
            (C.public_key kc.announcement_keypair)
          ≡ ok (some e)
        → olivia_v1_scalars_for_event_outcome kc {E = OutcomeResult Text} o ≡ ok ss
        → complete_event in_memory json kc s (record { outcome = o; time = time })
          ≡ (record s { inner = replace o.id (announced (some attestation)) s.inner }, ok tt)
    unfolding complete_event complete_with complete_found complete_existing complete_verified
        write_attestation attest in_memory InMemory.complete_event fill oracle_public_keys
    complete_event-ok there written verified scalars =
        rw (written, complete_with)
          (rw (there, complete_found)
            (rw (verified, complete_verified)
              (rw (reveal_for-ok o e.schemes.olivia_v1 ss scalars, write_attestation)
                (rw (there, InMemory.complete_event) refl))))

-- On the database in memory, for a key chain on a correct curve, a faithful encoding and an id that can be parsed, has at
-- most 64 nonces and is not there yet: adding the event succeeds, then completing it with one of its
-- outcomes succeeds, and then the event is there with an attestation that verifies under olivia-v1
-- with the oracle's public keys against the event that its announcement verifies to.
pub add_event-complete_event :
    {C : Group} {B : Blake2b} {T : Chrono} (kc : KeyChain C B) (json : Json C T) (s : InMemory C T)
    (o : Outcome) (expected : Option T.Time) (time : T.Time) (n m : ℕ)
    → IsCorrect C
    → IsFaithful json
    → Event.from_str o.id ≡ ok o.id
    → n_outcomes {E = Text} o.id ≡ ok n
    → o.value < n
    → n_nonces {E = Text} o.id ≡ ok m
    → m ≤ 64
    → find o.id s.inner ≡ none
    → (s₁ : InMemory C T) × (s₂ : InMemory C T) × (ann : AnnouncedEvent C T) × (att : Attestation C
        T)
      × (e : OracleEvent C T) × (add_event in_memory json kc s
            (record { id = o.id; expected_outcome_time = expected })
          ≡ (s₁, ok tt))
      × (complete_event in_memory json kc s₁ (record { outcome = o; time = time }) ≡ (s₂, ok tt))
      × (find o.id s₂.inner ≡ some ann)
      × (ann.attestation ≡ some att)
      × (verify_against_id json {E = Text} ann.announcement o.id
            (oracle_public_keys kc).announcement
          ≡ ok (some e))
      × (verify_olivia_v1_attestation att e (oracle_public_keys kc) ≡ ok tt)
unfolding oracle_public_keys
add_event-complete_event {C} {B} {T} kc json s o expected time n m correct faithful valid outcomes
      lt nonces le missing =
    let (_, _, h) = from_str_sound o.id o.id valid in
    let has : kind_outcomes h.kind ≡ n = cc (n_outcomes_lem h {E = Text}) in
    let needs : Kind.n_nonces h.kind ≡ m = cc (n_nonces_lem h {E = Text}) in
    let (a, e, text, ss, created, verified, written, scalars, ecdsa, attested) =
      announced_total kc json o expected time (some (ecdsa_sign_outcome kc o)) h correct faithful
        valid (rw has lt) (rw needs le) in
    let event : Event T.Time = record { id = o.id; expected_outcome_time = expected } in
    let new = announced kc json s o time expected a e text ss none in
    let att = attestation kc json s o time expected a e text ss in
    let s₁ = with_event kc json s new in
    let there = found_first kc json s new in
    (
      s₁,
      record s₁ {
        inner = replace o.id (announced kc json s o time expected a e text ss (some att)) s₁.inner;
      },
      announced kc json s o time expected a e text ss (some att),
      att,
      e,
      add_event-ok kc json s event a missing (created (EventResult Text)),
      complete_event-ok kc json s₁ o time expected a e text ss there (written (OutcomeResult Text))
          (verified (OutcomeResult Text)) (scalars (OutcomeResult Text)),
      find-replace o.id (announced kc json s o time expected a e text ss (some att)) new s₁.inner
          there,
      refl,
      verified Text,
      rw ecdsa attested,
    )
