-- ===== src/Cli/Lifecycle.antt =====
-- olivia/src/cli/add.rs: two runs of the command with one seed, for an event and then its outcome.
use olivia.Base.{
  ℕ, ◌<◌, ◌≤◌, Text, false, ◌≢◌, Option, none, some, [], Result, ok, err, panic, map_err, ◌≡◌, refl,
  sym, ap, ◌∙◌,
}
use olivia.EventId.{EventId, n_outcomes, n_nonces}
use olivia.Outcome.{Outcome, try_from_id_and_outcome}
use olivia.Event
use olivia.Event.{Event}
use olivia.Group.{Group, Blake2b, Chrono}
use olivia.Group.Laws.{IsCorrect}
use olivia.Announcement.{Json, IsFaithful, OracleEvent, RawAnnouncement, verify_against_id}
use olivia.Attestation.{Attestation, verify_olivia_v1_attestation}
use olivia.KeyChain
use olivia.KeyChain.{KeyChain, oracle_public_keys, create_announcement}
use olivia.Db.{AnnouncedEvent}
use olivia.Db.InMemory
use olivia.Db.InMemory.{InMemory, find, empty, in_memory}
use olivia.Oracle
use olivia.Oracle.{
  EventResult, OutcomeResult, keys_eq, option_eq, keep_keys, insert_announced, add_to, add_event,
  complete_event, other_keys,
}
use olivia.Oracle.Keys.{keys_eq_refl, keys_eq-other}
use olivia.Oracle.Lifecycle.{add_event-complete_event}
use olivia.Cli.{Entity, AddError, new_err, add_outcome, add_entity, add_with, add}

module _ {C : Group} {B : Blake2b} {T : Chrono} (json : Json C T) (kc : KeyChain C B) where
  insert_found-keys :
      (s : InMemory C T) (e : AnnouncedEvent C T) (o : Option (AnnouncedEvent C T))
      → find e.event.id s.inner ≡ o
      → (InMemory.insert_event s e).0.public_keys ≡ s.public_keys
  unfolding InMemory.insert_event
  insert_found-keys s e (some old) h = rw (h, InMemory.insert_event) refl
  insert_found-keys s e none h = rw (h, InMemory.insert_event) refl

  insert_announced-keys :
      (s : InMemory C T) (ev : Event T.Time) (r : Result (EventResult Text) (RawAnnouncement C))
      → (insert_announced in_memory json kc s ev r).0.public_keys ≡ s.public_keys
  unfolding insert_announced in_memory
  insert_announced-keys s ev (ok a) =
      let new : AnnouncedEvent C T = record { event = ev; announcement = a; attestation = none } in
      insert_found-keys s new (find ev.id s.inner) refl
  insert_announced-keys s ev (err e) = refl
  insert_announced-keys s ev panic = refl

  add_to-keys :
      (s : InMemory C T) (ev : Event T.Time) (r : Result Text (Option (AnnouncedEvent C T)))
      → (add_to in_memory json kc s ev r).0.public_keys ≡ s.public_keys
  unfolding add_to
  add_to-keys s ev (ok (some old)) = refl
  add_to-keys s ev (ok none) = insert_announced-keys s ev (create_announcement kc json ev)
  add_to-keys s ev (err e) = refl
  add_to-keys s ev panic = refl

  -- The published keys stay when an event is added.
  add_event-keys :
      (s : InMemory C T) (ev : Event T.Time)
      → (add_event in_memory json kc s ev).0.public_keys ≡ s.public_keys
  unfolding add_event
  add_event-keys s ev = add_to-keys s ev (in_memory.get_announced_event s ev.id)

module _ {C : Group} {B : Blake2b} {T : Chrono} (kc : KeyChain C B) where
  -- The database once its keys have been published.
  abbrev published : InMemory C T
  published = record { public_keys = some (oracle_public_keys kc); inner = []; node_kinds = [] }

abbrev pub chain : (C : Group) (B : Blake2b) → B.Seed → KeyChain C B
chain C B seed = KeyChain.new seed

module _ (C : Group) (B : Blake2b) (T : Chrono) (seed : B.Seed) where
  new-published :
      Oracle.new {C = C} {B = B} in_memory seed (empty {C = C} {T = T})
      ≡ (published (chain C B seed), ok (chain C B seed))
  unfolding Oracle.new keep_keys in_memory empty InMemory.set_public_keys
  new-published = refl

  new_kept :
      (s : InMemory C T)
      → IsCorrect C
      → s.public_keys ≡ some (oracle_public_keys (chain C B seed))
      → Oracle.new {C = C} {B = B} in_memory seed s ≡ (s, ok (chain C B seed))
  unfolding Oracle.new in_memory
  new_kept s correct e =
      ap (λ o. keep_keys in_memory (chain C B seed) s (ok o)) e
      ∙ unfold keep_keys in
        rw (keys_eq_refl (oracle_public_keys (chain C B seed)) correct, keep_keys) refl

module _ {C : Group} (B : Blake2b) {T : Chrono} (json : Json C T) (seed other : B.Seed)
    (s : InMemory C T) where
  new-other_keys :
      s.public_keys ≡ some (oracle_public_keys (chain C B seed))
      → keys_eq (oracle_public_keys (chain C B other)) (oracle_public_keys (chain C B seed)) ≡ false
      → Oracle.new {C = C} {B = B} in_memory other s ≡ (s, err other_keys)
  unfolding Oracle.new in_memory
  new-other_keys e differ =
      ap (λ o. keep_keys in_memory (chain C B other) s (ok o)) e
      ∙ unfold keep_keys in rw (differ, keep_keys) refl

  add-other_keys :
      (time : T.Time) (entity : Entity T)
      → s.public_keys ≡ some (oracle_public_keys (chain C B seed))
      → keys_eq (oracle_public_keys (chain C B other)) (oracle_public_keys (chain C B seed)) ≡ false
      → add B in_memory json (some other) time s entity ≡ (s, err (new_err other_keys))
  unfolding add add_with
  add-other_keys time entity e differ =
      ap (add_with B in_memory json time entity) (new-other_keys e differ)

module _ {C : Group} (B : Blake2b) {T : Chrono} (json : Json C T) (seed : B.Seed) (now : T.Time)
    (s s₀ s₁ : InMemory C T)
    (made : Oracle.new {B = B} in_memory seed s ≡ (s₀, ok (chain C B seed))) where
  add-event :
      (id : EventId) (expected : Option T.Time)
      → add_event in_memory json
          (chain C B seed)
          s₀
          (record { id = id; expected_outcome_time = expected })
        ≡ (s₁, ok tt)
      → add B in_memory json (some seed) now s (Entity.event id expected) ≡ (s₁, ok tt)
  unfolding add add_with add_entity
  add-event id expected added =
      ap (add_with B in_memory json now (Entity.event id expected)) made
      ∙ ap
          (λ (r : InMemory C T × Result (EventResult Text) (Unit {0})).
            (r.0, map_err AddError.event_err r.1))
          added

  add-outcome :
      (o : Outcome) (text : Text)
      → try_from_id_and_outcome o.id text ≡ ok o
      → complete_event in_memory json (chain C B seed) s₀ (record { outcome = o; time = now })
        ≡ (s₁, ok tt)
      → add B in_memory json (some seed) now s (Entity.outcome o.id text) ≡ (s₁, ok tt)
  unfolding add add_with add_entity add_outcome
  add-outcome o text read completed =
      ap (add_with B in_memory json now (Entity.outcome o.id text)) made
      ∙ ap (add_outcome B in_memory json (chain C B seed) now s₀) read
      ∙ ap
          (λ (r : InMemory C T × Result (OutcomeResult Text) (Unit {0})).
            (r.0, map_err AddError.outcome_err r.1))
          completed

-- On an empty database in memory, with a correct curve and a faithful encoding, for an id that can be
-- parsed and has at most 64 nonces, and a text that is read as one of its outcomes: `olivia add` of the
-- event succeeds and publishes the seed's public keys; then `olivia add` of anything with a seed of other
-- public keys fails and leaves the database as it is, while `olivia add` of the outcome with the same
-- seed succeeds; and then the event is there with an attestation that verifies under olivia-v1 with
-- the seed's public keys against the event that its announcement verifies to.
pub add-add :
    {C : Group} (B : Blake2b) {T : Chrono} (json : Json C T) (seed other : B.Seed) (o : Outcome)
    (text : Text) (expected : Option T.Time) (now time : T.Time) (entity : Entity T) (n m : ℕ)
    → IsCorrect C
    → IsFaithful json
    → Event.from_str o.id ≡ ok o.id
    → try_from_id_and_outcome o.id text ≡ ok o
    → n_outcomes {E = Text} o.id ≡ ok n
    → o.value < n
    → n_nonces {E = Text} o.id ≡ ok m
    → m ≤ 64
    → oracle_public_keys (chain C B other) ≢ oracle_public_keys (chain C B seed)
    → (s₁ : InMemory C T) × (s₂ : InMemory C T) × (ann : AnnouncedEvent C T) × (att : Attestation C
        T)
      × (e : OracleEvent C T) × (add B in_memory json
            (some seed)
            now
            empty
            (Entity.event o.id expected)
          ≡ (s₁, ok tt))
      × (s₁.public_keys ≡ some (oracle_public_keys (chain C B seed)))
      × (add B in_memory json (some other) time s₁ entity ≡ (s₁, err (new_err other_keys)))
      × (add B in_memory json (some seed) time s₁ (Entity.outcome o.id text) ≡ (s₂, ok tt))
      × (find o.id s₂.inner ≡ some ann)
      × (ann.attestation ≡ some att)
      × (verify_against_id json {E = Text} ann.announcement o.id
            (oracle_public_keys (chain C B seed)).announcement
          ≡ ok (some e))
      × (verify_olivia_v1_attestation att e (oracle_public_keys (chain C B seed)) ≡ ok tt)
add-add {C} B {T} json seed other o text expected now time entity n m correct faithful valid read
      outcomes lt nonces le differ =
    let kc : KeyChain C B = KeyChain.new seed in
    let event : Event T.Time = record { id = o.id; expected_outcome_time = expected } in
    let (s₁, s₂, ann, att, e, added, completed, there, filled, verified, attested) =
      add_event-complete_event kc json (published kc) o expected time n m correct faithful valid
        outcomes lt nonces le (unfold find in refl) in
    let keys : s₁.public_keys ≡ some (oracle_public_keys kc) =
      ap (λ (r : InMemory C T × Result (EventResult Text) (Unit {0})). r.0.public_keys) (sym added)
      ∙ add_event-keys json kc (published kc) event in
    (
      s₁,
      s₂,
      ann,
      att,
      e,
      add-event B json seed now empty (published kc) s₁ (new-published C B T seed) o.id expected
          added,
      keys,
      add-other_keys B json seed other s₁ time entity keys (
          keys_eq-other (oracle_public_keys (chain C B other)) (oracle_public_keys (chain C B seed))
            correct differ),
      add-outcome B json seed time s₁ s₁ s₂ (new_kept C B T seed s₁ correct keys) o text read
          completed,
      there,
      filled,
      verified,
      attested,
    )
