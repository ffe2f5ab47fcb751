-- ===== src/Db/Laws.antt =====
-- What a database promises of its writes: in `IsDb`, which insert and complete at most once, and in
-- `IsStore`, which write over whatever is there, as the UPDATE of olivia/src/db/postgres.rs does.
use olivia.Base.{none, some, ok, ◌≡◌, ◌≢◌, ◌⊎◌, inl, inr}
use olivia.EventId.{EventId}
use olivia.Group.{Group, Chrono}
use olivia.Node.{Node}
use olivia.Attestation.{Attestation}
use olivia.Db.{AnnouncedEvent, Db}

module _ {C : Group} {T : Chrono} {S F : Type 0} (db : Db C T S F) where
  -- The two states hold the same events.
  abbrev pub SameEvents : S → S → Type 0
  SameEvents s s' = (id : EventId) → db.get_announced_event s' id ≡ db.get_announced_event s id

  -- The two states hold the same events but for one id.
  abbrev pub SameElsewhere : EventId → S → S → Type 0
  SameElsewhere id s s' =
      (other : EventId)
      → other ≢ id
      → db.get_announced_event s' other ≡ db.get_announced_event s other

  abbrev pub Inserts : S → AnnouncedEvent C T → S → Type 0
  Inserts s e s' =
      (db.get_announced_event s e.event.id ≡ ok none)
      × (db.get_announced_event s' e.event.id ≡ ok (some e))
      × SameElsewhere e.event.id s s'

  abbrev pub Completes : S → EventId → Attestation C T → S → Type 0
  Completes s id a s' =
      (e : AnnouncedEvent C T) × (db.get_announced_event s id ≡ ok (some e))
      × (e.attestation ≡ none)
      × (db.get_announced_event s' id ≡ ok (some (record e { attestation = some a })))
      × SameElsewhere id s s'

  -- An event is written at its id, whatever was there.
  abbrev pub Puts : S → AnnouncedEvent C T → S → Type 0
  Puts s e s' = (db.get_announced_event s' e.event.id ≡ ok (some e)) × SameElsewhere e.event.id s s'

  -- The attestation of an event is written, whether it had one or not.
  abbrev pub Overwrites : S → EventId → Attestation C T → S → Type 0
  Overwrites s id a s' =
      (e : AnnouncedEvent C T) × (db.get_announced_event s id ≡ ok (some e))
      × (db.get_announced_event s' id ≡ ok (some (record e { attestation = some a })))
      × SameElsewhere id s s'

  -- Each event is found under its own id.
  abbrev pub HasOwnIds : S → Type 0
  HasOwnIds s =
      (id : EventId) (e : AnnouncedEvent C T)
      → db.get_announced_event s id ≡ ok (some e)
      → e.event.id ≡ id

  pub record IsStore : Type 0 where
    pub insert_event_lem :
        (s : S) (e : AnnouncedEvent C T)
        → SameEvents s (db.insert_event s e).0 ⊎ Puts s e (db.insert_event s e).0
    pub complete_event_lem :
        (s : S) (id : EventId) (a : Attestation C T)
        → SameEvents s (db.complete_event s id a).0 ⊎ Overwrites s id a (db.complete_event s id a).0
    pub set_public_keys_lem : (s : S) (k : _) → SameEvents s (db.set_public_keys s k).0
    pub set_node_lem : (s : S) (n : Node) → SameEvents s (db.set_node s n).0

  pub record IsDb : Type 0 where
    pub insert_event_lem :
        (s : S) (e : AnnouncedEvent C T)
        → ((db.insert_event s e).1 ≡ ok tt) × Inserts s e (db.insert_event s e).0
          ⊎ ((db.insert_event s e).1 ≢ ok tt) × SameEvents s (db.insert_event s e).0
    pub complete_event_lem :
        (s : S) (id : EventId) (a : Attestation C T)
        → ((db.complete_event s id a).1 ≡ ok tt) × Completes s id a (db.complete_event s id a).0
          ⊎ ((db.complete_event s id a).1 ≢ ok tt) × SameEvents s (db.complete_event s id a).0
    pub set_public_keys_lem : (s : S) (k : _) → SameEvents s (db.set_public_keys s k).0
    pub set_node_lem : (s : S) (n : Node) → SameEvents s (db.set_node s n).0

  -- A database that writes at most once is one that writes.
  pub IsDb-IsStore : IsDb → IsStore
  IsDb-IsStore laws = record {
    insert_event_lem = λ s e. elim (laws.insert_event_lem s e) [
      | inl (_, (_, there, elsewhere)) ↦ inr (there, elsewhere)
      | inr (_, keeps) ↦ inl keeps
    ];
    complete_event_lem = λ s id a. elim (laws.complete_event_lem s id a) [
      | inl (_, (e, found, _, after, elsewhere)) ↦ inr (e, found, after, elsewhere)
      | inr (_, keeps) ↦ inl keeps
    ];
    set_public_keys_lem = laws.set_public_keys_lem;
    set_node_lem = laws.set_node_lem;
  }
