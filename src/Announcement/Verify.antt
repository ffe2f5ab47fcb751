-- ===== src/Announcement/Verify.antt =====
-- An announcement that was created verifies against its event's id.
use olivia.Base.{
  ℕ, Text, text_eq_refl, true, false, ◌≤◌, ◌≡◌, refl, Option, none, some, List, [], ◌∷◌, length, ok,
  arith,
}
use olivia.Kind
use olivia.Kind.{EventKind, vs_match, single_occurrence, predicate, price, win, win_or_draw}
use olivia.EventId.{
  EventId, Descriptor, enum, digit_decomposition, missing_descriptor, descriptor, n_nonces,
}
use olivia.EventId.Valid.{descriptor_total, IsEventId, n_nonces_lem}
use olivia.Event
use olivia.Event.{Event, EventIdError}
use olivia.Event.Parse.{from_str_sound}
use olivia.Group.{Group, Chrono}
use olivia.Group.Laws.{IsCorrect}
use olivia.Announcement.{
  descriptor_eq, texts_eq, AnnouncementSchemes, OracleEvent, OracleEventWithDescriptor,
  RawAnnouncement, Json, IsFaithful, needed_nonces, enough_nonces, checked_descriptor, from_wire,
  encode_json, found, decode, create, same_id, verify_against_id,
}

texts_eq_refl : (ss : List Text) → texts_eq ss ss ≡ true
unfolding texts_eq
texts_eq_refl [] = refl
texts_eq_refl (s ∷ ss) = ground (arith, text_eq_refl s, texts_eq_refl ss)

descriptor_eq_refl : (d : Descriptor) → descriptor_eq d d ≡ true
unfolding descriptor_eq
descriptor_eq_refl (enum ss) = texts_eq_refl ss
descriptor_eq_refl (digit_decomposition true n none) = ground arith
descriptor_eq_refl (digit_decomposition true n (some u)) = ground (arith, text_eq_refl u)
descriptor_eq_refl (digit_decomposition false n none) = ground arith
descriptor_eq_refl (digit_decomposition false n (some u)) = ground (arith, text_eq_refl u)
descriptor_eq_refl missing_descriptor = refl

-- The nonces, if there are any, are as many as the event needs.
abbrev pub HasNonces : {A : Type 0} → Option (List A) → ℕ → Type 0
HasNonces none n = Unit
HasNonces (some nonces) n = n ≤ length nonces

needed_nonces-enough :
    {A : Type 0} (o : Option (List A)) (id : EventId) (n : ℕ)
    → n_nonces {E = Text} id ≡ ok n
    → HasNonces o n
    → (m : ℕ) × (needed_nonces o id ≡ ok m) × (enough_nonces o m ≡ true)
unfolding needed_nonces enough_nonces
needed_nonces-enough none id n e h = (0, refl, refl)
needed_nonces-enough (some nonces) id n e h = (n, e, ground arith)

module _ {C : Group} {T : Chrono} (event : Event T.Time) (schemes : AnnouncementSchemes C)
    (h : IsEventId event.id) (enough : HasNonces schemes.olivia_v1 (Kind.n_nonces h.kind)) where
  abbrev wire : Descriptor → OracleEventWithDescriptor C T
  wire d = record {
    id = event.id;
    expected_outcome_time = event.expected_outcome_time;
    descriptor = d;
    schemes = schemes;
  }

  abbrev announced : OracleEvent C T
  announced = record { event = event; schemes = schemes }

  checked : (d : Descriptor) → checked_descriptor (wire d) d ≡ ok announced
  unfolding checked_descriptor
  checked d = rw (descriptor_eq_refl d)

  from_wire-wire :
      (d : Descriptor)
      → ((E : Type 0) → descriptor {E = E} event.id ≡ ok d)
      → from_wire (wire d) ≡ ok announced
  unfolding from_wire
  from_wire-wire d e =
      let (m, needed, right) =
        needed_nonces-enough schemes.olivia_v1 event.id (Kind.n_nonces h.kind)
          (n_nonces_lem h {E = Text}) enough in
      rw (needed, from_wire) (rw (right, from_wire) (rw (e Text, from_wire) (checked d)))

  module _ (J : Json C T) (faithful : IsFaithful J)
      (valid : Event.from_str event.id ≡ ok event.id) where
    -- Decoding what was encoded.
    decode-encode_json :
        (s : Text) × ((E : Type 0) → encode_json J {E = E} announced ≡ ok s)
        × ((E : Type 0) → decode J {E = E} s ≡ ok (some announced))
    unfolding encode_json decode found
    decode-encode_json =
        let (d, e) = descriptor_total h in
        (
          J.to_string (wire d),
          λ E. rw (e E) refl,
          λ E. rw (faithful (wire d) valid (e Text), decode) (rw (from_wire-wire d e, found) refl),
        )

    pub create_total :
        (key : C.KeyPair)
        → IsCorrect C
        → (a : RawAnnouncement C) × ((E : Type 0) → create J {E = E} event key schemes ≡ ok a)
          × ((E : Type 0)
              → verify_against_id J {E = E} a event.id (C.public_key key) ≡ ok (some announced))
    unfolding create verify_against_id same_id
    create_total key correct =
        let (s, encoded, decoded) = decode-encode_json in
        (
          record { oracle_event = s; signature = C.sign_announcement key s },
          λ E. rw (encoded E, create) refl,
          λ E.
              rw (correct.announcement_correct key s, verify_against_id)
                (rw (decoded E, verify_against_id) (rw (text_eq_refl event.id) refl)),
        )

-- On a correct curve with a faithful encoding, and for an id that can be parsed: an announcement is
-- created with any key, verifies under it against the id of its event and gives the event and the
-- schemes back, if it has no nonces or at least as many as the event needs.
pub verify_against_id-create :
    {C : Group} {T : Chrono} (J : Json C T) (E : Type 0) (event : Event T.Time) (key : C.KeyPair)
    (schemes : AnnouncementSchemes C) (n : ℕ)
    → IsCorrect C
    → IsFaithful J
    → Event.from_str event.id ≡ ok event.id
    → n_nonces {E = E} event.id ≡ ok n
    → HasNonces schemes.olivia_v1 n
    → (a : RawAnnouncement C) × (create J {E = E} event key schemes ≡ ok a)
      × (verify_against_id J {E = E} a event.id (C.public_key key)
          ≡ ok (some (record { event = event; schemes = schemes })))
verify_against_id-create {C} J E event key schemes n correct faithful valid count enough =
    let (_, _, h) = from_str_sound event.id event.id valid in
    let same : Kind.n_nonces h.kind ≡ n = cc (n_nonces_lem h {E = E}) in
    let (a, created, verified) =
      create_total event schemes h (rw same enough) J faithful valid key correct in
    (a, created E, verified E)
