-- ===== src/Announcement.antt =====
-- olivia_core/src/announcement.rs and olivia_core/src/oracle_info.rs: what an oracle announces of an
-- event, how it is encoded and signed, and how a reader verifies it.
pub mod Verify
use olivia.Base.{
  ℕ, Text, codes, text_eq, Bool, true, false, not, ◌&&◌, if◌then◌else◌, ltb, ◌==◌, Option, none,
  some, List, [], ◌∷◌, length, get_elem?, Result, ok, err, panic, ◌>>=◌, expect, ◌≡◌,
}
use olivia.EventId.{
  EventId, Descriptor, enum, digit_decomposition, missing_descriptor, descriptor, n_nonces,
  n_outcomes_for_nonce,
}
use olivia.Event
use olivia.Event.{Event, EventIdError}
use olivia.Group.{Group, Chrono}

texts_eq : List Text → List Text → Bool
texts_eq [] [] = true
texts_eq (s ∷ ss) (t ∷ ts) = text_eq s t && texts_eq ss ts
texts_eq _ _ = false

bool_eq : Bool → Bool → Bool
bool_eq true b = b
bool_eq false b = not b

unit_eq : Option Text → Option Text → Bool
unit_eq none none = true
unit_eq (some s) (some t) = text_eq s t
unit_eq _ _ = false

-- The derived `PartialEq`.
unfoldable pub descriptor_eq : Descriptor → Descriptor → Bool
unfolding texts_eq bool_eq unit_eq
descriptor_eq (enum ss) (enum ts) = texts_eq ss ts
descriptor_eq (digit_decomposition a m u) (digit_decomposition b n w) =
    bool_eq a b && (m == n) && unit_eq u w
descriptor_eq missing_descriptor missing_descriptor = true
descriptor_eq _ _ = false

-- `EcdsaV1 {}` has no content.
pub record AnnouncementSchemes (C : Group) : Type 0 where
  pub olivia_v1 : Option (List C.PublicNonce)
  pub ecdsa_v1 : Option (Unit {0})

pub record OracleEvent (C : Group) (T : Chrono) : Type 0 where
  pub event : Event T.Time
  pub schemes : AnnouncementSchemes C

pub record OracleEventWithDescriptor (C : Group) (T : Chrono) : Type 0 where
  pub id : EventId
  pub expected_outcome_time : Option T.Time
  pub descriptor : Descriptor
  pub schemes : AnnouncementSchemes C

-- A raw event is its JSON text.
pub record RawAnnouncement (C : Group) : Type 0 where
  pub oracle_event : Text
  pub signature : C.Signature

pub record OracleKeys (C : Group) : Type 0 where
  pub olivia_v1 : Option C.PublicKey
  pub ecdsa_v1 : Option C.PublicKey
  pub announcement : C.PublicKey

-- serde_json, at the one type that the program encodes and decodes.
pub record Json (C : Group) (T : Chrono) : Type 0 where
  pub to_string : OracleEventWithDescriptor C T → Text
  pub from_str : Text → Option (OracleEventWithDescriptor C T)

-- What is written is read back, where the id can be read and the descriptor is the id's.
abbrev pub IsFaithful : {C : Group} {T : Chrono} → Json C T → Type 0
IsFaithful {C} {T} J =
    (w : OracleEventWithDescriptor C T)
    → Event.from_str w.id ≡ ok w.id
    → descriptor {E = Text} w.id ≡ ok w.descriptor
    → J.from_str (J.to_string w) ≡ some w

enough_nonces : {A : Type 0} → Option (List A) → ℕ → Bool
enough_nonces none n = true
enough_nonces (some nonces) n = not (ltb (length nonces) n)

-- The nonces are counted only if there are any.
needed_nonces : {A : Type 0} → Option (List A) → EventId → Result Text ℕ
needed_nonces none id = ok 0
needed_nonces (some nonces) id = n_nonces id

module _ {C : Group} {T : Chrono} where
  checked_descriptor : OracleEventWithDescriptor C T → Descriptor → Result Text (OracleEvent C T)
  unfolding descriptor_eq
  checked_descriptor w d =
      if descriptor_eq d w.descriptor
      then ok (record {
        event = record { id = w.id; expected_outcome_time = w.expected_outcome_time };
        schemes = w.schemes;
      })
      else err (codes "descriptor doesn't match event id")

  -- `TryFrom<OracleEventWithDescriptor>`.
  unfoldable pub from_wire : OracleEventWithDescriptor C T → Result Text (OracleEvent C T)
  unfolding needed_nonces enough_nonces checked_descriptor
  from_wire w = do
    n ← needed_nonces w.schemes.olivia_v1 w.id
    if enough_nonces w.schemes.olivia_v1 n
        then descriptor w.id >>= checked_descriptor w
        else err (codes "oracle event doesn't have enough nonces for descriptor")

  -- `From<OracleEvent>`.
  unfoldable pub to_wire : {E : Type 0} → OracleEvent C T → Result E (OracleEventWithDescriptor C T)
  to_wire e = do
    d ← descriptor e.event.id
    ok (record {
      id = e.event.id;
      expected_outcome_time = e.event.expected_outcome_time;
      descriptor = d;
      schemes = e.schemes;
    })

  unfoldable pub anticipate_attestations_olivia_v1 :
      {E : Type 0}
      → OracleEvent C T
      → C.PublicKey
      → ℕ
      → Result E (Option (List C.AnticipatedAttestation))
  anticipate_attestations_olivia_v1 e key nonce_index = elim e.schemes.olivia_v1 [
    | none ↦ ok none
    | some nonces ↦ do
      nonce ← expect (get_elem? nonces nonce_index)
      n ← n_outcomes_for_nonce e.event.id nonce_index
      ok (some (C.anticipate_attestations key nonce n))
  ]

-- The id must be the one that was asked for.
same_id : {C : Group} {T : Chrono} → EventId → Option (OracleEvent C T) → Option (OracleEvent C T)
same_id id none = none
same_id id (some e) = if text_eq e.event.id id then some e else none

module _ {C : Group} {T : Chrono} (J : Json C T) {E : Type 0} where
  unfoldable pub encode_json : OracleEvent C T → Result E Text
  unfolding to_wire
  encode_json e = do w ← to_wire e; ok (J.to_string w)

  -- `Result::ok`.
  found : Result Text (OracleEvent C T) → Result E (Option (OracleEvent C T))
  found (ok e) = ok (some e)
  found (err _) = ok none
  found panic = panic

  unfoldable pub decode : Text → Result E (Option (OracleEvent C T))
  unfolding found from_wire
  decode s = elim (J.from_str s) [ none ↦ ok none | some w ↦ found (from_wire w) ]

  unfoldable pub create :
      Event T.Time → C.KeyPair → AnnouncementSchemes C → Result E (RawAnnouncement C)
  unfolding encode_json
  create event keypair schemes = do
    raw ← encode_json (record { event = event; schemes = schemes })
    ok (record { oracle_event = raw; signature = C.sign_announcement keypair raw })

  unfoldable pub verify_against_id :
      RawAnnouncement C → EventId → C.PublicKey → Result E (Option (OracleEvent C T))
  unfolding decode same_id
  verify_against_id a id key =
      if C.verify_announcement_signature key a.oracle_event a.signature
      then decode a.oracle_event >>= (λ e. ok (same_id id e))
      else ok none
