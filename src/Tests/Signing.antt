-- ===== src/Tests/Signing.antt =====
-- Announcements and attestations at concrete inputs, on the toy curve.
use olivia.Base.{ℕ, Text, codes, text_eq, ◌≡◌, refl, List, [], ◌∷◌, none, some, ok, err, arith}
use olivia.Base.Slices.{rsplit_once, split_once, split}
use olivia.Base.Decimal.{parse_uint}
use olivia.Path
use olivia.Kind
use olivia.EventId.{EventId, event_kind, n_outcomes, n_nonces}
use olivia.Outcome.{Outcome, OutcomeError, outcome_string, try_from_id_and_outcome}
use olivia.Event
use olivia.Event.{Event}
use olivia.Announcement.{
  AnnouncementSchemes, OracleEvent, RawAnnouncement, create, verify_against_id,
}
use olivia.Announcement.Verify.{verify_against_id-create}
use olivia.Attestation
use olivia.Attestation.{
  Attestation, ecdsa_v1, verify_olivia_v1_attestation, verify_ecdsa_v1_attestation,
}
use olivia.KeyChain.{
  KeyChain, oracle_public_keys, create_announcement, olivia_v1_scalars_for_event_outcome,
  ecdsa_sign_outcome,
}
use olivia.KeyChain.Attests.{create_announcement-attests}
use olivia.KeyChain.Ecdsa.{ecdsa_sign_outcome-verify}
use olivia.Db.{AnnouncedEvent}
use olivia.Db.InMemory.{InMemory, find, in_memory}
use olivia.Db.Laws.{IsDb}
use olivia.Db.InMemory.Laws.{in_memory-IsDb}
use olivia.Oracle.{add_event, complete_event}
use olivia.Oracle.Lifecycle.{add_event-complete_event}
use olivia.Tests.Toy.{
  toy_group, toy_hash, toy_clock, toy_json, toy_group-IsCorrect, toy_json-IsFaithful,
}
use mathlib.Core.Option

abbrev pub price_2 : EventId
price_2 = codes "/foo/bar.price?n=2"

abbrev pub event : Event ℕ
event = record { id = price_2; expected_outcome_time = some 7 }

abbrev pub price_is_3 : Outcome
price_is_3 = record { id = price_2; value = 3 }

-- A key chain with a key of its own for each purpose.
abbrev pub keys : KeyChain toy_group toy_hash
keys = record {
  announcement_keypair = codes "a";
  olivia_v1_keypair = codes "o";
  ecdsa_v1_keypair = codes "e";
  event_seed = codes "s";
}

pub read_2 : Event.from_str price_2 ≡ ok price_2
unfolding Event.from_str Path.last Path.from_str Path.strip_event rsplit_once split_once
    Kind.from_str text_eq split parse_uint
read_2 = refl

pub outcomes_2 : {E : Type 0} → n_outcomes {E = E} price_2 ≡ ok 18446744073709551615
unfolding n_outcomes event_kind Path.strip_event rsplit_once split_once Kind.from_str text_eq split
    parse_uint
outcomes_2 = refl

pub nonces_2 : {E : Type 0} → n_nonces {E = E} price_2 ≡ ok 2
unfolding n_nonces event_kind Path.strip_event rsplit_once split_once Kind.from_str text_eq split
    parse_uint
nonces_2 = refl

pub price_read_3 : try_from_id_and_outcome price_2 (codes "3") ≡ ok price_is_3
unfolding try_from_id_and_outcome event_kind Path.strip_event rsplit_once split_once Kind.from_str
    text_eq split parse_uint
price_read_3 = refl

abbrev schemes : AnnouncementSchemes toy_group
schemes = record { olivia_v1 = some (5 ∷ 8 ∷ []); ecdsa_v1 = some tt }

verify_against_id-create_example :
    (a : RawAnnouncement toy_group) × (create toy_json {E = Text} event (codes "a") schemes ≡ ok a)
    × (verify_against_id toy_json {E = Text} a price_2 (codes "a")
        ≡ ok (some (record { event = event; schemes = schemes })))
verify_against_id-create_example =
    verify_against_id-create toy_json Text event (codes "a") schemes 2 toy_group-IsCorrect
      toy_json-IsFaithful read_2 nonces_2 (omega arith)

create_announcement-attests_example :
    (a : RawAnnouncement toy_group) × (e : OracleEvent toy_group toy_clock) × (s : Text)
    × (ss : List (Text × ℕ × ℕ)) × (create_announcement keys toy_json {E = Text} event ≡ ok a)
    × (verify_against_id toy_json {E = Text} a price_2 (codes "a") ≡ ok (some e))
    × (outcome_string {E = Text} price_is_3 ≡ ok s)
    × (olivia_v1_scalars_for_event_outcome keys {E = Text} price_is_3 ≡ ok ss)
    × (verify_olivia_v1_attestation
          (Attestation.new s 9
            (record { olivia_v1 = Option.map (λ _. ss) e.schemes.olivia_v1; ecdsa_v1 = none }))
          e
          (oracle_public_keys keys)
        ≡ ok tt)
create_announcement-attests_example =
    create_announcement-attests keys toy_json Text price_is_3 (some 7) 9 none 18446744073709551615 2
      toy_group-IsCorrect toy_json-IsFaithful read_2 outcomes_2 (omega arith) nonces_2 (omega arith)

abbrev pub signed : Attestation toy_group toy_clock
signed = record {
  outcome = codes "3";
  schemes = record { olivia_v1 = none; ecdsa_v1 = some (ecdsa_sign_outcome keys price_is_3) };
  time = 9;
}

ecdsa_sign_outcome-verify_example :
    (s : Text) × (outcome_string {E = OutcomeError} price_is_3 ≡ ok s)
    × (verify_ecdsa_v1_attestation {T = toy_clock}
          (Attestation.new s 9
            (record { olivia_v1 = none; ecdsa_v1 = some (ecdsa_sign_outcome keys price_is_3) }))
          (record { event = event; schemes = schemes })
          (record (oracle_public_keys keys) { ecdsa_v1 = some (codes "a") })
        ≡ ok tt)
ecdsa_sign_outcome-verify_example =
    ecdsa_sign_outcome-verify keys (record { event = event; schemes = schemes }) price_is_3 9
      18446744073709551615 none toy_group-IsCorrect refl refl read_2 outcomes_2 (omega arith)

-- Under the public keys as they are published it does not.
published_refuse :
    verify_ecdsa_v1_attestation signed
      (record { event = event; schemes = schemes })
      (oracle_public_keys keys)
    ≡ err ecdsa_v1
unfolding verify_ecdsa_v1_attestation oracle_public_keys text_eq ecdsa_sign_outcome
published_refuse = rw (price_read_3, verify_ecdsa_v1_attestation) refl

abbrev pub nothing_stored : InMemory toy_group toy_clock
nothing_stored = record { public_keys = none; inner = []; node_kinds = [] }

nothing_found : find price_2 nothing_stored.inner ≡ none
unfolding find
nothing_found = refl

add_event-complete_event_example :
    (s₁ : InMemory toy_group toy_clock) × (s₂ : InMemory toy_group toy_clock)
    × (ann : AnnouncedEvent toy_group toy_clock) × (att : Attestation toy_group toy_clock)
    × (e : OracleEvent toy_group toy_clock) × (add_event in_memory toy_json keys nothing_stored
          event
        ≡ (s₁, ok tt))
    × (complete_event in_memory toy_json keys s₁ (record { outcome = price_is_3; time = 9 })
        ≡ (s₂, ok tt))
    × (find price_2 s₂.inner ≡ some ann)
    × (ann.attestation ≡ some att)
    × (verify_against_id toy_json {E = Text} ann.announcement price_2
          (oracle_public_keys keys).announcement
        ≡ ok (some e))
    × (verify_olivia_v1_attestation att e (oracle_public_keys keys) ≡ ok tt)
add_event-complete_event_example =
    add_event-complete_event keys toy_json nothing_stored price_is_3 (some 7) 9 18446744073709551615
      2 toy_group-IsCorrect toy_json-IsFaithful read_2 outcomes_2 (omega arith) nonces_2
      (omega arith) nothing_found

abbrev pub attested : AnnouncedEvent toy_group toy_clock
attested = record {
  event = event;
  announcement = record { oracle_event = []; signature = ([], []) };
  attestation = some signed;
}

abbrev pub one_stored : InMemory toy_group toy_clock
one_stored = record { public_keys = none; inner = (price_2, attested) ∷ []; node_kinds = [] }

pub one_found : in_memory.get_announced_event one_stored price_2 ≡ ok (some attested)
unfolding in_memory find text_eq
one_found = refl

in_memory-IsDb_example : IsDb {C = toy_group} {T = toy_clock} in_memory
in_memory-IsDb_example = in_memory-IsDb {C = toy_group} {T = toy_clock}
