-- ===== src/KeyChain/Ecdsa.antt =====
-- The key under which the key chain's ECDSA signatures verify: its announcement key, not the one that
-- it publishes for them.
use olivia.Base.{ℕ, ◌<◌, Text, Option, some, List, ok, ◌≡◌, refl, ap, ◌∙◌}
use olivia.EventId.{n_outcomes}
use olivia.Outcome.{
  Outcome, OutcomeError, outcome_string, try_from_id_and_outcome, attestation_string,
}
use olivia.Outcome.RoundTrip.{outcome_string-round_trip}
use olivia.Event
use olivia.Event.Parse.{from_str_sound}
use olivia.Group.{Group, Blake2b, Chrono}
use olivia.Group.Laws.{IsCorrect}
use olivia.Announcement.{OracleEvent}
use olivia.Attestation
use olivia.Attestation.{read_outcome, known_key, check_ecdsa_v1, verify_ecdsa_v1_attestation}
use olivia.KeyChain.{KeyChain, oracle_public_keys, ecdsa_sign_outcome}

-- On a correct curve, for an event that can be parsed and announces ecdsa-v1: each of its outcomes is
-- written as a text, and the attestation to that text with the key chain's ECDSA signature of the
-- outcome verifies under ecdsa-v1, if the announcement key is taken for the ecdsa-v1 key among the key
-- chain's public keys.
pub ecdsa_sign_outcome-verify :
    {C : Group} {B : Blake2b} {T : Chrono} (kc : KeyChain C B) (e : OracleEvent C T) (o : Outcome)
    (time : T.Time) (n : ℕ) (scalars : Option (List C.AttestScalar))
    → IsCorrect C
    → e.event.id ≡ o.id
    → e.schemes.ecdsa_v1 ≡ some tt
    → Event.from_str o.id ≡ ok o.id
    → n_outcomes {E = OutcomeError} o.id ≡ ok n
    → o.value < n
    → (s : Text) × (outcome_string {E = OutcomeError} o ≡ ok s)
      × (verify_ecdsa_v1_attestation
            (Attestation.new s time
              (record { olivia_v1 = scalars; ecdsa_v1 = some (ecdsa_sign_outcome kc o) }))
            e
            (record (oracle_public_keys kc) {
              ecdsa_v1 = some (C.public_key kc.announcement_keypair);
            })
          ≡ ok tt)
unfolding verify_ecdsa_v1_attestation read_outcome known_key check_ecdsa_v1 oracle_public_keys
    ecdsa_sign_outcome Attestation.new
ecdsa_sign_outcome-verify kc e o time n scalars correct same announced valid count lt =
    let (_, _, h) = from_str_sound o.id o.id valid in
    let (s, written, read) = outcome_string-round_trip o {E = OutcomeError} n h count lt in
    let read' : try_from_id_and_outcome e.event.id s ≡ ok o =
      ap (λ id. try_from_id_and_outcome id s) same ∙ read in
    (
      s,
      written,
      rw (read', verify_ecdsa_v1_attestation)
          (rw (announced, check_ecdsa_v1)
            (rw (correct.ecdsa_correct kc.announcement_keypair (attestation_string o)) refl)),
    )
