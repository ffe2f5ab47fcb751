-- ===== src/Attestation.antt =====
-- olivia_core/src/attestation.rs: what an oracle publishes once it knows an outcome, and how a
-- reader verifies it.
use olivia.Base.{
  ℕ, suc, ◌%◌, ◌^◌, Text, if◌then◌else◌, ◌==◌, Option, none, some, List, [], ◌∷◌, length, get_elem?,
  Result, ok, err, panic, ◌>>=◌, expect,
}
use olivia.Outcome.{
  Outcome, OutcomeError, try_from_id_and_outcome, attestation_indexes, attestation_string,
}
use olivia.Group.{Group, Chrono}
use olivia.Announcement.{OracleEvent, OracleKeys}

pub record AttestationSchemes (C : Group) : Type 0 where
  -- the scalars
  pub olivia_v1 : Option (List C.AttestScalar)
  -- the signature
  pub ecdsa_v1 : Option C.EcdsaSignature

pub record Attestation (C : Group) (T : Chrono) : Type 0 where
  pub outcome : Text
  pub schemes : AttestationSchemes C
  pub time : T.Time

pub data AttestationInvalid : Type 0 where
  olivia_v1 ecdsa_v1 invalid_outcome missing missing_key : AttestationInvalid

unfoldable pub new :
    {C : Group} {T : Chrono} → Text → T.Time → AttestationSchemes C → Attestation C T
new {T} outcome time schemes = record {
  outcome = outcome;
  schemes = schemes;
  time = T.whole_seconds time;
}

-- Any error of the outcome is the one error here; a panic stays one.
unfoldable pub read_outcome : Result OutcomeError Outcome → Result AttestationInvalid Outcome
read_outcome (ok o) = ok o
read_outcome (err _) = err invalid_outcome
read_outcome panic = panic

unfoldable pub known_key : {K : Type 0} → Option K → Result AttestationInvalid K
known_key none = err missing_key
known_key (some key) = ok key

module _ (C : Group) where
  -- The loop over the indexes of the outcome, from `frag_index`.
  unfoldable pub check_scalars :
      C.PublicKey
      → List C.PublicNonce
      → List C.AttestScalar
      → List ℕ
      → ℕ
      → Result AttestationInvalid (Unit {0})
  check_scalars key nonces scalars [] frag_index = ok tt
  check_scalars key nonces scalars (index ∷ rest) frag_index =
      let later = check_scalars key nonces scalars rest (suc frag_index) in
      expect (get_elem? nonces frag_index) >>= λ nonce.
      expect (get_elem? scalars frag_index) >>= λ scalar.
      if C.verify_attest_scalar key nonce (index % 2 ^ 32) scalar then later else err olivia_v1

  unfoldable pub check_olivia_v1 :
      C.PublicKey
      → Outcome
      → Option (List C.PublicNonce)
      → Option (List C.AttestScalar)
      → Result AttestationInvalid (Unit {0})
  unfolding check_scalars
  check_olivia_v1 key o (some nonces) (some scalars) =
      if length nonces == length scalars
      then attestation_indexes o >>= (λ indexes. check_scalars key nonces scalars indexes 0)
      else err olivia_v1
  check_olivia_v1 key o (some _) none = err missing
  check_olivia_v1 key o none _ = ok tt

  unfoldable pub check_ecdsa_v1 :
      C.PublicKey
      → Outcome
      → Option (Unit {0})
      → Option C.EcdsaSignature
      → Result AttestationInvalid (Unit {0})
  check_ecdsa_v1 key o (some _) (some signature) =
      if C.ecdsa_verify key (attestation_string o) signature then ok tt else err ecdsa_v1
  check_ecdsa_v1 key o (some _) none = err missing
  check_ecdsa_v1 key o none _ = ok tt

module _ {C : Group} {T : Chrono} where
  unfoldable pub verify_olivia_v1_attestation :
      Attestation C T → OracleEvent C T → OracleKeys C → Result AttestationInvalid (Unit {0})
  unfolding check_olivia_v1 known_key read_outcome
  verify_olivia_v1_attestation a e keys = do
    o ← read_outcome (try_from_id_and_outcome e.event.id a.outcome)
    key ← known_key keys.olivia_v1
    check_olivia_v1 C key o e.schemes.olivia_v1 a.schemes.olivia_v1

  unfoldable pub verify_ecdsa_v1_attestation :
      Attestation C T → OracleEvent C T → OracleKeys C → Result AttestationInvalid (Unit {0})
  unfolding check_ecdsa_v1 known_key read_outcome
  verify_ecdsa_v1_attestation a e keys = do
    o ← read_outcome (try_from_id_and_outcome e.event.id a.outcome)
    key ← known_key keys.ecdsa_v1
    check_ecdsa_v1 C key o e.schemes.ecdsa_v1 a.schemes.ecdsa_v1
