-- ===== src/KeyChain.antt =====
-- olivia/src/keychain.rs: the oracle's keys and nonces, all derived from one seed, and what it signs
-- with them.
pub mod Attests
pub mod Ecdsa
use olivia.Base.{
  ℕ, zero, suc, ◌%◌, Text, codes, if◌then◌else◌, Option, none, some, List, [], ◌∷◌, map, Result, ok,
  panic, ◌>>=◌,
}
use olivia.EventId.{EventId, n_nonces}
use olivia.Outcome.{Outcome, attestation_indexes, attestation_string}
use olivia.Event.{Event}
use olivia.Group.{Group, Blake2b, Chrono}
use olivia.Announcement.{OracleKeys, AnnouncementSchemes, RawAnnouncement, Json, create}

pub record KeyChain (C : Group) (B : Blake2b) : Type 0 where
  pub announcement_keypair : C.KeyPair
  pub olivia_v1_keypair : C.KeyPair
  pub ecdsa_v1_keypair : C.KeyPair
  pub event_seed : B.Seed

-- `f i ∷ f (i + 1) ∷ …`, of the length given.
unfoldable pub map_from : {A : Type 0} → (ℕ → A) → ℕ → ℕ → List A
map_from f i zero = []
map_from f i (suc n) = f i ∷ map_from f (suc i) n

keypair_from_seed : (C : Group) (B : Blake2b) → B.Seed → Text → C.KeyPair
keypair_from_seed C B seed tag =
    C.keypair_from_secret_bytes (B.keyed_var (B.keyed seed tag) C.key_material_len [])

module _ {C : Group} {B : Blake2b} where
  unfoldable pub new : B.Seed → KeyChain C B
  unfolding keypair_from_seed
  new seed =
      let child = B.keyed seed C.name in
      record {
        announcement_keypair = keypair_from_seed C B child (codes "announcement-key");
        olivia_v1_keypair = keypair_from_seed C B child (codes "olivia-v1-key");
        ecdsa_v1_keypair = keypair_from_seed C B child (codes "ecdsa-v1-key");
        event_seed = B.keyed child (codes "oracle-events");
      }

module _ {C : Group} {B : Blake2b} (kc : KeyChain C B) where
  unfoldable pub oracle_public_keys : OracleKeys C
  oracle_public_keys = record {
    olivia_v1 = some (C.public_key kc.olivia_v1_keypair);
    ecdsa_v1 = some (C.public_key kc.ecdsa_v1_keypair);
    announcement = C.public_key kc.announcement_keypair;
  }

  -- The key pair of one nonce; its number is one byte.
  unfoldable pub nonce_keypair : EventId → ℕ → C.NonceKeyPair
  nonce_keypair id i =
      C.nonce_keypair_from_secret_bytes
        (B.keyed_var (B.keyed kc.event_seed id) C.key_material_len (i % 256 ∷ []))

  unfoldable pub nonces_for_event : {E : Type 0} → EventId → Result E (List C.NonceKeyPair)
  unfolding map_from nonce_keypair
  nonces_for_event id = do n ← n_nonces id; ok (map_from (nonce_keypair id) 0 n)

  module _ {E : Type 0} where
    -- The scalars for a list of indexes whose first has the number given.
    unfoldable pub scalars_from : EventId → ℕ → List ℕ → Result E (List C.AttestScalar)
    unfolding nonce_keypair
    scalars_from id i [] = ok []
    scalars_from id i (index ∷ rest) =
        let later = scalars_from id (suc i) rest in
        let nonce = nonce_keypair id i in
        let scalar = C.reveal_attest_scalar kc.olivia_v1_keypair nonce index in
        if C.verify_attest_scalar (C.public_key kc.olivia_v1_keypair) (C.public_nonce nonce) index
          scalar
        then later >>= (λ scalars. ok (scalar ∷ scalars))
        else panic

    unfoldable pub olivia_v1_scalars_for_event_outcome : Outcome → Result E (List C.AttestScalar)
    unfolding scalars_from
    olivia_v1_scalars_for_event_outcome o = attestation_indexes o >>= scalars_from o.id 0

  -- Without a nonce there is no `olivia_v1` scheme.
  unfoldable pub announced_nonces : List C.PublicNonce → Option (List C.PublicNonce)
  announced_nonces [] = none
  announced_nonces (n ∷ ns) = some (n ∷ ns)

  unfoldable pub announced_schemes : List C.NonceKeyPair → AnnouncementSchemes C
  unfolding announced_nonces
  announced_schemes nonces = record {
    olivia_v1 = announced_nonces (map C.public_nonce nonces);
    ecdsa_v1 = some tt;
  }

  unfoldable pub create_announcement :
      {T : Chrono} → Json C T → {E : Type 0} → Event T.Time → Result E (RawAnnouncement C)
  unfolding nonces_for_event announced_schemes create
  create_announcement J event = do
    nonces ← nonces_for_event event.id
    create J event kc.announcement_keypair (announced_schemes nonces)

  unfoldable pub ecdsa_sign_outcome : Outcome → C.EcdsaSignature
  ecdsa_sign_outcome o = C.ecdsa_sign kc.announcement_keypair (attestation_string o)
