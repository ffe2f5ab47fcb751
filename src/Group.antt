-- ===== src/Group.antt =====
-- olivia_core/src/group.rs: the operations that a curve gives, and the parts of the standard and
-- third-party libraries that the oracle calls (chrono, blake2, serde_json), as interfaces.
pub mod Laws
pub mod Secp256k1
use olivia.Base.{ℕ, Text, Bool, true, false, Option, some, none, List, ◌≡◌, Result, ok}

-- `Group`; the tests' instances are left out. A conversion `Into` is a function.
pub record Group : Type 1 where
  pub AttestScalar : Type 0
  pub PublicKey : Type 0
  pub PublicNonce : Type 0
  pub Signature : Type 0
  pub AnticipatedAttestation : Type 0
  pub NonceKeyPair : Type 0
  pub KeyPair : Type 0
  pub EcdsaSignature : Type 0
  pub name : Text
  pub key_material_len : ℕ
  pub public_key : KeyPair → PublicKey
  pub public_nonce : NonceKeyPair → PublicNonce
  pub public_key_eq : PublicKey → PublicKey → Bool
  pub reveal_attest_scalar : KeyPair → NonceKeyPair → ℕ → AttestScalar
  pub verify_attest_scalar : PublicKey → PublicNonce → ℕ → AttestScalar → Bool
  pub verify_announcement_signature : PublicKey → Text → Signature → Bool
  pub anticipate_attestations : PublicKey → PublicNonce → ℕ → List AnticipatedAttestation
  pub sign_announcement : KeyPair → Text → Signature
  pub keypair_from_secret_bytes : Text → KeyPair
  pub nonce_keypair_from_secret_bytes : Text → NonceKeyPair
  pub ecdsa_sign : KeyPair → Text → EcdsaSignature
  pub ecdsa_verify : PublicKey → Text → EcdsaSignature → Bool

-- blake2: a keyed hash of any length over what it is fed, and the fixed one of `Seed::child`.
pub record Blake2b : Type 1 where
  pub Seed : Type 0
  -- `to_blake2b().chain(tag).finalize()`
  pub keyed : Seed → Text → Seed
  -- `to_blake2b_var(len)` fed with a text and finalised
  pub keyed_var : Seed → ℕ → Text → Text

-- chrono: `NaiveDateTime`, its order, and `with_nanosecond(0)`.
pub record Chrono : Type 1 where
  pub Time : Type 0
  pub leb : Time → Time → Bool
  pub whole_seconds : Time → Time
