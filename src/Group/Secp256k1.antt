-- ===== src/Group/Secp256k1.antt =====
-- olivia_secp256k1/src/lib.rs: the curve that the oracle runs with, over the libraries secp256kfun,
-- schnorr_fun, ecdsa_fun and sha2.
pub mod Laws
use olivia.Base.{ℕ, zero, suc, Text, codes, Bool, List, [], ◌∷◌, ◌≡◌}
use olivia.Group.{Group}

-- What is called of the libraries. `nonzero_scalar` is `from_slice_mod_order` of a text of 32 bytes
-- with `mark::<NonZero>()`, which the code expects never to fail, as a hash is zero with no chance.
pub record Curve : Type 1 where
  pub Scalar : Type 0
  pub Point : Type 0
  pub XOnly : Type 0
  pub KeyPair : Type 0
  pub SchnorrSignature : Type 0
  pub EcdsaSignature : Type 0
  pub scalar_from : ℕ → Scalar
  pub one : Scalar
  pub scalar_add : Scalar → Scalar → Scalar
  pub scalar_mul : Scalar → Scalar → Scalar
  pub generator : Point
  pub point_add : Point → Point → Point
  pub point_mul : Scalar → Point → Point
  pub point_eq : Point → Point → Bool
  pub to_point : XOnly → Point
  pub xonly_eq : XOnly → XOnly → Bool
  pub nonzero_scalar : Text → Scalar
  pub new_keypair : Scalar → KeyPair
  pub secret_key : KeyPair → Scalar
  pub public_key : KeyPair → XOnly
  -- `XOnly::from_scalar_mul` of the generator: the scalar may change its sign
  pub even_scalar : Scalar → Scalar
  pub even_point : Scalar → XOnly
  pub even_lem : (s : Scalar) → point_mul (even_scalar s) generator ≡ to_point (even_point s)
  pub schnorr_sign : KeyPair → Text → Text → SchnorrSignature
  pub schnorr_verify : Point → Text → Text → SchnorrSignature → Bool
  pub ecdsa_sign : Scalar → Text → EcdsaSignature
  pub ecdsa_verify : Point → Text → EcdsaSignature → Bool
  pub sha256 : Text → Text

module _ (F : Curve) where
  -- The pairs that `from_scalar_mul` makes, the only ones that the code has.
  pub record NonceKeyPair : Type 0 where
    pub secret : F.Scalar
    pub nonce : F.XOnly
    pub paired : F.point_mul secret F.generator ≡ F.to_point nonce

  announcement_tag : Text
  announcement_tag = codes "DLC/announcement"

  unfoldable pub verify_announcement_signature : F.XOnly → Text → F.SchnorrSignature → Bool
  unfolding announcement_tag
  verify_announcement_signature key message sig =
      F.schnorr_verify (F.to_point key) announcement_tag message sig

  unfoldable pub sign_announcement : F.KeyPair → Text → F.SchnorrSignature
  unfolding announcement_tag
  sign_announcement keypair announcement = F.schnorr_sign keypair announcement_tag announcement

  -- `(c + 1) * r + x`.
  unfoldable pub reveal_attest_scalar : F.KeyPair → NonceKeyPair → ℕ → F.Scalar
  reveal_attest_scalar signing_key nonce_key index =
      F.scalar_add (F.scalar_mul (F.scalar_add (F.scalar_from index) F.one) nonce_key.secret)
        (F.secret_key signing_key)

  -- `s * G == (c + 1) * R + X`.
  unfoldable pub verify_attest_scalar : F.XOnly → F.XOnly → ℕ → F.Scalar → Bool
  verify_attest_scalar key nonce index s = F.point_eq (F.point_mul s F.generator) (
      F.point_add (F.point_mul (F.scalar_add (F.scalar_from index) F.one) (F.to_point nonce))
        (F.to_point key))

  -- The `scan`: each point is the last with `R` added.
  unfoldable pub scan_points : F.Point → F.Point → ℕ → List F.Point
  scan_points c r zero = []
  scan_points c r (suc n) = F.point_add c r ∷ scan_points (F.point_add c r) r n

  unfoldable pub anticipate_attestations : F.XOnly → F.XOnly → ℕ → List F.Point
  unfolding scan_points
  anticipate_attestations key nonce n_outcomes =
      scan_points (F.to_point key) (F.to_point nonce) n_outcomes

  unfoldable pub keypair_from_secret_bytes : Text → F.KeyPair
  keypair_from_secret_bytes bytes = F.new_keypair (F.nonzero_scalar bytes)

  unfoldable pub nonce_keypair_from_secret_bytes : Text → NonceKeyPair
  nonce_keypair_from_secret_bytes bytes = record {
    secret = F.even_scalar (F.nonzero_scalar bytes);
    nonce = F.even_point (F.nonzero_scalar bytes);
    paired = F.even_lem (F.nonzero_scalar bytes);
  }

  unfoldable pub ecdsa_sign : F.KeyPair → Text → F.EcdsaSignature
  ecdsa_sign keypair message = F.ecdsa_sign (F.secret_key keypair) (F.sha256 message)

  unfoldable pub ecdsa_verify : F.XOnly → Text → F.EcdsaSignature → Bool
  ecdsa_verify key message sig = F.ecdsa_verify (F.to_point key) (F.sha256 message) sig

  -- `impl Group for Secp256k1`.
  unfoldable pub secp256k1 : Group
  unfolding verify_announcement_signature sign_announcement reveal_attest_scalar
      verify_attest_scalar anticipate_attestations keypair_from_secret_bytes
      nonce_keypair_from_secret_bytes ecdsa_sign ecdsa_verify
  secp256k1 = record {
    AttestScalar = F.Scalar;
    PublicKey = F.XOnly;
    PublicNonce = F.XOnly;
    Signature = F.SchnorrSignature;
    AnticipatedAttestation = F.Point;
    NonceKeyPair = NonceKeyPair;
    KeyPair = F.KeyPair;
    EcdsaSignature = F.EcdsaSignature;
    name = codes "secp256k1";
    key_material_len = 32;
    public_key = F.public_key;
    public_nonce = NonceKeyPair.nonce;
    public_key_eq = F.xonly_eq;
    reveal_attest_scalar = reveal_attest_scalar;
    verify_attest_scalar = verify_attest_scalar;
    verify_announcement_signature = verify_announcement_signature;
    anticipate_attestations = anticipate_attestations;
    sign_announcement = sign_announcement;
    keypair_from_secret_bytes = keypair_from_secret_bytes;
    nonce_keypair_from_secret_bytes = nonce_keypair_from_secret_bytes;
    ecdsa_sign = ecdsa_sign;
    ecdsa_verify = ecdsa_verify;
  }
