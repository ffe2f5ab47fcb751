-- ===== src/Group/Laws.antt =====
-- What the documentation of the signature schemes promises of each curve.
use olivia.Base.{ℕ, Text, true, ◌≡◌, ◌↔◌}
use olivia.Group.{Group}

pub record IsCorrect (C : Group) : Type 0 where
  -- a scalar revealed for an index verifies for the index
  pub attest_correct :
      (key : C.KeyPair) (nonce : C.NonceKeyPair) (i : ℕ)
      → C.verify_attest_scalar
          (C.public_key key)
          (C.public_nonce nonce)
          i
          (C.reveal_attest_scalar key nonce i)
        ≡ true
  -- a signature verifies
  pub announcement_correct :
      (key : C.KeyPair) (m : Text)
      → C.verify_announcement_signature (C.public_key key) m (C.sign_announcement key m) ≡ true
  pub ecdsa_correct :
      (key : C.KeyPair) (m : Text) → C.ecdsa_verify (C.public_key key) m (C.ecdsa_sign key m) ≡ true
  -- `PartialEq` of public keys is equality
  pub public_key_eq_iff : (a b : C.PublicKey) → (C.public_key_eq a b ≡ true) ↔ (a ≡ b)
