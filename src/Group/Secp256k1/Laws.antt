-- ===== src/Group/Secp256k1/Laws.antt =====
-- olivia_secp256k1/src/lib.rs: the curve keeps what the oracle relies on, and what a client
-- anticipates is what the oracle reveals.
use olivia.Base.{ℕ, zero, suc, Text, ◌∷◌, map, true, ◌≡◌, ◌↔◌, refl, sym, ap, ◌∙◌}
use olivia.Group.Laws.{IsCorrect}
use olivia.Group.Secp256k1.{
  Curve, NonceKeyPair, verify_announcement_signature, sign_announcement, reveal_attest_scalar,
  verify_attest_scalar, scan_points, anticipate_attestations, ecdsa_sign, ecdsa_verify, secp256k1,
}
use olivia.Predicates.{range}
use mathlib.Core.Path.{ap₂}

-- What the libraries document: points are a commutative group on which scalars act, a public key is
-- its secret's multiple of the generator, and both signature schemes verify what they signed.
pub record IsCurve (F : Curve) : Type 0 where
  pub add_assoc :
      (p q r : F.Point) → F.point_add (F.point_add p q) r ≡ F.point_add p (F.point_add q r)
  pub add_comm : (p q : F.Point) → F.point_add p q ≡ F.point_add q p
  pub add_mul :
      (a b : F.Scalar) (p : F.Point)
      → F.point_mul (F.scalar_add a b) p ≡ F.point_add (F.point_mul a p) (F.point_mul b p)
  pub mul_mul :
      (a b : F.Scalar) (p : F.Point)
      → F.point_mul (F.scalar_mul a b) p ≡ F.point_mul a (F.point_mul b p)
  pub one_mul : (p : F.Point) → F.point_mul F.one p ≡ p
  pub zero_mul : (p q : F.Point) → F.point_add (F.point_mul (F.scalar_from zero) p) q ≡ q
  pub from_suc : (n : ℕ) → F.scalar_from (suc n) ≡ F.scalar_add (F.scalar_from n) F.one
  pub point_eq_refl : (p : F.Point) → F.point_eq p p ≡ true
  pub xonly_eq_iff : (a b : F.XOnly) → (F.xonly_eq a b ≡ true) ↔ (a ≡ b)
  pub public_key_lem :
      (k : F.KeyPair) → F.point_mul (F.secret_key k) F.generator ≡ F.to_point (F.public_key k)
  pub schnorr_correct :
      (k : F.KeyPair) (tag m : Text)
      → F.schnorr_verify (F.to_point (F.public_key k)) tag m (F.schnorr_sign k tag m) ≡ true
  pub ecdsa_correct :
      (k : F.KeyPair) (m : Text)
      → F.ecdsa_verify (F.to_point (F.public_key k)) m (F.ecdsa_sign (F.secret_key k) m) ≡ true

module _ {F : Curve} (laws : IsCurve F) where
  -- A revealed scalar's multiple of the generator, in terms of the public key and the public nonce.
  reveal_point :
      (k : F.KeyPair) (n : NonceKeyPair F) (i : ℕ)
      → F.point_mul (reveal_attest_scalar F k n i) F.generator
        ≡ F.point_add
            (F.point_mul (F.scalar_add (F.scalar_from i) F.one) (F.to_point n.nonce))
            (F.to_point (F.public_key k))
  unfolding reveal_attest_scalar
  reveal_point k n i =
      let c = F.scalar_add (F.scalar_from i) F.one in
      laws.add_mul (F.scalar_mul c n.secret) (F.secret_key k) F.generator
      ∙ ap₂ F.point_add (laws.mul_mul c n.secret F.generator ∙ ap (F.point_mul c) n.paired)
          (laws.public_key_lem k)

  -- The point that the scan has reached before an index.
  reached : F.Point → F.Point → ℕ → F.Point
  reached x r i = F.point_add (F.point_mul (F.scalar_from i) r) x

  reached-suc : (x r : F.Point) (i : ℕ) → F.point_add (reached x r i) r ≡ reached x r (suc i)
  unfolding reached
  reached-suc x r i =
      laws.add_assoc (F.point_mul (F.scalar_from i) r) x r
      ∙ ap (F.point_add (F.point_mul (F.scalar_from i) r)) (laws.add_comm x r)
      ∙ sym (laws.add_assoc (F.point_mul (F.scalar_from i) r) r x)
      ∙ ap (λ q. F.point_add q x)
          (ap (F.point_add (F.point_mul (F.scalar_from i) r)) (sym (laws.one_mul r))
            ∙ sym (laws.add_mul (F.scalar_from i) F.one r)
            ∙ ap (λ s. F.point_mul s r) (sym (laws.from_suc i)))

  reveal-reached :
      (k : F.KeyPair) (n : NonceKeyPair F) (i : ℕ)
      → reached (F.to_point (F.public_key k)) (F.to_point n.nonce) (suc i)
        ≡ F.point_mul (reveal_attest_scalar F k n i) F.generator
  unfolding reached
  reveal-reached k n i =
      ap (λ s. F.point_add (F.point_mul s (F.to_point n.nonce)) (F.to_point (F.public_key k)))
        (laws.from_suc i)
      ∙ sym (reveal_point k n i)

  scan-reveal :
      (k : F.KeyPair) (n : NonceKeyPair F) (i m : ℕ)
      → scan_points F
          (reached (F.to_point (F.public_key k)) (F.to_point n.nonce) i)
          (F.to_point n.nonce)
          m
        ≡ map (λ j. F.point_mul (reveal_attest_scalar F k n j) F.generator) (range i m)
  unfolding scan_points range
  scan-reveal k n i zero = refl
  scan-reveal k n i (suc m) =
      let x = F.to_point (F.public_key k) in
      let r = F.to_point n.nonce in
      ap (λ p. p ∷ scan_points F p r m) (reached-suc x r i)
      ∙ ap₂ ◌∷◌ (reveal-reached k n i) (scan-reveal k n (suc i) m)

-- If the libraries keep their laws, the curve keeps those that the oracle relies on: revealed scalars
-- and signatures verify, and public keys are compared correctly.
pub secp256k1-IsCorrect : (F : Curve) → IsCurve F → IsCorrect (secp256k1 F)
unfolding secp256k1 verify_attest_scalar verify_announcement_signature sign_announcement ecdsa_sign
    ecdsa_verify
secp256k1-IsCorrect F laws = record {
  attest_correct = λ k n i.
      ap
        (λ p. F.point_eq p (
          F.point_add (F.point_mul (F.scalar_add (F.scalar_from i) F.one) (F.to_point n.nonce))
            (F.to_point (F.public_key k))))
        (reveal_point laws k n i)
      ∙ laws.point_eq_refl _;
  announcement_correct = λ k m. laws.schnorr_correct k _ m;
  ecdsa_correct = λ k m. laws.ecdsa_correct k (F.sha256 m);
  public_key_eq_iff = laws.xonly_eq_iff;
}

-- If the libraries keep their laws, the points that a client anticipates from the public key and the public
-- nonce are, for the indexes from zero on and in their order, the multiples of the generator by the
-- scalars that the oracle reveals.
pub anticipate_attestations-reveal :
    (F : Curve) (k : F.KeyPair) (n : NonceKeyPair F) (m : ℕ)
    → IsCurve F
    → anticipate_attestations F (F.public_key k) n.nonce m
      ≡ map (λ i. F.point_mul (reveal_attest_scalar F k n i) F.generator) (range 0 m)
unfolding anticipate_attestations reached
anticipate_attestations-reveal F k n m laws =
    ap (λ p. scan_points F p (F.to_point n.nonce) m)
      (sym (laws.zero_mul (F.to_point n.nonce) (F.to_point (F.public_key k))))
    ∙ scan-reveal laws k n 0 m
