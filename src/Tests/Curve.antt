-- ===== src/Tests/Curve.antt =====
-- A curve on the natural numbers at concrete inputs: a scalar is its own multiple of the generator.
use olivia.Base.{
  ℕ, suc, ◌+◌, ◌*◌, Text, text_eq, text_eq_refl, ◌&&◌, ◌==◌, [], ◌∷◌, map, true, ◌≡◌, ◌↔◌, refl,
  arith,
}
use olivia.Group.Laws.{IsCorrect}
use olivia.Group.Secp256k1.{
  Curve, NonceKeyPair, reveal_attest_scalar, anticipate_attestations, secp256k1,
}
use olivia.Group.Secp256k1.Laws.{IsCurve, secp256k1-IsCorrect, anticipate_attestations-reveal}
use olivia.Predicates.{range}
use olivia.Tests.Toy.{number}
use native.Mathlib.Nat.{add_assoc, add_comm, add-mul, mul_assoc, one-mul, mul-one}

abbrev line : Curve
line = record {
  Scalar = ℕ;
  Point = ℕ;
  XOnly = ℕ;
  KeyPair = ℕ;
  SchnorrSignature = ℕ × Text × Text;
  EcdsaSignature = ℕ × Text;
  scalar_from = λ n. n;
  one = 1;
  scalar_add = λ a b. a + b;
  scalar_mul = λ a b. a * b;
  generator = 1;
  point_add = λ p q. p + q;
  point_mul = λ a p. a * p;
  point_eq = λ p q. p == q;
  to_point = λ x. x;
  xonly_eq = λ a b. a == b;
  nonzero_scalar = λ s. 1 + number s;
  new_keypair = λ s. s;
  secret_key = λ k. k;
  public_key = λ k. k;
  even_scalar = λ s. s;
  even_point = λ s. s;
  even_lem = mul-one;
  schnorr_sign = λ k tag m. (k, tag, m);
  schnorr_verify = λ p tag m s. (p == s.0) && text_eq tag s.1 && text_eq m s.2;
  ecdsa_sign = λ a m. (a, m);
  ecdsa_verify = λ p m s. (p == s.0) && text_eq m s.1;
  sha256 = λ m. m;
}

suc_add : (n : ℕ) → suc n ≡ n + 1
suc_add n = omega arith

zero_mul_add : (p q : ℕ) → 0 * p + q ≡ q
zero_mul_add p q = omega arith

eq_refl : (n : ℕ) → (n == n) ≡ true
eq_refl n = ground arith

eq_iff : (m n : ℕ) → ((m == n) ≡ true) ↔ (m ≡ n)
eq_iff m n = (λ e. ground arith, λ e. ground arith)

line-IsCurve : IsCurve line
line-IsCurve = record {
  add_assoc = add_assoc;
  add_comm = add_comm;
  add_mul = add-mul;
  mul_mul = mul_assoc;
  one_mul = one-mul;
  zero_mul = zero_mul_add;
  from_suc = suc_add;
  point_eq_refl = eq_refl;
  xonly_eq_iff = eq_iff;
  public_key_lem = mul-one;
  schnorr_correct = λ k tag m. ground (arith, text_eq_refl tag, text_eq_refl m);
  ecdsa_correct = λ k m. ground (arith, text_eq_refl m);
}

abbrev nonce : NonceKeyPair line
nonce = record { secret = 5; nonce = 5; paired = refl }

points_computed : anticipate_attestations line 7 5 3 ≡ 12 ∷ 17 ∷ 22 ∷ []
unfolding anticipate_attestations
points_computed = refl

secp256k1-IsCorrect_example : IsCorrect (secp256k1 line)
secp256k1-IsCorrect_example = secp256k1-IsCorrect line line-IsCurve

anticipate_attestations-reveal_example :
    anticipate_attestations line 7 5 3
    ≡ map (λ i. reveal_attest_scalar line 7 nonce i * 1) (range 0 3)
anticipate_attestations-reveal_example = anticipate_attestations-reveal line 7 nonce 3 line-IsCurve
