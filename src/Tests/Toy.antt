-- ===== src/Tests/Toy.antt =====
-- A toy curve, hash, clock and encoding, which satisfy what the theorems rely on: keys are the bytes
-- that they come from, and a signature is what was signed and by whom.
use olivia.Base.{
  ℕ, zero, suc, ◌+◌, ◌*◌, Text, codes, text_eq, text_eq_iff, text_eq_refl, not, ◌&&◌, ltb, ◌==◌,
  Option, none, some, List, [], ◌∷◌, ◌++◌, length, Result, ok, ◌≡◌, refl, arith, true,
}
use olivia.EventId.{EventId, Descriptor, descriptor}
use olivia.Group.{Group, Blake2b, Chrono}
use olivia.Group.Laws.{IsCorrect}
use olivia.Announcement.{OracleEventWithDescriptor, Json, IsFaithful}

unfoldable pub number : Text → ℕ
number [] = 0
number (c ∷ s) = c + 2 * number s

abbrev pub toy_group : Group
toy_group = record {
  AttestScalar = Text × ℕ × ℕ;
  PublicKey = Text;
  PublicNonce = ℕ;
  Signature = Text × Text;
  AnticipatedAttestation = ℕ;
  NonceKeyPair = ℕ;
  KeyPair = Text;
  EcdsaSignature = Text × Text;
  name = codes "toy";
  key_material_len = 64;
  public_key = λ k. k;
  public_nonce = λ n. n;
  public_key_eq = text_eq;
  reveal_attest_scalar = λ k n i. (k, n, i);
  verify_attest_scalar = λ k n i s. text_eq k s.0 && (n == s.1) && (i == s.2);
  verify_announcement_signature = λ k m s. text_eq k s.0 && text_eq m s.1;
  anticipate_attestations = λ k n i. [];
  sign_announcement = λ k m. (k, m);
  keypair_from_secret_bytes = λ b. b;
  nonce_keypair_from_secret_bytes = number;
  ecdsa_sign = λ k m. (k, m);
  ecdsa_verify = λ k m s. text_eq k s.0 && text_eq m s.1;
}

abbrev pub toy_hash : Blake2b
toy_hash = record { Seed = Text; keyed = λ s t. s ++ t; keyed_var = λ s n t. s ++ t }

abbrev pub toy_clock : Chrono
toy_clock = record { Time = ℕ; leb = λ s t. not (ltb t s); whole_seconds = λ t. t }

signed : (k m : Text) → (text_eq k k && text_eq m m) ≡ true
signed k m = ground (arith, text_eq_refl k, text_eq_refl m)

pub toy_group-IsCorrect : IsCorrect toy_group
toy_group-IsCorrect = record {
  attest_correct = λ k n i. ground (arith, text_eq_refl k);
  announcement_correct = signed;
  ecdsa_correct = signed;
  public_key_eq_iff = text_eq_iff;
}

time_code : Option ℕ → ℕ
time_code none = 0
time_code (some t) = suc t

of_time_code : ℕ → Option ℕ
of_time_code zero = none
of_time_code (suc t) = some t

unit_code : Option (Unit {0}) → ℕ
unit_code none = 0
unit_code (some _) = 1

of_unit_code : ℕ → Option (Unit {0})
of_unit_code zero = none
of_unit_code (suc _) = some tt

nonces_code : Option (List ℕ) → Text → Text
nonces_code none id = 0 ∷ id
nonces_code (some ns) id = suc (length ns) ∷ ns ++ id

cut : ℕ → Text → Text × Text
cut zero s = ([], s)
cut (suc n) [] = ([], [])
cut (suc n) (c ∷ s) = let (a, b) = cut n s in (c ∷ a, b)

of_nonces_code : Text → Option (List ℕ) × Text
unfolding cut
of_nonces_code [] = (none, [])
of_nonces_code (zero ∷ id) = (none, id)
of_nonces_code (suc n ∷ s) = let (ns, id) = cut n s in (some ns, id)

cut-append : (ns id : Text) → cut (length ns) (ns ++ id) ≡ (ns, id)
unfolding cut
cut-append [] id = refl
cut-append (n ∷ ns) id = rw (cut-append ns id) refl

of_nonces_code-nonces_code :
    (o : Option (List ℕ)) (id : Text) → of_nonces_code (nonces_code o id) ≡ (o, id)
unfolding of_nonces_code nonces_code
of_nonces_code-nonces_code none id = refl
of_nonces_code-nonces_code (some ns) id = rw (cut-append ns id) refl

of_time_code-time_code : (o : Option ℕ) → of_time_code (time_code o) ≡ o
unfolding of_time_code time_code
of_time_code-time_code none = refl
of_time_code-time_code (some t) = refl

of_unit_code-unit_code : (o : Option (Unit {0})) → of_unit_code (unit_code o) ≡ o
unfolding of_unit_code unit_code
of_unit_code-unit_code none = refl
of_unit_code-unit_code (some _) = refl

abbrev Wire : Type 0
Wire = OracleEventWithDescriptor toy_group toy_clock

with_descriptor : ℕ → ℕ → Option (List ℕ) → EventId → Result Text Descriptor → Option Wire
unfolding of_time_code of_unit_code
with_descriptor t u ns id (ok d) = some (record {
  id = id;
  expected_outcome_time = of_time_code t;
  descriptor = d;
  schemes = record { olivia_v1 = ns; ecdsa_v1 = of_unit_code u };
})
with_descriptor t u ns id _ = none

unfoldable pub read_wire : Text → Option Wire
unfolding with_descriptor of_nonces_code
read_wire (t ∷ u ∷ s) = let (ns, id) = of_nonces_code s in with_descriptor t u ns id (descriptor id)
read_wire _ = none

unfoldable pub write_wire : Wire → Text
unfolding time_code unit_code nonces_code
write_wire w =
    time_code w.expected_outcome_time
    ∷ unit_code w.schemes.ecdsa_v1
    ∷ nonces_code w.schemes.olivia_v1 w.id

abbrev pub toy_json : Json toy_group toy_clock
toy_json = record { to_string = write_wire; from_str = read_wire }

pub toy_json-IsFaithful : IsFaithful toy_json
unfolding write_wire read_wire with_descriptor
toy_json-IsFaithful w valid d = rw (of_nonces_code-nonces_code w.schemes.olivia_v1 w.id) (
    rw (d, with_descriptor)
      (rw
        (of_time_code-time_code w.expected_outcome_time, of_unit_code-unit_code w.schemes.ecdsa_v1)
        refl))
