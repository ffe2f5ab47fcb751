-- ===== src/Outcome/Signing.antt =====
-- `attestation_string`: the bytes that an ECDSA attestation signs.
use olivia.Base.{
  ℕ, zero, suc, ◌+◌, ◌*◌, ◌/◌, ◌%◌, ◌^◌, ◌≤◌, ◌≡◌, refl, sym, ap, ◌∙◌, Text, [], ◌∷◌, length,
  append_inj_tail, arith,
}
use olivia.Base.Decimal.{u64_max}
use olivia.Outcome.{Outcome, be_bytes, attestation_string}
use native.Mathlib.Nat.{div-div-eq-div-mul, pow-suc}

length-be_bytes : (n v : ℕ) → length (be_bytes n v) ≡ n
unfolding be_bytes
length-be_bytes zero v = refl
length-be_bytes (suc n) v = ap suc (length-be_bytes n v)

-- The number that bytes spell, the highest first.
be_number : Text → ℕ
be_number [] = 0
be_number (b ∷ bs) = b * 256 ^ length bs + be_number bs

byte_pow : (q p : ℕ) → q % 256 * p + p * 256 * (q / 256) ≡ p * q
byte_pow q p =
    let parts : q % 256 + 256 * (q / 256) ≡ q = omega arith in
    omega (arith, ap (λ (t : ℕ). p * t) parts)

be_number-be_bytes : (n v : ℕ) → be_number (be_bytes n v) + 256 ^ n * (v / 256 ^ n) ≡ v
unfolding be_bytes be_number
be_number-be_bytes zero v = omega arith
be_number-be_bytes (suc n) v =
    let rest : v / 256 ^ suc n ≡ v / 256 ^ n / 256 =
      ap (λ (t : ℕ). v / t) (pow-suc 256 n) ∙ sym (div-div-eq-div-mul v (256 ^ n) 256) in
    rw (length-be_bytes n v, rest, pow-suc)
      (omega (arith, be_number-be_bytes n v, byte_pow (v / 256 ^ n) (256 ^ n)))

be_number_of_u64 : (v : ℕ) → v ≤ u64_max → be_number (be_bytes 8 v) ≡ v
be_number_of_u64 v h = omega (arith, be_number-be_bytes 8 v)

cons_tail : {c : ℕ} {s t : Text} → c ∷ s ≡ c ∷ t → s ≡ t
cons_tail e = cc

-- What is signed tells the event and the value: no two outcomes with 64-bit values have the same
-- bytes.
pub attestation_string-injective :
    (o p : Outcome)
    → o.value ≤ u64_max
    → p.value ≤ u64_max
    → attestation_string o ≡ attestation_string p
    → o ≡ p
unfolding attestation_string
attestation_string-injective o p ho hp e =
    let (same_id, same_bytes) =
      append_inj_tail o.id (b'!' ∷ be_bytes 8 o.value) p.id (b'!' ∷ be_bytes 8 p.value)
        (omega (arith, length-be_bytes 8 o.value, length-be_bytes 8 p.value)) e in
    let same_value : o.value ≡ p.value =
      sym (be_number_of_u64 o.value ho)
      ∙ ap be_number (cons_tail same_bytes)
      ∙ be_number_of_u64 p.value hp in
    λ i. record { id = same_id i; value = same_value i }
