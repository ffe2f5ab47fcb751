-- ===== src/Outcome/Indexes.antt =====
-- `attestation_indexes`: the bits of a price, capped to what its digits hold.
use olivia.Base.{
  ℕ, zero, suc, ◌+◌, ◌-◌, ◌*◌, ◌/◌, ◌%◌, ◌^◌, ◌≤◌, ◌<◌, min, ◌≡◌, refl, sym, ap, ◌∙◌, Bool, true,
  ◌&&◌, ◌==◌, ==_iff, List, [], ◌∷◌, length, All, ok, arith,
}
use olivia.Kind
use olivia.Kind.{EventKind, vs_match, single_occurrence, predicate, price, win, win_or_draw}
use olivia.EventId.{event_kind, kind_outcomes}
use olivia.EventId.Valid.{IsEventId, event_kind_lem}
use olivia.Outcome.{Outcome, bits, cap, kind_indexes, attestation_indexes}
use native.Mathlib.Nat.{div-div-eq-div-mul, div-eq_of_lt, pow-suc}
use native.Mathlib.Decide.{ℕ_discrete}

-- The number that binary digits spell, the highest first.
abbrev pub number : List ℕ → ℕ
number [] = 0
number (b ∷ bs) = b * 2 ^ length bs + number bs

pub length-bits : (n v : ℕ) → length (bits n v) ≡ n
unfolding bits
length-bits zero v = refl
length-bits (suc n) v = ap suc (length-bits n v)

bits-binary : (n v : ℕ) → All (λ b. b < 2) (bits n v)
unfolding bits
bits-binary zero v = tt
bits-binary (suc n) v = (omega arith, bits-binary n v)

double_pow : (q p : ℕ) → q % 2 * p + p * 2 * (q / 2) ≡ p * q
double_pow q p =
    let halves : q % 2 + 2 * (q / 2) ≡ q = omega arith in
    omega (arith, ap (λ (t : ℕ). p * t) halves)

-- The bits and what lies above them make the number.
number-bits : (n v : ℕ) → number (bits n v) + 2 ^ n * (v / 2 ^ n) ≡ v
unfolding bits
number-bits zero v = omega arith
number-bits (suc n) v =
    let half : v / 2 ^ suc n ≡ v / 2 ^ n / 2 =
      ap (λ (t : ℕ). v / t) (pow-suc 2 n) ∙ sym (div-div-eq-div-mul v (2 ^ n) 2) in
    rw (length-bits n v, half, pow-suc)
      (omega (arith, number-bits n v, double_pow (v / 2 ^ n) (2 ^ n)))

pow_table : ℕ → Bool
pow_table zero = cap zero == 2 ^ zero - 1
pow_table (suc n) = (cap (suc n) == 2 ^ suc n - 1) && pow_table n

pow_table_64 : pow_table 64 ≡ true
unfolding pow_table cap
pow_table_64 = refl

pow_table_sound : (m n : ℕ) → pow_table m ≡ true → n ≤ m → cap n ≡ 2 ^ n - 1
unfolding pow_table
pow_table_sound zero n h le = let z : n ≡ 0 = omega arith in rw z ((==_iff _ _).0 h)
pow_table_sound (suc m) n h le = elim (ℕ_discrete n (suc m)) [
  | yes e ↦ rw e ((==_iff _ _).0 (ground arith))
  | no e ↦ pow_table_sound m n (ground arith) (omega arith)
]

-- The cap is the largest number that the digits spell.
cap_lem : (n : ℕ) → n ≤ 64 → cap n ≡ 2 ^ n - 1
cap_lem n h = pow_table_sound 64 n pow_table_64 h

number-bits_of_lt : (n v : ℕ) → v < 2 ^ n → number (bits n v) ≡ v
number-bits_of_lt n v h =
    let none_above : v / 2 ^ n ≡ 0 = div-eq_of_lt h in
    omega (arith, number-bits n v, ap (λ (t : ℕ). 2 ^ n * t) none_above)

pow-pos : (n : ℕ) → 0 < 2 ^ n
pow-pos zero = omega arith
pow-pos (suc n) = rw pow-suc (omega (arith, pow-pos n))

-- An oracle attests to a price of at most 64 digits by as many bits as it has digits, and the bits
-- spell the price, or the largest number that they hold.
pub attestation_indexes-price :
    (o : Outcome) (n : ℕ) {E : Type 0}
    → event_kind {E = E} o.id ≡ ok (price n)
    → n ≤ 64
    → (bs : List ℕ) × (attestation_indexes {E = E} o ≡ ok bs)
      × (length bs ≡ n)
      × All (λ b. b < 2) bs
      × (number bs ≡ min o.value (2 ^ n - 1))
unfolding attestation_indexes kind_indexes
attestation_indexes-price o n e le = (
  bits n (min o.value (cap n)),
  rw e (ground arith),
  length-bits n (min o.value (cap n)),
  bits-binary n (min o.value (cap n)),
  rw (cap_lem n le) (number-bits_of_lt n (min o.value (2 ^ n - 1)) (omega (arith, pow-pos n))),
)

weaken : (xs : List ℕ) → All (λ b. b < 2) xs → All (λ b. b < 2 ^ 32) xs
weaken [] h = tt
weaken (x ∷ xs) (p, h) = (omega arith, weaken xs h)

-- An outcome has as many indexes as its event has nonces, and they fit the nonces' 32 bits.
kind_indexes_total :
    (k : EventKind) (v : ℕ)
    → v < kind_outcomes k
    → Kind.n_nonces k ≤ 64
    → (ix : List ℕ) × ((E : Type 0) → kind_indexes {E = E} k v ≡ ok ix)
      × (length ix ≡ Kind.n_nonces k)
      × All (λ b. b < 2 ^ 32) ix
unfolding kind_indexes kind_outcomes Kind.n_nonces
kind_indexes_total (price n) v lt le = (
  bits n (min v (cap n)),
  λ E. ground arith,
  length-bits n (min v (cap n)),
  weaken (bits n (min v (cap n))) (bits-binary n (min v (cap n))),
)
kind_indexes_total (vs_match win) v lt le = (v ∷ [], λ E. ground arith, refl, (omega arith, tt))
kind_indexes_total (vs_match win_or_draw) v lt le =
    (v ∷ [], λ E. ground arith, refl, (omega arith, tt))
kind_indexes_total single_occurrence v lt le = (v ∷ [], λ E. ground arith, refl, (omega arith, tt))
kind_indexes_total (predicate _ _) v lt le = (v ∷ [], λ E. ground arith, refl, (omega arith, tt))

pub attestation_indexes_total :
    (o : Outcome) (h : IsEventId o.id)
    → o.value < kind_outcomes h.kind
    → Kind.n_nonces h.kind ≤ 64
    → (ix : List ℕ) × ((E : Type 0) → attestation_indexes {E = E} o ≡ ok ix)
      × (length ix ≡ Kind.n_nonces h.kind)
      × All (λ b. b < 2 ^ 32) ix
unfolding attestation_indexes
attestation_indexes_total o h lt le =
    let (ix, e, l, small) = kind_indexes_total h.kind o.value lt le in
    (ix, λ E. rw (event_kind_lem h {E = E}, attestation_indexes) (e E), l, small)
