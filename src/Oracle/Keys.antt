-- ===== src/Oracle/Keys.antt =====
-- olivia/src/oracle.rs: the comparison of public keys in `Oracle::new`.
use olivia.Base.{Bool, Bool-cases, true, false, Option, none, some, ◌≡◌, ◌≢◌, refl, ap, inl, inr}
use olivia.Group.{Group}
use olivia.Group.Laws.{IsCorrect}
use olivia.Announcement.{OracleKeys}
use olivia.Oracle.{keys_eq, option_eq}

option_eq_refl :
    {A : Type 0} (eq : A → A → Bool) (o : Option A)
    → ((a : A) → eq a a ≡ true)
    → option_eq eq o o ≡ true
unfolding option_eq
option_eq_refl eq none h = refl
option_eq_refl eq (some a) h = h a

pub keys_eq_refl : {C : Group} (k : OracleKeys C) → IsCorrect C → keys_eq k k ≡ true
unfolding keys_eq
keys_eq_refl {C} k correct =
    let same : (a : C.PublicKey) → C.public_key_eq a a ≡ true =
      λ a. (correct.public_key_eq_iff a a).1 refl in
    rw (option_eq_refl C.public_key_eq k.olivia_v1 same, keys_eq)
      (rw (option_eq_refl C.public_key_eq k.ecdsa_v1 same, keys_eq) (same k.announcement))

option_eq_sound :
    {A : Type 0} (eq : A → A → Bool) (o p : Option A)
    → ((a b : A) → eq a b ≡ true → a ≡ b)
    → option_eq eq o p ≡ true
    → o ≡ p
unfolding option_eq
option_eq_sound eq none none h e = refl
option_eq_sound eq none (some b) h e = absurd (cc)
option_eq_sound eq (some a) none h e = absurd (cc)
option_eq_sound eq (some a) (some b) h e = ap some (h a b e)

same_keys :
    {C : Group} (a a' : Option C.PublicKey) (b b' : Option C.PublicKey) (c c' : C.PublicKey)
    → a ≡ a'
    → b ≡ b'
    → c ≡ c'
    → ◌≡◌ {A = OracleKeys C}
        (record { olivia_v1 = a; ecdsa_v1 = b; announcement = c })
        (record { olivia_v1 = a'; ecdsa_v1 = b'; announcement = c' })
same_keys a a' b b' c c' p q r = cc

keys_eq_sound : {C : Group} (k l : OracleKeys C) → IsCorrect C → keys_eq k l ≡ true → k ≡ l
unfolding keys_eq
keys_eq_sound {C} k l correct e =
    let sound : (a b : C.PublicKey) → C.public_key_eq a b ≡ true → a ≡ b =
      λ a b. (correct.public_key_eq_iff a b).0 in
    elim (Bool-cases (option_eq C.public_key_eq k.olivia_v1 l.olivia_v1)) [
      | inr f ↦ absurd (cc (rw (f, keys_eq) at e))
      | inl p ↦ elim (Bool-cases (option_eq C.public_key_eq k.ecdsa_v1 l.ecdsa_v1)) [
        | inr f ↦ absurd (cc (rw (p, f, keys_eq) at e))
        | inl q ↦
            same_keys k.olivia_v1 l.olivia_v1 k.ecdsa_v1 l.ecdsa_v1 k.announcement l.announcement
              (option_eq_sound C.public_key_eq k.olivia_v1 l.olivia_v1 sound p)
              (option_eq_sound C.public_key_eq k.ecdsa_v1 l.ecdsa_v1 sound q)
              (sound k.announcement l.announcement (rw (p, q, keys_eq) at e))
      ]
    ]

pub keys_eq-other : {C : Group} (k l : OracleKeys C) → IsCorrect C → k ≢ l → keys_eq k l ≡ false
keys_eq-other k l correct differ = elim (Bool-cases (keys_eq k l)) [
  | inl e ↦ absurd (differ (keys_eq_sound k l correct e))
  | inr e ↦ e
]
