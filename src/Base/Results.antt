-- ===== src/Base/Results.antt =====
-- The result of a Rust call: a value, an error, or a panic (`unwrap`, `expect`, `assert!`).
use mathlib.Core.Path.{◌≡◌, refl}
use mathlib.Core.Logic.{◌⊎◌, ◌≢◌, inl, inr}
use mathlib.Core.Option.{Option, none, some}

pub data Result (E A : Type 0) : Type 0 where
  panic : Result E A
  err : E → Result E A
  ok : A → Result E A

-- What follows a call: the `?` operator, where a panic goes the same way as an error.
abbrev pub ◌>>=◌ : {E A B : Type 0} → Result E A → (A → Result E B) → Result E B
panic >>= next = panic
err failure >>= next = err failure
ok value >>= next = next value

abbrev pub ◌>>◌ : {E B : Type 0} → Result E (Unit {0}) → Result E B → Result E B
call >> later = call >>= (λ _. later)

infixl 5 ◌>>=◌ ◌>>◌
-- `Option::expect` and `Option::unwrap`.
abbrev pub expect : {E A : Type 0} → Option A → Result E A
expect none = panic
expect (some a) = ok a

-- `Option::ok_or`.
abbrev pub ok_or : {E A : Type 0} → Option A → E → Result E A
ok_or none e = err e
ok_or (some a) e = ok a

-- `Result::expect` and `Result::unwrap`.
abbrev pub expect_ok : {E F A : Type 0} → Result E A → Result F A
expect_ok (ok a) = ok a
expect_ok (err e) = panic
expect_ok panic = panic

-- `Result::map_err`.
abbrev pub map_err : {E F A : Type 0} → (E → F) → Result E A → Result F A
map_err f (ok a) = ok a
map_err f (err e) = err (f e)
map_err f panic = panic

pub >>=-eq-ok :
    {E A B : Type 0} (call : Result E A) (next : A → Result E B) {result : B}
    → (call >>= next) ≡ ok result
    → (value : A) × (call ≡ ok value) × (next value ≡ ok result)
>>=-eq-ok panic next e = cc
>>=-eq-ok (err failure) next e = cc
>>=-eq-ok (ok value) next e = (value, refl, e)

-- A chain panics where its first step does, or behind a value of it.
pub >>=-eq-panic :
    {E A B : Type 0} (m : Result E A) (f : A → Result E B)
    → (m >>= f) ≡ panic
    → (m ≡ panic) ⊎ ((a : A) × (m ≡ ok a) × (f a ≡ panic))
>>=-eq-panic (ok a) f h = inr (a, refl, h)
>>=-eq-panic (err e) f h = cc
>>=-eq-panic panic f h = inl refl

pub map_err-eq-ok :
    {E F A : Type 0} (f : E → F) (r : Result E A) {a : A} → map_err f r ≡ ok a → r ≡ ok a
map_err-eq-ok f (ok a) h = cc
map_err-eq-ok f (err e) h = cc
map_err-eq-ok f panic h = cc

pub map_err-eq-panic :
    {E F A : Type 0} (f : E → F) (r : Result E A) → map_err f r ≡ panic → r ≡ panic
map_err-eq-panic f (ok a) h = cc
map_err-eq-panic f (err e) h = cc
map_err-eq-panic f panic h = refl

pub ok_or-eq-ok : {E A : Type 0} (o : Option A) (e : E) {a : A} → ok_or o e ≡ ok a → o ≡ some a
ok_or-eq-ok none e h = cc
ok_or-eq-ok (some a) e h = cc

pub ok_or-ne-panic : {E A : Type 0} (o : Option A) (e : E) → ok_or o e ≢ panic
ok_or-ne-panic none e h = cc
ok_or-ne-panic (some a) e h = cc
