-- ===== src/Base/Decimal.antt =====
-- `Display` and `from_str` of Rust's unsigned integers.
use olivia.Base.Tests.{ltb, ◌==◌, if◌then◌else◌, Bool-cases}
use olivia.Base.Lists.{All, All-append}
use olivia.Base.Texts.{Text, Lacks}
use Prim.Native.Nat.{ℕ, zero, suc, ◌+◌, ◌-◌, ◌*◌, ◌/◌, ◌%◌, ◌^◌, ◌≤◌, ◌<◌}
use mathlib.Core.Path.{◌≡◌, refl, ◌∙◌}
use mathlib.Core.Logic.{◌≢◌, inl, inr}
use mathlib.Core.Bool.{true, ◌||◌}
use mathlib.Core.Option.{Option, none, some}
use mathlib.Core.List.{[], ◌∷◌, ◌++◌, cons-ne-nil, concat-ne-nil}
use native.Mathlib.Numerals.{add-one}
use native.Mathlib.Omega.{arith}

abbrev pub u8_max : ℕ
u8_max = 2 ^ 8 - 1

abbrev pub u64_max : ℕ
u64_max = 2 ^ 64 - 1

-- The checked accumulation of `from_str`; `max` is the largest value of the type.
scan : ℕ → ℕ → Text → Option ℕ
scan max n [] = some n
scan max n (c ∷ s) =
    let m = n * 10 + (c - b'0') in
    if ltb c b'0' || ltb b'9' c then none else if ltb max m then none else scan max m s

-- `from_str`: one or more digits, behind an optional plus sign.
unfoldable pub parse_uint : ℕ → Text → Option ℕ
unfolding scan
parse_uint max [] = none
parse_uint max (c ∷ []) = scan max 0 (c ∷ [])
parse_uint max (c ∷ d ∷ s) = if c == b'+' then scan max 0 (d ∷ s) else scan max 0 (c ∷ d ∷ s)

-- The decimal digits of a number; a number has no more digits than its value and one.
digits : ℕ → ℕ → Text
digits zero n = []
digits (suc f) n =
    let more = digits f (n / 10) ++ (b'0' + n % 10) ∷ [] in
    if ltb n 10 then (b'0' + n) ∷ [] else more

-- `Display`.
unfoldable pub show_uint : ℕ → Text
unfolding digits
show_uint n = digits (n + 1) n

abbrev pub IsDigit : ℕ → Type 0
IsDigit c = (b'0' ≤ c) × (c ≤ b'9')

digits-IsDigit : (f n : ℕ) → All IsDigit (digits f n)
unfolding digits
digits-IsDigit zero n = tt
digits-IsDigit (suc f) n = elim (Bool-cases (ltb n 10)) [
  | inl e ↦ rw e ((omega arith, ground arith), tt)
  | inr e ↦ rw e (
      All-append IsDigit (digits f (n / 10)) _ (digits-IsDigit f (n / 10))
        ((omega arith, omega arith), tt))
]

pub show_uint-IsDigit : (n : ℕ) → All IsDigit (show_uint n)
unfolding show_uint
show_uint-IsDigit n = digits-IsDigit (n + 1) n

Lacks-of_digits : (c : ℕ) (s : Text) → ltb c b'0' || ltb b'9' c ≡ true → All IsDigit s → Lacks c s
Lacks-of_digits c [] h _ = tt
Lacks-of_digits c (x ∷ s) h (p, q) = (ground arith, Lacks-of_digits c s h q)

-- A printed number holds no byte but digits.
pub show_uint-Lacks : (c n : ℕ) → ltb c b'0' || ltb b'9' c ≡ true → Lacks c (show_uint n)
show_uint-Lacks c n h = Lacks-of_digits c (show_uint n) h (show_uint-IsDigit n)

scan-append :
    (max n m d : ℕ) (s : Text)
    → scan max n s ≡ some m
    → d < 10
    → m * 10 + d ≤ max
    → scan max n (s ++ (b'0' + d) ∷ []) ≡ some (m * 10 + d)
unfolding scan
scan-append max n m d [] e h fits = ground arith
scan-append max n m d (c ∷ s) e h fits = ground (arith, scan-append max (n * 10 + (c - b'0')) m d s)

scan-digits : (max f n : ℕ) → n < f → n ≤ max → scan max 0 (digits f n) ≡ some n
unfolding digits
scan-digits max zero n h fits = absurd (omega arith)
scan-digits max (suc f) n h fits = elim (Bool-cases (ltb n 10)) [
  | inl e ↦ rw e (unfold scan in ground arith)
  | inr e ↦ rw e (
      ground (
        arith,
        scan-append max 0 (n / 10) (n % 10) (digits f (n / 10))
            (scan-digits max f (n / 10) (ground arith) (omega arith)) (omega arith) (omega arith),
      ))
]

parse_uint-scan : (max : ℕ) (s : Text) → All IsDigit s → s ≢ [] → parse_uint max s ≡ scan max 0 s
unfolding parse_uint
parse_uint-scan max [] h n = absurd (n refl)
parse_uint-scan max (c ∷ []) h n = refl
parse_uint-scan max (c ∷ d ∷ s) h n = ground arith

digits-ne-nil : (f n : ℕ) → digits (suc f) n ≢ []
unfolding digits
digits-ne-nil f n = elim (Bool-cases (ltb n 10)) [
  | inl e ↦ rw e (cons-ne-nil _ _)
  | inr e ↦ rw e (concat-ne-nil _ _)
]

pub show_uint-ne-nil : (n : ℕ) → show_uint n ≢ []
unfolding show_uint
show_uint-ne-nil n = rw add-one (digits-ne-nil n n)

-- A printed number is read back, in every unsigned type that holds it.
pub parse_uint-show_uint : (max n : ℕ) → n ≤ max → parse_uint max (show_uint n) ≡ some n
parse_uint-show_uint max n h =
    parse_uint-scan max (show_uint n) (show_uint-IsDigit n) (show_uint-ne-nil n)
    ∙ unfold show_uint in scan-digits max (n + 1) n (omega arith) h

scan-le : (max n m : ℕ) (s : Text) → n ≤ max → scan max n s ≡ some m → m ≤ max
unfolding scan
scan-le max n m [] fits h = ground arith
scan-le max n m (c ∷ s) fits h = ground (arith, scan-le max (n * 10 + (c - b'0')) m s)

-- A number that was read fits its type.
pub parse_uint-le : (max m : ℕ) (s : Text) → parse_uint max s ≡ some m → m ≤ max
unfolding parse_uint
parse_uint-le max m [] h = cc
parse_uint-le max m (c ∷ []) h = scan-le max 0 m (c ∷ []) (omega arith) h
parse_uint-le max m (c ∷ d ∷ s) h =
    ground (arith, scan-le max 0 m (d ∷ s), scan-le max 0 m (c ∷ d ∷ s))
