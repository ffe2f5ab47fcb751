-- ===== src/Base/Texts.antt =====
-- A text is the list of its UTF-8 bytes. The program cuts texts at ASCII characters only, so bytes
-- and characters agree.
use Prim.Native.Nat.{ℕ}
use Prim.Native.Char.{code}
use Prim.Native.String.{String}
use mathlib.Core.Path.{◌≡◌, refl}
use mathlib.Core.Logic.{◌↔◌, ◌≢◌}
use mathlib.Core.Bool.{Bool, true, false, ◌&&◌}
use mathlib.Core.List.{List, [], ◌∷◌, ◌++◌}
use native.Mathlib.Omega.{arith}
use olivia.Base.Tests.{◌==◌}
use olivia.Base.Lists.{All}

abbrev pub Text : Type 0
Text = List ℕ

-- The bytes of an ASCII literal.
abbrev pub codes : String → Text
codes String.[] = []
codes (String.◌∷◌ c s) = code c ∷ codes s

unfoldable pub text_eq : Text → Text → Bool
text_eq [] [] = true
text_eq (a ∷ s) (b ∷ t) = (a == b) && text_eq s t
text_eq _ _ = false

pub text_eq_iff : (s t : Text) → (text_eq s t ≡ true) ↔ (s ≡ t)
unfolding text_eq
text_eq_iff [] [] = ground arith
text_eq_iff [] (b ∷ t) = ground arith
text_eq_iff (a ∷ s) [] = ground arith
text_eq_iff (a ∷ s) (b ∷ t) = ground (arith, text_eq_iff s t)

pub text_eq_refl : (s : Text) → text_eq s s ≡ true
text_eq_refl s = (text_eq_iff s s).1 refl

abbrev pub Lacks : ℕ → Text → Type 0
Lacks c = All (λ x. x ≢ c)

-- A text that holds a byte differs from each text that lacks it.
pub text_eq-of_Lacks : (c : ℕ) (a b t : Text) → Lacks c t → text_eq (a ++ c ∷ b) t ≡ false
unfolding text_eq
text_eq-of_Lacks c [] b [] h = refl
text_eq-of_Lacks c (x ∷ a) b [] h = refl
text_eq-of_Lacks c [] b (y ∷ t) h = ground arith
text_eq-of_Lacks c (x ∷ a) b (y ∷ t) (_, h) = ground (arith, text_eq-of_Lacks c a b t h)

pub middle-ne-nil : (c : ℕ) (p t : Text) → p ++ c ∷ t ≢ []
middle-ne-nil c [] t e = cc
middle-ne-nil c (x ∷ p) t e = cc
