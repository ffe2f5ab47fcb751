-- ===== src/Base/Slices.antt =====
-- The `str` methods that the program cuts texts with: `split_once`, `rfind` with the slices on its
-- two sides, `split`, `starts_with`, `strip_prefix` and `strip_suffix`.
use olivia.Base.Tests.{◌==◌, ==_iff, if◌then◌else◌, Bool-cases, Option-cases}
use olivia.Base.Lists.{All, length, length-append}
use olivia.Base.Texts.{Text, text_eq, text_eq_iff, text_eq_refl, Lacks}
use Prim.Native.Nat.{ℕ}
use mathlib.Core.Path.{◌≡◌, refl, sym, ap, subst, ◌∙◌}
use mathlib.Core.Logic.{◌≢◌, ◌⊎◌, inl, inr}
use mathlib.Core.Bool.{Bool, true, false, ◌&&◌}
use mathlib.Core.Option
use mathlib.Core.Option.{Option, none, some}
use mathlib.Core.List.{List, [], ◌∷◌, ◌++◌, append_assoc, cons-ne-nil}
use native.Mathlib.Omega.{arith}

-- What stands before and behind the first `c`: `find(c)` with the two slices, and `split_once(c)`.
unfoldable pub split_once : Text → ℕ → Option (Text × Text)
split_once [] c = none
split_once (x ∷ s) c =
    let rest = Option.map (λ (p : Text × Text). (x ∷ p.0, p.1)) (split_once s c) in
    if x == c then some ([], s) else rest

-- The same of the last `c`: `rfind(c)` with the two slices.
unfoldable pub rsplit_once : Text → ℕ → Option (Text × Text)
rsplit_once [] c = none
rsplit_once (x ∷ s) c = elim (rsplit_once s c) [
  | some (a, b) ↦ some (x ∷ a, b)
  | none ↦ if x == c then some ([], s) else none
]

-- Adds a byte in front of the first part.
abbrev grow : ℕ → List Text → List Text
grow x [] = (x ∷ []) ∷ []
grow x (p ∷ ps) = (x ∷ p) ∷ ps

-- `split(c)`: one part more than there are separators.
unfoldable pub split : Text → ℕ → List Text
split [] c = [] ∷ []
split (x ∷ s) c = let parts = split s c in if x == c then [] ∷ parts else grow x parts

unfoldable pub starts_with : Text → Text → Bool
starts_with s [] = true
starts_with [] (c ∷ p) = false
starts_with (x ∷ s) (c ∷ p) = (x == c) && starts_with s p

unfoldable pub strip_prefix : Text → Text → Option Text
strip_prefix s [] = some s
strip_prefix [] (c ∷ p) = none
strip_prefix (x ∷ s) (c ∷ p) = if x == c then strip_prefix s p else none

unfoldable pub strip_suffix : Text → Text → Option Text
strip_suffix [] p = if text_eq [] p then some [] else none
strip_suffix (x ∷ s) p =
    if text_eq (x ∷ s) p then some [] else Option.map (λ t. x ∷ t) (strip_suffix s p)

unfoldable pub ends_with : Text → Text → Bool
ends_with [] p = text_eq [] p
ends_with (x ∷ s) p = if text_eq (x ∷ s) p then true else ends_with s p

pub split_once-append : (a b : Text) (c : ℕ) → Lacks c a → split_once (a ++ c ∷ b) c ≡ some (a, b)
unfolding split_once
split_once-append [] b c _ = ground arith
split_once-append (x ∷ a) b c (p, h) = ground (arith, split_once-append a b c h)

pub split_once_of_Lacks : (s : Text) (c : ℕ) → Lacks c s → split_once s c ≡ none
unfolding split_once
split_once_of_Lacks [] c _ = refl
split_once_of_Lacks (x ∷ s) c (p, h) = ground (arith, split_once_of_Lacks s c h)

-- What a cut at the first `c` says of the text.
abbrev CutsFirst : ℕ → Text → Option (Text × Text) → Type 0
CutsFirst c s none = Lacks c s
CutsFirst c s (some (a, b)) = (s ≡ a ++ c ∷ b) × Lacks c a

CutsFirst-cons :
    (x c : ℕ) (s : Text) (o : Option (Text × Text))
    → x ≢ c
    → CutsFirst c s o
    → CutsFirst c (x ∷ s) (Option.map (λ (p : Text × Text). (x ∷ p.0, p.1)) o)
CutsFirst-cons x c s none n h = (n, h)
CutsFirst-cons x c s (some (a, b)) n (e, h) = (ap (λ t. x ∷ t) e, (n, h))

split_once-CutsFirst : (s : Text) (c : ℕ) → CutsFirst c s (split_once s c)
unfolding split_once
split_once-CutsFirst [] c = tt
split_once-CutsFirst (x ∷ s) c = elim (Bool-cases (x == c)) [
  | inl e ↦ rw e (ap (λ y. y ∷ s) ((==_iff x c).0 e), tt)
  | inr e ↦ rw e (CutsFirst-cons x c s (split_once s c) (ground arith) (split_once-CutsFirst s c))
]

pub Lacks-of_split_once : (s : Text) (c : ℕ) → split_once s c ≡ none → Lacks c s
Lacks-of_split_once s c h = subst (CutsFirst c s) h (split_once-CutsFirst s c)

pub split_once-eq-some :
    (s : Text) (c : ℕ) {a b : Text} → split_once s c ≡ some (a, b) → (s ≡ a ++ c ∷ b) × Lacks c a
split_once-eq-some s c h = subst (CutsFirst c s) h (split_once-CutsFirst s c)

pub rsplit_once_of_Lacks : (s : Text) (c : ℕ) → Lacks c s → rsplit_once s c ≡ none
unfolding rsplit_once
rsplit_once_of_Lacks [] c _ = refl
rsplit_once_of_Lacks (x ∷ s) c (p, h) = ground (arith, rsplit_once_of_Lacks s c h)

pub rsplit_once-append : (a b : Text) (c : ℕ) → Lacks c b → rsplit_once (a ++ c ∷ b) c ≡ some (a, b)
unfolding rsplit_once
rsplit_once-append [] b c h = ground (arith, rsplit_once_of_Lacks b c h)
rsplit_once-append (x ∷ a) b c h = ground (arith, rsplit_once-append a b c h)

-- What a cut at the last `c` says of the text.
abbrev CutsLast : ℕ → Text → Option (Text × Text) → Type 0
CutsLast c s none = Lacks c s
CutsLast c s (some (a, b)) = (s ≡ a ++ c ∷ b) × Lacks c b

rsplit_once-CutsLast : (s : Text) (c : ℕ) → CutsLast c s (rsplit_once s c)
unfolding rsplit_once
rsplit_once-CutsLast [] c = tt
rsplit_once-CutsLast (x ∷ s) c = go (rsplit_once s c) (rsplit_once-CutsLast s c)
  where
    here : CutsLast c s none → CutsLast c (x ∷ s) (if x == c then some ([], s) else none)
    here h = elim (Bool-cases (x == c)) [
      | inl e ↦ rw e (ap (λ y. y ∷ s) ((==_iff x c).0 e), h)
      | inr e ↦ rw e (ground arith, h)
    ]

    go :
        (o : Option (Text × Text))
        → CutsLast c s o
        → CutsLast c (x ∷ s) (elim o [
          | some (a, b) ↦ some (x ∷ a, b)
          | none ↦ if x == c then some ([], s) else none
        ])
    go none h = here h
    go (some (a, b)) (e, h) = (ap (λ t. x ∷ t) e, h)

pub rsplit_once-eq-some :
    (s : Text) (c : ℕ) {a b : Text} → rsplit_once s c ≡ some (a, b) → (s ≡ a ++ c ∷ b) × Lacks c b
rsplit_once-eq-some s c h = subst (CutsLast c s) h (rsplit_once-CutsLast s c)

pub Lacks-of_rsplit_once : (s : Text) (c : ℕ) → rsplit_once s c ≡ none → Lacks c s
Lacks-of_rsplit_once s c h = subst (CutsLast c s) h (rsplit_once-CutsLast s c)

pub starts_with-append : (p s : Text) → starts_with (p ++ s) p ≡ true
unfolding starts_with
starts_with-append [] s = refl
starts_with-append (x ∷ p) s = ground (arith, starts_with-append p s)

pub strip_prefix-append : (p s : Text) → strip_prefix (p ++ s) p ≡ some s
unfolding strip_prefix
strip_prefix-append [] s = refl
strip_prefix-append (x ∷ p) s = ground (arith, strip_prefix-append p s)

pub strip_prefix-eq-some : (s p t : Text) → strip_prefix s p ≡ some t → s ≡ p ++ t
unfolding strip_prefix
strip_prefix-eq-some s [] t h = ground arith
strip_prefix-eq-some [] (c ∷ p) t h = cc
strip_prefix-eq-some (x ∷ s) (c ∷ p) t h = ground (arith, strip_prefix-eq-some s p t)

-- A text is no proper suffix of itself.
text_eq-cons_append : (x : ℕ) (s p : Text) → text_eq (x ∷ (s ++ p)) p ≡ false
text_eq-cons_append x s p = elim (Bool-cases (text_eq (x ∷ (s ++ p)) p)) [
  | inl e ↦
      absurd (omega (arith, ap length ((text_eq_iff (x ∷ (s ++ p)) p).0 e), length-append s p))
  | inr e ↦ e
]

pub strip_suffix-append : (s p : Text) → strip_suffix (s ++ p) p ≡ some s
unfolding strip_suffix
strip_suffix-append [] [] = ground (arith, text_eq_refl [])
strip_suffix-append [] (c ∷ p) = ground (arith, text_eq_refl (c ∷ p))
strip_suffix-append (x ∷ s) p = rw (text_eq-cons_append x s p) (rw (strip_suffix-append s p))

pub strip_suffix-eq-some : (s p t : Text) → strip_suffix s p ≡ some t → s ≡ t ++ p
unfolding strip_suffix
strip_suffix-eq-some [] p t h = ground (arith, text_eq_iff [] p)
strip_suffix-eq-some (x ∷ s) p t h = elim (Bool-cases (text_eq (x ∷ s) p)) [
  | inl e ↦ ground (arith, text_eq_iff (x ∷ s) p)
  | inr e ↦
      let (u, found, same) = (Option.map-eq-some_iff _ _).0 (rw e at h) in
      rw (← same) (ap (λ v. x ∷ v) (strip_suffix-eq-some s p u found))
]

pub rsplit_once_unique :
    (a b p r : Text) (c : ℕ) → Lacks c b → Lacks c r → a ++ c ∷ b ≡ p ++ c ∷ r → (a ≡ p) × (b ≡ r)
rsplit_once_unique a b p r c h k e =
    let same : ◌≡◌ {A = Option (Text × Text)} (some (a, b)) (some (p, r)) =
      sym (rsplit_once-append a b c h) ∙ ap (λ s. rsplit_once s c) e ∙ rsplit_once-append p r c k in
    (cc, cc)

-- Two cuts of one text at a byte: the cut at its last place lies at or behind the other.
pub cut_before_last :
    (a b p r : Text) (c : ℕ)
    → Lacks c b
    → a ++ c ∷ b ≡ p ++ c ∷ r
    → (a ≡ p) ⊎ ((t : Text) × (a ≡ p ++ c ∷ t))
cut_before_last a b p r c h e = elim (Option-cases (rsplit_once r c)) [
  | inl whole ↦ inl (rsplit_once_unique a b p r c h (Lacks-of_rsplit_once r c whole) e).0
  | inr ((r₁, r₂), cut) ↦
      let (parts, lacks) = rsplit_once-eq-some r c cut in
      let e' = e ∙ ap (λ t. p ++ c ∷ t) parts ∙ sym (append_assoc p (c ∷ r₁) (c ∷ r₂)) in
      inr (r₁, (rsplit_once_unique a b (p ++ c ∷ r₁) r₂ c h lacks e').0)
]

grow-append : (x : ℕ) (ps qs : List Text) → ps ≢ [] → grow x (ps ++ qs) ≡ grow x ps ++ qs
grow-append x [] qs h = absurd (h refl)
grow-append x (p ∷ ps) qs h = refl

pub split-ne-nil : (s : Text) (c : ℕ) → split s c ≢ []
unfolding split
split-ne-nil [] c = cons-ne-nil _ _
split-ne-nil (x ∷ s) c = ground arith

-- A separator between two texts separates their parts.
pub split-append : (a b : Text) (c : ℕ) → split (a ++ c ∷ b) c ≡ split a c ++ split b c
unfolding split
split-append [] b c = ground arith
split-append (x ∷ a) b c = elim (Bool-cases (x == c)) [
  | inl e ↦ rw (e, split-append a b c)
  | inr e ↦ rw (e, split-append a b c) (grow-append x _ _ (split-ne-nil a c))
]

pub split_of_Lacks : (s : Text) (c : ℕ) → Lacks c s → split s c ≡ s ∷ []
unfolding split
split_of_Lacks [] c _ = refl
split_of_Lacks (x ∷ s) c (p, h) = ground (arith, split_of_Lacks s c h)

-- The parts of a text lack what the text lacks.
pub split-All-Lacks : (s : Text) (c d : ℕ) → Lacks d s → All (Lacks d) (split s c)
unfolding split
split-All-Lacks [] c d h = (tt, tt)
split-All-Lacks (x ∷ s) c d (n, h) = elim (Bool-cases (x == c)) [
  | inl e ↦ rw e (tt, split-All-Lacks s c d h)
  | inr e ↦ rw e (grow_lacks (split s c) (split-All-Lacks s c d h))
]
  where
    grow_lacks : (ps : List Text) → All (Lacks d) ps → All (Lacks d) (grow x ps)
    grow_lacks [] q = ((n, tt), tt)
    grow_lacks (p ∷ ps) (q, qs) = ((n, q), qs)
