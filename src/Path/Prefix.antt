-- ===== src/Path/Prefix.antt =====
-- Prefixing a path, stripping the prefix again, and the segments of the result.
use olivia.Base.{
  Text, Lacks, text_eq, text_eq_iff, text_eq_refl, true, false, Bool-cases, inl, inr, List, [], ◌∷◌,
  ◌++◌, append_assoc, ◌≡◌, ◌≢◌, ◌⊎◌, refl, sym, ap, ◌∙◌, arith, ok,
}
use olivia.Base.Slices.{
  split, split-append, split-ne-nil, strip_prefix-append, starts_with, ends_with,
}
use olivia.Path.{root, is_root, segments, from_str, prefix_path, strip_prefix_path}
use mathlib.Core.Path.{◌≡⟨◌⟩◌, ◌∎}
use mathlib.Core.List.{tail, cons-ne-nil}

abbrev pub IsPath : Text → Type 0
IsPath p = from_str p ≡ ok p

is_root_iff : (p : Text) → is_root p ≡ false → p ≢ root
unfolding is_root
is_root_iff p h e = ground (arith, text_eq_iff p root)

-- Stripping undoes prefixing, for every path but the root, under which the prefix alone is left.
pub strip_prefix_path-prefix_path :
    (x p : Text) → x ≢ root → strip_prefix_path (prefix_path x p) p ≡ x
unfolding strip_prefix_path prefix_path
strip_prefix_path-prefix_path x p h = ground (arith, text_eq_iff x root, strip_prefix-append p x)

append-ne-root : (p x : Text) → p ≢ root → x ≢ root → p ++ x ≢ root
append-ne-root [] x hp hx e = hx e
append-ne-root (c ∷ []) [] hp hx e = hp e
append-ne-root (c ∷ []) (d ∷ x) hp hx e = cc
append-ne-root (c ∷ d ∷ p) x hp hx e = cc

-- Prefixing twice is prefixing with the prefixed prefix, and the root is the prefix that changes
-- nothing.
pub prefix_path_action :
    (x p q : Text)
    → (prefix_path (prefix_path x p) q ≡ prefix_path x (prefix_path p q)) × (prefix_path x root ≡ x)
unfolding prefix_path
prefix_path_action x p q = ground (
  arith,
  text_eq_iff x root,
  text_eq_iff p root,
  text_eq_iff q root,
  text_eq_refl root,
  text_eq_iff (p ++ x) root,
  text_eq_iff (q ++ p) root,
  append-ne-root p x,
  append-ne-root q p,
  append_assoc q p x,
)

pub ends_with_slash-append : (p x : Text) → x ≢ [] → ends_with (p ++ x) root ≡ ends_with x root
unfolding ends_with text_eq
ends_with_slash-append [] x h = refl
ends_with_slash-append (c ∷ []) [] h = absurd (h refl)
ends_with_slash-append (c ∷ []) (d ∷ x) h = ground arith
ends_with_slash-append (c ∷ d ∷ p) x h = ground (arith, ends_with_slash-append (d ∷ p) x h)

starts_with_slash : (p : Text) → starts_with p root ≡ true → (t : Text) × (p ≡ b'/' ∷ t)
unfolding starts_with
starts_with_slash [] h = cc
starts_with_slash (c ∷ t) h = (t, ground arith)

-- A path begins with a slash.
pub IsPath-slash : (p : Text) → IsPath p → (t : Text) × (p ≡ b'/' ∷ t)
unfolding from_str
IsPath-slash p h = starts_with_slash p (ground arith)

pub IsPath-ne-nil : (p : Text) → IsPath p → p ≢ []
IsPath-ne-nil p h e = let (t, slash) = IsPath-slash p h in cons-ne-nil _ _ (sym slash ∙ e)

starts_with_slash-append :
    (p x : Text) → starts_with p root ≡ true → starts_with (p ++ x) root ≡ true
unfolding starts_with
starts_with_slash-append [] x h = cc
starts_with_slash-append (c ∷ p) x h = ground arith

pub IsPath-of_slashes : (p : Text) → starts_with p root ≡ true → ends_with p root ≡ false → IsPath p
unfolding from_str
IsPath-of_slashes p h k = rw (h, k)

-- A path is the root, or begins with a slash and does not end with one.
pub IsPath-slashes :
    (p : Text) → IsPath p → (starts_with p root ≡ true) × ((p ≡ root) ⊎ (ends_with p root ≡ false))
unfolding from_str
IsPath-slashes p h = ground (arith, text_eq_iff p root)

starts_with_of_append :
    (p x : Text) → p ≢ [] → starts_with (p ++ x) root ≡ true → starts_with p root ≡ true
unfolding starts_with
starts_with_of_append [] x n h = absurd (n refl)
starts_with_of_append (c ∷ p) x n h = ground arith

ends_with_of_Lacks : (s : Text) → Lacks b'/' s → ends_with s root ≡ false
unfolding ends_with text_eq
ends_with_of_Lacks [] h = refl
ends_with_of_Lacks (c ∷ s) (n, h) = ground (arith, ends_with_of_Lacks s h)

-- What follows the beginning of a path may be replaced by anything that holds no slash.
pub IsPath-replace :
    (p x y : Text) → p ≢ [] → y ≢ [] → Lacks b'/' y → IsPath (p ++ x) → IsPath (p ++ y)
IsPath-replace p x y np ny h hp =
    IsPath-of_slashes (p ++ y)
      (starts_with_slash-append p y (starts_with_of_append p x np (IsPath-slashes (p ++ x) hp).0))
      (ends_with_slash-append p y ny ∙ ends_with_of_Lacks y h)

-- A prefixed path is a path.
pub prefix_path-IsPath : (x p : Text) → IsPath x → IsPath p → IsPath (prefix_path x p)
unfolding prefix_path
prefix_path-IsPath x p hx hp = elim (Bool-cases (is_root x)) [
  | inl e ↦ rw e hp
  | inr e ↦ elim (Bool-cases (is_root p)) [
    | inl f ↦ rw (e, f) hx
    | inr f ↦
        rw (e, f)
          (IsPath-of_slashes (p ++ x) (starts_with_slash-append p x (IsPath-slashes p hp).0)
            (no_slash e (IsPath-slashes x hx)))
  ]
]
  where
    no_slash :
        is_root x ≡ false
        → (starts_with x root ≡ true) × ((x ≡ root) ⊎ (ends_with x root ≡ false))
        → ends_with (p ++ x) root ≡ false
    no_slash n (h, inl e) = absurd (is_root_iff x n e)
    no_slash n (h, inr e) = ends_with_slash-append p x (IsPath-ne-nil x hx) ∙ e

prefix_path_of_ne : (x p : Text) → x ≢ root → p ≢ root → prefix_path x p ≡ p ++ x
unfolding prefix_path
prefix_path_of_ne x p nx np = ground (arith, text_eq_iff x root, text_eq_iff p root)

tail-append : (ps qs : List Text) → ps ≢ [] → tail (ps ++ qs) ≡ tail ps ++ qs
tail-append [] qs h = absurd (h refl)
tail-append (p ∷ ps) qs h = refl

pub segments-cons : (t : Text) → segments (b'/' ∷ t) ≡ split t b'/'
unfolding segments split
segments-cons t = refl

-- The segments of a prefixed path are those of the prefix, then those of the path, where neither is
-- the root.
pub segments-prefix_path :
    (x p : Text)
    → IsPath x
    → x ≢ root
    → p ≢ root
    → segments (prefix_path x p) ≡ segments p ++ segments x
unfolding segments
segments-prefix_path x p hx nx np =
    let (t, slash) = IsPath-slash x hx in
    segments (prefix_path x p)
    ≡⟨ ap segments (prefix_path_of_ne x p nx np) ⟩ segments (p ++ x)
    ≡⟨ ap (λ y. segments (p ++ y)) slash ⟩ tail (split (p ++ b'/' ∷ t) b'/')
    ≡⟨ ap tail (split-append p t b'/') ⟩ tail (split p b'/' ++ split t b'/')
    ≡⟨ tail-append (split p b'/') (split t b'/') (split-ne-nil p b'/') ⟩ segments p ++ split t b'/'
    ≡⟨ ap (λ s. segments p ++ s) (sym (segments-cons t)) ⟩ segments p ++ segments (b'/' ∷ t)
    ≡⟨ ap (λ y. segments p ++ segments y) (sym slash) ⟩ segments p ++ segments x ∎
