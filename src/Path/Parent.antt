-- ===== src/Path/Parent.antt =====
-- `parent` and `is_parent_of`.
use olivia.Base.{
  ℕ, zero, suc, ◌<◌, Text, text_eq, text_eq_iff, true, false, if◌then◌else◌, Bool-cases, none, some,
  Option-cases, inl, inr, [], ◌∷◌, ◌++◌, ◌≡◌, ◌≢◌, ◌↔◌, refl, sym, ap, ◌∙◌, arith, length,
  length-append, middle-ne-nil, Lacks, subst,
}
use olivia.Base.Slices.{
  rsplit_once, rsplit_once-append, rsplit_once-eq-some, Lacks-of_rsplit_once, cut_before_last,
}
use olivia.Path.{root, is_root, parent, parent_search, is_parent_of}
use mathlib.Core.List.{append_assoc}

-- What lies below a path: the path, everything if it is the root, and what continues it with a
-- slash.
pub data IsBelow (p : Text) : Text → Type 0 where
  self : {q : Text} → q ≡ p → IsBelow p q
  top : {q : Text} → p ≡ root → IsBelow p q
  under : {q : Text} (r : Text) → q ≡ p ++ b'/' ∷ r → IsBelow p q

parent_of_root : parent root ≡ none
unfolding parent is_root text_eq
parent_of_root = refl

-- Above a path that is not the root, `parent` cuts at the last slash.
parent_of_cut :
    (a b : Text)
    → Lacks b'/' b
    → a ++ b'/' ∷ b ≢ root
    → parent (a ++ b'/' ∷ b) ≡ (if text_eq a [] then some root else some a)
unfolding parent is_root
parent_of_cut a b h n =
    ground (arith, text_eq_iff (a ++ b'/' ∷ b) root, rsplit_once-append a b b'/' h)

IsBelow-of_IsBelow_cut : (p a b : Text) → IsBelow p a → IsBelow p (a ++ b'/' ∷ b)
IsBelow-of_IsBelow_cut p a b (self e) = under b (ap (λ t. t ++ b'/' ∷ b) e)
IsBelow-of_IsBelow_cut p a b (top e) = top e
IsBelow-of_IsBelow_cut p a b (under r e) =
    under (r ++ b'/' ∷ b) (ap (λ t. t ++ b'/' ∷ b) e ∙ append_assoc p (b'/' ∷ r) (b'/' ∷ b))

-- What lies below a path, but for the path itself, has its parent below the path.
IsBelow-cut_of_IsBelow :
    (p a b : Text) → Lacks b'/' b → a ++ b'/' ∷ b ≢ p → IsBelow p (a ++ b'/' ∷ b) → IsBelow p a
IsBelow-cut_of_IsBelow p a b h n (self e) = absurd (n e)
IsBelow-cut_of_IsBelow p a b h n (top e) = top e
IsBelow-cut_of_IsBelow p a b h n (under r e) = elim (cut_before_last a b p r b'/' h e) [
  | inl same ↦ self same
  | inr (t, longer) ↦ under t longer
]

middle-ne-root : (p r : Text) → p ≢ [] → p ++ b'/' ∷ r ≢ root
middle-ne-root [] r h e = h refl
middle-ne-root (c ∷ []) r h e = cc
middle-ne-root (c ∷ d ∷ p) r h e = cc

IsBelow-root : (p q : Text) → p ≢ [] → q ≡ root → q ≢ p → IsBelow p q → ⊥
IsBelow-root p q np e n (self e') = n e'
IsBelow-root p q np e n (top e') = n (e ∙ sym e')
IsBelow-root p q np e n (under r e') = middle-ne-root p r np (sym e' ∙ e)

IsBelow-first :
    (p b : Text) → p ≢ [] → Lacks b'/' b → b'/' ∷ b ≢ p → IsBelow p (b'/' ∷ b) → p ≡ root
IsBelow-first p b np h n (self e) = absurd (n e)
IsBelow-first p b np h n (top e) = e
IsBelow-first p b np h n (under r e) = elim (cut_before_last [] b p r b'/' h e) [
  | inl same ↦ absurd (np (sym same))
  | inr (t, longer) ↦ absurd (middle-ne-nil b'/' p t (sym longer))
]

search_here : (f : ℕ) (p q : Text) → text_eq q p ≡ true → parent_search (suc f) p q ≡ true
unfolding parent_search
search_here f p q e = rw e

search_top :
    (f : ℕ) (p q : Text) → text_eq q p ≡ false → parent q ≡ none → parent_search (suc f) p q ≡ false
unfolding parent_search
search_top f p q e u = rw (e, u)

search_up :
    (f : ℕ) (p q r : Text)
    → text_eq q p ≡ false
    → parent q ≡ some r
    → parent_search (suc f) p q ≡ parent_search f p r
unfolding parent_search
search_up f p q r e u = rw (e, u)

-- A path with its leading slash is the root, a child of the root, or has a longer parent.
data Shape : Text → Type 0 where
  the_root : {q : Text} → q ≡ root → Shape q
  of_root : {q : Text} (b : Text) → q ≡ b'/' ∷ b → q ≢ root → Lacks b'/' b → Shape q
  of_path : {q : Text} (t b : Text) → q ≡ (b'/' ∷ t) ++ b'/' ∷ b → q ≢ root → Lacks b'/' b → Shape q

shape : (q t : Text) → q ≡ b'/' ∷ t → Shape q
shape q t s = elim (Bool-cases (text_eq q root)) [
  | inl e ↦ the_root ((text_eq_iff q root).0 e)
  | inr e ↦ elim (Option-cases (rsplit_once q b'/')) [
    | inl lacks ↦ absurd ((subst (Lacks b'/') s (Lacks-of_rsplit_once q b'/' lacks)).0 refl)
    | inr ((a, b), found) ↦
        let (parts, h) = rsplit_once-eq-some q b'/' found in
        go a b parts h (λ r. ground (arith, text_eq_iff q root))
  ]
]
  where
    go : (a b : Text) → q ≡ a ++ b'/' ∷ b → Lacks b'/' b → q ≢ root → Shape q
    go [] b parts h n = of_root b parts n h
    go (c ∷ a) b parts h n =
        let same : c ≡ b'/' = cc in of_path a b (parts ∙ ap (λ x. (x ∷ a) ++ b'/' ∷ b) same) n h

-- One round of the search, given the search from each shorter path.
module _ (f : ℕ) (p : Text) (np : p ≢ []) where
  search_up_iff :
      (ih : (r t : Text) → r ≡ b'/' ∷ t → length r < f → (parent_search f p r ≡ true) ↔ IsBelow p r)
      (q : Text)
      → text_eq q p ≡ false
      → q ≢ p
      → length q < suc f
      → Shape q
      → (parent_search (suc f) p q ≡ true) ↔ IsBelow p q
  unfolding text_eq
  search_up_iff ih q e n h (the_root r) =
      rw (search_top f p q e (ap parent r ∙ parent_of_root))
        ((λ c. cc), λ b. absurd (IsBelow-root p q np r n b))
  search_up_iff ih q e n h (of_root b r nr hb) =
      let up : parent q ≡ some root = ap parent r ∙ parent_of_cut [] b hb (λ c. nr (r ∙ c)) in
      let (to, from) = ih root [] refl (shorter r nr h) in
      rw (search_up f p q root e up)
        ((λ c. top (back (to c))), λ b'. from (self (sym (first_of_below b'))))
    where
      shorter : {q b : Text} → q ≡ b'/' ∷ b → q ≢ root → length q < suc f → length root < f
      shorter {b = []} r nr h = absurd (nr r)
      shorter {b = c ∷ b} r nr h = omega (arith, ap length r)

      back : IsBelow p root → p ≡ root
      back (self e) = sym e
      back (top e) = e
      back (under r e) = absurd (middle-ne-root p r np (sym e))

      first_of_below : IsBelow p q → p ≡ root
      first_of_below b' = IsBelow-first p b np hb (λ c. n (r ∙ c)) (subst (IsBelow p) r b')
  search_up_iff ih q e n h (of_path t b r nr hb) =
      let up : parent q ≡ some (b'/' ∷ t) =
        ap parent r ∙ parent_of_cut (b'/' ∷ t) b hb (λ c. nr (r ∙ c)) in
      let (to, from) =
        ih (b'/' ∷ t) t refl (omega (arith, ap length r, length-append t (b'/' ∷ b))) in
      rw (search_up f p q (b'/' ∷ t) e up) (
        (λ c. subst (IsBelow p) (sym r) (IsBelow-of_IsBelow_cut p (b'/' ∷ t) b (to c))),
        λ c.
            from
              (IsBelow-cut_of_IsBelow p (b'/' ∷ t) b hb (λ x. n (r ∙ x)) (subst (IsBelow p) r c)),
      )

search_iff :
    (f : ℕ) (p q t : Text)
    → p ≢ []
    → q ≡ b'/' ∷ t
    → length q < f
    → (parent_search f p q ≡ true) ↔ IsBelow p q
search_iff zero p q t np s h = absurd (omega arith)
search_iff (suc f) p q t np s h = elim (Bool-cases (text_eq q p)) [
  | inl e ↦ (λ _. self ((text_eq_iff q p).0 e), λ _. search_here f p q e)
  | inr e ↦
      search_up_iff f p np (λ r u. search_iff f p r u np) q e (λ r. ground (arith, text_eq_iff q p))
        h (shape q t s)
]

-- For a path with its leading slash and a parent that is not empty, `is_parent_of` finds exactly what
-- lies below the parent: itself, anything under the root, and what continues it behind a slash.
pub is_parent_of_iff :
    (p q t : Text) → p ≢ [] → q ≡ b'/' ∷ t → (is_parent_of p q ≡ true) ↔ IsBelow p q
unfolding is_parent_of
is_parent_of_iff p q t np s = search_iff (suc (length q)) p q t np s (omega arith)
