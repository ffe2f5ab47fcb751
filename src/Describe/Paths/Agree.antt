-- ===== src/Describe/Paths/Agree.antt =====
-- olivia_describe/src/lib.rs: which paths have a description, in short and in HTML, and a name.
use olivia.Base.{
  Text, codes, text_eq, List, [], ◌∷◌, text_eq_iff, cons-ne-nil, ap, subst, sym, ◌⊎◌, ok, err,
  panic, ok_or-ne-panic, ◌≡◌, ◌≢◌, refl, arith, ◌∙◌, inl, inr, Bool-cases,
}
use olivia.Base.Slices.{split, split-ne-nil}
use olivia.Path
use olivia.Path.Prefix.{IsPath, IsPath-slash, segments-cons}
use olivia.Describe.Paths.{
  Maybe, is_date_time, exchange_short, segments_short, path_short, path_short_str, exchange_html,
  segments_html, random_short, path_html_str, last_segment, sport_name, exchange_name, long_name,
  long_path_name_str, matches_short, sport_short, first_two_names, read_path,
}

-- Neither of two results is a panic, and one has a value where the other has.
abbrev pub Agree : Maybe Text → Maybe Text → Type 0
Agree (ok _) (ok _) = Unit
Agree (err _) (err _) = Unit
Agree _ _ = ⊥

first_two_names-ne-panic : (ts : List Text) → first_two_names ts ≢ panic
unfolding first_two_names
first_two_names-ne-panic [] = cc
first_two_names-ne-panic (a ∷ []) = cc
first_two_names-ne-panic (a ∷ b ∷ ts) = cc

same : (r : Maybe Text) → r ≢ panic → Agree r r
same (ok _) n = tt
same (err _) n = tt
same panic n = n refl

sport_short-ne-panic : (ss : List Text) → sport_short ss ≢ panic
unfolding sport_short matches_short
sport_short-ne-panic [] = cc
sport_short-ne-panic (c ∷ []) = cc
sport_short-ne-panic (c ∷ w ∷ []) = ground arith
sport_short-ne-panic (c ∷ w ∷ d ∷ []) = ground arith
sport_short-ne-panic (c ∷ w ∷ d ∷ ts ∷ []) =
    ground (arith, first_two_names-ne-panic (split ts b'_'))
sport_short-ne-panic (c ∷ w ∷ d ∷ ts ∷ x ∷ xs) = ground arith

exchange_short-ne-panic : (ss : List Text) → exchange_short ss ≢ panic
unfolding exchange_short
exchange_short-ne-panic [] = cc
exchange_short-ne-panic (a ∷ []) = cc
exchange_short-ne-panic (a ∷ b ∷ []) = cc
exchange_short-ne-panic (a ∷ b ∷ c ∷ []) = ground arith
exchange_short-ne-panic (a ∷ b ∷ c ∷ d ∷ ss) = cc

segments_short-ne-panic : (ss : List Text) → segments_short ss ≢ panic
unfolding segments_short
segments_short-ne-panic [] = cc
segments_short-ne-panic (s ∷ ss) =
    ground (arith, sport_short-ne-panic ss, exchange_short-ne-panic ss)

random_path : segments_short (codes "random" ∷ []) ≡ ok (random_short [])
unfolding segments_short text_eq
random_path = refl

exchange_path : (ss : List Text) → segments_short (codes "x" ∷ ss) ≡ exchange_short ss
unfolding segments_short text_eq
exchange_path ss = refl

module _ (p : Text) where
  exchange-Agree :
      (ss : List Text)
      → path_short p ≡ exchange_short ss
      → ss ≢ []
      → Agree (path_short p) (exchange_html p ss)
  unfolding exchange_short exchange_html
  exchange-Agree [] e n = absurd (n refl)
  exchange-Agree (a ∷ []) e n = rw e tt
  exchange-Agree (a ∷ b ∷ []) e n = rw e tt
  exchange-Agree (a ∷ b ∷ c ∷ []) e n = elim (Bool-cases (is_date_time c)) [
    | inl h ↦ rw (h, exchange_html) (rw e (rw (h, exchange_short) tt))
    | inr h ↦
        rw (h, exchange_html)
          (same (path_short p) (rw e (exchange_short-ne-panic (a ∷ b ∷ c ∷ []))))
  ]
  exchange-Agree (a ∷ b ∷ c ∷ d ∷ ss) e n = rw e tt

  segments-Agree :
      (ss : List Text)
      → path_short p ≡ segments_short ss
      → Agree (path_short p) (segments_html p ss)
  unfolding segments_html
  segments-Agree [] e = same (path_short p) (rw e (segments_short-ne-panic []))
  segments-Agree (s ∷ []) e = elim (Bool-cases (text_eq s (codes "random"))) [
    | inl h ↦
        let is = (text_eq_iff s (codes "random")).0 h in
        rw (h, segments_html) (rw (e ∙ ap (λ t. segments_short (t ∷ [])) is ∙ random_path) tt)
    | inr h ↦ rw (h, segments_html) (same (path_short p) (rw e (segments_short-ne-panic (s ∷ []))))
  ]
  segments-Agree (s ∷ t ∷ ss) e = elim (Bool-cases (text_eq s (codes "x"))) [
    | inl h ↦
        let is = (text_eq_iff s (codes "x")).0 h in
        rw (h, segments_html)
          (exchange-Agree (t ∷ ss)
            (e ∙ ap (λ u. segments_short (u ∷ t ∷ ss)) is ∙ exchange_path (t ∷ ss))
            (cons-ne-nil t ss))
    | inr h ↦
        rw (h, segments_html) (same (path_short p) (rw e (segments_short-ne-panic (s ∷ t ∷ ss))))
  ]

last_segment-ne-panic : (s : Text) (ss : List Text) → last_segment (s ∷ ss) ≢ panic
unfolding last_segment
last_segment-ne-panic s ss = ok_or-ne-panic _ _

sport_name-ne-panic : (s : Text) (ss : List Text) → sport_name (s ∷ ss) ss ≢ panic
unfolding sport_name
sport_name-ne-panic s [] = cc
sport_name-ne-panic s (c ∷ []) = cc
sport_name-ne-panic s (c ∷ w ∷ []) = last_segment-ne-panic s (c ∷ w ∷ [])
sport_name-ne-panic s (c ∷ w ∷ d ∷ []) = last_segment-ne-panic s (c ∷ w ∷ d ∷ [])
sport_name-ne-panic s (c ∷ w ∷ d ∷ ts ∷ []) =
    ground (
      arith,
      first_two_names-ne-panic (split ts b'_'),
      last_segment-ne-panic s (c ∷ w ∷ d ∷ ts ∷ []),
    )
sport_name-ne-panic s (c ∷ w ∷ d ∷ ts ∷ x ∷ xs) = last_segment-ne-panic s (c ∷ w ∷ d ∷ ts ∷ x ∷ xs)

exchange_name-ne-panic : (s : Text) (ss : List Text) → exchange_name s ss ≢ panic
unfolding exchange_name
exchange_name-ne-panic s [] = ground (arith, last_segment-ne-panic s [])
exchange_name-ne-panic s (t ∷ ss) = last_segment-ne-panic s (t ∷ ss)

long_name-ne-panic : (s : Text) (ss : List Text) → long_name (s ∷ ss) ≢ panic
unfolding long_name
long_name-ne-panic s ss = ground (arith, sport_name-ne-panic s ss, exchange_name-ne-panic s ss)

name-ne-panic : (p : Text) → IsPath p → long_name (Path.segments p) ≢ panic
name-ne-panic p h =
    let (t, slash) = IsPath-slash p h in
    subst (λ ss. long_name ss ≢ panic) (sym (ap Path.segments slash ∙ segments-cons t))
      (some_segment (split t b'/') (split-ne-nil t b'/'))
  where
    some_segment : (ss : List Text) → ss ≢ [] → long_name ss ≢ panic
    some_segment [] n = absurd (n refl)
    some_segment (s ∷ ss) n = long_name-ne-panic s ss

read_path_cases : (s : Text) → (IsPath s × (read_path s ≡ ok s)) ⊎ (read_path s ≡ err tt)
unfolding read_path Path.from_str
read_path_cases s = ground arith

-- No text makes the descriptions of paths panic, and a text has a description in HTML exactly if it has
-- a short one.
pub path_descriptions-Agree :
    (s : Text) → Agree (path_short_str s) (path_html_str s) × (long_path_name_str s ≢ panic)
unfolding path_short_str path_html_str long_path_name_str path_short
path_descriptions-Agree s = elim (read_path_cases s) [
  | inl (h, e) ↦
      rw (e, path_short_str)
        (segments-Agree s (Path.segments s) (unfold path_short in refl), name-ne-panic s h)
  | inr e ↦ rw (e, path_short_str) (tt, cc)
]
