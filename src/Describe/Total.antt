-- ===== src/Describe/Total.antt =====
-- olivia_describe/src/lib.rs: describing an event of an id that was parsed does not panic. A match
-- here has two names or more, as the matches that an equality is about do.
use olivia.Base.{
  Text, text_eq, text_eq_iff, Option, none, some, List, [], ◌∷◌, true, Bool-cases, inl, inr, ok,
  ◌≡◌, ◌≢◌, refl, ap, ◌∙◌,
}
use olivia.Base.Slices.{split, rsplit_once, rsplit_once-append}
use olivia.Path
use olivia.Path.Events.{IsEventPath, strip_event-eq-some}
use olivia.Kind
use olivia.Kind.{
  VsMatchKind, win, win_or_draw, EventKind, vs_match, single_occurrence, predicate, price, eq,
  bound,
}
use olivia.EventId.{both_parties, first_two, n_outcomes, kind_outcomes}
use olivia.EventId.Valid.{path_of, event_kind_of, both_parties_of}
use olivia.Event.Predicated.{IsBasic}
use olivia.Describe.{
  Describer, match_segments, random_time, match_parent, match_short, kind_short, short_with,
  event_short_body, is_match, random_text,
}

-- A match has two names at least.
abbrev pub HasNames : Text → EventKind → Type 0
HasNames p (vs_match _) =
    (l : Text) × (r : Text) × (rest : List Text) × (split (Path.last p) b'_' ≡ l ∷ r ∷ rest)
HasNames p _ = Unit

-- A path whose last segment has an underscore is not the root.
root-no_names :
    (p l r : Text) {rest : List Text}
    → Path.is_root p ≡ true
    → split (Path.last p) b'_' ≢ l ∷ r ∷ rest
unfolding Path.is_root Path.last rsplit_once split
root-no_names p l r h e =
    let same : p ≡ Path.root = (text_eq_iff p Path.root).0 h in let parts = rw same at e in cc

parent_of_match :
    (p l r : Text) {rest : List Text}
    → IsEventPath p
    → split (Path.last p) b'_' ≡ l ∷ r ∷ rest
    → (q : Text) × (Path.parent p ≡ some q)
unfolding Path.parent
parent_of_match p l r h e = elim (Bool-cases (Path.is_root p)) [
  | inl top ↦ absurd (root-no_names p l r top e)
  | inr below ↦
      let cut : rsplit_once p b'/' ≡ some (h.before, h.name) =
        ap (λ q. rsplit_once q b'/') h.parts ∙ rsplit_once-append h.before h.name b'/' h.no_slash in
      rw (below, cut, Path.parent)
        (elim (Bool-cases (text_eq h.before [])) [
          | inl e' ↦ (Path.root, rw e' refl)
          | inr e' ↦ (h.before, rw e' refl)
        ])
]

module _ (E : Type 0) (id p t : Text) {k : EventKind} (cut : Path.strip_event id ≡ some (p, t))
    (read : Kind.from_str t ≡ ok k) where
  pub both_of_names :
      {v : VsMatchKind} (l r : Text) {rest : List Text}
      → k ≡ vs_match v
      → split (Path.last p) b'_' ≡ l ∷ r ∷ rest
      → both_parties {E = E} id ≡ ok (l, r)
  unfolding first_two
  both_of_names l r e parts = both_parties_of id p t cut read e ∙ ap first_two parts

  match_parent_total :
      (l r : Text) {rest : List Text}
      → split (Path.last p) b'_' ≡ l ∷ r ∷ rest
      → (m : Option (Text × Text)) → (q : Text) × (match_parent {E = E} id m ≡ ok q)
  unfolding match_parent
  match_parent_total l r parts (some _) = ([], refl)
  match_parent_total l r parts none =
      let (q, e) = parent_of_match p l r (strip_event-eq-some id p t cut).0 parts in
      (q, rw (path_of id p t cut read, match_parent) (rw e refl))

  kind_short_total :
      (j : EventKind)
      → k ≡ j
      → IsBasic j
      → HasNames p j
      → (s : Text) × ((rec : Describer E) → kind_short rec id p j ≡ ok s)
  unfolding kind_short
  kind_short_total (vs_match v) e b (l, r, _, parts) =
      let (q, up) = match_parent_total l r parts (match_segments (Path.segments p)) in
      (
        match_short v (match_segments (Path.segments p)) (l, r) q,
        λ rec. rw (both_of_names l r e parts, kind_short) (rw (up, kind_short) refl),
      )
  kind_short_total single_occurrence e b h = (_, λ rec. refl)
  kind_short_total (price n) e b h = (_, λ rec. refl)
  kind_short_total (predicate _ _) e b h = absurd b

  count_of : n_outcomes {E = E} id ≡ ok (kind_outcomes k)
  unfolding n_outcomes
  count_of = rw (event_kind_of id p t cut read, n_outcomes) refl

  -- The description of a random event does not look further, that of another does what `Knows` asks.
  short_with_total :
      (Knows : Describer E → Type 0) (random : Option Text)
      → (s : Text) × ((rec : Describer E) → Knows rec → kind_short rec id p k ≡ ok s)
      → (s : Text) × ((rec : Describer E) → Knows rec → short_with rec id p k random ≡ ok s)
  unfolding short_with
  short_with_total Knows none h = h
  short_with_total Knows (some time) (s, h) = elim (Bool-cases (is_match k)) [
    | inl e ↦ (s, λ rec known. rw e (h rec known))
    | inr e ↦
        (random_text (kind_outcomes k) time, λ rec known. rw e (rw (count_of, short_with) refl))
  ]

  body_lem :
      (rec : Describer E)
      → event_short_body rec id ≡ short_with rec id p k (random_time (Path.segments p))
  unfolding event_short_body
  body_lem rec =
      rw (path_of id p t cut read, event_short_body)
        (rw (event_kind_of id p t cut read, event_short_body) refl)

  pub body_total :
      (Knows : Describer E → Type 0)
      → (s : Text) × ((rec : Describer E) → Knows rec → kind_short rec id p k ≡ ok s)
      → (s : Text) × ((rec : Describer E) → Knows rec → event_short_body rec id ≡ ok s)
  body_total Knows h =
      let (s, e) = short_with_total Knows (random_time (Path.segments p)) h in
      (s, λ rec known. body_lem rec ∙ e rec known)

  -- An event that is no predicate is described without a call of either function.
  pub basic_short :
      IsBasic k → HasNames p k → (s : Text) × ((rec : Describer E) → event_short_body rec id ≡ ok s)
  basic_short b h =
      let (s, e) = kind_short_total k refl b h in
      let (s', e') = body_total (λ _. Unit) (s, λ rec _. e rec) in (s', λ rec. e' rec tt)
