-- ===== src/EventId/Valid.antt =====
-- Ids on which the accessors of `EventId` do not panic, and what they return.
use olivia.Base.{
  Text, codes, ◌≡◌, ◌≢◌, refl, ap, ◌∙◌, some, List, [], ◌∷◌, ◌++◌, Result, ok, err, panic, ◌>>=◌,
  expect,
}
use olivia.Base.Slices.{split}
use olivia.Path
use olivia.Kind
use olivia.Kind.{
  EventKind, vs_match, single_occurrence, predicate, price, win, win_or_draw, show_kind,
}
use olivia.EventId.{
  EventId, enum, path, event_kind, parties_of, both_parties, first_two, n_outcomes, kind_outcomes,
  n_nonces, replace_kind, kind_descriptor, descriptor, Descriptor,
}

-- A match is between two parties with different names.
abbrev pub HasParties : Text → EventKind → Type 0
HasParties p (vs_match _) =
    (l : Text) × (r : Text) × (split (Path.last p) b'_' ≡ l ∷ r ∷ []) × (l ≢ r)
HasParties p _ = Unit

pub record IsEventId (id : EventId) : Type 0 where
  pub name : Text
  pub kind_text : Text
  pub cut : Path.strip_event id ≡ some (name, kind_text)
  pub kind : EventKind
  pub read : Kind.from_str kind_text ≡ ok kind
  pub matched : HasParties name kind

expect-some : {E A : Type 0} (m : Result E A) → ((m >>= λ a. ok (some a)) >>= expect) ≡ m
expect-some (ok a) = refl
expect-some (err e) = refl
expect-some panic = refl

-- The accessors of a text that has a path and a kind.
module _ (id p t : Text) {k : EventKind} (cut : Path.strip_event id ≡ some (p, t))
    (read : Kind.from_str t ≡ ok k) {E : Type 0} where
  pub path_of : path {E = E} id ≡ ok p
  unfolding path
  path_of = rw (cut, path)

  pub event_kind_of : event_kind {E = E} id ≡ ok k
  unfolding event_kind
  event_kind_of = rw (cut, event_kind) (rw (read, event_kind))

  pub both_parties_of :
      {v : Kind.VsMatchKind}
      → k ≡ vs_match v
      → both_parties {E = E} id ≡ first_two (split (Path.last p) b'_')
  unfolding both_parties parties_of
  both_parties_of e =
      rw (event_kind_of, both_parties)
        (rw (e, both_parties)
          (rw (path_of, both_parties) (expect-some (first_two (split (Path.last p) b'_')))))

module _ {id : EventId} (h : IsEventId id) {E : Type 0} where
  pub path_lem : path {E = E} id ≡ ok h.name
  path_lem = path_of id h.name h.kind_text h.cut h.read

  pub event_kind_lem : event_kind {E = E} id ≡ ok h.kind
  event_kind_lem = event_kind_of id h.name h.kind_text h.cut h.read

  pub n_outcomes_lem : n_outcomes {E = E} id ≡ ok (kind_outcomes h.kind)
  unfolding n_outcomes
  n_outcomes_lem = rw (event_kind_lem, n_outcomes)

  pub n_nonces_lem : n_nonces {E = E} id ≡ ok (Kind.n_nonces h.kind)
  unfolding n_nonces
  n_nonces_lem = rw (event_kind_lem, n_nonces)

  pub replace_kind_lem :
      (k : EventKind) → replace_kind {E = E} id k ≡ ok (h.name ++ b'.' ∷ show_kind k)
  unfolding replace_kind
  replace_kind_lem k = rw (path_lem, replace_kind)

  pub both_parties_lem :
      {v : Kind.VsMatchKind} (l r : Text)
      → h.kind ≡ vs_match v
      → split (Path.last h.name) b'_' ≡ l ∷ r ∷ []
      → both_parties {E = E} id ≡ ok (l, r)
  unfolding first_two
  both_parties_lem l r e s = both_parties_of id h.name h.kind_text h.cut h.read e ∙ ap first_two s

-- There are always parts; with one part there is no second.
pub first_two_panic :
    {E : Type 0} (ts : List Text)
    → ts ≢ []
    → first_two {E = E} ts ≡ panic
    → (t : Text) × (ts ≡ t ∷ [])
unfolding first_two
first_two_panic [] n h = absurd (n refl)
first_two_panic (a ∷ []) n h = (a, refl)
first_two_panic (a ∷ b ∷ ts) n h = cc

-- Each valid id has a descriptor, whatever the type of errors around it.
module _ {id : EventId} (h : IsEventId id) where
  kind_descriptor_total :
      (k : EventKind)
      → h.kind ≡ k
      → HasParties h.name k
      → (d : Descriptor) × ((E : Type 0) → kind_descriptor {E = E} id k ≡ ok d)
  unfolding kind_descriptor
  kind_descriptor_total (vs_match win) e (l, r, parts, _) =
      (enum (l ∷ r ∷ []), λ E. rw (both_parties_lem h {E = E} l r e parts) refl)
  kind_descriptor_total (vs_match win_or_draw) e (l, r, parts, _) = (
    enum ((l ++ codes "_win") ∷ (r ++ codes "_win") ∷ codes "draw" ∷ []),
    λ E. rw (both_parties_lem h {E = E} l r e parts) refl,
  )
  kind_descriptor_total single_occurrence e p = (_, λ E. refl)
  kind_descriptor_total (predicate _ _) e p = (_, λ E. refl)
  kind_descriptor_total (price n) e p = (_, λ E. refl)

  pub descriptor_total : (d : Descriptor) × ((E : Type 0) → descriptor {E = E} id ≡ ok d)
  unfolding descriptor
  descriptor_total =
      let (d, e) = kind_descriptor_total h.kind refl h.matched in
      (d, λ E. rw (event_kind_lem h {E = E}, descriptor) (e E))
