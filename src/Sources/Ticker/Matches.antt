-- ===== src/Sources/Ticker/Matches.antt =====
-- olivia/src/sources/ticker.rs: the events of a ticker are those that its query finds, where the loop
-- has put them below the path of the source.
use olivia.Base.{
  ℕ, Text, text_eq, text_eq_iff, text_eq_refl, Lacks, Bool-cases, true, false, ◌||◌, if◌then◌else◌,
  some, [], ◌∷◌, ◌++◌, append_assoc, append_inj_tail, ok, ◌≡◌, ◌≢◌, ◌⊎◌, inl, inr, refl, sym, ap,
  ◌∙◌, subst, arith,
}
use olivia.Base.Slices.{starts_with, starts_with-append, ends_with}
use olivia.Path
use olivia.Path.Events.{IsEventPath, strip_event-append}
use olivia.Kind
use olivia.Kind.{EventKind, show_kind, kind_eq}
use olivia.Kind.Equal.{kind_eq_refl}
use olivia.EventId.{from_path_and_kind}
use olivia.EventId.Valid.{path_of, event_kind_of}
use olivia.Event
use olivia.Event.{Event}
use olivia.Group.{Group, Chrono}
use olivia.Db.{AnnouncedEvent}
use olivia.Db.InMemory.Query.{matches, kind_matches, path_matches, attested_matches}
use olivia.Db.Read.{prefixed_query}
use olivia.Sources.Ticker.{Calendar, TimeEventStream, from_dt, create_update, latest_query}

-- What is known of a ticker: a time is printed as a part of a path, its events end with a path that an
-- event may have or with the root, and the kind can be read again.
pub record IsTicker {T : Chrono} {cal : Calendar T} (ticker : TimeEventStream T cal) : Type 0 where
  pub show-ne-nil : (t : T.Time) → cal.show t ≢ []
  pub show-Lacks_slash : (t : T.Time) → Lacks b'/' (cal.show t)
  pub show-Lacks_dot : (t : T.Time) → Lacks b'.' (cal.show t)
  pub ends_with_path : (ticker.ends_with ≡ Path.root) ⊎ IsEventPath ticker.ends_with
  pub kind_read : Kind.from_str (show_kind ticker.event_kind) ≡ ok ticker.event_kind
  pub kind-Lacks_slash : Lacks b'/' (show_kind ticker.event_kind)

IsEventPath-append : (p x : Text) → IsEventPath x → IsEventPath (p ++ x)
IsEventPath-append p x h = record {
  before = p ++ h.before;
  name = h.name;
  parts = ap (λ t. p ++ t) h.parts ∙ sym (append_assoc p h.before (b'/' ∷ h.name));
  no_slash = h.no_slash;
  no_dot = h.no_dot;
}

ends_with-append : (p x : Text) → ends_with (p ++ x) x ≡ true
unfolding ends_with text_eq
ends_with-append [] [] = refl
ends_with-append [] (c ∷ x) = rw (text_eq_refl (c ∷ x), ends_with) refl
ends_with-append (c ∷ p) x = elim (Bool-cases (text_eq (c ∷ p ++ x) x)) [
  | inl e ↦ rw (e, ends_with) refl
  | inr e ↦ rw (e, ends_with) (ends_with-append p x)
]

append-ne-nil : (s t : Text) → s ≢ [] → s ++ t ≢ []
append-ne-nil [] t n e = n refl
append-ne-nil (c ∷ s) t n e = cc

false-ne-true : false ≢ true
false-ne-true e = cc

-- A text below a path, which adds nothing where it is the root.
abbrev pub below : Text → Text → Text
below x parent = if Path.is_root parent then x else parent ++ x

not_root : (c : ℕ) (s : Text) → s ≢ [] → Path.is_root (c ∷ s) ≡ false
unfolding Path.is_root text_eq
not_root c [] n = absurd (n refl)
not_root c (d ∷ s) n = ground arith

prefix_below :
    (c : ℕ) (s parent : Text) → s ≢ [] → Path.prefix_path (c ∷ s) parent ≡ below (c ∷ s) parent
unfolding Path.prefix_path
prefix_below c s parent n = rw (not_root c s n, Path.prefix_path) refl

below-cases :
    (x parent : Text)
    → ((Path.is_root parent ≡ true) × (below x parent ≡ x))
      ⊎ ((Path.is_root parent ≡ false) × (below x parent ≡ parent ++ x))
below-cases x parent = elim (Bool-cases (Path.is_root parent)) [
  | inl e ↦ inl (e, rw e refl)
  | inr e ↦ inr (e, rw e refl)
]

below-append : (x y parent : Text) → below x parent ++ y ≡ below (x ++ y) parent
below-append x y parent = elim (Bool-cases (Path.is_root parent)) [
  | inl e ↦ rw e refl
  | inr e ↦ rw e (append_assoc parent x y)
]

below-IsEventPath : (x parent : Text) → IsEventPath x → IsEventPath (below x parent)
below-IsEventPath x parent h = elim (below-cases x parent) [
  | inl (_, e) ↦ subst IsEventPath (sym e) h
  | inr (_, e) ↦ subst IsEventPath (sym e) (IsEventPath-append parent x h)
]

module _ {T : Chrono} {cal : Calendar T} (ticker : TimeEventStream T cal) (h : IsTicker ticker)
    (parent : Text) (dt : T.Time) where
  dt_path : IsEventPath (from_dt cal dt)
  unfolding from_dt
  dt_path = record {
    before = [];
    name = cal.show dt;
    parts = refl;
    no_slash = h.show-Lacks_slash dt;
    no_dot = h.show-Lacks_dot dt;
  }

  -- The path of the event before the loop puts it below the source's: the time, and the ending.
  pub own_path : Text
  own_path =
      if Path.is_root ticker.ends_with then from_dt cal dt else from_dt cal dt ++ ticker.ends_with

  dt-ne-root : Path.is_root (from_dt cal dt) ≡ false
  unfolding from_dt
  dt-ne-root = not_root b'/' (cal.show dt) (h.show-ne-nil dt)

  own_path_lem : Path.prefix_path ticker.ends_with (from_dt cal dt) ≡ own_path
  unfolding own_path Path.prefix_path
  own_path_lem = elim (Bool-cases (Path.is_root ticker.ends_with)) [
    | inl e ↦ rw (e, Path.prefix_path) refl
    | inr e ↦ rw (e, Path.prefix_path) (rw (dt-ne-root, Path.prefix_path) refl)
  ]

  -- The two forms of the path.
  pub own-cases :
      ((Path.is_root ticker.ends_with ≡ true) × (own_path ≡ from_dt cal dt))
      ⊎ ((Path.is_root ticker.ends_with ≡ false) × (own_path ≡ from_dt cal dt ++ ticker.ends_with))
  unfolding own_path
  own-cases = elim (Bool-cases (Path.is_root ticker.ends_with)) [
    | inl e ↦ inl (e, rw e refl)
    | inr e ↦ inr (e, rw e refl)
  ]

  own_path-slash : (s : Text) × (own_path ≡ b'/' ∷ s) × (s ≢ [])
  unfolding from_dt
  own_path-slash = elim own-cases [
    | inl (_, e) ↦ (cal.show dt, e, h.show-ne-nil dt)
    | inr (_, e) ↦ (cal.show dt ++ ticker.ends_with, e, append-ne-nil _ _ (h.show-ne-nil dt))
  ]

  own_path-IsEventPath : IsEventPath own_path
  unfolding Path.is_root
  own_path-IsEventPath = elim own-cases [
    | inl (_, e) ↦ subst IsEventPath (sym e) dt_path
    | inr (differ, e) ↦ elim h.ends_with_path [
      | inl is_root ↦
          absurd (false-ne-true (sym differ ∙ (text_eq_iff ticker.ends_with Path.root).1 is_root))
      | inr ending ↦
          subst IsEventPath (sym e) (IsEventPath-append (from_dt cal dt) ticker.ends_with ending)
    ]
  ]

  abbrev pub emitted : Event T.Time
  emitted = Event.prefix_path (create_update ticker dt) parent

  pub emitted_id : emitted.id ≡ below own_path parent ++ b'.' ∷ show_kind ticker.event_kind
  unfolding create_update from_path_and_kind Event.prefix_path
  emitted_id =
      let (s, slash, n) = own_path-slash in
      let made : (create_update ticker dt).id ≡ b'/' ∷ (s ++ b'.' ∷ show_kind ticker.event_kind) =
        ap (λ x. x ++ b'.' ∷ show_kind ticker.event_kind) (own_path_lem ∙ slash) in
      ap (λ x. Path.prefix_path x parent) made
      ∙ prefix_below b'/' (s ++ b'.' ∷ show_kind ticker.event_kind) parent (append-ne-nil _ _ n)
      ∙ sym (below-append (b'/' ∷ s) (b'.' ∷ show_kind ticker.event_kind) parent)
      ∙ ap (λ x. below x parent ++ b'.' ∷ show_kind ticker.event_kind) (sym slash)

  pub emitted_cut :
      Path.strip_event emitted.id ≡ some (below own_path parent, show_kind ticker.event_kind)
  emitted_cut =
      ap Path.strip_event emitted_id
      ∙ strip_event-append (below-IsEventPath own_path parent own_path-IsEventPath)
          (show_kind ticker.event_kind) h.kind-Lacks_slash

  starts_below : starts_with (below own_path parent) parent ≡ true
  unfolding Path.is_root starts_with
  starts_below = elim (below-cases own_path parent) [
    | inl (top, e) ↦
        let is : parent ≡ Path.root = (text_eq_iff parent Path.root).0 top in
        let (s, slash, _) = own_path-slash in
        ap (λ x. starts_with x parent) (e ∙ slash) ∙ ap (starts_with (b'/' ∷ s)) is
    | inr (_, e) ↦ ap (λ x. starts_with x parent) e ∙ starts_with-append parent own_path
  ]

  ends_right :
      (Path.is_root ticker.ends_with || ends_with (below own_path parent) ticker.ends_with) ≡ true
  ends_right = elim own-cases [
    | inl (e, _) ↦ rw e refl
    | inr (e, own) ↦ rw e (
        ap (λ x. ends_with x ticker.ends_with)
          (ap (λ x. below x parent) own
            ∙ sym (below-append (from_dt cal dt) ticker.ends_with parent))
        ∙ ends_with-append (below (from_dt cal dt) parent) ticker.ends_with)
  ]

  root_below : Path.prefix_path Path.root parent ≡ parent
  unfolding Path.prefix_path Path.is_root text_eq
  root_below = refl

  paths_match :
      path_matches (prefixed_query parent (latest_query ticker)) (below own_path parent) ≡ true
  unfolding path_matches prefixed_query latest_query
  paths_match = rw root_below (rw starts_below ends_right)

  -- The event, however it is announced and attested to, is found by the ticker's query.
  pub emitted-matches :
      {C : Group} {E : Type 0} (a : AnnouncedEvent C T)
      → a.event ≡ emitted
      → matches {E = E} (prefixed_query parent (latest_query ticker)) a ≡ ok true
  unfolding matches kind_matches attested_matches prefixed_query latest_query
  emitted-matches {C} {E} a e =
      let cut = ap (λ (x : Event T.Time). Path.strip_event x.id) e ∙ emitted_cut in
      let name = below own_path parent in
      let text = show_kind ticker.event_kind in
      rw (path_of a.event.id name text cut h.kind_read {E = E}, matches)
        (rw (paths_match, matches)
          (rw (event_kind_of a.event.id name text cut h.kind_read {E = E}, kind_matches)
            (rw (kind_eq_refl ticker.event_kind, matches) refl)))

append-inj : (p s t : Text) → p ++ s ≡ p ++ t → s ≡ t
append-inj [] s t e = e
append-inj (c ∷ p) s t e = append-inj p s t (cc)

below-inj : (s t parent : Text) → below s parent ≡ below t parent → s ≡ t
below-inj s t parent e = elim (Bool-cases (Path.is_root parent)) [
  | inl top ↦ rw top at e
  | inr under ↦ append-inj parent s t (rw under at e)
]

module _ {T : Chrono} {cal : Calendar T} (ticker : TimeEventStream T cal) (h : IsTicker ticker)
    (parent : Text) (s t : T.Time) where
  own_path-inj : own_path ticker h parent s ≡ own_path ticker h parent t → cal.show s ≡ cal.show t
  unfolding own_path from_dt
  own_path-inj e = elim (Bool-cases (Path.is_root ticker.ends_with)) [
    | inl top ↦ let e' = rw top at e in cc
    | inr under ↦
        let e' = rw under at e in
        (append_inj_tail (cal.show s) ticker.ends_with (cal.show t) ticker.ends_with refl (cc)).0
  ]

  -- Events at times that are printed differently have different ids.
  pub emitted-inj :
      (emitted ticker h parent s).id ≡ (emitted ticker h parent t).id → cal.show s ≡ cal.show t
  emitted-inj e = own_path-inj (
      below-inj (own_path ticker h parent s) (own_path ticker h parent t) parent
        (append_inj_tail (below (own_path ticker h parent s) parent)
          (b'.' ∷ show_kind ticker.event_kind) (below (own_path ticker h parent t) parent)
          (b'.' ∷ show_kind ticker.event_kind) refl
          (sym (emitted_id ticker h parent s) ∙ e ∙ emitted_id ticker h parent t)).0)
