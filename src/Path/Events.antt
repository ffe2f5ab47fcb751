-- ===== src/Path/Events.antt =====
-- `strip_event` and `last`: the name and the kind of an event.
use olivia.Base.{
  Text, Option, some, Option-cases, inl, inr, ◌∷◌, ◌++◌, ◌≡◌, sym, ap, ◌∙◌, arith, Lacks,
  All-append, All-append_left, All-append_right, subst, append_assoc,
}
use olivia.Base.Slices.{
  split_once, split_once-append, split_once-eq-some, rsplit_once, rsplit_once-append,
  rsplit_once-eq-some,
}
use mathlib.Core.Path.{ap₂}
use olivia.Path.{strip_event, last}

-- The path of an event: a last segment that has no dot.
pub record IsEventPath (p : Text) : Type 0 where
  pub before : Text
  pub name : Text
  pub parts : p ≡ before ++ b'/' ∷ name
  pub no_slash : Lacks b'/' name
  pub no_dot : Lacks b'.' name

module _ {p : Text} (h : IsEventPath p) where
  pub last_of_IsEventPath : last p ≡ h.name
  unfolding last
  last_of_IsEventPath = rw (h.parts, rsplit_once-append h.before h.name b'/' h.no_slash, last)

  -- An event's path (a last segment without a dot behind a slash), a dot and a kind are taken apart
  -- again, if no slash stands in the kind.
  pub strip_event-append :
      (kind : Text) → Lacks b'/' kind → strip_event (p ++ b'.' ∷ kind) ≡ some (p, kind)
  unfolding strip_event
  strip_event-append kind k =
      let cut : rsplit_once (p ++ b'.' ∷ kind) b'/' ≡ some (h.before, h.name ++ b'.' ∷ kind) =
        ap (λ q. rsplit_once (q ++ b'.' ∷ kind) b'/') h.parts
        ∙ ap (λ q. rsplit_once q b'/') (append_assoc h.before (b'/' ∷ h.name) (b'.' ∷ kind))
        ∙ rsplit_once-append h.before (h.name ++ b'.' ∷ kind) b'/'
            (All-append _ h.name (b'.' ∷ kind) h.no_slash ((λ e. cc), k)) in
      rw (cut, split_once-append h.name kind b'.' h.no_dot, strip_event)
        (ap (λ q. Option.some (q, kind)) (sym h.parts))

-- What a text is taken apart into: an event's path and a kind without a slash, which make the text
-- with a dot between them.
pub strip_event-eq-some :
    (s p kind : Text)
    → strip_event s ≡ some (p, kind)
    → IsEventPath p × (s ≡ p ++ b'.' ∷ kind) × Lacks b'/' kind
unfolding strip_event
strip_event-eq-some s p kind h = elim (Option-cases (rsplit_once s b'/')) [
  | inl missing ↦ absurd (ground arith)
  | inr ((before, tail), found) ↦ elim (Option-cases (split_once tail b'.')) [
    | inl missing ↦ absurd (ground arith)
    | inr ((name, k), cut) ↦
        let (whole, no_slash) = rsplit_once-eq-some s b'/' found in
        let (parts, no_dot) = split_once-eq-some tail b'.' cut in
        let split_slash = subst (Lacks b'/') parts no_slash in
        let same_p : p ≡ before ++ b'/' ∷ name = ground arith in
        let same_k : kind ≡ k = ground arith in
        (
          record {
            before = before;
            name = name;
            parts = same_p;
            no_slash = All-append_left _ name (b'.' ∷ k) split_slash;
            no_dot = no_dot;
          },
          whole
              ∙ ap (λ t. before ++ b'/' ∷ t) parts
              ∙ sym (append_assoc before (b'/' ∷ name) (b'.' ∷ k))
              ∙ ap₂ (λ q r. q ++ b'.' ∷ r) (sym same_p) (sym same_k),
          rw same_k (All-append_right _ name (b'.' ∷ k) split_slash).1,
        )
  ]
]
