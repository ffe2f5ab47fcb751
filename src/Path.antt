-- ===== src/Path.antt =====
-- olivia_core/src/path.rs: paths and their parts. A `Path` and a `PathRef` are both the text that
-- they hold; the proofs are in the modules below this one.
pub mod Prefix
pub mod Parent
pub mod Events
use olivia.Base.{
  ℕ, zero, suc, Text, codes, text_eq, Bool, true, false, not, ◌&&◌, ◌||◌, if◌then◌else◌, Option,
  none, some, List, [], ◌∷◌, ◌++◌, length, Result, ok, err,
}
use olivia.Base.Slices.{split_once, rsplit_once, split, starts_with, strip_prefix, ends_with}
use mathlib.Core.List.{tail, head?, get_last?}

pub data PathError : Type 0 where
  bad_format : PathError

-- `PathRef::root` and `Path::root`.
abbrev pub root : Text
root = codes "/"

unfoldable pub is_root : Text → Bool
is_root p = text_eq p root

-- `rfind('/')`, and the part before it; an empty part is the root.
unfoldable pub parent : Text → Option Text
unfolding is_root
parent p = if is_root p then none else elim (rsplit_once p b'/') [
  | none ↦ none
  | some (before, behind) ↦ if text_eq before [] then some root else some before
]

-- The recursion of `is_parent_of` on fuel; each parent is shorter than its path.
parent_search : ℕ → Text → Text → Bool
parent_search zero p q = false
parent_search (suc fuel) p q =
    let up : Bool = elim (parent q) [ some r ↦ parent_search fuel p r | none ↦ false ] in
    if text_eq q p then true else up

unfoldable pub is_parent_of : Text → Text → Bool
unfolding parent_search
is_parent_of p q = parent_search (suc (length q)) p q

-- The parts between the slashes, without what stands before the first.
unfoldable pub segments : Text → List Text
segments p = tail (split p b'/')

-- `first`.
unfoldable pub first : Text → Option Text
unfolding segments
first p = head? (segments p)

-- Cuts an event's text behind the last slash at the first dot.
unfoldable pub strip_event : Text → Option (Text × Text)
strip_event p = elim (rsplit_once p b'/') [
  | none ↦ none
  | some (before, last_segment) ↦ elim (split_once last_segment b'.') [
    | none ↦ none
    | some (name, kind) ↦ some (before ++ b'/' ∷ name, kind)
  ]
]

unfoldable pub last : Text → Text
last p = elim (rsplit_once p b'/') [ none ↦ p | some (before, behind) ↦ behind ]

-- `Path::from_str`.
unfoldable pub from_str : Text → Result PathError Text
unfolding starts_with ends_with
from_str s =
    if not (starts_with s root) || (ends_with s root && not (text_eq s root))
    then err bad_format
    else ok s

unfoldable pub prefix_path : Text → Text → Text
unfolding is_root
prefix_path x p = if is_root x then p else if is_root p then x else p ++ x

unfoldable pub strip_prefix_path : Text → Text → Text
unfolding is_root
strip_prefix_path x p = if is_root p then x else elim (strip_prefix x p) [ some t ↦ t | none ↦ x ]

unfoldable pub child : Text → Text → Text
unfolding prefix_path
child p name = prefix_path (b'/' ∷ name) p
