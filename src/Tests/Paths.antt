-- ===== src/Tests/Paths.antt =====
-- Paths at concrete inputs.
use olivia.Base.{Lacks, codes, text_eq, true, ◌≡◌, ◌↔◌, refl, ◌∷◌, ◌++◌, some, arith}
use olivia.Path.{
  root, is_parent_of, segments, strip_event, from_str, prefix_path, strip_prefix_path,
}
use olivia.Path.Prefix.{
  IsPath, strip_prefix_path-prefix_path, prefix_path-IsPath, segments-prefix_path,
}
use olivia.Path.Prefix
use olivia.Path.Parent.{IsBelow, is_parent_of_iff}
use olivia.Path.Events.{IsEventPath, strip_event-append, strip_event-eq-some}
use olivia.Base.Slices.{rsplit_once, split_once}

foo-IsPath : IsPath (codes "/foo")
unfolding from_str text_eq
foo-IsPath = refl

bar-IsPath : IsPath (codes "/bar/baz")
unfolding from_str text_eq
bar-IsPath = refl

foo_baz : IsEventPath (codes "/foo/baz")
foo_baz = record {
  before = codes "/foo";
  name = codes "baz";
  parts = refl;
  no_slash = omega arith;
  no_dot = omega arith;
}

foo_baz_cut : strip_event (codes "/foo/baz.price?n=6") ≡ some (codes "/foo/baz", codes "price?n=6")
unfolding strip_event rsplit_once split_once
foo_baz_cut = refl

strip_prefix_path-prefix_path_example :
    strip_prefix_path (prefix_path (codes "/bar/baz") (codes "/foo")) (codes "/foo")
    ≡ codes "/bar/baz"
strip_prefix_path-prefix_path_example =
    strip_prefix_path-prefix_path (codes "/bar/baz") (codes "/foo") (λ e. cc)

prefix_path_action_example :
    (prefix_path (prefix_path (codes "/bar/baz") (codes "/foo")) (codes "/qux")
      ≡ prefix_path (codes "/bar/baz") (prefix_path (codes "/foo") (codes "/qux")))
    × (prefix_path (codes "/bar/baz") root ≡ codes "/bar/baz")
prefix_path_action_example =
    Prefix.prefix_path_action (codes "/bar/baz") (codes "/foo") (codes "/qux")

prefix_path-IsPath_example : IsPath (prefix_path (codes "/bar/baz") (codes "/foo"))
prefix_path-IsPath_example =
    prefix_path-IsPath (codes "/bar/baz") (codes "/foo") bar-IsPath foo-IsPath

segments-prefix_path_example :
    segments (prefix_path (codes "/bar/baz") (codes "/foo"))
    ≡ segments (codes "/foo") ++ segments (codes "/bar/baz")
segments-prefix_path_example =
    segments-prefix_path (codes "/bar/baz") (codes "/foo") bar-IsPath (λ e. cc) (λ e. cc)

is_parent_of_iff_example :
    (is_parent_of (codes "/foo") (codes "/foo/bar") ≡ true)
    ↔ IsBelow (codes "/foo") (codes "/foo/bar")
is_parent_of_iff_example =
    is_parent_of_iff (codes "/foo") (codes "/foo/bar") (codes "foo/bar") (λ e. cc) refl

strip_event-append_example :
    strip_event (codes "/foo/baz" ++ b'.' ∷ codes "price?n=6")
    ≡ some (codes "/foo/baz", codes "price?n=6")
strip_event-append_example = strip_event-append foo_baz (codes "price?n=6") (omega arith)

strip_event-eq-some_example :
    IsEventPath (codes "/foo/baz")
    × (codes "/foo/baz.price?n=6" ≡ codes "/foo/baz" ++ b'.' ∷ codes "price?n=6")
    × Lacks b'/' (codes "price?n=6")
strip_event-eq-some_example =
    strip_event-eq-some (codes "/foo/baz.price?n=6") (codes "/foo/baz") (codes "price?n=6")
      foo_baz_cut
