-- ===== src/Describe/Paths.antt =====
-- olivia_describe/src/lib.rs: the descriptions of paths, and the kind of node that a path suggests.
pub mod Agree
use olivia.Base.{
  ℕ, zero, suc, ◌-◌, Text, codes, text_eq, Bool, true, false, ◌&&◌, if◌then◌else◌, Option, none,
  some, List, [], ◌∷◌, ◌++◌, length, get_elem?, Result, ok, err, panic, ◌>>=◌, ok_or, map_err,
}
use olivia.Base.Slices.{split_once, split}
use olivia.Base.Decimal.{parse_uint, u8_max}
use olivia.Path
use olivia.Node.{NodeKind, list, date_map}
use olivia.Describe.Tables.{lookup_competition, lookup_team, exchange_link, instrument_link}

-- An `Option` whose computation may panic; an error is `None`.
abbrev pub Maybe : Type 0 → Type 0
Maybe A = Result (Unit {0}) A

pub record DateTime : Type 0 where
  pub year : ℕ
  pub month : ℕ
  pub day : ℕ
  pub hour : ℕ
  pub minute : ℕ
  pub second : ℕ

u16_max : ℕ
u16_max = 65535

-- `from_str(..).ok()?`.
read : ℕ → Text → Maybe ℕ
read max s = ok_or (parse_uint max s) tt

read_time : ℕ → ℕ → ℕ → List Text → Maybe DateTime
unfolding read
read_time year month day (h ∷ m ∷ s ∷ []) = do
  hour ← read u8_max h
  minute ← read u8_max m
  second ← read u8_max s
  ok (record {
    year = year;
    month = month;
    day = day;
    hour = hour;
    minute = minute;
    second = second;
  })
read_time year month day _ = err tt

read_date : List Text → Text → Maybe DateTime
unfolding read_time u16_max
read_date (y ∷ m ∷ d ∷ []) hms = do
  year ← read u16_max y
  month ← read u8_max m
  day ← read u8_max d
  read_time year month day (split hms b':')
read_date _ hms = err tt

-- `DateTime::parse`.
unfoldable pub parse : Text → Maybe DateTime
unfolding read_date
parse dt = do parts ← ok_or (split_once dt b'T') tt; read_date (split parts.0 b'-') parts.1

is_date_time : Text → Bool
unfolding parse
is_date_time dt = elim (parse dt) [ ok _ ↦ true | err _ ↦ false | panic ↦ false ]

-- The two names on the sides of an underscore, `next()?` twice.
first_two_names : List Text → Maybe (Text × Text)
first_two_names (left ∷ right ∷ _) = ok (left, right)
first_two_names _ = err tt

-- The arms below `["s", competition, "match", tail @ ..]`.
matches_short : Text → List Text → Maybe Text
unfolding first_two_names
matches_short competition [] = ok (lookup_competition competition ++ codes " matches")
matches_short competition (date ∷ []) =
    ok (lookup_competition competition ++ codes " matches set to be played on " ++ date)
matches_short competition (date ∷ teams ∷ []) = do
  names ← first_two_names (split teams b'_')
  ok (
      lookup_competition competition
      ++ codes " match "
      ++ lookup_team competition names.0
      ++ codes " vs "
      ++ lookup_team competition names.1
      ++ codes " on "
      ++ date)
matches_short competition _ = err tt

sport_short : List Text → Maybe Text
unfolding matches_short
sport_short [] = ok (codes "sport and Esport competitions")
sport_short (competition ∷ []) = ok (lookup_competition competition)
sport_short (competition ∷ word ∷ tail) =
    if text_eq word (codes "match") then matches_short competition tail else err tt

time_short : List Text → Text
time_short [] = codes "events that mark the passage of time"
time_short (time ∷ _) = codes "events that indicate when " ++ time ++ codes " has passed"

random_short : List Text → Text
random_short [] = codes "events with a random outcome chosen by the oracle"
random_short (time ∷ _) = codes "events whose outcome will be randomly chosen at " ++ time

exchange_short : List Text → Maybe Text
unfolding is_date_time
exchange_short [] = ok (codes "exchange rates and prices")
exchange_short (exchange ∷ []) = ok (codes "exchange rates and prices on " ++ exchange)
exchange_short (exchange ∷ instrument ∷ []) = ok (instrument ++ codes " on " ++ exchange)
exchange_short (exchange ∷ instrument ∷ time ∷ []) =
    if is_date_time time
    then ok (instrument ++ codes " on " ++ exchange ++ codes " at " ++ time)
    else err tt
exchange_short _ = err tt

-- The match on the segments, by the first one.
segments_short : List Text → Maybe Text
unfolding sport_short time_short random_short exchange_short
segments_short [] = err tt
segments_short (first ∷ rest) =
    if text_eq first (codes "s")
    then sport_short rest
    else if text_eq first (codes "random")
    then ok (random_short rest)
    else if text_eq first (codes "time")
    then ok (time_short rest)
    else if text_eq first (codes "x")
    then exchange_short rest
    else err tt

unfoldable pub path_short : Text → Maybe Text
unfolding segments_short
path_short path = segments_short (Path.segments path)

-- `Path::from_str(path).ok()?`.
read_path : Text → Maybe Text
read_path path = map_err (λ _. tt) (Path.from_str path)

unfoldable pub path_short_str : Text → Maybe Text
unfolding path_short read_path
path_short_str path = read_path path >>= path_short

-- The text of html/random.html.
abbrev random_html : Text
random_html =
    codes "Events with a random outcome chosen by the oracle."
    ++ b'\n' ∷ codes "<b>These events do not have any real world meaning.</b>"
    ++ b'\n'
      ∷ codes
          "The oracle will uniformly sample an outcome for each event and attest to it at the indicated time."
    ++ b'\n' ∷ []

exchange_html : Text → List Text → Maybe Text
unfolding is_date_time
exchange_html path (exchange ∷ []) =
    ok (codes "Exchange rates and prices on <b>" ++ exchange_link exchange ++ codes "</b>")
exchange_html path (exchange ∷ instrument ∷ []) = ok (
    codes "<b>"
    ++ instrument_link exchange instrument
    ++ codes "</b> on <b>"
    ++ exchange_link exchange
    ++ codes "</b>")
exchange_html path (exchange ∷ instrument ∷ time ∷ []) =
    if is_date_time time
    then ok (
        codes "<b>"
        ++ instrument_link exchange instrument
        ++ codes "</b> on <b>"
        ++ exchange_link exchange
        ++ codes "</b> at <b>"
        ++ time
        ++ codes "</b>")
    else path_short path
exchange_html path _ = path_short path

segments_html : Text → List Text → Maybe Text
unfolding exchange_html
segments_html path [] = path_short path
segments_html path (first ∷ []) =
    if text_eq first (codes "random") then ok random_html else path_short path
segments_html path (first ∷ rest) =
    if text_eq first (codes "x") then exchange_html path rest else path_short path

unfoldable pub path_html_str : Text → Maybe Text
unfolding segments_html read_path
path_html_str path = read_path path >>= λ p. segments_html p (Path.segments p)

-- `segments.get(segments.len() - 1)?`; there is no `len() - 1` of nothing.
last_segment : List Text → Maybe Text
last_segment [] = panic
last_segment (s ∷ ss) = ok_or (get_elem? (s ∷ ss) (length (s ∷ ss) - 1)) tt

sport_name : List Text → List Text → Maybe Text
unfolding first_two_names last_segment
sport_name all [] = ok (codes "Sport")
sport_name all (competition ∷ []) = ok (lookup_competition competition)
sport_name all (competition ∷ word ∷ _ ∷ teams ∷ []) =
    if text_eq word (codes "match")
    then first_two_names (split teams b'_') >>= (λ names.
      ok (lookup_team competition names.0 ++ codes " vs " ++ lookup_team competition names.1))
    else last_segment all
sport_name all _ = last_segment all

exchange_name : Text → List Text → Maybe Text
unfolding last_segment
exchange_name first [] =
    if text_eq first (codes "x") then ok (codes "Exchange rates") else last_segment (first ∷ [])
exchange_name first rest = last_segment (first ∷ rest)

-- The match on the segments.
long_name : List Text → Maybe Text
unfolding sport_name exchange_name
long_name [] = last_segment []
long_name (first ∷ rest) =
    if text_eq first (codes "s") then sport_name (first ∷ rest) rest else exchange_name first rest

unfoldable pub long_path_name_str : Text → Maybe Text
unfolding long_name read_path
long_path_name_str path = read_path path >>= λ p. long_name (Path.segments p)

is_match_list : List Text → Bool
is_match_list (first ∷ _ ∷ word ∷ []) = text_eq first (codes "s") && text_eq word (codes "match")
is_match_list _ = false

unfoldable pub infer_node_kind : Text → NodeKind
unfolding is_match_list
infer_node_kind path = if is_match_list (Path.segments path) then date_map else list
