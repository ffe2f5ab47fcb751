-- ===== src/Describe/Tables.antt =====
-- olivia_describe/src/lib.rs: the names and addresses of competitions, teams, exchanges and
-- instruments, each match on literals as a list of its arms.
use olivia.Base.{Text, codes, text_eq, if◌then◌else◌, ◌&&◌, Option, none, some, List, [], ◌∷◌, ◌++◌}

-- The first arm for a text.
pub find_arm : List (Text × Text) → Text → Option Text
find_arm [] name = none
find_arm ((literal, value) ∷ arms) name =
    let later = find_arm arms name in if text_eq name literal then some value else later

arm_or_name : Option Text → Text → Text
arm_or_name (some value) name = value
arm_or_name none name = name

abbrev competitions : List (Text × Text)
competitions = (codes "EPL", codes "English Premier League") ∷ []

unfoldable pub lookup_competition : Text → Text
unfolding find_arm arm_or_name
lookup_competition name = arm_or_name (find_arm competitions name) name

abbrev premier_league : List (Text × Text)
premier_league =
    (codes "BRE", codes "Brentford")
    ∷ (codes "ARS", codes "Arsenal")
    ∷ (codes "MUN", codes "Manchested United")
    ∷ (codes "LEE", codes "Leeds United")
    ∷ (codes "BUR", codes "Burnley")
    ∷ (codes "BHA", codes "Brighton and Hove Albion")
    ∷ (codes "CHE", codes "Chelsea")
    ∷ (codes "CRY", codes "Crystal Palace")
    ∷ (codes "EVE", codes "Everton")
    ∷ (codes "SOU", codes "Southampton")
    ∷ (codes "LEI", codes "Leicester City")
    ∷ (codes "WOL", codes "Wolverhampton Wanderers")
    ∷ (codes "WAT", codes "Watford")
    ∷ (codes "AVL", codes "Aston Villa")
    ∷ (codes "NOR", codes "Norwich City")
    ∷ (codes "LIV", codes "Liverpool")
    ∷ (codes "NEW", codes "Newcastle United")
    ∷ (codes "WHU", codes "West Ham United")
    ∷ (codes "TOT", codes "Tottenham Hotspur")
    ∷ (codes "MCI", codes "Manchester City")
    ∷ []

unfoldable pub lookup_team : Text → Text → Text
unfolding find_arm arm_or_name
lookup_team competition name =
    if text_eq competition (codes "EPL")
    then arm_or_name (find_arm premier_league name) name
    else name

abbrev exchanges : List (Text × Text)
exchanges =
    (codes "BitMEX", codes "https://bitmex.com")
    ∷ (codes "Binance", codes "https://binance.com")
    ∷ (codes "FTX", codes "https://ftx.com")
    ∷ []

unfoldable pub exchange_url : Text → Option Text
unfolding find_arm
exchange_url exchange = find_arm exchanges exchange

-- An anchor where there is an address.
link : Option Text → Text → Text
link (some url) name = codes "<a href=\"" ++ url ++ codes "\">" ++ name ++ codes "</a>"
link none name = name

unfoldable pub exchange_link : Text → Text
unfolding exchange_url link
exchange_link exchange = link (exchange_url exchange) exchange

unfoldable pub instrument_url : Text → Text → Option Text
instrument_url exchange instrument =
    if text_eq exchange (codes "BitMEX") && text_eq instrument (codes "BXBT")
    then some (codes "https://www.bitmex.com/app/index/.BXBT")
    else none

unfoldable pub instrument_link : Text → Text → Text
unfolding instrument_url link
instrument_link exchange instrument = link (instrument_url exchange instrument) instrument
