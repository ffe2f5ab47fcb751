-- ===== src/Tests/Loop.antt =====
-- The oracle loop and the API at concrete inputs.
use olivia.Base.{
  ℕ, Text, codes, text_eq, false, none, some, List, [], ◌∷◌, ok, err, panic, ◌≡◌, ◌≢◌, ◌↔◌, refl,
  ap,
}
use olivia.Base.Slices
use olivia.Base.Slices.{ends_with}
use olivia.Path
use olivia.Kind
use olivia.Path.{PathError}
use olivia.EventId.{EventId, n_nonces, descriptor}
use olivia.Event
use olivia.Event.{Event, EventIdError}
use olivia.Event.Crash.{Crashes}
use olivia.Db.{AnnouncedEvent}
use olivia.Db.InMemory.{InMemory, in_memory}
use olivia.Db.InMemory.Laws.{in_memory-IsDb}
use olivia.Oracle.Final.{Extends}
use olivia.OracleLoop.{Incoming, event, outcome, Reaction, info, turn, start}
use olivia.OracleLoop.Final.{start-Extends}
use olivia.OracleLoop.Notice.{turn-Stores}
use olivia.RestApi.{reply_ok, reply_err, DbReadOracle, requested, get_event}
use olivia.RestApi.Replies.{get_event-found, get_event_panic_iff}
use olivia.Tests.Toy.{toy_group, toy_clock, toy_json}
use olivia.Tests.Overwriting.{table, table-IsStore, one_row, one_row-there, one_row-HasOwnIds}
use olivia.Tests.Ids.{red_blue, red_blue_read}
use olivia.Tests.Signing.{price_2, keys, one_stored, attested, nothing_stored, price_is_3}

abbrev updates : List (Incoming toy_clock)
updates =
    event (codes "/x") (record {
      update = record { id = price_2; expected_outcome_time = some 3 };
      processed_notifier = some 1;
    })
    ∷ outcome (codes "/")
        (record { update = record { outcome = price_is_3; time = 8 }; processed_notifier = none })
    ∷ []

start-Extends_example :
    (e' : AnnouncedEvent toy_group toy_clock) × (table.get_announced_event
        (start table toy_json keys {E = Text} one_row updates).0
        price_2
      ≡ ok (some e'))
    × Extends attested e'
start-Extends_example =
    start-Extends Text table toy_json keys updates one_row price_2 attested table-IsStore
      one_row-HasOwnIds (ap ok one_row-there)

abbrev oracle : DbReadOracle toy_group toy_clock ℕ (InMemory toy_group toy_clock) Text
oracle = record {
  get_announced_event = in_memory.get_announced_event;
  get_public_keys = in_memory.get_public_keys;
  get_node = λ s p. ok none;
}

abbrev shown : {A : Type 0} → A → Text
shown a = []

get_event-found_example :
    ((e : AnnouncedEvent toy_group toy_clock)
      → oracle.get_announced_event one_stored (requested (codes "foo/RED_BLUE.vs") none)
        ≡ ok (some e)
      → get_event oracle shown shown one_stored (reply_ok (codes "foo/RED_BLUE.vs")) none
        ≡ ok (reply_ok (record { announcement = e.announcement; attestation = e.attestation })))
    × (oracle.get_announced_event one_stored (requested (codes "foo/RED_BLUE.vs") none) ≡ ok none
        → get_event oracle shown shown one_stored (reply_ok (codes "foo/RED_BLUE.vs")) none
          ≡ ok (reply_err (record { code = 404; error = codes "Not Found" })))
    × ((failure : Text)
        → oracle.get_announced_event one_stored (requested (codes "foo/RED_BLUE.vs") none)
          ≡ err failure
        → get_event oracle shown shown one_stored (reply_ok (codes "foo/RED_BLUE.vs")) none
          ≡ ok (reply_err (record { code = 500; error = codes "Internal Server Error" })))
unfolding ends_with text_eq requested
get_event-found_example =
    get_event-found oracle shown shown one_stored (codes "foo/RED_BLUE.vs") none refl red_blue_read

calm : (id : EventId) → oracle.get_announced_event one_stored id ≢ panic
unfolding in_memory
calm id h = cc

get_event_panic_iff_example :
    (get_event oracle shown shown one_stored (reply_ok (codes "foo.vs=bar_win")) none ≡ panic) ↔ (
      Crashes (requested (codes "foo.vs=bar_win") none)
      × (ends_with (codes "foo.vs=bar_win") (codes "/") ≡ false))
get_event_panic_iff_example =
    get_event_panic_iff oracle shown shown one_stored (codes "foo.vs=bar_win") none calm

abbrev created : Reaction
created = record { notified = some (4, false); line = (info, codes "created") }

abbrev later : Event ℕ
later = record { id = red_blue; expected_outcome_time = some 3 }

abbrev stores_later : Incoming toy_clock
stores_later = event (codes "/x") (record { update = later; processed_notifier = some 4 })

turned : (turn in_memory toy_json keys {E = Text} nothing_stored stores_later).1 ≡ ok created
unfolding turn in_memory n_nonces Path.strip_event Slices.rsplit_once Event.prefix_path
    Path.prefix_path text_eq Slices.split_once Kind.from_str descriptor Slices.split Path.last
turned = refl

turn-Stores_example :
    (new : AnnouncedEvent toy_group toy_clock) × (new.event ≡ Event.prefix_path later (codes "/x"))
    × (new.attestation ≡ none)
    × (in_memory.get_announced_event nothing_stored new.event.id ≡ ok none)
    × (in_memory.get_announced_event
          (turn in_memory toy_json keys {E = Text} nothing_stored stores_later).0
          new.event.id
        ≡ ok (some new))
turn-Stores_example =
    turn-Stores Text in_memory toy_json keys nothing_stored (codes "/x") later 4 created
      in_memory-IsDb turned refl
