-- ===== src/RestApi.antt =====
-- olivia/src/rest_api.rs, with the responses of olivia_core/src/http.rs: what the API replies to a
-- request. The routing of warp and the serialising of the replies are left out.
pub mod Replies
use olivia.Base.{
  ℕ, Text, codes, Bool, true, false, if◌then◌else◌, Option, none, some, List, [], ◌∷◌, ◌++◌, Result,
  ok, err, panic, ◌>>=◌,
}
use olivia.Base.Slices.{ends_with, strip_suffix}
use olivia.Path
use olivia.Path.{PathError}
use olivia.EventId.{EventId}
use olivia.Event
use olivia.Event.{EventIdError}
use olivia.Group.{Group, Chrono}
use olivia.Announcement.{RawAnnouncement, OracleKeys}
use olivia.Attestation.{Attestation}
use olivia.Node.{GetPath}
use olivia.Db.{AnnouncedEvent}

pub record ErrorMessage : Type 0 where
  pub code : ℕ
  pub error : Text

pub data ApiReply (A : Type 0) : Type 0 where
  reply_ok : A → ApiReply A
  reply_err : ErrorMessage → ApiReply A

-- `from_status` of the three statuses, with warp's canonical reasons.
unfoldable pub not_found : ErrorMessage
not_found = record { code = 404; error = codes "Not Found" }

unfoldable pub internal_server_error : ErrorMessage
internal_server_error = record { code = 500; error = codes "Internal Server Error" }

unfoldable pub bad_request : ErrorMessage
bad_request = record { code = 400; error = codes "Bad Request" }

unfoldable pub with_message : ErrorMessage → Text → ErrorMessage
with_message e message = record e { error = message }

pub record EventResponse (C : Group) (T : Chrono) : Type 0 where
  pub announcement : RawAnnouncement C
  pub attestation : Option (Attestation C T)

pub record RootResponse (C : Group) (Date : Type 0) : Type 0 where
  pub public_keys : OracleKeys C
  pub node : GetPath Date

pub record PathResponse (Date : Type 0) : Type 0 where
  pub node : GetPath Date

-- `From<AnnouncedEvent>`.
unfoldable pub event_response : {C : Group} {T : Chrono} → AnnouncedEvent C T → EventResponse C T
event_response e = record { announcement = e.announcement; attestation = e.attestation }

-- The part of a database that the API reads: `DbReadOracle`. An error's text is not shown.
pub record DbReadOracle (C : Group) (T : Chrono) (Date S F : Type 0) : Type 0 where
  pub get_announced_event : S → EventId → Result F (Option (AnnouncedEvent C T))
  pub get_public_keys : S → Result F (Option (OracleKeys C))
  pub get_node : S → Text → Result F (Option (GetPath Date))

-- `percent_decoded_tail`: `decoded` is what percent_encoding makes of the tail.
unfoldable pub percent_decoded_tail : Option Text → ApiReply Text
unfolding bad_request with_message
percent_decoded_tail (some tail) = reply_ok tail
percent_decoded_tail none =
    reply_err (with_message bad_request (codes "'{}' was not URL encoded properly"))

-- `format!("/{}?{}", ..)` and `format!("/{}", ..)`.
unfoldable pub requested : Text → Option Text → Text
requested tail none = b'/' ∷ tail
requested tail (some query) = b'/' ∷ tail ++ b'?' ∷ query

-- `strip_suffix('/').unwrap_or(tail)`.
trimmed : Text → Text
trimmed tail = elim (strip_suffix tail (codes "/")) [ some t ↦ t | none ↦ tail ]

-- The routes are tried in turn: a rejection leaves the request to the next. `show_path_error` and
-- `show_id_error` are the `Display` of the errors.
pub data Rejection : Type 0 where
  reject : Rejection

module _ {C : Group} {T : Chrono} {Date S F : Type 0} (db : DbReadOracle C T Date S F)
    (show_path_error : PathError → Text) (show_id_error : EventIdError → Text) where
  pub found_event :
      Result F (Option (AnnouncedEvent C T)) → Result Rejection (ApiReply (EventResponse C T))
  unfolding event_response not_found internal_server_error
  found_event (ok (some e)) = ok (reply_ok (event_response e))
  found_event (ok none) = ok (reply_err not_found)
  found_event (err e) = ok (reply_err internal_server_error)
  found_event panic = panic

  pub event_of :
      S → Text → Result EventIdError EventId → Result Rejection (ApiReply (EventResponse C T))
  unfolding found_event bad_request with_message
  event_of s path (ok id) = found_event (db.get_announced_event s id)
  event_of s path (err e) = ok (
      reply_err (
        with_message bad_request
          (b'\'' ∷ path ++ codes "' is not a valid event id: " ++ show_id_error e)))
  event_of s path panic = panic

  -- The path that was asked for, if it is one.
  pub event_at : S → Text → Result PathError Text → Result Rejection (ApiReply (EventResponse C T))
  unfolding event_of bad_request with_message Event.try_from
  event_at s asked (ok path) = elim (Path.strip_event path) [
    | none ↦ err reject
    | some _ ↦ event_of s path (Event.try_from path)
  ]
  event_at s asked (err e) = ok (
      reply_err (
        with_message bad_request
          (b'\'' ∷ asked ++ codes "' is not a valid event path: " ++ show_path_error e)))
  event_at s asked panic = panic

  unfoldable pub get_event :
      S → ApiReply Text → Option Text → Result Rejection (ApiReply (EventResponse C T))
  unfolding event_at requested
  get_event s (reply_err e) query = ok (reply_err e)
  get_event s (reply_ok tail) query =
      if ends_with tail (codes "/")
      then err reject
      else event_at s (requested tail query) (Path.from_str (requested tail query))

  module _ {E : Type 0} where
    root_node :
        OracleKeys C → Result F (Option (GetPath Date)) → Result E (ApiReply (RootResponse C Date))
    unfolding internal_server_error with_message
    root_node keys (ok (some node)) = ok (reply_ok (record { public_keys = keys; node = node }))
    root_node keys panic = panic
    root_node keys _ = ok (
        reply_err (
          with_message internal_server_error
            (codes "root node could not be read from the database")))

    root_keys : S → Result F (Option (OracleKeys C)) → Result E (ApiReply (RootResponse C Date))
    unfolding root_node internal_server_error with_message
    root_keys s (ok (some keys)) = root_node keys (db.get_node s Path.root)
    root_keys s panic = panic
    root_keys s _ = ok (
        reply_err (
          with_message internal_server_error
            (codes "oracle public keys could not be retrieved from the database")))

    unfoldable pub get_root : S → Result E (ApiReply (RootResponse C Date))
    unfolding root_keys
    get_root s = root_keys s (db.get_public_keys s)

    path_node : Result F (Option (GetPath Date)) → Result E (ApiReply (PathResponse Date))
    unfolding not_found internal_server_error
    path_node (ok (some node)) = ok (reply_ok (record { node = node }))
    path_node (ok none) = ok (reply_err not_found)
    path_node (err e) = ok (reply_err internal_server_error)
    path_node panic = panic

    path_at : S → Text → Result PathError Text → Result E (ApiReply (PathResponse Date))
    unfolding path_node bad_request with_message
    path_at s tail (ok path) = path_node (db.get_node s path)
    path_at s tail (err e) = ok (
        reply_err (
          with_message bad_request
            (codes "'/" ++ tail ++ codes "' is not a valid event path: " ++ show_path_error e)))
    path_at s tail panic = panic

    unfoldable pub get_path : S → ApiReply Text → Result E (ApiReply (PathResponse Date))
    unfolding path_at trimmed
    get_path s (reply_err e) = ok (reply_err e)
    get_path s (reply_ok tail) = path_at s (trimmed tail) (Path.from_str (b'/' ∷ trimmed tail))
