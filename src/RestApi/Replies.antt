-- ===== src/RestApi/Replies.antt =====
-- olivia/src/rest_api.rs: the replies to a request for an event.
use olivia.Base.{
  Text, codes, Bool-cases, Option-cases, false, Option, none, some, Result, ok, err, panic, ◌≡◌,
  ◌≢◌, ◌⊎◌, ◌↔◌, inl, inr, refl, sym, ◌∙◌, arith,
}
use olivia.Base.Slices.{ends_with}
use olivia.Path
use olivia.Path.{PathError}
use olivia.Path.Prefix.{IsPath}
use olivia.EventId.{EventId}
use olivia.Event.{EventIdError, from_str, try_from}
use olivia.Event.Parse.{from_str_sound}
use olivia.Event.Crash.{Crashes, from_str_panic_iff}
use olivia.Group.{Group, Chrono}
use olivia.Db.{AnnouncedEvent}
use olivia.RestApi.{
  ApiReply, reply_ok, reply_err, EventResponse, DbReadOracle, Rejection, not_found,
  internal_server_error, event_response, requested, get_event, event_at, event_of, found_event,
}

err-ne-panic : {E A : Type 0} {e : E} → ◌≢◌ {A = Result E A} (err e) panic
err-ne-panic h = cc

ok-ne-panic : {E A : Type 0} {a : A} → ◌≢◌ {A = Result E A} (ok a) panic
ok-ne-panic h = cc

-- On a path, the two readers agree.
from_str_of_path : (s : Text) → IsPath s → from_str s ≡ try_from s
unfolding from_str
from_str_of_path s h = rw (h, from_str) refl

module _ {C : Group} {T : Chrono} {Date S F : Type 0} (db : DbReadOracle C T Date S F)
    (show_path_error : PathError → Text) (show_id_error : EventIdError → Text) (s : S) where
  abbrev get : Text → Option Text → Result Rejection (ApiReply (EventResponse C T))
  get tail query = get_event db show_path_error show_id_error s (reply_ok tail) query

  -- The reply to the id of an event is what the database has of it.
  get_lem :
      (tail : Text) (query : Option Text)
      → ends_with tail (codes "/") ≡ false
      → from_str (requested tail query) ≡ ok (requested tail query)
      → get tail query
        ≡ found_event db show_path_error show_id_error
            (db.get_announced_event s (requested tail query))
  unfolding get_event event_at event_of
  get_lem tail query open_end valid =
      let (_, is_path, h) = from_str_sound (requested tail query) (requested tail query) valid in
      let read = sym (from_str_of_path (requested tail query) is_path) ∙ valid in
      rw (open_end, get_event)
        (rw (is_path, event_at) (rw (h.cut, event_at) (rw (read, event_of) refl)))

-- A request for the id of an event, as a tail and perhaps a query that make it, where the tail does not
-- end with a slash, is answered with the announcement and the attestation that the database holds, with
-- 404 where it holds no such event, and with 500 where it fails.
pub get_event-found :
    {C : Group} {T : Chrono} {Date S F : Type 0} (db : DbReadOracle C T Date S F)
    (show_path_error : PathError → Text) (show_id_error : EventIdError → Text) (s : S) (tail : Text)
    (query : Option Text)
    → ends_with tail (codes "/") ≡ false
    → from_str (requested tail query) ≡ ok (requested tail query)
    → ((e : AnnouncedEvent C T)
        → db.get_announced_event s (requested tail query) ≡ ok (some e)
        → get_event db show_path_error show_id_error s (reply_ok tail) query
          ≡ ok (reply_ok (record { announcement = e.announcement; attestation = e.attestation })))
      × (db.get_announced_event s (requested tail query) ≡ ok none
          → get_event db show_path_error show_id_error s (reply_ok tail) query
            ≡ ok (reply_err (record { code = 404; error = codes "Not Found" })))
      × ((failure : F)
          → db.get_announced_event s (requested tail query) ≡ err failure
          → get_event db show_path_error show_id_error s (reply_ok tail) query
            ≡ ok (reply_err (record { code = 500; error = codes "Internal Server Error" })))
unfolding found_event event_response not_found internal_server_error
get_event-found db show_path_error show_id_error s tail query open_end valid =
    let made = get_lem db show_path_error show_id_error s tail query open_end valid in
    (
      λ e there. made ∙ rw (there, found_event) refl,
      λ there. made ∙ rw (there, found_event) refl,
      λ failure there. made ∙ rw (there, found_event) refl,
    )

IsPath-cases : (s : Text) → IsPath s ⊎ ((e : PathError) × (Path.from_str s ≡ err e))
unfolding Path.from_str
IsPath-cases s = ground arith

module _ {C : Group} {T : Chrono} {Date S F : Type 0} (db : DbReadOracle C T Date S F)
    (show_path_error : PathError → Text) (show_id_error : EventIdError → Text) (s : S)
    (calm : (id : EventId) → db.get_announced_event s id ≢ panic) where
  found_event-ne-panic :
      (r : Result F (Option (AnnouncedEvent C T)))
      → r ≢ panic
      → found_event db show_path_error show_id_error r ≢ panic
  unfolding found_event
  found_event-ne-panic (ok (some e)) n h = cc
  found_event-ne-panic (ok none) n h = cc
  found_event-ne-panic (err e) n h = cc
  found_event-ne-panic panic n h = n refl

  event_of_panic :
      (path : Text) (r : Result EventIdError EventId)
      → event_of db show_path_error show_id_error s path r ≡ panic
      → r ≡ panic
  unfolding event_of
  event_of_panic path (ok id) h =
      absurd (found_event-ne-panic (db.get_announced_event s id) (calm id) h)
  event_of_panic path (err e) h = cc
  event_of_panic path panic h = refl

  -- What a panic of the handler tells of the path that is asked for.
  event_at_panic :
      (asked : Text)
      → event_at db show_path_error show_id_error s asked (Path.from_str asked) ≡ panic
      → from_str asked ≡ panic
  unfolding event_at
  event_at_panic asked h = elim (IsPath-cases asked) [
    | inr (e, refused) ↦ absurd (ok-ne-panic (rw (refused, event_at) at h))
    | inl is_path ↦ elim (Option-cases (Path.strip_event asked)) [
      | inl missing ↦
          absurd (err-ne-panic (rw (missing, event_at) at (rw (is_path, event_at) at h)))
      | inr (parts, cut) ↦
          from_str_of_path asked is_path
          ∙ event_of_panic asked (try_from asked)
              (rw (cut, event_at) at (rw (is_path, event_at) at h))
    ]
  ]

  -- A path on which the reader panics makes the handler panic.
  event_at_crash :
      (asked : Text)
      → Crashes asked
      → event_at db show_path_error show_id_error s asked (Path.from_str asked) ≡ panic
  unfolding event_at event_of
  event_at_crash asked c =
      let crash = sym (from_str_of_path asked c.is_path) ∙ (from_str_panic_iff asked).1 c in
      rw (c.is_path, event_at) (rw (c.cut, event_at) (rw (crash, event_of) refl))

-- Where the database does not panic, the handler of a request for an event panics exactly if the tail does not end
-- with a slash and the path that is asked for is one on which the reader of event ids panics: an
-- equality on a match whose name has no underscore.
pub get_event_panic_iff :
    {C : Group} {T : Chrono} {Date S F : Type 0} (db : DbReadOracle C T Date S F)
    (show_path_error : PathError → Text) (show_id_error : EventIdError → Text) (s : S) (tail : Text)
    (query : Option Text)
    → ((id : EventId) → db.get_announced_event s id ≢ panic)
    → (get_event db show_path_error show_id_error s (reply_ok tail) query ≡ panic)
      ↔ (Crashes (requested tail query) × (ends_with tail (codes "/") ≡ false))
unfolding get_event
get_event_panic_iff db show_path_error show_id_error s tail query calm =
    elim (Bool-cases (ends_with tail (codes "/"))) [
      | inl e ↦ rw (e, get_event) (λ h. cc, λ (_, closed). cc)
      | inr e ↦
          rw (e, get_event)
            (
              λ h. (
                (from_str_panic_iff (requested tail query)).0 (
                    event_at_panic db show_path_error show_id_error s calm (requested tail query)
                      h),
                refl,
              ),
              λ (c, _).
                  event_at_crash db show_path_error show_id_error s calm (requested tail query) c,
            )
    ]
