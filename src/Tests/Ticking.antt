-- ===== src/Tests/Ticking.antt =====
-- A ticker at a concrete input.
use olivia.Base.{
  ℕ, zero, suc, ◌+◌, ◌*◌, text_eq, ◌<◌, Text, codes, List, true, none, some, ok, ◌≡◌, ◌≢◌, inl,
  refl, sym, ap, ◌∙◌, arith, Result, ◌>>=◌,
}
use olivia.Base.Slices.{split_once}
use olivia.Base.Decimal.{
  show_uint, show_uint-Lacks, show_uint-ne-nil, parse_uint, parse_uint-show_uint,
}
use olivia.Kind
use olivia.Kind.{single_occurrence, show_kind}
use olivia.Event.{Event}
use olivia.EventId.{Descriptor, descriptor, n_nonces}
use olivia.EventId.Valid.{IsEventId, n_nonces_lem, descriptor_total}
use olivia.Announcement.{
  RawAnnouncement, OracleEvent, OracleEventWithDescriptor, to_wire, encode_json, create,
}
use olivia.KeyChain.{create_announcement, nonces_for_event, announced_schemes}
use olivia.Oracle.{EventResult}
use olivia.Sources.Ticker.{Calendar, TimeEventStream, create_update, next_event, emit}
use olivia.Sources.Ticker.Matches.{IsTicker, emitted, emitted_cut}
use olivia.Sources.Ticker.Progress.{answer, rounds, tick, wait, rounds-emit}
use olivia.Db.{AnnouncedEvent}
use olivia.Db.InMemory.{find}
use olivia.Db.InMemory.Tree.{Dates}
use olivia.Tests.Toy.{toy_group, toy_clock, toy_json}
use olivia.Tests.Signing.{keys}

abbrev minutes : Calendar toy_clock
minutes = record { Duration = ℕ; add = λ s t. s + t; sub = λ s t. 0; show = show_uint }

abbrev toy_ticker : TimeEventStream toy_clock minutes
toy_ticker = record {
  look_ahead = 60;
  interval = 5;
  initial_time = 100;
  ends_with = codes "/";
  event_kind = single_occurrence;
}

no_dates : Dates
no_dates = record { Date = ℕ; from_str = λ s. none; leb = λ s t. true; eq = λ s t. true }

occur_read : Kind.from_str (show_kind single_occurrence) ≡ ok single_occurrence
unfolding Kind.from_str show_kind text_eq split_once
occur_read = refl

pub toy_ticker-IsTicker : IsTicker toy_ticker
unfolding show_kind
toy_ticker-IsTicker = record {
  show-ne-nil = show_uint-ne-nil;
  show-Lacks_slash = λ t. show_uint-Lacks b'/' t refl;
  show-Lacks_dot = λ t. show_uint-Lacks b'.' t refl;
  ends_with_path = inl refl;
  kind_read = occur_read;
  kind-Lacks_slash = omega arith;
}

abbrev time_path : Text
time_path = codes "/time"

minute : ℕ → Event ℕ
minute t = emitted toy_ticker toy_ticker-IsTicker time_path t

minute-IsEventId : (t : ℕ) → IsEventId (minute t).id
unfolding minute
minute-IsEventId t = record {
  name = _;
  kind_text = show_kind single_occurrence;
  cut = emitted_cut toy_ticker toy_ticker-IsTicker time_path t;
  kind = single_occurrence;
  read = occur_read;
  matched = tt;
}

-- A chain returns a value where its steps do.
bind_total :
    {E A B : Type 0} (m : Result E A) (f : A → Result E B) {a : A}
    → m ≡ ok a
    → (b : B) × (f a ≡ ok b)
    → (b : B) × ((m >>= f) ≡ ok b)
bind_total m f e (b, h) = (b, rw e h)

nonces :
    (t : ℕ) → (ns : List ℕ) × (nonces_for_event keys {E = EventResult Text} (minute t).id ≡ ok ns)
unfolding nonces_for_event
nonces t =
    bind_total (n_nonces {E = EventResult Text} (minute t).id) _ (n_nonces_lem (minute-IsEventId t))
      (_, refl)

wire :
    (e : OracleEvent toy_group toy_clock) (d : Descriptor)
    → descriptor {E = EventResult Text} e.event.id ≡ ok d
    → (w : OracleEventWithDescriptor toy_group toy_clock) × (to_wire {E = EventResult Text} e
        ≡ ok w)
unfolding to_wire
wire e d described = bind_total (descriptor {E = EventResult Text} e.event.id) _ described (_, refl)

encoded :
    (e : OracleEvent toy_group toy_clock) (d : Descriptor)
    → descriptor {E = EventResult Text} e.event.id ≡ ok d
    → (raw : Text) × (encode_json toy_json {E = EventResult Text} e ≡ ok raw)
unfolding encode_json
encoded e d described =
    let (w, h) = wire e d described in bind_total (to_wire {E = EventResult Text} e) _ h (_, refl)

announced :
    (t : ℕ)
    → (a : RawAnnouncement toy_group) × (create_announcement keys toy_json {E = EventResult Text}
          (emitted toy_ticker toy_ticker-IsTicker time_path t)
        ≡ ok a)
unfolding create_announcement create minute
announced t =
    let (d, described) = descriptor_total (minute-IsEventId t) in
    let (ns, h) = nonces t in
    let event : OracleEvent toy_group toy_clock = record {
      event = minute t;
      schemes = announced_schemes keys ns;
    } in
    let (raw, e) = encoded event d (described (EventResult Text)) in
    bind_total (nonces_for_event keys {E = EventResult Text} (minute t).id) _ h
      (bind_total (encode_json toy_json {E = EventResult Text} event) _ e (_, refl))

tick_value : (k : ℕ) → tick toy_ticker k ≡ 100 + 5 * k
unfolding tick
tick_value zero = refl
tick_value (suc k) = omega (arith, tick_value k)

show-inj : (m n : ℕ) → show_uint m ≡ show_uint n → m ≡ n
show-inj m n e =
    let same =
      sym (parse_uint-show_uint (m + n) m (omega arith))
      ∙ ap (parse_uint (m + n)) e
      ∙ parse_uint-show_uint (m + n) n (omega arith) in
    cc

later : (t : ℕ) → toy_clock.leb t (t + 5) ≡ true
later t = ground arith

differ : (i j : ℕ) → i < j → show_uint (tick toy_ticker i) ≢ show_uint (tick toy_ticker j)
differ i j lt e =
    omega (arith, show-inj (tick toy_ticker i) (tick toy_ticker j) e, tick_value i, tick_value j)

rounds-emit_example :
    (next_event toy_ticker {E = Text} (
        answer toy_ticker time_path no_dates toy_json keys
          (rounds toy_ticker time_path no_dates toy_json keys 2))
      ≡ ok (
          emit
            (wait toy_ticker time_path no_dates toy_json keys toy_ticker-IsTicker announced later
              differ 2)
            (create_update toy_ticker (tick toy_ticker 2))))
    × ((a : AnnouncedEvent toy_group toy_clock) × (find
            (emitted toy_ticker toy_ticker-IsTicker time_path (tick toy_ticker 2)).id
            (rounds toy_ticker time_path no_dates toy_json keys 3).inner
          ≡ some a)
        × (a.event ≡ emitted toy_ticker toy_ticker-IsTicker time_path (tick toy_ticker 2)))
rounds-emit_example =
    rounds-emit toy_ticker time_path no_dates toy_json keys toy_ticker-IsTicker announced later
      differ 2
