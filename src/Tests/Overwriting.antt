-- ===== src/Tests/Overwriting.antt =====
-- A database that writes over whatever is there, as the UPDATE of olivia/src/db/postgres.rs does.
use olivia.Base.{
  Text, text_eq, text_eq_iff, text_eq_refl, Bool-cases, if◌then◌else◌, Option, Option-cases, none,
  some, List, [], ◌∷◌, ok, ◌≡◌, ◌≢◌, inl, inr, refl, sym, ap, ◌∙◌,
}
use olivia.EventId.{EventId}
use olivia.Attestation.{Attestation}
use olivia.Db.{AnnouncedEvent, Db}
use olivia.Db.Laws.{IsStore, HasOwnIds}
use olivia.Oracle.Final.{Request, add, complete, run, Extends, run-Extends}
use olivia.Tests.Toy.{toy_group, toy_clock, toy_json}
use olivia.Tests.Signing.{price_2, event, keys, attested}
use mathlib.Core.Option

abbrev pub Row : Type 0
Row = AnnouncedEvent toy_group toy_clock

abbrev pub Table : Type 0
Table = EventId → Option Row

abbrev pub put : Table → EventId → Option Row → Table
put s id o other = if text_eq other id then o else s other

abbrev pub attest_over : Attestation toy_group toy_clock → Row → Row
attest_over a e = record e { attestation = some a }

abbrev pub table : Db toy_group toy_clock Table Text
table = record {
  get_announced_event = λ s id. ok (s id);
  get_public_keys = λ s. ok none;
  insert_event = λ s e. (put s e.event.id (some e), ok tt);
  complete_event = λ s id a. (put s id (Option.map (attest_over a) (s id)), ok tt);
  set_public_keys = λ s k. (s, ok tt);
  set_node = λ s n. (s, ok tt);
}

put-same : (s : Table) (id : EventId) (o : Option Row) → put s id o id ≡ o
put-same s id o = rw (text_eq_refl id) refl

put-other :
    (s : Table) (id other : EventId) (o : Option Row) → other ≢ id → put s id o other ≡ s other
put-other s id other o n = elim (Bool-cases (text_eq other id)) [
  | inl e ↦ absurd (n ((text_eq_iff other id).0 e))
  | inr e ↦ rw e refl
]

put-none : (s : Table) (id other : EventId) → s id ≡ none → put s id none other ≡ s other
put-none s id other h = elim (Bool-cases (text_eq other id)) [
  | inl e ↦ rw e (sym h ∙ ap s (sym ((text_eq_iff other id).0 e)))
  | inr e ↦ rw e refl
]

pub table-IsStore : IsStore table
table-IsStore = record {
  insert_event_lem = λ s e. inr (
    ap ok (put-same s e.event.id (some e)),
    λ other n. ap ok (put-other s e.event.id other (some e) n),
  );
  complete_event_lem = λ s id a. elim (Option-cases (s id)) [
    | inl missing ↦ inl (λ other. ap ok (rw missing (put-none s id other missing)))
    | inr (e, there) ↦ inr (
      e,
      ap ok there,
      ap ok (put-same s id _ ∙ rw there refl),
      λ other n. ap ok (put-other s id other _ n),
    )
  ];
  set_public_keys_lem = λ s k id. refl;
  set_node_lem = λ s n id. refl;
}

abbrev pub one_row : Table
one_row = put (λ id. none) price_2 (some attested)

pub one_row-there : one_row price_2 ≡ some attested
one_row-there = put-same (λ id. none) price_2 (some attested)

pub one_row-HasOwnIds : HasOwnIds table one_row
one_row-HasOwnIds id e there = elim (Bool-cases (text_eq id price_2)) [
  | inl same ↦
      let h : attested ≡ e = cc (rw same at there) in
      ap (λ (x : Row). x.event.id) (sym h) ∙ sym ((text_eq_iff id price_2).0 same)
  | inr other ↦ absurd (cc (rw other at there))
]

abbrev requests : List (Request toy_clock)
requests =
    add event ∷ complete (record { outcome = record { id = price_2; value = 1 }; time = 10 }) ∷ []

run-Extends_example :
    (e' : AnnouncedEvent toy_group toy_clock) × (table.get_announced_event
        (run table toy_json keys one_row requests)
        price_2
      ≡ ok (some e'))
    × Extends attested e'
run-Extends_example =
    run-Extends table toy_json keys requests one_row price_2 attested table-IsStore
      one_row-HasOwnIds (ap ok one_row-there)
