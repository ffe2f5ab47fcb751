-- ===== src/Db/InMemory/Laws.antt =====
-- The database in memory is a database as the oracle relies on it.
use olivia.Base.{
  Text, text_eq, text_eq_iff, text_eq_refl, Bool-cases, true, false, Option, Option-cases, none,
  some, List, [], ◌∷◌, Result, ok, ◌≡◌, ◌≢◌, refl, sym, ap, ◌∙◌, subst, ◌⊎◌, inl, inr,
}
use olivia.EventId.{EventId}
use olivia.Group.{Group, Chrono}
use olivia.Attestation.{Attestation}
use olivia.Db.{AnnouncedEvent}
use olivia.Db.Laws.{IsDb, Inserts, Completes, SameEvents}
use olivia.Db.InMemory.{
  InMemory, find, replace, fill, insert_event, complete_event, set_public_keys, set_node, in_memory,
}

text_eq-ne : (a b : Text) → a ≢ b → text_eq a b ≡ false
text_eq-ne a b h = elim (Bool-cases (text_eq a b)) [
  | inl e ↦ absurd (h ((text_eq_iff a b).0 e))
  | inr e ↦ e
]

module _ {V : Type 0} where
  find-cons :
      (key k : Text) (v : V) (m : List (Text × V))
      → text_eq k key ≡ true
      → find key ((k, v) ∷ m) ≡ some v
  unfolding find
  find-cons key k v m e = rw e refl

  find-cons_other :
      (key k : Text) (v : V) (m : List (Text × V))
      → text_eq k key ≡ false
      → find key ((k, v) ∷ m) ≡ find key m
  unfolding find
  find-cons_other key k v m e = rw e refl

  pub find-replace :
      (key : Text) (v w : V) (m : List (Text × V))
      → find key m ≡ some w
      → find key (replace key v m) ≡ some v
  unfolding replace
  find-replace key v w [] h = unfold find in cc
  find-replace key v w ((k, u) ∷ m) h = elim (Bool-cases (text_eq k key)) [
    | inl e ↦ rw (e, replace) (find-cons key k v m e)
    | inr e ↦
        rw (e, replace)
          (find-cons_other key k u (replace key v m) e
            ∙ find-replace key v w m (sym (find-cons_other key k u m e) ∙ h))
  ]

  find-replace_other :
      (key other : Text) (v : V) (m : List (Text × V))
      → other ≢ key
      → find other (replace key v m) ≡ find other m
  unfolding replace
  find-replace_other key other v [] n = refl
  find-replace_other key other v ((k, u) ∷ m) n = elim (Bool-cases (text_eq k key)) [
    | inl e ↦
        let unlike : text_eq k other ≡ false =
          text_eq-ne k other (λ p. n (sym p ∙ (text_eq_iff k key).0 e)) in
        rw (e, replace)
          (find-cons_other other k v m unlike ∙ sym (find-cons_other other k u m unlike))
    | inr e ↦
        rw (e, replace)
          (elim (Bool-cases (text_eq k other)) [
            | inl f ↦ find-cons other k u (replace key v m) f ∙ sym (find-cons other k u m f)
            | inr f ↦
                find-cons_other other k u (replace key v m) f
                ∙ find-replace_other key other v m n
                ∙ sym (find-cons_other other k u m f)
          ])
  ]

module _ {C : Group} {T : Chrono} where
  abbrev Inserted : InMemory C T → AnnouncedEvent C T → Type 0
  Inserted s e =
      ((in_memory.insert_event s e).1 ≡ ok tt)
        × Inserts in_memory s e (in_memory.insert_event s e).0
      ⊎ ((in_memory.insert_event s e).1 ≢ ok tt)
        × SameEvents in_memory s (in_memory.insert_event s e).0

  insert : (s : InMemory C T) (e : AnnouncedEvent C T) → Inserted s e
  unfolding in_memory insert_event
  insert s e = elim (Option-cases (find e.event.id s.inner)) [
    | inl none_there ↦
        rw (none_there, insert_event)
          (inl (
            refl,
            (
              refl,
              ap ok (find-cons e.event.id e.event.id e s.inner (text_eq_refl e.event.id)),
              λ other n. ap ok (
                  find-cons_other other e.event.id e s.inner
                    (text_eq-ne e.event.id other (λ p. n (sym p)))),
            ),
          ))
    | inr (old, there) ↦ rw (there, insert_event) (inr ((λ h. cc), λ id. refl))
  ]

  abbrev Completed :
      InMemory C T → EventId → Attestation C T → InMemory C T × Result Text (Unit {0}) → Type 0
  Completed s id a (s', r) =
      (r ≡ ok tt) × Completes in_memory s id a s' ⊎ (r ≢ ok tt) × SameEvents in_memory s s'

  filled :
      (s : InMemory C T) (id : EventId) (a : Attestation C T) (e : AnnouncedEvent C T)
      (o : Option (Attestation C T))
      → find id s.inner ≡ some e
      → e.attestation ≡ o
      → Completed s id a (fill s id a e o)
  unfolding in_memory fill
  filled s id a e (some old) there done = inr ((λ h. cc), λ other. refl)
  filled s id a e none there vacant = inl (
    refl,
    (
      e,
      ap ok there,
      vacant,
      ap ok (find-replace id (record e { attestation = some a }) e s.inner there),
      λ other n. ap ok (find-replace_other id other (record e { attestation = some a }) s.inner n),
    ),
  )

  complete_event-found :
      (s : InMemory C T) (id : EventId) (a : Attestation C T) (e : AnnouncedEvent C T)
      → find id s.inner ≡ some e
      → complete_event s id a ≡ fill s id a e e.attestation
  unfolding complete_event
  complete_event-found s id a e there = rw (there, complete_event) refl

  complete :
      (s : InMemory C T) (id : EventId) (a : Attestation C T)
      → Completed s id a (in_memory.complete_event s id a)
  unfolding in_memory complete_event
  complete s id a = elim (Option-cases (find id s.inner)) [
    | inl none_there ↦ rw (none_there, complete_event) (inr ((λ h. cc), λ other. refl))
    | inr (e, there) ↦
        subst (Completed s id a) (sym (complete_event-found s id a e there))
          (filled s id a e e.attestation there refl)
  ]

  -- The database in memory inserts an event only if its id is not there, completes one only if it is
  -- there without an attestation, and changes no event where a write fails.
  pub in_memory-IsDb : IsDb {C = C} {T = T} in_memory
  unfolding in_memory set_public_keys set_node
  in_memory-IsDb = record {
    insert_event_lem = insert;
    complete_event_lem = complete;
    set_public_keys_lem = λ s k id. refl;
    set_node_lem = λ s n id. refl;
  }
