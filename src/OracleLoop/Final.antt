-- ===== src/OracleLoop/Final.antt =====
-- olivia/src/oracle_loop.rs: what no run of the loop changes, and what a sender is told.
use olivia.Base.{
  Text, Option, some, List, [], ◌∷◌, Result, ok, err, panic, ◌≡◌, inl, inr, refl, sym, subst,
}
use olivia.EventId.{EventId}
use olivia.Outcome.{outcome_string}
use olivia.Event
use olivia.Event.{Event}
use olivia.Node
use olivia.Group.{Group, Blake2b, Chrono}
use olivia.Announcement.{Json}
use olivia.KeyChain.{KeyChain}
use olivia.Db.{AnnouncedEvent, Db}
use olivia.Db.Laws.{IsStore, HasOwnIds}
use olivia.Oracle.{StampedOutcome, add_event, complete_event}
use olivia.Oracle.Final.{
  Writes, Keeps, Extends, Extends-trans, write-Keeps, write-HasOwnIds, handle, handle-Writes, add,
  complete,
}
use olivia.Sources.{Sender, prefix_path, prefix_stamped}
use olivia.OracleLoop.{
  Incoming, event, outcome, node, Reaction, Line, react, take_outcome, turn, then_turns, start,
  log_event_result, log_outcome_result, log_node_result,
}

pub react_state :
    {S F : Type 0} (E : Type 0) (sender : Option Sender) (log : Option F → Line)
    (r : S × Result F (Unit {0}))
    → (react {E = E} sender log r).0 ≡ r.0
unfolding react
react_state E sender log (s, ok _) = refl
react_state E sender log (s, err e) = refl
react_state E sender log (s, panic) = refl

module _ {C : Group} {B : Blake2b} {T : Chrono} {S F : Type 0} (db : Db C T S F) (json : Json C T)
    (kc : KeyChain C B) (E : Type 0) (laws : IsStore db) where
  take_outcome-Writes :
      (s : S) (sender : Option Sender) (stamped : StampedOutcome T) (text : Result E Text)
      → HasOwnIds db s
      → Writes db s (take_outcome db json kc s sender stamped text).0
  unfolding take_outcome handle
  take_outcome-Writes s sender stamped (ok text) own =
      subst (Writes db s)
        (sym (react_state E sender log_outcome_result (complete_event db json kc s stamped)))
        (handle-Writes db json kc laws s (complete stamped) own)
  take_outcome-Writes s sender stamped (err e) own = inl (λ id. refl)
  take_outcome-Writes s sender stamped panic own = inl (λ id. refl)

  turn-Writes :
      (s : S) (i : Incoming T) → HasOwnIds db s → Writes db s (turn db json kc {E = E} s i).0
  unfolding turn handle prefix_path
  turn-Writes s (event p u) own =
      subst (Writes db s)
        (sym (
          react_state E u.processed_notifier log_event_result
            (add_event db json kc s (Event.prefix_path u.update p))))
        (handle-Writes db json kc laws s (add (Event.prefix_path u.update p)) own)
  turn-Writes s (outcome p u) own =
      take_outcome-Writes s u.processed_notifier (prefix_stamped u.update p)
        (outcome_string (prefix_stamped u.update p).outcome) own
  turn-Writes s (node p u) own =
      subst (Writes db s)
        (sym (
          react_state E u.processed_notifier log_node_result
            (db.set_node s (Node.prefix_path u.update p))))
        (inl (laws.set_node_lem s (Node.prefix_path u.update p)))

then_turns_state :
    {S E : Type 0} (P : S → Type 0) (first : S × Result E Reaction)
    (rest : S × Result E (List Reaction))
    → P first.0
    → P rest.0
    → P (then_turns first rest).0
unfolding then_turns
then_turns_state P (s, ok reaction) rest p q = q
then_turns_state P (s, err e) rest p q = p
then_turns_state P (s, panic) rest p q = p

-- On any database, also one that writes over what is there, whose events stand under their own ids:
-- however many updates of events, outcomes and nodes the loop takes, under any paths and in any order,
-- and also where it ends in a panic: each event that was announced before is there with the same
-- announcement, and with the same attestation if it had one.
pub start-Extends :
    {C : Group} {B : Blake2b} {T : Chrono} {S F : Type 0} (E : Type 0) (db : Db C T S F)
    (json : Json C T) (kc : KeyChain C B) (is : List (Incoming T)) (s : S) (id : EventId)
    (e : AnnouncedEvent C T)
    → IsStore db
    → HasOwnIds db s
    → db.get_announced_event s id ≡ ok (some e)
    → (e' : AnnouncedEvent C T) × (db.get_announced_event (start db json kc {E = E} s is).0 id
        ≡ ok (some e'))
      × Extends e e'
unfolding start
start-Extends E db json kc [] s id e laws own there = (e, there, (refl, refl, inr refl))
start-Extends E db json kc (i ∷ is) s id e laws own there =
    let s₁ = (turn db json kc {E = E} s i).0 in
    let writes = turn-Writes db json kc E laws s i own in
    let (e₁, there₁, ext₁) = write-Keeps db s s₁ id e there writes in
    let (e₂, there₂, ext₂) =
      start-Extends E db json kc is s₁ id e₁ laws (write-HasOwnIds db s s₁ own writes) there₁ in
    then_turns_state (Keeps db id e) (turn db json kc {E = E} s i) (start db json kc {E = E} s₁ is)
      (e₁, there₁, ext₁) (e₂, there₂, Extends-trans e e₁ e₂ ext₁ ext₂)
