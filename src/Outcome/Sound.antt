-- ===== src/Outcome/Sound.antt =====
-- What reading an outcome guarantees.
use olivia.Base.{
  ℕ, zero, suc, ◌<◌, ◌≤◌, Text, codes, text_eq, text_eq_iff, Bool-cases, ◌≡◌, refl, sym, ap, subst,
  Option-cases, >>=-eq-ok, ◌++◌, ok, ◌>>=◌, arith, inl, inr,
}
use olivia.Base.Slices.{strip_suffix, strip_suffix-eq-some}
use olivia.Base.Decimal.{u64_max, show_uint, parse_uint-le, parse_uint-show_uint}
use mathlib.Core.Path.{subst₂}
use olivia.Kind.{EventKind, vs_match, single_occurrence, predicate, price, win, win_or_draw}
use olivia.EventId.{EventId, both_parties, kind_outcomes}
use olivia.EventId.Valid.{IsEventId, HasParties, event_kind_lem, both_parties_lem}
use olivia.Outcome.{
  Outcome, read_value, read_win_or_draw, read_win, read_bool, try_from_id_and_outcome, write_value,
}

-- What was read from a text is a value below `n`, and is written as that text.
abbrev ReadFrom : Type 0 → EventId → EventKind → ℕ → Text → ℕ → Type 0
ReadFrom E id k n s v = (v < n) × (write_value {E = E} id k v ≡ ok s)

module _ {E : Type 0} (id : EventId) (l r : Text) (e : both_parties {E = E} id ≡ ok (l, r)) where
  written_left : ReadFrom E id (vs_match win) 2 l 0
  unfolding write_value
  written_left = (omega arith, rw e)

  written_right : ReadFrom E id (vs_match win) 2 r 1
  unfolding write_value
  written_right = (omega arith, rw e)

  read_win_sound :
      (s : Text) (v : ℕ) → read_win (l, r) s ≡ ok v → ReadFrom E id (vs_match win) 2 s v
  unfolding read_win
  read_win_sound s v h = elim (Bool-cases (text_eq s l)) [
    | inl w ↦
        let same : 0 ≡ v = ground arith in
        subst₂ (ReadFrom E id (vs_match win) 2) (sym ((text_eq_iff s l).0 w)) same written_left
    | inr w ↦ elim (Bool-cases (text_eq s r)) [
      | inl w' ↦
          let same : 1 ≡ v = ground arith in
          subst₂ (ReadFrom E id (vs_match win) 2) (sym ((text_eq_iff s r).0 w')) same written_right
      | inr w' ↦ absurd (ground arith)
    ]
  ]

  -- The winner of a match that may be drawn is written with a suffix.
  win_suffix :
      (s : Text) (v : ℕ)
      → ReadFrom E id (vs_match win) 2 s v
      → ReadFrom E id (vs_match win_or_draw) 3 (s ++ codes "_win") v
  unfolding write_value
  win_suffix s zero (lt, w) =
      let same : l ≡ s = cc (rw e at w) in
      (omega arith, rw e (ap (λ t. ok (t ++ codes "_win")) same))
  win_suffix s (suc zero) (lt, w) =
      let same : r ≡ s = cc (rw e at w) in
      (omega arith, rw e (ap (λ t. ok (t ++ codes "_win")) same))
  win_suffix s (suc (suc v)) (lt, w) = absurd (omega arith)

  read_win_or_draw_sound :
      (s : Text) (v : ℕ)
      → read_win_or_draw (l, r) s ≡ ok v
      → ReadFrom E id (vs_match win_or_draw) 3 s v
  unfolding read_win_or_draw write_value read_win
  read_win_or_draw_sound s v h = elim (Bool-cases (text_eq s (codes "draw"))) [
    | inl d ↦
        let same : 2 ≡ v = ground arith in
        subst₂ (ReadFrom E id (vs_match win_or_draw) 3) (sym ((text_eq_iff s (codes "draw")).0 d))
          same (omega arith, refl)
    | inr d ↦ elim (Option-cases (strip_suffix s (codes "_win"))) [
      | inl missing ↦ absurd (ground arith)
      | inr (winner, found) ↦
          let h' : read_win (l, r) winner ≡ ok v = rw (d, found, read_win_or_draw) at h in
          subst (λ t. ReadFrom E id (vs_match win_or_draw) 3 t v)
            (sym (strip_suffix-eq-some s (codes "_win") winner found))
            (win_suffix winner v (read_win_sound winner v h'))
    ]
  ]

-- What reading guarantees of each kind: a price fits 64 bits and is written as a text that is read
-- back as it; any other outcome is one that its event has, and is written as the text that it was
-- read from.
abbrev pub IsRead : Type 0 → EventId → EventKind → Text → ℕ → Type 0
IsRead E id (price n) s v =
    (v ≤ u64_max)
    × (t : Text) × (write_value {E = E} id (price n) v ≡ ok t)
    × (read_value id (price n) t ≡ ok v)
IsRead E id k s v = (v < kind_outcomes k) × (write_value {E = E} id k v ≡ ok s)

module _ {id : EventId} (h : IsEventId id) (E : Type 0) where
  read_value_sound :
      (k : EventKind) (s : Text) (v : ℕ)
      → h.kind ≡ k
      → HasParties h.name k
      → read_value id k s ≡ ok v
      → IsRead E id k s v
  unfolding read_value kind_outcomes read_bool write_value
  read_value_sound (vs_match win_or_draw) s v e (l, r, parts, _) q =
      read_win_or_draw_sound id l r (both_parties_lem h l r e parts) s v
        (rw (both_parties_lem h l r e parts) at q)
  read_value_sound (vs_match win) s v e (l, r, parts, _) q =
      read_win_sound id l r (both_parties_lem h l r e parts) s v
        (rw (both_parties_lem h l r e parts) at q)
  read_value_sound single_occurrence s v e p q = ground (arith, text_eq_iff s (codes "true"))
  read_value_sound (predicate _ _) s v e p q =
      ground (arith, text_eq_iff s (codes "true"), text_eq_iff s (codes "false"))
  read_value_sound (price n) s v e p q =
      let le : v ≤ u64_max = parse_uint-le u64_max v s (ground arith) in
      (le, show_uint v, refl, rw (parse_uint-show_uint u64_max v le, read_value) refl)

-- For a valid id, an outcome that was read is of its event. But for a price, its value is below the
-- number of outcomes, and it is written as the text that it was read from. A price fits 64 bits, and is
-- written as a text that is read back as it: the text that it was read from may have leading zeros, and
-- the largest number is read though it is not below the number of outcomes.
pub try_from_id_and_outcome_sound :
    (id : EventId) (s : Text) (o : Outcome) (E : Type 0) (h : IsEventId id)
    → try_from_id_and_outcome id s ≡ ok o
    → (o.id ≡ id) × IsRead E id h.kind s o.value
unfolding try_from_id_and_outcome
try_from_id_and_outcome_sound id s o E h q =
    let q₁ : (read_value id h.kind s >>= λ v. ok (record { id = id; value = v })) ≡ ok o =
      rw (event_kind_lem h, try_from_id_and_outcome) at q in
    let (v, read, q₂) = >>=-eq-ok (read_value id h.kind s) _ q₁ in
    let same : record { id = id; value = v } ≡ o = cc in
    (
      ap (λ (x : Outcome). x.id) (sym same),
      subst (IsRead E id h.kind s) (ap (λ (x : Outcome). x.value) same)
          (read_value_sound h E h.kind s v refl h.matched read),
    )
