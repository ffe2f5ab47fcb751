-- ===== src/Outcome/Slashes.antt =====
-- The texts of outcomes have no slash: they can stand in the last segment of a path.
use olivia.Base.{
  ℕ, zero, suc, Text, codes, ◌≡◌, refl, sym, subst, [], ◌∷◌, ◌++◌, ok, arith, Lacks, All,
  All-append,
}
use olivia.Base.Slices.{split, split-All-Lacks}
use olivia.Base.Decimal.{show_uint, show_uint-Lacks}
use olivia.Path
use olivia.Path.Events.{IsEventPath, last_of_IsEventPath}
use olivia.Kind.{EventKind, vs_match, single_occurrence, predicate, price, win, win_or_draw}
use olivia.EventId.{EventId}
use olivia.EventId.Valid.{both_parties_lem, IsEventId, HasParties}
use olivia.Outcome.{write_value}

module _ {id : EventId} (h : IsEventId id) (named : IsEventPath h.name) (E : Type 0) where
  parties-Lacks_slash :
      (l r : Text) → split (Path.last h.name) b'_' ≡ l ∷ r ∷ [] → Lacks b'/' l × Lacks b'/' r
  parties-Lacks_slash l r parts =
      let last_lacks = subst (Lacks b'/') (sym (last_of_IsEventPath named)) named.no_slash in
      let (hl, (hr, _)) =
        subst (All (Lacks b'/')) parts (split-All-Lacks (Path.last h.name) b'_' b'/' last_lacks) in
      (hl, hr)

  winner-Lacks_slash :
      (v : ℕ) (s : Text)
      → h.kind ≡ vs_match win
      → HasParties h.name (vs_match win)
      → write_value {E = E} id (vs_match win) v ≡ ok s
      → Lacks b'/' s
  unfolding write_value
  winner-Lacks_slash zero s e (l, r, parts, _) w =
      let same : l ≡ s = cc (rw (both_parties_lem h l r e parts) at w) in
      subst (Lacks b'/') same (parties-Lacks_slash l r parts).0
  winner-Lacks_slash (suc zero) s e (l, r, parts, _) w =
      let same : r ≡ s = cc (rw (both_parties_lem h l r e parts) at w) in
      subst (Lacks b'/') same (parties-Lacks_slash l r parts).1
  winner-Lacks_slash (suc (suc v)) s e p w = absurd (ground arith)

  result-Lacks_slash :
      (v : ℕ) (s : Text)
      → h.kind ≡ vs_match win_or_draw
      → HasParties h.name (vs_match win_or_draw)
      → write_value {E = E} id (vs_match win_or_draw) v ≡ ok s
      → Lacks b'/' s
  unfolding write_value
  result-Lacks_slash zero s e (l, r, parts, _) w =
      let same : l ++ codes "_win" ≡ s = cc (rw (both_parties_lem h l r e parts) at w) in
      subst (Lacks b'/') same
        (All-append _ l (codes "_win") (parties-Lacks_slash l r parts).0 (omega arith))
  result-Lacks_slash (suc zero) s e (l, r, parts, _) w =
      let same : r ++ codes "_win" ≡ s = cc (rw (both_parties_lem h l r e parts) at w) in
      subst (Lacks b'/') same
        (All-append _ r (codes "_win") (parties-Lacks_slash l r parts).1 (omega arith))
  result-Lacks_slash (suc (suc zero)) s e p w =
      let same : codes "draw" ≡ s = cc in subst (Lacks b'/') same (omega arith)
  result-Lacks_slash (suc (suc (suc v))) s e p w = absurd (ground arith)

  -- The text of an outcome has no slash.
  pub write_value-Lacks_slash :
      (k : EventKind) (v : ℕ) (s : Text)
      → h.kind ≡ k
      → HasParties h.name k
      → write_value {E = E} id k v ≡ ok s
      → Lacks b'/' s
  unfolding write_value
  write_value-Lacks_slash (vs_match win) v s e p w = winner-Lacks_slash v s e p w
  write_value-Lacks_slash (vs_match win_or_draw) v s e p w = result-Lacks_slash v s e p w
  write_value-Lacks_slash single_occurrence v s e p w =
      let same : codes "true" ≡ s = ground arith in subst (Lacks b'/') same (omega arith)
  write_value-Lacks_slash (predicate _ _) zero s e p w =
      let same : codes "false" ≡ s = cc in subst (Lacks b'/') same (omega arith)
  write_value-Lacks_slash (predicate _ _) (suc v) s e p w =
      let same : codes "true" ≡ s = ground arith in subst (Lacks b'/') same (omega arith)
  write_value-Lacks_slash (price _) v s e p w =
      let same : show_uint v ≡ s = cc in subst (Lacks b'/') same (show_uint-Lacks b'/' v refl)
