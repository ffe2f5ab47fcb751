-- ===== src/KeyChain/Attests.antt =====
-- What the key chain signs verifies under the keys that it publishes.
use olivia.Base.{
  ℕ, zero, suc, ◌+◌, ◌%◌, ◌^◌, ◌≤◌, ◌<◌, Text, true, ◌≡◌, refl, sym, ap, ◌∙◌, ◌==◌, ==_iff, Option,
  some, map, List, [], ◌∷◌, length, length-map, get_elem?, All, ok, arith,
}
use olivia.Kind
use olivia.Kind.{EventKind, vs_match, single_occurrence, predicate, price, win, win_or_draw}
use olivia.EventId.{EventId, kind_outcomes, n_outcomes, n_nonces}
use olivia.EventId.Valid.{IsEventId, n_nonces_lem, n_outcomes_lem}
use olivia.Outcome.{Outcome, attestation_indexes, outcome_string}
use olivia.Outcome.Indexes.{attestation_indexes_total}
use olivia.Outcome.RoundTrip.{outcome_string_total}
use olivia.Event
use olivia.Event.{Event}
use olivia.Event.Parse.{from_str_sound}
use olivia.Group.{Group, Blake2b, Chrono}
use olivia.Group.Laws.{IsCorrect}
use olivia.Announcement.{Json, IsFaithful, OracleEvent, RawAnnouncement, verify_against_id}
use olivia.Announcement.Verify.{HasNonces, create_total}
use olivia.Attestation
use olivia.Attestation.{
  AttestationSchemes, AttestationInvalid, read_outcome, check_scalars, known_key, check_olivia_v1,
  verify_olivia_v1_attestation,
}
use olivia.KeyChain.{
  KeyChain, map_from, oracle_public_keys, nonce_keypair, nonces_for_event, scalars_from,
  olivia_v1_scalars_for_event_outcome, announced_nonces, announced_schemes, create_announcement,
}
use mathlib.Core.Option
use native.Mathlib.Nat.{mod-eq_of_lt}

All-get_elem? : (P : ℕ → Type 0) (xs : List ℕ) (j x : ℕ) → All P xs → get_elem? xs j ≡ some x → P x
All-get_elem? P [] j x h e = cc
All-get_elem? P (y ∷ ys) zero x (p, h) e = let s : y ≡ x = cc in rw (sym s) p
All-get_elem? P (y ∷ ys) (suc j) x (p, h) e = All-get_elem? P ys j x h e

length-map_from : {A : Type 0} (f : ℕ → A) (i n : ℕ) → length (map_from f i n) ≡ n
unfolding map_from
length-map_from f i zero = refl
length-map_from f i (suc n) = ap suc (length-map_from f (suc i) n)

get_elem?-map_from :
    {A B : Type 0} (g : A → B) (f : ℕ → A) (i n j : ℕ)
    → j < n
    → get_elem? (map g (map_from f i n)) j ≡ some (g (f (i + j)))
unfolding map_from
get_elem?-map_from g f i zero j h = absurd (omega arith)
get_elem?-map_from g f i (suc n) zero h = ap (λ (t : ℕ). some (g (f t))) (omega arith)
get_elem?-map_from g f i (suc n) (suc j) h =
    get_elem?-map_from g f (suc i) n j (omega arith) ∙ ap (λ (t : ℕ). some (g (f t))) (omega arith)

get_elem?_lt : (xs : List ℕ) (j x : ℕ) → get_elem? xs j ≡ some x → j < length xs
get_elem?_lt [] j x e = cc
get_elem?_lt (y ∷ ys) zero x e = omega arith
get_elem?_lt (y ∷ ys) (suc j) x e = omega (arith, get_elem?_lt ys j x e)

-- The loop goes through where each index has a nonce and a scalar that verify.
check_scalars-ok :
    (C : Group) (key : C.PublicKey) (nonces : List C.PublicNonce) (scalars : List C.AttestScalar)
    (ix : List ℕ) (i : ℕ)
    → ((j x : ℕ)
        → get_elem? ix j ≡ some x
        → (n : C.PublicNonce) × (s : C.AttestScalar) × (get_elem? nonces (i + j) ≡ some n)
          × (get_elem? scalars (i + j) ≡ some s)
          × (C.verify_attest_scalar key n (x % 2 ^ 32) s ≡ true))
    → check_scalars C key nonces scalars ix i ≡ ok tt
unfolding check_scalars
check_scalars-ok C key nonces scalars [] i h = refl
check_scalars-ok C key nonces scalars (x ∷ ix) i h =
    let (n, s, en, es, v) = h 0 x refl in
    let here : i + 0 ≡ i = omega arith in
    let later : check_scalars C key nonces scalars ix (suc i) ≡ ok tt =
      check_scalars-ok C key nonces scalars ix (suc i) (λ j y e.
        let (m, t, em, et, w) = h (suc j) y e in
        let there : i + suc j ≡ suc i + j = omega arith in
        (m, t, rw (sym there) em, rw (sym there) et, w)) in
    let en' : get_elem? nonces i ≡ some n = ap (get_elem? nonces) (sym here) ∙ en in
    let es' : get_elem? scalars i ≡ some s = ap (get_elem? scalars) (sym here) ∙ es in
    rw (en', check_scalars) (rw (es', check_scalars) (rw (v, check_scalars) later))

module _ {C : Group} {B : Blake2b} (kc : KeyChain C B) (correct : IsCorrect C) where
  -- The scalars without the assertions.
  reveals : EventId → ℕ → List ℕ → List C.AttestScalar
  reveals id i [] = []
  reveals id i (x ∷ ix) =
      C.reveal_attest_scalar kc.olivia_v1_keypair (nonce_keypair kc id i) x ∷ reveals id (suc i) ix

  scalars_from-ok :
      {E : Type 0} (id : EventId) (i : ℕ) (ix : List ℕ)
      → scalars_from kc {E = E} id i ix ≡ ok (reveals id i ix)
  unfolding scalars_from reveals
  scalars_from-ok id i [] = refl
  scalars_from-ok {E} id i (x ∷ ix) =
      rw (correct.attest_correct kc.olivia_v1_keypair (nonce_keypair kc id i) x, scalars_from)
        (rw (scalars_from-ok {E = E} id (suc i) ix))

  length-reveals : (id : EventId) (i : ℕ) (ix : List ℕ) → length (reveals id i ix) ≡ length ix
  unfolding reveals
  length-reveals id i [] = refl
  length-reveals id i (x ∷ ix) = ap suc (length-reveals id (suc i) ix)

  get_elem?-reveals :
      (id : EventId) (i : ℕ) (ix : List ℕ) (j x : ℕ)
      → get_elem? ix j ≡ some x
      → get_elem? (reveals id i ix) j
        ≡ some (C.reveal_attest_scalar kc.olivia_v1_keypair (nonce_keypair kc id (i + j)) x)
  unfolding reveals
  get_elem?-reveals id i [] j x e = cc
  get_elem?-reveals id i (y ∷ ix) zero x e =
      let same : y ≡ x = cc in let here : i + 0 ≡ i = omega arith in rw (here, same) refl
  get_elem?-reveals id i (y ∷ ix) (suc j) x e =
      let there : i + suc j ≡ suc i + j = omega arith in
      rw there (get_elem?-reveals id (suc i) ix j x e)

  module _ (id : EventId) (n : ℕ) (ix : List ℕ) (size : length ix ≡ n)
      (small : All (λ b. b < 2 ^ 32) ix) where
    abbrev public_nonces : List C.PublicNonce
    public_nonces = map C.public_nonce (map_from (nonce_keypair kc id) 0 n)

    length-public_nonces : length public_nonces ≡ n
    length-public_nonces =
        length-map C.public_nonce (map_from (nonce_keypair kc id) 0 n)
        ∙ length-map_from (nonce_keypair kc id) 0 n

    -- The scalars of an event's indexes verify against the event's nonces.
    check_reveals :
        check_scalars C (C.public_key kc.olivia_v1_keypair) public_nonces (reveals id 0 ix) ix 0
        ≡ ok tt
    check_reveals =
        check_scalars-ok C (C.public_key kc.olivia_v1_keypair) public_nonces (reveals id 0 ix) ix 0
          (λ j x e.
            let start : 0 + j ≡ j = omega arith in
            let inside : j < n = rw (sym size) (get_elem?_lt ix j x e) in
            let fits : x < 2 ^ 32 = All-get_elem? (λ b. b < 2 ^ 32) ix j x small e in
            (
              C.public_nonce (nonce_keypair kc id (0 + j)),
              C.reveal_attest_scalar kc.olivia_v1_keypair (nonce_keypair kc id (0 + j)) x,
              ap (get_elem? public_nonces) start
                  ∙ get_elem?-map_from C.public_nonce (nonce_keypair kc id) 0 n j inside,
              ap (get_elem? (reveals id 0 ix)) start ∙ get_elem?-reveals id 0 ix j x e,
              rw (mod-eq_of_lt fits)
                  (correct.attest_correct kc.olivia_v1_keypair (nonce_keypair kc id (0 + j)) x),
            ))

    check_announced :
        (o : Outcome) (ns : List C.PublicNonce)
        → attestation_indexes {E = AttestationInvalid} o ≡ ok ix
        → public_nonces ≡ ns
        → check_olivia_v1 C
            (C.public_key kc.olivia_v1_keypair)
            o
            (announced_nonces kc ns)
            (Option.map (λ _. reveals id 0 ix) (announced_nonces kc ns))
          ≡ ok tt
    unfolding check_olivia_v1 announced_nonces
    check_announced o [] e same = refl
    check_announced o (p ∷ ns) e same =
        let sizes : (length (p ∷ ns) == length (reveals id 0 ix)) ≡ true =
          (==_iff _ _).1 (
            sym (ap length same)
            ∙ length-public_nonces
            ∙ sym size
            ∙ sym (length-reveals id 0 ix)) in
        rw (sizes, check_olivia_v1) (rw (e, check_olivia_v1) (rw (sym same) check_reveals))

-- The kinds that announce no nonce have none to count.
HasNonces-announced :
    {C : Group} {B : Blake2b} (kc : KeyChain C B) (ns : List C.PublicNonce) (n : ℕ)
    → length ns ≡ n
    → HasNonces (announced_nonces kc ns) n
unfolding announced_nonces
HasNonces-announced kc [] m e = tt
HasNonces-announced kc (n ∷ ns) m e = omega arith

-- The same for all types of errors around the calls.
pub announced_total :
    {C : Group} {B : Blake2b} {T : Chrono} (kc : KeyChain C B) (json : Json C T) (o : Outcome)
    (expected : Option T.Time) (time : T.Time) (signature : Option C.EcdsaSignature)
    (h : IsEventId o.id)
    → IsCorrect C
    → IsFaithful json
    → Event.from_str o.id ≡ ok o.id
    → o.value < kind_outcomes h.kind
    → Kind.n_nonces h.kind ≤ 64
    → (a : RawAnnouncement C) × (e : OracleEvent C T) × (s : Text) × (ss : List C.AttestScalar)
      × ((E : Type 0)
          → create_announcement kc json {E = E}
              (record { id = o.id; expected_outcome_time = expected })
            ≡ ok a)
      × ((E : Type 0)
          → verify_against_id json {E = E} a o.id (C.public_key kc.announcement_keypair)
            ≡ ok (some e))
      × ((E : Type 0) → outcome_string {E = E} o ≡ ok s)
      × ((E : Type 0) → olivia_v1_scalars_for_event_outcome kc {E = E} o ≡ ok ss)
      × (e.schemes.ecdsa_v1 ≡ some tt)
      × (verify_olivia_v1_attestation
            (Attestation.new s time (record {
              olivia_v1 = Option.map (λ _. ss) e.schemes.olivia_v1;
              ecdsa_v1 = signature;
            }))
            e
            (oracle_public_keys kc)
          ≡ ok tt)
unfolding create_announcement nonces_for_event announced_schemes olivia_v1_scalars_for_event_outcome
    verify_olivia_v1_attestation read_outcome known_key oracle_public_keys Attestation.new
announced_total {T} kc json o expected time signature h correct faithful valid lt le =
    let m = Kind.n_nonces h.kind in
    let (ix, indexes, size, small) = attestation_indexes_total o h lt le in
    let kps = map_from (nonce_keypair kc o.id) 0 m in
    let event : Event T.Time = record { id = o.id; expected_outcome_time = expected } in
    let enough =
      HasNonces-announced kc (public_nonces kc correct o.id m ix size small) m
        (length-public_nonces kc correct o.id m ix size small) in
    let (a, created, verified) =
      create_total event (announced_schemes kc kps) h enough json faithful valid
        kc.announcement_keypair correct in
    let (s, written, read) = outcome_string_total o h lt in
    (
      a,
      record { event = event; schemes = announced_schemes kc kps },
      s,
      reveals kc correct o.id 0 ix,
      λ E. rw (n_nonces_lem h {E = E}, create_announcement) (created E),
      verified,
      written,
      λ E.
          rw (indexes E, olivia_v1_scalars_for_event_outcome)
            (scalars_from-ok kc correct {E = E} o.id 0 ix),
      refl,
      rw (read, verify_olivia_v1_attestation)
          (check_announced kc correct o.id m ix size small o _ (indexes AttestationInvalid) refl),
    )

-- On a correct curve with a faithful encoding: the key chain announces an event whose id can be parsed
-- and that has at most 64 nonces, the announcement
-- verifies against the event's id, and for each outcome of the event the key chain makes scalars
-- (none of its assertions fails) such that the attestation of them to the outcome's text verifies
-- under olivia-v1 against the announced event and the key chain's public keys.
pub create_announcement-attests :
    {C : Group} {B : Blake2b} {T : Chrono} (kc : KeyChain C B) (json : Json C T) (E : Type 0)
    (o : Outcome) (expected : Option T.Time) (time : T.Time) (signature : Option C.EcdsaSignature)
    (n m : ℕ)
    → IsCorrect C
    → IsFaithful json
    → Event.from_str o.id ≡ ok o.id
    → n_outcomes {E = E} o.id ≡ ok n
    → o.value < n
    → n_nonces {E = E} o.id ≡ ok m
    → m ≤ 64
    → (a : RawAnnouncement C) × (e : OracleEvent C T) × (s : Text) × (ss : List C.AttestScalar)
      × (create_announcement kc json {E = E}
            (record { id = o.id; expected_outcome_time = expected })
          ≡ ok a)
      × (verify_against_id json {E = E} a o.id (C.public_key kc.announcement_keypair) ≡ ok (some e))
      × (outcome_string {E = E} o ≡ ok s)
      × (olivia_v1_scalars_for_event_outcome kc {E = E} o ≡ ok ss)
      × (verify_olivia_v1_attestation
            (Attestation.new s time (record {
              olivia_v1 = Option.map (λ _. ss) e.schemes.olivia_v1;
              ecdsa_v1 = signature;
            }))
            e
            (oracle_public_keys kc)
          ≡ ok tt)
create_announcement-attests {C} {B} {T} kc json E o expected time signature n m correct faithful
      valid outcomes lt nonces le =
    let (_, _, h) = from_str_sound o.id o.id valid in
    let has : kind_outcomes h.kind ≡ n = cc (n_outcomes_lem h {E = E}) in
    let needs : Kind.n_nonces h.kind ≡ m = cc (n_nonces_lem h {E = E}) in
    let (a, e, s, ss, created, verified, written, scalars, _, attested) =
      announced_total kc json o expected time signature h correct faithful valid (rw has lt)
        (rw needs le) in
    (a, e, s, ss, created E, verified E, written E, scalars E, attested)
