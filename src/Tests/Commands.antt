-- ===== src/Tests/Commands.antt =====
-- The command that adds events and outcomes, at concrete inputs.
use olivia.Base.{Text, codes, text_eq, none, some, ok, err, arith, true, false, ◌≡◌, ◌≢◌, refl, ap}
use olivia.Announcement.{OracleKeys}
use olivia.Announcement.{OracleEvent, verify_against_id}
use olivia.Attestation.{Attestation, verify_olivia_v1_attestation}
use olivia.KeyChain
use olivia.KeyChain.{oracle_public_keys}
use olivia.Db.{AnnouncedEvent}
use olivia.Db.InMemory.{InMemory, find, empty, in_memory}
use olivia.Cli.{Entity, no_seed, new_err, add}
use olivia.Oracle.{other_keys}
use olivia.Cli.Lifecycle.{chain, add-add}
use olivia.Tests.Toy.{
  toy_group, toy_hash, toy_clock, toy_json, toy_group-IsCorrect, toy_json-IsFaithful,
}
use olivia.Tests.Signing.{price_2, price_is_3, price_read_3, read_2, outcomes_2, nonces_2}

abbrev seed : toy_hash.Seed
seed = codes "seed"

abbrev other_seed : toy_hash.Seed
other_seed = codes "other"

other_keys_differ :
    oracle_public_keys (chain toy_group toy_hash other_seed)
    ≢ oracle_public_keys (chain toy_group toy_hash seed)
unfolding oracle_public_keys text_eq KeyChain.new
other_keys_differ h =
    let p : true ≡ false =
      ap (λ (k : OracleKeys toy_group). text_eq k.announcement (codes "othertoyannouncement-key"))
        h in
    cc

read_only :
    add toy_hash in_memory toy_json none 5
      (empty {C = toy_group} {T = toy_clock})
      (Entity.event price_2 none)
    ≡ (empty, err no_seed)
unfolding add
read_only = refl

add-add_example :
    (s₁ : InMemory toy_group toy_clock) × (s₂ : InMemory toy_group toy_clock)
    × (ann : AnnouncedEvent toy_group toy_clock) × (att : Attestation toy_group toy_clock)
    × (e : OracleEvent toy_group toy_clock) × (add toy_hash in_memory toy_json
          (some seed)
          5
          empty
          (Entity.event price_2 (some 7))
        ≡ (s₁, ok tt))
    × (s₁.public_keys ≡ some (oracle_public_keys (chain toy_group toy_hash seed)))
    × (add toy_hash in_memory toy_json (some other_seed) 9 s₁ (Entity.event price_2 none)
        ≡ (s₁, err (new_err other_keys)))
    × (add toy_hash in_memory toy_json (some seed) 9 s₁ (Entity.outcome price_2 (codes "3"))
        ≡ (s₂, ok tt))
    × (find price_2 s₂.inner ≡ some ann)
    × (ann.attestation ≡ some att)
    × (verify_against_id toy_json {E = Text} ann.announcement price_2
          (oracle_public_keys (chain toy_group toy_hash seed)).announcement
        ≡ ok (some e))
    × (verify_olivia_v1_attestation att e (oracle_public_keys (chain toy_group toy_hash seed))
        ≡ ok tt)
add-add_example =
    add-add toy_hash toy_json seed other_seed price_is_3 (codes "3") (some 7) 5 9
      (Entity.event price_2 none) 18446744073709551615 2 toy_group-IsCorrect toy_json-IsFaithful
      read_2 price_read_3 outcomes_2 (omega arith) nonces_2 (omega arith) other_keys_differ
