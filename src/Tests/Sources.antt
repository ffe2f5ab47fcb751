-- ===== src/Tests/Sources.antt =====
-- The outcome creators at concrete inputs.
use olivia.Base.{ℕ, ◌-◌, Text, none, some, [], ok, panic, ◌≡◌, ◌↔◌, arith}
use olivia.Sources.Ticker.{RandomOutcomeCreator, create_random, create_zero}
use olivia.Sources.Ticker.Bounds.{IsOutcome, create_random-IsOutcome, create_random_panic_iff}
use olivia.Tests.Toy.{toy_hash}
use olivia.Tests.Ids.{red_blue, red_blue_read}

-- The last number of each range.
abbrev last_of : Text → ℕ → ℕ
last_of seed max = max - 1

abbrev unlimited : RandomOutcomeCreator toy_hash
unlimited = record { seed = []; max = none }

create_random-IsOutcome_example :
    ((v : ℕ) × (create_random {E = Text} last_of unlimited red_blue ≡ ok v)
      × IsOutcome Text red_blue v)
    × ((v : ℕ) × (create_zero {E = Text} red_blue ≡ ok v) × IsOutcome Text red_blue v)
create_random-IsOutcome_example =
    create_random-IsOutcome last_of unlimited red_blue (λ seed max lt. omega arith) red_blue_read
      (λ e. cc)

create_random_panic_iff_example :
    (create_random {E = Text} last_of unlimited red_blue ≡ panic) ↔ (unlimited.max ≡ some 0)
create_random_panic_iff_example = create_random_panic_iff last_of unlimited red_blue red_blue_read
