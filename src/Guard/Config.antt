-- ===== src/Guard/Config.antt =====
-- guard/config.go: the durations a deployment declares, and the check that refuses the ones that
-- cannot hold.
pub mod Check
use gronin.Prelude.{◌*◌, ◌%◌, ◌==◌, Bool, not, ◌&&◌, List, [], ◌∷◌, ◌++◌, if◌then◌else◌}
use gronin.Prelude.Int.{pos, pos_part, neg_part, ltb_ℤ, leb_ℤ}
use gronin.Guard.Clock.{Duration, Instant, second, add, sub}

-- 2 * time.Second
abbrev pub margin_floor : Duration
margin_floor = pos (2 * second)

pub record Config : Type 0 where
  pub claim_expiry : Duration
  pub renew_every : Duration
  pub renew_bound : Duration
  pub stop_bound : Duration
  pub decision_bound : Duration

abbrev pub default_config : Config
default_config = record {
  claim_expiry = pos (30 * second);
  renew_every = pos (5 * second);
  renew_bound = pos (4 * second);
  stop_bound = pos (10 * second);
  decision_bound = pos (5 * second);
}

-- What `Check` can find wrong, each the message that it joins into its error.
pub data Problem : Type 0 where
  sum_exceeds_expiry bound_not_below_interval expiry_not_whole : Problem

-- `d % time.Second == 0`
unfoldable pub is_whole_seconds : Duration → Bool
is_whole_seconds d = (pos_part d % second == 0) && (neg_part d % second == 0)

unfoldable pub problem_if : Bool → Problem → List Problem
problem_if b p = if b then p ∷ [] else []

-- `Config.Check`: the empty list is the nil error.
unfoldable pub check : Config → List Problem
unfolding is_whole_seconds problem_if
check c =
    let sum = add (add (add c.renew_every c.renew_bound) c.stop_bound) margin_floor in
    problem_if (ltb_ℤ c.claim_expiry sum) sum_exceeds_expiry
    ++ (problem_if (leb_ℤ c.renew_every c.renew_bound) bound_not_below_interval
        ++ problem_if (not (is_whole_seconds c.claim_expiry)) expiry_not_whole)

-- `Config.StopDeadline`
unfoldable pub stop_deadline : Config → Instant → Duration → Instant
stop_deadline c sent expiry = add sent (sub (sub expiry c.stop_bound) margin_floor)
