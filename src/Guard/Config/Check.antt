-- ===== src/Guard/Config/Check.antt =====
-- What `Config.Check` refuses, while its sum stays inside 64 bits and past that.
use gronin.Prelude.{ℕ, ◌+◌, ◌*◌, ◌%◌, ◌^◌, ◌≤◌, ◌<◌, ◌≡◌, ◌↔◌, [], arith}
use gronin.Prelude.Int.{pos, pos_part, int64, ◌+ℤ◌}
use gronin.Guard.Clock.{second, add}
use gronin.Guard.Config.{Config, check}
use gronin.Guard.Hold.Steps.{IsDeclared, add_pos, pos-of-declared}

-- The four durations that the check compares, as `LoadConfig` reads them.
pub record AreDeclared (c : Config) : Type 0 where
  pub every : IsDeclared c.renew_every
  pub bound : IsDeclared c.renew_bound
  pub stop : IsDeclared c.stop_bound
  pub claim : IsDeclared c.claim_expiry

-- For durations of at most 2^60 ns (36 years) the check passes exactly when the renewal interval,
-- the renewal bound, the stop bound and the margin of two seconds fit in the claim expiry, the
-- renewal bound is below the interval, and the expiry is a whole number of seconds.
pub check_iff :
    (c : Config)
    → AreDeclared c
    → (check c ≡ []) ↔ (
        (pos_part c.renew_every + pos_part c.renew_bound + pos_part c.stop_bound + 2 * second
          ≤ pos_part c.claim_expiry)
        × (pos_part c.renew_bound < pos_part c.renew_every)
        × (pos_part c.claim_expiry % second ≡ 0))
unfolding check
check_iff c v = ground (
  arith,
  pos-of-declared c.renew_every v.every.0,
  pos-of-declared c.renew_bound v.bound.0,
  pos-of-declared c.stop_bound v.stop.0,
  pos-of-declared c.claim_expiry v.claim.0,
  add_pos (pos_part c.renew_every) (pos_part c.renew_bound) (omega (arith, v.every.1, v.bound.1)),
  add_pos (pos_part c.renew_every + pos_part c.renew_bound) (pos_part c.stop_bound)
      (omega (arith, v.every.1, v.bound.1, v.stop.1)),
  add_pos (pos_part c.renew_every + pos_part c.renew_bound + pos_part c.stop_bound) (2 * second)
      (omega (arith, v.every.1, v.bound.1, v.stop.1)),
)

-- Where the expiry is of whole seconds, the renewal bound is below the interval between renewals,
-- that interval is at most 2^60 nanoseconds, and the stop bound is so long that the sum of interval,
-- renewal bound and stop bound leaves 64 bits: the sum wraps to a negative duration, and the check
-- passes although the sum, with the margin, exceeds the expiry.
pub check_overflow :
    (expiry every bound stop decision : ℕ)
    → expiry < 2 ^ 63
    → expiry % second ≡ 0
    → bound < every
    → every ≤ 2 ^ 60
    → stop < 2 ^ 63
    → 2 ^ 63 ≤ every + bound + stop
    → let c : Config = record {
      claim_expiry = pos expiry;
      renew_every = pos every;
      renew_bound = pos bound;
      stop_bound = pos stop;
      decision_bound = pos decision;
    } in
      (check c ≡ []) × (expiry < every + bound + stop + 2 * second)
unfolding check add int64 ◌+ℤ◌
check_overflow expiry every bound stop decision x w b k s h = (ground arith, omega arith)
