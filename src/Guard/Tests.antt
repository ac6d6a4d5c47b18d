-- ===== src/Guard/Tests.antt =====
-- The guard at concrete durations: the default configuration, and the loop's turns.
use gronin.Prelude.{ℕ, ◌+◌, ◌*◌, ◌≡◌, ◌<◌, ◌≤◌, ◌↔◌, ◌%◌, [], ◌∷◌, some, true, arith}
use gronin.Prelude.Int.{pos, int64, ◌+ℤ◌}
use gronin.Guard.Clock.{second, add}
use gronin.Guard.Config.{Config, default_config, check, is_whole_seconds, problem_if}
use gronin.Guard.Config.Check.{AreDeclared, check_iff, check_overflow}
use gronin.Guard.Hold.{fires, renewed, lost, failed, renew, stopped, unproven}
use gronin.Guard.Hold.Steps.{IsArmed, slack}
use gronin.Guard.Hold.Safety.{
  StopsWithin, renew-StopsWithin, renew_failing-stops, renew_hanging-overruns,
}
use gronin.Guard.Stop.{undecided, decide_all, fence}
use gronin.Guard.Stop.Once.{decide_all_once}

abbrev sec : ℕ → ℕ
sec n = n * second

default_passes : check default_config ≡ []
unfolding check is_whole_seconds problem_if add int64 ◌+ℤ◌
default_passes = ground arith

default_declared : AreDeclared default_config
default_declared = record {
  every = (ground arith, ground arith);
  bound = (ground arith, ground arith);
  stop = (ground arith, ground arith);
  claim = (ground arith, ground arith);
}

default-IsArmed : IsArmed default_config (pos (sec 30))
default-IsArmed = record {
  passes = default_passes;
  every = default_declared.every;
  bound = default_declared.bound;
  stop = default_declared.stop;
  claim = default_declared.claim;
  granted = ground arith;
  long = ground arith;
}

check_iff_example :
    (check default_config ≡ [])
    ↔ ((sec 5 + sec 4 + sec 10 + 2 * second ≤ sec 30) × (sec 4 < sec 5) × (sec 30 % second ≡ 0))
check_iff_example = check_iff default_config default_declared

check_overflow_example :
    let c : Config = record {
      claim_expiry = pos (sec 30);
      renew_every = pos (sec 5);
      renew_bound = pos (sec 4);
      stop_bound = pos 9_223_372_036_854_775_807;
      decision_bound = pos (sec 5);
    } in
    (check c ≡ []) × (sec 30 < sec 5 + sec 4 + 9_223_372_036_854_775_807 + 2 * second)
check_overflow_example =
    check_overflow (sec 30) (sec 5) (sec 4) 9_223_372_036_854_775_807 (sec 5) (ground arith)
      (ground arith) (ground arith) (ground arith) (ground arith) (ground arith)

renew-StopsWithin_example : StopsWithin (slack default_config (pos (sec 30)) + 5 + sec 4) (
    renew default_config
      (pos (sec 30))
      (pos 0)
      (pos 0)
      (pos 0)
      (fires 0 (sec 1) renewed ∷ fires 5 (sec 4) lost ∷ []))
renew-StopsWithin_example =
    renew-StopsWithin default-IsArmed 5 (sec 4) 0 0 0
      (fires 0 (sec 1) renewed ∷ fires 5 (sec 4) lost ∷ []) (ground arith) (ground arith)
      (ground arith) (ground arith)
      ((ground arith, ground arith), ((ground arith, ground arith), tt))

renew_failing-stops_example :
    (decided : ℕ) × (renew default_config
        (pos (sec 30))
        (pos 0)
        (pos 0)
        (pos 0)
        (fires 0 (sec 1) failed ∷ fires 0 (sec 4) failed ∷ fires 0 1 failed ∷ fires 0 1 failed ∷ [])
      ≡ stopped (pos decided) (pos 0) unproven)
    × (0 + slack default_config (pos (sec 30)) ≤ decided)
renew_failing-stops_example =
    renew_failing-stops default-IsArmed 0 0 0
      (fires 0 (sec 1) failed ∷ fires 0 (sec 4) failed ∷ fires 0 1 failed ∷ fires 0 1 failed ∷ [])
      (ground arith) (ground arith) (ground arith) (tt, (tt, (tt, (tt, tt)))) (ground arith)

-- Sent at 0, the last attempt at 15 s: the deadline is at 18 s, before the next attempt at 20 s. The
-- decision comes at 22 s, and with the stop bound of 10 s the run may go on until 32 s, while the
-- claim lapses at 30 s.
renew_hanging-overruns_example :
    (renew default_config
        (pos (sec 30))
        (pos 0)
        (pos (sec 15))
        (pos (sec 15))
        (fires 0 (sec 4) failed ∷ [])
      ≡ stopped (pos (0 + slack default_config (pos (sec 30)) + sec 4)) (pos 0) unproven)
    × (0 + sec 30 < 0 + slack default_config (pos (sec 30)) + sec 4 + sec 10)
renew_hanging-overruns_example =
    renew_hanging-overruns default-IsArmed 0 (sec 15) (sec 15) (ground arith) (ground arith)
      (ground arith) (ground arith) (ground arith) (ground arith)

decide_all_once_example :
    (decide_all (("claim lost", pos 5) ∷ ("fence", pos 7) ∷ []) undecided ≡ record {
      decided = true;
      reason = some "claim lost";
      stop_calls = 1;
      enforcing = pos 5 ∷ [];
    })
    × (fence
          (some (some "held by another"))
          (pos 9)
          (decide_all (("claim lost", pos 5) ∷ ("fence", pos 7) ∷ []) undecided)
        ≡ (
          some "held by another",
          decide_all (("claim lost", pos 5) ∷ ("fence", pos 7) ∷ []) undecided,
        ))
decide_all_once_example =
    decide_all_once "claim lost" "held by another" (pos 5) (pos 9) (("fence", pos 7) ∷ [])
