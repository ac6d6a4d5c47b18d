-- ===== src/Run/Tests.antt =====
-- The file lock on two playbooks, with a rate limit and ticks.
use gronin.Prelude.{
  ℕ, ◌≤◌, ◌≡◌, refl, [], ◌∷◌, none, some, false, ok, err, not, str_eq, arith, subst, ap, exists_row,
  find, select, length,
}
use gronin.Guard.Coordinator.{RateLimit, Kind, AcquireRequest, AcquireError, refuses}
use gronin.Run.FileLock.{
  State, Faults, Written, claim, unclaim, record_holder, put_tick, set_last_tick, tick,
  count_rate_starts, rate_within, rate, tick_if_scheduled, decide, settle, acquire, release,
}
use gronin.Run.FileLock.Exclusion.{Step}
use gronin.Run.FileLock.History.{Steps, empty}
use gronin.Run.FileLock.Claims.{Grant, Holding, Holding_once}
use gronin.Run.FileLock.Occurrence.{acquire_tick-once, rate_limited-tick}
use gronin.Run.FileLock.Window.{acquire_full-refused}

-- Nothing fails, at a reading of the clock.
abbrev at_time : ℕ → Faults
at_time now = record {
  matches = λ n. not (str_eq n "");
  redact = λ x. x;
  now = now;
  lock_fails = false;
  unreadable = false;
  written = Written.whole;
  last_tick_fails = false;
  set_tick_fails = false;
  count_fails = false;
  record_fails = false;
}

abbrev limit : RateLimit
limit = record { runs = 1; per = 60 }

-- A scheduled trigger of `nightly`, which may run once a minute.
abbrev nightly : ℕ → AcquireRequest
nightly due = record {
  name = "nightly";
  holder = record { host = "a"; instance_id = "i1"; run_id = "r1" };
  rate = some limit;
  kind = Kind.schedule;
  due_at = due;
}

-- The states of a run that is granted at 100, refused again, and given back.
abbrev granted : State
granted = record {
  locks = record { name = "nightly"; file = 0 } ∷ [];
  files = record { name = "nightly"; holder = (nightly 90).holder } ∷ [];
  next = 1;
  released = [];
  ticks = record { name = "nightly"; due_at = 90; holder = (nightly 90).holder } ∷ [];
  starts = record { name = "nightly"; run_id = "r1"; started_at = 100 } ∷ [];
}

first_grant : acquire (at_time 100) (nightly 90) empty ≡ (ok 0, granted)
unfolding acquire refuses claim record_holder decide tick_if_scheduled tick set_last_tick put_tick
    rate rate_within count_rate_starts settle exists_row find select
first_grant = refl

abbrev returned : State
returned = record granted { locks = []; released = 0 ∷ [] }

first_return : release 0 granted ≡ returned
unfolding release unclaim exists_row select
first_return = refl

-- The next occurrence, within the minute: refused for the rate, its tick recorded.
abbrev limited : State
limited = record returned {
  files = record { name = "nightly"; holder = (nightly 90).holder } ∷ [];
  next = 2;
  ticks = record { name = "nightly"; due_at = 150; holder = (nightly 150).holder } ∷ [];
}

second_refused :
    acquire (at_time 151) (nightly 150) returned ≡ (err (AcquireError.rate_limited limit), limited)
unfolding acquire refuses claim record_holder decide tick_if_scheduled tick set_last_tick put_tick
    rate rate_within count_rate_starts settle unclaim exists_row find select
second_refused = refl

to_granted : Steps empty granted
to_granted = Steps.then empty granted Steps.stop (
    subst (Step empty) (ap (λ x. x.1) first_grant) (Step.acquired (at_time 100) (nightly 90) empty))

back : Steps granted returned
back =
    Steps.then granted returned Steps.stop
      (subst (Step granted) first_return (Step.returned 0 granted))

to_returned : Steps empty returned
to_returned =
    Steps.then granted returned to_granted
      (subst (Step granted) first_return (Step.returned 0 granted))

abbrev first_claim : Grant
first_claim = record { name = "nightly"; number = 0 }

holding_granted : Holding (first_claim ∷ []) (0 ∷ []) granted
holding_granted =
    Holding.granted (at_time 100) (nightly 90) 0 [] [] empty granted Holding.nothing first_grant

-- Granted, given back, and refused for the rate.
holding_limited : Holding [] (0 ∷ []) limited
unfolding select exists_row
holding_limited =
    Holding.denied (at_time 151) (nightly 150) (AcquireError.rate_limited limit) [] (0 ∷ [])
      returned limited
      (subst (Holding [] (0 ∷ [])) first_return
        (Holding.given_back 0 _ (0 ∷ []) granted holding_granted refl))
      second_refused

Holding_once_example :
    length (select (λ (g : Grant). str_eq g.name "nightly") (first_claim ∷ [])) ≤ 1
Holding_once_example = Holding_once "nightly" (first_claim ∷ []) (0 ∷ []) granted holding_granted

-- The claim is released, the lock is taken by another trigger, and the first claim is released
-- again.
abbrev retaken : State
retaken = record returned {
  locks = record { name = "nightly"; file = 1 } ∷ [];
  files = record { name = "nightly"; holder = (nightly 0).holder } ∷ [];
  next = 2;
}

abbrev by_hand : AcquireRequest
by_hand = record (nightly 0) { rate = none; kind = Kind.manual }

retake : acquire (at_time 110) by_hand returned ≡ (ok 1, retaken)
unfolding acquire refuses claim record_holder decide tick_if_scheduled tick set_last_tick put_tick
    rate rate_within count_rate_starts settle exists_row find select
retake = refl

acquire_tick-once_example : ¬ acquire (at_time 500) (nightly 90) returned ≡ (ok 1, returned)
acquire_tick-once_example =
    acquire_tick-once (at_time 100) (at_time 500) (nightly 90) (nightly 90) empty granted returned
      returned 0 1 first_grant refl back refl refl (ground arith)

rate_limited-tick_example : ¬ acquire (at_time 500) (nightly 150) limited ≡ (ok 2, limited)
rate_limited-tick_example =
    rate_limited-tick (at_time 151) (at_time 500) (nightly 150) (nightly 150) returned limited
      limited limited limit 2 second_refused refl Steps.stop refl refl (ground arith)

full : 1 ≤ count_rate_starts "nightly" 40 granted.starts
unfolding count_rate_starts select
full = ground arith

acquire_full-refused_example : ¬ acquire (at_time 100) (nightly 95) returned ≡ (ok 1, returned)
acquire_full-refused_example =
    acquire_full-refused (at_time 100) (nightly 95) limit granted returned returned 1 full back refl
