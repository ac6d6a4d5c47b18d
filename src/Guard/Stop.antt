-- ===== src/Guard/Stop.antt =====
-- guard/holder.go: the one stop decision of a held claim, the fence before a side effect, and the
-- enforcement of the stop bound.
pub mod Once
use gronin.Prelude.{
  ℕ, suc, ◌+◌, ◌≡◌, Bool, true, false, not, List, [], ◌∷◌, Option, none, some, String, refl, arith,
  if◌then◌else◌, ◌++◌,
}
use gronin.Guard.Clock.{Instant, Duration, add, before}
use gronin.Guard.Config.{Config}

-- The exit code of a process whose run outlived the stop bound.
abbrev pub stop_bound_exceeded : ℕ
stop_bound_exceeded = 3

-- The state of a `Hold` beside its loop: whether its `Once` has run, what it stored, how often it
-- called `stop`, and the readings at which it started an enforcement.
pub record Stopping : Type 0 where
  pub decided : Bool
  pub reason : Option String
  pub stop_calls : ℕ
  pub enforcing : List Instant

abbrev pub undecided : Stopping
undecided = record { decided = false; reason = none; stop_calls = 0; enforcing = [] }

-- `Hold.decideToStop`, at a reading of the clock.
unfoldable pub decide_to_stop : String → Instant → Stopping → Stopping
decide_to_stop why now h = if h.decided then h else record {
  decided = true;
  reason = some why;
  stop_calls = suc h.stop_calls;
  enforcing = now ∷ h.enforcing;
}

-- What asks for a stop: the loop, or a fence that failed.
unfoldable pub decide_all : List (String × Instant) → Stopping → Stopping
decide_all [] h = h
decide_all ((why, now) ∷ rest) h = decide_all rest (decide_to_stop why now h)

-- `Hold.Fence`: no claim is a fence that holds; an error of the claim's fence stops the run and is
-- returned.
unfoldable pub fence : Option (Option String) → Instant → Stopping → Option String × Stopping
unfolding decide_to_stop
fence none now h = (none, h)
fence (some none) now h = (none, h)
fence (some (some err)) now h = (some err, decide_to_stop err now h)

-- `Hold.enforce`, started at a decision: the process exits unless the run is over before the timer
-- of the stop bound. `none` is a run that never ends.
unfoldable pub enforce : Config → Instant → Option Instant → Option ℕ
enforce c decided none = some stop_bound_exceeded
enforce c decided (some ended) =
    if before ended (add decided c.stop_bound) then none else some stop_bound_exceeded
