-- ===== src/Guard/Coordinator.antt =====
-- guard/coordinator.go and guard/guard.go: what a claim is asked for, how an acquisition fails, and
-- how the guard builds the request and reads the failure.
use gronin.Prelude.{ℕ, Bool, true, false, ◌&&◌, ◌||◌, Option, none, String, str_eq}
use gronin.Record.Types.{Time, is_zero, TriggerKind, Mechanism}

-- Who holds a claim.
pub record Holder : Type 0 where
  pub host : String
  pub instance_id : String
  pub run_id : String

-- A limit of runs per window. A playbook declares at least one run, and a positive window.
pub record RateLimit : Type 0 where
  pub runs : ℕ
  pub per : ℕ

-- What the coordinator is told of a trigger: KindSchedule or KindManual.
pub data Kind : Type 0 where
  schedule manual : Kind

pub record AcquireRequest : Type 0 where
  pub name : String
  pub holder : Holder
  pub rate : Option RateLimit
  pub kind : Kind
  pub due_at : Time

-- The errors of an acquisition. A request that `Check` refuses is none of the refusals that the
-- contract names, and neither is a backend that does not answer.
pub data AcquireError : Type 0 where
  bad_request unavailable : AcquireError
  held_by : Option Holder → AcquireError
  tick_ran : Time → Holder → AcquireError
  rate_limited : RateLimit → AcquireError

abbrev pub is_schedule : Kind → Bool
is_schedule Kind.schedule = true
is_schedule Kind.manual = false

-- `AcquireRequest.Check`, as whether it refuses.
unfoldable pub refuses : AcquireRequest → Bool
refuses req = str_eq req.name "" || (is_schedule req.kind && is_zero req.due_at)

-- `kindOf`
unfoldable pub kind_of : TriggerKind → Kind
kind_of TriggerKind.schedule = Kind.schedule
kind_of TriggerKind.manual = Kind.manual
kind_of TriggerKind.replay = Kind.manual
kind_of TriggerKind.resume = Kind.manual
kind_of TriggerKind.webhook = Kind.manual

-- `dueOf`
unfoldable pub due_of : TriggerKind → Time → Time
unfolding kind_of
due_of kind due_at = elim (kind_of kind) [ schedule ↦ due_at | manual ↦ 0 ]

-- `rateOf`, of the limit that the playbook declares and that parses.
unfoldable pub rate_of : TriggerKind → Option RateLimit → Option RateLimit
rate_of TriggerKind.schedule declared = declared
rate_of TriggerKind.manual declared = declared
rate_of TriggerKind.replay declared = none
rate_of TriggerKind.resume declared = none
rate_of TriggerKind.webhook declared = none

-- `mechanismOf`
unfoldable pub mechanism_of : AcquireError → Mechanism
mechanism_of (AcquireError.held_by holder) = Mechanism.claim_held
mechanism_of (AcquireError.tick_ran due_at holder) = Mechanism.tick_already_ran
mechanism_of (AcquireError.rate_limited limit) = Mechanism.rate_limited
mechanism_of AcquireError.bad_request = Mechanism.backend_unavailable
mechanism_of AcquireError.unavailable = Mechanism.backend_unavailable
