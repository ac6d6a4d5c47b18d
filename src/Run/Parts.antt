-- ===== src/Run/Parts.antt =====
-- run/execute.go and replay.go: what an execution calls, what it keeps, and what it leaves. The
-- stages, the guard and the record are functions on a state `W` for what lies outside; what
-- `Execute` asks of them, and what they answer, is kept in the order of the calls.
use Prim.Native.String.{◌++◌ as str_append}
use gronin.Prelude.{
  Bool, true, false, List, [], Option, none, some, String, str_eq, if◌then◌else◌, Result,
}
use gronin.Prelude.Bytes.{Bytes, Entries}
use gronin.Config.Shell.{Refused, Bound}
use gronin.Sink.Deliver.{Sink, Outcome, Delivered, deliver_all}
use gronin.Sink.Deliver

-- The statuses of a run that is over.
pub data RunStatus : Type 0 where
  failed refused timed_out succeeded claim_lost : RunStatus

pub data Stage : Type 0 where
  gather retrieve prompt build fence agent : Stage

-- A gather step: its line, and the name of its output.
pub record Step : Type 0 where
  pub run : Bytes
  pub as_name : String

-- How the agent's process ended: it did not start; its stream was refused; it ran out of time; or
-- with a report, or why there is none. What could not be recorded of it comes along.
pub data AgentEnd : Type 0 where
  not_started : String → AgentEnd
  aborted : List String → String → AgentEnd
  out_of_time : List String → String → AgentEnd
  reported : List String → Option String → AgentEnd

-- A playbook, in what an execution reads of it.
pub record Book : Type 0 where
  pub steps : List Step
  pub is_webhook : Bool
  pub retrieves : Bool

-- The parts that an execution calls. A list of texts is what could not be recorded.
pub record Parts (W : Type 0) : Type 0 where
  pub values : Entries Bytes
  pub say : String → List Refused → String
  -- The admitted book is the file as it is now, for a trigger that waited.
  pub admit : W → Result String (Option Book) × W
  pub begin : W → Option String × W
  pub release : W → W
  -- `Manager.Finish`, which records the terminal state, removes the directory and releases.
  pub finish : RunStatus → String → W → W
  -- `hold.Stopped` with `hold.Reason`.
  pub stopped : W → Option String
  pub store_resolved : W → List String × W
  pub write_trigger_data : W → List String × W
  pub run_steps : List Bound → W → List String × Option String × W
  -- `e.Retrieve`, nil where the deployment has none.
  pub retrieve_stage : Option (Entries Bytes → W → List String × Option String × W)
  pub resolve_prompt : Entries Bytes → W → Option String × W
  -- `sink.Build`, the timeout and the servers, whose refusals are one text.
  pub build_sinks : Entries Bytes → W → Result String (List (Sink W)) × W
  pub hold_fence : W → Option String × W
  pub run_agent : W → AgentEnd × W
  pub put_report : W → List String × W
  pub add_sink_outcome : Outcome → W → List String × W

pub record Progress (W : Type 0) : Type 0 where
  pub world : W
  pub status : RunStatus
  pub error : String
  pub incomplete : List String
  pub calls : List (Stage × Option String)

-- joinReasons
unfoldable pub join_reasons : String → String → String
join_reasons first second =
    if str_eq first "" then second else str_append first (str_append "; " second)

-- A stage leaves early, or goes on.
abbrev pub Going : Type 0 → Type 0
Going W = Result (Progress W) (Progress W)

abbrev pub no_retrieve_stage : String
no_retrieve_stage = "this playbook retrieves, and this deployment was given no retrieve stage"

-- The prompt of a webhook's playbook is resolved with no values of the trigger.
unfoldable pub prompt_trigger : Book → Entries Bytes → Entries Bytes
prompt_trigger book payload = if book.is_webhook then [] else payload

abbrev pub sink_failed : String
sink_failed = "a sink failed; the report is in the record and the run can be resumed"

abbrev pub is_failure : Deliver.Status → Bool
is_failure Deliver.Status.failed = true
is_failure _ = false

abbrev pub is_success : RunStatus → Bool
is_success succeeded = true
is_success _ = false

-- What an execution returns and leaves; the status and the error that it records, where it began.
pub record Executed (W : Type 0) : Type 0 where
  pub world : W
  pub returned : Result String (RunStatus × String)
  pub recorded : Option (RunStatus × String)
  pub calls : List (Stage × Option String)

unfoldable pub book_of : Book → Option Book → Book
book_of book none = book
book_of book (some now) = now
