-- ===== src/Record/Types.antt =====
-- The rows of the record's tables: record/store.go, deliveries.go, waiting.go, refusals.go and
-- delivery_refusals.go. An absent text is "", as in the source's structs; a time is its
-- nanoseconds since the zero time, which is 0.
use gronin.Prelude.{ℕ, ◌-◌, ◌^◌, min, Bool, String, leb, if◌then◌else◌, ◌==◌}
use gronin.Prelude.Int.{ℤ, pos, negsuc}

abbrev pub Time : Type 0
Time = ℕ

-- `t.IsZero()`
abbrev pub is_zero : Time → Bool
is_zero t = t == 0

-- `t.Sub(u)`, which saturates at the ends of a Duration.
unfoldable pub time_sub : Time → Time → ℤ
time_sub t u =
    if leb u t then pos (min (t - u) (2 ^ 63 - 1)) else negsuc (min (u - t - 1) (2 ^ 63 - 1))

pub data TriggerKind : Type 0 where
  schedule manual replay resume webhook : TriggerKind

pub data Mechanism : Type 0 where
  claim_held tick_already_ran waiting_slot_full wait_expired rate_limited backend_unavailable
        playbook_changed dropped :
      Mechanism

pub data DeliveryState : Type 0 where
  accepted waiting handed_off dropped unbound : DeliveryState

pub data IdentityKind : Type 0 where
  declared digest : IdentityKind

pub data HandOffState : Type 0 where
  pending waiting handed_off refused dropped : HandOffState

pub data WaitOutcome : Type 0 where
  waiting ran wait_expired rate_limited playbook_changed backend_unavailable dropped : WaitOutcome

pub record Delivery : Type 0 where
  pub id : String
  pub source : String
  pub identity : String
  pub identity_kind : IdentityKind
  pub received_at : Time
  pub peer : String
  pub body_ref : String
  pub body_sha256 : String
  pub repeats : ℕ
  pub instance_id : String
  pub supersedes : String
  pub state : DeliveryState

-- A row of `delivery_identities`.
pub record IdentityRow : Type 0 where
  pub source : String
  pub identity : String
  pub delivery_id : String
  pub accepted_at : Time

pub record HandOff : Type 0 where
  pub delivery_id : String
  pub playbook_name : String
  pub state : HandOffState
  pub decided_at : Time

-- A row of `runs`, in the columns that a hand-off and a wait read.
pub record RunRow : Type 0 where
  pub id : String
  pub playbook_name : String
  pub trigger_kind : TriggerKind
  pub started_at : Time
  pub waiting_trigger_id : String
  pub delivery_id : String

pub record Refusal : Type 0 where
  pub id : String
  pub playbook_name : String
  pub trigger_kind : TriggerKind
  pub due_at : Time
  pub waiting_trigger_id : String
  pub mechanism : Mechanism
  pub detail : String
  pub refused_at : Time
  pub delivery_id : String

-- A row of `delivery_refusals`, in the columns that a hand-off reads.
pub record DeliveryRefusalRow : Type 0 where
  pub id : String
  pub playbook_name : String
  pub delivery_id : String
  pub received_at : Time

pub record WaitingTrigger : Type 0 where
  pub id : String
  pub playbook_name : String
  pub playbook_path : String
  pub trigger_kind : TriggerKind
  pub trigger_ref : String
  pub accepted_at : Time
  pub expires_at : Time
  pub instance_id : String
  pub outcome : WaitOutcome
  pub outcome_at : Time
  pub run_id : String
  pub delivery_id : String
