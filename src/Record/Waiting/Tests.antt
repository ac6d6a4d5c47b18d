-- ===== src/Record/Waiting/Tests.antt =====
-- One trigger that waits and ends.
use gronin.Prelude.{◌≡◌, refl, [], ◌∷◌, none, some, true, ok, exists_row, update}
use gronin.Record.Types.{TriggerKind, WaitingTrigger, WaitOutcome, Mechanism}
use gronin.Record.Db.{Db}
use gronin.Record.Refusals.{Filing, insert_refusal, add_refusal}
use gronin.Record.Waiting.{accept_waiting, WaitEnd, end_wait, set_ended, file_refusal}

abbrev pub no_rows : Db
no_rows = record {
  deliveries = [];
  identities = [];
  handoffs = [];
  runs = [];
  refusals = [];
  delivery_refusals = [];
  waiting_triggers = [];
}

abbrev pub filing : Filing
filing = record { redact = λ x. x; refusal_id = λ x. x }

abbrev pub trigger : WaitingTrigger
trigger = record {
  id = "w1";
  playbook_name = "deploy";
  playbook_path = "deploy.yaml";
  trigger_kind = TriggerKind.manual;
  trigger_ref = "";
  accepted_at = 10;
  expires_at = 90;
  instance_id = "i1";
  outcome = WaitOutcome.waiting;
  outcome_at = 0;
  run_id = "";
  delivery_id = "";
}

abbrev pub one_waits : Db
one_waits = record no_rows { waiting_triggers = trigger ∷ [] }

abbrev dropping : WaitEnd
dropping = record {
  outcome = WaitOutcome.dropped;
  at = 50;
  run_id = "";
  refusal = some (record {
    id = "x1";
    playbook_name = "deploy";
    trigger_kind = TriggerKind.manual;
    due_at = 0;
    waiting_trigger_id = "w1";
    mechanism = Mechanism.dropped;
    detail = "gone";
    refused_at = 50;
    delivery_id = "";
  });
}

abbrev expiring : WaitEnd
expiring = record { outcome = WaitOutcome.wait_expired; at = 60; run_id = ""; refusal = none }

abbrev one_dropped : Db
one_dropped = record no_rows {
  waiting_triggers = record trigger { outcome = WaitOutcome.dropped; outcome_at = 50 } ∷ [];
  refusals =
      record {
        id = "x1";
        playbook_name = "deploy";
        trigger_kind = TriggerKind.manual;
        due_at = 0;
        waiting_trigger_id = "w1";
        mechanism = Mechanism.dropped;
        detail = "gone";
        refused_at = 50;
        delivery_id = "";
      }
      ∷ [];
}

accepting : accept_waiting filing "w1" "" trigger no_rows ≡ ok (trigger, one_waits)
unfolding accept_waiting exists_row
accepting = refl

ending : end_wait filing "w1" dropping one_waits ≡ ok (true, one_dropped)
unfolding end_wait set_ended file_refusal insert_refusal add_refusal exists_row update
ending = refl
