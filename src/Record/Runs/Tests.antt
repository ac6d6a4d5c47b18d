-- ===== src/Record/Runs/Tests.antt =====
-- A trigger that waits, and a run that it becomes.
use gronin.Prelude.{◌≡◌, refl, [], ◌∷◌, none, true, false, ok, err, exists_row, update}
use gronin.Record.Types.{TriggerKind, RunRow, WaitOutcome}
use gronin.Record.Db.{Db, already_ended}
use gronin.Record.Waiting.{WaitEnd, end_wait, set_ended, file_refusal}
use gronin.Record.Waiting.Tests.{filing, trigger, one_waits}
use gronin.Record.Runs.{create_run, run_row}
use gronin.Record.Runs.Start.{create_run-excludes-end_wait}

abbrev run : RunRow
run = record {
  id = "r1";
  playbook_name = "deploy";
  trigger_kind = TriggerKind.manual;
  started_at = 30;
  waiting_trigger_id = "w1";
  delivery_id = "";
}

abbrev expiring : WaitEnd
expiring = record { outcome = WaitOutcome.wait_expired; at = 60; run_id = ""; refusal = none }

abbrev started : Db
started = record one_waits {
  runs = run ∷ [];
  waiting_triggers =
      record trigger { outcome = WaitOutcome.ran; outcome_at = 30; run_id = "r1" } ∷ [];
}

abbrev expired : Db
expired = record one_waits {
  waiting_triggers = record trigger { outcome = WaitOutcome.wait_expired; outcome_at = 60 } ∷ [];
}

starts : create_run filing 99 run one_waits ≡ ok started
unfolding create_run run_row set_ended exists_row update
starts = refl

expires : end_wait filing "w1" expiring one_waits ≡ ok (true, expired)
unfolding end_wait set_ended file_refusal exists_row update
expires = refl

create_run-excludes-end_wait_example :
    (end_wait filing "w1" expiring started ≡ ok (false, started))
    × (create_run filing 99 run expired ≡ err already_ended)
create_run-excludes-end_wait_example =
    create_run-excludes-end_wait filing 99 run expiring one_waits started expired true refl starts
      refl expires
