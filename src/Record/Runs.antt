-- ===== src/Record/Runs.antt =====
-- record/runs.go: `CreateRun`, which ends the wait that a run started from in the same transaction.
pub mod Start
pub mod Tests
use gronin.Prelude.{
  Bool, true, false, ◌&&◌, not, List, ◌∷◌, String, str_eq, if◌then◌else◌, Result, ok, err,
  exists_row, update, Option, none,
}
use gronin.Record.Types.{Time, is_zero, RunRow, WaitOutcome}
use gronin.Record.Db.{Db, StoreError, duplicate_key, already_ended}
use gronin.Record.Refusals.{Filing}
use gronin.Record.Waiting.{WaitEnd, is_live, set_ended}

-- The row that is inserted; a run without a start begins at the reading of the clock.
unfoldable pub run_row : Filing → Time → RunRow → RunRow
run_row filing now run = record run {
  playbook_name = filing.redact run.playbook_name;
  started_at = if is_zero run.started_at then now else run.started_at;
}

-- The end that a run is of its wait.
abbrev pub became : RunRow → WaitEnd
became row = record {
  outcome = WaitOutcome.ran;
  at = row.started_at;
  run_id = row.id;
  refusal = none;
}

-- `CreateRun`
unfoldable pub create_run : Filing → Time → RunRow → Db → Result StoreError Db
unfolding run_row set_ended
create_run filing now run db =
    let row = run_row filing now run in
    if exists_row (λ r. str_eq r.id run.id) db.runs
    then err duplicate_key
    else if str_eq run.waiting_trigger_id ""
    then ok (record db { runs = row ∷ db.runs })
    else if not (exists_row (is_live run.waiting_trigger_id) db.waiting_triggers)
    then err already_ended
    else ok (record db {
      runs = row ∷ db.runs;
      waiting_triggers = set_ended run.waiting_trigger_id (became row) db.waiting_triggers;
    })
