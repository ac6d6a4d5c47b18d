-- ===== src/Record/Runs/Start.antt =====
-- A wait ends once, as a run or otherwise.
use gronin.Prelude.{◌≡◌, refl, Bool, false, ◌||◌, str_eq, ok, err, exists_row, arith}
use gronin.Record.Types.{Time, is_zero, RunRow}
use gronin.Record.Db.{Db, is_waiting, already_ended}
use gronin.Record.Refusals.{Filing}
use gronin.Record.Waiting.{WaitEnd, is_live, set_ended, end_wait}
use gronin.Record.Waiting.Once.{end_wait-inv, set_ended-none}
use gronin.Record.Runs.{create_run, run_row, became}

-- A run that was created from a waiting trigger was the end of its wait.
create_run-ends :
    (filing : Filing) (now : Time) (run : RunRow) (db db' : Db)
    → create_run filing now run db ≡ ok db'
    → str_eq run.waiting_trigger_id "" ≡ false
    → exists_row (is_live run.waiting_trigger_id) db'.waiting_triggers ≡ false
unfolding create_run
create_run-ends filing now run db db' e waited =
    let ws : db'.waiting_triggers
        ≡ set_ended run.waiting_trigger_id (became (run_row filing now run)) db.waiting_triggers =
      ground arith in
    rw ws (
      set_ended-none run.waiting_trigger_id (became (run_row filing now run)) db.waiting_triggers
        refl)

-- A run and a recorded end of the same wait exclude each other. After a run was created from a
-- waiting trigger, a valid end of that trigger ends nothing and changes nothing, so that it is never
-- refused as well; and after an end was recorded, the creation of a run from that trigger fails with
-- nothing written, given that the run's identifier is new.
pub create_run-excludes-end_wait :
    (filing : Filing) (now : Time) (run : RunRow) (end : WaitEnd) (db db' ended : Db) (b : Bool)
    → str_eq run.waiting_trigger_id "" ≡ false
    → create_run filing now run db ≡ ok db'
    → (is_waiting end.outcome || is_zero end.at) ≡ false
    → end_wait filing run.waiting_trigger_id end db ≡ ok (b, ended)
    → (end_wait filing run.waiting_trigger_id end db' ≡ ok (false, db'))
      × (create_run filing now run ended ≡ err already_ended)
unfolding create_run end_wait
create_run-excludes-end_wait filing now run end db db' ended b waited e good over =
    let gone = create_run-ends filing now run db db' e waited in
    let (closed, rs, ws) = end_wait-inv filing run.waiting_trigger_id end db ended b over in
    let none_live : exists_row (is_live run.waiting_trigger_id) ended.waiting_triggers ≡ false =
      rw ws (set_ended-none run.waiting_trigger_id end db.waiting_triggers closed) in
    let new : exists_row (λ r. str_eq r.id run.id) ended.runs ≡ false = rw rs (ground arith) in
    (rw (good, gone) refl, rw (new, waited, none_live) refl)
