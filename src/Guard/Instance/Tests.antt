-- ===== src/Guard/Instance/Tests.antt =====
-- A trigger whose process is gone.
use gronin.Prelude.{◌≡◌, refl, none, false, select, exists_row, update, find}
use gronin.Record.Refusals.{insert_refusal, add_refusal}
use gronin.Record.Waiting.{
  end_wait, set_ended, file_refusal, still_waiting, by_acceptance, insert_by_acceptance, run_of,
}
use gronin.Record.Waiting.Tests.{filing, one_waits}
use gronin.Guard.Instance.{Host, ran, dropped, after, reconcile_one, reconcile_each, reconcile}
use gronin.Guard.Instance.Rounds.{is_left}
use gronin.Guard.Instance.Gone.{reconcile-none_left}

-- No instance's lock is held.
abbrev host : Host
host = record { filing = filing; alive = λ id. false; wall = λ id. 70; format = λ at. "then" }

succeeds : (reconcile host one_waits).failure ≡ none
unfolding reconcile reconcile_each reconcile_one after ran dropped still_waiting by_acceptance
    insert_by_acceptance run_of end_wait set_ended file_refusal insert_refusal add_refusal select
    exists_row update find
succeeds = refl

-- The trigger was dropped, and counted.
drops_one : (reconcile host one_waits).count ≡ 1
unfolding reconcile reconcile_each reconcile_one after ran dropped still_waiting by_acceptance
    insert_by_acceptance run_of end_wait set_ended file_refusal insert_refusal add_refusal select
    exists_row update find
drops_one = refl

reconcile-none_left_example :
    exists_row
      (is_left host (reconcile host one_waits).db.runs)
      (reconcile host one_waits).db.waiting_triggers
    ≡ false
reconcile-none_left_example = reconcile-none_left host one_waits succeeds
