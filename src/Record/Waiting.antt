-- ===== src/Record/Waiting.antt =====
-- record/waiting.go: the triggers accepted to wait. Their reads give a row the run that names it.
pub mod Once
pub mod Tests
use gronin.Prelude.{
  ℕ, Bool, true, false, ◌&&◌, ◌||◌, not, List, [], ◌∷◌, map, Option, none, some, String, str_eq,
  if◌then◌else◌, Result, ok, err, ◌>>=◌, find, select, exists_row, update, leb,
}
use gronin.Record.Types.{Time, is_zero, RunRow, Refusal, WaitingTrigger, WaitOutcome}
use gronin.Record.Db.{Db, StoreError, no_time, duplicate_key, slot_full, is_waiting}
use gronin.Record.Refusals.{Filing, insert_refusal}

-- WHERE playbook_name = ? AND outcome = 'waiting'
abbrev pub is_live_for : String → WaitingTrigger → Bool
is_live_for name w = str_eq w.playbook_name name && is_waiting w.outcome

-- `AcceptWaiting`, with the identifier that it draws and the reference of the values that it files,
-- "" where the trigger has none. It returns the trigger, and stores it with its path and its
-- instance redacted.
unfoldable pub accept_waiting :
    Filing → String → String → WaitingTrigger → Db → Result StoreError (WaitingTrigger × Db)
accept_waiting filing id ref trigger db =
    let accepted = record trigger {
      id = id;
      outcome = WaitOutcome.waiting;
      playbook_name = filing.redact trigger.playbook_name;
      trigger_ref = ref;
    } in
    let row = record accepted {
      playbook_path = filing.redact trigger.playbook_path;
      instance_id = filing.redact trigger.instance_id;
      outcome_at = 0;
      run_id = "";
    } in
    if is_zero trigger.accepted_at || is_zero trigger.expires_at
    then err no_time
    else if exists_row (is_live_for accepted.playbook_name) db.waiting_triggers
    then err slot_full
    else if exists_row (λ w. str_eq w.id id) db.waiting_triggers
    then err duplicate_key
    else ok (accepted, record db { waiting_triggers = row ∷ db.waiting_triggers })

-- `WaitEnd`
pub record WaitEnd : Type 0 where
  pub outcome : WaitOutcome
  pub at : Time
  pub run_id : String
  pub refusal : Option Refusal

-- WHERE id = ? AND outcome = 'waiting'
abbrev pub is_live : String → WaitingTrigger → Bool
is_live id w = str_eq w.id id && is_waiting w.outcome

-- UPDATE waiting_triggers SET outcome = ?, outcome_at = ?, run_id = ? WHERE …
unfoldable pub set_ended : String → WaitEnd → List WaitingTrigger → List WaitingTrigger
set_ended id end =
    update (is_live id)
      (λ w. record w { outcome = end.outcome; outcome_at = end.at; run_id = end.run_id })

-- The refusal that an end writes, in the same transaction.
unfoldable pub file_refusal : Filing → Option Refusal → Db → Result StoreError Db
unfolding insert_refusal
file_refusal filing none db = ok db
file_refusal filing (some refusal) db = insert_refusal filing refusal db

-- `EndWait`: whether this call is what ended the wait.
unfoldable pub end_wait : Filing → String → WaitEnd → Db → Result StoreError (Bool × Db)
unfolding set_ended file_refusal
end_wait filing id end db =
    if is_waiting end.outcome || is_zero end.at
    then err no_time
    else if not (exists_row (is_live id) db.waiting_triggers)
    then ok (false, db)
    else (file_refusal filing end.refusal
          (record db { waiting_triggers = set_ended id end db.waiting_triggers })
        >>= λ db'. ok (true, db'))

-- coalesce(run_id, (SELECT runs.id FROM runs WHERE runs.waiting_trigger_id = waiting_triggers.id))
unfoldable pub run_of : List RunRow → WaitingTrigger → String
run_of runs w =
    if str_eq w.run_id ""
    then elim (find (λ r. str_eq r.waiting_trigger_id w.id) runs) [ none ↦ "" | some r ↦ r.id ]
    else w.run_id

-- ORDER BY accepted_at, by insertion.
unfoldable pub insert_by_acceptance : WaitingTrigger → List WaitingTrigger → List WaitingTrigger
insert_by_acceptance w [] = w ∷ []
insert_by_acceptance w (x ∷ xs) =
    let rest = insert_by_acceptance w xs in
    if leb w.accepted_at x.accepted_at then w ∷ x ∷ xs else x ∷ rest

unfoldable pub by_acceptance : List WaitingTrigger → List WaitingTrigger
unfolding insert_by_acceptance
by_acceptance [] = []
by_acceptance (w ∷ ws) = insert_by_acceptance w (by_acceptance ws)

abbrev pub with_run : List RunRow → WaitingTrigger → WaitingTrigger
with_run runs w = record w { run_id = run_of runs w }

-- `StillWaiting`
unfoldable pub still_waiting : Db → List WaitingTrigger
unfolding by_acceptance
still_waiting db =
    by_acceptance (map (with_run db.runs) (select (λ w. is_waiting w.outcome) db.waiting_triggers))
