-- ===== src/Run/Replay/Tests.antt =====
-- Tests and examples of run/replay.go.
use gronin.Prelude.{ℕ, ◌+◌, [], ◌∷◌, none, some, ok, err, ◌≡◌, refl, str_eq, if◌then◌else◌}
use gronin.Prelude.Bytes.{same}
use gronin.Prelude.Int.{pos}
use gronin.Sink.Deliver.{deliver_all, outcome_of}
use gronin.Run.Parts.{refused, succeeded, build, fence, agent}
use gronin.Run.Execute.{
  unless_failed, built, fence_stage, ended, agent_stage, note_outcome, note_outcomes, note_refusal,
  deliver, mark_lost, stopped_by_the_guard, agent_and_sinks, with_problems, finished, at_start,
  recorded_end, not_begun,
}
use gronin.Run.Execute.Order.{passed}
use gronin.Run.Execute.Tests.{healthy, join}
use gronin.Run.Past.{ParentRun, Past}
use gronin.Run.Replay.{
  not_replayable, playbook_changed, wrapped, or_wrapped, required, noted, changed_text, compared,
  same_as_recorded, restorable, resumable, written_back, read_or_refuse, recorded_input,
  restore_input, restore_inputs, contents_of, restored_retrieval, put_results, put_contents,
  add_row, record_retrieval, restore_retrieval, restore_retrievals, keep_blob, replay_prompt,
  replay_stages, resume_stages, rerun_begun, rerun_admitted, rerun, replay, resume,
}
use gronin.Run.Replay.Order.{Derived, replay-Derived, resume-Derived}

abbrev parent : ParentRun
parent = record {
  id = "r1";
  resolved_playbook_ref = "book";
  prompt_ref = "prompt";
  report_ref = "report";
}

-- A record of one input and of one retrieval with one result; the state counts what is written,
-- and what the sinks of an execution deliver.
abbrev past : Past ℕ
past = record {
  get_run = λ n. ok parent;
  gathered_inputs = λ n. ok (record { name = "in"; blob_ref = "input" } ∷ []);
  retrievals = λ n. ok (
      record {
        sequence = pos 1;
        as_name = "found";
        results_ref = "results";
        items = record { rank = pos 1; content_ref = "item" } ∷ [];
      }
      ∷ []);
  get_blob = λ ref n. if str_eq ref "lost" then err "no such blob" else ok (7 ∷ []);
  put_blob = λ name content n. ((none, name), n + 1);
  book_name = "nightly";
  marshal = ok (7 ∷ []);
  trim_space = λ s. s;
  base = λ name. name;
  in_quotes = λ name. name;
  results_name = λ sequence. "results";
  content_name = λ sequence rank. "item";
  write_file = λ name content n. (none, n + 1);
  add_gathered_input = λ input n. (none, n + 1);
  add_retrieval = λ row n. (none, n + 1);
  give_prompt = λ prompt n. n;
  build_only = λ n. (ok [], n);
}

-- Two writes for the input, four for the retrieval, the prompt, and a delivery.
replay_well : replay past healthy join 0 ≡ record {
  world = 8;
  returned = ok (succeeded, "");
  recorded = some (succeeded, "");
  calls = passed (build ∷ fence ∷ agent ∷ []);
}
unfolding replay restorable same_as_recorded required or_wrapped compared same rerun rerun_admitted
    rerun_begun at_start replay_stages restore_inputs restore_input read_or_refuse written_back
    unless_failed recorded_input noted restore_retrievals restore_retrieval restored_retrieval
    contents_of record_retrieval put_results put_contents add_row replay_prompt keep_blob
    agent_and_sinks built fence_stage agent_stage ended deliver deliver_all outcome_of note_outcomes
    note_outcome note_refusal stopped_by_the_guard mark_lost finished with_problems recorded_end
replay_well = refl

-- Nothing is written where the playbook has changed.
replay_changed : replay (record past { marshal = ok (8 ∷ []) }) healthy join 0 ≡ record {
  world = 0;
  returned = err (wrapped playbook_changed (changed_text past parent));
  recorded = none;
  calls = [];
}
unfolding replay restorable same_as_recorded required or_wrapped compared same rerun not_begun
    changed_text
replay_changed = refl

-- A recorded input whose blob is lost refuses the new run before its first stage.
replay_lost_input :
    replay
      (record past { gathered_inputs = λ n. ok (record { name = "in"; blob_ref = "lost" } ∷ []) })
      healthy
      join
      0
    ≡ record {
      world = 0;
      returned = ok (refused, wrapped not_replayable (wrapped "input in" "no such blob"));
      recorded = some (refused, wrapped not_replayable (wrapped "input in" "no such blob"));
      calls = [];
    }
unfolding replay restorable same_as_recorded required or_wrapped compared same rerun rerun_admitted
    rerun_begun at_start replay_stages restore_inputs restore_input read_or_refuse
    stopped_by_the_guard mark_lost finished with_problems recorded_end
replay_lost_input = refl

-- A resume of a run keeps its report, and delivers to no sink where none is declared.
resume_well : (resume past healthy join 0).recorded ≡ some (succeeded, "")
unfolding resume resumable same_as_recorded required or_wrapped compared same rerun rerun_admitted
    rerun_begun at_start resume_stages built keep_blob noted deliver deliver_all note_outcomes
    note_refusal stopped_by_the_guard mark_lost finished with_problems recorded_end
resume_well = refl

replay-Derived_example :
    Derived past (λ p. p.prompt_ref) (build ∷ fence ∷ agent ∷ []) 0 (replay past healthy join 0)
replay-Derived_example = replay-Derived past healthy join 0

resume-Derived_example :
    Derived past (λ p. p.report_ref) (build ∷ []) 0 (resume past healthy join 0)
resume-Derived_example = resume-Derived past healthy join 0
