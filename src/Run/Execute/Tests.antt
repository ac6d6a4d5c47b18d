-- ===== src/Run/Execute/Tests.antt =====
-- Tests and examples of run/execute.go.
use Prim.Native.String.{◌++◌ as str_append}
use gronin.Prelude.{ℕ, ◌+◌, true, false, List, [], ◌∷◌, none, some, ok, ◌≡◌, refl, String}
use gronin.Prelude.Int.{pos}
use gronin.Sink.Deliver.{Sink, deliver_all, outcome_of}
use gronin.Sink.Deliver
use gronin.Run.Parts.{
  succeeded, claim_lost, gather, retrieve, reported, Book, Parts, join_reasons, no_retrieve_stage,
  prompt_trigger, book_of,
}
use gronin.Run.Execute.{
  unless_failed, bind_steps, run_bound, gather_stage, retrieve_with, retrieve_if_declared,
  prompt_stage, built, fence_stage, ended, agent_stage, note_outcome, note_outcomes, note_refusal,
  deliver, mark_lost, stopped_by_the_guard, agent_and_sinks, with_problems, finished, at_start,
  body, recorded_end, begun, admitted, execute,
}
use gronin.Run.Execute.Order.{Ends, passed, stages, execute-Ends}

-- A sink that delivers, and counts it.
abbrev counting : Sink ℕ
counting = record {
  name = "count";
  creates = false;
  cap = none;
  deliver = λ n. (
    record {
      sink = "";
      status = Deliver.Status.delivered;
      items_created = pos 0;
      items_skipped = pos 0;
      detail = "";
    },
    none,
    n + 1,
  );
}

-- A deployment where every part does well; the state counts deliveries.
abbrev pub healthy : Parts ℕ
healthy = record {
  values = [];
  say = λ name problems. name;
  admit = λ n. (ok none, n);
  begin = λ n. (none, n);
  release = λ n. n;
  finish = λ status error n. n;
  stopped = λ n. none;
  store_resolved = λ n. ([], n);
  write_trigger_data = λ n. ([], n);
  run_steps = λ bounds n. ([], none, n);
  retrieve_stage = none;
  resolve_prompt = λ payload n. (none, n);
  build_sinks = λ payload n. (ok (counting ∷ []), n);
  hold_fence = λ n. (none, n);
  run_agent = λ n. (reported [] none, n);
  put_report = λ n. ([], n);
  add_sink_outcome = λ o n. ([], n);
}

abbrev book : Book
book = record { steps = []; is_webhook = false; retrieves = false }

abbrev pub join : List String → String
join problems = "problems"

execute_well : execute join healthy book [] 0 ≡ record {
  world = 1;
  returned = ok (succeeded, "");
  recorded = some (succeeded, "");
  calls = passed stages;
}
unfolding execute admitted begun body at_start gather_stage bind_steps run_bound unless_failed
    retrieve_if_declared prompt_stage prompt_trigger agent_and_sinks built fence_stage agent_stage
    ended deliver deliver_all outcome_of note_outcomes note_outcome note_refusal
    stopped_by_the_guard mark_lost finished with_problems recorded_end book_of
execute_well = refl

-- A retrieval without a stage is refused before the prompt.
execute_no_stage :
    (execute join healthy (record book { retrieves = true }) [] 0).calls
    ≡ (gather, none) ∷ (retrieve, some no_retrieve_stage) ∷ []
unfolding execute admitted begun body at_start gather_stage bind_steps run_bound unless_failed
    retrieve_if_declared retrieve_with prompt_stage prompt_trigger agent_and_sinks finished
    with_problems recorded_end stopped_by_the_guard mark_lost book_of
execute_no_stage = refl

-- A run that the guard stopped while it delivered records the reason twice.
execute_reason_twice :
    (execute join (record healthy { stopped = λ n. some "gone" }) book [] 0).recorded
    ≡ some (claim_lost, str_append "gone" (str_append "; " "gone"))
unfolding execute admitted begun body at_start gather_stage bind_steps run_bound unless_failed
    retrieve_if_declared prompt_stage prompt_trigger agent_and_sinks built fence_stage agent_stage
    ended deliver deliver_all outcome_of note_outcomes note_outcome note_refusal
    stopped_by_the_guard mark_lost finished with_problems recorded_end book_of join_reasons
execute_reason_twice = refl

execute-Ends_example :
    Ends (execute join healthy book [] 0).recorded (execute join healthy book [] 0).calls
execute-Ends_example = execute-Ends join healthy book [] 0
