-- ===== src/Run/Execute.antt =====
-- run/execute.go and replay.go: `Execute`, with `agentAndSinks` and `deliver`.
pub mod Order
pub mod Tests
use Prim.Native.String.{◌++◌ as str_append}
use gronin.Prelude.{
  Bool, true, false, ◌&&◌, not, List, [], ◌∷◌, ◌++◌, Option, none, some, String, str_eq,
  if◌then◌else◌, Result, ok, err, ◌>>=◌,
}
use gronin.Prelude.Bytes.{Bytes, Entries}
use gronin.Config.Shell.{Refused, Bound, bind_shell}
use gronin.Sink.Deliver.{Sink, Outcome, Delivered, deliver_all}
use gronin.Sink.Deliver
use gronin.Run.Parts.{
  RunStatus, failed, refused, timed_out, succeeded, claim_lost, Stage, gather, retrieve, prompt,
  build, fence, agent, Step, AgentEnd, not_started, aborted, out_of_time, reported, Book, Parts,
  Progress, join_reasons, Going, no_retrieve_stage, prompt_trigger, sink_failed, is_failure,
  is_success, Executed, book_of,
}

module _ {W : Type 0} where
  -- A call of a stage with what it answers and what could not be recorded.
  abbrev pub told : Stage → List String → Option String → W → Progress W → Progress W
  told stage problems answer world p = record p {
    world = world;
    incomplete = p.incomplete ++ problems;
    calls = p.calls ++ (stage, answer) ∷ [];
  }

  -- A stage whose error ends the run with a status.
  unfoldable pub unless_failed : RunStatus → Option String → Progress W → Going W
  unless_failed status none p = ok p
  unless_failed status (some why) p = err (record p { status = status; error = why })

  unfoldable pub bind_steps : Parts W → Entries Bytes → List Step → Result String (List Bound)
  bind_steps parts payload [] = ok []
  bind_steps parts payload (step ∷ steps) =
      let rest = bind_steps parts payload steps in
      elim (bind_shell parts.values payload step.run) [
        | err problems ↦ err (parts.say step.as_name problems)
        | ok bound ↦ rest >>= λ bounds. ok (bound ∷ bounds)
      ]

  unfoldable pub run_bound :
      Parts W → Result String (List Bound) → W → List String × Option String × W
  run_bound parts (err why) w = ([], some why, w)
  run_bound parts (ok bounds) w = parts.run_steps bounds w

  -- e.gather
  unfoldable pub gather_stage : Parts W → Book → Entries Bytes → Progress W → Going W
  gather_stage parts book payload p =
      let (noted, written) =
        if book.is_webhook then parts.write_trigger_data p.world else ([], p.world) in
      let (problems, answer, world) =
        run_bound parts (bind_steps parts payload book.steps) written in
      unless_failed refused answer (told gather (noted ++ problems) answer world p)

  unfoldable pub retrieve_with :
      Option (Entries Bytes → W → List String × Option String × W)
      → Entries Bytes
      → W
      → List String × Option String × W
  retrieve_with none payload w = ([], some no_retrieve_stage, w)
  retrieve_with (some stage) payload w = stage payload w

  -- e.retrieve
  unfoldable pub retrieve_if_declared : Parts W → Book → Entries Bytes → Progress W → Going W
  retrieve_if_declared parts book payload p =
      let (problems, answer, world) =
        if book.retrieves
        then retrieve_with parts.retrieve_stage payload p.world
        else ([], none, p.world) in
      unless_failed refused answer (told retrieve problems answer world p)

  -- e.prompt
  unfoldable pub prompt_stage : Parts W → Book → Entries Bytes → Progress W → Going W
  prompt_stage parts book payload p =
      let (answer, world) = parts.resolve_prompt (prompt_trigger book payload) p.world in
      unless_failed refused answer (told prompt [] answer world p)

  unfoldable pub built :
      Result String (List (Sink W))
      → W
      → Progress W
      → Result (Progress W) (List (Sink W) × Progress W)
  built (err why) world p =
      err (record (told build [] (some why) world p) { status = refused; error = why })
  built (ok sinks) world p = ok (sinks, told build [] none world p)

  -- The first fence, whose error leaves the status as it was.
  unfoldable pub fence_stage : Parts W → Progress W → Going W
  fence_stage parts p =
      let (answer, world) = parts.hold_fence p.world in
      unless_failed p.status answer (told fence [] answer world p)

  -- What is delivered: a report, or why there is none.
  unfoldable pub ended : Parts W → AgentEnd → W → Progress W → Going W
  ended parts (not_started why) world p =
      unless_failed p.status (some why) (told agent [] (some why) world p)
  ended parts (aborted problems why) world p =
      unless_failed refused (some why) (told agent problems (some why) world p)
  ended parts (out_of_time problems why) world p =
      unless_failed timed_out (some why) (told agent problems (some why) world p)
  ended parts (reported problems (some why)) world p =
      ok (record (told agent problems none world p) { status = failed; error = why })
  ended parts (reported problems none) world p =
      let (noted, kept) = parts.put_report world in
      ok (record (told agent (problems ++ noted) none kept p) { status = succeeded })

  unfoldable pub agent_stage : Parts W → Progress W → Going W
  agent_stage parts p = let (end, world) = parts.run_agent p.world in ended parts end world p

  -- A round of the loop over what the sinks did.
  unfoldable pub note_outcome : Parts W → Outcome → Progress W → Progress W
  note_outcome parts o p =
      let (noted, world) = parts.add_sink_outcome o p.world in
      let q : Progress W = record p { world = world; incomplete = p.incomplete ++ noted } in
      if is_failure o.status && is_success p.status
      then record q { status = failed; error = sink_failed }
      else q

  unfoldable pub note_outcomes : Parts W → List Outcome → Progress W → Progress W
  note_outcomes parts [] p = p
  note_outcomes parts (o ∷ os) p = note_outcomes parts os (note_outcome parts o p)

  unfoldable pub note_refusal : Option String → Progress W → Progress W
  note_refusal none p = p
  note_refusal (some why) p = record p { error = join_reasons p.error why }

  -- e.deliver
  unfoldable pub deliver : Parts W → List (Sink W) → Progress W → Progress W
  deliver parts sinks p =
      let d = deliver_all (some parts.hold_fence) sinks p.world in
      note_outcomes parts d.outcomes (note_refusal d.refused (record p { world = d.world }))

  unfoldable pub mark_lost : Option String → Progress W → Progress W
  mark_lost none p = p
  mark_lost (some why) p = record p { status = claim_lost; error = join_reasons p.error why }

  -- stoppedByTheGuard
  unfoldable pub stopped_by_the_guard : Parts W → Progress W → Progress W
  stopped_by_the_guard parts p = mark_lost (parts.stopped p.world) p

  -- agentAndSinks
  unfoldable pub agent_and_sinks : Parts W → Entries Bytes → Progress W → Going W
  agent_and_sinks parts payload p =
      let (answer, world) = parts.build_sinks payload p.world in
      built answer world p >>= λ ready. fence_stage parts ready.1 >>= λ fenced.
      agent_stage parts fenced >>= λ done.
      ok (stopped_by_the_guard parts (deliver parts ready.0 done))

  abbrev pub either_way : Going W → Progress W
  either_way (err p) = p
  either_way (ok p) = p

  unfoldable pub with_problems : (List String → String) → List String → Progress W → Progress W
  with_problems join [] p = p
  with_problems join (why ∷ more) p = record p {
    status = if is_success p.status then failed else p.status;
    error = join_reasons p.error (str_append "the record is incomplete: " (join (why ∷ more)));
  }

  -- e.finished
  unfoldable pub finished : (List String → String) → Progress W → Progress W
  finished join p = with_problems join p.incomplete p

  unfoldable pub at_start : List String × W → Progress W
  at_start (noted, stored) = record {
    world = stored;
    status = failed;
    error = "";
    incomplete = noted;
    calls = [];
  }

  -- From the stored playbook to the summary, on every path.
  unfoldable pub body : (List String → String) → Parts W → Book → Entries Bytes → W → Progress W
  body join parts book payload w =
      let first = at_start (parts.store_resolved w) in
      finished join (
        either_way (
          gather_stage parts book payload first >>= λ gathered.
          retrieve_if_declared parts book payload gathered >>= λ retrieved.
          prompt_stage parts book payload retrieved >>= agent_and_sinks parts payload))

  -- The deferred end of a run.
  unfoldable pub recorded_end : Parts W → Progress W → Executed W
  recorded_end parts p =
      let q = stopped_by_the_guard parts p in
      record {
        world = parts.finish q.status q.error q.world;
        returned = ok (p.status, p.error);
        recorded = some (q.status, q.error);
        calls = p.calls;
      }

  unfoldable pub not_begun : String → W → Executed W
  not_begun why w = record { world = w; returned = err why; recorded = none; calls = [] }

  unfoldable pub begun :
      (List String → String) → Parts W → Book → Entries Bytes → Option String × W → Executed W
  begun join parts book payload (some why, w) = not_begun why (parts.release w)
  begun join parts book payload (none, w) = recorded_end parts (body join parts book payload w)

  unfoldable pub admitted :
      (List String → String)
      → Parts W
      → Book
      → Entries Bytes
      → Result String (Option Book) × W
      → Executed W
  admitted join parts book payload (err why, w) = not_begun why w
  admitted join parts book payload (ok now, w) =
      begun join parts (book_of book now) payload (parts.begin w)

  -- Execute
  unfoldable pub execute : (List String → String) → Parts W → Book → Entries Bytes → W → Executed W
  execute join parts book payload w = admitted join parts book payload (parts.admit w)
