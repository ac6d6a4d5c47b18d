-- ===== src/Run/Replay.antt =====
-- run/replay.go: `Replay` and `Resume`, with `sameAsRecorded` and `restoredRetrieval`, and
-- `recordRetrieval` of run/execute.go.
pub mod Quiet
pub mod Parent
pub mod Order
pub mod Tests
use Prim.Native.String.{◌++◌ as str_append}
use gronin.Prelude.{
  true, false, List, [], ◌∷◌, ◌++◌, Option, none, some, String, str_eq, if◌then◌else◌, Result, ok,
  err, ◌>>=◌,
}
use gronin.Prelude.Bytes.{Bytes, same}
use gronin.Prelude.Int.{ℤ}
use gronin.Sink.Deliver.{Sink}
use gronin.Run.Past.{ParentRun, GatheredInput, RetrievedItem, Retrieval, Retrieved, Past}
use gronin.Run.Parts.{refused, succeeded, Book, Parts, Progress, Going, Executed}
use gronin.Run.Execute.{
  unless_failed, built, deliver, agent_and_sinks, either_way, finished, at_start, recorded_end,
  not_begun,
}

abbrev pub not_replayable : String
not_replayable = "this run cannot be replayed from its record"

abbrev pub playbook_changed : String
playbook_changed = "the playbook has changed since the run being replayed"

abbrev pub not_resumable : String
not_resumable = "this run has no recorded report to resume from"

-- `%w: %w`
unfoldable pub wrapped : String → String → String
wrapped kind why = str_append kind (str_append ": " why)

unfoldable pub or_wrapped {ℓ} : {A : Type ℓ} → String → Result String A → Result String A
or_wrapped kind (err why) = err (wrapped kind why)
or_wrapped kind (ok value) = ok value

-- A reference that the record must hold.
unfoldable pub required : String → String → Result String String
required why ref = if str_eq ref "" then err why else ok ref

-- The problems that a new run notes.
unfoldable pub noted : {W : Type 0} → Option String → Progress W → Progress W
noted none p = p
noted (some why) p = record p { incomplete = p.incomplete ++ why ∷ [] }

-- What is read of the record before the guard is asked.
pub record Restorable : Type 0 where
  pub inputs : List GatheredInput
  pub retrievals : List Retrieval
  pub prompt : Bytes

module _ {W : Type 0} (past : Past W) where
  unfoldable pub changed_text : ParentRun → String
  changed_text parent = str_append past.book_name (
      str_append " no longer matches what run " (
        str_append parent.id
          (str_append " used; read it with `gronin show " (str_append parent.id "`"))))

  unfoldable pub compared : ParentRun → Bytes → Bytes → Result String Bytes
  compared parent recorded now =
      if same (past.trim_space recorded) (past.trim_space now)
      then ok now
      else err (wrapped playbook_changed (changed_text parent))

  -- sameAsRecorded
  unfoldable pub same_as_recorded : ParentRun → W → Result String Bytes
  same_as_recorded parent w =
      required (wrapped not_replayable "it recorded no copy of the playbook it ran")
        parent.resolved_playbook_ref
      >>= λ ref. or_wrapped not_replayable (past.get_blob ref w) >>= λ recorded.
          past.marshal >>= λ now. compared parent recorded now

  unfoldable pub restorable : W → Result String Restorable
  restorable w = past.get_run w >>= λ parent. past.gathered_inputs w >>= λ inputs.
      past.retrievals w >>= λ retrievals.
      required (wrapped not_replayable "it recorded no prompt") parent.prompt_ref >>= λ ref.
      same_as_recorded parent w >>= λ book.
      or_wrapped not_replayable (past.get_blob ref w) >>= λ prompt.
      ok (record { inputs = inputs; retrievals = retrievals; prompt = prompt })

  unfoldable pub resumable : W → Result String Bytes
  resumable w = past.get_run w >>= λ parent.
      required (wrapped not_resumable "it produced none") parent.report_ref >>= λ ref.
      or_wrapped not_resumable (past.get_blob ref w) >>= λ report.
      same_as_recorded parent w >>= λ book. ok report

  -- A file written in the working directory, whose error refuses the run.
  unfoldable pub written_back : String → Bytes → Progress W → Going W
  written_back name content p =
      let (answer, world) = past.write_file (past.base name) content p.world in
      unless_failed refused answer (record p { world = world })

  -- A blob that cannot be read refuses the run.
  unfoldable pub read_or_refuse {ℓ} :
      {A : Type ℓ} → String → String → Result String A → Progress W → Result (Progress W) A
  read_or_refuse kind name (ok content) p = ok content
  read_or_refuse kind name (err why) p = err (record p {
    status = refused;
    error = wrapped not_replayable (wrapped (str_append kind (past.in_quotes name)) why);
  })

  unfoldable pub recorded_input : GatheredInput → Progress W → Progress W
  recorded_input input p =
      let (answer, world) = past.add_gathered_input input p.world in
      noted answer (record p { world = world })

  unfoldable pub restore_input : GatheredInput → Progress W → Going W
  restore_input input p =
      if str_eq input.blob_ref ""
      then ok p
      else read_or_refuse "input " input.name (past.get_blob input.blob_ref p.world) p
        >>= λ content. written_back input.name content p >>= λ q. ok (recorded_input input q)

  unfoldable pub restore_inputs : List GatheredInput → Progress W → Going W
  restore_inputs [] p = ok p
  restore_inputs (input ∷ inputs) p = restore_input input p >>= restore_inputs inputs

  unfoldable pub contents_of : List RetrievedItem → W → Result String (List Bytes)
  contents_of [] w = ok []
  contents_of (item ∷ items) w = past.get_blob item.content_ref w >>= λ content.
      contents_of items w >>= λ contents. ok (content ∷ contents)

  abbrev pub without_content : List RetrievedItem → List RetrievedItem
  without_content [] = []
  without_content (item ∷ items) = record item { content_ref = "" } ∷ without_content items

  -- restoredRetrieval
  unfoldable pub restored_retrieval : Retrieval → W → Result String Retrieved
  restored_retrieval recorded w = past.get_blob recorded.results_ref w >>= λ results.
      contents_of recorded.items w >>= λ contents. ok (record {
        row = record recorded { results_ref = ""; items = without_content recorded.items };
        results = some results;
        contents = contents;
      })

  unfoldable pub put_results : Retrieval → Option Bytes → Progress W → Retrieval × Progress W
  put_results row none p = (row, p)
  put_results row (some results) p =
      let (answer, world) = past.put_blob (past.results_name row.sequence) results p.world in
      (record row { results_ref = answer.1 }, noted answer.0 (record p { world = world }))

  unfoldable pub put_contents :
      ℤ → List RetrievedItem → List Bytes → Progress W → List RetrievedItem × Progress W
  put_contents sequence [] contents p = ([], p)
  put_contents sequence (item ∷ items) [] p = (item ∷ items, p)
  put_contents sequence (item ∷ items) (content ∷ contents) p =
      let (answer, world) = past.put_blob (past.content_name sequence item.rank) content p.world in
      let (rest, q) =
        put_contents sequence items contents (noted answer.0 (record p { world = world })) in
      (record item { content_ref = answer.1 } ∷ rest, q)

  unfoldable pub add_row : Retrieval → Progress W → Progress W
  add_row row p =
      let (answer, world) = past.add_retrieval row p.world in
      noted answer (record p { world = world })

  -- recordRetrieval
  unfoldable pub record_retrieval : Retrieved → Progress W → Progress W
  record_retrieval retrieved p =
      let (row, q) = put_results retrieved.row retrieved.results p in
      let (items, r) = put_contents row.sequence row.items retrieved.contents q in
      add_row (record row { items = items }) r

  abbrev pub results_in : Option Bytes → Bytes
  results_in none = []
  results_in (some results) = results

  unfoldable pub restore_retrieval : Retrieval → Progress W → Going W
  restore_retrieval retrieval p =
      if str_eq retrieval.results_ref ""
      then ok p
      else read_or_refuse "retrieval " retrieval.as_name (restored_retrieval retrieval p.world) p
        >>= λ restored. written_back retrieval.as_name (results_in restored.results) p >>= λ q.
            ok (record_retrieval restored q)

  unfoldable pub restore_retrievals : List Retrieval → Progress W → Going W
  restore_retrievals [] p = ok p
  restore_retrievals (retrieval ∷ retrievals) p =
      restore_retrieval retrieval p >>= restore_retrievals retrievals

  -- A blob of the new run, whose error is noted.
  unfoldable pub keep_blob : String → Bytes → Progress W → Progress W
  keep_blob name content p =
      let (answer, world) = past.put_blob name content p.world in
      noted answer.0 (record p { world = world })

  module _ (parts : Parts W) where
    unfoldable pub replay_prompt : Bytes → Progress W → Progress W
    replay_prompt prompt p =
        let q = keep_blob "prompt.txt" prompt p in
        record q { world = past.give_prompt prompt (parts.store_resolved q.world).1 }

    unfoldable pub replay_stages : Restorable → Progress W → Going W
    replay_stages r p = restore_inputs r.inputs p >>= λ q.
        restore_retrievals r.retrievals q >>= λ u.
        agent_and_sinks parts [] (replay_prompt r.prompt u)

    unfoldable pub resume_stages : Bytes → Progress W → Going W
    resume_stages report p =
        let (answer, world) = past.build_only p.world in
        built answer world p >>= λ ready. ok (
          deliver parts ready.0
            (record (keep_blob "report.json" report ready.1) { status = succeeded }))

    module _ (join : List String → String) where
      unfoldable pub rerun_begun : (Progress W → Going W) → Option String × W → Executed W
      rerun_begun next (some why, w) = not_begun why (parts.release w)
      rerun_begun next (none, w) =
          recorded_end parts (finished join (either_way (next (at_start ([], w)))))

      -- The book of the admission is not looked at.
      unfoldable pub rerun_admitted :
          (Progress W → Going W) → Result String (Option Book) × W → Executed W
      rerun_admitted next (err why, w) = not_begun why w
      rerun_admitted next (ok now, w) = rerun_begun next (parts.begin w)

      unfoldable pub rerun {ℓ} :
          {A : Type ℓ} → Result String A → (A → Progress W → Going W) → W → Executed W
      rerun (err why) next w = not_begun why w
      rerun (ok value) next w = rerun_admitted (next value) (parts.admit w)

      -- Replay
      unfoldable pub replay : W → Executed W
      replay w = rerun (restorable w) replay_stages w

      -- Resume
      unfoldable pub resume : W → Executed W
      resume w = rerun (resumable w) resume_stages w
