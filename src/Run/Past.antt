-- ===== src/Run/Past.antt =====
-- run/replay.go: what `Replay` and `Resume` read of the record, as the types of record/ and
-- stage/retrieve/ have it, and what they call.
use gronin.Prelude.{List, Option, String, Result}
use gronin.Prelude.Bytes.{Bytes}
use gronin.Prelude.Int.{ℤ}
use gronin.Sink.Deliver.{Sink}

-- A run as recorded, in the columns that a replay and a resume read.
pub record ParentRun : Type 0 where
  pub id : String
  pub resolved_playbook_ref : String
  pub prompt_ref : String
  pub report_ref : String

pub record GatheredInput : Type 0 where
  pub name : String
  pub blob_ref : String

pub record RetrievedItem : Type 0 where
  pub rank : ℤ
  pub content_ref : String

pub record Retrieval : Type 0 where
  pub sequence : ℤ
  pub as_name : String
  pub results_ref : String
  pub items : List RetrievedItem

-- No results for a retrieval that was refused.
pub record Retrieved : Type 0 where
  pub row : Retrieval
  pub results : Option Bytes
  pub contents : List Bytes

-- What a replay calls beyond what an execution calls: the record of the parent, the blobs, the
-- working directory of the new run, and the libraries. An error is its text.
pub record Past (W : Type 0) : Type 0 where
  pub get_run : W → Result String ParentRun
  pub gathered_inputs : W → Result String (List GatheredInput)
  pub retrievals : W → Result String (List Retrieval)
  pub get_blob : String → W → Result String Bytes
  -- Under a name, for the new run: the error, and the reference.
  pub put_blob : String → Bytes → W → (Option String × String) × W
  pub book_name : String
  -- `json.MarshalIndent` of the playbook, and `bytes.TrimSpace`.
  pub marshal : Result String Bytes
  pub trim_space : Bytes → Bytes
  -- `filepath.Base`, `%q`, and the names that `Sprintf` gives the blobs of a retrieval.
  pub base : String → String
  pub in_quotes : String → String
  pub results_name : ℤ → String
  pub content_name : ℤ → ℤ → String
  pub write_file : String → Bytes → W → Option String × W
  pub add_gathered_input : GatheredInput → W → Option String × W
  pub add_retrieval : Retrieval → W → Option String × W
  -- The prompt as the agent is given it.
  pub give_prompt : Bytes → W → W
  -- `sink.Build` alone, whose refusals are one text.
  pub build_only : W → Result String (List (Sink W)) × W
