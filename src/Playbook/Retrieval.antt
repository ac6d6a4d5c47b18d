-- ===== src/Playbook/Retrieval.antt =====
-- playbook/validate.go and playbook.go: what the gate says of the retrievals of a playbook.
pub mod Accepted
use gronin.Prelude.{
  ℕ, ◌+◌, Bool, true, false, ◌&&◌, not, List, [], ◌∷◌, ◌++◌, Option, none, some, ◌==◌, ltb,
  if◌then◌else◌,
}
use gronin.Prelude.Bytes.{Bytes, Entries, same, member, value_of, put_value}

-- The layer of the shape takes no number below one; 0 stands for a number that is not declared.
pub record Retrieval : Type 0 where
  pub collection : Bytes
  pub query_from : Bytes
  pub as_name : Bytes
  pub max_results : ℕ
  pub max_bytes : ℕ

abbrev pub default_max_results : ℕ
default_max_results = 10

abbrev pub max_results_ceiling : ℕ
max_results_ceiling = 50

abbrev pub default_max_bytes : ℕ
default_max_bytes = 16384

abbrev pub max_bytes_ceiling : ℕ
max_bytes_ceiling = 65536

unfoldable pub result_count : Retrieval → ℕ
result_count r = if r.max_results == 0 then default_max_results else r.max_results

unfoldable pub byte_bound : Retrieval → ℕ
byte_bound r = if r.max_bytes == 0 then default_max_bytes else r.max_bytes

-- Who writes a file of the working directory.
pub data Writer : Type 0 where
  by_a_gather_step : Writer
  by_retrieval : ℕ → Writer

pub data RetrievalReason : Type 0 where
  undeclared no_gather_output taken too_many_results too_many_bytes : RetrievalReason

pub record RetrievalProblem : Type 0 where
  pub at : ℕ
  pub reason : RetrievalReason

unfoldable pub written_by_gather : List Bytes → Entries Writer → Entries Writer
written_by_gather [] written = written
written_by_gather (name ∷ names) written =
    written_by_gather names (put_value name by_a_gather_step written)

unfoldable pub is_gather : Option Writer → Bool
is_gather none = false
is_gather (some by_a_gather_step) = true
is_gather (some (by_retrieval at)) = false

unfoldable pub is_taken : Option Writer → Bool
is_taken none = false
is_taken (some by) = true

unfoldable pub note_if : Bool → ℕ → RetrievalReason → List RetrievalProblem → List RetrievalProblem
note_if c at reason rest = if c then (record { at = at; reason = reason }) ∷ rest else rest

unfoldable pub retrievals_from :
    List Bytes → Entries Writer → ℕ → List Retrieval → List RetrievalProblem
retrievals_from collections written at [] = []
retrievals_from collections written at (r ∷ rs) =
    note_if (not (member r.collection collections)) at RetrievalReason.undeclared (
      note_if (not (same r.query_from []) && not (is_gather (value_of r.query_from written))) at
        RetrievalReason.no_gather_output
        (note_if (is_taken (value_of r.as_name written)) at RetrievalReason.taken (
          note_if (ltb max_results_ceiling r.max_results) at RetrievalReason.too_many_results (
            note_if (ltb max_bytes_ceiling r.max_bytes) at RetrievalReason.too_many_bytes (
              retrievals_from collections (put_value r.as_name (by_retrieval at) written) (at + 1)
                rs)))))

-- For the collections that a deployment declares, and the names of the gather steps.
unfoldable pub validate_retrieve : List Bytes → List Bytes → List Retrieval → List RetrievalProblem
validate_retrieve collections gather [] = []
validate_retrieve collections gather (r ∷ rs) =
    retrievals_from collections (written_by_gather gather []) 0 (r ∷ rs)
