-- ===== src/Playbook/Retrieval/Accepted.antt =====
-- playbook/validate.go: the retrievals that the gate does not refuse.
use gronin.Prelude.{
  ℕ, ◌+◌, Bool, true, false, ◌&&◌, not, List, [], ◌∷◌, map, some, ◌≡◌, refl, arith, ltb, ◌≤◌,
  if◌then◌else◌, All, Bool-cases, inl, inr, ◌⊎◌,
}
use gronin.Prelude.Bytes.{
  Bytes, Entries, same, same_iff, same-eq, same_refl, member, value_of, put_value,
  value_of-put_value,
}
use gronin.Playbook.Retrieval.{
  Retrieval, Writer, RetrievalReason, RetrievalProblem, result_count, byte_bound,
  max_results_ceiling, max_bytes_ceiling, written_by_gather, is_gather, is_taken, note_if,
  retrievals_from, validate_retrieve, by_a_gather_step, by_retrieval,
}

-- What is asked of one retrieval.
pub record Allowed (collections gather : List Bytes) (r : Retrieval) : Type 0 where
  pub declared : member r.collection collections ≡ true
  pub gathered : (r.query_from ≡ []) ⊎ (member r.query_from gather ≡ true)
  pub apart : member r.as_name gather ≡ false
  pub some_results : 1 ≤ result_count r
  pub few_results : result_count r ≤ 50
  pub some_bytes : 1 ≤ byte_bound r
  pub few_bytes : byte_bound r ≤ 65536

-- No name twice.
abbrev pub all_distinct : List Bytes → Bool
all_distinct [] = true
all_distinct (s ∷ ss) = not (member s ss) && all_distinct ss

note_if-nil :
    (c : Bool) (at : ℕ) (reason : RetrievalReason) (rest : List RetrievalProblem)
    → note_if c at reason rest ≡ []
    → (c ≡ false) × (rest ≡ [])
unfolding note_if
note_if-nil true at reason rest e = ground arith
note_if-nil false at reason rest e = (refl, e)

untrue : (b : Bool) → not b ≡ false → b ≡ true
untrue b h = ground arith

from_gather :
    (gather : List Bytes) (q : Bytes) (o : Bool)
    → (o ≡ true → member q gather ≡ true)
    → (not (same q []) && not o) ≡ false
    → (q ≡ []) ⊎ (member q gather ≡ true)
from_gather gather q o h e = elim (Bool-cases (same q [])) [
  | inl empty ↦ inl (same-eq q [] empty)
  | inr named ↦ inr (h (ground arith))
]

written_now :
    (name : Bytes) (at : ℕ) (written : Entries Writer)
    → is_taken (value_of name (put_value name (by_retrieval at) written)) ≡ true
unfolding is_taken
written_now name at written =
    ground (arith, same_refl name, value_of-put_value name name (by_retrieval at) written)

some_results : (r : Retrieval) → 1 ≤ result_count r
unfolding result_count
some_results r = ground arith

few_results : (r : Retrieval) → ltb 50 r.max_results ≡ false → result_count r ≤ 50
unfolding result_count
few_results r h = ground arith

some_bytes : (r : Retrieval) → 1 ≤ byte_bound r
unfolding byte_bound
some_bytes r = ground arith

few_bytes : (r : Retrieval) → ltb 65536 r.max_bytes ≡ false → byte_bound r ≤ 65536
unfolding byte_bound
few_bytes r h = ground arith

written_by_gather-value_of :
    (name : Bytes) (names : List Bytes) (written : Entries Writer)
    → value_of name (written_by_gather names written)
      ≡ (if member name names then some by_a_gather_step else value_of name written)
unfolding written_by_gather member
written_by_gather-value_of name [] written = refl
written_by_gather-value_of name (n ∷ names) written = ground (
  arith,
  written_by_gather-value_of name names (put_value n by_a_gather_step written),
  value_of-put_value n name by_a_gather_step written,
)

module _ (collections gather : List Bytes) where
  -- What is written before a retrieval: the outputs of the gather steps, and results files.
  abbrev Known : Entries Writer → Type 0
  Known written =
      ((name : Bytes) → is_gather (value_of name written) ≡ true → member name gather ≡ true)
      × ((name : Bytes) → member name gather ≡ true → is_taken (value_of name written) ≡ true)

  retrieval-Known :
      (written : Entries Writer) (as_name : Bytes) (at : ℕ)
      → Known written
      → Known (put_value as_name (by_retrieval at) written)
  unfolding is_gather is_taken
  retrieval-Known written as_name at (h, k) = (
    λ name e. ground (arith, value_of-put_value as_name name (by_retrieval at) written, h name),
    λ name e. ground (arith, value_of-put_value as_name name (by_retrieval at) written, k name),
  )

  at_first-Known : Known (written_by_gather gather [])
  unfolding is_gather is_taken value_of
  at_first-Known = (
    λ name e. ground (arith, written_by_gather-value_of name gather []),
    λ name e. ground (arith, written_by_gather-value_of name gather []),
  )

  unnoted :
      (written : Entries Writer) (at : ℕ) (r : Retrieval) (rs : List Retrieval)
      → retrievals_from collections written at (r ∷ rs) ≡ []
      → (not (member r.collection collections) ≡ false)
        × ((not (same r.query_from []) && not (is_gather (value_of r.query_from written))) ≡ false)
        × (is_taken (value_of r.as_name written) ≡ false)
        × (ltb max_results_ceiling r.max_results ≡ false)
        × (ltb max_bytes_ceiling r.max_bytes ≡ false)
        × (retrievals_from collections (put_value r.as_name (by_retrieval at) written) (at + 1) rs
            ≡ [])
  unfolding retrievals_from
  unnoted written at r rs e =
      let (declared, e) = note_if-nil _ at _ _ e in
      let (named, e) = note_if-nil _ at _ _ e in
      let (bare, e) = note_if-nil _ at _ _ e in
      let (results, e) = note_if-nil _ at _ _ e in
      let (bytes, e) = note_if-nil _ at _ _ e in (declared, named, bare, results, bytes, e)

  -- A name that is written is no retrieval's.
  taken-others :
      (name : Bytes) (written : Entries Writer) (at : ℕ) (rs : List Retrieval)
      → retrievals_from collections written at rs ≡ []
      → is_taken (value_of name written) ≡ true
      → member name (map (λ r. r.as_name) rs) ≡ false
  unfolding retrievals_from member is_taken
  taken-others name written at [] e there = refl
  taken-others name written at (r ∷ rs) e there =
      let (_, _, bare, _, _, e) = unnoted written at r rs e in
      let past = taken-others name (put_value r.as_name (by_retrieval at) written) (at + 1) rs e in
      ground (
        arith,
        same_iff r.as_name name,
        value_of-put_value r.as_name name (by_retrieval at) written,
        past,
      )

  retrievals_from-Allowed :
      (written : Entries Writer) (at : ℕ) (rs : List Retrieval)
      → Known written
      → retrievals_from collections written at rs ≡ []
      → All (Allowed collections gather) rs × (all_distinct (map (λ r. r.as_name) rs) ≡ true)
  unfolding retrievals_from
  retrievals_from-Allowed written at [] known e = (tt, refl)
  retrievals_from-Allowed written at (r ∷ rs) known e =
      let (declared, named, bare, results, bytes, e) = unnoted written at r rs e in
      let next = put_value r.as_name (by_retrieval at) written in
      let (each, apart) =
        retrievals_from-Allowed next (at + 1) rs (retrieval-Known written r.as_name at known) e in
      (
        (
          record {
            declared = untrue _ declared;
            gathered = from_gather gather r.query_from _ (known.0 r.query_from) named;
            apart = ground (arith, known.1 r.as_name, bare);
            some_results = some_results r;
            few_results = few_results r results;
            some_bytes = some_bytes r;
            few_bytes = few_bytes r bytes;
          },
          each,
        ),
        ground (
          arith,
          apart,
          taken-others r.as_name next (at + 1) rs e (written_now r.as_name at written),
        ),
      )

-- A playbook whose retrievals the gate does not refuse: each names a declared collection, takes its
-- query from the document or from the output of a gather step, asks for between one and 50 results
-- and between one and 65536 bytes; and the files that its retrievals write differ from each other
-- and from the outputs of its gather steps.
pub validate_retrieve-Allowed :
    (collections gather : List Bytes) (rs : List Retrieval)
    → validate_retrieve collections gather rs ≡ []
    → All (Allowed collections gather) rs × (all_distinct (map (λ r. r.as_name) rs) ≡ true)
unfolding validate_retrieve
validate_retrieve-Allowed collections gather [] e = (tt, refl)
validate_retrieve-Allowed collections gather (r ∷ rs) e =
    retrievals_from-Allowed collections gather (written_by_gather gather []) 0 (r ∷ rs)
      (at_first-Known collections gather) e
