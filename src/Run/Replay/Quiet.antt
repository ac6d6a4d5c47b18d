-- ===== src/Run/Replay/Quiet.antt =====
-- run/replay.go: what a replay puts back calls no stage.
use gronin.Prelude.{
  Bool, true, false, List, [], ◌∷◌, Option, none, some, String, str_eq, if◌then◌else◌, Result, ok,
  err, ◌>>=◌, ◌≡◌, refl, ap, ◌∙◌,
}
use gronin.Prelude.Bytes.{Bytes}
use gronin.Prelude.Int.{ℤ}
use gronin.Run.Parts.{refused, Parts, Progress, Going, is_success}
use gronin.Run.Execute.{unless_failed, either_way}
use gronin.Run.Past.{GatheredInput, RetrievedItem, Retrieval, Retrieved, Past}
use gronin.Run.Replay.{
  noted, written_back, read_or_refuse, recorded_input, restore_input, restore_inputs, put_results,
  put_contents, add_row, record_retrieval, results_in, restore_retrieval, restore_retrievals,
  keep_blob, replay_prompt,
}

module _ {W : Type 0} where
  -- The same calls and the same status.
  abbrev pub Alike : Progress W → Progress W → Type 0
  Alike p q = (q.calls ≡ p.calls) × (q.status ≡ p.status)

  -- No stage was called, from a status that is no success to one that is none.
  abbrev pub Quiet : Progress W → Going W → Type 0
  Quiet p r = ((either_way r).calls ≡ p.calls) × (is_success (either_way r).status ≡ false)

  Alike-trans : (p q r : Progress W) → Alike p q → Alike q r → Alike p r
  Alike-trans p q r (a, b) (c, d) = (c ∙ a, d ∙ b)

  Alike-Quiet : (p q : Progress W) → is_success p.status ≡ false → Alike p q → Quiet p (ok q)
  Alike-Quiet p q h (a, b) = (a, ap is_success b ∙ h)

  Quiet-bind :
      (p : Progress W) (r : Going W) (next : Progress W → Going W)
      → Quiet p r
      → ((q : Progress W) → is_success q.status ≡ false → Quiet q (next q))
      → Quiet p (r >>= next)
  Quiet-bind p (err q) next h later = h
  Quiet-bind p (ok q) next (calls, h) later = let after = later q h in (after.0 ∙ calls, after.1)

  Quiet-if :
      (b : Bool) (p : Progress W) (r s : Going W)
      → Quiet p r
      → Quiet p s
      → Quiet p (if b then r else s)
  Quiet-if true p r s h k = h
  Quiet-if false p r s h k = k

  noted-Alike :
      (answer : Option String) (w : W) (p : Progress W)
      → Alike p (noted answer (record p { world = w }))
  unfolding noted
  noted-Alike none w p = (refl, refl)
  noted-Alike (some why) w p = (refl, refl)

  unless_failed-Quiet :
      (answer : Option String) (w : W) (p : Progress W)
      → is_success p.status ≡ false
      → Quiet p (unless_failed refused answer (record p { world = w }))
  unfolding unless_failed
  unless_failed-Quiet none w p h = (refl, h)
  unless_failed-Quiet (some why) w p h = (refl, refl)

  module _ (past : Past W) where
    written_back-Quiet :
        (name : String) (content : Bytes) (p : Progress W)
        → is_success p.status ≡ false
        → Quiet p (written_back past name content p)
    unfolding written_back
    written_back-Quiet name content p h = unless_failed-Quiet _ _ p h

    read_or_refuse-Quiet {ℓ} :
        {A : Type ℓ} (kind name : String) (answer : Result String A) (p : Progress W)
        (next : A → Going W)
        → ((a : A) → Quiet p (next a))
        → Quiet p (read_or_refuse past kind name answer p >>= next)
    unfolding read_or_refuse
    read_or_refuse-Quiet kind name (err why) p next h = (refl, refl)
    read_or_refuse-Quiet kind name (ok a) p next h = h a

    recorded_input-Alike :
        (input : GatheredInput) (p : Progress W) → Alike p (recorded_input past input p)
    unfolding recorded_input
    recorded_input-Alike input p = noted-Alike (past.add_gathered_input input p.world).0 _ p

    restore_input-Quiet :
        (input : GatheredInput) (p : Progress W)
        → is_success p.status ≡ false
        → Quiet p (restore_input past input p)
    unfolding restore_input
    restore_input-Quiet input p h =
        Quiet-if (str_eq input.blob_ref "") p (ok p) _ (refl, h)
          (read_or_refuse-Quiet "input " input.name _ p _ (λ content.
            Quiet-bind p (written_back past input.name content p) _
              (written_back-Quiet input.name content p h)
              (λ q k.
                Alike-Quiet q (recorded_input past input q) k (recorded_input-Alike input q))))

    pub restore_inputs-Quiet :
        (inputs : List GatheredInput) (p : Progress W)
        → is_success p.status ≡ false
        → Quiet p (restore_inputs past inputs p)
    unfolding restore_inputs
    restore_inputs-Quiet [] p h = (refl, h)
    restore_inputs-Quiet (input ∷ inputs) p h =
        Quiet-bind p (restore_input past input p) _ (restore_input-Quiet input p h)
          (restore_inputs-Quiet inputs)

    put_results-Alike :
        (row : Retrieval) (results : Option Bytes) (p : Progress W)
        → Alike p (put_results past row results p).1
    unfolding put_results
    put_results-Alike row none p = (refl, refl)
    put_results-Alike row (some results) p = noted-Alike _ _ p

    put_contents-Alike :
        (sequence : ℤ) (items : List RetrievedItem) (contents : List Bytes) (p : Progress W)
        → Alike p (put_contents past sequence items contents p).1
    unfolding put_contents
    put_contents-Alike sequence [] contents p = (refl, refl)
    put_contents-Alike sequence (item ∷ items) [] p = (refl, refl)
    put_contents-Alike sequence (item ∷ items) (content ∷ contents) p =
        let put = past.put_blob (past.content_name sequence item.rank) content p.world in
        let next : Progress W = noted put.0.0 (record p { world = put.1 }) in
        Alike-trans p next (put_contents past sequence items contents next).1
          (noted-Alike put.0.0 put.1 p) (put_contents-Alike sequence items contents next)

    add_row-Alike : (row : Retrieval) (p : Progress W) → Alike p (add_row past row p)
    unfolding add_row
    add_row-Alike row p = noted-Alike (past.add_retrieval row p.world).0 _ p

    record_retrieval-Alike :
        (retrieved : Retrieved) (p : Progress W) → Alike p (record_retrieval past retrieved p)
    unfolding record_retrieval
    record_retrieval-Alike retrieved p =
        let first = put_results past retrieved.row retrieved.results p in
        let second = put_contents past first.0.sequence first.0.items retrieved.contents first.1 in
        let row : Retrieval = record first.0 { items = second.0 } in
        Alike-trans p first.1 (add_row past row second.1)
          (put_results-Alike retrieved.row retrieved.results p)
          (Alike-trans first.1 second.1 (add_row past row second.1)
            (put_contents-Alike first.0.sequence first.0.items retrieved.contents first.1)
            (add_row-Alike row second.1))

    restore_retrieval-Quiet :
        (retrieval : Retrieval) (p : Progress W)
        → is_success p.status ≡ false
        → Quiet p (restore_retrieval past retrieval p)
    unfolding restore_retrieval
    restore_retrieval-Quiet retrieval p h =
        Quiet-if (str_eq retrieval.results_ref "") p (ok p) _ (refl, h)
          (read_or_refuse-Quiet "retrieval " retrieval.as_name _ p _ (λ restored.
            Quiet-bind p (written_back past retrieval.as_name (results_in past restored.results) p)
              _ (written_back-Quiet retrieval.as_name _ p h)
              (λ q k.
                Alike-Quiet q (record_retrieval past restored q) k
                  (record_retrieval-Alike restored q))))

    pub restore_retrievals-Quiet :
        (retrievals : List Retrieval) (p : Progress W)
        → is_success p.status ≡ false
        → Quiet p (restore_retrievals past retrievals p)
    unfolding restore_retrievals
    restore_retrievals-Quiet [] p h = (refl, h)
    restore_retrievals-Quiet (retrieval ∷ retrievals) p h =
        Quiet-bind p (restore_retrieval past retrieval p) _ (restore_retrieval-Quiet retrieval p h)
          (restore_retrievals-Quiet retrievals)

    pub keep_blob-Alike :
        (name : String) (content : Bytes) (p : Progress W) → Alike p (keep_blob past name content p)
    unfolding keep_blob
    keep_blob-Alike name content p = noted-Alike _ _ p

    pub replay_prompt-Alike :
        (parts : Parts W) (prompt : Bytes) (p : Progress W)
        → Alike p (replay_prompt past parts prompt p)
    unfolding replay_prompt
    replay_prompt-Alike parts prompt p = keep_blob-Alike "prompt.txt" prompt p
