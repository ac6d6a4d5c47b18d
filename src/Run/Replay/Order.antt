-- ===== src/Run/Replay/Order.antt =====
-- run/replay.go: what a replay and a resume read, call and record.
use gronin.Prelude.{
  false, List, [], ◌∷◌, ◌++◌, Option, none, some, String, Result, ok, err, ◌>>=◌, ◌≡◌, refl, ap,
  ◌∙◌, ◌⊎◌, inl, inr,
}
use gronin.Prelude.Bytes.{Bytes}
use gronin.Sink.Deliver.{Sink}
use gronin.Run.Parts.{
  RunStatus, Stage, build, fence, agent, succeeded, Book, Parts, Progress, Going, Executed,
  is_success,
}
use gronin.Run.Execute.{
  told, built, deliver, agent_and_sinks, either_way, finished, at_start, recorded_end, not_begun,
}
use gronin.Run.Execute.Order.{
  fail, EndsIn, passed, Follows, deliver-calls, built-Follows, finished-calls, finished-success,
  recorded-Ends,
}
use gronin.Run.Past.{ParentRun, Past}
use gronin.Run.Replay.{
  Restorable, restorable, resumable, restore_inputs, restore_retrievals, keep_blob, replay_prompt,
  replay_stages, resume_stages, rerun_begun, rerun_admitted, rerun, replay, resume,
}
use gronin.Run.Replay.Parent.{HasParent, restorable-HasParent, resumable-HasParent}
use gronin.Run.Replay.Quiet.{
  Quiet, restore_inputs-Quiet, restore_retrievals-Quiet, keep_blob-Alike, replay_prompt-Alike,
}

-- What a run derived from another ends with: it stopped before its first stage, as no success; or
-- as an execution of its stages ends.
unfoldable pub Restarts :
    List Stage → Option (RunStatus × String) → List (Stage × Option String) → Type 0
Restarts ss none calls = calls ≡ []
Restarts ss (some end) calls =
    ((calls ≡ []) × (is_success end.0 ≡ false)) ⊎ EndsIn ss (some end) calls

module _ {W : Type 0} where
  -- A derived run did not begin and called no stage; or it has a parent and ends as its stages do.
  abbrev pub Derived : Past W → (ParentRun → String) → List Stage → W → Executed W → Type 0
  Derived past ref ss w x =
      ((x.recorded ≡ none) × (x.calls ≡ []))
      ⊎ (HasParent past ref w × Restarts ss x.recorded x.calls)

  -- Nothing was called before a stop, or the stages were called in their order.
  abbrev Reaches : List Stage → Progress W → Going W → Type 0
  Reaches ss p (ok q) = Follows ss p (ok q)
  Reaches ss p (err q) = Quiet p (err q) ⊎ Follows ss p (err q)

  Follows-Reaches :
      (ss : List Stage) (p q : Progress W) (r : Going W)
      → q.calls ≡ p.calls
      → Follows ss q r
      → Reaches ss p r
  Follows-Reaches ss p q (ok u) first e = e ∙ ap (λ c. c ++ passed ss) first
  Follows-Reaches ss p q (err u) first (calls, e, orderly, h) =
      inr (calls, e ∙ ap (λ c. c ++ calls) first, orderly, h)

  Quiet-from : (p q : Progress W) (r : Going W) → q.calls ≡ p.calls → Quiet q r → Quiet p r
  Quiet-from p q r first (calls, h) = (calls ∙ first, h)

  Quiet-Reaches :
      (ss : List Stage) (p : Progress W) (r : Going W) (next : Progress W → Going W)
      → Quiet p r
      → ((q : Progress W) → q.calls ≡ p.calls → is_success q.status ≡ false → Reaches ss p (next q))
      → Reaches ss p (r >>= next)
  Quiet-Reaches ss p (err q) next h later = inl h
  Quiet-Reaches ss p (ok q) next (calls, h) later = later q calls h

  recorded-Restarts :
      (join : List String → String) (parts : Parts W) (ss : List Stage) (r : Going W)
      (p : Progress W)
      → p.calls ≡ []
      → Reaches ss p r
      → Restarts ss
          (recorded_end parts (finished join (either_way r))).recorded
          (recorded_end parts (finished join (either_way r))).calls
  unfolding recorded_end Restarts
  recorded-Restarts join parts ss (ok q) p empty h =
      inr (recorded-Ends join parts ss (ok q) p empty h)
  recorded-Restarts join parts ss (err q) p empty (inr h) =
      inr (recorded-Ends join parts ss (err q) p empty h)
  recorded-Restarts join parts ss (err q) p empty (inl (calls, h)) =
      inl (finished-calls join parts q ∙ calls ∙ empty, finished-success join parts q h)

  module _ (past : Past W) (parts : Parts W) where
    replay_stages-Reaches :
        (r : Restorable) (p : Progress W)
        → is_success p.status ≡ false
        → Reaches (build ∷ fence ∷ agent ∷ []) p (replay_stages past parts r p)
    unfolding replay_stages agent_and_sinks
    replay_stages-Reaches r p h =
        Quiet-Reaches _ p (restore_inputs past r.inputs p) _
          (restore_inputs-Quiet past r.inputs p h)
          (λ q calls k.
            Quiet-Reaches _ p (restore_retrievals past r.retrievals q) _
              (Quiet-from p q (restore_retrievals past r.retrievals q) calls
                (restore_retrievals-Quiet past r.retrievals q k))
              (λ u more l.
                let alike = replay_prompt-Alike past parts r.prompt u in
                Follows-Reaches _ p (replay_prompt past parts r.prompt u) _ (alike.0 ∙ more)
                  (built-Follows parts _ _ _ (ap is_success alike.1 ∙ l))))

    resumed-Reaches :
        (report : Bytes) (answer : Result String (List (Sink W))) (w : W) (p : Progress W)
        → Reaches (build ∷ []) p (
            built answer w p >>= λ ready. ok (
              deliver parts ready.0
                (record (keep_blob past "report.json" report ready.1) { status = succeeded })))
    unfolding built
    resumed-Reaches report (err why) w p = inr ((build, some why) ∷ [], refl, fail why, refl)
    resumed-Reaches report (ok sinks) w p =
        deliver-calls parts sinks _
        ∙ (keep_blob-Alike past "report.json" report (told build [] none w p)).0

    module _ (join : List String → String) (ref : ParentRun → String) (ss : List Stage)
        (w : W) where
      begun-Derived :
          (next : Progress W → Going W) (answer : Option String × W)
          → ((p : Progress W) → p.calls ≡ [] → is_success p.status ≡ false → Reaches ss p (next p))
          → HasParent past ref w
          → Derived past ref ss w (rerun_begun past parts join next answer)
      unfolding rerun_begun not_begun at_start
      begun-Derived next (some why, v) reaches parent = inl (refl, refl)
      begun-Derived next (none, v) reaches parent =
          let p = at_start ([], v) in
          inr (parent, recorded-Restarts join parts ss (next p) p refl (reaches p refl refl))

      admitted-Derived :
          (next : Progress W → Going W) (answer : Result String (Option Book) × W)
          → ((p : Progress W) → p.calls ≡ [] → is_success p.status ≡ false → Reaches ss p (next p))
          → HasParent past ref w
          → Derived past ref ss w (rerun_admitted past parts join next answer)
      unfolding rerun_admitted not_begun
      admitted-Derived next (err why, v) reaches parent = inl (refl, refl)
      admitted-Derived next (ok now, v) reaches parent =
          begun-Derived next (parts.begin v) reaches parent

      rerun-Derived {ℓ} :
          {A : Type ℓ} (answer : Result String A) (next : A → Progress W → Going W)
          → ((a : A) → answer ≡ ok a → HasParent past ref w)
          → ((a : A) (p : Progress W)
              → p.calls ≡ []
              → is_success p.status ≡ false
              → Reaches ss p (next a p))
          → Derived past ref ss w (rerun past parts join answer next w)
      unfolding rerun not_begun
      rerun-Derived (err why) next parent reaches = inl (refl, refl)
      rerun-Derived (ok a) next parent reaches =
          admitted-Derived (next a) (parts.admit w) (reaches a) (parent a refl)

  -- However the record and the stages answer: a replay that records no end called no stage; one
  -- that records an end has a parent whose recorded playbook is the playbook as it is now, up to
  -- blanks around it, and whose prompt is recorded; it called no stage and is no success, or it
  -- called sinks, the first fence and the agent in that order, each only after the one before it
  -- had answered without an error, and is recorded as succeeded only if it passed them all.
  pub replay-Derived :
      (past : Past W) (parts : Parts W) (join : List String → String) (w : W)
      → Derived past
          (λ parent. parent.prompt_ref)
          (build ∷ fence ∷ agent ∷ [])
          w
          (replay past parts join w)
  unfolding replay
  replay-Derived past parts join w =
      rerun-Derived past parts join _ _ w (restorable past w) (replay_stages past parts)
        (restorable-HasParent past w) (λ r p empty h. replay_stages-Reaches past parts r p h)

  -- However the record and the sinks answer: a resume that records no end called no stage; one
  -- that records an end has a parent whose recorded playbook is the playbook as it is now, up to
  -- blanks around it, and whose report is recorded; of the stages it called none or the sinks
  -- alone, and so no agent; and it is recorded as succeeded only if the sinks were built.
  pub resume-Derived :
      (past : Past W) (parts : Parts W) (join : List String → String) (w : W)
      → Derived past (λ parent. parent.report_ref) (build ∷ []) w (resume past parts join w)
  unfolding resume resume_stages
  resume-Derived past parts join w =
      rerun-Derived past parts join _ _ w (resumable past w) (resume_stages past parts)
        (resumable-HasParent past w) (λ report p empty h. resumed-Reaches past parts report _ _ p)
