-- ===== src/Run/Execute/Order.antt =====
-- run/execute.go and replay.go: the order of the stages of an execution.
use gronin.Prelude.{
  true, false, List, [], ◌∷◌, ◌++◌, map, Option, none, some, String, Result, ok, err, ◌>>=◌, ◌≡◌,
  refl, ap, ◌∙◌, arith, append_assoc, ◌⊎◌, inl, inr,
}
use gronin.Prelude.Bytes.{Bytes, Entries}
use gronin.Sink.Deliver.{Sink, Outcome}
use gronin.Run.Parts.{
  RunStatus, refused, Stage, gather, retrieve, prompt, build, fence, agent, AgentEnd, not_started,
  aborted, out_of_time, reported, Book, Parts, Progress, Going, is_success, book_of,
}
use gronin.Run.Execute.{
  told, unless_failed, gather_stage, retrieve_if_declared, prompt_stage, built, fence_stage, ended,
  agent_stage, note_outcome, note_outcomes, note_refusal, deliver, mark_lost, stopped_by_the_guard,
  agent_and_sinks, either_way, with_problems, finished, at_start, body, recorded_end, not_begun,
  begun, admitted, execute,
}

-- Calls in the order of some stages, each after the one before it answered without an error; an
-- error is the last answer.
pub data Orderly : List Stage → List (Stage × Option String) → Type 0 where
  done : Orderly [] []
  pass :
      {s : Stage} {ss : List Stage} {calls : List (Stage × Option String)}
      → Orderly ss calls
      → Orderly (s ∷ ss) ((s, none) ∷ calls)
  fail : {s : Stage} {ss : List Stage} (why : String) → Orderly (s ∷ ss) ((s, some why) ∷ [])

abbrev pub stages : List Stage
stages = gather ∷ retrieve ∷ prompt ∷ build ∷ fence ∷ agent ∷ []

abbrev pub passed : List Stage → List (Stage × Option String)
passed = map (λ s. (s, none))

false-ne-true : false ≡ true → ⊥
false-ne-true e = cc

passed-Orderly : (ss : List Stage) → Orderly ss (passed ss)
passed-Orderly [] = done
passed-Orderly (s ∷ ss) = pass (passed-Orderly ss)

-- What an execution of some stages ends with: it did not begin, and called no stage; or its calls
-- are orderly, and it succeeded only if every stage passed.
unfoldable pub EndsIn :
    List Stage → Option (RunStatus × String) → List (Stage × Option String) → Type 0
EndsIn ss none calls = calls ≡ []
EndsIn ss (some end) calls = Orderly ss calls × ((is_success end.0 ≡ false) ⊎ (calls ≡ passed ss))

abbrev pub Ends : Option (RunStatus × String) → List (Stage × Option String) → Type 0
Ends = EndsIn stages

module _ {W : Type 0} where
  -- One stage was called, from a status that is no success.
  abbrev Ran : Stage → Progress W → Going W → Type 0
  Ran s p (ok q) = (q.calls ≡ p.calls ++ (s, none) ∷ []) × (is_success q.status ≡ false)
  Ran s p (err q) =
      (why : String) × (q.calls ≡ p.calls ++ (s, some why) ∷ []) × (is_success q.status ≡ false)

  -- Stages were called in their order, to the end or to an error.
  abbrev pub Follows : List Stage → Progress W → Going W → Type 0
  Follows ss p (ok q) = q.calls ≡ p.calls ++ passed ss
  Follows ss p (err q) =
      (calls : List (Stage × Option String)) × (q.calls ≡ p.calls ++ calls)
      × Orderly ss calls
      × (is_success q.status ≡ false)

  unless_failed-Ran :
      (s : Stage) (status : RunStatus) (problems : List String) (answer : Option String) (w : W)
      (p : Progress W)
      → is_success p.status ≡ false
      → is_success status ≡ false
      → Ran s p (unless_failed status answer (told s problems answer w p))
  unfolding unless_failed
  unless_failed-Ran s status problems none w p h k = (refl, h)
  unless_failed-Ran s status problems (some why) w p h k = (why, refl, k)

  Follows-after :
      (s : Stage) (ss : List Stage) (p q : Progress W) (r : Going W)
      → q.calls ≡ p.calls ++ (s, none) ∷ []
      → Follows ss q r
      → Follows (s ∷ ss) p r
  Follows-after s ss p q (ok u) first e =
      e ∙ ap (λ c. c ++ passed ss) first ∙ append_assoc p.calls ((s, none) ∷ []) (passed ss)
  Follows-after s ss p q (err u) first (calls, e, orderly, h) = (
    (s, none) ∷ calls,
    e ∙ ap (λ c. c ++ calls) first ∙ append_assoc p.calls ((s, none) ∷ []) calls,
    pass orderly,
    h,
  )

  Ran-bind :
      (s : Stage) (ss : List Stage) (p : Progress W) (r : Going W) (next : Progress W → Going W)
      → Ran s p r
      → ((q : Progress W) → is_success q.status ≡ false → Follows ss q (next q))
      → Follows (s ∷ ss) p (r >>= next)
  Ran-bind s ss p (err q) next (why, calls, h) later = ((s, some why) ∷ [], calls, fail why, h)
  Ran-bind s ss p (ok q) next (calls, h) later = Follows-after s ss p q (next q) calls (later q h)

  module _ (parts : Parts W) where
    fence_stage-Ran :
        (p : Progress W) → is_success p.status ≡ false → Ran fence p (fence_stage parts p)
    unfolding fence_stage
    fence_stage-Ran p h = unless_failed-Ran fence p.status _ _ _ p h h

    note_outcome-calls : (o : Outcome) (p : Progress W) → (note_outcome parts o p).calls ≡ p.calls
    unfolding note_outcome
    note_outcome-calls o p = ground arith

    note_outcomes-calls :
        (os : List Outcome) (p : Progress W) → (note_outcomes parts os p).calls ≡ p.calls
    unfolding note_outcomes
    note_outcomes-calls [] p = refl
    note_outcomes-calls (o ∷ os) p =
        note_outcomes-calls os (note_outcome parts o p) ∙ note_outcome-calls o p

    note_refusal-calls :
        (refusal : Option String) (p : Progress W) → (note_refusal refusal p).calls ≡ p.calls
    unfolding note_refusal
    note_refusal-calls none p = refl
    note_refusal-calls (some why) p = refl

    mark_lost-calls : (why : Option String) (p : Progress W) → (mark_lost why p).calls ≡ p.calls
    unfolding mark_lost
    mark_lost-calls none p = refl
    mark_lost-calls (some why) p = refl

    pub deliver-calls :
        (sinks : List (Sink W)) (p : Progress W) → (deliver parts sinks p).calls ≡ p.calls
    unfolding deliver
    deliver-calls sinks p = note_outcomes-calls _ _ ∙ note_refusal-calls _ _

    delivered-calls :
        (sinks : List (Sink W)) (p : Progress W)
        → (stopped_by_the_guard parts (deliver parts sinks p)).calls ≡ p.calls
    unfolding stopped_by_the_guard
    delivered-calls sinks p = mark_lost-calls _ _ ∙ deliver-calls sinks p

    agent-Follows :
        (sinks : List (Sink W)) (end : AgentEnd) (w : W) (p : Progress W)
        → is_success p.status ≡ false
        → Follows (agent ∷ []) p (
            ended parts end w p >>= λ over.
            ok (stopped_by_the_guard parts (deliver parts sinks over)))
    unfolding ended unless_failed
    agent-Follows sinks (not_started why) w p h = ((agent, some why) ∷ [], refl, fail why, h)
    agent-Follows sinks (aborted problems why) w p h =
        ((agent, some why) ∷ [], refl, fail why, refl)
    agent-Follows sinks (out_of_time problems why) w p h =
        ((agent, some why) ∷ [], refl, fail why, refl)
    agent-Follows sinks (reported problems (some why)) w p h = delivered-calls sinks _
    agent-Follows sinks (reported problems none) w p h = delivered-calls sinks _

    pub built-Follows :
        (answer : Result String (List (Sink W))) (w : W) (p : Progress W)
        → is_success p.status ≡ false
        → Follows (build ∷ fence ∷ agent ∷ []) p (
            built answer w p >>= λ ready. fence_stage parts ready.1 >>= λ fenced.
            agent_stage parts fenced >>= λ over.
            ok (stopped_by_the_guard parts (deliver parts ready.0 over)))
    unfolding built agent_stage
    built-Follows (err why) w p h = ((build, some why) ∷ [], refl, fail why, refl)
    built-Follows (ok sinks) w p h =
        let q : Progress W = told build [] none w p in
        Follows-after build (fence ∷ agent ∷ []) p q _ refl (
          Ran-bind fence (agent ∷ []) q (fence_stage parts q) _ (fence_stage-Ran q h)
            (λ u k. agent-Follows sinks _ _ u k))

    module _ (book : Book) (payload : Entries Bytes) where
      gather_stage-Ran :
          (p : Progress W)
          → is_success p.status ≡ false
          → Ran gather p (gather_stage parts book payload p)
      unfolding gather_stage
      gather_stage-Ran p h = unless_failed-Ran gather refused _ _ _ p h refl

      retrieve_if_declared-Ran :
          (p : Progress W)
          → is_success p.status ≡ false
          → Ran retrieve p (retrieve_if_declared parts book payload p)
      unfolding retrieve_if_declared
      retrieve_if_declared-Ran p h = unless_failed-Ran retrieve refused _ _ _ p h refl

      prompt_stage-Ran :
          (p : Progress W)
          → is_success p.status ≡ false
          → Ran prompt p (prompt_stage parts book payload p)
      unfolding prompt_stage
      prompt_stage-Ran p h = unless_failed-Ran prompt refused _ _ _ p h refl

      body-Follows :
          (p : Progress W)
          → is_success p.status ≡ false
          → Follows stages p (
              gather_stage parts book payload p >>= λ gathered.
              retrieve_if_declared parts book payload gathered >>= λ retrieved.
              prompt_stage parts book payload retrieved >>= agent_and_sinks parts payload)
      unfolding agent_and_sinks
      body-Follows p h =
          Ran-bind gather (retrieve ∷ prompt ∷ build ∷ fence ∷ agent ∷ []) p
            (gather_stage parts book payload p) _ (gather_stage-Ran p h)
            (λ q k.
              Ran-bind retrieve (prompt ∷ build ∷ fence ∷ agent ∷ []) q
                (retrieve_if_declared parts book payload q) _ (retrieve_if_declared-Ran q k)
                (λ u l.
                  Ran-bind prompt (build ∷ fence ∷ agent ∷ []) u (prompt_stage parts book payload u)
                    _ (prompt_stage-Ran u l) (λ v m. built-Follows _ _ v m)))

  with_problems-calls :
      (join : List String → String) (ps : List String) (p : Progress W)
      → (with_problems join ps p).calls ≡ p.calls
  unfolding with_problems
  with_problems-calls join [] p = refl
  with_problems-calls join (why ∷ more) p = refl

  with_problems-success :
      (join : List String → String) (ps : List String) (p : Progress W)
      → is_success p.status ≡ false
      → is_success (with_problems join ps p).status ≡ false
  unfolding with_problems
  with_problems-success join [] p h = h
  with_problems-success join (why ∷ more) p h = rw h h

  mark_lost-success :
      (why : Option String) (p : Progress W)
      → is_success p.status ≡ false
      → is_success (mark_lost why p).status ≡ false
  unfolding mark_lost
  mark_lost-success none p h = h
  mark_lost-success (some why) p h = refl

  pub finished-calls :
      (join : List String → String) (parts : Parts W) (p : Progress W)
      → (recorded_end parts (finished join p)).calls ≡ p.calls
  unfolding recorded_end finished
  finished-calls join parts p = with_problems-calls join p.incomplete p

  pub finished-success :
      (join : List String → String) (parts : Parts W) (p : Progress W)
      → is_success p.status ≡ false
      → is_success (stopped_by_the_guard parts (finished join p)).status ≡ false
  unfolding finished stopped_by_the_guard
  finished-success join parts p h =
      mark_lost-success _ _ (with_problems-success join p.incomplete p h)

  pub recorded-Ends :
      (join : List String → String) (parts : Parts W) (ss : List Stage) (r : Going W)
      (p : Progress W)
      → p.calls ≡ []
      → Follows ss p r
      → EndsIn ss
          (recorded_end parts (finished join (either_way r))).recorded
          (recorded_end parts (finished join (either_way r))).calls
  unfolding recorded_end EndsIn
  recorded-Ends join parts ss (ok q) p empty e =
      let all = finished-calls join parts q ∙ e ∙ ap (λ c. c ++ passed ss) empty in
      (rw all (passed-Orderly ss), inr all)
  recorded-Ends join parts ss (err q) p empty (calls, e, orderly, h) =
      let all = finished-calls join parts q ∙ e ∙ ap (λ c. c ++ calls) empty in
      (rw all orderly, inl (finished-success join parts q h))

  -- However the stages answer: an execution that records no end called no stage; one that
  -- records an end called gather, retrieval, prompt, sinks, the first fence and the agent in that
  -- order, each only after the one before it had answered without an error; and one that is
  -- recorded as succeeded passed them all.
  pub execute-Ends :
      (join : List String → String) (parts : Parts W) (book : Book) (payload : Entries Bytes)
      (w : W)
      → Ends (execute join parts book payload w).recorded (execute join parts book payload w).calls
  unfolding execute admitted begun body at_start not_begun EndsIn
  execute-Ends join parts book payload w = from_admit (parts.admit w)
    where
      from_begin :
          (now : Book) (answer : Option String × W)
          → Ends
              (begun join parts now payload answer).recorded
              (begun join parts now payload answer).calls
      from_begin now (some why, v) = refl
      from_begin now (none, v) =
          recorded-Ends join parts stages _ (at_start (parts.store_resolved v)) refl
            (body-Follows parts now payload (at_start (parts.store_resolved v)) refl)

      from_admit :
          (answer : Result String (Option Book) × W)
          → Ends
              (admitted join parts book payload answer).recorded
              (admitted join parts book payload answer).calls
      from_admit (err why, v) = refl
      from_admit (ok now, v) = from_begin (book_of book now) (parts.begin v)
