-- ===== src/Run/FileLock/Occurrence.antt =====
-- One scheduled occurrence of a playbook is granted at most once, along every sequence of steps.
use gronin.Prelude.{
  ℕ, ◌≤◌, ◌<◌, ◌≡◌, refl, sym, ◌∙◌, true, Option, none, some, String, ok, err, arith, inl, inr,
}
use gronin.Guard.Coordinator.{Holder, AcquireRequest, AcquireError, is_schedule, RateLimit}
use gronin.Run.FileLock.{
  State, Faults, Written, record_holder, decide, settle, acquire, release, unclaim, and_then,
  tick_if_scheduled, tick, set_last_tick, rate, tick_of,
}
use gronin.Run.FileLock.Steps.{taken_of, acquire-cases, settle-refused}
use gronin.Run.FileLock.Exclusion.{Step, acquire-granted}
use gronin.Run.FileLock.History.{Steps}
use gronin.Run.FileLock.Ticks.{
  last_due, decide-granted, decide_rises, tick-later, last_due-put_tick, rate_keeps_ticks,
}

record_holder_keeps_ticks :
    (w : Written) (name : String) (holder : Holder) (s : State)
    → (record_holder w name holder s).ticks ≡ s.ticks
unfolding record_holder
record_holder_keeps_ticks w name holder s = ground arith

settle_keeps_ticks :
    (file : ℕ) (m : Option AcquireError × State) → (settle file m).1.ticks ≡ m.1.ticks
unfolding settle unclaim
settle_keeps_ticks file (some e, s) = refl
settle_keeps_ticks file (none, s) = refl

acquire_rises :
    (f : Faults) (req : AcquireRequest) (name : String) (s : State)
    → last_due name s.ticks ≤ last_due name (acquire f req s).1.ticks
unfolding record_holder
acquire_rises f req name s = elim (acquire-cases f req s) [
  | inl (why, fails, early) ↦ rw fails (ground arith)
  | inr (free, settled) ↦
      let u = record_holder f.written req.name req.holder (taken_of req.name s) in
      rw (settled, settle_keeps_ticks s.next (decide f req u))
        (rw (record_holder_keeps_ticks f.written req.name req.holder (taken_of req.name s)) at
          (decide_rises f req name u))
]

step_rises :
    (name : String) (s t : State) → Step s t → last_due name s.ticks ≤ last_due name t.ticks
unfolding release unclaim
step_rises name s _ (Step.acquired f req _) = acquire_rises f req name s
step_rises name s _ (Step.returned file _) = ground arith

Steps-rise :
    (name : String) (s t : State) → Steps s t → last_due name s.ticks ≤ last_due name t.ticks
Steps-rise name s _ Steps.stop = ground arith
Steps-rise name s u (Steps.then t _ before step) =
    ground (arith, Steps-rise name s t before, step_rises name t u step)

-- A grant of a scheduled occurrence is later than the last tick, and becomes it.
granted-last_due :
    (f : Faults) (req : AcquireRequest) (s s' : State) (c : ℕ)
    → acquire f req s ≡ (ok c, s')
    → is_schedule req.kind ≡ true
    → (last_due req.name s.ticks < req.due_at) × (last_due req.name s'.ticks ≡ req.due_at)
granted-last_due f req s s' c e scheduled =
    let (is_c, free, kept, decided) = acquire-granted f req s s' c e in
    rw (record_holder_keeps_ticks f.written req.name req.holder (taken_of req.name s)) at
      (decide-granted f req _ s' decided scheduled)

-- A scheduled occurrence that was granted is not granted again: after any steps of any processes,
-- releases among them, no acquisition for a scheduled trigger of the same playbook, due at that
-- instant or before it, is granted.
pub acquire_tick-once :
    (f f' : Faults) (req req' : AcquireRequest) (s s' t t' : State) (c c' : ℕ)
    → acquire f req s ≡ (ok c, s')
    → is_schedule req.kind ≡ true
    → Steps s' t
    → is_schedule req'.kind ≡ true
    → req'.name ≡ req.name
    → req'.due_at ≤ req.due_at
    → ¬ acquire f' req' t ≡ (ok c', t')
acquire_tick-once f f' req req' s s' t t' c c' e scheduled path scheduled' name due e' =
    let (before, at) = granted-last_due f req s s' c e scheduled in
    let (later, now) = granted-last_due f' req' t t' c' e' scheduled' in
    ground (arith, Steps-rise req.name s' t path, rw name at later)

tick_not_rate_limited :
    (f : Faults) (req : AcquireRequest) (s t : State) (limit : RateLimit)
    → ¬ tick f req s ≡ (some (AcquireError.rate_limited limit), t)
unfolding tick set_last_tick
tick_not_rate_limited f req s t limit e = ground arith

-- A decision that the rate limit refuses comes after the tick was recorded.
decide_rate_limited :
    (f : Faults) (req : AcquireRequest) (s s' : State) (limit : RateLimit)
    → decide f req s ≡ (some (AcquireError.rate_limited limit), s')
    → is_schedule req.kind ≡ true
    → last_due req.name s'.ticks ≡ req.due_at
unfolding decide tick_if_scheduled
decide_rate_limited f req s s' limit e scheduled = go (tick f req s) refl (rw scheduled at e)
  where
    go :
        (r : Option AcquireError × State)
        → tick f req s ≡ r
        → and_then r (rate f req) ≡ (some (AcquireError.rate_limited limit), s')
        → last_due req.name s'.ticks ≡ req.due_at
    go (none, t) p h =
        let (later, put) = tick-later f req s t p in
        let same : s'.ticks ≡ t.ticks = rw h at (rate_keeps_ticks f req t) in
        rw (same, put) (last_due-put_tick (tick_of f.redact req) s.ticks)
    go (some why, t) p h = absurd (tick_not_rate_limited f req s s' limit (p ∙ h))

acquire_rate_limited :
    (f : Faults) (req : AcquireRequest) (s s' : State) (limit : RateLimit)
    → acquire f req s ≡ (err (AcquireError.rate_limited limit), s')
    → is_schedule req.kind ≡ true
    → last_due req.name s'.ticks ≡ req.due_at
unfolding unclaim
acquire_rate_limited f req s s' limit e scheduled = elim (acquire-cases f req s) [
  | inl (why, fails, early) ↦ absurd (ground (arith, early, sym fails ∙ e))
  | inr (free, settled) ↦
      let (t, is_m, is_s) =
        settle-refused s.next (AcquireError.rate_limited limit) _ s' (sym settled ∙ e) in
      rw is_s (decide_rate_limited f req _ t limit is_m scheduled)
]

-- A scheduled occurrence that the rate limit refused is used up all the same: after any steps of any
-- processes no acquisition for it, or for an earlier one, is granted, whether or not a rate limit is
-- asked for then.
pub rate_limited-tick :
    (f f' : Faults) (req req' : AcquireRequest) (s s' t t' : State) (limit : RateLimit) (c : ℕ)
    → acquire f req s ≡ (err (AcquireError.rate_limited limit), s')
    → is_schedule req.kind ≡ true
    → Steps s' t
    → is_schedule req'.kind ≡ true
    → req'.name ≡ req.name
    → req'.due_at ≤ req.due_at
    → ¬ acquire f' req' t ≡ (ok c, t')
rate_limited-tick f f' req req' s s' t t' limit c e scheduled path scheduled' name due e' =
    let (later, now) = granted-last_due f' req' t t' c e' scheduled' in
    let p = acquire_rate_limited f req s s' limit e scheduled in
    ground (arith, Steps-rise req.name s' t path, rw name at later)
