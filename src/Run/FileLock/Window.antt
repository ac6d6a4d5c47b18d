-- ===== src/Run/FileLock/Window.antt =====
-- The rate window: what a grant under a limit counts, and that no step frees a slot.
use gronin.Prelude.{
  ℕ, suc, ◌-◌, ◌≤◌, ◌<◌, ◌≡◌, refl, ap, ◌∙◌, List, ◌∷◌, Option, none, some, String, eq_refl, ok,
  arith, inl, inr, select,
}
use gronin.Record.Types.{Time}
use gronin.Guard.Coordinator.{Holder, AcquireRequest, AcquireError, RateLimit}
use gronin.Run.FileLock.{
  State, Faults, Written, RateStart, count_rate_starts, record_holder, decide, settle, acquire,
  release, unclaim, and_then, tick_if_scheduled, tick, set_last_tick, rate, rate_within,
}
use gronin.Run.FileLock.Steps.{taken_of, acquire-cases}
use gronin.Run.FileLock.Exclusion.{Step, acquire-granted}
use gronin.Run.FileLock.History.{Steps}

-- What a decision on the rate leaves of the starts: all of them, and its own where it grants one.
rate_within-counts :
    (f : Faults) (limit : RateLimit) (req : AcquireRequest) (s s' : State)
    → rate_within f limit req s ≡ (none, s')
    → (count_rate_starts (f.redact req.name) (f.now - limit.per) s.starts < limit.runs)
      × (s'.starts
          ≡ record { name = f.redact req.name; run_id = req.holder.run_id; started_at = f.now }
            ∷ s.starts)
unfolding rate_within count_rate_starts
rate_within-counts f limit req s s' e = (ground arith, ground arith)

rate_within-refused :
    (f : Faults) (limit : RateLimit) (req : AcquireRequest) (s s' : State) (why : AcquireError)
    → rate_within f limit req s ≡ (some why, s')
    → s'.starts ≡ s.starts
unfolding rate_within
rate_within-refused f limit req s s' why e = ground arith

count_more :
    (name : String) (since : Time) (r : RateStart) (starts : List RateStart)
    → count_rate_starts name since starts ≤ count_rate_starts name since (r ∷ starts)
unfolding count_rate_starts select
count_more name since r starts = ground arith

rate_within_rises :
    (f : Faults) (limit : RateLimit) (req : AcquireRequest) (name : String) (since : Time)
    (s : State)
    → count_rate_starts name since s.starts
      ≤ count_rate_starts name since (rate_within f limit req s).1.starts
rate_within_rises f limit req name since s = go (rate_within f limit req s) refl
  where
    go :
        (r : Option AcquireError × State)
        → rate_within f limit req s ≡ r
        → count_rate_starts name since s.starts ≤ count_rate_starts name since r.1.starts
    go (some why, s') e = rw (rate_within-refused f limit req s s' why e) (ground arith)
    go (none, s') e =
        let (below, starts) = rate_within-counts f limit req s s' e in
        rw starts (count_more name since _ s.starts)

rate_rises :
    (f : Faults) (req : AcquireRequest) (name : String) (since : Time) (s : State)
    → count_rate_starts name since s.starts ≤ count_rate_starts name since (rate f req s).1.starts
unfolding rate
rate_rises f req name since s = go req.rate refl
  where
    go :
        (declared : Option RateLimit)
        → req.rate ≡ declared
        → count_rate_starts name since s.starts
          ≤ count_rate_starts name since (rate f req s).1.starts
    go none p = rw (p, rate) (ground arith)
    go (some limit) p = rw (p, rate) (rate_within_rises f limit req name since s)

tick_keeps_starts :
    (f : Faults) (req : AcquireRequest) (s : State)
    → (tick_if_scheduled f req s).1.starts ≡ s.starts
unfolding tick_if_scheduled tick set_last_tick
tick_keeps_starts f req s = ground arith

record_holder_keeps_starts :
    (w : Written) (name : String) (holder : Holder) (s : State)
    → (record_holder w name holder s).starts ≡ s.starts
unfolding record_holder
record_holder_keeps_starts w name holder s = ground arith

decide_keeps_count :
    (f : Faults) (req : AcquireRequest) (name : String) (since : Time) (s : State)
    → count_rate_starts name since s.starts ≤ count_rate_starts name since (decide f req s).1.starts
unfolding decide tick_if_scheduled
decide_keeps_count f req name since s =
    rw (tick_keeps_starts f req s) at (go (tick_if_scheduled f req s))
  where
    go :
        (m : Option AcquireError × State)
        → count_rate_starts name since m.1.starts
          ≤ count_rate_starts name since (and_then m (rate f req)).1.starts
    go (some why, t) = ground arith
    go (none, t) = rate_rises f req name since t

decide-counts :
    (f : Faults) (limit : RateLimit) (req : AcquireRequest) (s s' : State)
    → decide f req s ≡ (none, s')
    → req.rate ≡ some limit
    → (count_rate_starts (f.redact req.name) (f.now - limit.per) s.starts < limit.runs)
      × (s'.starts
          ≡ record { name = f.redact req.name; run_id = req.holder.run_id; started_at = f.now }
            ∷ s.starts)
unfolding decide rate
decide-counts f limit req s s' e declared =
    go (tick_if_scheduled f req s) (tick_keeps_starts f req s) e
  where
    go :
        (m : Option AcquireError × State)
        → m.1.starts ≡ s.starts
        → and_then m (rate f req) ≡ (none, s')
        → (count_rate_starts (f.redact req.name) (f.now - limit.per) s.starts < limit.runs)
          × (s'.starts
              ≡ record { name = f.redact req.name; run_id = req.holder.run_id; started_at = f.now }
                ∷ s.starts)
    go (some why, t) k h = absurd (ground arith)
    go (none, t) k h =
        let (below, starts) = rate_within-counts f limit req t s' (rw (declared, rate) at h) in
        (rw k at below, starts ∙ rw k refl)

settle_keeps_starts :
    (file : ℕ) (m : Option AcquireError × State) → (settle file m).1.starts ≡ m.1.starts
unfolding settle unclaim
settle_keeps_starts file (some e, s) = refl
settle_keeps_starts file (none, s) = refl

module _ (name : String) (since : Time) where
  acquire_keeps_count :
      (f : Faults) (req : AcquireRequest) (s : State)
      → count_rate_starts name since s.starts
        ≤ count_rate_starts name since (acquire f req s).1.starts
  unfolding record_holder
  acquire_keeps_count f req s = elim (acquire-cases f req s) [
    | inl (why, fails, early) ↦ rw fails (ground arith)
    | inr (free, settled) ↦
        let u = record_holder f.written req.name req.holder (taken_of req.name s) in
        rw (settled, settle_keeps_starts s.next (decide f req u))
          (rw (record_holder_keeps_starts f.written req.name req.holder (taken_of req.name s)) at
            (decide_keeps_count f req name since u))
  ]

  step_keeps_count :
      (s t : State)
      → Step s t
      → count_rate_starts name since s.starts ≤ count_rate_starts name since t.starts
  unfolding release unclaim
  step_keeps_count s _ (Step.acquired f req _) = acquire_keeps_count f req s
  step_keeps_count s _ (Step.returned file _) = ground arith

  Steps-keep_count :
      (s t : State)
      → Steps s t
      → count_rate_starts name since s.starts ≤ count_rate_starts name since t.starts
  Steps-keep_count s _ Steps.stop = ground arith
  Steps-keep_count s u (Steps.then t _ before step) =
      ground (arith, Steps-keep_count s t before, step_keeps_count t u step)

count_own :
    (name run_id : String) (since at : Time) (starts : List RateStart)
    → since ≤ at
    → count_rate_starts name since
        (record { name = name; run_id = run_id; started_at = at } ∷ starts)
      ≡ suc (count_rate_starts name since starts)
unfolding count_rate_starts select
count_own name run_id since at starts h = ground (arith, eq_refl name)

-- A grant under a rate limit found fewer starts in its window than the limit allows, adds its own
-- start, and so leaves at most as many there as the limit allows.
pub acquire_rate-bounded :
    (f : Faults) (req : AcquireRequest) (limit : RateLimit) (s s' : State) (c : ℕ)
    → acquire f req s ≡ (ok c, s')
    → req.rate ≡ some limit
    → (count_rate_starts (f.redact req.name) (f.now - limit.per) s.starts < limit.runs)
      × (count_rate_starts (f.redact req.name) (f.now - limit.per) s'.starts ≤ limit.runs)
      × (count_rate_starts (f.redact req.name) (f.now - limit.per) s'.starts
          ≡ suc (count_rate_starts (f.redact req.name) (f.now - limit.per) s.starts))
acquire_rate-bounded f req limit s s' c e declared =
    let (is_c, free, kept, decided) = acquire-granted f req s s' c e in
    let (below, starts) =
      rw (record_holder_keeps_starts f.written req.name req.holder (taken_of req.name s)) at
        (decide-counts f limit req _ s' decided declared) in
    let more =
      ap (count_rate_starts (f.redact req.name) (f.now - limit.per)) starts
      ∙ count_own (f.redact req.name) req.holder.run_id (f.now - limit.per) f.now s.starts
          (omega arith) in
    (below, ground (arith, more), more)

-- Once the starts of a playbook since some instant fill a limit, no step of any process frees a slot,
-- neither a release nor the end of a run: an acquisition under that limit whose window begins at
-- that instant is not granted.
pub acquire_full-refused :
    (f : Faults) (req : AcquireRequest) (limit : RateLimit) (s t t' : State) (c : ℕ)
    → limit.runs ≤ count_rate_starts (f.redact req.name) (f.now - limit.per) s.starts
    → Steps s t
    → req.rate ≡ some limit
    → ¬ acquire f req t ≡ (ok c, t')
acquire_full-refused f req limit s t t' c full path declared e =
    let (below, bounded, more) = acquire_rate-bounded f req limit t t' c e declared in
    ground (arith, Steps-keep_count (f.redact req.name) (f.now - limit.per) s t path)
