-- ===== src/Run/FileLock/Ticks.antt =====
-- The last tick of a playbook: one scheduled occurrence runs at most once.
use gronin.Prelude.{
  ◌≤◌, ◌<◌, ◌≡◌, refl, true, false, not, List, [], ◌∷◌, Option, none, some, String, str_eq, eq_iff,
  eq_refl, find, select, arith, Bool-cases, inl, inr,
}
use gronin.Record.Types.{Time}
use gronin.Guard.Coordinator.{AcquireRequest, AcquireError, is_schedule}
use gronin.Run.FileLock.{
  State, Tick, Faults, is_tick_of, put_tick, tick_of, set_last_tick, tick, rate, rate_within,
  and_then, tick_if_scheduled, decide,
}

-- The instant of a playbook's last tick, and 0 where it has none.
unfoldable pub last_due : String → List Tick → Time
last_due name ticks = elim (find (is_tick_of name) ticks) [ none ↦ 0 | some t ↦ t.due_at ]

find-select_other :
    (name other : String) (ticks : List Tick)
    → str_eq name other ≡ false
    → find (is_tick_of name) (select (λ t. not (is_tick_of other t)) ticks)
      ≡ find (is_tick_of name) ticks
unfolding find select
find-select_other name other [] h = refl
find-select_other name other (t ∷ ts) h = ground (
  arith,
  find-select_other name other ts h,
  eq_iff t.name name,
  eq_iff t.name other,
  eq_iff name other,
)

pub last_due-put_tick :
    (t : Tick) (ticks : List Tick) → last_due t.name (put_tick t ticks) ≡ t.due_at
unfolding last_due put_tick find
last_due-put_tick t ticks = rw (eq_refl t.name, last_due) refl

last_due-put_other :
    (name : String) (t : Tick) (ticks : List Tick)
    → str_eq name t.name ≡ false
    → last_due name (put_tick t ticks) ≡ last_due name ticks
unfolding last_due put_tick find
last_due-put_other name t ticks h =
    let flipped : str_eq t.name name ≡ false =
      ground (arith, eq_iff name t.name, eq_iff t.name name, h) in
    rw (flipped, last_due, find-select_other name t.name ticks h) refl

-- A tick that passes is later than the last one.
pub tick-later :
    (f : Faults) (req : AcquireRequest) (s s' : State)
    → tick f req s ≡ (none, s')
    → (last_due req.name s.ticks < req.due_at)
      × (s'.ticks ≡ put_tick (tick_of f.redact req) s.ticks)
unfolding tick set_last_tick last_due
tick-later f req s s' e = (ground arith, ground arith)

tick-refused :
    (f : Faults) (req : AcquireRequest) (s s' : State) (why : AcquireError)
    → tick f req s ≡ (some why, s')
    → s'.ticks ≡ s.ticks
unfolding tick set_last_tick last_due
tick-refused f req s s' why e = ground arith

last_due-put_rises :
    (name : String) (t : Tick) (ticks : List Tick)
    → last_due t.name ticks < t.due_at
    → last_due name ticks ≤ last_due name (put_tick t ticks)
last_due-put_rises name t ticks h = elim (Bool-cases (str_eq name t.name)) [
  | inl same ↦
      let p = (eq_iff name t.name).0 same in rw (p, last_due-put_tick t ticks) (ground (arith, h))
  | inr other ↦ rw (last_due-put_other name t ticks other) (ground arith)
]

tick_rises :
    (f : Faults) (req : AcquireRequest) (name : String) (s : State)
    → last_due name s.ticks ≤ last_due name (tick f req s).1.ticks
tick_rises f req name s = go (tick f req s) refl
  where
    go :
        (r : Option AcquireError × State)
        → tick f req s ≡ r
        → last_due name s.ticks ≤ last_due name r.1.ticks
    go (some why, s') e = rw (tick-refused f req s s' why e) (ground arith)
    go (none, s') e =
        let (later, put) = tick-later f req s s' e in
        rw put (last_due-put_rises name (tick_of f.redact req) s.ticks later)

pub rate_keeps_ticks :
    (f : Faults) (req : AcquireRequest) (s : State) → (rate f req s).1.ticks ≡ s.ticks
unfolding rate rate_within
rate_keeps_ticks f req s = ground arith

-- What a granted decision of a scheduled trigger did to its playbook's last tick.
pub decide-granted :
    (f : Faults) (req : AcquireRequest) (s s' : State)
    → decide f req s ≡ (none, s')
    → is_schedule req.kind ≡ true
    → (last_due req.name s.ticks < req.due_at) × (last_due req.name s'.ticks ≡ req.due_at)
unfolding decide tick_if_scheduled
decide-granted f req s s' e scheduled = go (tick f req s) refl (rw scheduled at e)
  where
    go :
        (r : Option AcquireError × State)
        → tick f req s ≡ r
        → and_then r (rate f req) ≡ (none, s')
        → (last_due req.name s.ticks < req.due_at) × (last_due req.name s'.ticks ≡ req.due_at)
    go (some why, t) p h = absurd (ground arith)
    go (none, t) p h =
        let (later, put) = tick-later f req s t p in
        let same : s'.ticks ≡ t.ticks = rw h at (rate_keeps_ticks f req t) in
        (later, rw (same, put) (last_due-put_tick (tick_of f.redact req) s.ticks))

pub decide_rises :
    (f : Faults) (req : AcquireRequest) (name : String) (s : State)
    → last_due name s.ticks ≤ last_due name (decide f req s).1.ticks
unfolding decide tick_if_scheduled
decide_rises f req name s = elim (Bool-cases (is_schedule req.kind)) [
  | inr other ↦ rw (other, rate_keeps_ticks f req s) (ground arith)
  | inl scheduled ↦ rw scheduled (go (tick f req s) (tick_rises f req name s))
]
  where
    go :
        (r : Option AcquireError × State)
        → last_due name s.ticks ≤ last_due name r.1.ticks
        → last_due name s.ticks ≤ last_due name (and_then r (rate f req)).1.ticks
    go (some why, t) h = h
    go (none, t) h = rw (rate_keeps_ticks f req t) h
