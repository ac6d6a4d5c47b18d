-- ===== src/Run/FileLock/Steps.antt =====
-- What an acquisition does to each table, whether it is granted or refused.
use gronin.Prelude.{
  ℕ, suc, ◌≤◌, ◌≡◌, refl, ◌∙◌, Bool, true, false, ◌∷◌, Option, none, some, String, str_eq, ok, err,
  find, exists_row, ◌==◌, ◌⊎◌, arith, Bool-cases, Option-cases, inl, inr,
}
use gronin.Guard.Coordinator.{Holder, AcquireRequest, AcquireError, is_schedule, refuses}
use gronin.Run.FileLock.{
  LockFile, State, Faults, Written, is_lock_on, claim, unclaim, held, record_holder, set_last_tick,
  tick, rate_within, rate, decide, acquire, and_then, tick_if_scheduled, settle,
}

-- The locks, the next file and the done releases are as they were.
abbrev pub Keeps : State → State → Type 0
Keeps s s' = (s'.locks ≡ s.locks) × (s'.next ≡ s.next) × (s'.released ≡ s.released)

set_last_tick-Keeps :
    (f : Faults) (req : AcquireRequest) (s : State) → Keeps s (set_last_tick f req s).1
unfolding set_last_tick
set_last_tick-Keeps f req s = (ground arith, ground arith, ground arith)

tick-Keeps : (f : Faults) (req : AcquireRequest) (s : State) → Keeps s (tick f req s).1
unfolding tick set_last_tick
tick-Keeps f req s = (ground arith, ground arith, ground arith)

rate-Keeps : (f : Faults) (req : AcquireRequest) (s : State) → Keeps s (rate f req s).1
unfolding rate rate_within
rate-Keeps f req s = (ground arith, ground arith, ground arith)

Keeps-trans : (s t u : State) → Keeps s t → Keeps t u → Keeps s u
Keeps-trans s t u (a, b, c) (a', b', c') = (a' ∙ a, b' ∙ b, c' ∙ c)

and_then-Keeps :
    (s : State) (m : Option AcquireError × State) (rest : State → Option AcquireError × State)
    → Keeps s m.1
    → ((t : State) → Keeps t (rest t).1)
    → Keeps s (and_then m rest).1
and_then-Keeps s (some e, t) rest k r = k
and_then-Keeps s (none, t) rest k r = Keeps-trans s t (rest t).1 k (r t)

tick_if_scheduled-Keeps :
    (f : Faults) (req : AcquireRequest) (s : State) → Keeps s (tick_if_scheduled f req s).1
unfolding tick_if_scheduled
tick_if_scheduled-Keeps f req s = elim (Bool-cases (is_schedule req.kind)) [
  | inl scheduled ↦ rw scheduled (tick-Keeps f req s)
  | inr other ↦ rw other (refl, refl, refl)
]

decide-Keeps : (f : Faults) (req : AcquireRequest) (s : State) → Keeps s (decide f req s).1
unfolding decide
decide-Keeps f req s =
    and_then-Keeps s (tick_if_scheduled f req s) (rate f req) (tick_if_scheduled-Keeps f req s)
      (rate-Keeps f req)

record_holder-Keeps :
    (w : Written) (name : String) (holder : Holder) (s : State)
    → Keeps s (record_holder w name holder s)
unfolding record_holder
record_holder-Keeps w name holder s = (ground arith, ground arith, ground arith)

-- No lock is held by a file that is still to be opened.
abbrev pub IsFresh : State → Type 0
IsFresh s = (x : ℕ) → s.next ≤ x → exists_row (λ l. l.file == x) s.locks ≡ false

-- The state in which the lock is taken.
abbrev pub taken_of : String → State → State
taken_of name s = record s {
  locks = record { name = name; file = s.next } ∷ s.locks;
  next = suc s.next;
}

-- The errors of an acquisition that took no lock.
abbrev pub is_early : AcquireError → Bool
is_early AcquireError.bad_request = true
is_early AcquireError.unavailable = true
is_early (AcquireError.held_by who) = true
is_early (AcquireError.tick_ran due_at who) = false
is_early (AcquireError.rate_limited limit) = false

held_early : (f : Faults) (name : String) (s : State) → is_early (held f name s) ≡ true
unfolding held
held_early f name s = elim (Bool-cases f.unreadable) [
  | inl unreadable ↦ rw unreadable refl
  | inr readable ↦ elim (Option-cases (find (λ (l : LockFile). str_eq l.name name) s.files)) [
    | inl unnamed ↦ rw (readable, unnamed) refl
    | inr (l, named) ↦ rw (readable, named) refl
  ]
]

-- An acquisition fails and changes nothing, or takes a lock that was free and settles a decision.
pub acquire-cases :
    (f : Faults) (req : AcquireRequest) (s : State)
    → ((e : AcquireError) × (acquire f req s ≡ (err e, s)) × (is_early e ≡ true))
      ⊎ ((exists_row (is_lock_on req.name) s.locks ≡ false)
          × (acquire f req s
              ≡ settle s.next (
                  decide f req
                    (record_holder f.written req.name req.holder (taken_of req.name s)))))
unfolding acquire claim
acquire-cases f req s = elim (Bool-cases (refuses req)) [
  | inl bad ↦ inl (AcquireError.bad_request, rw bad refl, refl)
  | inr good ↦ elim (Bool-cases (f.matches req.name)) [
    | inr mismatch ↦ inl (AcquireError.unavailable, rw (good, mismatch) refl, refl)
    | inl matching ↦ elim (Bool-cases f.lock_fails) [
      | inl fails ↦ inl (AcquireError.unavailable, rw (good, matching, fails) refl, refl)
      | inr opens ↦ elim (Bool-cases (exists_row (is_lock_on req.name) s.locks)) [
        | inl taken ↦
            inl (held f req.name s, rw (good, matching, opens, taken) refl, held_early f req.name s)
        | inr free ↦ inr (free, simp (good, matching, opens, free))
      ]
    ]
  ]
]

-- What settling a decision leaves of the locks: all of them where it is granted, all but the file's
-- own where it is refused.
pub settle-granted :
    (file c : ℕ) (m : Option AcquireError × State) (s : State)
    → settle file m ≡ (ok c, s)
    → (c ≡ file) × (m ≡ (none, s))
unfolding settle
settle-granted file c (some e, t) s h = ground arith
settle-granted file c (none, t) s h = ground arith

pub settle-refused :
    (file : ℕ) (e : AcquireError) (m : Option AcquireError × State) (s : State)
    → settle file m ≡ (err e, s)
    → (t : State) × (m ≡ (some e, t)) × (s ≡ unclaim file t)
unfolding settle
settle-refused file e (some e', t) s h = (t, ground arith, ground arith)
settle-refused file e (none, t) s h = ground arith

-- The locks, the next file and the releases that a decision under the lock leaves.
pub decided-Keeps :
    (f : Faults) (req : AcquireRequest) (s : State)
    → Keeps
        (taken_of req.name s)
        (decide f req (record_holder f.written req.name req.holder (taken_of req.name s))).1
decided-Keeps f req s =
    Keeps-trans (taken_of req.name s)
      (record_holder f.written req.name req.holder (taken_of req.name s))
      (decide f req (record_holder f.written req.name req.holder (taken_of req.name s))).1
      (record_holder-Keeps f.written req.name req.holder (taken_of req.name s))
      (decide-Keeps f req (record_holder f.written req.name req.holder (taken_of req.name s)))
