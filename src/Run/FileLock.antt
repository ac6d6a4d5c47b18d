-- ===== src/Run/FileLock.antt =====
-- run/filelock.go, with the claims of run/run.go and the statements of record/ticks.go and
-- record/rate.go that it calls: the single-host coordinator. A claim is the number of the open file
-- that holds the lock. The file system and the database may fail at each call, as `Faults` says.
pub mod Steps
pub mod Exclusion
pub mod History
pub mod Claims
pub mod Ticks
pub mod Occurrence
pub mod Window
use gronin.Prelude.{
  ℕ, zero, suc, ◌+◌, ◌-◌, Bool, true, false, ◌&&◌, ◌||◌, not, List, [], ◌∷◌, Option, none, some,
  String, str_eq, if◌then◌else◌, Result, ok, err, find, select, exists_row, length, ltb, leb, ◌==◌,
}
use gronin.Record.Types.{Time, is_zero}
use gronin.Guard.Coordinator.{
  Holder, RateLimit, Kind, AcquireRequest, AcquireError, is_schedule, refuses,
}

-- A lock that an open file holds: `flock` is the kernel's, and `locks` below its table, where a lock
-- is taken only if no open file holds it.
pub record Lock : Type 0 where
  pub name : String
  pub file : ℕ

-- A row of `last_ticks`.
pub record Tick : Type 0 where
  pub name : String
  pub due_at : Time
  pub holder : Holder

-- A row of `rate_starts`.
pub record RateStart : Type 0 where
  pub name : String
  pub run_id : String
  pub started_at : Time

-- A lock file that can be parsed, and that names a run.
pub record LockFile : Type 0 where
  pub name : String
  pub holder : Holder

pub record State : Type 0 where
  pub locks : List Lock
  pub files : List LockFile
  -- The number of the next file to be opened.
  pub next : ℕ
  -- The claims whose `released` was done.
  pub released : List ℕ
  pub ticks : List Tick
  pub starts : List RateStart

-- How the write of the holder into the lock file ends: after a failed `WriteAt`, the truncated file
-- does not parse.
pub data Written : Type 0 where
  whole untouched emptied : Written

-- What an acquisition takes from outside: whether the name matches the pattern, the redactor, the
-- wall reading, and which calls fail.
pub record Faults : Type 0 where
  pub matches : String → Bool
  pub redact : String → String
  pub now : Time
  -- Opening or locking the file, for another reason than contention.
  pub lock_fails : Bool
  pub unreadable : Bool
  pub written : Written
  pub last_tick_fails : Bool
  pub set_tick_fails : Bool
  pub count_fails : Bool
  pub record_fails : Bool

abbrev pub is_lock_on : String → Lock → Bool
is_lock_on name l = str_eq l.name name

-- `claim`, and `acquireLock` within it.
unfoldable pub claim : Faults → String → State → Result AcquireError State
claim f name s =
    if not (f.matches name)
    then err AcquireError.unavailable
    else if f.lock_fails
    then err AcquireError.unavailable
    else if exists_row (is_lock_on name) s.locks
    then err (AcquireError.held_by none)
    else ok
        (record s { locks = record { name = name; file = s.next } ∷ s.locks; next = suc s.next })

-- `unclaim`
unfoldable pub unclaim : ℕ → State → State
unclaim file s = record s { locks = select (λ l. not (l.file == file)) s.locks }

-- `held`: the refusal, which names the holder where the lock file can be read.
unfoldable pub held : Faults → String → State → AcquireError
held f name s =
    if f.unreadable
    then AcquireError.held_by none
    else elim (find (λ (l : LockFile). str_eq l.name name) s.files) [
      | none ↦ AcquireError.held_by none
      | some l ↦ AcquireError.held_by (some l.holder)
    ]

-- `record`, which writes the holder into the lock file.
unfoldable pub record_holder : Written → String → Holder → State → State
record_holder Written.untouched name holder s = s
record_holder Written.emptied name holder s = record s {
  files = select (λ (l : LockFile). not (str_eq l.name name)) s.files;
}
record_holder Written.whole name holder s = record s {
  files =
      record { name = name; holder = holder }
      ∷ select (λ (l : LockFile). not (str_eq l.name name)) s.files;
}

abbrev pub is_tick_of : String → Tick → Bool
is_tick_of name t = str_eq t.name name

-- INSERT OR REPLACE INTO last_ticks, whose key is the playbook's name.
unfoldable pub put_tick : Tick → List Tick → List Tick
put_tick t ticks = t ∷ select (λ x. not (is_tick_of t.name x)) ticks

-- The row that `SetLastTick` writes.
abbrev pub tick_of : (String → String) → AcquireRequest → Tick
tick_of redact req = record {
  name = req.name;
  due_at = req.due_at;
  holder = record {
    host = redact req.holder.host;
    instance_id = redact req.holder.instance_id;
    run_id = req.holder.run_id;
  };
}

-- `SetLastTick`
unfoldable pub set_last_tick : Faults → AcquireRequest → State → Option AcquireError × State
unfolding put_tick
set_last_tick f req s =
    if is_zero req.due_at || f.set_tick_fails
    then (some AcquireError.unavailable, s)
    else (none, record s { ticks = put_tick (tick_of f.redact req) s.ticks })

-- `tick`, with `LastTick`, which fails on a row whose instant is no time.
unfoldable pub tick : Faults → AcquireRequest → State → Option AcquireError × State
unfolding set_last_tick
tick f req s =
    if f.last_tick_fails
    then (some AcquireError.unavailable, s)
    else elim (find (is_tick_of req.name) s.ticks) [
      | none ↦ set_last_tick f req s
      | some last ↦
          if is_zero last.due_at
          then (some AcquireError.unavailable, s)
          else if not (ltb last.due_at req.due_at)
          then (some (AcquireError.tick_ran last.due_at last.holder), s)
          else set_last_tick f req s
    ]

-- WHERE playbook_name = ? AND started_at >= ?
abbrev pub is_start_since : String → Time → RateStart → Bool
is_start_since name since r = str_eq r.name name && leb since r.started_at

-- `CountRateStarts`
unfoldable pub count_rate_starts : String → Time → List RateStart → ℕ
count_rate_starts name since starts = length (select (is_start_since name since) starts)

-- The part of `rate` under a limit.
unfoldable pub rate_within :
    Faults → RateLimit → AcquireRequest → State → Option AcquireError × State
unfolding count_rate_starts
rate_within f limit req s =
    if f.count_fails
    then (some AcquireError.unavailable, s)
    else if leb limit.runs (count_rate_starts (f.redact req.name) (f.now - limit.per) s.starts)
    then (some (AcquireError.rate_limited limit), s)
    else if f.record_fails
    then (some AcquireError.unavailable, s)
    else (
      none,
      record s {
        starts =
            record { name = f.redact req.name; run_id = req.holder.run_id; started_at = f.now }
            ∷ s.starts;
      },
    )

-- `rate`
unfoldable pub rate : Faults → AcquireRequest → State → Option AcquireError × State
unfolding rate_within
rate f req s = elim req.rate [ none ↦ (none, s) | some limit ↦ rate_within f limit req s ]

-- `if err := …; err != nil { return … }`, and what follows it.
abbrev pub and_then :
    Option AcquireError × State
    → (State → Option AcquireError × State)
    → Option AcquireError × State
and_then (some e, s) rest = (some e, s)
and_then (none, s) rest = rest s

-- The tick of a scheduled trigger.
unfoldable pub tick_if_scheduled : Faults → AcquireRequest → State → Option AcquireError × State
tick_if_scheduled f req s = if is_schedule req.kind then tick f req s else (none, s)

-- What `Acquire` does under the lock.
unfoldable pub decide : Faults → AcquireRequest → State → Option AcquireError × State
decide f req s = and_then (tick_if_scheduled f req s) (rate f req)

-- The end of `Acquire`, which gives the lock back where the decision refuses.
unfoldable pub settle : ℕ → Option AcquireError × State → Result AcquireError ℕ × State
unfolding unclaim
settle file (some e, s) = (err e, unclaim file s)
settle file (none, s) = (ok file, s)

-- `Acquire`: the claim or why there is none, and the state in either case.
unfoldable pub acquire : Faults → AcquireRequest → State → Result AcquireError ℕ × State
unfolding claim held record_holder decide settle
acquire f req s =
    if refuses req then (err AcquireError.bad_request, s) else elim (claim f req.name s) [
      | err (AcquireError.held_by who) ↦ (err (held f req.name s), s)
      | err _ ↦ (err AcquireError.unavailable, s)
      | ok taken ↦ settle s.next (decide f req (record_holder f.written req.name req.holder taken))
    ]

-- `fileClaim.Release`, once.
unfoldable pub release : ℕ → State → State
unfolding unclaim
release file s =
    if exists_row (λ r. r == file) s.released
    then s
    else unclaim file (record s { released = file ∷ s.released })
