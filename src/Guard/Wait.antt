-- ===== src/Guard/Wait.antt =====
-- guard/wait.go: a trigger that waits for the run it collided with. The rounds of its wait are
-- explicit: what each reads of the clock, the file and the coordinator.
pub mod Balance
pub mod Expiry
pub mod Tests
use gronin.Prelude.{
  ℕ, ◌==◌, Bool, true, false, ◌&&◌, ◌||◌, not, List, [], ◌∷◌, Option, none, some, String, str_eq,
  if◌then◌else◌, Result, ok, err,
}
use gronin.Prelude.Int.{ℤ, pos, leb_ℤ}
use gronin.Record.Types.{TriggerKind, Mechanism}
use gronin.Guard.Clock.{Duration, Instant, sub}
use gronin.Guard.Coordinator.{RateLimit, AcquireError, mechanism_of}

-- A playbook, in what a wait reads of it.
pub record Book : Type 0 where
  pub name : String
  pub rate : Option RateLimit

-- One round: the readings, and what answers.
pub record Round : Type 0 where
  pub head : Instant
  -- The error of `Released`, and whether its watch and the process's context had ended.
  pub release_error : Option AcquireError
  pub watched : Bool
  pub stopping : Bool
  pub after_watch : Instant
  -- Whether an identifier could be minted.
  pub mints : Bool
  pub sent : Instant
  -- The stamp of the directory before the read, and after the claim; `none` cannot be read.
  pub stamp : Option ℕ
  pub reload : Option Book
  pub acquire : Result AcquireError ℕ
  pub later_stamp : Option ℕ
  pub claimed : Instant

-- A wait in progress, with the claims that it was granted and those that it gave back.
pub record Waiter : Type 0 where
  pub book : Book
  pub expiry : Duration
  pub accepted : Instant
  pub edited : Option (Book × ℕ)
  pub granted : List ℕ
  pub given_back : List ℕ

pub record Admission : Type 0 where
  pub claim : ℕ
  pub book : Book
  pub waited : Duration
  pub sent : Instant

-- Why a round admits no run: the claim is still held; the expiry or the file ended the wait; the
-- coordinator failed; no identifier could be minted.
pub data TryError : Type 0 where
  still_held no_run_id : TryError
  wait_ended : Mechanism → TryError
  failed : AcquireError → TryError

-- `waits`
unfoldable pub waits : TriggerKind → AcquireError → Bool
waits TriggerKind.manual (AcquireError.held_by who) = true
waits _ _ = false

-- `Guard.remaining`
unfoldable pub remaining : Waiter → Instant → Duration
remaining w now = sub w.expiry (sub now w.accepted)

-- `w.edited != nil && stamp.equal(w.stamp)`, and the playbook that was read then.
unfoldable pub unchanged : Option (Book × ℕ) → ℕ → Option Book
unchanged none stamp = none
unchanged (some (book, read)) stamp = if read == stamp then some book else none

-- `Guard.reread`
unfoldable pub reread : Waiter → Round → Result TryError (Book × Waiter)
unfolding unchanged
reread w r = elim r.stamp [
  | none ↦ err (TryError.wait_ended Mechanism.playbook_changed)
  | some stamp ↦ elim (unchanged w.edited stamp) [
    | some book ↦ ok (book, w)
    | none ↦ elim r.reload [
      | none ↦ err (TryError.wait_ended Mechanism.playbook_changed)
      | some book ↦
          if str_eq book.name w.book.name
          then ok (book, record w { edited = some (book, stamp) })
          else err (TryError.wait_ended Mechanism.playbook_changed)
    ]
  ]
]

-- `waitingTrigger.changed`
unfoldable pub changed : Waiter → Option ℕ → Bool
changed w none = true
changed w (some stamp) = elim w.edited [ none ↦ true | some (book, read) ↦ not (read == stamp) ]

-- What follows the answer of `Acquire`: a claim taken while the file changed is given back.
unfoldable pub settle_claim :
    Waiter → Round → Book → Result AcquireError ℕ → Result TryError Admission × Waiter
unfolding changed
settle_claim w r book (err (AcquireError.held_by who)) = (err TryError.still_held, w)
settle_claim w r book (err e) = (err (TryError.failed e), w)
settle_claim w r book (ok claim) =
    let taken = record w { granted = claim ∷ w.granted } in
    if changed w r.later_stamp
    then (err TryError.still_held, record taken { given_back = claim ∷ w.given_back })
    else (
      ok (record { claim = claim; book = book; waited = sub r.claimed w.accepted; sent = r.sent }),
      taken,
    )

-- `Guard.readThenClaim`, and the end of `Guard.try`.
unfoldable pub read_then_claim :
    Result TryError (Book × Waiter) → Waiter → Round → Result TryError Admission × Waiter
unfolding settle_claim
read_then_claim (err e) w r = (err e, w)
read_then_claim (ok (book, w')) w r = settle_claim w' r book r.acquire

-- What ends a round of `Guard.try` before the file is read: the expiry, the watch, or no identifier.
unfoldable pub gate : Waiter → Round → Option TryError
unfolding remaining
gate w r =
    if leb_ℤ (remaining w r.head) (pos 0)
    then some (TryError.wait_ended Mechanism.wait_expired)
    else if leb_ℤ (remaining w r.after_watch) (pos 0)
    then some TryError.still_held
    else elim r.release_error [
      | some e ↦
          if r.watched && not r.stopping then some TryError.still_held else some (TryError.failed e)
      | none ↦ if not r.mints then some TryError.no_run_id else none
    ]

-- `Guard.try`
unfoldable pub try : Waiter → Round → Result TryError Admission × Waiter
unfolding gate reread read_then_claim
try w r = elim (gate w r) [ some e ↦ (err e, w) | none ↦ read_then_claim (reread w r) w r ]

-- The mechanism of the refusal that `endWait` writes.
unfoldable pub end_mechanism : TryError → Mechanism
unfolding mechanism_of
end_mechanism (TryError.wait_ended mechanism) = mechanism
end_mechanism (TryError.failed e) = mechanism_of e
end_mechanism TryError.still_held = Mechanism.backend_unavailable
end_mechanism TryError.no_run_id = Mechanism.backend_unavailable

-- How a wait goes: a run is admitted; its end is recorded; the process is stopping, and the row
-- stays; or it waits on when the rounds run out.
pub data Ending : Type 0 where
  admitted : Admission → Ending
  ended : Mechanism → Ending
  left waiting : Ending

-- The switch of `Guard.await` on an error.
unfoldable pub on_error : TryError → Bool → Ending → Ending
unfolding end_mechanism
on_error TryError.still_held stopping next = next
on_error TryError.no_run_id stopping next =
    if stopping then left else ended (end_mechanism TryError.no_run_id)
on_error (TryError.wait_ended m) stopping next =
    if stopping then left else ended (end_mechanism (TryError.wait_ended m))
on_error (TryError.failed e) stopping next =
    if stopping then left else ended (end_mechanism (TryError.failed e))

-- Whether the loop of `Guard.await` goes on.
abbrev pub goes_on : TryError → Bool
goes_on TryError.still_held = true
goes_on TryError.no_run_id = false
goes_on (TryError.wait_ended m) = false
goes_on (TryError.failed e) = false

-- What follows a round: it ends the loop, or the loop goes on from the waiter that it left.
unfoldable pub after_try :
    Result TryError Admission × Waiter → Bool → Ending × Waiter → Ending × Waiter
unfolding on_error
after_try (ok a, w) stopping next = (admitted a, w)
after_try (err e, w) stopping next = if goes_on e then next else (on_error e stopping waiting, w)

-- `Guard.await`
unfoldable pub await : Waiter → List Round → Ending × Waiter
unfolding try after_try
await w [] = (waiting, w)
await w (r ∷ rs) =
    let tried = try w r in let next = await tried.1 rs in after_try tried r.stopping next
