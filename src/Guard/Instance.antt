-- ===== src/Guard/Instance.antt =====
-- guard/instance.go: `Reconcile`, which ends the waits whose process is gone. Whether an instance's
-- lock is held is an argument, as are the wall readings, by the trigger that each is taken for. The
-- removal of a dead instance's lock file is not modelled.
pub mod Rounds
pub mod Gone
pub mod Tests
use Prim.Native.String.{◌++◌ as str_append}
use gronin.Prelude.{
  ℕ, suc, Bool, true, false, List, [], ◌∷◌, Option, none, some, String, str_eq, if◌then◌else◌, not,
  Result, ok, err,
}
use gronin.Record.Types.{Time, Refusal, WaitingTrigger, WaitOutcome, Mechanism}
use gronin.Record.Db.{Db, StoreError}
use gronin.Record.Refusals.{Filing}
use gronin.Record.Waiting.{WaitEnd, end_wait, still_waiting}

pub record Host : Type 0 where
  pub filing : Filing
  pub alive : String → Bool
  pub wall : String → Time
  -- time.Format, in RFC 3339
  pub format : Time → String

-- How the wait of a trigger that a run names ends.
unfoldable pub ran : Host → WaitingTrigger → WaitEnd
ran h t = record { outcome = WaitOutcome.ran; at = h.wall t.id; run_id = t.run_id; refusal = none }

-- How the wait of a trigger whose process is gone ends.
unfoldable pub dropped : Host → WaitingTrigger → WaitEnd
dropped h t = record {
  outcome = WaitOutcome.dropped;
  at = h.wall t.id;
  run_id = "";
  refusal = some (record {
    id = h.filing.refusal_id t.id;
    playbook_name = t.playbook_name;
    trigger_kind = t.trigger_kind;
    due_at = 0;
    waiting_trigger_id = t.id;
    mechanism = Mechanism.dropped;
    detail = str_append "trigger " (
        str_append t.id (
          str_append " accepted at " (
            str_append (h.format t.accepted_at)
              (str_append "; process " (str_append t.instance_id " ended before it ran")))));
    refused_at = h.wall t.id;
    delivery_id = "";
  });
}

-- How the loop goes on: the count of the dropped, the error that stops it, and the database.
pub record Progress : Type 0 where
  pub count : ℕ
  pub failure : Option StoreError
  pub db : Db

-- What follows an `EndWait` in the loop.
unfoldable pub after : Bool → ℕ → Db → Result StoreError (Bool × Db) → Progress
after counts n db (err e) = record { count = n; failure = some e; db = db }
after counts n db (ok (true, db')) = record {
  count = if counts then suc n else n;
  failure = none;
  db = db';
}
after counts n db (ok (false, db')) = record { count = n; failure = none; db = db' }

-- One round of the loop.
unfoldable pub reconcile_one : Host → WaitingTrigger → ℕ → Db → Progress
unfolding ran dropped after
reconcile_one h t n db =
    if not (str_eq t.run_id "")
    then after false n db (end_wait h.filing t.id (ran h t) db)
    else if h.alive t.instance_id
    then record { count = n; failure = none; db = db }
    else after true n db (end_wait h.filing t.id (dropped h t) db)

unfoldable pub reconcile_each : Host → List WaitingTrigger → Progress → Progress
reconcile_each h [] p = p
reconcile_each h (t ∷ ts) p =
    let next = reconcile_each h ts (reconcile_one h t p.count p.db) in
    elim p.failure [ some e ↦ p | none ↦ next ]

-- `Reconcile`
unfoldable pub reconcile : Host → Db → Progress
reconcile h db = reconcile_each h (still_waiting db) (record { count = 0; failure = none; db = db })
