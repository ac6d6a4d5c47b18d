-- ===== src/Lib.antt =====
-- A verification library for Gronin, a runtime that runs playbooks on a schedule, by hand or for a
-- webhook, at most one run of a playbook at a time. Paths are from the repository's root.
--
-- The parts, and how they meet. A trigger asks the guard (runtime/internal/guard) for a claim on its
-- playbook. On one host the claim is a file lock (runtime/internal/run/filelock.go), beside which the
-- record (runtime/internal/record) keeps the last tick of each playbook and the starts that a rate
-- limit counts. While a run goes on, the guard renews its claim and stops the run in time when it
-- cannot. A trigger by hand that finds its playbook running may wait, as a row of the record that a
-- later process reconciles. A webhook's delivery is accepted into the record in one transaction,
-- with a hand-off row for each bound playbook, and then handed off (runtime/internal/ingress).
--
-- The files:
--   Prelude       shared names: tests and integers over the native numbers, results, tables as
--                 lists of rows with the statements that the program makes of them.
--   Guard         guard/: Clock (Instant and durations), Config (Config.Check), Hold (the renewal
--                 loop of holder.go), Stop (the stop decision, Fence, enforce), Coordinator (the
--                 request and the errors of coordinator.go and guard.go), Instance (Reconcile), Load
--                 (LoadConfig of config.go), Wait (await and try of wait.go), Etcd
--                 (Acquire, take and Fence of etcd/etcd.go; Server is what it relies on of etcd).
--   Record        record/: Types and Db (the rows and tables), Deliveries and Refusals (their
--                 writes), Reconcile (reconcileDelivery), Accept (Accept), Waiting (waiting.go),
--                 Runs (CreateRun of runs.go), Redact (redact.go).
--   Run           run/: FileLock (filelock.go, with ticks.go and rate.go of record/), Parts and Execute
--                 (Execute of execute.go, with agentAndSinks and deliver of replay.go), Past and Replay
--                 (Replay and Resume of replay.go, with recordRetrieval of execute.go).
--   Ingress       ingress/: HandOff (HandOff and finishDelivery), Signature (VerifySignature), Serve
--                 (ServeHTTP and Identity).
--   Sink          sink/: Deliver (CheckCap and DeliverAll of sink.go).
--   Config        config/: Reference and Interpolate (interpolate.go), Shell (BindShell of shell.go;
--                 Quotes is the quoting of a POSIX shell line as a machine of its own).
--   Playbook      playbook/: Pointer (AtPointer and SingleValue) and Values (Extract and Check), of
--                 values.go; Scope (insideWorkingDirectory) and Tools (the rules of validateAgent
--                 on tools, allowed entries and servers), of validate.go; Retrieval
--                 (validateRetrieve).
--   Schedule      schedule/: Tick (Tick, tickOne and NextDue).
--
-- How the state is modelled. A table is a list of rows, the newest first; a transaction that fails
-- leaves the old database. A wall reading is its nanoseconds since the zero time, a duration is Go's
-- int64 with its wrap-around. The loop of a held claim takes its environment as a list of turns: how
-- late the timer fires, how long the attempt takes, what it answers; the loop of a wait likewise
-- takes a list of rounds. A text that the code looks into is the list of its bytes. An execution
-- is a chain of stages over a state for what lies outside, which keeps the stages called and what
-- they answered. The loop of an acquisition over
-- etcd takes a list of rounds too: the server that a read finds, and the one that its transaction
-- meets. What the code reads elsewhere is an argument: the etcd server, the cron library, the library of
-- regular expressions, the redactor, the digest, random identifiers, liveness of an instance, the
-- dispatcher of a hand-off, and which calls of the file system or the database fail. The processes
-- of a host are sequences of steps, each an acquisition or a release, since a lock is held for
-- the whole of an acquisition's reads and writes.
--
-- Fuel: the walk of a chain of deliveries runs on fuel, two more than the rows of the table, and
-- reports `unending` beyond that; the chain of distinct deliveries is shorter. The walk of a tick
-- over due occurrences runs on fuel too: as many rounds as there are nanoseconds up to now are
-- enough where each occurrence has a later one, and no fuel is where there is none.
--
-- Not modelled: HTTP, YAML and the decoding of JSON, the etcd client, SQL's own failures, files
-- other than locks, what the stages of a run do, the kinds of sinks, the index, and the command
-- line.
pub mod Prelude
pub mod Config
pub mod Guard
pub mod Record
pub mod Ingress
pub mod Playbook
pub mod Run
pub mod Schedule
pub mod Sink
