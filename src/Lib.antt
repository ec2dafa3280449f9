-- ===== src/Lib.antt =====
-- The Provisioning Station: a daemon that keeps boot artifacts, runs deployments on boards one at a
-- time, and serves their files by TFTP. This library models the parts that carry its logic.
--
-- Base holds what all parts share: tests on numbers, lists, texts as lists of bytes, maps, errors.
--
-- Tasks models internal/tasks/tasks.go. Values are the JSON values of parameters (a float64 is its bit
-- pattern); Plan the deployment plans; Registry the registry, `New`, `Validate` and
-- `validateInvocation`; Run the sequential run of a phase.
--
-- Jobs models internal/jobs. Model and State are model.go and the fields of `Manager`; Events is
-- `emitLocked` with `EventsLimit` and `Subscribe`; Persist is `persistLocked`; Submit is
-- `CreateSubmissionContext` with `createContext`; Run is `Cancel`, `Close` and `run`, the latter as one
-- function for each part that holds the lock of the manager. Run.System puts them together as a step
-- relation, so that submissions, cancellations, subscriptions and cleanups may come between any two
-- parts of a run; it leaves open which waiting job the worker starts, and what the reservations are, and
-- so has more sequences than the program. Run.Retire is about its cleanups. Load is `load`, over the
-- entries of the job store, with `boundHistoricalOutput` over what happens to the two files of output.
--
-- Tftp models internal/tftp/server.go. Packets are lists of bytes; Request is `parseRequest`; Options is
-- `negotiate`; Exchange is `exchange`, over the datagrams of each attempt; Transfer is the loop over the
-- blocks; Server is `Listen`, the loop of `Serve` and `serveRequest`.
--
-- Console models internal/serialconsole: Ports is model.go with the order of discover.go; Model, Attaching,
-- Manager and Listing are manager.go with one function for each part that holds its lock (`Attach`, the
-- rounds of `readLoop`, `broadcast`, `endConnection`, `detach`, `Close`, `List`, `MatchCableSerial`), which
-- Manager.Reach puts into any order; Write is
-- `write`. A connection has a tag in place of its address.
-- Capture models the loop of internal/jobs/serial_capture.go and `Stop`. Retention models `cleanupLocked`
-- of internal/jobs/retention.go, with what it does to the disk as a list of actions.
--
-- Artifacts models internal/artifact/manifest.go: `Manifest.Validate`, `ValidatePayload` and
-- `ValidateRelativePath`; and the checks on headers in internal/artifact/archive.go. Storage models
-- `StatusLocked` and `EnsureLocked` of internal/storagebudget/budget.go over the files that a walk
-- visits.
--
-- Xsdb models internal/xsdb: Lines the `lineWriter`, Arguments the checks and arguments of `Run`, Targets
-- `parseTargets` on the lines that bufio.Scanner yields, with what the script for the discovery prints.
--
-- What the program calls outside the repository (encoding/json, SHA-256, the file system, the clock,
-- random identifiers) is in the records `Host`, `Admission`, `Execution` and `Deployment`, whose values
-- are arbitrary in the theorems. The storage gate is the argument `ensure` of a submission;
-- Retention.Gate is the one of the station, `EnsureLocked` with the cleanup as its `Reclaim`. Sockets,
-- files and walks are what the environment answers in turn (`Attempt`, `Round`, `Session`, `Walk`,
-- `CleanupEnv`, `LoadEntry`). Loops recur on lists, but for those on fuel: `send_blocks`
-- of Tftp.Transfer has one more round than the file has bytes, which is enough as each block but the
-- last takes a byte; `write_loop` of Console.Write has as many rounds as there are bytes and
-- `write_lines` of Xsdb.Lines one more, and each round takes a byte at least; `itoa_on` has more fuel
-- than its number. Block numbers wrap at 2 ^ 16. Times are numbers, and counters and sums of sizes do
-- not wrap: they stay below 2 ^ 63.
--
-- Not modelled: `Get` and `List` of the job manager, `loadTombstones` and the lines that
-- `boundHistoricalOutput` leaves of a file; the extraction of archives and the store of artifacts; the
-- getters of attachments; how an installed XSDB is found; the HTTP handlers, the command lines, the
-- terminal interface and the services of the operating systems, which pass data on.
pub mod Base
pub mod Tasks
pub mod Jobs
pub mod Tftp
pub mod Artifacts
pub mod Storage
pub mod Console
pub mod Capture
pub mod Retention
pub mod Xsdb
mod Tests
