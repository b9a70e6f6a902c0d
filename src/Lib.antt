-- ===== src/Lib.antt =====
-- signalk-doctor-server: the recovery engine beside a Signal K server. It answers HTTP routes,
-- reads and restarts containers over the runtime's socket, scans the plugin tree for drift from
-- the npm registry, heals that tree by `npm update` inside the server's container, and keeps one
-- operation at a time by a lock file that it shares with the updater.
--
-- Files and the code they are about:
--   Common and its children: tests, lists, maps, text and JSON values that the parts share.
--   Mutex: src/mutex.ts. The lock file is a value; open, write, read and unlink take the failures
--     of one attempt as an argument, and what another process does between the attempt and the
--     read-back is a function on the file. Interleaving has the steps of any number of processes.
--   Errors: src/errors.ts, the pattern tables in the order they are tried.
--   Podman.Tail, Podman.Exec: src/podman/exec.ts. What the runtime and the clock do during one call
--     is a `Run`; the result is a value. The poll loop runs on fuel `budget / interval + 2`, which
--     is enough where each poll waits its interval.
--   Drift.Types, Drift.Classify, Drift.Explain, Drift.Heal: src/drift/types.ts, classify.ts,
--     explain.ts and heal.ts. A heal acts on a world `W` through the report store, the container
--     exec and the rescan; a rescan may throw.
--   Drift.Store, Drift.Registry, Drift.Scanner, Drift.Scheduler: src/drift/store.ts,
--     npm-registry.ts, scanner.ts and scheduler.ts. The report file is read through JSON values; a
--     write takes the failures of its system calls. A scan acts on a world through its
--     dependencies; the scheduler's calls, timeouts and ends of scans are a step relation.
--   Jobs: src/drift/heal-jobs.ts, and src/bug-report-jobs.ts, which has the same registry over its
--     own result.
--   Drift.HealRoute: src/routes/drift.ts, POST /api/drift/heal: the handler with the two readings of
--     the registry around its wait, and the job that takes the lock of Mutex, runs Drift.Heal, and
--     gives the lock back unless npm may still run. This is where the parts meet.
--   Images.Tags, Images.Retention: src/tagClassifier.ts and src/image-retention.ts. Tags are code
--     points; `localeCompare` is an argument, and the stable sort is an insertion sort.
--   LogBroker: src/log-stream-broker.ts, createLogStreamBroker as a step relation. The streams that
--     run are kept beside the code's state, to say that none leaks.
--   HostBoots: src/host-boots.ts, the record of boots and its operations.
--   Probes.Budget, Probes.Runner: src/probes/budget.ts and runner.ts. A probe is what it does in
--     the race: it resolves or rejects after a time, or hangs; the timer wins a tie.
--   Recovery: src/recovery/restore.ts, with the last-known-good entries of src/quadlet/rewriter.ts.
--     The files are maps from names to contents, and the calls of systemd are a list.
--   LogHistory: src/routes/logs-stream.ts, the recent lines of each container and the hand-over to a
--     new client.
--   Podman.Client: src/podman/client.ts, the search for the runtime and its cache. A detection ends
--     for all its callers in one step, as no new call comes between their continuations.
--   Installer.Artifacts, Installer: src/installer/refresh.ts, the table and the refresh over maps of
--     files; the pages, the hash and the faults of the file system are an argument.
--   Drift.Installed and its children: src/drift/installed-packages.ts. Paths has the candidates, Tar
--     the first entry of an archive on bytes; the runtime's answers and JSON.parse are arguments.
--   HostTimezone: src/host-timezone.ts; what the child does is an event with its time.
--   Probes.VersionDrift, Probes.TimezoneDrift: src/probes/version-drift.ts and timezone-drift.ts;
--     the readings are arguments, so that the verdicts and what they rest on are all the code does.
--   BugReport and its children: src/bug-report.ts. Paths translates the container's paths through the
--     mount table and quotes the command; the child is a function on the files of the directory.
--   Probes.DependencyDrift: src/probes/dependency-drift.ts, the verdict on the stored report.
--   Auth: src/auth.ts and src/routes/session.ts; the requests so far are a data type, with what each
--     of them could read.
--   Routes: src/routes/recover.ts, installer.ts and restart.ts, the POST handlers over Auth, Mutex,
--     Recovery and Installer.
--   Ghcr: src/ghcr.ts. The loop over the pages runs on fuel, a round for each page; where the fuel
--     runs out there is no result, and Ghcr.Paging says when that is.
--   ReportRoutes: src/bug-report-jobs.ts and src/routes/bug-report.ts, the registry of Jobs over the
--     results of BugReport and the routes that start, poll and download.
--   Quadlet: src/quadlet/rewriter.ts, the Image line of a quadlet, read and replaced.
--
-- Bounds: numbers are exact; the source's are floats, exact up to 2 ^ 53. A clock is a number of
-- milliseconds where the code computes with it and a text where it only hands it on.
--
-- Not modelled: JSON.parse, the decoder of UTF-8, the runtime's socket, npm and systemd are arguments,
-- so are localeCompare and the files under /proc. The probes on the server's health, the updater's
-- and the host's, the routes that only read and the webapp are not
-- modelled.
pub mod Common
pub mod Mutex
pub mod Errors
pub mod Podman
pub mod Drift
pub mod Auth
pub mod BugReport
pub mod Ghcr
pub mod HostBoots
pub mod HostTimezone
pub mod Images
pub mod Installer
pub mod Jobs
pub mod LogBroker
pub mod LogHistory
pub mod Probes
pub mod Quadlet
pub mod Recovery
pub mod ReportRoutes
pub mod Routes
