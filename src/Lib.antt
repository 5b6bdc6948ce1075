-- ===== src/Lib.antt =====
-- seestorm-ingest polls the alerts of api.weather.gov and the storm reports of the SPC, writes them to
-- PostgreSQL and publishes snapshots of what is active. This library models its core and proves what
-- makes it correct.
--
-- The parts, each with the file of the repository that it is translated from:
--   Retry            internal/retry/retry.go. The policy of both clients: BackoffDelay, ParseRetryAfter,
--                    NextDelay, Sleep.
--   Nws.Alert        internal/nws/types.go. The payload.
--   Nws.Client       internal/nws/client.go. FetchActiveAlerts as a function of the replies to its
--                    requests (Http.Upstream) and of the client's map of ETags; its result holds the
--                    outcome, the new map and the exchanges in order.
--   Store.Table      internal/store/queries.go. The table weather_events as a list of rows and each
--                    statement as a function on it.
--   Store.Supersede  internal/store/supersede.go. Retiring the rows that a batch supersedes.
--   Store.Lifetime   the table through batches and purges, by any node of the fleet, one after the other.
--   Store.Args       internal/store/postgres.go: parseAlertTimes, alertUpsertArgs.
--   Store.Batch      internal/store/postgres.go: UpsertAlertsBatch with its transaction and its
--                    fallback to single rows. Store.Batch.Surroundings says which operations fail and
--                    what the clocks show.
--   Store.Collapse   internal/store/collapse.go. One row for each warning that was issued again.
--   Store.States     internal/store/postgres.go: deriveStates; Nws.Fips has its table of state codes
--                    (internal/nws/fips.go).
--   Store.Schema     internal/store/queries.go: migrateSQL, as statements on a schema.
--   Store.Migrate    internal/store/postgres.go: New, buildPoolConfig, and Migrate, as one function and call
--                    by call; Store.Migrate.Fleet has any number of nodes that run it at once.
--   Areas            cmd/ingest/main.go: parseAreas, requireExplicitModeOnFly.
--   Startup          cmd/ingest/main.go: what run makes of the environment; Startup.Process is run with the
--                    database, its migration and the publishers, up to main's exit code.
--   Poller.Mode      internal/poller/mode.go and heartbeat.go. The role of a process of the fleet.
--   Poller.Budget    internal/poller/poller.go: the timeouts of a cycle and of its phases.
--   Nws.Products     internal/nws: the types of what the parsers of an alert return.
--   Nws.Vtec         internal/nws/vtec.go: ParseVTEC, EventID.
--   Nws.Tags         internal/nws/tags.go: ParseWarningTags.
--   Nws.Detection    internal/nws/detection.go: DetectTornado.
--   Nws.Motion       internal/nws/motion.go: ParseEventMotion.
--   Store.Reading    internal/store/postgres.go: GetActiveAlerts, which runs those parsers on each row of
--                    the table that is in force, and collapses the result.
--   Store.Reports    internal/store/postgres.go: UpsertStormReportsBatch, with its table.
--   Spc.Client       internal/spc/client.go: fetchReports, on the same Http.Upstream as Nws.Client.
--   Spc.Csv          internal/spc/client.go: parseCSVReports.
--   Publisher        internal/publisher/publisher.go: the snapshots, the interface, Multi.
--   Publisher.Objects internal/publisher/r2.go and file.go: the destinations, as maps from keys or paths
--                    to contents.
--   Poller.Alerts    internal/poller/poller.go: pollAlerts, which joins the client to the store and
--                    keeps lastAlertsUpsertFailed between cycles.
--   Poller.Reports   internal/poller/poller.go: pollStormReports.
--   Poller.Publish   internal/poller/poller.go: publishSnapshot with its retries and its fan-out.
--   Poller.Cycle     internal/poller/poller.go: poll, which joins all of these, and PingAsync of
--                    internal/healthcheck/pinger.go. Each phase's surroundings are functions of the
--                    context that the cycle derives for it.
--   Poller.Schedule  internal/poller/poller.go: the ticks of Run, and startupJitter.
--   Poller.Run       internal/poller/poller.go: pollSafely and Run, which joins the jitter, the ticks and the
--                    cycles; a cycle may panic at any of its calls.
--   Healthcheck      internal/healthcheck/pinger.go: the request of the heartbeat.
--   Health           internal/health: the registry of successes, and /healthz.
--   Poller.Healthz   internal/poller/poller.go with internal/health: what the cycles record.
-- A cycle fetches the alerts and the reports, writes them to the store, reads the active alerts back and
-- publishes them; the budgets bound the phases, the role says which of them a process runs, and the
-- heartbeat is sent when they have succeeded.
--
-- Duration has Go's int64 durations, whose arithmetic wraps around, and the constants of
-- internal/config; Strings and Base have what is used of Go's strings and maps. A text is a list of
-- bytes, a Go map a function to an option or an association list.
--
-- Regexp matches the regular expressions of internal/nws as Go does, Float has the comparisons of
-- float64 on its bits.
--
-- The loops of both clients recur on the attempts left, three at the start as in the source, and that
-- of a put on its two attempts, so they need no other fuel. The loop over missed ticks runs on fuel,
-- and it is enough to have one round for each nanosecond that the clock shows after the start. The
-- other loops recur on the list or the text that they walk.
--
-- Code outside the repository is a parameter: net/http, encoding/json, encoding/csv, net/url, time.Parse,
-- strconv.ParseFloat, the clocks, the random numbers, and the failures of PostgreSQL, of the file system
-- and of the object store. Logging is left out, and so are the mutexes of the registry and of the map
-- of ETags, which no operation holds across a wait. The goroutines of the publish phase put under
-- different keys; they run one after another here, in any order. A commit that
-- reports an error may have been carried out or not, as the surroundings say. The server's advisory lock
-- is a parameter too: which node it is granted to. Not modelled: the configuration of the AWS client, the
-- health server's socket, and the signals.
mod Base
pub mod Strings
pub mod Duration
pub mod Retry
pub mod Float
pub mod Regexp
pub mod Healthcheck
pub mod Http
pub mod Health
pub mod Nws
pub mod Store
pub mod Spc
pub mod Publisher
pub mod Poller
pub mod Areas
pub mod Startup
