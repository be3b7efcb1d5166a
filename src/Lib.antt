-- ===== src/Lib.antt =====
-- ScrewLogger records which application is in the foreground of production PCs. An agent on each
-- PC sends heartbeats to a server, which stores them; an administrator manages devices, rules and
-- API keys and looks at usage charts in a web page. This development models that page, the
-- single-page application of internal/server/web/app.js, as a whole, with the initial state that
-- internal/server/web/index.html gives it; the server behind it: the queries of the charts
-- (internal/server/query.go), the tables (internal/server/store.go, rules.go, apikeys.go), the
-- sessions (admin_auth.go), the admin API (admin_api.go, mux.go) and the endpoint for heartbeats
-- (ingest.go) and the query API (query_api.go); and of the agent the rule for heartbeats, the
-- buffer, the uploads and the two goroutines (internal/agent/heartbeat.go, sources.go, buffer.go,
-- shipper.go, agent.go), its configuration, and the samples of its watcher, which a
-- spawner keeps alive (config.go, sample.go, watcher_windows.go,
-- pipe_windows.go, spawn_windows.go).
--
-- The page is a state machine (Web/Page). Its state, `Page`, holds what app.js keeps in the DOM
-- and in closures: the views and panels, the toast and the modal window, the form fields, the
-- three tables, the chart registry, the open rename forms, the runs of the dashboards and the
-- requests that wait for an answer. `handle` runs one listener and `deliver` the callback of one
-- answer; the answers come in any order, with any status and any data, or as a failure of the
-- network. `Reach` holds of the pages that come about from `bootstrap` by such steps.
--
-- The server is a function from requests to replies and states (Server/Site): `after_call` is one
-- request, `Served` holds of the states that come about. The agent and the server together are a
-- step relation (Delivery): `Run` holds of the states that come about by appended heartbeats,
-- overflows of the buffer, uploads that fail on the way to the server or on the way back, restarts
-- of the agent, deletions of devices and other requests. The two goroutines of the agent are a step
-- relation of their own (Agent/Run), in which they take turns in any order under the mutex. Console
-- relates the rows of the page to the server that listed them.
--
--   Base             names of the libraries, Boolean tests, lists over the native numbers, texts,
--                    signed integers
--   Web/Wire         the fields of the JSON objects that the page reads
--   Web/Net          `api`: requests, answers and what is read of them
--   Web/Routes       the requests that the server has routes for
--   Web/Escape       `esc`, `statusBadge`; Escape/Html is a reader of HTML that is independent of it
--   Web/Rows         the HTML and the buttons of the table rows
--   Web/Format       `fmtTs`, `fmtDuration`, `hourLabel`
--   Web/Uri          `encodeURIComponent` and `trim` of the language, as ECMAScript defines them;
--                    Uri/Reading is a reader of such a segment that is independent of it, and
--                    Uri/Segment tells when a path keeps it as one segment
--   Web/Timeline     `bucketByHour` and the series of `renderHourly`
--   Web/Select       `populateDeviceSelect`, `rangeWindow`
--   Web/Options      the axes, legends and callbacks of the charts
--   Web/Charts       `charts`, `destroyChart`, `prepareBox` and the three render functions
--   Web/View         `showLogin`, `showApp`, `switchPanel`
--   Web/Page/State   the state, `toast`, `authed`, `showSecret`, `hideModal`
--   Web/Page/Devices, Rules, Keys, Dashboards, Session   the functions of the panels, the log-in and
--                    the log-out, each followed by the callback of its answer
--   Web/Page/Kept    one traversal of all operations for invariants of the views, the charts and the
--                    waiting requests; Page/Reachable instantiates it three times
--   Server/Query     `dwellCTE`, `ActiveRatio`, `DwellUsage` and `ListEvents` on a table of heartbeats
--   Server/Store     the tables of internal/server/store.go with `InsertHeartbeats`,
--                    `DeviceIDByToken`, `RevokeDevice`, `RenameDevice` and `DeleteDevice`
--   Server/Devices, Rules, Keys   `CreateDevice`, `ListDevices` and `deviceStatus`, and the methods on
--                    the tables `rules` and `api_keys`
--   Server/Sessions  `AdminAuth`; Sessions/History is the history of log-ins and log-outs that it stands
--                    for
--   Server/Ingest    `IngestHandler` and `bearerToken`
--   Server/QueryApi  `QueryAPI`: `requireAPIKey`, the parameters and the handlers of the queries
--   Server/Site      the handlers of `AdminAPI` behind `RequireAdmin`, and all requests that change what
--                    the server keeps; Site/Kept is one traversal of them for invariants
--   Agent/Tick       `IdleFromTickCount`
--   Agent/Heartbeat  `HeartbeatBuilder`; Heartbeat/Dwell and Ratio compare it with the dwell queries
--   Agent/Buffer     `Buffer`, on the bytes of its file; Buffer/Queue and Refines read it as a queue
--   Agent/Shipper    `Flush` and `NextInterval`
--   Agent/Categorize, Observe   `Categorize` and `Agent.Observe`
--   Agent/Config, Samples   `LoadConfig`; `EncodeSample` and `DecodeSample`
--   Agent/Pipe       `EnsureSDDL` and `readClient` of the pipe between the watcher and the service
--   Agent/Spawner    `Spawner.reconcile` and its backoff
--   Agent/Run        `New`, `Run`, `RunSamples` and `shipLoop`: the goroutines, the mutex, the
--                    cancellation
--   Agent/Watcher    `dialRetry` and `RunWatcher`
--   Console          the page and the server together
--   Delivery         the agent and the server together
--   Web/Examples, Server/Examples, Agent/Examples, Console/Examples, Delivery/Examples
--                    tests by evaluation, and the theorems at concrete inputs; Agent/Examples/Codec is
--                    an encoding of heartbeats that has the laws asked for
--
-- A text is a list of UTF-16 code units, as a JavaScript string is. Numbers of seconds and of
-- milliseconds are natural numbers; JavaScript computes them exactly below 2^53, which dates and
-- sums of dwell stay far below. The argument of `fmtDuration`, which may be a fraction, is a
-- quotient of integers. All loops are structural recursion. Decimal printing recurses on a bound
-- of the number of digits, `n + 1` for the number `n`, which is enough as each step divides by
-- ten.
--
-- The browser is a parameter (`Browser` in Web/Format): dates in the local zone, the local
-- midnight, and whether Chart.js was loaded. The Chart.js library
-- (internal/server/web/chart.umd.js) is not read: the model keeps which charts have been created
-- and not destroyed. A lone surrogate makes `encodeURIComponent` throw; the listener then ends
-- without an effect.
--
-- An identifier that is empty, "." or ".." would stay so in a path, which ServeMux cleans before it
-- looks for a route; the server draws identifiers of hexadecimal digits, but the answers of the model
-- may list any.
--
-- Answers are read by the shape of their data (`Payload`): a field that is missing is absent or
-- "undefined" as in the code, but data of another shape, such as a JSON null where an object is
-- read, is not modelled. Elements that CSS or a hidden view puts out of reach may be used all the
-- same: the model has more behaviours there than a browser. Focus, the styles of lines and
-- the clipboard are left out.
--
-- In the server and the agent a text is a list of bytes and a clock is an argument: seconds since
-- 1970 for the tables and the spawner, milliseconds for the watcher, nanoseconds for sessions and
-- polls, as a `time.Time` has them; all are natural numbers. Random values are arguments. The
-- libraries are parameters: the hash of a token, bcrypt, `strings.TrimSpace`, `path.Match`, the count
-- of runes, GLOB of SQLite, `strconv.ParseInt` (`Libraries` in Server/Site), and encoding/json on
-- heartbeats (`Json` in Agent/Buffer) and on samples (`SampleJson` in Agent/Samples), of which the
-- theorems ask that a heartbeat or a sample is one line and reads back as itself (`IsJson`,
-- `IsSampleJson`); `batch_size` of `Json` is the length of the text of a whole batch, of which the
-- server reads at most 2^20 bytes. A scan fails for a line of 65536 bytes or more, as bufio.Scanner does, and that of
-- the pipe for one of 4096 bytes or more; the limits 500, 2^30 and twelve hours are those of the code.
--
-- Not modelled: the set-up of both programs, the decoding of YAML, the headers of answers, and, of the
-- Windows integration, the handles of the pipe, the creation of processes, the service and the event
-- log, which call the operating system. The timers of the agent may fire at any
-- time. Failures of the database and of the file system, a crash in the middle of a write, and the
-- floating-point quotient of `ActiveRatio` are left out. Rows with equal times keep one order in all
-- queries, which SQL leaves open.
pub mod Base
pub mod Web
pub mod Server
pub mod Agent
pub mod Console
pub mod Delivery
