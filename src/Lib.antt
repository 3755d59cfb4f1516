-- ===== src/Lib.antt =====
-- A model of web-based-jobs-worker-service, a Go service that runs shell commands as jobs: clients
-- schedule short or long jobs over HTTP, a monitor hands each queued job to an executor, and
-- clients ask for status and output, stream, download, stop and restart. All parts meet in the
-- state that worker.go declares: the table of jobs with its lock, and the bounded queue.
--
--   Models, Config       the job and message records (models.go), the settings (configuration.go)
--   Worker               the shared state; a handler is a computation on it that returns, blocks
--                        or panics (globalJobsResults, mapLock, globalJobsQueue in worker.go)
--   JobId                generateID, the pattern of ids, removeDuplicateJobIds (helpers.go)
--   Http, Env, Strconv   requests and responses, what comes from outside, strconv
--   Jobs                 the jobs that the scheduling handlers build, and their limits
--   Schedule             apiScheduleJobs (handlers.api.go), scheduleShortRunningJobs
--                        (handlers.web.go), scheduleLongJobsWithStreaming and
--                        scheduleLongJobsWithDumping (streaming.go)
--   Control              stopJobsById, stopAllJobs, restartJobsById, restartAllJobs
--                        (handlers.web.go), resetCompletedJobInfos (helpers.go)
--   Executor             jobsMonitor and executeJob (controllers.go), split at its select
--   Cleanup              a round of cleanupMapResults (controllers.go)
--   Status               apiCheckJobsStatusById, apiCheckAllJobsStatus, collectStatusInfos,
--                        formatSize
--   Pages                checkJobsStatusById, getAllJobsStatus and the order of its rows
--   Output               apiFetchJobsOutputById, getJobsOutputById, downloadJobsOutputById
--   Journey              a short job from its request to its fetched output, through Schedule,
--                        Executor and Output
--   Reachable            all of these handlers and goroutines, one after the other in any order
--   Stream               serveStreamPage, isWebsocketRequest, streamJob (streaming.go)
--   Instant              instantCommandExecutor (handlers.web.go)
--   Tables               headers and rows of the tables (helpers.go)
--   Host                 files, folders and processes; PathExists, IsDir, createFolder (helpers.go)
--   Settings             loadConfigFile, dumpDefaultConfig (configuration.go),
--                        initializeWorkerSettings (worker.go), enforceMaxOpenFiles
--                        (rlimits-linux.go)
--   Service              the pid file: savePID, getPID, startWorkerService, stopWorkerService,
--                        restartWorkerService, checkWorkerService (worker.go)
--   Logging, Security    setupLoggers (logging.go), generateServerCertificate (security.go)
--   Startup              startWebServer (server.go), runWorkerService (worker.go)
--   Main                 main (main.go)
--   Routes               the routes (routers.go), requestMiddleware, enableCORS (middlewares.go),
--                        the ids of requests (helpers.go), pong (handlers.api.go)
--   Diagnostics          handleSignals, collectStackTrace (controllers.go), getDiagnostics
--                        (handlers.api.go), sendSignalForTraceDump (helpers.go)
--   Paths                filepath.Join of the standard library, on Unix
--   Base, GoMap          shared helpers, Go's map
--   Examples             the theorems listed below, each applied to a concrete worker or request
--
-- A Go function in camelCase is the definition of the same name in snake_case; its loops and
-- branches are definitions beside it. A pointer to a job is a position in the heap of the worker.
-- A handler runs without steps of other goroutines in between; where the order of steps matters,
-- as in streamJob and between runs of a job, the steps are definitions of their own and are put in
-- sequence. An `int` has 64 bits and wraps around. Times are nanoseconds since the zero time.
-- Loops are structural recursion; the only fuel bounds the digits of a number, of which a 64-bit
-- number has at most 19 decimal and 16 hexadecimal ones.
--
-- On the way from main to the server the program is a sequence of steps on a machine, each of which
-- goes on, exits with a code or panics. Paths are joined and cleaned as on Unix and then compared as
-- they are written, so that two spellings of one file are two files. The goroutines that handle
-- signals, ask for diagnostics and collect them take their steps in any order, one access to what
-- they share at a time. A round of the cleanup reads the clock once. Widths in tables count code points, and so does the header's `len`, whose
-- text is ASCII.
--
-- The clock, the random source, the time zones, the state of the disk and of the processes, the
-- process of a job, the order in which a map is visited, encoding/json, flag, the profiles of the
-- runtime and all cryptography are parameters. Not modelled: HTTP headers other than those for other
-- origins, log lines and printed texts, timers, TLS settings, the statistics of collectHealth, and
-- the texts of the documentation.
pub mod Base
pub mod GoMap
pub mod Strconv
pub mod Models
pub mod Config
pub mod JobId
pub mod Http
pub mod Worker
pub mod Env
pub mod Jobs
pub mod Schedule
pub mod Control
pub mod Executor
pub mod Cleanup
pub mod Status
pub mod Pages
pub mod Paths
pub mod Output
pub mod Journey
pub mod Reachable
pub mod Stream
pub mod Examples
pub mod Host
pub mod Service
pub mod Routes
pub mod Diagnostics
pub mod Settings
pub mod Logging
pub mod Security
pub mod Startup
pub mod Main
pub mod Tables
pub mod Instant
