-- ===== src/Startup.antt =====
-- How a worker process comes up and ends: `startWebServer` (server.go) and `runWorkerService`
-- (worker.go). TLS is a parameter; log lines are left out.
pub mod Tidy
pub mod Stages
pub mod Runs
pub mod Untouched
pub mod Failure
use web_based_jobs_worker_se.Base.{
  ℕ, Bool, true, false, ◌||◌, List, [], ◌∷◌, ◌++◌, Option, none, some, Text, text_key, ◌==◌,
  get_elem?, if◌then◌else◌,
}
use web_based_jobs_worker_se.Config.{Configuration}
use web_based_jobs_worker_se.Http.{text}
use web_based_jobs_worker_se.Worker.{World}
use web_based_jobs_worker_se.Host.{
  Error, not_exist, failed, Machine, Step, next, exited, panicked, S, pure, exit_with, ◌>>=◌, ◌>>◌,
  stat, stat_is_dir, remove, open_append, write_file, mkdir_all, create_folder, join_path,
}
use web_based_jobs_worker_se.Routes.{setup_routes}
use web_based_jobs_worker_se.Settings.{Surroundings, initialize_worker_settings}
use web_based_jobs_worker_se.Logging.{stop_with, setup_loggers}
use web_based_jobs_worker_se.Security.{Crypto, generate_server_certificate}

unfoldable pub regenerate : Configuration → Crypto → S (Unit {0})
unfolding generate_server_certificate stop_with
regenerate c k = do
  (cert, key) ← generate_server_certificate c k
  if k.pair_fits cert key then pure tt else stop_with c 1

-- The certificate of the server, from the disk or made anew.
unfoldable pub load_certificate : Configuration → Crypto → S (Unit {0})
unfolding regenerate
load_certificate c k = if k.pair_loads then pure tt else regenerate c k

-- How serving ends: a signal ends the service, for which `handleSignals` removes the pid file; or
-- `ListenAndServeTLS` fails, upon which `log.Fatalf` exits at once.
pub data Serving : Type 0 where
  shut_down listen_failed : Serving

unfoldable pub serve : Configuration → Serving → S (Option Error)
unfolding remove
serve c shut_down = do remove c.worker_pid_file_path; pure none
serve c listen_failed = exit_with 1

-- The routes; a pattern that is registered twice panics.
unfoldable pub set_up_router : Configuration → S (Unit {0})
set_up_router c = elim (setup_routes c) [ none ↦ (λ m. panicked m) | some _ ↦ pure tt ]

-- `startWebServer`.
unfoldable pub start_web_server : Configuration → Crypto → Serving → S (Option Error)
unfolding load_certificate set_up_router serve
start_web_server c k ending = do load_certificate c k; set_up_router c; serve c ending

-- What a worker process meets.
pub record Circumstances : Type 0 where
  pub user_known : Bool
  pub surroundings : Surroundings
  pub day : Text
  pub crypto : Crypto
  pub ending : Serving

unfoldable pub with_settings : Circumstances → Option (Configuration × World) → S (Option Error)
unfolding setup_loggers start_web_server
with_settings e none = pure (some failed)
with_settings e (some (c, w)) = do
  loggers ← setup_loggers c e.day
  start_web_server c e.crypto e.ending

-- `runWorkerService` once its deferred function is set up.
unfoldable pub run_body : Configuration → Circumstances → S (Option Error)
unfolding initialize_worker_settings with_settings
run_body c e = do settings ← initialize_worker_settings c e.surroundings; with_settings e settings

-- The deferred function, which runs after a return and after a panic, but not after `os.Exit`.
unfoldable pub deferred : Configuration → Step (Option Error) → Step (Option Error)
unfolding stop_with
deferred c (next err m) = stop_with c 0 m
deferred c (panicked m) = stop_with c 0 m
deferred c (exited code m) = exited code m

unfoldable pub run_as_user : Configuration → Circumstances → S (Option Error)
unfolding deferred run_body
run_as_user c e m = if e.user_known then deferred c (run_body c e m) else next (some failed) m

-- `runWorkerService`, with the host and the port from the arguments of the process.
unfoldable pub run_worker_service : Configuration → List Text → Circumstances → S (Option Error)
unfolding run_as_user
run_worker_service c args e m = elim (get_elem? args 2) [
  | none ↦ panicked m
  | some host ↦ elim (get_elem? args 3) [
    | none ↦ panicked m
    | some port ↦ run_as_user (record c { https_server_host = host; https_server_port = port }) e m
  ]
]
