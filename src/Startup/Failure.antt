-- ===== src/Startup/Failure.antt =====
-- What a failure to listen leaves behind.
use web_based_jobs_worker_se.Base.{
  ◌≡◌, ◌∙◌, refl, true, List, none, some, arith, Text, text_key, get_elem?,
}
use web_based_jobs_worker_se.Config.{Configuration}
use web_based_jobs_worker_se.Worker.{World}
use web_based_jobs_worker_se.Host.{file, Machine, next, exited}
use web_based_jobs_worker_se.Routes.Table.{routes_lem}
use web_based_jobs_worker_se.Settings.{initialize_worker_settings}
use web_based_jobs_worker_se.Service.{Spawn, start_worker_service}
use web_based_jobs_worker_se.Logging.{setup_loggers, Loggers}
use web_based_jobs_worker_se.Startup.{
  load_certificate, set_up_router, serve, listen_failed, start_web_server, Circumstances,
  with_settings, run_body, deferred, run_worker_service,
}
use web_based_jobs_worker_se.Startup.Runs.{addressed, run_is_deferred}
use web_based_jobs_worker_se.Startup.Untouched.{setup_loggers-Has, initialize-Has}

listen_failure :
    (c c' : Configuration) (w : World) (args : List Text) (e : Circumstances) (m m₁ m₂ : Machine)
    (logs : Loggers) {host port : Text}
    → get_elem? args 2 ≡ some host
    → get_elem? args 3 ≡ some port
    → e.user_known ≡ true
    → e.ending ≡ listen_failed
    → e.crypto.pair_loads ≡ true
    → initialize_worker_settings (addressed c host port) e.surroundings m ≡ next (some (c', w)) m₁
    → setup_loggers c' e.day m₁ ≡ next logs m₂
    → run_worker_service c args e m ≡ exited 1 m₂
unfolding run_body deferred with_settings start_web_server load_certificate set_up_router serve
listen_failure c c' w args e m m₁ m₂ logs h p u over loads init opened =
    let routes = routes_lem c' in
    run_is_deferred c args e m h p u ∙ rw init (rw opened (ground (arith, over, loads, routes.1)))

-- A worker process that gets as far as serving, with a certificate from the disk, and cannot listen
-- ends with code 1 and leaves the pid file as it found it; starting the service again then does
-- nothing and reports no error.
pub listen_failure_leaves_pid_file :
    (c c' : Configuration) (w : World) (args : List Text) (e : Circumstances) (m m₁ m₂ : Machine)
    (logs : Loggers) (child : Spawn) (written : Text) {host port : Text}
    → get_elem? args 2 ≡ some host
    → get_elem? args 3 ≡ some port
    → e.user_known ≡ true
    → e.ending ≡ listen_failed
    → e.crypto.pair_loads ≡ true
    → initialize_worker_settings (addressed c host port) e.surroundings m ≡ next (some (c', w)) m₁
    → setup_loggers c' e.day m₁ ≡ next logs m₂
    → m.entry c.worker_pid_file_path ≡ file written
    → (run_worker_service c args e m ≡ exited 1 m₂)
      × (m₂.entry c.worker_pid_file_path ≡ file written)
      × (start_worker_service c child m₂ ≡ next none m₂)
unfolding start_worker_service
listen_failure_leaves_pid_file c c' w args e m m₁ m₂ logs child written {host} {port} h p u over
      loads init opened there =
    let path = c.worker_pid_file_path in
    let at₁ : m₁.entry path ≡ file written =
      rw init at (initialize-Has path written (addressed c host port) e.surroundings m there) in
    let at₂ : m₂.entry path ≡ file written =
      rw opened at (setup_loggers-Has path written c' e.day m₁ at₁) in
    (listen_failure c c' w args e m m₁ m₂ logs h p u over loads init opened, at₂, rw at₂ refl)
