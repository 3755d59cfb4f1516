-- ===== src/Logging.antt =====
-- The log files: `setupLoggers` (logging.go). Log lines are left out.
pub mod Local
use web_based_jobs_worker_se.Base.{
  ℕ, Bool, true, false, ◌||◌, List, [], ◌∷◌, ◌++◌, Option, none, some, Text, text_key, ◌==◌,
  get_elem?, if◌then◌else◌,
}
use web_based_jobs_worker_se.Config.{Configuration}
use web_based_jobs_worker_se.Http.{text}
use web_based_jobs_worker_se.Worker.{World}
use web_based_jobs_worker_se.Host.{
  Error, not_exist, failed, Machine, Step, next, exited, panicked, S, pure, exit_with, ◌>>=◌, ◌>>◌,
  stat, stat_is_dir, remove, open_append, write_file, mkdir_all, create_folder, join_path,
}
use web_based_jobs_worker_se.Routes.{setup_routes}
use web_based_jobs_worker_se.Settings.{Surroundings, initialize_worker_settings}

-- `os.Remove(Config.WorkerPidFilePath)` and `os.Exit(code)`.
unfoldable pub stop_with : {A : Type 0} → Configuration → ℕ → S A
unfolding remove
stop_with c code = do remove c.worker_pid_file_path; exit_with code

-- `log.New`, by the file it writes to and whether it has the flag `log.LUTC`.
pub record Logger : Type 0 where
  pub path : Text
  pub utc : Bool

pub record Loggers : Type 0 where
  pub weblog : Logger
  pub apilog : Logger
  pub deletedjobslog : Logger
  pub jobslog : Logger

-- The assignments to a logger, the first of them under the test of the settings.
unfoldable pub new_logger : Configuration → Text → Logger
new_logger c path =
    let unset : Option Logger = none in
    let first : Option Logger =
      if c.enable_logs_timestamp_in_utc then some (record { path = path; utc = true }) else unset in
    let second : Logger = record { path = path; utc = false } in second

unfoldable pub open_log : Configuration → Text → S Logger
unfolding open_append stop_with new_logger
open_log c path = do
  err ← open_append path
  elim err [ some _ ↦ stop_with c 1 | none ↦ pure (new_logger c path) ]

unfoldable pub make_log_folder : Configuration → Text → S (Unit {0})
unfolding mkdir_all stop_with
make_log_folder c path = do
  err ← mkdir_all path
  elim err [ some _ ↦ stop_with c 1 | none ↦ pure tt ]

-- `!info.IsDir()`.
unfoldable pub check_log_folder : Configuration → Text → S (Unit {0})
unfolding stat_is_dir stop_with
check_log_folder c path = do dir ← stat_is_dir path; if dir then pure tt else stop_with c 0

-- The folder of the logs. Where `os.Stat` fails otherwise, `info` is nil and its use panics.
unfoldable pub prepare_log_folder : Configuration → Text → S (Unit {0})
unfolding stat make_log_folder check_log_folder
prepare_log_folder c path = do
  err ← stat path
  elim err [
    | some not_exist ↦ make_log_folder c path
    | some failed ↦ (λ m. panicked m)
    | none ↦ check_log_folder c path
  ]

-- `setupLoggers`, at a day in digits.
unfoldable pub setup_loggers : Configuration → Text → S Loggers
unfolding prepare_log_folder open_log
setup_loggers c day = do
  let folder = join_path c.log_folders_location (day ++ text ".logs")
  prepare_log_folder c folder
  weblog ← open_log c (join_path folder c.web_requests_log_file)
  apilog ← open_log c (join_path folder c.api_requests_log_file)
  deletedjobslog ← open_log c (join_path folder c.jobs_deletion_log_file)
  jobslog ← open_log c (join_path folder c.jobs_process_log_file)
  pure (record {
    weblog = weblog;
    apilog = apilog;
    deletedjobslog = deletedjobslog;
    jobslog = jobslog;
  })
