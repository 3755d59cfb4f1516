-- ===== src/Logging/Local.antt =====
-- The loggers that the service ends up with.
use web_based_jobs_worker_se.Base.{◌≡◌, refl, false, ◌++◌, Option, none, some, Text}
use web_based_jobs_worker_se.Config.{Configuration}
use web_based_jobs_worker_se.Http.{text}
use web_based_jobs_worker_se.Host.{Machine, next, S, Error, open_append, join_path}
use web_based_jobs_worker_se.Host.Posts.{Post, bind-Post, Post-trivial}
use web_based_jobs_worker_se.Logging.{
  Logger, Loggers, new_logger, open_log, prepare_log_folder, setup_loggers, stop_with,
}

-- A logger without the flag for UTC.
abbrev local : Text → Logger
local path = record { path = path; utc = false }

abbrev log_folder : Configuration → Text → Text
log_folder c day = join_path c.log_folders_location (day ++ text ".logs")

-- The four loggers, each on its own file of the day's folder.
abbrev pub local_loggers : Configuration → Text → Loggers
local_loggers c day = record {
  weblog = local (join_path (log_folder c day) c.web_requests_log_file);
  apilog = local (join_path (log_folder c day) c.api_requests_log_file);
  deletedjobslog = local (join_path (log_folder c day) c.jobs_deletion_log_file);
  jobslog = local (join_path (log_folder c day) c.jobs_process_log_file);
}

open_log-Post :
    (c : Configuration) (path : Text) (m : Machine)
    → Post (λ l _. l ≡ local path) (open_log c path m)
unfolding open_log
open_log-Post c path m =
    bind-Post (λ _ _. Unit {0}) (λ l _. l ≡ local path) (open_append path m) _
      (Post-trivial (open_append path m)) by_error
  where
    by_error :
        (err : Option Error) (m : Machine)
        → Unit {0}
        → Post
            (λ l _. l ≡ local path)
            (let k : S Logger = elim err [
              | some _ ↦ stop_with c 1
              | none ↦ (λ m. next (new_logger c path) m)
            ] in
              k m)
    by_error none m _ = refl
    by_error (some e) m _ = tt

setup_loggers-Post :
    (c : Configuration) (day : Text) (m : Machine)
    → Post (λ logs _. logs ≡ local_loggers c day) (setup_loggers c day m)
unfolding setup_loggers
setup_loggers-Post c day m =
    bind-Post (λ _ _. Unit {0}) _ (prepare_log_folder c _ m) _ (Post-trivial _)
      (λ _ m _. bind-Post _ _ (open_log c _ m) _ (open_log-Post c _ m) (λ _ m a.
        bind-Post _ _ (open_log c _ m) _ (open_log-Post c _ m) (λ _ m b.
          bind-Post _ _ (open_log c _ m) _ (open_log-Post c _ m)
            (λ _ m d. bind-Post _ _ (open_log c _ m) _ (open_log-Post c _ m) (λ _ m f. cc)))))

-- Whatever the setting `EnableLogsTimestampInUTC` says, none of the loggers that are set up has the
-- flag for UTC; each writes to its own configured file in the folder of the day.
pub setup_loggers_local :
    (c : Configuration) (day : Text) (m m' : Machine) (logs : Loggers)
    → setup_loggers c day m ≡ next logs m'
    → logs ≡ local_loggers c day
setup_loggers_local c day m m' logs h = rw h at (setup_loggers-Post c day m)
