-- ===== src/Startup/Runs.antt =====
-- What is left when a worker process has ended.
use web_based_jobs_worker_se.Base.{
  ℕ, ◌≡◌, Bool, true, false, List, Option, none, some, arith, Text, ℤ, pos, negsuc, text_eq_refl,
  if◌then◌else◌, Bool-cases, inl, inr, get_elem?,
}
use web_based_jobs_worker_se.Config.{Configuration}
use web_based_jobs_worker_se.Worker.{World}
use web_based_jobs_worker_se.Host.{
  missing, Error, Machine, Step, next, exited, panicked, bind, create_folder,
}
use web_based_jobs_worker_se.Settings.{
  Surroundings, initialize_worker_settings, with_queue, make_queue, make_folders, located,
  with_shell, empty_world,
}
use web_based_jobs_worker_se.Logging.{stop_with, setup_loggers}
use web_based_jobs_worker_se.Startup.{
  shut_down, Circumstances, with_settings, run_body, deferred, run_as_user, run_worker_service,
}
use web_based_jobs_worker_se.Startup.Tidy.{
  Removable, IsTidy, bind-IsTidy, on_error, if-IsTidy, create_folder-IsTidy,
}
use web_based_jobs_worker_se.Startup.Stages.{setup_loggers-IsTidy, start_web_server-IsTidy}

module _ (c : Configuration) where
  make_folders-IsTidy : (m : Machine) → Removable c m → IsTidy c (make_folders c m)
  unfolding make_folders
  make_folders-IsTidy m r =
      bind-IsTidy c (create_folder _ m) _ (create_folder-IsTidy c _ m r) (λ err.
        on_error c err _ (λ _ m. next false m)
          (λ m r. bind-IsTidy c (create_folder _ m) _ (create_folder-IsTidy c _ m r) (λ err.
            on_error c err (λ m. next true m) (λ _ m. next false m) (λ m r. r) (λ _ m r. r)))
          (λ _ m r. r))

  -- The settings that are returned keep the path of the pid file.
  abbrev IsSettled : Step (Option (Configuration × World)) → Type 0
  IsSettled (next none m) = Removable c m
  IsSettled (next (some (c', w)) m) =
      Removable c' m × (c'.worker_pid_file_path ≡ c.worker_pid_file_path)
  IsSettled (exited code m) = m.entry c.worker_pid_file_path ≡ missing
  IsSettled (panicked m) = Removable c m

  located-IsSettled :
      (e : Surroundings) (n : ℕ) (m : Machine)
      → Removable c m
      → IsSettled (located c e (empty_world n) m)
  unfolding located with_shell
  located-IsSettled e n m r = elim (Bool-cases (e.zone_known c.default_jobs_infos_timezone)) [
    | inl known ↦ rw known (ground arith, ground arith)
    | inr unknown ↦ rw unknown r
  ]

  folders-IsSettled :
      (e : Surroundings) (n : ℕ) (s : Step Bool)
      → IsTidy c s
      → IsSettled
          (bind s (λ made. if made then located c e (empty_world n) else (λ m. next none m)))
  folders-IsSettled e n (next true m) r = located-IsSettled e n m r
  folders-IsSettled e n (next false m) r = r
  folders-IsSettled e n (exited code m) h = h
  folders-IsSettled e n (panicked m) r = r

  queue-IsSettled :
      (e : Surroundings) (m : Machine) (size : ℤ)
      → Removable c m
      → IsSettled (bind (make_queue size m) (with_queue c e))
  unfolding make_queue with_queue
  queue-IsSettled e m (pos n) r =
      folders-IsSettled e n ((if e.template_parses then make_folders c else (λ m. next false m)) m)
        (if-IsTidy c e.template_parses (make_folders c) (λ m. next false m) make_folders-IsTidy
          (λ m r. r) m r)
  queue-IsSettled e m (negsuc n) r = r

-- The same path of the pid file.
retarget :
    (c c' : Configuration) {A : Type 0} (s : Step A)
    → c'.worker_pid_file_path ≡ c.worker_pid_file_path
    → IsTidy c' s
    → IsTidy c s
retarget c c' (next a m) same h = rw (← same) h
retarget c c' (exited code m) same h = rw (← same) h
retarget c c' (panicked m) same h = rw (← same) h

settled-IsTidy :
    (c : Configuration) (e : Circumstances) (s : Step (Option (Configuration × World)))
    → e.ending ≡ shut_down
    → IsSettled c s
    → IsTidy c (bind s (with_settings e))
unfolding with_settings
settled-IsTidy c e (next none m) over r = r
settled-IsTidy c e (next (some (c', w)) m) over (r, same) = retarget c c' _ same (
    bind-IsTidy c' (setup_loggers c' e.day m) _ (setup_loggers-IsTidy c' e.day m r)
      (λ l m r. rw over (start_web_server-IsTidy c' e.crypto m r)))
settled-IsTidy c e (exited code m) over h = h
settled-IsTidy c e (panicked m) over r = r

-- How a process can end: with an exit code, and without a pid file.
abbrev pub EndsClean : Configuration → Step (Option Error) → Type 0
EndsClean c (exited code m) = m.entry c.worker_pid_file_path ≡ missing
EndsClean c (next err m) = ⊥
EndsClean c (panicked m) = ⊥

deferred-EndsClean :
    (c : Configuration) (s : Step (Option Error)) → IsTidy c s → EndsClean c (deferred c s)
unfolding deferred stop_with
deferred-EndsClean c (next err m) r = ground (arith, text_eq_refl c.worker_pid_file_path)
deferred-EndsClean c (panicked m) r = ground (arith, text_eq_refl c.worker_pid_file_path)
deferred-EndsClean c (exited code m) h = h

-- The settings with the host and the port of the process.
abbrev pub addressed : Configuration → Text → Text → Configuration
addressed c host port = record c { https_server_host = host; https_server_port = port }

pub run_is_deferred :
    (c : Configuration) (args : List Text) (e : Circumstances) (m : Machine) {host port : Text}
    → get_elem? args 2 ≡ some host
    → get_elem? args 3 ≡ some port
    → e.user_known ≡ true
    → run_worker_service c args e m
      ≡ deferred (addressed c host port) (run_body (addressed c host port) e m)
unfolding run_worker_service run_as_user
run_is_deferred c args e m h p u = ground (arith, h, p, u)

-- A worker process that has its host and port and finds its user ends with an exit code and leaves
-- no pid file, if the file can be removed and unless listening fails: whether settings, folders,
-- log files, certificates or routes fail or panic, or a signal ends the service.
pub run_worker_service-EndsClean :
    (c : Configuration) (args : List Text) (e : Circumstances) (m : Machine) {host port : Text}
    → get_elem? args 2 ≡ some host
    → get_elem? args 3 ≡ some port
    → e.user_known ≡ true
    → e.ending ≡ shut_down
    → m.removable c.worker_pid_file_path ≡ true
    → EndsClean c (run_worker_service c args e m)
unfolding initialize_worker_settings run_body
run_worker_service-EndsClean c args e m {host} {port} h p u over r =
    let c' = addressed c host port in
    rw (run_is_deferred c args e m h p u) (
      deferred-EndsClean c' (run_body c' e m) (
        settled-IsTidy c' e (initialize_worker_settings c' e.surroundings m) over
          (queue-IsSettled c' e.surroundings m c'.max_jobs_queue_buffer r)))
