-- ===== src/Examples/Service.antt =====
-- The life of the service on a concrete machine.
use web_based_jobs_worker_se.Base.{
  ◌≡◌, refl, true, false, [], ◌∷◌, none, some, arith, text_key, text_eq, ℤ, pos, if◌then◌else◌,
}
use web_based_jobs_worker_se.Config.{default_config}
use web_based_jobs_worker_se.Strconv.{itoa}
use web_based_jobs_worker_se.Host.{
  missing, file, Proc, absent, running, failed, Machine, Step, next, exited, panicked, put_entry,
}
use web_based_jobs_worker_se.Service.{
  output, start, restart, stop, status, eqb_ℤ, start_worker_service, stop_worker_service,
  restart_worker_service, check_worker_service,
}
use web_based_jobs_worker_se.Service.Single.{Ends, IsSingle, nobody}
use web_based_jobs_worker_se.Service.Commands.{run_commands, commands-IsSingle}
use web_based_jobs_worker_se.Service.Stale.{start-stop, stale_pid_file}

-- A Unix machine with an empty disk, on which only process 1 runs.
abbrev pub idle : ℤ → Proc
idle q = if eqb_ℤ (pos 1) q then running else absent

abbrev pub machine : Machine
machine = record {
  windows = false;
  entry = λ _. missing;
  writable = λ _. true;
  removable = λ _. true;
  has_space = true;
  procs = idle;
  rlimit = record { cur = 1024; max = 4096 };
  permits = λ _. true;
}

-- The machine after a step.
abbrev pub after : {A : Type 0} → Step A → Machine
after (next a m) = m
after (exited code m) = m
after (panicked m) = m

log_apart : text_eq default_config.worker_log_file_path default_config.worker_pid_file_path ≡ false
unfolding text_eq
log_apart = refl

commands-IsSingle_example : Ends (IsSingle default_config idle) (
    run_commands default_config
      (start (some 7) ∷ start (some 8) ∷ status (output false) ∷ restart (some 9) ∷ stop ∷ [])
      machine)
commands-IsSingle_example =
    commands-IsSingle default_config idle log_apart
      (start (some 7) ∷ start (some 8) ∷ status (output false) ∷ restart (some 9) ∷ stop ∷ [])
      machine
      (
        (omega arith, omega arith, refl),
        ((omega arith, omega arith, refl), (refl, ((omega arith, omega arith, refl), (tt, tt)))),
      )
      (nobody refl refl refl (λ q. refl))

start-stop_example :
    (m₁ : Machine) × (start_worker_service default_config (some 7) machine ≡ next none m₁)
    × (check_worker_service default_config (output false) m₁
        ≡ next (record { shown = pos 7; err = none }) m₁)
    × (m₂ : Machine) × (stop_worker_service default_config m₁ ≡ next none m₂)
    × (m₂.entry default_config.worker_pid_file_path ≡ missing)
    × ((q : ℤ) → m₂.procs q ≡ idle q)
start-stop_example =
    start-stop default_config 7 (omega arith) (omega arith) machine log_apart refl refl refl refl
      (output false) (λ h. refl) refl refl

-- The same machine with the pid file of a process that is gone.
abbrev stale : Machine
stale = put_entry default_config.worker_pid_file_path (file (itoa 7)) machine

named : stale.entry default_config.worker_pid_file_path ≡ file (itoa 7)
unfolding text_eq
named = refl

stale_pid_file_example :
    (check_worker_service default_config (output true) stale
      ≡ next (record { shown = pos 7; err = none }) stale)
    × (start_worker_service default_config (some 8) stale ≡ next none stale)
    × (stop_worker_service default_config stale
        ≡ next (some failed) (put_entry default_config.worker_pid_file_path missing stale))
    × (restart_worker_service default_config (some 8) stale
        ≡ next (some failed) (put_entry default_config.worker_pid_file_path missing stale))
stale_pid_file_example =
    stale_pid_file default_config 7 (omega arith) (omega arith) stale refl named (some 8)
      (output true) refl refl
