-- ===== src/Service/Stale.antt =====
-- A whole life of the service, and a pid file that its worker left behind.
use web_based_jobs_worker_se.Base.{
  ℕ, ◌<◌, ◌^◌, ◌≡◌, ◌⊎◌, inl, inr, refl, true, false, ◌&&◌, none, some, arith, text_eq, ℤ, pos,
}
use web_based_jobs_worker_se.Config.{Configuration}
use web_based_jobs_worker_se.Strconv.{itoa}
use web_based_jobs_worker_se.Host.{
  missing, file, Proc, absent, running, protected, failed, Machine, put_entry, next, opens, kept,
}
use web_based_jobs_worker_se.Service.{
  Spawn, put_proc, keep_or_kill, TaskList, output, start_worker_service, stop_worker_service,
  restart_worker_service, check_worker_service,
}
use web_based_jobs_worker_se.Service.PidFile.{get_pid_found, saved, saved-entry, save_pid_writes}
use web_based_jobs_worker_se.Service.Commands.{
  stopped, stopped-quiet, stopped-missing, stop_running, check_found,
}

Proc-cases : (s : Proc) → (s ≡ absent) ⊎ (s ≡ running) ⊎ (s ≡ protected)
Proc-cases absent = inl refl
Proc-cases running = inr (inl refl)
Proc-cases protected = inr (inr refl)

module _ (c : Configuration) (n : ℕ) (lo : 0 < n) (hi : n < 2 ^ 63) (m : Machine) where
  -- The machine once the log file is open and the process runs.
  abbrev spawned : Machine
  spawned =
      put_proc (pos n) running
        (put_entry c.worker_log_file_path (kept (m.entry c.worker_log_file_path)) m)

  module _ (apart : text_eq c.worker_log_file_path c.worker_pid_file_path ≡ false)
      (no_file : m.entry c.worker_pid_file_path ≡ missing)
      (log_opens : (opens (m.entry c.worker_log_file_path) && m.writable c.worker_log_file_path)
        ≡ true)
      (able : m.writable c.worker_pid_file_path ≡ true) (space : m.has_space ≡ true) where
    start_writes : start_worker_service c (some n) m ≡ next none (saved c spawned n)
    unfolding start_worker_service keep_or_kill
    start_writes =
        rw no_file
          (rw log_opens (rw (save_pid_writes c spawned n (rw apart no_file) able space) refl))

    -- On a machine without a pid file, where the log file is not the pid file and can be opened,
    -- the pid file can be written and has room on the disk and can be removed again, with a pid
    -- that is positive, below 2 ^ 63 and not in use, and, on Windows, with a task list that shows
    -- the process: starting the service with this pid succeeds, checking it then shows this pid as
    -- active, and stopping it removes the pid file and leaves every process as it was before the
    -- start.
    pub start-stop :
        (tasks : TaskList)
        → (m.windows ≡ true → tasks ≡ output false)
        → m.removable c.worker_pid_file_path ≡ true
        → m.procs (pos n) ≡ absent
        → (m₁ : Machine) × (start_worker_service c (some n) m ≡ next none m₁)
          × (check_worker_service c tasks m₁ ≡ next (record { shown = pos n; err = none }) m₁)
          × (m₂ : Machine) × (stop_worker_service c m₁ ≡ next none m₂)
          × (m₂.entry c.worker_pid_file_path ≡ missing)
          × ((q : ℤ) → m₂.procs q ≡ m.procs q)
    start-stop tasks t r free =
        let m₁ = saved c spawned n in
        let e = saved-entry c spawned n in
        let up : m₁.procs (pos n) ≡ running = ground arith in
        (
          m₁,
          start_writes,
          check_found c m.procs apart tasks n m₁ lo hi e up t,
          stopped c m.procs apart n m₁,
          stop_running c m.procs apart n m₁ lo hi r e up,
          stopped-missing c m.procs apart n m₁,
          stopped-quiet c m.procs apart n m₁ free (λ q. refl),
        )

module _ (c : Configuration) (n : ℕ) (lo : 0 < n) (hi : n < 2 ^ 63) (m : Machine)
    (unix : m.windows ≡ false) (named : m.entry c.worker_pid_file_path ≡ file (itoa n)) where
  -- On Unix the check shows the process that the pid file names as active, whatever has become of
  -- that process, and leaves the file.
  check_shows_active :
      (tasks : TaskList)
      → check_worker_service c tasks m ≡ next (record { shown = pos n; err = none }) m
  unfolding check_worker_service
  check_shows_active tasks = rw (get_pid_found c m n hi named) (
      rw unix (elim (Proc-cases (m.procs (pos n))) [
        | inl gone ↦ ground (arith, gone)
        | inr (inl up) ↦ ground (arith, up)
        | inr (inr kept_away) ↦ ground (arith, kept_away)
      ]))

  -- On Unix, with a pid file whose process is gone and which can be removed: checking the service
  -- shows it as active, and starting it does nothing, both without an error. Stopping it and
  -- restarting it report an error and remove the file, and change nothing else, so that no worker
  -- is started.
  pub stale_pid_file :
      (child : Spawn) (tasks : TaskList)
      → m.procs (pos n) ≡ absent
      → m.removable c.worker_pid_file_path ≡ true
      → (check_worker_service c tasks m ≡ next (record { shown = pos n; err = none }) m)
        × (start_worker_service c child m ≡ next none m)
        × (stop_worker_service c m
            ≡ next (some failed) (put_entry c.worker_pid_file_path missing m))
        × (restart_worker_service c child m
            ≡ next (some failed) (put_entry c.worker_pid_file_path missing m))
  unfolding start_worker_service stop_worker_service restart_worker_service
  stale_pid_file child tasks gone r = (
    check_shows_active tasks,
    rw named refl,
    rw (get_pid_found c m n hi named) (ground arith),
    rw (get_pid_found c m n hi named) (ground arith),
  )
