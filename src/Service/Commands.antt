-- ===== src/Service/Commands.antt =====
-- Which processes run after any sequence of commands.
use web_based_jobs_worker_se.Base.{
  ℕ, All, ◌<◌, ◌^◌, ◌≡◌, inl, inr, refl, true, false, [], ◌∷◌, List, none, arith, Text, text_eq,
  text_eq_refl, ℤ, pos, negsuc, if◌then◌else◌, Bool-cases,
}
use web_based_jobs_worker_se.Config.{Configuration}
use web_based_jobs_worker_se.Strconv.{itoa}
use web_based_jobs_worker_se.Host.{
  missing, file, Proc, absent, running, Machine, put_entry, next, S, pure, ◌>>=◌,
}
use web_based_jobs_worker_se.Service.{
  put_proc, TaskList, output, eqb_ℤ, start_worker_service, stop_worker_service,
  restart_worker_service, check_worker_service, Spawn, Command, start, restart, stop, status,
  run_command,
}
use web_based_jobs_worker_se.Service.PidFile.{get_pid_missing, get_pid_found}
use web_based_jobs_worker_se.Service.Single.{
  Ends, bind-Ends, IsSingle, nobody, somebody, IsFresh, kill_running, start_missing-IsSingle,
  start-IsSingle,
}

-- One command after the other, whether or not they fail.
unfoldable pub run_commands : Configuration → List Command → S (Unit {0})
run_commands c [] = pure tt
run_commands c (cmd ∷ cmds) = do err ← run_command c cmd; run_commands c cmds

module _ (c : Configuration) (others : ℤ → Proc) where
  abbrev pid_path : Text
  pid_path = c.worker_pid_file_path

  module _ (apart : text_eq c.worker_log_file_path c.worker_pid_file_path ≡ false) where
    -- The machine after the worker is stopped.
    unfoldable pub stopped : ℕ → Machine → Machine
    stopped n m = put_proc (pos n) absent (put_entry pid_path missing m)

    pub stopped-quiet :
        (n : ℕ) (m : Machine)
        → others (pos n) ≡ absent
        → ((q : ℤ) → m.procs q ≡ (if eqb_ℤ (pos n) q then running else others q))
        → (q : ℤ) → (stopped n m).procs q ≡ others q
    unfolding stopped
    stopped-quiet n m o h (pos q) = ground (arith, h (pos q), o)
    stopped-quiet n m o h (negsuc q) = ground (arith, h (negsuc q))

    pub stopped-missing : (n : ℕ) (m : Machine) → (stopped n m).entry pid_path ≡ missing
    unfolding stopped
    stopped-missing n m = rw (text_eq_refl c.worker_pid_file_path) refl

    pub stop_running :
        (n : ℕ) (m : Machine)
        → 0 < n
        → n < 2 ^ 63
        → m.removable pid_path ≡ true
        → m.entry pid_path ≡ file (itoa n)
        → m.procs (pos n) ≡ running
        → stop_worker_service c m ≡ next none (stopped n m)
    unfolding stop_worker_service stopped
    stop_running n m lo hi r e p =
        rw (get_pid_found c m n hi e)
          (ground (arith, kill_running c others n (put_entry pid_path missing m) lo p))

    stop-IsSingle :
        (m : Machine) → IsSingle c others m → Ends (IsSingle c others) (stop_worker_service c m)
    unfolding stop_worker_service stopped
    stop-IsSingle m (nobody r s e h) = rw (get_pid_missing c m e) (nobody r s e h)
    stop-IsSingle m (somebody n r s lo hi e o h) =
        rw (stop_running n m lo hi r e (ground (arith, h (pos n))))
          (nobody r s (stopped-missing n m) (stopped-quiet n m o h))

    restart_running :
        (child : Spawn) (n : ℕ) (m : Machine)
        → 0 < n
        → n < 2 ^ 63
        → m.removable pid_path ≡ true
        → m.entry pid_path ≡ file (itoa n)
        → m.procs (pos n) ≡ running
        → restart_worker_service c child m ≡ start_worker_service c child (stopped n m)
    unfolding restart_worker_service stopped
    restart_running child n m lo hi r e p =
        rw (get_pid_found c m n hi e)
          (ground (arith, kill_running c others n (put_entry pid_path missing m) lo p))

    restart-IsSingle :
        (child : Spawn) (m : Machine)
        → IsFresh c others child
        → IsSingle c others m
        → Ends (IsSingle c others) (restart_worker_service c child m)
    unfolding restart_worker_service stopped
    restart-IsSingle child m f (nobody r s e h) =
        rw (get_pid_missing c m e) (start_missing-IsSingle c others apart child m f r s e h)
    restart-IsSingle child m f (somebody n r s lo hi e o h) =
        rw (restart_running child n m lo hi r e (ground (arith, h (pos n)))) (
          start_missing-IsSingle c others apart child (stopped n m) f r s (stopped-missing n m)
            (stopped-quiet n m o h))

    pub check_found :
        (tasks : TaskList) (n : ℕ) (m : Machine)
        → 0 < n
        → n < 2 ^ 63
        → m.entry pid_path ≡ file (itoa n)
        → m.procs (pos n) ≡ running
        → (m.windows ≡ true → tasks ≡ output false)
        → check_worker_service c tasks m ≡ next (record { shown = pos n; err = none }) m
    unfolding check_worker_service
    check_found tasks n m lo hi e p t = rw (get_pid_found c m n hi e) (elim (Bool-cases m.windows) [
      | inl yes_windows ↦ rw (t yes_windows) (ground arith)
      | inr unix ↦ ground (arith, p)
    ])

    check-IsSingle :
        (tasks : TaskList) (m : Machine)
        → tasks ≡ output false
        → IsSingle c others m
        → Ends (IsSingle c others) (check_worker_service c tasks m)
    unfolding check_worker_service
    check-IsSingle tasks m t (nobody r s e h) = rw (get_pid_missing c m e) (nobody r s e h)
    check-IsSingle tasks m t (somebody n r s lo hi e o h) =
        rw (check_found tasks n m lo hi e (ground (arith, h (pos n))) (λ _. t))
          (somebody n r s lo hi e o h)

    -- What the system answers: fresh pids, and on Windows a task list that shows the worker.
    abbrev pub IsAnswered : Command → Type 0
    IsAnswered (start child) = IsFresh c others child
    IsAnswered (restart child) = IsFresh c others child
    IsAnswered stop = Unit
    IsAnswered (status tasks) = tasks ≡ output false

    command-IsSingle :
        (cmd : Command) (m : Machine)
        → IsAnswered cmd
        → IsSingle c others m
        → Ends (IsSingle c others) (run_command c cmd m)
    unfolding run_command
    command-IsSingle (start child) m a v = start-IsSingle c others apart child m a v
    command-IsSingle (restart child) m a v = restart-IsSingle child m a v
    command-IsSingle stop m a v = stop-IsSingle m v
    command-IsSingle (status tasks) m a v =
        bind-Ends (IsSingle c others) (check_worker_service c tasks m) (λ s m'. next s.err m')
          (check-IsSingle tasks m a v) (λ s m' k. k)

    -- However often and in whatever order the service is started, restarted, stopped and checked,
    -- the commands come to their end, and at most one worker runs: either there is no pid file and
    -- the processes are those that were there from the outset, or the pid file names one more
    -- process, which runs. This holds from any such machine on which the pid file can be removed
    -- and the disk has room, where the system gives fresh pids, Windows lists a worker that runs,
    -- the log is another file than the pid file, and no process ends but by a command.
    pub commands-IsSingle :
        (cmds : List Command) (m : Machine)
        → All IsAnswered cmds
        → IsSingle c others m
        → Ends (IsSingle c others) (run_commands c cmds m)
    unfolding run_commands
    commands-IsSingle [] m a v = v
    commands-IsSingle (cmd ∷ cmds) m (a, more) v =
        bind-Ends (IsSingle c others) (run_command c cmd m) (λ _ m'. run_commands c cmds m')
          (command-IsSingle cmd m a v) (λ err m' k. commands-IsSingle cmds m' more k)
