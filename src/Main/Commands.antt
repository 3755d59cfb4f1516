-- ===== src/Main/Commands.antt =====
-- The commands on the service go on: none of them ends the program or panics.
use web_based_jobs_worker_se.Base.{
  ℕ, inl, inr, Bool, true, false, ◌&&◌, Option, none, some, Text, text_key, ℤ, pos, Bool-cases,
  if◌then◌else◌,
}
use web_based_jobs_worker_se.Config.{Configuration}
use web_based_jobs_worker_se.Host.{
  missing, running, put_entry, Machine, Step, next, exited, panicked, S, bind, stat, read_file,
  remove, create, write_string, open_append, opens, stat_error, not_exist, failed,
}
use web_based_jobs_worker_se.Service.{
  Spawn, TaskList, command_failed, output, start_worker_service, restart_worker_service,
  stop_worker_service, check_worker_service, put_proc, find_process, signal_zero, kill_process,
  killed, is_absent, save_pid, get_pid, keep_or_kill, spawn, Pid, got, no_pid, parse_pid, stop_pid,
  restart_pid, check_pid, check_windows, check_unix, Command, start, restart, stop, status,
  run_command, show_or_remove, SignalError,
}

-- The step goes on.
abbrev pub GoesOn : {A : Type 0} → Step A → Type 0
GoesOn (next a m) = Unit
GoesOn (exited code m) = ⊥
GoesOn (panicked m) = ⊥

pub bind-GoesOn :
    {A B : Type 0} (x : Step A) (f : A → S B)
    → GoesOn x
    → ((a : A) (m : Machine) → GoesOn (f a m))
    → GoesOn (bind x f)
bind-GoesOn (next a m) f h k = k a m
bind-GoesOn (exited code m) f h k = h
bind-GoesOn (panicked m) f h k = h

pub either-GoesOn :
    {A B : Type 0} (o : Option A) (fine : S B) (bad : A → S B)
    → ((m : Machine) → GoesOn (fine m))
    → ((a : A) (m : Machine) → GoesOn (bad a m))
    → (m : Machine) → GoesOn (let s : S B = elim o [ none ↦ fine | some a ↦ bad a ] in s m)
either-GoesOn none fine bad h k m = h m
either-GoesOn (some a) fine bad h k m = k a m

pub if-GoesOn :
    {A : Type 0} (b : Bool) (x y : Step A) → GoesOn x → GoesOn y → GoesOn (if b then x else y)
if-GoesOn true x y h k = h
if-GoesOn false x y h k = k

open_append-GoesOn : (path : Text) (m : Machine) → GoesOn (open_append path m)
unfolding open_append
open_append-GoesOn path m = elim (Bool-cases (opens (m.entry path) && m.writable path)) [
  | inl e ↦ rw e tt
  | inr e ↦ rw e tt
]

pub create-GoesOn : (path : Text) (m : Machine) → GoesOn (create path m)
unfolding create
create-GoesOn path m = elim (Bool-cases (opens (m.entry path) && m.writable path)) [
  | inl e ↦ rw e tt
  | inr e ↦ rw e tt
]

pub write_string-GoesOn : (path s : Text) (m : Machine) → GoesOn (write_string path s m)
unfolding write_string
write_string-GoesOn path s m = elim (Bool-cases (m.has_space)) [ inl e ↦ rw e tt | inr e ↦ rw e tt ]

find_process-GoesOn : (pid : ℤ) (m : Machine) → GoesOn (find_process pid m)
unfolding find_process
find_process-GoesOn pid m = elim (Bool-cases (m.windows && is_absent (m.procs pid))) [
  | inl e ↦ rw e tt
  | inr e ↦ rw e tt
]

killed-GoesOn : (e : Option SignalError) (pid : ℤ) (m : Machine) → GoesOn (killed e pid m)
killed-GoesOn none pid m = tt
killed-GoesOn (some e) pid m = tt

kill_process-GoesOn : (pid : ℤ) (m : Machine) → GoesOn (kill_process pid m)
unfolding kill_process
kill_process-GoesOn pid m = killed-GoesOn _ pid m

module _ (c : Configuration) where
  save_pid-GoesOn : (n : ℕ) (m : Machine) → GoesOn (save_pid c n m)
  unfolding save_pid
  save_pid-GoesOn n m = bind-GoesOn (create _ m) _ (create-GoesOn _ m) (λ err.
      either-GoesOn err (write_string _ _) (λ e m. next (some e) m) (write_string-GoesOn _ _)
        (λ e m. tt))

  keep_or_kill-GoesOn : (n : ℕ) (m : Machine) → GoesOn (keep_or_kill c n m)
  unfolding keep_or_kill
  keep_or_kill-GoesOn n m = bind-GoesOn (save_pid c n m) _ (save_pid-GoesOn n m) (λ err.
      either-GoesOn err (λ m. next none m) _ (λ m. tt)
        (λ e m. bind-GoesOn (kill_process (pos n) m) _ (kill_process-GoesOn (pos n) m) (λ k m. tt)))

  spawn-GoesOn : (child : Spawn) (m : Machine) → GoesOn (spawn c child m)
  unfolding spawn
  spawn-GoesOn none m = tt
  spawn-GoesOn (some n) m = keep_or_kill-GoesOn n (put_proc (pos n) running m)

  start-GoesOn : (child : Spawn) (m : Machine) → GoesOn (start_worker_service c child m)
  unfolding start_worker_service stat
  start-GoesOn child m =
      either-GoesOn _ (λ m. next none m) _ (λ m. tt)
        (λ _ m. bind-GoesOn (open_append _ m) _ (open_append-GoesOn _ m) (λ err.
          either-GoesOn err (spawn c child) (λ e m. next (some e) m) (spawn-GoesOn child)
            (λ e m. tt)))
        m

  get_pid-GoesOn : (m : Machine) → GoesOn (get_pid c m)
  unfolding get_pid stat read_file
  get_pid-GoesOn m =
      let read : S Pid =
        λ m. bind (read_file c.worker_pid_file_path m) (λ s m. next (parse_pid s) m) in
      either-GoesOn (stat_error (m.entry c.worker_pid_file_path)) read (λ e m. next (no_pid e) m)
        (λ m. tt) (λ e m. tt) m

  after_remove :
      {B : Type 0} (m : Machine) (f : S B)
      → ((m : Machine) → GoesOn (f m))
      → GoesOn (bind (remove c.worker_pid_file_path m) (λ _. f))
  unfolding remove
  after_remove m f h =
      h (
        if m.removable c.worker_pid_file_path
        then put_entry c.worker_pid_file_path missing m
        else m)

  stop_pid-GoesOn : (pid : Pid) (m : Machine) → GoesOn (stop_pid c pid m)
  unfolding stop_pid
  stop_pid-GoesOn (no_pid not_exist) m = tt
  stop_pid-GoesOn (no_pid failed) m = tt
  stop_pid-GoesOn (got pid) m =
      bind-GoesOn (find_process pid m) _ (find_process-GoesOn pid m) (λ err.
        either-GoesOn err _ (λ e m. next (some e) m)
          (λ m. after_remove m (kill_process pid) (kill_process-GoesOn pid)) (λ e m. tt))

  restart_pid-GoesOn :
      (child : Spawn) (pid : Pid) (m : Machine) → GoesOn (restart_pid c child pid m)
  unfolding restart_pid
  restart_pid-GoesOn child (no_pid not_exist) m = start-GoesOn child m
  restart_pid-GoesOn child (no_pid failed) m =
      after_remove m (start_worker_service c child) (start-GoesOn child)
  restart_pid-GoesOn child (got pid) m = after_remove m _ (λ m.
      bind-GoesOn (find_process pid m) _ (find_process-GoesOn pid m) (λ err.
        either-GoesOn err _ (λ _. start_worker_service c child)
          (λ m. bind-GoesOn (kill_process pid m) _ (kill_process-GoesOn pid m) (λ err.
            either-GoesOn err (start_worker_service c child) (λ e m. next (some e) m)
              (start-GoesOn child) (λ e m. tt)))
          (λ _. start-GoesOn child)))

  show_or_remove-GoesOn :
      (pid : ℤ) (gone : Bool) (m : Machine) → GoesOn (show_or_remove c pid gone m)
  unfolding show_or_remove remove
  show_or_remove-GoesOn pid true m = tt
  show_or_remove-GoesOn pid false m = tt

  check_windows-GoesOn :
      (tasks : TaskList) (pid : ℤ) (m : Machine) → GoesOn (check_windows c tasks pid m)
  unfolding check_windows remove
  check_windows-GoesOn command_failed pid m = tt
  check_windows-GoesOn (output empty) pid m = tt

  check_unix-GoesOn : (pid : ℤ) (m : Machine) → GoesOn (check_unix c pid m)
  unfolding check_unix signal_zero
  check_unix-GoesOn pid m = bind-GoesOn (find_process pid m) _ (find_process-GoesOn pid m) (λ err.
      either-GoesOn err _ (λ e m. next (record { shown = pid; err = some e }) m)
        (λ m. show_or_remove-GoesOn pid _ m) (λ e m. tt))

  check_pid-GoesOn : (tasks : TaskList) (pid : Pid) (m : Machine) → GoesOn (check_pid c tasks pid m)
  unfolding check_pid
  check_pid-GoesOn tasks (no_pid not_exist) m = tt
  check_pid-GoesOn tasks (no_pid failed) m = tt
  check_pid-GoesOn tasks (got pid) m =
      if-GoesOn m.windows (check_windows c tasks pid m) (check_unix c pid m)
        (check_windows-GoesOn tasks pid m) (check_unix-GoesOn pid m)

  -- The commands that work on the service.
  pub commands-GoesOn : (cmd : Command) (m : Machine) → GoesOn (run_command c cmd m)
  unfolding run_command start_worker_service restart_worker_service stop_worker_service
      check_worker_service
  commands-GoesOn (start child) m = start-GoesOn child m
  commands-GoesOn (restart child) m =
      bind-GoesOn (get_pid c m) _ (get_pid-GoesOn m) (restart_pid-GoesOn child)
  commands-GoesOn stop m = bind-GoesOn (get_pid c m) _ (get_pid-GoesOn m) stop_pid-GoesOn
  commands-GoesOn (status tasks) m =
      bind-GoesOn (bind (get_pid c m) (check_pid c tasks)) _
        (bind-GoesOn (get_pid c m) _ (get_pid-GoesOn m) (check_pid-GoesOn tasks)) (λ s m. tt)
