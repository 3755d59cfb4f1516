-- ===== src/Service.antt =====
-- The life cycle of the service (worker.go): the pid file, and the commands that start, stop,
-- restart and check the worker by it. What `os` does with a process is written out for Unix and
-- Windows as the two differ. Messages and log lines are left out.
pub mod PidFile
pub mod Single
pub mod Commands
pub mod Stale
use web_based_jobs_worker_se.Base.{
  ℕ, Bool, true, false, ◌&&◌, Option, none, some, Text, ℤ, pos, negsuc, nat_beq, if◌then◌else◌,
}
use web_based_jobs_worker_se.Config.{Configuration}
use web_based_jobs_worker_se.Strconv.{atoi, itoa}
use web_based_jobs_worker_se.Host.{
  Proc, absent, running, protected, Error, not_exist, failed, Machine, Content, content, read_error,
  next, S, pure, ◌>>=◌, ◌>>◌, stat, read_file, remove, create, write_string, open_append,
}

abbrev pub eqb_ℤ : ℤ → ℤ → Bool
eqb_ℤ (pos a) (pos b) = nat_beq a b
eqb_ℤ (pos a) (negsuc b) = false
eqb_ℤ (negsuc a) (pos b) = false
eqb_ℤ (negsuc a) (negsuc b) = nat_beq a b

abbrev pub put_proc : ℤ → Proc → Machine → Machine
put_proc pid s m = record m { procs = λ p. if eqb_ℤ pid p then s else m.procs p }

-- The errors of `process.Signal` on Unix: that of a process that is gone is `os.ErrProcessDone`,
-- into which `os` turns the `syscall.ESRCH` of the system call.
pub data SignalError : Type 0 where
  process_done not_initialized already_released not_permitted esrch : SignalError

abbrev is_esrch : SignalError → Bool
is_esrch esrch = true
is_esrch _ = false

abbrev pub is_absent : Proc → Bool
is_absent absent = true
is_absent _ = false

-- `os.FindProcess`: on Unix it finds any process.
unfoldable pub find_process : ℤ → S (Option Error)
find_process pid m =
    if m.windows && is_absent (m.procs pid) then next (some failed) m else next none m

-- The pids that `process.Signal` refuses by itself.
abbrev refused : ℤ → Option SignalError
refused pid =
    if eqb_ℤ pid (pos 0)
    then some not_initialized
    else if eqb_ℤ pid (negsuc 0)
    then some already_released
    else none

abbrev signalled : Proc → Option SignalError
signalled absent = some process_done
signalled running = none
signalled protected = some not_permitted

abbrev first_error : Option SignalError → Option SignalError → Option SignalError
first_error none e = e
first_error (some e) _ = some e

-- `process.Signal(syscall.Signal(0))`.
unfoldable pub signal_zero : ℤ → S (Option SignalError)
signal_zero pid m = next (first_error (refused pid) (signalled (m.procs pid))) m

abbrev pub killed : Option SignalError → ℤ → S (Option Error)
killed none pid m = next none (put_proc pid absent m)
killed (some e) pid m = next (some failed) m

-- `process.Kill()`.
unfoldable pub kill_process : ℤ → S (Option Error)
kill_process pid m = killed (first_error (refused pid) (signalled (m.procs pid))) pid m

-- `savePID`.
unfoldable pub save_pid : Configuration → ℕ → S (Option Error)
unfolding create write_string
save_pid c pid = do
  err ← create c.worker_pid_file_path
  elim err [ some e ↦ pure (some e) | none ↦ write_string c.worker_pid_file_path (itoa pid) ]

-- What `getPID` returns.
pub data Pid : Type 0 where
  got : ℤ → Pid
  no_pid : Error → Pid

unfoldable pub parse_pid : Content → Pid
parse_pid (read_error e) = no_pid e
parse_pid (content s) = elim (atoi s) [ none ↦ no_pid failed | some pid ↦ got pid ]

-- `getPID`.
unfoldable pub get_pid : Configuration → S Pid
unfolding stat read_file
get_pid c = do
  err ← stat c.worker_pid_file_path
  elim err [
    | some e ↦ pure (no_pid e)
    | none ↦ (do found ← read_file c.worker_pid_file_path; pure (parse_pid found))
  ]

-- What `checkWorkerService` shows, a pid of 0 as "not active", and its error.
pub record Status : Type 0 where
  pub shown : ℤ
  pub err : Option Error

abbrev pub not_active : Status
not_active = record { shown = pos 0; err = none }

-- What `tasklist` and `findstr` answer on Windows.
pub data TaskList : Type 0 where
  command_failed : TaskList
  output : (empty : Bool) → TaskList

unfoldable pub check_windows : Configuration → TaskList → ℤ → S Status
unfolding remove
check_windows c command_failed pid = do
  remove c.worker_pid_file_path
  pure (record { shown = pos 0; err = some failed })
check_windows c (output empty) pid =
    pure (record { shown = if empty then pos 0 else pid; err = none })

-- `err != nil && err == syscall.ESRCH`.
unfoldable pub is_gone : Option SignalError → Bool
is_gone none = false
is_gone (some e) = is_esrch e

unfoldable pub show_or_remove : Configuration → ℤ → Bool → S Status
unfolding remove
show_or_remove c pid true = do remove c.worker_pid_file_path; pure not_active
show_or_remove c pid false = pure (record { shown = pid; err = none })

unfoldable pub check_unix : Configuration → ℤ → S Status
unfolding find_process signal_zero is_gone show_or_remove
check_unix c pid = do
  missing_error ← find_process pid
  elim missing_error [
    | some e ↦ pure (record { shown = pid; err = some e })
    | none ↦ (do err ← signal_zero pid; show_or_remove c pid (is_gone err))
  ]

unfoldable pub check_pid : Configuration → TaskList → Pid → S Status
unfolding check_windows check_unix
check_pid c tasks (no_pid not_exist) = pure not_active
check_pid c tasks (no_pid failed) = pure (record { shown = pos 0; err = some failed })
check_pid c tasks (got pid) =
    λ m. if m.windows then check_windows c tasks pid m else check_unix c pid m

-- `checkWorkerService`.
unfoldable pub check_worker_service : Configuration → TaskList → S Status
unfolding get_pid check_pid
check_worker_service c tasks = do pid ← get_pid c; check_pid c tasks pid

unfoldable pub stop_pid : Configuration → Pid → S (Option Error)
unfolding find_process remove kill_process
stop_pid c (no_pid not_exist) = pure none
stop_pid c (no_pid failed) = pure (some failed)
stop_pid c (got pid) = do
  err ← find_process pid
  elim err [ some e ↦ pure (some e) | none ↦ (do remove c.worker_pid_file_path; kill_process pid) ]

-- `stopWorkerService`.
unfoldable pub stop_worker_service : Configuration → S (Option Error)
unfolding get_pid stop_pid
stop_worker_service c = do pid ← get_pid c; stop_pid c pid

-- What `cmd.Start` answers: the pid of the new process, or an error.
abbrev pub Spawn : Type 0
Spawn = Option ℕ

-- `savePID` of a process that has started, which is killed where that fails.
unfoldable pub keep_or_kill : Configuration → ℕ → S (Option Error)
unfolding save_pid kill_process
keep_or_kill c child = do
  err ← save_pid c child
  elim err [ none ↦ pure none | some e ↦ (do kill_error ← kill_process (pos child); pure (some e)) ]

unfoldable pub spawn : Configuration → Spawn → S (Option Error)
unfolding keep_or_kill
spawn c none m = next (some failed) m
spawn c (some child) m = keep_or_kill c child (put_proc (pos child) running m)

-- `startWorkerService`.
unfoldable pub start_worker_service : Configuration → Spawn → S (Option Error)
unfolding stat open_append spawn
start_worker_service c child = do
  there ← stat c.worker_pid_file_path
  elim there [
    | none ↦ pure none
    | some _ ↦ (do
      err ← open_append c.worker_log_file_path
      elim err [ some e ↦ pure (some e) | none ↦ spawn c child ])
  ]

unfoldable pub restart_pid : Configuration → Spawn → Pid → S (Option Error)
unfolding start_worker_service remove find_process kill_process
restart_pid c child (no_pid not_exist) = start_worker_service c child
restart_pid c child (no_pid failed) = do remove c.worker_pid_file_path; start_worker_service c child
restart_pid c child (got pid) = do
  remove c.worker_pid_file_path
  gone ← find_process pid
  elim gone [
    | some _ ↦ start_worker_service c child
    | none ↦ (do
      err ← kill_process pid
      elim err [ some e ↦ pure (some e) | none ↦ start_worker_service c child ])
  ]

-- `restartWorkerService`.
unfoldable pub restart_worker_service : Configuration → Spawn → S (Option Error)
unfolding get_pid restart_pid
restart_worker_service c child = do pid ← get_pid c; restart_pid c child pid

-- The commands of `main` that work on the service (main.go).
pub data Command : Type 0 where
  start restart : Spawn → Command
  stop : Command
  status : TaskList → Command

unfoldable pub run_command : Configuration → Command → S (Option Error)
unfolding start_worker_service restart_worker_service stop_worker_service check_worker_service
run_command c (start child) = start_worker_service c child
run_command c (restart child) = restart_worker_service c child
run_command c stop = stop_worker_service c
run_command c (status tasks) = do s ← check_worker_service c tasks; pure s.err
