-- ===== src/Executor.antt =====
-- Running a job (controllers.go): `jobsMonitor` hands queued jobs to `executeJob`, which is split
-- at its `select`: `launch` is what it does before, and `finish` what it does after an event.
-- `setFailedInfos` is in helpers.go. Log lines and the attempt to kill the process are left out.
pub mod Outputs
pub mod Launch
pub mod Finish
pub mod Execute
use web_based_jobs_worker_se.Paths.{join_path}
use web_based_jobs_worker_se.Base.{
  ℕ, zero, suc, ◌+◌, ◌-◌, Bool, true, false, not, ◌&&◌, List, [], ◌∷◌, ◌++◌, Option, none, some,
  Text, ℤ, pos, int_scale, ltb, if◌then◌else◌,
}
use web_based_jobs_worker_se.Models.{Time, Job}
use web_based_jobs_worker_se.Config.{Configuration}
use web_based_jobs_worker_se.Env.{Calendar}
use web_based_jobs_worker_se.Http.{text}
use web_based_jobs_worker_se.Worker.{
  World, returned, blocked, M, pure, block, ◌>>=◌, ◌>>◌, load, store, job_lock, job_unlock, modify,
}

-- Where a stream of the process goes: `exec.Cmd` sends a nil stream to the null device.
pub data Sink : Type 0 where
  null_device : Sink
  pipe : Sink
  file : Text → Sink
  result_buffer : Sink

pub record Cmd : Type 0 where
  pub program : Text
  pub args : List Text
  pub timeout : ℤ  -- of its context, in nanoseconds
  pub stdout : Sink
  pub stderr : Sink

-- What the environment answers while a job is launched.
pub record Launching : Type 0 where
  pub windows : Bool
  pub now : Time
  pub file_error : Option Text  -- `os.OpenFile`
  pub pipe_error : Option Text  -- `cmd.StdoutPipe`
  pub start_error : Option Text  -- `cmd.Start`
  pub failed_at : Time
  pub pid : ℕ

-- The timeout of a long job counts minutes, that of a short one seconds.
unfoldable pub timeout_of : Job → ℤ
timeout_of j = int_scale j.timeout (if j.islong then 60000000000 else 1000000000)

-- The command before its output is set up: `cmd.Stderr = cmd.Stdout` copies a nil stream.
unfoldable pub command_of : Configuration → Bool → Job → Cmd
unfolding timeout_of
command_of c windows j =
    let stdout = null_device in
    record {
      program = if windows then text "cmd" else c.default_linux_shell;
      args = (if windows then text "/C" else text "-c") ∷ j.task ∷ [];
      timeout = timeout_of j;
      stdout = stdout;
      stderr = stdout;
    }

-- The path of a dump: day of submission and id.
unfoldable pub dump_path : Text → Calendar → Job → Text
unfolding join_path
dump_path folder cal j =
    join_path folder (cal.day j.submittime ++ (text "." ++ (j.id ++ text ".txt")))

-- `setFailedInfos`.
unfoldable pub set_failed_infos : ℕ → Time → Text → M (Unit {0})
unfolding job_lock job_unlock modify
set_failed_infos p t e = do
  job_lock p
  modify p (λ j. record j { endtime = t; iscompleted = true; issuccess = false; errormsg = e })
  job_unlock p

unfoldable pub abort : Launching → ℕ → Text → M (Option Cmd)
unfolding set_failed_infos
abort e p err = do set_failed_infos p e.failed_at err; pure none

-- `cmd.Start` and the process id.
unfoldable pub start_cmd : Launching → ℕ → Cmd → Option Text → M (Option Cmd)
unfolding abort job_lock job_unlock modify
start_cmd e p cmd (some err) = abort e p err
start_cmd e p cmd none = do
  job_lock p
  modify p (λ j. record j { pid = e.pid })
  job_unlock p
  pure (some cmd)

unfoldable pub launch_streaming : Launching → ℕ → Cmd → Option Text → M (Option Cmd)
unfolding abort start_cmd modify
launch_streaming e p cmd (some err) = do modify p (λ j. record j { outpipe = false }); abort e p err
launch_streaming e p cmd none = do
  modify p (λ j. record j { outpipe = true })
  start_cmd e p (record cmd { stdout = pipe }) e.start_error

-- The reader that a streaming client gets also writes what it reads to the file.
unfoldable pub launch_teeing : Launching → ℕ → Cmd → Option Text → Option Text → M (Option Cmd)
unfolding abort start_cmd modify
launch_teeing e p cmd (some err) pipe_error = abort e p err
launch_teeing e p cmd none (some err) = abort e p err
launch_teeing e p cmd none none = do
  modify p (λ j. record j { outstream = true })
  start_cmd e p (record cmd { stdout = pipe }) e.start_error

unfoldable pub launch_dumping : Launching → ℕ → Cmd → Text → Option Text → M (Option Cmd)
unfolding abort start_cmd
launch_dumping e p cmd path (some err) = abort e p err
launch_dumping e p cmd path none = start_cmd e p (record cmd { stdout = file path }) e.start_error

-- The branches on the flags of the job: long, streaming, dumping to the file at `path`.
unfoldable pub launch_output : Bool → Bool → Bool → Launching → ℕ → Text → Cmd → M (Option Cmd)
unfolding launch_streaming launch_teeing launch_dumping start_cmd modify
launch_output islong stream dump e p path cmd =
    if islong
    then (if stream && not dump
        then launch_streaming e p cmd e.pipe_error
        else if stream && dump
        then (do
          modify p (λ j. record j { filename = path })
          launch_teeing e p cmd e.file_error e.pipe_error)
        else if not stream && dump
        then (do
          modify p (λ j. record j { filename = path })
          launch_dumping e p cmd path e.file_error)
        else start_cmd e p (record cmd { stdout = null_device }) e.start_error)
    else start_cmd e p (record cmd { stdout = result_buffer }) e.start_error

-- `executeJob` up to its `select`; `none` where the job could not be started.
unfoldable pub launch : Configuration → Calendar → Launching → ℕ → M (Option Cmd)
unfolding launch_output command_of dump_path load modify
launch c cal e p = do
  modify p (λ j. record j { starttime = e.now })
  j ← load p
  launch_output j.islong j.stream j.dump e p (dump_path c.jobs_outputs_folder cal j)
      (command_of c e.windows j)

-- The error of `cmd.Wait`, with the exit status if it is an `*exec.ExitError`.
pub record WaitError : Type 0 where
  pub message : Text
  pub exit_status : Option ℤ

-- The case that the `select` takes.
pub data Event : Type 0 where
  deadline_exceeded : Event
  canceled : Event
  stop_requested : Event
  done : Option WaitError → Event

-- `<-job.stop`.
unfoldable pub receive_stop : ℕ → M (Unit {0})
unfolding load store
receive_stop p = do
  j ← load p
  if ltb 0 j.stop then store p (record j { stop = j.stop - 1 }) else block

-- What the cases of the `select` leave in `err` and `stopped`.
unfoldable pub select_event : Event → ℕ → M (Option WaitError × Bool)
unfolding receive_stop
select_event deadline_exceeded p = pure (none, false)
select_event canceled p = pure (none, false)
select_event stop_requested p = do receive_stop p; pure (none, true)
select_event (done err) p = pure (err, false)

unfoldable pub set_exit_status : Option ℤ → ℕ → M (Unit {0})
unfolding modify
set_exit_status none p = pure tt
set_exit_status (some status) p = modify p (λ j. record j { exitcode = status })

-- What follows, for an error and for none.
unfoldable pub conclude : Option WaitError → Bool → ℕ → M (Unit {0})
unfolding set_exit_status job_lock job_unlock modify
conclude (some err) stopped p = do
  job_lock p
  modify p (λ j. record j { issuccess = false; errormsg = err.message })
  job_unlock p
  set_exit_status err.exit_status p
conclude none true p = do job_lock p; modify p (λ j. record j { issuccess = true }); job_unlock p
conclude none false p = do
  job_lock p
  modify p (λ j. record j { issuccess = true })
  job_unlock p
  job_lock p
  modify p (λ j. record j { exitcode = pos 0 })
  job_unlock p

-- `executeJob` from its `select` on.
unfoldable pub finish : Event → Time → ℕ → M (Unit {0})
unfolding select_event conclude job_lock job_unlock modify
finish event now p = do
  (err, stopped) ← select_event event p
  job_lock p
  modify p (λ j. record j { iscompleted = true; endtime = now })
  job_unlock p
  conclude err stopped p

-- What wakes `jobsMonitor`, and what it does then.
pub data Wake : Type 0 where
  job_ready exit : Wake

pub data Action : Type 0 where
  execute : ℕ → Action  -- go executeJob(job, ctx)
  cancel_all : Action

unfoldable pub receive_job : List ℕ → M Action
receive_job [] w = blocked w
receive_job (p ∷ ps) w = returned (execute p) (record w { queue = ps })

-- One round of `jobsMonitor`.
unfoldable pub jobs_monitor : Wake → M Action
unfolding receive_job
jobs_monitor job_ready w = receive_job w.queue w
jobs_monitor exit w = returned cancel_all w

-- `executeJob` as a whole, if that event ends the wait.
unfoldable pub execute_job : Configuration → Calendar → Launching → Event → Time → ℕ → M (Unit {0})
unfolding launch finish
execute_job c cal e event now p = do
  cmd ← launch c cal e p
  elim cmd [ none ↦ pure tt | some _ ↦ finish event now p ]
