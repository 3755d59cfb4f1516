-- ===== src/Journey.antt =====
-- A short job on its way through the service: apiScheduleJobs (handlers.api.go) registers and
-- queues it, jobsMonitor takes it from the queue and executeJob (controllers.go) runs it, and
-- apiFetchJobsOutputById (handlers.api.go) sends its output.
pub mod Fetched
use web_based_jobs_worker_se.Base.{ℕ, ◌++◌, Option, none, some, Text}
use web_based_jobs_worker_se.Models.{Time, Job}
use web_based_jobs_worker_se.Config.{Configuration}
use web_based_jobs_worker_se.Env.{Calendar, Ticket}
use web_based_jobs_worker_se.Http.{Request, Response}
use web_based_jobs_worker_se.Worker.{M, pure, ◌>>=◌, ◌>>◌, modify}
use web_based_jobs_worker_se.Schedule.{api_schedule_jobs}
use web_based_jobs_worker_se.Executor.{
  Sink, result_buffer, null_device, pipe, file, Cmd, Launching, Event, Action, execute, cancel_all,
  job_ready, jobs_monitor, launch, finish,
}
use web_based_jobs_worker_se.Output.{api_fetch_jobs_output_by_id}

appended : Text → Option Text → Option Text
appended out none = none
appended out (some buf) = some (buf ++ out)

-- `cmd.Stdout = job.result`: what the process writes is appended to the buffer.
unfoldable pub write_result : Text → ℕ → M (Unit {0})
unfolding appended
write_result out p = modify p (λ j. record j { result = appended out j.result })

-- What the process writes to its standard output, by where that goes: only the buffer of the job is
-- part of the worker.
unfoldable pub write_output : Sink → Text → ℕ → M (Unit {0})
write_output result_buffer out p = write_result out p
write_output null_device out p = pure tt
write_output pipe out p = pure tt
write_output (file path) out p = pure tt

-- A process that runs writes its output before the event that ends the wait.
unfoldable pub run_process : Text → Event → Time → ℕ → Option Cmd → M (Unit {0})
run_process out event now p none = pure tt
run_process out event now p (some cmd) = do write_output cmd.stdout out p; finish event now p

-- The job that the monitor has taken from the queue.
unfoldable pub perform :
    Configuration → Calendar → Launching → Text → Event → Time → Action → M (Unit {0})
unfolding run_process
perform c cal e out event now cancel_all = pure tt
perform c cal e out event now (execute p) = do
  cmd ← launch c cal e p
  run_process out event now p cmd

-- The answers to the request that schedules the job and to the one that fetches its output.
unfoldable pub journey :
    Configuration
    → Calendar
    → (ℕ → Ticket)
    → Launching
    → Text
    → Event
    → Time
    → Request
    → Request
    → M (Response × Response)
unfolding perform
journey c cal ticket e out event now order fetch = do
  scheduled ← api_schedule_jobs c cal ticket order
  action ← jobs_monitor job_ready
  perform c cal e out event now action
  fetched ← api_fetch_jobs_output_by_id fetch
  pure (scheduled, fetched)
