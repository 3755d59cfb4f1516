-- ===== src/Examples/Executor.antt =====
-- Runs of the short and of the long job.
use web_based_jobs_worker_se.Base.{◌≡◌, refl, true, none, some, arith, Text, codes, pos, negsuc}
use web_based_jobs_worker_se.Models.{unlocked, Job}
use web_based_jobs_worker_se.Config.{default_config}
use web_based_jobs_worker_se.Worker.{World, returned, put, ◌>>◌}
use web_based_jobs_worker_se.Worker.Cells.{At}
use web_based_jobs_worker_se.Control.{reset_completed_job_infos}
use web_based_jobs_worker_se.Control.Reset.{reset_of}
use web_based_jobs_worker_se.Executor.{
  Cmd, null_device, WaitError, canceled, deadline_exceeded, stop_requested, done, dump_path, launch,
  finish, execute_job,
}
use web_based_jobs_worker_se.Executor.Finish.{CanHappen, timed_out_reported_success}
use web_based_jobs_worker_se.Executor.Outputs.{sink_of, kind_of, error_of, opened, launched}
use web_based_jobs_worker_se.Executor.Launch.{command, launch_lem, launch_loses_stderr}
use web_based_jobs_worker_se.Executor.Execute.{
  executed, execute_job_completes, reset_after_run, stale_stop,
}
use web_based_jobs_worker_se.Examples.Data.{calendar, launching, waiting_job, running_job, worker}

abbrev exit_one : WaitError
exit_one = record { message = codes "exit status 1"; exit_status = some (pos 1) }

abbrev stoppable : Job
stoppable = record waiting_job { stop = 1 }

abbrev path : Text
path = codes "./outputs/20211019.00000000000000ab.txt"

timed_out_example :
    (finish deadline_exceeded 3000 0 (worker waiting_job)
      ≡ returned tt (
          put 0
            (record waiting_job {
              iscompleted = true;
              endtime = 3000;
              issuccess = true;
              exitcode = pos 0;
              lock = unlocked;
            })
            (worker waiting_job)))
    × (finish deadline_exceeded 3000 0 (worker waiting_job)
        ≡ finish (done none) 3000 0 (worker waiting_job))
    × (finish canceled 3000 0 (worker waiting_job) ≡ finish (done none) 3000 0 (worker waiting_job))
timed_out_example = timed_out_reported_success 3000 0 waiting_job (worker waiting_job) refl refl

abbrev dump_name : Job → Text
dump_name j = dump_path default_config.jobs_outputs_folder calendar j

launch_example :
    launch default_config calendar launching 0 (worker running_job)
    ≡ launched launching 0
        (command default_config calendar launching 0 running_job (worker running_job) refl refl)
        (error_of (kind_of running_job) launching)
        (opened (kind_of running_job) (dump_name running_job) launching running_job)
        (worker running_job)
launch_example =
    launch_lem default_config calendar launching 0 running_job (worker running_job) refl refl

starts : error_of (kind_of running_job) launching ≡ none
unfolding error_of kind_of
starts = refl

launch_loses_stderr_example :
    (cmd : Cmd) × (w' : World) × (launch default_config calendar launching 0 (worker running_job)
      ≡ returned (some cmd) w')
    × (cmd.stdout ≡ sink_of (kind_of running_job) (dump_name running_job))
    × (cmd.stderr ≡ null_device)
launch_loses_stderr_example =
    launch_loses_stderr default_config calendar launching 0 running_job (worker running_job) refl
      refl starts

execute_job_example :
    (execute_job default_config calendar launching (done none) 3000 0 (worker waiting_job)
      ≡ returned tt (
          put 0
            (executed (dump_name waiting_job) launching (done none) 3000 waiting_job)
            (worker waiting_job)))
    × ((executed (dump_name waiting_job) launching (done none) 3000 waiting_job).iscompleted ≡ true)
    × ((executed (dump_name waiting_job) launching (done none) 3000 waiting_job).lock ≡ unlocked)
unfolding CanHappen
execute_job_example =
    execute_job_completes default_config calendar launching (done none) 3000 0 waiting_job
      (worker waiting_job) refl refl tt

reset_after_run_example :
    (execute_job default_config calendar launching (done (some exit_one)) 3000 0
        >> reset_completed_job_infos 0)
      (worker waiting_job)
    ≡ returned tt (
        put 0
          (record (reset_of waiting_job) {
            stop =
                (executed
                  (dump_name waiting_job)
                  launching
                  (done (some exit_one))
                  3000
                  waiting_job).stop;
          })
          (worker waiting_job))
unfolding CanHappen
reset_after_run_example =
    reset_after_run default_config calendar 0 waiting_job (worker waiting_job) refl refl refl refl
      launching (done (some exit_one)) 3000 tt

stale_stop_example :
    (w' : World) × (k : Job) × ((execute_job default_config calendar launching (done none) 3000 0
          >> (reset_completed_job_infos 0
              >> execute_job default_config calendar launching stop_requested 4000 0))
        (worker stoppable)
      ≡ returned tt w')
    × (At w' 0 k)
    × (k.stop ≡ 0)
    × (k.iscompleted ≡ true)
    × (k.issuccess ≡ true)
    × (k.exitcode ≡ negsuc 0)
stale_stop_example =
    stale_stop default_config calendar 0 stoppable (worker stoppable) refl refl refl refl launching
      launching none 3000 4000 (omega arith) refl
