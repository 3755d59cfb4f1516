-- ===== src/Examples/Stream.antt =====
-- Streaming sessions on the long job.
use web_based_jobs_worker_se.Base.{◌≡◌, refl, true, false, [], ◌∷◌, none, codes}
use web_based_jobs_worker_se.Models.{Job}
use web_based_jobs_worker_se.Worker.{returned, panicked}
use web_based_jobs_worker_se.Stream.{line, stream_found}
use web_based_jobs_worker_se.Stream.Sessions.{
  claimed, at_once, two_streams_at_once, stream_dumping_panics,
}
use web_based_jobs_worker_se.Examples.Data.{job_id, running_job, worker}

two_streams_example :
    at_once job_id 0 (worker running_job)
    ≡ returned (none, none) (worker (claimed (claimed running_job)))
two_streams_example =
    two_streams_at_once job_id 0 running_job (worker running_job) refl refl refl refl refl

abbrev dump_only : Job
dump_only = record running_job { stream = false; dump = true }

stream_dumping_example :
    stream_found (line (codes "out") true ∷ []) job_id 0 (worker dump_only)
    ≡ panicked (worker (record (claimed dump_only) { isstreaming = false }))
stream_dumping_example =
    stream_dumping_panics job_id 0 dump_only (worker dump_only) refl refl refl refl refl
      (line (codes "out") true ∷ []) refl refl

abbrev over : Job
over = record running_job { iscompleted = true; isstreaming = true }
