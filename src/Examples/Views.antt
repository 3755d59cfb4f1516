-- ===== src/Examples/Views.antt =====
-- Status and output of jobs on a worker with one job.
use mathlib.Core.Path.{subst}
use web_based_jobs_worker_se.JobId.{remove_duplicate_job_ids}
use web_based_jobs_worker_se.JobId.Dedup.{remove_duplicate_job_ids-single}
use web_based_jobs_worker_se.Base.{
  arith, ℕ, ◌≡◌, inr, sym, refl, true, false, [], ◌∷◌, Option, none, Text, text_key, codes,
}
use web_based_jobs_worker_se.Models.{Job}
use web_based_jobs_worker_se.Config.{default_config}
use web_based_jobs_worker_se.Http.{jobs_status, get_from_request}
use web_based_jobs_worker_se.Worker.{returned}
use web_based_jobs_worker_se.Worker.Cells.{At}
use web_based_jobs_worker_se.Status.{format_size, location_of, api_check_jobs_status_by_id}
use web_based_jobs_worker_se.Status.Infos.{
  AllCanReport, reports, unknown_ids, api_check_jobs_status_lem,
}
use web_based_jobs_worker_se.Status.Size.{IsNear, format_size-IsNear}
use web_based_jobs_worker_se.Examples.Data.{
  calendar, job_id, running_job, completed_job, worker, table, id_request, job_id-match, lookup_one,
  same_order, same_order-IsRangeOrder, id_query,
}

abbrev no_files : Text → Option ℕ
no_files path = none

can_report : AllCanReport (worker completed_job)
can_report id p found = (
  completed_job,
  subst (At_one) (sym (lookup_one id p found).0) refl,
  (refl, inr (codes "out", refl)),
)
  where
    At_one : ℕ → Type 0
    At_one q = At (worker completed_job) q completed_job

format_size_example : IsNear 1536 (format_size 1536)
format_size_example = format_size-IsNear 1536 (omega arith)

abbrev dumped : Job
dumped = record running_job { stream = false; dump = true }

id_kept : remove_duplicate_job_ids same_order (job_id ∷ []) ≡ (false, job_id ∷ [])
id_kept = remove_duplicate_job_ids-single same_order same_order-IsRangeOrder job_id job_id-match

api_check_jobs_status_example :
    api_check_jobs_status_by_id default_config calendar no_files same_order id_request
      (worker completed_job)
    ≡ returned
        (record {
          code = 200;
          body = jobs_status (record {
            requestid = get_from_request none;
            infos =
                reports default_config calendar no_files
                  (location_of default_config calendar no_files id_request)
                  (completed_job ∷ [])
                  table
                  (job_id ∷ []);
            unknownids =
                unknown_ids default_config calendar no_files
                  (completed_job ∷ [])
                  table
                  (job_id ∷ []);
          });
        })
        (worker completed_job)
api_check_jobs_status_example =
    api_check_jobs_status_lem default_config calendar no_files same_order id_request job_id []
      (job_id ∷ []) (worker completed_job) refl id_query id_kept refl can_report
