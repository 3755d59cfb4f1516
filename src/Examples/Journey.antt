-- ===== src/Examples/Journey.antt =====
-- A short job that is scheduled on a worker with another job, run, and fetched.
use web_based_jobs_worker_se.Base.{
  ℕ, ◌≡◌, refl, true, List, [], ◌∷◌, none, some, arith, text_key, text_eq, codes, pos, All,
}
use web_based_jobs_worker_se.GoMap.{lookup}
use web_based_jobs_worker_se.Models.{unlocked, Job}
use web_based_jobs_worker_se.Config.{default_config}
use web_based_jobs_worker_se.JobId.{generate_id}
use web_based_jobs_worker_se.JobId.Generate.{IsByte}
use web_based_jobs_worker_se.Http.{
  Request, Response, text, query_get, query_values, get_from_request, job_output,
}
use web_based_jobs_worker_se.Worker.{World, returned}
use web_based_jobs_worker_se.Worker.Cells.{At}
use web_based_jobs_worker_se.Jobs.{api_job}
use web_based_jobs_worker_se.Executor.{done}
use web_based_jobs_worker_se.Executor.Finish.{CanHappen}
use web_based_jobs_worker_se.Journey.{journey}
use web_based_jobs_worker_se.Journey.Fetched.{requested, journey_lem}
use web_based_jobs_worker_se.Examples.Data.{
  calendar, launching, tickets, task, post_request, id_request, completed_job, worker,
}

abbrev order : Request
order = record post_request { body = some (task ∷ []) }

abbrev fetch : Request
fetch = record id_request { query = (codes "id", codes "0000000000000000" ∷ []) ∷ [] }

abbrev bytes : List ℕ
bytes = 0 ∷ 0 ∷ 0 ∷ 0 ∷ 0 ∷ 0 ∷ 0 ∷ 0 ∷ []

small : All IsByte bytes
small = (
  omega arith,
  (
    omega arith,
    (omega arith, (omega arith, (omega arith, (omega arith, (omega arith, (omega arith, tt)))))),
  ),
)

asked : query_get (text "id") fetch.query ≡ (requested default_config task tickets).id
unfolding query_get query_values lookup text text_eq api_job generate_id
asked = refl

can_end : CanHappen (done none) (requested default_config task tickets)
unfolding CanHappen
can_end = tt

journey_example :
    (scheduled : Response) × (w' : World) × (k : Job) × (journey default_config calendar tickets
        launching
        (codes "file")
        (done none)
        3000
        order
        fetch
        (worker completed_job)
      ≡ returned
          (
            scheduled,
            record {
              code = 200;
              body =
                  job_output (record { requestid = get_from_request none; output = codes "file" });
            },
          )
          w')
    × (scheduled.code ≡ 200)
    × (w'.queue ≡ [])
    × (lookup (requested default_config task tickets).id w'.results ≡ some 1)
    × At w' 1 k
    × (k.iscompleted ≡ true)
    × (k.fetchcount ≡ pos 1)
    × (k.lock ≡ unlocked)
    × ((q : ℕ) (o : Job) → At (worker completed_job) q o → At w' q o)
journey_example =
    journey_lem default_config calendar tickets launching (codes "file") (done none) 3000 order
      fetch (worker completed_job) task bytes refl refl (omega arith) refl refl refl refl refl small
      refl can_end refl refl asked
