-- ===== src/Reachable/Fetching.antt =====
-- Fetching an output through the API keeps the agreement of table and heap.
use web_based_jobs_worker_se.Base.{
  ℕ, refl, not, Bool, true, false, Text, text_key, ◌==◌, if◌then◌else◌,
}
use web_based_jobs_worker_se.GoMap.{lookup}
use web_based_jobs_worker_se.JobId.{match_string}
use web_based_jobs_worker_se.Models.{Job}
use web_based_jobs_worker_se.Http.{Request, text, query_get}
use web_based_jobs_worker_se.Worker.{pure, modify, job_lock, map_rlock, map_runlock, find_job}
use web_based_jobs_worker_se.Worker.Kept.{
  Keeps, bind-Keeps, then-Keeps, if-Keeps, either-Keeps, load-Keeps, modify-Keeps, job_lock-Keeps,
  job_unlock-Keeps, map_rlock-Keeps, map_runlock-Keeps,
}
use web_based_jobs_worker_se.Output.{
  count_fetch, look_up, api_answer, api_fetch_job, api_fetch_jobs_output_by_id,
}

count_fetch-Keeps : (p : ℕ) → Keeps (count_fetch p)
unfolding count_fetch
count_fetch-Keeps p =
    bind-Keeps (job_lock p) _ (job_lock-Keeps p)
      (λ _. bind-Keeps (modify p _) _ (modify-Keeps p _ (λ j. refl)) (λ _. job_unlock-Keeps p))

pub find_job-Keeps : (id : Text) → Keeps (find_job id)
unfolding find_job
find_job-Keeps id w v = v

look_up-Keeps : (id : Text) → Keeps (look_up id)
unfolding look_up
look_up-Keeps id =
    then-Keeps map_rlock _ map_rlock-Keeps
      (λ w v. then-Keeps map_runlock (pure (lookup id w.results)) map_runlock-Keeps (λ w v. v) w v)

api_answer-Keeps : (long : Bool) (r : Request) (p : ℕ) (j : Job) → Keeps (api_answer long r p j)
unfolding api_answer
api_answer-Keeps true r p j w v = v
api_answer-Keeps false r p j w v =
    bind-Keeps (if r.client_reads then count_fetch p else pure tt) _
      (if-Keeps r.client_reads (count_fetch p) (pure tt) (count_fetch-Keeps p) (λ w v. v))
      (λ _ w v. v) w v

api_fetch_job-Keeps : (r : Request) (p : ℕ) → Keeps (api_fetch_job r p)
unfolding api_fetch_job
api_fetch_job-Keeps r p = load-Keeps p _ (λ j w v there. api_answer-Keeps j.islong r p j w v)

pub api_fetch-Keeps : (r : Request) → Keeps (api_fetch_jobs_output_by_id r)
unfolding api_fetch_jobs_output_by_id
api_fetch-Keeps r =
    let id = query_get (text "id") r.query in
    if-Keeps (not (r.method == text "GET")) (pure _) _ (λ w v. v)
      (if-Keeps (not (match_string id)) (pure _) _ (λ w v. v)
        (bind-Keeps (look_up id) _ (look_up-Keeps id) (λ found.
          either-Keeps found (pure _) (λ p. api_fetch_job r p) (λ w v. v) (api_fetch_job-Keeps r))))
