-- ===== src/Examples/Cleanup.antt =====
-- A round of the cleanup on a worker with one old job.
use web_based_jobs_worker_se.Base.{
  ℕ, ◌≡◌, inr, refl, true, List, [], ◌∷◌, none, Text, text_key, codes, pos, int_scale, All,
  if◌then◌else◌,
}
use web_based_jobs_worker_se.GoMap.{lookup}
use web_based_jobs_worker_se.Models.{unlocked}
use web_based_jobs_worker_se.Config.{default_config}
use web_based_jobs_worker_se.Worker.{World, returned}
use web_based_jobs_worker_se.Worker.Lookup.{job_of}
use web_based_jobs_worker_se.Executor.{dump_path}
use web_based_jobs_worker_se.Cleanup.{time_since, is_expired, cleanup_map_results}
use web_based_jobs_worker_se.Cleanup.Sweep.{IsStored, Has, removes}
use web_based_jobs_worker_se.Cleanup.Rounds.{cleanup_map_results_lem, cleanup_saves}
use web_based_jobs_worker_se.Examples.Data.{
  calendar, job_id, completed_job, worker, table, same_order, same_order-IsRangeOrder, job_id_found,
}

-- Ten fetches are allowed, and 24 minutes of age.
abbrev later : ℕ
later = 10000000000000

worker-IsStored : All (IsStored (worker completed_job).heap) table
worker-IsStored = ((completed_job, refl, inr (codes "out", refl)), tt)

cleanup_example :
    (saved : List (Text × Text)) × (w' : World) × (cleanup_map_results default_config calendar
        (λ _. true)
        same_order
        (pos 10)
        (pos 24)
        later
        (worker completed_job)
      ≡ returned saved w')
    × (w'.maplock ≡ unlocked)
    × (w'.heap ≡ completed_job ∷ [])
    × (w'.queue ≡ [])
    × ((id : Text)
        → lookup id w'.results ≡ (
            if removes (pos 10) (pos 24) later (job_of (completed_job ∷ []) table id)
            then none
            else lookup id table))
cleanup_example =
    cleanup_map_results_lem default_config calendar (λ _. true) (pos 10) (pos 24) later same_order
      (worker completed_job) same_order-IsRangeOrder refl worker-IsStored

old : is_expired (pos 10) (pos 24) later completed_job ≡ true
unfolding is_expired time_since int_scale
old = refl

cleanup_saves_example :
    (saved : List (Text × Text)) × (w' : World) × (cleanup_map_results default_config calendar
        (λ _. true)
        same_order
        (pos 10)
        (pos 24)
        later
        (worker completed_job)
      ≡ returned saved w')
    × (lookup job_id w'.results ≡ none)
    × Has
        (dump_path default_config.jobs_outputs_backups_folder calendar completed_job, codes "out")
        saved
cleanup_saves_example =
    cleanup_saves default_config calendar (λ _. true) (pos 10) (pos 24) later same_order
      (worker completed_job) job_id 0 completed_job (codes "out") same_order-IsRangeOrder refl
      worker-IsStored job_id_found refl old refl refl refl
