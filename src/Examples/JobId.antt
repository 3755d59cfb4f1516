-- ===== src/Examples/JobId.antt =====
-- Ids of requests and jobs.
use web_based_jobs_worker_se.Base.{
  ℕ, ◌≡◌, ◌↔◌, ◌⊎◌, true, false, ◌&&◌, List, [], ◌∷◌, arith, Text, text_key, codes, All,
}
use web_based_jobs_worker_se.GoMap.{contains, IsNodup}
use web_based_jobs_worker_se.JobId.{match_string, remove_duplicate_job_ids}
use web_based_jobs_worker_se.JobId.Dedup.{remove_duplicate_job_ids_lem}
use web_based_jobs_worker_se.JobId.Pattern.{HasIdRun, match_string-HasIdRun}
use web_based_jobs_worker_se.JobId.Generate.{IsByte}
use web_based_jobs_worker_se.Examples.Data.{job_id, same_order, same_order-IsRangeOrder}

abbrev bytes : List ℕ
bytes = 0 ∷ 1 ∷ 2 ∷ 3 ∷ 250 ∷ 251 ∷ 252 ∷ 255 ∷ []

bytes-IsByte : All IsByte bytes
bytes-IsByte = (
  omega arith,
  (
    omega arith,
    (omega arith, (omega arith, (omega arith, (omega arith, (omega arith, (omega arith, tt)))))),
  ),
)

remove_duplicate_example :
    let ids = job_id ∷ codes "short" ∷ job_id ∷ [] in
    let (ignore, kept) = remove_duplicate_job_ids same_order ids in
    ((ignore ≡ true) × ((j : Text) → (contains j ids && match_string j) ≡ false))
    ⊎ ((ignore ≡ false)
        × ¬ ((j : Text) → (contains j ids && match_string j) ≡ false)
        × IsNodup kept
        × ((j : Text) → contains j kept ≡ (contains j ids && match_string j)))
remove_duplicate_example =
    remove_duplicate_job_ids_lem same_order same_order-IsRangeOrder
      (job_id ∷ codes "short" ∷ job_id ∷ [])

match_string_example :
    (match_string (codes "--00000000000000ab--") ≡ true) ↔ HasIdRun (codes "--00000000000000ab--")
match_string_example = match_string-HasIdRun (codes "--00000000000000ab--")
