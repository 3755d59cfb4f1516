-- ===== src/Worker/Lookup.antt =====
-- The job that the table and the heap together give for an id.
use web_based_jobs_worker_se.Base.{
  ℕ, ◌≡◌, ap, ◌∙◌, List, Option, none, some, Text, text_key, get_elem?,
}
use web_based_jobs_worker_se.GoMap.{lookup}
use web_based_jobs_worker_se.Models.{Job}

unfoldable pub job_of : List Job → List (Text × ℕ) → Text → Option Job
job_of heap m id = elim (lookup id m) [ none ↦ none | some p ↦ get_elem? heap p ]

module _ (heap : List Job) (m : List (Text × ℕ)) (id : Text) where
  pub job_of_missing : lookup id m ≡ none → job_of heap m id ≡ none
  unfolding job_of
  job_of_missing missing = ap (λ o. elim o [ none ↦ none | some p ↦ get_elem? heap p ]) missing

  pub job_of_found :
      {p : ℕ} {j : Job}
      → lookup id m ≡ some p
      → get_elem? heap p ≡ some j
      → job_of heap m id ≡ some j
  unfolding job_of
  job_of_found found at_p =
      ap (λ o. elim o [ none ↦ none | some p ↦ get_elem? heap p ]) found ∙ at_p
