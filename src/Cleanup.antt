-- ===== src/Cleanup.antt =====
-- `cleanupMapResults` (controllers.go): the rounds that remove old jobs from the table. A round
-- returns the backup files that it writes; a write that fails is only logged, and the round goes on.
pub mod Sweep
pub mod Rounds
use web_based_jobs_worker_se.Base.{
  ℕ, ◌-◌, ◌+◌, Bool, ◌&&◌, ◌||◌, List, [], ◌∷◌, ◌++◌, Option, none, some, Text, text_key, ℤ, pos,
  negsuc, sub_ℕ, ltb, leb, ltb_ℤ, int_scale, if◌then◌else◌,
}
use web_based_jobs_worker_se.GoMap.{keys, erase}
use web_based_jobs_worker_se.Models.{Time, Job}
use web_based_jobs_worker_se.Config.{Configuration}
use web_based_jobs_worker_se.Env.{Calendar}
use web_based_jobs_worker_se.Worker.{
  World, returned, M, pure, panic, ◌>>=◌, ◌>>◌, map_lock, map_unlock, load, find_job,
}
use web_based_jobs_worker_se.Executor.{dump_path}

-- `time.Since(t)`: a `time.Duration` stops at its limits.
unfoldable pub time_since : Time → Time → ℤ
time_since now t =
    if ltb 9223372036854775807 (now - t)
    then pos 9223372036854775807
    else if ltb 9223372036854775808 (t - now)
    then negsuc 9223372036854775807
    else sub_ℕ now t

-- The test of the round: the age limit counts minutes.
unfoldable pub is_expired : ℤ → ℤ → Time → Job → Bool
unfolding time_since
is_expired maxcount deadtime now j =
    j.iscompleted
    && (ltb_ℤ maxcount j.fetchcount
        || ltb_ℤ (int_scale deadtime 60000000000) (time_since now j.endtime))

-- The name and the content of a backup, where `os.WriteFile` can write the file, which `writes`
-- tells; a failure is only logged. `job.result.Bytes()` reads through a pointer.
unfoldable pub backup_result : (writes : Text → Bool) → Text → Option Text → M (List (Text × Text))
backup_result writes path none = panic
backup_result writes path (some buf) = pure (if writes path then (path, buf) ∷ [] else [])

unfoldable pub backup :
    Configuration → Calendar → (writes : Text → Bool) → Job → M (List (Text × Text))
unfolding backup_result dump_path
backup c cal writes j =
    if j.islong
    then pure []
    else backup_result writes (dump_path c.jobs_outputs_backups_folder cal j) j.result

-- `delete(globalJobsResults, id)`.
unfoldable pub delete_job : Text → M (Unit {0})
delete_job id w = returned tt (record w { results = erase id w.results })

-- The loop over the table, in the order in which it visits the ids.
unfoldable pub cleanup_loop :
    Configuration
    → Calendar
    → (writes : Text → Bool) → ℤ
    → ℤ
    → Time
    → List Text
    → M (List (Text × Text))
unfolding is_expired backup delete_job find_job load
cleanup_loop c cal writes maxcount deadtime now [] = pure []
cleanup_loop c cal writes maxcount deadtime now (id ∷ ids) = do
  found ← find_job id
  elim found [
    | none ↦ cleanup_loop c cal writes maxcount deadtime now ids
    | some p ↦ (do
      j ← load p
      if is_expired maxcount deadtime now j
          then (do
            saved ← backup c cal writes j
            delete_job id
            rest ← cleanup_loop c cal writes maxcount deadtime now ids
            pure (saved ++ rest))
          else cleanup_loop c cal writes maxcount deadtime now ids)
  ]

-- One round of `cleanupMapResults`, after its waiting time.
unfoldable pub cleanup_map_results :
    Configuration
    → Calendar
    → (writes : Text → Bool) → (List Text → List Text)
    → ℤ
    → ℤ
    → Time
    → M (List (Text × Text))
unfolding cleanup_loop map_lock map_unlock
cleanup_map_results c cal writes order maxcount deadtime now = do
  map_lock
  saved ← (λ w. cleanup_loop c cal writes maxcount deadtime now (order (keys w.results)) w)
  map_unlock
  pure saved
