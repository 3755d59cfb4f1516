-- ===== src/Control.antt =====
-- Stopping and restarting jobs: `stopJobsById`, `stopAllJobs`, `restartJobsById` and
-- `restartAllJobs` (handlers.web.go) with `resetCompletedJobInfos` (helpers.go).
pub mod Pointers
pub mod Stop
pub mod Reset
pub mod Restart
pub mod RestartAll
use web_based_jobs_worker_se.Base.{
  ℕ, zero, suc, ◌+◌, Bool, true, false, List, [], ◌∷◌, ◌++◌, Option, none, some, Text, text_key,
  pos, negsuc, if◌then◌else◌,
}
use web_based_jobs_worker_se.GoMap.{lookup, keys}
use web_based_jobs_worker_se.Models.{Job}
use web_based_jobs_worker_se.Config.{Configuration}
use web_based_jobs_worker_se.JobId.{remove_duplicate_job_ids}
use web_based_jobs_worker_se.Http.{
  Request, Response, Line, plain, stop_row, restart_row, page, text, query_values, plain_page,
}
use web_based_jobs_worker_se.Worker.{
  World, returned, M, pure, panic, ◌>>=◌, ◌>>◌, map_lock, map_unlock, map_rlock, map_runlock, load,
  job_lock, job_unlock, modify, find_job, enqueue, send_stop,
}
use web_based_jobs_worker_se.Schedule.{malformed}

-- The message for an id that the table does not have.
unfoldable pub unknown_id : Text → Line
unknown_id id =
    plain (
      text "[-] Job ID [" ++ (id ++ text "] does not exist - maybe wrong id or removed from store"))

-- The jobs that a `range` over the table visits, in the order of its ids.
unfoldable pub pointers : List Text → List (Text × ℕ) → List ℕ
pointers [] m = []
pointers (id ∷ ids) m =
    let rest = pointers ids m in elim (lookup id m) [ none ↦ rest | some p ↦ p ∷ rest ]

unfoldable pub range_results : (List Text → List Text) → M (List ℕ)
unfolding pointers
range_results order w = returned (pointers (order (keys w.results)) w.results) w

-- The four handlers on ids share their first steps: no id, or no valid id, is an error.
unfoldable pub with_valid_ids :
    Configuration
    → (List Text → List Text)
    → Request
    → List Text
    → (List Text → M Response)
    → M Response
with_valid_ids c order r [] k =
    pure (malformed c (text "[+] Sorry, the request submitted is malformed."))
with_valid_ids c order r (id ∷ ids) k =
    let (ignore, kept) = remove_duplicate_job_ids order (id ∷ ids) in
    if ignore
    then pure (
        plain_page 400 (
          text
            "[+] Hello • The request sent does not contain any valid job id remaining after verification."))
    else k kept

-- One round of the stop handlers on a job that was found: row `nb` of the table.
unfoldable pub stop_job : ℕ → ℕ → M Line
unfolding load send_stop
stop_job nb p = do
  j ← load p
  if j.iscompleted
      then pure (stop_row nb j.id (text "false") (text "false"))
      else (do send_stop p; pure (stop_row nb j.id (text "true") (text "true")))

-- The loop of `stopJobsById`: `i` counts the jobs found, `errs` collects the error messages.
unfoldable pub stop_loop : ℕ → List Line → List Line → List Text → M (List Line)
unfolding stop_job unknown_id find_job
stop_loop i lines errs [] = pure (lines ++ errs)
stop_loop i lines errs (id ∷ ids) = do
  found ← find_job id
  elim found [
    | none ↦ stop_loop i lines (errs ++ unknown_id id ∷ []) ids
    | some p ↦ (do row ← stop_job (i + 1) p; stop_loop (i + 1) (lines ++ row ∷ []) errs ids)
  ]

-- `stopJobsById`. The table stays locked for reading during the whole loop.
unfoldable pub stop_jobs_by_id : Configuration → (List Text → List Text) → Request → M Response
unfolding with_valid_ids stop_loop map_rlock map_runlock
stop_jobs_by_id c order r = with_valid_ids c order r (query_values (text "id") r.query) λ ids. do
  map_rlock
  lines ← stop_loop 0 [] [] ids
  map_runlock
  pure (record {
    code = 200;
    body = page (
        plain (
          text
            "[+] stopped jobs [non-existent or invalid ids will be ignored] - zoom in to fit the screen")
        ∷ lines);
  })

unfoldable pub stop_all_loop : ℕ → List Line → List ℕ → M (List Line)
unfolding stop_job
stop_all_loop i lines [] = pure lines
stop_all_loop i lines (p ∷ ps) = do
  row ← stop_job (i + 1) p
  stop_all_loop (i + 1) (lines ++ row ∷ []) ps

-- `stopAllJobs`.
unfoldable pub stop_all_jobs : (List Text → List Text) → M Response
unfolding range_results stop_all_loop map_rlock map_runlock
stop_all_jobs order = do
  map_rlock
  ps ← range_results order
  lines ← stop_all_loop 0 [] ps
  map_runlock
  pure (record {
    code = 200;
    body = page (
        plain (text "[+] result of stopping all running jobs - zoom in to fit the screen") ∷ lines);
  })

-- The assignments of `resetCompletedJobInfos` before the buffer.
unfoldable pub reset_fields : Job → Job
reset_fields j = record j {
  pid = 0;
  iscompleted = false;
  issuccess = false;
  fetchcount = pos 0;
  isstreaming = false;
  exitcode = negsuc 0;
  errormsg = [];
  starttime = 0;
  endtime = 0;
}

-- `(job.result).Reset()`: on a nil buffer the method reads a field through the nil pointer.
unfoldable pub reset_result : Option Text → ℕ → M (Unit {0})
unfolding modify
reset_result none p = panic
reset_result (some _) p = modify p (λ j. record j { result = some [] })

-- `resetCompletedJobInfos`.
unfoldable pub reset_completed_job_infos : ℕ → M (Unit {0})
unfolding reset_fields reset_result job_lock job_unlock load modify
reset_completed_job_infos p = do
  job_lock p
  modify p reset_fields
  j ← load p
  reset_result j.result p
  job_unlock p

-- One round of `restartJobsById` on a job that was found.
unfoldable pub restart_job : ℕ → ℕ → M Line
unfolding load send_stop reset_completed_job_infos map_lock map_unlock enqueue
restart_job nb p = do
  j ← load p
  if j.iscompleted
      then (do
        map_lock
        reset_completed_job_infos p
        map_unlock
        enqueue p
        pure (restart_row nb j.id (text "no") (text "n/a") (text "yes")))
      else (do send_stop p; pure (restart_row nb j.id (text "yes") (text "yes") (text "n/a")))

unfoldable pub restart_loop : ℕ → List Line → List Line → List Text → M (List Line)
unfolding restart_job unknown_id find_job map_rlock map_runlock
restart_loop i lines errs [] = pure (lines ++ errs)
restart_loop i lines errs (id ∷ ids) = do
  map_rlock
  found ← find_job id
  map_runlock
  elim found [
    | none ↦ restart_loop i lines (errs ++ unknown_id id ∷ []) ids
    | some p ↦ (do row ← restart_job (i + 1) p; restart_loop (i + 1) (lines ++ row ∷ []) errs ids)
  ]

-- `restartJobsById`.
unfoldable pub restart_jobs_by_id : Configuration → (List Text → List Text) → Request → M Response
unfolding with_valid_ids restart_loop
restart_jobs_by_id c order r = with_valid_ids c order r (query_values (text "id") r.query) λ ids. do
  lines ← restart_loop 0 [] [] ids
  pure (record {
    code = 200;
    body = page (
        plain (
          text
            "[+] restart summary - retry or check status for not restarted jobs. zoom in to fit the screen")
        ∷ lines);
  })

-- One round of `restartAllJobs`, with the table locked for writing: none for a long job.
unfoldable pub restart_short_job : ℕ → ℕ → M (Option Line)
unfolding load send_stop reset_completed_job_infos enqueue
restart_short_job nb p = do
  j ← load p
  if j.islong
      then pure none
      else (if j.iscompleted
          then (do
            reset_completed_job_infos p
            enqueue p
            pure (some (restart_row nb j.id (text "no") (text "n/a") (text "yes"))))
          else (do
            send_stop p
            pure (some (restart_row nb j.id (text "yes") (text "yes") (text "n/a")))))

unfoldable pub restart_all_loop : ℕ → List Line → List ℕ → M (List Line)
unfolding restart_short_job
restart_all_loop i lines [] = pure lines
restart_all_loop i lines (p ∷ ps) = do
  row ← restart_short_job (i + 1) p
  elim row [
    | none ↦ restart_all_loop i lines ps
    | some line ↦ restart_all_loop (i + 1) (lines ++ line ∷ []) ps
  ]

-- `restartAllJobs`.
unfoldable pub restart_all_jobs : (List Text → List Text) → M Response
unfolding range_results restart_all_loop map_lock map_unlock
restart_all_jobs order = do
  map_lock
  ps ← range_results order
  lines ← restart_all_loop 0 [] ps
  map_unlock
  pure (record {
    code = 200;
    body = page (
        plain (
          text
            "[+] restart summary - retry or check status for not restarted jobs. zoom in to fit the screen")
        ∷ lines);
  })
