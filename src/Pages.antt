-- ===== src/Pages.antt =====
-- The status of jobs as web pages: `checkJobsStatusById` and `getAllJobsStatus` (handlers.web.go),
-- with `formatStatusAsTableRow` (helpers.go).
pub mod Order
use web_based_jobs_worker_se.Base.{
  ℕ, zero, suc, ◌+◌, ◌*◌, ◌/◌, ◌%◌, ◌^◌, ◌-◌, Bool, true, false, not, ◌&&◌, ◌||◌, List, [], ◌∷◌,
  ◌++◌, Option, none, some, Text, text_key, ◌==◌, length, ltb, leb, nat_beq, if◌then◌else◌, codes,
}
use web_based_jobs_worker_se.GoMap.{keys}
use web_based_jobs_worker_se.Models.{Time, Job, JobStatusInfos}
use web_based_jobs_worker_se.Config.{Configuration}
use web_based_jobs_worker_se.Env.{Calendar, time_location}
use web_based_jobs_worker_se.Strconv.{digits, itoa}
use web_based_jobs_worker_se.JobId.{remove_duplicate_job_ids}
use web_based_jobs_worker_se.Http.{
  Request, Response, Line, plain, status_row, jobs_status, page, text, get_from_request,
  query_values, query_get, truncate_syntax, send_error_message, plain_page,
}
use web_based_jobs_worker_se.Worker.{
  World, returned, M, pure, panic, ◌>>=◌, ◌>>◌, map_rlock, map_runlock, load, job_rlock,
  job_runlock, find_job,
}
use web_based_jobs_worker_se.Control.{unknown_id, range_results, with_valid_ids}
use web_based_jobs_worker_se.Status.{display_time, data_size, location_of}

module _ (c : Configuration) (cal : Calendar) (files : Text → Option ℕ) where
  -- `formatStatusAsTableRow`.
  unfoldable pub status_row_of : ℕ → Text → Text → Job → Line
  unfolding display_time truncate_syntax
  status_row_of nb location size j = status_row (record {
    nb = nb;
    id = j.id;
    pid = j.pid;
    islong = j.islong;
    stream = j.stream;
    dump = j.dump;
    iscompleted = j.iscompleted;
    issuccess = j.issuccess;
    exitcode = j.exitcode;
    datasize = size;
    fetchcount = j.fetchcount;
    memlimit = j.memlimit;
    cpulimit = j.cpulimit;
    timeout = j.timeout;
    submitted = cal.format location j.submittime;
    started = display_time cal location j.starttime;
    ended = display_time cal location j.endtime;
    syntax = truncate_syntax j.task 30;
  })

  -- The web pages read a job without its lock.
  unfoldable pub web_status_row : ℕ → Text → Job → M Line
  unfolding status_row_of data_size
  web_status_row nb location j = do
    size ← data_size files j
    pure (status_row_of nb location size j)

  -- The loop of `checkJobsStatusById`: `i` counts the jobs found.
  unfoldable pub web_status_loop : Text → ℕ → List Line → List Line → List Text → M (List Line)
  unfolding web_status_row find_job load unknown_id
  web_status_loop location i lines errs [] = pure (lines ++ errs)
  web_status_loop location i lines errs (id ∷ ids) = do
    found ← find_job id
    elim found [
      | none ↦ web_status_loop location i lines (errs ++ unknown_id id ∷ []) ids
      | some p ↦ (do
        j ← load p
        row ← web_status_row (i + 1) location j
        web_status_loop location (i + 1) (lines ++ row ∷ []) errs ids)
    ]

  -- `checkJobsStatusById`.
  unfoldable pub check_jobs_status_by_id : (List Text → List Text) → Request → M Response
  unfolding with_valid_ids web_status_loop map_rlock map_runlock location_of
  check_jobs_status_by_id order r =
      with_valid_ids c order r (query_values (text "id") r.query) λ ids. do
        map_rlock
        lines ← web_status_loop (location_of c cal files r) 0 [] [] ids
        map_runlock
        pure (record {
          code = 200;
          body = page (
              plain (
                text
                  "[+] status of the jobs [non-existent or invalid job ids will be ignored, <mem> is memory limit in megabytes] - zoom in/out to fit the screen")
              ∷ lines);
        })

-- The comparisons of `sort.Slice`: by submission, then start, then end.
unfoldable pub ascending : Job → Job → Bool
ascending a b =
    if not (nat_beq a.submittime b.submittime)
    then ltb a.submittime b.submittime
    else if not (nat_beq a.starttime b.starttime)
    then ltb a.starttime b.starttime
    else ltb a.endtime b.endtime

unfoldable pub descending : Job → Job → Bool
descending a b =
    if not (nat_beq a.submittime b.submittime)
    then ltb b.submittime a.submittime
    else if not (nat_beq a.starttime b.starttime)
    then ltb b.starttime a.starttime
    else ltb b.endtime a.endtime

-- `sort.Slice`, which may leave jobs that compare as equal in either order, by insertion.
unfoldable pub insert_sorted : (Job → Job → Bool) → Job → List Job → List Job
insert_sorted less j [] = j ∷ []
insert_sorted less j (k ∷ ks) =
    let rest = insert_sorted less j ks in if less k j then k ∷ rest else j ∷ k ∷ ks

unfoldable pub sort_jobs : (Job → Job → Bool) → List Job → List Job
unfolding insert_sorted
sort_jobs less [] = []
sort_jobs less (j ∷ js) = insert_sorted less j (sort_jobs less js)

-- `len(globalJobsResults)`.
unfoldable pub count_jobs : M ℕ
count_jobs w = returned (length w.results) w

unfoldable pub load_all : List ℕ → M (List Job)
unfolding load
load_all [] = pure []
load_all (p ∷ ps) = do j ← load p; js ← load_all ps; pure (j ∷ js)

module _ (c : Configuration) (cal : Calendar) (files : Text → Option ℕ) where
  unfoldable pub all_status_rows : Text → ℕ → List Line → List Job → M (List Line)
  unfolding web_status_row
  all_status_rows location i lines [] = pure lines
  all_status_rows location i lines (j ∷ js) = do
    row ← web_status_row c cal files (i + 1) location j
    all_status_rows location (i + 1) (lines ++ row ∷ []) js

  -- `getAllJobsStatus`.
  unfoldable pub get_all_jobs_status : (List Text → List Text) → Request → M Response
  unfolding all_status_rows count_jobs load_all range_results map_rlock map_runlock location_of
      ascending descending sort_jobs
  get_all_jobs_status order r = do
    map_rlock
    lg ← count_jobs
    map_runlock
    if nat_beq lg 0
        then pure (
            plain_page 200 (
              text
                "[+] There is currently no jobs submitted or available into the results queue to display."))
        else (do
          map_rlock
          ps ← range_results order
          map_runlock
          jobs ← load_all ps
          lines ← all_status_rows (location_of c cal files r) 0 [] (
              sort_jobs
                (if query_get (text "order") r.query == text "desc" then descending else ascending)
                jobs)
          pure (record {
            code = 200;
            body = page (
                plain (
                  text
                    "[+] status of all current jobs [job <done> with <exitcode> -1 means stopped, <mem> is memory limit in megabytes, <long> means long running job] - zoom in/out to fit the screen")
                ∷ lines);
          }))
