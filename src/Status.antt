-- ===== src/Status.antt =====
-- The status of jobs for the API: `apiCheckJobsStatusById` and `apiCheckAllJobsStatus`
-- (handlers.api.go), with `collectStatusInfos` and `formatSize` (helpers.go).
pub mod Size
pub mod Infos
use web_based_jobs_worker_se.Base.{
  ℕ, zero, suc, ◌+◌, ◌*◌, ◌/◌, ◌%◌, ◌^◌, ◌-◌, Bool, true, false, not, ◌&&◌, ◌||◌, List, [], ◌∷◌,
  ◌++◌, Option, none, some, Text, text_key, ◌==◌, length, ltb, leb, nat_beq, if◌then◌else◌, codes,
}
use web_based_jobs_worker_se.GoMap.{keys}
use web_based_jobs_worker_se.Models.{Time, Job, JobStatusInfos}
use web_based_jobs_worker_se.Config.{Configuration}
use web_based_jobs_worker_se.Env.{Calendar, time_location}
use web_based_jobs_worker_se.Strconv.{digits, itoa}
use web_based_jobs_worker_se.JobId.{remove_duplicate_job_ids}
use web_based_jobs_worker_se.Http.{
  Request, Response, Line, plain, status_row, jobs_status, page, text, get_from_request,
  query_values, query_get, truncate_syntax, send_error_message, plain_page,
}
use web_based_jobs_worker_se.Worker.{
  World, returned, M, pure, panic, ◌>>=◌, ◌>>◌, map_rlock, map_runlock, load, job_rlock,
  job_runlock, find_job,
}
use web_based_jobs_worker_se.Jobs.{output_link}
use web_based_jobs_worker_se.Schedule.{malformed}
use web_based_jobs_worker_se.Control.{unknown_id, range_results, with_valid_ids}

-- The nearest integer to a / b, the even one of two that are equally near.
unfoldable pub round_half_even : ℕ → ℕ → ℕ
round_half_even a b =
    let q = a / b in
    let twice = 2 * (a % b) in if ltb twice b then q else if ltb b twice then q + 1 else q + q % 2

-- The last `k` decimal digits of a number, with leading zeros.
unfoldable pub last_digits : ℕ → ℕ → Text
last_digits zero n = []
last_digits (suc k) n = last_digits k (n / 10) ++ (b'0' + n % 10) ∷ []

-- A number with `k` of its digits behind the point.
unfoldable pub decimal : ℕ → ℕ → Text
unfolding last_digits
decimal zero q = itoa q
decimal (suc k) q = itoa (q / 10 ^ suc k) ++ b'.' ∷ last_digits (suc k) q

-- "%.<k>f" of a / b: fmt rounds the exact value of the float.
unfoldable pub fixed : ℕ → ℕ → ℕ → Text
unfolding round_half_even decimal
fixed k a b = decimal k (round_half_even (a * 10 ^ k) b)

-- `float64(n)`: the nearest multiple of the unit that leaves 53 bits, at most 2 ^ 11 for 64 bits.
unfoldable pub float_from : ℕ → ℕ → ℕ → ℕ
unfolding round_half_even
float_from zero unit n = round_half_even n unit * unit
float_from (suc fuel) unit n =
    let rest = float_from fuel (2 * unit) n in
    if ltb n (2 ^ 53 * unit) then round_half_even n unit * unit else rest

unfoldable pub float64 : ℕ → ℕ
unfolding float_from
float64 n = float_from 11 1 n

-- `formatSize` of a float that is an integer; its quotient by 1024 is exact.
unfoldable pub format_float : ℕ → Text
unfolding fixed
format_float n =
    if ltb n 10240
    then fixed 4 n 1024
    else if ltb n 102400
    then fixed 3 n 1024
    else if ltb n 1024000
    then fixed 2 n 1024
    else if ltb n 10240000
    then fixed 1 n 1024
    else fixed 0 n 1024

-- `formatSize(float64(n))`.
unfoldable pub format_size : ℕ → Text
unfolding format_float float64
format_size n = format_float (float64 n)

unfoldable pub display_time : Calendar → Text → Time → Text
display_time cal location t = if nat_beq t 0 then text "N/A" else cal.format location t

-- `os.Stat` of a file: its size, if there is no error.
unfoldable pub file_size : Option ℕ → Text
unfolding format_size
file_size none = text "N/A"
file_size (some n) = format_size n

-- `job.result.Len()` reads through a pointer.
unfoldable pub buffer_size : Option Text → M Text
unfolding format_size
buffer_size none = panic
buffer_size (some buf) = pure (format_size (length buf))

unfoldable pub data_size : (Text → Option ℕ) → Job → M Text
unfolding buffer_size file_size
data_size files j =
    if not j.islong
    then buffer_size j.result
    else if j.islong && j.dump
    then pure (file_size (files j.filename))
    else pure (text "N/A")

module _ (c : Configuration) (cal : Calendar) (files : Text → Option ℕ) where
  unfoldable pub status_of : Text → Text → Job → JobStatusInfos
  unfolding display_time output_link
  status_of location size j = record {
    id = j.id;
    pid = j.pid;
    task = j.task;
    islong = j.islong;
    iscompleted = j.iscompleted;
    issuccess = j.issuccess;
    exitcode = j.exitcode;
    datasize = size;
    fetchcount = j.fetchcount;
    memlimit = j.memlimit;
    cpulimit = j.cpulimit;
    timeout = j.timeout;
    stream = j.stream;
    dump = j.dump;
    submittime = cal.format location j.submittime;
    starttime = display_time cal location j.starttime;
    endtime = display_time cal location j.endtime;
    outputlink = output_link c j;
  }

  -- `collectStatusInfos`.
  unfoldable pub collect_status_infos : Text → ℕ → M JobStatusInfos
  unfolding status_of data_size job_rlock job_runlock load
  collect_status_infos location p = do
    job_rlock p
    j ← load p
    size ← data_size files j
    job_runlock p
    pure (status_of location size j)

  -- The loop of `apiCheckJobsStatusById`.
  unfoldable pub api_status_loop :
      Text → List JobStatusInfos → List Text → List Text → M (List JobStatusInfos × List Text)
  unfolding collect_status_infos find_job
  api_status_loop location infos unknown [] = pure (infos, unknown)
  api_status_loop location infos unknown (id ∷ ids) = do
    found ← find_job id
    elim found [
      | none ↦ api_status_loop location infos (unknown ++ id ∷ []) ids
      | some p ↦ (do
        info ← collect_status_infos location p
        api_status_loop location (infos ++ info ∷ []) unknown ids)
    ]

  unfoldable pub location_of : Request → Text
  location_of r =
      time_location cal c.default_jobs_infos_timezone (query_get (text "timezone") r.query)

  unfoldable pub api_status_body : Request → List Text → M Response
  unfolding api_status_loop map_rlock map_runlock location_of
  api_status_body r ids = do
    map_rlock
    (infos, unknown) ← api_status_loop (location_of r) [] [] ids
    map_runlock
    pure (record {
      code = 200;
      body = jobs_status (record {
        requestid = get_from_request r.requestid;
        infos = infos;
        unknownids = unknown;
      });
    })

  unfoldable pub api_status_ids : (List Text → List Text) → Request → List Text → M Response
  unfolding api_status_body
  api_status_ids order r [] = pure (
      send_error_message (get_from_request r.requestid)
        (text "Failed to check job(s) status. Invalid request format or no jobs ids submitted.")
        400)
  api_status_ids order r (id ∷ ids) =
      let (ignore, kept) = remove_duplicate_job_ids order (id ∷ ids) in
      if ignore
      then pure (
          send_error_message (get_from_request r.requestid)
            (text
              "Failed to check job(s) status. The request sent does not contain any valid job id after verification.")
            400)
      else api_status_body r kept

  -- `apiCheckJobsStatusById`.
  unfoldable pub api_check_jobs_status_by_id : (List Text → List Text) → Request → M Response
  unfolding api_status_ids
  api_check_jobs_status_by_id order r =
      if not (r.method == text "GET")
      then pure (
          send_error_message (get_from_request r.requestid)
            (text "Failed to check job(s) status. Invalid request method.") 405)
      else api_status_ids order r (query_values (text "id") r.query)

  unfoldable pub api_all_loop : Text → List JobStatusInfos → List ℕ → M (List JobStatusInfos)
  unfolding collect_status_infos
  api_all_loop location infos [] = pure infos
  api_all_loop location infos (p ∷ ps) = do
    info ← collect_status_infos location p
    api_all_loop location (infos ++ info ∷ []) ps

  -- `apiCheckAllJobsStatus`; a missing list of unknown ids is an empty one here.
  unfoldable pub api_check_all_jobs_status : (List Text → List Text) → Request → M Response
  unfolding api_all_loop range_results map_rlock map_runlock location_of
  api_check_all_jobs_status order r =
      if not (r.method == text "GET")
      then pure (
          send_error_message (get_from_request r.requestid)
            (text "Failed to check job(s) status. Invalid request method.") 405)
      else (do
        map_rlock
        ps ← range_results order
        infos ← api_all_loop (location_of r) [] ps
        map_runlock
        pure (record {
          code = 200;
          body =
              jobs_status (record {
                requestid = get_from_request r.requestid;
                infos = infos;
                unknownids = [];
              });
        }))
