-- ===== src/Output.antt =====
-- Fetching the output of a job: `apiFetchJobsOutputById` (handlers.api.go), `getJobsOutputById` and
-- `downloadJobsOutputById` (handlers.web.go). Headers and log lines are left out.
pub mod Fetch
use web_based_jobs_worker_se.Base.{
  ℕ, zero, Bool, true, false, not, List, [], ◌∷◌, ◌++◌, Option, none, some, Text, text_key, ◌==◌,
  length, nat_beq, int_inc, if◌then◌else◌,
}
use web_based_jobs_worker_se.Models.{Job}
use web_based_jobs_worker_se.Config.{Configuration}
use web_based_jobs_worker_se.Env.{Calendar}
use web_based_jobs_worker_se.JobId.{match_string}
use web_based_jobs_worker_se.Http.{
  Request, Response, plain, job_output, page, file, text, get_from_request, query_get,
  send_error_message, plain_page,
}
use web_based_jobs_worker_se.Worker.{
  M, pure, ◌>>=◌, ◌>>◌, map_rlock, map_runlock, load, job_lock, job_unlock, modify, find_job,
}
use web_based_jobs_worker_se.Executor.{dump_path}

-- `String` of a buffer, which a nil pointer has too.
unfoldable pub buffer_string : Option Text → Text
buffer_string none = text "<nil>"
buffer_string (some buf) = buf

-- `job.fetchcount += 1` under the lock.
unfoldable pub count_fetch : ℕ → M (Unit {0})
unfolding job_lock job_unlock modify
count_fetch p = do
  job_lock p
  modify p (λ j. record j { fetchcount = int_inc j.fetchcount })
  job_unlock p

-- Finding a job: the table is locked for reading meanwhile.
unfoldable pub look_up : Text → M (Option ℕ)
unfolding map_rlock map_runlock find_job
look_up id = do map_rlock; found ← find_job id; map_runlock; pure found

-- What the API answers for a long job, by its flags: streaming, dumping.
unfoldable pub refusal : Request → Bool → Bool → Response
refusal r stream dump =
    let requestid = get_from_request r.requestid in
    if stream
    then send_error_message requestid
        (text
          "Failed to fetch job output. This job is a long running job with streaming capability. You must stream the output over a websocket.")
        400
    else if dump
    then send_error_message requestid
        (text
          "Failed to fetch job output. This job is a long running job with dump to file capability. You must download the output file.")
        400
    else send_error_message requestid
        (text
          "Failed to fetch job output. This job was scheduled with not output saving option. There is no way to fetch its output.")
        400

-- What it answers for a long job, and for a short one: the call is counted only if the response
-- could be written.
unfoldable pub api_answer : Bool → Request → ℕ → Job → M Response
unfolding refusal buffer_string count_fetch
api_answer true r p j = pure (refusal r j.stream j.dump)
api_answer false r p j = do
  (if r.client_reads then count_fetch p else pure tt)
  pure (record {
    code = 200;
    body =
        job_output
          (record { requestid = get_from_request r.requestid; output = buffer_string j.result });
  })

unfoldable pub api_fetch_job : Request → ℕ → M Response
unfolding api_answer load
api_fetch_job r p = do j ← load p; api_answer j.islong r p j

-- `apiFetchJobsOutputById`.
unfoldable pub api_fetch_jobs_output_by_id : Request → M Response
unfolding api_fetch_job look_up
api_fetch_jobs_output_by_id r =
    let requestid = get_from_request r.requestid in
    let id = query_get (text "id") r.query in
    if not (r.method == text "GET")
    then pure (
        send_error_message requestid (text "Failed to fetch job output. Invalid request method.")
          405)
    else if not (match_string id)
    then pure
        (send_error_message requestid (text "Failed to fetch job output. Invalid job id.") 400)
    else (do
      found ← look_up id
      elim found [
        | none ↦ pure (
            send_error_message requestid
              (text
                "Failed to fetch job output. Job id provided does not exits. Could have been removed or expired")
              404)
        | some p ↦ api_fetch_job r p
      ])

-- `getJobsOutputById`; an unknown job gets the status that is sent when none is set.
unfoldable pub get_jobs_output_by_id : Request → M Response
unfolding look_up count_fetch buffer_string load
get_jobs_output_by_id r =
    let id = query_get (text "id") r.query in
    if not (match_string id)
    then pure (plain_page 400 (text "Hello • The Job ID provided is invalid."))
    else (do
      found ← look_up id
      elim found [
        | none ↦ pure (
            plain_page 200 (
              text "[-] Job ID ["
              ++ (id ++ text "] does not exist - could have been removed or expired")))
        | some p ↦ (do
          count_fetch p
          j ← load p
          pure (record {
            code = 200;
            body = page (
                plain (text "Hello • Find below the result of Job ID [" ++ (j.id ++ text "]"))
                ∷ plain (buffer_string j.result)
                ∷ []);
          }))
      ])

-- The file of a job: where it was dumped, or where it would be.
unfoldable pub output_file_path : Configuration → Calendar → Job → Text
unfolding dump_path
output_file_path c cal j =
    if not (nat_beq (length j.filename) 0)
    then j.filename
    else dump_path c.jobs_outputs_folder cal j

-- `IsDir`: none for an error.
unfoldable pub send_file : Configuration → Option Bool → Text → ℕ → M Response
unfolding count_fetch
send_file c (some false) path p = do count_fetch p; pure (record { code = 200; body = file path })
send_file c _ path p = pure (
    plain_page 404 (
      text "Sorry, the output file of this job was not found. Check inside the <"
      ++ (c.jobs_outputs_folder ++ text "> folder on the server if it is present.")))

-- The branches on the flags of the job: long, dumping.
unfoldable pub download_answer :
    Bool → Bool → Configuration → (Text → Option Bool) → Text → Text → ℕ → M Response
unfolding send_file
download_answer false dump c is_dir id path p = pure (
    plain_page 400 (
      text "Sorry, this job ID ["
      ++ (id
          ++ text "] belongs to a short job. Fetch its output directly from its buffer memory.")))
download_answer true false c is_dir id path p = pure (
    plain_page 400 (
      text "Sorry, this job ID ["
      ++ (id ++ text "] belongs to a long job without dump option. There is no file to download.")))
download_answer true true c is_dir id path p = send_file c (is_dir path) path p

unfoldable pub download_job :
    Configuration → Calendar → (Text → Option Bool) → Text → ℕ → M Response
unfolding output_file_path download_answer load
download_job c cal is_dir id p = do
  j ← load p
  download_answer j.islong j.dump c is_dir id (output_file_path c cal j) p

-- `downloadJobsOutputById`.
unfoldable pub download_jobs_output_by_id :
    Configuration → Calendar → (Text → Option Bool) → Request → M Response
unfolding download_job look_up
download_jobs_output_by_id c cal is_dir r =
    let id = query_get (text "id") r.query in
    if not (match_string id)
    then pure (plain_page 400 (text "Sorry, the Job ID [" ++ (id ++ text "] provided is invalid.")))
    else (do
      found ← look_up id
      elim found [
        | none ↦ pure (
            plain_page 404 (
              text "Sorry, this job ID ["
              ++ (id
                  ++ text
                      "] does not exist. could have been removed or expired. check into archived outputs folder.")))
        | some p ↦ download_job c cal is_dir id p
      ])
