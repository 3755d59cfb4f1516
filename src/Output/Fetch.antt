-- ===== src/Output/Fetch.antt =====
-- What each way to fetch an output answers, and what it changes.
use web_based_jobs_worker_se.Base.{
  ℕ, ◌≡◌, refl, ap, sym, ◌∙◌, ◌⊎◌, inl, inr, true, false, not, [], Option, some, Text, text_key,
  text_eq_iff, Bool, Bool-cases, length, nat_beq, int_inc, if◌then◌else◌, none, ◌∷◌, ◌++◌,
}
use web_based_jobs_worker_se.GoMap.{lookup}
use web_based_jobs_worker_se.Models.{unlocked, Job}
use web_based_jobs_worker_se.Config.{Configuration}
use web_based_jobs_worker_se.Env.{Calendar}
use web_based_jobs_worker_se.JobId.{match_string}
use web_based_jobs_worker_se.Http.{
  Request, Response, page, plain, job_output, file, text, get_from_request, query_get,
  send_error_message,
}
use web_based_jobs_worker_se.Worker.{World, pure, returned, put, map_runlock}
use web_based_jobs_worker_se.Worker.Cells.{At, put-At, load_lem, map_rlock_lem}
use web_based_jobs_worker_se.Executor.{dump_path}
use web_based_jobs_worker_se.Executor.Finish.{locked_update_last}
use web_based_jobs_worker_se.Output.{
  buffer_string, count_fetch, look_up, api_answer, refusal, api_fetch_job,
  api_fetch_jobs_output_by_id, get_jobs_output_by_id, output_file_path, send_file, download_answer,
  download_job, download_jobs_output_by_id,
}

pub look_up_lem :
    (id : Text) (w : World) → w.maplock ≡ unlocked → look_up id w ≡ returned (lookup id w.results) w
unfolding look_up map_runlock
look_up_lem id w free =
    rw (map_rlock_lem w free)
      (ap (λ l. returned (lookup id w.results) (record w { maplock = l })) (sym free))

-- A job after one more fetch.
abbrev pub fetched : Job → Job
fetched j = record j { fetchcount = int_inc j.fetchcount; lock = unlocked }

count_fetch_lem :
    (p : ℕ) (j : Job) (w : World)
    → At w p j
    → j.lock ≡ unlocked
    → count_fetch p w ≡ returned tt (put p (fetched j) w)
unfolding count_fetch
count_fetch_lem p j w h free =
    locked_update_last p (λ k. record k { fetchcount = int_inc k.fetchcount }) j w h free refl

module _ (r : Request) (w : World) (id : Text) (p : ℕ) (j : Job)
    (query : query_get (text "id") r.query ≡ id) (valid : match_string id ≡ true)
    (free : w.maplock ≡ unlocked) (found : lookup id w.results ≡ some p) (at_p : At w p j) where
  api_fetch_found : r.method ≡ text "GET" → api_fetch_jobs_output_by_id r w ≡ api_fetch_job r p w
  unfolding api_fetch_jobs_output_by_id
  api_fetch_found get =
      rw ((text_eq_iff r.method (text "GET")).1 get, query, valid)
        (rw (look_up_lem id w free) (rw found refl))

  counted :
      r.client_reads ≡ true
      → j.lock ≡ unlocked
      → (if r.client_reads then count_fetch p else pure tt) w ≡ returned tt (put p (fetched j) w)
  counted reads idle =
      ap (λ b. (if b then count_fetch p else pure tt) w) reads ∙ count_fetch_lem p j w at_p idle

  answer_short :
      {buf : Text}
      → r.client_reads ≡ true
      → j.result ≡ some buf
      → j.lock ≡ unlocked
      → api_answer false r p j w
        ≡ returned
            (record {
              code = 200;
              body = job_output (record { requestid = get_from_request r.requestid; output = buf });
            })
            (put p (fetched j) w)
  unfolding api_answer buffer_string
  answer_short reads stored idle = rw (counted reads idle) (
      ap
        (λ result.
          returned
            (record {
              code = 200;
              body = job_output (record {
                requestid = get_from_request r.requestid;
                output = buffer_string result;
              });
            })
            (put p (fetched j) w))
        stored)

  api_fetch_job_short :
      {buf : Text}
      → r.client_reads ≡ true
      → j.islong ≡ false
      → j.result ≡ some buf
      → j.lock ≡ unlocked
      → api_fetch_job r p w
        ≡ returned
            (record {
              code = 200;
              body = job_output (record { requestid = get_from_request r.requestid; output = buf });
            })
            (put p (fetched j) w)
  unfolding api_fetch_job
  api_fetch_job_short reads plain_job stored idle =
      rw (load_lem p j w at_p)
        (ap (λ long. api_answer long r p j w) plain_job ∙ answer_short reads stored idle)

  -- On a GET request for the valid id of a short job with a buffer, with table and job unlocked and
  -- a client that takes the response, the API sends the content of the buffer, whether or not the
  -- job is completed, and counts the fetch; nothing else changes.
  pub api_fetch_short :
      {buf : Text}
      → r.method ≡ text "GET"
      → r.client_reads ≡ true
      → j.islong ≡ false
      → j.result ≡ some buf
      → j.lock ≡ unlocked
      → api_fetch_jobs_output_by_id r w
        ≡ returned
            (record {
              code = 200;
              body = job_output (record { requestid = get_from_request r.requestid; output = buf });
            })
            (put p (fetched j) w)
  api_fetch_short get reads plain_job stored idle =
      api_fetch_found get ∙ api_fetch_job_short reads plain_job stored idle

  refused :
      (streams dumps : Bool)
      → (message : Text) × (refusal r streams dumps
          ≡ send_error_message (get_from_request r.requestid) message 400)
  unfolding refusal
  refused true dumps = (
    text
        "Failed to fetch job output. This job is a long running job with streaming capability. You must stream the output over a websocket.",
    refl,
  )
  refused false true = (
    text
        "Failed to fetch job output. This job is a long running job with dump to file capability. You must download the output file.",
    refl,
  )
  refused false false = (
    text
        "Failed to fetch job output. This job was scheduled with not output saving option. There is no way to fetch its output.",
    refl,
  )

  path_of_dump :
      (c : Configuration) (cal : Calendar)
      → (j.filename ≡ []) ⊎ (j.filename ≡ dump_path c.jobs_outputs_folder cal j)
      → output_file_path c cal j ≡ dump_path c.jobs_outputs_folder cal j
  unfolding output_file_path
  path_of_dump c cal (inl unnamed) =
      ap
        (λ name.
          if not (nat_beq (length name) 0) then name else dump_path c.jobs_outputs_folder cal j)
        unnamed
  path_of_dump c cal (inr named) = elim (Bool-cases (not (nat_beq (length j.filename) 0))) [
    | inl given ↦
        ap (λ b. if b then j.filename else dump_path c.jobs_outputs_folder cal j) given ∙ named
    | inr unnamed ↦
        ap (λ b. if b then j.filename else dump_path c.jobs_outputs_folder cal j) unnamed
  ]

  -- The API refuses to send the output of a long job and changes nothing.
  pub api_fetch_long :
      r.method ≡ text "GET"
      → j.islong ≡ true
      → (message : Text) × (api_fetch_jobs_output_by_id r w
          ≡ returned (send_error_message (get_from_request r.requestid) message 400) w)
  unfolding api_fetch_job api_answer
  api_fetch_long get long =
      let (message, e) = refused j.stream j.dump in
      (
        message,
        api_fetch_found get
            ∙ rw (load_lem p j w at_p)
                (ap (λ b. api_answer b r p j w) long ∙ ap (λ answer. returned answer w) e),
      )

  answered_dump :
      (c : Configuration) (cal : Calendar) (is_dir : Text → Option Bool) (name : Text)
      {path path' : Text}
      → j.islong ≡ true
      → j.dump ≡ true
      → path ≡ path'
      → is_dir path' ≡ some false
      → j.lock ≡ unlocked
      → download_answer j.islong j.dump c is_dir name path p w
        ≡ returned (record { code = 200; body = file path' }) (put p (fetched j) w)
  unfolding download_answer send_file
  answered_dump c cal is_dir name {path} {path'} long dump same there idle =
      ap (λ b. download_answer b j.dump c is_dir name path p w) long
      ∙ (ap (λ b. download_answer true b c is_dir name path p w) dump
          ∙ (ap (λ path. send_file c (is_dir path) path p w) same
              ∙ (ap (λ kind. send_file c kind path' p w) there
                  ∙ rw (count_fetch_lem p j w at_p idle) refl)))

  -- A long job with the dump option, found under a valid id and with table and job unlocked, whose
  -- dump file is there, can be downloaded, and the fetch is counted: the file that is sent is the
  -- one that `executeJob` dumps to, whether the job has recorded that name or none.
  pub download_dump :
      (c : Configuration) (cal : Calendar) (is_dir : Text → Option Bool)
      → j.islong ≡ true
      → j.dump ≡ true
      → (j.filename ≡ []) ⊎ (j.filename ≡ dump_path c.jobs_outputs_folder cal j)
      → is_dir (dump_path c.jobs_outputs_folder cal j) ≡ some false
      → j.lock ≡ unlocked
      → download_jobs_output_by_id c cal is_dir r w
        ≡ returned
            (record { code = 200; body = file (dump_path c.jobs_outputs_folder cal j) })
            (put p (fetched j) w)
  unfolding download_jobs_output_by_id download_job
  download_dump c cal is_dir long dump name there idle =
      rw (query, valid)
        (rw (look_up_lem id w free) (
          rw found (
            rw (load_lem p j w at_p)
              (answered_dump c cal is_dir _ long dump (path_of_dump c cal name) there idle))))

  -- On a request for the valid id of a job without a buffer, as every long job, with table and job
  -- unlocked, the web page of an output counts the fetch and shows the text "<nil>" with code 200.
  pub web_output_of_long_job :
      j.result ≡ none
      → j.lock ≡ unlocked
      → get_jobs_output_by_id r w
        ≡ returned
            (record {
              code = 200;
              body = page (
                  plain (text "Hello • Find below the result of Job ID [" ++ (j.id ++ text "]"))
                  ∷ plain (text "<nil>")
                  ∷ []);
            })
            (put p (fetched j) w)
  unfolding get_jobs_output_by_id buffer_string
  web_output_of_long_job missing idle =
      rw (query, valid)
        (rw (look_up_lem id w free) (
          rw found (
            rw (count_fetch_lem p j w at_p idle) (
              rw (load_lem p (fetched j) (put p (fetched j) w) (put-At p (fetched j) w at_p))
                (ap (λ result. returned (shown result) (put p (fetched j) w)) missing)))))
    where
      shown : Option Text → Response
      shown result = record {
        code = 200;
        body = page (
            plain (text "Hello • Find below the result of Job ID [" ++ (j.id ++ text "]"))
            ∷ plain (buffer_string result)
            ∷ []);
      }
