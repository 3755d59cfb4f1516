-- ===== src/Schedule.antt =====
-- Scheduling: `apiScheduleJobs` (handlers.api.go), `scheduleShortRunningJobs` (handlers.web.go),
-- `scheduleLongJobsWithStreaming` and `scheduleLongJobsWithDumping` (streaming.go), with
-- `formatScheduledInfosAsTableRow` (helpers.go).
pub mod Limits
pub mod Submit
pub mod Handlers
pub mod Registered
pub mod Held
use web_based_jobs_worker_se.Base.{
  ℕ, zero, suc, ◌+◌, Bool, true, false, not, ◌&&◌, ◌||◌, List, [], ◌∷◌, ◌++◌, Option, none, some,
  Text, text_key, ◌==◌, ℤ, pos, negsuc, ltb_ℤ, leb_ℤ, length, nat_beq, if◌then◌else◌,
}
use web_based_jobs_worker_se.Models.{unlocked, Job, JobScheduleModel, JobScheduledInfos}
use web_based_jobs_worker_se.Config.{Configuration}
use web_based_jobs_worker_se.Env.{Calendar, Ticket, time_location}
use web_based_jobs_worker_se.JobId.{generate_id}
use web_based_jobs_worker_se.Strconv.{atoi, to_lower}
use web_based_jobs_worker_se.Http.{
  Request, Response, ScheduledRow, plain, scheduled_row, Line, StreamPage, jobs_scheduled, page,
  redirect, text, get_from_request, query_values, query_get, truncate_syntax, send_error_message,
  plain_page,
}
use web_based_jobs_worker_se.Worker.{
  M, pure, ◌>>=◌, ◌>>◌, map_lock, map_unlock, load, new_job, job_rlock, job_runlock, put_job,
  enqueue,
}
use web_based_jobs_worker_se.Jobs.{
  scheduled_infos, api_job, web_location, short_job, streaming_job, dumping_job,
}

-- Registration in the table of results, then in the queue.
unfoldable pub submit : Text → ℕ → M (Unit {0})
submit id p = do map_lock; put_job id p; map_unlock; enqueue p

-- The loop of `apiScheduleJobs`; `i` counts its rounds, and `done` is `finalJobsInfos`.
unfoldable pub api_schedule_loop :
    Configuration
    → Calendar
    → Text
    → (ℕ → Ticket)
    → ℕ
    → List JobScheduledInfos
    → List JobScheduleModel
    → M (List JobScheduledInfos)
unfolding api_job scheduled_infos submit
api_schedule_loop c cal location ticket i done [] = pure done
api_schedule_loop c cal location ticket i done (m ∷ ms) = do
  p ← new_job (api_job c m (ticket i))
  info ← scheduled_infos c cal location p
  j ← load p
  submit j.id p
  api_schedule_loop c cal location ticket (i + 1) (done ++ info ∷ []) ms

-- The body of the request: absent, empty, or at least one job.
unfoldable pub api_schedule_body :
    Configuration → Calendar → (ℕ → Ticket) → Request → Option (List JobScheduleModel) → M Response
unfolding api_schedule_loop
api_schedule_body c cal ticket r none = pure (
    send_error_message (get_from_request r.requestid)
      (text
        "Failed to schedule job(s). Invalid request content format. Make sure to fill all required fields.")
      400)
api_schedule_body c cal ticket r (some []) = pure (
    send_error_message (get_from_request r.requestid)
      (text "Failed to schedule job(s). No jobs found in the resquest.") 400)
api_schedule_body c cal ticket r (some (m ∷ ms)) = do
  let location =
      time_location cal c.default_jobs_infos_timezone (query_get (text "timezone") r.query)
  infos ← api_schedule_loop c cal location ticket 0 [] (m ∷ ms)
  pure (record {
    code = 200;
    body = jobs_scheduled (record { requestid = get_from_request r.requestid; jobs = infos });
  })

-- `apiScheduleJobs`.
unfoldable pub api_schedule_jobs : Configuration → Calendar → (ℕ → Ticket) → Request → M Response
unfolding api_schedule_body
api_schedule_jobs c cal ticket r =
    if not (r.method == text "POST")
    then pure (
        send_error_message (get_from_request r.requestid)
          (text "Failed to schedule job(s). Invalid request method.") 405)
    else api_schedule_body c cal ticket r r.body

module _ (c : Configuration) (q : List (Text × List Text)) where
  -- The choices for the streaming page.
  unfoldable pub stream_page_of : Text → Text → StreamPage
  stream_page_of server id = record {
    server = server;
    id = id;
    fgcolor =
        (let fg = query_get (text "fg") q in
          if nat_beq (length fg) 0 then c.stream_page_default_foreground_color else fg);
    bgcolor =
        (let bg = query_get (text "bg") q in
          if nat_beq (length bg) 0 then c.stream_page_default_background_color else bg);
    bold = to_lower (query_get (text "bold") q) == text "true";
    size = elim (atoi (query_get (text "size") q)) [
      | none ↦ c.stream_page_default_font_size
      | some n ↦ if leb_ℤ (pos 16) n && leb_ℤ n (pos 24) then n else c.stream_page_default_font_size
    ];
  }

-- `formatScheduledInfosAsTableRow`.
unfoldable pub scheduled_row_of : Calendar → Text → ℕ → Job → ScheduledRow
scheduled_row_of cal location nb j = record {
  nb = nb;
  id = j.id;
  islong = j.islong;
  stream = j.stream;
  dump = j.dump;
  memlimit = j.memlimit;
  cpulimit = j.cpulimit;
  timeout = j.timeout;
  submitted = cal.format location j.submittime;
  syntax = truncate_syntax j.task 30;
}

-- The loop of the three web handlers: `make` builds the job, `i` counts the rounds, and `lines`
-- is what was written so far.
unfoldable pub web_schedule_loop :
    (Ticket → Text → Job)
    → Calendar
    → Text
    → (ℕ → Ticket)
    → ℕ
    → List Line
    → List Text
    → M (List Line)
unfolding submit scheduled_row_of
web_schedule_loop make cal location ticket i lines [] = pure lines
web_schedule_loop make cal location ticket i lines (cmd ∷ cmds) = do
  p ← new_job (make (ticket i) cmd)
  j ← load p
  submit j.id p
  j' ← load p
  web_schedule_loop make cal location ticket (i + 1)
      (lines ++ scheduled_row (scheduled_row_of cal location (i + 1) j') ∷ []) cmds

-- The answer to a request with no command.
unfoldable pub malformed : Configuration → Text → Response
malformed c why = plain_page 400 (
    why
    ++ (text " To view the documentation, go to https://"
        ++ (c.https_server_host
            ++ (text ":" ++ (c.https_server_port ++ text "/worker/web/v1/docs")))))

module _ (c : Configuration) (cal : Calendar) (ticket : ℕ → Ticket) (r : Request) where
  unfoldable pub schedule_short : List Text → M Response
  unfolding web_schedule_loop short_job
  schedule_short [] = pure (malformed c (text "[+] Sorry, the request submitted is malformed."))
  schedule_short (cmd ∷ cmds) = do
    lines ←
        web_schedule_loop (short_job c r.query) cal (web_location c r.query cal) ticket 0
          (plain (text "[+] find below some details of the jobs submitted") ∷ []) (cmd ∷ cmds)
    pure (record { code = 200; body = page lines })

  -- `scheduleShortRunningJobs`.
  unfoldable pub schedule_short_running_jobs : M Response
  unfolding schedule_short
  schedule_short_running_jobs = schedule_short (query_values (text "cmd") r.query)

  unfoldable pub schedule_streaming : List Text → M Response
  unfolding web_schedule_loop streaming_job submit
  schedule_streaming [] = pure (
      malformed c (
        text
          "Sorry, the request submitted is malformed/invalid. It does not contain any task to schedule."))
  schedule_streaming (cmd ∷ []) = do
    let dump = to_lower (query_get (text "dump") r.query) == text "true"
    p ← new_job (streaming_job c r.query dump (ticket 0) cmd)
    j ← load p
    submit j.id p
    pure (record { code = 301; body = redirect (stream_page_of c r.query r.host j.id) })
  schedule_streaming (cmd ∷ cmd' ∷ cmds) = do
    lines ←
        web_schedule_loop (streaming_job c r.query false) cal (web_location c r.query cal) ticket 0
          (plain (text "[+] find below some details of the jobs submitted") ∷ [])
          (cmd ∷ cmd' ∷ cmds)
    pure (record { code = 200; body = page lines })

  -- `scheduleLongJobsWithStreaming`: a single job may also be dumped, and redirects to its page.
  unfoldable pub schedule_long_jobs_with_streaming : M Response
  unfolding schedule_streaming
  schedule_long_jobs_with_streaming = schedule_streaming (query_values (text "cmd") r.query)

  unfoldable pub schedule_dumping : List Text → M Response
  unfolding web_schedule_loop dumping_job
  schedule_dumping [] = pure (malformed c (text "[+] Sorry, the request submitted is malformed."))
  schedule_dumping (cmd ∷ cmds) = do
    lines ←
        web_schedule_loop (dumping_job c r.query) cal (web_location c r.query cal) ticket 0
          (plain (
              text
                "[+] find below the details of the long running jobs (with output dump-only option) submitted")
            ∷ [])
          (cmd ∷ cmds)
    pure (record { code = 200; body = page lines })

  -- `scheduleLongJobsWithDumping`.
  unfoldable pub schedule_long_jobs_with_dumping : M Response
  unfolding schedule_dumping
  schedule_long_jobs_with_dumping = schedule_dumping (query_values (text "cmd") r.query)
