-- ===== src/Schedule/Handlers.antt =====
-- The four scheduling handlers: what they answer and what they leave in the worker.
use web_based_jobs_worker_se.Base.{
  String, ℕ, ◌+◌, ◌≤◌, ◌<◌, ◌≡◌, refl, false, List, [], ◌∷◌, none, some, Text, ◌⊎◌, if◌then◌else◌,
  text_key, ◌==◌, text_eq_iff, length, map, Bool-cases, inl, inr,
}
use web_based_jobs_worker_se.Models.{unlocked, Job, ApiErrorMessage, JobScheduleModel}
use web_based_jobs_worker_se.Config.{Configuration}
use web_based_jobs_worker_se.Env.{Calendar, Ticket, time_location}
use web_based_jobs_worker_se.Strconv.{to_lower}
use web_based_jobs_worker_se.Http.{
  Request, Response, plain, api_error, jobs_scheduled, page, redirect, text, get_from_request,
  query_values, query_get, send_error_message,
}
use web_based_jobs_worker_se.Worker.{World, Outcome, returned}
use web_based_jobs_worker_se.Schedule.{
  api_schedule_jobs, stream_page_of, schedule_short_running_jobs, schedule_long_jobs_with_streaming,
  schedule_long_jobs_with_dumping, malformed,
}
use web_based_jobs_worker_se.Jobs.{
  infos_of, api_job, web_location, short_job, streaming_job, dumping_job,
}
use web_based_jobs_worker_se.Schedule.Submit.{
  register, register_all, jobs_of, rows_of, single_round, web_schedule_loop_lem,
  api_schedule_loop_lem,
}

module _ (c : Configuration) (cal : Calendar) (ticket : ℕ → Ticket) (r : Request) (w : World) where
  -- After a POST of at least one job, with the table unlocked and room in the queue, every job is
  -- registered and queued in the order of the request, and the answer lists the details of each in
  -- that order.
  pub api_schedule_jobs_lem :
      (m : JobScheduleModel) (ms : List JobScheduleModel)
      → r.method ≡ text "POST"
      → r.body ≡ some (m ∷ ms)
      → w.maplock ≡ unlocked
      → length w.queue + length (m ∷ ms) ≤ w.capacity
      → let js = jobs_of (λ t m. api_job c m t) ticket 0 (m ∷ ms) in
        let location =
          time_location cal c.default_jobs_infos_timezone (query_get (text "timezone") r.query) in
        api_schedule_jobs c cal ticket r w
        ≡ returned
            (record {
              code = 200;
              body = jobs_scheduled (record {
                requestid = get_from_request r.requestid;
                jobs = map (infos_of c cal location) js;
              });
            })
            (register_all js w)
  unfolding api_schedule_jobs
  api_schedule_jobs_lem m ms post body free room =
      let location =
        time_location cal c.default_jobs_infos_timezone (query_get (text "timezone") r.query) in
      rw (
        (text_eq_iff r.method (text "POST")).1 post,
        body,
        api_schedule_loop_lem c cal location ticket 0 [] (m ∷ ms) w free room,
      )

  -- A request to the API handler that is no POST, or whose body cannot be read or lists no job, is
  -- refused with code 405 or 400, and nothing changes.
  pub api_schedule_jobs_refuses :
      ((r.method ≡ text "POST") → (r.body ≡ none) ⊎ (r.body ≡ some []))
      → (resp : Response) × (e : ApiErrorMessage) × (api_schedule_jobs c cal ticket r w
          ≡ returned resp w)
        × (resp.body ≡ api_error e)
        × (e.status ≡ false)
        × (e.code ≡ resp.code)
        × (resp.code ≡ (if r.method == text "POST" then 400 else 405))
  unfolding api_schedule_jobs send_error_message
  api_schedule_jobs_refuses h = elim (Bool-cases (r.method == text "POST")) [
    | inl post ↦ elim (h ((text_eq_iff r.method (text "POST")).0 post)) [
      | inl none_sent ↦ rw (post, none_sent) (_, _, refl, refl, refl, refl, refl)
      | inr empty ↦ rw (post, empty) (_, _, refl, refl, refl, refl, refl)
    ]
    | inr other ↦ rw other (_, _, refl, refl, refl, refl, refl)
  ]

  abbrev Refuses : Outcome Response → Type 0
  Refuses o = (resp : Response) × (o ≡ returned resp w) × (resp.code ≡ 400)

  -- The page that lists jobs: a title, and a row for each.
  abbrev listing : String → List Job → Response
  listing title js = record {
    code = 200;
    body = page (plain (text title) ∷ rows_of cal (web_location c r.query cal) 0 js);
  }

  -- With at least one command, the table unlocked and room in the queue, the short and the dumping
  -- handler register and queue a job of their kind for each command of the request, in order, and
  -- list these jobs.
  pub web_schedule_lem :
      (cmd : Text) (cmds : List Text)
      → query_values (text "cmd") r.query ≡ cmd ∷ cmds
      → w.maplock ≡ unlocked
      → length w.queue + length (cmd ∷ cmds) ≤ w.capacity
      → let short = jobs_of (short_job c r.query) ticket 0 (cmd ∷ cmds) in
        let dumping = jobs_of (dumping_job c r.query) ticket 0 (cmd ∷ cmds) in
        (schedule_short_running_jobs c cal ticket r w
          ≡ returned
              (listing "[+] find below some details of the jobs submitted" short)
              (register_all short w))
        × (schedule_long_jobs_with_dumping c cal ticket r w
            ≡ returned
                (listing
                  "[+] find below the details of the long running jobs (with output dump-only option) submitted"
                  dumping)
                (register_all dumping w))
  unfolding schedule_short_running_jobs schedule_long_jobs_with_dumping
  web_schedule_lem cmd cmds q free room =
      let location = web_location c r.query cal in
      (
        rw (
          q,
          web_schedule_loop_lem (short_job c r.query) cal location ticket 0 _ (cmd ∷ cmds) w free
              room,
        ),
        rw (
          q,
          web_schedule_loop_lem (dumping_job c r.query) cal location ticket 0 _ (cmd ∷ cmds) w free
              room,
        ),
      )

  -- Two or more streaming commands are scheduled and listed in the same way, without dump.
  pub schedule_streaming_several :
      (cmd cmd' : Text) (cmds : List Text)
      → query_values (text "cmd") r.query ≡ cmd ∷ cmd' ∷ cmds
      → w.maplock ≡ unlocked
      → length w.queue + length (cmd ∷ cmd' ∷ cmds) ≤ w.capacity
      → let js = jobs_of (streaming_job c r.query false) ticket 0 (cmd ∷ cmd' ∷ cmds) in
        schedule_long_jobs_with_streaming c cal ticket r w
        ≡ returned
            (listing "[+] find below some details of the jobs submitted" js)
            (register_all js w)
  unfolding schedule_long_jobs_with_streaming
  schedule_streaming_several cmd cmd' cmds q free room = rw (
    q,
    web_schedule_loop_lem (streaming_job c r.query false) cal (web_location c r.query cal) ticket 0
        _ (cmd ∷ cmd' ∷ cmds) w free room,
  )

  -- With the table unlocked and room in the queue, the job of a single streaming command is
  -- registered and queued, with the dump option of the request, and the answer redirects to the
  -- streaming page of that very job.
  pub schedule_streaming_single :
      (cmd : Text)
      → query_values (text "cmd") r.query ≡ cmd ∷ []
      → w.maplock ≡ unlocked
      → length w.queue < w.capacity
      → let dump = to_lower (query_get (text "dump") r.query) == text "true" in
        let j = streaming_job c r.query dump (ticket 0) cmd in
        schedule_long_jobs_with_streaming c cal ticket r w
        ≡ returned
            (record { code = 301; body = redirect (stream_page_of c r.query r.host j.id) })
            (register j w)
  unfolding schedule_long_jobs_with_streaming
  schedule_streaming_single cmd q free room =
      let dump = to_lower (query_get (text "dump") r.query) == text "true" in
      let j = streaming_job c r.query dump (ticket 0) cmd in rw q (single_round j _ w free room)

  -- Without a command the three web handlers answer with code 400 and change nothing.
  pub web_schedule-Refuses :
      query_values (text "cmd") r.query ≡ []
      → (Refuses (schedule_short_running_jobs c cal ticket r w))
        × (Refuses (schedule_long_jobs_with_streaming c cal ticket r w))
        × (Refuses (schedule_long_jobs_with_dumping c cal ticket r w))
  unfolding schedule_short_running_jobs schedule_long_jobs_with_dumping
      schedule_long_jobs_with_streaming malformed
  web_schedule-Refuses q = (rw q (_, refl, refl), rw q (_, refl, refl), rw q (_, refl, refl))
