-- ===== src/Examples/Schedule.antt =====
-- Scheduling on an empty worker.
use web_based_jobs_worker_se.Base.{
  String, ◌≡◌, ◌⊎◌, ◌↔◌, inl, refl, true, false, List, [], ◌∷◌, none, some, arith, Text, text_key,
  text_eq, codes, pos, ◌≤ℤ◌, ◌<ℤ◌, All,
}
use web_based_jobs_worker_se.GoMap.{lookup, contains, IsNodup}
use web_based_jobs_worker_se.Models.{Job}
use web_based_jobs_worker_se.Config.{default_config}
use web_based_jobs_worker_se.JobId.{generate_id}
use web_based_jobs_worker_se.Strconv.{positive, atoi}
use web_based_jobs_worker_se.Http.{Request, Response, page, plain, text, query_values, query_get}
use web_based_jobs_worker_se.Worker.{World, returned}
use web_based_jobs_worker_se.Jobs.{
  api_timeout, api_job, web_timeout, web_location, short_job, dumping_job,
}
use web_based_jobs_worker_se.Schedule.{
  api_schedule_jobs, schedule_short_running_jobs, schedule_long_jobs_with_dumping,
}
use web_based_jobs_worker_se.Schedule.Limits.{IsWithinLimits, api_job_limits, short_timeouts_agree}
use web_based_jobs_worker_se.Schedule.Submit.{register_all, jobs_of, rows_of}
use web_based_jobs_worker_se.Schedule.Handlers.{web_schedule_lem}
use web_based_jobs_worker_se.Schedule.Registered.{
  IsScheduled, ids_of, api_schedule_jobs-IsScheduled,
}
use web_based_jobs_worker_se.Examples.Data.{
  calendar, tickets, task, post_request, id_request, empty_worker, default_config-HasSoundLimits,
}

abbrev scheduled : List Job
scheduled = jobs_of (λ t m. api_job default_config m t) tickets 0 (task ∷ task ∷ [])

distinct : IsNodup (ids_of scheduled)
unfolding ids_of contains api_job jobs_of generate_id text_eq
distinct = (refl, (refl, tt))

api_schedule_jobs_example :
    (resp : Response) × (w' : World) × (api_schedule_jobs default_config calendar tickets
        post_request empty_worker
      ≡ returned resp w')
    × (resp.code ≡ 200)
    × All (IsScheduled w') scheduled
api_schedule_jobs_example =
    api_schedule_jobs-IsScheduled default_config calendar tickets post_request empty_worker task
      (task ∷ []) refl refl refl (omega arith) distinct

not_post :
    (post : id_request.method ≡ text "POST")
    → (id_request.body ≡ none) ⊎ (id_request.body ≡ some [])
not_post post = inl refl

abbrev cmd_request : Request
cmd_request = record id_request { query = (codes "cmd", codes "ls" ∷ []) ∷ [] }

cmd_query : query_values (text "cmd") cmd_request.query ≡ codes "ls" ∷ []
unfolding query_values lookup text text_eq
cmd_query = refl

abbrev shorts : List Job
shorts = jobs_of (short_job default_config cmd_request.query) tickets 0 (codes "ls" ∷ [])

abbrev dumps : List Job
dumps = jobs_of (dumping_job default_config cmd_request.query) tickets 0 (codes "ls" ∷ [])

abbrev listing_of : String → List Job → Response
listing_of title js = record {
  code = 200;
  body = page (
      plain (text title)
      ∷ rows_of calendar (web_location default_config cmd_request.query calendar) 0 js);
}

web_schedule_example :
    (schedule_short_running_jobs default_config calendar tickets cmd_request empty_worker
      ≡ returned
          (listing_of "[+] find below some details of the jobs submitted" shorts)
          (register_all shorts empty_worker))
    × (schedule_long_jobs_with_dumping default_config calendar tickets cmd_request empty_worker
        ≡ returned
            (listing_of
              "[+] find below the details of the long running jobs (with output dump-only option) submitted"
              dumps)
            (register_all dumps empty_worker))
web_schedule_example =
    web_schedule_lem default_config calendar tickets cmd_request empty_worker (codes "ls") []
      cmd_query refl (omega arith)

api_job_limits_example :
    let j = api_job default_config task (tickets 0) in
    IsWithinLimits default_config j
    × (pos 0 <ℤ j.timeout)
    × (((j.islong ≡ true) × (j.timeout ≤ℤ default_config.long_job_timeout))
        ⊎ ((j.islong ≡ false)
            × ((j.timeout ≡ default_config.short_job_timeout)
                ⊎ (j.timeout <ℤ default_config.long_job_timeout))))
api_job_limits_example =
    api_job_limits default_config task (tickets 0) default_config-HasSoundLimits

abbrev timeout_query : List (Text × List Text)
timeout_query = (codes "timeout", codes "60" ∷ []) ∷ []

timeout_read : atoi (query_get (text "timeout") timeout_query) ≡ some (pos 60)
unfolding atoi positive query_get query_values lookup text text_eq
timeout_read = refl

short_timeouts_agree_example :
    (api_timeout default_config task ≡ web_timeout default_config timeout_query false) ↔ (
      (pos 60 ≡ default_config.short_job_timeout)
      ⊎ ((pos 60 <ℤ default_config.short_job_timeout) × (pos 60 <ℤ default_config.long_job_timeout)
          ⊎ (default_config.short_job_timeout <ℤ pos 60)
            × (default_config.long_job_timeout ≤ℤ pos 60)))
short_timeouts_agree_example =
    short_timeouts_agree default_config task timeout_query 59 refl refl timeout_read
