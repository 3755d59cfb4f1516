-- ===== src/Reachable/Scheduling.antt =====
-- Scheduling keeps the agreement of table and heap.
use web_based_jobs_worker_se.Base.{
  ℕ, ◌+◌, not, false, List, [], ◌∷◌, ◌++◌, Option, none, some, Text, text_key, ◌==◌,
}
use web_based_jobs_worker_se.Models.{RwMutex, Job, JobScheduleModel, JobScheduledInfos}
use web_based_jobs_worker_se.Config.{Configuration}
use web_based_jobs_worker_se.Env.{Calendar, Ticket}
use web_based_jobs_worker_se.Http.{
  Request, text, Line, plain, page, Response, scheduled_row, query_values, query_get,
}
use web_based_jobs_worker_se.Strconv.{to_lower}
use web_based_jobs_worker_se.Worker.{
  World, bind, ◌>>=◌, ◌>>◌, pure, block, put_job, map_lock, map_unlock, enqueue, set_maplock,
  lock_write, new_job, job_rlock, job_runlock,
}
use web_based_jobs_worker_se.Worker.Cells.{At}
use web_based_jobs_worker_se.Worker.Consistent.{IsConsistent}
use web_based_jobs_worker_se.Worker.Kept.{
  Agrees, Keeps, bind-Agrees, bind-Keeps, if-Keeps, load-Keeps, put_job-Agrees, map_unlock-Keeps,
  enqueue-Keeps, new_job-Keeps, job_rlock-Keeps, job_runlock-Keeps,
}
use web_based_jobs_worker_se.Jobs.{
  web_location, short_job, streaming_job, dumping_job, api_job, scheduled_infos,
}
use web_based_jobs_worker_se.Schedule.{
  web_schedule_loop, scheduled_row_of, schedule_short, schedule_streaming, schedule_dumping,
  schedule_short_running_jobs, schedule_long_jobs_with_streaming, schedule_long_jobs_with_dumping,
  submit, api_schedule_loop, api_schedule_body, api_schedule_jobs,
}

pub submit-Agrees :
    (p : ℕ) (j : Job) (w : World) → IsConsistent w → At w p j → Agrees (submit j.id p w)
unfolding submit map_lock
submit-Agrees p j w v there = locked (lock_write w.maplock)
  where
    locked :
        (l : Option RwMutex)
        → Agrees (bind (set_maplock l block w) (λ _. put_job j.id p >> (map_unlock >> enqueue p)))
    locked none = v
    locked (some l) =
        bind-Agrees (put_job j.id p (record w { maplock = l })) _
          (put_job-Agrees p j (record w { maplock = l }) v there)
          (λ _. bind-Keeps map_unlock _ map_unlock-Keeps (λ _. enqueue-Keeps p))

scheduled_infos-Keeps :
    (c : Configuration) (cal : Calendar) (location : Text) (p : ℕ)
    → Keeps (scheduled_infos c cal location p)
unfolding scheduled_infos
scheduled_infos-Keeps c cal location p = bind-Keeps (job_rlock p) _ (job_rlock-Keeps p) (λ _.
    load-Keeps p _
      (λ j w v there. bind-Agrees (job_runlock p w) _ (job_runlock-Keeps p w v) (λ _ w v. v)))

api_schedule_loop-Keeps :
    (c : Configuration) (cal : Calendar) (location : Text) (ticket : ℕ → Ticket) (i : ℕ)
    (done : List JobScheduledInfos) (ms : List JobScheduleModel)
    → Keeps (api_schedule_loop c cal location ticket i done ms)
unfolding api_schedule_loop
api_schedule_loop-Keeps c cal location ticket i done [] w v = v
api_schedule_loop-Keeps c cal location ticket i done (m ∷ ms) w v =
    bind-Keeps (new_job (api_job c m (ticket i))) _ (new_job-Keeps (api_job c m (ticket i)))
      (λ p.
        bind-Keeps (scheduled_infos c cal location p) _ (scheduled_infos-Keeps c cal location p)
          (λ info. load-Keeps p _ (λ j w v there.
            bind-Agrees (submit j.id p w) _ (submit-Agrees p j w v there)
              (λ _. api_schedule_loop-Keeps c cal location ticket (i + 1) (done ++ info ∷ []) ms))))
      w v

api_schedule_body-Keeps :
    (c : Configuration) (cal : Calendar) (ticket : ℕ → Ticket) (r : Request)
    (body : Option (List JobScheduleModel))
    → Keeps (api_schedule_body c cal ticket r body)
unfolding api_schedule_body
api_schedule_body-Keeps c cal ticket r none w v = v
api_schedule_body-Keeps c cal ticket r (some []) w v = v
api_schedule_body-Keeps c cal ticket r (some (m ∷ ms)) w v =
    bind-Keeps (api_schedule_loop c cal _ ticket 0 [] (m ∷ ms)) _
      (api_schedule_loop-Keeps c cal _ ticket 0 [] (m ∷ ms)) (λ infos w v. v) w v

pub api_schedule_jobs-Keeps :
    (c : Configuration) (cal : Calendar) (ticket : ℕ → Ticket) (r : Request)
    → Keeps (api_schedule_jobs c cal ticket r)
unfolding api_schedule_jobs
api_schedule_jobs-Keeps c cal ticket r =
    if-Keeps (not (r.method == text "POST")) (pure _) (api_schedule_body c cal ticket r r.body)
      (λ w v. v) (api_schedule_body-Keeps c cal ticket r r.body)

web_schedule_loop-Keeps :
    (make : Ticket → Text → Job) (cal : Calendar) (location : Text) (ticket : ℕ → Ticket) (i : ℕ)
    (lines : List Line) (cmds : List Text)
    → Keeps (web_schedule_loop make cal location ticket i lines cmds)
unfolding web_schedule_loop
web_schedule_loop-Keeps make cal location ticket i lines [] w v = v
web_schedule_loop-Keeps make cal location ticket i lines (cmd ∷ cmds) w v =
    bind-Keeps (new_job (make (ticket i) cmd)) _ (new_job-Keeps (make (ticket i) cmd))
      (λ p. load-Keeps p _ (λ j w v there.
        bind-Agrees (submit j.id p w) _ (submit-Agrees p j w v there) (λ _.
          load-Keeps p _ (λ j' w v there.
            web_schedule_loop-Keeps make cal location ticket (i + 1)
              (lines ++ scheduled_row (scheduled_row_of cal location (i + 1) j') ∷ []) cmds w v))))
      w v

-- Scheduling through the web.
module _ (c : Configuration) (cal : Calendar) (ticket : ℕ → Ticket) (r : Request) where
  -- The loop, and then the page.
  listed-Keeps :
      (make : Ticket → Text → Job) (lines : List Line) (cmds : List Text)
      → Keeps {A = Response} (
          web_schedule_loop make cal (web_location c r.query cal) ticket 0 lines cmds >>= λ lines.
          pure (record { code = 200; body = page lines }))
  listed-Keeps make lines cmds =
      bind-Keeps (web_schedule_loop make cal (web_location c r.query cal) ticket 0 lines cmds)
        (λ lines. pure (record { code = 200; body = page lines }))
        (web_schedule_loop-Keeps make cal (web_location c r.query cal) ticket 0 lines cmds)
        (λ lines w v. v)

  schedule_short-Keeps : (cmds : List Text) → Keeps (schedule_short c cal ticket r cmds)
  unfolding schedule_short
  schedule_short-Keeps [] w v = v
  schedule_short-Keeps (cmd ∷ cmds) w v =
      listed-Keeps (short_job c r.query)
        (plain (text "[+] find below some details of the jobs submitted") ∷ []) (cmd ∷ cmds) w v

  pub schedule_short_running_jobs-Keeps : Keeps (schedule_short_running_jobs c cal ticket r)
  unfolding schedule_short_running_jobs
  schedule_short_running_jobs-Keeps = schedule_short-Keeps (query_values (text "cmd") r.query)

  schedule_dumping-Keeps : (cmds : List Text) → Keeps (schedule_dumping c cal ticket r cmds)
  unfolding schedule_dumping
  schedule_dumping-Keeps [] w v = v
  schedule_dumping-Keeps (cmd ∷ cmds) w v =
      listed-Keeps (dumping_job c r.query)
        (plain (
            text
              "[+] find below the details of the long running jobs (with output dump-only option) submitted")
          ∷ [])
        (cmd ∷ cmds) w v

  pub schedule_long_jobs_with_dumping-Keeps : Keeps (schedule_long_jobs_with_dumping c cal ticket r)
  unfolding schedule_long_jobs_with_dumping
  schedule_long_jobs_with_dumping-Keeps = schedule_dumping-Keeps (query_values (text "cmd") r.query)

  schedule_streaming-Keeps : (cmds : List Text) → Keeps (schedule_streaming c cal ticket r cmds)
  unfolding schedule_streaming
  schedule_streaming-Keeps [] w v = v
  schedule_streaming-Keeps (cmd ∷ []) w v =
      let dump = to_lower (query_get (text "dump") r.query) == text "true" in
      bind-Keeps (new_job (streaming_job c r.query dump (ticket 0) cmd)) _
        (new_job-Keeps (streaming_job c r.query dump (ticket 0) cmd))
        (λ p. load-Keeps p _ (λ j w v there.
          bind-Agrees (submit j.id p w) _ (submit-Agrees p j w v there) (λ _ w v. v)))
        w v
  schedule_streaming-Keeps (cmd ∷ cmd' ∷ cmds) w v =
      listed-Keeps (streaming_job c r.query false)
        (plain (text "[+] find below some details of the jobs submitted") ∷ []) (cmd ∷ cmd' ∷ cmds)
        w v

  pub schedule_long_jobs_with_streaming-Keeps :
      Keeps (schedule_long_jobs_with_streaming c cal ticket r)
  unfolding schedule_long_jobs_with_streaming
  schedule_long_jobs_with_streaming-Keeps =
      schedule_streaming-Keeps (query_values (text "cmd") r.query)
