-- ===== src/Schedule/Held.antt =====
-- Scheduling while somebody holds the table of results.
use web_based_jobs_worker_se.Base.{
  ℕ, ◌≡◌, refl, List, [], ◌∷◌, ◌++◌, none, some, ◌==◌, false, Text, text_key, text_eq_iff, length,
}
use web_based_jobs_worker_se.Models.{Job, JobScheduleModel}
use web_based_jobs_worker_se.Config.{Configuration}
use web_based_jobs_worker_se.Env.{Calendar, Ticket}
use web_based_jobs_worker_se.Http.{Request, Line, text, query_get, query_values}
use web_based_jobs_worker_se.Worker.{World, Outcome, blocked, lock_write, map_lock, new_job}
use web_based_jobs_worker_se.Strconv.{to_lower}
use web_based_jobs_worker_se.Jobs.{api_job, short_job, streaming_job, dumping_job}
use web_based_jobs_worker_se.Schedule.{
  submit, api_schedule_loop, api_schedule_jobs, web_schedule_loop, schedule_short_running_jobs,
  schedule_streaming, schedule_long_jobs_with_streaming, schedule_long_jobs_with_dumping,
}
use web_based_jobs_worker_se.Schedule.Submit.{load_new, scheduled_infos_lem, api_job_unlocked}

-- It waits and does not return.
abbrev pub Waits : {A : Type 0} → Outcome A → Type 0
Waits x = (w : World) × (x ≡ blocked w)

submit_held :
    (id : Text) (p : ℕ) (w : World) → lock_write w.maplock ≡ none → submit id p w ≡ blocked w
unfolding submit map_lock
submit_held id p w held = rw held refl

-- The worker with a job that is in no table.
abbrev with_job : Job → World → World
with_job j w = record w { heap = w.heap ++ j ∷ [] }

web_schedule_loop_held :
    (make : Ticket → Text → Job) (cal : Calendar) (location : Text) (ticket : ℕ → Ticket)
    (lines : List Line) (cmd : Text) (cmds : List Text) (w : World)
    → lock_write w.maplock ≡ none
    → web_schedule_loop make cal location ticket 0 lines (cmd ∷ cmds) w
      ≡ blocked (with_job (make (ticket 0) cmd) w)
unfolding web_schedule_loop new_job
web_schedule_loop_held make cal location ticket lines cmd cmds w held =
    let j = make (ticket 0) cmd in
    rw (load_new j w (with_job j w) refl)
      (rw (submit_held j.id (length w.heap) (with_job j w) held) refl)

api_schedule_loop_held :
    (c : Configuration) (cal : Calendar) (location : Text) (ticket : ℕ → Ticket)
    (m : JobScheduleModel) (ms : List JobScheduleModel) (w : World)
    → lock_write w.maplock ≡ none
    → api_schedule_loop c cal location ticket 0 [] (m ∷ ms) w
      ≡ blocked (with_job (api_job c m (ticket 0)) w)
unfolding api_schedule_loop new_job
api_schedule_loop_held c cal location ticket m ms w held =
    let j = api_job c m (ticket 0) in
    rw (scheduled_infos_lem c cal location j w (api_job_unlocked c m (ticket 0))) (
      rw (load_new j w (with_job j w) refl)
        (rw (submit_held j.id (length w.heap) (with_job j w) held) refl))

module _ (c : Configuration) (cal : Calendar) (ticket : ℕ → Ticket) (r : Request) (w : World) where
  pub api_schedule_jobs-Waits :
      (m : JobScheduleModel) (ms : List JobScheduleModel)
      → lock_write w.maplock ≡ none
      → r.method ≡ text "POST"
      → r.body ≡ some (m ∷ ms)
      → Waits (api_schedule_jobs c cal ticket r w)
  unfolding api_schedule_jobs
  api_schedule_jobs-Waits m ms held post body = (
    with_job (api_job c m (ticket 0)) w,
    rw
        (
          (text_eq_iff r.method (text "POST")).1 post,
          body,
          api_schedule_loop_held c cal _ ticket m ms w held,
        )
        refl,
  )

  module _ (cmd : Text) (cmds : List Text) (held : lock_write w.maplock ≡ none)
      (given : query_values (text "cmd") r.query ≡ cmd ∷ cmds) where
    pub schedule_short-Waits : Waits (schedule_short_running_jobs c cal ticket r w)
    unfolding schedule_short_running_jobs
    schedule_short-Waits = (
      with_job (short_job c r.query (ticket 0) cmd) w,
      rw (given, web_schedule_loop_held (short_job c r.query) cal _ ticket _ cmd cmds w held) refl,
    )

    pub schedule_dumping-Waits : Waits (schedule_long_jobs_with_dumping c cal ticket r w)
    unfolding schedule_long_jobs_with_dumping
    schedule_dumping-Waits = (
      with_job (dumping_job c r.query (ticket 0) cmd) w,
      rw (given, web_schedule_loop_held (dumping_job c r.query) cal _ ticket _ cmd cmds w held)
          refl,
    )

    streaming_held : (cmds : List Text) → Waits (schedule_streaming c cal ticket r (cmd ∷ cmds) w)
    unfolding schedule_streaming new_job
    streaming_held [] =
        let j =
          streaming_job c r.query (to_lower (query_get (text "dump") r.query) == text "true")
            (ticket 0) cmd in
        (
          with_job j w,
          rw (load_new j w (with_job j w) refl)
              (rw (submit_held j.id (length w.heap) (with_job j w) held) refl),
        )
    streaming_held (next ∷ cmds) = (
      with_job (streaming_job c r.query false (ticket 0) cmd) w,
      rw
          (web_schedule_loop_held (streaming_job c r.query false) cal _ ticket _ cmd (next ∷ cmds) w
            held)
          refl,
    )

    pub schedule_streaming-Waits : Waits (schedule_long_jobs_with_streaming c cal ticket r w)
    unfolding schedule_long_jobs_with_streaming
    schedule_streaming-Waits = rw given (streaming_held cmds)
