-- ===== src/Journey/Fetched.antt =====
-- What a short job leaves behind when its output has been fetched.
use web_based_jobs_worker_se.Base.{
  ℕ, ◌<◌, ◌≡◌, refl, ap, ◌∙◌, true, false, List, [], ◌∷◌, ◌++◌, none, some, arith, Text, text_key,
  text_eq_refl, length, All, get_elem?, get_elem?-append_new, get_elem?-append_old,
  get_elem?-set_ne, set-set, pos, int_inc, int_inc-pos, zero, suc,
}
use web_based_jobs_worker_se.GoMap.{lookup, lookup-insert}
use web_based_jobs_worker_se.Models.{unlocked, Time, Job, JobScheduleModel}
use web_based_jobs_worker_se.Config.{Configuration}
use web_based_jobs_worker_se.Env.{Calendar, Ticket}
use web_based_jobs_worker_se.JobId.{match_string}
use web_based_jobs_worker_se.JobId.Generate.{IsByte, generate_id-match}
use web_based_jobs_worker_se.Http.{Request, Response, text, query_get, get_from_request, job_output}
use web_based_jobs_worker_se.Worker.{World, returned, put}
use web_based_jobs_worker_se.Worker.Cells.{At, put-At, modify_lem}
use web_based_jobs_worker_se.Jobs.{api_job}
use web_based_jobs_worker_se.Schedule.{api_schedule_jobs}
use web_based_jobs_worker_se.Schedule.Submit.{register, register_all, jobs_of}
use web_based_jobs_worker_se.Schedule.Handlers.{api_schedule_jobs_lem}
use web_based_jobs_worker_se.Executor.{
  dump_path, result_buffer, Launching, Event, execute, job_ready, jobs_monitor, receive_job, launch,
}
use web_based_jobs_worker_se.Executor.Execute.{CanHappen-same}
use web_based_jobs_worker_se.Executor.Finish.{ended, CanHappen, finish_lem}
use web_based_jobs_worker_se.Executor.Launch.{command, launch_lem}
use web_based_jobs_worker_se.Executor.Outputs.{sink_of, kind_of, error_of, opened, launched}
use web_based_jobs_worker_se.Output.{api_fetch_jobs_output_by_id}
use web_based_jobs_worker_se.Output.Fetch.{fetched, api_fetch_short}
use web_based_jobs_worker_se.Journey.{
  write_output, write_result, run_process, perform, journey, appended,
}

-- The job while its process runs, and once it has written its output.
abbrev running : Launching → Job → Job
running e j = record j { starttime = e.now; pid = e.pid; lock = unlocked }

abbrev wrote : Text → Launching → Job → Job
wrote out e j = record j { starttime = e.now; pid = e.pid; lock = unlocked; result = some out }

launch_short :
    (c : Configuration) (cal : Calendar) (e : Launching) (p : ℕ) (j : Job) (w : World)
    (h : At w p j) (free : j.lock ≡ unlocked)
    → j.islong ≡ false
    → e.start_error ≡ none
    → launch c cal e p w ≡ returned (some (command c cal e p j w h free)) (put p (running e j) w)
unfolding kind_of error_of opened launched
launch_short c cal e p j w h free plain up =
    launch_lem c cal e p j w h free ∙ ground (arith, plain, up)

write_result_lem :
    (out : Text) (p : ℕ) (j : Job) (w : World)
    → At w p j
    → j.result ≡ some []
    → write_result out p w ≡ returned tt (put p (record j { result = some out }) w)
unfolding write_result
write_result_lem out p j w h empty =
    modify_lem p j w h (λ k. record k { result = appended out k.result })
    ∙ ap (λ r. returned tt (put p (record j { result = appended out r }) w)) empty

-- The standard output of a short job.
stdout_short : (j : Job) (path : Text) → j.islong ≡ false → sink_of (kind_of j) path ≡ result_buffer
unfolding kind_of sink_of
stdout_short j path plain = ground (arith, plain)

perform_short :
    (c : Configuration) (cal : Calendar) (e : Launching) (out : Text) (event : Event) (now : Time)
    (p : ℕ) (j : Job) (w : World)
    → At w p j
    → j.lock ≡ unlocked
    → j.islong ≡ false
    → j.result ≡ some []
    → e.start_error ≡ none
    → CanHappen event (wrote out e j)
    → perform c cal e out event now (execute p) w
      ≡ returned tt (put p (ended event now (wrote out e j)) w)
unfolding perform run_process write_output
perform_short c cal e out event now p j w h free plain empty up ok =
    let w₁ = put p (running e j) w in
    let h₁ = put-At p (running e j) w h in
    let w₂ = put p (wrote out e j) w₁ in
    let h₂ = put-At p (wrote out e j) w₁ h₁ in
    rw (launch_short c cal e p j w h free plain up) (
      rw (stdout_short j (dump_path c.jobs_outputs_folder cal j) plain) (
        rw (write_result_lem out p (running e j) w₁ h₁ empty)
          (rw (finish_lem now p (wrote out e j) w₂ h₂ refl event ok) (simp set-set))))

-- The worker once the job was scheduled and taken from the queue, and once it was run.
abbrev taken : Job → World → World
taken j w = record (register j w) { queue = [] }

journey_runs :
    (c : Configuration) (cal : Calendar) (ticket : ℕ → Ticket) (e : Launching) (out : Text)
    (event : Event) (now : Time) (order fetch : Request) (scheduled answer : Response) (j k : Job)
    (w : World)
    → w.queue ≡ []
    → api_schedule_jobs c cal ticket order w ≡ returned scheduled (register j w)
    → perform c cal e out event now (execute (length w.heap)) (taken j w)
      ≡ returned tt (put (length w.heap) k (taken j w))
    → api_fetch_jobs_output_by_id fetch (put (length w.heap) k (taken j w))
      ≡ returned answer (put (length w.heap) (fetched k) (put (length w.heap) k (taken j w)))
    → journey c cal ticket e out event now order fetch w
      ≡ returned (scheduled, answer) (put (length w.heap) (fetched k) (taken j w))
unfolding journey
journey_runs c cal ticket e out event now order fetch scheduled answer j k w idle ordered done got =
    let next : jobs_monitor job_ready (register j w)
        ≡ returned (execute (length w.heap)) (taken j w) =
      unfold jobs_monitor receive_job register in ground (arith, idle) in
    rw ordered (rw next (rw done (rw got (simp set-set))))

-- The job of a request for one short job.
abbrev pub requested : Configuration → JobScheduleModel → (ℕ → Ticket) → Job
requested c m ticket = api_job c m (ticket 0)

ordered :
    (c : Configuration) (cal : Calendar) (ticket : ℕ → Ticket) (order : Request) (w : World)
    (m : JobScheduleModel)
    → order.method ≡ text "POST"
    → order.body ≡ some (m ∷ [])
    → w.maplock ≡ unlocked
    → w.queue ≡ []
    → 0 < w.capacity
    → (scheduled : Response) × (scheduled.code ≡ 200)
      × (api_schedule_jobs c cal ticket order w
          ≡ returned scheduled (register (api_job c m (ticket 0)) w))
unfolding register_all jobs_of
ordered c cal ticket order w m post body free idle room =
    (_, refl, api_schedule_jobs_lem c cal ticket order w m [] post body free (ground (arith, idle)))

fresh :
    (c : Configuration) (m : JobScheduleModel) (t : Ticket) (b : List ℕ)
    → m.islong ≡ false
    → t.random ≡ some b
    → length b ≡ 8
    → All IsByte b
    → ((api_job c m t).islong ≡ false)
      × ((api_job c m t).lock ≡ unlocked)
      × ((api_job c m t).result ≡ some [])
      × (match_string (api_job c m t).id ≡ true)
      × ((api_job c m t).fetchcount ≡ pos 0)
unfolding api_job
fresh c m t b plain random bytes h =
    (plain, refl, ground (arith, plain), rw random (generate_id-match b t.unixnano bytes h).1, refl)

ended_keeps :
    (event : Event) (now : Time) (j : Job)
    → ((ended event now j).id ≡ j.id)
      × ((ended event now j).islong ≡ j.islong)
      × ((ended event now j).result ≡ j.result)
      × ((ended event now j).fetchcount ≡ j.fetchcount)
      × ((ended event now j).iscompleted ≡ true)
      × ((ended event now j).lock ≡ unlocked)
unfolding ended
ended_keeps event now j =
    (ground arith, ground arith, ground arith, ground arith, ground arith, ground arith)

taken-At : (j : Job) (w : World) → At (taken j w) (length w.heap) j
unfolding register
taken-At j w = get_elem?-append_new w.heap j

taken-lookup : (j : Job) (w : World) → lookup j.id (taken j w).results ≡ some (length w.heap)
unfolding register
taken-lookup j w = rw (lookup-insert, text_eq_refl j.id) refl

taken_free : (j : Job) (w : World) → (taken j w).maplock ≡ unlocked
unfolding register
taken_free j w = refl

-- An address in use is not the next one.
old_address : (xs : List Job) (q : ℕ) {o : Job} → get_elem? xs q ≡ some o → length xs ≡ q → ⊥
old_address [] q h e = cc
old_address (x ∷ xs) zero h e = omega arith
old_address (x ∷ xs) (suc q) h e = old_address xs q h (omega arith)

others_stay :
    (j k : Job) (w : World) (q : ℕ) {o : Job}
    → At w q o
    → At (put (length w.heap) k (taken j w)) q o
unfolding register
others_stay j k w q h =
    get_elem?-set_ne (w.heap ++ j ∷ []) (length w.heap) q k (λ e. old_address w.heap q h e)
    ∙ get_elem?-append_old w.heap (j ∷ []) q h

-- A POST of one short job to the API of a worker whose table is unlocked and whose queue is empty
-- and has room, with eight random bytes; a round of the monitor; a run whose process starts, writes
-- some output and then ends by an event that can happen; and a GET of the API for the id of the
-- job, whose client takes the response: all four return, the first answers with code 200, and the
-- last with code 200 and exactly the output. Then the queue is empty, the id leads to the job,
-- which is completed, was fetched once and has its lock free, and every other job is as it was.
pub journey_lem :
    (c : Configuration) (cal : Calendar) (ticket : ℕ → Ticket) (e : Launching) (out : Text)
    (event : Event) (now : Time) (order fetch : Request) (w : World) (m : JobScheduleModel)
    (b : List ℕ)
    → w.maplock ≡ unlocked
    → w.queue ≡ []
    → 0 < w.capacity
    → order.method ≡ text "POST"
    → order.body ≡ some (m ∷ [])
    → m.islong ≡ false
    → (ticket 0).random ≡ some b
    → length b ≡ 8
    → All IsByte b
    → e.start_error ≡ none
    → CanHappen event (requested c m ticket)
    → fetch.method ≡ text "GET"
    → fetch.client_reads ≡ true
    → query_get (text "id") fetch.query ≡ (requested c m ticket).id
    → (scheduled : Response) × (w' : World) × (k : Job) × (journey c cal ticket e out event now
          order fetch w
        ≡ returned
            (
              scheduled,
              record {
                code = 200;
                body =
                    job_output
                      (record { requestid = get_from_request fetch.requestid; output = out });
              },
            )
            w')
      × (scheduled.code ≡ 200)
      × (w'.queue ≡ [])
      × (lookup (requested c m ticket).id w'.results ≡ some (length w.heap))
      × At w' (length w.heap) k
      × (k.iscompleted ≡ true)
      × (k.fetchcount ≡ pos 1)
      × (k.lock ≡ unlocked)
      × ((q : ℕ) (o : Job) → At w q o → At w' q o)
journey_lem c cal ticket e out event now order fetch w m b free idle room post body plain random
      bytes h up ok get reads query =
    let j = requested c m ticket in
    let p = length w.heap in
    let (short_one, open_one, empty, valid, unfetched) =
      fresh c m (ticket 0) b plain random bytes h in
    let (scheduled, fine, order_lem) = ordered c cal ticket order w m post body free idle room in
    let k = ended event now (wrote out e j) in
    let (same_id, same_kind, same_result, same_count, over, unheld) =
      ended_keeps event now (wrote out e j) in
    let h₁ = taken-At j w in
    let h₂ = put-At p k (taken j w) h₁ in
    (
      scheduled,
      put p (fetched k) (taken j w),
      fetched k,
      journey_runs c cal ticket e out event now order fetch scheduled _ j k w idle order_lem
          (perform_short c cal e out event now p j (taken j w) h₁ open_one short_one empty up
            (CanHappen-same event j (wrote out e j) refl ok))
          (api_fetch_short fetch (put p k (taken j w)) j.id p k query valid (taken_free j w)
            (taken-lookup j w) h₂ get reads (same_kind ∙ short_one) same_result unheld),
      fine,
      refl,
      taken-lookup j w,
      put-At p (fetched k) (taken j w) h₁,
      over,
      ap int_inc (same_count ∙ unfetched) ∙ int_inc-pos 0 (omega arith),
      refl,
      λ q o there. others_stay j (fetched k) w q there,
    )
