-- ===== src/Control/Stop.antt =====
-- What the stop handlers do to the jobs, and when they wait for good.
use web_based_jobs_worker_se.Base.{
  ℕ, ◌+◌, ◌<◌, ◌≡◌, refl, ◌∙◌, ◌⊎◌, inl, inr, true, false, List, [], ◌∷◌, ◌++◌, some, arith, Text,
  text_key, nat_eq, set_id, Bool-cases, All, if◌then◌else◌,
}
use web_based_jobs_worker_se.GoMap.{
  lookup, contains, IsNodup, keys, IsRangeOrder, contains-keys-lookup,
}
use web_based_jobs_worker_se.Models.{unlocked, reading, Job, JobScheduleModel}
use web_based_jobs_worker_se.Config.{Configuration}
use web_based_jobs_worker_se.JobId.{match_string}
use web_based_jobs_worker_se.JobId.Dedup.{remove_duplicate_job_ids-single}
use web_based_jobs_worker_se.Http.{
  Request, Response, Line, plain, stop_row, page, text, query_values,
}
use web_based_jobs_worker_se.Worker.{World, returned, blocked, map_runlock, find_job}
use web_based_jobs_worker_se.Worker.Cells.{At, map_rlock_lem}
use web_based_jobs_worker_se.Worker.Consistent.{IsConsistent}
use web_based_jobs_worker_se.Env.{Calendar, Ticket}
use web_based_jobs_worker_se.Schedule.{
  api_schedule_jobs, schedule_short_running_jobs, schedule_long_jobs_with_streaming,
  schedule_long_jobs_with_dumping,
}
use web_based_jobs_worker_se.Schedule.Held.{
  Waits, api_schedule_jobs-Waits, schedule_short-Waits, schedule_streaming-Waits,
  schedule_dumping-Waits,
}
use web_based_jobs_worker_se.Control.{
  pointers, stop_job, stop_loop, stop_jobs_by_id, stop_all_loop, stop_all_jobs,
}
use web_based_jobs_worker_se.Control.Pointers.{
  update_at, update_all, get_elem?-update_all, pointers-IsNodup, pointers_complete, HasJob,
  HasJob-update_at, All-pointers,
}

-- What a stop request does to a job: a running one gets a value into its stop channel.
pub stop_of : Job → Job
stop_of j = if j.iscompleted then j else record j { stop = 1 }

-- No stop is waiting to be taken by the job's executor, or the job is over.
abbrev pub CanStop : Job → Type 0
CanStop j = (j.iscompleted ≡ true) ⊎ (j.stop ≡ 0)

abbrev answer_of : Job → Text
answer_of j = if j.iscompleted then text "false" else text "true"

stop_job_lem :
    (nb p : ℕ) (j : Job) (w : World)
    → At w p j
    → CanStop j
    → stop_job nb p w
      ≡ returned
          (stop_row nb j.id (answer_of j) (answer_of j))
          (record w { heap = update_at stop_of p w.heap })
unfolding stop_job update_at stop_of
stop_job_lem nb p j w h can = elim (Bool-cases j.iscompleted) [
  | inl over ↦ ground (arith, set_id w.heap p h)
  | inr running ↦ ground arith
]

stop_job_pending :
    (nb p : ℕ) (j : Job) (w : World)
    → At w p j
    → j.iscompleted ≡ false
    → 0 < j.stop
    → stop_job nb p w ≡ blocked w
unfolding stop_job
stop_job_pending nb p j w h running pending = ground arith

stop_loop_pending :
    (id : Text) (p : ℕ) (j : Job) (w : World)
    → lookup id w.results ≡ some p
    → At w p j
    → j.iscompleted ≡ false
    → 0 < j.stop
    → stop_loop 0 [] [] (id ∷ []) w ≡ blocked w
unfolding stop_loop
stop_loop_pending id p j w found h running pending =
    rw (found, find_job) (rw (stop_job_pending 1 p j w h running pending) refl)

stop_all_loop_lem :
    (i : ℕ) (lines : List Line) (ps : List ℕ) (w : World)
    → IsNodup ps
    → All (HasJob CanStop w.heap) ps
    → (rows : List Line) × (stop_all_loop i lines ps w
        ≡ returned rows (record w { heap = update_all stop_of ps w.heap }))
unfolding stop_all_loop update_all
stop_all_loop_lem i lines [] w n all = (lines, refl)
stop_all_loop_lem i lines (p ∷ ps) w n ((j, h, can), all) =
    let row = stop_row (i + 1) j.id (answer_of j) (answer_of j) in
    let w₁ = record w { heap = update_at stop_of p w.heap } in
    let (rows, e) =
      stop_all_loop_lem (i + 1) (lines ++ row ∷ []) ps w₁ n.1
        (HasJob-update_at CanStop stop_of p ps w.heap n.0 all) in
    (rows, rw (stop_job_lem (i + 1) p j w h can) e)

module _ (order : List Text → List Text) (o : IsRangeOrder order) (w : World) where
  abbrev visited : List ℕ
  visited = pointers (order (keys w.results)) w.results

  contains-visited : (id : Text) (p : ℕ) → lookup id w.results ≡ some p → contains p visited ≡ true
  contains-visited id p found =
      pointers_complete id p (order (keys w.results)) w.results
        (o.same id (keys w.results) ∙ registered) found
    where
      registered : contains id (keys w.results) ≡ true
      registered = elim (Bool-cases (contains id (keys w.results))) [
        | inl yes_it_is ↦ yes_it_is
        | inr gone ↦ absurd (cc (found, (contains-keys-lookup id w.results).0 gone))
      ]

  -- If table and jobs agree, no id stands twice, the table is unlocked and no registered running
  -- job has a stop request pending, `stopAllJobs` returns with the table unlocked, and the table
  -- and the queue as they were. Any registered job that runs has then a stop request pending;
  -- nothing else of the job has changed, and nothing at all if it is completed.
  pub stop_all_jobs_lem :
      (id : Text) (p : ℕ) (j : Job)
      → IsConsistent w
      → IsNodup (keys w.results)
      → w.maplock ≡ unlocked
      → ((id : Text) (p : ℕ) (j : Job) → lookup id w.results ≡ some p → At w p j → CanStop j)
      → lookup id w.results ≡ some p
      → At w p j
      → (resp : Response) × (w' : World) × (stop_all_jobs order w ≡ returned resp w')
        × (resp.code ≡ 200)
        × (w'.maplock ≡ unlocked)
        × (w'.results ≡ w.results)
        × (w'.queue ≡ w.queue)
        × At w' p (stop_of j)
  unfolding stop_all_jobs
  stop_all_jobs_lem id p j s nodup free can found at_p =
      let w₁ = record w { maplock = reading 0 } in
      let once = pointers-IsNodup w s (order (keys w.results)) (o.once (keys w.results) nodup) in
      let all = All-pointers w s CanStop can (order (keys w.results)) in
      let (rows, e) = stop_all_loop_lem 0 [] visited w₁ once all in
      (
        record {
          code = 200;
          body = page (
              plain (text "[+] result of stopping all running jobs - zoom in to fit the screen")
              ∷ rows);
        },
        record w { maplock = unlocked; heap = update_all stop_of visited w.heap },
        rw (map_rlock_lem w free) (rw e (unfold map_runlock in refl)),
        refl,
        refl,
        refl,
        refl,
        get_elem?-update_all stop_of visited p w.heap once
            ∙ ground (arith, contains-visited id p found, at_p),
      )

-- With the table unlocked, a stop request for the valid id of a running job that has one pending
-- already waits and changes no job; the table stays locked for reading. From then on each of the
-- four handlers that schedule waits too: that of the API, for a POST with at least one job, and the
-- three of the web, for a request with at least one command.
pub stop_jobs_by_id_pending :
    (c : Configuration) (order : List Text → List Text) (r : Request) (w : World) (id : Text)
    (p : ℕ) (j : Job) (cal : Calendar) (ticket : ℕ → Ticket) (api web : Request)
    (m : JobScheduleModel) (ms : List JobScheduleModel) (cmd : Text) (cmds : List Text)
    → IsRangeOrder order
    → query_values (text "id") r.query ≡ id ∷ []
    → match_string id ≡ true
    → w.maplock ≡ unlocked
    → lookup id w.results ≡ some p
    → At w p j
    → j.iscompleted ≡ false
    → 0 < j.stop
    → api.method ≡ text "POST"
    → api.body ≡ some (m ∷ ms)
    → query_values (text "cmd") web.query ≡ cmd ∷ cmds
    → (w' : World) × (stop_jobs_by_id c order r w ≡ blocked w')
      × (w'.heap ≡ w.heap)
      × (w'.maplock ≡ reading 0)
      × Waits (api_schedule_jobs c cal ticket api w')
      × Waits (schedule_short_running_jobs c cal ticket web w')
      × Waits (schedule_long_jobs_with_streaming c cal ticket web w')
      × Waits (schedule_long_jobs_with_dumping c cal ticket web w')
unfolding stop_jobs_by_id
stop_jobs_by_id_pending c order r w id p j cal ticket api web m ms cmd cmds o query valid free found
      at_p running pending post body given =
    let w₁ = record w { maplock = reading 0 } in
    (
      w₁,
      rw (query, remove_duplicate_job_ids-single order o id valid)
          (rw (map_rlock_lem w free)
            (rw (stop_loop_pending id p j w₁ found at_p running pending) refl)),
      refl,
      refl,
      api_schedule_jobs-Waits c cal ticket api w₁ m ms refl post body,
      schedule_short-Waits c cal ticket web w₁ cmd cmds refl given,
      schedule_streaming-Waits c cal ticket web w₁ cmd cmds refl given,
      schedule_dumping-Waits c cal ticket web w₁ cmd cmds refl given,
    )
