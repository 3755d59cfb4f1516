-- ===== src/Examples/Control.antt =====
-- Stopping and restarting on a worker with one job.
use mathlib.Core.Path.{subst}
use mathlib.Core.Option.{some-injective}
use web_based_jobs_worker_se.Base.{
  codes, ℕ, ◌≡◌, refl, sym, ap, ◌∙◌, inr, true, [], ◌∷◌, Option, none, some, arith, Text, text_key,
  text_eq, ◌⊎◌, inl, ◌+◌, ◌≤◌, length, nat_eq, false,
}
use web_based_jobs_worker_se.GoMap.{lookup, contains, keys, IsNodup}
use web_based_jobs_worker_se.Models.{reading, unlocked, writing, Job}
use web_based_jobs_worker_se.Config.{default_config}
use web_based_jobs_worker_se.Http.{Request, query_values, Response, page, plain, restart_row, text}
use web_based_jobs_worker_se.Worker.{World, returned, blocked, panicked}
use web_based_jobs_worker_se.Worker.Cells.{At}
use web_based_jobs_worker_se.Worker.Consistent.{IsConsistent}
use web_based_jobs_worker_se.Schedule.{
  submit, api_schedule_jobs, schedule_short_running_jobs, schedule_long_jobs_with_streaming,
  schedule_long_jobs_with_dumping,
}
use web_based_jobs_worker_se.Control.{
  reset_fields, pointers, restart_all_jobs, restart_jobs_by_id, stop_all_jobs, stop_jobs_by_id,
}
use web_based_jobs_worker_se.Schedule.Held.{Waits}
use web_based_jobs_worker_se.Control.Stop.{
  stop_of, CanStop, stop_all_jobs_lem, stop_jobs_by_id_pending,
}
use web_based_jobs_worker_se.Control.RestartAll.{CanRestart, again_of, restart_all_jobs_lem}
use web_based_jobs_worker_se.Control.Restart.{restart_long_panics}
use web_based_jobs_worker_se.Examples.Data.{
  calendar, tickets, post_request, task, job_id, running_job, completed_job, worker, same_order,
  same_order-IsRangeOrder, id_request, id_query, job_id-match, job_id_found, lookup_one,
}

worker-IsConsistent : (j : Job) → j.id ≡ job_id → IsConsistent (worker j)
worker-IsConsistent j same id p found =
    let (at_zero, named) = lookup_one id p found in (j, rw at_zero refl, same ∙ sym named)

abbrev summary : Response
summary = record {
  code = 200;
  body = page (
      plain (
        text
          "[+] restart summary - retry or check status for not restarted jobs. zoom in to fit the screen")
      ∷ restart_row 1 job_id (text "no") (text "n/a") (text "yes")
      ∷ []);
}

abbrev over : Job
over = record running_job { iscompleted = true }

restart_long_panics_example :
    (w' : World) × (restart_jobs_by_id default_config same_order id_request (worker over)
      ≡ panicked w')
    × (w'.maplock ≡ writing)
    × (At w' 0 (record (reset_fields over) { lock = writing }))
    × ((other : Text) (q : ℕ) → submit other q w' ≡ blocked w')
    × (stop_all_jobs same_order w' ≡ blocked w')
restart_long_panics_example =
    restart_long_panics default_config same_order same_order-IsRangeOrder id_request (worker over)
      job_id 0 over id_query job_id-match refl refl job_id_found refl refl refl

can_stop :
    (id : Text) (p : ℕ) (j : Job)
    → lookup id (worker running_job).results ≡ some p
    → At (worker running_job) p j
    → CanStop j
can_stop id p j found at_p =
    let at_zero = subst (λ q. At (worker running_job) q j) (lookup_one id p found).0 at_p in
    inr (ap (λ (o : Option Job). elim o [ none ↦ 0 | some k ↦ k.stop ]) (sym at_zero))

once : IsNodup (keys (worker running_job).results)
unfolding contains
once = (refl, tt)

stop_all_jobs_example :
    (resp : Response) × (w' : World) × (stop_all_jobs same_order (worker running_job)
      ≡ returned resp w')
    × (resp.code ≡ 200)
    × (w'.maplock ≡ unlocked)
    × (w'.results ≡ (worker running_job).results)
    × (w'.queue ≡ [])
    × At w' 0 (stop_of running_job)
stop_all_jobs_example =
    stop_all_jobs_lem same_order same_order-IsRangeOrder (worker running_job) job_id 0 running_job
      (worker-IsConsistent running_job refl) once refl can_stop job_id_found refl

abbrev ls_page : Request
ls_page = record id_request { query = (codes "cmd", codes "ls" ∷ []) ∷ [] }

ls_asked : query_values (text "cmd") ls_page.query ≡ codes "ls" ∷ []
unfolding query_values lookup text text_eq
ls_asked = refl

stop_jobs_by_id_pending_example :
    (w' : World) × (stop_jobs_by_id default_config same_order id_request
        (worker (record running_job { stop = 1 }))
      ≡ blocked w')
    × (w'.heap ≡ record running_job { stop = 1 } ∷ [])
    × (w'.maplock ≡ reading 0)
    × Waits (api_schedule_jobs default_config calendar tickets post_request w')
    × Waits (schedule_short_running_jobs default_config calendar tickets ls_page w')
    × Waits (schedule_long_jobs_with_streaming default_config calendar tickets ls_page w')
    × Waits (schedule_long_jobs_with_dumping default_config calendar tickets ls_page w')
stop_jobs_by_id_pending_example =
    stop_jobs_by_id_pending default_config same_order id_request
      (worker (record running_job { stop = 1 })) job_id 0 (record running_job { stop = 1 }) calendar
      tickets post_request ls_page task (task ∷ []) (codes "ls") [] same_order-IsRangeOrder id_query
      job_id-match refl job_id_found refl refl (omega arith) refl refl ls_asked

can_restart :
    (id : Text) (p : ℕ) (j : Job)
    → lookup id (worker completed_job).results ≡ some p
    → At (worker completed_job) p j
    → CanRestart j
can_restart id p j found at_p =
    let at_zero = subst (λ q. At (worker completed_job) q j) (lookup_one id p found).0 at_p in
    subst CanRestart (some-injective completed_job j at_zero)
      (inr (inl (refl, refl, codes "out", refl)))

room :
    length {A = ℕ} []
      + length (
          pointers
            (same_order (keys (worker completed_job).results))
            (worker completed_job).results)
    ≤ 10
unfolding pointers lookup text_eq
room = omega arith

restart_all_jobs_example :
    (resp : Response) × (w' : World) × (restart_all_jobs same_order (worker completed_job)
      ≡ returned resp w')
    × (resp.code ≡ 200)
    × (w'.maplock ≡ unlocked)
    × (w'.results ≡ (worker completed_job).results)
    × At w' 0 (again_of completed_job)
    × ((completed_job.islong ≡ true)
        ⊎ ((completed_job.iscompleted ≡ false) ⊎ (contains 0 w'.queue ≡ true)))
restart_all_jobs_example =
    restart_all_jobs_lem same_order same_order-IsRangeOrder (worker completed_job) job_id 0
      completed_job (worker-IsConsistent completed_job refl) once refl can_restart room job_id_found
      refl
