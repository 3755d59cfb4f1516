-- ===== src/Control/Restart.antt =====
-- What the restart handlers do to a job in each of its states.
use web_based_jobs_worker_se.Base.{
  ℕ, ◌<◌, ◌≡◌, refl, ap, true, false, List, [], ◌∷◌, ◌++◌, none, some, arith, Text, text_key,
  nat_eq, length,
}
use web_based_jobs_worker_se.GoMap.{lookup, IsRangeOrder}
use web_based_jobs_worker_se.Models.{unlocked, writing, Job}
use web_based_jobs_worker_se.Config.{Configuration}
use web_based_jobs_worker_se.JobId.{match_string}
use web_based_jobs_worker_se.JobId.Dedup.{remove_duplicate_job_ids-single}
use web_based_jobs_worker_se.Http.{
  Request, Response, Line, plain, restart_row, page, text, query_values,
}
use web_based_jobs_worker_se.Worker.{
  World, returned, blocked, panicked, put, map_lock, map_rlock, bind,
}
use web_based_jobs_worker_se.Worker.Cells.{
  At, put-At, load_lem, map_lock_lem, map_rlock_lem, send_stop_lem,
}
use web_based_jobs_worker_se.Schedule.{submit}
use web_based_jobs_worker_se.Control.{
  reset_fields, restart_job, restart_loop, restart_jobs_by_id, stop_all_jobs,
}
use web_based_jobs_worker_se.Control.Reset.{
  reset_of, reset_completed_job_infos_lem, reset_completed_job_infos_panics,
}

module _ (nb p : ℕ) (j : Job) (w : World) (h : At w p j) (free : w.maplock ≡ unlocked) where
  restart_job_completed :
      {buf : Text}
      → j.iscompleted ≡ true
      → j.lock ≡ unlocked
      → j.result ≡ some buf
      → length w.queue < w.capacity
      → restart_job nb p w
        ≡ returned
            (restart_row nb j.id (text "no") (text "n/a") (text "yes"))
            (record (put p (reset_of j) w) { maplock = unlocked; queue = w.queue ++ p ∷ [] })
  unfolding restart_job
  restart_job_completed over idle result room =
      let w₁ = record w { maplock = writing } in
      rw (load_lem p j w h) (
        rw over (
          rw (map_lock_lem w free)
            (rw (reset_completed_job_infos_lem p j w₁ h idle result) (ground arith))))

  restart_job_panics :
      j.iscompleted ≡ true
      → j.lock ≡ unlocked
      → j.result ≡ none
      → restart_job nb p w
        ≡ panicked
            (record (put p (record (reset_fields j) { lock = writing }) w) { maplock = writing })
  unfolding restart_job
  restart_job_panics over idle result =
      let w₁ = record w { maplock = writing } in
      rw (load_lem p j w h) (
        rw over (
          rw (map_lock_lem w free)
            (rw (reset_completed_job_infos_panics p j w₁ h idle result) refl)))

  restart_job_running :
      j.iscompleted ≡ false
      → j.stop ≡ 0
      → restart_job nb p w
        ≡ returned
            (restart_row nb j.id (text "yes") (text "yes") (text "n/a"))
            (put p (record j { stop = 1 }) w)
  unfolding restart_job
  restart_job_running running none_pending =
      rw (load_lem p j w h) (ground (arith, send_stop_lem p j w h none_pending))

-- The world with the table locked for reading and unlocked again is the world itself.
record_unlocked : (w : World) → w.maplock ≡ unlocked → record w { maplock = unlocked } ≡ w
record_unlocked w free = ground arith

module _ (c : Configuration) (order : List Text → List Text) (o : IsRangeOrder order) (r : Request)
    (w : World) (id : Text) (p : ℕ) (j : Job) (query : query_values (text "id") r.query ≡ id ∷ [])
    (valid : match_string id ≡ true) (free : w.maplock ≡ unlocked) (idle : j.lock ≡ unlocked)
    (found : lookup id w.results ≡ some p) (at_p : At w p j) where
  abbrev restart_page : Line → Response
  restart_page row = record {
    code = 200;
    body = page (
        plain (
          text
            "[+] restart summary - retry or check status for not restarted jobs. zoom in to fit the screen")
        ∷ row
        ∷ []);
  }

  -- The loop for the single id comes down to the round of its job.
  restart_loop_single :
      restart_loop 0 [] [] (id ∷ []) w
      ≡ bind (restart_job 1 p w) (λ row. restart_loop 1 (row ∷ []) [] [])
  unfolding restart_loop
  restart_loop_single = rw (map_rlock_lem w free) (
      rw found (
        ap (λ v. bind (restart_job 1 p v) (λ row. restart_loop 1 (row ∷ []) [] []))
          (record_unlocked w free)))

  -- Restarting one valid id whose job is completed and has a result buffer, with table and job
  -- unlocked and room in the queue: the handler returns; the job is reset and waits in the queue;
  -- the table is unlocked, and nothing else has changed.
  pub restart_completed :
      {buf : Text}
      → j.iscompleted ≡ true
      → j.result ≡ some buf
      → length w.queue < w.capacity
      → restart_jobs_by_id c order r w
        ≡ returned
            (restart_page (restart_row 1 j.id (text "no") (text "n/a") (text "yes")))
            (record (put p (reset_of j) w) { maplock = unlocked; queue = w.queue ++ p ∷ [] })
  unfolding restart_jobs_by_id
  restart_completed over result room =
      rw (query, remove_duplicate_job_ids-single order o id valid)
        (rw restart_loop_single
          (rw (restart_job_completed 1 p j w at_p free over idle result room) refl))

  -- Restarting one valid id whose job runs and has no stop request pending, with the table
  -- unlocked, only stops the job.
  pub restart_running :
      j.iscompleted ≡ false
      → j.stop ≡ 0
      → restart_jobs_by_id c order r w
        ≡ returned
            (restart_page (restart_row 1 j.id (text "yes") (text "yes") (text "n/a")))
            (put p (record j { stop = 1 }) w)
  unfolding restart_jobs_by_id
  restart_running running none_pending =
      rw (query, remove_duplicate_job_ids-single order o id valid)
        (rw restart_loop_single
          (rw (restart_job_running 1 p j w at_p free running none_pending) refl))

  -- Restarting one valid id whose job is completed and has no result buffer, as every long job,
  -- with table and job unlocked, panics: the handler never unlocks the table nor the job, and from
  -- then on scheduling a job waits for good, and so does stopping all jobs.
  pub restart_long_panics :
      j.iscompleted ≡ true
      → j.result ≡ none
      → (w' : World) × (restart_jobs_by_id c order r w ≡ panicked w')
        × (w'.maplock ≡ writing)
        × (At w' p (record (reset_fields j) { lock = writing }))
        × ((other : Text) (q : ℕ) → submit other q w' ≡ blocked w')
        × (stop_all_jobs order w' ≡ blocked w')
  unfolding restart_jobs_by_id
  restart_long_panics over result = (
    record (put p (record (reset_fields j) { lock = writing }) w) { maplock = writing },
    rw (query, remove_duplicate_job_ids-single order o id valid)
        (rw restart_loop_single (rw (restart_job_panics 1 p j w at_p free over idle result) refl)),
    refl,
    put-At p (record (reset_fields j) { lock = writing }) w at_p,
    λ other q. unfold submit map_lock in refl,
    unfold stop_all_jobs map_rlock in refl,
  )
