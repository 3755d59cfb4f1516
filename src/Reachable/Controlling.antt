-- ===== src/Reachable/Controlling.antt =====
-- Stopping and restarting jobs keeps the agreement of table and heap.
use web_based_jobs_worker_se.Base.{
  ℕ, ◌+◌, ◌≡◌, refl, List, [], ◌∷◌, ◌++◌, Option, none, some, Text, text_key,
}
use web_based_jobs_worker_se.GoMap.{keys}
use web_based_jobs_worker_se.Config.{Configuration}
use web_based_jobs_worker_se.Models.{Job}
use web_based_jobs_worker_se.JobId.{remove_duplicate_job_ids}
use web_based_jobs_worker_se.Http.{Request, Response, Line, text, query_values}
use web_based_jobs_worker_se.Worker.{
  M, pure, ◌>>=◌, modify, job_lock, job_unlock, map_lock, map_unlock, map_rlock, map_runlock,
  find_job, enqueue, send_stop,
}
use web_based_jobs_worker_se.Worker.Kept.{
  Keeps, bind-Agrees, bind-Keeps, then-Keeps, if-Keeps, either-Keeps, load-Keeps, modify-Keeps,
  job_lock-Keeps, job_unlock-Keeps, map_lock-Keeps, map_unlock-Keeps, map_rlock-Keeps,
  map_runlock-Keeps, enqueue-Keeps, send_stop-Keeps,
}
use web_based_jobs_worker_se.Reachable.Fetching.{find_job-Keeps}
use web_based_jobs_worker_se.Control.{
  unknown_id, pointers, with_valid_ids, stop_job, stop_loop, stop_jobs_by_id, stop_all_loop,
  stop_all_jobs, reset_fields, reset_result, reset_completed_job_infos, restart_job, restart_loop,
  restart_jobs_by_id, restart_short_job, restart_all_loop, restart_all_jobs,
}

with_valid_ids-Keeps :
    (c : Configuration) (order : List Text → List Text) (r : Request) (ids : List Text)
    (k : List Text → M Response)
    → ((kept : List Text) → Keeps (k kept))
    → Keeps (with_valid_ids c order r ids k)
unfolding with_valid_ids
with_valid_ids-Keeps c order r [] k h w v = v
with_valid_ids-Keeps c order r (id ∷ ids) k h w v =
    let cleaned = remove_duplicate_job_ids order (id ∷ ids) in
    if-Keeps cleaned.0 (pure _) (k cleaned.1) (λ w v. v) (h cleaned.1) w v

stop_job-Keeps : (nb p : ℕ) → Keeps (stop_job nb p)
unfolding stop_job
stop_job-Keeps nb p = load-Keeps p _ (λ j w v there.
    if-Keeps j.iscompleted (pure _) _ (λ w v. v)
      (bind-Keeps (send_stop p) _ (send_stop-Keeps p) (λ _ w v. v)) w v)

stop_loop-Keeps :
    (i : ℕ) (lines errs : List Line) (ids : List Text) → Keeps (stop_loop i lines errs ids)
unfolding stop_loop
stop_loop-Keeps i lines errs [] w v = v
stop_loop-Keeps i lines errs (id ∷ ids) w v =
    bind-Keeps (find_job id) _ (find_job-Keeps id)
      (λ found.
        either-Keeps found (stop_loop i lines (errs ++ unknown_id id ∷ []) ids)
          (λ p. stop_job (i + 1) p >>= λ row. stop_loop (i + 1) (lines ++ row ∷ []) errs ids)
          (stop_loop-Keeps i lines (errs ++ unknown_id id ∷ []) ids)
          (λ p.
            bind-Keeps (stop_job (i + 1) p) (λ row. stop_loop (i + 1) (lines ++ row ∷ []) errs ids)
              (stop_job-Keeps (i + 1) p)
              (λ row. stop_loop-Keeps (i + 1) (lines ++ row ∷ []) errs ids)))
      w v

pub stop_jobs_by_id-Keeps :
    (c : Configuration) (order : List Text → List Text) (r : Request)
    → Keeps (stop_jobs_by_id c order r)
unfolding stop_jobs_by_id
stop_jobs_by_id-Keeps c order r =
    with_valid_ids-Keeps c order r (query_values (text "id") r.query) _ (λ ids.
      then-Keeps map_rlock _ map_rlock-Keeps (
        bind-Keeps (stop_loop 0 [] [] ids) _ (stop_loop-Keeps 0 [] [] ids)
          (λ lines. then-Keeps map_runlock _ map_runlock-Keeps (λ w v. v))))

stop_all_loop-Keeps : (i : ℕ) (lines : List Line) (ps : List ℕ) → Keeps (stop_all_loop i lines ps)
unfolding stop_all_loop
stop_all_loop-Keeps i lines [] w v = v
stop_all_loop-Keeps i lines (p ∷ ps) w v =
    bind-Keeps (stop_job (i + 1) p) (λ row. stop_all_loop (i + 1) (lines ++ row ∷ []) ps)
      (stop_job-Keeps (i + 1) p) (λ row. stop_all_loop-Keeps (i + 1) (lines ++ row ∷ []) ps) w v

pub stop_all_jobs-Keeps : (order : List Text → List Text) → Keeps (stop_all_jobs order)
unfolding stop_all_jobs
stop_all_jobs-Keeps order = then-Keeps map_rlock _ map_rlock-Keeps (λ w v.
    let ps = pointers (order (keys w.results)) w.results in
    bind-Agrees (stop_all_loop 0 [] ps w) _ (stop_all_loop-Keeps 0 [] ps w v)
      (λ lines. then-Keeps map_runlock _ map_runlock-Keeps (λ w v. v)))

reset_fields_id : (j : Job) → (reset_fields j).id ≡ j.id
unfolding reset_fields
reset_fields_id j = refl

reset_result-Keeps : (result : Option Text) (p : ℕ) → Keeps (reset_result result p)
unfolding reset_result
reset_result-Keeps none p w v = v
reset_result-Keeps (some buf) p w v = modify-Keeps p _ (λ j. refl) w v

reset-Keeps : (p : ℕ) → Keeps (reset_completed_job_infos p)
unfolding reset_completed_job_infos
reset-Keeps p = bind-Keeps (job_lock p) _ (job_lock-Keeps p) (λ _.
    bind-Keeps (modify p reset_fields) _ (modify-Keeps p reset_fields reset_fields_id) (λ _.
      load-Keeps p _ (λ j w v there.
        bind-Keeps (reset_result j.result p) (λ _. job_unlock p) (reset_result-Keeps j.result p)
          (λ _. job_unlock-Keeps p) w v)))

restart_job-Keeps : (nb p : ℕ) → Keeps (restart_job nb p)
unfolding restart_job
restart_job-Keeps nb p = load-Keeps p _ (λ j w v there.
    if-Keeps j.iscompleted _ _
      (then-Keeps map_lock _ map_lock-Keeps (
        then-Keeps (reset_completed_job_infos p) _ (reset-Keeps p) (
          then-Keeps map_unlock _ map_unlock-Keeps
            (then-Keeps (enqueue p) _ (enqueue-Keeps p) (λ w v. v)))))
      (then-Keeps (send_stop p) _ (send_stop-Keeps p) (λ w v. v)) w v)

restart_loop-Keeps :
    (i : ℕ) (lines errs : List Line) (ids : List Text) → Keeps (restart_loop i lines errs ids)
unfolding restart_loop
restart_loop-Keeps i lines errs [] w v = v
restart_loop-Keeps i lines errs (id ∷ ids) w v =
    bind-Keeps map_rlock _ map_rlock-Keeps
      (λ _. bind-Keeps (find_job id) _ (find_job-Keeps id) (λ found.
        bind-Keeps map_runlock _ map_runlock-Keeps (λ _.
          either-Keeps found (restart_loop i lines (errs ++ unknown_id id ∷ []) ids)
            (λ p.
              restart_job (i + 1) p >>= λ row. restart_loop (i + 1) (lines ++ row ∷ []) errs ids)
            (restart_loop-Keeps i lines (errs ++ unknown_id id ∷ []) ids)
            (λ p.
              bind-Keeps (restart_job (i + 1) p)
                (λ row. restart_loop (i + 1) (lines ++ row ∷ []) errs ids)
                (restart_job-Keeps (i + 1) p)
                (λ row. restart_loop-Keeps (i + 1) (lines ++ row ∷ []) errs ids)))))
      w v

pub restart_jobs_by_id-Keeps :
    (c : Configuration) (order : List Text → List Text) (r : Request)
    → Keeps (restart_jobs_by_id c order r)
unfolding restart_jobs_by_id
restart_jobs_by_id-Keeps c order r =
    with_valid_ids-Keeps c order r (query_values (text "id") r.query) _ (λ ids.
      bind-Keeps (restart_loop 0 [] [] ids) _ (restart_loop-Keeps 0 [] [] ids) (λ lines w v. v))

restart_short_job-Keeps : (nb p : ℕ) → Keeps (restart_short_job nb p)
unfolding restart_short_job
restart_short_job-Keeps nb p = load-Keeps p _ (λ j w v there.
    if-Keeps j.islong (pure none) _ (λ w v. v)
      (if-Keeps j.iscompleted _ _
        (then-Keeps (reset_completed_job_infos p) _ (reset-Keeps p)
          (then-Keeps (enqueue p) _ (enqueue-Keeps p) (λ w v. v)))
        (then-Keeps (send_stop p) _ (send_stop-Keeps p) (λ w v. v)))
      w v)

restart_all_loop-Keeps :
    (i : ℕ) (lines : List Line) (ps : List ℕ) → Keeps (restart_all_loop i lines ps)
unfolding restart_all_loop
restart_all_loop-Keeps i lines [] w v = v
restart_all_loop-Keeps i lines (p ∷ ps) w v =
    bind-Keeps (restart_short_job (i + 1) p) _ (restart_short_job-Keeps (i + 1) p)
      (λ row.
        either-Keeps row (restart_all_loop i lines ps)
          (λ line. restart_all_loop (i + 1) (lines ++ line ∷ []) ps)
          (restart_all_loop-Keeps i lines ps)
          (λ line. restart_all_loop-Keeps (i + 1) (lines ++ line ∷ []) ps))
      w v

pub restart_all_jobs-Keeps : (order : List Text → List Text) → Keeps (restart_all_jobs order)
unfolding restart_all_jobs
restart_all_jobs-Keeps order = then-Keeps map_lock _ map_lock-Keeps (λ w v.
    let ps = pointers (order (keys w.results)) w.results in
    bind-Agrees (restart_all_loop 0 [] ps w) _ (restart_all_loop-Keeps 0 [] ps w v)
      (λ lines. then-Keeps map_unlock _ map_unlock-Keeps (λ w v. v)))
