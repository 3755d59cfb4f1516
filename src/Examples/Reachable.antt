-- ===== src/Examples/Reachable.antt =====
-- A worker after a history of moves.
use web_based_jobs_worker_se.Base.{true, List, [], ◌∷◌, none, pos}
use web_based_jobs_worker_se.Config.{default_config}
use web_based_jobs_worker_se.Worker.Consistent.{IsConsistent}
use web_based_jobs_worker_se.Executor.{job_ready, done}
use web_based_jobs_worker_se.Settings.{empty_world}
use web_based_jobs_worker_se.Reachable.{
  Move, schedules, monitors, launches, finishes, cleans, fetches, stops_all, restarts_all, moves,
}
use web_based_jobs_worker_se.Reachable.Agreement.{reachable-IsConsistent}
use web_based_jobs_worker_se.Examples.Data.{
  calendar, tickets, post_request, id_request, launching, same_order,
}

-- Two jobs are scheduled; the first is run, fetched, restarted and stopped; then there is a cleanup.
abbrev history : List Move
history =
    schedules tickets post_request
    ∷ monitors job_ready
    ∷ launches launching 0
    ∷ finishes (done none) 3000 0
    ∷ fetches id_request
    ∷ restarts_all same_order
    ∷ stops_all same_order
    ∷ cleans (λ _. true) same_order (pos 5) (pos 1) 4000
    ∷ []

reachable_example : IsConsistent (moves default_config calendar history (empty_world 10))
reachable_example = reachable-IsConsistent default_config calendar history 10
