-- ===== src/Reachable/Agreement.antt =====
-- In every worker that can be reached table and heap agree.
use web_based_jobs_worker_se.Base.{ℕ, List, [], ◌∷◌, text_key}
use web_based_jobs_worker_se.GoMap.{lookup}
use web_based_jobs_worker_se.Config.{Configuration}
use web_based_jobs_worker_se.Env.{Calendar}
use web_based_jobs_worker_se.Worker.{World, Outcome, returned, blocked, panicked}
use web_based_jobs_worker_se.Worker.Consistent.{IsConsistent}
use web_based_jobs_worker_se.Worker.Kept.{Agrees}
use web_based_jobs_worker_se.Settings.{empty_world}
use web_based_jobs_worker_se.Reachable.{
  Move, schedules, schedules_short, schedules_streaming, schedules_dumping, monitors, launches,
  finishes, cleans, fetches, stops, restarts, stops_all, restarts_all, world_of, move, moves,
}
use web_based_jobs_worker_se.Reachable.Scheduling.{
  api_schedule_jobs-Keeps, schedule_short_running_jobs-Keeps,
  schedule_long_jobs_with_streaming-Keeps, schedule_long_jobs_with_dumping-Keeps,
}
use web_based_jobs_worker_se.Reachable.Running.{
  launch-Keeps, finish-Keeps, jobs_monitor-Keeps, cleanup_map_results-Keeps,
}
use web_based_jobs_worker_se.Reachable.Fetching.{api_fetch-Keeps}
use web_based_jobs_worker_se.Reachable.Controlling.{
  stop_jobs_by_id-Keeps, stop_all_jobs-Keeps, restart_jobs_by_id-Keeps, restart_all_jobs-Keeps,
}

world_of-IsConsistent : {A : Type 0} (x : Outcome A) → Agrees x → IsConsistent (world_of x)
world_of-IsConsistent (returned a w) h = h
world_of-IsConsistent (blocked w) h = h
world_of-IsConsistent (panicked w) h = h

module _ (c : Configuration) (cal : Calendar) where
  move-IsConsistent : (m : Move) (w : World) → IsConsistent w → IsConsistent (move c cal m w)
  unfolding move
  move-IsConsistent (schedules ticket r) w v =
      world_of-IsConsistent _ (api_schedule_jobs-Keeps c cal ticket r w v)
  move-IsConsistent (schedules_short ticket r) w v =
      world_of-IsConsistent _ (schedule_short_running_jobs-Keeps c cal ticket r w v)
  move-IsConsistent (schedules_streaming ticket r) w v =
      world_of-IsConsistent _ (schedule_long_jobs_with_streaming-Keeps c cal ticket r w v)
  move-IsConsistent (schedules_dumping ticket r) w v =
      world_of-IsConsistent _ (schedule_long_jobs_with_dumping-Keeps c cal ticket r w v)
  move-IsConsistent (monitors wake) w v = world_of-IsConsistent _ (jobs_monitor-Keeps wake w v)
  move-IsConsistent (launches e p) w v = world_of-IsConsistent _ (launch-Keeps c cal e p w v)
  move-IsConsistent (finishes event now p) w v =
      world_of-IsConsistent _ (finish-Keeps event now p w v)
  move-IsConsistent (cleans writes order maxcount deadtime now) w v =
      world_of-IsConsistent _
        (cleanup_map_results-Keeps c cal writes order maxcount deadtime now w v)
  move-IsConsistent (fetches r) w v = world_of-IsConsistent _ (api_fetch-Keeps r w v)
  move-IsConsistent (stops order r) w v =
      world_of-IsConsistent _ (stop_jobs_by_id-Keeps c order r w v)
  move-IsConsistent (restarts order r) w v =
      world_of-IsConsistent _ (restart_jobs_by_id-Keeps c order r w v)
  move-IsConsistent (stops_all order) w v = world_of-IsConsistent _ (stop_all_jobs-Keeps order w v)
  move-IsConsistent (restarts_all order) w v =
      world_of-IsConsistent _ (restart_all_jobs-Keeps order w v)

  moves-IsConsistent :
      (ms : List Move) (w : World) → IsConsistent w → IsConsistent (moves c cal ms w)
  unfolding moves
  moves-IsConsistent [] w v = v
  moves-IsConsistent (m ∷ ms) w v = moves-IsConsistent ms (move c cal m w) (move-IsConsistent m w v)

  -- From an empty worker, after any sequence of moves (requests to schedule jobs through the API
  -- and the web, to stop, restart and fetch jobs, rounds of the monitor and of the cleanup, and the
  -- two halves of `executeJob` on any pointer, each of which may also have been left waiting or
  -- panicking): every id in the table leads to a job that is allocated and bears that id.
  pub reachable-IsConsistent :
      (ms : List Move) (n : ℕ) → IsConsistent (moves c cal ms (empty_world n))
  unfolding lookup
  reachable-IsConsistent ms n = moves-IsConsistent ms (empty_world n) (λ id p found. absurd cc)
