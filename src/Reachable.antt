-- ===== src/Reachable.antt =====
-- The worker over time: requests to schedule, stop, restart and fetch jobs, the rounds of jobsMonitor
-- and cleanupMapResults, and the two halves of executeJob, one after the other in any order. A move
-- that has to wait, or panics, leaves the worker as it is then, and others go on from there.
pub mod Scheduling
pub mod Running
pub mod Fetching
pub mod Controlling
pub mod Agreement
use web_based_jobs_worker_se.Base.{ℕ, Bool, List, [], ◌∷◌, Text, ℤ}
use web_based_jobs_worker_se.Models.{Time}
use web_based_jobs_worker_se.Config.{Configuration}
use web_based_jobs_worker_se.Env.{Calendar, Ticket}
use web_based_jobs_worker_se.Http.{Request}
use web_based_jobs_worker_se.Worker.{World, Outcome, returned, blocked, panicked}
use web_based_jobs_worker_se.Schedule.{
  api_schedule_jobs, schedule_short_running_jobs, schedule_long_jobs_with_streaming,
  schedule_long_jobs_with_dumping,
}
use web_based_jobs_worker_se.Control.{
  stop_jobs_by_id, stop_all_jobs, restart_jobs_by_id, restart_all_jobs,
}
use web_based_jobs_worker_se.Executor.{Launching, Event, Wake, jobs_monitor, launch, finish}
use web_based_jobs_worker_se.Cleanup.{cleanup_map_results}
use web_based_jobs_worker_se.Output.{api_fetch_jobs_output_by_id}

pub data Move : Type 0 where
  schedules : (ℕ → Ticket) → Request → Move
  schedules_short schedules_streaming schedules_dumping : (ℕ → Ticket) → Request → Move
  monitors : Wake → Move
  launches : Launching → ℕ → Move
  finishes : Event → Time → ℕ → Move
  cleans : (writes : Text → Bool) → (List Text → List Text) → (maxcount deadtime : ℤ) → Time → Move
  fetches : Request → Move
  stops restarts : (List Text → List Text) → Request → Move
  stops_all restarts_all : (List Text → List Text) → Move

abbrev pub world_of : {A : Type 0} → Outcome A → World
world_of (returned a w) = w
world_of (blocked w) = w
world_of (panicked w) = w

unfoldable pub move : Configuration → Calendar → Move → World → World
move c cal (schedules ticket r) w = world_of (api_schedule_jobs c cal ticket r w)
move c cal (schedules_short ticket r) w = world_of (schedule_short_running_jobs c cal ticket r w)
move c cal (schedules_streaming ticket r) w =
    world_of (schedule_long_jobs_with_streaming c cal ticket r w)
move c cal (schedules_dumping ticket r) w =
    world_of (schedule_long_jobs_with_dumping c cal ticket r w)
move c cal (monitors wake) w = world_of (jobs_monitor wake w)
move c cal (launches e p) w = world_of (launch c cal e p w)
move c cal (finishes event now p) w = world_of (finish event now p w)
move c cal (cleans writes order maxcount deadtime now) w =
    world_of (cleanup_map_results c cal writes order maxcount deadtime now w)
move c cal (fetches r) w = world_of (api_fetch_jobs_output_by_id r w)
move c cal (stops order r) w = world_of (stop_jobs_by_id c order r w)
move c cal (restarts order r) w = world_of (restart_jobs_by_id c order r w)
move c cal (stops_all order) w = world_of (stop_all_jobs order w)
move c cal (restarts_all order) w = world_of (restart_all_jobs order w)

unfoldable pub moves : Configuration → Calendar → List Move → World → World
moves c cal [] w = w
moves c cal (m ∷ ms) w = moves c cal ms (move c cal m w)
