-- ===== src/Cleanup/Rounds.antt =====
-- What a round of the cleanup does, whatever the order in which it visits the jobs.
use web_based_jobs_worker_se.Base.{
  ℕ, Bool, ◌≡◌, refl, ◌∙◌, true, false, List, none, some, arith, Text, text_key, ℤ, All,
  if◌then◌else◌,
}
use web_based_jobs_worker_se.GoMap.{lookup, keys, IsRangeOrder, contains-keys-lookup, contains-keys}
use web_based_jobs_worker_se.Models.{unlocked, writing, Time, Job}
use web_based_jobs_worker_se.Config.{Configuration}
use web_based_jobs_worker_se.Env.{Calendar}
use web_based_jobs_worker_se.Worker.{World, returned, map_unlock}
use web_based_jobs_worker_se.Worker.Lookup.{job_of, job_of_found}
use web_based_jobs_worker_se.Worker.Cells.{At, map_lock_lem}
use web_based_jobs_worker_se.Executor.{dump_path}
use web_based_jobs_worker_se.Cleanup.{is_expired, cleanup_map_results}
use web_based_jobs_worker_se.Cleanup.Sweep.{
  IsStored, Has, removes, sweep, cleanup_loop_lem, lookup-sweep, sweep_saves,
}

module _ (c : Configuration) (cal : Calendar) (writes : Text → Bool) (maxcount deadtime : ℤ)
    (now : Time) where
  cleanup_runs :
      (order : List Text → List Text) (w : World)
      → w.maplock ≡ unlocked
      → All (IsStored w.heap) w.results
      → let swept =
          sweep c cal writes maxcount deadtime now w.heap (order (keys w.results)) w.results in
        cleanup_map_results c cal writes order maxcount deadtime now w
        ≡ returned swept.0 (record w { results = swept.1; maplock = unlocked })
  unfolding cleanup_map_results map_unlock
  cleanup_runs order w free stored = rw (map_lock_lem w free) (
      rw
        (cleanup_loop_lem c cal writes maxcount deadtime now (order (keys w.results))
          (record w { maplock = writing }) stored)
        refl)

  -- A round of the cleanup on an unlocked table, whose entries all lead to jobs and whose short
  -- jobs have buffers, returns with the table unlocked. Whatever the order of the visits, an id is
  -- in the table afterwards exactly if it was there before and its job has not expired; the jobs
  -- themselves and the queue stay as they are.
  pub cleanup_map_results_lem :
      (order : List Text → List Text) (w : World)
      → IsRangeOrder order
      → w.maplock ≡ unlocked
      → All (IsStored w.heap) w.results
      → (saved : List (Text × Text)) × (w' : World) × (cleanup_map_results c cal writes order
            maxcount deadtime now w
          ≡ returned saved w')
        × (w'.maplock ≡ unlocked)
        × (w'.heap ≡ w.heap)
        × (w'.queue ≡ w.queue)
        × ((id : Text)
            → lookup id w'.results ≡ (
                if removes maxcount deadtime now (job_of w.heap w.results id)
                then none
                else lookup id w.results))
  unfolding job_of
  cleanup_map_results_lem order w o free stored =
      let ids = order (keys w.results) in
      (
        (sweep c cal writes maxcount deadtime now w.heap ids w.results).0,
        record w {
          results = (sweep c cal writes maxcount deadtime now w.heap ids w.results).1;
          maplock = unlocked;
        },
        cleanup_runs order w free stored,
        refl,
        refl,
        refl,
        λ id. ground (
          arith,
          lookup-sweep c cal writes maxcount deadtime now w.heap ids w.results id,
          o.same id (keys w.results),
          contains-keys-lookup id w.results,
        ),
      )

  -- With the table unlocked, its entries leading to jobs and its short jobs having buffers, a round
  -- takes each expired short job out of the table and backs it up, if its file can be written: the
  -- content of its buffer goes to the file named after the day of its submission and its id, in the
  -- folder for backups.
  pub cleanup_saves :
      (order : List Text → List Text) (w : World) (id : Text) (p : ℕ) (j : Job) (buf : Text)
      → IsRangeOrder order
      → w.maplock ≡ unlocked
      → All (IsStored w.heap) w.results
      → lookup id w.results ≡ some p
      → At w p j
      → is_expired maxcount deadtime now j ≡ true
      → j.islong ≡ false
      → j.result ≡ some buf
      → writes (dump_path c.jobs_outputs_backups_folder cal j) ≡ true
      → (saved : List (Text × Text)) × (w' : World) × (cleanup_map_results c cal writes order
            maxcount deadtime now w
          ≡ returned saved w')
        × (lookup id w'.results ≡ none)
        × Has (dump_path c.jobs_outputs_backups_folder cal j, buf) saved
  cleanup_saves order w id p j buf o free stored found at_p old plain kept able =
      let ids = order (keys w.results) in
      let held = job_of_found w.heap w.results id found at_p in
      let visited = o.same id (keys w.results) ∙ contains-keys id w.results found in
      (
        (sweep c cal writes maxcount deadtime now w.heap ids w.results).0,
        record w {
          results = (sweep c cal writes maxcount deadtime now w.heap ids w.results).1;
          maplock = unlocked;
        },
        cleanup_runs order w free stored,
        lookup-sweep c cal writes maxcount deadtime now w.heap ids w.results id
            ∙ rw (visited, held, old) refl,
        sweep_saves c cal writes maxcount deadtime now w.heap ids w.results id j buf visited held
            old plain kept able,
      )
