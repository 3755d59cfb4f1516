-- ===== src/Reachable/Running.antt =====
-- The monitor, the executor and the cleanup keep the agreement of table and heap.
use web_based_jobs_worker_se.Base.{
  ℕ, ◌≡◌, refl, inl, inr, Bool, true, false, List, [], ◌∷◌, ◌++◌, Option, none, some, arith, Text,
  text_key, ◌==◌, ℤ, Bool-cases, ltb, ◌-◌,
}
use web_based_jobs_worker_se.GoMap.{lookup, lookup-erase, keys}
use web_based_jobs_worker_se.Models.{Time, Job}
use web_based_jobs_worker_se.Config.{Configuration}
use web_based_jobs_worker_se.Env.{Calendar}
use web_based_jobs_worker_se.Worker.{
  M, ◌>>◌, pure, block, store, modify, job_lock, job_unlock, map_lock, map_unlock, find_job,
}
use web_based_jobs_worker_se.Worker.Kept.{
  Agrees, Keeps, bind-Agrees, bind-Keeps, if-Keeps, branch-Agrees, either-Keeps, load-Keeps,
  store-Agrees, modify-Keeps, job_lock-Keeps, job_unlock-Keeps, map_lock-Keeps, map_unlock-Keeps,
}
use web_based_jobs_worker_se.Executor.{
  Cmd, Launching, Event, deadline_exceeded, canceled, stop_requested, done, WaitError,
  set_failed_infos, abort, start_cmd, launch_streaming, launch_teeing, launch_dumping,
  launch_output, launch, Wake, job_ready, exit, jobs_monitor, receive_job, receive_stop,
  select_event, set_exit_status, conclude, finish, execute_job, command_of, dump_path, file, pipe,
  null_device, result_buffer,
}
use web_based_jobs_worker_se.Cleanup.{
  is_expired, backup, backup_result, delete_job, cleanup_loop, cleanup_map_results,
}

set_failed_infos-Keeps : (p : ℕ) (t : Time) (e : Text) → Keeps (set_failed_infos p t e)
unfolding set_failed_infos
set_failed_infos-Keeps p t e =
    bind-Keeps (job_lock p) _ (job_lock-Keeps p)
      (λ _. bind-Keeps (modify p _) _ (modify-Keeps p _ (λ j. refl)) (λ _. job_unlock-Keeps p))

abort-Keeps : (e : Launching) (p : ℕ) (err : Text) → Keeps (abort e p err)
unfolding abort
abort-Keeps e p err =
    bind-Keeps (set_failed_infos p e.failed_at err) _ (set_failed_infos-Keeps p e.failed_at err)
      (λ _ w v. v)

start_cmd-Keeps :
    (e : Launching) (p : ℕ) (cmd : Cmd) (err : Option Text) → Keeps (start_cmd e p cmd err)
unfolding start_cmd
start_cmd-Keeps e p cmd (some err) = abort-Keeps e p err
start_cmd-Keeps e p cmd none = bind-Keeps (job_lock p) _ (job_lock-Keeps p) (λ _.
    bind-Keeps (modify p _) _ (modify-Keeps p _ (λ j. refl))
      (λ _. bind-Keeps (job_unlock p) _ (job_unlock-Keeps p) (λ _ w v. v)))

launch_streaming-Keeps :
    (e : Launching) (p : ℕ) (cmd : Cmd) (err : Option Text) → Keeps (launch_streaming e p cmd err)
unfolding launch_streaming
launch_streaming-Keeps e p cmd (some err) =
    bind-Keeps (modify p _) _ (modify-Keeps p _ (λ j. refl)) (λ _. abort-Keeps e p err)
launch_streaming-Keeps e p cmd none =
    bind-Keeps (modify p _) _ (modify-Keeps p _ (λ j. refl))
      (λ _. start_cmd-Keeps e p (record cmd { stdout = pipe }) e.start_error)

launch_teeing-Keeps :
    (e : Launching) (p : ℕ) (cmd : Cmd) (err pipe_error : Option Text)
    → Keeps (launch_teeing e p cmd err pipe_error)
unfolding launch_teeing
launch_teeing-Keeps e p cmd (some err) pipe_error = abort-Keeps e p err
launch_teeing-Keeps e p cmd none (some err) = abort-Keeps e p err
launch_teeing-Keeps e p cmd none none =
    bind-Keeps (modify p _) _ (modify-Keeps p _ (λ j. refl))
      (λ _. start_cmd-Keeps e p (record cmd { stdout = pipe }) e.start_error)

launch_dumping-Keeps :
    (e : Launching) (p : ℕ) (cmd : Cmd) (path : Text) (err : Option Text)
    → Keeps (launch_dumping e p cmd path err)
unfolding launch_dumping
launch_dumping-Keeps e p cmd path (some err) = abort-Keeps e p err
launch_dumping-Keeps e p cmd path none =
    start_cmd-Keeps e p (record cmd { stdout = file path }) e.start_error

launch_output-Keeps :
    (islong stream dump : Bool) (e : Launching) (p : ℕ) (path : Text) (cmd : Cmd)
    → Keeps (launch_output islong stream dump e p path cmd)
unfolding launch_output
launch_output-Keeps false stream dump e p path cmd =
    start_cmd-Keeps e p (record cmd { stdout = result_buffer }) e.start_error
launch_output-Keeps true true false e p path cmd = launch_streaming-Keeps e p cmd e.pipe_error
launch_output-Keeps true true true e p path cmd =
    bind-Keeps (modify p _) _ (modify-Keeps p _ (λ j. refl))
      (λ _. launch_teeing-Keeps e p cmd e.file_error e.pipe_error)
launch_output-Keeps true false true e p path cmd =
    bind-Keeps (modify p _) _ (modify-Keeps p _ (λ j. refl))
      (λ _. launch_dumping-Keeps e p cmd path e.file_error)
launch_output-Keeps true false false e p path cmd =
    start_cmd-Keeps e p (record cmd { stdout = null_device }) e.start_error

pub launch-Keeps :
    (c : Configuration) (cal : Calendar) (e : Launching) (p : ℕ) → Keeps (launch c cal e p)
unfolding launch
launch-Keeps c cal e p = bind-Keeps (modify p _) _ (modify-Keeps p _ (λ j. refl)) (λ _.
    load-Keeps p _ (λ j w v there.
      launch_output-Keeps j.islong j.stream j.dump e p (dump_path c.jobs_outputs_folder cal j)
        (command_of c e.windows j) w v))

receive_stop-Keeps : (p : ℕ) → Keeps (receive_stop p)
unfolding receive_stop
receive_stop-Keeps p = load-Keeps p _ (λ j w v there.
    branch-Agrees (ltb 0 j.stop) (store p (record j { stop = j.stop - 1 })) block w
      (store-Agrees p j (record j { stop = j.stop - 1 }) w v there refl) v)

select_event-Keeps : (event : Event) (p : ℕ) → Keeps (select_event event p)
unfolding select_event
select_event-Keeps deadline_exceeded p w v = v
select_event-Keeps canceled p w v = v
select_event-Keeps stop_requested p w v =
    bind-Keeps (receive_stop p) _ (receive_stop-Keeps p) (λ _ w v. v) w v
select_event-Keeps (done err) p w v = v

set_exit_status-Keeps : (status : Option ℤ) (p : ℕ) → Keeps (set_exit_status status p)
unfolding set_exit_status
set_exit_status-Keeps none p w v = v
set_exit_status-Keeps (some status) p w v = modify-Keeps p _ (λ j. refl) w v

-- An assignment under the lock of the job.
locked-Keeps :
    {A : Type 0} (p : ℕ) (f : Job → Job) (m : M A)
    → ((j : Job) → (f j).id ≡ j.id)
    → Keeps m
    → Keeps (job_lock p >> (modify p f >> (job_unlock p >> m)))
locked-Keeps p f m same k = bind-Keeps (job_lock p) _ (job_lock-Keeps p) (λ _.
    bind-Keeps (modify p f) _ (modify-Keeps p f same)
      (λ _. bind-Keeps (job_unlock p) _ (job_unlock-Keeps p) (λ _. k)))

conclude-Keeps : (err : Option WaitError) (stopped : Bool) (p : ℕ) → Keeps (conclude err stopped p)
unfolding conclude
conclude-Keeps (some err) stopped p =
    locked-Keeps p _ (set_exit_status err.exit_status p) (λ j. refl)
      (set_exit_status-Keeps err.exit_status p)
conclude-Keeps none true p =
    bind-Keeps (job_lock p) _ (job_lock-Keeps p)
      (λ _. bind-Keeps (modify p _) _ (modify-Keeps p _ (λ j. refl)) (λ _. job_unlock-Keeps p))
conclude-Keeps none false p =
    locked-Keeps p _ _ (λ j. refl)
      (bind-Keeps (job_lock p) _ (job_lock-Keeps p)
        (λ _. bind-Keeps (modify p _) _ (modify-Keeps p _ (λ j. refl)) (λ _. job_unlock-Keeps p)))

pub finish-Keeps : (event : Event) (now : Time) (p : ℕ) → Keeps (finish event now p)
unfolding finish
finish-Keeps event now p =
    bind-Keeps (select_event event p) _ (select_event-Keeps event p)
      (λ o. locked-Keeps p _ (conclude o.0 o.1 p) (λ j. refl) (conclude-Keeps o.0 o.1 p))

-- `executeJob`, however the process ends.
pub execute_job-Keeps :
    (c : Configuration) (cal : Calendar) (e : Launching) (event : Event) (now : Time) (p : ℕ)
    → Keeps (execute_job c cal e event now p)
unfolding execute_job
execute_job-Keeps c cal e event now p =
    bind-Keeps (launch c cal e p) _ (launch-Keeps c cal e p) (λ cmd.
      either-Keeps cmd (pure tt) (λ _. finish event now p) (λ w v. v)
        (λ _. finish-Keeps event now p))

pub jobs_monitor-Keeps : (wake : Wake) → Keeps (jobs_monitor wake)
unfolding jobs_monitor receive_job
jobs_monitor-Keeps exit w v = v
jobs_monitor-Keeps job_ready w v = received w.queue
  where
    received : (q : List ℕ) → Agrees (receive_job q w)
    received [] = v
    received (p ∷ ps) = v

delete_job-Keeps : (id : Text) → Keeps (delete_job id)
unfolding delete_job
delete_job-Keeps id w v sought p found = elim (Bool-cases (id == sought)) [
  | inl same ↦ absurd (ground (arith, lookup-erase id sought w.results, same, found))
  | inr other ↦ v sought p (ground (arith, lookup-erase id sought w.results, other, found))
]

backup_result-Keeps :
    (writes : Text → Bool) (path : Text) (result : Option Text)
    → Keeps (backup_result writes path result)
unfolding backup_result
backup_result-Keeps writes path none w v = v
backup_result-Keeps writes path (some buf) w v = v

backup-Keeps :
    (c : Configuration) (cal : Calendar) (writes : Text → Bool) (j : Job)
    → Keeps (backup c cal writes j)
unfolding backup
backup-Keeps c cal writes j =
    if-Keeps j.islong (pure []) (backup_result writes _ j.result) (λ w v. v)
      (backup_result-Keeps writes _ j.result)

cleanup_loop-Keeps :
    (c : Configuration) (cal : Calendar) (writes : Text → Bool) (maxcount deadtime : ℤ) (now : Time)
    (ids : List Text)
    → Keeps (cleanup_loop c cal writes maxcount deadtime now ids)
unfolding cleanup_loop find_job
cleanup_loop-Keeps c cal writes maxcount deadtime now [] w v = v
cleanup_loop-Keeps c cal writes maxcount deadtime now (id ∷ ids) w v =
    either-Keeps (lookup id w.results) (cleanup_loop c cal writes maxcount deadtime now ids) _
      (cleanup_loop-Keeps c cal writes maxcount deadtime now ids)
      (λ p. load-Keeps p _ (λ j w v there.
        branch-Agrees (is_expired maxcount deadtime now j) _
          (cleanup_loop c cal writes maxcount deadtime now ids) w
          (bind-Agrees (backup c cal writes j w) _ (backup-Keeps c cal writes j w v) (λ saved.
            bind-Keeps (delete_job id) _ (delete_job-Keeps id) (λ _.
              bind-Keeps (cleanup_loop c cal writes maxcount deadtime now ids)
                (λ rest. pure (saved ++ rest))
                (cleanup_loop-Keeps c cal writes maxcount deadtime now ids) (λ rest w v. v))))
          (cleanup_loop-Keeps c cal writes maxcount deadtime now ids w v)))
      w v

pub cleanup_map_results-Keeps :
    (c : Configuration) (cal : Calendar) (writes : Text → Bool) (order : List Text → List Text)
    (maxcount deadtime : ℤ) (now : Time)
    → Keeps (cleanup_map_results c cal writes order maxcount deadtime now)
unfolding cleanup_map_results
cleanup_map_results-Keeps c cal writes order maxcount deadtime now =
    bind-Keeps map_lock _ map_lock-Keeps (λ _ w v.
      bind-Agrees (cleanup_loop c cal writes maxcount deadtime now (order (keys w.results)) w) _
        (cleanup_loop-Keeps c cal writes maxcount deadtime now (order (keys w.results)) w v)
        (λ saved. bind-Keeps map_unlock _ map_unlock-Keeps (λ _ w v. v)))
