-- ===== src/Executor/Execute.antt =====
-- `executeJob` from start to end, and what a restart finds of an earlier run.
use web_based_jobs_worker_se.Base.{
  ℕ, ◌<◌, ◌-◌, ◌≡◌, refl, ap, ◌∙◌, true, false, Option, none, some, arith, Text, negsuc, set-set,
}
use web_based_jobs_worker_se.Models.{unlocked, Time, Job}
use web_based_jobs_worker_se.Config.{Configuration}
use web_based_jobs_worker_se.Env.{Calendar}
use web_based_jobs_worker_se.Worker.{
  World, Outcome, M, returned, blocked, panicked, pure, bind, ◌>>◌, put,
}
use web_based_jobs_worker_se.Worker.Cells.{At, put-put, put-At}
use web_based_jobs_worker_se.Control.{reset_fields, reset_completed_job_infos}
use web_based_jobs_worker_se.Control.Reset.{reset_of, reset_completed_job_infos_lem}
use web_based_jobs_worker_se.Executor.{
  WaitError, Cmd, Launching, Event, stop_requested, deadline_exceeded, canceled, done, dump_path,
  finish, execute_job,
}
use web_based_jobs_worker_se.Executor.Finish.{ended, CanHappen, finish_lem}
use web_based_jobs_worker_se.Executor.Outputs.{Kind, short, kind_of, error_of, opened, launched}
use web_based_jobs_worker_se.Executor.Launch.{command, launch_lem}

-- The job that is left: failed where it could not start, and else as the event says.
unfoldable settled : Option Text → Launching → Event → Time → Job → Job
settled (some err) e event now o = record o {
  endtime = e.failed_at;
  iscompleted = true;
  issuccess = false;
  errormsg = err;
  lock = unlocked;
}
settled none e event now o = ended event now (record o { pid = e.pid; lock = unlocked })

unfoldable pub executed : Text → Launching → Event → Time → Job → Job
unfolding settled
executed path e event now j =
    settled (error_of (kind_of j) e) e event now (opened (kind_of j) path e j)

opened_stop :
    (kind : Kind) (path : Text) (e : Launching) (j : Job) → (opened kind path e j).stop ≡ j.stop
unfolding opened
opened_stop kind path e j = ground arith

opened_lock :
    (kind : Kind) (path : Text) (e : Launching) (j : Job) → (opened kind path e j).lock ≡ j.lock
unfolding opened
opened_lock kind path e j = ground arith

pub CanHappen-same :
    (event : Event) (j o : Job) → o.stop ≡ j.stop → CanHappen event j → CanHappen event o
unfolding CanHappen
CanHappen-same stop_requested j o same ok = rw same ok
CanHappen-same deadline_exceeded j o same ok = tt
CanHappen-same canceled j o same ok = tt
CanHappen-same (done err) j o same ok = tt

-- What remains of the run once the launch is over.
run_launched :
    (e : Launching) (event : Event) (now : Time) (p : ℕ) (cmd : Cmd) (err : Option Text) (j o : Job)
    (w : World)
    → At w p j
    → CanHappen event o
    → bind
        (launched e p cmd err o w)
        (λ cmd. elim cmd [ none ↦ pure tt | some _ ↦ finish event now p ])
      ≡ returned tt (put p (settled err e event now o) w)
unfolding launched settled
run_launched e event now p cmd (some err) j o w h ok = refl
run_launched e event now p cmd none j o w h ok =
    let o₁ = record o { pid = e.pid; lock = unlocked } in
    rw
      (finish_lem now p o₁ (put p o₁ w) (put-At p o₁ w h) refl event
        (CanHappen-same event o o₁ refl ok))
      (simp set-set)

settled_completes :
    (err : Option Text) (e : Launching) (event : Event) (now : Time) (o : Job)
    → ((settled err e event now o).iscompleted ≡ true)
      × ((settled err e event now o).lock ≡ unlocked)
unfolding settled ended
settled_completes err e event now o = (ground arith, ground arith)

module _ (c : Configuration) (cal : Calendar) (e : Launching) (event : Event) (now : Time) (p : ℕ)
    (j : Job) (w : World) (h : At w p j) (free : j.lock ≡ unlocked) (ok : CanHappen event j) where
  abbrev file_path : Text
  file_path = dump_path c.jobs_outputs_folder cal j

  -- However a job whose lock is free is launched, and whatever event that can happen ends the wait
  -- (a stop only if one was requested), `executeJob` returns and has changed that job only, which
  -- is then completed and has its lock free.
  pub execute_job_completes :
      (execute_job c cal e event now p w ≡ returned tt (put p (executed file_path e event now j) w))
      × ((executed file_path e event now j).iscompleted ≡ true)
      × ((executed file_path e event now j).lock ≡ unlocked)
  unfolding execute_job executed
  execute_job_completes =
      let kind = kind_of j in
      let o = opened kind file_path e j in
      (
        rw (launch_lem c cal e p j w h free) (
            run_launched e event now p (command c cal e p j w h free) (error_of kind e) j o w h
              (CanHappen-same event j o (opened_stop kind file_path e j) ok)),
        (settled_completes (error_of kind e) e event now o).0,
        (settled_completes (error_of kind e) e event now o).1,
      )

reset-settled :
    (err : Option Text) (path : Text) (e : Launching) (event : Event) (now : Time) (j : Job)
    → reset_of (settled err e event now (opened short path e j))
      ≡ record (reset_of j) { stop = (settled err e event now (opened short path e j)).stop }
unfolding settled ended opened reset_fields
reset-settled (some err) path e event now j = refl
reset-settled none path e (done none) now j = refl
reset-settled none path e (done (some err)) now j = refl
reset-settled none path e stop_requested now j = refl
reset-settled none path e deadline_exceeded now j = refl
reset-settled none path e canceled now j = refl

settled_result :
    (err : Option Text) (path : Text) (e : Launching) (event : Event) (now : Time) (j : Job)
    → (settled err e event now (opened short path e j)).result ≡ j.result
unfolding settled ended opened
settled_result err path e event now j = ground arith

-- A short job, by its flag.
kind_of_short : (j : Job) → j.islong ≡ false → kind_of j ≡ short
unfolding kind_of
kind_of_short j e = ground arith

executed_short :
    (path : Text) (e : Launching) (event : Event) (now : Time) (j : Job)
    → j.islong ≡ false
    → executed path e event now j ≡ settled (error_of short e) e event now (opened short path e j)
unfolding executed
executed_short path e event now j plain =
    ap (λ kind. settled (error_of kind e) e event now (opened kind path e j))
      (kind_of_short j plain)

reset-executed :
    (path : Text) (e : Launching) (event : Event) (now : Time) (j : Job)
    → j.islong ≡ false
    → reset_of (executed path e event now j)
      ≡ record (reset_of j) { stop = (executed path e event now j).stop }
reset-executed path e event now j plain =
    rw (executed_short path e event now j plain)
      (reset-settled (error_of short e) path e event now j)

-- A run that no stop request ends leaves the channel as it was.
settled_stop :
    (err : Option Text) (path : Text) (e : Launching) (end : Option WaitError) (now : Time)
    (j : Job)
    → (settled err e (done end) now (opened short path e j)).stop ≡ j.stop
unfolding settled ended opened
settled_stop err path e end now j = ground arith

settled_stopped :
    (path : Text) (e : Launching) (now : Time) (k : Job) (err : Option Text)
    → err ≡ none
    → let x = settled err e stop_requested now (opened short path e k) in
      (x.stop ≡ k.stop - 1)
      × (x.iscompleted ≡ true)
      × (x.issuccess ≡ true)
      × (x.exitcode ≡ k.exitcode)
unfolding settled ended opened
settled_stopped path e now k err none_met = rw none_met (refl, refl, refl, refl)

-- A short job that starts and is then stopped.
stopped_run :
    (path : Text) (e : Launching) (now : Time) (k : Job)
    → k.islong ≡ false
    → error_of short e ≡ none
    → let x = executed path e stop_requested now k in
      (x.stop ≡ k.stop - 1)
      × (x.iscompleted ≡ true)
      × (x.issuccess ≡ true)
      × (x.exitcode ≡ k.exitcode)
stopped_run path e now k plain ok =
    rw (executed_short path e stop_requested now k plain)
      (settled_stopped path e now k (error_of short e) ok)

-- Sequences of steps associate.
bind_assoc :
    (x : Outcome (Unit {0})) (b k : M (Unit {0}))
    → bind x (λ _. b >> k) ≡ bind (bind x (λ _. b)) (λ _. k)
bind_assoc (returned u w) b k = refl
bind_assoc (blocked w) b k = refl
bind_assoc (panicked w) b k = refl

module _ (c : Configuration) (cal : Calendar) (p : ℕ) (j : Job) (w : World) (h : At w p j)
    (free : j.lock ≡ unlocked) (plain : j.islong ≡ false) {buf : Text}
    (stored : j.result ≡ some buf) where
  -- For a short job with a buffer and a free lock, resetting it after a run, however the run
  -- started and ended, gives what resetting it before the run would have given, but for the stop
  -- channel, which is as the run left it.
  pub reset_after_run :
      (e : Launching) (event : Event) (now : Time)
      → CanHappen event j
      → let path = dump_path c.jobs_outputs_folder cal j in
        (execute_job c cal e event now p >> reset_completed_job_infos p) w
        ≡ returned tt (put p (record (reset_of j) { stop = (executed path e event now j).stop }) w)
  reset_after_run e event now ok =
      let path = dump_path c.jobs_outputs_folder cal j in
      let k = executed path e event now j in
      let w₁ = put p k w in
      let run = execute_job_completes c cal e event now p j w h free ok in
      rw run.0 (
        rw
          (reset_completed_job_infos_lem p k w₁ (put-At p k w h) run.2 (
            ap (λ (x : Job). x.result) (executed_short path e event now j plain)
            ∙ (settled_result (error_of short e) path e event now j ∙ stored)))
          (rw (reset-executed path e event now j plain)
            (ap (λ v. returned tt v) (put-put p k (record (reset_of j) { stop = k.stop }) w))))

  -- For a short job with a buffer and a free lock, a stop request that the first run has not taken
  -- when it ends survives the reset: the next run, if its process starts, can be stopped by it,
  -- although nobody asked for that. The job is then recorded as a success with the exit code -1 of
  -- a stopped job.
  pub stale_stop :
      (e₁ e₂ : Launching) (end : Option WaitError) (t₁ t₂ : Time)
      → 0 < j.stop
      → e₂.start_error ≡ none
      → (w' : World) × (k : Job) × ((execute_job c cal e₁ (done end) t₁ p
              >> (reset_completed_job_infos p >> execute_job c cal e₂ stop_requested t₂ p))
            w
          ≡ returned tt w')
        × (At w' p k)
        × (k.stop ≡ j.stop - 1)
        × (k.iscompleted ≡ true)
        × (k.issuccess ≡ true)
        × (k.exitcode ≡ negsuc 0)
  unfolding reset_fields error_of CanHappen
  stale_stop e₁ e₂ end t₁ t₂ pending ok =
      let path = dump_path c.jobs_outputs_folder cal j in
      let k₁ = executed path e₁ (done end) t₁ j in
      let kept =
        ap (λ (x : Job). x.stop) (executed_short path e₁ (done end) t₁ j plain)
        ∙ settled_stop (error_of short e₁) path e₁ end t₁ j in
      let k₂ = record (reset_of j) { stop = k₁.stop } in
      let w₂ = put p k₂ w in
      let h₂ = put-At p k₂ w h in
      let path₂ = dump_path c.jobs_outputs_folder cal k₂ in
      let k₃ = executed path₂ e₂ stop_requested t₂ k₂ in
      let facts = stopped_run path₂ e₂ t₂ k₂ plain ok in
      let second =
        execute_job_completes c cal e₂ stop_requested t₂ p k₂ w₂ h₂ refl (rw kept pending) in
      (
        put p k₃ w₂,
        k₃,
        bind_assoc (execute_job c cal e₁ (done end) t₁ p w) (reset_completed_job_infos p)
              (execute_job c cal e₂ stop_requested t₂ p)
            ∙ (ap (λ x. bind x (λ _. execute_job c cal e₂ stop_requested t₂ p))
                  (reset_after_run e₁ (done end) t₁ tt)
                ∙ second.0),
        put-At p k₃ w₂ h₂,
        facts.0 ∙ ap (λ n. n - 1) kept,
        facts.1,
        facts.2,
        facts.3,
      )
