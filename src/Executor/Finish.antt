-- ===== src/Executor/Finish.antt =====
-- How a job ends: what `executeJob` records for each case of its `select`.
use web_based_jobs_worker_se.Base.{
  ℕ, ◌<◌, ◌-◌, ◌≡◌, refl, Bool, true, false, Option, none, some, arith, ℤ, pos, set-set,
}
use web_based_jobs_worker_se.Models.{unlocked, writing, Time, Job}
use web_based_jobs_worker_se.Worker.{World, M, returned, ◌>>◌, put, modify, job_lock, job_unlock}
use web_based_jobs_worker_se.Worker.Cells.{
  At, put-At, load_lem, modify_lem, job_lock_lem, job_unlock_lem,
}
use web_based_jobs_worker_se.Executor.{
  WaitError, Event, deadline_exceeded, canceled, stop_requested, done, receive_stop, select_event,
  set_exit_status, conclude, finish,
}

-- An assignment between locking and unlocking, and what follows it.
pub locked_update :
    {A : Type 0} (p : ℕ) (f : Job → Job) (k : M A) (j : Job) (w : World)
    → At w p j
    → j.lock ≡ unlocked
    → (f (record j { lock = writing })).lock ≡ writing
    → (job_lock p >> (modify p f >> (job_unlock p >> k))) w
      ≡ k (put p (record (f (record j { lock = writing })) { lock = unlocked }) w)
locked_update p f k j w h free kept =
    let j₁ = record j { lock = writing } in
    let w₁ = put p j₁ w in
    let w₂ = put p (f j₁) w₁ in
    let h₁ = put-At p j₁ w h in
    let h₂ = put-At p (f j₁) w₁ h₁ in
    rw (job_lock_lem p j w h free)
      (rw (modify_lem p j₁ w₁ h₁ f) (rw (job_unlock_lem p (f j₁) w₂ h₂ kept) (simp set-set)))

pub locked_update_last :
    (p : ℕ) (f : Job → Job) (j : Job) (w : World)
    → At w p j
    → j.lock ≡ unlocked
    → (f (record j { lock = writing })).lock ≡ writing
    → (job_lock p >> (modify p f >> job_unlock p)) w
      ≡ returned tt (put p (record (f (record j { lock = writing })) { lock = unlocked }) w)
locked_update_last p f j w h free kept =
    let j₁ = record j { lock = writing } in
    let w₁ = put p j₁ w in
    let w₂ = put p (f j₁) w₁ in
    let h₁ = put-At p j₁ w h in
    let h₂ = put-At p (f j₁) w₁ h₁ in
    rw (job_lock_lem p j w h free)
      (rw (modify_lem p j₁ w₁ h₁ f) (rw (job_unlock_lem p (f j₁) w₂ h₂ kept) (simp set-set)))

-- The exit status of an error, where it has one.
unfoldable exit_code_of : Job → Option ℤ → ℤ
exit_code_of j none = j.exitcode
exit_code_of j (some status) = status

-- The job that is left for each case of the `select`.
unfoldable pub ended : Event → Time → Job → Job
unfolding exit_code_of
ended (done none) now j = record j {
  iscompleted = true;
  endtime = now;
  issuccess = true;
  exitcode = pos 0;
  lock = unlocked;
}
ended (done (some err)) now j = record j {
  iscompleted = true;
  endtime = now;
  issuccess = false;
  errormsg = err.message;
  exitcode = exit_code_of j err.exit_status;
  lock = unlocked;
}
ended stop_requested now j = record j {
  stop = j.stop - 1;
  iscompleted = true;
  endtime = now;
  issuccess = true;
  lock = unlocked;
}
ended deadline_exceeded now j = record j {
  iscompleted = true;
  endtime = now;
  issuccess = true;
  exitcode = pos 0;
  lock = unlocked;
}
ended canceled now j = record j {
  iscompleted = true;
  endtime = now;
  issuccess = true;
  exitcode = pos 0;
  lock = unlocked;
}

-- Only a stop that was requested can be received.
unfoldable pub CanHappen : Event → Job → Type 0
CanHappen stop_requested j = 0 < j.stop
CanHappen deadline_exceeded j = Unit
CanHappen canceled j = Unit
CanHappen (done err) j = Unit

module _ (p : ℕ) (j : Job) (w : World) (h : At w p j) where
  receive_stop_lem :
      0 < j.stop → receive_stop p w ≡ returned tt (put p (record j { stop = j.stop - 1 }) w)
  unfolding receive_stop
  receive_stop_lem pending = rw (load_lem p j w h) (ground arith)

  module _ (free : j.lock ≡ unlocked) where
    conclude_failed :
        (err : WaitError) (stopped : Bool)
        → conclude (some err) stopped p w
          ≡ returned tt (
              put p
                (record j {
                  issuccess = false;
                  errormsg = err.message;
                  exitcode = exit_code_of j err.exit_status;
                  lock = unlocked;
                })
                w)
    unfolding conclude set_exit_status exit_code_of
    conclude_failed err stopped =
        let f = λ (k : Job). record k { issuccess = false; errormsg = err.message } in
        let j₁ = record (f j) { lock = unlocked } in
        rw (locked_update p f (set_exit_status err.exit_status p) j w h free refl)
          (set_status err.exit_status)
      where
        set_status :
            (status : Option ℤ)
            → set_exit_status status p
                (put p (record j { issuccess = false; errormsg = err.message; lock = unlocked }) w)
              ≡ returned tt (
                  put p
                    (record j {
                      issuccess = false;
                      errormsg = err.message;
                      exitcode = exit_code_of j status;
                      lock = unlocked;
                    })
                    w)
        set_status none = refl
        set_status (some s) =
            let j₁ = record j { issuccess = false; errormsg = err.message; lock = unlocked } in
            rw (modify_lem p j₁ (put p j₁ w) (put-At p j₁ w h) (λ k. record k { exitcode = s }))
              (simp set-set)

    conclude_stopped :
        conclude none true p w
        ≡ returned tt (put p (record j { issuccess = true; lock = unlocked }) w)
    unfolding conclude
    conclude_stopped = locked_update_last p (λ k. record k { issuccess = true }) j w h free refl

    conclude_done :
        conclude none false p w
        ≡ returned tt (put p (record j { issuccess = true; exitcode = pos 0; lock = unlocked }) w)
    unfolding conclude
    conclude_done =
        let f = λ (k : Job). record k { issuccess = true } in
        let g = λ (k : Job). record k { exitcode = pos 0 } in
        let j₁ = record (f j) { lock = unlocked } in
        rw (locked_update p f (job_lock p >> (modify p g >> job_unlock p)) j w h free refl)
          (rw (locked_update_last p g j₁ (put p j₁ w) (put-At p j₁ w h) refl refl) (simp set-set))

-- The steps after the `select`, whatever it left.
record_end :
    (err : Option WaitError) (stopped : Bool) (now : Time) (p : ℕ) (j : Job) (w : World)
    → At w p j
    → j.lock ≡ unlocked
    → (job_lock p
          >> (modify p (λ k. record k { iscompleted = true; endtime = now })
              >> (job_unlock p >> conclude err stopped p)))
        w
      ≡ conclude err stopped p
          (put p (record j { iscompleted = true; endtime = now; lock = unlocked }) w)
record_end err stopped now p j w h free =
    locked_update p (λ k. record k { iscompleted = true; endtime = now }) (conclude err stopped p) j
      w h free refl

module _ (now : Time) (p : ℕ) (j : Job) (w : World) (h : At w p j) (free : j.lock ≡ unlocked) where
  finish_done : finish (done none) now p w ≡ returned tt (put p (ended (done none) now j) w)
  unfolding finish select_event ended
  finish_done =
      let j₁ = record j { iscompleted = true; endtime = now; lock = unlocked } in
      rw (record_end none false now p j w h free)
        (rw (conclude_done p j₁ (put p j₁ w) (put-At p j₁ w h) refl) (simp set-set))

  finish_failed :
      (err : WaitError)
      → finish (done (some err)) now p w ≡ returned tt (put p (ended (done (some err)) now j) w)
  unfolding finish select_event ended exit_code_of
  finish_failed err =
      let j₁ = record j { iscompleted = true; endtime = now; lock = unlocked } in
      rw (record_end (some err) false now p j w h free)
        (rw (conclude_failed p j₁ (put p j₁ w) (put-At p j₁ w h) refl err false) (simp set-set))

  finish_stopped :
      0 < j.stop
      → finish stop_requested now p w ≡ returned tt (put p (ended stop_requested now j) w)
  unfolding finish select_event ended
  finish_stopped pending =
      let j₀ = record j { stop = j.stop - 1 } in
      let w₀ = put p j₀ w in
      let h₀ = put-At p j₀ w h in
      let j₁ = record j₀ { iscompleted = true; endtime = now; lock = unlocked } in
      rw (receive_stop_lem p j w h pending) (
        rw (record_end none true now p j₀ w₀ h₀ free)
          (rw (conclude_stopped p j₁ (put p j₁ w₀) (put-At p j₁ w₀ h₀) refl) (simp set-set)))

  -- Whatever event that can happen ends the wait on a job whose lock is free, `executeJob` returns,
  -- has changed nothing but the job, and leaves it as `ended` says: completed at that time, with
  -- its lock free, and a failure only where the process itself ended with an error.
  pub finish_lem :
      (event : Event)
      → CanHappen event j
      → finish event now p w ≡ returned tt (put p (ended event now j) w)
  unfolding finish ended CanHappen
  finish_lem (done none) ok = finish_done
  finish_lem (done (some err)) ok = finish_failed err
  finish_lem stop_requested ok = finish_stopped ok
  finish_lem deadline_exceeded ok = finish_done
  finish_lem canceled ok = finish_done

  -- A job with a free lock whose timeout expires, and one that the worker cancels when it exits,
  -- are recorded just as a job whose process ended by itself without an error: completed,
  -- successful, exit code 0.
  pub timed_out_reported_success :
      (finish deadline_exceeded now p w
        ≡ returned tt (
            put p
              (record j {
                iscompleted = true;
                endtime = now;
                issuccess = true;
                exitcode = pos 0;
                lock = unlocked;
              })
              w))
      × (finish deadline_exceeded now p w ≡ finish (done none) now p w)
      × (finish canceled now p w ≡ finish (done none) now p w)
  unfolding finish ended
  timed_out_reported_success = (finish_done, refl, refl)
