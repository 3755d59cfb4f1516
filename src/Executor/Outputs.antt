-- ===== src/Executor/Outputs.antt =====
-- The outputs that `executeJob` opens for each kind of job, and where it gives up.
use web_based_jobs_worker_se.Base.{
  ℕ, ◌≡◌, refl, Bool, true, false, Option, none, some, Text, set-set, if◌then◌else◌,
}
use web_based_jobs_worker_se.Models.{unlocked, Job}
use web_based_jobs_worker_se.Worker.{World, Outcome, returned, ◌>>◌, put, modify}
use web_based_jobs_worker_se.Worker.Cells.{At, put-At, modify_lem}
use web_based_jobs_worker_se.Executor.{
  Sink, null_device, pipe, file, result_buffer, Cmd, Launching, set_failed_infos, abort, start_cmd,
  launch_streaming, launch_teeing, launch_dumping, launch_output,
}
use web_based_jobs_worker_se.Executor.Finish.{locked_update, locked_update_last}

module _ (e : Launching) (p : ℕ) (j : Job) (w : World) (h : At w p j)
    (free : j.lock ≡ unlocked) where
  abort_lem :
      (err : Text)
      → abort e p err w
        ≡ returned none (
            put p
              (record j {
                endtime = e.failed_at;
                iscompleted = true;
                issuccess = false;
                errormsg = err;
                lock = unlocked;
              })
              w)
  unfolding abort set_failed_infos
  abort_lem err =
      rw
        (locked_update_last p
          (λ k. record k {
            endtime = e.failed_at;
            iscompleted = true;
            issuccess = false;
            errormsg = err;
          })
          j w h free refl)
        refl

-- What is left of a launch whose outputs were opened, or whose first error is given.
unfoldable pub launched : Launching → ℕ → Cmd → Option Text → Job → World → Outcome (Option Cmd)
launched e p cmd none j w =
    returned (some cmd) (put p (record j { pid = e.pid; lock = unlocked }) w)
launched e p cmd (some err) j w = returned none (
    put p
      (record j {
        endtime = e.failed_at;
        iscompleted = true;
        issuccess = false;
        errormsg = err;
        lock = unlocked;
      })
      w)

pub first_error : Option Text → Option Text → Option Text
first_error (some err) later = some err
first_error none later = later

start_cmd_lem :
    (e : Launching)
    → (p : ℕ) → (cmd : Cmd) → (err : Option Text) → (j : Job) → (w : World) → At w p j
    → j.lock ≡ unlocked
    → start_cmd e p cmd err w ≡ launched e p cmd err j w
unfolding start_cmd launched
start_cmd_lem e p cmd (some err) j w h free = abort_lem e p j w h free err
start_cmd_lem e p cmd none j w h free =
    rw
      (locked_update p (λ k. record k { pid = e.pid }) (λ v. returned (some cmd) v) j w h free refl)
      refl

-- The kinds of jobs that `executeJob` tells apart.
pub data Kind : Type 0 where
  short streaming teeing dumping discarding : Kind

pub long_kind : Bool → Bool → Kind
long_kind true false = streaming
long_kind true true = teeing
long_kind false true = dumping
long_kind false false = discarding

unfoldable pub kind_of : Job → Kind
unfolding long_kind
kind_of j = if j.islong then long_kind j.stream j.dump else short

-- The output that each kind gets, the first error that it meets, and the job at that point.
unfoldable pub sink_of : Kind → Text → Sink
sink_of short path = result_buffer
sink_of streaming path = pipe
sink_of teeing path = pipe
sink_of dumping path = file path
sink_of discarding path = null_device

unfoldable pub error_of : Kind → Launching → Option Text
unfolding first_error
error_of short e = e.start_error
error_of streaming e = first_error e.pipe_error e.start_error
error_of teeing e = first_error e.file_error (first_error e.pipe_error e.start_error)
error_of dumping e = first_error e.file_error e.start_error
error_of discarding e = e.start_error

pub is_none : Option Text → Bool
is_none none = true
is_none (some err) = false

unfoldable pub opened : Kind → Text → Launching → Job → Job
unfolding is_none first_error
opened short path e j = record j { starttime = e.now }
opened streaming path e j = record j { starttime = e.now; outpipe = is_none e.pipe_error }
opened teeing path e j = record j {
  starttime = e.now;
  filename = path;
  outstream = if is_none (first_error e.file_error e.pipe_error) then true else j.outstream;
}
opened dumping path e j = record j { starttime = e.now; filename = path }
opened discarding path e j = record j { starttime = e.now }

-- Only the job's own cell counts.
pub launched-put :
    (e : Launching) (p : ℕ) (cmd : Cmd) (err : Option Text) (j k : Job) (w : World)
    → launched e p cmd err j (put p k w) ≡ launched e p cmd err j w
unfolding launched
launched-put e p cmd none j k w = simp set-set
launched-put e p cmd (some err) j k w = simp set-set

module _ (e : Launching) (p : ℕ) (j : Job) (w : World) (h : At w p j)
    (free : j.lock ≡ unlocked) where
  -- An assignment first, then a command that starts or an error.
  assign_start :
      (f : Job → Job) (cmd : Cmd) (err : Option Text)
      → (f j).lock ≡ unlocked
      → (modify p f >> start_cmd e p cmd err) w ≡ launched e p cmd err (f j) w
  assign_start f cmd err idle = rw (modify_lem p j w h f) (
      rw (start_cmd_lem e p cmd err (f j) (put p (f j) w) (put-At p (f j) w h) idle)
        (launched-put e p cmd err (f j) (f j) w))

  assign_abort :
      (f : Job → Job) (cmd : Cmd) (err : Text)
      → (f j).lock ≡ unlocked
      → (modify p f >> abort e p err) w ≡ launched e p cmd (some err) (f j) w
  unfolding launched
  assign_abort f cmd err idle =
      rw (modify_lem p j w h f)
        (rw (abort_lem e p (f j) (put p (f j) w) (put-At p (f j) w h) idle err) (simp set-set))

  launch_streaming_lem :
      (cmd : Cmd) (pipe_error : Option Text)
      → launch_streaming e p cmd pipe_error w
        ≡ launched e p
            (record cmd { stdout = pipe })
            (first_error pipe_error e.start_error)
            (record j { outpipe = is_none pipe_error })
            w
  unfolding launch_streaming first_error is_none
  launch_streaming_lem cmd none =
      assign_start (λ k. record k { outpipe = true }) (record cmd { stdout = pipe }) e.start_error
        free
  launch_streaming_lem cmd (some err) =
      assign_abort (λ k. record k { outpipe = false }) (record cmd { stdout = pipe }) err free

  launch_teeing_lem :
      (cmd : Cmd) (file_error pipe_error : Option Text)
      → launch_teeing e p cmd file_error pipe_error w
        ≡ launched e p
            (record cmd { stdout = pipe })
            (first_error file_error (first_error pipe_error e.start_error))
            (record j {
              outstream = if is_none (first_error file_error pipe_error) then true else j.outstream;
            })
            w
  unfolding launch_teeing first_error is_none launched
  launch_teeing_lem cmd none none =
      assign_start (λ k. record k { outstream = true }) (record cmd { stdout = pipe }) e.start_error
        free
  launch_teeing_lem cmd none (some err) = abort_lem e p j w h free err
  launch_teeing_lem cmd (some err) pipe_error = abort_lem e p j w h free err

  launch_dumping_lem :
      (cmd : Cmd) (path : Text) (file_error : Option Text)
      → launch_dumping e p cmd path file_error w
        ≡ launched e p
            (record cmd { stdout = file path })
            (first_error file_error e.start_error)
            j
            w
  unfolding launch_dumping first_error launched
  launch_dumping_lem cmd path none =
      start_cmd_lem e p (record cmd { stdout = file path }) e.start_error j w h free
  launch_dumping_lem cmd path (some err) = abort_lem e p j w h free err

module _ (e : Launching) (p : ℕ) (j : Job) (w : World) (h : At w p j) (free : j.lock ≡ unlocked)
    (path : Text) (cmd : Cmd) where
  abbrev pub of_kind : Kind → Outcome (Option Cmd)
  of_kind kind =
      launched e p (record cmd { stdout = sink_of kind path }) (error_of kind e)
        (opened kind path (record e { now = j.starttime }) j) w

  abbrev named : Job
  named = record j { filename = path }

  pub launch_output_lem :
      (islong stream dump : Bool)
      → launch_output islong stream dump e p path cmd w
        ≡ of_kind (if islong then long_kind stream dump else short)
  unfolding launch_output long_kind sink_of error_of opened
  launch_output_lem false stream dump =
      start_cmd_lem e p (record cmd { stdout = result_buffer }) e.start_error j w h free
  launch_output_lem true false false =
      start_cmd_lem e p (record cmd { stdout = null_device }) e.start_error j w h free
  launch_output_lem true false true = rw (modify_lem p j w h (λ k. record k { filename = path })) (
      rw
        (launch_dumping_lem e p named (put p named w) (put-At p named w h) free cmd path
          e.file_error)
        (launched-put e p (record cmd { stdout = file path })
          (first_error e.file_error e.start_error) named named w))
  launch_output_lem true true false = launch_streaming_lem e p j w h free cmd e.pipe_error
  launch_output_lem true true true = rw (modify_lem p j w h (λ k. record k { filename = path })) (
      rw
        (launch_teeing_lem e p named (put p named w) (put-At p named w h) free cmd e.file_error
          e.pipe_error)
        (launched-put e p (record cmd { stdout = pipe })
          (first_error e.file_error (first_error e.pipe_error e.start_error))
          (record named {
            outstream =
                if is_none (first_error e.file_error e.pipe_error) then true else j.outstream;
          })
          named w))
